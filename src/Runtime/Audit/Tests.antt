-- ===== src/Runtime/Audit/Tests.antt =====
-- A history with calls that return and a call that raises.
use astra_agent.Base.{some, none, List, [], ◌∷◌, Extends}
use astra_agent.Domain.Kinds.{TaskState}
use astra_agent.Runtime.Samples.{env, task_running}
use astra_agent.Runtime.Calls.{Call, calls}
use astra_agent.Runtime.Audit.Histories.{calls-Extends}

abbrev history : List Call
history =
    Call.heartbeat env 1 3 (some 30) none
    ∷ Call.finish_task env 1 3 30 500 TaskState.completed "found" []
    ∷ Call.revoke_remote_agent env 1 3 2
    ∷ []

calls-Extends_example : Extends task_running.events (calls history task_running).events
calls-Extends_example = calls-Extends history task_running
