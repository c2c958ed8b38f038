-- ===== src/Runtime/Invocations/Tests.antt =====
-- An invocation that is requested and finished, and the theorems at it.
use astra_agent.Base.{◌≡◌, refl, some, find}
use astra_agent.Base.Dict.{get, put, values}
use astra_agent.Base.Exec.{ok, ◌>>=◌}
use astra_agent.Domain.Kinds.{ToolInvocationState}
use astra_agent.Domain.Models.{ToolInvocation}
use astra_agent.Runtime.State.{Store}
use astra_agent.Runtime.Samples.{env, invocation, turn_running, approval_asked, awaiting}
use astra_agent.Runtime.Invocations.{
  create_tool_invocation, create_new, finish_tool_invocation, finished_invocation,
}

abbrev completed : ToolInvocation
completed = finished_invocation ToolInvocationState.completed 1000 (some 1000) awaiting

abbrev after : Store
after = (finish_tool_invocation env 1 80 ToolInvocationState.completed approval_asked).1

requests : (create_tool_invocation env invocation turn_running).0 ≡ ok invocation
unfolding create_tool_invocation create_new find values get put ◌>>=◌
requests = refl
