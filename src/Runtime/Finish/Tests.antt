-- ===== src/Runtime/Finish/Tests.antt =====
-- Runs of `finish_task`, and its theorems at them.
use astra_agent.Base.{◌≡◌, refl, [], All, find, filter, all}
use astra_agent.Base.Dict.{get, put, values}
use astra_agent.Base.Exec.{ok, ◌>>=◌}
use astra_agent.Domain.Kinds.{TaskState}
use astra_agent.Domain.Capabilities.{is_in, same_capability}
use astra_agent.Domain.Models.{Task, Lease}
use astra_agent.Policy.Capability.{evaluate_capability}
use astra_agent.Runtime.Samples.{env, leased_task, task_running}
use astra_agent.Runtime.Tasks.{active_lease}
use astra_agent.Runtime.Finish.{
  finish_task, finish_invocation, store_artifacts, check_approvals, check_capabilities,
  task_approvals, coordinator_approvals, finished_task,
}
use astra_agent.Runtime.Tasks.Leases.{IsLeaseHeld}
use astra_agent.Runtime.Finish.Approved.{IsApproved, finish_task-IsApproved}

abbrev done : Task
done = finished_task env TaskState.completed "found" 3 leased_task

finishes : (finish_task env 1 3 30 500 TaskState.completed "found" [] task_running).0 ≡ ok done
unfolding finish_task finish_invocation store_artifacts check_approvals check_capabilities
    task_approvals coordinator_approvals evaluate_capability active_lease get put values find filter
    all is_in same_capability ◌>>=◌
finishes = refl

finish_task-IsApproved_example :
    (k : Task) × (l : Lease) × IsLeaseHeld env 1 3 30 500 task_running k l
    × All (IsApproved (task_approvals 1 30 task_running)) k.required_capabilities
    × (done ≡ finished_task env TaskState.completed "found" 3 k)
finish_task-IsApproved_example =
    finish_task-IsApproved env 1 3 30 500 "found" [] task_running done finishes
