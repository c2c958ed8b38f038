-- ===== src/Runtime/Finish/After.antt =====
-- The store after `finish_task`: the task is finished once, and its lease stays on record.
use astra_agent.Base.{◌≡◌, String, List}
use astra_agent.Base.Exec.{ok}
use astra_agent.Domain.Kinds.{TaskState}
use astra_agent.Domain.Models.{Uuid, Task, Artifact}
use astra_agent.Runtime.State.{Store, Env}
use astra_agent.Runtime.Finish.{finish_task}

-- The tasks and the leases are the same.
pub record SameTasks (s u : Store) : Type 0 where
  pub tasks : u.tasks ≡ s.tasks
  pub leases : u.leases ≡ s.leases

module _ (env : Env) (t a k l : Uuid) (st : TaskState) (detail : String) (artifacts : List Artifact)
    (s : Store) (done : Task)
    (h : (finish_task env t a k l st detail artifacts s).0 ≡ ok done) where
  abbrev pub after : Store
  after = (finish_task env t a k l st detail artifacts s).1
