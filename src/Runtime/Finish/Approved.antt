-- ===== src/Runtime/Finish/Approved.antt =====
-- A task is completed only with every impactful capability approved, and only by its lease holder.
use mathlib.Core.List.{Memᴰ}
use astra_agent.Base.{
  ◌≡◌, ◌⊎◌, refl, inl, inr, true, String, Option, none, some, List, [], ◌∷◌, arith, All, all, find,
  find-test, find-mem, Bool-cases,
}
use astra_agent.Base.Exec.{Result, ok, err, ◌>>=◌}
use astra_agent.Domain.Kinds.{TaskState, is_file_read}
use astra_agent.Domain.Models.{Uuid, Capability, Task, Lease, Approval, Artifact}
use astra_agent.Domain.Capabilities.{same_capability, same_capability_iff}
use astra_agent.Policy.Capability.{evaluate_capability}
use astra_agent.Runtime.State.{Store, Env}
use astra_agent.Runtime.Tasks.{active_lease}
use astra_agent.Runtime.Tasks.Leases.{IsLeaseHeld, active_lease-IsLeaseHeld}
use astra_agent.Runtime.Finish.{
  is_granted, is_terminal, belongs_to, state_of, check_capabilities, check_approvals,
  task_approvals, finish_task, finished_task,
}

-- An approval among these that is granted for the capability.
abbrev pub GrantFor : List Approval → Capability → Type 0
GrantFor approvals c =
    (a : Approval) × Memᴰ a approvals × (a.capability ≡ c) × (is_granted a.state ≡ true)

abbrev pub IsApproved : List Approval → Capability → Type 0
IsApproved approvals c = (is_file_read c.kind ≡ true) ⊎ GrantFor approvals c

module _ (granted : List Capability) (approvals : List Approval) where
  capability_ok :
      (c : Capability) (o : Option Approval)
      → find (λ (a : Approval). same_capability a.capability c) approvals ≡ o
      → (evaluate_capability c granted (state_of o)).allowed ≡ true
      → IsApproved approvals c
  unfolding evaluate_capability
  capability_ok c none e h = inl (ground arith)
  capability_ok c (some a) e h = elim (Bool-cases (is_file_read c.kind)) [
    | inl read ↦ inl read
    | inr impact ↦
        let p = λ (x : Approval). same_capability x.capability c in
        inr (
          a,
          find-mem p approvals e,
          (same_capability_iff a.capability c).0 (find-test p approvals e),
          ground arith,
        )
  ]

  check_capabilities-IsApproved :
      (cs : List Capability) (s : Store)
      → (check_capabilities granted approvals cs s).0 ≡ ok tt
      → All (IsApproved approvals) cs
  unfolding check_capabilities ◌>>=◌
  check_capabilities-IsApproved [] s h = tt
  check_capabilities-IsApproved (c ∷ cs) s h =
      let found = find (λ (a : Approval). same_capability a.capability c) approvals in
      elim (Bool-cases (evaluate_capability c granted (state_of found)).allowed) [
        | inl allowed ↦ (
          capability_ok c found refl allowed,
          check_capabilities-IsApproved cs s (rw allowed at h),
        )
        | inr refused ↦ absurd (cc (rw refused at h))
      ]

  check_capabilities-state :
      (cs : List Capability) (s : Store) → (check_capabilities granted approvals cs s).1 ≡ s
  unfolding check_capabilities ◌>>=◌
  check_capabilities-state [] s = refl
  check_capabilities-state (c ∷ cs) s = ground (arith, check_capabilities-state cs s)

module _ (env : Env) (t a k l : Uuid) (detail : String) (artifacts : List Artifact)
    (s : Store) where
  pub check_approvals-state : (st : TaskState) (task : Task) → (check_approvals t k st task s).1 ≡ s
  unfolding check_approvals ◌>>=◌
  check_approvals-state st task = ground (
    arith,
    check_capabilities-state task.required_capabilities (task_approvals t k s)
        task.required_capabilities s,
  )

  pub finish_cases :
      (st : TaskState) (done : Task)
      → (finish_task env t a k l st detail artifacts s).0 ≡ ok done
      → (task : Task) × (lease : Lease) × IsLeaseHeld env t a k l s task lease
        × (is_terminal st ≡ true)
        × ((check_approvals t k st task s).0 ≡ ok tt)
        × (all (belongs_to t k) artifacts ≡ true)
        × (done ≡ finished_task env st detail a task)
  unfolding finish_task ◌>>=◌
  finish_cases st done h = inspect (active_lease env t a k l s).0 refl
    where
      inspect :
          (r : Result (Task × Lease))
          → (active_lease env t a k l s).0 ≡ r
          → (task : Task) × (lease : Lease) × IsLeaseHeld env t a k l s task lease
            × (is_terminal st ≡ true)
            × ((check_approvals t k st task s).0 ≡ ok tt)
            × (all (belongs_to t k) artifacts ≡ true)
            × (done ≡ finished_task env st detail a task)
      inspect (err e) q = absurd (ground (arith, q, h))
      inspect (ok (task, lease)) q =
          let (held, same) = active_lease-IsLeaseHeld env t a k l s task lease q in
          (
            task,
            lease,
            held,
            ground (arith, q, same, h, check_approvals-state st task),
            ground (arith, q, same, h, check_approvals-state st task),
            ground (arith, q, same, h, check_approvals-state st task),
            ground (arith, q, same, h, check_approvals-state st task),
          )

  -- An agent completes a task only if it holds the task's unexpired lease, and every capability that
  -- the task requires is a scoped file read or has a granted approval, on the task or on a tool
  -- invocation of the task.
  pub finish_task-IsApproved :
      (done : Task)
      → (finish_task env t a k l TaskState.completed detail artifacts s).0 ≡ ok done
      → (task : Task) × (lease : Lease) × IsLeaseHeld env t a k l s task lease
        × All (IsApproved (task_approvals t k s)) task.required_capabilities
        × (done ≡ finished_task env TaskState.completed detail a task)
  unfolding check_approvals ◌>>=◌
  finish_task-IsApproved done h =
      let (task, lease, held, _, checked, _, same) = finish_cases TaskState.completed done h in
      (
        task,
        lease,
        held,
        check_capabilities-IsApproved task.required_capabilities (task_approvals t k s)
            task.required_capabilities s checked,
        same,
      )
