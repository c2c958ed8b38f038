-- ===== src/Runtime/Approvals/Tests.antt =====
-- A decision on an approval that an invocation waits for, and the theorems at it.
use astra_agent.Base.{ℕ, ◌≡◌, refl, some}
use astra_agent.Base.Dict.{get, put}
use astra_agent.Base.Exec.{ok, err, conflict, ◌>>=◌}
use astra_agent.Domain.Kinds.{ApprovalState}
use astra_agent.Domain.Models.{Approval}
use astra_agent.Runtime.State.{Store, Env}
use astra_agent.Runtime.Samples.{env, asked, approval_asked}
use astra_agent.Runtime.Approvals.{decide_approval, decide, resume, decided_approval}
use astra_agent.Runtime.Approvals.Decisions.{decide_approval-final}

abbrev denied : Approval
denied = decided_approval 1000 ApprovalState.denied 2 asked

abbrev after : Store
after = (decide_approval env 1 41 ApprovalState.denied 2 approval_asked).1

denies : (decide_approval env 1 41 ApprovalState.denied 2 approval_asked).0 ≡ ok denied
unfolding decide_approval decide resume get put ◌>>=◌
denies = refl

decide_approval-final_example :
    (denied.state ≡ ApprovalState.denied)
    × (get after.approvals 41 ≡ some denied)
    × ((later : Env) (other : ℕ)
        → decide_approval later 1 41 ApprovalState.denied other after ≡ (ok denied, after))
    × ((later : Env) (other : ℕ)
        → decide_approval later 1 41 ApprovalState.granted other after
          ≡ (err (conflict "approval is already decided"), after))
decide_approval-final_example =
    decide_approval-final env 1 41 2 ApprovalState.denied approval_asked denied denies
