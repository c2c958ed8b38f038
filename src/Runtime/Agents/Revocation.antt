-- ===== src/Runtime/Agents/Revocation.antt =====
-- What the revocation of a remote agent ends, and what it does not.
use astra_agent.Base.{
  ◌≡◌, ◌==◌, ◌+◌, ◌&&◌, refl, ap, ◌∙◌, ℕ, Bool-cases, inl, inr, true, false, some, List, [], ◌∷◌,
  arith, All, ==_refl,
}
use astra_agent.Base.Dict.{Dict, get, put, values, get-put}
use astra_agent.Base.Exec.{ok, ◌>>=◌}
use astra_agent.Domain.Kinds.{RemoteAgentStatus}
use astra_agent.Domain.Models.{Uuid, RemoteAgent, Lease}
use astra_agent.Runtime.State.{Store, Env}
use astra_agent.Runtime.Tasks.{active_lease}
use astra_agent.Runtime.Agents.{revoke_remote_agent, end_leases}

abbrev pub revoked : RemoteAgent → RemoteAgent
revoked agent = record agent { status = RemoteAgentStatus.revoked; trust_level = 0 }

end_leases-get :
    (env : Env) (t ara l : Uuid) (n : ℕ) (ended : List Lease) (d : Dict Lease)
    → All (λ x. (x.task_id == l) ≡ false) ended
    → get (end_leases env t ara n ended d) l ≡ get d l
unfolding end_leases
end_leases-get env t ara l n [] d h = refl
end_leases-get env t ara l n (x ∷ rest) d h =
    elim (Bool-cases (x.tenant_id == t && x.ara_id == ara)) [
      | inl hit ↦ rw hit (
          end_leases-get env t ara l (n + 1) rest
            (put d x.task_id (record x { expires_at = env.now n })) h.1
          ∙ ground (arith, h.0, get-put d x.task_id l (record x { expires_at = env.now n })))
      | inr miss ↦ rw miss (end_leases-get env t ara l (n + 1) rest d h.1)
    ]

module _ (env : Env) (t ara actor : Uuid) (s : Store) (agent : RemoteAgent) where
  abbrev after : Store
  after = (revoke_remote_agent env t ara actor s).1

  revokes :
      get s.remote_agents ara ≡ some agent
      → (agent.tenant_id == t) ≡ true
      → ((revoke_remote_agent env t ara actor s).0 ≡ ok (revoked agent))
        × ((revoke_remote_agent env t ara actor s).1.remote_agents
            ≡ put s.remote_agents ara (revoked agent))
        × ((revoke_remote_agent env t ara actor s).1.leases
            ≡ end_leases env t ara 0 (values s.leases) s.leases)
        × ((revoke_remote_agent env t ara actor s).1.tasks ≡ s.tasks)
  unfolding revoke_remote_agent ◌>>=◌
  revokes found own = rw (found, own) (refl, refl, refl, refl)

  same_lease :
      (later : Env) (k l : Uuid) (s' : Store)
      → s'.tasks ≡ s.tasks
      → get s'.leases l ≡ get s.leases l
      → (active_lease later t ara k l s').0 ≡ (active_lease later t ara k l s).0
  unfolding active_lease ◌>>=◌
  same_lease later k l s' tasks lease = ground (arith, tasks, lease)

  -- The revocation does not end the agent's leases: a lease whose id is not the id of a leased task
  -- stays as it is, and the revoked agent holds it as before, at every time.
  pub revoke_remote_agent-keeps_lease :
      (l : Uuid)
      → get s.remote_agents ara ≡ some agent
      → agent.tenant_id ≡ t
      → All (λ x. (x.task_id == l) ≡ false) (values s.leases)
      → (get after.leases l ≡ get s.leases l)
        × ((later : Env) (k : Uuid)
            → (active_lease later t ara k l after).0 ≡ (active_lease later t ara k l s).0)
  revoke_remote_agent-keeps_lease l found owner apart =
      let own : (agent.tenant_id == t) ≡ true = rw (← owner) (==_refl agent.tenant_id) in
      let (_, _, leases, tasks) = revokes found own in
      let same : get after.leases l ≡ get s.leases l =
        ap (λ d. get d l) leases ∙ end_leases-get env t ara l 0 (values s.leases) s.leases apart in
      (same, λ later k. same_lease later k l after tasks same)
