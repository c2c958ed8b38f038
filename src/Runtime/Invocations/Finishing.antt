-- ===== src/Runtime/Invocations/Finishing.antt =====
-- A tool invocation is requested once and finished once.
use astra_agent.Base.{
  ◌≡◌, refl, String, Bool, Option, none, some, arith, find, ◌==◌, ◌&&◌, str_eq, str_eq_iff,
}
use astra_agent.Base.Dict.{values, find-put}
use astra_agent.Base.Exec.{ok, ◌>>=◌}
use astra_agent.Domain.Models.{Uuid, ToolInvocation}
use astra_agent.Runtime.State.{Store, Env}
use astra_agent.Runtime.Invocations.{create_tool_invocation, create_new, same_call}

abbrev is_call : Uuid → String → ToolInvocation → Bool
is_call turn_id tool_call_id item = item.turn_id == turn_id && str_eq item.tool_call_id tool_call_id

repeat_found :
    (env : Env) (first i r : ToolInvocation) (s : Store)
    → same_call i ≡ same_call first
    → find (same_call first) (values s.tool_invocations) ≡ some r
    → create_tool_invocation env i s ≡ (ok r, s)
unfolding create_tool_invocation create_new ◌>>=◌
repeat_found env first i r s same e = rw same (rw e refl)

module _ (env : Env) (i : ToolInvocation) (s : Store) where
  create_cases :
      (r : ToolInvocation)
      → (create_tool_invocation env i s).0 ≡ ok r
      → find (same_call i) (values (create_tool_invocation env i s).1.tool_invocations) ≡ some r
  unfolding create_tool_invocation create_new ◌>>=◌
  create_cases r h = inspect (find (same_call i) (values s.tool_invocations)) refl
    where
      inspect :
          (o : Option ToolInvocation)
          → find (same_call i) (values s.tool_invocations) ≡ o
          → find (same_call i) (values (create_tool_invocation env i s).1.tool_invocations) ≡ some r
      inspect none e =
          let same_text = (str_eq_iff i.tool_call_id i.tool_call_id).1 refl in
          ground (arith, h, e, same_text, find-put (same_call i) s.tool_invocations i.id i)
      inspect (some x) e = ground (arith, h, e)

  -- A tool call of a turn has one invocation: once it was requested, a request of the same turn for
  -- the same call returns the invocation on record, whatever else it brings, and changes nothing.
  pub create_tool_invocation-repeat :
      (r : ToolInvocation)
      → (create_tool_invocation env i s).0 ≡ ok r
      → (later : Env) (i' : ToolInvocation) → i'.turn_id ≡ i.turn_id
      → i'.tool_call_id ≡ i.tool_call_id
      → create_tool_invocation later i' (create_tool_invocation env i s).1
        ≡ (ok r, (create_tool_invocation env i s).1)
  create_tool_invocation-repeat r h later i' turn call =
      repeat_found later i i' r (create_tool_invocation env i s).1 (λ j. is_call (turn j) (call j))
        (create_cases r h)
