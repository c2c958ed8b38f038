-- ===== src/Memory/Compiler/Bounds.antt =====
-- The budget of a briefing.
use Prim.Native.String.{count}
use astra_agent.Base.{
  ◌≡◌, ◌≤◌, ◌⊎◌, inl, inr, refl, ℕ, String, Bool-cases, false, Option, none, some, ◌-◌, ◌*◌, ◌==◌,
  ltb, arith,
}
use astra_agent.Base.Text.{
  strip, rstrip, cut, take_chars, count-take_chars, count-rstrip, count-append,
}
use astra_agent.Domain.Models.{Uuid}
use astra_agent.Memory.Compiler.{
  ContextBriefing, BoundedContextCompiler, compile, compress, compressed_briefing, shorten, bound,
  instruction,
}

pub count-shorten : (maximum : ℕ) (s : String) → 3 ≤ maximum → count (shorten maximum s) ≤ maximum
unfolding shorten cut
count-shorten maximum s wide = elim (Bool-cases (ltb maximum (count s))) [
  | inr short ↦ rw short (ground (arith, short))
  | inl long ↦
      let narrow : ltb maximum 3 ≡ false = ground (arith, wide) in
      let kept = take_chars (maximum - 3) s in
      let total = count-append (rstrip kept) "..." in
      let dots : count "..." ≡ 3 = refl in
      rw (long, narrow)
        (omega (arith, total, dots, count-rstrip kept, count-take_chars (maximum - 3) s, wide))
]

-- Within a budget of `max_tokens`.
pub record IsWithin (max_tokens : ℕ) (briefing : ContextBriefing) : Type 0 where
  pub size : count briefing.content ≤ max_tokens * 4
  pub tokens : briefing.estimated_tokens ≤ max_tokens

-- A briefing that is compiled with a budget of at least one token keeps it, whatever the persona and
-- the objective, and so does its estimate.
pub compile-IsWithin :
    (self : BoundedContextCompiler) (t : Uuid) (objective : String)
    → 1 ≤ self.max_tokens
    → IsWithin self.max_tokens (compile self t objective)
unfolding compile
compile-IsWithin self t objective positive =
    let small = count-shorten (self.max_tokens * 4) _ (omega (arith, positive)) in
    record { size = small; tokens = omega (arith, small) }

-- A compression answers with the briefing it fell back to, or with one for the tenant, from the
-- same memories, within a budget of at least one token, whatever the model said.
pub compress-IsWithin :
    (fallback : Uuid → String → ContextBriefing) (process : String → String → Option String)
    (max_tokens : ℕ) (t : Uuid) (objective : String)
    → 1 ≤ max_tokens
    → (compress fallback process max_tokens t objective ≡ fallback t objective)
      ⊎ (IsWithin max_tokens (compress fallback process max_tokens t objective)
          × ((compress fallback process max_tokens t objective).tenant_id ≡ t)
          × ((compress fallback process max_tokens t objective).source_memory_ids
              ≡ (fallback t objective).source_memory_ids))
unfolding compress compressed_briefing bound
compress-IsWithin fallback process max_tokens t objective positive =
    answered (fallback t objective) (process instruction (fallback t objective).content)
  where
    answered :
        (briefing : ContextBriefing) (answer : Option String)
        → (compressed_briefing max_tokens t briefing answer ≡ briefing)
          ⊎ (IsWithin max_tokens (compressed_briefing max_tokens t briefing answer)
              × ((compressed_briefing max_tokens t briefing answer).tenant_id ≡ t)
              × ((compressed_briefing max_tokens t briefing answer).source_memory_ids
                  ≡ briefing.source_memory_ids))
    answered briefing none = inl refl
    answered briefing (some text) = elim (Bool-cases (count (strip text) == 0)) [
      | inl blank ↦ inl (rw blank refl)
      | inr said ↦
          let small = count-shorten (max_tokens * 4) _ (omega (arith, positive)) in
          inr (rw said (record { size = small; tokens = omega (arith, small) }, refl, refl))
    ]
