-- ===== src/Memory/Recall/Briefings.antt =====
-- What a briefing with memories holds, and within which budget.
use astra_agent.Base.{
  ℕ, ◌≤◌, ◌*◌, ◌≡◌, refl, String, true, Option, List, [], ◌∷◌, arith, filter, filter-mem, map, All,
  All-of_mem, All-mem,
}
use astra_agent.Base.Dict.{IsIndex}
use astra_agent.Base.Exec.{ok, ◌>>=◌}
use astra_agent.Base.Text.{join, strip, contains_text}
use astra_agent.Domain.Models.{Uuid, MemoryRecord, PersonaProfile}
use astra_agent.Runtime.State.{Store}
use astra_agent.Runtime.Personas.{get_active_persona}
use astra_agent.Memory.Compiler.{ContextBriefing}
use astra_agent.Memory.Compiler.Bounds.{IsWithin, count-shorten}
use astra_agent.Memory.Recall.{briefing, compile_memories, sections}
use astra_agent.Memory.Recall.Order.{IsAuthorized, recall-selects}

All-map :
    {A B : Type 0} (P : B → Type 0) (f : A → B) (xs : List A)
    → All (λ x. P (f x)) xs
    → All P (map f xs)
All-map P f [] h = tt
All-map P f (x ∷ xs) h = (h.0, All-map P f xs h.1)

persona-read :
    (t : Uuid) (s : Store)
    → (profile : Option PersonaProfile) × (get_active_persona t s ≡ (ok profile, s))
unfolding get_active_persona ◌>>=◌
persona-read t s = (_, refl)

module _ (casefold : String → String) (persona_kernel : String) (max_tokens n : ℕ) (t : Uuid)
    (objective : String) (s : Store) where
  -- A memory that may be recalled and whose text the briefing holds.
  abbrev pub IsSource : ContextBriefing → Uuid → Type 0
  IsSource b id =
      (m : MemoryRecord) × (m.id ≡ id)
      × IsAuthorized t s m
      × (contains_text m.content b.content ≡ true)

  -- In a store whose memories stand under their own ids, a briefing with a budget of at least one
  -- token is for the tenant and keeps its budget, and each memory that it names as a source is a stored,
  -- promoted, private one of the tenant whose text the briefing holds.
  pub compile_memories-IsWithin :
      1 ≤ max_tokens
      → IsIndex (λ (x : MemoryRecord). x.id) s.memories
      → (b : ContextBriefing) × (compile_memories casefold persona_kernel max_tokens n t objective s
          ≡ (ok b, s))
        × (b.tenant_id ≡ t)
        × IsWithin max_tokens b
        × All (IsSource b) b.source_memory_ids
  unfolding compile_memories briefing ◌>>=◌
  compile_memories-IsWithin positive index =
      let (ranked, run, few, sound, complete) = recall-selects casefold n t objective s index in
      let (profile, read) = persona-read t s in
      let b = briefing (strip persona_kernel) max_tokens t objective ranked profile in
      let small =
        count-shorten (max_tokens * 4)
          (join "\n\n" (sections (strip persona_kernel) objective ranked profile))
          (omega (arith, positive)) in
      let used = filter (λ (m : MemoryRecord). contains_text m.content b.content) ranked in
      (
        b,
        rw (run, read) refl,
        refl,
        record { size = small; tokens = omega (arith, small) },
        All-map (IsSource b) (λ m. m.id) used
            (All-of_mem (λ m. IsSource b m.id) used
              λ m here.
                let (there, hit) =
                  filter-mem (λ (m : MemoryRecord). contains_text m.content b.content) ranked
                    here in
                (m, refl, All-mem (IsAuthorized t s) ranked sound there, hit)),
      )
