-- ===== src/Memory/Recall.antt =====
-- MemoryContextCompiler of packages/memory/src/astra_memory/pipeline.py: which memories are
-- recalled for an objective, in which order, and the briefing made of them. `casefold` is a
-- parameter. The vector index is asked by the program too, but its answer, or its failure, only
-- goes to an audit hook; both are left out.
pub mod Order
pub mod Briefings
mod Tests
use Prim.Native.Char.{Char, code}
use Prim.Native.String.{String, count, [] as empty, ◌∷◌ as prefix, ◌++◌ as text_append}
use astra_agent.Base.{
  ℕ, ◌+◌, ◌*◌, ◌/◌, ◌==◌, Bool, true, false, ◌&&◌, ◌||◌, not, Option, none, some, List, [], ◌∷◌,
  ◌++◌, map, filter, length, take, sort, is_empty, ltb, leb, str_eq, if◌then◌else◌,
}
use astra_agent.Base.Dict.{Dict, put, values}
use astra_agent.Base.Exec.{pure, ◌>>=◌}
use astra_agent.Base.Text.{strip, join, contains_text}
use astra_agent.Domain.Kinds.{MemoryKind}
use astra_agent.Domain.Models.{Uuid, MemoryRecord, PersonaProfile, PersonaCore}
use astra_agent.Policy.Planner.{contains}
use astra_agent.Runtime.State.{Store, Method}
use astra_agent.Runtime.Memories.{list_memories}
use astra_agent.Runtime.Personas.{get_active_persona}
use astra_agent.Memory.Compiler.{
  ContextBriefing, persona_identity_prefix, default_persona_identity, shorten, estimate,
}

-- A character of the class `[a-z0-9_]`.
abbrev pub is_word : Char → Bool
is_word c = let n = code c in leb 97 n && leb n 122 || leb 48 n && leb n 57 || n == 95

-- The first word, if the text starts with one, and the later ones.
abbrev pub extend : Char → String × List String → String × List String
extend c (first, rest) = (prefix c first, rest)

abbrev pub close : String × List String → List String
close (first, rest) = if count first == 0 then rest else first ∷ rest

unfoldable pub split_runs : (Char → Bool) → String → String × List String
split_runs keep empty = (empty, [])
split_runs keep (prefix c s) =
    let rest = split_runs keep s in if keep c then extend c rest else (empty, close rest)

-- The longest runs of characters that pass a test.
unfoldable pub runs : (Char → Bool) → String → List String
runs keep text = close (split_runs keep text)

-- `re.findall(r"[a-z0-9_]+", text)`
unfoldable pub words : String → List String
words text = runs is_word text

-- `set(words)`
unfoldable pub distinct : List String → List String
distinct [] = []
distinct (word ∷ rest) =
    let kept = distinct rest in if contains word kept then kept else word ∷ kept

-- `len(terms.intersection(words))`
unfoldable pub hits : List String → List String → ℕ
hits terms found = length (filter (λ term. contains term found) terms)

-- `item.kind.value`
abbrev pub kind_text : MemoryKind → String
kind_text MemoryKind.fact = "fact"
kind_text MemoryKind.preference = "preference"
kind_text MemoryKind.project = "project"
kind_text MemoryKind.decision = "decision"
kind_text MemoryKind.commitment = "commitment"

-- `{item.id: item for item in items}`
unfoldable pub by_id : List MemoryRecord → Dict MemoryRecord → Dict MemoryRecord
by_id [] d = d
by_id (item ∷ items) d = by_id items (put d item.id item)

abbrev pub is_private : MemoryRecord → Bool
is_private item = str_eq item.visibility "private"

abbrev pub persona_text : String → Option PersonaProfile → String
persona_text persona_kernel none =
    text_append (persona_identity_prefix default_persona_identity)
      (text_append "\nPersona guidance: " persona_kernel)
persona_text persona_kernel (some profile) =
    let core = profile.authored_core in
    join "\n" (
      persona_identity_prefix core.identity
      ∷ text_append "Values: " core.values
      ∷ text_append "Boundaries: " core.boundaries
      ∷ text_append "Tone: " core.tone
      ∷ text_append "Initiative: " core.initiative
      ∷ text_append "Emotional range: " core.emotional_range
      ∷ text_append "Disagreement: " core.disagreement
      ∷ [])

abbrev pub memory_line : MemoryRecord → String
memory_line item =
    text_append "- [" (text_append (kind_text item.kind) (text_append "] " item.content))

abbrev pub memory_section : List MemoryRecord → List String
memory_section ranked =
    if is_empty ranked
    then []
    else text_append "Relevant approved memory:\n" (join "\n" (map memory_line ranked)) ∷ []

abbrev pub sections : String → String → List MemoryRecord → Option PersonaProfile → List String
sections persona_kernel objective ranked profile =
    persona_text persona_kernel profile ∷ memory_section ranked
    ++ text_append "Current objective:\n" (strip objective) ∷ []

unfoldable pub briefing :
    String → ℕ → Uuid → String → List MemoryRecord → Option PersonaProfile → ContextBriefing
briefing persona_kernel max_tokens tenant_id objective ranked profile =
    let content =
      shorten (max_tokens * 4) (join "\n\n" (sections persona_kernel objective ranked profile)) in
    record {
      tenant_id = tenant_id;
      content = content;
      source_memory_ids =
          map (λ (m : MemoryRecord). m.id) (filter (λ m. contains_text m.content content) ranked);
      estimated_tokens = estimate content;
    }

module _ (casefold : String → String) where
  -- How many of the objective's words a memory has.
  unfoldable pub relevance : String → MemoryRecord → ℕ
  relevance objective item =
      hits (distinct (words (casefold objective))) (words (casefold item.content))

  -- The key `(-relevance, str(id))`
  abbrev pub ranks_before : String → MemoryRecord → MemoryRecord → Bool
  ranks_before objective a b =
      ltb (relevance objective b) (relevance objective a)
      || relevance objective a == relevance objective b && leb a.id b.id

  -- Pinned memories first, each part by rank.
  unfoldable pub select : ℕ → String → List MemoryRecord → List MemoryRecord
  select memory_limit objective items =
      let ranked = sort (ranks_before objective) items in
      take memory_limit
        (filter (λ item. item.pinned) ranked ++ filter (λ item. not item.pinned) ranked)

  unfoldable pub recall : ℕ → Uuid → String → Method (List MemoryRecord)
  recall memory_limit tenant_id objective = do
    authorized ← list_memories tenant_id false
    pure (select memory_limit objective (values (by_id (filter is_private authorized) [])))

  -- `MemoryContextCompiler.compile`, its kernel stripped by `__init__`
  unfoldable pub compile_memories : String → ℕ → ℕ → Uuid → String → Method ContextBriefing
  compile_memories persona_kernel max_tokens memory_limit tenant_id objective = do
    ranked ← recall memory_limit tenant_id objective
    profile ← get_active_persona tenant_id
    pure (briefing (strip persona_kernel) max_tokens tenant_id objective ranked profile)
