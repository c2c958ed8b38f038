-- ===== src/Memory/Compiler.antt =====
-- packages/memory/src/astra_memory/compiler.py: the bounded context briefing and its compression
-- by a local model. The model provider is a parameter, which answers with a text or raises.
pub mod Bounds
mod Tests
use Prim.Native.String.{count, ◌++◌ as text_append}
use astra_agent.Base.{
  ℕ, String, Bool, not, Option, none, some, List, [], ◌∷◌, ◌+◌, ◌*◌, ◌/◌, ◌==◌, ltb, str_eq,
  if◌then◌else◌,
}
use text.Mathlib.Text.{starts_with}
use astra_agent.Base.Text.{strip, rstrip, cut, splitlines}
use astra_agent.Domain.Models.{Uuid}

abbrev pub default_persona_identity : String
default_persona_identity = "You are Astra."

abbrev pub identity_invariant : String
identity_invariant =
    text_append "Never claim to be Claude, Anthropic, OpenAI, or any underlying model or provider; "
      "the provider is an implementation detail."

unfoldable pub persona_identity_prefix : String → String
persona_identity_prefix identity =
    text_append "Identity: "
      (text_append (strip identity) (text_append "\nIdentity invariant: " identity_invariant))

unfoldable pub second_line : List String → String
second_line [] = text_append "\nIdentity invariant: " identity_invariant
second_line (line ∷ rest) =
    if starts_with line "Identity invariant: "
    then text_append "\n" line
    else text_append "\nIdentity invariant: " identity_invariant

unfoldable pub prefix_from_lines : List String → String
prefix_from_lines [] = persona_identity_prefix default_persona_identity
prefix_from_lines (line ∷ rest) =
    if starts_with line "Identity: "
    then text_append line (second_line rest)
    else persona_identity_prefix default_persona_identity

unfoldable pub identity_prefix_from : String → String
identity_prefix_from content = prefix_from_lines (splitlines content)

pub record ContextBriefing : Type 0 where
  pub tenant_id : Uuid
  pub content : String
  pub source_memory_ids : List Uuid
  pub estimated_tokens : ℕ

-- `BoundedContextCompiler`, its kernel as `__init__` stores it
pub record BoundedContextCompiler : Type 0 where
  pub persona_kernel : String
  pub max_tokens : ℕ

unfoldable pub init : String → ℕ → BoundedContextCompiler
init persona_kernel max_tokens = record {
  persona_kernel = strip persona_kernel;
  max_tokens = max_tokens;
}

-- A text that is too long is cut, and ends in three dots.
unfoldable pub shorten : ℕ → String → String
shorten maximum content =
    if ltb maximum (count content)
    then text_append (rstrip (cut maximum content)) "..."
    else content

abbrev pub estimate : String → ℕ
estimate content = (count content + 3) / 4

unfoldable pub compile : BoundedContextCompiler → Uuid → String → ContextBriefing
compile self tenant_id objective =
    let content = shorten (self.max_tokens * 4) (
      text_append (persona_identity_prefix default_persona_identity) (
        text_append "\nPersona guidance: " (
          text_append self.persona_kernel
            (text_append "\n\nCurrent objective:\n" (strip objective))))) in
    record {
      tenant_id = tenant_id;
      content = content;
      source_memory_ids = [];
      estimated_tokens = estimate content;
    }

-- `LocalModelContextCompressor._bound`
unfoldable pub bound : ℕ → String → String
bound max_tokens content = shorten (max_tokens * 4) (strip content)

abbrev pub instruction : String
instruction =
    text_append "Compress this context for a language model. Preserve persona boundaries, "
      "relevant facts, and the current objective. Return context only."

abbrev pub with_prefix : String → String → String
with_prefix identity_prefix compressed =
    if starts_with compressed identity_prefix
    then compressed
    else text_append identity_prefix (text_append "\n" compressed)

-- The answer of the model to a briefing, `none` where it raised.
unfoldable pub compressed_briefing : ℕ → Uuid → ContextBriefing → Option String → ContextBriefing
compressed_briefing max_tokens tenant_id briefing none = briefing
compressed_briefing max_tokens tenant_id briefing (some compressed) =
    if count (strip compressed) == 0
    then briefing
    else (let content =
          bound max_tokens
            (with_prefix (identity_prefix_from briefing.content) (strip compressed)) in
        record {
          tenant_id = tenant_id;
          content = content;
          source_memory_ids = briefing.source_memory_ids;
          estimated_tokens = estimate content;
        })

-- `LocalModelContextCompressor.compile`, over the compiler it falls back to and the local model
module _ (fallback : Uuid → String → ContextBriefing)
    (process : String → String → Option String) where
  unfoldable pub compress : ℕ → Uuid → String → ContextBriefing
  compress max_tokens tenant_id objective =
      let briefing = fallback tenant_id objective in
      compressed_briefing max_tokens tenant_id briefing (process instruction briefing.content)
