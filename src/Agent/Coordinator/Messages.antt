-- ===== src/Agent/Coordinator/Messages.antt =====
-- The messages and tool calls of packages/model-providers/src/astra_model_providers/interfaces.py,
-- and how conversations.py keeps them in the checkpoint of a turn. pydantic's `model_validate` is
-- a parameter, which answers with a value or refuses.
pub mod Roundtrip
use astra_agent.Base.{ℕ, String, Bool, true, false, Option, none, some, List, [], ◌∷◌}
use astra_agent.Domain.Models.{
  Json, null, flag, num, text, arr, obj, Items, nil, cons, Fields, end, field,
}
use astra_agent.Agent.Tools.Paths.{lookup, or_default}

pub record ModelMessage : Type 0 where
  pub role : String
  pub content : String

-- `arguments` is a dictionary.
pub record ToolCall : Type 0 where
  pub id : String
  pub name : String
  pub arguments : Fields

pub record ModelCompletion : Type 0 where
  pub content : Option String
  pub tool_calls : List ToolCall

-- `message.model_dump()`
abbrev pub dump_message : ModelMessage → Json
dump_message message =
    obj (field "role" (text message.role) (field "content" (text message.content) end))

-- `call.model_dump()`
abbrev pub dump_call : ToolCall → Json
dump_call call = obj (
    field "id" (text call.id)
      (field "name" (text call.name) (field "arguments" (obj call.arguments) end)))

-- `[dump(item) for item in items]`
unfoldable pub dump_all : {A : Type 0} → (A → Json) → List A → Items
dump_all dump [] = nil
dump_all dump (item ∷ items) = cons (dump item) (dump_all dump items)

abbrev pub cons_valid : {A : Type 0} → Option A → Option (List A) → Option (List A)
cons_valid (some item) (some items) = some (item ∷ items)
cons_valid _ _ = none

-- `[validate(item) for item in items]`, `none` where one raises
unfoldable pub validate_all : {A : Type 0} → (Json → Option A) → Items → Option (List A)
validate_all validate nil = some []
validate_all validate (cons json items) = cons_valid (validate json) (validate_all validate items)

-- The dictionary that `_checkpoint` stores.
unfoldable pub checkpoint_fields : List ModelMessage → ℕ → List ToolCall → Json
checkpoint_fields messages iterations pending_calls = obj (
    field "messages" (arr (dump_all dump_message messages)) (
      field "iterations" (num iterations)
        (field "pending_calls" (arr (dump_all dump_call pending_calls)) end)))

-- The entries of a checkpoint, which is a dictionary.
abbrev pub entries : Json → Fields
entries (obj fields) = fields
entries _ = end

-- `iterations`, if it is an int that is not negative; Python's `bool` is one.
abbrev pub as_count : Json → Option ℕ
as_count (num n) = some n
as_count (flag true) = some 1
as_count (flag false) = some 0
as_count _ = none
