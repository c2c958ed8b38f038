-- ===== src/Agent/Coordinator/Session.antt =====
-- What a coordinator works on and with: the store, the readings of clocks and new ids, the model
-- provider, the context compiler, the tools. Everything that is not the store and may answer
-- differently each time is indexed by a step number, which counts the coordinator's calls. The hook
-- that records an audit trail for operators is left out: nothing reads what it records.
use Prim.Native.String.{count}
use astra_agent.Base.{ℕ, suc, String, Bool, ◌&&◌, Option, List, leb}
use astra_agent.Base.Exec.{ok, Exec}
use astra_agent.Domain.Models.{Uuid, Json, Fields, Capability}
use astra_agent.Memory.Compiler.{ContextBriefing}
use astra_agent.Policy.Planner.{PlannerDecision, Item}
use astra_agent.Runtime.State.{Store, Env, Method}
use astra_agent.Agent.Tools.Files.{ToolResult}
use astra_agent.Agent.Tools.Registry.{LocalToolRegistry}
use astra_agent.Agent.Coordinator.Messages.{ModelMessage, ToolCall, ModelCompletion}

-- The operations of ControllerMemoryTools.
pub record MemoryTools : Type 0 where
  pub get_fact : Env → Uuid → String → Method String
  pub set_fact : Env → Uuid → Uuid → String → Method String
  pub search_session : Env → Uuid → Uuid → String → ℕ → Method String

-- The objects that a coordinator is made with, its settings, and the functions of libraries that it
-- calls. `complete` and `plan` answer with `none` where the provider raises ModelProviderError; a
-- tool is offered to the model by its name. `dumps` and `dump_result` print JSON, `sha256` is the
-- digest of printed arguments.
pub record World : Type 0 where
  pub envs : ℕ → Env
  pub complete : ℕ → List ModelMessage → List String → Option ModelCompletion
  pub plan : Option (ℕ → List ModelMessage → ℕ → Option PlannerDecision)
  pub compile : Store → Uuid → String → ContextBriefing
  pub registry : ℕ → LocalToolRegistry
  pub memory_tools : Option MemoryTools
  pub validate_message : Json → Option ModelMessage
  pub validate_call : Json → Option ToolCall
  pub validate_capability : Item → Option Capability
  pub dumps : Json → String
  pub dump_result : ToolResult → String
  pub sha256 : Fields → String
  pub history_limit : ℕ
  pub delegation_enabled : Bool
  pub max_tool_iterations : ℕ
  pub max_delegation_siblings : ℕ

-- `requests` counts the requests to the model.
pub record Session : Type 0 where
  pub store : Store
  pub steps : ℕ
  pub requests : ℕ

abbrev pub Coord : Type 0 → Type 0
Coord A = Exec Session A

-- A constraint on the length of a text, which pydantic checks.
abbrev pub in_length : ℕ → ℕ → String → Bool
in_length least most text = leb least (count text) && leb (count text) most

module _ (world : World) where
  -- A call of a method of the store.
  unfoldable pub call : {A : Type 0} → (Env → Method A) → Coord A
  call method s =
      let (result, store) = method (world.envs s.steps) s.store in
      (result, record s { store = store; steps = suc s.steps })

  -- The answer of something outside to one call.
  unfoldable pub ask : {A : Type 0} → (ℕ → A) → Coord A
  ask answer s = (ok (answer s.steps), record s { steps = suc s.steps })

  -- `self._model_provider.complete(messages, definitions)`
  unfoldable pub complete : List ModelMessage → List String → Coord (Option ModelCompletion)
  complete messages definitions s = (
    ok (world.complete s.steps messages definitions),
    record s { steps = suc s.steps; requests = suc s.requests },
  )

  -- New ids and times for the records that are built here.
  unfoldable pub readings : Coord Env
  unfolding ask
  readings = ask world.envs
