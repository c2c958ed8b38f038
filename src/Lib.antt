-- ===== src/Lib.antt =====
-- Astra Agent: the control plane of a multi-tenant agent, with its tasks, leases, approvals, turns,
-- memories and audit log.
--
-- The program's core is the store (packages/runtime). The API and the coordinator call its methods
-- for users; remote agents poll it for tasks, work under leases and report back; background workers
-- claim jobs from it. The coordinator (apps/astra-agent-api) runs a conversation turn: it compiles a
-- context, asks the model, and executes the tool calls of the answer, some at once, some after an
-- approval, some on a remote agent. The development follows the in-memory store of
-- packages/runtime/src/astra_runtime/memory.py, whose methods the SQL store repeats over rows.
--
--   Base       lists, stable sorting, texts as Python has them, dictionaries in order of insertion,
--              methods that may raise
--   Domain     packages/domain/src/astra_domain/models.py: kinds, states, records, capabilities
--   Policy     packages/policy/src/astra_policy/engine.py: evaluate_capability and
--              validate_planner_decision, whose plan is that of
--              packages/model-providers/src/astra_model_providers/interfaces.py
--   Memory     packages/memory/src/astra_memory: Compiler has the bounded briefing of compiler.py and
--              its compression; Recall has MemoryContextCompiler and Extraction has MemoryPipeline, of
--              pipeline.py
--   Runtime    packages/runtime/src/astra_runtime/memory.py: State has the dictionaries of
--              InMemoryRuntimeStore, and Jobs, Memories, Personas, Migrations, Conversations, Turns,
--              Tasks, Agents, Invocations, Delegation, Finish (finish_task), Approvals and Artifacts
--              its methods, each under the method's name; Calls has histories of calls, Audit the
--              audit log over them
--   Agent      apps/astra-agent-api/src/astra_agent: Tools has tools.py (path checks, the file tools,
--              the registry) and the workspace layout of settings.py; Recollection has
--              ControllerMemoryTools of memory_tools.py; Coordinator has
--              ConversationOrchestrator of conversations.py: History (the messages that a turn starts
--              from), Planning, Calls and Delegated and Host (what one tool call does), Loop
--              (run_turn), Stream (stream_turn, start_turn)
--   Ara        apps/ara/src/astra_ara: Settings and HostCommands have the settings and the executor
--              of the agent that runs commands on a host (settings.py, host_executor.py)
--
-- A method is a function from the store to a result and a store. The asyncio lock that every method
-- holds from its first read to its return makes it one atomic step; what a method wrote before it
-- raised stays written. The exceptions are those of the lifecycle (not found, conflict), pydantic's
-- ValidationError, another ValueError, the provider's error and a failed lookup. Ids are numbers (two
-- ids compare as their hexadecimal texts do, which have one length), instants are numbers of
-- microseconds, all aware of their zone. The clock, new ids and the fields that default to them are
-- read from an environment, one reading for each place of a method that takes one, with no relation
-- assumed between the readings. JSON values keep an id or an instant as a text of its own kind.
--
-- The coordinator works on a session: the store, a count of its steps and a count of its requests to
-- the model. Nothing else changes the store during one run of it; what the model, the clock or the
-- sandbox answers depends on the step's number, so that an answer may differ each time. Parameters
-- are the model provider and its stream, the context compiler, the operations of the memory tools,
-- which Recollection implements, the printing of JSON, the digest of arguments, pydantic's
-- validation of dumped values, and for the tools the file system, the walk of a directory tree, the
-- decoding of UTF-8, casefold and the sandbox. The model loop counts down what is left of
-- max_tool_iterations, the other loops are recursions on lists. Only the printing of a number in
-- decimals takes fuel: the number and one more, where it has at most as many digits.
--
-- Trust levels, counts and limits are natural numbers. Confidence is carried in millionths. Not
-- modelled: the repository agent of apps/ara, the checks of pydantic on records that callers build,
-- audit hooks, logging, transport, the SQL store, the HTTP API, respond of the coordinator (it
-- advances the tenant's turns until its own is done, which need not happen), the extractors of
-- memories, the vector index, the sandbox's process and the user interfaces.
pub mod Base
pub mod Domain
pub mod Policy
pub mod Memory
pub mod Runtime
pub mod Agent
pub mod Ara
