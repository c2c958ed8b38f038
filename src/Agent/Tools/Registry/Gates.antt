-- ===== src/Agent/Tools/Registry/Gates.antt =====
-- Which tools a dispatch runs, and which it offers.
use mathlib.Core.List.{Memᴰ}
use astra_agent.Base.{
  ◌≡◌, ◌⊎◌, ◌↔◌, refl, true, Option, none, some, str_eq, find, filter, filter-mem, mem-filter,
  arith, String,
}
use astra_agent.Base.Dict.{get}
use astra_agent.Domain.Kinds.{ApprovalState, CapabilityKind}
use astra_agent.Domain.Models.{Uuid, Fields}
use astra_agent.Policy.Capability.{evaluate_capability}
use astra_agent.Policy.Capability.Decisions.{evaluate_capability-decides}
use astra_agent.Agent.Tools.Files.{ToolResult}
use astra_agent.Agent.Tools.Registry.{
  LocalTool, LocalToolRegistry, TenantWorkspace, dispatch, definitions, run_tool, is_offered,
}

-- The tool of this name runs on the tenant's workspace, whose grants allow it.
pub record Runs (self : LocalToolRegistry) (tenant_id : Uuid) (name : String) (params : Fields)
    (approval_state : Option ApprovalState) (result : ToolResult) : Type 0 where
  pub workspace : TenantWorkspace
  pub tool : LocalTool
  pub configured : get self.workspaces tenant_id ≡ some workspace
  pub known : find (λ t. str_eq t.name name) self.tools ≡ some tool
  pub granted : Memᴰ tool.capability workspace.grants
  pub approved :
      (tool.capability.kind ≡ CapabilityKind.file_read)
      ⊎ (approval_state ≡ some ApprovalState.granted)
  pub runs : result ≡ tool.execute params workspace

module _ (self : LocalToolRegistry) (tenant_id : Uuid) (name : String) (params : Fields)
    (approval_state : Option ApprovalState) where
  -- A dispatch that succeeds has run the tool of this name on the tenant's workspace, whose grants
  -- hold the tool's capability, and that is a file read or a granted approval came with the call.
  pub dispatch-Runs :
      (dispatch self tenant_id name params approval_state).success ≡ true
      → Runs self tenant_id name params approval_state
          (dispatch self tenant_id name params approval_state)
  unfolding dispatch run_tool
  dispatch-Runs h =
      inspect (get self.workspaces tenant_id) refl (find (λ t. str_eq t.name name) self.tools) refl
        h
    where
      inspect :
          (w : Option TenantWorkspace)
          → get self.workspaces tenant_id ≡ w
          → (t : Option LocalTool) → find (λ t. str_eq t.name name) self.tools ≡ t
          → (run_tool w t params approval_state).success ≡ true
          → Runs self tenant_id name params approval_state (run_tool w t params approval_state)
      inspect none e t f h = cc
      inspect (some w) e none f h = cc
      inspect (some w) e (some t) f h =
          let decides = evaluate_capability-decides t.capability w.grants approval_state in
          let allowed : (evaluate_capability t.capability w.grants approval_state).allowed ≡ true =
            ground (arith, h) in
          let (granted, approved) = decides.0.0 allowed in
          record {
            workspace = w;
            tool = t;
            configured = e;
            known = f;
            granted = granted;
            approved = approved;
            runs = rw allowed refl;
          }

module _ (self : LocalToolRegistry) (tenant_id : Uuid) (workspace : TenantWorkspace)
    (configured : get self.workspaces tenant_id ≡ some workspace) where
  is_offered_iff :
      (tool : LocalTool)
      → (is_offered workspace.grants tool ≡ true) ↔ (
          Memᴰ tool.capability workspace.grants
          × ((tool.capability.kind ≡ CapabilityKind.file_read)
              ⊎ (tool.capability.kind ≡ CapabilityKind.command_execute)))
  is_offered_iff tool =
      let free = evaluate_capability-decides tool.capability workspace.grants none in
      let approved =
        evaluate_capability-decides tool.capability workspace.grants (some ApprovalState.granted) in
      (λ h. ground (arith, h, free, approved), λ p. ground (arith, p, free, approved))

  shown : definitions self tenant_id ≡ filter (is_offered workspace.grants) self.tools
  unfolding definitions
  shown = rw configured refl

  -- The model is shown exactly the tools whose capability the tenant's grants hold and that read a
  -- file or run a command.
  pub definitions-offers :
      (tool : LocalTool)
      → Memᴰ tool (definitions self tenant_id) ↔ (
          Memᴰ tool self.tools
          × Memᴰ tool.capability workspace.grants
          × ((tool.capability.kind ≡ CapabilityKind.file_read)
              ⊎ (tool.capability.kind ≡ CapabilityKind.command_execute)))
  definitions-offers tool =
      let offered = is_offered_iff tool in
      rw shown (
        λ m.
            let (there, hit) = filter-mem (is_offered workspace.grants) self.tools m in
            let (granted, kind) = offered.0 hit in (there, granted, kind),
        λ p.
            let (there, granted, kind) = p in
            mem-filter (is_offered workspace.grants) self.tools there (offered.1 (granted, kind)),
      )
