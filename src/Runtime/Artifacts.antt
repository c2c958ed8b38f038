-- ===== src/Runtime/Artifacts.antt =====
-- The artifacts and the audit log of memory.py.
use astra_agent.Base.{◌&&◌, Option, some, List, ◌==◌, is_none, filter}
use astra_agent.Base.Dict.{get, put, values}
use astra_agent.Base.Exec.{require_owned, not_found, pure, gets, modify, guard, ◌>>=◌, ◌>>◌}
use astra_agent.Domain.Kinds.{EventType, ActorType}
use astra_agent.Domain.Models.{Uuid, Instant, uuid, instant, field, end, obj, Artifact, AuditEvent}
use astra_agent.Runtime.State.{Env, Method, event, log, owned}

unfoldable pub get_artifact : Uuid → Uuid → Method (Option Artifact)
get_artifact tenant_id artifact_id =
    gets (λ s. owned (λ (a : Artifact). a.tenant_id) (get s.artifacts artifact_id) tenant_id)

unfoldable pub list_artifacts : Uuid → Method (List Artifact)
list_artifacts tenant_id =
    gets (λ s. filter (λ a. a.tenant_id == tenant_id && is_none a.deleted_at) (values s.artifacts))

unfoldable pub delete_artifact : Env → Uuid → Uuid → Uuid → Instant → Method Artifact
delete_artifact env tenant_id artifact_id actor_id retention_until = do
  found ← gets (λ s. get s.artifacts artifact_id)
  artifact ← require_owned (λ a. a.tenant_id) found tenant_id (not_found "artifact not found")
  guard (is_none artifact.deleted_at) (not_found "artifact not found")
  let deleted = record artifact {
    deleted_at = some (env.now 0);
    retention_until = some retention_until;
  }
  modify (λ s. record s { artifacts = put s.artifacts artifact_id deleted })
  log (
      event env 0 tenant_id EventType.artifact_deleted ActorType.user (some actor_id)
        (some artifact.task_id)
        (obj (
          field "artifact_id" (uuid artifact_id)
            (field "retention_until" (instant retention_until) end))))
  pure deleted

unfoldable pub append_event : AuditEvent → Method (Unit {0})
append_event event = log event

unfoldable pub list_events : Uuid → Method (List AuditEvent)
list_events tenant_id = gets (λ s. filter (λ e. e.tenant_id == tenant_id) s.events)
