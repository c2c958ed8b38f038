-- ===== src/Runtime/Personas.antt =====
-- The persona profiles of memory.py: versions, the active one, learned adaptations.
mod Versions
mod Histories
mod Tests
use astra_agent.Base.{
  ℕ, ◌+◌, Bool, true, false, ◌&&◌, not, Option, none, some, List, [], ◌∷◌, map, ◌==◌, leb,
  if◌then◌else◌, find, filter,
}
use astra_agent.Base.Dict.{get, put, values}
use astra_agent.Base.Exec.{
  require_owned, not_found, conflict, pure, gets, modify, require, guard, ◌>>=◌, ◌>>◌,
}
use astra_agent.Domain.Kinds.{LearnedAdaptationState, EventType, ActorType}
use astra_agent.Domain.Models.{
  Uuid, Json, uuid, num, field, end, obj, PersonaProfile, LearnedPersonaAdaptation,
}
use astra_agent.Runtime.State.{Store, Env, Method, event, log, log_all}

-- `max(values, default=0)`
unfoldable pub max_or_zero : List ℕ → ℕ
max_or_zero [] = 0
max_or_zero (x ∷ xs) = let rest = max_or_zero xs in if leb x rest then rest else x

abbrev pub versions : Uuid → Store → List ℕ
versions tenant_id s =
    map (λ (p : PersonaProfile). p.version)
      (filter (λ p. p.tenant_id == tenant_id) (values s.personas))

-- The version that the tenant's next profile takes.
unfoldable pub next_version : Uuid → Store → ℕ
unfolding max_or_zero
next_version tenant_id s = max_or_zero (versions tenant_id s) + 1

abbrev pub put_active : PersonaProfile → Method (Unit {0})
put_active profile = modify λ s. record s {
  personas = put s.personas profile.id profile;
  active_persona_ids = put s.active_persona_ids profile.tenant_id profile.id;
}

unfoldable pub get_active_persona : Uuid → Method (Option PersonaProfile)
get_active_persona tenant_id = gets λ s. elim (get s.active_persona_ids tenant_id) [
  | none ↦ none
  | some profile_id ↦ get s.personas profile_id
]

abbrev pub persona_payload : Uuid → ℕ → Json
persona_payload persona_id version =
    obj (field "persona_id" (uuid persona_id) (field "version" (num version) end))

unfoldable pub create_persona_profile : Env → PersonaProfile → Uuid → Method PersonaProfile
unfolding next_version
create_persona_profile env profile actor_id = do
  next ← gets (next_version profile.tenant_id)
  guard (profile.version == next) (conflict "persona version is not next for tenant")
  put_active profile
  log_all (
      event env 0 profile.tenant_id EventType.persona_created ActorType.user (some actor_id) none
        (persona_payload profile.id profile.version)
      ∷ event env 1 profile.tenant_id EventType.persona_activated ActorType.user (some actor_id)
          none (persona_payload profile.id profile.version)
      ∷ [])
  pure profile

unfoldable pub revert_persona_profile : Env → Uuid → ℕ → Uuid → Method PersonaProfile
revert_persona_profile env tenant_id version actor_id = do
  found ←
      gets (λ s. find (λ p. p.tenant_id == tenant_id && p.version == version) (values s.personas))
  profile ← require found (not_found "persona version not found")
  modify (λ s. record s { active_persona_ids = put s.active_persona_ids tenant_id profile.id })
  log (
      event env 0 tenant_id EventType.persona_reverted ActorType.user (some actor_id) none
        (persona_payload profile.id version))
  pure profile

abbrev pub put_adaptation : Uuid → LearnedPersonaAdaptation → Method (Unit {0})
put_adaptation adaptation_id adaptation =
    modify
      λ s. record s { learned_adaptations = put s.learned_adaptations adaptation_id adaptation }

unfoldable pub create_learned_persona_adaptation :
    LearnedPersonaAdaptation → Method LearnedPersonaAdaptation
create_learned_persona_adaptation adaptation = do
  found ← gets (λ s. get s.personas adaptation.profile_id)
  require_owned (λ (p : PersonaProfile). p.tenant_id) found adaptation.tenant_id
      (not_found "persona profile not found")
  put_adaptation adaptation.id adaptation
  pure adaptation

abbrev pub is_reversed : LearnedAdaptationState → Bool
is_reversed LearnedAdaptationState.reversed = true
is_reversed LearnedAdaptationState.active = false

unfoldable pub reverse_learned_persona_adaptation :
    Env → Uuid → Uuid → Method LearnedPersonaAdaptation
reverse_learned_persona_adaptation env tenant_id adaptation_id = do
  found ← gets (λ s. get s.learned_adaptations adaptation_id)
  adaptation ←
      require_owned (λ a. a.tenant_id) found tenant_id
        (not_found "learned persona adaptation not found")
  guard (not (is_reversed adaptation.state))
      (conflict "learned persona adaptation is already reversed")
  let reversed_adaptation = record adaptation {
    state = LearnedAdaptationState.reversed;
    reversed_at = some (env.now 0);
  }
  put_adaptation adaptation_id reversed_adaptation
  pure reversed_adaptation
