-- ===== src/Runtime/Personas/Tests.antt =====
-- A history of persona profiles, and the theorem at it.
use astra_agent.Base.{refl, List, [], ◌∷◌, filter, find}
use astra_agent.Base.Dict.{get, put, values}
use astra_agent.Base.Exec.{◌>>=◌}
use astra_agent.Domain.Models.{PersonaProfile}
use astra_agent.Runtime.State.{init}
use astra_agent.Runtime.Samples.{env, core}
use astra_agent.Runtime.Personas.{
  create_persona_profile, revert_persona_profile, next_version, max_or_zero,
}
use astra_agent.Runtime.Personas.Versions.{IsVersioned}
use astra_agent.Runtime.Personas.Histories.{
  Call, AllFresh, create, revert, call, calls, calls-IsVersioned,
}

abbrev first : PersonaProfile
first = record { id = 120; tenant_id = 1; version = 1; authored_core = core; created_at = 5 }

abbrev second : PersonaProfile
second = record first { id = 121; version = 2 }

-- A profile whose version is taken.
abbrev late : PersonaProfile
late = record first { id = 122; version = 2 }

abbrev history : List Call
history = create env first 2 ∷ create env second 2 ∷ revert env 1 1 2 ∷ create env late 2 ∷ []

start : IsVersioned init
unfolding get
start = record { keyed = tt; unique = λ j k p q at_j. cc at_j; active = λ t k e. cc e }

history_fresh : AllFresh history init
unfolding call create_persona_profile revert_persona_profile next_version max_or_zero find filter
    values get put ◌>>=◌
history_fresh = (refl, (refl, (tt, (refl, tt))))

calls-IsVersioned_example : IsVersioned (calls history init)
calls-IsVersioned_example = calls-IsVersioned history init history_fresh start
