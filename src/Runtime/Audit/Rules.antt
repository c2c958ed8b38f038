-- ===== src/Runtime/Audit/Rules.antt =====
-- Rules for methods that only append to the audit log, one for each way to build a method.
use astra_agent.Base.{
  ℕ, ◌≡◌, Bool, true, false, Option, none, some, List, ◌++◌, if◌then◌else◌, inl, inr, ◌==◌,
  Bool-cases, Extends, Extends-refl, Extends-append, Extends-trans,
}
use astra_agent.Base.Exec.{
  Failure, Result, ok, err, continue, pure, raise, gets, require, require_owned, guard, modify,
  ◌>>=◌,
}
use astra_agent.Domain.Models.{AuditEvent}
use astra_agent.Runtime.State.{Store, Method}

-- `m` appends to the log, whether it returns or raises.
pub record Logs {A : Type 0} (m : Method A) : Type 0 where
  pub at : (s : Store) → Extends s.events (m s).1.events

module _ {A : Type 0} where
  pub Logs-pure : (a : A) → Logs (pure a)
  unfolding ◌>>=◌
  Logs-pure a = record { at = λ s. Extends-refl s.events }

  pub Logs-raise : (e : Failure) → Logs (raise {A = A} e)
  unfolding ◌>>=◌
  Logs-raise e = record { at = λ s. Extends-refl s.events }

  pub Logs-gets : (f : Store → A) → Logs (gets f)
  unfolding ◌>>=◌
  Logs-gets f = record { at = λ s. Extends-refl s.events }

  pub Logs-require : (o : Option A) (e : Failure) → Logs (require o e)
  unfolding ◌>>=◌
  Logs-require none e = record { at = λ s. Extends-refl s.events }
  Logs-require (some a) e = record { at = λ s. Extends-refl s.events }

  pub Logs-require_owned :
      (owner : A → ℕ) (o : Option A) (t : ℕ) (e : Failure) → Logs (require_owned owner o t e)
  unfolding ◌>>=◌
  Logs-require_owned owner none t e = record { at = λ s. Extends-refl s.events }
  Logs-require_owned owner (some a) t e = elim (Bool-cases (owner a == t)) [
    | inl mine ↦ record { at = λ s. rw mine (Extends-refl s.events) }
    | inr other ↦ record { at = λ s. rw other (Extends-refl s.events) }
  ]

  pub Logs-if : (b : Bool) (m n : Method A) → Logs m → Logs n → Logs (if b then m else n)
  Logs-if true m n km kn = km
  Logs-if false m n km kn = kn

pub Logs-guard : (b : Bool) (e : Failure) → Logs (guard b e)
unfolding ◌>>=◌
Logs-guard true e = record { at = λ s. Extends-refl s.events }
Logs-guard false e = record { at = λ s. Extends-refl s.events }

pub Logs-modify : (f : Store → Store) → ((s : Store) → (f s).events ≡ s.events) → Logs (modify f)
unfolding ◌>>=◌
Logs-modify f h = record { at = λ s. rw h (Extends-refl s.events) }

pub Logs-append :
    (events : List AuditEvent) → Logs (modify (λ s. record s { events = s.events ++ events }))
unfolding ◌>>=◌
Logs-append events = record { at = λ s. Extends-append s.events events }

module _ {A B : Type 0} where
  pub Logs-continue :
      (r : Result A) (f : A → Method B) → ((a : A) → Logs (f a)) → Logs (continue r f)
  Logs-continue (ok a) f k = record { at = (k a).at }
  Logs-continue (err e) f k = record { at = λ s. Extends-refl s.events }

  pub Logs-bind :
      (m : Method A) (f : A → Method B) → Logs m → ((a : A) → Logs (f a)) → Logs (m >>= f)
  unfolding ◌>>=◌
  Logs-bind m f km kf = record {
    at = λ s.
        let (r, s') = m s in
        Extends-trans s.events s'.events (continue r f s').1.events (km.at s)
          ((Logs-continue r f kf).at s');
  }

  pub then_log : (m : Method A) (n : Method B) → Logs m → Logs n → Logs (m >>= λ _. n)
  then_log m n km kn = Logs-bind m (λ _. n) km (λ _. kn)

pub ruleset log_rules = (
  Logs-pure, Logs-raise, Logs-gets, Logs-require, Logs-require_owned, Logs-if, Logs-guard,
  Logs-append, Logs-modify, Logs-bind,
)
