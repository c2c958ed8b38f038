-- ===== src/Agent/Coordinator/Effects.antt =====
-- What a coordinator's actions do to the audit log and to the number of model requests, one rule
-- for each way to build an action.
use astra_agent.Base.{
  ℕ, ◌+◌, ◌≤◌, Bool, true, false, Option, none, some, if◌then◌else◌, Extends, Extends-refl,
  Extends-trans, arith,
}
use astra_agent.Base.Exec.{
  Failure, Result, ok, err, continue, pure, raise, gets, require, guard, ◌>>=◌,
}
use astra_agent.Runtime.State.{Env, Method}
use astra_agent.Runtime.Audit.Rules.{Logs}
use astra_agent.Agent.Coordinator.Session.{World, Session, Coord, call, ask, readings}

-- `m` appends to the audit log and asks the model at most `n` times, whether it returns or raises.
pub record Asks {A : Type 0} (n : ℕ) (m : Coord A) : Type 0 where
  pub asks : (s : Session) → (m s).1.requests ≤ s.requests + n
  pub logs : (s : Session) → Extends s.store.events (m s).1.store.events

module _ {A : Type 0} where
  pub Asks-pure : (n : ℕ) (a : A) → Asks n (pure a)
  unfolding ◌>>=◌
  Asks-pure n a = record { asks = λ s. omega arith; logs = λ s. Extends-refl s.store.events }

  pub Asks-raise : (n : ℕ) (e : Failure) → Asks n (raise {A = A} e)
  unfolding ◌>>=◌
  Asks-raise n e = record { asks = λ s. omega arith; logs = λ s. Extends-refl s.store.events }

  pub Asks-gets : (n : ℕ) (f : Session → A) → Asks n (gets f)
  unfolding ◌>>=◌
  Asks-gets n f = record { asks = λ s. omega arith; logs = λ s. Extends-refl s.store.events }

  pub Asks-require : (n : ℕ) (o : Option A) (e : Failure) → Asks n (require o e)
  unfolding ◌>>=◌
  Asks-require n none e = record {
    asks = λ s. omega arith;
    logs = λ s. Extends-refl s.store.events;
  }
  Asks-require n (some a) e = record {
    asks = λ s. omega arith;
    logs = λ s. Extends-refl s.store.events;
  }

  pub Asks-if :
      (n : ℕ) (b : Bool) (x y : Coord A) → Asks n x → Asks n y → Asks n (if b then x else y)
  Asks-if n true x y kx ky = kx
  Asks-if n false x y kx ky = ky

  pub Asks-call :
      (n : ℕ) (world : World) (method : Env → Method A)
      → ((env : Env) → Logs (method env))
      → Asks n (call world method)
  unfolding call
  Asks-call n world method k = record {
    asks = λ s. let r = method (world.envs s.steps) s.store in omega arith;
    logs = λ s. (k (world.envs s.steps)).at s.store;
  }

  pub Asks-ask : (n : ℕ) (world : World) (answer : ℕ → A) → Asks n (ask world answer)
  unfolding ask
  Asks-ask n world answer = record {
    asks = λ s. omega arith;
    logs = λ s. Extends-refl s.store.events;
  }

pub Asks-guard : (n : ℕ) (b : Bool) (e : Failure) → Asks n (guard b e)
unfolding ◌>>=◌
Asks-guard n true e = record { asks = λ s. omega arith; logs = λ s. Extends-refl s.store.events }
Asks-guard n false e = record { asks = λ s. omega arith; logs = λ s. Extends-refl s.store.events }

pub Asks-readings : (n : ℕ) (world : World) → Asks n (readings world)
unfolding readings
Asks-readings n world = Asks-ask n world world.envs

module _ {A B : Type 0} where
  Asks-continue :
      (n : ℕ) (r : Result A) (f : A → Coord B) → ((a : A) → Asks n (f a)) → Asks n (continue r f)
  Asks-continue n (ok a) f k = record { asks = (k a).asks; logs = (k a).logs }
  Asks-continue n (err e) f k = record {
    asks = λ s. omega arith;
    logs = λ s. Extends-refl s.store.events;
  }

  pub Asks-then :
      (i n : ℕ) (m : Coord A) (f : A → Coord B)
      → Asks i m
      → ((a : A) → Asks n (f a))
      → Asks (i + n) (m >>= f)
  unfolding ◌>>=◌
  Asks-then i n m f km kf = record {
    asks = λ s.
        let (r, s') = m s in let k = Asks-continue n r f kf in omega (arith, km.asks s, k.asks s');
    logs = λ s.
        let (r, s') = m s in
        Extends-trans s.store.events s'.store.events (continue r f s').1.store.events (km.logs s)
          ((Asks-continue n r f kf).logs s');
  }

  pub Asks-bind :
      (n : ℕ) (m : Coord A) (f : A → Coord B)
      → Asks 0 m
      → ((a : A) → Asks n (f a))
      → Asks n (m >>= f)
  unfolding ◌>>=◌
  Asks-bind n m f km kf =
      let k = Asks-then 0 n m f km kf in
      record { asks = λ s. omega (arith, k.asks s); logs = k.logs }

pub ruleset ask_rules = (
  Asks-pure, Asks-raise, Asks-gets, Asks-require, Asks-if, Asks-call, Asks-ask, Asks-guard,
  Asks-readings, Asks-bind,
)
