-- ===== src/Client/Guarded.antt =====
-- CallDirect of client/client.go behind a circuit breaker: Breaker of client/client_controller.go, what
-- getCachedClient hands on to a new connection, and circuit/breaker_consecutive.go, breaker_rate.go and
-- breaker_threshold.go, which call a library. A breaker is a pointer into a heap of breakers.
pub mod Shared
use frpc.Base.{ℕ, Bool, true, List, [], ◌∷◌, Option, none, some, ◌==◌, if◌then◌else◌}
use frpc.Base.Bytes.{Bytes}
use frpc.Base.Dict.{Dict, lookup, insert}
use frpc.Circuit.{Breaker, Error, of_function, Work, call}

-- The implementations of circuit.Breaker; `L` is a breaker of the library.
pub data Guard (L : Type 0) : Type 0 where
  simple : Breaker → Guard L
  of_library : L → Guard L

pub record BreakerClient : Type 0 where
  pub breaker : Option ℕ
  pub timeout : ℕ

-- A client with its own settings, those of the connections in its cache, and the breakers.
pub record Fleet (L : Type 0) : Type 0 where
  pub own : BreakerClient
  pub cached : Dict BreakerClient
  pub heap : ℕ → Guard L

-- A call: the server, the time, the time at which its result is noted, and its work.
pub record Called : Type 0 where
  pub server : Bytes
  pub now : ℕ
  pub later : ℕ
  pub work : Work

module _ {L : Type 0} where
  unfoldable pub set_breaker : Option ℕ → ℕ → Fleet L → Fleet L
  set_breaker breaker timeout f = record f { own = record { breaker = breaker; timeout = timeout } }

  unfoldable pub write : ℕ → Guard L → (ℕ → Guard L) → ℕ → Guard L
  write p g heap q = if q == p then g else heap q

  -- A connection that is not in the cache is made with a copy of the settings; dialling succeeds here.
  unfoldable pub cached_settings : Bytes → Fleet L → BreakerClient × Fleet L
  cached_settings server f = elim (lookup server f.cached) [
    | some c ↦ (c, f)
    | none ↦ (f.own, record f { cached = insert server f.own f.cached })
  ]

-- `library` is Call of the library's breaker: the error, and whether the function was called.
module _ {L : Type 0} (library : ℕ → ℕ → ℕ → Work → L → Option Error × Bool × L) where
  unfoldable pub guard_call : ℕ → ℕ → ℕ → Work → Guard L → (Option Error × Bool) × Guard L
  unfolding call
  guard_call now later d w (simple b) =
      let (e, went, b') = call now later d w b in ((e, went), simple b')
  guard_call now later d w (of_library l) =
      let (e, went, l') = library now later d w l in ((e, went), of_library l')

  unfoldable pub call_direct : BreakerClient → Called → Fleet L → (Option Error × Bool) × Fleet L
  unfolding guard_call write
  call_direct c x f = elim c.breaker [
    | some p ↦
        let (r, g) = guard_call x.now x.later c.timeout x.work (f.heap p) in
        (r, record f { heap = write p g f.heap })
    | none ↦ (((elim x.work.failure [ none ↦ none | some e ↦ some (of_function e) ]), true), f)
  ]

  -- A call to a server over its connection.
  unfoldable pub call_server : Called → Fleet L → (Option Error × Bool) × Fleet L
  unfolding cached_settings call_direct
  call_server x f = let (c, f') = cached_settings x.server f in call_direct c x f'

  unfoldable pub call_servers : List Called → Fleet L → List (Option Error × Bool) × Fleet L
  unfolding call_server
  call_servers [] f = ([], f)
  call_servers (x ∷ xs) f =
      let (r, f') = call_server x f in let (rs, f'') = call_servers xs f' in (r ∷ rs, f'')
