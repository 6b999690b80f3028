-- ===== src/Server/Controllers/Limit.antt =====
-- How many connections the rate limit of controller/ratelimit.go admits.
use frpc.Base.{
  ℕ, ◌+◌, ◌≤◌, ◌≡◌, Bool-cases, inl, inr, List, [], ◌∷◌, arith, ltb, length, if◌then◌else◌,
}
use frpc.Server.Controller.{Controller, handle_conn}
use frpc.Server.Controllers.{rate_limit}

module _ {S : Type 0} where
  -- The connections of a list that the controllers admit, one after the other, and the state then.
  unfoldable pub admitted_of : List (Controller S) → List ℕ → S → List ℕ × S
  admitted_of cs [] s = ([], s)
  admitted_of cs (conn ∷ conns) s =
      let a = handle_conn cs conn s in
      let (more, s') = admitted_of cs conns a.state in
      ((if a.admitted then conn ∷ more else more), s')

  -- A bucket that is not refilled: what TakeAvailable gives is taken out of it.
  abbrev pub Drains : (S → ℕ) → (ℕ → S → ℕ × S) → Type 0
  Drains available take_available =
      (n : ℕ) (s : S) → (take_available n s).0 + available (take_available n s).1 ≡ available s

  -- Of any sequence of connections the rate limit admits at most as many as its bucket has left,
  -- and what it admits is taken off. Condition: the bucket is not refilled, and what TakeAvailable
  -- gives is taken out of it.
  pub admitted_of-rate_limit :
      (available : S → ℕ) (take_available : ℕ → S → ℕ × S) (conns : List ℕ) (s : S)
      → Drains available take_available
      → length (admitted_of (rate_limit take_available ∷ []) conns s).0
          + available (admitted_of (rate_limit take_available ∷ []) conns s).1
        ≤ available s
  unfolding admitted_of rate_limit handle_conn
  admitted_of-rate_limit available take_available [] s d = omega arith
  admitted_of-rate_limit available take_available (conn ∷ conns) s d =
      elim (Bool-cases (ltb 0 (take_available 1 s).0)) [
        | inl e ↦ rw e (
            ground (
              arith,
              e,
              d 1 s,
              admitted_of-rate_limit available take_available conns (take_available 1 s).1 d,
            ))
        | inr e ↦ rw e (
            ground (
              arith,
              e,
              d 1 s,
              admitted_of-rate_limit available take_available conns (take_available 1 s).1 d,
            ))
      ]
