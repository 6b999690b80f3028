-- ===== src/Client/Guarded/Shared.antt =====
-- One breaker stands before all connections of a client.
use frpc.Base.{
  ℕ, ◌+◌, ◌-◌, ◌^◌, ◌≤◌, ◌<◌, ◌≡◌, refl, ap, sym, ◌∙◌, Bool, false, List, [], ◌∷◌, Option, some,
  arith, map, length, length-map, some_injective, Bool-cases, Option-cases, inl, inr, subst,
}
use frpc.Base.Bytes.{Bytes, eq}
use frpc.Base.Dict.{Dict, lookup, insert, lookup-insert}
use frpc.Circuit.{Breaker, Error, breaker_open, Work, call}
use frpc.Circuit.Trips.{
  lesser, Attempt, run_calls, AllFail, refused_call, run_calls-failures,
  run_calls-failure_threshold,
}
use frpc.Client.Guarded.{
  Guard, simple, BreakerClient, Fleet, Called, write, cached_settings, guard_call, call_direct,
  call_server, call_servers,
}

-- All connections have the settings of the client, whose breaker is the SimpleCircuitBreaker `b`.
pub record Guards {L : Type 0} (p d : ℕ) (b : Breaker) (f : Fleet L) : Type 0 where
  pub breaker : f.own.breaker ≡ some p
  pub timeout : f.own.timeout ≡ d
  pub copies : (server : Bytes) (c : BreakerClient) → lookup server f.cached ≡ some c → c ≡ f.own
  pub here : f.heap p ≡ simple b

abbrev pub attempt : Called → Attempt
attempt x = record { now = x.now; later = x.later; work = x.work }

simple_injective : {L : Type 0} {a b : Breaker} → Path (Guard L) (simple a) (simple b) → a ≡ b
simple_injective e = cc

fullness :
    (after limit failures threshold n m : ℕ)
    → m ≡ n
    → failures ≤ threshold
    → threshold - failures ≤ n
    → limit ≡ threshold
    → after ≡ lesser (failures + m) threshold
    → limit ≤ after
fullness after limit failures threshold n m same le enough same' counted = ground arith

lookup-copies :
    (server asked : Bytes) (v c : BreakerClient) (cached : Dict BreakerClient)
    → (lookup asked cached ≡ some c → c ≡ v)
    → lookup asked (insert server v cached) ≡ some c
    → c ≡ v
lookup-copies server asked v c cached old e = elim (Bool-cases (eq server asked)) [
  | inl same ↦ sym (some_injective (sym (lookup-insert server asked v cached ∙ rw same refl) ∙ e))
  | inr other ↦ old (sym (lookup-insert server asked v cached ∙ rw other refl) ∙ e)
]

module _ {L : Type 0} where
  cached_settings-Guards :
      (p d : ℕ) (b : Breaker) (server : Bytes) (f : Fleet L)
      → Guards p d b f
      → ((cached_settings server f).0 ≡ f.own) × Guards p d b (cached_settings server f).1
  unfolding cached_settings
  cached_settings-Guards p d b server f g = elim (Option-cases (lookup server f.cached)) [
    | inr (c, e) ↦ rw (e, cached_settings) (g.copies server c e, g)
    | inl e ↦
        rw (e, cached_settings)
          (
            refl,
            record {
              breaker = g.breaker;
              timeout = g.timeout;
              copies = λ asked c. lookup-copies server asked f.own c f.cached (g.copies asked c);
              here = g.here;
            },
          )
  ]

module _ {L : Type 0} (library : ℕ → ℕ → ℕ → Work → L → Option Error × Bool × L) where
  write-same : (q : ℕ) (g : Guard L) (heap : ℕ → Guard L) → write q g heap q ≡ g
  unfolding write
  write-same q g heap = ground arith

  call_direct-Guards :
      (p d : ℕ) (b : Breaker) (c : BreakerClient) (x : Called) (f : Fleet L)
      → c.breaker ≡ some p
      → c.timeout ≡ d
      → Guards p d b f
      → ((call_direct library c x f).0
          ≡ ((call x.now x.later d x.work b).0, (call x.now x.later d x.work b).1))
        × Guards p d (call x.now x.later d x.work b).2 (call_direct library c x f).1
  unfolding call_direct guard_call
  call_direct-Guards p d b c x f at_p in_d g =
      rw (at_p, in_d, g.here, call_direct)
        (
          refl,
          record {
            breaker = g.breaker;
            timeout = g.timeout;
            copies = g.copies;
            here = write-same p _ f.heap;
          },
        )

  call_server-Guards :
      (p d : ℕ) (b : Breaker) (x : Called) (f : Fleet L)
      → Guards p d b f
      → ((call_server library x f).0
          ≡ ((call x.now x.later d x.work b).0, (call x.now x.later d x.work b).1))
        × Guards p d (call x.now x.later d x.work b).2 (call_server library x f).1
  unfolding call_server
  call_server-Guards p d b x f g =
      let (own, g') = cached_settings-Guards p d b x.server f g in
      call_direct-Guards p d b (cached_settings x.server f).0 x (cached_settings x.server f).1
        (ap BreakerClient.breaker own ∙ g.breaker) (ap BreakerClient.timeout own ∙ g.timeout) g'

  call_servers-Guards :
      (xs : List Called) (p d : ℕ) (b : Breaker) (f : Fleet L)
      → Guards p d b f
      → Guards p d (run_calls d (map attempt xs) b).1 (call_servers library xs f).1
  unfolding call_servers run_calls
  call_servers-Guards [] p d b f g = g
  call_servers-Guards (x ∷ xs) p d b f g =
      call_servers-Guards xs p d (call x.now x.later d x.work b).2 (call_server library x f).1
        (call_server-Guards p d b x f g).1

  -- The connections of a client share one breaker: after as many calls as the threshold has left,
  -- to any servers, that all fail within the window of the last failure, a call to any other
  -- server within the window is refused with ErrBreakerOpen and not made. Conditions: all
  -- connections have the settings of the client, whose breaker is a SimpleCircuitBreaker; its
  -- count starts at most at the threshold, which is below 2^64.
  pub call_servers-breaker_open :
      (xs : List Called) (x : Called) (p d : ℕ) (b b' : Breaker) (f : Fleet L)
      → Guards p d b f
      → b.failures ≤ b.failure_threshold
      → b.failure_threshold < 2 ^ 64
      → AllFail d (map attempt xs) b
      → b.failure_threshold - b.failures ≤ length xs
      → (call_servers library xs f).1.heap p ≡ simple b'
      → x.now - b'.last_failure_time ≤ b'.window
      → (call_server library x (call_servers library xs f).1).0 ≡ (some breaker_open, false)
  call_servers-breaker_open xs x p d b b' f g le small fails enough e soon =
      let after = run_calls d (map attempt xs) b in
      let g' = call_servers-Guards xs p d b f g in
      let same : after.1 ≡ b' = simple_injective (sym g'.here ∙ e) in
      let counts = run_calls-failures d (map attempt xs) b le small fails in
      let full : after.1.failure_threshold ≤ after.1.failures =
        fullness after.1.failures after.1.failure_threshold b.failures b.failure_threshold
          (length xs) (length (map attempt xs)) (length-map xs attempt) le enough
          (run_calls-failure_threshold d (map attempt xs) b) counts.1 in
      let refused =
        refused_call d (attempt x) after.1
          (subst (λ k. x.now - k.last_failure_time ≤ k.window) (sym same) soon) full in
      (call_server-Guards p d after.1 x _ g').0 ∙ ap (λ r. (r.0, r.1)) refused
