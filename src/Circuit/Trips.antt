-- ===== src/Circuit/Trips.antt =====
-- When SimpleCircuitBreaker of circuit/breaker_simple.go opens, and when it closes again.
use frpc.Base.{
  ◌∙◌, ℕ, suc, ◌+◌, ◌-◌, ◌^◌, ◌≤◌, ◌<◌, ◌≡◌, ◌≢◌, refl, ap, true, false, List, [], ◌∷◌, Option,
  none, some, arith, ltb, ltb→lt, lt→ltb, if◌then◌else◌, length, Bool-cases, subst, inl, inr, ◌↔◌,
}
use frpc.Circuit.{
  Breaker, Error, breaker_open, reset, success, fail, ready, Work, outcome, settle, call,
}

-- Calls one after the other: the time of each, the time at which its result is noted, and its work.
pub record Attempt : Type 0 where
  pub now : ℕ
  pub later : ℕ
  pub work : Work

-- How many functions were called, and the breaker afterwards.
unfoldable pub run_calls : ℕ → List Attempt → Breaker → ℕ × Breaker
run_calls d [] b = (0, b)
run_calls d (a ∷ as') b =
    let (e, went, b') = call a.now a.later d a.work b in
    let (n, b'') = run_calls d as' b' in ((if went then suc n else n), b'')

-- Every call comes while the window of the last failure is open, and its function fails.
abbrev pub AllFail : ℕ → List Attempt → Breaker → Type 0
AllFail d [] b = Unit {0}
AllFail d (a ∷ as') b =
    (a.now - b.last_failure_time ≤ b.window)
    × (outcome d a.work ≢ none)
    × AllFail d as' (call a.now a.later d a.work b).2

abbrev pub lesser : ℕ → ℕ → ℕ
lesser a b = if ltb a b then a else b

ready_within :
    (now : ℕ) (b : Breaker)
    → now - b.last_failure_time ≤ b.window
    → ready now b ≡ (ltb b.failures b.failure_threshold, b)
unfolding ready
ready_within now b w = rw (late, ready) refl
  where
    late : ltb b.window (now - b.last_failure_time) ≡ false
    late = ground (arith, w)

settle_failed :
    (later : ℕ) (o : Option Error) (b : Breaker) → o ≢ none → settle later o b ≡ fail later b
unfolding settle
settle_failed later none b f = absurd (f refl)
settle_failed later (some e) b f = refl

failing_call :
    (d : ℕ) (a : Attempt) (b : Breaker)
    → a.now - b.last_failure_time ≤ b.window
    → outcome d a.work ≢ none
    → b.failures < b.failure_threshold
    → call a.now a.later d a.work b ≡ (outcome d a.work, true, fail a.later b)
unfolding call
failing_call d a b w f lt =
    rw (ready_within a.now b w, lt→ltb b.failures b.failure_threshold lt)
      (ap (λ x. (outcome d a.work, true, x)) (settle_failed a.later (outcome d a.work) b f))

pub refused_call :
    (d : ℕ) (a : Attempt) (b : Breaker)
    → a.now - b.last_failure_time ≤ b.window
    → b.failure_threshold ≤ b.failures
    → call a.now a.later d a.work b ≡ (some breaker_open, false, b)
unfolding call
refused_call d a b w le = rw (ready_within a.now b w, full) refl
  where
    full : ltb b.failures b.failure_threshold ≡ false
    full = ground (arith, le)

-- Of calls that all fail within the window of the last failure, the breaker lets through exactly
-- as many as the threshold has left, and refuses the rest; the count of failures stops at the
-- threshold. Conditions: the count starts at most at the threshold, which is below 2^64.
pub run_calls-failures :
    (d : ℕ) (as' : List Attempt) (b : Breaker)
    → b.failures ≤ b.failure_threshold
    → b.failure_threshold < 2 ^ 64
    → AllFail d as' b
    → ((run_calls d as' b).0 ≡ lesser (length as') (b.failure_threshold - b.failures))
      × ((run_calls d as' b).1.failures ≡ lesser (b.failures + length as') b.failure_threshold)
unfolding run_calls fail
run_calls-failures d [] b le small h = (ground (arith, le), ground (arith, le))
run_calls-failures d (a ∷ as') b le small (w, f, h) =
    elim (Bool-cases (ltb b.failures b.failure_threshold)) [
      | inl e ↦
          let step = failing_call d a b w f (ltb→lt _ _ e) in
          let rest =
            run_calls-failures d as' (fail a.later b) (omega (arith, ltb→lt _ _ e)) small
              (subst (λ x. AllFail d as' x.2) step h) in
          rw step (ground (arith, rest.0, rest.1, ltb→lt _ _ e))
      | inr e ↦
          let full : b.failure_threshold ≤ b.failures = ground (arith, e) in
          let step = refused_call d a b w full in
          let rest = run_calls-failures d as' b le small (subst (λ x. AllFail d as' x.2) step h) in
          rw step (ground (arith, rest.0, rest.1, e))
    ]

call-failure_threshold :
    (now later d : ℕ) (w : Work) (b : Breaker)
    → (call now later d w b).2.failure_threshold ≡ b.failure_threshold
unfolding call ready settle success fail reset
call-failure_threshold now later d w b =
    elim (Bool-cases (ltb b.window (now - b.last_failure_time))) [
      | inl late ↦ rw (late, call, ready) (settled (outcome d w) (reset now b))
      | inr early ↦ elim (Bool-cases (ltb b.failures b.failure_threshold)) [
        | inl p ↦ rw (early, p, call, ready) (settled (outcome d w) b)
        | inr p ↦ rw (early, p, call, ready) refl
      ]
    ]
  where
    settled :
        (o : Option Error) (c : Breaker)
        → (settle later o c).failure_threshold ≡ c.failure_threshold
    settled none c = refl
    settled (some e) c = refl

-- Calls do not change the threshold.
pub run_calls-failure_threshold :
    (d : ℕ) (as' : List Attempt) (b : Breaker)
    → (run_calls d as' b).1.failure_threshold ≡ b.failure_threshold
unfolding run_calls
run_calls-failure_threshold d [] b = refl
run_calls-failure_threshold d (a ∷ as') b =
    run_calls-failure_threshold d as' (call a.now a.later d a.work b).2
    ∙ call-failure_threshold a.now a.later d a.work b

-- Once more than the window has passed since the last failure, Call calls the function whatever
-- the count, returns its outcome, and leaves the count 0 after a success and 1 after a failure.
-- Condition: more than the window has passed.
pub call_recovers :
    (now later d : ℕ) (w : Work) (b : Breaker)
    → b.window < now - b.last_failure_time
    → ((call now later d w b).1 ≡ true)
      × ((call now later d w b).0 ≡ outcome d w)
      × ((call now later d w b).2.failures ≤ 1)
      × ((outcome d w ≡ none) ↔ ((call now later d w b).2.failures ≡ 0))
unfolding call ready
call_recovers now later d w b h =
    rw (lt→ltb _ _ h) (refl, refl, (settled (outcome d w)).0, (settled (outcome d w)).1)
  where
    settled :
        (o : Option Error)
        → ((settle later o (reset now b)).failures ≤ 1)
          × ((o ≡ none) ↔ ((settle later o (reset now b)).failures ≡ 0))
    settled none = unfold settle success reset in ground arith
    settled (some e) = unfold settle fail reset in ground arith
