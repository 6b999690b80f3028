-- ===== src/Client/Failmode/Retry.antt =====
-- The loops of client/failmod_failover.go and client/failmod_failtry.go: how often they call, which
-- servers they touch, and what they report.
use frpc.Base.{
  ℕ, zero, suc, ◌+◌, ◌≤◌, ◌≡◌, ◌≢◌, refl, ap, ◌∙◌, false, [], Option, none, some, arith, length,
  inl, inr, Bool-cases, Option-cases,
}
use frpc.Base.Bytes.{Bytes, eq}
use frpc.Base.Dict.{lookup}
use frpc.Client.Failmode.{
  Error, Net, Client, is_usable, install, connect_cached, get_cached_client, select_client,
  remove_client, try_once, fail_over, fail_try,
}

module _ {S : Type 0} (net : Net S) where
  install-attempts :
      (cname network address : Bytes) (failure : Option Error) (c : Client S)
      → (install net cname network address failure c).1.attempts ≡ c.attempts
  unfolding install
  install-attempts cname network address none c = refl
  install-attempts cname network address (some e) c = refl

  connect_cached-attempts :
      (cname : Bytes) (c : Client S) → (connect_cached net cname c).1.attempts ≡ c.attempts
  unfolding connect_cached
  connect_cached-attempts cname c = elim (Option-cases (lookup cname c.cached_client)) [
    | inr (i, e) ↦ rw (e, connect_cached)
    | inl e ↦ rw (e, connect_cached) (install-attempts cname _ _ _ _)
  ]

  get_cached_client-attempts :
      (cname : Bytes) (c : Client S) → (get_cached_client net cname c).1.attempts ≡ c.attempts
  unfolding get_cached_client
  get_cached_client-attempts cname c = elim (Option-cases (lookup cname c.cached_client)) [
    | inl e ↦ rw (e, get_cached_client) (connect_cached-attempts cname c)
    | inr (i, e) ↦ elim (Bool-cases (is_usable c.conns i)) [
      | inl u ↦ rw (e, get_cached_client) (rw u)
      | inr u ↦ rw (e, get_cached_client) (rw u (connect_cached-attempts cname c))
    ]
  ]

  remove_client-attempts :
      (cname : Bytes) (o : Option ℕ) (c : Client S)
      → (remove_client net cname o c).attempts ≡ c.attempts
  unfolding remove_client
  remove_client-attempts cname none c = refl
  remove_client-attempts cname (some i) c = refl

  select_client-attempts : (c : Client S) → (select_client net c).2.attempts ≡ c.attempts
  unfolding select_client
  select_client-attempts c = elim (Bool-cases (eq (net.select c.outside).0 [])) [
    | inl e ↦ rw (e, select_client)
    | inr e ↦
        rw (e, select_client)
          (get_cached_client-attempts (net.select c.outside).0
            (record c { outside = (net.select c.outside).1 }))
  ]

  try_once-attempts :
      (o : Option ℕ) (c : Client S) → length (try_once net o c).1.attempts ≤ length c.attempts + 1
  unfolding try_once
  try_once-attempts none c = omega arith
  try_once-attempts (some i) c = ground arith

  -- The loop of FailOverMod.Call calls at most `retries` times, whatever selector, dialling and
  -- connections do.
  pub fail_over-attempts :
      (retries : ℕ) (cname : Bytes) (client : Option ℕ) (e : Option Error) (c : Client S)
      → length (fail_over net retries cname client e c).1.attempts ≤ length c.attempts + retries
  unfolding fail_over
  fail_over-attempts zero cname client e c = omega arith
  fail_over-attempts (suc n) cname client e c = elim (Bool-cases (try_once net client c).0) [
    | inl s ↦ rw (s, fail_over) (omega (arith, try_once-attempts client c))
    | inr s ↦
        rw (s, fail_over)
          (let c1 = remove_client net cname client (try_once net client c).1 in
            omega (
              arith,
              fail_over-attempts n (select_client net c1).0 (select_client net c1).1.0
                  (select_client net c1).1.1 (select_client net c1).2,
              ap length (select_client-attempts c1),
              ap length (remove_client-attempts cname client (try_once net client c).1),
              try_once-attempts client c,
            ))
  ]

  -- The loop of FailTryMod.Call calls at most `retries` times, whatever dialling and connections
  -- do.
  fail_try-attempts :
      (retries : ℕ) (cname : Bytes) (client : Option ℕ) (e : Option Error) (c : Client S)
      → length (fail_try net retries cname client e c).1.attempts ≤ length c.attempts + retries
  unfolding fail_try
  fail_try-attempts zero cname client e c = omega arith
  fail_try-attempts (suc n) cname client e c = elim (Bool-cases (try_once net client c).0) [
    | inl s ↦ rw (s, fail_try) (omega (arith, try_once-attempts client c))
    | inr s ↦
        rw (s, fail_try)
          (let c1 = remove_client net cname client (try_once net client c).1 in
            let (r, c2) = get_cached_client net cname c1 in
            omega (
              arith,
              fail_try-attempts n cname r.0 r.1 c2,
              ap length (get_cached_client-attempts cname c1),
              ap length (remove_client-attempts cname client (try_once net client c).1),
              try_once-attempts client c,
            ))
  ]

  -- Where the selector has a server and it can be dialled, but every call fails, ...
  abbrev pub EveryCallFails : Type 0
  EveryCallFails =
      ((s : S) → eq (net.select s).0 [] ≡ false)
      × ((network address : Bytes) (s : S) → (net.dial network address s).0 ≡ none)
      × ((i : ℕ) (s : S) → (net.call_direct i s).0 ≢ none)

  module _ (bad : EveryCallFails) where
    install_connects :
        (cname network address : Bytes) (o : Option Error) (c : Client S)
        → o ≡ none
        → (install net cname network address o c).0.1 ≡ none
    unfolding install
    install_connects cname network address none c h = refl
    install_connects cname network address (some e) c h = cc

    connect_cached_connects :
        (cname : Bytes) (c : Client S) → (connect_cached net cname c).0.1 ≡ none
    unfolding connect_cached
    connect_cached_connects cname c = elim (Option-cases (lookup cname c.cached_client)) [
      | inr (i, e) ↦ rw (e, connect_cached)
      | inl e ↦ rw (e, connect_cached) (install_connects cname _ _ _ _ (bad.1 _ _ c.outside))
    ]

    get_cached_client_connects :
        (cname : Bytes) (c : Client S) → (get_cached_client net cname c).0.1 ≡ none
    unfolding get_cached_client
    get_cached_client_connects cname c = elim (Option-cases (lookup cname c.cached_client)) [
      | inl e ↦ rw (e, get_cached_client) (connect_cached_connects cname c)
      | inr (i, e) ↦ elim (Bool-cases (is_usable c.conns i)) [
        | inl u ↦ rw (e, get_cached_client) (rw u)
        | inr u ↦ rw (e, get_cached_client) (rw u (connect_cached_connects cname c))
      ]
    ]

    select_client_connects : (c : Client S) → (select_client net c).1.1 ≡ none
    unfolding select_client
    select_client_connects c =
        rw (bad.0 c.outside, select_client)
          (get_cached_client_connects (net.select c.outside).0
            (record c { outside = (net.select c.outside).1 }))

    try_once_fails : (o : Option ℕ) (c : Client S) → (try_once net o c).0 ≡ false
    unfolding try_once
    try_once_fails none c = refl
    try_once_fails (some i) c = elim (Option-cases (net.call_direct i c.outside).0) [
      | inl e ↦ absurd (bad.2 i c.outside e)
      | inr (x, e) ↦ rw (e, try_once)
    ]

    fail_over_nil :
        (retries : ℕ) (cname : Bytes) (client : Option ℕ) (c : Client S)
        → (fail_over net retries cname client none c).0 ≡ none
    unfolding fail_over
    fail_over_nil zero cname client c = refl
    fail_over_nil (suc n) cname client c =
        rw (try_once_fails client c, fail_over)
          (let (cname', (client', e'), c') =
              select_client net (remove_client net cname client (try_once net client c).1) in
            (ap (λ x. (fail_over net n cname' client' x c').0)
                (select_client_connects (remove_client net cname client (try_once net client c).1))
              ∙ fail_over_nil n cname' client' c'))

    fail_try_nil :
        (retries : ℕ) (cname : Bytes) (client : Option ℕ) (c : Client S)
        → (fail_try net retries cname client none c).0 ≡ none
    unfolding fail_try
    fail_try_nil zero cname client c = refl
    fail_try_nil (suc n) cname client c =
        rw (try_once_fails client c, fail_try)
          (let ((client', e'), c') =
              get_cached_client net cname
                (remove_client net cname client (try_once net client c).1) in
            (ap (λ x. (fail_try net n cname client' x c').0)
                (get_cached_client_connects cname
                  (remove_client net cname client (try_once net client c).1))
              ∙ fail_try_nil n cname client' c'))

    -- Both retry loops return no error although no call succeeded, for any number of retries.
    -- Condition: the selector always has a server, dialling always succeeds, and every call fails.
    pub retries_mask_failure :
        (retries : ℕ) (cname : Bytes) (client : Option ℕ) (c : Client S)
        → ((fail_over net retries cname client none c).0 ≡ none)
          × ((fail_try net retries cname client none c).0 ≡ none)
    retries_mask_failure retries cname client c =
        (fail_over_nil retries cname client c, fail_try_nil retries cname client c)
