-- ===== src/Client/Failmode/Cached.antt =====
-- What getCachedClient, removeClient and FailFastMod.Call of client/ do to the cache.
use frpc.Base.{
  ℕ, zero, suc, ◌≡◌, refl, ap, true, false, not, ◌&&◌, List, [], ◌∷◌, ◌++◌, Option, none, some,
  arith, length, inl, inr, Bool-cases,
}
use frpc.Base.Bytes.{Bytes, eq_refl}
use frpc.Base.Dict.{Dict, lookup, lookup-insert, lookup-erase}
use frpc.Client.Failmode.{
  Error, Conn, Net, Client, is_usable, shut_conn, evict, install, connect_cached, get_cached_client,
  remove_client, is_service_error, fail_fast, split_network_and_address,
}

is_usable_new :
    (ks : List Conn) (k : Conn)
    → is_usable (ks ++ (k ∷ [])) (length ks) ≡ not k.closing && not k.shutdown
unfolding is_usable
is_usable_new [] k = refl
is_usable_new (x ∷ ks) k = is_usable_new ks k

is_usable-shut_conn : (i : ℕ) (ks : List Conn) → is_usable (shut_conn i ks) i ≡ false
unfolding is_usable shut_conn
is_usable-shut_conn i [] = refl
is_usable-shut_conn zero (k ∷ ks) = ground arith
is_usable-shut_conn (suc i) (k ∷ ks) = is_usable-shut_conn i ks

module _ {S : Type 0} (net : Net S) where
  -- What getCachedClient may answer for a server that is not in the cache.
  pub data Dialled (cname : Bytes) (c : Client S)
      : (Option ℕ × Option Error) × Client S → Type 0 where
    refused :
        (e : Error) (c' : Client S)
        → c'.cached_client ≡ c.cached_client
        → c'.conns ≡ c.conns
        → Dialled cname c ((none, some e), c')
    connected :
        (i : ℕ) (c' : Client S)
        → i ≡ length c.conns
        → is_usable c'.conns i ≡ true
        → lookup cname c'.cached_client ≡ some i
        → Dialled cname c ((some i, none), c')

  install-Dialled :
      (cname network address : Bytes) (failure : Option Error) (c c0 : Client S)
      → c.conns ≡ c0.conns
      → c.cached_client ≡ c0.cached_client
      → Dialled cname c0 (install net cname network address failure c)
  unfolding install
  install-Dialled cname network address (some e) c c0 k d = refused e c d k
  install-Dialled cname network address none c c0 k d =
      connected (length c.conns) _ (ap length k) (is_usable_new c.conns _)
        (ground (arith, lookup-insert cname cname (length c.conns) c.cached_client, eq_refl cname))

  -- getCachedClient for a server that is not in the cache either returns the error of dialling and
  -- keeps cache and connections, or returns the new connection, which is usable and stands in the
  -- cache under that name.
  pub get_cached_client-Dialled :
      (cname : Bytes) (c : Client S)
      → lookup cname c.cached_client ≡ none
      → Dialled cname c (get_cached_client net cname c)
  unfolding get_cached_client
  get_cached_client-Dialled cname c e =
      rw (e, get_cached_client)
        (rw (e, connect_cached)
          (let (network, address) = split_network_and_address cname in
            let (failure, outside') = net.dial network address c.outside in
            install-Dialled cname network address failure (record c { outside = outside' }) c refl
              refl))

  -- A connection that stands in the cache is returned whether it is usable or closed, and nothing
  -- changes.
  get_cached_client_cached :
      (cname : Bytes) (c : Client S) (i : ℕ)
      → lookup cname c.cached_client ≡ some i
      → get_cached_client net cname c ≡ ((some i, none), c)
  unfolding get_cached_client
  get_cached_client_cached cname c i e = elim (Bool-cases (is_usable c.conns i)) [
    | inl u ↦ rw (e, get_cached_client) (rw u)
    | inr u ↦ rw (e, get_cached_client) (rw u (rw (e, connect_cached)))
  ]

  -- FailFastMod.Call calls once. A success or an error of the service leaves the cache as it is; any
  -- other error takes the server out of the cache, shuts the connection and ends the watch.
  abbrev pub FastOutcome : Bytes → ℕ → Client S → Option Error × Client S → Type 0
  FastOutcome cname i c (none, c') =
      (c'.cached_client ≡ c.cached_client) × (c'.watching ≡ c.watching)
  FastOutcome cname i c (some (Error.service_error e), c') =
      (c'.cached_client ≡ c.cached_client) × (c'.watching ≡ c.watching)
  FastOutcome cname i c (some _, c') =
      (lookup cname c'.cached_client ≡ none)
      × (is_usable c'.conns i ≡ false)
      × (c'.watching ≡ false)

  lookup-evict :
      (cname : Bytes) (i : ℕ) (d : Dict ℕ)
      → lookup cname d ≡ some i
      → lookup cname (evict cname i d) ≡ none
  unfolding evict
  lookup-evict cname i d e =
      rw (e, evict) (ground (arith, lookup-erase cname cname d, eq_refl cname))

  -- FailFastMod.Call calls exactly once. A success or an error of the service leaves the cache and
  -- the watch as they are; any other error takes the server out of the cache, makes the connection
  -- unusable and closes the shared channel of the discovery. Condition: the connection stands in
  -- the cache.
  pub fail_fast-FastOutcome :
      (cname : Bytes) (i : ℕ) (c : Client S)
      → lookup cname c.cached_client ≡ some i
      → FastOutcome cname i c (fail_fast net cname i c)
        × ((fail_fast net cname i c).1.attempts ≡ i ∷ c.attempts)
  unfolding fail_fast remove_client is_service_error
  fail_fast-FastOutcome cname i c e = by_failure (net.call_direct i c.outside).0 refl
    where
      by_failure :
          (o : Option Error)
          → (net.call_direct i c.outside).0 ≡ o
          → FastOutcome cname i c (fail_fast net cname i c)
            × ((fail_fast net cname i c).1.attempts ≡ i ∷ c.attempts)
      by_failure none q = rw (q, fail_fast) ((refl, refl), refl)
      by_failure (some (Error.service_error x)) q = rw (q, fail_fast) ((refl, refl), refl)
      by_failure (some (Error.other x)) q =
          rw (q, fail_fast)
            ((lookup-evict cname i c.cached_client e, is_usable-shut_conn i _, refl), refl)
      by_failure (some Error.no_server) q =
          rw (q, fail_fast)
            ((lookup-evict cname i c.cached_client e, is_usable-shut_conn i _, refl), refl)
      by_failure (some Error.no_discovery) q =
          rw (q, fail_fast)
            ((lookup-evict cname i c.cached_client e, is_usable-shut_conn i _, refl), refl)
