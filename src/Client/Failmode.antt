-- ===== src/Client/Failmode.antt =====
-- The cache of connections of client/client.go (getCachedClient, selectClient, removeClient), its
-- method Call, and the modes of failure of client/failmod.go and its three neighbours.
pub mod Cached
pub mod Retry
pub mod Closed
use frpc.Base.{
  ℕ, zero, suc, ◌+◌, Bool, true, false, not, ◌&&◌, ◌||◌, List, [], ◌∷◌, ◌++◌, Option, none, some,
  ◌==◌, if◌then◌else◌, length, get_elem?, set,
}
use frpc.Base.Bytes.{Bytes, text, eq}
use frpc.Base.Dict.{Dict, lookup, insert, erase}

-- The error of a call: of the service itself (ServiceError), or any other.
pub data Error : Type 0 where
  service_error : Bytes → Error
  other : Bytes → Error
  no_server : Error
  no_discovery : Error

abbrev pub fail_fast_mode : ℕ
fail_fast_mode = 0

abbrev pub fail_over_mode : ℕ
fail_over_mode = 1

abbrev pub fail_try_mode : ℕ
fail_try_mode = 2

-- strings.SplitN(server, "@", 2) with the default network "tcp".
unfoldable pub split_at : Bytes → Bytes → Option (Bytes × Bytes)
split_at front [] = none
split_at front (b ∷ rest) =
    if b == b'@' then some (front, rest) else split_at (front ++ (b ∷ [])) rest

unfoldable pub split_network_and_address : Bytes → Bytes × Bytes
unfolding split_at
split_network_and_address server = elim (split_at [] server) [
  | none ↦ (text "tcp", server)
  | some (network, address) ↦ (network, address)
]

-- The test `_, ok := err.(ServiceError)`.
unfoldable pub is_service_error : Error → Bool
is_service_error (service_error e) = true
is_service_error _ = false

-- A connection, as far as the cache looks at it: Client.closing and Client.shutdown.
pub record Conn : Type 0 where
  pub network : Bytes
  pub address : Bytes
  pub closing : Bool
  pub shutdown : Bool

-- What lies outside the cache, over a state `S` of its own: the selector, dialling, and CallDirect
-- on the connection with this number, with whether the connection ended during the call.
pub record Net (S : Type 0) : Type 0 where
  pub select : S → Bytes × S
  pub dial : Bytes → Bytes → S → Option Error × S
  pub call_direct : ℕ → S → Option Error × S
  pub ended : ℕ → S → Bool

-- The client that holds the cache. A *Client in the cache is an index into `conns`; `attempts` is
-- the list of the calls of CallDirect; `watching` says that the channel of the discovery is open.
pub record Client (S : Type 0) : Type 0 where
  pub outside : S
  pub cached_client : Dict ℕ
  pub conns : List Conn
  pub attempts : List ℕ
  pub watching : Bool

unfoldable pub is_usable : List Conn → ℕ → Bool
is_usable conns i = elim (get_elem? conns i) [
  | none ↦ false
  | some k ↦ not k.closing && not k.shutdown
]

-- client.shutdown = true
unfoldable pub shut_conn : ℕ → List Conn → List Conn
shut_conn i [] = []
shut_conn zero (k ∷ ks) = record k { shutdown = true } ∷ ks
shut_conn (suc i) (k ∷ ks) = k ∷ shut_conn i ks

-- v.close() on a connection: one that is closing or shut down stays as it is.
unfoldable pub close_conn : ℕ → List Conn → List Conn
close_conn i [] = []
close_conn zero (k ∷ ks) = (if k.closing || k.shutdown then k else record k { closing = true }) ∷ ks
close_conn (suc i) (k ∷ ks) = k ∷ close_conn i ks

-- The loop of Close over the cache.
unfoldable pub close_all : Dict ℕ → List Conn → List Conn
unfolding close_conn
close_all [] conns = conns
close_all ((cname, i) ∷ cached) conns = close_all cached (close_conn i conns)

-- if cl == client { delete(c.cachedClient, cname) }
unfoldable pub evict : Bytes → ℕ → Dict ℕ → Dict ℕ
evict cname i cached = elim (lookup cname cached) [
  | none ↦ cached
  | some j ↦ if j == i then erase cname cached else cached
]

-- Close: the cached connections are closed and forgotten, and the watch ends.
unfoldable pub close_client : {S : Type 0} → Client S → Client S
unfolding close_all
close_client c = record c {
  cached_client = [];
  conns = close_all c.cached_client c.conns;
  watching = false;
}

module _ {S : Type 0} (net : Net S) where
  -- Behind Connect: the error, or the new client in the cache.
  unfoldable pub install :
      Bytes → Bytes → Bytes → Option Error → Client S → (Option ℕ × Option Error) × Client S
  install cname network address (some e) c = ((none, some e), c)
  install cname network address none c = (
    (some (length c.conns), none),
    record c {
      conns =
          c.conns
          ++ (record { network = network; address = address; closing = false; shutdown = false }
              ∷ []);
      cached_client = insert cname (length c.conns) c.cached_client;
    },
  )

  -- The second half of getCachedClient: an entry that is there is returned whatever its state.
  unfoldable pub connect_cached : Bytes → Client S → (Option ℕ × Option Error) × Client S
  unfolding install
  connect_cached cname c = elim (lookup cname c.cached_client) [
    | some i ↦ ((some i, none), c)
    | none ↦
        let (network, address) = split_network_and_address cname in
        let (failure, outside') = net.dial network address c.outside in
        install cname network address failure (record c { outside = outside' })
  ]

  unfoldable pub get_cached_client : Bytes → Client S → (Option ℕ × Option Error) × Client S
  unfolding connect_cached
  get_cached_client cname c = elim (lookup cname c.cached_client) [
    | none ↦ connect_cached cname c
    | some i ↦ if is_usable c.conns i then ((some i, none), c) else connect_cached cname c
  ]

  unfoldable pub select_client : Client S → Bytes × (Option ℕ × Option Error) × Client S
  unfolding get_cached_client
  select_client c =
      let (cname, outside') = net.select c.outside in
      let c' = record c { outside = outside' } in
      if eq cname []
      then ([], (none, some no_server), c')
      else let (r, c'') = get_cached_client cname c' in (cname, r, c'')

  -- The comparison of the entry with the client is one of pointers; nil equals nil, and then there is
  -- nothing to delete. Close marks the connection and closes the channel of the shared discovery.
  unfoldable pub remove_client : Bytes → Option ℕ → Client S → Client S
  unfolding evict
  remove_client cname none c = c
  remove_client cname (some i) c = record c {
    cached_client = evict cname i c.cached_client;
    conns = shut_conn i c.conns;
    watching = false;
  }

  -- client.CallDirect on a connection.
  unfoldable pub attempt : ℕ → Client S → Option Error × Client S
  attempt i c =
      let (failure, outside') = net.call_direct i c.outside in
      (
        failure,
        record c {
          outside = outside';
          attempts = i ∷ c.attempts;
          conns = if net.ended i c.outside then shut_conn i c.conns else c.conns;
        },
      )

  -- FailFastMod.Call
  unfoldable pub fail_fast : Bytes → ℕ → Client S → Option Error × Client S
  unfolding attempt
  fail_fast cname i c =
      let (failure, c') = attempt i c in
      elim failure [
        | none ↦ (none, c')
        | some e ↦
            if is_service_error e then (some e, c') else (some e, remove_client cname (some i) c')
      ]

  -- One try of the loops below: the error of the call, or nothing to call on.
  unfoldable pub try_once : Option ℕ → Client S → Bool × Client S
  unfolding attempt
  try_once none c = (false, c)
  try_once (some i) c =
      let (failure, c') = attempt i c in elim failure [ none ↦ (true, c') | some e ↦ (false, c') ]

  -- FailOverMod.Call: `err` is overwritten by the error of selectClient.
  unfoldable pub fail_over :
      ℕ → Bytes → Option ℕ → Option Error → Client S → Option Error × Client S
  unfolding try_once
  fail_over zero cname client e c = (e, c)
  fail_over (suc retries) cname client e c =
      let (success, c') = try_once client c in
      elim success [
        | true ↦ (none, c')
        | false ↦
            let (cname', (client', e'), c'') = select_client (remove_client cname client c') in
            fail_over retries cname' client' e' c''
      ]

  -- FailTryMod.Call: the same server again.
  unfoldable pub fail_try : ℕ → Bytes → Option ℕ → Option Error → Client S → Option Error × Client S
  unfolding try_once
  fail_try zero cname client e c = (e, c)
  fail_try (suc retries) cname client e c =
      let (success, c') = try_once client c in
      elim success [
        | true ↦ (none, c')
        | false ↦
            let ((client', e'), c'') = get_cached_client cname (remove_client cname client c') in
            fail_try retries cname client' e' c''
      ]

  -- The values of core.FailMode; newFailMod takes any other value as FailFast.
  unfoldable pub call_mode : ℕ → ℕ → Bytes → Option ℕ → Client S → Option Error × Client S
  unfolding fail_over fail_try
  call_mode mode retries cname client c =
      if mode == fail_over_mode
      then fail_over retries cname client none c
      else if mode == fail_try_mode
      then fail_try retries cname client none c
      else elim client [
        | none ↦ (some (other (text "nil client")), c)
        | some i ↦ fail_fast cname i c
      ]

  -- Call, with a selector set. The test for FailFastMod looks for the value type, and failMode holds
  -- a pointer, so an error of selectClient is returned under every mode.
  unfoldable pub call : Bool → ℕ → ℕ → Client S → Option Error × Client S
  unfolding call_mode
  call has_discovery mode retries c =
      if not has_discovery
      then (some no_discovery, c)
      else let (cname, (client, failure), c') = select_client c in
        elim failure [ some e ↦ (some e, c') | none ↦ call_mode mode retries cname client c' ]
