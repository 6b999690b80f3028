-- ===== src/Client/Failmode/Closed.antt =====
-- Close of client/client.go over the cache of connections.
use frpc.Base.{
  ℕ, zero, suc, ◌≡◌, refl, false, List, [], ◌∷◌, none, some, arith, subst, Bool-cases, inl, inr,
}
use frpc.Base.Bytes.{Bytes, eq}
use frpc.Base.Dict.{Dict, lookup}
use frpc.Client.Call.Trace.Heap.{some_eq}
use frpc.Client.Failmode.{Conn, Client, is_usable, close_conn, close_all, close_client}

is_usable-close_conn : (i : ℕ) (ks : List Conn) → is_usable (close_conn i ks) i ≡ false
unfolding is_usable close_conn
is_usable-close_conn i [] = refl
is_usable-close_conn zero (k ∷ ks) = ground arith
is_usable-close_conn (suc i) (k ∷ ks) = is_usable-close_conn i ks

-- Closing one connection makes no other one usable.
close_conn_keeps :
    (i j : ℕ) (ks : List Conn) → is_usable ks j ≡ false → is_usable (close_conn i ks) j ≡ false
unfolding is_usable close_conn
close_conn_keeps i j [] e = e
close_conn_keeps zero zero (k ∷ ks) e = ground (arith, e)
close_conn_keeps zero (suc j) (k ∷ ks) e = e
close_conn_keeps (suc i) zero (k ∷ ks) e = e
close_conn_keeps (suc i) (suc j) (k ∷ ks) e = close_conn_keeps i j ks e

close_all_keeps :
    (d : Dict ℕ) (j : ℕ) (ks : List Conn)
    → is_usable ks j ≡ false
    → is_usable (close_all d ks) j ≡ false
unfolding close_all
close_all_keeps [] j ks e = e
close_all_keeps ((k, i) ∷ d) j ks e =
    close_all_keeps d j (close_conn i ks) (close_conn_keeps i j ks e)

close_all_closes :
    (d : Dict ℕ) (cname : Bytes) (i : ℕ) (ks : List Conn)
    → lookup cname d ≡ some i
    → is_usable (close_all d ks) i ≡ false
unfolding close_all lookup
close_all_closes [] cname i ks e = cc
close_all_closes ((k, j) ∷ d) cname i ks e = elim (Bool-cases (eq k cname)) [
  | inl q ↦ close_all_keeps d i (close_conn j ks) (
      subst (λ n. is_usable (close_conn j ks) n ≡ false) (some_eq (rw (q) at e))
        (is_usable-close_conn j ks))
  | inr q ↦ close_all_closes d cname i (close_conn j ks) (rw (q) at e)
]

-- After Close no connection that stood in the cache is usable, and the cache is empty of its name.
-- Condition: the connection stood in the cache.
pub close_client_closes :
    {S : Type 0} (c : Client S) (cname : Bytes) (i : ℕ)
    → lookup cname c.cached_client ≡ some i
    → (is_usable (close_client c).conns i ≡ false)
      × (lookup cname (close_client c).cached_client ≡ none)
unfolding close_client
close_client_closes c cname i e =
    (close_all_closes c.cached_client cname i c.conns e, unfold lookup in refl)
