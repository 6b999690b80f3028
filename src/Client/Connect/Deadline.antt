-- ===== src/Client/Connect/Deadline.antt =====
-- What a client of NewClient in client/client.go brings to Connect in client/connection.go.
use frpc.Base.{
  ℕ, ◌≡◌, refl, ap, sym, ◌∙◌, true, false, List, [], ◌∷◌, Option, none, some, ◌==◌, some_injective,
}
use frpc.Base.Bytes.{Bytes, text, eq}
use frpc.Client.Call.{Result, ok, err}
use frpc.Client.Option.{Options, Setter, apply, apply_all, new_client}
use frpc.Client.Connect.{Dialling, Connected, dial_network, connected_by, connect, new_kcp_conn}

-- The user sets no timeout for reading, under either name.
abbrev pub Untimed : List Setter → Type 0
Untimed [] = Unit {0}
Untimed (Setter.read_timeout t ∷ ss) = ⊥
Untimed (Setter.conn_timeout t ∷ ss) = ⊥
Untimed (s ∷ ss) = Untimed ss

-- The user gives no block for kcp.
abbrev pub Blockless : List Setter → Type 0
Blockless [] = Unit {0}
Blockless (Setter.with_block given ∷ ss) = ⊥
Blockless (s ∷ ss) = Blockless ss

apply_all-read_timeout :
    (ss : List Setter) (o : Options) → Untimed ss → (apply_all ss o).read_timeout ≡ o.read_timeout
unfolding apply_all apply
apply_all-read_timeout [] o h = refl
apply_all-read_timeout (Setter.read_timeout t ∷ ss) o h = elim h [ ]
apply_all-read_timeout (Setter.conn_timeout t ∷ ss) o h = elim h [ ]
apply_all-read_timeout (Setter.serialize t ∷ ss) o h = apply_all-read_timeout ss _ h
apply_all-read_timeout (Setter.compress t ∷ ss) o h = apply_all-read_timeout ss _ h
apply_all-read_timeout (Setter.write_timeout t ∷ ss) o h = apply_all-read_timeout ss _ h
apply_all-read_timeout (Setter.retries t ∷ ss) o h = apply_all-read_timeout ss _ h
apply_all-read_timeout (Setter.fail_mode t ∷ ss) o h = apply_all-read_timeout ss _ h
apply_all-read_timeout (Setter.heartbeat b t ∷ ss) o h = apply_all-read_timeout ss _ h
apply_all-read_timeout (Setter.rpc_path t ∷ ss) o h = apply_all-read_timeout ss _ h
apply_all-read_timeout (Setter.with_tls t ∷ ss) o h = apply_all-read_timeout ss _ h
apply_all-read_timeout (Setter.with_block t ∷ ss) o h = apply_all-read_timeout ss _ h

apply_all-block : (ss : List Setter) (o : Options) → Blockless ss → (apply_all ss o).block ≡ o.block
unfolding apply_all apply
apply_all-block [] o h = refl
apply_all-block (Setter.with_block t ∷ ss) o h = elim h [ ]
apply_all-block (Setter.read_timeout t ∷ ss) o h = apply_all-block ss _ h
apply_all-block (Setter.conn_timeout t ∷ ss) o h = apply_all-block ss _ h
apply_all-block (Setter.serialize t ∷ ss) o h = apply_all-block ss _ h
apply_all-block (Setter.compress t ∷ ss) o h = apply_all-block ss _ h
apply_all-block (Setter.write_timeout t ∷ ss) o h = apply_all-block ss _ h
apply_all-block (Setter.retries t ∷ ss) o h = apply_all-block ss _ h
apply_all-block (Setter.fail_mode t ∷ ss) o h = apply_all-block ss _ h
apply_all-block (Setter.heartbeat b t ∷ ss) o h = apply_all-block ss _ h
apply_all-block (Setter.rpc_path t ∷ ss) o h = apply_all-block ss _ h
apply_all-block (Setter.with_tls t ∷ ss) o h = apply_all-block ss _ h

connected_by-deadline :
    (o : Options) (r : Result ℕ × List ℕ) (c : ℕ)
    → (o.read_timeout == 0) ≡ false
    → (connected_by o r).conn ≡ some c
    → (connected_by o r).read_deadline ≡ true
unfolding connected_by
connected_by-deadline o (err e, closed) c t h = cc
connected_by-deadline o (ok k, closed) c t h = rw t refl

-- Every connection that a client of NewClient dials over any network has a deadline for reading,
-- although the user asked for no timeout of reads. Conditions: the user sets neither ReadTimeout
-- nor ConnTimeout, and dialling neither panics nor fails.
pub connect-read_deadline :
    (d : Dialling) (ss : List Setter) (network address : Bytes) (r : Connected) (c : ℕ)
    → Untimed ss
    → connect d (apply_all ss new_client) network address ≡ some r
    → r.conn ≡ some c
    → r.read_deadline ≡ true
connect-read_deadline d ss network address r c quiet e h =
    by_dial (dial_network d (apply_all ss new_client) network address) refl
  where
    timed : ((apply_all ss new_client).read_timeout == 0) ≡ false
    timed =
        rw (apply_all-read_timeout ss new_client quiet) (unfold new_client apply_all apply in refl)

    by_dial :
        (x : Option (Result ℕ × List ℕ))
        → dial_network d (apply_all ss new_client) network address ≡ x
        → r.read_deadline ≡ true
    by_dial none q = absurd (unfold connect in cc (rw (q, connect) at e))
    by_dial (some y) q =
        let same : connected_by (apply_all ss new_client) y ≡ r =
          unfold connect in some_injective (rw (q, connect) at e) in
        sym (ap Connected.read_deadline same)
        ∙ connected_by-deadline (apply_all ss new_client) y c timed (ap Connected.conn same ∙ h)

-- Without WithBlock a client of NewClient panics when it connects over kcp.
pub connect-kcp :
    (d : Dialling) (ss : List Setter) (address : Bytes)
    → Blockless ss
    → connect d (apply_all ss new_client) (text "kcp") address ≡ none
unfolding connect dial_network new_kcp_conn eq
connect-kcp d ss address h = rw (apply_all-block ss new_client h ∙ none_given, connect) refl
  where
    none_given : new_client.block ≡ false
    none_given = unfold new_client apply_all apply in refl
