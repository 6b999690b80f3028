-- ===== src/Rpc/Cancelled.antt =====
-- A call of client/client.go that is made, and whose context is done before the answer.
use frpc.Base.{
  ℕ, ◌≡◌, ◌≢◌, refl, ◌∙◌, ap, false, [], ◌∷◌, Option, none, some, ◌==◌, ◌||◌, if◌then◌else◌, length,
  get_elem?, arith,
}
use frpc.Base.Members.{get_elem?-append}
use frpc.Base.Table.{lookup, lookup-erase, lookup-insert}
use frpc.Protocol.Message.{new_message, Message}
use frpc.Client.Call.{ok, Codec, Env, Error, Call, Client, fail_call, on_call}
use frpc.Client.Call.Send.{build_request, go_call, take_pending}
use frpc.Client.Call.Response.{Context, seq_of_call, note_seq, cancel}
use frpc.Client.Call.Trace.Heap.{get_elem?-modify_self}
use frpc.Rpc.Whole.{sent_call, go_call-sent_call}

missed :
    (cell : Option ℕ) (p s : ℕ)
    → cell ≢ some p
    → elim cell as (λ _. ℕ) [ none ↦ 0 | some q ↦ if q == p then s else 0 ] ≡ 0
missed none p s n = refl
missed (some q) p s n = ground (arith, λ (same : q ≡ p). n (ap some same))

-- The cell stays 0 unless the caller's own context held its pointer, which is new.
seq_of_call-zero :
    (ctx : Context) (p : ℕ) (sent : Option ℕ) → ctx.seq_cell ≢ some p → seq_of_call ctx p sent ≡ 0
unfolding seq_of_call note_seq
seq_of_call-zero ctx p none n = refl
seq_of_call-zero ctx p (some s) n = missed ctx.seq_cell p s n

module _ {V : Type 0} where
  take_pending_zero :
      (f : Call V → Call V) (c : Client V) (s i : ℕ) (other : Call V)
      → s ≢ 0
      → lookup 0 c.pending ≡ some i
      → get_elem? c.calls i ≡ some other
      → (lookup s (take_pending 0 f c).pending ≡ lookup s c.pending)
        × (get_elem? (take_pending 0 f c).calls i ≡ some (f other))
        × (lookup 0 (take_pending 0 f c).pending ≡ none)
  unfolding take_pending on_call
  take_pending_zero f c s i other n q g =
      rw (q, take_pending)
        (
          ground (arith, lookup-erase 0 s c.pending, n),
          get_elem?-modify_self i f c.calls g,
          ground (arith, lookup-erase 0 0 c.pending),
        )

  -- A call that Go has made and whose context is then done leaves its own number in `pending`, and
  -- the call that waited under 0 fails in its place and is taken out. Conditions: the connection
  -- is open and has a codec, the request can be made and is written, its number is not 0, some
  -- call waits under 0, and the context that the caller gave does not itself hold the new pointer.
  pub cancel_hits_zero :
      (env : Env V) (codec : Codec V) (call : Call V) (c : Client V) (req : Message) (ctx : Context)
      (p i : ℕ) (other : Call V) (e : Error)
      → (c.shutdown || c.closing) ≡ false
      → env.codecs c.serialize_type ≡ some codec
      → build_request env codec c c.seq call new_message ≡ ok req
      → ctx.seq_cell ≢ some p
      → c.seq ≢ 0
      → lookup 0 c.pending ≡ some i
      → get_elem? c.calls i ≡ some other
      → let c' = cancel ctx p (some c.seq) e (go_call env new_message none call c) in
        (lookup c.seq c'.pending ≡ some (length c.calls))
        × (get_elem? c'.calls i ≡ some (fail_call e other))
        × (lookup 0 c'.pending ≡ none)
  unfolding cancel
  cancel_hits_zero env codec call c req ctx p i other e up has built fresh n q g =
      rw
        (
          go_call-sent_call env codec call c req up has built,
          seq_of_call-zero ctx p (some c.seq) fresh,
        )
        (hits.0 ∙ waits, hits.1, hits.2)
    where
      waits : lookup c.seq (sent_call c call req).pending ≡ some (length c.calls)
      waits = rw (lookup-insert c.seq c.seq (length c.calls) c.pending) (ground arith)

      under_zero : lookup 0 (sent_call c call req).pending ≡ some i
      under_zero = ground (arith, lookup-insert c.seq 0 (length c.calls) c.pending, n, q)

      hits :
          let c' = take_pending 0 (fail_call e) (sent_call c call req) in
          (lookup c.seq c'.pending ≡ lookup c.seq (sent_call c call req).pending)
          × (get_elem? c'.calls i ≡ some (fail_call e other))
          × (lookup 0 c'.pending ≡ none)
      hits =
          take_pending_zero (fail_call e) (sent_call c call req) c.seq i other n under_zero
            (get_elem?-append c.calls (call ∷ []) i other g)
