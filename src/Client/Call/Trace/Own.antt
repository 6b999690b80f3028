-- ===== src/Client/Call/Trace/Own.antt =====
-- Go of client/client.go writes to its own call only.
use frpc.Base.{
  ℕ, ◌+◌, ◌%◌, ◌^◌, ◌≡◌, refl, ap, ◌∙◌, ◌||◌, List, [], ◌∷◌, ◌++◌, Option, none, some, arith,
  length, inl, inr, Bool-cases, Option-cases,
}
use frpc.Base.Table.{lookup, insert, erase, lookup-insert, lookup-erase}
use frpc.Client.Call.{
  Result-cases, Call, Client, Env, Error, foreign, call_done, fail_call, modify, on_call,
}
use frpc.Client.Call.Send.{take_pending, write_request, transmit, send, go_call, build_request}
use frpc.Client.Call.Trace.Accounted.{modify_new}
use frpc.Protocol.Message.{Message, reset}
use frpc.Protocol.Header.{is_oneway}

module _ {V : Type 0} where
  -- The heap is the old one with one call more, and the number leads to no other call.
  record Own (calls : List (Call V)) (s : ℕ) (d : Client V) : Type 0 where
    call : Call V
    added : d.calls ≡ calls ++ (call ∷ [])
    only : (i : ℕ) → lookup s d.pending ≡ some i → i ≡ length calls

  module _ (calls : List (Call V)) (s : ℕ) where
    on_call-Own :
        (f : Call V → Call V) (d : Client V)
        → Own calls s d
        → Own calls s (on_call (length calls) f d)
    unfolding on_call
    on_call-Own f d o = record {
      call = f o.call;
      added = ap (modify (length calls) f) o.added ∙ modify_new f calls o.call;
      only = o.only;
    }

    erased : (d : Client V) → Own calls s d → Own calls s (record d { pending = erase s d.pending })
    erased d o = record {
      call = o.call;
      added = o.added;
      only = λ i e. absurd (ground (arith, e, lookup-erase s s d.pending));
    }

    take_pending-Own :
        (f : Call V → Call V) (d : Client V) → Own calls s d → Own calls s (take_pending s f d)
    unfolding take_pending
    take_pending-Own f d o = elim (Option-cases (lookup s d.pending)) [
      | inl e ↦ rw (e, take_pending) (erased d o)
      | inr (k, e) ↦ rw (e, o.only k e, take_pending) (on_call-Own f _ (erased d o))
    ]

    transmit-Own :
        (d : Client V) (req : Message) (failure : Option Error)
        → Own calls s d
        → Own calls s (transmit d s req failure)
    unfolding transmit
    transmit-Own d req failure o = elim (Bool-cases (is_oneway (reset req).header)) [
      | inl e ↦ rw e (take_pending-Own call_done _ (written failure))
      | inr e ↦ rw e (written failure)
    ]
      where
        written : (x : Option Error) → Own calls s (write_request d s req x)
        written none =
            unfold write_request in record { call = o.call; added = o.added; only = o.only }
        written (some e) = unfold write_request in take_pending-Own (fail_call e) d o

  grown :
      (f : Call V → Call V) (call : Call V) (c : Client V)
      → (x : Call V) × ((on_call
            (length c.calls)
            f
            (record c { calls = c.calls ++ (call ∷ []) })).calls
          ≡ c.calls ++ (x ∷ []))
  unfolding on_call
  grown f call c = (f call, modify_new f c.calls call)

  registered-Own :
      (call : Call V) (c : Client V)
      → Own c.calls c.seq (record c {
        seq = (c.seq + 1) % 2 ^ 64;
        pending = insert c.seq (length c.calls) c.pending;
        calls = c.calls ++ (call ∷ []);
      })
  registered-Own call c = record {
    call = call;
    added = refl;
    only = λ i e. ground (arith, e, lookup-insert c.seq c.seq (length c.calls) c.pending);
  }

  -- Go puts one call behind those of the heap and leaves all others as they are.
  pub go_call-adds :
      (env : Env V) (m : Message) (failure : Option Error) (call : Call V) (c : Client V)
      → (x : Call V) × ((go_call env m failure call c).calls ≡ c.calls ++ (x ∷ []))
  unfolding go_call
  go_call-adds env m failure call c = elim (Bool-cases (c.shutdown || c.closing)) [
    | inl down ↦ rw (down, send) (grown _ call c)
    | inr up ↦ elim (Option-cases (env.codecs c.serialize_type)) [
      | inl e ↦ rw (up, e, send) (grown _ call c)
      | inr (codec, e) ↦
          elim (Result-cases
            (build_request env codec (record c { calls = c.calls ++ (call ∷ []) }) c.seq call m)) [
              | inl (req, b) ↦
                  rw (up, e, b, send)
                    (let o = transmit-Own c.calls c.seq _ req failure (registered-Own call c) in
                      (o.call, o.added))
              | inr (x, b) ↦
                  rw (up, e, b, send)
                    (let o =
                        on_call-Own c.calls c.seq (fail_call (foreign x)) _
                          (registered-Own call c) in
                      (o.call, o.added))
            ]
    ]
  ]
