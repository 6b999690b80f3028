-- ===== src/Client/Call/Trace/Accounted.antt =====
-- No call of client/client.go is lost: over any sequence of events each call waits in `pending` or
-- has been signalled, and the end of the connection signals all that wait.
use frpc.Base.{
  ℕ, ◌+◌, ◌%◌, ◌^◌, ◌≤◌, ◌<◌, ◌≡◌, ◌≢◌, refl, sym, ap, subst, ◌∙◌, ◌||◌, List, [], ◌∷◌, ◌++◌,
  Option, none, some, arith, length, length-append, ◌⊎◌, inl, inr, ==_iff, ◌==◌, Bool-cases,
  Option-cases,
}
use frpc.Base.Table.{Table, lookup, insert, erase, lookup-insert, lookup-erase}
use frpc.Client.Call.{
  Result-cases, Call, Client, Env, Error, shut_down, unsupported_codec, foreign, call_done,
  fail_call, modify, on_call,
}
use frpc.Client.Call.Send.{take_pending, write_request, transmit, send, go_call, build_request}
use frpc.Client.Call.Trace.Heap.{
  length-modify, some_eq, Each, IsSignalled, Each-modify, Each-new, Wakes, call_done-Wakes,
  fail_call-Wakes,
}
use frpc.Protocol.Message.{Message, reset}
use frpc.Protocol.Header.{is_oneway}

-- Some number in `pending` stands for the call.
abbrev pub Waits : Table ℕ → ℕ → Type 0
Waits pending i = (s : ℕ) × (lookup s pending ≡ some i)

-- Erasing a number that does not stand for the call.
erase-Waits :
    (s i : ℕ) (pending : Table ℕ)
    → lookup s pending ≢ some i
    → Waits pending i
    → Waits (erase s pending) i
erase-Waits s i pending n (t, e) = (
  t,
  elim (Bool-cases (s == t)) [
    | inl same ↦ absurd (n (ap (λ u. lookup u pending) ((==_iff s t).0 same) ∙ e))
    | inr other ↦ rw (lookup-erase s t pending, other) e
  ],
)

erase_fresh :
    (s n : ℕ) (pending : Table ℕ)
    → ((t i : ℕ) → lookup t pending ≡ some i → t < n)
    → (t i : ℕ) → lookup t (erase s pending) ≡ some i
    → t < n
erase_fresh s n pending h t i e = h t i (elim (Bool-cases (s == t)) [
  | inl same ↦ ground (arith, lookup-erase s t pending)
  | inr other ↦ ground (arith, lookup-erase s t pending)
])

module _ {V : Type 0} where
  abbrev pub Fine : Table ℕ → ℕ → Call V → Type 0
  Fine pending i c = (0 < c.capacity) × (IsSignalled c ⊎ Waits pending i)

  pub record Inv (c : Client V) : Type 0 where
    pub fine : Each (Fine c.pending) c.calls
    pub fresh : (s i : ℕ) → lookup s c.pending ≡ some i → s < c.seq
    pub used : c.seq ≤ length c.calls

  -- A write that wakes the call `k`, for which `pending` keeps a number no longer.
  pub erase-Inv :
      (s k : ℕ) (f : Call V → Call V) (c : Client V)
      → Wakes f
      → lookup s c.pending ≡ some k
      → Inv c
      → Inv (record c { pending = erase s c.pending; calls = modify k f c.calls })
  erase-Inv s k f c w e v = record {
    fine =
        Each-modify (Fine c.pending) (Fine (erase s c.pending)) k f c.calls v.fine
          (λ d h. (w.room d h.0, inl (w.wakes d h.0)))
          (λ i d n h. (
            h.0,
            elim h.1 [
              | inl x ↦ inl x
              | inr x ↦ inr (erase-Waits s i c.pending (λ q. n (some_eq (sym q ∙ e))) x)
            ],
          ));
    fresh = erase_fresh s c.seq c.pending v.fresh;
    used = omega (arith, v.used, length-modify k f c.calls);
  }

  pub erase-none-Inv :
      (s : ℕ) (c : Client V)
      → lookup s c.pending ≡ none
      → Inv c
      → Inv (record c { pending = erase s c.pending })
  erase-none-Inv s c e v = record {
    fine = λ i d g. (
      (v.fine i d g).0,
      elim (v.fine i d g).1 [ inl x ↦ inl x | inr x ↦ inr (erase-Waits s i c.pending (λ q. cc) x) ],
    );
    fresh = erase_fresh s c.seq c.pending v.fresh;
    used = v.used;
  }

  pub take_pending-Inv :
      (s : ℕ) (f : Call V → Call V) (c : Client V) → Wakes f → Inv c → Inv (take_pending s f c)
  unfolding take_pending on_call
  take_pending-Inv s f c w v = elim (Option-cases (lookup s c.pending)) [
    | inl e ↦ rw (e, take_pending) (erase-none-Inv s c e v)
    | inr (k, e) ↦ rw (e, take_pending) (erase-Inv s k f c w e v)
  ]

  -- A call that is woken while it does not wait.
  wake-Inv : (k : ℕ) (f : Call V → Call V) (c : Client V) → Wakes f → Inv c → Inv (on_call k f c)
  unfolding on_call
  wake-Inv k f c w v = record {
    fine =
        Each-modify (Fine c.pending) (Fine c.pending) k f c.calls v.fine
          (λ d h. (w.room d h.0, inl (w.wakes d h.0))) (λ i d n h. h);
    fresh = v.fresh;
    used = omega (arith, v.used, length-modify k f c.calls);
  }

  transmit-Inv :
      (c : Client V) (s : ℕ) (req : Message) (failure : Option Error)
      → Inv c
      → Inv (transmit c s req failure)
  unfolding transmit
  transmit-Inv c s req failure v = elim (Bool-cases (is_oneway (reset req).header)) [
    | inl e ↦ rw e (take_pending-Inv s call_done _ call_done-Wakes (written failure))
    | inr e ↦ rw e (written failure)
  ]
    where
      written : (o : Option Error) → Inv (write_request c s req o)
      written none =
          unfold write_request in record { fine = v.fine; fresh = v.fresh; used = v.used }
      written (some e) =
          unfold write_request in take_pending-Inv s (fail_call e) c (fail_call-Wakes e) v

  pub modify_new :
      (f : Call V → Call V) (calls : List (Call V)) (x : Call V)
      → modify (length calls) f (calls ++ (x ∷ [])) ≡ calls ++ (f x ∷ [])
  unfolding modify
  modify_new f [] x = refl
  modify_new f (y ∷ calls) x = ap (◌∷◌ y) (modify_new f calls x)

  -- A new call that is woken at once.
  refused-Inv :
      (f : Call V → Call V) (call : Call V) (c : Client V)
      → Wakes f
      → 0 < call.capacity
      → Inv c
      → Inv (on_call (length c.calls) f (record c { calls = c.calls ++ (call ∷ []) }))
  unfolding on_call
  refused-Inv f call c w h v = record {
    fine =
        subst (Each (Fine c.pending)) (sym (modify_new f c.calls call))
          (Each-new (Fine c.pending) c.calls (f call) v.fine (w.room call h, inl (w.wakes call h)));
    fresh = v.fresh;
    used =
        omega (
          arith,
          v.used,
          ap length (modify_new f c.calls call),
          length-append c.calls (f call ∷ []),
        );
  }

  -- A new call that is put into `pending`.
  registered-Inv :
      (call : Call V) (c : Client V)
      → 0 < call.capacity
      → length c.calls + 1 < 2 ^ 64
      → Inv c
      → Inv (record c {
        seq = (c.seq + 1) % 2 ^ 64;
        pending = insert c.seq (length c.calls) c.pending;
        calls = c.calls ++ (call ∷ []);
      })
  registered-Inv call c h small v = record {
    fine =
        Each-new (Fine pending') c.calls call
          (λ i d e.
            ((v.fine i d e).0, elim (v.fine i d e).1 [ inl x ↦ inl x | inr x ↦ inr (still i x) ]))
          (
            h,
            inr (c.seq, rw (lookup-insert c.seq c.seq (length c.calls) c.pending) (ground arith)),
          );
    fresh = λ s i e. elim (Bool-cases (c.seq == s)) [
      | inl same ↦ omega (arith, v.used, (==_iff c.seq s).0 same)
      | inr other ↦ omega (
        arith,
        v.used,
        v.fresh s i (ground (arith, lookup-insert c.seq s (length c.calls) c.pending)),
      )
    ];
    used = omega (arith, v.used, length-append c.calls (call ∷ []));
  }
    where
      pending' : Table ℕ
      pending' = insert c.seq (length c.calls) c.pending

      still : (i : ℕ) → Waits c.pending i → Waits pending' i
      still i (t, e) =
          (t, ground (arith, lookup-insert c.seq t (length c.calls) c.pending, v.fresh t i e))

  pub go_call-Inv :
      (env : Env V) (m : Message) (failure : Option Error) (call : Call V) (c : Client V)
      → 0 < call.capacity
      → length c.calls + 1 < 2 ^ 64
      → Inv c
      → Inv (go_call env m failure call c)
  unfolding go_call
  go_call-Inv env m failure call c h small v = elim (Bool-cases (c.shutdown || c.closing)) [
    | inl down ↦ rw (down, send) (refused-Inv _ call c (fail_call-Wakes shut_down) h v)
    | inr up ↦ elim (Option-cases (env.codecs c.serialize_type)) [
      | inl e ↦ rw (up, e, send) (refused-Inv _ call c (fail_call-Wakes unsupported_codec) h v)
      | inr (codec, e) ↦
          elim (Result-cases
            (build_request env codec (record c { calls = c.calls ++ (call ∷ []) }) c.seq call m)) [
              | inl (req, b) ↦
                  rw (up, e, b, send)
                    (transmit-Inv _ c.seq req failure (registered-Inv call c h small v))
              | inr (x, b) ↦
                  rw (up, e, b, send)
                    (wake-Inv (length c.calls) _ _ (fail_call-Wakes (foreign x))
                      (registered-Inv call c h small v))
            ]
    ]
  ]
