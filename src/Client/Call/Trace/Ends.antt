-- ===== src/Client/Call/Trace/Ends.antt =====
-- The end of a connection of client/client.go wakes every caller, and none waits afterwards.
use frpc.Base.{
  ℕ, ◌+◌, ◌^◌, ◌≤◌, ◌<◌, ◌≡◌, ◌≢◌, refl, sym, subst, ◌∙◌, ◌||◌, List, [], ◌∷◌, some, arith, length,
  inl, inr, ◌==◌, Bool-cases, Option-cases,
}
use frpc.Base.Table.{Table, lookup, erase}
use frpc.Client.Call.{Call, Client, Env, Error, shut_down, fail_call, receive_call, modify, on_call}
use frpc.Client.Call.Response.{
  fail_all, final_error, handle_message, is_server_message, terminate, close, cancel, seq_of_call,
}
use frpc.Client.Call.Trace.{Event, goes, arrives, ends, closes, cancels, takes, step, run}
use frpc.Client.Call.Trace.Heap.{
  length-modify, some_eq, Each, IsSignalled, Each-modify, fail_call-Wakes, answer_call-Wakes,
  answer_at-modify,
}
use frpc.Client.Call.Trace.Accounted.{
  Fine, Inv, erase-Inv, erase-none-Inv, take_pending-Inv, go_call-Inv,
}
use frpc.Protocol.Message.{Message}
use frpc.Protocol.Header.{seq}

module _ {V : Type 0} where
  -- A caller that has been woken, on a channel with room.
  abbrev pub Awake : ℕ → Call V → Type 0
  Awake i c = (0 < c.capacity) × IsSignalled c

  pub length-fail_all :
      (e : Error) (p : Table ℕ) (calls : List (Call V)) → length (fail_all e p calls) ≡ length calls
  unfolding fail_all
  length-fail_all e [] calls = refl
  length-fail_all e ((s, k) ∷ p) calls =
      length-fail_all e p (modify k (fail_call e) calls) ∙ length-modify k (fail_call e) calls

  -- The loop over `pending` wakes every call that waits.
  fail_all-Awake :
      (e : Error) (p : Table ℕ) (calls : List (Call V))
      → Each (Fine p) calls
      → Each Awake (fail_all e p calls)
  unfolding fail_all
  fail_all-Awake e [] calls h = λ i c g.
      ((h i c g).0, elim (h i c g).1 [ inl x ↦ x | inr (s, x) ↦ absurd (unfold lookup in cc (x)) ])
  fail_all-Awake e ((s, k) ∷ p) calls h = fail_all-Awake e p (modify k (fail_call e) calls) (
      Each-modify (Fine ((s, k) ∷ p)) (Fine p) k (fail_call e) calls h
        (λ c g. let w = fail_call-Wakes e in (w.room c g.0, inl (w.wakes c g.0)))
        (λ i c n g. (g.0, elim g.1 [ inl x ↦ inl x | inr (t, x) ↦ inr (t, later i n t x) ])))
    where
      later : (i : ℕ) → i ≢ k → (t : ℕ) → lookup t ((s, k) ∷ p) ≡ some i → lookup t p ≡ some i
      later i n t x =
          unfold lookup in
          elim (Bool-cases (s == t)) [
            | inl same ↦ absurd (n (some_eq (sym (rw same at x))))
            | inr other ↦ rw other at x
          ]

  Awake-Fine : (p : Table ℕ) (calls : List (Call V)) → Each Awake calls → Each (Fine p) calls
  Awake-Fine p calls h i c e = ((h i c e).0, inl (h i c e).1)

  pub terminate-Awake : (e : Error) (c : Client V) → Inv c → Each Awake (terminate e c).calls
  unfolding terminate
  terminate-Awake e c v = fail_all-Awake (final_error c.closing e) c.pending c.calls v.fine

  terminate-Inv : (e : Error) (c : Client V) → Inv c → Inv (terminate e c)
  unfolding terminate
  terminate-Inv e c v = record {
    fine = Awake-Fine c.pending _ (terminate-Awake e c v);
    fresh = v.fresh;
    used = omega (arith, v.used, length-fail_all (final_error c.closing e) c.pending c.calls);
  }

  -- close leaves no caller asleep, whether the client is open, closing or shut down already.
  -- Condition: the invariant of the calls holds.
  pub close-Awake : (c : Client V) → Inv c → Each Awake (close c).0.calls
  unfolding close
  close-Awake c v = elim (Bool-cases (c.closing || c.shutdown)) [
    | inl e ↦ rw e (fail_all-Awake shut_down c.pending c.calls v.fine)
    | inr e ↦ rw e (fail_all-Awake shut_down c.pending c.calls v.fine)
  ]

  close-Inv : (c : Client V) → Inv c → Inv (close c).0
  unfolding close
  close-Inv c v = elim (Bool-cases (c.closing || c.shutdown)) [
    | inl e ↦ rw e (record { fine = all; fresh = none_left; used = count })
    | inr e ↦ rw e (record { fine = all; fresh = none_left; used = count })
  ]
    where
      all : Each (Fine []) (fail_all shut_down c.pending c.calls)
      all = Awake-Fine [] _ (fail_all-Awake shut_down c.pending c.calls v.fine)

      none_left : (s i : ℕ) → lookup {V = ℕ} s [] ≡ some i → s < c.seq
      none_left s i x = unfold lookup in cc

      count : c.seq ≤ length (fail_all shut_down c.pending c.calls)
      count = omega (arith, v.used, length-fail_all shut_down c.pending c.calls)

  handle_message-Inv :
      (env : Env V) (res : Message) (c : Client V) → Inv c → Inv (handle_message env res c).0
  unfolding handle_message
  handle_message-Inv env res c v = elim (Bool-cases (is_server_message res)) [
    | inl e ↦ rw e v
    | inr e ↦ rw e (elim (Option-cases (lookup (seq res.header) c.pending)) [
      | inl q ↦ rw (q, handle_message) (erase-none-Inv (seq res.header) c q v)
      | inr (k, q) ↦
          rw (q, handle_message)
            (subst (λ l. Inv (record c { pending = erase (seq res.header) c.pending; calls = l }))
              (sym (answer_at-modify env res k c.calls))
              (erase-Inv (seq res.header) k _ c (answer_call-Wakes env res) q v))
    ])
  ]

  receive-Inv : (k : ℕ) (c : Client V) → Inv c → Inv (on_call k receive_call c)
  unfolding on_call
  receive-Inv k c v = record {
    fine =
        Each-modify (Fine c.pending) (Fine c.pending) k receive_call c.calls v.fine
          (λ d h.
            unfold receive_call in
            (ground (arith, h.0), elim h.1 [ inl x ↦ inl (ground (arith, x)) | inr x ↦ inr x ]))
          (λ i d n h. h);
    fresh = v.fresh;
    used = omega (arith, v.used, length-modify k receive_call c.calls);
  }

  -- Go refuses an unbuffered channel, and the sequence numbers do not wrap.
  abbrev pub Allowed : Client V → Event V → Type 0
  Allowed c (goes m failure call) = (0 < call.capacity) × (length c.calls + 1 < 2 ^ 64)
  Allowed c _ = Unit

  module _ (env : Env V) where
    abbrev pub AllAllowed : Client V → List (Event V) → Type 0
    AllAllowed c [] = Unit
    AllAllowed c (e ∷ es) = Allowed c e × AllAllowed (step env c e) es

    pub step-Inv : (c : Client V) (e : Event V) → Allowed c e → Inv c → Inv (step env c e)
    unfolding step
    step-Inv c (goes m failure call) a v = go_call-Inv env m failure call c a.0 a.1 v
    step-Inv c (arrives res) a v = handle_message-Inv env res c v
    step-Inv c (ends e) a v = terminate-Inv e c v
    step-Inv c closes a v = close-Inv c v
    step-Inv c (cancels ctx p sent e) a v =
        unfold cancel in
        take_pending-Inv (seq_of_call ctx p sent) (fail_call e) c (fail_call-Wakes e) v
    step-Inv c (takes k) a v = receive-Inv k c v

    -- Over any history each call is signalled or waits under a number in `pending`, the numbers in
    -- `pending` are below `seq`, and `seq` is at most the number of calls. Conditions: it is so at
    -- the start, channels have room and the sequence numbers do not wrap.
    pub run-Inv :
        (c : Client V) (es : List (Event V)) → AllAllowed c es → Inv c → Inv (run env c es)
    unfolding run
    run-Inv c [] a v = v
    run-Inv c (e ∷ es) a v = run-Inv (step env c e) es a.1 (step-Inv c e a.0 v)

    -- After any history of calls, answers, ends of the loop, closes, cancellations and receipts,
    -- the end of the loop of handleResponse leaves no caller asleep: every call made so far has a
    -- value in its channel Done or took one. Conditions: the invariant holds at the start,
    -- channels have room and the sequence numbers do not wrap.
    pub run-terminate-Awake :
        (c : Client V) (es : List (Event V)) (e : Error)
        → AllAllowed c es
        → Inv c
        → Each Awake (terminate e (run env c es)).calls
    run-terminate-Awake c es e a v = terminate-Awake e (run env c es) (run-Inv c es a v)
