-- ===== src/Rpc/Interleaved/Drained.antt =====
-- How the calls under way on a connection of client/client.go and server/server.go come to an end:
-- each goroutine that can go on does so.
use frpc.Base.{
  ℕ, zero, suc, ◌+◌, ◌-◌, ◌≡◌, refl, sym, ap, subst, ◌∙◌, inl, inr, Bool, List, [], ◌∷◌, some,
  arith, length, get_elem?, replicate, if◌then◌else◌,
}
use frpc.Base.Bytes.{Bytes}
use frpc.Base.Members.{in_bounds, get_elem?-in_bounds}
use mathlib.Core.List.{Memᴰ}
use frpc.Protocol.Message.{Message, Decoded, decode}
use frpc.Client.Call.{Codec, Env, Call, Client}
use frpc.Client.Call.Trace.Heap.{IsSignalled}
use frpc.Server.Handle.{Server}
use frpc.Rpc.Interleaved.{
  Connection, Event, reads, finishes, receives, take_in, receive, finish, step, run, made,
}
use frpc.Rpc.Interleaved.State.{settled, AllGood, IsSettled, Inv}
use frpc.Rpc.Interleaved.Sends.{reads-Inv, step-reads}
use frpc.Rpc.Interleaved.Answers.{finishes-Inv}
use frpc.Rpc.Interleaved.Receives.{receives-Inv}
use frpc.Rpc.Interleaved.Runs.{IsNew, opened, opened-Inv, run-Inv, settled-IsSignalled}

-- The server reads what was written, every goroutine writes its answer, and the client reads those.
module _ {V W : Type 0} where
  abbrev pub all_read : Env V → Message → Connection V W → Connection V W
  all_read env m x = run env m x (replicate (length x.client.sent - x.read) reads)

  abbrev pub all_finished : Env V → Message → Connection V W → Connection V W
  all_finished env m x = run env m x (replicate (length x.running) (finishes 0))

  abbrev pub all_received : Env V → Message → Connection V W → Connection V W
  all_received env m x = run env m x (replicate (length x.written) receives)

  abbrev pub drained : Env V → Message → Connection V W → Connection V W
  drained env m x = all_received env m (all_finished env m (all_read env m x))

  take_in-keeps :
      (env : Env V) (x : Connection V W) (d : Decoded)
      → ((take_in env x d).read ≡ x.read)
        × ((take_in env x d).running ≡ x.running)
        × ((take_in env x d).written ≡ x.written)
  unfolding take_in
  take_in-keeps env x (Decoded.done res rest) = (refl, refl, refl)
  take_in-keeps env x (Decoded.failed e res rest) = (refl, refl, refl)
  take_in-keeps env x Decoded.panicked = (refl, refl, refl)
  take_in-keeps env x Decoded.out_of_fuel = (refl, refl, refl)

module _ {V W : Type 0} (env : Env V) (codec : Codec V) (c : Client V) (s : Server W) (m : Message)
    (req : ℕ → Message) (done : List (Call V)) (good : AllGood env codec c s m req done) where
  abbrev Keeps : Connection V W → Type 0
  Keeps x = Inv env codec c s m req x done

  run-reads :
      (d : ℕ) (x : Connection V W)
      → Keeps x
      → d + x.read ≡ length done
      → Keeps (run env m x (replicate d reads))
        × ((run env m x (replicate d reads)).read ≡ length done)
  unfolding run
  run-reads zero x i e = (i, omega (arith, e))
  run-reads (suc d) x i e =
      let (call, at) = in_bounds done x.read (omega (arith, e)) in
      run-reads d (step env m x reads) (reads-Inv env codec c s m req x done i good) (
        ap (λ k. d + k) (ap Connection.read (step-reads env codec c s m req x done i good call at))
        ∙ omega (arith, e))

  run-finishes :
      (ms : List Message) (x : Connection V W)
      → x.running ≡ ms
      → Keeps x
      → x.read ≡ length done
      → let y = run env m x (replicate (length ms) (finishes 0)) in
        Keeps y × (y.read ≡ length done) × (y.running ≡ [])
  unfolding run
  run-finishes [] x e i r = (i, r, e)
  run-finishes (q ∷ ms) x e i r =
      run-finishes ms (step env m x (finishes 0)) (taken.1 ∙ refl)
        (finishes-Inv env codec c s m req x done i good 0) (taken.0 ∙ r)
    where
      taken :
          ((step env m x (finishes 0)).read ≡ x.read) × ((step env m x (finishes 0)).running ≡ ms)
      taken = unfold step finish in rw (ap (λ k. get_elem? k 0) e, finish) (refl, rw e refl)

  run-receives :
      (bs : List Bytes) (x : Connection V W)
      → x.written ≡ bs
      → Keeps x
      → x.read ≡ length done
      → x.running ≡ []
      → let y = run env m x (replicate (length bs) receives) in
        Keeps y × (y.read ≡ length done) × (y.running ≡ []) × (y.written ≡ [])
  unfolding run
  run-receives [] x e i r f = (i, r, f, e)
  run-receives (b ∷ bs) x e i r f =
      run-receives bs (step env m x receives) (taken.2)
        (receives-Inv env codec c s m req x done i good) (taken.0 ∙ r) (taken.1 ∙ f)
    where
      front : step env m x receives ≡ take_in env (record x { written = bs }) (decode 0 x.loop b)
      front =
          unfold step receive in
          ap (receive env x) e
          ∙ ap
              (λ (ended : Bool).
                if ended then x else take_in env (record x { written = bs }) (decode 0 x.loop b))
              i.up

      taken :
          ((step env m x receives).read ≡ x.read)
          × ((step env m x receives).running ≡ x.running)
          × ((step env m x receives).written ≡ bs)
      taken =
          subst (λ y. (y.read ≡ x.read) × (y.running ≡ x.running) × (y.written ≡ bs)) (sym front)
            (take_in-keeps env (record x { written = bs }) (decode 0 x.loop b))

  drained-rest :
      (x : Connection V W)
      → Keeps x
      → Keeps (drained env m x)
        × ((drained env m x).read ≡ length done)
        × ((drained env m x).running ≡ [])
        × ((drained env m x).written ≡ [])
  drained-rest x i =
      let (i1, r1) =
        run-reads (length x.client.sent - x.read) x i (omega (arith, i.writes, i.behind)) in
      let (i2, r2, f2) = run-finishes (all_read env m x).running (all_read env m x) refl i1 r1 in
      run-receives (all_finished env m (all_read env m x)).written
        (all_finished env m (all_read env m x)) refl i2 r2 f2

  -- Where nothing is on its way, every call has its answer.
  at_rest :
      (x : Connection V W)
      → Keeps x
      → x.read ≡ length done
      → x.running ≡ []
      → x.written ≡ []
      → (n : ℕ) (call : Call V) → get_elem? done n ≡ some call
      → IsSettled env codec c s m req x n call
  at_rest x i r f w n call e = elim (i.each n call e) [
    | inr settled ↦ settled
    | inl (p, g, on) ↦ absurd (elim on [
      | inl unread ↦ omega (arith, unread, r, get_elem?-in_bounds done n call e)
      | inr (inl h) ↦ elim (subst (Memᴰ _) f h) [ ]
      | inr (inr h) ↦ elim (subst (Memᴰ _) w h) [ ]
    ])
  ]

module _ {V W : Type 0} (env : Env V) (codec : Codec V) (c : Client V) (s : Server W) (m : Message)
    (req : ℕ → Message) where
  -- Whatever calls, reads, answers and receipts have been interleaved on a connection, once
  -- serveConn has read all that was written, each of its goroutines has written and the client has
  -- read all of that, every call made has the answer to its own request, and its caller has been
  -- woken. Conditions: the client is new and has a codec; every call names a method, has room in
  -- its channel, its request can be made, request and answer fit the format, the client can read
  -- the answer, and the sequence numbers do not wrap.
  pub drained-IsSettled :
      (es : List (Event V)) (n : ℕ) (call : Call V)
      → env.codecs c.serialize_type ≡ some codec
      → IsNew c
      → AllGood env codec c s m req (made es)
      → get_elem? (made es) n ≡ some call
      → IsSettled env codec c s m req (drained env m (run env m (opened c s) es)) n call
        × IsSignalled (settled env codec c s m req n call)
  drained-IsSettled es n call has new good e =
      let i =
        run-Inv env codec c s m req has es (opened c s) [] (opened-Inv env codec c s m req new)
          good in
      let (j, r, f, w) =
        drained-rest env codec c s m req (made es) good (run env m (opened c s) es) i in
      (
        at_rest env codec c s m req (made es) good (drained env m (run env m (opened c s) es)) j r f
            w n call e,
        settled-IsSignalled env codec c s m req has n call (good n call e),
      )
