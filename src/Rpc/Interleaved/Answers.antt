-- ===== src/Rpc/Interleaved/Answers.antt =====
-- A goroutine of serveConn in server/server.go that writes its answer, and the loop of handleResponse
-- in client/client.go that takes one in, among calls that are under way.
use frpc.Base.{
  ℕ, ◌≡◌, refl, sym, ap, subst, ◌∙◌, inl, inr, false, List, [], ◌∷◌, ◌++◌, some, arith, get_elem?,
  Option-cases,
}
use frpc.Base.Members.{
  remove_at, Memᴰ-append, Memᴰ-new, Memᴰ-cases, Memᴰ-get_elem?, Memᴰ-remove_at, remove_at-cases,
}
use mathlib.Core.List.{Memᴰ}
use frpc.Protocol.Header.{seq}
use frpc.Protocol.Message.{Message, Decoded, new_message, encode, decode}
use frpc.Protocol.Message.RoundTrip.{received}
use frpc.Client.Call.{Codec, Env, Call, Client}
use frpc.Client.Call.Request.{IsRequest, build_request-IsRequest}
use frpc.Server.Handle.{Server, handle_request, serve}
use frpc.Server.Handle.Answers.{status_of, Reads, handle_request-Reads}
use frpc.Rpc.{answer}
use frpc.Rpc.Exchange.{handled, serve-answer}
use frpc.Rpc.Exchange as Exchange
use frpc.Rpc.Interleaved.{Connection, finishes, finish, step}
use frpc.Rpc.Interleaved.Serves.{Alike, handle_request-Alike, serve-Alike}
use frpc.Rpc.Interleaved.State.{question, reply_to, IsGood, AllGood, OnWay, Inv}

Alike-trans : {W : Type 0} (s t u : Server W) → Alike s t → Alike t u → Alike s u
Alike-trans s t u h k = record {
  codecs = h.codecs ∙ k.codecs;
  methods = λ p q. h.methods p q ∙ k.methods p q;
}

module _ {V W : Type 0} (env : Env V) (codec : Codec V) (c : Client V) (s : Server W) (m : Message)
    (req : ℕ → Message) where
  abbrev Keeps : Connection V W → List (Call V) → Type 0
  Keeps = Inv env codec c s m req

  abbrev back : ℕ → Message
  back = reply_to env codec c s m req

  abbrev asked_for : ℕ → Message
  asked_for = question env codec c s m req

  module _ (n : ℕ) (call : Call V) (good : IsGood env codec c s m req n call) where
    is_request : IsRequest (req n).header n false
    is_request =
        subst (IsRequest (req n).header n) good.of_method (
          build_request-IsRequest env codec c n call (req n) (omega (arith, good.small)) good.built)

    pub marks : Reads (back n).header (req n).header (status_of (handled s m (req n)).failure)
    unfolding answer
    marks = handle_request-Reads s m (asked_for n) is_request.byte is_request.status

    pub answer_number : seq (back n).header ≡ n
    answer_number = marks.number ∙ is_request.number_kept

    pub answer_read :
        (o : Message) → decode 0 o (encode (back n)) ≡ Decoded.done (received o (back n)) []
    answer_read o = Exchange.reads o (back n) good.fits_back

  header_of : Decoded → ℕ
  header_of (Decoded.done x rest) = seq x.header
  header_of (Decoded.failed e x rest) = 0
  header_of Decoded.panicked = 0
  header_of Decoded.out_of_fuel = 0

  -- Answers to different calls are different.
  pub apart :
      (n k : ℕ) (a b : Call V)
      → IsGood env codec c s m req n a
      → IsGood env codec c s m req k b
      → encode (back n) ≡ encode (back k)
      → n ≡ k
  unfolding header_of
  apart n k a b g h e =
      sym (answer_number n a g)
      ∙ ap header_of (
          sym (answer_read n a g new_message)
          ∙ ap (decode 0 new_message) e
          ∙ answer_read k b h new_message)
      ∙ answer_number k b h

  module _ (x : Connection V W) (made : List (Call V)) (i : Keeps x made)
      (good : AllGood env codec c s m req made) where
    same_answer : (n : ℕ) → answer (handled x.server m (req n)) ≡ back n
    same_answer n = ap answer (handle_request-Alike x.server s m (asked_for n) i.alike)

    module _ (at : ℕ) (n : ℕ) (call : Call V) (e : get_elem? made n ≡ some call)
        (here : get_elem? x.running at ≡ some (asked_for n)) where
      abbrev finished : Connection V W
      finished = record x {
        server = (serve x.server m (asked_for n)).1;
        running = remove_at at x.running;
        written = x.written ++ (encode (back n) ∷ []);
      }

      finish-finished : finish m at x (some (asked_for n)) ≡ finished
      unfolding finish
      finish-finished =
          rw
            (
              serve-answer x.server m env new_message c (req n)
                    (is_request n call (good n call e)).beats
                    (is_request n call (good n call e)).two_way
                  ∙ ap (λ k. some (encode k)) (same_answer n),
              finish,
            )
            refl

      finished-OnWay :
          (k : ℕ) → OnWay env codec c s m req x k → OnWay env codec c s m req finished k
      finished-OnWay k (inl h) = inl h
      finished-OnWay k (inr (inr h)) = inr (inr (Memᴰ-append _ x.written _ h))
      finished-OnWay k (inr (inl h)) =
          elim (remove_at-cases (asked_for k) (asked_for n) at x.running here h) [
            | inr rest ↦ inr (inl rest)
            | inl q ↦ inr (
                inr (
                  subst (λ b. Memᴰ b finished.written)
                    (ap (λ y. encode (answer (handle_request s m y))) (sym q))
                    (Memᴰ-new _ x.written)))
          ]

      finished-Inv : Keeps finished made
      finished-Inv = record {
        up = i.up;
        open_ = i.open_;
        serialize = i.serialize;
        compress = i.compress;
        number = i.number;
        heap = i.heap;
        writes = i.writes;
        behind = i.behind;
        wire = i.wire;
        loop = i.loop;
        alike = Alike-trans _ x.server s (serve-Alike x.server m (asked_for n)) i.alike;
        asked = λ q h. i.asked q (Memᴰ-remove_at q at x.running h);
        replied = λ b h. elim (Memᴰ-cases b _ x.written h) [
          | inl old ↦ i.replied b old
          | inr q ↦ (n, call, e, q)
        ];
        each = λ k call' q. elim (i.each k call' q) [
          | inr done ↦ inr done
          | inl (w, g, on) ↦ inl (w, g, finished-OnWay k on)
        ];
      }

    -- A goroutine that writes its answer keeps the invariant.
    pub finishes-Inv : (at : ℕ) → Keeps (step env m x (finishes at)) made
    unfolding step
    finishes-Inv at = elim (Option-cases (get_elem? x.running at)) [
      | inl e ↦ rw e (unfold finish in i)
      | inr (q, e) ↦
          let (n, call, g, same) = i.asked q (Memᴰ-get_elem? q x.running at e) in
          let here : get_elem? x.running at ≡ some (asked_for n) = e ∙ ap some same in
          rw here (
            subst (λ k. Keeps k made) (sym (finish-finished at n call g here))
              (finished-Inv at n call g here))
    ]
