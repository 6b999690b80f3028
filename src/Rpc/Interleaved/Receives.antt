-- ===== src/Rpc/Interleaved/Receives.antt =====
-- The loop of handleResponse in client/client.go that takes in one of the answers under way.
use frpc.Base.{
  ℕ, zero, suc, ◌≡◌, ◌≢◌, refl, Bool, sym, ap, subst, ◌∙◌, inl, inr, false, List, [], ◌∷◌, Option,
  none, some, arith, length, get_elem?, ℕ_discrete, some_injective, if◌then◌else◌, ◌==◌,
}
use frpc.Base.Bytes.{Bytes}
use frpc.Base.Table.{lookup, erase, lookup-erase}
use mathlib.Core.List.{Memᴰ}
use frpc.Protocol.Header.{seq}
use frpc.Protocol.Message.{Message, Decoded, new_message, encode, decode, reset}
use frpc.Protocol.Message.RoundTrip.{received, carried}
use frpc.Client.Call.{foreign, Codec, Env, Call, Client, modify}
use frpc.Client.Call.Response.{terminate, answer_call, answer_at, handle_message, is_server_message}
use frpc.Client.Call.Trace.Heap.{
  length-modify, get_elem?-modify_self, get_elem?-modify_ne, answer_at-modify,
}
use frpc.Server.Handle.{Server}
use frpc.Server.Handle.Answers.{response-is_server_message}
use frpc.Rpc.Interleaved.{Connection, receives, receive, take_in, step}
use frpc.Rpc.Interleaved.State.{reply_to, settled, AllGood, OnWay, Progress, Inv}
use frpc.Rpc.Interleaved.Answers.{marks, answer_number, answer_read, apart}

answer_at-failure :
    {V : Type 0} (env : Env V) (res : Message) (i : ℕ) (calls : List (Call V)) (call : Call V)
    → get_elem? calls i ≡ some call
    → (answer_at env res i calls).1 ≡ (answer_call env res call).1
unfolding answer_at
answer_at-failure env res i [] call e = cc
answer_at-failure env res zero (x ∷ calls) call e =
    ap (λ k. (answer_call env res k).1) (some_injective e)
answer_at-failure env res (suc i) (x ∷ calls) call e = answer_at-failure env res i calls call e

module _ {V : Type 0} (env : Env V) (res : Message) (c : Client V)
    (no_server_message : is_server_message res ≡ false) where
  -- A round for a call that waits, at whose answer nothing fails.
  handle_message-waits :
      (i : ℕ) (call : Call V)
      → lookup (seq res.header) c.pending ≡ some i
      → get_elem? c.calls i ≡ some call
      → (answer_call env res call).1 ≡ none
      → handle_message env res c ≡ (
        record c {
          pending = erase (seq res.header) c.pending;
          calls = modify i (λ y. (answer_call env res y).0) c.calls;
        },
        reset res,
        none,
      )
  unfolding handle_message
  handle_message-waits i call w g ok =
      rw (no_server_message, w, handle_message)
        (rw (answer_at-modify env res i c.calls, answer_at-failure env res i c.calls call g ∙ ok)
          refl)

  -- A round for a number under which nobody waits.
  handle_message-nobody :
      lookup (seq res.header) c.pending ≡ none
      → handle_message env res c
        ≡ (record c { pending = erase (seq res.header) c.pending }, reset res, none)
  unfolding handle_message
  handle_message-nobody w = rw (no_server_message, w, handle_message) refl

take_in-none :
    {V W : Type 0} (env : Env V) (x : Connection V W) (res : Message) (rest : Bytes) (c : Client V)
    (next : Message)
    → handle_message env res x.client ≡ (c, next, none)
    → take_in env x (Decoded.done res rest) ≡ record x { client = c; loop = next }
unfolding take_in
take_in-none {V} env x res rest c next e =
    ap
      (λ (r : Client V × Message × Option Bytes). record x {
        client = elim r.2 [ none ↦ r.0 | some y ↦ terminate (foreign y) r.0 ];
        loop = r.1;
      })
      e

module _ {V W : Type 0} (env : Env V) (codec : Codec V) (c : Client V) (s : Server W) (m : Message)
    (req : ℕ → Message) where
  abbrev Keeps : Connection V W → List (Call V) → Type 0
  Keeps = Inv env codec c s m req

  abbrev back : ℕ → Message
  back = reply_to env codec c s m req

  module _ (x : Connection V W) (made : List (Call V)) (i : Keeps x made)
      (good : AllGood env codec c s m req made) (more : List Bytes) (n : ℕ) (call : Call V)
      (at : get_elem? made n ≡ some call) (front : x.written ≡ encode (back n) ∷ more) where
    abbrev res : Message
    res = received new_message (back n)

    abbrev took : List (Call V) → Connection V W
    took calls = record x {
      client = record (x.client) { pending = erase n x.client.pending; calls = calls };
      loop = reset res;
      written = more;
    }

    -- Every other call goes on as it did.
    took-OnWay :
        (calls : List (Call V)) (k : ℕ) (call' : Call V)
        → get_elem? made k ≡ some call'
        → k ≢ n
        → OnWay env codec c s m req x k
        → OnWay env codec c s m req (took calls) k
    took-OnWay calls k call' g off (inl h) = inl h
    took-OnWay calls k call' g off (inr (inl h)) = inr (inl h)
    took-OnWay calls k call' g off (inr (inr h)) =
        inr (inr (later (subst (Memᴰ (encode (back k))) front h)))
      where
        later : Memᴰ (encode (back k)) (encode (back n) ∷ more) → Memᴰ (encode (back k)) more
        later (Memᴰ.tail r) = r
        later (Memᴰ.head e) =
            absurd
              (off (apart env codec c s m req k n call' call (good k call' g) (good n call at) e))

    took-Inv :
        (calls : List (Call V))
        → length calls ≡ length x.client.calls
        → get_elem? calls n ≡ some (settled env codec c s m req n call)
        → ((k : ℕ) → k ≢ n → get_elem? calls k ≡ get_elem? x.client.calls k)
        → Keeps (took calls) made
    took-Inv calls same_length own others = record {
      up = i.up;
      open_ = i.open_;
      serialize = i.serialize;
      compress = i.compress;
      number = i.number;
      heap = same_length ∙ i.heap;
      writes = i.writes;
      behind = i.behind;
      wire = i.wire;
      loop = unfold reset in refl;
      alike = i.alike;
      asked = i.asked;
      replied = λ b h. i.replied b (subst (Memᴰ b) (sym front) (Memᴰ.tail h));
      each = progress;
    }
      where
        forgotten :
            (k : ℕ)
            → lookup k (erase n x.client.pending)
              ≡ (if n == k then none else lookup k x.client.pending)
        forgotten k = lookup-erase n k x.client.pending

        progress :
            (k : ℕ) (call' : Call V)
            → get_elem? made k ≡ some call'
            → Progress env codec c s m req (took calls) k call'
        progress k call' g = elim (ℕ_discrete k n) [
          | yes e ↦ inr (
            forgotten k ∙ ground (arith, e),
            subst (λ j. get_elem? calls j ≡ some (settled env codec c s m req j call')) (sym e)
                (own
                  ∙ ap (λ y. some (settled env codec c s m req n y))
                      (some_injective (sym at ∙ ap (get_elem? made) (sym e) ∙ g))),
          )
          | no off ↦ elim (i.each k call' g) [
            | inl (w, h, on) ↦ inl (
              forgotten k ∙ ground (arith, off, w),
              others k off ∙ h,
              took-OnWay calls k call' g off on,
            )
            | inr (w, h) ↦ inr (forgotten k ∙ ground (arith, off, w), others k off ∙ h)
          ]
        ]

    no_server_message : is_server_message res ≡ false
    no_server_message =
        response-is_server_message res (marks env codec c s m req n call (good n call at)).kind

    own_number : seq res.header ≡ n
    own_number = answer_number env codec c s m req n call (good n call at)

    took_in-Inv : Keeps (take_in env (record x { written = more }) (Decoded.done res [])) made
    took_in-Inv = elim (i.each n call at) [
      | inl (w, g, on) ↦
          subst (λ y. Keeps y made)
            (sym (
              take_in-none env (record x { written = more }) res [] _ (reset res)
                (handle_message-waits env res x.client no_server_message n call
                    (ap (λ k. lookup k x.client.pending) own_number ∙ w) g (good n call at).readable
                  ∙ ap (λ k. (modified k, reset res, none)) own_number)))
            (took-Inv (modify n (λ y. (answer_call env res y).0) x.client.calls)
              (length-modify n _ x.client.calls) (get_elem?-modify_self n _ x.client.calls g)
              (λ k off. get_elem?-modify_ne n k _ x.client.calls off))
      | inr (w, g) ↦
          subst (λ y. Keeps y made)
            (sym (
              take_in-none env (record x { written = more }) res [] _ (reset res)
                (handle_message-nobody env res x.client no_server_message
                    (ap (λ k. lookup k x.client.pending) own_number ∙ w)
                  ∙ ap
                      (λ k.
                        (record (x.client) { pending = erase k x.client.pending }, reset res, none))
                      own_number)))
            (took-Inv x.client.calls refl g (λ k off. refl))
    ]
      where
        modified : ℕ → Client V
        modified k = record (x.client) {
          pending = erase k x.client.pending;
          calls = modify n (λ y. (answer_call env res y).0) x.client.calls;
        }

    received-res : received x.loop (back n) ≡ res
    received-res =
        ap (λ o. record (received new_message (back n)) { metadata = carried o (back n).metadata })
          (i.loop ∙ unfold new_message in refl)

    front-Inv : Keeps (receive env x (encode (back n) ∷ more)) made
    unfolding receive
    front-Inv =
        subst
          (λ (ended : Bool).
            Keeps
              (if ended
                then x
                else take_in env (record x { written = more }) (decode 0 x.loop (encode (back n))))
              made)
          (sym i.up)
          (subst (λ d. Keeps (take_in env (record x { written = more }) d) made)
            (sym (
              answer_read env codec c s m req n call (good n call at) x.loop
              ∙ ap (λ y. Decoded.done y []) received-res))
            took_in-Inv)

  -- A round of the loop of handleResponse keeps the invariant.
  pub receives-Inv :
      (x : Connection V W) (made : List (Call V))
      → Keeps x made
      → AllGood env codec c s m req made
      → Keeps (step env m x receives) made
  unfolding step
  receives-Inv x made i good = by_front x.written refl
    where
      by_front : (w : List Bytes) → x.written ≡ w → Keeps (receive env x w) made
      by_front [] e = unfold receive in i
      by_front (b ∷ more) e =
          let (n, call, at, q) = i.replied b (subst (Memᴰ b) (sym e) (Memᴰ.head refl)) in
          subst (λ y. Keeps (receive env x (y ∷ more)) made) (sym q)
            (front-Inv x made i good more n call at (e ∙ ap (λ y. y ∷ more) q))
