-- ===== src/Rpc/Interleaved/Sends.antt =====
-- A call of Go in client/client.go, and a request read by the loop of serveConn in server/server.go,
-- among calls that are under way.
use frpc.Base.{
  ℕ, ◌+◌, ◌<◌, ◌≡◌, refl, sym, ap, ap₂, subst, ◌∙◌, inl, inr, List, [], ◌∷◌, ◌++◌, none, some,
  arith, ◌==◌, if◌then◌else◌, length, length-append, get_elem?, Option-cases, dec_lt, ℕ_discrete,
}
use frpc.Base.Table.{lookup, lookup-insert}
use frpc.Base.Members.{
  Memᴰ-append, Memᴰ-new, Memᴰ-cases, get_elem?-append, get_elem?-new, get_elem?-cases,
  get_elem?-in_bounds, in_bounds,
}
use mathlib.Core.List.{Memᴰ}
use frpc.Protocol.Message.{Message, new_message, encode}
use frpc.Client.Call.{Codec, Env, Call, Client}
use frpc.Client.Call.Send.{build_request, go_call}
use frpc.Server.Handle.{Server}
use frpc.Rpc.Exchange.{reads as reads_back}
use frpc.Rpc.Whole.{sent_call, go_call-sent_call}
use frpc.Rpc.Interleaved.{Connection, calls, reads, read_next, start, step}
use frpc.Rpc.Interleaved.State.{question, IsGood, AllGood, OnWay, Progress, Inv}

-- The request depends on the connection only by its two options.
build_request-options :
    {V : Type 0} (env : Env V) (codec : Codec V) (c c' : Client V) (n : ℕ) (call : Call V)
    → c.serialize_type ≡ c'.serialize_type
    → c.compress_type ≡ c'.compress_type
    → build_request env codec c n call new_message ≡ build_request env codec c' n call new_message
unfolding build_request
build_request-options env codec c c' n call s k =
    ap₂
      (λ s k.
        build_request env codec (record c' { serialize_type = s; compress_type = k }) n call
          new_message)
      s k

module _ {V W : Type 0} (env : Env V) (codec : Codec V) (c : Client V) (s : Server W) (m : Message)
    (req : ℕ → Message) where
  abbrev Keeps : Connection V W → List (Call V) → Type 0
  Keeps = Inv env codec c s m req

  module _ (x : Connection V W) (made : List (Call V)) (i : Keeps x made) where
    abbrev called : Call V → Connection V W
    called call = record x { client = sent_call x.client call (req (length made)) }

    calls_wire :
        (call : Call V) (n : ℕ) (call' : Call V)
        → get_elem? (made ++ (call ∷ [])) n ≡ some call'
        → get_elem? (called call).client.sent n ≡ some (encode (req n))
    calls_wire call n call' e = elim (get_elem?-cases made call call' n e) [
      | inl old ↦ get_elem?-append x.client.sent _ n _ (i.wire n call' old)
      | inr (at, q) ↦
          subst (λ k. get_elem? (called call).client.sent k ≡ some (encode (req n)))
            (i.writes ∙ sym at)
            (get_elem?-new x.client.sent (encode (req (length made)))
              ∙ ap (λ k. some (encode (req k))) (sym at))
    ]

    registered :
        (call : Call V) (n : ℕ)
        → lookup n (called call).client.pending
          ≡ (if length made == n then some (length made) else lookup n x.client.pending)
    registered call n =
        lookup-insert x.client.seq n (length x.client.calls) x.client.pending
        ∙ rw (i.number, i.heap) refl

    calls_each :
        (call : Call V) (n : ℕ) (call' : Call V)
        → get_elem? (made ++ (call ∷ [])) n ≡ some call'
        → Progress env codec c s m req (called call) n call'
    calls_each call n call' e = elim (get_elem?-cases made call call' n e) [
      | inl old ↦
          let kept : lookup n (called call).client.pending ≡ lookup n x.client.pending =
            registered call n ∙ ground (arith, get_elem?-in_bounds made n call' old) in
          elim (i.each n call' old) [
            | inl (w, at, on) ↦ inl (kept ∙ w, get_elem?-append x.client.calls _ n _ at, on)
            | inr (w, at) ↦ inr (kept ∙ w, get_elem?-append x.client.calls _ n _ at)
          ]
      | inr (at, q) ↦ inl (
        registered call n ∙ ground (arith, at),
        subst (λ k. get_elem? (called call).client.calls k ≡ some call') (i.heap ∙ sym at)
            (get_elem?-new x.client.calls call ∙ ap some (sym q)),
        inl (omega (arith, i.behind, at)),
      )
    ]

    called-Inv :
        (call : Call V)
        → IsGood env codec c s m req (length made) call
        → Keeps (called call) (made ++ (call ∷ []))
    called-Inv call good = record {
      up = i.up;
      open_ = i.open_;
      serialize = i.serialize;
      compress = i.compress;
      number = omega (arith, i.number, good.small, length-append made (call ∷ []));
      heap =
          omega (
            arith,
            i.heap,
            length-append x.client.calls (call ∷ []),
            length-append made (call ∷ []),
          );
      writes = omega (
        arith,
        i.writes,
        length-append x.client.sent (encode (req (length made)) ∷ []),
        length-append made (call ∷ []),
      );
      behind = omega (arith, i.behind, length-append made (call ∷ []));
      wire = calls_wire call;
      loop = i.loop;
      alike = i.alike;
      asked = λ q h.
          let (n, call', at, e) = i.asked q h in (n, call', get_elem?-append made _ n _ at, e);
      replied = λ b h.
          let (n, call', at, e) = i.replied b h in (n, call', get_elem?-append made _ n _ at, e);
      each = calls_each call;
    }

    -- Go keeps the invariant, for one call more.
    pub calls-Inv :
        (call : Call V)
        → env.codecs c.serialize_type ≡ some codec
        → IsGood env codec c s m req (length made) call
        → Keeps (step env m x (calls call)) (made ++ (call ∷ []))
    unfolding step
    calls-Inv call has good =
        subst (λ k. Keeps (record x { client = k }) (made ++ (call ∷ []))) (sym went)
          (called-Inv call good)
      where
        went :
            go_call env new_message none call x.client ≡ sent_call x.client call (req (length made))
        went =
            go_call-sent_call env codec call x.client (req (length made)) (rw (i.up, i.open_) refl)
              (ap env.codecs i.serialize ∙ has)
              (ap (λ n. build_request env codec x.client n call new_message) i.number
                ∙ build_request-options env codec x.client c (length made) call i.serialize
                    i.compress
                ∙ good.built)

    abbrev pub began : Connection V W
    began = record x {
      read = x.read + 1;
      running = x.running ++ (question env codec c s m req x.read ∷ []);
    }

    began-Inv : (call : Call V) → get_elem? made x.read ≡ some call → Keeps began made
    began-Inv call at = record {
      up = i.up;
      open_ = i.open_;
      serialize = i.serialize;
      compress = i.compress;
      number = i.number;
      heap = i.heap;
      writes = i.writes;
      behind = omega (arith, get_elem?-in_bounds made x.read call at);
      wire = i.wire;
      loop = i.loop;
      alike = i.alike;
      asked = λ q h. elim (Memᴰ-cases q _ x.running h) [
        | inl old ↦ i.asked q old
        | inr e ↦ (x.read, call, at, e)
      ];
      replied = i.replied;
      each = λ n call' e. elim (i.each n call' e) [
        | inr done ↦ inr done
        | inl (w, g, on) ↦ inl (w, g, moved n on)
      ];
    }
      where
        moved : (n : ℕ) → OnWay env codec c s m req x n → OnWay env codec c s m req began n
        moved n (inr (inl h)) = inr (inl (Memᴰ-append _ x.running _ h))
        moved n (inr (inr h)) = inr (inr h)
        moved n (inl h) = elim (ℕ_discrete x.read n) [
          | yes e ↦ inr (
              inl (
                subst (λ k. Memᴰ (question env codec c s m req k) began.running) e
                  (Memᴰ-new _ x.running)))
          | no e ↦ inl (omega (arith, h, e))
        ]

    -- What the loop of serveConn reads next.
    pub step-reads :
        AllGood env codec c s m req made
        → (call : Call V) → get_elem? made x.read ≡ some call
        → step env m x reads ≡ began
    unfolding step read_next start
    step-reads good call at =
        rw (i.wire x.read call at, read_next)
          (rw (reads_back new_message (req x.read) (good x.read call at).fits, start) refl)

    -- So does the loop of serveConn when it reads.
    pub reads-Inv : AllGood env codec c s m req made → Keeps (step env m x reads) made
    unfolding step read_next start
    reads-Inv good = elim (dec_lt x.read (length made)) [
      | yes h ↦
          let (call, at) = in_bounds made x.read h in
          subst (λ y. Keeps y made) (sym (step-reads good call at)) (began-Inv call at)
      | no h ↦ rw (nothing h, read_next) i
    ]
      where
        nothing : ¬ (x.read < length made) → get_elem? x.client.sent x.read ≡ none
        nothing h = elim (Option-cases (get_elem? x.client.sent x.read)) [
          | inl e ↦ e
          | inr (b, e) ↦
              absurd (h (omega (arith, i.writes, get_elem?-in_bounds x.client.sent x.read b e)))
        ]
