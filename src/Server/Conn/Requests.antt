-- ===== src/Server/Conn/Requests.antt =====
-- What the loop of serveConn in server/server.go reads.
use frpc.Base.{
  map, ◌||◌, not, ap₂, ℕ, zero, suc, ◌*◌, ◌≤◌, ◌^◌, ◌<◌, ◌≡◌, ◌≢◌, refl, ap, ◌∙◌, Bool, true, false,
  List, [], ◌∷◌, ◌++◌, Option, none, some, arith, length, length-append, inl, inr,
}
use frpc.Base.Bytes.{Bytes}
use frpc.Protocol.Message.{
  Message, Decoded, done, failed, panicked, out_of_fuel, Error, eof, unexpected_eof,
  meta_kv_missing, message_too_long, new_message, encode, decode,
}
use frpc.Protocol.Message.Layout.{body, encode-body}
use frpc.Protocol.Message.RoundTrip.{HasDistinct, Admits, received, decode-encode}
use frpc.Protocol.Message.Stream.{Sound, decode-Sound, BrokenOff, decode_truncated}
use frpc.Protocol.Word.{put_u32, length-put_u32}
use frpc.Protocol.Header.{to_bytes, is_heartbeat, is_oneway}
use frpc.Server.Handle.{Server, serve}
use frpc.Server.Conn.{End, closed, recovered, stuck, end_of, read_requests, serve_all, serve_conn}

-- A message within the limits.
abbrev pub FitsIn : ℕ → Message → Type 0
FitsIn max_length x =
    (length (body x) < 2 ^ 32) × Admits max_length (length (body x)) × HasDistinct x.metadata

abbrev pub AllFit : ℕ → List Message → Type 0
AllFit max_length [] = Unit {0}
AllFit max_length (x ∷ xs) = FitsIn max_length x × AllFit max_length xs

-- The messages one after the other, and then what follows.
abbrev pub wire : List Message → Bytes → Bytes
wire [] tail = tail
wire (x ∷ xs) tail = encode x ++ wire xs tail

abbrev pub all_received : List Message → List Message
all_received [] = []
all_received (x ∷ xs) = received new_message x ∷ all_received xs

-- The round of the loop for a result of Decode.
unfoldable pub round : ℕ → ℕ → Decoded → List Message × End
round fuel max_length (done m rest) =
    (m ∷ (read_requests fuel max_length rest).0, (read_requests fuel max_length rest).1)
round fuel max_length (failed e m rest) = ([], end_of e)
round fuel max_length panicked = ([], recovered)
round fuel max_length out_of_fuel = ([], stuck)

pub read_requests-round :
    (fuel max_length : ℕ) (r : Bytes) (d : Decoded)
    → decode max_length new_message r ≡ d
    → read_requests (suc fuel) max_length r ≡ round fuel max_length d
unfolding read_requests round
read_requests-round fuel max_length r (done m rest) e = rw (e, read_requests) refl
read_requests-round fuel max_length r (failed x m rest) e = rw (e, read_requests) refl
read_requests-round fuel max_length r panicked e = rw (e, read_requests) refl
read_requests-round fuel max_length r out_of_fuel e = rw (e, read_requests) refl

end_of-ne-stuck : (e : Error) → end_of e ≢ stuck
unfolding end_of
end_of-ne-stuck eof = λ z. cc
end_of-ne-stuck unexpected_eof = λ z. cc
end_of-ne-stuck meta_kv_missing = λ z. cc
end_of-ne-stuck message_too_long = λ z. cc

-- The loop did not run out of fuel, and took sixteen bytes at least for each request.
abbrev pub EndsWithin : ℕ → List Message × End → Type 0
EndsWithin n (reqs, end) = (end ≢ stuck) × (16 * length reqs ≤ n)

round-EndsWithin :
    (fuel max_length : ℕ) (r : Bytes) (d : Decoded)
    → Sound max_length r d
    → ((rest : Bytes)
        → length rest < length r
        → EndsWithin (length rest) (read_requests fuel max_length rest))
    → EndsWithin (length r) (round fuel max_length d)
unfolding round
round-EndsWithin fuel max_length r (done m rest) (l, _) more =
    let (end, taken) = more rest (omega (arith, l)) in (end, omega (arith, l, taken))
round-EndsWithin fuel max_length r (failed x m rest) s more = (end_of-ne-stuck x, omega arith)
round-EndsWithin fuel max_length r panicked s more = ((λ z. cc), omega arith)
round-EndsWithin fuel max_length r out_of_fuel s more = absurd s

-- The loop ends on every stream.
read_requests-EndsWithin :
    (fuel max_length : ℕ) (r : Bytes)
    → length r < fuel
    → EndsWithin (length r) (read_requests fuel max_length r)
unfolding round
read_requests-EndsWithin zero max_length r h = absurd (omega arith)
read_requests-EndsWithin (suc fuel) max_length r h =
    rw (read_requests-round fuel max_length r (decode max_length new_message r) refl) (
      round-EndsWithin fuel max_length r (decode max_length new_message r)
        (decode-Sound max_length new_message r)
        (λ rest l. read_requests-EndsWithin fuel max_length rest (omega (arith, l, h))))

round-BrokenOff :
    (fuel max_length : ℕ) (d : Decoded) → BrokenOff d → round fuel max_length d ≡ ([], closed)
unfolding round end_of
round-BrokenOff fuel max_length (failed e m rest) (inl p, _) = rw (p, end_of) refl
round-BrokenOff fuel max_length (failed e m rest) (inr p, _) = rw (p, end_of) refl
round-BrokenOff fuel max_length (done _ _) x = elim x [ ]
round-BrokenOff fuel max_length panicked x = elim x [ ]
round-BrokenOff fuel max_length out_of_fuel x = elim x [ ]

length-encode : (x : Message) → 0 < length (encode x)
length-encode x = omega (
  arith,
  ap length (encode-body x),
  length-append (to_bytes x.header) (put_u32 (length (body x)) ++ body x),
  length-append (put_u32 (length (body x))) (body x),
  length-put_u32 (length (body x)),
)

read_requests-wire :
    (fuel max_length : ℕ) (xs : List Message) (x : Message) (front back : Bytes)
    → AllFit max_length xs
    → FitsIn max_length x
    → encode x ≡ front ++ back
    → 0 < length back
    → length (wire xs front) < fuel
    → read_requests fuel max_length (wire xs front) ≡ (all_received xs, closed)
unfolding round
read_requests-wire zero max_length xs x front back fits fit e p h = absurd (omega arith)
read_requests-wire (suc fuel) max_length [] x front back fits (s, a, d) e p h =
    read_requests-round fuel max_length front _ refl
    ∙ round-BrokenOff fuel max_length _
        (decode_truncated max_length new_message x front back s a e p)
read_requests-wire (suc fuel) max_length (y ∷ ys) x front back ((s, a, d), fits) fit e p h =
    read_requests-round fuel max_length (encode y ++ wire ys front) _
      (decode-encode max_length new_message y (wire ys front) s a d)
    ∙ ap (λ r. (received new_message y ∷ r.0, r.1))
        (read_requests-wire fuel max_length ys x front back fits fit e p
          (omega (arith, h, length-encode y, length-append (encode y) (wire ys front))))

-- Whether the goroutine of a request writes: to a heartbeat and to a call of two ways.
abbrev pub wants_answer : Message → Bool
wants_answer req = is_heartbeat req.header || not (is_oneway req.header)

abbrev pub is_written : Option Bytes → Bool
is_written none = false
is_written (some b) = true

-- A received request asks for an answer as the one that was sent.
all_received-wants_answer :
    (xs : List Message) → map wants_answer (all_received xs) ≡ map wants_answer xs
all_received-wants_answer [] = refl
all_received-wants_answer (x ∷ xs) = ap (λ w. wants_answer x ∷ w) (all_received-wants_answer xs)

module _ {V : Type 0} where
  serve-wants_answer :
      (s : Server V) (c req : Message) → is_written (serve s c req).0 ≡ wants_answer req
  unfolding serve
  serve-wants_answer s c req = ground arith

  serve_all-wants_answer :
      (s : Server V) (c : Message) (reqs : List Message)
      → map is_written (serve_all s c reqs).0 ≡ map wants_answer reqs
  unfolding serve_all
  serve_all-wants_answer s c [] = refl
  serve_all-wants_answer s c (req ∷ reqs) =
      ap₂ ◌∷◌ (serve-wants_answer s c req) (serve_all-wants_answer (serve s c req).1 c reqs)

  length-serve_all :
      (s : Server V) (c : Message) (reqs : List Message)
      → length (serve_all s c reqs).0 ≡ length reqs
  unfolding serve_all
  length-serve_all s c [] = refl
  length-serve_all s c (req ∷ reqs) = ap suc (length-serve_all (serve s c req).1 c reqs)

  -- The loop of serveConn reads the requests of a stream in order, each one as it was sent, serves
  -- them all, and closes the connection silently where the stream ends, between two messages or
  -- inside one; and just the heartbeats and the calls that are not oneway are answered.
  -- Conditions: the stream is that of encoded messages, whose bodies are below 2^32 bytes and
  -- within MaxMessageLength, without a key that stands twice, and ends in a proper front of a
  -- further one, which may be empty.
  pub serve_conn-wire :
      (max_length : ℕ) (s : Server V) (c : Message) (xs : List Message) (x : Message)
      (front back : Bytes)
      → AllFit max_length xs
      → FitsIn max_length x
      → encode x ≡ front ++ back
      → 0 < length back
      → (serve_conn max_length s c (wire xs front) ≡ (serve_all s c (all_received xs), closed))
        × (map is_written (serve_conn max_length s c (wire xs front)).0.0 ≡ map wants_answer xs)
  unfolding serve_conn
  serve_conn-wire max_length s c xs x front back fits fit e p = (
    served,
    ap (λ r. map is_written r.0.0) served
        ∙ serve_all-wants_answer s c (all_received xs)
        ∙ all_received-wants_answer xs,
  )
    where
      served : serve_conn max_length s c (wire xs front) ≡ (serve_all s c (all_received xs), closed)
      served =
          ap (λ r. (serve_all s c r.0, r.1))
            (read_requests-wire (suc (length (wire xs front))) max_length xs x front back fits fit e
              p (omega arith))

  -- The loop of serveConn ends on every stream: with a closed connection, an error or a recovered
  -- panic, and each request that it reads takes sixteen bytes of the stream at least.
  pub serve_conn_ends :
      (max_length : ℕ) (s : Server V) (c : Message) (r : Bytes)
      → ((serve_conn max_length s c r).1 ≢ stuck)
        × (16 * length (serve_conn max_length s c r).0.0 ≤ length r)
  unfolding serve_conn
  serve_conn_ends max_length s c r =
      let reqs = (read_requests (suc (length r)) max_length r).0 in
      let (end, taken) = read_requests-EndsWithin (suc (length r)) max_length r (omega arith) in
      (end, omega (arith, taken, length-serve_all s c reqs))
