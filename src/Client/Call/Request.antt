-- ===== src/Client/Call/Request.antt =====
-- The request that send of client/client.go makes, as the getters of the server read it.
use frpc.Base.{
  ℕ, ◌^◌, ◌<◌, ◌≡◌, refl, sym, ap, subst, ◌∙◌, Bool, true, false, arith, if◌then◌else◌, Bool-cases,
  ◌⊎◌, inl, inr,
}
use frpc.Base.Bytes.{IsByte, Bytes}
use frpc.Client.Call.{Call, Client, Env, Codec, Result, ok, err}
use frpc.Client.Call.Send.{is_heartbeat_call, pack, build_request}
use frpc.Protocol.Header.{
  Header, request, gzip, seq, set_seq, message_type, set_message_type, is_heartbeat, set_heartbeat,
  is_oneway, set_serialize_type, set_compress_type, compress_type, message_status_type,
  normal_status, check_magic_number,
}
use frpc.Protocol.Header.Flags.{seq-set_seq}
use frpc.Protocol.Message.{Message, new_message}

-- What the receiver tests before it looks at the rest.
pub record IsRequest (h : Header) (number : ℕ) (heartbeat : Bool) : Type 0 where
  pub magic : check_magic_number h ≡ true
  pub number_kept : seq h ≡ number
  pub kind : message_type h ≡ request
  pub beats : is_heartbeat h ≡ heartbeat
  pub two_way : is_oneway h ≡ false
  pub status : message_status_type h ≡ normal_status
  pub byte : IsByte h.h2

-- The header before the payload is known, with the setters of send.
abbrev base : ℕ → Header
base number = set_seq number (set_message_type request new_message.header)

seq_base : (number : ℕ) → number < 2 ^ 64 → seq (base number) ≡ number
seq_base number h = seq-set_seq (set_message_type request new_message.header) number ∙ omega arith

beat-IsRequest :
    (number : ℕ) → number < 2 ^ 64 → IsRequest (set_heartbeat true (base number)) number true
unfolding set_seq set_message_type set_heartbeat new_message check_magic_number seq message_type
    is_heartbeat is_oneway message_status_type
beat-IsRequest number h = record {
  magic = refl;
  number_kept = seq_base number h;
  kind = refl;
  beats = refl;
  two_way = refl;
  status = refl;
  byte = omega arith;
}

call-IsRequest :
    (number st : ℕ) (zipped : Bool)
    → number < 2 ^ 64
    → IsRequest
        (if zipped
          then set_compress_type gzip (set_serialize_type st (base number))
          else set_serialize_type st (base number))
        number
        false
unfolding set_seq set_message_type set_compress_type set_serialize_type new_message
    check_magic_number seq message_type is_heartbeat is_oneway message_status_type
call-IsRequest number st true h = record {
  magic = refl;
  number_kept = seq_base number h;
  kind = refl;
  beats = refl;
  two_way = refl;
  status = refl;
  byte = omega arith;
}
call-IsRequest number st false h = record {
  magic = refl;
  number_kept = seq_base number h;
  kind = refl;
  beats = refl;
  two_way = refl;
  status = refl;
  byte = omega arith;
}

ok_eq {ℓ} : {A : Type ℓ} {a b : A} → ◌≡◌ {A = Result A} (ok a) (ok b) → a ≡ b
ok_eq e = cc

pack-cases {ℓ} :
    {A : Type ℓ} (r : Result (A × Bool))
    → ((a : A) × (z : Bool) × (r ≡ ok (a, z))) ⊎ ((e : Bytes) × (r ≡ err e))
pack-cases (ok (a, z)) = inl (a, z, refl)
pack-cases (err e) = inr (e, refl)

module _ {V : Type 0} where
  pack_zipped :
      (env : Env V) (codec : Codec V) (compress_type : ℕ) (args : V) (b : Bytes)
      → pack env codec compress_type args ≡ ok (b, true)
      → compress_type ≡ gzip
  unfolding pack
  pack_zipped env codec compress_type args b e = ground arith

  heartbeat_header :
      (env : Env V) (codec : Codec V) (c : Client V) (number : ℕ) (call : Call V) (req : Message)
      → is_heartbeat_call call ≡ true
      → build_request env codec c number call new_message ≡ ok req
      → set_heartbeat true (base number) ≡ req.header
  unfolding build_request
  heartbeat_header env codec c number call req beat e =
      ap Message.header (ok_eq (rw (beat, build_request) at e))

  call_header :
      (env : Env V) (codec : Codec V) (c : Client V) (number : ℕ) (call : Call V) (req : Message)
      (b : Bytes) (z : Bool)
      → is_heartbeat_call call ≡ false
      → pack env codec c.compress_type call.args ≡ ok (b, z)
      → build_request env codec c number call new_message ≡ ok req
      → (if z
          then set_compress_type c.compress_type (set_serialize_type c.serialize_type (base number))
          else set_serialize_type c.serialize_type (base number))
        ≡ req.header
  unfolding build_request
  call_header env codec c number call req b z plain p e =
      ap Message.header (ok_eq (rw (plain, p, build_request) at e))

  -- A request that send makes from a fresh message carries the magic number and its sequence
  -- number, is a two-way request of normal status, and is a heartbeat just if path and method are
  -- empty. Conditions: the number is below 2^64, and making the request succeeds.
  pub build_request-IsRequest :
      (env : Env V) (codec : Codec V) (c : Client V) (number : ℕ) (call : Call V) (req : Message)
      → number < 2 ^ 64
      → build_request env codec c number call new_message ≡ ok req
      → IsRequest req.header number (is_heartbeat_call call)
  build_request-IsRequest env codec c number call req small e =
      elim (Bool-cases (is_heartbeat_call call)) [
        | inl beat ↦ rw beat (
            subst (λ h. IsRequest h number true)
              (heartbeat_header env codec c number call req beat e) (beat-IsRequest number small))
        | inr plain ↦ rw plain (elim (pack-cases (pack env codec c.compress_type call.args)) [
          | inr (x, p) ↦ absurd (unfold build_request in cc (rw (plain, p, build_request) at e))
          | inl (b, true, p) ↦
              subst (λ h. IsRequest h number false)
                (ap (λ k. set_compress_type k (set_serialize_type c.serialize_type (base number)))
                    (sym (pack_zipped env codec c.compress_type call.args b p))
                  ∙ call_header env codec c number call req b true plain p e)
                (call-IsRequest number c.serialize_type true small)
          | inl (b, false, p) ↦
              subst (λ h. IsRequest h number false)
                (call_header env codec c number call req b false plain p e)
                (call-IsRequest number c.serialize_type false small)
        ])
      ]
