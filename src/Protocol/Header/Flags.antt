-- ===== src/Protocol/Header/Flags.antt =====
-- The bit fields of a Header: what each setter of protocol/message.go does to every getter.
use frpc.Base.{
  ℕ, ◌+◌, ◌*◌, ◌/◌, ◌%◌, ◌^◌, ◌<◌, ◌≡◌, refl, ◌∙◌, bit_and, bit_or, Bool, true, false, arith, ◌==◌,
  ==_iff, if◌then◌else◌, Bool-cases, inl, inr,
}
use frpc.Base.Bytes.{IsByte}
use frpc.Protocol.Word.{get_u32}
use frpc.Protocol.Header.Masks.{
  mask_80, mask_40, mask_20, mask_1c, mask_03, mask_f0, clear_40, clear_20, raise_40, raise_20,
  raise_80, or_zero, or_compress, or_lt_8, or_status, or_lt_4, or_serialize, or_lt_16,
}
use frpc.Protocol.Header.{
  Header, IsHeader, message_type, set_message_type, is_heartbeat, set_heartbeat, is_oneway,
  set_oneway, compress_type, set_compress_type, message_status_type, set_message_status_type,
  serialize_type, set_serialize_type, seq, set_seq,
}

-- The third byte, as the getters read it.
pub record Flags : Type 0 where
  pub kind : ℕ
  pub heartbeat : Bool
  pub oneway : Bool
  pub compress : ℕ
  pub status : ℕ

unfoldable pub flags : Header → Flags
flags h = record {
  kind = message_type h;
  heartbeat = is_heartbeat h;
  oneway = is_oneway h;
  compress = compress_type h;
  status = message_status_type h;
}

-- The same as arithmetic on the byte.
abbrev fields : ℕ → Flags
fields b = record {
  kind = b / 128;
  heartbeat = b / 64 % 2 == 1;
  oneway = b / 32 % 2 == 1;
  compress = b / 4 % 8;
  status = b % 4;
}

flags-fields : (h : Header) → IsByte h.h2 → flags h ≡ fields h.h2
unfolding flags message_type is_heartbeat is_oneway compress_type message_status_type
flags-fields h b =
    ground (arith, mask_80 h.h2 b, mask_40 h.h2 b, mask_20 h.h2 b, mask_1c h.h2 b, mask_03 h.h2 b)

-- The five getters on the third byte read disjoint bit fields that make up the whole byte.
-- Condition: it is a byte.
flags_pack :
    (h : Header)
    → IsByte h.h2
    → h.h2
      ≡ message_type h * 128
        + (if is_heartbeat h then 64 else 0)
        + (if is_oneway h then 32 else 0)
        + compress_type h * 4
        + message_status_type h
unfolding message_type is_heartbeat is_oneway compress_type message_status_type
flags_pack h b =
    ground (arith, mask_80 h.h2 b, mask_40 h.h2 b, mask_20 h.h2 b, mask_1c h.h2 b, mask_03 h.h2 b)

-- A setter that puts the byte `x` in the place of h[2].
flags-set :
    (h : Header) (x : ℕ) (f : Flags) → x < 256 → fields x ≡ f → flags (record h { h2 = x }) ≡ f
flags-set h x f lt e = flags-fields (record h { h2 = x }) lt ∙ e

-- SetHeartbeat sets or clears the heartbeat bit, and every other getter on that byte keeps its
-- value. Condition: it is a byte.
flags-set_heartbeat :
    (h : Header) (hb : Bool)
    → IsByte h.h2
    → flags (set_heartbeat hb h) ≡ record (flags h) { heartbeat = hb }
unfolding set_heartbeat
flags-set_heartbeat h true b =
    rw (flags-fields h b)
      (flags-set h _ _ (omega (arith, raise_40 h.h2 b)) (ground (arith, raise_40 h.h2 b)))
flags-set_heartbeat h false b =
    rw (flags-fields h b)
      (flags-set h _ _ (omega (arith, clear_40 h.h2 b)) (ground (arith, clear_40 h.h2 b)))

-- SetOneway sets or clears the oneway bit, and every other getter on that byte keeps its value.
-- Condition: it is a byte.
flags-set_oneway :
    (h : Header) (oneway : Bool)
    → IsByte h.h2
    → flags (set_oneway oneway h) ≡ record (flags h) { oneway = oneway }
unfolding set_oneway
flags-set_oneway h true b =
    rw (flags-fields h b)
      (flags-set h _ _ (omega (arith, raise_20 h.h2 b)) (ground (arith, raise_20 h.h2 b)))
flags-set_oneway h false b =
    rw (flags-fields h b)
      (flags-set h _ _ (omega (arith, clear_20 h.h2 b)) (ground (arith, clear_20 h.h2 b)))

-- SetMessageType makes the type 1 for an odd value and otherwise leaves the type that was there;
-- no other getter on that byte changes. Condition: it is a byte.
pub flags-set_message_type :
    (h : Header) (mt : ℕ)
    → IsByte h.h2
    → flags (set_message_type mt h)
      ≡ record (flags h) { kind = if mt % 2 == 1 then 1 else (flags h).kind }
unfolding set_message_type
flags-set_message_type h mt b = rw (flags-fields h b) (elim (Bool-cases (mt % 2 == 1)) [
  | inl odd ↦
      rw (odd, top odd)
        (flags-set h _ _ (omega (arith, raise_80 h.h2 b)) (ground (arith, raise_80 h.h2 b)))
  | inr even ↦ rw (even, bottom even, or_zero h.h2 b) (flags-set h _ _ b refl)
])
  where
    top : (mt % 2 == 1) ≡ true → mt * 2 ^ 7 % 256 ≡ 0x80
    top e = omega (arith, (==_iff (mt % 2) 1).0 e)

    bottom : (mt % 2 == 1) ≡ false → mt * 2 ^ 7 % 256 ≡ 0
    bottom e = ground arith

-- SetCompressType ors the value into the compress type that was there; no other getter on that
-- byte changes. Conditions: it is a byte, and the value is below 8.
flags-set_compress_type :
    (h : Header) (ct : ℕ)
    → IsByte h.h2
    → ct < 8
    → flags (set_compress_type ct h) ≡ record (flags h) { compress = bit_or (flags h).compress ct }
unfolding set_compress_type
flags-set_compress_type h ct b lt =
    rw (flags-fields h b, masked)
      (flags-set h _ _ (omega (arith, or_compress h.h2 ct b lt, small))
        (ground (arith, or_compress h.h2 ct b lt, small)))
  where
    masked : bit_and (ct * 2 ^ 2 % 256) 0x1c ≡ ct * 4
    masked = mask_1c (ct * 2 ^ 2 % 256) (omega arith) ∙ omega arith

    small : bit_or (h.h2 / 4 % 8) ct ≡ bit_or (h.h2 / 4 % 8) ct % 8
    small = or_lt_8 (h.h2 / 4 % 8) ct (omega arith) lt

-- SetMessageStatusType ors the value into the status that was there; no other getter on that byte
-- changes. Conditions: it is a byte, and the value is below 4.
pub flags-set_message_status_type :
    (h : Header) (mt : ℕ)
    → IsByte h.h2
    → mt < 4
    → flags (set_message_status_type mt h)
      ≡ record (flags h) { status = bit_or (flags h).status mt }
unfolding set_message_status_type
flags-set_message_status_type h mt b lt =
    rw (flags-fields h b, masked)
      (flags-set h _ _ (omega (arith, or_status h.h2 mt b lt, small))
        (ground (arith, or_status h.h2 mt b lt, small)))
  where
    masked : bit_and mt 0x03 ≡ mt
    masked = mask_03 mt (omega arith) ∙ omega arith

    small : bit_or (h.h2 % 4) mt ≡ bit_or (h.h2 % 4) mt % 4
    small = or_lt_4 (h.h2 % 4) mt (omega arith) lt

-- SetSerializeType ors the value into the serialize type that was there, and the lower half of the
-- byte stays. Conditions: it is a byte, and the value is below 16.
serialize_type-set_serialize_type :
    (h : Header) (st : ℕ)
    → IsByte h.h3
    → st < 16
    → (serialize_type (set_serialize_type st h) ≡ bit_or (serialize_type h) st)
      × ((set_serialize_type st h).h3 % 16 ≡ h.h3 % 16)
unfolding serialize_type set_serialize_type
serialize_type-set_serialize_type h st b lt =
    rw (shifted, mask_f0 h.h3 b, mask_f0 _ small)
      (rw halves
        (omega (arith, or_serialize h.h3 st b lt, fits), omega (arith, or_serialize h.h3 st b lt)))
  where
    shifted : st * 2 ^ 4 % 256 ≡ st * 16
    shifted = omega arith

    fits : bit_or (h.h3 / 16) st ≡ bit_or (h.h3 / 16) st % 16
    fits = or_lt_16 (h.h3 / 16) st (omega arith) lt

    small : bit_or h.h3 (st * 16) < 256
    small = omega (arith, or_serialize h.h3 st b lt, fits)

    halves : h.h3 / 16 * 16 / 2 ^ 4 ≡ h.h3 / 16
    halves = omega arith

-- Seq reads back what SetSeq wrote, modulo 2^64.
pub seq-set_seq : (h : Header) (s : ℕ) → seq (set_seq s h) ≡ s % 2 ^ 64
unfolding seq set_seq get_u32
seq-set_seq h s = omega arith

set_seq-IsHeader : (h : Header) (s : ℕ) → IsHeader h → IsHeader (set_seq s h)
unfolding set_seq
set_seq-IsHeader h s w = omega arith
