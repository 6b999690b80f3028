-- ===== src/Protocol/Message/Steps.antt =====
-- The steps of Decode of protocol/message.go, one for each read.
use frpc.Base.{ℕ, ◌≡◌, false, ◌&&◌, ltb, true}
use frpc.Base.Bytes.{Bytes, copy_at}
use frpc.Protocol.Word.{get_u32}
use frpc.Protocol.Header.{to_bytes, of_bytes}
use frpc.Protocol.Message.{
  Message, read_full, full, short, failed, decode_data, decode_body, decode_length, decode, Error,
  message_too_long,
}

module _ (max_length : ℕ) (m : Message) (r : Bytes) {b rest : Bytes} where
  pub decode_full :
      read_full r 12 ≡ full b rest
      → decode max_length m r ≡ decode_length max_length (record m { header = of_bytes b }) rest
  unfolding decode
  decode_full e = rw (e, decode)

  pub decode_short :
      {x : Error}
      → read_full r 12 ≡ short x b rest
      → decode max_length m r
        ≡ failed x (record m { header = of_bytes (copy_at (to_bytes m.header) 0 b) }) rest
  unfolding decode
  decode_short e = rw (e, decode)

  pub decode_length_full :
      read_full r 4 ≡ full b rest
      → (ltb 0 max_length && ltb max_length (get_u32 b)) ≡ false
      → decode_length max_length m r ≡ decode_data m rest (get_u32 b)
  unfolding decode_length
  decode_length_full e g = rw (e, decode_length) (rw g)

  pub decode_length_long :
      read_full r 4 ≡ full b rest
      → (ltb 0 max_length && ltb max_length (get_u32 b)) ≡ true
      → decode_length max_length m r ≡ failed message_too_long m rest
  unfolding decode_length
  decode_length_long e g = rw (e, decode_length) (rw g)

  pub decode_length_short :
      {x : Error} → read_full r 4 ≡ short x b rest → decode_length max_length m r ≡ failed x m rest
  unfolding decode_length
  decode_length_short e = rw (e, decode_length)

module _ (m : Message) (r : Bytes) (l : ℕ) {b rest : Bytes} where
  pub decode_data_full :
      read_full r l ≡ full b rest → decode_data m r l ≡ decode_body (record m { raw = b }) rest
  unfolding decode_data
  decode_data_full e = rw (e, decode_data)

  pub decode_data_short :
      {x : Error} → read_full r l ≡ short x b rest → decode_data m r l ≡ failed x m rest
  unfolding decode_data
  decode_data_short e = rw (e, decode_data)
