-- ===== src/Client/Call.antt =====
-- One connection of client/client.go: the calls that wait for an answer, and the state that the
-- goroutines of the connection share.
pub mod Send
pub mod Request
pub mod Response
pub mod Done
pub mod Trace
use frpc.Base.{
  ◌≡◌, refl, ◌⊎◌, inl, inr, ℕ, zero, suc, ◌+◌, ◌-◌, ◌≤◌, Bool, true, false, List, [], ◌∷◌, Option,
  none, some, ltb, if◌then◌else◌,
}
use frpc.Base.Bytes.{Bytes}
use frpc.Base.Dict.{Dict}
use frpc.Base.Table.{Table}
use frpc.Protocol.Message as Wire

-- What a foreign function returns: a value, or an error with its text.
pub data Result {ℓ} (A : Type ℓ) : Type ℓ where
  ok : A → Result A
  err : Bytes → Result A

pub Result-cases {ℓ} :
    {A : Type ℓ} (r : Result A) → ((a : A) × (r ≡ ok a)) ⊎ ((e : Bytes) × (r ≡ err e))
Result-cases (ok a) = inl (a, refl)
Result-cases (err e) = inr (e, refl)

-- A codec.Codec. `decode` gives the target as it left it, also where it fails.
pub record Codec (V : Type 0) : Type 0 where
  pub encode : V → Result Bytes
  pub decode : Bytes → V → V × Option Bytes

-- What is not in the repository: the three codecs, by SerializeType (core.Codecs), and gzip.
pub record Env (V : Type 0) : Type 0 where
  pub codecs : ℕ → Option (Codec V)
  pub zip : Bytes → Result Bytes
  pub unzip : Bytes → Result Bytes

pub data Error : Type 0 where
  shut_down unsupported_codec : Error
  wire : Wire.Error → Error
  service_error : Bytes → Error
  foreign : Bytes → Error

-- `buffered` is what the channel Done holds, `capacity` its size; `received` is what the caller took.
pub record Call (V : Type 0) : Type 0 where
  pub service_path : Bytes
  pub service_method : Bytes
  pub metadata : Option (Dict Bytes)
  pub res_metadata : Option (Dict Bytes)
  pub args : V
  pub reply : V
  pub error : Option Error
  pub capacity : ℕ
  pub buffered : ℕ
  pub received : ℕ

-- `calls` is the heap: a *Call is an index into it. `sent` is what was written to the connection.
pub record Client (V : Type 0) : Type 0 where
  pub serialize_type : ℕ
  pub compress_type : ℕ
  pub seq : ℕ
  pub pending : Table ℕ
  pub closing : Bool
  pub shutdown : Bool
  pub calls : List (Call V)
  pub sent : List Bytes

module _ {V : Type 0} where
  -- The method done: a send that does not block.
  unfoldable pub call_done : Call V → Call V
  call_done c = if ltb c.buffered c.capacity then record c { buffered = c.buffered + 1 } else c

  -- call.Error = e; call.done()
  unfoldable pub fail_call : Error → Call V → Call V
  unfolding call_done
  fail_call e c = call_done (record c { error = some e })

  -- The caller takes a value from Done.
  unfoldable pub receive_call : Call V → Call V
  receive_call c =
      if ltb 0 c.buffered
      then record c { buffered = c.buffered - 1; received = c.received + 1 }
      else c

  -- A write through the pointer `i`.
  unfoldable pub modify : ℕ → (Call V → Call V) → List (Call V) → List (Call V)
  modify i f [] = []
  modify zero f (c ∷ cs) = f c ∷ cs
  modify (suc i) f (c ∷ cs) = c ∷ modify i f cs

  unfoldable pub on_call : ℕ → (Call V → Call V) → Client V → Client V
  on_call i f c = record c { calls = modify i f c.calls }
