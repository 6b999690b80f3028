-- ===== src/Client/Call/Trace/Heap.antt =====
-- Facts about the heap of calls of client/client.go: what holds of each call, and what each write
-- does to it.
use frpc.Base.{
  ℕ, zero, suc, ◌+◌, ◌<◌, ◌≡◌, ◌≢◌, refl, ap, List, [], ◌∷◌, ◌++◌, Option, none, some, arith,
  length, get_elem?,
}
use mathlib.Core.Path.{subst}
use frpc.Base.Bytes.{Bytes}
use frpc.Client.Call.{Call, Env, Codec, Error, call_done, fail_call, modify}
use frpc.Client.Call.Response.{decode_reply, receive_reply, answer_call, answer_at}
use frpc.Protocol.Message.{Message}

pub some_eq {ℓ} : {A : Type ℓ} {a b : A} → some a ≡ some b → a ≡ b
some_eq e = cc

module _ {V : Type 0} where
  abbrev pub Each : (ℕ → Call V → Type 0) → List (Call V) → Type 0
  Each P calls = (i : ℕ) (c : Call V) → get_elem? calls i ≡ some c → P i c

  -- The caller has been woken: a value is in Done, or was taken from it.
  abbrev pub IsSignalled : Call V → Type 0
  IsSignalled c = 0 < c.buffered + c.received

  pub Each-modify :
      (P Q : ℕ → Call V → Type 0) (k : ℕ) (f : Call V → Call V) (calls : List (Call V))
      → Each P calls
      → ((c : Call V) → P k c → Q k (f c))
      → ((i : ℕ) (c : Call V) → i ≢ k → P i c → Q i c)
      → Each Q (modify k f calls)
  unfolding modify
  Each-modify P Q k f [] h at off i c e = cc
  Each-modify P Q zero f (x ∷ calls) h at off zero c e = subst (Q 0) (some_eq e) (at x (h 0 x refl))
  Each-modify P Q zero f (x ∷ calls) h at off (suc i) c e = off (suc i) c (λ z. cc) (h (suc i) c e)
  Each-modify P Q (suc k) f (x ∷ calls) h at off zero c e = off zero c (λ z. cc) (h 0 c e)
  Each-modify P Q (suc k) f (x ∷ calls) h at off (suc i) c e =
      Each-modify (λ j. P (suc j)) (λ j. Q (suc j)) k f calls (λ j. h (suc j)) at
        (λ j d n. off (suc j) d (λ z. n (omega arith))) i c e

  pub length-modify :
      (k : ℕ) (f : Call V → Call V) (calls : List (Call V))
      → length (modify k f calls) ≡ length calls
  unfolding modify
  length-modify k f [] = refl
  length-modify zero f (x ∷ calls) = refl
  length-modify (suc k) f (x ∷ calls) = ap suc (length-modify k f calls)

  pub get_elem?-modify_self :
      (k : ℕ) (f : Call V → Call V) (calls : List (Call V)) {c : Call V}
      → get_elem? calls k ≡ some c
      → get_elem? (modify k f calls) k ≡ some (f c)
  unfolding modify
  get_elem?-modify_self k f [] e = cc
  get_elem?-modify_self zero f (x ∷ calls) e = ap (λ y. some (f y)) (some_eq e)
  get_elem?-modify_self (suc k) f (x ∷ calls) e = get_elem?-modify_self k f calls e

  pub get_elem?-modify_ne :
      (k j : ℕ) (f : Call V → Call V) (calls : List (Call V))
      → j ≢ k
      → get_elem? (modify k f calls) j ≡ get_elem? calls j
  unfolding modify
  get_elem?-modify_ne k j f [] n = refl
  get_elem?-modify_ne zero zero f (x ∷ calls) n = absurd (n refl)
  get_elem?-modify_ne zero (suc j) f (x ∷ calls) n = refl
  get_elem?-modify_ne (suc k) zero f (x ∷ calls) n = refl
  get_elem?-modify_ne (suc k) (suc j) f (x ∷ calls) n =
      get_elem?-modify_ne k j f calls (λ e. n (ap suc e))

  pub Each-new :
      (P : ℕ → Call V → Type 0) (calls : List (Call V)) (x : Call V)
      → Each P calls
      → P (length calls) x
      → Each P (calls ++ (x ∷ []))
  Each-new P [] x h p zero c e = subst (P 0) (some_eq e) p
  Each-new P [] x h p (suc i) c e = cc
  Each-new P (y ∷ calls) x h p zero c e = h 0 c e
  Each-new P (y ∷ calls) x h p (suc i) c e =
      Each-new (λ j. P (suc j)) calls x (λ j. h (suc j)) p i c e

  -- What the calls of done and the writes to a call keep.
  pub record Wakes (f : Call V → Call V) : Type 0 where
    pub room : (c : Call V) → 0 < c.capacity → 0 < (f c).capacity
    pub wakes : (c : Call V) → 0 < c.capacity → IsSignalled (f c)

  pub call_done-Wakes : Wakes call_done
  unfolding call_done
  call_done-Wakes = record { room = λ c h. ground arith; wakes = λ c h. ground arith }

  pub fail_call-Wakes : (e : Error) → Wakes (fail_call e)
  unfolding fail_call
  fail_call-Wakes e = record { room = λ c h. ground arith; wakes = λ c h. ground arith }

  abbrev SameDone : Call V → Call V → Type 0
  SameDone c d = (d.capacity ≡ c.capacity) × (d.buffered ≡ c.buffered) × (d.received ≡ c.received)

  decode_reply-SameDone :
      (codec : Option (Codec V)) (e : Option Bytes) (b : Bytes) (c : Call V)
      → SameDone c (decode_reply codec e b c).0
  unfolding decode_reply
  decode_reply-SameDone none e b c = (refl, refl, refl)
  decode_reply-SameDone (some codec) e b c = ground arith

  receive_reply-SameDone :
      (env : Env V) (res : Message) (c : Call V) → SameDone c (receive_reply env res c).0
  unfolding receive_reply
  receive_reply-SameDone env res c = ground arith

  pub answer_call-Wakes : (env : Env V) (res : Message) → Wakes (λ c. (answer_call env res c).0)
  unfolding answer_call
  answer_call-Wakes env res = record {
    room = λ c h. ground (arith, receive_reply-SameDone env res c);
    wakes = λ c h. ground (arith, receive_reply-SameDone env res c);
  }

  pub answer_at-modify :
      (env : Env V) (res : Message) (i : ℕ) (calls : List (Call V))
      → (answer_at env res i calls).0 ≡ modify i (λ c. (answer_call env res c).0) calls
  unfolding answer_at modify
  answer_at-modify env res i [] = refl
  answer_at-modify env res zero (c ∷ calls) = refl
  answer_at-modify env res (suc i) (c ∷ calls) = ap (◌∷◌ c) (answer_at-modify env res i calls)
