-- ===== src/Selector/Hash.antt =====
-- The jump hash of selector/hash.go and the selector of selector/selector_hash.go. The step in
-- float64 and the text that fmt.Sprintf makes of the arguments are parameters.
pub mod Jump
use frpc.Base.{
  ℕ, zero, suc, ◌+◌, ◌-◌, ◌*◌, ◌/◌, ◌%◌, ◌^◌, bit_and, bit_or, List, [], ◌∷◌, ◌++◌, Option, none,
  some, ltb, ◌==◌, if◌then◌else◌, length, get_elem?,
}
use frpc.Base.Bytes.{Bytes, text}
use frpc.Base.Dict.{Dict}
use frpc.Selector.Plain.{names}

-- The loop of Hash, on fuel: each round moves `j` on. `jump b k` is the integer part of the float64
-- b * (2 ^ 31 / k).
unfoldable pub hash_loop : (ℕ → ℕ → ℕ) → ℕ → ℕ → ℕ → ℕ → ℕ → Option ℕ
hash_loop jump zero buckets key b j = none
hash_loop jump (suc fuel) buckets key b j =
    let key' = (key * 2862933555777941757 + 1) % 2 ^ 64 in
    let rest = hash_loop jump fuel buckets key' j (jump (j + 1) (key' / 2 ^ 33 + 1)) in
    if ltb j buckets then rest else some b

-- Hash; the callers give a length, and the code takes a negative number for 1 as it takes 0.
unfoldable pub hash : (ℕ → ℕ → ℕ) → ℕ → ℕ → Option ℕ
unfolding hash_loop
hash jump key buckets =
    let n = if buckets == 0 then 1 else buckets in hash_loop jump (suc n) n key 0 0

-- FNV-1a of hash/fnv, on 64 bits; the exclusive or of a and b is what `or` has more than `and`.
unfoldable pub hash_from : ℕ → Bytes → ℕ
hash_from h [] = h
hash_from h (b ∷ s) = hash_from ((bit_or h b - bit_and h b) * 1099511628211 % 2 ^ 64) s

unfoldable pub hash_string : Bytes → ℕ
unfolding hash_from
hash_string s = hash_from 14695981039346656037 s

-- The key string: each option behind a slash.
unfoldable pub key_string : List Bytes → Bytes
key_string [] = []
key_string (opt ∷ options) = text "/" ++ opt ++ key_string options

-- The conversion int32(len) is left out: the number of servers is taken to be below 2^31.
unfoldable pub jump_consistent_hash : (ℕ → ℕ → ℕ) → ℕ → List Bytes → Option ℕ
jump_consistent_hash jump len options = hash jump (hash_string (key_string options)) len

-- newHashSelector and UpdateServer.
unfoldable pub hash_servers : Dict Bytes → List Bytes
unfolding names
hash_servers servers = names servers

-- Select; `none` would be the panic of the index. `args` is the text of the arguments.
unfoldable pub hash_select : (ℕ → ℕ → ℕ) → List Bytes → Bytes → Bytes → Bytes → Option Bytes
hash_select jump servers path method args =
    if length servers == 0
    then some []
    else elim (jump_consistent_hash jump (length servers) (path ∷ method ∷ args ∷ [])) [
      | none ↦ none
      | some i ↦ get_elem? servers i
    ]
