-- ===== src/Registry/Watchers.antt =====
-- What the watchers of registry/discovery_etcd.go are sent.
use frpc.Base.{
  ℕ, ◌≡◌, ◌≢◌, refl, sym, ap, ap₂, ◌∙◌, false, List, [], ◌∷◌, ◌++◌, some, inl, inr, Bool-cases,
  arith, ◌==◌, ==_iff, if◌then◌else◌,
}
use frpc.Base.Bytes.{Bytes, text}
use frpc.Registry.{
  Pair, Discovery, behind, trim_prefix, relative, send_all, change, without, remove_watcher,
}

behind-append : (prefix s : Bytes) → behind prefix (prefix ++ s) ≡ some s
unfolding behind
behind-append [] s = refl
behind-append (p ∷ prefix) s = ground (arith, behind-append prefix s)

pub trim_prefix-append : (prefix s : Bytes) → trim_prefix prefix (prefix ++ s) ≡ s
unfolding trim_prefix
trim_prefix-append prefix s = rw (behind-append prefix s, trim_prefix) refl

abbrev pub below : Bytes → List Pair → List Pair
below prefix [] = []
below prefix (e ∷ kv) = record e { key = prefix ++ e.key } ∷ below prefix kv

relative-below : (prefix : Bytes) (kv : List Pair) → relative prefix (below prefix kv) ≡ kv
unfolding relative
relative-below prefix [] = refl
relative-below prefix (e ∷ kv) =
    ap₂ (λ k rest. record e { key = k } ∷ rest) (trim_prefix-append prefix e.key)
      (relative-below prefix kv)

-- What one watcher was sent, the last one first.
abbrev pub inbox : ℕ → List (ℕ × List Pair) → List (List Pair)
inbox ch [] = []
inbox ch ((c, pairs) ∷ sent) = if c == ch then pairs ∷ inbox ch sent else inbox ch sent

-- `pairs` once for each time that the channel stands in the list.
abbrev pub copies : ℕ → List Pair → List ℕ → List (List Pair) → List (List Pair)
copies ch pairs [] old = old
copies ch pairs (c ∷ chans) old = copies ch pairs chans (if c == ch then pairs ∷ old else old)

inbox-send_all :
    (ch : ℕ) (pairs : List Pair) (chans : List ℕ) (sent : List (ℕ × List Pair))
    → inbox ch (send_all pairs chans sent) ≡ copies ch pairs chans (inbox ch sent)
unfolding send_all
inbox-send_all ch pairs [] sent = refl
inbox-send_all ch pairs (c ∷ chans) sent = inbox-send_all ch pairs chans ((c, pairs) ∷ sent)

copies-without :
    (ch : ℕ) (pairs : List Pair) (chans : List ℕ) (old : List (List Pair))
    → copies ch pairs (without ch chans) old ≡ old
unfolding without
copies-without ch pairs [] old = refl
copies-without ch pairs (c ∷ chans) old = elim (Bool-cases (c == ch)) [
  | inl e ↦ rw (e, without) (copies-without ch pairs chans old)
  | inr e ↦ rw (e, without) (skipped e ∙ copies-without ch pairs chans old)
]
  where
    skipped :
        (c == ch) ≡ false
        → copies ch pairs (c ∷ without ch chans) old ≡ copies ch pairs (without ch chans) old
    skipped e = ap (copies ch pairs (without ch chans)) (rw e refl)

copies-without_other :
    (ch gone : ℕ) (pairs : List Pair) (chans : List ℕ) (old : List (List Pair))
    → ch ≢ gone
    → copies ch pairs (without gone chans) old ≡ copies ch pairs chans old
unfolding without
copies-without_other ch gone pairs [] old n = refl
copies-without_other ch gone pairs (c ∷ chans) old n = elim (Bool-cases (c == gone)) [
  | inl e ↦
      rw (e, without)
        (copies-without_other ch gone pairs chans old n
          ∙ ap (copies ch pairs chans) (sym (rw (other ((==_iff c gone).0 e)) refl)))
  | inr e ↦ rw (e, without) (copies-without_other ch gone pairs chans _ n)
]
  where
    other : c ≡ gone → (c == ch) ≡ false
    other e = ground (arith, e, n)

-- After a watcher has been removed, a change that the store reports below the base path becomes
-- the list of servers, with the base path cut off the keys; the removed watcher is sent nothing,
-- and every other one is sent that list once for each time that it is registered.
pub change-inbox :
    (d : Discovery) (gone : ℕ) (kv : List Pair)
    → let prefix = d.base_path ++ text "/" in
      let d' = change (below prefix kv) (remove_watcher gone d) in
      (d'.pairs ≡ kv)
      × (inbox gone d'.sent ≡ inbox gone d.sent)
      × ((ch : ℕ) → ch ≢ gone → inbox ch d'.sent ≡ copies ch kv d.chans (inbox ch d.sent))
unfolding change remove_watcher
change-inbox d gone kv =
    let e = relative-below (d.base_path ++ text "/") kv in
    (
      e,
      inbox-send_all gone _ (without gone d.chans) d.sent
          ∙ copies-without gone _ d.chans (inbox gone d.sent),
      (λ ch n.
          inbox-send_all ch _ (without gone d.chans) d.sent
          ∙ copies-without_other ch gone _ d.chans (inbox ch d.sent) n
          ∙ ap (λ p. copies ch p d.chans (inbox ch d.sent)) e),
    )
