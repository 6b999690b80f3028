-- ===== src/Rpc/Metadata.antt =====
-- The metadata that a method adds to the answer of server/server.go.
use frpc.Base.{
  subst, inl, inr, Bool-cases, ◌≡◌, refl, ◌∙◌, false, [], ◌∷◌, Option, none, some, arith,
}
use frpc.Base.Bytes.{Bytes, eq, eq_iff}
use frpc.Base.Dict.{Dict, lookup, insert, lookup-insert, Missing, Distinct}
use frpc.Client.Call.Response.{meta_value}
use frpc.Protocol.Message.RoundTrip.{HasDistinct, carried}
use frpc.Server.Handle.{merge, add_metadata}

pub lookup-merge :
    (k : Bytes) (more meta : Dict Bytes)
    → Missing k more
    → lookup k (merge more meta) ≡ lookup k meta
unfolding merge
lookup-merge k [] meta h = refl
lookup-merge k ((j, v) ∷ more) meta (n, h) =
    lookup-merge k more (insert j v meta) h ∙ lookup-insert j k v meta ∙ rw n refl

Missing-insert :
    (k j : Bytes) (v : Bytes) (m : Dict Bytes)
    → eq j k ≡ false
    → Missing k m
    → Missing k (insert j v m)
unfolding insert
Missing-insert k j v [] n h = (n, tt)
Missing-insert k j v ((i, w) ∷ m) n (a, h) = ground (arith, n, a, Missing-insert k j v m n h, h)

insert-Distinct : (k v : Bytes) (m : Dict Bytes) → Distinct m → Distinct (insert k v m)
unfolding insert
insert-Distinct k v [] d = (tt, tt)
insert-Distinct k v ((i, w) ∷ m) (a, d) = elim (Bool-cases (eq i k)) [
  | inl e ↦ rw e (subst (λ j. Missing j m) ((eq_iff i k).0 e) a, d)
  | inr e ↦ rw e (Missing-insert i k v m (swapped e) a, insert-Distinct k v m d)
]
  where
    swapped : eq i k ≡ false → eq k i ≡ false
    swapped e = ground (arith, e, eq_iff i k, eq_iff k i)

merge-Distinct : (more meta : Dict Bytes) → Distinct meta → Distinct (merge more meta)
unfolding merge
merge-Distinct [] meta d = d
merge-Distinct ((k, v) ∷ more) meta d =
    merge-Distinct more (insert k v meta) (insert-Distinct k v meta d)

add_metadata-HasDistinct :
    (more : Dict Bytes) (o : Option (Dict Bytes))
    → Distinct more
    → HasDistinct o
    → HasDistinct (add_metadata more o)
unfolding add_metadata
add_metadata-HasDistinct [] o d h = h
add_metadata-HasDistinct (e ∷ more) none d h = d
add_metadata-HasDistinct (e ∷ more) (some meta) d h = merge-Distinct (e ∷ more) meta h

carried_found :
    (k v : Bytes) (old : Option (Dict Bytes)) (d : Dict Bytes)
    → lookup k d ≡ some v
    → meta_value k (carried old (some d)) ≡ v
unfolding meta_value
carried_found k v old [] e = absurd (unfold lookup in cc)
carried_found k v old (x ∷ d) e = rw (e, meta_value) refl

-- A key that the method does not set keeps its value, also over the wire.
pub meta_value-add_metadata :
    (k v : Bytes) (more d : Dict Bytes) (old : Option (Dict Bytes))
    → Missing k more
    → lookup k d ≡ some v
    → meta_value k (carried old (add_metadata more (some d))) ≡ v
unfolding add_metadata
meta_value-add_metadata k v [] d old n f = carried_found k v old d f
meta_value-add_metadata k v (e ∷ more) d old n f =
    carried_found k v old (merge (e ∷ more) d) (lookup-merge k (e ∷ more) d n ∙ f)
