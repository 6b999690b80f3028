-- ===== src/Server/Service/Suitable.antt =====
-- Which methods stand in the services of server/service.go.
use frpc.Base.{
  ◌⊎◌, ◌<◌, ◌&&◌, ◌==◌, Bool, arith, length, some_injective, ◌≡◌, refl, sym, subst, ◌∙◌, true, List,
  [], ◌∷◌, some, inl, inr, Bool-cases, Option-cases,
}
use frpc.Base.Bytes.{Bytes, eq, eq_iff}
use frpc.Base.Dict.{Dict, lookup, insert, lookup-insert}
use frpc.Server.Service.{
  GoType, Method, MethodType, Service, is_exported_or_builtin, is_context_at, is_argument_at,
  is_reply_at, is_error_at, is_suitable, suitable_loop, suitable_methods, no_methods, register,
  count_call,
}

-- An entry that holds of its value is kept by an insertion of another such value.
insert_keeps :
    {T : Type 0} (P : Bytes → T → Type 0) (k : Bytes) (v : T) (d : Dict T)
    → P k v
    → ((n : Bytes) (t : T) → lookup n d ≡ some t → P n t)
    → (n : Bytes) (t : T) → lookup n (insert k v d) ≡ some t
    → P n t
insert_keeps P k v d p h n t e = elim (Bool-cases (eq k n)) [
  | inl same ↦
      subst (λ x. P n x) (some_injective (inserted same))
        (subst (λ x. P x v) ((eq_iff k n).0 same) p)
  | inr other ↦ h n t (sym (rw other at (lookup-insert k n v d)) ∙ e)
]
  where
    inserted : eq k n ≡ true → some v ≡ some t
    inserted same = sym (rw same at (lookup-insert k n v d)) ∙ e

-- reflect says that the type is exported or built in, behind all pointers.
abbrev pub IsVisible : GoType → Type 0
IsVisible t = (t.exported ≡ true) ⊎ (t.pkg_path ≡ [])

-- The signature of the documentation: an exported method with a receiver, a context.Context, the
-- arguments, and a pointer to the reply, which returns just an error.
abbrev pub HasSignature : {V : Type 0} → Method V → Type 0
HasSignature m =
    (m.pkg_path ≡ [])
    × ((receiver : GoType) × (context : GoType) × (args : GoType) × (reply : GoType) × (m.ins
          ≡ receiver ∷ context ∷ args ∷ reply ∷ [])
        × (context.is_context ≡ true)
        × IsVisible args
        × (0 < reply.pointers)
        × IsVisible reply)
    × ((result : GoType) × (m.outs ≡ result ∷ []) × (result.is_error ≡ true))

is_exported_or_builtin-IsVisible : (t : GoType) → is_exported_or_builtin t ≡ true → IsVisible t
unfolding is_exported_or_builtin
is_exported_or_builtin-IsVisible t e = elim (Bool-cases t.exported) [
  | inl x ↦ inl x
  | inr x ↦ inr ((eq_iff t.pkg_path []).0 (rw x at e))
]

four_types :
    (ts : List GoType)
    → length ts ≡ 4
    → is_context_at ts 1 ≡ true
    → is_argument_at ts 2 ≡ true
    → is_reply_at ts 3 ≡ true
    → (receiver : GoType) × (context : GoType) × (args : GoType) × (reply : GoType) × (ts
        ≡ receiver ∷ context ∷ args ∷ reply ∷ [])
      × (context.is_context ≡ true)
      × IsVisible args
      × (0 < reply.pointers)
      × IsVisible reply
unfolding is_context_at is_argument_at is_reply_at
four_types [] n c a r = absurd (omega arith)
four_types (t ∷ []) n c a r = absurd (omega arith)
four_types (t ∷ u ∷ []) n c a r = absurd (omega arith)
four_types (t ∷ u ∷ v ∷ []) n c a r = absurd (omega arith)
four_types (t ∷ u ∷ v ∷ w ∷ x ∷ ts) n c a r = absurd (omega arith)
four_types (t ∷ u ∷ v ∷ w ∷ []) n c a r = (
  t,
  u,
  v,
  w,
  refl,
  c,
  is_exported_or_builtin-IsVisible v a,
  ground (arith, r),
  is_exported_or_builtin-IsVisible w (ground (arith, r)),
)

one_type :
    (ts : List GoType)
    → length ts ≡ 1
    → is_error_at ts 0 ≡ true
    → (result : GoType) × (ts ≡ result ∷ []) × (result.is_error ≡ true)
unfolding is_error_at
one_type [] n e = absurd (omega arith)
one_type (t ∷ []) n e = (t, refl, e)
one_type (t ∷ u ∷ ts) n e = absurd (omega arith)

both : (a b : Bool) → (a && b) ≡ true → (a ≡ true) × (b ≡ true)
both a b e = ground arith

-- What suitableMethods lets through has the signature.
is_suitable-HasSignature : {V : Type 0} (m : Method V) → is_suitable m ≡ true → HasSignature m
unfolding is_suitable
is_suitable-HasSignature m e =
    let (exported, e1) = both _ _ e in
    let (four, e2) = both (length m.ins == 4) _ e1 in
    let (context, e3) = both _ _ e2 in
    let (args, e4) = both _ _ e3 in
    let (reply, e5) = both _ _ e4 in
    let (one, error) = both (length m.outs == 1) _ e5 in
    (
      (eq_iff m.pkg_path []).0 exported,
      four_types m.ins (ground (arith, four)) context args reply,
      one_type m.outs (ground (arith, one)) error,
    )

module _ {V : Type 0} where
  -- The method has the signature that RPC asks for, and stands under its own name.
  abbrev pub Suits : Bytes → MethodType V → Type 0
  Suits n t = HasSignature t.method × (t.method.name ≡ n)

  abbrev pub AllSuit : Dict (MethodType V) → Type 0
  AllSuit methods = (n : Bytes) (t : MethodType V) → lookup n methods ≡ some t → Suits n t

  abbrev pub WellTyped : Dict (Service V) → Type 0
  WellTyped services =
      (s : Bytes) (service : Service V) → lookup s services ≡ some service → AllSuit service.method

  suitable_loop-AllSuit :
      (ms : List (Method V)) (methods : Dict (MethodType V))
      → AllSuit methods
      → AllSuit (suitable_loop ms methods)
  unfolding suitable_loop
  suitable_loop-AllSuit [] methods h = h
  suitable_loop-AllSuit (m ∷ ms) methods h = elim (Bool-cases (is_suitable m)) [
    | inl e ↦
        rw (e, suitable_loop)
          (suitable_loop-AllSuit ms _ (
            insert_keeps Suits m.name (record { method = m; num_calls = 0 }) methods
              (is_suitable-HasSignature m e, refl) h))
    | inr e ↦ rw (e, suitable_loop) (suitable_loop-AllSuit ms methods h)
  ]

  -- Registering enters only suitable methods, whatever methods the type has.
  pub register-WellTyped :
      (typ name : Bytes) (ms : List (Method V)) (services : Dict (Service V))
      → WellTyped services
      → WellTyped (register typ name ms services).1
  unfolding register suitable_methods
  register-WellTyped typ name ms services h = elim (Bool-cases (eq name [])) [
    | inl e ↦ rw e h
    | inr e ↦ rw e (elim (Bool-cases (no_methods (suitable_methods ms))) [
      | inl n ↦ rw n h
      | inr n ↦ rw n (
          insert_keeps (λ s service. AllSuit service.method) name _ services
            (suitable_loop-AllSuit ms [] (λ k t x. unfold lookup in cc)) h)
    ])
  ]

  pub count_call-WellTyped :
      (s m : Bytes) (services : Dict (Service V))
      → WellTyped services
      → WellTyped (count_call s m services)
  unfolding count_call
  count_call-WellTyped s m services h = elim (Option-cases (lookup s services)) [
    | inl e ↦ rw (e, count_call) h
    | inr (service, e) ↦ elim (Option-cases (lookup m service.method)) [
      | inl f ↦ rw (e, f, count_call) h
      | inr (t, f) ↦
          rw (e, f, count_call)
            (insert_keeps (λ n x. AllSuit x.method) s _ services
              (insert_keeps Suits m _ service.method (h s service e m t f) (h s service e)) h)
    ]
  ]
