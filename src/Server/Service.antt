-- ===== src/Server/Service.antt =====
-- Registering a service and calling a method of it (server/service.go). What reflection tells of a
-- type is a record; what a method of the user does is a function.
pub mod Suitable
use frpc.Base.{
  ℕ, ◌+◌, Bool, true, false, not, ◌&&◌, ◌||◌, List, [], ◌∷◌, ◌++◌, Option, none, some, ◌==◌,
  if◌then◌else◌, length, get_elem?,
}
use frpc.Base.Bytes.{Bytes, text, eq}
use frpc.Base.Dict.{Dict, lookup, insert}

-- A reflect.Type: how many pointers stand in front of the base type, and the name and the package
-- path of the base type. `is_context` and `is_error` compare it with context.Context and error.
pub record GoType : Type 0 where
  pub pointers : ℕ
  pub name : Bytes
  pub pkg_path : Bytes
  pub exported : Bool
  pub is_context : Bool
  pub is_error : Bool

-- How a call of the user's function ends: with its reply and its error, or with a panic.
pub data Outcome (V : Type 0) : Type 0 where
  returned : V → Option Bytes → Outcome V
  panicked : Bytes → Outcome V

-- A reflect.Method. `ins` and `outs` are the types of the arguments, the receiver first, and of the
-- results; `new_arg` and `new_reply` are what reflect.New gives; `function` sets the metadata of the
-- answer, too.
pub record Method (V : Type 0) : Type 0 where
  pub name : Bytes
  pub pkg_path : Bytes
  pub ins : List GoType
  pub outs : List GoType
  pub new_arg : V
  pub new_reply : V
  pub function : V → V → Outcome V × Dict Bytes

pub record MethodType (V : Type 0) : Type 0 where
  pub method : Method V
  pub num_calls : ℕ

pub record Service (V : Type 0) : Type 0 where
  pub name : Bytes
  pub method : Dict (MethodType V)

-- t.PkgPath() is empty, or the name is exported, behind all pointers.
unfoldable pub is_exported_or_builtin : GoType → Bool
is_exported_or_builtin t = t.exported || eq t.pkg_path []

unfoldable pub is_context_at : List GoType → ℕ → Bool
is_context_at ts i = elim (get_elem? ts i) [ none ↦ false | some t ↦ t.is_context ]

unfoldable pub is_argument_at : List GoType → ℕ → Bool
unfolding is_exported_or_builtin
is_argument_at ts i = elim (get_elem? ts i) [ none ↦ false | some t ↦ is_exported_or_builtin t ]

unfoldable pub is_reply_at : List GoType → ℕ → Bool
unfolding is_exported_or_builtin
is_reply_at ts i = elim (get_elem? ts i) [
  | none ↦ false
  | some t ↦ not (t.pointers == 0) && is_exported_or_builtin t
]

unfoldable pub is_error_at : List GoType → ℕ → Bool
is_error_at ts i = elim (get_elem? ts i) [ none ↦ false | some t ↦ t.is_error ]

module _ {V : Type 0} where
  -- The tests of suitableMethods, in their order.
  unfoldable pub is_suitable : Method V → Bool
  unfolding is_context_at is_argument_at is_reply_at is_error_at
  is_suitable m =
      eq m.pkg_path []
      && (length m.ins == 4
          && (is_context_at m.ins 1
              && (is_argument_at m.ins 2
                  && (is_reply_at m.ins 3 && (length m.outs == 1 && is_error_at m.outs 0)))))

  -- The loop of suitableMethods with the map so far.
  unfoldable pub suitable_loop : List (Method V) → Dict (MethodType V) → Dict (MethodType V)
  unfolding is_suitable
  suitable_loop [] methods = methods
  suitable_loop (m ∷ ms) methods = suitable_loop ms (
      if is_suitable m
      then insert m.name (record { method = m; num_calls = 0 }) methods
      else methods)

  unfoldable pub suitable_methods : List (Method V) → Dict (MethodType V)
  unfolding suitable_loop
  suitable_methods ms = suitable_loop ms []

  unfoldable pub no_methods : Dict (MethodType V) → Bool
  no_methods [] = true
  no_methods (m ∷ ms) = false

  -- register with useName: typ.String(), the name given, the type's methods, and the map of services.
  unfoldable pub register :
      Bytes → Bytes → List (Method V) → Dict (Service V) → Option Bytes × Dict (Service V)
  unfolding suitable_methods no_methods
  register typ name ms services =
      if eq name []
      then (some (text "frpc.Register: no service name for type " ++ typ), services)
      else let methods = suitable_methods ms in
        if no_methods methods
        then (
          some (
              text "frpc.Register: type "
              ++ (name ++ text " has no exported methods of suitable type")),
          services,
        )
        else (none, insert name (record { name = name; method = methods }) services)

  -- service.call: a panic of the method becomes an error; the reply is then not used.
  unfoldable pub outcome : Outcome V → V × Option Bytes → V × Option Bytes
  outcome (returned v e) old = (v, e)
  outcome (panicked p) old = (old.0, some (text "internal error: " ++ p))

  unfoldable pub call : MethodType V → V → V → (V × Option Bytes) × Dict Bytes
  unfolding outcome
  call m argv replyv =
      let (end, meta) = m.method.function argv replyv in (outcome end (replyv, none), meta)

  -- mtype.numCalls++, for the method of a service in the map.
  unfoldable pub count_call : Bytes → Bytes → Dict (Service V) → Dict (Service V)
  count_call s m services = elim (lookup s services) [
    | none ↦ services
    | some service ↦ elim (lookup m service.method) [
      | none ↦ services
      | some t ↦
          insert s
            (record service {
              method = insert m (record t { num_calls = t.num_calls + 1 }) service.method;
            })
            services
    ]
  ]
