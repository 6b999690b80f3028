-- ===== src/Server/Listener/Lifecycle.antt =====
-- A server of server/server.go from its first connection to Close: the loop of serveListener, the
-- connections that end in serveConn, and Close, in any order.
use frpc.Base.{
  ℕ, ◌≡◌, refl, ◌⊎◌, inl, inr, Bool, true, false, List, [], ◌∷◌, ◌++◌, Option, none, ◌==◌, arith,
  if◌then◌else◌, Bool-cases,
}
use mathlib.Core.List.{Memᴰ}
use frpc.Base.Members.{Memᴰ-append}
use frpc.Base.Bytes.{Bytes}
use frpc.Server.Listener.{
  Accept, connects, temporary, permanent, Stop, Listening, get_done_chan, accept_one, close,
}

-- delete(server.activeConn, conn)
unfoldable pub forget : ℕ → List ℕ → List ℕ
forget conn [] = []
forget conn (c ∷ cs) = let rest = forget conn cs in if c == conn then rest else c ∷ rest

-- The deferred function of serveConn.
unfoldable pub end_conn : ℕ → Listening → Listening
unfolding forget
end_conn conn l = record l { active = forget conn l.active; closed = conn ∷ l.closed }

-- The server, and how the loop of serveListener has ended.
abbrev pub Life : Type 0
Life = Listening × Option Stop

-- What may happen next: the loop takes what Accept gives, a connection that is served ends, or Close
-- is called.
pub data Step : Life → Life → Type 0 where
  accepts : (a : Accept) (l : Listening) → Step (l, none) ((accept_one a l).1, (accept_one a l).0)
  ends :
      (conn : ℕ) (l : Listening) (s : Option Stop)
      → Memᴰ conn l.served
      → Step (l, s) (end_conn conn l, s)
  closes :
      (ln : Option (Option Bytes)) (l : Listening) (s : Option Stop)
      → Step (l, s) ((close ln l).1, s)

pub data Reaches (x : Life) : Life → Type 0 where
  here : Reaches x x
  later : (y z : Life) → Reaches x y → Step y z → Reaches x z

-- No connection is lost sight of.
pub record Accounted (l : Listening) : Type 0 where
  pub served : (c : ℕ) → Memᴰ c l.served → Memᴰ c l.active ⊎ Memᴰ c l.closed
  pub active : (c : ℕ) → Memᴰ c l.active → Memᴰ c l.served ⊎ Memᴰ c l.closed

forget-cases : (conn c : ℕ) (cs : List ℕ) → Memᴰ c cs → (c ≡ conn) ⊎ Memᴰ c (forget conn cs)
unfolding forget
forget-cases conn c [] h = elim h [ ]
forget-cases conn c (x ∷ cs) (Memᴰ.head e) = elim (Bool-cases (x == conn)) [
  | inl same ↦ inl (ground (arith, e, same))
  | inr other ↦ inr (rw (other, forget) (Memᴰ.head e))
]
forget-cases conn c (x ∷ cs) (Memᴰ.tail h) = elim (forget-cases conn c cs h) [
  | inl gone ↦ inl gone
  | inr kept ↦ elim (Bool-cases (x == conn)) [
    | inl same ↦ inr (rw (same, forget) kept)
    | inr other ↦ inr (rw (other, forget) (Memᴰ.tail kept))
  ]
]

forget-Memᴰ : (conn c : ℕ) (cs : List ℕ) → Memᴰ c (forget conn cs) → Memᴰ c cs
unfolding forget
forget-Memᴰ conn c [] h = h
forget-Memᴰ conn c (x ∷ cs) h = elim (Bool-cases (x == conn)) [
  | inl same ↦ Memᴰ.tail (forget-Memᴰ conn c cs (rw (same, forget) at h))
  | inr other ↦ kept (rw (other, forget) at h) (λ k. forget-Memᴰ conn c cs k)
]
  where
    kept : Memᴰ c (x ∷ forget conn cs) → (Memᴰ c (forget conn cs) → Memᴰ c cs) → Memᴰ c (x ∷ cs)
    kept (Memᴰ.head e) old = Memᴰ.head e
    kept (Memᴰ.tail k) old = Memᴰ.tail (old k)

Memᴰ-right : (c : ℕ) (xs ys : List ℕ) → Memᴰ c ys → Memᴰ c (xs ++ ys)
Memᴰ-right c [] ys h = h
Memᴰ-right c (x ∷ xs) ys h = Memᴰ.tail (Memᴰ-right c xs ys h)

-- One more connection, in two lists.
both :
    (conn c : ℕ) (xs ys zs : List ℕ)
    → ((k : ℕ) → Memᴰ k xs → Memᴰ k ys ⊎ Memᴰ k zs)
    → Memᴰ c (conn ∷ xs)
    → Memᴰ c (conn ∷ ys) ⊎ Memᴰ c zs
both conn c xs ys zs old (Memᴰ.head e) = inl (Memᴰ.head e)
both conn c xs ys zs old (Memᴰ.tail h) = elim (old c h) [
  | inl k ↦ inl (Memᴰ.tail k)
  | inr k ↦ inr k
]

connects-Accounted :
    (conn : ℕ) (admitted : Bool) (l : Listening)
    → Accounted l
    → Accounted (accept_one (connects conn admitted) l).1
unfolding accept_one
connects-Accounted conn true l h = record {
  served = λ c. both conn c l.served l.active l.closed h.served;
  active = λ c. both conn c l.active l.served l.closed h.active;
}
connects-Accounted conn false l h = record {
  served = λ c m. elim (h.served c m) [ inl k ↦ inl (Memᴰ.tail k) | inr k ↦ inr (Memᴰ.tail k) ];
  active = λ c m. refused c m (h.active c);
}
  where
    refused :
        (c : ℕ)
        → Memᴰ c (conn ∷ l.active)
        → (Memᴰ c l.active → Memᴰ c l.served ⊎ Memᴰ c l.closed)
        → Memᴰ c l.served ⊎ Memᴰ c (conn ∷ l.closed)
    refused c (Memᴰ.head e) old = inr (Memᴰ.head e)
    refused c (Memᴰ.tail k) old = elim (old k) [ inl m ↦ inl m | inr m ↦ inr (Memᴰ.tail m) ]

accept_one-Accounted : (a : Accept) (l : Listening) → Accounted l → Accounted (accept_one a l).1
unfolding accept_one
accept_one-Accounted (connects conn admitted) l h = connects-Accounted conn admitted l h
accept_one-Accounted temporary l h = elim (Bool-cases (get_done_chan l.done_chan).0) [
  | inl e ↦ rw e (record { served = h.served; active = h.active })
  | inr e ↦ rw e (record { served = h.served; active = h.active })
]
accept_one-Accounted (permanent x) l h = record { served = h.served; active = h.active }

end_conn-Accounted : (conn : ℕ) (l : Listening) → Accounted l → Accounted (end_conn conn l)
unfolding end_conn
end_conn-Accounted conn l h = record {
  served = λ c m. elim (h.served c m) [
    | inl k ↦ elim (forget-cases conn c l.active k) [
      | inl gone ↦ inr (Memᴰ.head gone)
      | inr kept ↦ inl kept
    ]
    | inr k ↦ inr (Memᴰ.tail k)
  ];
  active = λ c m. elim (h.active c (forget-Memᴰ conn c l.active m)) [
    | inl k ↦ inl k
    | inr k ↦ inr (Memᴰ.tail k)
  ];
}

close-closed :
    (ln : Option (Option Bytes)) (l : Listening) (c : ℕ)
    → Accounted l
    → Memᴰ c l.served
    → Memᴰ c (close ln l).1.closed
unfolding close
close-closed ln l c h m = elim (h.served c m) [
  | inl k ↦ Memᴰ-append c l.active l.closed k
  | inr k ↦ Memᴰ-right c l.active l.closed k
]

step-Accounted : (x y : Life) → Step x y → Accounted x.0 → Accounted y.0
unfolding close
step-Accounted x y (accepts a l) h = accept_one-Accounted a l h
step-Accounted x y (ends conn l s m) h = end_conn-Accounted conn l h
step-Accounted x y (closes ln l s) h = record {
  served = λ c m. inr (close-closed ln l c h m);
  active = λ c m. elim m [ ];
}

Reaches-Accounted : (x y : Life) → Accounted x.0 → Reaches x y → Accounted y.0
Reaches-Accounted x y h here = h
Reaches-Accounted x y h (later m n r s) = step-Accounted m y s (Reaches-Accounted x m h r)

-- A server that has not accepted anything.
abbrev pub blank : Listening
blank = record {
  temp_delay = 0;
  active = [];
  served = [];
  closed = [];
  slept = [];
  done_chan = none;
}

-- Whatever connections a new server accepts or refuses, whichever of them end and whenever Close
-- is called, every connection that was served stands in activeConn or has been closed, every
-- connection in activeConn is served or has been closed, and after a further Close every
-- connection that was served until then has been closed and activeConn is empty.
pub Reaches-close :
    (x : Life) (ln : Option (Option Bytes)) (c : ℕ)
    → Reaches (blank, none) x
    → (Memᴰ c x.0.served → Memᴰ c x.0.active ⊎ Memᴰ c x.0.closed)
      × (Memᴰ c x.0.active → Memᴰ c x.0.served ⊎ Memᴰ c x.0.closed)
      × (Memᴰ c x.0.served → Memᴰ c (close ln x.0).1.closed)
      × ((close ln x.0).1.active ≡ [])
unfolding close
Reaches-close x ln c r =
    let h =
      Reaches-Accounted (blank, none) x
        (record { served = λ c m. elim m [ ]; active = λ c m. elim m [ ] }) r in
    (h.served c, h.active c, (λ m. close-closed ln x.0 c h m), refl)
