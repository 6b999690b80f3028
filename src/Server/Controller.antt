-- ===== src/Server/Controller.antt =====
-- The loops over the controllers in server/server_controller.go.
use frpc.Base.{
  ℕ, ◌≡◌, refl, Bool, true, false, List, [], ◌∷◌, Option, none, some, if◌then◌else◌, Bool-cases,
  inl, inr,
}
use frpc.Base.Bytes.{Bytes}
use frpc.Protocol.Message.{Message}

-- A controller.Controller over a state `S` of its own. A connection is a number.
pub record Controller (S : Type 0) : Type 0 where
  pub register : Bytes → Bytes → S → Option Bytes × S
  pub handle_conn : ℕ → S → (ℕ × Bool) × S
  pub post_request : Message → Option Bytes → S → Option Bytes × S
  pub post_response : Message → Message → Option Bytes → S → Option Bytes × S

-- What HandleConn does: the connection, whether it goes on, and the connections it closed.
pub record Admission (S : Type 0) : Type 0 where
  pub conn : ℕ
  pub admitted : Bool
  pub closed : List ℕ
  pub state : S

module _ {S : Type 0} where
  -- Register asks every controller, and joins the errors.
  unfoldable pub register_all : List (Controller S) → Bytes → Bytes → S → List Bytes × S
  register_all [] name metadata s = ([], s)
  register_all (c ∷ cs) name metadata s =
      let (e, s') = c.register name metadata s in
      let (es, s'') = register_all cs name metadata s' in
      ((elim e as (λ _. List Bytes) [ none ↦ es | some x ↦ x ∷ es ]), s'')

  unfoldable pub handle_conn : List (Controller S) → ℕ → S → Admission S
  handle_conn [] conn s = record { conn = conn; admitted = true; closed = []; state = s }
  handle_conn (c ∷ cs) conn s =
      let ((conn', flag), s') = c.handle_conn conn s in
      let rest = handle_conn cs conn' s' in
      if flag
      then rest
      else record { conn = conn'; admitted = false; closed = conn' ∷ []; state = s' }

  -- PostRequest and PostResponse stop at the first error.
  unfoldable pub post_request : List (Controller S) → Message → Option Bytes → S → Option Bytes × S
  post_request [] req e s = (none, s)
  post_request (c ∷ cs) req e s =
      let (x, s') = c.post_request req e s in
      let rest = post_request cs req e s' in elim x [ none ↦ rest | some y ↦ (some y, s') ]

  unfoldable pub post_response :
      List (Controller S) → Message → Message → Option Bytes → S → Option Bytes × S
  post_response [] req res e s = (none, s)
  post_response (c ∷ cs) req res e s =
      let (x, s') = c.post_response req res e s in
      let rest = post_response cs req res e s' in elim x [ none ↦ rest | some y ↦ (some y, s') ]

  -- The controllers admit in turn, each the connection of the one before; or one of them refuses.
  pub data Judged : List (Controller S) → ℕ → S → Admission S → Type 0 where
    passes :
        (conn : ℕ) (s : S)
        → Judged [] conn s (record { conn = conn; admitted = true; closed = []; state = s })
    admits :
        (c : Controller S) (cs : List (Controller S)) (conn : ℕ) (s : S) (a : Admission S)
        → (c.handle_conn conn s).0.1 ≡ true
        → Judged cs (c.handle_conn conn s).0.0 (c.handle_conn conn s).1 a
        → Judged (c ∷ cs) conn s a
    refuses :
        (c : Controller S) (cs : List (Controller S)) (conn : ℕ) (s : S) (a : Admission S)
        → (c.handle_conn conn s).0.1 ≡ false
        → a.admitted ≡ false
        → a.closed ≡ (c.handle_conn conn s).0.0 ∷ []
        → a.state ≡ (c.handle_conn conn s).1
        → Judged (c ∷ cs) conn s a

  -- HandleConn asks the controllers in turn, each about the connection that the one before gave:
  -- all admit it and nothing is closed, or the first that refuses ends the loop, and just the
  -- connection it gave is closed.
  pub handle_conn-Judged :
      (cs : List (Controller S)) (conn : ℕ) (s : S) → Judged cs conn s (handle_conn cs conn s)
  unfolding handle_conn
  handle_conn-Judged [] conn s = passes conn s
  handle_conn-Judged (c ∷ cs) conn s = elim (Bool-cases (c.handle_conn conn s).0.1) [
    | inl e ↦
        rw (e, handle_conn)
          (admits c cs conn s _ e
            (handle_conn-Judged cs (c.handle_conn conn s).0.0 (c.handle_conn conn s).1))
    | inr e ↦ rw (e, handle_conn) (refuses c cs conn s _ e refl refl refl)
  ]
