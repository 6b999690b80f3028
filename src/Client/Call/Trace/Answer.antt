-- ===== src/Client/Call/Trace/Answer.antt =====
-- Which call an answer reaches (client/client.go).
use frpc.Base.{ℕ, ◌≡◌, ◌≢◌, refl, false, none, some, if◌then◌else◌, get_elem?, ◌==◌}
use frpc.Base.Table.{lookup, lookup-erase}
use frpc.Client.Call.{Call, Client, Env}
use frpc.Client.Call.Response.{answer_call, handle_message, is_server_message}
use frpc.Client.Call.Trace.Heap.{get_elem?-modify_self, get_elem?-modify_ne, answer_at-modify}
use frpc.Protocol.Message.{Message}
use frpc.Protocol.Header.{seq}

module _ {V : Type 0} where
  -- An answer reaches the call that waits under its number, and no other call changes; that number
  -- is taken out of `pending`, the other numbers stay, and so does `seq`. Conditions: the message
  -- is no message of the server itself, and a call waits under its number.
  pub handle_message_answers :
      (env : Env V) (res : Message) (c : Client V) (i : ℕ) (call : Call V)
      → is_server_message res ≡ false
      → lookup (seq res.header) c.pending ≡ some i
      → get_elem? c.calls i ≡ some call
      → let c' = (handle_message env res c).0 in
        (get_elem? c'.calls i ≡ some (answer_call env res call).0)
        × ((j : ℕ) → j ≢ i → get_elem? c'.calls j ≡ get_elem? c.calls j)
        × ((s : ℕ)
            → lookup s c'.pending ≡ (if seq res.header == s then none else lookup s c.pending))
        × (c'.seq ≡ c.seq)
  unfolding handle_message
  handle_message_answers env res c i call e q g =
      rw (e, q, handle_message)
        (rw (answer_at-modify env res i c.calls) (
          get_elem?-modify_self i _ c.calls g,
          (λ j n. get_elem?-modify_ne i j _ c.calls n),
          (λ s. lookup-erase (seq res.header) s c.pending),
          refl,
        ))
