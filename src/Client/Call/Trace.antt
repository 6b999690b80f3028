-- ===== src/Client/Call/Trace.antt =====
-- The events of one connection of client/client.go, one after the other.
pub mod Heap
pub mod Accounted
pub mod Ends
pub mod Answer
pub mod Own
pub mod Board
pub mod Settled
use frpc.Base.{ℕ, List, [], ◌∷◌, Option}
use frpc.Protocol.Message.{Message}
use frpc.Client.Call.{Env, Error, Call, Client, receive_call, on_call}
use frpc.Client.Call.Send.{go_call}
use frpc.Client.Call.Response.{Context, handle_message, terminate, close, cancel}

-- A call of Go, an answer that arrives, the end of the loop of handleResponse, close, a caller whose
-- context is done, and a caller that takes a value from Done.
pub data Event (V : Type 0) : Type 0 where
  goes : Message → Option Error → Call V → Event V
  arrives : Message → Event V
  ends : Error → Event V
  closes : Event V
  cancels : Context → ℕ → Option ℕ → Error → Event V
  takes : ℕ → Event V

module _ {V : Type 0} (env : Env V) where
  pub step : Client V → Event V → Client V
  unfolding on_call
  step c (goes m failure call) = go_call env m failure call c
  step c (arrives res) = (handle_message env res c).0
  step c (ends e) = terminate e c
  step c closes = (close c).0
  step c (cancels ctx p sent e) = cancel ctx p sent e c
  step c (takes i) = on_call i receive_call c

  pub run : Client V → List (Event V) → Client V
  run c [] = c
  run c (e ∷ es) = run (step c e) es
