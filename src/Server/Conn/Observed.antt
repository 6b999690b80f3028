-- ===== src/Server/Conn/Observed.antt =====
-- What serveConn of server/server.go shows its controllers: decodeRequest the request or the error in
-- its place, the goroutine of a request the answer.
use frpc.Base.{ℕ, List, none, some, if◌then◌else◌}
use frpc.Base.Bytes.{Bytes, text}
use frpc.Protocol.Header.{is_heartbeat, is_oneway}
use frpc.Protocol.Message.{Message, Decoded, Error, new_message, decode}
use frpc.Server.Controller.{Controller, post_request, post_response}
use frpc.Server.Handle.{Server, Handled, handle_request, add_metadata}

-- The texts of the errors of Decode.
unfoldable pub error_text : Error → Bytes
error_text Error.eof = text "EOF"
error_text Error.unexpected_eof = text "unexpected EOF"
error_text Error.meta_kv_missing = text "wrong metadata lines. some keys or values are missing"
error_text Error.message_too_long = text "message is too long"

-- The answer as PostResponse sees it: with the metadata of the method where it has been written.
unfoldable pub shown : Message → Handled → Message
shown req h =
    if is_oneway req.header
    then h.res
    else record h.res { metadata = add_metadata h.extra h.res.metadata }

module _ {S : Type 0} (cs : List (Controller S)) where
  -- PostRequest behind Decode; a panic of Decode leaves decodeRequest before it.
  unfoldable pub post_decoded : Decoded → S → S
  unfolding error_text
  post_decoded (Decoded.done m rest) t = (post_request cs m none t).1
  post_decoded (Decoded.failed e m rest) t = (post_request cs m (some (error_text e)) t).1
  post_decoded Decoded.panicked t = t
  post_decoded Decoded.out_of_fuel t = t

  unfoldable pub decode_request : ℕ → Bytes → S → Decoded × S
  unfolding post_decoded
  decode_request max_length r t = let d = decode max_length new_message r in (d, post_decoded d t)

  module _ {V : Type 0} where
    -- PostResponse of the goroutine of one request; a heartbeat returns before it.
    unfoldable pub observe_answer : Server V → Message → Message → S → S
    unfolding shown
    observe_answer s c req t =
        let h = handle_request s c req in
        if is_heartbeat req.header then t else (post_response cs req (shown req h) h.failure t).1
