-- ===== src/Rpc/Delivery.antt =====
-- `Send` and `OnMessage` of rpc/protobuf/protobuf_codec.cc on the connections of net/tcpconn.cc: from
-- a message at one end to the callback at the other.
pub mod EndToEnd
mod Tests
use jnet.Base.{ℕ, Bool, true, false, Option, none, some, List, [], ◌∷◌}
use jnet.Buffer.{new}
use jnet.Net.TcpConn.{
  TcpConn, WriteResult, send_buffer, ReadResult, Called, read_called, cancel_called, state_called,
  handle_read,
}
use jnet.Rpc.Codec.{fill_empty_buffer, on_message}

module _ {M : Type 0} (serialize : M → List ℕ) where
  -- `Send(conn, message)`.
  unfoldable pub send : M → List WriteResult → TcpConn → Option TcpConn
  unfolding fill_empty_buffer send_buffer
  send m script c = elim (fill_empty_buffer serialize m new) [
    | none ↦ none
    | some buf ↦ elim (send_buffer script c buf) [ none ↦ none | some (d, left) ↦ some d ]
  ]

module _ {M : Type 0} (parse : List ℕ → M) where
  -- `OnMessage(conn)`: the message that is handed over, if any.
  unfoldable pub receive : TcpConn → Option (List M × TcpConn)
  unfolding on_message
  receive c = elim (on_message parse c.input) [
    | none ↦ none
    | some (none, input) ↦ some ([], record c { input = input })
    | some (some m, input) ↦ some (m ∷ [], record c { input = input })
  ]

  -- The callbacks of the connection, of which the read callback is `OnMessage`.
  abbrev pub run_calls : List Called → TcpConn → Option (List M × TcpConn)
  run_calls (read_called ∷ calls) c = receive c
  run_calls (cancel_called ∷ calls) c = run_calls calls c
  run_calls (state_called ∷ calls) c = some ([], c)
  run_calls [] c = some ([], c)

  -- One event of the socket; `writable` matters in a handshake only.
  unfoldable pub read_event : Bool → List ReadResult → TcpConn → Option (List M × TcpConn)
  unfolding handle_read
  read_event writable script c = elim (handle_read writable script c) [
    | none ↦ none
    | some (d, calls) ↦ run_calls calls d
  ]
