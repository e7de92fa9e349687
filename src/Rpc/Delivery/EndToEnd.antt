-- ===== src/Rpc/Delivery/EndToEnd.antt =====
-- A message through `Send` at one end of a socket and `OnMessage` at the other.
use jnet.Base.{
  ℕ, ◌/◌, ◌%◌, ◌^◌, drop, ◌≤◌, ◌<◌, ◌≡◌, sym, ap, ◌∙◌, Bool, true, some, List, [], ◌∷◌, ◌++◌,
  append-nil, arith, length, length-append,
}
use jnet.Buffer.{Buffer, contents, new, make_space, get_space}
use jnet.Buffer.Layout.{IsValid, get_size_lem}
use jnet.Buffer.Space.{make_space_lem}
use jnet.Net.Channel.{Channel}
use jnet.Net.TcpConn.{
  TcpConn, connected, WriteResult, Sent, i_send, send_buffer, ReadResult, got, read_eagain,
  read_called, read_loop, read_calls, handle_read,
}
use jnet.Net.TcpConn.Stream.{stream, IsLive, Roomy}
use jnet.Net.TcpConn.Live.{send_buffer-Delivers}
use jnet.Net.TcpConn.Reading.{read_loop-got, read_loop-eagain}
use jnet.Rpc.Codec.{frame, fill_empty_buffer, on_message}
use jnet.Rpc.Codec.Frames.{on_message-frame}
use jnet.Rpc.Codec.Sends.{fill_empty_buffer-frame}
use jnet.Rpc.Delivery.{send, receive, read_event}

module _ {M : Type 0} (serialize : M → List ℕ) where
  send-done :
      (m : M) (script : List WriteResult) (c d : TcpConn) (buf left : Buffer)
      → fill_empty_buffer serialize m new ≡ some buf
      → send_buffer script c buf ≡ some (d, left)
      → send serialize m script c ≡ some d
  unfolding send
  send-done m script c d buf left filled sent = ground (arith, filled, sent)

  -- `Send` of a message of at most 4092 bytes on an open connection whose waiting bytes have the
  -- channel waiting for the socket, with kernel answers that let the loop of `ISend` end, and a valid
  -- output buffer with room: exactly the frame of the message comes behind all that was sent before,
  -- and the bytes that wait still have the channel waiting for the socket.
  pub send-frame :
      (m : M) (script : List WriteResult) (c : TcpConn) (ch : Channel) (r : Sent)
      → length (serialize m) ≤ 4092
      → c.channel ≡ some ch
      → i_send script ch (frame serialize m) ≡ some r
      → IsLive c
      → IsValid c.output
      → c.output.cap ≤ 2 ^ 61
      → Roomy c.output (length (frame serialize m))
      → (d : TcpConn) × (send serialize m script c ≡ some d)
        × (stream d ≡ stream c ++ frame serialize m)
        × IsValid d.output
        × IsLive d
  send-frame m script c ch r short open_ch sent live v small room =
      let (buf, filled, bytes, valid, cap) = fill_empty_buffer-frame serialize m short in
      let (d, left, done, all, gone, dv, dl) =
        send_buffer-Delivers script c ch r buf open_ch (ap (i_send script ch) bytes ∙ sent) live v
          valid small (omega (arith, cap)) (λ n le. room n (omega (arith, le, ap length bytes))) in
      (d, send-done m script c d buf left filled done, all ∙ ap (λ b. stream c ++ b) bytes, dv, dl)

-- The bytes that come in one event, and what the handler asks of the connection.
pub record Reads (c : TcpConn) (x : ℕ) (xs : List ℕ) : Type 0 where
  pub state : c.state ≡ connected
  pub callback : c.read_cb ≡ true
  pub valid : IsValid c.input
  pub small : c.input.cap ≤ 2 ^ 61
  pub grown : (make_space c.input).cap ≤ 2 ^ 61
  pub suggests : 1 ≤ c.input.exp
  pub fits : length (x ∷ xs) ≤ get_space (make_space c.input)

-- The input buffer when the read callback runs.
abbrev Filled : TcpConn → ℕ → List ℕ → Type 0
Filled c x xs =
    (input : Buffer) × (read_loop (got (x ∷ xs) ∷ read_eagain ∷ []) c
      ≡ some (record c { input = input }, read_calls (record c { input = input })))
    × (contents input ≡ contents c.input ++ (x ∷ xs))
    × IsValid input

read-Filled : (c : TcpConn) (x : ℕ) (xs : List ℕ) → Reads c x xs → Filled c x xs
read-Filled c x xs h =
    let (input, goes, bytes, valid, exp, cap) =
      read_loop-got (read_eagain ∷ []) c x xs h.valid h.small h.suggests h.fits in
    let (same, spaced, _, _) =
      make_space_lem input valid (omega (arith, cap, h.grown)) (omega (arith, exp, h.suggests)) in
    (
      make_space input,
      goes ∙ read_loop-eagain [] (record c { input = input }),
      same ∙ bytes,
      spaced,
    )

read_calls-waiting :
    (c : TcpConn)
    → IsValid c.input
    → c.read_cb ≡ true
    → 0 < length (contents c.input)
    → read_calls c ≡ read_called ∷ []
read_calls-waiting c v cb waits = ground (arith, get_size_lem c.input v, cb)

module _ {M : Type 0} (serialize : M → List ℕ) (parse : List ℕ → M) where
  event-done :
      (writable : Bool) (script : List ReadResult) (c d : TcpConn)
      → c.state ≡ connected
      → read_loop script c ≡ some (d, read_called ∷ [])
      → read_event parse writable script c ≡ receive parse d
  unfolding read_event handle_read
  event-done writable script c d state done = ground (arith, state, done)

  receive-done :
      (c : TcpConn) (m : M) (t : Buffer)
      → on_message parse c.input ≡ some (some m, t)
      → receive parse c ≡ some (m ∷ [], record c { input = t })
  unfolding receive
  receive-done c m t done = ground (arith, done)

  -- One event on a connected connection with a read callback, whose valid input of at most 2 ^ 61
  -- bytes is given some more bytes by a single `read` and then is a whole frame and a rest, where the
  -- parser inverts the serializer: the callback gets the message of this frame and no other, also
  -- when the rest has further frames, which wait for the next event.
  pub read_event-frame :
      (writable : Bool) (c : TcpConn) (x : ℕ) (xs : List ℕ) (m : M) (rest : List ℕ)
      → ((y : M) → parse (serialize y) ≡ y)
      → Reads c x xs
      → length (serialize m) < 2 ^ 31
      → contents c.input ++ (x ∷ xs) ≡ frame serialize m ++ rest
      → (d : TcpConn) × (read_event parse writable (got (x ∷ xs) ∷ read_eagain ∷ []) c
          ≡ some (m ∷ [], d))
        × (contents d.input ≡ rest)
        × IsValid d.input
        × (d.state ≡ connected)
  read_event-frame writable c x xs m rest inverse h short bytes =
      let (input, loop, filled, valid) = read-Filled c x xs h in
      let d = record c { input = input } in
      let (t, taken, left, tv) =
        on_message-frame serialize parse input m rest inverse valid short (filled ∙ bytes) in
      let calls =
        read_calls-waiting d valid h.callback
          (omega (arith, ap length filled, length-append (contents c.input) (x ∷ xs))) in
      (
        record c { input = t },
        event-done writable (got (x ∷ xs) ∷ read_eagain ∷ []) c d h.state
              (loop ∙ ap (λ k. some (d, k)) calls)
            ∙ receive-done d m t taken,
        left,
        tv,
        h.state,
      )

  -- The first byte of a frame, and the others.
  abbrev pub frame_head : M → ℕ
  frame_head m = length (serialize m) / 2 ^ 24 % 256

  abbrev pub frame_tail : M → List ℕ
  frame_tail m = drop 1 (frame serialize m)

  -- A message of at most 4092 bytes is sent with `Send` as in `send-frame`, and a connected peer with
  -- an empty valid input reads a frame of it in one event as in `read_event-frame`: the sender's
  -- stream grows by exactly the bytes that this event brings, and the callback of the peer gets
  -- exactly this message, with nothing left over.
  pub read_event-send :
      (m : M) (script : List WriteResult) (c e : TcpConn) (ch : Channel) (r : Sent)
      (writable : Bool)
      → ((y : M) → parse (serialize y) ≡ y)
      → length (serialize m) ≤ 4092
      → c.channel ≡ some ch
      → i_send script ch (frame serialize m) ≡ some r
      → IsLive c
      → IsValid c.output
      → c.output.cap ≤ 2 ^ 61
      → Roomy c.output (length (frame serialize m))
      → contents e.input ≡ []
      → Reads e (frame_head m) (frame_tail m)
      → (d : TcpConn) × (f : TcpConn) × (send serialize m script c ≡ some d)
        × (stream d ≡ stream c ++ (frame_head m ∷ frame_tail m))
        × (read_event parse writable (got (frame_head m ∷ frame_tail m) ∷ read_eagain ∷ []) e
            ≡ some (m ∷ [], f))
        × (contents f.input ≡ [])
  read_event-send m script c e ch r writable inverse short open_ch sent live v small room empty h =
      let (d, done, all, dv, dl) =
        send-frame serialize m script c ch r short open_ch sent live v small room in
      let (f, event, left, fv, fs) =
        read_event-frame writable e (frame_head m) (frame_tail m) m [] inverse h (omega arith)
          (ap (λ b. b ++ frame serialize m) empty ∙ sym (append-nil (frame serialize m))) in
      (d, f, done, all, event, left)
