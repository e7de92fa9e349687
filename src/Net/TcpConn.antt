-- ===== src/Net/TcpConn.antt =====
-- net/tcpconn.h and net/tcpconn.cc: one connection. `wire` is what the kernel has taken so far; the
-- answers of the system calls come in as lists, and `none` is a write outside a buffer, an answer
-- against the calls' documentation, or a list that ends before the loop does.
pub mod Writes
pub mod Stream
pub mod Live
pub mod InLoop
pub mod Reading
pub mod States
pub mod Setup
mod Tests
use jnet.Base.{
  ℕ, ◌+◌, ◌-◌, Bool, true, false, not, ◌&&◌, ◌||◌, Option, none, some, List, [], ◌∷◌, ◌++◌, leb,
  ◌==◌, if◌then◌else◌, length, take, drop,
}
use jnet.Buffer
use jnet.Buffer.{
  Buffer, contents, get_size, get_space, is_empty, append, consume, absorb, write_end, add_bytes,
  make_space,
}
use jnet.Net.Channel
use jnet.Net.Channel.{Channel, is_writing, enable_write, disable_write, enable_read}

pub data State : Type 0 where
  invalid hand_shakeing connected closed failed : State

pub record TcpConn : Type 0 where
  pub state : State
  pub input : Buffer
  pub output : Buffer
  pub channel : Option Channel
  pub read_cb : Bool
  pub write_cb : Bool
  pub state_cb : Bool
  pub wire : List ℕ

-- The answers of `write`: a count, an interruption, a full socket, or another error.
pub data WriteResult : Type 0 where
  wrote : ℕ → WriteResult
  write_eintr write_eagain write_error : WriteResult

-- What `ISend` leaves: the count it returns, the bytes that the kernel took, and the channel.
pub record Sent : Type 0 where
  pub sended : ℕ
  pub taken : List ℕ
  pub channel : Channel

abbrev pub nothing_sent : Channel → Sent
nothing_sent ch = record { sended = 0; taken = []; channel = ch }

abbrev pub sent_more : ℕ → List ℕ → Option Sent → Option Sent
sent_more n part none = none
sent_more n part (some r) = some (record r { sended = n + r.sended; taken = part ++ r.taken })

-- `ISend(buf, len)` on the bytes that are left.
unfoldable pub i_send : List WriteResult → Channel → List ℕ → Option Sent
i_send script ch [] = some (nothing_sent ch)
i_send [] ch (x ∷ xs) = none
i_send (wrote n ∷ script) ch (x ∷ xs) =
    let rest = i_send script ch (drop n (x ∷ xs)) in
    if n == 0
    then some (nothing_sent ch)
    else if leb n (length (x ∷ xs))
    then sent_more n (take n (x ∷ xs)) rest
    else none
i_send (write_eintr ∷ script) ch (x ∷ xs) = i_send script ch (x ∷ xs)
i_send (write_eagain ∷ script) ch (x ∷ xs) =
    some (nothing_sent (if not (is_writing ch) then (enable_write ch).0 else ch))
i_send (write_error ∷ script) ch (x ∷ xs) = some (nothing_sent ch)

-- The connection after `ISend`.
abbrev pub after_send : TcpConn → Sent → TcpConn
after_send c r = record c { channel = some r.channel; wire = c.wire ++ r.taken }

-- The rest of the message goes to the output buffer.
unfoldable pub buffer_rest : TcpConn → List ℕ → Option TcpConn
buffer_rest c [] = some c
buffer_rest c (x ∷ xs) = elim (append c.output (x ∷ xs)) [
  | none ↦ none
  | some out ↦ some (record c { output = out })
]

-- `SendInLoop(message, len)`.
unfoldable pub send_in_loop : List WriteResult → TcpConn → List ℕ → Option TcpConn
send_in_loop script c message = elim c.channel [
  | none ↦ some c
  | some ch ↦
      if is_empty c.output
      then elim (i_send script ch message) [
        | none ↦ none
        | some r ↦ buffer_rest (after_send c r) (drop r.sended message)
      ]
      else buffer_rest c message
]

-- `Send(message, len)` on the loop's thread.
unfoldable pub send : List WriteResult → TcpConn → List ℕ → Option TcpConn
send script c message = elim c.state [ connected ↦ send_in_loop script c message | other ↦ some c ]

abbrev absorb_output : TcpConn → Buffer → Option (TcpConn × Buffer)
absorb_output c message = elim (absorb c.output message) [
  | none ↦ none
  | some (out, left) ↦ some (record c { output = out }, left)
]

-- `EnableWrite()` unless the channel writes already.
abbrev pub ensure_writing : TcpConn → TcpConn
ensure_writing c = elim c.channel [
  | none ↦ c
  | some ch ↦ record c { channel = some (if not (is_writing ch) then (enable_write ch).0 else ch) }
]

-- What `Send(Buffer&)` does with the bytes that were not taken.
unfoldable pub keep_rest : TcpConn → Buffer → Option (TcpConn × Buffer)
unfolding get_size
keep_rest c message =
    if get_size message == 0 then some (c, message) else elim (absorb_output c message) [
      | none ↦ none
      | some (c', left) ↦ some (ensure_writing c', left)
    ]

-- `Send(Buffer&)`; the message buffer is returned as it is left.
unfoldable pub send_buffer : List WriteResult → TcpConn → Buffer → Option (TcpConn × Buffer)
send_buffer script c message = elim c.channel [
  | none ↦ some (c, message)
  | some ch ↦
      if is_writing ch
      then absorb_output c message
      else if get_size message == 0
      then some (c, message)
      else elim (i_send script ch (contents message)) [
        | none ↦ none
        | some r ↦ keep_rest (after_send c r) (consume message r.sended)
      ]
]

-- The `kConnected` branch of `HandleWrite`.
unfoldable pub flush : List WriteResult → TcpConn → Option TcpConn
flush script c = elim c.channel [
  | none ↦ none
  | some ch ↦ elim (i_send script ch (contents c.output)) [
    | none ↦ none
    | some r ↦
        let out = consume c.output r.sended in
        let d = record (after_send c r) { output = out } in
        some (
          if is_empty out && is_writing r.channel
          then record d { channel = some (disable_write r.channel).0 }
          else d)
  ]
]

-- The callbacks of the connection that run, and `loop_->Cancel(timeoutId_)`, in their order. What a
-- callback does is the application's; when it calls the connection again, that is another operation,
-- and not part of the handler that calls it.
pub data Called : Type 0 where
  read_called cancel_called state_called : Called

abbrev pub called : Bool → Called → List Called
called true k = k ∷ []
called false k = []

-- The read callback runs when it is set and some input waits.
abbrev pub read_calls : TcpConn → List Called
read_calls c = called (c.read_cb && not (get_size c.input == 0)) read_called

-- `CleanUp`: a connection that was not connected yet has failed, any other is closed. The channel is
-- released and the callbacks are dropped. The timer of `Connect` is cancelled.
unfoldable pub clean_up : TcpConn → TcpConn × List Called
clean_up c = (
  record c {
    state = elim c.state [ hand_shakeing ↦ failed | other ↦ closed ];
    channel = none;
    read_cb = false;
    write_cb = false;
    state_cb = false;
  },
  read_calls c ++ (cancel_called ∷ called c.state_cb state_called),
)

-- `HandleHandShake`; `writable` is whether `poll` returned exactly `POLLOUT`. The first Boolean is
-- whether it returns 0 and not -1. Its statement `statecb_;` calls nothing.
unfoldable pub handle_hand_shake : Bool → TcpConn → TcpConn × Bool × List Called
handle_hand_shake writable c =
    if writable
    then elim c.channel [
      | none ↦ (record c { state = connected }, true, [])
      | some ch ↦ (record c { state = connected; channel = some (enable_read ch).0 }, true, [])
    ]
    else let (d, calls) = clean_up (record c { state = failed }) in (d, false, calls)

-- The answers of `read`: some bytes, an interruption, nothing there, or the end or an error. A
-- descriptor that was closed is not read, and counts as the end.
pub data ReadResult : Type 0 where
  got : List ℕ → ReadResult
  read_eintr read_eagain read_end : ReadResult

-- `MakeRoom` at the head of each round.
abbrev pub roomier : TcpConn → TcpConn
roomier c = record c { input = make_space c.input }

-- The loop of `HandleRead` on a connected connection.
unfoldable pub read_loop : List ReadResult → TcpConn → Option (TcpConn × List Called)
read_loop [] c = none
read_loop (read_eintr ∷ script) c = read_loop script (roomier c)
read_loop (read_eagain ∷ script) c = some (roomier c, read_calls (roomier c))
read_loop (read_end ∷ script) c = some (clean_up (roomier c))
read_loop (got [] ∷ script) c = some (clean_up (roomier c))
read_loop (got (x ∷ xs) ∷ script) c =
    let bytes = x ∷ xs in
    let input = make_space c.input in
    elim (leb (length bytes) (get_space input)) [
      | false ↦ none
      | true ↦ elim (write_end input bytes) [
        | none ↦ none
        | some filled ↦ read_loop script (record c { input = add_bytes filled (length bytes) })
      ]
    ]

-- `HandleRead`. A handshake that succeeded calls no callback.
unfoldable pub handle_read : Bool → List ReadResult → TcpConn → Option (TcpConn × List Called)
handle_read writable script c = elim c.state [
  | hand_shakeing ↦
      let (d, done, calls) = handle_hand_shake writable c in
      if done then read_loop script d else some (d, calls)
  | connected ↦ read_loop script c
  | other ↦ some (c, [])
]

-- `HandleWrite`.
unfoldable pub handle_write : Bool → List WriteResult → TcpConn → Option (TcpConn × List Called)
handle_write writable script c = elim c.state [
  | hand_shakeing ↦ let (d, done, calls) = handle_hand_shake writable c in some (d, calls)
  | connected ↦ elim (flush script c) [ none ↦ none | some d ↦ some (d, []) ]
  | other ↦ some (c, [])
]

-- `Shutdown`: the state is closed although the channel stays; the result says whether the loop is
-- asked to shut the socket down.
unfoldable pub shutdown : TcpConn → TcpConn × Bool
shutdown c = elim c.state [ connected ↦ (record c { state = closed }, true) | other ↦ (c, false) ]

-- `Close` on the loop's thread: the channel's own `Close`, with the calls it makes of the loop.
unfoldable pub close : TcpConn → TcpConn × List Channel.LoopCall
close c = elim c.channel [
  | none ↦ (c, [])
  | some ch ↦ let (ch', calls) = Channel.close ch in (record c { channel = some ch' }, calls)
]
