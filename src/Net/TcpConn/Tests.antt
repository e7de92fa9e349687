-- ===== src/Net/TcpConn/Tests.antt =====
-- A connection of net/tcpconn.cc on concrete bytes and answers.
use jnet.Base.{
  ◌++◌, List, if◌then◌else◌, ◌≡◌, refl, inl, inr, true, false, none, some, [], ◌∷◌, arith,
}
use jnet.Buffer.{Buffer, contents, make_space, get_space, expand, get_size, is_empty}
use jnet.Buffer.Layout.{IsValid}
use jnet.Net.Channel.{
  Channel, no_events, read_event, union, write_event, is_writing, is_reading, enable_write,
}
use jnet.Net.TcpConn.{
  TcpConn, closed, handle_hand_shake, clean_up, connected, hand_shakeing, cancel_called,
  state_called, Sent, Called, called, read_calls, i_send, send_in_loop, send_buffer, flush,
  handle_read, read_loop, wrote, write_eintr, write_eagain, write_error, got, read_eagain, send,
  shutdown, close, handle_write,
}
use jnet.Net.TcpConn.Stream.{stream, IsLive, send_in_loop-stream, flush-stream}
use jnet.Net.TcpConn.Live.{Delivers, send_buffer-Delivers}
use jnet.Net.TcpConn.InLoop.{send_in_loop-strands, send_in_loop-IsLive}
use jnet.Net.TcpConn.Reading.{read_loop-got}
use jnet.Net.TcpConn.States.{Settled, handle_read-Settled}
use jnet.Net.TcpConn.Setup.{connect, on_timeout, handle_write-connect}

abbrev ch : Channel
ch = record {
  events = read_event;
  revents = no_events;
  fd = 7;
  is_open = true;
  id = 1;
  index = 0;
  callbacks = record { read = true; write = true; close = false; error = false };
}

abbrev ch_writing : Channel
ch_writing = record ch { events = union read_event write_event }

abbrev idle : TcpConn
idle = record {
  state = connected;
  input = record { buf = []; b = 0; e = 0; cap = 0; exp = 8; extra = 0 };
  output = record { buf = []; b = 0; e = 0; cap = 0; exp = 8; extra = 0 };
  channel = some ch;
  read_cb = true;
  write_cb = false;
  state_cb = true;
  wire = 1 ∷ [];
}

abbrev message : Buffer
message = record { buf = 5 ∷ 6 ∷ 7 ∷ 0 ∷ []; b = 0; e = 3; cap = 4; exp = 4; extra = 0 }

abbrev waiting : TcpConn
waiting = record idle { output = message; channel = some ch_writing }

empty-IsValid : IsValid (record { buf = []; b = 0; e = 0; cap = 0; exp = 8; extra = 0 })
empty-IsValid = omega arith

message-IsValid : IsValid message
message-IsValid = record {
  ordered = omega arith;
  inside = omega arith;
  allocated = refl;
  small = omega arith;
  suggested = omega arith;
}

abbrev two_then_full : Sent
two_then_full = record { sended = 2; taken = 5 ∷ 6 ∷ []; channel = (enable_write ch).0 }

kernel_takes_two :
    i_send (wrote 2 ∷ write_eintr ∷ write_eagain ∷ []) ch (5 ∷ 6 ∷ 7 ∷ []) ≡ some two_then_full
unfolding i_send is_writing
kernel_takes_two = refl

send_in_loop-stream_example :
    (d : TcpConn) × (send_in_loop (wrote 2 ∷ write_eintr ∷ write_eagain ∷ []) idle (5 ∷ 6 ∷ 7 ∷ [])
      ≡ some d)
    × (stream d ≡ 1 ∷ 5 ∷ 6 ∷ 7 ∷ [])
    × IsValid d.output
send_in_loop-stream_example =
    send_in_loop-stream (wrote 2 ∷ write_eintr ∷ write_eagain ∷ []) idle ch two_then_full
      (5 ∷ 6 ∷ 7 ∷ []) refl kernel_takes_two empty-IsValid (omega arith) (omega arith)
      (λ n h. inr (omega arith))

abbrev two_flushed : Sent
two_flushed = record { sended = 2; taken = 5 ∷ 6 ∷ []; channel = ch_writing }

kernel_flushes_two :
    i_send (wrote 2 ∷ write_eagain ∷ []) ch_writing (contents message) ≡ some two_flushed
unfolding i_send is_writing
kernel_flushes_two = refl

is_writing_now : is_writing ch_writing ≡ true
unfolding is_writing
is_writing_now = refl

flush-stream-test :
    (d : TcpConn) × (flush (wrote 2 ∷ write_eagain ∷ []) waiting ≡ some d)
    × (stream d ≡ 1 ∷ 5 ∷ 6 ∷ 7 ∷ [])
    × IsValid d.output
    × IsLive d
flush-stream-test =
    flush-stream (wrote 2 ∷ write_eagain ∷ []) waiting ch_writing two_flushed refl
      kernel_flushes_two is_writing_now message-IsValid

send_buffer-Delivers_example :
    Delivers idle
      (contents message)
      (send_buffer (wrote 2 ∷ write_eintr ∷ write_eagain ∷ []) idle message)
send_buffer-Delivers_example =
    send_buffer-Delivers (wrote 2 ∷ write_eintr ∷ write_eagain ∷ []) idle ch two_then_full message
      refl kernel_takes_two (inl refl) empty-IsValid message-IsValid (omega arith) (omega arith)
      (λ n h. inr (omega arith))

read_loop-got-test :
    (input : Buffer) × (read_loop (got (4 ∷ 9 ∷ []) ∷ read_eagain ∷ []) idle
      ≡ read_loop (read_eagain ∷ []) (record idle { input = input }))
    × (contents input ≡ 4 ∷ 9 ∷ [])
    × IsValid input
    × (input.exp ≡ 8)
    × (input.cap ≡ (make_space idle.input).cap)
unfolding make_space get_space expand
read_loop-got-test =
    read_loop-got (read_eagain ∷ []) idle 4 (9 ∷ []) empty-IsValid (omega arith) (omega arith)
      (omega arith)

abbrev starting : TcpConn
starting = record idle { state = hand_shakeing }

abbrev gone : TcpConn
gone = record idle {
  state = closed;
  channel = none;
  read_cb = false;
  write_cb = false;
  state_cb = false;
}

hand_shake_fails : handle_read false [] starting ≡ some (gone, cancel_called ∷ state_called ∷ [])
unfolding handle_read handle_hand_shake clean_up get_size
hand_shake_fails = refl

handle_read-Settled-test : Settled gone
handle_read-Settled-test =
    handle_read-Settled false [] starting gone ch (cancel_called ∷ state_called ∷ []) (inl refl)
      refl hand_shake_fails

is_idle : is_writing ch ≡ false
unfolding is_writing
is_idle = refl

is_empty_now : is_empty idle.output ≡ true
unfolding is_empty
is_empty_now = refl

send_in_loop-strands-test :
    (d : TcpConn) × (send_in_loop (write_error ∷ []) idle (3 ∷ 4 ∷ []) ≡ some d)
    × (contents d.output ≡ 3 ∷ 4 ∷ [])
    × (d.wire ≡ 1 ∷ [])
    × ¬ IsLive d
send_in_loop-strands-test =
    send_in_loop-strands [] idle ch 3 (4 ∷ []) refl is_idle is_empty_now empty-IsValid (omega arith)
      (omega arith) (inr (omega arith))

sends_nothing_when_closed : send (wrote 2 ∷ []) gone (3 ∷ 4 ∷ []) ≡ some gone
unfolding send
sends_nothing_when_closed = refl

shuts_down_once : (shutdown (shutdown idle).0).1 ≡ false
unfolding shutdown
shuts_down_once = refl

close_keeps_the_state : ((close idle).0).state ≡ connected
unfolding close
close_keeps_the_state = refl

write_event_shakes_hands :
    handle_write false [] starting ≡ some (gone, cancel_called ∷ state_called ∷ [])
unfolding handle_write handle_hand_shake clean_up get_size
write_event_shakes_hands = refl

send_in_loop-IsLive_example :
    (d : TcpConn) × (send_in_loop (wrote 2 ∷ write_eintr ∷ write_eagain ∷ []) idle (5 ∷ 6 ∷ 7 ∷ [])
      ≡ some d)
    × IsLive d
send_in_loop-IsLive_example =
    send_in_loop-IsLive (wrote 2 ∷ write_eintr ∷ write_eagain ∷ []) idle ch two_then_full
      (5 ∷ 6 ∷ 7 ∷ []) refl kernel_takes_two (omega arith, tt) (inl refl) empty-IsValid
      (omega arith) (omega arith) (λ n h. inr (omega arith))

handle_write-connect-test :
    let (begun, calls, timer) = connect true false 5 7 1 gone in
    (d : TcpConn) × (run : List Called) × (handle_write true [] begun ≡ some (d, run))
    × (on_timeout d ≡ (d, []))
    × (if true
        then (d.state ≡ connected)
          × (run ≡ [])
          × ((c : Channel) × (d.channel ≡ some c) × (is_reading c ≡ true) × (is_writing c ≡ true))
        else (d.state ≡ closed)
          × (d.channel ≡ none)
          × (run ≡ read_calls gone ++ (cancel_called ∷ called gone.state_cb state_called)))
handle_write-connect-test = handle_write-connect true false true 5 7 1 [] gone
