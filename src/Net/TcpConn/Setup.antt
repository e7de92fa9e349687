-- ===== src/Net/TcpConn/Setup.antt =====
-- How a connection of net/tcpconn.cc begins: `Attach`, `Connect` and its timer, and the first event.
use jnet.Base.{
  ℕ, ◌≡◌, refl, Bool, true, false, not, none, some, List, [], ◌∷◌, ◌++◌, ◌==◌, if◌then◌else◌,
}
use jnet.Net.Channel
use jnet.Net.Channel.{
  Channel, union, read_event, write_event, no_events, is_reading, is_writing, enable_read,
}
use jnet.Net.TcpConn.{
  TcpConn, hand_shakeing, connected, closed, WriteResult, Called, cancel_called, state_called,
  called, read_calls, handle_hand_shake, handle_write, clean_up, close,
}

-- The channel of `Attach`, which waits for both directions, with its two callbacks.
abbrev pub attached_channel : ℕ → ℕ → Channel
attached_channel fd id = record {
  events = union write_event read_event;
  revents = no_events;
  fd = fd;
  is_open = true;
  id = id;
  index = 0;
  callbacks = record { read = true; write = true; close = false; error = false };
}

-- `Attach(loop, fd, local, peer)`; `id` is the channel's number.
unfoldable pub attach : ℕ → ℕ → TcpConn → TcpConn
attach fd id c = record c { state = hand_shakeing; channel = some (attached_channel fd id) }

-- The calls of `Connect` that a failure of an earlier one skips.
pub data SetupCall : Type 0 where
  binds connects names : SetupCall

abbrev pub setup_calls : Bool → Bool → List SetupCall
setup_calls false reached = binds ∷ []
setup_calls true false = binds ∷ connects ∷ []
setup_calls true true = binds ∷ connects ∷ names ∷ []

-- `Connect(loop, local, peer, timeout)`, with whether `bind` and `connect` return 0: the connection,
-- the calls, and whether a timer is set.
unfoldable pub connect : Bool → Bool → ℕ → ℕ → ℕ → TcpConn → TcpConn × List SetupCall × Bool
unfolding attach
connect bound reached timeout fd id c =
    (attach fd id c, setup_calls bound reached, not (timeout == 0))

-- The callback of the timer.
unfoldable pub on_timeout : TcpConn → TcpConn × List Channel.LoopCall
unfolding close
on_timeout c = elim c.state [ hand_shakeing ↦ close c | other ↦ (c, []) ]

-- A connection that `Connect` sets up, whatever its system calls answered, when the socket can first
-- be written. If `poll` finds it connected, the connection is connected, waits for both directions,
-- calls nothing, and the timer that may be set does nothing to it. If not, the connection counts as
-- closed and not as failed, and has no channel; the read callback runs if it is set and input waits,
-- the timer is cancelled, and then the state callback runs if it is set; the timer does nothing
-- either.
pub handle_write-connect :
    (bound reached writable : Bool) (timeout fd id : ℕ) (script : List WriteResult) (c : TcpConn)
    → let (begun, calls, timer) = connect bound reached timeout fd id c in
      (d : TcpConn) × (run : List Called) × (handle_write writable script begun ≡ some (d, run))
      × (on_timeout d ≡ (d, []))
      × (if writable
          then (d.state ≡ connected)
            × (run ≡ [])
            × ((ch : Channel) × (d.channel ≡ some ch)
                × (is_reading ch ≡ true)
                × (is_writing ch ≡ true))
          else (d.state ≡ closed)
            × (d.channel ≡ none)
            × (run ≡ read_calls c ++ (cancel_called ∷ called c.state_cb state_called)))
unfolding connect attach handle_write handle_hand_shake clean_up on_timeout is_reading is_writing
    enable_read
handle_write-connect bound reached true timeout fd id script c =
    (_, _, refl, refl, (refl, refl, (_, refl, refl, refl)))
handle_write-connect bound reached false timeout fd id script c =
    (_, _, refl, refl, (refl, refl, refl))
