-- ===== src/Net/Channel.antt =====
-- net/channel.h and net/channel.cc: the events that a descriptor waits for, and the callbacks that
-- its returned events start. A mask of `poll` events is a record of its bits.
mod Tests
use jnet.Base.{
  ℕ, ◌+◌, Bool, true, false, not, ◌&&◌, ◌||◌, List, [], ◌∷◌, ◌++◌, ◌≡◌, arith, if◌then◌else◌,
}

pub record Mask : Type 0 where
  pub poll_in : Bool
  pub poll_pri : Bool
  pub poll_out : Bool
  pub poll_err : Bool
  pub poll_hup : Bool
  pub poll_nval : Bool
  pub poll_rdhup : Bool

abbrev pub no_events : Mask
no_events = record {
  poll_in = false;
  poll_pri = false;
  poll_out = false;
  poll_err = false;
  poll_hup = false;
  poll_nval = false;
  poll_rdhup = false;
}

-- `POLLIN | POLLPRI` and `POLLOUT`.
abbrev pub read_event : Mask
read_event = record no_events { poll_in = true; poll_pri = true }

abbrev pub write_event : Mask
write_event = record no_events { poll_out = true }

abbrev pub union : Mask → Mask → Mask
union a b = record {
  poll_in = a.poll_in || b.poll_in;
  poll_pri = a.poll_pri || b.poll_pri;
  poll_out = a.poll_out || b.poll_out;
  poll_err = a.poll_err || b.poll_err;
  poll_hup = a.poll_hup || b.poll_hup;
  poll_nval = a.poll_nval || b.poll_nval;
  poll_rdhup = a.poll_rdhup || b.poll_rdhup;
}

-- `a & ~b`.
abbrev pub without : Mask → Mask → Mask
without a b = record {
  poll_in = a.poll_in && not b.poll_in;
  poll_pri = a.poll_pri && not b.poll_pri;
  poll_out = a.poll_out && not b.poll_out;
  poll_err = a.poll_err && not b.poll_err;
  poll_hup = a.poll_hup && not b.poll_hup;
  poll_nval = a.poll_nval && not b.poll_nval;
  poll_rdhup = a.poll_rdhup && not b.poll_rdhup;
}

-- Whether `a & b` has a bit.
abbrev pub meets : Mask → Mask → Bool
meets a b =
    a.poll_in && b.poll_in
    || a.poll_pri && b.poll_pri
    || a.poll_out && b.poll_out
    || a.poll_err && b.poll_err
    || a.poll_hup && b.poll_hup
    || a.poll_nval && b.poll_nval
    || a.poll_rdhup && b.poll_rdhup

-- Which of the four callbacks are set.
pub record Callbacks : Type 0 where
  pub read : Bool
  pub write : Bool
  pub close : Bool
  pub error : Bool

pub data Callback : Type 0 where
  on_read on_write on_close on_error : Callback

-- A descriptor that was closed is `-1` in the source and `is_open = false` here.
pub record Channel : Type 0 where
  pub events : Mask
  pub revents : Mask
  pub fd : ℕ
  pub is_open : Bool
  pub id : ℕ
  pub index : ℕ
  pub callbacks : Callbacks

-- What a call asks of the owner loop.
pub data LoopCall : Type 0 where
  update_channel remove_channel add_channel : LoopCall

-- An operation that ends in `Update()` returns the channel and the call of the loop.
unfoldable pub enable_read : Channel → Channel × List LoopCall
enable_read c = (record c { events = union c.events read_event }, update_channel ∷ [])

unfoldable pub enable_write : Channel → Channel × List LoopCall
enable_write c = (record c { events = union c.events write_event }, update_channel ∷ [])

unfoldable pub disable_read : Channel → Channel × List LoopCall
disable_read c = (record c { events = without c.events read_event }, update_channel ∷ [])

unfoldable pub disable_write : Channel → Channel × List LoopCall
disable_write c = (record c { events = without c.events write_event }, update_channel ∷ [])

unfoldable pub is_writing : Channel → Bool
is_writing c = meets c.events write_event

unfoldable pub is_reading : Channel → Bool
is_reading c = meets c.events read_event

abbrev when : Bool → Callback → List Callback
when true k = k ∷ []
when false k = []

-- The callbacks that run, in order.
unfoldable pub handle_event : Channel → List Callback
handle_event c =
    when (c.revents.poll_hup && not c.revents.poll_in && c.callbacks.close) on_close
    ++ (when ((c.revents.poll_err || c.revents.poll_nval) && c.callbacks.error) on_error
        ++ (when
              ((c.revents.poll_in || c.revents.poll_pri || c.revents.poll_rdhup)
                && c.callbacks.read)
              on_read
            ++ when (c.revents.poll_out && c.callbacks.write) on_write))

-- `Close()`: the descriptor is closed, then the channel leaves its loop, once.
unfoldable pub close : Channel → Channel × List LoopCall
close c = if c.is_open then (record c { is_open = false }, remove_channel ∷ []) else (c, [])

-- Enabling or disabling one direction sets that direction as asked, keeps the other as it was, and
-- tells the loop, in every state of the channel.
pub interest_lem :
    (c : Channel)
    → (is_reading (enable_read c).0 ≡ true)
      × (is_writing (enable_read c).0 ≡ is_writing c)
      × (is_writing (enable_write c).0 ≡ true)
      × (is_reading (enable_write c).0 ≡ is_reading c)
      × (is_reading (disable_read c).0 ≡ false)
      × (is_writing (disable_read c).0 ≡ is_writing c)
      × (is_writing (disable_write c).0 ≡ false)
      × (is_reading (disable_write c).0 ≡ is_reading c)
unfolding is_reading is_writing enable_read enable_write disable_read disable_write
interest_lem c = ground arith
