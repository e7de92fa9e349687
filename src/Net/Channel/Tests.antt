-- ===== src/Net/Channel/Tests.antt =====
-- The laws of the event masks at a channel that reads.
use jnet.Base.{true, false, ◌≡◌, refl, [], ◌∷◌}
use jnet.Net.Channel.{
  Channel, on_read, on_write, no_events, read_event, enable_read, enable_write, disable_read,
  disable_write, is_reading, is_writing, handle_event, interest_lem,
}

abbrev reader : Channel
reader = record {
  events = read_event;
  revents = record no_events { poll_in = true; poll_out = true; poll_err = true };
  fd = 4;
  is_open = true;
  id = 1;
  index = 0;
  callbacks = record { read = true; write = true; close = true; error = false };
}

handle_reader : handle_event reader ≡ on_read ∷ on_write ∷ []
unfolding handle_event
handle_reader = refl

interest_lem-test :
    (is_reading (enable_read reader).0 ≡ true)
    × (is_writing (enable_read reader).0 ≡ is_writing reader)
    × (is_writing (enable_write reader).0 ≡ true)
    × (is_reading (enable_write reader).0 ≡ is_reading reader)
    × (is_reading (disable_read reader).0 ≡ false)
    × (is_writing (disable_read reader).0 ≡ is_writing reader)
    × (is_writing (disable_write reader).0 ≡ false)
    × (is_reading (disable_write reader).0 ≡ is_reading reader)
interest_lem-test = interest_lem reader
