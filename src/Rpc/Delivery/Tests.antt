-- ===== src/Rpc/Delivery/Tests.antt =====
-- Messages of one byte from one connection to another.
use jnet.Base.{ℕ, ◌≤◌, ◌≡◌, refl, inl, inr, true, false, some, List, [], ◌∷◌, ◌++◌, arith, length}
use jnet.Buffer.{Buffer, contents, make_space, get_space, expand}
use jnet.Buffer.Layout.{IsValid}
use jnet.Net.Channel.{Channel, no_events, read_event, is_writing, enable_write}
use jnet.Net.TcpConn.{TcpConn, connected, Sent, i_send, wrote, write_eagain, got, read_eagain}
use jnet.Net.TcpConn.Stream.{stream}
use jnet.Rpc.Codec.{frame}
use jnet.Rpc.Delivery
use jnet.Rpc.Delivery.{send}
use jnet.Rpc.Delivery.EndToEnd.{Reads, read_event-frame, read_event-send}

abbrev serialize : ℕ → List ℕ
serialize m = m ∷ []

abbrev parse : List ℕ → ℕ
parse [] = 0
parse (x ∷ xs) = x

parse-serialize : (m : ℕ) → parse (serialize m) ≡ m
parse-serialize m = refl

abbrev ch : Channel
ch = record {
  events = read_event;
  revents = no_events;
  fd = 7;
  is_open = true;
  id = 1;
  index = 0;
  callbacks = record { read = true; write = true; close = false; error = false };
}

abbrev empty : Buffer
empty = record { buf = []; b = 0; e = 0; cap = 0; exp = 16; extra = 0 }

abbrev conn : TcpConn
conn = record {
  state = connected;
  input = empty;
  output = empty;
  channel = some ch;
  read_cb = true;
  write_cb = false;
  state_cb = true;
  wire = [];
}

empty-IsValid : IsValid empty
empty-IsValid = omega arith

abbrev two_taken : Sent
two_taken = record { sended = 2; taken = 0 ∷ 0 ∷ []; channel = (enable_write ch).0 }

kernel-two : i_send (wrote 2 ∷ write_eagain ∷ []) ch (frame serialize 9) ≡ some two_taken
unfolding i_send is_writing enable_write
kernel-two = refl

reads : (x : ℕ) (xs : List ℕ) → length xs ≤ 15 → Reads conn x xs
unfolding make_space get_space expand
reads x xs h = record {
  state = refl;
  callback = refl;
  valid = empty-IsValid;
  small = omega arith;
  grown = omega arith;
  suggests = omega arith;
  fits = omega arith;
}

read_event-frame-test :
    (d : TcpConn) × (Delivery.read_event parse false
        (got (0 ∷ 0 ∷ 0 ∷ 1 ∷ 5 ∷ 0 ∷ 0 ∷ 0 ∷ 1 ∷ 6 ∷ []) ∷ read_eagain ∷ [])
        conn
      ≡ some (5 ∷ [], d))
    × (contents d.input ≡ 0 ∷ 0 ∷ 0 ∷ 1 ∷ 6 ∷ [])
    × IsValid d.input
    × (d.state ≡ connected)
read_event-frame-test =
    read_event-frame serialize parse false conn 0 (0 ∷ 0 ∷ 1 ∷ 5 ∷ 0 ∷ 0 ∷ 0 ∷ 1 ∷ 6 ∷ []) 5
      (0 ∷ 0 ∷ 0 ∷ 1 ∷ 6 ∷ []) parse-serialize
      (reads 0 (0 ∷ 0 ∷ 1 ∷ 5 ∷ 0 ∷ 0 ∷ 0 ∷ 1 ∷ 6 ∷ []) (omega arith)) (omega arith) refl

read_event-send_example :
    (d : TcpConn) × (f : TcpConn) × (send serialize 9 (wrote 2 ∷ write_eagain ∷ []) conn ≡ some d)
    × (stream d ≡ stream conn ++ (0 ∷ 0 ∷ 0 ∷ 1 ∷ 9 ∷ []))
    × (Delivery.read_event parse false (got (0 ∷ 0 ∷ 0 ∷ 1 ∷ 9 ∷ []) ∷ read_eagain ∷ []) conn
        ≡ some (9 ∷ [], f))
    × (contents f.input ≡ [])
read_event-send_example =
    read_event-send serialize parse 9 (wrote 2 ∷ write_eagain ∷ []) conn conn ch two_taken false
      parse-serialize (omega arith) refl kernel-two (inl refl) empty-IsValid (omega arith)
      (λ n h. inr (omega arith)) refl (reads 0 (0 ∷ 0 ∷ 1 ∷ 9 ∷ []) (omega arith))
