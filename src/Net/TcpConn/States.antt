-- ===== src/Net/TcpConn/States.antt =====
-- The states of a connection of net/tcpconn.h under the handlers of net/tcpconn.cc.
use jnet.Base.{
  ℕ, ◌≡◌, refl, ap, subst, ◌⊎◌, inl, inr, Bool, true, false, Option, none, some, List, [], ◌∷◌,
  arith, length, Option-cases,
}
use jnet.Buffer.{Buffer, make_space, write_end, add_bytes}
use jnet.Net.Channel.{Channel, enable_read}
use jnet.Net.TcpConn.{
  TcpConn, State, invalid, hand_shakeing, connected, closed, failed, Called, roomier, clean_up,
  handle_hand_shake, ReadResult, got, read_eintr, read_eagain, read_end, read_loop, handle_read,
}

-- The connection has let go of its channel and of its callbacks.
pub record IsReleased (c : TcpConn) : Type 0 where
  pub state : c.state ≡ closed
  pub channel : c.channel ≡ none
  pub read_cb : c.read_cb ≡ false
  pub write_cb : c.write_cb ≡ false
  pub state_cb : c.state_cb ≡ false

-- A handler leaves the connection connected and open, or released.
abbrev pub Settled : TcpConn → Type 0
Settled c = ((c.state ≡ connected) × (ch : Channel) × (c.channel ≡ some ch)) ⊎ IsReleased c

-- The connection of a result.
conn_of : (p q : TcpConn × List Called) → some p ≡ some q → p.0 ≡ q.0
conn_of p q h =
    ap {A = Option (TcpConn × List Called)} (λ o. elim o [ none ↦ p.0 | some r ↦ r.0 ]) h

clean_up-IsReleased : (c : TcpConn) → ¬ (c.state ≡ hand_shakeing) → IsReleased (clean_up c).0
unfolding clean_up
clean_up-IsReleased c late = record {
  state = past c.state late;
  channel = refl;
  read_cb = refl;
  write_cb = refl;
  state_cb = refl;
}
  where
    past :
        (s : State)
        → ¬ (s ≡ hand_shakeing)
        → elim s [ hand_shakeing ↦ failed | other ↦ closed ] ≡ closed
    past invalid h = refl
    past hand_shakeing h = absurd (h refl)
    past connected h = refl
    past closed h = refl
    past failed h = refl

ended :
    (c d : TcpConn) (calls : List Called)
    → c.state ≡ connected
    → some (clean_up (roomier c)) ≡ some (d, calls)
    → Settled d
ended c d calls s h =
    inr (subst IsReleased (conn_of _ _ h) (clean_up-IsReleased (roomier c) (λ e. cc)))

filled-step :
    (script : List ReadResult) (c d : TcpConn) (x : ℕ) (xs : List ℕ) (calls : List Called)
    → read_loop (got (x ∷ xs) ∷ script) c ≡ some (d, calls)
    → (input : Buffer) × (read_loop script (record c { input = input }) ≡ some (d, calls))
unfolding read_loop
filled-step script c d x xs calls h =
    elim (Option-cases (write_end (make_space c.input) (x ∷ xs))) [
      | inl out ↦ absurd (ground arith)
      | inr (filled, e) ↦ (add_bytes filled (length (x ∷ xs)), ground arith)
    ]

read_loop-Settled :
    (script : List ReadResult) (c d : TcpConn) (ch : Channel) (calls : List Called)
    → c.state ≡ connected
    → c.channel ≡ some ch
    → read_loop script c ≡ some (d, calls)
    → Settled d
unfolding read_loop
read_loop-Settled [] c d ch calls s o h = cc
read_loop-Settled (read_eintr ∷ script) c d ch calls s o h =
    read_loop-Settled script (roomier c) d ch calls s o h
read_loop-Settled (read_eagain ∷ script) c d ch calls s o h =
    subst Settled (conn_of _ _ h) (inl (s, ch, o))
read_loop-Settled (read_end ∷ script) c d ch calls s o h = ended c d calls s h
read_loop-Settled (got [] ∷ script) c d ch calls s o h = ended c d calls s h
read_loop-Settled (got (x ∷ xs) ∷ script) c d ch calls s o h =
    let (input, e) = filled-step script c d x xs calls h in
    read_loop-Settled script (record c { input = input }) d ch calls s o e

-- A handshake that fails ends in the state `closed`: `CleanUp` no longer sees that it was going on,
-- and never sets `failed`.
hand_shake-fails : (c : TcpConn) → IsReleased (handle_hand_shake false c).0
unfolding handle_hand_shake
hand_shake-fails c = clean_up-IsReleased (record c { state = failed }) (λ e. cc)

hand_shake-returns : (c : TcpConn) → (handle_hand_shake false c).1 ≡ false
unfolding handle_hand_shake
hand_shake-returns c = refl

hand_shake-succeeds :
    (c : TcpConn) (ch : Channel)
    → c.channel ≡ some ch
    → handle_hand_shake true c
      ≡ (record c { state = connected; channel = some (enable_read ch).0 }, true, [])
unfolding handle_hand_shake
hand_shake-succeeds c ch o = cc

-- `HandleRead` on a connection with a channel, while it is being set up or is connected, whatever
-- `poll` and `read` answer, and apart from what its callbacks call: when it returns, the connection
-- is connected and has its channel, or is closed and has let go of its channel and its callbacks. No
-- failed handshake is told from a closed connection.
pub handle_read-Settled :
    (writable : Bool) (script : List ReadResult) (c d : TcpConn) (ch : Channel)
    (calls : List Called)
    → (c.state ≡ hand_shakeing) ⊎ (c.state ≡ connected)
    → c.channel ≡ some ch
    → handle_read writable script c ≡ some (d, calls)
    → Settled d
unfolding handle_read
handle_read-Settled writable script c d ch calls (inr s) o h =
    read_loop-Settled script c d ch calls s o (ground arith)
handle_read-Settled true script c d ch calls (inl s) o h =
    read_loop-Settled script (record c { state = connected; channel = some (enable_read ch).0 }) d
      (enable_read ch).0 calls refl refl (ground (arith, hand_shake-succeeds c ch o))
handle_read-Settled false script c d ch calls (inl s) o h = inr (
    subst IsReleased
      (conn_of ((handle_hand_shake false c).0, (handle_hand_shake false c).2) (d, calls)
        (ground (arith, hand_shake-returns c)))
      (hand_shake-fails c))
