-- ===== src/Net/TcpConn/Reading.antt =====
-- The loop of `HandleRead` in net/tcpconn.cc.
use jnet.Base.{ℕ, ◌^◌, ◌≤◌, ◌≡◌, refl, some, ap, ◌∙◌, List, ◌∷◌, ◌++◌, arith, length}
use jnet.Buffer.{Buffer, contents, get_space, make_space, add_bytes}
use jnet.Buffer.Layout.{IsValid}
use jnet.Buffer.Space.{make_space_lem, filled_lem}
use jnet.Net.TcpConn.{TcpConn, ReadResult, got, read_eagain, read_loop, read_calls, roomier}

-- One `read` of some bytes, as many as there is space for after `MakeRoom` or fewer, into a valid
-- input buffer of at most 2 ^ 61 bytes whose suggested size is not 0: the loop goes on
-- with the bytes behind those that were there, and nothing else of the connection is changed.
pub read_loop-got :
    (script : List ReadResult) (c : TcpConn) (x : ℕ) (xs : List ℕ)
    → IsValid c.input
    → c.input.cap ≤ 2 ^ 61
    → 1 ≤ c.input.exp
    → length (x ∷ xs) ≤ get_space (make_space c.input)
    → (input : Buffer) × (read_loop (got (x ∷ xs) ∷ script) c
        ≡ read_loop script (record c { input = input }))
      × (contents input ≡ contents c.input ++ (x ∷ xs))
      × IsValid input
      × (input.exp ≡ c.input.exp)
      × (input.cap ≡ (make_space c.input).cap)
unfolding read_loop
read_loop-got script c x xs v small suggests fits =
    let (bytes, valid, same, space) = make_space_lem c.input v small suggests in
    let (t, done, filled, tv, te, tc) = filled_lem (make_space c.input) (x ∷ xs) valid fits in
    (
      add_bytes t (length (x ∷ xs)),
      ground (arith, done, fits),
      filled ∙ ap (λ b. b ++ (x ∷ xs)) bytes,
      tv,
      te ∙ same,
      tc,
    )

-- The loop ends when nothing more can be read, and calls the read callback if some input waits.
pub read_loop-eagain :
    (script : List ReadResult) (c : TcpConn)
    → read_loop (read_eagain ∷ script) c ≡ some (roomier c, read_calls (roomier c))
unfolding read_loop
read_loop-eagain script c = refl
