-- ===== src/Buffer/Words.antt =====
-- The 32-bit words at the front of a buffer, in network byte order (net/buffer.h).
use jnet.Base.{
  ℕ, ◌-◌, ◌^◌, ◌≤◌, ◌<◌, ◌≡◌, ap, sym, ◌∙◌, some, List, [], ◌++◌, arith, length, take, drop, be32,
  take-take, from_be32-be32,
}
use jnet.Buffer.{Buffer, contents, peek_int32, append_int32}
use jnet.Buffer.Layout.{IsValid, get_size_lem, length-contents}
use jnet.Buffer.Contents.{HasRoom, append_lem}

-- Where the contents start with the four bytes of a word, `PeekInt32` reads that word.
pub peek_int32_lem :
    (s : Buffer) (w : ℕ) (rest : List ℕ)
    → IsValid s
    → w < 2 ^ 32
    → contents s ≡ be32 w ++ rest
    → peek_int32 s ≡ some w
unfolding peek_int32
peek_int32_lem s w rest v h e =
    ground (arith, get_size_lem s v, front, ap length e, from_be32-be32 w h)
  where
    front : take 4 (drop s.b s.buf) ≡ be32 w
    front =
        sym (
          take-take 4 (s.e - s.b) (drop s.b s.buf)
            (omega (arith, ap length e, length-contents s v)))
        ∙ ap (take 4) e

-- `AppendInt32` on an empty valid buffer of at most 2 ^ 61 bytes with room, and then `PeekInt32`,
-- give back the word of 32 bits, through the byte order of the network.
pub peek_int32-append_int32 :
    (s : Buffer) (w : ℕ)
    → IsValid s
    → s.cap ≤ 2 ^ 61
    → HasRoom s 4
    → contents s ≡ []
    → w < 2 ^ 32
    → (u : Buffer) × (append_int32 s w ≡ some u) × (peek_int32 u ≡ some w) × IsValid u
unfolding append_int32
peek_int32-append_int32 s w v small room nothing h =
    let (u, done, bytes, valid, same) = append_lem s (be32 w) v small (omega arith) room in
    (u, done, peek_int32_lem u w [] valid h (bytes ∙ ap (λ c. c ++ be32 w) nothing), valid)
