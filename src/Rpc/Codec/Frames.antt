-- ===== src/Rpc/Codec/Frames.antt =====
-- Frames of rpc/protobuf/protobuf_codec.cc through a buffer: what is sent is what arrives.
use jnet.Base.{
  ℕ, suc, ◌+◌, ◌-◌, ◌^◌, ◌<◌, ◌≡◌, refl, sym, ap, ◌∙◌, none, some, List, ◌++◌, arith, length,
  length-append, take, drop, slice, be32, take-take, drop-take, drop-drop, drop-append, take-append,
}
use jnet.Buffer.{Buffer, contents, consume}
use jnet.Buffer.Layout.{IsValid, length-contents, get_size_lem}
use jnet.Buffer.Contents.{consume_lem}
use jnet.Buffer.Words.{peek_int32_lem}
use jnet.Rpc.Codec.{frame, take_message, on_message, read_at, header_len}

-- Bytes that lie inside the contents are read as such.
pub read_at_lem :
    (s : Buffer) (pre c rest : List ℕ)
    → IsValid s
    → contents s ≡ pre ++ (c ++ rest)
    → read_at s (length pre) (length c) ≡ some c
unfolding read_at
read_at_lem s pre c rest v e = ground (arith, v, len, part)
  where
    k : ℕ
    k = s.e - s.b - length pre

    len : s.e - s.b ≡ length pre + (length c + length rest)
    len = omega (
      arith,
      length-contents s v,
      ap length e,
      length-append pre (c ++ rest),
      length-append c rest,
    )

    from_pre : take k (drop (s.b + length pre) s.buf) ≡ c ++ rest
    from_pre =
        ap (take k) (sym (drop-drop s.b (length pre) (s.b + length pre) s.buf refl))
        ∙ sym (drop-take (length pre) (s.e - s.b) k (drop s.b s.buf) (omega (arith, len)))
        ∙ ap (drop (length pre)) e
        ∙ drop-append pre (c ++ rest)

    part : slice s.buf (s.b + length pre) (length c) ≡ c
    part =
        sym (take-take (length c) k (drop (s.b + length pre) s.buf) (omega (arith, len)))
        ∙ ap (take (length c)) from_pre
        ∙ take-append c rest

module _ {M : Type 0} (serialize : M → List ℕ) (parse : List ℕ → M) where
  -- Where the parser inverts the serializer, one call of `OnMessage` on a valid input that starts
  -- with a whole frame of less than 2 ^ 31 bytes hands over exactly the message of that frame and
  -- leaves exactly the bytes behind the frame.
  pub on_message-frame :
      (s : Buffer) (m : M) (rest : List ℕ)
      → ((x : M) → parse (serialize x) ≡ x)
      → IsValid s
      → length (serialize m) < 2 ^ 31
      → contents s ≡ frame serialize m ++ rest
      → (t : Buffer) × (on_message parse s ≡ some (some m, t)) × (contents t ≡ rest) × IsValid t
  unfolding on_message take_message
  on_message-frame s m rest inverse v h e =
      let (left, valid, same) = consume_lem s (n + header_len) v (omega (arith, size)) in
      (
        consume s (n + header_len),
        ground (
          arith,
          peek_int32_lem s n (serialize m ++ rest) v (omega arith) e,
          read_at_lem s (be32 n) (serialize m) rest v e,
          get_size_lem s v,
          size,
          inverse m,
        ),
        left ∙ ap (drop (n + header_len)) e ∙ drop_frame,
        valid,
      )
    where
      n : ℕ
      n = length (serialize m)

      size : length (contents s) ≡ 4 + (n + length rest)
      size = omega (arith, ap length e, length-append (serialize m) rest)

      drop_frame : drop (n + header_len) (frame serialize m ++ rest) ≡ rest
      drop_frame =
          let e : n + header_len ≡ suc (suc (suc (suc n))) = omega arith in
          rw e (drop-append (serialize m) rest)

  -- A header that announces less than 2 ^ 31 bytes, in a valid input that is shorter than that even
  -- with the header counted, is left where it is, and no message is handed over.
  pub on_message-waits :
      (s : Buffer) (n : ℕ) (body : List ℕ)
      → IsValid s
      → n < 2 ^ 31
      → contents s ≡ be32 n ++ body
      → length body + 4 < n
      → on_message parse s ≡ some (none, s)
  unfolding on_message
  on_message-waits s n body v h e short =
      ground (arith, peek_int32_lem s n body v (omega arith) e, get_size_lem s v, ap length e)
