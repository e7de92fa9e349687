-- ===== src/Rpc/Codec/Sends.antt =====
-- Frames of rpc/protobuf/protobuf_codec.cc through a buffer: the bytes that a sender writes.
use jnet.Base.{
  ℕ, ◌+◌, ◌%◌, ◌^◌, ◌≤◌, ◌<◌, ◌≡◌, refl, sym, ap, ◌∙◌, none, some, List, [], ◌++◌, arith, length,
  take, drop, poke, be32, poke-split, replicate, take-append-drop, length-drop, length-take,
  poke-overflow,
}
use jnet.Buffer.{
  Buffer, new, contents, get_size, append_int32, append, make_room, expand, write_end, add_bytes,
}
use jnet.Buffer.Layout.{IsValid, Holds, Holds-contents, Holds-IsValid}
use jnet.Rpc.Codec.{frame, serialize_to_buffer, patch_length, fill_empty_buffer, on_message}
use jnet.Rpc.Codec.Frames.{on_message-frame}

-- The buffer that `Send` starts from, once the zero word is in: four bytes, and 4092 behind them.
abbrev headed : List ℕ → Buffer
headed post = record { buf = be32 0 ++ post; b = 0; e = 4; cap = 4096; exp = 4096; extra = 0 }

pub new-append_int32 :
    (post : List ℕ) × (append_int32 new 0 ≡ some (headed post)) × (length post ≡ 4092)
unfolding new append_int32 append make_room expand write_end add_bytes get_size
new-append_int32 = (replicate 4092 0, refl, refl)

module _ {M : Type 0} (serialize : M → List ℕ) where
  -- From a message of at most 4092 bytes and a new buffer, `FillEmptyBuffer` makes a valid buffer of
  -- 4096 bytes that holds exactly the frame of the message.
  pub fill_empty_buffer-frame :
      (m : M)
      → length (serialize m) ≤ 4092
      → (u : Buffer) × (fill_empty_buffer serialize m new ≡ some u)
        × (contents u ≡ frame serialize m)
        × IsValid u
        × (u.cap ≡ 4096)
  unfolding fill_empty_buffer serialize_to_buffer patch_length add_bytes get_size new
  fill_empty_buffer-frame m h =
      let (post, headed_by, room) = new-append_int32 in
      let old = take n post in
      let rest = drop n post in
      let held : Holds (u rest) [] (frame serialize m) rest = record {
        layout = refl;
        start = refl;
        stop = omega arith;
        room = omega (arith, room, length-drop {0} n post);
      } in
      (
        u rest,
        ground (arith, headed_by, body post room, patch rest),
        Holds-contents (u rest) [] (frame serialize m) rest held,
        Holds-IsValid (u rest) [] (frame serialize m) rest (omega arith) (omega arith) held,
        refl,
      )
    where
      n : ℕ
      n = length (serialize m)

      u : List ℕ → Buffer
      u rest = record (headed []) { buf = frame serialize m ++ rest; e = 4 + n }

      body :
          (post : List ℕ)
          → length post ≡ 4092
          → poke (be32 0 ++ post) 4 (serialize m) ≡ some (be32 0 ++ (serialize m ++ drop n post))
      body post room =
          ap (λ r. poke (be32 0 ++ r) 4 (serialize m)) (sym (take-append-drop n post))
          ∙ poke-split (be32 0) (take n post) (drop n post) (serialize m)
              (omega (arith, length-take {0} n post))

      patch :
          (rest : List ℕ)
          → poke (be32 0 ++ (serialize m ++ rest)) 0 (be32 (n % 2 ^ 32))
            ≡ some (frame serialize m ++ rest)
      patch rest = let e : n % 2 ^ 32 ≡ n = omega arith in rw e refl

  -- `FillEmptyBuffer` writes a message of more than 4092 bytes past the allocation of a new buffer.
  pub fill_empty_buffer-overflow :
      (m : M) → 4092 < length (serialize m) → fill_empty_buffer serialize m new ≡ none
  unfolding fill_empty_buffer serialize_to_buffer get_size new
  fill_empty_buffer-overflow m h =
      let (post, headed_by, room) = new-append_int32 in
      ground (arith, headed_by, poke-overflow (be32 0 ++ post) 4 (serialize m) (omega arith))

-- Where the parser inverts the serializer, a message of at most 4092 bytes that `FillEmptyBuffer` has
-- put into a new buffer, and whose bytes arrive in a valid input buffer, is what `OnMessage` hands
-- over there, and it leaves exactly what follows.
pub on_message-fill_empty_buffer :
    {M : Type 0} (serialize : M → List ℕ) (parse : List ℕ → M) (m : M) (u s : Buffer)
    (rest : List ℕ)
    → ((x : M) → parse (serialize x) ≡ x)
    → length (serialize m) ≤ 4092
    → fill_empty_buffer serialize m new ≡ some u
    → IsValid s
    → contents s ≡ contents u ++ rest
    → (t : Buffer) × (on_message parse s ≡ some (some m, t)) × (contents t ≡ rest)
on_message-fill_empty_buffer serialize parse m u s rest inverse h sent v e =
    let (w, built, bytes, valid, cap) = fill_empty_buffer-frame serialize m h in
    let same : w ≡ u = ground (arith, built) in
    let (t, done, left, ok) =
      on_message-frame serialize parse s m rest inverse v (omega arith)
        (e ∙ ap (λ c. contents c ++ rest) (sym same) ∙ ap (λ c. c ++ rest) bytes) in
    (t, done, left)
