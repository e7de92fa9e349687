-- ===== src/Rpc/Codec.antt =====
-- rpc/protobuf/protobuf_codec.h and protobuf_codec.cc: a message travels as its length in four
-- bytes and its serialized bytes. The protobuf library is the parameter pair `serialize`, the bytes
-- of a message, and `parse`, the message object after `ParseFromArray`.
pub mod Frames
pub mod Sends
pub mod Faults
mod Tests
use jnet.Base.{
  ℕ, ◌+◌, ◌-◌, ◌%◌, ◌^◌, Bool, Option, none, some, List, [], ◌∷◌, ◌++◌, leb, ltb, ◌==◌,
  if◌then◌else◌, length, slice, poke, be32,
}
use jnet.Buffer
use jnet.Buffer.{Buffer, get_size, append_int32, add_bytes, peek_int32, consume}

abbrev pub header_len : ℕ
header_len = 4

-- `static_cast<size_t>` of an `int32_t` given by its bit pattern: the sign is extended.
abbrev pub size_of_int32 : ℕ → ℕ
size_of_int32 w = if ltb w (2 ^ 31) then w else w + (2 ^ 64 - 2 ^ 32)

-- `none` is a read that leaves the allocation.
unfoldable pub read_at : Buffer → ℕ → ℕ → Option (List ℕ)
read_at s off len =
    if leb (s.b + off + len) (length s.buf) then some (slice s.buf (s.b + off) len) else none

module _ {M : Type 0} (serialize : M → List ℕ) where
  -- Four bytes of length, then the message.
  abbrev pub frame : M → List ℕ
  frame m = be32 (length (serialize m)) ++ serialize m

  -- `SerializeWithCachedSizesToArray` writes at `Begin() + kHeaderLen`, and nothing makes room first.
  unfoldable pub serialize_to_buffer : M → Buffer → Option Buffer
  serialize_to_buffer m s = elim (poke s.buf (s.b + header_len) (serialize m)) [
    | none ↦ none
    | some bytes ↦ some (add_bytes (record s { buf = bytes }) (length (serialize m)))
  ]

  -- The length replaces the zero word that was appended first.
  unfoldable pub patch_length : M → Buffer → Option Buffer
  patch_length m s = elim (poke s.buf s.b (be32 (length (serialize m) % 2 ^ 32))) [
    | none ↦ none
    | some bytes ↦ some (record s { buf = bytes })
  ]

  -- `none` is also the failed assertion of a buffer that is not empty.
  unfoldable pub fill_empty_buffer : M → Buffer → Option Buffer
  fill_empty_buffer m s =
      if get_size s == 0
      then elim (append_int32 s 0) [
        | none ↦ none
        | some t ↦ elim (serialize_to_buffer m t) [ none ↦ none | some u ↦ patch_length m u ]
      ]
      else none

module _ {M : Type 0} (parse : List ℕ → M) where
  -- The branch of `OnMessage` that takes a packet, `len` being what the header says.
  unfoldable pub take_message : Buffer → ℕ → Option (Option M × Buffer)
  take_message s len = elim (read_at s header_len len) [
    | none ↦ none
    | some bytes ↦ some (some (parse bytes), consume s (len + header_len))
  ]

  -- One call of `OnMessage` on the input buffer: the message handed to the callback, if any, and
  -- the buffer left. `none` is the failed assertion of `PeekInt32`, or a read outside the allocation.
  unfoldable pub on_message : Buffer → Option (Option M × Buffer)
  on_message s = elim (peek_int32 s) [
    | none ↦ none
    | some len ↦
        if leb (size_of_int32 len) (get_size s)
        then take_message s (size_of_int32 len)
        else some (none, s)
  ]

  -- Several calls in a row, as successive read events make them.
  unfoldable pub on_messages : ℕ → Buffer → Option (List (Option M) × Buffer)
  on_messages ℕ.zero s = some ([], s)
  on_messages (ℕ.suc n) s = elim (on_message s) [
    | none ↦ none
    | some (m, t) ↦ elim (on_messages n t) [ none ↦ none | some (ms, u) ↦ some (m ∷ ms, u) ]
  ]
