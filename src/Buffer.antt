-- ===== src/Buffer.antt =====
-- net/buffer.h and net/buffer.cc: the byte buffer of a connection, with its read position, its
-- write position and its allocation. A write that leaves the allocation is `none`.
pub mod Layout
pub mod Contents
pub mod Words
pub mod Growth
pub mod Space
mod Tests
use jnet.Base.{
  ℕ, ◌+◌, ◌*◌, ◌-◌, ◌%◌, ◌^◌, Bool, Option, none, some, List, [], ◌∷◌, ◌++◌, max, ltb, leb, ◌==◌,
  if◌then◌else◌, length, replicate, slice, poke, get_elem?, add_size, sub_size, be32, from_be32,
}

-- `buf` is the allocation: `cap` bytes, or none for a null pointer.
pub record Buffer : Type 0 where
  pub buf : List ℕ
  pub b : ℕ
  pub e : ℕ
  pub cap : ℕ
  pub exp : ℕ
  pub extra : ℕ

unfoldable pub new : Buffer
new = record { buf = []; b = 0; e = 0; cap = 0; exp = 4096; extra = 0 }

unfoldable pub clear : Buffer → Buffer
clear s = record s { buf = []; cap = 0; b = 0; e = 0 }

unfoldable pub get_size : Buffer → ℕ
get_size s = sub_size s.e s.b

unfoldable pub is_empty : Buffer → Bool
is_empty s = s.e == s.b

unfoldable pub get_space : Buffer → ℕ
get_space s = sub_size s.cap s.e

unfoldable pub add_bytes : Buffer → ℕ → Buffer
add_bytes s len = record s { e = add_size s.e len }

-- The bytes between the two positions: `Begin()`, `Peek()` and `GetData()` with `GetSize()`.
abbrev pub contents : Buffer → List ℕ
contents s = slice s.buf s.b (s.e - s.b)

-- `MoveHead` has an empty body.
unfoldable pub move_head : Buffer → Buffer
move_head s = s

-- The bytes of the new allocation past the copied ones are not initialised; they read as 0 here.
unfoldable pub expand : Buffer → ℕ → Buffer
unfolding get_size
expand s len =
    let ncap = max s.exp (max (2 * s.cap % 2 ^ 64) (add_size (get_size s) len)) in
    record s {
      buf = contents s ++ replicate (ncap - (s.e - s.b)) 0;
      e = sub_size s.e s.b;
      b = 0;
      cap = ncap;
    }

unfoldable pub make_room : Buffer → ℕ → Buffer
unfolding get_size move_head
make_room s len =
    if leb (add_size s.e len) s.cap
    then s
    else if ltb (add_size (get_size s) len) s.cap
    then move_head s
    else expand s len

-- `MakeRoom()` without an argument: at least `exp` bytes of space.
unfoldable pub make_space : Buffer → Buffer
unfolding get_space
make_space s = if ltb (get_space s) s.exp then expand s 0 else s

-- A copy to `End()`, which does not move the write position.
unfoldable pub write_end : Buffer → List ℕ → Option Buffer
write_end s p = elim (poke s.buf s.e p) [ none ↦ none | some buf ↦ some (record s { buf = buf }) ]

-- `Append(p, len)`: `memcpy(AllocRoom(len), p, len)`.
unfoldable pub append : Buffer → List ℕ → Option Buffer
append s p = elim (write_end (make_room s (length p)) p) [
  | none ↦ none
  | some t ↦ some (add_bytes t (length p))
]

unfoldable pub consume : Buffer → ℕ → Buffer
unfolding get_size clear
consume s len = let t = record s { b = add_size s.b len } in if get_size t == 0 then clear t else t

unfoldable pub ensure_writeable_bytes : Buffer → ℕ → Buffer
unfolding get_size
ensure_writeable_bytes s len = if ltb (get_size s) len then make_room s len else s

-- The `int32_t` is its bit pattern.
unfoldable pub append_int32 : Buffer → ℕ → Option Buffer
append_int32 s num = append s (be32 num)

abbrev pub word_of : List ℕ → Option ℕ
word_of (w ∷ x ∷ y ∷ z ∷ rest) = some (from_be32 w x y z)
word_of other = none

-- `none` is the failed assertion of a buffer with less than four bytes.
unfoldable pub peek_int32 : Buffer → Option ℕ
unfolding get_size
peek_int32 s = if leb 4 (get_size s) then word_of (slice s.buf s.b 4) else none

-- `Absorb(b)` for two different objects; both are returned. The three `memcpy` exchange the whole
-- objects, and `exp` is then exchanged back. An object that absorbs itself is left as it is.
unfoldable pub absorb : Buffer → Buffer → Option (Buffer × Buffer)
unfolding get_size
absorb s o =
    if get_size s == 0
    then some (record o { exp = s.exp }, record s { exp = o.exp })
    else elim (append s (contents o)) [ none ↦ none | some t ↦ some (t, clear o) ]

-- `CopyFrom(b)`: the object is copied as it is, its allocation is replaced by one that holds the
-- bytes between the positions.
unfoldable pub copy_from : Buffer → Buffer
copy_from o = elim o.buf [
  | [] ↦ o
  | x ∷ xs ↦ record o {
    buf = replicate o.b 0 ++ (contents o ++ replicate (o.cap - o.b - (o.e - o.b)) 0);
  }
]
