-- ===== src/Raft/Log.antt =====
-- raft/raft_log.h and raft/raft_log.cc: the log of a node, an index in memory over a file of
-- records. `none` stands for undefined behaviour or a failed assertion.
pub mod Records
pub mod Reload
pub mod Index
use mathlib.Core.Option
use jnet.Base.{
  ℕ, zero, suc, ◌+◌, ◌-◌, Bool, true, false, not, ◌&&◌, Option, none, some, List, [], ◌∷◌, ◌++◌,
  ltb, leb, ◌==◌, if◌then◌else◌, length, take, drop, get_elem?, replicate,
}
use jnet.Base.Int.{ℤ, pos, negsuc, ◌+ℤ◌, ◌-ℤ◌, ltb_ℤ, leb_ℤ, eq_ℤ}
use jnet.Base.Bytes.{le_bytes, from_le, to_u64, of_u64}
use jnet.Raft.Storage.{Storage}
use jnet.Raft.Entry.{LogEntry}

-- `offset_term` has the offset of each record in the file and its term.
pub record RaftLog (S : Type 0) : Type 0 where
  pub first_index : ℤ
  pub bytes : ℕ
  pub offset_term : List (ℕ × ℤ)
  pub storage : S

unfoldable pub new : {S : Type 0} → S → RaftLog S
new s = record { first_index = negsuc 0; bytes = 0; offset_term = []; storage = s }

-- `struct LogHeader`: eight bytes of term, four of length, four of padding.
abbrev pub header_size : ℕ
header_size = 16

abbrev pub header : ℤ → ℕ → List ℕ
header term len = le_bytes 8 (to_u64 term) ++ (le_bytes 4 len ++ replicate 4 0)

-- The fields of a header of which the given bytes were read; the others are still 0.
abbrev pub header_term : List ℕ → ℤ
header_term h = of_u64 (from_le (take 8 h))

abbrev pub header_len : List ℕ → ℕ
header_len h = from_le (take 4 (drop 8 h))

-- `index - firstIndex_` as a position. The difference is compared as an unsigned number, so a
-- negative one is past every position.
abbrev pub position : ℤ → Option ℕ
position (pos n) = some n
position (negsuc n) = none

abbrev pub below : Option ℕ → ℕ → Bool
below none size = false
below (some n) size = ltb n size

-- The `std::string` made of a `char*`: the bytes before the first zero byte. Without one, the
-- search runs out of the array.
abbrev pub c_string : List ℕ → Option (List ℕ)
c_string [] = none
c_string (b ∷ bs) = if b == 0 then some [] else Option.map (λ r. b ∷ r) (c_string bs)

-- `erase(begin() + i)`.
abbrev pub erase_at : List (ℕ × ℤ) → ℕ → List (ℕ × ℤ)
erase_at [] i = []
erase_at (x ∷ xs) zero = xs
erase_at (x ∷ xs) (suc i) = x ∷ erase_at xs i

module _ {S : Type 0} where
  -- `offset_term_[index - firstIndex_]`; outside the vector it is undefined.
  unfoldable pub meta : RaftLog S → ℤ → Option (ℕ × ℤ)
  meta l index = elim (position (index -ℤ l.first_index)) [
    | none ↦ none
    | some n ↦ get_elem? l.offset_term n
  ]

  unfoldable pub valid_index : RaftLog S → ℤ → Bool
  valid_index l index = below (position (index -ℤ l.first_index)) (length l.offset_term)

  unfoldable pub last_index : RaftLog S → ℤ
  last_index l = (pos (length l.offset_term) +ℤ l.first_index) -ℤ pos 1

  -- The early return is taken when the index is valid.
  unfoldable pub term_of : RaftLog S → ℤ → Option ℤ
  term_of l index =
      if valid_index l index
      then some (pos 0)
      else elim (meta l index) [ none ↦ none | some (off, term) ↦ some term ]

  unfoldable pub contain_log : RaftLog S → ℤ → ℤ → Bool
  contain_log l index term =
      if not (valid_index l index)
      then false
      else elim (meta l index) [ none ↦ false | some (off, t) ↦ eq_ℤ t term ]

module _ {S : Type 0} (disk : Storage S) where
  unfoldable pub append : (LogEntry → List ℕ) → RaftLog S → LogEntry → RaftLog S
  append serialize l entry =
      let str = serialize entry in
      elim (disk.write l.storage (header entry.term (length str)) l.bytes) [
        | none ↦ l
        | some s ↦ elim (disk.write s str (l.bytes + header_size)) [
          | none ↦ record l { storage = s }
          | some t ↦ record l {
            offset_term = l.offset_term ++ (l.bytes, entry.term) ∷ [];
            bytes = l.bytes + (length str + header_size);
            storage = t;
          }
        ]
      ]

  -- The loop of `Load`, with as much fuel as the file has bytes.
  unfoldable pub load_loop : ℕ → ℕ → RaftLog S → RaftLog S
  load_loop zero size l = l
  load_loop (suc fuel) size l = elim (ltb l.bytes size) [
    | false ↦ l
    | true ↦ elim (disk.read l.storage header_size l.bytes) [
      | none ↦ l
      | some h ↦
          let found = record l { offset_term = l.offset_term ++ (l.bytes, header_term h) ∷ [] } in
          elim (disk.read l.storage (header_len h) (l.bytes + header_size)) [
            | none ↦ found
            | some body ↦
                load_loop fuel size
                  (record found { bytes = l.bytes + (header_size + header_len h) })
          ]
    ]
  ]

  unfoldable pub load : RaftLog S → RaftLog S
  load l =
      let size = disk.file_size l.storage in
      elim (disk.read l.storage 8 l.bytes) [
        | none ↦ l
        | some p ↦ load_loop size size (record l {
          first_index = of_u64 (from_le (p ++ drop (length p) (le_bytes 8 (to_u64 l.first_index))));
          bytes = l.bytes + 8;
        })
      ]

  -- `Get`: the bytes that the entry is parsed from, `some none` being `nullptr`.
  unfoldable pub get : RaftLog S → ℤ → Option (Option (List ℕ))
  get l index = if not (valid_index l index) then some none else elim (meta l index) [
    | none ↦ none
    | some (off, term) ↦ elim (disk.read l.storage header_size off) [
      | none ↦ some none
      | some h ↦ elim (disk.read l.storage (header_len h) (off + header_size)) [
        | none ↦ some none
        | some body ↦ Option.map some (c_string body)
      ]
    ]
  ]

  unfoldable pub set_first_index : RaftLog S → ℤ → RaftLog S
  set_first_index l index = elim (disk.write l.storage (le_bytes 8 (to_u64 index)) l.bytes) [
    | none ↦ l
    | some s ↦ record l { bytes = l.bytes + 8; first_index = index; storage = s }
  ]

  -- The file is cut at the record of the index, and that one record leaves the vector.
  unfoldable pub cut : RaftLog S → ℤ → Option (RaftLog S)
  cut l index = elim (position (index -ℤ l.first_index)) [
    | none ↦ none
    | some n ↦ elim (get_elem? l.offset_term n) [
      | none ↦ none
      | some (off, term) ↦ elim (disk.truncate l.storage off) [
        | none ↦ none
        | some s ↦
            some (record l { bytes = off; offset_term = erase_at l.offset_term n; storage = s })
      ]
    ]
  ]

  unfoldable pub truncate : RaftLog S → ℤ → Option (RaftLog S)
  truncate l index =
      if not (valid_index l index)
      then some l
      else if leb_ℤ index l.first_index
      then elim (disk.truncate l.storage 0) [
        | none ↦ none
        | some s ↦ cut (set_first_index (record l { storage = s; bytes = 0 }) index) index
      ]
      else cut l index
