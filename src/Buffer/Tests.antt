-- ===== src/Buffer/Tests.antt =====
-- Runs of the buffer, and its theorems at concrete buffers.
use mathlib.Core.List.{flatten}
use jnet.Base.{◌≡◌, refl, inl, inr, none, some, [], ◌∷◌, arith}
use jnet.Buffer.{
  Buffer, contents, get_size, expand, make_room, write_end, add_bytes, append, consume, absorb,
  append_int32, peek_int32, copy_from, make_space, get_space, ensure_writeable_bytes, is_empty,
}
use jnet.Buffer.Layout.{IsValid}
use jnet.Buffer.Contents.{append_lem, append-overflow, consume_lem, absorb_lem}
use jnet.Buffer.Words.{peek_int32-append_int32}
use jnet.Buffer.Growth.{IsFresh, append_all, append_all_lem}

-- Two consumed bytes, the contents 3, 4, 5, and three free bytes.
abbrev sample : Buffer
sample = record {
  buf = 1 ∷ 2 ∷ 3 ∷ 4 ∷ 5 ∷ 6 ∷ 7 ∷ 8 ∷ [];
  b = 2;
  e = 5;
  cap = 8;
  exp = 16;
  extra = 0;
}

abbrev small_new : Buffer
small_new = record { buf = []; b = 0; e = 0; cap = 0; exp = 4; extra = 0 }

sample-IsValid : IsValid sample
sample-IsValid = omega arith

small_new-IsFresh : IsFresh small_new
small_new-IsFresh = record { valid = omega arith; front = refl; amortised = omega arith }

append_keeps_order :
    append sample (9 ∷ 9 ∷ [])
    ≡ some (record sample { buf = 1 ∷ 2 ∷ 3 ∷ 4 ∷ 5 ∷ 9 ∷ 9 ∷ 8 ∷ []; e = 7 })
unfolding append make_room write_end add_bytes get_size
append_keeps_order = refl

consume_all : consume sample 3 ≡ record sample { buf = []; b = 0; e = 0; cap = 0 }
unfolding consume
consume_all = refl

ensure_counts_contents :
    ensure_writeable_bytes (record sample { e = 8 }) 6 ≡ record sample { e = 8 }
unfolding ensure_writeable_bytes get_size
ensure_counts_contents = refl

make_space_expands : get_space (make_space sample) ≡ 13
unfolding make_space get_space expand get_size
make_space_expands = refl

copy_keeps : contents (copy_from sample) ≡ 3 ∷ 4 ∷ 5 ∷ []
unfolding copy_from
copy_keeps = refl

sample_not_empty : is_empty sample ≡ is_empty (record sample { b = 4 })
unfolding is_empty
sample_not_empty = refl

append_lem-test :
    (u : Buffer) × (append sample (9 ∷ 9 ∷ []) ≡ some u)
    × (contents u ≡ 3 ∷ 4 ∷ 5 ∷ 9 ∷ 9 ∷ [])
    × IsValid u
    × (u.exp ≡ 16)
append_lem-test =
    append_lem sample (9 ∷ 9 ∷ []) sample-IsValid (omega arith) (omega arith) (inl (omega arith))

append-overflow_example : append sample (9 ∷ 9 ∷ 9 ∷ 9 ∷ []) ≡ none
append-overflow_example =
    append-overflow sample (9 ∷ 9 ∷ 9 ∷ 9 ∷ []) sample-IsValid (omega arith) (omega arith)
      (omega arith)

consume_lem-test :
    (contents (consume sample 2) ≡ 5 ∷ [])
    × IsValid (consume sample 2)
    × ((consume sample 2).exp ≡ 16)
consume_lem-test = consume_lem sample 2 sample-IsValid (omega arith)

absorb_lem-test :
    (t : Buffer) × (r : Buffer) × (absorb small_new sample ≡ some (t, r))
    × (contents t ≡ 3 ∷ 4 ∷ 5 ∷ [])
    × (contents r ≡ [])
    × IsValid t
    × IsValid r
    × (t.exp ≡ 4)
    × (r.exp ≡ 16)
absorb_lem-test =
    absorb_lem small_new sample (small_new-IsFresh.valid) sample-IsValid (omega arith) (omega arith)
      (inr (omega arith))

peek_int32-append_int32-test :
    (u : Buffer) × (append_int32 small_new 70000 ≡ some u) × (peek_int32 u ≡ some 70000) × IsValid u
peek_int32-append_int32-test =
    peek_int32-append_int32 small_new 70000 (small_new-IsFresh.valid) (omega arith)
      (inr (omega arith)) refl (omega arith)

append_all_lem-test :
    (u : Buffer) × (append_all small_new ((1 ∷ 2 ∷ []) ∷ (3 ∷ []) ∷ []) ≡ some u)
    × (contents u ≡ 1 ∷ 2 ∷ 3 ∷ [])
    × IsFresh u
    × (u.exp ≡ 4)
unfolding flatten
append_all_lem-test =
    append_all_lem small_new ((1 ∷ 2 ∷ []) ∷ (3 ∷ []) ∷ []) small_new-IsFresh (omega arith)
      (omega arith)
