-- ===== src/Raft/Log/Index.antt =====
-- The index of raft/raft_log.cc: which entries it finds, and what `Truncate` leaves of it.
use mathlib.Core.List.{flatten}
use jnet.Base.{
  ℕ, suc, ◌+◌, ◌≡◌, refl, sym, ap, ap₂, ◌∙◌, inl, inr, none, some, List, [], ◌∷◌, ◌++◌, map,
  append_assoc, append-nil, arith, length, length-append, take, take-append, get_elem?,
  get_elem?-none, get_elem?-lt, get_elem?-middle, if◌then◌else◌,
}
use jnet.Base.Int.{ℤ, pos, ◌-ℤ◌, eq_ℤ, -ℤ_parts, ℤ-cases}
use jnet.Raft.Storage.{Storage, IsReliable}
use jnet.Base.Bytes.{le_bytes, to_u64, length-le_bytes}
use jnet.Raft.Log.{
  RaftLog, valid_index, term_of, meta, contain_log, header_size, truncate, cut, erase_at,
}
use jnet.Raft.Log.Records.{
  Record, record_bytes, offsets, offsets-append, length-offsets, flat-append, length-record,
}
use jnet.Raft.Log.Reload.{Stores}

module _ {S : Type 0} where
  -- `Term` never returns the term of an entry: at a valid index it returns 0, and at any other it
  -- reads outside the vector.
  pub term_of_lem :
      (l : RaftLog S) (index : ℤ)
      → term_of l index ≡ (if valid_index l index then some (pos 0) else none)
  unfolding term_of valid_index meta
  term_of_lem l index = elim (ℤ-cases (index -ℤ l.first_index)) [
    | inl (n, e) ↦ ground (arith, get_elem?-none l.offset_term n)
    | inr (n, e) ↦ ground arith
  ]

  -- `ContainLog` holds exactly for the index and the term of an entry of the vector.
  pub contain_log_lem :
      (l : RaftLog S) (index term : ℤ) (n off : ℕ) (t : ℤ)
      → index -ℤ l.first_index ≡ pos n
      → get_elem? l.offset_term n ≡ some (off, t)
      → contain_log l index term ≡ eq_ℤ t term
  unfolding contain_log valid_index meta
  contain_log_lem l index term n off t e at = ground (arith, get_elem?-lt l.offset_term n at)

-- `Truncate` past the first entry: the file ends before the record, and that record alone leaves
-- the vector.
truncate-cut :
    {S : Type 0} (disk : Storage S) (l : RaftLog S) (index : ℤ) (n off : ℕ) (term : ℤ) (s : S)
    → index -ℤ l.first_index ≡ pos (suc n)
    → get_elem? l.offset_term (suc n) ≡ some (off, term)
    → disk.truncate l.storage off ≡ some s
    → truncate disk l index
      ≡ some (record l { bytes = off; offset_term = erase_at l.offset_term (suc n); storage = s })
unfolding truncate cut valid_index
truncate-cut disk l index n off term s e at done =
    ground (arith, get_elem?-lt l.offset_term (suc n) at, -ℤ_parts index l.first_index)

erase_at-middle :
    (xs : List (ℕ × ℤ)) (y : ℕ × ℤ) (zs : List (ℕ × ℤ))
    → erase_at (xs ++ y ∷ zs) (length xs) ≡ xs ++ zs
erase_at-middle [] y zs = refl
erase_at-middle (x ∷ xs) y zs = ap (λ r. x ∷ r) (erase_at-middle xs y zs)

module _ {S : Type 0} (disk : Storage S) (content : S → List ℕ)
    (reliable : IsReliable disk content) where
  -- `Truncate` at an entry behind the first one, on a disk that does not fail: the file then ends
  -- with the entries before it, while the vector loses that entry only and keeps those behind it.
  pub truncate-Stores :
      (l : RaftLog S) (first index : ℤ) (q r : Record) (pre post : List Record)
      → Stores disk content l first ((q ∷ pre) ++ r ∷ post)
      → index -ℤ first ≡ pos (length (q ∷ pre))
      → (t : RaftLog S) × (truncate disk l index ≡ some t)
        × (t.first_index ≡ first)
        × (content t.storage ≡ le_bytes 8 (to_u64 first) ++ flatten (map record_bytes (q ∷ pre)))
        × (t.bytes ≡ length (content t.storage))
        × (t.offset_term
            ≡ offsets 8 (q ∷ pre)
              ++ offsets (8 + length (flatten (map record_bytes ((q ∷ pre) ++ r ∷ [])))) post)
  unfolding flatten
  truncate-Stores l first index q r pre post st at =
      let (s, done, left) = reliable.truncate_inside l.storage off (
        omega (
          arith,
          cut_at,
          ap length file,
          length-append kept (flatten (map record_bytes (r ∷ post))),
        )) in
      let short : content s ≡ kept = left ∙ ap₂ take cut_at file ∙ take-append kept _ in
      (
        record l {
          bytes = off;
          offset_term = erase_at l.offset_term (length (q ∷ pre));
          storage = s;
        },
        truncate-cut disk l index (length pre) off r.0 s (ap (λ z. index -ℤ z) st.index ∙ at) found
            done,
        st.index,
        short,
        omega (arith, cut_at, ap length short),
        ap₂ erase_at places (sym (length-offsets (q ∷ pre) 8))
            ∙ erase_at-middle (offsets 8 (q ∷ pre)) (off, r.0) (offsets behind post)
            ∙ ap (λ k. offsets 8 (q ∷ pre) ++ offsets k post) next,
      )
    where
      kept : List ℕ
      kept = le_bytes 8 (to_u64 first) ++ flatten (map record_bytes (q ∷ pre))

      off : ℕ
      off = 8 + length (flatten (map record_bytes (q ∷ pre)))

      behind : ℕ
      behind = off + (header_size + length r.1)

      places : l.offset_term ≡ offsets 8 (q ∷ pre) ++ (off, r.0) ∷ offsets behind post
      places = st.places ∙ offsets-append (q ∷ pre) (r ∷ post) 8

      file : content l.storage ≡ kept ++ flatten (map record_bytes (r ∷ post))
      file =
          st.file
          ∙ ap (λ c. le_bytes 8 (to_u64 first) ++ c) (flat-append (q ∷ pre) (r ∷ post))
          ∙ sym (append_assoc (le_bytes 8 (to_u64 first)) (flatten (map record_bytes (q ∷ pre))) _)

      cut_at : off ≡ length kept
      cut_at = omega (
        arith,
        length-append (le_bytes 8 (to_u64 first)) (flatten (map record_bytes (q ∷ pre))),
        length-le_bytes 8 (to_u64 first),
      )

      found : get_elem? l.offset_term (length (q ∷ pre)) ≡ some (off, r.0)
      found =
          ap₂ get_elem? places (sym (length-offsets (q ∷ pre) 8))
          ∙ get_elem?-middle (offsets 8 (q ∷ pre)) (off, r.0) (offsets behind post)

      next : behind ≡ 8 + length (flatten (map record_bytes ((q ∷ pre) ++ r ∷ [])))
      next = omega (
        arith,
        ap length (
            flat-append (q ∷ pre) (r ∷ [])
            ∙ ap (λ c. flatten (map record_bytes (q ∷ pre)) ++ c) (append-nil (record_bytes r))),
        length-append (flatten (map record_bytes (q ∷ pre))) (record_bytes r),
        length-record r,
      )

  -- Where the entry that `Truncate` is called at is the last one, and not the first, on a disk that
  -- does not fail, what it leaves is exactly the log of the entries before it.
  pub truncate-last :
      (l : RaftLog S) (first index : ℤ) (q r : Record) (pre : List Record)
      → Stores disk content l first ((q ∷ pre) ++ r ∷ [])
      → index -ℤ first ≡ pos (length (q ∷ pre))
      → (t : RaftLog S) × (truncate disk l index ≡ some t) × Stores disk content t first (q ∷ pre)
  truncate-last l first index q r pre st at =
      let (t, done, i, file, end, places) = truncate-Stores l first index q r pre [] st at in
      (t, done, record { index = i; file = file; end = end; places = places ∙ append-nil _ })
