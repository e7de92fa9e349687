-- ===== src/Raft/Log/Records.antt =====
-- The file format of raft/raft_log.cc: eight bytes of first index, then a header and the bytes of
-- each entry.
use mathlib.Core.List.{flatten}
use jnet.Base.{
  ℕ, suc, ◌+◌, ◌^◌, ◌<◌, ◌≡◌, refl, sym, ap, ◌∙◌, List, [], ◌∷◌, ◌++◌, map, append_assoc, arith,
  length, length-append, take, slice, take-append, drop-append, replicate,
}
use jnet.Base.Int.{ℤ}
use jnet.Base.Bytes.{le_bytes, to_u64, IsInt64, length-le_bytes, of_u64-from_le, from_le-le_bytes}
use jnet.Raft.Log.{header, header_size, header_term, header_len}

-- A record of the file: its term and its bytes.
abbrev pub Record : Type 0
Record = ℤ × List ℕ

abbrev pub record_bytes : Record → List ℕ
record_bytes (term, body) = header term (length body) ++ body

-- Where each record of a sequence starts, the first one at `off`.
abbrev pub offsets : ℕ → List Record → List (ℕ × ℤ)
offsets off [] = []
offsets off ((term, body) ∷ rs) = (off, term) ∷ offsets (off + (header_size + length body)) rs

abbrev pub AllFit : List Record → Type 0
AllFit [] = Unit {0}
AllFit ((term, body) ∷ rs) = IsInt64 term × (length body < 2 ^ 31) × AllFit rs

pub length-header : (term : ℤ) (len : ℕ) → length (header term len) ≡ header_size
length-header term len = omega (
  arith,
  length-append (le_bytes 8 (to_u64 term)) (le_bytes 4 len ++ replicate 4 0),
  length-append (le_bytes 4 len) (replicate 4 0),
  length-le_bytes 8 (to_u64 term),
  length-le_bytes 4 len,
)

pub header_term-header : (term : ℤ) (len : ℕ) → IsInt64 term → header_term (header term len) ≡ term
unfolding le_bytes
header_term-header term len h = of_u64-from_le term h

pub header_len-header : (term : ℤ) (len : ℕ) → len < 2 ^ 31 → header_len (header term len) ≡ len
unfolding le_bytes
header_len-header term len h = from_le-le_bytes 4 len (2 ^ 32) refl (omega arith)

-- A piece of a list of bytes, found again by its position.
pub slice-middle {ℓ} :
    {A : Type ℓ} (xs pre mid post : List A)
    → xs ≡ pre ++ (mid ++ post)
    → slice xs (length pre) (length mid) ≡ mid
slice-middle xs pre mid post e =
    rw e (ap (take (length mid)) (drop-append pre (mid ++ post)) ∙ take-append mid post)

pub length-record : (r : Record) → length (record_bytes r) ≡ header_size + length r.1
length-record (term, body) =
    omega (arith, length-append (header term (length body)) body, length-header term (length body))

pub offsets-append :
    (rs qs : List Record) (off : ℕ)
    → offsets off (rs ++ qs)
      ≡ offsets off rs ++ offsets (off + length (flatten (map record_bytes rs))) qs
unfolding flatten
offsets-append [] qs off = ap (λ k. offsets k qs) (omega arith)
offsets-append ((t, b) ∷ rs) qs off =
    ap (λ c. (off, t) ∷ c)
      (offsets-append rs qs (off + (header_size + length b))
        ∙ ap (λ k. offsets (off + (header_size + length b)) rs ++ offsets k qs)
            (omega (
              arith,
              length-record (t, b),
              length-append (record_bytes (t, b)) (flatten (map record_bytes rs)),
            )))

pub length-offsets : (rs : List Record) (off : ℕ) → length (offsets off rs) ≡ length rs
length-offsets [] off = refl
length-offsets ((t, b) ∷ rs) off = ap suc (length-offsets rs (off + (header_size + length b)))

pub flat-append :
    (rs qs : List Record)
    → flatten (map record_bytes (rs ++ qs))
      ≡ flatten (map record_bytes rs) ++ flatten (map record_bytes qs)
unfolding flatten
flat-append [] qs = refl
flat-append (x ∷ rs) qs =
    ap (λ c. record_bytes x ++ c) (flat-append rs qs)
    ∙ sym (append_assoc (record_bytes x) (flatten (map record_bytes rs)) _)
