-- ===== src/Net/LineCode.antt =====
-- net/codec.h and net/codec.cc: messages between line feeds. `LengthCode` decodes in the same way and
-- encodes nothing.
mod Tests
use mathlib.Core.List.{flatten}
use jnet.Base.{
  ℕ, zero, suc, ◌+◌, ◌%◌, ◌^◌, ◌≤◌, ◌<◌, ◌≡◌, refl, sym, ap, ◌∙◌, ◌⊎◌, inl, inr, Option, none, some,
  List, [], ◌∷◌, ◌++◌, arith, ap₂, length, take, append-nil, length-append,
}
use jnet.Buffer.{Buffer, contents, append}
use jnet.Buffer.Growth.{IsFresh, append_all, append_all_lem}
use jnet.Net.Http.{Outcome, returns, throws}
use jnet.Net.Http.Text.{find, find_at-first, find_at-none, Without}
use jnet.Net.Http.Places.{find-start, take-front}

-- `LineCode::TryDecode(data, msg)`: the message and the bits of the `int` that is returned. Without a
-- line feed, `assign` is given the count `npos` and throws.
unfoldable pub try_decode : List ℕ → Outcome (List ℕ × ℕ)
try_decode text = elim (find text (10 ∷ []) 0) [
  | none ↦ throws
  | some pos ↦ returns (take pos text, pos % 2 ^ 32)
]

-- `LineCode::Encode(msg, buffer)`; none is a write outside the buffer.
unfoldable pub encode : List ℕ → Buffer → Option Buffer
unfolding append
encode msg buffer = append buffer (msg ++ (10 ∷ []))

-- `LengthCode::TryDecode(data, msg)`, and its `Encode`.
unfoldable pub length_try_decode : List ℕ → Outcome (List ℕ × ℕ)
unfolding try_decode
length_try_decode text = try_decode text

unfoldable pub length_encode : List ℕ → Buffer → Option Buffer
length_encode msg buffer = some buffer

try_decode-found :
    (text : List ℕ) (pos : ℕ)
    → find text (10 ∷ []) 0 ≡ some pos
    → try_decode text ≡ returns (take pos text, pos % 2 ^ 32)
unfolding try_decode
try_decode-found text pos found = ground (arith, found)

try_decode-absent : (text : List ℕ) → find text (10 ∷ []) 0 ≡ none → try_decode text ≡ throws
unfolding try_decode
try_decode-absent text absent = ground (arith, absent)

-- A message without a line feed, of fewer than 2 ^ 32 bytes: with the line feed that `Encode` puts
-- behind it, and any bytes behind that, it is decoded with its length; alone, its decoding throws.
pub try_decode-line :
    (msg rest : List ℕ)
    → Without 10 msg
    → length msg < 2 ^ 32
    → (try_decode (msg ++ 10 ∷ rest) ≡ returns (msg, length msg)) × (try_decode msg ≡ throws)
try_decode-line msg rest w small = (
  try_decode-found (msg ++ 10 ∷ rest) (length msg) (
        find-start (msg ++ 10 ∷ rest) (10 ∷ []) (some (length msg))
          (find_at-first 10 [] 0 msg rest w ∙ ap some (omega arith)))
      ∙ ap₂ (λ a b. returns (a, b)) (take-front msg (10 ∷ rest)) (omega arith),
  try_decode-absent msg (find-start msg (10 ∷ []) none (find_at-none 10 [] 0 msg w)),
)

encode-append_all :
    (msg : List ℕ) (s : Buffer) → encode msg s ≡ append_all s ((msg ++ (10 ∷ [])) ∷ [])
unfolding encode append_all
encode-append_all msg s = ground arith

-- What `Encode` puts into an empty buffer that was never used, `TryDecode` reads back, for a message
-- without a line feed and of fewer than 2 ^ 32 bytes.
pub try_decode-encode :
    (msg : List ℕ) (s : Buffer)
    → IsFresh s
    → contents s ≡ []
    → s.e ≡ 0
    → s.exp ≤ 2 ^ 61
    → Without 10 msg
    → length msg + 1 < 2 ^ 32
    → (u : Buffer) × (encode msg s ≡ some u) × (try_decode (contents u) ≡ returns (msg, length msg))
unfolding flatten
try_decode-encode msg s fresh empty start sug w small =
    let line = msg ++ (10 ∷ []) in
    let (u, done, bytes, f, e) =
      append_all_lem s (line ∷ []) fresh sug
        (omega (arith, length-append line [], length-append msg (10 ∷ []))) in
    (
      u,
      encode-append_all msg s ∙ done,
      ap try_decode (bytes ∙ ap (λ c. c ++ (line ++ [])) empty ∙ append-nil line)
          ∙ (try_decode-line msg [] w (omega arith)).0,
    )
