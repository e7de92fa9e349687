-- ===== src/Net/Status/Packing.antt =====
-- What net/status.cc packs into an allocation, and what is read back.
use jnet.Base.{
  ℕ, ◌+◌, ◌%◌, ◌^◌, ◌<◌, ◌≡◌, refl, ap, ◌∙◌, true, none, some, List, [], ◌∷◌, ◌++◌, arith, leb,
  ◌==◌, length, length-append, take-all,
}
use jnet.Net.Http.Text.{Without}
use jnet.Net.Status.{
  Status, le32, word_at, of_message, from_format, code, ok, string_at, msg, copied, clone,
}

word_at-le32 : (w : ℕ) (rest : List ℕ) → w < 2 ^ 32 → word_at (le32 w ++ rest) ≡ some w
word_at-le32 w rest h = ap some (omega arith)

leb-length : (n : ℕ) → leb n n ≡ true
leb-length n = ground arith

string_at-zero : (text rest : List ℕ) → Without 0 text → string_at (text ++ 0 ∷ rest) ≡ some text
unfolding string_at
string_at-zero [] rest w = refl
string_at-zero (c ∷ text) rest w = ground (arith, string_at-zero text rest w.1)

string_at-none : (text : List ℕ) → Without 0 text → string_at text ≡ none
unfolding string_at
string_at-none [] w = refl
string_at-none (c ∷ text) w = ground (arith, string_at-none text w.1)

copied-all :
    (state : List ℕ) (size : ℕ) → size ≡ length state → copied state (some size) ≡ some (some state)
copied-all state size eq = ap (λ n. copied state (some n)) eq ∙ whole state
  where
    whole : (xs : List ℕ) → copied xs (some (length xs)) ≡ some (some xs)
    whole xs = rw (leb-length (length xs), take-all xs) refl

-- An allocation with its own size in front.
packed-copy :
    (n c : ℕ) (rest : List ℕ)
    → length rest + 8 ≡ n
    → n < 2 ^ 32
    → clone (some (le32 (n % 2 ^ 32) ++ (le32 c ++ rest)))
      ≡ some (some (le32 (n % 2 ^ 32) ++ (le32 c ++ rest)))
unfolding clone
packed-copy n c rest eq small =
    ap (copied (le32 (n % 2 ^ 32) ++ (le32 c ++ rest)))
      (word_at-le32 (n % 2 ^ 32) (le32 c ++ rest) (omega arith))
    ∙ copied-all (le32 (n % 2 ^ 32) ++ (le32 c ++ rest)) (n % 2 ^ 32) (omega arith)

packed-code :
    (size c : ℕ) (rest : List ℕ) → c < 2 ^ 32 → code (some (le32 size ++ (le32 c ++ rest))) ≡ some c
unfolding code
packed-code size c rest small = word_at-le32 c rest small

ok-code : (s : Status) (c : ℕ) → code s ≡ some c → ok s ≡ some (c == 0)
unfolding ok
ok-code s c h = ground (arith, h)

packed-msg :
    (size c : ℕ) (rest : List ℕ) → msg (some (le32 size ++ (le32 c ++ rest))) ≡ string_at rest
unfolding msg
packed-msg size c rest = refl

-- A status that `FromFormat` makes of a code and a text without a zero byte, which has less than
-- 2 ^ 32 - 9 bytes: its code and its message are those, it is fine just when the code is 0, and its
-- copy is the same.
pub msg-from_format :
    (c : ℕ) (text : List ℕ)
    → c < 2 ^ 32
    → length text + 9 < 2 ^ 32
    → Without 0 text
    → (code (from_format c text) ≡ some c)
      × (ok (from_format c text) ≡ some (c == 0))
      × (msg (from_format c text) ≡ some text)
      × (clone (from_format c text) ≡ some (from_format c text))
unfolding from_format
msg-from_format c text small short w =
    let size = (8 + length text + 1) % 2 ^ 32 in
    let rest = text ++ (0 ∷ []) in
    (
      packed-code size c rest small,
      ok-code (some (le32 size ++ (le32 c ++ rest))) c (packed-code size c rest small),
      packed-msg size c rest ∙ string_at-zero text [] w,
      packed-copy (8 + length text + 1) c rest (omega (arith, length-append text (0 ∷ [])))
          (omega arith),
    )

-- A status that the constructor makes of a code and a message without a zero byte, which has less
-- than 2 ^ 32 - 8 bytes: its code is that and its copy is the same, but its message has no end inside
-- the allocation.
pub msg-of_message :
    (c : ℕ) (text : List ℕ)
    → c < 2 ^ 32
    → length text + 8 < 2 ^ 32
    → Without 0 text
    → (code (of_message c text) ≡ some c)
      × (msg (of_message c text) ≡ none)
      × (clone (of_message c text) ≡ some (of_message c text))
unfolding of_message
msg-of_message c text small short w =
    let size = (length text + 8) % 2 ^ 32 in
    (
      packed-code size c text small,
      packed-msg size c text ∙ string_at-none text w,
      packed-copy (length text + 8) c text refl short,
    )
