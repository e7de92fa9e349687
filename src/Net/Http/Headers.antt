-- ===== src/Net/Http/Headers.antt =====
-- What `DecodeHeader_` of net/http.cc does with a header line: the loop behind its trimming.
use jnet.Base.{
  ℕ, zero, suc, ◌+◌, ◌≤◌, ◌<◌, ◌≡◌, refl, sym, ap, ◌∙◌, ◌⊎◌, inl, inr, false, none, some, List, [],
  ◌∷◌, arith, length, drop, Option-cases,
}
use jnet.Net.Http.{
  Outcome, hangs, undefined, Dict, HttpMsg, HttpRequest, spaces, step_back,
  trime_space_and_to_lower, decode_header, try_decode_msg, try_decode_request,
}
use jnet.Net.Http.Text.{bytes_of, crlf, two_crlf, find, find_at, is_space, at_place}
use jnet.Net.Http.Places.{find_at-Found, at_place-drop}

step_back-stays :
    (buf : List ℕ) (e c : ℕ)
    → at_place buf e ≡ some c
    → is_space c ≡ false
    → step_back buf e ≡ some e
unfolding step_back
step_back-stays buf zero c at s = ground (arith, at, s)
step_back-stays buf (suc e) c at s = ground (arith, at, s)

-- A text that ends in a byte other than a space is trimmed without end.
trime-hangs :
    (buf : List ℕ) (start e c : ℕ)
    → start ≤ length buf
    → at_place buf e ≡ some c
    → is_space c ≡ false
    → start + spaces (drop start buf) ≤ e
    → trime_space_and_to_lower buf start (some e) ≡ hangs
unfolding trime_space_and_to_lower
trime-hangs buf start e c le at s front = ground (arith, step_back-stays buf e c at s)

trime-none : (buf : List ℕ) (start : ℕ) → trime_space_and_to_lower buf start none ≡ undefined
unfolding trime_space_and_to_lower
trime-none buf start = ground arith

-- No value is reached.
abbrev pub Lost {ℓ} : {A : Type ℓ} → Outcome A → Type ℓ
Lost o = (o ≡ hangs) ⊎ (o ≡ undefined)

trime-Lost :
    (buf : List ℕ) (start : ℕ)
    → start ≤ length buf
    → Lost (trime_space_and_to_lower buf start (find buf (bytes_of ":") start))
trime-Lost buf start le = elim (Option-cases (find buf (bytes_of ":") start)) [
  | inl none_there ↦ inr (ap (trime_space_and_to_lower buf start) none_there ∙ trime-none buf start)
  | inr (p, there) ↦
      let f =
        find_at-Found 58 start p (drop start buf) (unfold is_space in refl)
          (unfold find in there) in
      inl (
        ap (trime_space_and_to_lower buf start) there
        ∙ trime-hangs buf start p 58 le
            (ap (at_place buf) f.place ∙ sym (at_place-drop start f.steps buf le) ∙ f.byte)
            (unfold is_space in refl) (omega (arith, f.place, f.front)))
]

decode_header-Lost :
    (fuel : ℕ) (buf : List ℕ) (start end : ℕ) (headers : Dict)
    → start < end
    → start ≤ length buf
    → Lost (decode_header fuel buf start end headers)
unfolding decode_header
decode_header-Lost zero buf start end headers h le = inl refl
decode_header-Lost (suc fuel) buf start end headers h le = elim (trime-Lost buf start le) [
  | inl never ↦ inl (ground (arith, never))
  | inr outside ↦ inr (ground (arith, outside))
]

try_decode_msg-Lost :
    (m : HttpMsg) (buf : List ℕ) (c p : ℕ)
    → m.is_complete ≡ false
    → m.content_len ≡ 0
    → find buf crlf 0 ≡ some c
    → find buf two_crlf 0 ≡ some p
    → c + 3 < p
    → c + 3 ≤ length buf
    → Lost (try_decode_msg m buf)
unfolding try_decode_msg
try_decode_msg-Lost m buf c p undecoded no_length line blank h le =
    elim (decode_header-Lost (length buf) buf (c + 1 + 2) p m.headers (omega arith) (omega arith)) [
      | inl never ↦ inl (ground (arith, never))
      | inr outside ↦ inr (ground (arith, outside))
    ]

-- The place of a pattern is inside the text.
find_at-lt : (pat : List ℕ) (i p : ℕ) (xs : List ℕ) → find_at pat i xs ≡ some p → p < i + length xs
unfolding find_at
find_at-lt pat i p [] h = absurd cc
find_at-lt pat i p (x ∷ xs) h = ground (arith, find_at-lt pat (i + 1) p xs)

-- A request for a record that is not complete and has no length, of a text whose first blank line is
-- more than three bytes behind its first line end, as with any header of two bytes or more: its
-- decoding does not come to an end, or it reads in front of the text.
pub try_decode_request-Lost :
    (r : HttpRequest) (buf : List ℕ) (c p : ℕ)
    → r.msg.is_complete ≡ false
    → r.msg.content_len ≡ 0
    → find buf crlf 0 ≡ some c
    → find buf two_crlf 0 ≡ some p
    → c + 3 < p
    → Lost (try_decode_request r buf)
unfolding try_decode_request
try_decode_request-Lost r buf c p undecoded no_length line blank h =
    elim (try_decode_msg-Lost r.msg buf c p undecoded no_length line blank h
      (omega (arith, find_at-lt two_crlf 0 p buf (unfold find in blank)))) [
        | inl never ↦ inl (ground (arith, never))
        | inr outside ↦ inr (ground (arith, outside))
      ]
