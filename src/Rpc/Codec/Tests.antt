-- ===== src/Rpc/Codec/Tests.antt =====
-- The codec's theorems at messages that are their own bytes.
use jnet.Base.{
  ℕ, ◌+◌, ap, sym, ◌≡◌, refl, none, some, List, [], ◌∷◌, ◌++◌, arith, length, replicate,
  length-replicate,
}
use jnet.Buffer.{Buffer, new, contents}
use jnet.Buffer.Layout.{IsValid}
use jnet.Rpc.Codec.{fill_empty_buffer, on_message}
use jnet.Rpc.Codec.Frames.{on_message-frame, on_message-waits}
use jnet.Rpc.Codec.Sends.{
  fill_empty_buffer-frame, fill_empty_buffer-overflow, on_message-fill_empty_buffer,
}

-- Two bytes to a message.
record Pair : Type 0 where
  left : ℕ
  right : ℕ

abbrev bytes : Pair → List ℕ
bytes p = p.left ∷ p.right ∷ []

abbrev pair : List ℕ → Pair
pair (x ∷ y ∷ rest) = record { left = x; right = y }
pair other = record { left = 0; right = 0 }

pair-bytes : (p : Pair) → pair (bytes p) ≡ p
pair-bytes p = refl

abbrev first : Pair
first = record { left = 7; right = 8 }

abbrev second : Pair
second = record { left = 9; right = 10 }

-- An input buffer that holds `c` and nothing else.
abbrev input : List ℕ → Buffer
input c = record {
  buf = c ++ 0 ∷ 0 ∷ [];
  b = 0;
  e = length c;
  cap = length c + 2;
  exp = 16;
  extra = 0;
}

abbrev two_frames : List ℕ
two_frames = 0 ∷ 0 ∷ 0 ∷ 2 ∷ 7 ∷ 8 ∷ 0 ∷ 0 ∷ 0 ∷ 2 ∷ 9 ∷ 10 ∷ []

on_message-frame-test :
    (t : Buffer) × (on_message pair (input two_frames) ≡ some (some first, t))
    × (contents t ≡ 0 ∷ 0 ∷ 0 ∷ 2 ∷ 9 ∷ 10 ∷ [])
    × IsValid t
on_message-frame-test =
    on_message-frame bytes pair (input two_frames) first (0 ∷ 0 ∷ 0 ∷ 2 ∷ 9 ∷ 10 ∷ []) pair-bytes
      (omega arith) (omega arith) refl

on_message-waits-test :
    on_message pair (input (0 ∷ 0 ∷ 0 ∷ 9 ∷ 1 ∷ [])) ≡ some (none, input (0 ∷ 0 ∷ 0 ∷ 9 ∷ 1 ∷ []))
on_message-waits-test =
    on_message-waits bytes pair (input (0 ∷ 0 ∷ 0 ∷ 9 ∷ 1 ∷ [])) 9 (1 ∷ []) (omega arith)
      (omega arith) refl (omega arith)

fill_empty_buffer-frame-test :
    (u : Buffer) × (fill_empty_buffer bytes first new ≡ some u)
    × (contents u ≡ 0 ∷ 0 ∷ 0 ∷ 2 ∷ 7 ∷ 8 ∷ [])
    × IsValid u
    × (u.cap ≡ 4096)
fill_empty_buffer-frame-test = fill_empty_buffer-frame bytes first (omega arith)

fill_empty_buffer-overflow-test : fill_empty_buffer {M = ℕ} (λ n. replicate n 1) 4093 new ≡ none
fill_empty_buffer-overflow-test =
    fill_empty_buffer-overflow (λ n. replicate n 1) 4093
      (omega (arith, length-replicate {A = ℕ} 4093 1))

on_message-fill_empty_buffer-test :
    (t : Buffer) × (on_message pair (input (0 ∷ 0 ∷ 0 ∷ 2 ∷ 7 ∷ 8 ∷ 5 ∷ [])) ≡ some (some first, t))
    × (contents t ≡ 5 ∷ [])
on_message-fill_empty_buffer-test =
    on_message-fill_empty_buffer bytes pair first (fill_empty_buffer-frame-test.0)
      (input (0 ∷ 0 ∷ 0 ∷ 2 ∷ 7 ∷ 8 ∷ 5 ∷ [])) (5 ∷ []) pair-bytes (omega arith)
      (fill_empty_buffer-frame-test.1) (omega arith)
      (ap (λ c. c ++ 5 ∷ []) (sym fill_empty_buffer-frame-test.2))
