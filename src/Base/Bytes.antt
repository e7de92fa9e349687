-- ===== src/Base/Bytes.antt =====
-- Little-endian bytes of fixed-width words, and the `int64_t` that a word stands for.
use native.Mathlib.Nat.{pow-suc}
use jnet.Base.{
  ℕ, zero, suc, ◌+◌, ◌-◌, ◌*◌, ◌/◌, ◌%◌, ◌^◌, ◌<◌, ◌≡◌, refl, ap, ◌∙◌, List, [], ◌∷◌, arith, length,
  ltb, if◌then◌else◌,
}
use jnet.Base.Int.{ℤ, pos, negsuc}

-- The `n` low bytes of a word, as the processor lays them out in memory.
unfoldable pub le_bytes : ℕ → ℕ → List ℕ
le_bytes zero w = []
le_bytes (suc n) w = w % 256 ∷ le_bytes n (w / 256)

unfoldable pub from_le : List ℕ → ℕ
from_le [] = 0
from_le (b ∷ bs) = b + 256 * from_le bs

pub length-le_bytes : (n w : ℕ) → length (le_bytes n w) ≡ n
unfolding le_bytes
length-le_bytes zero w = refl
length-le_bytes (suc n) w = ap suc (length-le_bytes n (w / 256))

pub from_le-le_bytes : (n w m : ℕ) → m ≡ 256 ^ n → w < m → from_le (le_bytes n w) ≡ w
unfolding le_bytes from_le
from_le-le_bytes zero w m e h = omega arith
from_le-le_bytes (suc n) w m e h =
    omega (arith, from_le-le_bytes n (w / 256) (256 ^ n) refl (omega (arith, e, pow-suc 256 n)))

-- The bit pattern of an `int64_t`.
unfoldable pub to_u64 : ℤ → ℕ
to_u64 (pos n) = n % 2 ^ 64
to_u64 (negsuc n) = 2 ^ 64 - 1 - n % 2 ^ 64

unfoldable pub of_u64 : ℕ → ℤ
of_u64 w = if ltb w (2 ^ 63) then pos w else negsuc (2 ^ 64 - 1 - w)

-- The values of the type.
abbrev pub IsInt64 : ℤ → Type 0
IsInt64 (pos n) = n < 2 ^ 63
IsInt64 (negsuc n) = n < 2 ^ 63

pub of_u64-to_u64 : (z : ℤ) → IsInt64 z → of_u64 (to_u64 z) ≡ z
unfolding of_u64 to_u64
of_u64-to_u64 (pos n) h = ground arith
of_u64-to_u64 (negsuc n) h = ground arith

pub to_u64-lt : (z : ℤ) → to_u64 z < 2 ^ 64
unfolding to_u64
to_u64-lt (pos n) = omega arith
to_u64-lt (negsuc n) = omega arith

-- An `int64_t` written to memory is read back from its eight bytes.
pub of_u64-from_le : (z : ℤ) → IsInt64 z → of_u64 (from_le (le_bytes 8 (to_u64 z))) ≡ z
of_u64-from_le z h =
    ap of_u64 (from_le-le_bytes 8 (to_u64 z) (2 ^ 64) refl (to_u64-lt z)) ∙ of_u64-to_u64 z h
