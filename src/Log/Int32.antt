-- ===== src/Log/Int32.antt =====
-- The four bytes of an `int32_t`, low byte first, as `memcpy` and the file calls of
-- src/observer/storage/clog/clog.cpp move them.
use landbase.Base.{
  ℕ, ◌+◌, ◌-◌, ◌*◌, ◌^◌, ◌<◌, ◌≡◌, ap, ◌∙◌, List, ◌∷◌, ◌++◌, arith, ltb, if◌then◌else◌,
}
use landbase.Base.Int.{ℤ, pos, negsuc}
use landbase.Net.Wire.{le_bytes}

-- The bit pattern of an `int32_t`.
abbrev pub bits : ℤ → ℕ
bits (pos n) = n
bits (negsuc n) = 2 ^ 32 - 1 - n

abbrev pub of_bits : ℕ → ℤ
of_bits b = if ltb b (2 ^ 31) then pos b else negsuc (2 ^ 32 - 1 - b)

abbrev pub IsInt32 : ℤ → Type 0
IsInt32 (pos n) = n < 2 ^ 31
IsInt32 (negsuc n) = n < 2 ^ 31

-- `reinterpret_cast<char *>(&value)` for `sizeof(int32_t)` bytes.
unfoldable pub int32_bytes : ℤ → List ℕ
int32_bytes z = le_bytes 4 (bits z)

-- The number in the first four bytes.
abbrev pub word : List ℕ → ℕ
word (a ∷ b ∷ c ∷ d ∷ bytes) = a + 256 * (b + 256 * (c + 256 * d))
word bytes = 0

unfoldable pub int32_of : List ℕ → ℤ
int32_of bytes = of_bits (word bytes)

word-le_bytes : (v : ℕ) (rest : List ℕ) → v < 2 ^ 32 → word (le_bytes 4 v ++ rest) ≡ v
unfolding le_bytes
word-le_bytes v rest h = omega arith

of_bits-bits : (z : ℤ) → IsInt32 z → of_bits (bits z) ≡ z
of_bits-bits (pos n) h = ground arith
of_bits-bits (negsuc n) h = ground arith

bits_bound : (z : ℤ) → IsInt32 z → bits z < 2 ^ 32
bits_bound (pos n) h = omega arith
bits_bound (negsuc n) h = omega arith

pub int32_of-int32_bytes :
    (z : ℤ) (rest : List ℕ) → IsInt32 z → int32_of (int32_bytes z ++ rest) ≡ z
unfolding int32_of int32_bytes
int32_of-int32_bytes z rest h =
    ap of_bits (word-le_bytes (bits z) rest (bits_bound z h)) ∙ of_bits-bits z h
