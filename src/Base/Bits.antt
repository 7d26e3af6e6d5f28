-- ===== src/Base/Bits.antt =====
-- The bits of a byte, by the masks of deps/common/lang/bitmap.cpp: laws checked over all bytes.
use Prim.Native.Nat.{ℕ, zero, suc, ◌-◌, ◌^◌, ◌<◌, bit_and, bit_or}
use mathlib.Core.Path.{◌≡◌, refl}
use mathlib.Core.Bool.{Bool, true, false, not, ◌&&◌, ◌||◌}
use native.Mathlib.Omega.{arith}
use landbase.Base.Tests.{ltb, ◌==◌}

-- Does a test pass at every number under `top`?
passes_under : (ℕ → Bool) → ℕ → Bool
passes_under test zero = true
passes_under test (suc top) = passes_under test top && test top

passes_under-at :
    (test : ℕ → Bool) (top k : ℕ) → k < top → passes_under test top ≡ true → test k ≡ true
unfolding passes_under
passes_under-at test zero k h e = absurd (omega arith)
passes_under-at test (suc top) k h e = ground (arith, passes_under-at test top k)

-- `(byte & (1 << i)) != 0`
unfoldable pub byte_bit : ℕ → ℕ → Bool
byte_bit b i = not (bit_and b (2 ^ i) == 0)

-- `byte |= 1 << i`
unfoldable pub byte_set : ℕ → ℕ → ℕ
byte_set b i = bit_or b (2 ^ i)

-- `byte &= ~(1 << i)`, on eight bits
unfoldable pub byte_clear : ℕ → ℕ → ℕ
byte_clear b i = bit_and b (255 - 2 ^ i)

xorb : Bool → Bool → Bool
xorb true b = not b
xorb false b = b

set_row : ℕ → ℕ → ℕ → Bool
unfolding byte_bit byte_set byte_clear xorb
set_row b i j =
    ltb (byte_set b i) 256
    && (ltb (byte_clear b i) 256
        && (not (xorb (byte_bit (byte_set b i) j) (i == j || byte_bit b j))
            && not (xorb (byte_bit (byte_clear b i) j) (not (i == j) && byte_bit b j))))

set_table : passes_under (λ b. passes_under (λ i. passes_under (λ j. set_row b i j) 8) 8) 256 ≡ true
unfolding passes_under set_row
set_table = refl

set_row-true : (b i j : ℕ) → b < 256 → i < 8 → j < 8 → set_row b i j ≡ true
set_row-true b i j hb hi hj =
    passes_under-at (λ j. set_row b i j) 8 j hj
      (passes_under-at (λ i. passes_under (λ j. set_row b i j) 8) 8 i hi
        (passes_under-at _ 256 b hb set_table))

xorb_eq : (a b : Bool) → not (xorb a b) ≡ true → a ≡ b
unfolding xorb
xorb_eq a b h = ground arith

module _ (b i j : ℕ) (hb : b < 256) (hi : i < 8) (hj : j < 8) where
  row :
      (byte_set b i < 256)
      × (byte_clear b i < 256)
      × (byte_bit (byte_set b i) j ≡ (i == j || byte_bit b j))
      × (byte_bit (byte_clear b i) j ≡ (not (i == j) && byte_bit b j))
  unfolding set_row
  row = (
    ground (arith, set_row-true b i j hb hi hj),
    ground (arith, set_row-true b i j hb hi hj),
    xorb_eq _ _ (ground (arith, set_row-true b i j hb hi hj)),
    xorb_eq _ _ (ground (arith, set_row-true b i j hb hi hj)),
  )

  pub bit-byte_set : byte_bit (byte_set b i) j ≡ (i == j || byte_bit b j)
  bit-byte_set = row.2

  pub bit-byte_clear : byte_bit (byte_clear b i) j ≡ (not (i == j) && byte_bit b j)
  bit-byte_clear = row.3

pub byte_set-lt : (b i : ℕ) → b < 256 → i < 8 → byte_set b i < 256
byte_set-lt b i hb hi = (row b i 0 hb hi (omega arith)).0

pub byte_clear-lt : (b i : ℕ) → b < 256 → i < 8 → byte_clear b i < 256
byte_clear-lt b i hb hi = (row b i 0 hb hi (omega arith)).1

not-true : (b : Bool) → not b ≡ true → b ≡ false
not-true b h = ground arith

full_table : passes_under (byte_bit 255) 8 ≡ true
unfolding passes_under byte_bit
full_table = refl

pub bit_full : (i : ℕ) → i < 8 → byte_bit 255 i ≡ true
bit_full i h = passes_under-at (byte_bit 255) 8 i h full_table

empty_table : passes_under (λ i. not (byte_bit 0 i)) 8 ≡ true
unfolding passes_under byte_bit
empty_table = refl

pub bit_empty : (i : ℕ) → i < 8 → byte_bit 0 i ≡ false
bit_empty i h =
    not-true (byte_bit 0 i) (passes_under-at (λ i. not (byte_bit 0 i)) 8 i h empty_table)
