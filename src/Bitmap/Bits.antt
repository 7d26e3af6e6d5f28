-- ===== src/Bitmap/Bits.antt =====
-- Reading back what `set_bit` and `clear_bit` of deps/common/lang/bitmap.cpp wrote.
use landbase.Base.{
  ℕ, ◌*◌, ◌/◌, ◌%◌, ◌≤◌, ◌<◌, ◌≡◌, not, ◌&&◌, ◌||◌, List, arith, ◌==◌, length, get_or, set,
  if◌then◌else◌, ap, All, All-set, All-get_or, length-set, get_or-set_self, get_or-set_ne,
}
use native.Mathlib.Decide.{ℕ_discrete}
use landbase.Base.Bits.{
  byte_set, byte_clear, bit-byte_set, bit-byte_clear, byte_set-lt, byte_clear-lt,
}
use landbase.Bitmap.{Bitmap, get_bit, set_bit, clear_bit}

-- The bytes are bytes, and there are enough of them for the bits.
pub record IsValid (m : Bitmap) : Type 0 where
  pub small : All (λ b. b < 256) m.bytes
  pub room : m.size ≤ 8 * length m.bytes

byte-set :
    (xs : List ℕ) (a b w : ℕ)
    → a < length xs
    → get_or (set xs a w) b 0 ≡ (if a == b then w else get_or xs b 0)
byte-set xs a b w h = elim (ℕ_discrete a b) [
  | yes e ↦ ground (arith, ap (λ k. get_or (set xs a w) k 0) e, get_or-set_self xs a w 0 h)
  | no ne ↦ ground (arith, get_or-set_ne xs a b w 0 ne)
]

module _ {m : Bitmap} (v : IsValid m) (i j : ℕ) (hi : i < m.size) where
  byte-lt : get_or m.bytes (i / 8) 0 < 256
  byte-lt = All-get_or (λ b. b < 256) m.bytes (i / 8) 0 v.small (omega arith)

  -- `set_bit` at an index within the size makes that bit read as set, and every bit at another
  -- index, in the same byte or not, reads as before.
  pub get-set_bit : get_bit (set_bit m i) j ≡ (i == j || get_bit m j)
  unfolding get_bit set_bit
  get-set_bit = ground (
    arith,
    byte-set m.bytes (i / 8) (j / 8) (byte_set (get_or m.bytes (i / 8) 0) (i % 8)),
    bit-byte_set (get_or m.bytes (i / 8) 0) (i % 8) (j % 8) byte-lt (omega arith) (omega arith),
    v.room,
  )

  -- `clear_bit` at an index within the size makes that bit read as clear, and every other bit
  -- reads as before.
  pub get-clear_bit : get_bit (clear_bit m i) j ≡ (not (i == j) && get_bit m j)
  unfolding get_bit clear_bit
  get-clear_bit = ground (
    arith,
    byte-set m.bytes (i / 8) (j / 8) (byte_clear (get_or m.bytes (i / 8) 0) (i % 8)),
    bit-byte_clear (get_or m.bytes (i / 8) 0) (i % 8) (j % 8) byte-lt (omega arith) (omega arith),
    v.room,
  )

module _ {m : Bitmap} (i : ℕ) (v : IsValid m) where
  pub set_bit-IsValid : IsValid (set_bit m i)
  unfolding set_bit
  set_bit-IsValid = record {
    small =
        All-set (λ b. b < 256) m.bytes (i / 8) _ v.small
          (byte_set-lt _ (i % 8) byte-lt' (omega arith));
    room =
        omega
          (arith, length-set m.bytes (i / 8) (byte_set (get_or m.bytes (i / 8) 0) (i % 8)), v.room);
  }
    where
      byte-lt' : get_or m.bytes (i / 8) 0 < 256
      byte-lt' = All-get_or (λ b. b < 256) m.bytes (i / 8) 0 v.small (omega arith)

  pub clear_bit-IsValid : IsValid (clear_bit m i)
  unfolding clear_bit
  clear_bit-IsValid = record {
    small =
        All-set (λ b. b < 256) m.bytes (i / 8) _ v.small
          (byte_clear-lt _ (i % 8) byte-lt' (omega arith));
    room =
        omega (
          arith,
          length-set m.bytes (i / 8) (byte_clear (get_or m.bytes (i / 8) 0) (i % 8)),
          v.room,
        );
  }
    where
      byte-lt' : get_or m.bytes (i / 8) 0 < 256
      byte-lt' = All-get_or (λ b. b < 256) m.bytes (i / 8) 0 v.small (omega arith)
