-- ===== src/Bitmap.antt =====
-- deps/common/lang/bitmap.cpp: a bitmap over bytes that belong to somebody else, such as a page.
-- A byte is its unsigned value, so the source's test `byte != -1` reads `byte ≠ 255`, and the
-- result -1 of a search is `none`.
pub mod Bits
pub mod Search
pub mod Find
mod Tests
use landbase.Base.{
  ℕ, zero, suc, ◌+◌, ◌-◌, ◌*◌, ◌/◌, ◌%◌, Bool, true, false, not, Option, none, some, List, ltb,
  ◌==◌, if◌then◌else◌, get_or, set,
}
use landbase.Base.Bits.{byte_bit, byte_set, byte_clear}

-- The pointer `bitmap_` is the list of the bytes that it points to.
pub record Bitmap : Type 0 where
  pub bytes : List ℕ
  pub size : ℕ

-- `for (int i = start; i < 8; i++) if (p(i)) return i; return -1;`, with the rounds left.
pub first_where : (ℕ → Bool) → ℕ → ℕ → Option ℕ
first_where p i zero = none
first_where p i (suc rounds) =
    let rest = first_where p (i + 1) rounds in if p i then some i else rest

pub find_first_zero : ℕ → ℕ → Option ℕ
find_first_zero byte start = first_where (λ i. not (byte_bit byte i)) start (8 - start)

pub find_first_setted : ℕ → ℕ → Option ℕ
find_first_setted byte start = first_where (byte_bit byte) start (8 - start)

unfoldable pub byte_count : ℕ → ℕ
byte_count size = if size % 8 == 0 then size / 8 else size / 8 + 1

unfoldable pub get_bit : Bitmap → ℕ → Bool
get_bit m index = byte_bit (get_or m.bytes (index / 8) 0) (index % 8)

unfoldable pub set_bit : Bitmap → ℕ → Bitmap
set_bit m index = record m {
  bytes = set m.bytes (index / 8) (byte_set (get_or m.bytes (index / 8) 0) (index % 8));
}

unfoldable pub clear_bit : Bitmap → ℕ → Bitmap
clear_bit m index = record m {
  bytes = set m.bytes (index / 8) (byte_clear (get_or m.bytes (index / 8) 0) (index % 8));
}

-- The loop that the two searches share: bytes that equal `skip` are passed over, and only a byte
-- that was searched in vain resets `start_in_byte`.
pub scan_bytes : ℕ → (ℕ → ℕ → Option ℕ) → List ℕ → ℕ → ℕ → ℕ → Option ℕ
scan_bytes skip find bytes iter start_in_byte zero = none
scan_bytes skip find bytes iter start_in_byte (suc rounds) =
    let byte = get_or bytes iter 0 in
    let rest =
      scan_bytes skip find bytes (iter + 1) (if byte == skip then start_in_byte else 0) rounds in
    if byte == skip
    then rest
    else elim (find byte start_in_byte) [ some i ↦ some (iter * 8 + i) | none ↦ rest ]

-- `if (ret >= size_) ret = -1;`
within : ℕ → Option ℕ → Option ℕ
within size none = none
within size (some k) = if ltb k size then some k else none

unfoldable pub next_unsetted_bit : Bitmap → ℕ → Option ℕ
unfolding first_where find_first_zero byte_count scan_bytes within
next_unsetted_bit m start =
    within m.size (
      scan_bytes 255 find_first_zero m.bytes (start / 8) (start % 8)
        (byte_count m.size - start / 8))

unfoldable pub next_setted_bit : Bitmap → ℕ → Option ℕ
unfolding first_where find_first_setted byte_count scan_bytes within
next_setted_bit m start =
    within m.size (
      scan_bytes 0 find_first_setted m.bytes (start / 8) (start % 8)
        (byte_count m.size - start / 8))
