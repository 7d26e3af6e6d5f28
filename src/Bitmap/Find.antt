-- ===== src/Bitmap/Find.antt =====
-- `next_unsetted_bit` and `next_setted_bit` of deps/common/lang/bitmap.cpp: when they find the
-- first bit, and for which bitmaps they pass one by.
use native.Mathlib.Decide.{dec_lt}
use mathlib.Core.Bool.{false≢true}
use landbase.Base.{
  ℕ, suc, ◌+◌, ◌-◌, ◌*◌, ◌/◌, ◌%◌, ◌≤◌, ◌<◌, ◌≡◌, refl, ap, subst, ◌∙◌, sym, ◌≢◌, ◌⊎◌, inl, inr,
  Bool, true, false, not, Option, none, some, arith, ltb, Bool-cases, get_or,
}
use landbase.Base.Bits.{byte_bit, bit_full, bit_empty}
use landbase.Bitmap.Search.{First, first_where-First, scan-First, scan_sound, scan-skip}
use landbase.Bitmap.{
  Bitmap, find_first_zero, find_first_setted, byte_count, get_bit, scan_bytes, within,
  next_unsetted_bit, next_setted_bit,
}

module _ (p : ℕ → Bool) (lo hi size : ℕ) (h : size ≤ hi) where
  within-First : (r : Option ℕ) → First p lo hi r → First p lo size (within size r)
  unfolding within
  within-First none f = λ i a b. f i a (omega arith)
  within-First (some k) f = elim (Bool-cases (ltb k size)) [
    | inl t ↦ rw t (f.0, ground arith, f.2, f.3)
    | inr n ↦ rw n (λ i a b. f.3 i a (ground arith))
  ]

within-some : (size k : ℕ) (r : Option ℕ) → within size r ≡ some k → (r ≡ some k) × (k < size)
unfolding within
within-some size k none e = cc
within-some size k (some j) e = ground arith

zero-First : (b s : ℕ) → s < 8 → First (λ i. not (byte_bit b i)) s 8 (find_first_zero b s)
unfolding find_first_zero
zero-First b s h = first_where-First (λ i. not (byte_bit b i)) s (8 - s) 8 (omega arith)

setted-First : (b s : ℕ) → s < 8 → First (byte_bit b) s 8 (find_first_setted b s)
unfolding find_first_setted
setted-First b s h = first_where-First (byte_bit b) s (8 - s) 8 (omega arith)

full_none : (i : ℕ) → i < 8 → not (byte_bit 255 i) ≡ false
full_none i h = ap not (bit_full i h)

byte_count-covers : (size q : ℕ) → size ≤ (q + (byte_count size - q)) * 8
unfolding byte_count
byte_count-covers size q = ground arith

-- A search from `start` begins in the byte `start / 8`, at its bit `start % 8`.
at_start :
    (p : ℕ → Bool) (start hi : ℕ) (r : Option ℕ)
    → First p (start / 8 * 8 + start % 8) hi r
    → First p start hi r
at_start p start hi r = subst (λ lo. First p lo hi r) (omega arith)

First-le :
    (p : ℕ → Bool) (lo hi i : ℕ) (r : Option ℕ)
    → lo ≤ i
    → i < hi
    → p i ≡ true
    → First p lo hi r
    → (k : ℕ) × (r ≡ some k) × (k ≤ i)
First-le p lo hi i none a b e f = absurd (false≢true (sym (f i a b) ∙ e))
First-le p lo hi i (some k) a b e f = (k, refl, not_after (dec_lt i k))
  where
    not_after : Dec (i < k) → k ≤ i
    not_after (yes c) = absurd (false≢true (sym (f.3 i a c) ∙ e))
    not_after (no c) = omega arith

-- The first round of a search in an empty byte only goes on to the next byte.
first_round :
    (m : Bitmap) (start i : ℕ)
    → get_or m.bytes (start / 8) 0 ≡ 0
    → i / 8 ≡ start / 8 + 1
    → i < m.size
    → (k : ℕ)
    → scan_bytes 0 find_first_setted m.bytes (start / 8) (start % 8) (byte_count m.size - start / 8)
      ≡ some k
    → scan_bytes 0 find_first_setted m.bytes
        (start / 8 + 1)
        (start % 8)
        (byte_count m.size - start / 8 - 1)
      ≡ some k
first_round m start i e q lt k h =
    sym (
      scan-skip byte_bit 0 find_first_setted setted-First bit_empty m.bytes (start / 8) (start % 8)
        (byte_count m.size - start / 8 - 1) e)
    ∙ ap (scan_bytes 0 find_first_setted m.bytes (start / 8) (start % 8)) rounds
    ∙ h
  where
    rounds : suc (byte_count m.size - start / 8 - 1) ≡ byte_count m.size - start / 8
    rounds = omega (arith, byte_count-covers m.size (start / 8))

module _ (m : Bitmap) (start : ℕ) where
  abbrev pub start_byte : ℕ
  start_byte = get_or m.bytes (start / 8) 0

  -- `next_unsetted_bit` returns the first clear bit at or after `start` and below the size, or
  -- nothing if there is none, provided that `start` is the first bit of a byte or the byte that
  -- holds it is not full.
  pub next_unsetted_bit-First :
      (start % 8 ≡ 0) ⊎ (start_byte ≢ 255)
      → First (λ i. not (get_bit m i)) start m.size (next_unsetted_bit m start)
  unfolding next_unsetted_bit get_bit
  next_unsetted_bit-First ok =
      within-First (λ i. not (get_bit m i)) start _ m.size (byte_count-covers m.size (start / 8)) _
        (at_start _ start _ _ (
          scan-First (λ b i. not (byte_bit b i)) 255 find_first_zero zero-First full_none m.bytes
            (start / 8) (start % 8) _ _ (omega arith) refl ok))

  -- `next_setted_bit` returns the first set bit at or after `start` and below the size, or nothing
  -- if there is none, provided that `start` is the first bit of a byte or the byte that holds it
  -- is not empty.
  pub next_setted_bit-First :
      (start % 8 ≡ 0) ⊎ (start_byte ≢ 0) → First (get_bit m) start m.size (next_setted_bit m start)
  unfolding next_setted_bit get_bit
  next_setted_bit-First ok =
      within-First (get_bit m) start _ m.size (byte_count-covers m.size (start / 8)) _ (
        at_start _ start _ _ (
          scan-First byte_bit 0 find_first_setted setted-First bit_empty m.bytes (start / 8)
            (start % 8) _ _ (omega arith) refl ok))

  -- Whatever the start, what `next_setted_bit` returns is a set bit, not before `start` and below
  -- the size.
  pub next_setted_bit_sound :
      (k : ℕ) → next_setted_bit m start ≡ some k → (start ≤ k) × (k < m.size) × (get_bit m k ≡ true)
  unfolding next_setted_bit get_bit
  next_setted_bit_sound k e =
      let (f, lt) = within-some m.size k _ e in
      let (a, b) =
        scan_sound byte_bit 0 find_first_setted setted-First bit_empty m.bytes (start / 8)
          (start % 8) _ k (omega arith) f in
      (omega arith, lt, b)

  -- A search for a set bit that starts inside an empty byte passes by the set bits of the next
  -- byte that stand below `start % 8` there: with such a bit it does not return the first one.
  pub next_setted_bit_misses :
      (i : ℕ)
      → start_byte ≡ 0
      → i / 8 ≡ start / 8 + 1
      → i % 8 < start % 8
      → i < m.size
      → get_bit m i ≡ true
      → ¬ First (get_bit m) start m.size (next_setted_bit m start)
  unfolding next_setted_bit get_bit
  next_setted_bit_misses i e q r lt set f =
      let (k, found, le) = First-le (get_bit m) start m.size i _ (omega arith) lt set f in
      let (scanned, _) = within-some m.size k _ found in
      let past =
        scan_sound byte_bit 0 find_first_setted setted-First bit_empty m.bytes (start / 8 + 1)
          (start % 8) (byte_count m.size - start / 8 - 1) k (omega arith)
          (first_round m start i e q lt k scanned) in
      absurd (omega (arith, past.0))
