-- ===== src/Record/Page/Access.antt =====
-- What the operations of `RecordPageHandler` do to the records of a page, seen as a map from slots
-- to the bytes of the record there.
use native.Mathlib.Decide.{ℕ_discrete, dec_lt}
use landbase.Base.{
  ℕ, ◌+◌, ◌*◌, ◌≤◌, ◌<◌, ◌≡◌, ap, ◌∙◌, ◌≢◌, ◌⊎◌, inl, inr, true, false, ◌&&◌, ◌||◌, Option, none,
  some, List, arith, ltb, ◌==◌, ==_self, ==-ne, lt→ltb, if◌then◌else◌, length, take,
}
use landbase.Base.Memory.{read_bytes, read-write_bytes_self, read-write_bytes_apart}
use landbase.Bitmap.{Bitmap, get_bit, set_bit}
use landbase.Bitmap.Bits.{get-set_bit}
use landbase.Record.Page.Inv.{IsValid}
use landbase.Record.Page.{RecordPage, bits, get_record_data, with_bits, put_record}

-- The record in a slot.
abbrev pub lookup : RecordPage → ℕ → Option (List ℕ)
lookup p slot =
    if ltb slot p.record_capacity && get_bit (bits p) slot
    then some (read_bytes p.memory (get_record_data p slot) p.record_real_size)
    else none

slots_apart : (i j size : ℕ) → i < j → size * i + size ≤ size * j
slots_apart i j size h = grind arith

-- Two slots share no byte.
apart :
    (first size real i j : ℕ)
    → real ≤ size
    → i ≢ j
    → (first + size * j + real ≤ first + size * i) ⊎ (first + size * i + real ≤ first + size * j)
apart first size real i j fits ne = elim (dec_lt i j) [
  | yes lt ↦ inr (omega (arith, slots_apart i j size lt))
  | no ge ↦ inl (omega (arith, slots_apart j i size (omega arith)))
]

-- Writing a record shows in its own slot only.
pub lookup-put_record :
    (p : RecordPage) (k j : ℕ) (d : List ℕ)
    → p.record_real_size ≤ p.record_size
    → p.record_real_size ≤ length d
    → k < p.record_capacity
    → get_bit (bits p) k ≡ true
    → lookup (put_record p k d) j
      ≡ (if k == j then some (take p.record_real_size d) else lookup p j)
unfolding put_record get_record_data
lookup-put_record p k j d fits long lt held = elim (ℕ_discrete k j) [
  | yes e ↦
      rw (← e, ==_self k, held, lt→ltb k p.record_capacity lt)
        (ap some (read-write_bytes_self p.memory (get_record_data p k) p.record_real_size d long))
  | no ne ↦ rw (==-ne k j ne) (
      ap (λ r. if ltb j p.record_capacity && get_bit (bits p) j then some r else none)
        (read-write_bytes_apart p.memory (get_record_data p k) p.record_real_size d
          (get_record_data p j) p.record_real_size
          (apart p.first_record_offset p.record_size p.record_real_size k j fits ne)))
]

-- A change of one bit shows in its own slot only.
pub lookup_other :
    (p : RecordPage) (m : Bitmap) (n j : ℕ)
    → get_bit m j ≡ get_bit (bits p) j
    → lookup (with_bits p m n) j ≡ lookup p j
unfolding get_record_data get_bit
lookup_other p m n j e =
    ap
      (λ b.
        if ltb j p.record_capacity && b
        then some (read_bytes p.memory (get_record_data p j) p.record_real_size)
        else none)
      e

pub lookup_free : (p : RecordPage) (k : ℕ) → get_bit (bits p) k ≡ false → lookup p k ≡ none
lookup_free p k free = rw free (ground arith)

pub lookup_held :
    (p : RecordPage) (k : ℕ)
    → k < p.record_capacity
    → get_bit (bits p) k ≡ true
    → lookup p k ≡ some (read_bytes p.memory (get_record_data p k) p.record_real_size)
lookup_held p k lt held = rw (held, lt→ltb k p.record_capacity lt)

-- The page after slot `k` is occupied and the record is put there.
module _ (p : RecordPage) (d : List ℕ) (v : IsValid p) (long : p.record_real_size ≤ length d) where
  unfoldable pub occupied : ℕ → RecordPage
  occupied k = put_record (with_bits p (set_bit (bits p) k) (p.record_num + 1)) k d

  pub lookup-occupied :
      (k j : ℕ)
      → k < p.record_capacity
      → lookup (occupied k) j ≡ (if k == j then some (take p.record_real_size d) else lookup p j)
  unfolding occupied set_bit
  lookup-occupied k j lt =
      lookup-put_record (with_bits p (set_bit (bits p) k) (p.record_num + 1)) k j d v.laid_out.fits
        long lt held
      ∙ same (ℕ_discrete k j)
    where
      held : get_bit (set_bit (bits p) k) k ≡ true
      held = get-set_bit v.bitmap_valid k k lt ∙ ap (λ b. b || get_bit (bits p) k) (==_self k)

      same :
          Dec (k ≡ j)
          → (if k == j
              then some (take p.record_real_size d)
              else lookup (with_bits p (set_bit (bits p) k) (p.record_num + 1)) j)
            ≡ (if k == j then some (take p.record_real_size d) else lookup p j)
      same (yes e) = rw (e, ==_self j)
      same (no ne) = rw (==-ne k j ne) (
          lookup_other p (set_bit (bits p) k) (p.record_num + 1) j
            (get-set_bit v.bitmap_valid k j lt ∙ ap (λ b. b || get_bit (bits p) j) (==-ne k j ne)))
