-- ===== src/Record/Page/Inv.antt =====
-- The invariant of a page of records, which every operation of `RecordPageHandler` keeps.
use native.Mathlib.Decide.{ℕ_discrete}
use landbase.Base.{
  ℕ, ◌+◌, ◌-◌, ◌<◌, ◌≡◌, refl, ap, sym, ◌∙◌, ◌≢◌, inl, inr, Bool, true, false, not, ◌&&◌, ◌||◌,
  Option, none, some, List, arith, ◌==◌, Bool-cases,
}
use landbase.Base.Count.{count_where, count_where-insert, count_where_full}
use landbase.Bitmap.{get_bit, set_bit, clear_bit, next_unsetted_bit}
use landbase.Bitmap.Bits as BitLaws
use landbase.Bitmap.Bits.{get-set_bit, get-clear_bit, set_bit-IsValid, clear_bit-IsValid}
use landbase.Bitmap.Search.{First}
use landbase.Bitmap.Find.{next_unsetted_bit-First}
use landbase.Record.Layout.{PageHeader, IsLaidOut}
use landbase.Record.Page.{RecordPage, bits, with_bits, put_record, cleanup}

pub record IsValid (p : RecordPage) : Type 0 where
  pub bitmap_valid : BitLaws.IsValid (bits p)
  pub laid_out : IsLaidOut p.header
  pub counted : p.record_num ≡ count_where (get_bit (bits p)) p.record_capacity

-- A page whose `record_num` is below its capacity has a free slot, and `next_unsetted_bit` finds
-- the lowest one.
pub free_slot :
    {p : RecordPage}
    → IsValid p
    → p.record_num ≢ p.record_capacity
    → (k : ℕ) × (next_unsetted_bit (bits p) 0 ≡ some k)
      × (k < p.record_capacity)
      × (get_bit (bits p) k ≡ false)
      × ((i : ℕ) → i < k → get_bit (bits p) i ≡ true)
free_slot {p} v ne =
    go (next_unsetted_bit (bits p) 0) refl (next_unsetted_bit-First (bits p) 0 (inl (omega arith)))
  where
    negated : (b : Bool) (c : Bool) → not b ≡ c → b ≡ not c
    negated b c h = ground arith

    go :
        (r : Option ℕ)
        → next_unsetted_bit (bits p) 0 ≡ r
        → First (λ i. not (get_bit (bits p) i)) 0 p.record_capacity r
        → (k : ℕ) × (next_unsetted_bit (bits p) 0 ≡ some k)
          × (k < p.record_capacity)
          × (get_bit (bits p) k ≡ false)
          × ((i : ℕ) → i < k → get_bit (bits p) i ≡ true)
    go none e f = absurd (
        ne (
          v.counted
          ∙ count_where_full (get_bit (bits p)) p.record_capacity
              (λ i h. negated _ false (f i (omega arith) h))))
    go (some k) e f =
        (k, e, f.1, negated _ true f.2, λ i h. negated _ false (f.3 i (omega arith) h))

relaid : {h : PageHeader} (n : ℕ) → IsLaidOut h → IsLaidOut (record h { record_num = n })
relaid n l = record { fits = l.fits; bitmap_before = l.bitmap_before; in_page = l.in_page }

or_of_cleared : (f : ℕ → Bool) (k i : ℕ) → f k ≡ true → f i ≡ (k == i || (not (k == i) && f i))
or_of_cleared f k i e = elim (ℕ_discrete k i) [
  | yes same ↦ rw (← same) (ground arith)
  | no ne ↦ ground arith
]

module _ (p : RecordPage) (v : IsValid p) (k : ℕ) (lt : k < p.record_capacity) where
  pub occupy-IsValid :
      get_bit (bits p) k ≡ false → IsValid (with_bits p (set_bit (bits p) k) (p.record_num + 1))
  unfolding set_bit
  occupy-IsValid free = record {
    bitmap_valid = set_bit-IsValid k v.bitmap_valid;
    laid_out = relaid (p.record_num + 1) v.laid_out;
    counted =
        ap (λ n. n + 1) v.counted
        ∙ sym (
            count_where-insert (get_bit (bits p)) (get_bit (set_bit (bits p) k)) k p.record_capacity
              lt free (λ i h. get-set_bit v.bitmap_valid k i lt));
  }

  pub vacate-IsValid :
      get_bit (bits p) k ≡ true → IsValid (with_bits p (clear_bit (bits p) k) (p.record_num - 1))
  unfolding clear_bit
  vacate-IsValid held = record {
    bitmap_valid = clear_bit-IsValid k v.bitmap_valid;
    laid_out = relaid (p.record_num - 1) v.laid_out;
    counted = omega (arith, v.counted, shrunk);
  }
    where
      after : ℕ → Bool
      after = get_bit (clear_bit (bits p) k)

      law : (i : ℕ) → after i ≡ (not (k == i) && get_bit (bits p) i)
      law i = get-clear_bit v.bitmap_valid k i lt

      shrunk :
          count_where (get_bit (bits p)) p.record_capacity ≡ count_where after p.record_capacity + 1
      shrunk =
          count_where-insert after (get_bit (bits p)) k p.record_capacity lt (law k ∙ ground arith)
            (λ i h. or_of_cleared (get_bit (bits p)) k i held ∙ ap (λ b. k == i || b) (sym (law i)))

pub put_record-IsValid :
    (p : RecordPage) (slot : ℕ) (d : List ℕ) → IsValid p → IsValid (put_record p slot d)
unfolding put_record
put_record-IsValid p slot d v = record {
  bitmap_valid = v.bitmap_valid;
  laid_out = v.laid_out;
  counted = v.counted;
}

pub dirtied-IsValid : (p : RecordPage) → IsValid p → IsValid (record p { dirty = true })
dirtied-IsValid p v = record {
  bitmap_valid = v.bitmap_valid;
  laid_out = v.laid_out;
  counted = v.counted;
}

pub cleanup-IsValid : (p : RecordPage) → IsValid p → IsValid (cleanup p)
unfolding cleanup
cleanup-IsValid p v = elim (Bool-cases p.is_open) [
  | inl e ↦
      rw e (record { bitmap_valid = v.bitmap_valid; laid_out = v.laid_out; counted = v.counted })
  | inr e ↦ simp e v
]
