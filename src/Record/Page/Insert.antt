-- ===== src/Record/Page/Insert.antt =====
-- `RecordPageHandler::insert_record`, `recover_insert_record` and `update_record`.
use landbase.Base.{
  ℕ, ◌+◌, ◌≤◌, ◌<◌, ◌≡◌, refl, ◌≢◌, inl, inr, true, false, none, some, List, arith, ◌==◌,
  lt→leb-false, if◌then◌else◌, Bool-cases, length, take,
}
use landbase.Rc.{success, invalid_argument, record_not_exist}
use landbase.Bitmap.{get_bit, set_bit}
use landbase.Record.Page.Inv.{IsValid, free_slot, occupy-IsValid, put_record-IsValid}
use landbase.Record.Page.Access.{
  lookup, lookup_free, lookup_held, lookup-put_record, occupied, lookup-occupied,
}
use landbase.Record.Page.{
  RecordPage, Rid, bits, with_bits, put_record, insert_record, update_record, recover_insert_record,
}

-- `q` is `p` with `record` put in slot `k` and every other slot as it was.
pub record Put (p q : RecordPage) (k : ℕ) (bytes : List ℕ) : Type 0 where
  pub slots : (j : ℕ) → lookup q j ≡ (if k == j then some bytes else lookup p j)
  pub valid : IsValid q

record_num-put_record :
    (p : RecordPage) (k : ℕ) (d : List ℕ) → (put_record p k d).record_num ≡ p.record_num
unfolding put_record
record_num-put_record p k d = refl

module _ {p : RecordPage} (d : List ℕ) (v : IsValid p) (long : p.record_real_size ≤ length d) where
  occupied-Put :
      (k : ℕ)
      → k < p.record_capacity
      → get_bit (bits p) k ≡ false
      → Put p (occupied p d v long k) k (take p.record_real_size d)
  unfolding occupied
  occupied-Put k lt free = record {
    slots = λ j. lookup-occupied p d v long k j lt;
    valid =
        put_record-IsValid (with_bits p (set_bit (bits p) k) (p.record_num + 1)) k d
          (occupy-IsValid p v k lt free);
  }

  put_record-Put :
      (k : ℕ)
      → k < p.record_capacity
      → get_bit (bits p) k ≡ true
      → Put p (put_record p k d) k (take p.record_real_size d)
  put_record-Put k lt held = record {
    slots = λ j. lookup-put_record p k j d v.laid_out.fits long lt held;
    valid = put_record-IsValid p k d v;
  }

  -- `insert_record` on a valid page that is open for writing and not full, with data of at least
  -- the record's size: it succeeds, names the lowest free slot, puts the record there and leaves
  -- every other slot as it was, counts one record more and keeps the invariant.
  pub insert_record_lem :
      p.readonly ≡ false
      → p.record_num ≢ p.record_capacity
      → (k : ℕ) × (q : RecordPage) × (insert_record p d
          ≡ some (success, some (record { page_num = p.page_num; slot_num = k }), q))
        × (lookup p k ≡ none)
        × ((i : ℕ) → i < k → lookup p i ≢ none)
        × (q.record_num ≡ p.record_num + 1)
        × Put p q k (take p.record_real_size d)
  unfolding insert_record occupied
  insert_record_lem w ne =
      let (k, found, lt, free, lower) = free_slot v ne in
      (
        k,
        occupied p d v long k,
        ground (arith, found),
        lookup_free p k free,
        λ i h e. held i (omega arith) (lower i h) e,
        record_num-put_record (with_bits p (set_bit (bits p) k) (p.record_num + 1)) k d,
        occupied-Put k lt free,
      )
    where
      held : (i : ℕ) → i < p.record_capacity → get_bit (bits p) i ≡ true → lookup p i ≢ none
      held i lt e n = cc (lookup_held p i lt e)

  -- Replaying an insertion into a slot of a valid page succeeds whether the slot is free or not,
  -- and leaves the record there and every other slot as it was.
  pub recover_insert_record-Put :
      (rid : Rid)
      → rid.slot_num < p.record_capacity
      → ((recover_insert_record p d rid).0 ≡ success)
        × Put p (recover_insert_record p d rid).1 rid.slot_num (take p.record_real_size d)
  unfolding recover_insert_record occupied
  recover_insert_record-Put rid lt = elim (Bool-cases (get_bit (bits p) rid.slot_num)) [
    | inl held ↦
        rw (lt→leb-false rid.slot_num p.record_capacity lt, held)
          (refl, put_record-Put rid.slot_num lt held)
    | inr free ↦
        rw (lt→leb-false rid.slot_num p.record_capacity lt, free)
          (refl, occupied-Put rid.slot_num lt free)
  ]

  -- `update_record` on a valid page that is open for writing: a slot past the capacity is an invalid
  -- argument and a free slot does not exist, with the page unchanged; else it succeeds, the slot
  -- holds the new record and every other slot is as it was.
  pub update_record_lem :
      (rid : Rid)
      → p.readonly ≡ false
      → (p.record_capacity ≤ rid.slot_num → update_record p d rid ≡ some (invalid_argument, p))
        × (rid.slot_num < p.record_capacity
            → lookup p rid.slot_num ≡ none
            → update_record p d rid ≡ some (record_not_exist, p))
        × (rid.slot_num < p.record_capacity
            → lookup p rid.slot_num ≢ none
            → (q : RecordPage) × (update_record p d rid ≡ some (success, q))
              × Put p q rid.slot_num (take p.record_real_size d))
  unfolding update_record
  update_record_lem rid w = (
    λ ge. ground arith,
    λ lt missing. ground (arith, lookup_held p rid.slot_num lt),
    λ lt there. elim (Bool-cases (get_bit (bits p) rid.slot_num)) [
      | inl held ↦ (
        put_record p rid.slot_num d,
        rw (w, lt→leb-false rid.slot_num p.record_capacity lt, held),
        put_record-Put rid.slot_num lt held,
      )
      | inr free ↦ absurd (there (lookup_free p rid.slot_num free))
    ],
  )
