-- ===== src/Record/Page/Delete.antt =====
-- `RecordPageHandler::delete_record` and `get_record`.
use native.Mathlib.Decide.{ℕ_discrete}
use landbase.Base.{
  ℕ, ◌-◌, ◌≤◌, ◌<◌, ◌≡◌, refl, ap, ◌∙◌, ◌≢◌, inl, inr, true, false, not, ◌&&◌, none, some, arith,
  leb, ◌==◌, ==_self, ==-ne, lt→leb-false, if◌then◌else◌, Bool-cases,
}
use landbase.Rc.{success, invalid_argument, record_not_exist, record_invalid_rid}
use landbase.Base.Count.{count_where_some}
use landbase.Bitmap.{get_bit, clear_bit}
use landbase.Bitmap.Bits.{get-clear_bit}
use landbase.Record.Page.Inv.{IsValid, vacate-IsValid, dirtied-IsValid, cleanup-IsValid}
use landbase.Record.Page.Access.{lookup, lookup_free, lookup_held, lookup_other}
use landbase.Record.Page.{
  RecordPage, Rid, bits, get_record_data, with_bits, cleanup, delete_record, get_record,
}

lookup-cleanup : (p : RecordPage) (j : ℕ) → lookup (cleanup p) j ≡ lookup p j
unfolding cleanup get_record_data
lookup-cleanup p j = ground arith

-- The page of which slot `k` was vacated.
module _ {p : RecordPage} (v : IsValid p) (k : ℕ) (lt : k < p.record_capacity)
    (held : get_bit (bits p) k ≡ true) where
  vacated : RecordPage
  vacated = record (with_bits p (clear_bit (bits p) k) (p.record_num - 1)) { dirty = true }

  vacated-IsValid : IsValid vacated
  unfolding vacated
  vacated-IsValid =
      dirtied-IsValid (with_bits p (clear_bit (bits p) k) (p.record_num - 1))
        (vacate-IsValid p v k lt held)

  lookup-vacated : (j : ℕ) → lookup vacated j ≡ (if k == j then none else lookup p j)
  unfolding vacated get_record_data clear_bit
  lookup-vacated j = elim (ℕ_discrete k j) [
    | yes e ↦
        rw (← e, ==_self k)
          (lookup_free vacated k (
            get-clear_bit v.bitmap_valid k k lt
            ∙ ap (λ b. not b && get_bit (bits p) k) (==_self k)))
    | no ne ↦ rw (==-ne k j ne) (
        lookup_other p (clear_bit (bits p) k) (p.record_num - 1) j (
          get-clear_bit v.bitmap_valid k j lt
          ∙ ap (λ b. not b && get_bit (bits p) j) (==-ne k j ne)))
  ]

-- `q` is `p` with slot `k` empty and every other slot as it was.
pub record Removed (p q : RecordPage) (k : ℕ) : Type 0 where
  pub slots : (j : ℕ) → lookup q j ≡ (if k == j then none else lookup p j)
  pub valid : IsValid q

vacated-Removed :
    {p : RecordPage} (v : IsValid p) (k : ℕ) (lt : k < p.record_capacity)
    (held : get_bit (bits p) k ≡ true)
    → Removed p (vacated v k lt held) k
vacated-Removed v k lt held = record {
  slots = lookup-vacated v k lt held;
  valid = vacated-IsValid v k lt held;
}

cleanup-Removed : {p q : RecordPage} {k : ℕ} → Removed p q k → Removed p (cleanup q) k
cleanup-Removed {p} {q} {k} r = record {
  slots = λ j. lookup-cleanup q j ∙ r.slots j;
  valid = cleanup-IsValid q r.valid;
}

-- What becomes of the frame of the page: after the last record the handler unlatches and unpins it
-- and forgets the pool, and otherwise it keeps all three.
pub record LetsGo (p q : RecordPage) : Type 0 where
  pub closed : q.is_open ≡ (if p.record_num == 1 then false else p.is_open)
  pub unlatched : q.latched ≡ (if p.record_num == 1 then false else p.latched)
  pub unpinned : q.pin_count ≡ (if p.record_num == 1 then p.pin_count - 1 else p.pin_count)

vacated-LetsGo :
    {p : RecordPage} (v : IsValid p) (k : ℕ) (lt : k < p.record_capacity)
    (held : get_bit (bits p) k ≡ true)
    → (p.record_num == 1) ≡ false
    → LetsGo p (vacated v k lt held)
unfolding vacated
vacated-LetsGo {p} v k lt held more = record {
  closed = rw more refl;
  unlatched = rw more refl;
  unpinned = rw more refl;
}

cleanup-LetsGo :
    {p : RecordPage} (v : IsValid p) (k : ℕ) (lt : k < p.record_capacity)
    (held : get_bit (bits p) k ≡ true)
    → p.is_open ≡ true
    → (p.record_num == 1) ≡ true
    → LetsGo p (cleanup (vacated v k lt held))
unfolding vacated cleanup
cleanup-LetsGo {p} v k lt held opened last = record {
  closed = rw (opened, last) refl;
  unlatched = rw (opened, last) refl;
  unpinned = rw (opened, last) refl;
}

-- `delete_record` on a valid page that is open for writing: a slot past the capacity is an invalid
-- argument and a free slot does not exist, with the page unchanged; else it succeeds, the slot is
-- free and every other slot is as it was, and if that was the last record, the handler gives the
-- frame back, unlatched and with a pin less, and is closed, and otherwise it keeps the frame.
pub delete_record_lem :
    {p : RecordPage} (rid : Rid)
    → IsValid p
    → p.readonly ≡ false
    → p.is_open ≡ true
    → (p.record_capacity ≤ rid.slot_num → delete_record p rid ≡ some (invalid_argument, p))
      × (rid.slot_num < p.record_capacity
          → lookup p rid.slot_num ≡ none
          → delete_record p rid ≡ some (record_not_exist, p))
      × (rid.slot_num < p.record_capacity
          → lookup p rid.slot_num ≢ none
          → (q : RecordPage) × (delete_record p rid ≡ some (success, q))
            × Removed p q rid.slot_num
            × LetsGo p q)
unfolding delete_record vacated
delete_record_lem {p} rid v w opened = (
  λ ge. ground arith,
  λ lt missing. ground (arith, lookup_held p rid.slot_num lt),
  λ lt there. elim (Bool-cases (get_bit (bits p) rid.slot_num)) [
    | inl held ↦
        let some_record =
          count_where_some (get_bit (bits p)) rid.slot_num p.record_capacity lt held in
        let counted = v.counted in
        elim (Bool-cases (p.record_num - 1 == 0)) [
          | inl last ↦ (
            cleanup (vacated v rid.slot_num lt held),
            rw (w, lt→leb-false rid.slot_num p.record_capacity lt, held, last),
            cleanup-Removed (vacated-Removed v rid.slot_num lt held),
            cleanup-LetsGo v rid.slot_num lt held opened (ground arith),
          )
          | inr more ↦ (
            vacated v rid.slot_num lt held,
            rw (w, lt→leb-false rid.slot_num p.record_capacity lt, held, more),
            vacated-Removed v rid.slot_num lt held,
            vacated-LetsGo v rid.slot_num lt held (ground arith),
          )
        ]
    | inr free ↦ absurd (there (lookup_free p rid.slot_num free))
  ],
)

-- `get_record` hands out exactly the record that the slot holds, and else says why not: a slot past
-- the capacity is an invalid record id, a free slot does not exist.
pub get_record_lem :
    (p : RecordPage) (rid : Rid)
    → ((get_record p rid).1 ≡ lookup p rid.slot_num)
      × ((get_record p rid).0 ≡ (
          if leb p.record_capacity rid.slot_num
          then record_invalid_rid
          else if get_bit (bits p) rid.slot_num
          then success
          else record_not_exist))
unfolding get_record
get_record_lem p rid = (ground arith, ground arith)
