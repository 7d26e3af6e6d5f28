-- ===== src/Record/Iterator.antt =====
-- `RecordPageIterator` and `RecordFileScanner::fetch_next_record_in_page` of
-- src/observer/storage/record/record_manager.cpp, on a page that nobody changes meanwhile.
pub mod Slots
pub mod Scan
use landbase.Base.{
  ℕ, zero, suc, ◌+◌, Bool, true, false, not, Option, none, some, List, if◌then◌else◌,
}
use landbase.Base.Memory.{read_bytes}
use landbase.Rc.{Rc, success, record_eof, is_invisible}
use landbase.Bitmap.{next_setted_bit}
use landbase.Record.Page.{RecordPage, bits, get_record_data}

-- `next_slot_num_`, where -1 is `none`. The page is a parameter of each function.
abbrev pub Iterator : Type 0
Iterator = Option ℕ

unfoldable pub init : RecordPage → ℕ → Iterator
init p start_slot_num = next_setted_bit (bits p) start_slot_num

unfoldable pub has_next : Iterator → Bool
has_next none = false
has_next (some slot) = true

-- The slot of the record that `next` hands out, and the iterator after it.
unfoldable pub next : RecordPage → Iterator → Rc × Iterator × Iterator
next p none = (record_eof, none, none)
next p (some slot) = (success, some slot, next_setted_bit (bits p) (slot + 1))

unfoldable pub record_at : RecordPage → ℕ → List ℕ
record_at p slot = read_bytes p.memory (get_record_data p slot) p.record_real_size

-- The condition filter and the transaction's `visit_record` are parameters; either may be absent.
module _ (condition_filter : Option (List ℕ → Bool)) (visit_record : Option (List ℕ → Rc)) where
  unfoldable pub filtered_out : List ℕ → Bool
  filtered_out bytes = elim condition_filter [ none ↦ false | some filter ↦ not (filter bytes) ]

  unfoldable pub visit : List ℕ → Rc
  visit bytes = elim visit_record [ none ↦ success | some f ↦ f bytes ]

  -- The loop, with `next_record_` as the slot that it stands for. On fuel; `none` means that the fuel
  -- ran out.
  unfoldable pub fetch_next_record_in_page :
      RecordPage → ℕ → Iterator → Option (Rc × Option ℕ × Iterator)
  fetch_next_record_in_page p zero it = none
  fetch_next_record_in_page p (suc fuel) it = elim it [
    | none ↦ some (record_eof, none, none)
    | some slot ↦
        let it' = next_setted_bit (bits p) (slot + 1) in
        let rest = fetch_next_record_in_page p fuel it' in
        let rc = visit (record_at p slot) in
        if filtered_out (record_at p slot)
        then rest
        else if is_invisible rc
        then rest
        else some (rc, some slot, it')
  ]
