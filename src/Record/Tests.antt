-- ===== src/Record/Tests.antt =====
-- A small page of records, and the theorems about pages at it.
use landbase.Base.{
  ℕ, ◌<◌, ◌≤◌, ◌≡◌, refl, ◌≢◌, Bool, true, false, none, some, List, [], ◌∷◌, arith, ◌==◌,
  if◌then◌else◌, length,
}
use landbase.Base.Bits.{byte_bit}
use landbase.Base.Count.{count_where}
use landbase.Rc.{Rc, success, record_invisible, invalid_argument, record_not_exist}
use landbase.Bitmap.{get_bit}
use landbase.Record.Layout.{PageHeader, init_header, page_bitmap_size, fix_record_capacity}
use landbase.Record.Page.{RecordPage, Rid, bits, insert_record, delete_record}
use landbase.Record.Page.Inv.{IsValid}
use landbase.Record.Page.Access.{lookup}
use landbase.Record.Page.Insert.{Put, insert_record_lem}
use landbase.Record.Page.Delete.{Removed, LetsGo, delete_record_lem}
use landbase.Record.Iterator.{init, fetch_next_record_in_page}
use landbase.Record.Iterator.Slots.{remaining, occupied_slots, init-remaining, IsAt}
use landbase.Record.Iterator.Scan.{pick, Fetches, fetch_next_record_in_page-pick}

-- Ten slots of two bytes in eight; slots 0 and 2 hold the records 7 8 and 9 9.
abbrev small_header : PageHeader
small_header = record {
  record_num = 2;
  record_real_size = 2;
  record_size = 8;
  record_capacity = 10;
  first_record_offset = 24;
}

abbrev small : RecordPage
small = record {
  header = small_header;
  bitmap = 5 ∷ 0 ∷ [];
  memory = λ a. if a == 24 then 7 else if a == 25 then 8 else 9;
  page_num = 4;
  pin_count = 1;
  dirty = false;
  latched = true;
  is_open = true;
  readonly = false;
}

small-IsValid : IsValid small
unfolding count_where get_bit byte_bit page_bitmap_size
small-IsValid = omega arith

abbrev slot : ℕ → Rid
slot k = record { page_num = 4; slot_num = k }

header_of_4000 : (init_header 4000).record_capacity ≡ 131
unfolding init_header fix_record_capacity
header_of_4000 = refl

insert_record_lem_example :
    (k : ℕ) × (q : RecordPage) × (insert_record small (1 ∷ 2 ∷ [])
      ≡ some (success, some (record { page_num = 4; slot_num = k }), q))
    × (lookup small k ≡ none)
    × ((i : ℕ) → i < k → lookup small i ≢ none)
    × (q.record_num ≡ 3)
    × Put small q k (1 ∷ 2 ∷ [])
insert_record_lem_example =
    insert_record_lem (1 ∷ 2 ∷ []) small-IsValid (omega arith) refl (omega arith)

-- The same page with the record of slot 0 only.
abbrev single : RecordPage
single = record small { header = record small_header { record_num = 1 }; bitmap = 1 ∷ 0 ∷ [] }

single-IsValid : IsValid single
unfolding count_where get_bit byte_bit page_bitmap_size
single-IsValid = omega arith

delete_record_lem_example :
    (10 ≤ 0 → delete_record single (slot 0) ≡ some (invalid_argument, single))
    × (0 < 10
        → lookup single 0 ≡ none
        → delete_record single (slot 0) ≡ some (record_not_exist, single))
    × (0 < 10
        → lookup single 0 ≢ none
        → (q : RecordPage) × (delete_record single (slot 0) ≡ some (success, q))
          × Removed single q 0
          × LetsGo single q)
delete_record_lem_example = delete_record_lem (slot 0) single-IsValid refl refl

init-remaining_example :
    (remaining small (init small 0) ≡ occupied_slots small 0) × IsAt small (init small 0)
init-remaining_example = init-remaining small

-- A transaction that sees no record that begins with 7.
abbrev blind : List ℕ → Rc
blind [] = success
blind (b ∷ bs) = if b == 7 then record_invisible else success

-- A filter that lets no record pass that begins with 9.
abbrev no_nines : List ℕ → Bool
no_nines [] = true
no_nines (b ∷ bs) = if b == 9 then false else true

fetch_next_record_in_page-pick_example :
    Fetches
      (some no_nines)
      (some blind)
      small
      (fetch_next_record_in_page (some no_nines) (some blind) small 5 (some 0))
      (pick (some no_nines) (some blind) small (remaining small (some 0)))
unfolding get_bit byte_bit
fetch_next_record_in_page-pick_example =
    fetch_next_record_in_page-pick (some no_nines) (some blind) small 5 (some 0) (at, omega arith)
      short
  where
    at : get_bit (bits small) 0 ≡ true
    at = refl

    short : length (remaining small (some 0)) < 5
    short = omega arith
