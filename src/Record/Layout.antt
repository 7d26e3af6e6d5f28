-- ===== src/Record/Layout.antt =====
-- How a page of records is laid out: the header, the bitmap of the slots, the slots.
-- (`record_manager.cpp`, the sizes at its top and `init_empty_page`; `record_manager.h`,
-- `PageHeader` and `fix_record_capacity`.)
use landbase.Base.{
  ℕ, zero, suc, ◌+◌, ◌-◌, ◌*◌, ◌/◌, ◌^◌, ◌≤◌, ◌<◌, ◌≡◌, inl, inr, arith, ltb, if◌then◌else◌,
  Bool-cases,
}

-- `sizeof(PageHeader)`: five `int32_t`.
abbrev pub page_header_size : ℕ
page_header_size = 20

-- `BP_PAGE_SIZE - sizeof(PageNum) - sizeof(LSN)`: a page number and a log number of four bytes each.
abbrev pub bp_page_data_size : ℕ
bp_page_data_size = 2 ^ 19 - 8

pub record PageHeader : Type 0 where
  pub record_num : ℕ
  pub record_real_size : ℕ
  pub record_size : ℕ
  pub record_capacity : ℕ
  pub first_record_offset : ℕ

unfoldable pub align8 : ℕ → ℕ
align8 size = (size + 7) / 8 * 8

-- The source divides by `record_size + 0.125` and truncates; over integers that is the quotient
-- below. Its double is exact enough: the quotient of the two integers is rounded across no integer,
-- for it lies at least 1 / (8 * record_size + 1) under the next one.
unfoldable pub page_record_capacity : ℕ → ℕ → ℕ
page_record_capacity page_size record_size =
    (page_size - page_header_size - 1) * 8 / (record_size * 8 + 1)

unfoldable pub page_bitmap_size : ℕ → ℕ
page_bitmap_size record_capacity = (record_capacity + 7) / 8

-- The loop of `fix_record_capacity`, on the capacity and `last_record_offset`. The source would go
-- on below a capacity of 0, which `init_header` never reaches.
unfoldable pub fix_record_capacity : ℕ → ℕ → ℕ → ℕ
fix_record_capacity record_size zero last_record_offset = zero
fix_record_capacity record_size (suc capacity) last_record_offset =
    let rest = fix_record_capacity record_size capacity (last_record_offset - record_size) in
    if ltb bp_page_data_size last_record_offset then rest else suc capacity

-- The header that `init_empty_page` writes.
unfoldable pub init_header : ℕ → PageHeader
unfolding align8 page_record_capacity page_bitmap_size
init_header record_size =
    let size = align8 record_size in
    let capacity = page_record_capacity bp_page_data_size size in
    let first = align8 (page_header_size + page_bitmap_size capacity) in
    record {
      record_num = 0;
      record_real_size = record_size;
      record_size = size;
      record_capacity = fix_record_capacity size capacity (first + capacity * size);
      first_record_offset = first;
    }

-- The slots lie behind the bitmap and within the page, and a record fits its slot.
pub record IsLaidOut (h : PageHeader) : Type 0 where
  pub fits : h.record_real_size ≤ h.record_size
  pub bitmap_before : page_header_size + page_bitmap_size h.record_capacity ≤ h.first_record_offset
  pub in_page : h.first_record_offset + h.record_capacity * h.record_size ≤ bp_page_data_size

-- The loop stops by its own test: what is left ends within the page.
fix_record_capacity_fits :
    (size capacity first : ℕ)
    → first ≤ bp_page_data_size
    → (first + fix_record_capacity size capacity (first + capacity * size) * size
        ≤ bp_page_data_size)
      × (fix_record_capacity size capacity (first + capacity * size) ≤ capacity)
unfolding fix_record_capacity
fix_record_capacity_fits size zero first h = (omega arith, omega arith)
fix_record_capacity_fits size (suc c) first h =
    let down : first + suc c * size - size ≡ first + c * size = omega arith in
    let (fits, le) = fix_record_capacity_fits size c first h in
    elim (Bool-cases (ltb bp_page_data_size (first + suc c * size))) [
      | inl t ↦ rw (t, down) (fits, omega arith)
      | inr f ↦ rw f (ground arith, omega arith)
    ]

fix_record_capacity-pos :
    (size capacity first : ℕ)
    → 0 < capacity
    → first + size ≤ bp_page_data_size
    → 0 < fix_record_capacity size capacity (first + capacity * size)
unfolding fix_record_capacity
fix_record_capacity-pos size zero first h room = absurd (omega arith)
fix_record_capacity-pos size (suc zero) first h room = ground arith
fix_record_capacity-pos size (suc (suc c)) first h room =
    let down : first + suc (suc c) * size - size ≡ first + suc c * size = omega arith in
    let later = fix_record_capacity-pos size (suc c) first (omega arith) room in
    elim (Bool-cases (ltb bp_page_data_size (first + suc (suc c) * size))) [
      | inl t ↦ rw (t, down) later
      | inr f ↦ rw f (omega arith)
    ]

bitmap_room :
    (c : ℕ) → c ≤ 4194072 → (page_header_size + (c + 7) / 8 + 7) / 8 * 8 ≤ bp_page_data_size
bitmap_room c h = omega arith

page_record_capacity-le : (size : ℕ) → page_record_capacity bp_page_data_size size ≤ 4194072
unfolding page_record_capacity
page_record_capacity-le size = grind arith

-- For every record size, `init_empty_page` lays the page out soundly: the bitmap does not reach the
-- first slot, the last slot ends within the page (so its ASSERT holds), and a record fits its slot.
pub init_header-IsLaidOut : (record_size : ℕ) → IsLaidOut (init_header record_size)
unfolding init_header align8 page_bitmap_size
init_header-IsLaidOut record_size =
    let size = (record_size + 7) / 8 * 8 in
    let c = page_record_capacity bp_page_data_size size in
    let first = (page_header_size + (c + 7) / 8 + 7) / 8 * 8 in
    let (fits, le) =
      fix_record_capacity_fits size c first (bitmap_room c (page_record_capacity-le size)) in
    record { fits = omega arith; bitmap_before = omega arith; in_page = fits }

times_mono : (a b c : ℕ) → a ≤ b → c * a ≤ c * b
times_mono a b c h = grind arith

capacity_room :
    (size c : ℕ)
    → 8 ≤ size
    → 0 < c
    → c * (size * 8 + 1) ≤ 4194072
    → (page_header_size + (c + 7) / 8 + 7) / 8 * 8 + size / 8 * 8 ≤ bp_page_data_size
capacity_room size zero h pos le = absurd (omega arith)
capacity_room size (suc zero) h pos le = omega arith
capacity_room size (suc (suc d)) h pos le =
    let many = times_mono 65 (size * 8 + 1) (suc (suc d)) (omega arith) in omega arith

page_record_capacity-pos :
    (size : ℕ) → size ≤ 524256 → 0 < page_record_capacity bp_page_data_size size
unfolding page_record_capacity
page_record_capacity-pos size h = grind arith

page_record_capacity-fits :
    (size : ℕ) → page_record_capacity bp_page_data_size size * (size * 8 + 1) ≤ 4194072
unfolding page_record_capacity
page_record_capacity-fits size = grind arith

-- A page of records of 1 to 524256 bytes has room for at least one record.
pub init_header_room :
    (record_size : ℕ)
    → 0 < record_size
    → record_size ≤ 524256
    → 0 < (init_header record_size).record_capacity
unfolding init_header align8 page_bitmap_size
init_header_room record_size pos le =
    let size = (record_size + 7) / 8 * 8 in
    let c = page_record_capacity bp_page_data_size size in
    let first = (page_header_size + (c + 7) / 8 + 7) / 8 * 8 in
    let some_slot = page_record_capacity-pos size (omega arith) in
    let room = capacity_room size c (omega arith) some_slot (page_record_capacity-fits size) in
    fix_record_capacity-pos size c first some_slot (omega arith)
