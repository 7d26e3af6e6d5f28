-- ===== src/Record/Page.antt =====
-- `RecordPageHandler` of src/observer/storage/record/record_manager.cpp: the records of one page.
-- A handler is the header, the bitmap and the bytes of the page that it is opened on. The header
-- and the bitmap are kept beside the bytes: `Layout.init_header-IsLaidOut` keeps them apart from
-- the slots. `none` stands for a failed ASSERT, and for `set_bit(-1)`.
pub mod Inv
pub mod Access
pub mod Insert
pub mod Delete
use landbase.Base.{
  ℕ, ◌+◌, ◌-◌, ◌*◌, Bool, true, false, not, ◌&&◌, Option, none, some, List, ltb, leb, ◌==◌,
  if◌then◌else◌,
}
use landbase.Base.Memory.{Memory, read_bytes, write_bytes}
use landbase.Rc.{Rc, success, invalid_argument, record_nomem, record_not_exist, record_invalid_rid}
use landbase.Bitmap.{Bitmap, get_bit, set_bit, clear_bit, next_unsetted_bit}
use landbase.Record.Layout.{PageHeader}

pub record RecordPage : Type 0 where
  pub header : PageHeader
  pub open header use *
  pub bitmap : List ℕ
  pub memory : Memory
  pub page_num : ℕ
  pub pin_count : ℕ
  pub dirty : Bool
  pub latched : Bool
  pub is_open : Bool
  pub readonly : Bool

pub record Rid : Type 0 where
  pub page_num : ℕ
  pub slot_num : ℕ

-- `Bitmap bitmap(bitmap_, page_header_->record_capacity)`
abbrev pub bits : RecordPage → Bitmap
bits p = record { bytes = p.bitmap; size = p.record_capacity }

-- The address that `get_record_data` returns.
unfoldable pub get_record_data : RecordPage → ℕ → ℕ
get_record_data p slot_num = p.first_record_offset + p.record_size * slot_num

abbrev pub with_bits : RecordPage → Bitmap → ℕ → RecordPage
with_bits p m num = record p { bitmap = m.bytes; header = record (p.header) { record_num = num } }

-- `memcpy(get_record_data(slot), data, record_real_size)`, and the frame marked dirty.
pub put_record : RecordPage → ℕ → List ℕ → RecordPage
unfolding get_record_data
put_record p slot data_ = record p {
  memory = write_bytes p.memory (get_record_data p slot) p.record_real_size data_;
  dirty = true;
}

pub cleanup : RecordPage → RecordPage
cleanup p =
    if p.is_open
    then record p { latched = false; pin_count = p.pin_count - 1; is_open = false }
    else p

pub is_full : RecordPage → Bool
is_full p = leb p.record_capacity p.record_num

pub insert_record : RecordPage → List ℕ → Option (Rc × Option Rid × RecordPage)
insert_record p data_ =
    if p.readonly
    then none
    else if p.record_num == p.record_capacity
    then some (record_nomem, none, p)
    else elim (next_unsetted_bit (bits p) 0) [
      | none ↦ none
      | some index ↦ some (
        success,
        some (record { page_num = p.page_num; slot_num = index }),
        put_record (with_bits p (set_bit (bits p) index) (p.record_num + 1)) index data_,
      )
    ]

pub update_record : RecordPage → List ℕ → Rid → Option (Rc × RecordPage)
update_record p data_ rid =
    if p.readonly
    then none
    else if leb p.record_capacity rid.slot_num
    then some (invalid_argument, p)
    else if not (get_bit (bits p) rid.slot_num)
    then some (record_not_exist, p)
    else some (success, put_record p rid.slot_num data_)

pub recover_insert_record : RecordPage → List ℕ → Rid → Rc × RecordPage
recover_insert_record p data_ rid =
    if leb p.record_capacity rid.slot_num then (record_invalid_rid, p) else (
      success,
      put_record
          (if not (get_bit (bits p) rid.slot_num)
            then with_bits p (set_bit (bits p) rid.slot_num) (p.record_num + 1)
            else p)
          rid.slot_num data_,
    )

pub delete_record : RecordPage → Rid → Option (Rc × RecordPage)
delete_record p rid =
    if p.readonly
    then none
    else if leb p.record_capacity rid.slot_num
    then some (invalid_argument, p)
    else if get_bit (bits p) rid.slot_num
    then some (success, if p.record_num - 1 == 0 then cleanup cleared else cleared)
    else some (record_not_exist, p)
  where
    cleared : RecordPage
    cleared = record (with_bits p (clear_bit (bits p) rid.slot_num) (p.record_num - 1)) {
      dirty = true;
    }

-- The record that `get_record` hands out: its data are the bytes in the page.
pub get_record : RecordPage → Rid → Rc × Option (List ℕ)
get_record p rid =
    if leb p.record_capacity rid.slot_num
    then (record_invalid_rid, none)
    else if not (get_bit (bits p) rid.slot_num)
    then (record_not_exist, none)
    else (success, some (read_bytes p.memory (get_record_data p rid.slot_num) p.record_real_size))
