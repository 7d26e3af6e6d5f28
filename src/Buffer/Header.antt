-- ===== src/Buffer/Header.antt =====
-- The header of a file of src/observer/storage/buffer/disk_buffer_pool.h and .cpp, which says which
-- pages are in use, and the operations of `DiskBufferPool` that change it. The header's page stays
-- pinned in its frame for as long as the file is open; here it is a record beside the frames.
use landbase.Base.{
  ℕ, zero, suc, ◌+◌, ◌-◌, ◌*◌, ◌≡◌, Bool, true, false, not, ◌&&◌, ◌||◌, Option, none, some, List,
  ltb, leb, ◌==◌, if◌then◌else◌,
}
use landbase.Base.Int.{pos}
use landbase.Base.Result.{Result, ok, fail, ◌>>=◌}
use landbase.Bitmap.{Bitmap, get_bit, set_bit, clear_bit, first_where, next_setted_bit}
use landbase.Rc.{Rc, success, notfound, bufferpool_nobuf, bufferpool_invalid_page_num, ob_succ}
use landbase.Buffer.Frames.{
  FrameId, Page, Frame, get_internal, FrameManager, free_internal, Stop, aborted,
}
use landbase.Buffer.Pool.{
  Device, Store, frame_at, put_frame, flush_page_internal, allocate_frame, get_this_page,
  with_manager,
}
pub mod Inv
pub mod Allocate
pub mod Dispose
mod Tests

-- `BPFileHeader::MAX_PAGE_NUM`, of pages of 2^19 bytes with two numbers of four bytes each before the
-- data and two more in the header
abbrev pub max_page_num : ℕ
max_page_num = 4194176

pub record FileHeader : Type 0 where
  pub page_count : ℕ
  pub allocated_pages : ℕ
  pub bitmap : List ℕ

abbrev pub bits : FileHeader → Bitmap
bits h = record { bytes = h.bitmap; size = max_page_num }

abbrev pub in_use : FileHeader → ℕ → Bool
in_use h i = get_bit (bits h) i

-- The free page that the first loop of `allocate_page` finds.
unfoldable pub find_free_page : FileHeader → Option ℕ
find_free_page h =
    if ltb h.allocated_pages h.page_count
    then first_where (λ i. not (in_use h i)) 0 h.page_count
    else none

abbrev pub with_bit_set : ℕ → FileHeader → FileHeader
with_bit_set i h = record h { bitmap = (set_bit (bits h) i).bytes }

unfoldable pub reuse_page : ℕ → FileHeader → FileHeader
reuse_page i h = with_bit_set i (record h { allocated_pages = h.allocated_pages + 1 })

unfoldable pub extend_file : FileHeader → FileHeader
extend_file h =
    with_bit_set h.page_count
      (record h { allocated_pages = h.allocated_pages + 1; page_count = h.page_count + 1 })

unfoldable pub check_page_num : ℕ → FileHeader → Rc
check_page_num page_num h =
    if leb h.page_count page_num
    then bufferpool_invalid_page_num
    else if not (in_use h page_num)
    then bufferpool_invalid_page_num
    else success

unfoldable pub recover_header : ℕ → FileHeader → FileHeader
recover_header page_num h =
    if not (in_use h page_num)
    then with_bit_set page_num
        (record h { allocated_pages = h.allocated_pages + 1; page_count = h.page_count + 1 })
    else h

unfoldable pub dispose_header : ℕ → FileHeader → FileHeader
dispose_header page_num h = record h {
  allocated_pages = h.allocated_pages - 1;
  bitmap = (clear_bit (bits h) page_num).bytes;
}

-- `BufferPoolIterator::next`: the page, if there is one, and where the iterator stands.
unfoldable pub next_page : FileHeader → ℕ → Option ℕ × ℕ
next_page h current =
    elim (next_setted_bit (record { bytes = h.bitmap; size = h.page_count }) (current + 1)) [
      | none ↦ (none, current)
      | some n ↦ (some n, n)
    ]

-- `clear_page` and `set_page_num`
abbrev pub empty_page : ℕ → Page
empty_page n = record { page_num = n; lsn = pos 0; content = λ a. 0 }

module _ (dev : Device) where
  pub record DiskBufferPool : Type 0 where
    pub file_desc : ℕ
    pub header : FileHeader
    pub header_dirty : Bool
    pub store : Store dev

  abbrev pub page_id : DiskBufferPool → ℕ → FrameId
  page_id p n = record { file_desc = p.file_desc; page_num = n }

  abbrev pub with_header : DiskBufferPool → FileHeader → DiskBufferPool
  with_header p h = record p { header = h; header_dirty = true }

  module _ (known : ℕ → Bool) (fuel : ℕ) where
    -- The frame of the new last page is emptied and written; a failure to write is passed over.
    unfoldable pub fill_new_page :
        DiskBufferPool → Option Frame → Store dev → Result Stop (DiskBufferPool × Rc × Option ℕ)
    unfolding extend_file flush_page_internal
    fill_new_page p none s = fail aborted
    fill_new_page p (some f) s =
        let n = p.header.page_count in
        let f' = record f { file_desc = p.file_desc; page = empty_page n } in
        let (s', rc) =
          flush_page_internal dev p.file_desc (page_id p n) f' (put_frame dev (page_id p n) f' s) in
        ok (record (with_header p (extend_file p.header)) { store = s' }, success, some n)

    unfoldable pub append_page : DiskBufferPool → Result Stop (DiskBufferPool × Rc × Option ℕ)
    unfolding allocate_frame fill_new_page
    append_page p =
        if leb max_page_num p.header.page_count
        then ok (p, bufferpool_nobuf, none)
        else (allocate_frame dev known p.file_desc fuel (page_id p p.header.page_count) p.store
            >>= λ s. fill_new_page p (frame_at dev s (page_id p p.header.page_count)) s)

    -- The code, and the page whose frame it gives.
    unfoldable pub allocate_page : DiskBufferPool → Result Stop (DiskBufferPool × Rc × Option ℕ)
    unfolding find_free_page reuse_page get_this_page append_page
    allocate_page p = elim (find_free_page p.header) [
      | none ↦ append_page p
      | some i ↦ get_this_page dev known fuel (page_id p i) p.store >>= λ r. ok (
        record (with_header p (reuse_page i p.header)) { store = r.0 },
        r.1,
        if ob_succ r.1 then some i else none,
      )
    ]

  unfoldable pub dispose_found :
      DiskBufferPool → ℕ → FrameManager × Option Frame → Result Stop (DiskBufferPool × Rc)
  unfolding dispose_header free_internal
  dispose_found p n (m, none) = ok (record p { store = record p.store { manager = m } }, notfound)
  dispose_found p n (m, some f) =
      with_manager dev p.store (free_internal (page_id p n) (page_id p n) m) >>= λ s.
      ok (record (with_header p (dispose_header n p.header)) { store = s }, success)

  unfoldable pub dispose_page : ℕ → DiskBufferPool → Result Stop (DiskBufferPool × Rc)
  unfolding get_internal dispose_found
  dispose_page n p = dispose_found p n (get_internal (page_id p n) p.store.manager)

  unfoldable pub recover_page : ℕ → DiskBufferPool → DiskBufferPool × Rc
  unfolding recover_header
  recover_page n p =
      if not (in_use p.header n)
      then (with_header p (recover_header n p.header), success)
      else (p, success)
