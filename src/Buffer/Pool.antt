-- ===== src/Buffer/Pool.antt =====
-- `DiskBufferPool` of src/observer/storage/buffer/disk_buffer_pool.cpp: pages of files in frames. What
-- the system does with files is a parameter, `Device`; `known` says which files the
-- `BufferPoolManager` has open. The loop of `allocate_frame` runs on fuel.
use landbase.Base.{
  ℕ, zero, suc, ◌+◌, ◌-◌, ◌*◌, ◌/◌, ◌%◌, ◌≡◌, Bool, true, false, not, ◌&&◌, ◌||◌, Option, none,
  some, List, ltb, ◌==◌, if◌then◌else◌,
}
use landbase.Base.Int.{ℤ, pos}
use landbase.Base.Result.{Result, ok, fail, ◌>>=◌}
use landbase.Rc.{Rc, success, internal, notfound, ioerr_write, ioerr_read, locked_unlock, ob_succ}
use landbase.Buffer.Lru.{Lru}
use landbase.Buffer.Frames.{
  FrameId, same_frame, Page, Frame, frame_id, pin, unpin, Stop, aborted, still_running,
  FrameManager, set_frame, get_internal, alloc, free_internal, find_purgeable,
}
pub mod View
pub mod Steps
pub mod Evict
pub mod Read
pub mod Purge

-- `lseek`, which is taken to succeed, with `readn` or `writen` of a whole page. The place is the file
-- and the number of the page in it; a page that is read past the file's end is `none`. The answer of
-- a write is whether it wrote.
pub record Device : Type 1 where
  pub Files : Type 0
  pub read_page : Files → FrameId → Option Page
  -- what a failed read leaves of the page that was in the frame
  pub torn_page : Files → FrameId → Page → Page
  pub write_page : Files → FrameId → Page → Files × Bool

module _ (dev : Device) where
  pub record Store : Type 0 where
    pub files : dev.Files
    pub manager : FrameManager

  abbrev pub frame_at : Store → FrameId → Option Frame
  frame_at s id = s.manager.frames.nodes id

  abbrev pub put_frame : FrameId → Frame → Store → Store
  put_frame at f s = record s { manager = set_frame at f s.manager }

  abbrev pub with_manager : Store → Result Stop FrameManager → Result Stop Store
  with_manager s r = r >>= λ m. ok (record s { manager = m })

  -- The frame `f` stands at `at`.
  unfoldable pub flush_page_internal : ℕ → FrameId → Frame → Store → Store × Rc
  flush_page_internal file_desc at f s =
      let (files, written) =
        dev.write_page s.files (record { file_desc = file_desc; page_num = f.page.page_num })
          f.page in
      if written
      then (put_frame at (record f { dirty = false }) (record s { files = files }), success)
      else (record s { files = files }, ioerr_write)

  module _ (known : ℕ → Bool) (file_desc : ℕ) where
    -- The `purger` of `allocate_frame`.
    unfoldable pub purger : FrameId → Frame → Store → Store × Rc
    unfolding flush_page_internal
    purger at f s =
        if not f.dirty
        then (s, success)
        else if f.file_desc == file_desc
        then flush_page_internal file_desc at f s
        else if known f.file_desc
        then flush_page_internal f.file_desc at f s
        else (s, internal)

    unfoldable pub after_purger : FrameId → Frame → Store × Rc → Result Stop Store
    unfolding free_internal
    after_purger at f (s, rc) =
        if ob_succ rc
        then with_manager s (free_internal (frame_id f) at s.manager)
        else (unpin f >>= λ f'. ok (put_frame at f' s))

    unfoldable pub purge_at : FrameId → Store → Option Frame → Result Stop Store
    unfolding after_purger purger
    purge_at at s none = ok s
    purge_at at s (some f) = after_purger at (pin f) (purger at (pin f) (put_frame at (pin f) s))

    -- `purge_frames(1, purger)`
    unfoldable pub purge_frames : Store → Result Stop Store
    unfolding purge_at find_purgeable
    purge_frames s = elim (find_purgeable s.manager) [
      | none ↦ ok s
      | some at ↦ purge_at at s (frame_at s at)
    ]

    unfoldable pub allocate_frame : ℕ → FrameId → Store → Result Stop Store
    unfolding alloc
    allocate_frame zero id s = fail still_running
    allocate_frame (suc fuel) id s = alloc id s.manager >>= λ r. elim (r.1) [
      | true ↦ ok (record s { manager = r.0 })
      | false ↦ purge_frames (record s { manager = r.0 }) >>= λ s'. allocate_frame fuel id s'
    ]

  unfoldable pub free_frame : FrameId → FrameId → Store × Rc → Result Stop (Store × Rc)
  unfolding free_internal
  free_frame id at (s, rc) =
      if ob_succ rc
      then (with_manager s (free_internal id at s.manager) >>= λ s'. ok (s', success))
      else ok (s, rc)

  unfoldable pub purge_frame : FrameId → FrameId → Frame → Store → Result Stop (Store × Rc)
  unfolding free_frame flush_page_internal
  purge_frame id at f s =
      if not (f.pin_count == 1)
      then ok (s, locked_unlock)
      else free_frame id at
          (if f.dirty then flush_page_internal id.file_desc at f s else (s, success))

  -- `load_page` into the frame `f`, and the rest of `get_this_page`.
  unfoldable pub load_page : FrameId → Option Frame → Store → Result Stop (Store × Rc)
  unfolding purge_frame
  load_page id none s = fail aborted
  load_page id (some f) s = elim (dev.read_page s.files id) [
    | some page ↦ ok (put_frame id (record f { file_desc = id.file_desc; page = page }) s, success)
    | none ↦
        let f' = record f { file_desc = id.file_desc; page = dev.torn_page s.files id f.page } in
        purge_frame id id f' (put_frame id f' s) >>= λ r. ok (r.0, ioerr_read)
  ]

  module _ (known : ℕ → Bool) (fuel : ℕ) where
    unfoldable pub got_or_load :
        FrameId → Store → FrameManager × Option Frame → Result Stop (Store × Rc)
    unfolding allocate_frame load_page
    got_or_load id s (m, some f) = ok (record s { manager = m }, success)
    got_or_load id s (m, none) =
        allocate_frame known id.file_desc fuel id (record s { manager = m }) >>= λ s'.
        load_page id (frame_at s' id) s'

    -- The frame that it gives is the one of the page; it is pinned.
    unfoldable pub get_this_page : FrameId → Store → Result Stop (Store × Rc)
    unfolding get_internal got_or_load
    get_this_page id s = got_or_load id s (get_internal id s.manager)

  unfoldable pub purge_got :
      FrameId → Store → FrameManager × Option Frame → Result Stop (Store × Rc)
  unfolding purge_frame
  purge_got id s (m, none) = ok (record s { manager = m }, success)
  purge_got id s (m, some f) = purge_frame id id f (record s { manager = m })

  unfoldable pub purge_page : FrameId → Store → Result Stop (Store × Rc)
  unfolding get_internal purge_got
  purge_page id s = purge_got id s (get_internal id s.manager)

  -- `unpin_page`, of the frame at `at`
  unfoldable pub unpin_page : FrameId → Store → Result Stop Store
  unpin_page at s = elim (frame_at s at) [
    | none ↦ fail aborted
    | some f ↦ unpin f >>= λ f'. ok (put_frame at f' s)
  ]
