-- ===== src/Buffer/Frames.antt =====
-- `FrameId` and `Frame` of src/observer/storage/buffer/frame.h and frame.cpp, `Page` of page.h, and
-- `BPFrameManager` of disk_buffer_pool.cpp with its allocator, `MemPoolSimple` of
-- deps/common/mm/mem_pool.h. A pointer to a frame is the key of its node in the cache. The latches of
-- a frame and its access time are left out.
use landbase.Base.{
  ℕ, ◌+◌, ◌-◌, ◌≡◌, refl, ap, Bool, true, false, ◌&&◌, Option, none, some, List, [], ◌∷◌, ◌++◌,
  arith, ltb, ◌==◌, if◌then◌else◌,
}
use landbase.Base.Int.{ℤ}
use landbase.Base.Memory.{Memory}
use landbase.Base.Result.{Result, ok, fail}
use landbase.Buffer.Lru.{
  Lru, Equality, get, put, remove, assign, last_where, lru_touch, get_hit, get_miss,
}

pub record FrameId : Type 0 where
  pub file_desc : ℕ
  pub page_num : ℕ

-- `FrameId::equal_to`
abbrev pub same_frame : FrameId → FrameId → Bool
same_frame a b = a.file_desc == b.file_desc && a.page_num == b.page_num

pub same_frame-eq : (a b : FrameId) → same_frame a b ≡ true → a ≡ b
same_frame-eq a b h = ground (arith, h)

pub same_frame_refl : (a : FrameId) → same_frame a a ≡ true
same_frame_refl a = ground arith

abbrev pub frame_eq : Equality FrameId
frame_eq = record { same = same_frame; same-eq = same_frame-eq; same-refl = same_frame_refl }

pub record Page : Type 0 where
  pub page_num : ℕ
  pub lsn : ℤ
  pub content : Memory

pub record Frame : Type 0 where
  pub dirty : Bool
  pub pin_count : ℕ
  pub file_desc : ℕ
  pub page : Page

abbrev pub frame_id : Frame → FrameId
frame_id f = record { file_desc = f.file_desc; page_num = f.page.page_num }

abbrev pub pin : Frame → Frame
pin f = record f { pin_count = f.pin_count + 1 }

abbrev pub set_page_num : ℕ → Frame → Frame
set_page_num n f = record f { page = record f.page { page_num = n } }

abbrev pub can_purge : Frame → Bool
can_purge f = f.pin_count == 0

-- Why a call does not return: a failed ASSERT, or a loop that is still running.
pub data Stop : Type 0 where
  aborted still_running : Stop

-- `ASSERT(pin_count_ > 0)` before the count goes down
abbrev pub unpin : Frame → Result Stop Frame
unpin f = if ltb 0 f.pin_count then ok (record f { pin_count = f.pin_count - 1 }) else fail aborted

pub record FrameManager : Type 0 where
  pub frames : Lru FrameId Frame
  -- `frees` of the allocator
  pub frees : List Frame

-- A frame that is changed through its pointer.
abbrev pub set_frame : FrameId → Frame → FrameManager → FrameManager
set_frame at f m = record m { frames = assign frame_eq at f m.frames }

pin_found : FrameId → FrameManager → Option Frame → FrameManager × Option Frame
pin_found id m none = (m, none)
pin_found id m (some f) = (set_frame id (pin f) m, some (pin f))

-- The frame that it gives is pinned.
unfoldable pub get_internal : FrameId → FrameManager → FrameManager × Option Frame
unfolding pin_found get
get_internal id m =
    let (frames, found) = get frame_eq id m.frames in
    pin_found id (record m { frames = frames }) found

-- `allocator_.alloc()` and what is done with the frame. The allocator does not construct a frame
-- again: it is as it was when it was freed.
unfoldable pub alloc_free : FrameId → FrameManager → List Frame → Result Stop (FrameManager × Bool)
unfolding put
alloc_free id m [] = ok (m, false)
alloc_free id m (f ∷ rest) =
    if f.pin_count == 0
    then ok (
      record { frees = rest; frames = put frame_eq id (pin (set_page_num id.page_num f)) m.frames },
      true,
    )
    else fail aborted

alloc_unless : FrameId → FrameManager × Option Frame → Result Stop (FrameManager × Bool)
unfolding alloc_free
alloc_unless id (m, some f) = ok (m, true)
alloc_unless id (m, none) = alloc_free id m m.frees

-- Whether there is a frame for the page, which is the one that the page has or a free one.
unfoldable pub alloc : FrameId → FrameManager → Result Stop (FrameManager × Bool)
unfolding get_internal alloc_unless
alloc id m = alloc_unless id (get_internal id m)

pub get_internal_miss :
    (id : FrameId) (m : FrameManager) → m.frames.nodes id ≡ none → get_internal id m ≡ (m, none)
unfolding get_internal
get_internal_miss id m e = rw (get_internal, get_miss frame_eq id m.frames e) refl

pub get_internal_hit :
    (id : FrameId) (m : FrameManager) (f : Frame)
    → m.frames.nodes id ≡ some f
    → get_internal id m
      ≡ (set_frame id (pin f) (record m { frames = lru_touch frame_eq id m.frames }), some (pin f))
unfolding get_internal
get_internal_hit id m f e = rw (get_internal, get_hit frame_eq id m.frames f e) refl

pub alloc_miss :
    (id : FrameId) (m : FrameManager)
    → m.frames.nodes id ≡ none
    → alloc id m ≡ alloc_free id m m.frees
unfolding alloc
alloc_miss id m e = ap (alloc_unless id) (get_internal_miss id m e)

-- `at` is the pointer that is given.
unfoldable pub free_internal : FrameId → FrameId → FrameManager → Result Stop FrameManager
unfolding get remove
free_internal id at m =
    let (frames, found) = get frame_eq id m.frames in
    elim found [
      | none ↦ fail aborted
      | some f ↦
          if same_frame id at && f.pin_count == 1
          then ok (record {
            frames = remove frame_eq id frames;
            frees = m.frees ++ (record f { pin_count = 0 } ∷ []);
          })
          else fail aborted
    ]

-- The search of `purge_frames` for a frame that nobody has pinned, from the one that was used longest ago.
unfoldable pub find_purgeable : FrameManager → Option FrameId
unfolding last_where
find_purgeable m = last_where frame_eq can_purge m.frames.nodes m.frames.order
