-- ===== src/Buffer/Header/Tests.antt =====
-- A file of eight pages, of which the last is free, and a pool with one free frame.
use mathlib.Core.Option.{some-injective, none-ne-some}
use landbase.Base.{
  ℕ, zero, suc, ◌+◌, ◌-◌, ◌*◌, ◌/◌, ◌%◌, ◌≤◌, ◌<◌, ◌≡◌, ◌≢◌, refl, sym, ap, ◌∙◌, ◌⊎◌, inl, false,
  none, some, [], ◌∷◌, replicate, get_or, get_or-replicate, length-replicate, All, arith,
}
use landbase.Base.Bits.{byte_bit, bit_empty}
use landbase.Base.Result.{ok}
use landbase.Rc.{bufferpool_nobuf}
use landbase.Buffer.Frames.{Frame}
use landbase.Buffer.Pool.{Store}
use landbase.Buffer.Pool.View.{IsCoherent}
use landbase.Buffer.Header.{FileHeader, in_use, max_page_num, DiskBufferPool, allocate_page}
use landbase.Buffer.Header.Inv.{IsValid, IsFull}
use landbase.Buffer.Header.Allocate.{IsOpen, Taken, allocate_page_lem}
use landbase.Buffer.Tests.{
  disk, disk-IsReliable, known, page_with, pool, pool-IsCoherent, frame_with,
}
use landbase.Buffer.Header.Dispose.{Disposes, dispose_page_lem}
use landbase.Bitmap.{get_bit}
use landbase.Base.Count.{count_where}

-- The bitmap has `n` bytes behind the first.
abbrev header : ℕ → FileHeader
header n = record { page_count = 8; allocated_pages = 7; bitmap = 127 ∷ replicate n 0 }

small_replicate : (n : ℕ) → All (λ b. b < 256) (replicate n 0)
small_replicate zero = tt
small_replicate (suc n) = (omega arith, small_replicate n)

behind_last : (n i : ℕ) → 8 ≤ i → in_use (header n) i ≡ false
unfolding get_bit
behind_last n i le =
    ap (λ q. byte_bit (get_or (127 ∷ replicate n 0) q 0) (i % 8)) next
    ∙ ap (λ b. byte_bit b (i % 8)) (get_or-replicate n (i / 8 - 1) 0)
    ∙ bit_empty (i % 8) (omega arith)
  where
    next : i / 8 ≡ suc (i / 8 - 1)
    next = omega (arith, le)

header-IsValid : (n : ℕ) → max_page_num ≤ 8 * (n + 1) → IsValid (header n)
unfolding get_bit count_where byte_bit
header-IsValid n room = record {
  bitmap = record {
    small = (omega arith, small_replicate n);
    room = omega (arith, room, length-replicate {A = ℕ} n 0);
  };
  bounded = omega arith;
  counted = refl;
  behind = behind_last n;
  own = refl;
}

abbrev spare : Frame
spare = record { dirty = false; pin_count = 0; file_desc = 0; page = page_with 0 0 }

abbrev all_pages : Store disk
all_pages = record {
  files = λ id. some (page_with id.page_num 0);
  manager = record { frames = record { order = []; nodes = λ id. none }; frees = spare ∷ [] };
}

all_pages-IsCoherent : IsCoherent disk known all_pages
all_pages-IsCoherent = record {
  owned = λ id f e. absurd (none-ne-some f e);
  opened = λ id f e. absurd (none-ne-some f e);
  clean = λ id f e d. absurd (none-ne-some f e);
  stamped = λ id p e. ap (λ q. q.page_num) (sym (some-injective (page_with id.page_num 0) p e));
  listed = λ id f e. absurd (none-ne-some f e);
  idle = (refl, tt);
}

abbrev file : DiskBufferPool disk
file = record { file_desc = 3; header = header 524271; header_dirty = false; store = all_pages }

spare_left : (spare ∷ []) ≢ []
spare_left e = cc e

file-IsOpen : IsOpen disk disk-IsReliable known file
file-IsOpen = record {
  valid = header-IsValid 524271 (omega arith);
  coherent = all_pages-IsCoherent;
  opened = refl;
  readable = λ i lt free. (page_with i 0, refl);
  no_frame = refl;
  room = inl spare_left;
}

allocate_page_lem_example :
    Taken disk disk-IsReliable known 2 file
    ⊎ (IsFull file-IsOpen.valid
        × (allocate_page disk known 2 file ≡ ok (file, bufferpool_nobuf, none)))
allocate_page_lem_example = allocate_page_lem disk disk-IsReliable known 0 file file-IsOpen

-- The same file, with page 1 in memory.
abbrev file_in_memory : DiskBufferPool disk
file_in_memory = record {
  file_desc = 3;
  header = header 524271;
  header_dirty = false;
  store = pool 0;
}

dispose_page_lem_example : Disposes disk disk-IsReliable known file_in_memory 1
unfolding get_bit byte_bit
dispose_page_lem_example =
    dispose_page_lem disk disk-IsReliable known file_in_memory 1 (frame_with 0)
      (header-IsValid 524271 (omega arith)) (pool-IsCoherent 0) refl (omega arith) refl refl
