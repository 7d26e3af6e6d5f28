-- ===== src/Buffer/Tests.antt =====
-- A pool of one frame, on a file of two pages: the frame is dirty and makes room for the other page.
use mathlib.Core.Option.{some-injective, none-ne-some}
use landbase.Base.{
  ℕ, ◌<◌, ◌≡◌, refl, sym, ap, subst, ◌∙◌, inl, inr, Bool, true, Bool-cases, Option, none, some, [],
  ◌∷◌, arith, ◌==◌, if◌then◌else◌,
}
use landbase.Base.Int.{pos}
use landbase.Buffer.Lru.{is_listed}
use landbase.Base.Result.{ok, fail}
use landbase.Rc.{success}
use landbase.Buffer.Frames.{
  FrameId, same_frame, same_frame-eq, Page, Frame, frame_id, still_running, frame_eq,
}
use landbase.Buffer.Pool.{Device, Store, frame_at, get_this_page}
use landbase.Buffer.Pool.View.{IsReliable, IsCoherent}
use landbase.Buffer.Pool.Read.{Given, get_this_page_lem, get_this_page_spins}
use landbase.Buffer.Pool.Purge.{Purges, purge_page_lem}

-- A file system that keeps what is written.
abbrev pub disk : Device
disk = record {
  Files = FrameId → Option Page;
  read_page = λ files id. files id;
  torn_page = λ files id page. page;
  write_page = λ files id p. ((λ j. if same_frame id j then some p else files j), true);
}

pub disk-IsReliable : IsReliable disk
disk-IsReliable = record { written = λ files id p. refl; read-write = λ files id p j. refl }

abbrev pub page_with : ℕ → ℕ → Page
page_with n byte = record { page_num = n; lsn = pos 0; content = λ a. byte }

abbrev pub at_page : ℕ → FrameId
at_page n = record { file_desc = 3; page_num = n }

abbrev two_pages : FrameId → Option Page
two_pages id =
    if same_frame (at_page 1) id
    then some (page_with 1 10)
    else if same_frame (at_page 2) id
    then some (page_with 2 20)
    else none

abbrev pub frame_with : ℕ → Frame
frame_with pins = record { dirty = true; pin_count = pins; file_desc = 3; page = page_with 1 11 }

-- Page 1 is in memory, changed.
abbrev pub pool : ℕ → Store disk
pool pins = record {
  files = two_pages;
  manager = record {
    frames = record {
      order = at_page 1 ∷ [];
      nodes = λ id. if same_frame (at_page 1) id then some (frame_with pins) else none;
    };
    frees = [];
  };
}

abbrev pub known : ℕ → Bool
known file_desc = file_desc == 3

only_frame :
    (pins : ℕ) (id : FrameId) (f : Frame)
    → frame_at disk (pool pins) id ≡ some f
    → (at_page 1 ≡ id) × (frame_with pins ≡ f)
only_frame pins id f e = elim (Bool-cases (same_frame (at_page 1) id)) [
  | inl same ↦ (same_frame-eq (at_page 1) id same, some-injective _ _ (rw same at e))
  | inr ne ↦ absurd (none-ne-some f (rw ne at e))
]

stamped_pages : (id : FrameId) (p : Page) → two_pages id ≡ some p → p.page_num ≡ id.page_num
stamped_pages id p e = elim (Bool-cases (same_frame (at_page 1) id)) [
  | inl one ↦
      ap (λ q. q.page_num) (sym (some-injective (page_with 1 10) p (rw one at e)))
      ∙ ap (λ i. i.page_num) (same_frame-eq (at_page 1) id one)
  | inr not_one ↦ elim (Bool-cases (same_frame (at_page 2) id)) [
    | inl two ↦
        ap (λ q. q.page_num) (sym (some-injective (page_with 2 20) p (rw (not_one, two) at e)))
        ∙ ap (λ i. i.page_num) (same_frame-eq (at_page 2) id two)
    | inr neither ↦ absurd (none-ne-some p (rw (not_one, neither) at e))
  ]
]

pub pool-IsCoherent : (pins : ℕ) → IsCoherent disk known (pool pins)
pool-IsCoherent pins = record {
  owned = λ id f e. ap frame_id (sym (only_frame pins id f e).1) ∙ (only_frame pins id f e).0;
  opened = λ id f e. ap (λ i. known i.file_desc) (sym (only_frame pins id f e).0);
  clean = λ id f e d. absurd (cc (d, ap (λ g. g.dirty) (only_frame pins id f e).1));
  stamped = stamped_pages;
  listed = λ id f e.
      subst (λ i. is_listed frame_eq i (at_page 1 ∷ []) ≡ true) (only_frame pins id f e).0 refl;
  idle = tt;
}

get_this_page_lem_example :
    (t : Store disk) × (get_this_page disk known 2 (at_page 2) (pool 0) ≡ ok (t, success))
    × Given disk disk-IsReliable known (pool 0) t (at_page 2) (page_with 2 20)
get_this_page_lem_example =
    get_this_page_lem disk disk-IsReliable known 0 (pool 0) (at_page 2) (page_with 2 20)
      (pool-IsCoherent 0) refl refl (inr (at_page 1, frame_with 0, refl, refl))

get_this_page_spins_example : get_this_page disk known 100 (at_page 2) (pool 1) ≡ fail still_running
get_this_page_spins_example =
    get_this_page_spins disk disk-IsReliable known 100 (pool 1) (at_page 2) (pool-IsCoherent 1) refl
      refl (λ j f e. subst (λ g. 0 < g.pin_count) (only_frame 1 j f e).1 (omega arith))

purge_page_lem_example : Purges disk disk-IsReliable known (pool 0) (at_page 1)
purge_page_lem_example =
    purge_page_lem disk disk-IsReliable known (pool 0) (at_page 1) (pool-IsCoherent 0)
