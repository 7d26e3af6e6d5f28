-- ===== src/Buffer/Pool/Read.antt =====
-- `get_this_page`: readers find in a frame what the file holds.
use mathlib.Core.Option.{some-injective}
use landbase.Base.{
  ℕ, suc, ◌+◌, ◌<◌, ◌≡◌, ◌≢◌, refl, sym, ap, ◌∙◌, ◌⊎◌, inl, inr, Bool, true, false, Option-cases,
  none, some, List, [], arith,
}
use landbase.Base.Result.{ok, fail, ◌>>=◌}
use landbase.Rc.{success}
use landbase.Buffer.Lru.{store, assign, lru_touch}
use landbase.Buffer.Frames.{
  FrameId, same_frame, same_frame_refl, Page, Frame, pin, set_page_num, get_internal_hit,
  get_internal_miss, still_running,
}
use landbase.Buffer.Pool.{Device, Store, frame_at, load_page, got_or_load, get_this_page}
use landbase.Buffer.Pool.View.{IsReliable, view, page_of, IsCoherent, Keeps}
use landbase.Buffer.Pool.Steps.{Keeps-trans, touched, touched-Keeps, taken, loaded, loaded-Keeps}
use landbase.Buffer.Pool.Evict.{HasIdle, allocate_frame_lem, allocate_frame_spins}

module _ (dev : Device) (reliable : IsReliable dev) (known : ℕ → Bool) where
  -- What a reader has: the frame of the page, pinned. Pages read as before, and the frames that were
  -- pinned are still where they were.
  pub record Given (s t : Store dev) (id : FrameId) (p : Page) : Type 0 where
    pub frame : Frame
    pub here : frame_at dev t id ≡ some frame
    pub page : frame.page ≡ p
    pub held : 0 < frame.pin_count
    pub keeps : Keeps dev known s t
    pub pinned :
        (j : FrameId) (g : Frame)
        → same_frame id j ≡ false
        → frame_at dev s j ≡ some g
        → 0 < g.pin_count
        → frame_at dev t j ≡ some g

  module _ (n : ℕ) (s : Store dev) (c : IsCoherent dev known s) (id : FrameId) (p : Page)
      (shown : view dev s id ≡ some p) where
    get_hit :
        (f : Frame)
        → frame_at dev s id ≡ some f
        → (t : Store dev) × (get_this_page dev known (suc (suc n)) id s ≡ ok (t, success))
          × Given s t id p
    unfolding get_this_page got_or_load assign store lru_touch
    get_hit f e = (
      touched dev reliable known c id f,
      ap (got_or_load dev known (suc (suc n)) id s) (get_internal_hit id s.manager f e),
      record {
        frame = pin f;
        here = rw (same_frame_refl id) refl;
        page = some-injective f.page p (sym (ap (page_of dev s id) e) ∙ shown);
        held = omega arith;
        keeps = touched-Keeps dev reliable known c id f e;
        pinned = λ j g ne h held. rw ne h;
      },
    )

    load_taken :
        (u : Store dev) (cu : IsCoherent dev known u) (f : Frame) (rest : List Frame)
        → dev.read_page u.files id ≡ some p
        → load_page dev id
            (some (pin (set_page_num id.page_num f)))
            (record u { manager = taken dev reliable known cu id f rest })
          ≡ ok (loaded dev reliable known cu id f rest p, success)
    unfolding load_page
    load_taken u cu f rest r = rw (load_page, r) refl

    get_miss :
        frame_at dev s id ≡ none
        → known id.file_desc ≡ true
        → (s.manager.frees ≢ []) ⊎ HasIdle dev reliable known id.file_desc s
        → (t : Store dev) × (get_this_page dev known (suc (suc n)) id s ≡ ok (t, success))
          × Given s t id p
    unfolding get_this_page got_or_load store assign
    get_miss e opened room =
        let (u, ready) = allocate_frame_lem dev reliable known id.file_desc s c id e n room in
        let cu = ready.keeps.coherent in
        let read : dev.read_page u.files id ≡ some p =
          sym (ap (page_of dev u id) ready.absent) ∙ ready.keeps.same_view id ∙ shown in
        let with_taken : Store dev = record u {
          manager = taken dev reliable known cu id ready.frame ready.rest;
        } in
        let at_taken : frame_at dev with_taken id
            ≡ some (pin (set_page_num id.page_num ready.frame)) =
          rw (same_frame_refl id) refl in
        (
          loaded dev reliable known cu id ready.frame ready.rest p,
          ap (got_or_load dev known (suc (suc n)) id s) (get_internal_miss id s.manager e)
              ∙ ap (λ r. r >>= λ s'. load_page dev id (frame_at dev s' id) s') ready.done
              ∙ ap (λ o. load_page dev id o with_taken) at_taken
              ∙ load_taken u cu ready.frame ready.rest read,
          record {
            frame = record ready.frame {
              pin_count = ready.frame.pin_count + 1;
              file_desc = id.file_desc;
              page = p;
            };
            here = rw (same_frame_refl id) refl;
            page = refl;
            held = omega arith;
            keeps = Keeps-trans dev reliable known s u _ ready.keeps (
                loaded-Keeps dev reliable known cu id ready.frame ready.rest p ready.absent
                  ready.room opened read);
            pinned = λ j g ne h held. rw ne (ready.pinned j g h held);
          },
        )

  -- `get_this_page` of a page that readers see, in an open file, when a frame is free or one is not
  -- pinned, and the device writes reliably: on two rounds of the loop or more it succeeds, its frame
  -- holds the page and is pinned, every page of every file reads as before, frames that were pinned
  -- are where they were, and the pool is still coherent. So no change is lost when a frame is thrown
  -- out to make room.
  pub get_this_page_lem :
      (n : ℕ) (s : Store dev) (id : FrameId) (p : Page)
      → IsCoherent dev known s
      → view dev s id ≡ some p
      → known id.file_desc ≡ true
      → (s.manager.frees ≢ []) ⊎ HasIdle dev reliable known id.file_desc s
      → (t : Store dev) × (get_this_page dev known (suc (suc n)) id s ≡ ok (t, success))
        × Given s t id p
  get_this_page_lem n s id p c shown opened room = elim (Option-cases (frame_at dev s id)) [
    | inr (f, hit) ↦ get_hit n s c id p shown f hit
    | inl miss ↦ get_miss n s c id p shown miss opened room
  ]

  -- When no frame is free and every frame is pinned, a page without a frame is never given: the loop
  -- of `allocate_frame` goes on for any number of rounds, and neither a frame nor an error comes back.
  pub get_this_page_spins :
      (fuel : ℕ) (s : Store dev) (id : FrameId)
      → IsCoherent dev known s
      → frame_at dev s id ≡ none
      → s.manager.frees ≡ []
      → ((j : FrameId) (f : Frame) → frame_at dev s j ≡ some f → 0 < f.pin_count)
      → get_this_page dev known fuel id s ≡ fail still_running
  unfolding get_this_page got_or_load
  get_this_page_spins fuel s id c miss full held =
      ap (got_or_load dev known fuel id s) (get_internal_miss id s.manager miss)
      ∙ ap (λ r. r >>= λ s'. load_page dev id (frame_at dev s' id) s')
          (allocate_frame_spins dev reliable known id.file_desc s c id miss full held fuel)
