-- ===== src/Buffer/Pool/Evict.antt =====
-- `purge_frames` and the loop of `allocate_frame`.
use mathlib.Core.Option.{some-injective, none-ne-some}
use landbase.Base.{
  ℕ, zero, suc, ◌+◌, ◌<◌, ◌≡◌, ◌≢◌, refl, sym, ap, ◌∙◌, ◌⊎◌, inl, inr, Bool, true, false,
  Bool-cases, Option-cases, none, some, List, [], ◌∷◌, ◌++◌, arith, ◌==◌,
}
use landbase.Base.Result.{ok, fail}
use landbase.Rc.{success, ob_succ}
use landbase.Buffer.Lru.{store, assign, last_where-at, last_where_finds}
use landbase.Buffer.Frames.{
  FrameId, same_frame, same_frame-eq, same_frame_refl, frame_eq, Frame, frame_id, pin, can_purge,
  FrameManager, alloc, find_purgeable, still_running,
}
use landbase.Buffer.Pool.{
  Device, Store, frame_at, put_frame, flush_page_internal, purger, after_purger, purge_at,
  purge_frames, allocate_frame, with_manager,
}
use landbase.Buffer.Pool.View.{IsReliable, IsCoherent, Keeps}
use landbase.Buffer.Pool.Steps.{
  Keeps-trans, Keeps-refl, repin, flushed, flush_page_internal_lem, flushed-Keeps, freed,
  free_internal_lem, freed-Keeps, taken, alloc_lem, alloc-none,
}

==→eq : (a b : ℕ) → (a == b) ≡ true → a ≡ b
==→eq a b h = ground (arith, h)

snoc_room :
    (fs : List Frame) (f : Frame) → (g : Frame) × (rest : List Frame) × (fs ++ (f ∷ []) ≡ g ∷ rest)
snoc_room [] f = (f, [], refl)
snoc_room (g ∷ fs) f = (g, fs ++ (f ∷ []), refl)

frees_cases : (fs : List Frame) → (fs ≡ []) ⊎ ((f : Frame) × (rest : List Frame) × (fs ≡ f ∷ rest))
frees_cases [] = inl refl
frees_cases (f ∷ rest) = inr (f, rest, refl)

module _ (dev : Device) (reliable : IsReliable dev) (known : ℕ → Bool) (file_desc : ℕ) where
  -- What the purger has done with the frame `f`: the page is in the file.
  pub record Cleaned (s t : Store dev) (f : Frame) : Type 0 where
    pub done : purger dev known file_desc (frame_id f) f s ≡ (t, success)
    pub keeps : Keeps dev known s t
    pub here : frame_at dev t (frame_id f) ≡ some (record f { dirty = false })
    pub there :
        (j : FrameId) → same_frame (frame_id f) j ≡ false → frame_at dev t j ≡ frame_at dev s j
    pub frees : t.manager.frees ≡ s.manager.frees

  module _ {s : Store dev} (c : IsCoherent dev known s) (f : Frame)
      (e : frame_at dev s (frame_id f) ≡ some f) where
    purger-clean : f.dirty ≡ false → Cleaned s s f
    unfolding purger
    purger-clean d = record {
      done = rw (purger, d) refl;
      keeps = Keeps-refl dev reliable known c;
      here = e ∙ ap (λ b. some (record f { dirty = b })) d;
      there = λ j ne. refl;
      frees = refl;
    }

    to_its_file :
        f.dirty ≡ true
        → purger dev known file_desc (frame_id f) f s ≡ (flushed dev reliable known c f, success)
    unfolding purger
    to_its_file d = elim (Bool-cases (f.file_desc == file_desc)) [
      | inl same ↦
          rw (purger, d, same)
            (ap (λ n. flush_page_internal dev n (frame_id f) f s)
                (sym (==→eq f.file_desc file_desc same))
              ∙ flush_page_internal_lem dev reliable known c f)
      | inr other ↦
          rw (purger, d, other, c.opened (frame_id f) f e)
            (flush_page_internal_lem dev reliable known c f)
    ]

    purger-dirty : f.dirty ≡ true → Cleaned s (flushed dev reliable known c f) f
    unfolding purger assign store
    purger-dirty d = record {
      done = to_its_file d;
      keeps = flushed-Keeps dev reliable known c f e;
      here = rw (same_frame_refl (frame_id f)) refl;
      there = λ j ne. rw ne refl;
      frees = refl;
    }

    purger_lem : (t : Store dev) × Cleaned s t f
    purger_lem = elim (Bool-cases f.dirty) [
      | inl d ↦ (flushed dev reliable known c f, purger-dirty d)
      | inr d ↦ (s, purger-clean d)
    ]

  -- A purge that has thrown the frame `f` out.
  pub record Purged (s u : Store dev) : Type 0 where
    pub keeps : Keeps dev known s u
    pub room : (g : Frame) × (rest : List Frame) × (u.manager.frees ≡ g ∷ rest)
    pub pinned :
        (j : FrameId) (g : Frame)
        → frame_at dev s j ≡ some g
        → 0 < g.pin_count
        → frame_at dev u j ≡ some g
    pub absent : (j : FrameId) → frame_at dev s j ≡ none → frame_at dev u j ≡ none

  module _ {s : Store dev} (c : IsCoherent dev known s) (f : Frame)
      (e : frame_at dev s (frame_id f) ≡ some f) (idle : f.pin_count ≡ 0) where
    abbrev s1 : Store dev
    s1 = put_frame dev (frame_id f) (pin f) s

    k1 : Keeps dev known s s1
    k1 = repin dev reliable known c (frame_id f) f (f.pin_count + 1) e

    here1 : frame_at dev s1 (frame_id f) ≡ some (pin f)
    unfolding assign store
    here1 = rw (same_frame_refl (frame_id f)) refl

    others :
        (t : Store dev)
        → Cleaned s1 t (pin f)
        → (j : FrameId) → same_frame (frame_id f) j ≡ false
        → store frame_eq t.manager.frames.nodes (frame_id f) none j ≡ frame_at dev s j
    unfolding assign store
    others t cl j ne = rw ne (cl.there j ne ∙ (rw ne refl))

    pinned_apart :
        (j : FrameId) (g : Frame)
        → frame_at dev s j ≡ some g
        → 0 < g.pin_count
        → same_frame (frame_id f) j ≡ false
    pinned_apart j g h held = elim (Bool-cases (same_frame (frame_id f) j)) [
      | inr ne ↦ ne
      | inl same ↦
          let at : frame_id f ≡ j = same_frame-eq (frame_id f) j same in
          let fg : f ≡ g = some-injective f g (sym e ∙ ap (frame_at dev s) at ∙ h) in
          absurd (omega (arith, held, idle, ap (λ x. x.pin_count) fg))
    ]

    absent_apart : (j : FrameId) → frame_at dev s j ≡ none → same_frame (frame_id f) j ≡ false
    absent_apart j h = elim (Bool-cases (same_frame (frame_id f) j)) [
      | inr ne ↦ ne
      | inl same ↦ absurd (
          none-ne-some f
            (sym h ∙ ap (frame_at dev s) (sym (same_frame-eq (frame_id f) j same)) ∙ e))
    ]

    pub thrown_out :
        (u : Store dev) × (purge_at dev known file_desc (frame_id f) s (some f) ≡ ok u) × Purged s u
    unfolding after_purger ob_succ purge_at
    thrown_out =
        let (t, cl) = purger_lem k1.coherent (pin f) here1 in
        let cleaned : Frame = record f { dirty = false; pin_count = f.pin_count + 1 } in
        let one : cleaned.pin_count ≡ 1 = ap (λ n. n + 1) idle in
        (
          record t { manager = freed dev reliable known cl.keeps.coherent cleaned },
          ap (after_purger dev known file_desc (frame_id f) (pin f)) cl.done
              ∙ ap (with_manager dev t)
                  (free_internal_lem dev reliable known cl.keeps.coherent cleaned cl.here one),
          record {
            keeps = Keeps-trans dev reliable known s s1 _ k1 (
                Keeps-trans dev reliable known s1 t _ cl.keeps
                  (freed-Keeps dev reliable known cl.keeps.coherent cleaned cl.here refl));
            room = snoc_room t.manager.frees _;
            pinned = λ j g h held. others t cl j (pinned_apart j g h held) ∙ h;
            absent = λ j h. others t cl j (absent_apart j h) ∙ h;
          },
        )

  -- Some frame is not pinned.
  abbrev pub HasIdle : Store dev → Type 0
  HasIdle s = (id : FrameId) × (f : Frame) × (frame_at dev s id ≡ some f) × (f.pin_count ≡ 0)

  purge_found :
      (s : Store dev) (at : FrameId) (g : Frame)
      → find_purgeable s.manager ≡ some at
      → frame_at dev s at ≡ some g
      → purge_frames dev known file_desc s ≡ purge_at dev known file_desc at s (some g)
  unfolding purge_frames
  purge_found s at g found here = rw (purge_frames, found, here) refl

  purge_frames_lem :
      (s : Store dev)
      → IsCoherent dev known s
      → HasIdle s
      → (u : Store dev) × (purge_frames dev known file_desc s ≡ ok u) × Purged s u
  unfolding find_purgeable
  purge_frames_lem s c (id, f, e, idle) =
      let nodes = s.manager.frames.nodes in
      let (at, found) =
        last_where_finds frame_eq can_purge nodes s.manager.frames.order id f (c.listed id f e) e
          (rw idle refl) in
      let (g, here, purgeable) =
        last_where-at frame_eq can_purge nodes s.manager.frames.order at found in
      let own : frame_id g ≡ at = c.owned at g here in
      let (u, done, purged) =
        thrown_out c g (ap (frame_at dev s) own ∙ here) (==→eq g.pin_count 0 purgeable) in
      (
        u,
        purge_found s at g found here
            ∙ ap (λ a. purge_at dev known file_desc a s (some g)) (sym own)
            ∙ done,
        purged,
      )

  -- The store before a frame is taken for the page.
  pub record Ready (s u : Store dev) (id : FrameId) (fuel : ℕ) : Type 0 where
    pub keeps : Keeps dev known s u
    pub absent : frame_at dev u id ≡ none
    pub pinned :
        (j : FrameId) (g : Frame)
        → frame_at dev s j ≡ some g
        → 0 < g.pin_count
        → frame_at dev u j ≡ some g
    pub frame : Frame
    pub rest : List Frame
    pub room : u.manager.frees ≡ frame ∷ rest
    pub done :
        allocate_frame dev known file_desc fuel id s
        ≡ ok (record u { manager = taken dev reliable known keeps.coherent id frame rest })

  loop_ends :
      (n : ℕ) (id : FrameId) (s : Store dev) (m : FrameManager)
      → alloc id s.manager ≡ ok (m, true)
      → allocate_frame dev known file_desc (suc n) id s ≡ ok (record s { manager = m })
  unfolding allocate_frame
  loop_ends n id s m e = rw (allocate_frame, e) refl

  loop_goes_on :
      (n : ℕ) (id : FrameId) (s u : Store dev)
      → alloc id s.manager ≡ ok (s.manager, false)
      → purge_frames dev known file_desc s ≡ ok u
      → allocate_frame dev known file_desc (suc n) id s ≡ allocate_frame dev known file_desc n id u
  unfolding allocate_frame
  loop_goes_on n id s u e p = rw (allocate_frame, e, p) refl

  module _ (s : Store dev) (c : IsCoherent dev known s) (id : FrameId)
      (miss : frame_at dev s id ≡ none) where
    room_at_once :
        (n : ℕ) (f : Frame) (rest : List Frame) → s.manager.frees ≡ f ∷ rest → Ready s s id (suc n)
    room_at_once n f rest free = record {
      keeps = Keeps-refl dev reliable known c;
      absent = miss;
      pinned = λ j g h held. h;
      frame = f;
      rest = rest;
      room = free;
      done = loop_ends n id s _ (alloc_lem dev reliable known c id f rest miss free);
    }

    room_after_purge :
        (n : ℕ) → s.manager.frees ≡ [] → HasIdle s → (u : Store dev) × Ready s u id (suc (suc n))
    room_after_purge n full idle =
        let (u, purge, purged) = purge_frames_lem s c idle in
        let (g, rest, room) = purged.room in
        let gone = purged.absent id miss in
        (
          u,
          record {
            keeps = purged.keeps;
            absent = gone;
            pinned = purged.pinned;
            frame = g;
            rest = rest;
            room = room;
            done =
                loop_goes_on (suc n) id s u (alloc-none dev reliable known c id miss full) purge
                ∙ loop_ends n id u _
                    (alloc_lem dev reliable known purged.keeps.coherent id g rest gone room);
          },
        )

    -- Two rounds are enough.
    pub allocate_frame_lem :
        (n : ℕ) → (s.manager.frees ≢ []) ⊎ HasIdle s → (u : Store dev) × Ready s u id (suc (suc n))
    allocate_frame_lem n room = elim (frees_cases s.manager.frees) [
      | inl full ↦ elim room [
        | inl some_free ↦ absurd (some_free full)
        | inr idle ↦ room_after_purge n full idle
      ]
      | inr (f, rest, free) ↦ (s, room_at_once (suc n) f rest free)
    ]

    module _ (full : s.manager.frees ≡ [])
        (held : (j : FrameId) (f : Frame) → frame_at dev s j ≡ some f → 0 < f.pin_count) where
      nothing_to_purge : purge_frames dev known file_desc s ≡ ok s
      unfolding purge_frames find_purgeable
      nothing_to_purge = elim (Option-cases (find_purgeable s.manager)) [
        | inl nobody ↦ rw (purge_frames, nobody) refl
        | inr (at, found) ↦
            let (f, here, idle) =
              last_where-at frame_eq can_purge s.manager.frames.nodes s.manager.frames.order at
                found in
            absurd (omega (arith, held at f here, ==→eq f.pin_count 0 idle))
      ]

      pub allocate_frame_spins :
          (fuel : ℕ) → allocate_frame dev known file_desc fuel id s ≡ fail still_running
      unfolding allocate_frame
      allocate_frame_spins zero = refl
      allocate_frame_spins (suc fuel) =
          loop_goes_on fuel id s s (alloc-none dev reliable known c id miss full) nothing_to_purge
          ∙ allocate_frame_spins fuel
