-- ===== src/Buffer/Pool/Purge.antt =====
-- `purge_page`: a page goes from its frame to the file.
use landbase.Base.{
  ℕ, ◌<◌, ◌≡◌, refl, ap, subst, ◌∙◌, ◌⊎◌, inl, inr, Bool, true, false, Bool-cases, Option-cases,
  none, some, arith, ◌==◌, if◌then◌else◌,
}
use landbase.Base.Result.{ok, ◌>>=◌}
use landbase.Rc.{Rc, success, locked_unlock, ob_succ}
use landbase.Buffer.Lru.{store, assign, lru_touch}
use landbase.Buffer.Frames.{
  FrameId, same_frame_refl, Frame, frame_id, pin, get_internal_hit, get_internal_miss,
}
use landbase.Buffer.Pool.{
  Device, Store, frame_at, flush_page_internal, purge_frame, free_frame, with_manager, purge_got,
  purge_page,
}
use landbase.Buffer.Pool.View.{IsReliable, IsCoherent, Keeps}
use landbase.Buffer.Pool.Steps.{
  Keeps-refl, Keeps-trans, touched, touched-Keeps, flushed, flushed-Keeps, flush_page_internal_lem,
  freed, freed-Keeps, free_internal_lem,
}

module _ (dev : Device) (reliable : IsReliable dev) (known : ℕ → Bool) where
  -- The page has no frame any more; or somebody had pinned its frame, and it has one pin more.
  abbrev pub After : Store dev → Store dev → FrameId → Rc → Type 0
  After s t id rc =
      ((rc ≡ success) × (frame_at dev t id ≡ none))
      ⊎ ((rc ≡ locked_unlock)
          × ((f : Frame) × (frame_at dev s id ≡ some f)
              × (0 < f.pin_count)
              × (frame_at dev t id ≡ some (pin f))))

  abbrev pub Purges : Store dev → FrameId → Type 0
  Purges s id =
      (t : Store dev) × (rc : Rc) × (purge_page dev id s ≡ ok (t, rc))
      × Keeps dev known s t
      × After s t id rc

  module _ {s : Store dev} (c : IsCoherent dev known s) (f : Frame)
      (e : frame_at dev s (frame_id f) ≡ some f) (one : f.pin_count ≡ 1) where
    free_clean :
        f.dirty ≡ false
        → (t : Store dev) × (free_frame dev (frame_id f) (frame_id f) (s, success)
            ≡ ok (t, success))
          × Keeps dev known s t
          × (frame_at dev t (frame_id f) ≡ none)
    unfolding free_frame ob_succ store
    free_clean d = (
      record s { manager = freed dev reliable known c f },
      ap (λ r. with_manager dev s r >>= λ s'. ok (s', success))
          (free_internal_lem dev reliable known c f e one),
      freed-Keeps dev reliable known c f e d,
      rw (same_frame_refl (frame_id f)) refl,
    )

  purge_frame_free :
      (id at : FrameId) (f : Frame) (s : Store dev) (r : Store dev × Rc)
      → (f.pin_count == 1) ≡ true
      → (if f.dirty then flush_page_internal dev id.file_desc at f s else (s, success)) ≡ r
      → purge_frame dev id at f s ≡ free_frame dev id at r
  unfolding purge_frame
  purge_frame_free id at f s r one e = rw (purge_frame, one) (ap (free_frame dev id at) e)

  purge_frame_busy :
      (id at : FrameId) (f : Frame) (s : Store dev)
      → (f.pin_count == 1) ≡ false
      → purge_frame dev id at f s ≡ ok (s, locked_unlock)
  unfolding purge_frame
  purge_frame_busy id at f s busy = rw (purge_frame, busy) refl

  purge_alone :
      (s : Store dev) (c : IsCoherent dev known s) (f : Frame)
      → frame_at dev s (frame_id f) ≡ some f
      → f.pin_count ≡ 1
      → (t : Store dev) × (purge_frame dev (frame_id f) (frame_id f) f s ≡ ok (t, success))
        × Keeps dev known s t
        × (frame_at dev t (frame_id f) ≡ none)
  unfolding purge_frame store assign
  purge_alone s c f e one = elim (Bool-cases f.dirty) [
    | inr d ↦
        let (t, done, keeps, gone) = free_clean c f e one d in
        (
          t,
          purge_frame_free (frame_id f) (frame_id f) f s (s, success) (ground (arith, one))
                (rw d refl)
              ∙ done,
          keeps,
          gone,
        )
    | inl d ↦
        let keeps1 = flushed-Keeps dev reliable known c f e in
        let (t, done, keeps, gone) =
          free_clean keeps1.coherent (record f { dirty = false })
            (rw (same_frame_refl (frame_id f)) refl) one refl in
        (
          t,
          purge_frame_free (frame_id f) (frame_id f) f s (flushed dev reliable known c f, success)
                (ground (arith, one)) (rw d (flush_page_internal_lem dev reliable known c f))
              ∙ done,
          Keeps-trans dev reliable known s _ t keeps1 keeps,
          gone,
        )
  ]

  purge_frame_of :
      (s : Store dev) (c : IsCoherent dev known s) (f : Frame)
      → frame_at dev s (frame_id f) ≡ some f
      → Purges s (frame_id f)
  unfolding purge_page purge_got assign lru_touch store
  purge_frame_of s c f e =
      let s1 : Store dev = touched dev reliable known c (frame_id f) f in
      let k1 = touched-Keeps dev reliable known c (frame_id f) f e in
      let here1 : frame_at dev s1 (frame_id f) ≡ some (pin f) =
        rw (same_frame_refl (frame_id f)) refl in
      let start = ap (purge_got dev (frame_id f) s) (get_internal_hit (frame_id f) s.manager f e) in
      elim (Bool-cases (f.pin_count == 0)) [
        | inl idle ↦
            let (t, done, keeps, gone) =
              purge_alone s1 k1.coherent (pin f) here1 (ground (arith, idle)) in
            (
              t,
              success,
              start ∙ done,
              Keeps-trans dev reliable known s s1 t k1 keeps,
              inl (refl, gone),
            )
        | inr busy ↦ (
          s1,
          locked_unlock,
          start ∙ purge_frame_busy (frame_id f) (frame_id f) (pin f) s1 (ground (arith, busy)),
          k1,
          inr (refl, (f, e, ground (arith, busy), here1)),
        )
      ]

  -- `purge_page` on a coherent pool with a reliable device returns, and keeps what readers see of
  -- every page. A page without a frame, or with one that nobody has pinned, has none afterwards, so
  -- that the file itself holds the page. A frame that is pinned stays, the code is LOCKED_UNLOCK, and
  -- the pin that the search has put on it is not taken off: it has one more than before.
  pub purge_page_lem : (s : Store dev) (id : FrameId) → IsCoherent dev known s → Purges s id
  unfolding purge_page purge_got
  purge_page_lem s id c = elim (Option-cases (frame_at dev s id)) [
    | inl miss ↦ (
      s,
      success,
      ap (purge_got dev id s) (get_internal_miss id s.manager miss),
      Keeps-refl dev reliable known c,
      inl (refl, miss),
    )
    | inr (f, hit) ↦
        let own : frame_id f ≡ id = c.owned id f hit in
        subst (Purges s) own (purge_frame_of s c f (ap (frame_at dev s) own ∙ hit))
  ]
