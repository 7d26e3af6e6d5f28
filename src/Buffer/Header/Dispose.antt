-- ===== src/Buffer/Header/Dispose.antt =====
-- `dispose_page` gives a page back.
use landbase.Base.{
  ℕ, ◌+◌, ◌<◌, ◌≡◌, ◌≢◌, refl, sym, ap, subst, ◌∙◌, inl, inr, Bool, true, not, ◌&&◌, ◌||◌,
  Bool-cases, none, some, arith, ltb, ltb→lt, ltb-false, ◌==◌,
}
use landbase.Base.Count.{count_where, count_where-insert}
use landbase.Base.Result.{ok, ◌>>=◌}
use landbase.Bitmap.{clear_bit}
use landbase.Bitmap.Bits
use landbase.Rc.{success}
use landbase.Buffer.Lru.{store, lru_touch, assign}
use landbase.Buffer.Frames.{
  same_frame_refl, frame_eq, Frame, frame_id, pin, get_internal_hit, free_internal,
}
use landbase.Buffer.Pool.{Device, frame_at, with_manager}
use landbase.Buffer.Pool.View.{IsReliable, IsCoherent}
use landbase.Buffer.Pool.Steps.{touched, touched-Keeps, freed, free_internal_lem}
use landbase.Buffer.Header.{
  FileHeader, in_use, dispose_header, DiskBufferPool, page_id, with_header, dispose_found,
  dispose_page,
}
use landbase.Buffer.Header.Inv.{IsValid}

==→eq : (a b : ℕ) → (a == b) ≡ true → a ≡ b
==→eq a b h = ground (arith, h)

-- Page `n` is not in use any more; all others are as they were.
pub record Returns (h h' : FileHeader) (n : ℕ) : Type 0 where
  pub others : (j : ℕ) → in_use h' j ≡ (not (n == j) && in_use h j)
  pub valid : IsValid h'

module _ {h : FileHeader} (v : IsValid h) (n : ℕ) (used : in_use h n ≡ true) (other : n ≢ 0) where
  inside : n < h.page_count
  inside = elim (Bool-cases (ltb n h.page_count)) [
    | inl lt ↦ ltb→lt n h.page_count lt
    | inr ge ↦ absurd (cc (used, v.behind n (ltb-false n h.page_count ge)))
  ]

  cleared : (j : ℕ) → in_use (dispose_header n h) j ≡ (not (n == j) && in_use h j)
  unfolding dispose_header clear_bit
  cleared j = Bits.get-clear_bit v.bitmap n j (omega (arith, inside, v.bounded))

  back : (i : ℕ) → in_use h i ≡ (n == i || in_use (dispose_header n h) i)
  back i = elim (Bool-cases (n == i)) [
    | inl e ↦ rw e (ap (in_use h) (sym (==→eq n i e)) ∙ used)
    | inr ne ↦ rw (cleared i, ne) refl
  ]

  one_less :
      count_where (in_use h) h.page_count
      ≡ count_where (in_use (dispose_header n h)) h.page_count + 1
  one_less =
      count_where-insert (in_use (dispose_header n h)) (in_use h) n h.page_count inside
        (cleared n ∙ ground arith) (λ i lt. back i)

  dispose_header-Returns : Returns h (dispose_header n h) n
  unfolding dispose_header clear_bit
  dispose_header-Returns = record {
    others = cleared;
    valid = record {
      bitmap = Bits.clear_bit-IsValid n v.bitmap;
      bounded = v.bounded;
      counted = omega (arith, v.counted, one_less);
      behind = λ i le. cleared i ∙ ground (arith, v.behind i le);
      own = cleared 0 ∙ ground (arith, v.own, other);
    };
  }

module _ (dev : Device) (reliable : IsReliable dev) (known : ℕ → Bool) where
  abbrev pub Disposes : DiskBufferPool dev → ℕ → Type 0
  Disposes p n =
      (q : DiskBufferPool dev) × (dispose_page dev n p ≡ ok (q, success))
      × Returns p.header q.header n
      × (frame_at dev q.store (page_id dev p n) ≡ none)

  -- `dispose_page` on a valid header and coherent frames, of a page in use that is not the header's
  -- and whose frame nobody has pinned: it succeeds, the page is not in use any more and has no frame,
  -- every other page is in use as before, and the header's counts are right.
  pub dispose_page_lem :
      (p : DiskBufferPool dev) (n : ℕ) (f : Frame)
      → IsValid p.header
      → IsCoherent dev known p.store
      → in_use p.header n ≡ true
      → n ≢ 0
      → frame_at dev p.store (page_id dev p n) ≡ some f
      → f.pin_count ≡ 0
      → Disposes p n
  unfolding dispose_page dispose_found store assign lru_touch
  dispose_page_lem p n f v c used other hit idle =
      let id = page_id dev p n in
      let k1 = touched-Keeps dev reliable known c id f hit in
      let here1 : frame_at dev (touched dev reliable known c id f) id ≡ some (pin f) =
        rw (same_frame_refl id) refl in
      let own : frame_id (pin f) ≡ id = c.owned id f hit in
      let t = touched dev reliable known c id f in
      let gone = freed dev reliable known k1.coherent (pin f) in
      let freeing : free_internal id id t.manager ≡ ok gone =
        subst (λ a. free_internal a a t.manager ≡ ok gone) own
          (free_internal_lem dev reliable known k1.coherent (pin f)
            (ap (frame_at dev t) own ∙ here1) (ap (λ k. k + 1) idle)) in
      (
        record (with_header dev p (dispose_header n p.header)) {
          store = record p.store { manager = gone };
        },
        ap (dispose_found dev p n) (get_internal_hit id p.store.manager f hit)
            ∙ ap
                (λ r. with_manager dev p.store r >>= λ s.
                  ok
                    (record (with_header dev p (dispose_header n p.header)) { store = s }, success))
                freeing,
        dispose_header-Returns v n used other,
        ap (λ a. store frame_eq t.manager.frames.nodes a none id) own
            ∙ (rw (same_frame_refl id) refl),
      )
