-- ===== src/Buffer/Header/Allocate.antt =====
-- `allocate_page` gives a page that nobody uses.
use landbase.Base.{
  ℕ, suc, ◌<◌, ◌≡◌, ◌≢◌, refl, sym, ap, subst, ◌∙◌, ◌⊎◌, inl, inr, Bool, true, false, none, some,
  [], lt→leb-false, le→leb,
}
use landbase.Base.Result.{ok, ◌>>=◌}
use landbase.Rc.{success, bufferpool_nobuf, ob_succ}
use landbase.Buffer.Lru.{store}
use landbase.Buffer.Frames.{same_frame_refl, Page, Frame, pin, set_page_num}
use landbase.Buffer.Pool.{Device, Store, frame_at}
use landbase.Buffer.Pool.View.{IsReliable, view, IsCoherent}
use landbase.Buffer.Pool.Steps.{taken}
use landbase.Buffer.Pool.Evict.{HasIdle, allocate_frame_lem}
use landbase.Buffer.Pool.Read.{get_this_page_lem}
use landbase.Buffer.Header.{
  in_use, max_page_num, find_free_page, reuse_page, extend_file, DiskBufferPool, page_id,
  fill_new_page, append_page, allocate_page, with_header,
}
use landbase.Buffer.Header.Inv.{IsValid, Takes, IsFull, choice}

module _ (dev : Device) (reliable : IsReliable dev) (known : ℕ → Bool) where
  -- A pool on a file that is open: the header is valid, the frames are coherent, the free pages of
  -- the file can be read, there is no frame behind the file's end, and a frame can be had.
  pub record IsOpen (p : DiskBufferPool dev) : Type 0 where
    pub valid : IsValid p.header
    pub coherent : IsCoherent dev known p.store
    pub opened : known p.file_desc ≡ true
    pub readable :
        (i : ℕ)
        → i < p.header.page_count
        → in_use p.header i ≡ false
        → (page : Page) × (view dev p.store (page_id dev p i) ≡ some page)
    pub no_frame : frame_at dev p.store (page_id dev p p.header.page_count) ≡ none
    pub room : (p.store.manager.frees ≢ []) ⊎ HasIdle dev reliable known p.file_desc p.store

  abbrev pub Taken : ℕ → DiskBufferPool dev → Type 0
  Taken fuel p =
      (n : ℕ) × (q : DiskBufferPool dev) × (allocate_page dev known fuel p
        ≡ ok (q, success, some n))
      × Takes p.header q.header n

  module _ (k : ℕ) (p : DiskBufferPool dev) (o : IsOpen p) where
    take_free :
        (i : ℕ)
        → find_free_page p.header ≡ some i
        → i < p.header.page_count
        → Takes p.header (reuse_page i p.header) i
        → Taken (suc (suc k)) p
    unfolding allocate_page ob_succ
    take_free i found below takes =
        let (page, shown) = o.readable i below takes.free in
        let (t, done, given) =
          get_this_page_lem dev reliable known k p.store (page_id dev p i) page o.coherent shown
            o.opened o.room in
        (
          i,
          record (with_header dev p (reuse_page i p.header)) { store = t },
          rw (allocate_page, found, done) refl,
          takes,
        )

    filled :
        (f : Frame) (s : Store dev)
        → (q : DiskBufferPool dev) × (fill_new_page dev known (suc (suc k)) p (some f) s
            ≡ ok (q, success, some p.header.page_count))
          × (q.header ≡ extend_file p.header)
    unfolding fill_new_page
    filled f s = (_, refl, refl)

    take_next :
        find_free_page p.header ≡ none
        → p.header.page_count < max_page_num
        → Takes p.header (extend_file p.header) p.header.page_count
        → Taken (suc (suc k)) p
    unfolding allocate_page append_page store
    take_next nothing lt takes =
        let id = page_id dev p p.header.page_count in
        let (u, ready) =
          allocate_frame_lem dev reliable known p.file_desc p.store o.coherent id o.no_frame k
            o.room in
        let f : Frame = pin (set_page_num p.header.page_count ready.frame) in
        let with_taken : Store dev = record u {
          manager = taken dev reliable known ready.keeps.coherent id ready.frame ready.rest;
        } in
        let at_taken : frame_at dev with_taken id ≡ some f = rw (same_frame_refl id) refl in
        let (q, done, extended) = filled f with_taken in
        (
          p.header.page_count,
          q,
          rw (allocate_page, nothing, append_page, lt→leb-false p.header.page_count max_page_num lt)
              (ap (λ r. r >>= λ s. fill_new_page dev known (suc (suc k)) p (frame_at dev s id) s)
                  ready.done
                ∙ ap (λ o. fill_new_page dev known (suc (suc k)) p o with_taken) at_taken
                ∙ done),
          subst (λ h. Takes p.header h p.header.page_count) (sym extended) takes,
        )

  -- `allocate_page` on an open pool, with a reliable device and two rounds or more to find a frame:
  -- if all of the 4194176 pages that a header has bits for are in use, it answers BUFFERPOOL_NOBUF
  -- and changes nothing. Else it succeeds with a page that was not in use, which now is, while all
  -- others are as before, and the header's counts are right.
  pub allocate_page_lem :
      (k : ℕ) (p : DiskBufferPool dev)
      → (o : IsOpen p)
      → Taken (suc (suc k)) p
        ⊎ (IsFull o.valid
            × (allocate_page dev known (suc (suc k)) p ≡ ok (p, bufferpool_nobuf, none)))
  unfolding allocate_page append_page
  allocate_page_lem k p o = elim (choice o.valid) [
    | inl (i, found, below, takes) ↦ inl (take_free k p o i found below takes)
    | inr rest ↦ elim rest [
      | inl (nothing, lt, takes) ↦ inl (take_next k p o nothing lt takes)
      | inr (nothing, le, full) ↦ inr (
        full,
        rw (allocate_page, nothing, append_page, le→leb max_page_num p.header.page_count le) refl,
      )
    ]
  ]
