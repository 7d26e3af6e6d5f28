-- ===== src/Buffer/Pool/Steps.antt =====
-- What the single steps of a buffer pool do: a pin, a flush, and a frame that is freed or taken.
use landbase.Base.{
  ℕ, ◌+◌, ◌≡◌, refl, sym, ap, subst, ◌∙◌, Bool, true, false, none, some, List, [], ◌∷◌, ◌++◌, All,
}
use mathlib.Core.Option.{some-injective}
use landbase.Base.Result.{ok}
use landbase.Rc.{success}
use landbase.Buffer.Lru.{
  unlink, store, assign, lru_touch, get_hit, remove_hit, put_new, store-store, is_listed-unlink,
}
use landbase.Buffer.Frames.{
  FrameId, same_frame_refl, frame_eq, Page, Frame, frame_id, pin, set_page_num, FrameManager,
  set_frame, alloc, alloc_free, free_internal, alloc_miss,
}
use landbase.Buffer.Pool.{Device, Store, frame_at, put_frame, flush_page_internal}
use landbase.Buffer.Pool.View.{IsReliable, page_of, view, IsCoherent, Keeps, Changes-Keeps}

All_snoc :
    (f : Frame) (fs : List Frame)
    → All (λ g. g.pin_count ≡ 0) fs
    → f.pin_count ≡ 0
    → All (λ g. g.pin_count ≡ 0) (fs ++ (f ∷ []))
All_snoc f [] a h = (h, tt)
All_snoc f (g ∷ fs) a h = (a.0, All_snoc f fs a.1 h)

module _ (dev : Device) (reliable : IsReliable dev) (known : ℕ → Bool) where
  pub Keeps-trans :
      (s t u : Store dev) → Keeps dev known s t → Keeps dev known t u → Keeps dev known s u
  Keeps-trans s t u a b = record {
    same_view = λ id. b.same_view id ∙ a.same_view id;
    coherent = b.coherent;
  }

  module _ {s : Store dev} (c : IsCoherent dev known s) where
    pub Keeps-refl : Keeps dev known s s
    Keeps-refl = record { same_view = λ id. refl; coherent = c }

    view_of : (id : FrameId) (f : Frame) → frame_at dev s id ≡ some f → view dev s id ≡ some f.page
    view_of id f e = ap (page_of dev s id) e

    -- Only the number of pins changes.
    pub repin :
        (id : FrameId) (f : Frame) (n : ℕ)
        → frame_at dev s id ≡ some f
        → Keeps dev known s (put_frame dev id (record f { pin_count = n }) s)
    unfolding assign store
    repin id f n e = Changes-Keeps dev known c (record {
      frames = λ j. refl;
      files = λ j ne. refl;
      order = λ j ne. refl;
      stamp = c.stamped id;
      frees = c.idle;
      here = (
        sym (view_of id f e),
        c.owned id f e,
        λ d. c.clean id f e d,
        c.opened id f e,
        c.listed id f e,
      );
    })

    -- The frame is found: it is pinned, and is now the one that was used last.
    abbrev pub touched : FrameId → Frame → Store dev
    touched id f = record s {
      manager =
          set_frame id (pin f)
            (record s.manager { frames = lru_touch frame_eq id s.manager.frames });
    }

    pub touched-Keeps :
        (id : FrameId) (f : Frame) → frame_at dev s id ≡ some f → Keeps dev known s (touched id f)
    unfolding assign store lru_touch
    touched-Keeps id f e = Changes-Keeps dev known {id = id} {now = some (pin f)} c (record {
      frames = λ j. refl;
      files = λ j ne. refl;
      order = λ j ne. rw ne (is_listed-unlink frame_eq id j s.manager.frames.order ne);
      stamp = c.stamped id;
      frees = c.idle;
      here = (
        sym (view_of id f e),
        c.owned id f e,
        λ d. c.clean id f e d,
        c.opened id f e,
        rw (same_frame_refl id) refl,
      );
    })

    -- The page is written, and the frame is not dirty any more.
    abbrev pub flushed : Frame → Store dev
    flushed f =
        put_frame dev (frame_id f) (record f { dirty = false })
          (record s { files = (dev.write_page s.files (frame_id f) f.page).0 })

    pub flush_page_internal_lem :
        (f : Frame) → flush_page_internal dev f.file_desc (frame_id f) f s ≡ (flushed f, success)
    unfolding flush_page_internal
    flush_page_internal_lem f = rw (reliable.written s.files (frame_id f) f.page) refl

    wrote :
        (f : Frame)
        → dev.read_page (dev.write_page s.files (frame_id f) f.page).0 (frame_id f) ≡ some f.page
    wrote f =
        rw (same_frame_refl (frame_id f)) at
          (reliable.read-write s.files (frame_id f) f.page (frame_id f))

    pub flushed-Keeps :
        (f : Frame) → frame_at dev s (frame_id f) ≡ some f → Keeps dev known s (flushed f)
    unfolding assign store
    flushed-Keeps f e = Changes-Keeps dev known c (record {
      frames = λ j. refl;
      files = λ j ne. rw (reliable.read-write s.files (frame_id f) f.page j, ne) refl;
      order = λ j ne. refl;
      stamp = λ p e. ap (λ q. q.page_num) (some-injective _ _ (sym e ∙ wrote f));
      frees = c.idle;
      here = (
        sym (view_of (frame_id f) f e),
        refl,
        λ d. wrote f,
        c.opened (frame_id f) f e,
        c.listed (frame_id f) f e,
      );
    })

    -- The frame goes from the cache to the free frames.
    abbrev pub freed : Frame → FrameManager
    freed f = record {
      frames = record {
        order =
            unlink frame_eq (frame_id f)
              (frame_id f ∷ unlink frame_eq (frame_id f) s.manager.frames.order);
        nodes = store frame_eq s.manager.frames.nodes (frame_id f) none;
      };
      frees = s.manager.frees ++ (record f { pin_count = 0 } ∷ []);
    }

    pub free_internal_lem :
        (f : Frame)
        → frame_at dev s (frame_id f) ≡ some f
        → f.pin_count ≡ 1
        → free_internal (frame_id f) (frame_id f) s.manager ≡ ok (freed f)
    unfolding free_internal lru_touch
    free_internal_lem f e one =
        rw
          (
            free_internal,
            get_hit frame_eq (frame_id f) s.manager.frames f e,
            same_frame_refl (frame_id f),
            one,
            get_hit frame_eq (frame_id f) s.manager.frames f e,
            remove_hit frame_eq (frame_id f) (lru_touch frame_eq (frame_id f) s.manager.frames) f e,
          )
          refl

    pub freed-Keeps :
        (f : Frame)
        → frame_at dev s (frame_id f) ≡ some f
        → f.dirty ≡ false
        → Keeps dev known s (record s { manager = freed f })
    unfolding store
    freed-Keeps f e cl = Changes-Keeps dev known {id = frame_id f} {now = none} c (record {
      frames = λ j. refl;
      files = λ j ne. refl;
      order = λ j ne.
          is_listed-unlink frame_eq (frame_id f) j _ ne
          ∙ (rw ne (is_listed-unlink frame_eq (frame_id f) j _ ne));
      stamp = c.stamped (frame_id f);
      frees = All_snoc (record f { pin_count = 0 }) s.manager.frees c.idle refl;
      here = c.clean (frame_id f) f e cl ∙ sym (view_of (frame_id f) f e);
    })

    -- A page that has no frame takes the first free one, pinned.
    abbrev pub taken : FrameId → Frame → List Frame → FrameManager
    taken id f rest = record {
      frames = record {
        order = id ∷ s.manager.frames.order;
        nodes = store frame_eq s.manager.frames.nodes id (some (pin (set_page_num id.page_num f)));
      };
      frees = rest;
    }

    pub alloc_lem :
        (id : FrameId) (f : Frame) (rest : List Frame)
        → frame_at dev s id ≡ none
        → s.manager.frees ≡ f ∷ rest
        → alloc id s.manager ≡ ok (taken id f rest, true)
    unfolding alloc_free
    alloc_lem id f rest e free =
        alloc_miss id s.manager e
        ∙ ap (alloc_free id s.manager) free
        ∙ rw (put_new frame_eq id (pin (set_page_num id.page_num f)) s.manager.frames e, idle) refl
      where
        idle : f.pin_count ≡ 0
        idle = (subst (All (λ g. g.pin_count ≡ 0)) free c.idle).0

    pub alloc-none :
        (id : FrameId)
        → frame_at dev s id ≡ none
        → s.manager.frees ≡ []
        → alloc id s.manager ≡ ok (s.manager, false)
    unfolding alloc_free
    alloc-none id e free = alloc_miss id s.manager e ∙ ap (alloc_free id s.manager) free

    -- The store with the page read into the frame that was taken for it.
    abbrev pub loaded : FrameId → Frame → List Frame → Page → Store dev
    loaded id f rest p =
        put_frame dev id
          (record {
            dirty = f.dirty;
            pin_count = f.pin_count + 1;
            file_desc = id.file_desc;
            page = p;
          })
          (record s { manager = taken id f rest })

    pub loaded-Keeps :
        (id : FrameId) (f : Frame) (rest : List Frame) (p : Page)
        → frame_at dev s id ≡ none
        → s.manager.frees ≡ f ∷ rest
        → known id.file_desc ≡ true
        → dev.read_page s.files id ≡ some p
        → Keeps dev known s (loaded id f rest p)
    unfolding assign store
    loaded-Keeps id f rest p e free k r =
        Changes-Keeps dev known {id = id}
          {now = some (record {
            dirty = f.dirty;
            pin_count = f.pin_count + 1;
            file_desc = id.file_desc;
            page = p;
          })}
          c
          (record {
            frames = store-store frame_eq s.manager.frames.nodes id _ _;
            files = λ j ne. refl;
            order = λ j ne. rw ne refl;
            stamp = c.stamped id;
            frees = (subst (All (λ g. g.pin_count ≡ 0)) free c.idle).1;
            here = (
              sym (ap (page_of dev s id) e ∙ r),
              ap (λ n. record { file_desc = id.file_desc; page_num = n }) (c.stamped id p r),
              λ d. r,
              k,
              rw (same_frame_refl id) refl,
            );
          })
