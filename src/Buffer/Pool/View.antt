-- ===== src/Buffer/Pool/View.antt =====
-- What a file holds for those who read it through the buffer pool: the page in memory where there is
-- one, and the page of the file where there is none.
use landbase.Base.{
  ℕ, ◌≡◌, refl, sym, ap, subst, ◌∙◌, inl, inr, Bool, true, false, Bool-cases, Option, none, some,
  All, if◌then◌else◌,
}
use landbase.Buffer.Lru.{is_listed}
use landbase.Buffer.Frames.{
  FrameId, same_frame, same_frame-eq, same_frame_refl, frame_eq, Page, Frame, frame_id,
}
use landbase.Buffer.Pool.{Device, Store, frame_at}

-- Every write succeeds, and is read back at its place and nowhere else.
pub record IsReliable (dev : Device) : Type 0 where
  pub written : (files : dev.Files) (id : FrameId) (p : Page) → (dev.write_page files id p).1 ≡ true
  pub read-write :
      (files : dev.Files) (id : FrameId) (p : Page) (j : FrameId)
      → dev.read_page (dev.write_page files id p).0 j
        ≡ (if same_frame id j then some p else dev.read_page files j)

module _ (dev : Device) where
  abbrev pub page_of : Store dev → FrameId → Option Frame → Option Page
  page_of s id none = dev.read_page s.files id
  page_of s id (some f) = some f.page

  abbrev pub view : Store dev → FrameId → Option Page
  view s id = page_of s id (frame_at dev s id)

  module _ (known : ℕ → Bool) where
    -- A frame is that of its page, in a file that is open; one that is not dirty holds what the file
    -- holds; every page of a file bears its own number; free frames are not pinned.
    pub record IsCoherent (s : Store dev) : Type 0 where
      pub owned : (id : FrameId) (f : Frame) → frame_at dev s id ≡ some f → frame_id f ≡ id
      pub opened :
          (id : FrameId) (f : Frame) → frame_at dev s id ≡ some f → known id.file_desc ≡ true
      pub clean :
          (id : FrameId) (f : Frame)
          → frame_at dev s id ≡ some f
          → f.dirty ≡ false
          → dev.read_page s.files id ≡ some f.page
      pub stamped :
          (id : FrameId) (p : Page) → dev.read_page s.files id ≡ some p → p.page_num ≡ id.page_num
      pub listed :
          (id : FrameId) (f : Frame)
          → frame_at dev s id ≡ some f
          → is_listed frame_eq id s.manager.frames.order ≡ true
      pub idle : All (λ f. f.pin_count ≡ 0) s.manager.frees

    -- Readers see the same pages, and the store is still coherent.
    pub record Keeps (s s' : Store dev) : Type 0 where
      pub same_view : (id : FrameId) → view s' id ≡ view s id
      pub coherent : IsCoherent s'

    -- What is asked of the place that has changed.
    abbrev pub Local : Store dev → Store dev → FrameId → Option Frame → Type 0
    Local s s' id none = dev.read_page s'.files id ≡ view s id
    Local s s' id (some f) =
        (some f.page ≡ view s id)
        × (frame_id f ≡ id)
        × (f.dirty ≡ false → dev.read_page s'.files id ≡ some f.page)
        × (known id.file_desc ≡ true)
        × (is_listed frame_eq id s'.manager.frames.order ≡ true)

    -- A step that changes one place.
    pub record Changes (s s' : Store dev) (id : FrameId) (now : Option Frame) : Type 0 where
      pub frames :
          (j : FrameId) → frame_at dev s' j ≡ (if same_frame id j then now else frame_at dev s j)
      pub files :
          (j : FrameId)
          → same_frame id j ≡ false
          → dev.read_page s'.files j ≡ dev.read_page s.files j
      pub order :
          (j : FrameId)
          → same_frame id j ≡ false
          → is_listed frame_eq j s'.manager.frames.order
            ≡ is_listed frame_eq j s.manager.frames.order
      pub stamp : (p : Page) → dev.read_page s'.files id ≡ some p → p.page_num ≡ id.page_num
      pub frees : All (λ f. f.pin_count ≡ 0) s'.manager.frees
      pub here : Local s s' id now

    module _ {s s' : Store dev} {id : FrameId} {now : Option Frame} (c : IsCoherent s)
        (ch : Changes s s' id now) where
      at_place : frame_at dev s' id ≡ now
      at_place = rw (same_frame_refl id) at (ch.frames id)

      elsewhere : (j : FrameId) → same_frame id j ≡ false → frame_at dev s' j ≡ frame_at dev s j
      elsewhere j ne = rw ne at (ch.frames j)

      local : (f : Frame) → frame_at dev s' id ≡ some f → Local s s' id (some f)
      local f e = subst (Local s s' id) (sym at_place ∙ e) ch.here

      by_place :
          (P : FrameId → Type 0)
          → P id
          → ((j : FrameId) → same_frame id j ≡ false → P j)
          → (j : FrameId) → P j
      by_place P here there j = elim (Bool-cases (same_frame id j)) [
        | inl e ↦ subst P (same_frame-eq id j e) here
        | inr ne ↦ there j ne
      ]

      page_of_now : (n : Option Frame) → Local s s' id n → page_of s' id n ≡ view s id
      page_of_now none l = l
      page_of_now (some f) l = l.0

      page_of_files :
          (j : FrameId)
          → same_frame id j ≡ false
          → (n : Option Frame) → page_of s' j n ≡ page_of s j n
      page_of_files j ne none = ch.files j ne
      page_of_files j ne (some f) = refl

      pub Changes-Keeps : Keeps s s'
      Changes-Keeps = record {
        same_view =
            by_place (λ j. view s' j ≡ view s j)
              (ap (page_of s' id) at_place ∙ page_of_now now ch.here)
              (λ j ne. ap (page_of s' j) (elsewhere j ne) ∙ page_of_files j ne (frame_at dev s j));
        coherent = record {
          owned =
              by_place (λ j. (f : Frame) → frame_at dev s' j ≡ some f → frame_id f ≡ j)
                (λ f e. (local f e).1) (λ j ne f e. c.owned j f (sym (elsewhere j ne) ∙ e));
          opened =
              by_place (λ j. (f : Frame) → frame_at dev s' j ≡ some f → known j.file_desc ≡ true)
                (λ f e. (local f e).3) (λ j ne f e. c.opened j f (sym (elsewhere j ne) ∙ e));
          clean =
              by_place
                (λ j.
                  (f : Frame)
                  → frame_at dev s' j ≡ some f
                  → f.dirty ≡ false
                  → dev.read_page s'.files j ≡ some f.page)
                (λ f e. (local f e).2)
                (λ j ne f e d. ch.files j ne ∙ c.clean j f (sym (elsewhere j ne) ∙ e) d);
          stamped =
              by_place
                (λ j. (p : Page) → dev.read_page s'.files j ≡ some p → p.page_num ≡ j.page_num)
                ch.stamp (λ j ne p e. c.stamped j p (sym (ch.files j ne) ∙ e));
          listed =
              by_place
                (λ j.
                  (f : Frame)
                  → frame_at dev s' j ≡ some f
                  → is_listed frame_eq j s'.manager.frames.order ≡ true)
                (λ f e. (local f e).4)
                (λ j ne f e. ch.order j ne ∙ c.listed j f (sym (elsewhere j ne) ∙ e));
          idle = ch.frees;
        };
      }
