-- ===== src/Index/Insertion.antt =====
-- `insert_entry` of src/observer/storage/index/bplus_tree.cpp on a search tree, when the leaf for the new
-- key has room.
use mathlib.Core.Option.{some-injective, none-ne-some}
use landbase.Base.{
  ℕ, zero, suc, ◌≤◌, ◌<◌, ◌≡◌, ◌≢◌, refl, sym, ap, subst, ◌∙◌, ◌⊎◌, ◌↔◌, inl, inr, false, Option,
  none, some, List, [], ◌∷◌, arith, if◌then◌else◌, length, All, get_elem?,
}
use native.Mathlib.Decide.{ℕ_discrete}
use landbase.Base.Int.{ℤ, pos}
use landbase.Rc.{Rc, success, record_duplicate_key, ob_succ}
use landbase.Base.{==_self, ==-ne}
use landbase.Index.Key.{Rid, Key, IsOrder, key_compare}
use landbase.Index.Node.{Item, LeafNode, Node, leaf, key_or}
use landbase.Index.Sorted.{All-map, IsSorted}
use landbase.Index.Tree.{
  BplusTree, attrs_only, find_leaf, find_leaf_internal, find_leaf_loop, child_of,
}
use landbase.Index.Insert.{insert_entry, insert_entry_into_leaf_node}
use landbase.Index.Full.{chosen, insert_with_room}
use landbase.Index.Ranges.{Above, Under, TreeAt, Holds}
use landbase.Index.Find.{find_leaf_lem}
use landbase.Index.Grow.{changed_pages, kept, grown}

module _ {A : Type 0} where
  pub have_all : (xs : List A) → All (λ z. (i : ℕ) × (get_elem? xs i ≡ some z)) xs
  have_all [] = tt
  have_all (x ∷ xs) = (
    (0, refl),
    All-map (λ z. (i : ℕ) × (get_elem? xs i ≡ some z))
        (λ z. (i : ℕ) × (get_elem? (x ∷ xs) i ≡ some z)) (λ z (i, e). (suc i, e)) xs (have_all xs),
  )

  pub in_all :
      (P : A → Type 0) (xs : List A) (i : ℕ) (x : A) → All P xs → get_elem? xs i ≡ some x → P x
  in_all P [] i x h e = absurd (none-ne-some x e)
  in_all P (y ∷ xs) zero x h e = subst P (some-injective y x e) (h.0)
  in_all P (y ∷ xs) (suc i) x h e = in_all P xs i x (h.1) e

  -- What is in a list with an item more than another, and is not that item, is in the other.
  pub other_in :
      (xs ys : List A) (z : A)
      → ((P : A → Type 0) → All P xs ↔ (P z × All P ys))
      → (y : A) → y ≢ z
      → (i : ℕ) → get_elem? xs i ≡ some y
      → (j : ℕ) × (get_elem? ys j ≡ some y)
  other_in xs ys z contents y ne i e =
      elim (in_all (λ w. (w ≡ z) ⊎ ((j : ℕ) × (get_elem? ys j ≡ some w))) xs i y
        ((contents (λ w. (w ≡ z) ⊎ ((j : ℕ) × (get_elem? ys j ≡ some w)))).1
          (inl refl, All-map _ _ (λ w h. inr h) ys (have_all ys)))
        e) [ inl same ↦ absurd (ne same) | inr h ↦ h ]

  filled : (xs : List A) (i : ℕ) (x : A) → get_elem? xs i ≡ some x → 1 ≤ length xs
  filled [] i x e = absurd (none-ne-some x e)
  filled (y ∷ xs) i x e = omega arith

  pub head_of : (xs : List A) → 1 ≤ length xs → (x : A) × (get_elem? xs 0 ≡ some x)
  head_of [] h = absurd (omega arith)
  head_of (x ∷ xs) h = (x, refl)

pub item_at :
    {V : Type 0} (xs : List (Item V)) (i : ℕ) (d : Key)
    → i < length xs
    → (x : Item V) × (get_elem? xs i ≡ some x) × (key_or xs i d ≡ x.key)
item_at [] i d h = absurd (omega arith)
item_at (x ∷ xs) zero d h = (x, refl, refl)
item_at (x ∷ xs) (suc i) d h = item_at xs i d (omega arith)

module _ (cmp : Key → Key → ℤ) (order : IsOrder cmp) (pages : ℕ → Option Node) (q : ℕ)
    (n : LeafNode) (here : pages q ≡ some (leaf n)) (n' : LeafNode) where
  there : changed_pages cmp order pages q n here n' q ≡ some (leaf n')
  there = rw (==_self q) refl

  restored_at :
      (r : ℕ)
      → changed_pages cmp order (changed_pages cmp order pages q n here n') q n' there n r ≡ pages r
  restored_at r = elim (ℕ_discrete q r) [
    | yes same ↦
        subst
          (λ l.
            changed_pages cmp order (changed_pages cmp order pages q n here n') q n' there n l
            ≡ pages l)
          same (rw (==_self q) (sym here))
    | no ne ↦ rw (==-ne q r ne) refl
  ]

  restored :
      changed_pages cmp order (changed_pages cmp order pages q n here n') q n' there n ≡ pages
  restored i r = restored_at r i

  -- An item of the changed tree was there before, if it was in the leaf that changed.
  pub came :
      (z : Item Rid)
      → ((j : ℕ) → get_elem? n'.items j ≡ some z → (i : ℕ) × (get_elem? n.items i ≡ some z))
      → (levels p : ℕ)
      → Holds cmp
          (changed_pages cmp order pages q n here n')
          levels
          (changed_pages cmp order pages q n here n' p)
          z
      → Holds cmp pages levels (pages p) z
  came z back levels p h =
      subst (λ ps. Holds cmp ps levels (ps p) z) restored
        (kept cmp order (changed_pages cmp order pages q n here n') q n' there n z back levels p _
          refl h)

module _ (allocate_page : (ℕ → Option Node) → Option ℕ) (t : BplusTree) (x : Item Rid)
    (levels fuel p : ℕ) (order : IsOrder (key_compare t.attrs)) (plain : t.unique ≡ false)
    (root : t.root_page ≡ some p)
    (tree : TreeAt (key_compare t.attrs) t.pages levels (t.pages p) none none)
    (enough : levels < fuel) where
  chosen_plain : chosen t ≡ key_compare t.attrs
  chosen_plain = ap (λ b. if b then attrs_only t.attrs else key_compare t.attrs) plain

  entry_at_leaf :
      (q : ℕ) (n : LeafNode)
      → find_leaf t fuel x.key ≡ some (success, q)
      → t.pages q ≡ some (leaf n)
      → insert_entry allocate_page fuel t x ≡ insert_entry_into_leaf_node allocate_page fuel t q n x
  unfolding insert_entry ob_succ
  entry_at_leaf q n found page = simp (insert_entry, root, found, page) refl

  loop_found :
      (q : ℕ)
      → find_leaf t fuel x.key ≡ some (success, q)
      → find_leaf_loop (child_of (key_compare t.attrs) x.key) t.pages fuel p ≡ some (success, q)
  unfolding find_leaf find_leaf_internal
  loop_found q found = rw (find_leaf, root) at found

  module _ (q : ℕ) (n : LeafNode) (found : find_leaf t fuel x.key ≡ some (success, q))
      (page : t.pages q ≡ some (leaf n)) (some_item : 1 ≤ length n.items) (t' : BplusTree)
      (items : List (Item Rid)) (sorted : IsSorted (key_compare t.attrs) items)
      (contents : (P : Item Rid → Type 0) → All P items ↔ (P x × All P n.items))
      (page' : t'.pages q ≡ some (leaf (record n { items = items })))
      (others : (r : ℕ) → q ≢ r → t'.pages r ≡ t.pages r) where
    changed : ℕ → Option Node
    changed =
        changed_pages (key_compare t.attrs) order t.pages q n page (record n { items = items })

    changed_at : (r : ℕ) → t'.pages r ≡ changed r
    unfolding changed
    changed_at r = elim (ℕ_discrete q r) [
      | yes same ↦ subst (λ l. t'.pages l ≡ changed l) same (rw (==_self q) page')
      | no ne ↦ rw (==-ne q r ne) (others r ne)
    ]

    pages_changed : t'.pages ≡ changed
    pages_changed i r = changed_at r i

    keeps :
        (i : ℕ) (z : Item Rid)
        → get_elem? n.items i ≡ some z
        → (j : ℕ) × (get_elem? items j ≡ some z)
    keeps i z e =
        in_all (λ z. (j : ℕ) × (get_elem? items j ≡ some z)) n.items i z
          ((contents (λ z. (j : ℕ) × (get_elem? items j ≡ some z))).0 (have_all items)).1 e

    settled :
        TreeAt (key_compare t.attrs) t'.pages levels (t'.pages p) none none
        × Holds (key_compare t.attrs) t'.pages levels (t'.pages p) x
        × ((z : Item Rid)
            → Holds (key_compare t.attrs) t.pages levels (t.pages p) z
            → Holds (key_compare t.attrs) t'.pages levels (t'.pages p) z)
        × ((z : Item Rid)
            → z ≢ x
            → Holds (key_compare t.attrs) t'.pages levels (t'.pages p) z
            → Holds (key_compare t.attrs) t.pages levels (t.pages p) z)
    unfolding changed
    settled =
        let (place, new) =
          ((contents (λ z. (j : ℕ) × (get_elem? items j ≡ some z))).0 (have_all items)).0 in
        let (y, y_at) = head_of n.items some_item in
        let g =
          grown (key_compare t.attrs) order t.pages q n page (record n { items = items }) x.key x
            place new (filled items place x new) sorted
            (λ lo hi k all.
              (contents (λ z.
                  Above (key_compare t.attrs) lo z.key × Under (key_compare t.attrs) hi z.key)).1
                (k, all))
            0 y y_at levels fuel p (t.pages p) none none (loop_found q found) refl tree (tt, tt) in
        (
          subst (λ ps. TreeAt (key_compare t.attrs) ps levels (ps p) none none) (sym pages_changed)
              g.tree,
          subst (λ ps. Holds (key_compare t.attrs) ps levels (ps p) x) (sym pages_changed) g.has,
          λ z h.
              subst (λ ps. Holds (key_compare t.attrs) ps levels (ps p) z) (sym pages_changed)
                (kept (key_compare t.attrs) order t.pages q n page (record n { items = items }) z
                  (λ i e. keeps i z e) levels p (t.pages p) refl h),
          λ z ne h.
              came (key_compare t.attrs) order t.pages q n page (record n { items = items }) z
                (other_in items n.items x contents z ne) levels p
                (subst (λ ps. Holds (key_compare t.attrs) ps levels (ps p) z) pages_changed h),
        )

  answered :
      (q : ℕ) (n : LeafNode)
      → find_leaf t fuel x.key ≡ some (success, q)
      → t.pages q ≡ some (leaf n)
      → 1 ≤ length n.items
      → ((z : Item Rid) (i : ℕ)
          → get_elem? n.items i ≡ some z
          → Holds (key_compare t.attrs) t.pages levels (t.pages p) z)
      → IsOrder (chosen t)
      → IsSorted (chosen t) n.items
      → length n.items < t.leaf_max_size
      → (rc : Rc) × (t' : BplusTree) × (insert_entry allocate_page fuel t x ≡ some (rc, t'))
        × (((rc ≡ record_duplicate_key)
              × (t' ≡ t)
              × (z : Item Rid) × Holds (key_compare t.attrs) t.pages levels (t.pages p) z
              × (key_compare t.attrs z.key x.key ≡ pos 0))
            ⊎ ((rc ≡ success)
                × TreeAt (key_compare t.attrs) t'.pages levels (t'.pages p) none none
                × Holds (key_compare t.attrs) t'.pages levels (t'.pages p) x
                × ((z : Item Rid)
                    → Holds (key_compare t.attrs) t.pages levels (t.pages p) z
                    → Holds (key_compare t.attrs) t'.pages levels (t'.pages p) z)
                × ((z : Item Rid)
                    → z ≢ x
                    → Holds (key_compare t.attrs) t'.pages levels (t'.pages p) z
                    → Holds (key_compare t.attrs) t.pages levels (t.pages p) z)))
  answered q n found page some_item sound order' sorted room =
      let (rc, t', done, outcome) =
        insert_with_room allocate_page fuel t q n x order' sorted room in
      (
        rc,
        t',
        entry_at_leaf q n found page ∙ done,
        elim outcome [
          | inl (code, same, i, lt, equal) ↦
              let (z, at, key_eq) = item_at n.items i x.key lt in
              inl (
                code,
                same,
                z,
                sound z i at,
                subst (λ k. key_compare t.attrs k x.key ≡ pos 0) key_eq
                    (subst (λ c. c (key_or n.items i x.key) x.key ≡ pos 0) chosen_plain equal),
              )
          | inr (code, items, ins, page', others) ↦
              let (tree', has, keep, only) =
                settled q n found page some_item t' items
                  (subst (λ c. IsSorted c items) chosen_plain ins.ascending) ins.contents page'
                  others in
              inr (code, tree', has, keep, only)
        ],
      )

  -- The insertion into a search tree that is not unique, when the leaf that the search finds has
  -- room, always answers. Either an item of the tree has a key that compares equal to the new one,
  -- and nothing changes; or it succeeds, and the pages are again a search tree of the same levels,
  -- which holds the new item, every item that it held, and no other.
  pub insert_entry_lem :
      ((q : ℕ) (n : LeafNode)
        → find_leaf t fuel x.key ≡ some (success, q)
        → t.pages q ≡ some (leaf n)
        → length n.items < t.leaf_max_size)
      → (rc : Rc) × (t' : BplusTree) × (insert_entry allocate_page fuel t x ≡ some (rc, t'))
        × (((rc ≡ record_duplicate_key)
              × (t' ≡ t)
              × (z : Item Rid) × Holds (key_compare t.attrs) t.pages levels (t.pages p) z
              × (key_compare t.attrs z.key x.key ≡ pos 0))
            ⊎ ((rc ≡ success)
                × TreeAt (key_compare t.attrs) t'.pages levels (t'.pages p) none none
                × Holds (key_compare t.attrs) t'.pages levels (t'.pages p) x
                × ((z : Item Rid)
                    → Holds (key_compare t.attrs) t.pages levels (t.pages p) z
                    → Holds (key_compare t.attrs) t'.pages levels (t'.pages p) z)
                × ((z : Item Rid)
                    → z ≢ x
                    → Holds (key_compare t.attrs) t'.pages levels (t'.pages p) z
                    → Holds (key_compare t.attrs) t.pages levels (t.pages p) z)))
  insert_entry_lem room =
      let (q, n, found, page, sorted, some_item, sound, complete) =
        find_leaf_lem t x.key levels fuel p order root tree enough in
      answered q n found page some_item sound (subst IsOrder (sym chosen_plain) order)
        (subst (λ c. IsSorted c n.items) (sym chosen_plain) sorted) (room q n found page)
