-- ===== src/Index/Deletion.antt =====
-- `delete_entry` of src/observer/storage/index/bplus_tree.cpp on a search tree, when the leaf of the key
-- has more items than the least.
use landbase.Base.{
  ℕ, ◌≤◌, ◌<◌, ◌≡◌, ◌≢◌, refl, ap, subst, ◌∙◌, ◌⊎◌, inl, inr, true, Option, none, some, List, arith,
  leb, le→leb, ==_self, length, get_elem?,
}
use landbase.Base.Int.{pos}
use landbase.Rc.{Rc, success, record_not_exist, ob_succ}
use landbase.Index.Key.{Rid, Key, IsOrder, key_compare}
use landbase.Index.Node.{Item, LeafNode, Node, leaf, min_size}
use landbase.Index.Tree.{
  BplusTree, set_page, find_leaf, find_leaf_internal, find_leaf_loop, child_of,
}
use landbase.Index.Merge.{delete_entry, delete_entry_internal}
use landbase.Index.Ranges.{Above, Under, TreeAt, Holds}
use landbase.Index.Find.{find_leaf_lem}
use landbase.Index.Grow.{kept, grown, same_path}
use landbase.Index.Insertion.{in_all, other_in, head_of, have_all, came}
use landbase.Index.Removal.{IsRemoved, leaf_remove_lem}

module _ (t : BplusTree) (key : Key) (levels fuel p : ℕ) (order : IsOrder (key_compare t.attrs))
    (root : t.root_page ≡ some p)
    (tree : TreeAt (key_compare t.attrs) t.pages levels (t.pages p) none none)
    (enough : levels < fuel) where
  abbrev Held : (ℕ → Option Node) → Item Rid → Type 0
  Held pages z = Holds (key_compare t.attrs) pages levels (pages p) z

  loop_found :
      (q : ℕ)
      → find_leaf t fuel key ≡ some (success, q)
      → find_leaf_loop (child_of (key_compare t.attrs) key) t.pages fuel p ≡ some (success, q)
  unfolding find_leaf find_leaf_internal
  loop_found q found = rw (find_leaf, root) at found

  -- The tree with another leaf at a page.
  abbrev with_leaf : ℕ → LeafNode → BplusTree
  with_leaf q m = set_page t q (some (leaf m))

  still_found :
      (q : ℕ) (n n' : LeafNode)
      → t.pages q ≡ some (leaf n)
      → find_leaf t fuel key ≡ some (success, q)
      → find_leaf (with_leaf q n') fuel key ≡ some (success, q)
  unfolding find_leaf find_leaf_internal
  still_found q n n' page found =
      rw (find_leaf, root)
        (same_path (key_compare t.attrs) order t.pages q n page n'
          (child_of (key_compare t.attrs) key) fuel p (loop_found q found))

  module _ (q : ℕ) (n : LeafNode) (found : find_leaf t fuel key ≡ some (success, q))
      (page : t.pages q ≡ some (leaf n)) (rest : List (Item Rid)) (z : Item Rid) (r : ℕ)
      (gone : IsRemoved (key_compare t.attrs) order key n.items rest z r)
      (left : 1 ≤ length rest) where
    abbrev n' : LeafNode
    n' = record n { items = rest }

    shrunk :
        TreeAt
          (key_compare t.attrs)
          (with_leaf q n').pages
          levels
          ((with_leaf q n').pages p)
          none
          none
    shrunk =
        let (x, x_at) = head_of rest left in
        let g =
          grown (key_compare t.attrs) order t.pages q n page n' key x 0 x_at left gone.ascending
            (λ lo hi k all.
              (((gone.contents (λ y.
                  Above (key_compare t.attrs) lo y.key × Under (key_compare t.attrs) hi y.key)).0
                all).1))
            r z gone.place levels fuel p (t.pages p) none none (loop_found q found) refl tree
            (tt, tt) in
        g.tree

    other_kept : (y : Item Rid) → y ≢ z → Held t.pages y → Held (with_leaf q n').pages y
    other_kept y ne h =
        kept (key_compare t.attrs) order t.pages q n page n' y
          (other_in n.items rest z gone.contents y ne) levels p (t.pages p) refl h

    none_new : (y : Item Rid) → Held (with_leaf q n').pages y → Held t.pages y
    none_new y h =
        came (key_compare t.attrs) order t.pages q n page n' y
          (λ j e.
            in_all (λ w. (i : ℕ) × (get_elem? n.items i ≡ some w)) rest j y
              ((gone.contents (λ w. (i : ℕ) × (get_elem? n.items i ≡ some w))).0
                (have_all n.items)).1
              e)
          levels p h

    none_left :
        (y : Item Rid) → Held (with_leaf q n').pages y → key_compare t.attrs y.key key ≢ pos 0
    none_left y h e =
        let (q2, n2, found2, page2, sorted2, some2, sound2, complete2) =
          find_leaf_lem (with_leaf q n') key levels fuel p order root shrunk enough in
        let again = still_found q n n' page found in
        let there : (with_leaf q n').pages q ≡ some (leaf n') = rw (==_self q) refl in
        let same : q ≡ q2 = cc (again, found2) in
        let one : n2 ≡ n' = cc (there, page2, ap (with_leaf q n').pages same) in
        let (i, at) = complete2 y e h in
        in_all (λ w. key_compare t.attrs w.key key ≢ pos 0) rest i y gone.others
          (subst (λ l. get_elem? l.items i ≡ some y) one at) e

  entry_at_leaf :
      (q : ℕ) (n : LeafNode)
      → find_leaf t fuel key ≡ some (success, q)
      → t.pages q ≡ some (leaf n)
      → delete_entry fuel t key ≡ delete_entry_internal fuel t q n key
  unfolding delete_entry ob_succ
  entry_at_leaf q n found page = simp (delete_entry, found, page) refl

  -- The deletion from a search tree, when the leaf that the search finds has more items than the
  -- least and a leaf may hold an item, always answers. Either no item of the tree has a key that compares equal, and nothing
  -- changes; or it succeeds, and the pages are again a search tree of the same levels, which holds
  -- every item that it held but for one whose key compared equal, no item with such a key, and no
  -- item that it did not hold.
  pub delete_entry_lem :
      ((q : ℕ) (n : LeafNode)
        → find_leaf t fuel key ≡ some (success, q)
        → t.pages q ≡ some (leaf n)
        → min_size t.leaf_max_size < length n.items)
      → 1 ≤ t.leaf_max_size
      → (rc : Rc) × (t' : BplusTree) × (delete_entry fuel t key ≡ some (rc, t'))
        × (((rc ≡ record_not_exist)
              × (t' ≡ t)
              × ((y : Item Rid) → Held t.pages y → key_compare t.attrs y.key key ≢ pos 0))
            ⊎ ((rc ≡ success)
                × TreeAt (key_compare t.attrs) t'.pages levels (t'.pages p) none none
                × ((y : Item Rid) → Held t'.pages y → key_compare t.attrs y.key key ≢ pos 0)
                × (z : Item Rid) × Held t.pages z
                × (key_compare t.attrs z.key key ≡ pos 0)
                × ((y : Item Rid) → y ≢ z → Held t.pages y → Held t'.pages y)
                × ((y : Item Rid) → Held t'.pages y → Held t.pages y)))
  unfolding delete_entry_internal min_size
  delete_entry_lem room some_max =
      let (q, n, found, page, sorted, some_item, sound, complete) =
        find_leaf_lem t key levels fuel p order root tree enough in
      elim (leaf_remove_lem (key_compare t.attrs) order key n.items sorted) [
        | inl (kept_all, others) ↦ (
          record_not_exist,
          t,
          entry_at_leaf q n found page ∙ rw (delete_entry_internal, kept_all) refl,
          inl (
            refl,
            refl,
            λ y h e.
                let (i, at) = complete y e h in
                in_all (λ w. key_compare t.attrs w.key key ≢ pos 0) n.items i y others at e,
          ),
        )
        | inr (rest, z, r, taken, gone) ↦
            let roomy = room q n found page in
            let left : 1 ≤ length rest = omega (arith, gone.size, roomy, some_max) in
            let enough_left : leb (min_size t.leaf_max_size) (length rest) ≡ true =
              le→leb _ _ (omega (arith, gone.size, roomy)) in
            (
              success,
              with_leaf q (record n { items = rest }),
              entry_at_leaf q n found page ∙ rw (delete_entry_internal, taken, enough_left) refl,
              inr (
                refl,
                shrunk q n found page rest z r gone left,
                none_left q n found page rest z r gone left,
                z,
                sound z r gone.place,
                gone.equal,
                other_kept q n found page rest z r gone left,
                none_new q n found page rest z r gone left,
              ),
            )
      ]
