-- ===== src/Index/Find.antt =====
-- `find_leaf` of src/observer/storage/index/bplus_tree.cpp on the pages of a search tree.
use mathlib.Core.Option.{some-injective}
use landbase.Base.{
  ℕ, zero, suc, ◌≤◌, ◌<◌, ◌≡◌, refl, sym, ap, subst, ◌∙◌, Option, none, some, List, [], ◌∷◌, arith,
  length, get_elem?,
}
use landbase.Base.Int.{ℤ, pos}
use landbase.Rc.{success}
use landbase.Index.Key.{Rid, Key, IsOrder, key_compare}
use landbase.Index.Order.{le_lt_trans}
use landbase.Index.Node.{Item, LeafNode, InternalNode, Node, leaf, internal_lookup}
use landbase.Index.Sorted.{Le, IsSorted}
use landbase.Index.Search.{internal_lookup_lem}
use landbase.Index.Tree.{
  BplusTree, find_leaf, find_leaf_internal, value_at, find_leaf_loop, child_of,
}
use landbase.Index.Ranges.{
  Above, Under, lower, upper, IsNode, TreeAt, Holds, value_at-within, value_at-some, Above-trans,
  same_child, child_range, holds_within,
}

module _ (cmp : Key → Key → ℤ) (order : IsOrder cmp) (pages : ℕ → Option Node) (key : Key) where
  equal_le : (k : Key) → cmp k key ≡ pos 0 → Le cmp k key
  equal_le k e = ground (arith, e)

  equal_ge : (k : Key) → cmp k key ≡ pos 0 → Le cmp key k
  equal_ge k e = ground (arith, e, order.flip k key)

  pub Under-equal :
      (hi : Option Key) (k : Key) → cmp k key ≡ pos 0 → Under cmp hi k → Under cmp hi key
  Under-equal none k e h = tt
  Under-equal (some u) k e h = le_lt_trans cmp order key k u (equal_ge k e) h

  -- What the search finds: a leaf of the tree with ascending items, which holds every item of the tree
  -- whose key compares equal to the searched one.
  pub record IsFound (levels : ℕ) (o : Option Node) (fuel p q : ℕ) (n : LeafNode) : Type 0 where
    pub answer : find_leaf_loop (child_of cmp key) pages fuel p ≡ some (success, q)
    pub page : pages q ≡ some (leaf n)
    pub ascending : IsSorted cmp n.items
    pub some_item : 1 ≤ length n.items
    pub sound : (x : Item Rid) (i : ℕ) → get_elem? n.items i ≡ some x → Holds cmp pages levels o x
    pub complete :
        (x : Item Rid)
        → cmp x.key key ≡ pos 0
        → Holds cmp pages levels o x
        → (i : ℕ) × (get_elem? n.items i ≡ some x)

  pub child_at :
      (xs : List (Item ℕ)) (i position c : ℕ)
      → internal_lookup cmp key xs ≡ some (i, position)
      → value_at xs i ≡ some c
      → child_of cmp key xs ≡ some c
  unfolding child_of
  child_at xs i position c looked at = rw (child_of, looked) at

  find_below :
      (levels fuel p : ℕ) (n : InternalNode) (lo hi : Option Key) (xs : List (Item ℕ))
      → pages p ≡ some (Node.internal n)
      → n.items ≡ xs
      → IsNode cmp lo hi xs
      → ((i c : ℕ)
          → value_at xs i ≡ some c
          → TreeAt cmp pages levels (pages c) (lower cmp lo xs i) (upper cmp hi xs i))
      → Above cmp lo key
      → Under cmp hi key
      → ((c : ℕ) (lo' hi' : Option Key)
          → TreeAt cmp pages levels (pages c) lo' hi'
          → Above cmp lo' key
          → Under cmp hi' key
          → (q : ℕ) × (m : LeafNode) × IsFound levels (pages c) fuel c q m)
      → (q : ℕ) × (m : LeafNode) × IsFound (suc levels) (some (Node.internal n)) (suc fuel) p q m
  unfolding find_leaf_loop
  find_below levels fuel p n lo hi [] e shape node children a u deeper = absurd node
  find_below levels fuel p n lo hi (x ∷ xs) e shape node children a u deeper =
      let (i, position, looked, child, spot) = internal_lookup_lem cmp order key x xs (node.0) in
      let (c, at) = value_at-some (x ∷ xs) i child.within in
      let way : child_of cmp key n.items ≡ some c =
        ap (child_of cmp key) shape ∙ child_at (x ∷ xs) i position c looked at in
      let (ca, cu) = child_range cmp order lo hi x xs i key node child a u in
      let (q, m, found) =
        deeper c (lower cmp lo (x ∷ xs) i) (upper cmp hi (x ∷ xs) i) (children i c at) ca cu in
      (
        q,
        m,
        record {
          answer = rw (find_leaf_loop, e, way) found.answer;
          page = found.page;
          ascending = found.ascending;
          some_item = found.some_item;
          sound = λ y j yj. rw shape (i, c, at, found.sound y j yj);
          complete = λ y eq (j, d, jd, h).
              let jd' : value_at (x ∷ xs) j ≡ some d = rw (← shape) jd in
              let (ya, yu) =
                holds_within cmp order pages levels (pages d) _ _ y (children j d jd') h in
              let same : j ≡ i =
                same_child cmp order lo hi (x ∷ xs) j i key node (value_at-within (x ∷ xs) j d jd')
                  child.within
                  (
                    Above-trans cmp order (lower cmp lo (x ∷ xs) j) y.key key ya
                        (equal_le y.key eq),
                    Under-equal (upper cmp hi (x ∷ xs) j) y.key eq yu,
                  )
                  (ca, cu) in
              let one : d ≡ c = some-injective d c (sym jd' ∙ ap (value_at (x ∷ xs)) same ∙ at) in
              found.complete y eq (subst (λ k. Holds cmp pages levels (pages k) y) one h);
        },
      )

  find_leaf_at :
      (levels fuel p : ℕ) (o : Option Node) (lo hi : Option Key)
      → levels < fuel
      → pages p ≡ o
      → TreeAt cmp pages levels o lo hi
      → Above cmp lo key
      → Under cmp hi key
      → (q : ℕ) × (n : LeafNode) × IsFound levels o fuel p q n
  unfolding find_leaf_loop child_of
  find_leaf_at levels zero p o lo hi enough e tree a u = absurd (omega arith)
  find_leaf_at zero (suc fuel) p (some (leaf n)) lo hi enough e (some_item, sorted, within) a u = (
    p,
    n,
    record {
      answer = rw (find_leaf_loop, e) refl;
      page = e;
      ascending = sorted;
      some_item = some_item;
      sound = λ x i at. (i, at);
      complete = λ x eq h. h;
    },
  )
  find_leaf_at zero (suc fuel) p (some (Node.internal n)) lo hi enough e tree a u = absurd tree
  find_leaf_at zero (suc fuel) p none lo hi enough e tree a u = absurd tree
  find_leaf_at (suc levels) (suc fuel) p (some (leaf n)) lo hi enough e tree a u = absurd tree
  find_leaf_at (suc levels) (suc fuel) p none lo hi enough e tree a u = absurd tree
  find_leaf_at (suc levels) (suc fuel) p (some (Node.internal n)) lo hi enough e (node, children) a
        u =
      find_below levels fuel p n lo hi n.items e refl node children a u (λ c lo' hi' t a' u'.
        find_leaf_at levels fuel c (pages c) lo' hi' (omega arith) refl t a' u')

-- From the root of a search tree and with fuel for its levels, `find_leaf` answers with a leaf of the tree, whose
-- items are ascending, and which holds every item of the tree whose key compares equal to the
-- searched one.
pub find_leaf_lem :
    (t : BplusTree) (key : Key) (levels fuel p : ℕ)
    → IsOrder (key_compare t.attrs)
    → t.root_page ≡ some p
    → TreeAt (key_compare t.attrs) t.pages levels (t.pages p) none none
    → levels < fuel
    → (q : ℕ) × (n : LeafNode) × (find_leaf t fuel key ≡ some (success, q))
      × (t.pages q ≡ some (leaf n))
      × IsSorted (key_compare t.attrs) n.items
      × (1 ≤ length n.items)
      × ((x : Item Rid) (i : ℕ)
          → get_elem? n.items i ≡ some x
          → Holds (key_compare t.attrs) t.pages levels (t.pages p) x)
      × ((x : Item Rid)
          → key_compare t.attrs x.key key ≡ pos 0
          → Holds (key_compare t.attrs) t.pages levels (t.pages p) x
          → (i : ℕ) × (get_elem? n.items i ≡ some x))
unfolding find_leaf find_leaf_internal
find_leaf_lem t key levels fuel p order root tree enough =
    let (q, n, f) =
      find_leaf_at (key_compare t.attrs) order t.pages key levels fuel p (t.pages p) none none
        enough refl tree tt tt in
    (q, n, rw (find_leaf, root) f.answer, f.page, f.ascending, f.some_item, f.sound, f.complete)
