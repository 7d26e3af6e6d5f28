-- ===== src/Index/Grow.antt =====
-- A search tree whose leaf gets a new item by `insert_entry` of
-- src/observer/storage/index/bplus_tree.cpp.
use mathlib.Core.Option.{some-injective, none-ne-some}
use landbase.Base.{
  ℕ, zero, suc, ◌≤◌, ◌≡◌, ◌≢◌, refl, sym, ap, subst, ◌∙◌, inl, inr, true, Option, none, some, List,
  [], ◌∷◌, arith, ◌==◌, ==-ne, if◌then◌else◌, length, Option-cases, All, get_elem?,
}
use native.Mathlib.Decide.{ℕ_discrete}
use landbase.Base.Int.{ℤ}
use landbase.Rc.{Rc, success, bufferpool_invalid_page_num}
use landbase.Index.Key.{Rid, Key, IsOrder}
use landbase.Index.Node.{Item, LeafNode, InternalNode, Node, leaf}
use landbase.Index.Sorted.{All-map, IsSorted}
use landbase.Index.Search.{internal_lookup_lem}
use landbase.Index.Tree.{value_at, find_leaf_loop, child_of}
use landbase.Index.Ranges.{
  Above, Under, lower, upper, IsNode, TreeAt, Holds, lower_within, upper_within, same_child,
  child_range, value_at-within, value_at-some, All-element,
}
use landbase.Index.Find.{child_at}

wrong_page :
    {p q : ℕ}
    → ◌≡◌ {A = Option (Rc × ℕ)} (some (bufferpool_invalid_page_num, p)) (some (success, q))
    → ⊥
wrong_page e = cc e

module _ (cmp : Key → Key → ℤ) (order : IsOrder cmp) (pages : ℕ → Option Node) (q : ℕ)
    (n : LeafNode) (here : pages q ≡ some (leaf n)) (n' : LeafNode) where
  abbrev pub changed_pages : ℕ → Option Node
  changed_pages r = if q == r then some (leaf n') else pages r

  other_page : (p : ℕ) → q ≢ p → changed_pages p ≡ pages p
  other_page p ne = rw (==-ne q p ne) refl

  internal_apart : (p : ℕ) (m : InternalNode) → pages p ≡ some (Node.internal m) → q ≢ p
  internal_apart p m e same = cc (e, here, same)

  abbrev Within : Option Key → Option Key → Key → Type 0
  Within lo hi k = Above cmp lo k × Under cmp hi k

  at_self : (p : ℕ) → q ≡ p → (q == p) ≡ true
  at_self p same = ground (arith, same)

  -- A tree in whose range an item of the changed leaf is not does not have that leaf.
  untouched :
      (levels p : ℕ) (o : Option Node) (lo hi : Option Key) (y : Item Rid) (i : ℕ)
      → get_elem? n.items i ≡ some y
      → ¬ (Within lo hi y.key)
      → pages p ≡ o
      → TreeAt cmp pages levels o lo hi
      → TreeAt cmp changed_pages levels (changed_pages p) lo hi
  untouched zero p (some (leaf m)) lo hi y i at out e tree = elim (ℕ_discrete q p) [
    | yes same ↦
        let one : m ≡ n = cc (e, here, ap pages same) in
        absurd (
          out (
            All-element (λ z. Within lo hi z.key) n.items i y
              (subst (λ l. All (λ z. Within lo hi z.key) l.items) one (tree.2)) at))
    | no ne ↦ rw (other_page p ne, e) tree
  ]
  untouched zero p (some (Node.internal m)) lo hi y i at out e tree = absurd tree
  untouched zero p none lo hi y i at out e tree = absurd tree
  untouched (suc levels) p (some (leaf m)) lo hi y i at out e tree = absurd tree
  untouched (suc levels) p none lo hi y i at out e tree = absurd tree
  untouched (suc levels) p (some (Node.internal m)) lo hi y i at out e (node, children) =
      rw (other_page p (internal_apart p m e), e)
        (
          node,
          λ j c cj.
              untouched levels c (pages c) _ _ y i at
                (λ (a, u). out (
                  lower_within cmp order lo hi m.items j y.key node a,
                  upper_within cmp order lo hi m.items j y.key node u,
                ))
                refl (children j c cj),
        )

  -- An item of the tree is still there, if it is kept in the leaf that changes.
  pub kept :
      (z : Item Rid)
      → ((i : ℕ) → get_elem? n.items i ≡ some z → (j : ℕ) × (get_elem? n'.items j ≡ some z))
      → (levels p : ℕ) (o : Option Node) → pages p ≡ o
      → Holds cmp pages levels o z
      → Holds cmp changed_pages levels (changed_pages p) z
  kept z keeps zero p (some (leaf m)) e (i, at) = elim (ℕ_discrete q p) [
    | yes same ↦
        let one : m ≡ n = cc (e, here, ap pages same) in
        rw (ap (λ r. if r then some (leaf n') else pages p) (at_self p same))
          (keeps i (subst (λ l. get_elem? l.items i ≡ some z) one at))
    | no ne ↦ rw (other_page p ne, e) (i, at)
  ]
  kept z keeps zero p (some (Node.internal m)) e h = absurd h
  kept z keeps zero p none e h = absurd h
  kept z keeps (suc levels) p (some (leaf m)) e h = absurd h
  kept z keeps (suc levels) p none e h = absurd h
  kept z keeps (suc levels) p (some (Node.internal m)) e (i, c, at, h) =
      rw (other_page p (internal_apart p m e), e) (i, c, at, kept z keeps levels c (pages c) refl h)

  module _ (g : List (Item ℕ) → Option ℕ) where
    path_step :
        (fuel p : ℕ) (o : Option Node)
        → pages p ≡ o
        → ((c : ℕ)
            → find_leaf_loop g pages fuel c ≡ some (success, q)
            → find_leaf_loop g changed_pages fuel c ≡ some (success, q))
        → find_leaf_loop g pages (suc fuel) p ≡ some (success, q)
        → find_leaf_loop g changed_pages (suc fuel) p ≡ some (success, q)
    unfolding find_leaf_loop
    path_step fuel p none e deeper answer = absurd (wrong_page (rw (find_leaf_loop, e) at answer))
    path_step fuel p (some (leaf m)) e deeper answer =
        let done : some (success, p) ≡ some (success, q) = rw (find_leaf_loop, e) at answer in
        let same : q ≡ p = cc done in
        let now : changed_pages p ≡ some (leaf n') =
          ap (λ r. if r then some (leaf n') else pages p) (at_self p same) in
        rw (find_leaf_loop, now) (ap (λ r. some (success, r)) (sym same))
    path_step fuel p (some (Node.internal m)) e deeper answer = elim (Option-cases (g m.items)) [
      | inl none_left ↦
          absurd (none-ne-some (success, q) (rw (find_leaf_loop, e, none_left) at answer))
      | inr (c, way) ↦
          rw (find_leaf_loop, other_page p (internal_apart p m e), e, way)
            (deeper c (rw (find_leaf_loop, e, way) at answer))
    ]

    -- The search takes the same way as before.
    pub same_path :
        (fuel p : ℕ)
        → find_leaf_loop g pages fuel p ≡ some (success, q)
        → find_leaf_loop g changed_pages fuel p ≡ some (success, q)
    unfolding find_leaf_loop
    same_path zero p answer = answer
    same_path (suc fuel) p answer = path_step fuel p (pages p) refl (same_path fuel) answer

  module _ (key : Key) (x : Item Rid) (place : ℕ) (new : get_elem? n'.items place ≡ some x)
      (some_item : 1 ≤ length n'.items) (sorted : IsSorted cmp n'.items)
      (inside : (lo hi : Option Key)
        → Within lo hi key
        → All (λ z. Within lo hi z.key) n.items
        → All (λ z. Within lo hi z.key) n'.items)
      (old : ℕ) (y : Item Rid) (old_at : get_elem? n.items old ≡ some y) where
    -- The tree after the change, the range of the leaf's items before it, and the new item in it.
    pub record IsGrown (levels p : ℕ) (lo hi : Option Key) : Type 0 where
      pub tree : TreeAt cmp changed_pages levels (changed_pages p) lo hi
      pub range : All (λ z. Within lo hi z.key) n.items
      pub has : Holds cmp changed_pages levels (changed_pages p) x

    found_here :
        (fuel p : ℕ) (m : LeafNode)
        → find_leaf_loop (child_of cmp key) pages (suc fuel) p ≡ some (success, q)
        → pages p ≡ some (leaf m)
        → q ≡ p
    unfolding find_leaf_loop
    found_here fuel p m answer e =
        let done : some (success, p) ≡ some (success, q) = rw (find_leaf_loop, e) at answer in
        cc done

    found_below :
        (fuel p c : ℕ) (m : InternalNode)
        → find_leaf_loop (child_of cmp key) pages (suc fuel) p ≡ some (success, q)
        → pages p ≡ some (Node.internal m)
        → child_of cmp key m.items ≡ some c
        → find_leaf_loop (child_of cmp key) pages fuel c ≡ some (success, q)
    unfolding find_leaf_loop
    found_below fuel p c m answer e way = rw (find_leaf_loop, e, way) at answer

    no_fuel : (p : ℕ) → find_leaf_loop (child_of cmp key) pages zero p ≡ some (success, q) → ⊥
    unfolding find_leaf_loop
    no_fuel p answer = none-ne-some (success, q) answer

    IsGrown-leaf :
        (p : ℕ) (m : LeafNode) (lo hi : Option Key)
        → q ≡ p
        → pages p ≡ some (leaf m)
        → All (λ z. Within lo hi z.key) m.items
        → Within lo hi key
        → IsGrown zero p lo hi
    IsGrown-leaf p m lo hi same e within k =
        let one : m ≡ n = cc (e, here, ap pages same) in
        let range : All (λ z. Within lo hi z.key) n.items =
          subst (λ l. All (λ z. Within lo hi z.key) l.items) one within in
        let now : changed_pages p ≡ some (leaf n') =
          ap (λ r. if r then some (leaf n') else pages p) (at_self p same) in
        record {
          tree = rw now (some_item, sorted, inside lo hi k range);
          range = range;
          has = rw now (place, new);
        }

    IsGrown-node :
        (levels fuel p : ℕ) (m : InternalNode) (lo hi : Option Key) (a : Item ℕ)
        (as' : List (Item ℕ))
        → find_leaf_loop (child_of cmp key) pages (suc fuel) p ≡ some (success, q)
        → pages p ≡ some (Node.internal m)
        → m.items ≡ a ∷ as'
        → IsNode cmp lo hi (a ∷ as')
        → ((j c : ℕ)
            → value_at (a ∷ as') j ≡ some c
            → TreeAt cmp pages levels
                (pages c)
                (lower cmp lo (a ∷ as') j)
                (upper cmp hi (a ∷ as') j))
        → Within lo hi key
        → ((c : ℕ) (lo' hi' : Option Key)
            → find_leaf_loop (child_of cmp key) pages fuel c ≡ some (success, q)
            → TreeAt cmp pages levels (pages c) lo' hi'
            → Within lo' hi' key
            → IsGrown levels c lo' hi')
        → IsGrown (suc levels) p lo hi
    IsGrown-node levels fuel p m lo hi a as' answer e shape node children k deeper =
        let (i, position, looked, child, spot) = internal_lookup_lem cmp order key a as' (node.0) in
        let (c, at) = value_at-some (a ∷ as') i child.within in
        let way : child_of cmp key m.items ≡ some c =
          ap (child_of cmp key) shape
          ∙ child_at cmp order pages key (a ∷ as') i position c looked at in
        let k' = child_range cmp order lo hi a as' i key node child (k.0) (k.1) in
        let g =
          deeper c (lower cmp lo (a ∷ as') i) (upper cmp hi (a ∷ as') i)
            (found_below fuel p c m answer e way) (children i c at) k' in
        let y_in =
          All-element (λ z. Within (lower cmp lo (a ∷ as') i) (upper cmp hi (a ∷ as') i) z.key)
            n.items old y g.range old_at in
        record {
          tree =
              rw (other_page p (internal_apart p m e), e, shape)
                (
                  node,
                  λ j d dj. elim (ℕ_discrete j i) [
                    | yes ji ↦
                        let one : d ≡ c =
                          some-injective d c (sym dj ∙ ap (value_at (a ∷ as')) ji ∙ at) in
                        subst
                          (λ l.
                            TreeAt cmp changed_pages levels (changed_pages d)
                              (lower cmp lo (a ∷ as') l) (upper cmp hi (a ∷ as') l))
                          (sym ji)
                          (subst
                            (λ r.
                              TreeAt cmp changed_pages levels (changed_pages r)
                                (lower cmp lo (a ∷ as') i) (upper cmp hi (a ∷ as') i))
                            (sym one) g.tree)
                    | no ne ↦
                        untouched levels d (pages d) _ _ y old old_at
                          (λ w. ne (
                            same_child cmp order lo hi (a ∷ as') j i y.key node
                              (value_at-within (a ∷ as') j d dj) child.within w y_in))
                          refl (children j d dj)
                  ],
                );
          range =
              All-map _ _
                (λ z w. (
                  lower_within cmp order lo hi (a ∷ as') i z.key node (w.0),
                  upper_within cmp order lo hi (a ∷ as') i z.key node (w.1),
                ))
                n.items g.range;
          has = rw (other_page p (internal_apart p m e), e, shape) (i, c, at, g.has);
        }

    IsGrown-items :
        (levels fuel p : ℕ) (m : InternalNode) (lo hi : Option Key) (xs : List (Item ℕ))
        → find_leaf_loop (child_of cmp key) pages (suc fuel) p ≡ some (success, q)
        → pages p ≡ some (Node.internal m)
        → m.items ≡ xs
        → IsNode cmp lo hi xs
        → ((j c : ℕ)
            → value_at xs j ≡ some c
            → TreeAt cmp pages levels (pages c) (lower cmp lo xs j) (upper cmp hi xs j))
        → Within lo hi key
        → ((c : ℕ) (lo' hi' : Option Key)
            → find_leaf_loop (child_of cmp key) pages fuel c ≡ some (success, q)
            → TreeAt cmp pages levels (pages c) lo' hi'
            → Within lo' hi' key
            → IsGrown levels c lo' hi')
        → IsGrown (suc levels) p lo hi
    IsGrown-items levels fuel p m lo hi [] answer e shape node children k deeper = absurd node
    IsGrown-items levels fuel p m lo hi (a ∷ as') answer e shape node children k deeper =
        IsGrown-node levels fuel p m lo hi a as' answer e shape node children k deeper

    -- The leaf that the search for the key finds gets a new item in the place of the search.
    pub grown :
        (levels fuel p : ℕ) (o : Option Node) (lo hi : Option Key)
        → find_leaf_loop (child_of cmp key) pages fuel p ≡ some (success, q)
        → pages p ≡ o
        → TreeAt cmp pages levels o lo hi
        → Within lo hi key
        → IsGrown levels p lo hi
    grown levels zero p o lo hi answer e tree k = absurd (no_fuel p answer)
    grown zero (suc fuel) p (some (leaf m)) lo hi answer e tree k =
        IsGrown-leaf p m lo hi (found_here fuel p m answer e) e (tree.2) k
    grown zero (suc fuel) p (some (Node.internal m)) lo hi answer e tree k = absurd tree
    grown zero (suc fuel) p none lo hi answer e tree k = absurd tree
    grown (suc levels) (suc fuel) p (some (leaf m)) lo hi answer e tree k = absurd tree
    grown (suc levels) (suc fuel) p none lo hi answer e tree k = absurd tree
    grown (suc levels) (suc fuel) p (some (Node.internal m)) lo hi answer e (node, children) k =
        IsGrown-items levels fuel p m lo hi m.items answer e refl node children k
          (λ c lo' hi' found t k'. grown levels fuel c (pages c) lo' hi' found refl t k')
