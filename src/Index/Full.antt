-- ===== src/Index/Full.antt =====
-- `insert_entry_into_leaf_node` of src/observer/storage/index/bplus_tree.cpp on a leaf with room and on
-- a full one.
use landbase.Base.{
  ℕ, ◌≤◌, ◌<◌, ◌≡◌, ◌≢◌, refl, ◌⊎◌, ◌↔◌, inl, inr, Bool, true, false, Option, some, List, [], ◌∷◌,
  ◌++◌, arith, ltb, ==_self, ==-ne, lt→ltb, if◌then◌else◌, length, All,
}
use landbase.Base.Int.{ℤ, pos}
use landbase.Rc.{Rc, success, record_duplicate_key}
use landbase.Index.Key.{Rid, Key, IsOrder, key_compare}
use landbase.Index.Node.{Item, LeafNode, Node, leaf, key_or, insert_at, leaf_lookup}
use landbase.Index.Sorted.{Lt, IsSorted, All-map, sorted_across}
use landbase.Index.Equal.{outside}
use landbase.Index.Lookup.{IsPlace, place_lem}
use landbase.Index.Tree.{BplusTree, set_page, attrs_only, insert_lookup, insert_split}
use landbase.Index.Insert.{first_leaf_key, insert_entry_into_leaf_node, insert_entry_into_parent}
use landbase.Index.Leaf.{All-insert_at, sorted_insert, insert_split_join, insert_split_sizes}

-- The comparison that the lookup of an insertion uses.
abbrev pub chosen : BplusTree → Key → Key → ℤ
chosen t = if t.unique then attrs_only t.attrs else key_compare t.attrs

module _ (allocate_page : (ℕ → Option Node) → Option ℕ) (fuel : ℕ) (t : BplusTree) (p : ℕ)
    (n : LeafNode) (x : Item Rid) (order : IsOrder (chosen t))
    (sorted : IsSorted (chosen t) n.items) where
  insert-IsPlace :
      (r : ℕ) × (found : Bool) × (insert_lookup t x.key n.items ≡ some (r, found))
      × IsPlace (chosen t) order x.key n.items sorted r found
  unfolding insert_lookup leaf_lookup
  insert-IsPlace = place_lem (chosen t) order x.key n.items sorted

  -- The items of a leaf after an insertion: ascending, and those before it with the new one.
  pub record IsInserted (items : List (Item Rid)) : Type 1 where
    pub ascending : IsSorted (chosen t) items
    pub contents : (P : Item Rid → Type 0) → All P items ↔ (P x × All P n.items)

  IsInserted-at :
      (r : ℕ)
      → IsPlace (chosen t) order x.key n.items sorted r false
      → IsInserted (insert_at r x n.items)
  IsInserted-at r (le, below, above) = record {
    ascending = sorted_insert (chosen t) order r x n.items sorted below above;
    contents = λ P. All-insert_at P r x n.items;
  }

  -- The insertion into a leaf with room always answers. Either an item compares equal to the new one,
  -- and nothing changes; or it succeeds, the leaf's items are ascending with the new one among them,
  -- and no other page changes.
  pub insert_with_room :
      length n.items < t.leaf_max_size
      → (rc : Rc) × (t' : BplusTree) × (insert_entry_into_leaf_node allocate_page fuel t p n x
          ≡ some (rc, t'))
        × (((rc ≡ record_duplicate_key)
              × (t' ≡ t)
              × (i : ℕ) × (i < length n.items)
              × (chosen t (key_or n.items i x.key) x.key ≡ pos 0))
            ⊎ ((rc ≡ success)
                × (items : List (Item Rid)) × IsInserted items
                × (t'.pages p ≡ some (leaf (record n { items = items })))
                × ((q : ℕ) → p ≢ q → t'.pages q ≡ t.pages q)))
  unfolding insert_entry_into_leaf_node
  insert_with_room room = let (r, found, e, place) = insert-IsPlace in at r found e place
    where
      at :
          (r : ℕ) (found : Bool)
          → insert_lookup t x.key n.items ≡ some (r, found)
          → IsPlace (chosen t) order x.key n.items sorted r found
          → (rc : Rc) × (t' : BplusTree) × (insert_entry_into_leaf_node allocate_page fuel t p n x
              ≡ some (rc, t'))
            × (((rc ≡ record_duplicate_key)
                  × (t' ≡ t)
                  × (i : ℕ) × (i < length n.items)
                  × (chosen t (key_or n.items i x.key) x.key ≡ pos 0))
                ⊎ ((rc ≡ success)
                    × (items : List (Item Rid)) × IsInserted items
                    × (t'.pages p ≡ some (leaf (record n { items = items })))
                    × ((q : ℕ) → p ≢ q → t'.pages q ≡ t.pages q)))
      at r true e place = (
        record_duplicate_key,
        t,
        rw (insert_entry_into_leaf_node, e) refl,
        inl (refl, refl, r, place.0, place.1),
      )
      at r false e place = (
        success,
        set_page t p (some (leaf (record n { items = insert_at r x n.items }))),
        rw (insert_entry_into_leaf_node, e, lt→ltb (length n.items) t.leaf_max_size room) refl,
        inr (
          refl,
          insert_at r x n.items,
          IsInserted-at r place,
          rw (==_self p) refl,
          λ q ne. rw (==-ne p q ne) refl,
        ),
      )

  -- A leaf that was split: the pages of its halves, and the key that goes to the parent.
  pub record IsSplit (t' : BplusTree) (q : ℕ) (separator : Key) (left right : List (Item Rid))
      : Type 1 where
    pub left_page :
        t'.pages p ≡ some (leaf (record { parent = n.parent; next_page = some q; items = left }))
    pub right_page :
        t'.pages q
        ≡ some (leaf (record { parent = n.parent; next_page = n.next_page; items = right }))
    pub inserted : IsInserted (left ++ right)
    pub below : All (λ y. Lt (chosen t) y.key separator) left
    pub first : first_leaf_key right ≡ some separator
    pub left_items : (1 ≤ length left) × (length left ≤ length n.items)
    pub right_items : length right ≤ length n.items

  head_key :
      (left right : List (Item Rid))
      → 1 ≤ length right
      → IsSorted (chosen t) (left ++ right)
      → (separator : Key) × (first_leaf_key right ≡ some separator)
        × All (λ y. Lt (chosen t) y.key separator) left
  head_key left [] some_left h = absurd (omega arith)
  head_key left (y ∷ right) some_left h =
      (y.key, refl, All-map _ _ (λ z a. a.0) left (sorted_across (chosen t) left (y ∷ right) h))

  -- The insertion into a full leaf, when a page is allocated: either it answers that the key is there,
  -- an item compares equal to the new one, and nothing changes; or no item does, and the leaf is
  -- split. Then the two leaves, chained, hold in their order the items with the new one among them,
  -- neither is larger than the leaf was, and the first key of the new leaf, above all keys of the old
  -- one, goes to the parent.
  pub insert_when_full :
      (q : ℕ)
      → t.leaf_max_size ≤ length n.items
      → 2 ≤ length n.items
      → allocate_page t.pages ≡ some q
      → p ≢ q
      → ((insert_entry_into_leaf_node allocate_page fuel t p n x ≡ some (record_duplicate_key, t))
          × (i : ℕ) × (i < length n.items)
          × (chosen t (key_or n.items i x.key) x.key ≡ pos 0))
        ⊎ (All (λ y. chosen t y.key x.key ≢ pos 0) n.items
            × (t' : BplusTree) × (separator : Key) × (left : List (Item Rid)) × (right : List
                (Item Rid))
            × (insert_entry_into_leaf_node allocate_page fuel t p n x
                ≡ insert_entry_into_parent allocate_page fuel t' p q separator)
            × IsSplit t' q separator left right)
  unfolding insert_entry_into_leaf_node
  insert_when_full q full some_items allocated apart =
      let (r, found, e, place) = insert-IsPlace in at r found e place
    where
      crowded : ltb (length n.items) t.leaf_max_size ≡ false
      crowded = ground (arith, full)

      at :
          (r : ℕ) (found : Bool)
          → insert_lookup t x.key n.items ≡ some (r, found)
          → IsPlace (chosen t) order x.key n.items sorted r found
          → ((insert_entry_into_leaf_node allocate_page fuel t p n x
                ≡ some (record_duplicate_key, t))
              × (i : ℕ) × (i < length n.items)
              × (chosen t (key_or n.items i x.key) x.key ≡ pos 0))
            ⊎ (All (λ y. chosen t y.key x.key ≢ pos 0) n.items
                × (t' : BplusTree) × (separator : Key) × (left : List (Item Rid)) × (right : List
                    (Item Rid))
                × (insert_entry_into_leaf_node allocate_page fuel t p n x
                    ≡ insert_entry_into_parent allocate_page fuel t' p q separator)
                × IsSplit t' q separator left right)
      at r true e place = inl (rw (insert_entry_into_leaf_node, e) refl, r, place.0, place.1)
      at r false e place =
          let left = (insert_split r x n.items).0 in
          let right = (insert_split r x n.items).1 in
          let whole = insert_split_join r x n.items (place.0) in
          let (l1, r1, l2, r2) = insert_split_sizes r x n.items some_items in
          let done : IsInserted (left ++ right) = rw whole (IsInserted-at r place) in
          let (separator, first, below) = head_key left right r1 done.ascending in
          let new : LeafNode = record {
            parent = n.parent;
            next_page = n.next_page;
            items = right;
          } in
          let old : LeafNode = record { parent = n.parent; next_page = some q; items = left } in
          inr (
            outside (chosen t) order x.key n.items r (place.1) (place.2),
            set_page (set_page t q (some (leaf new))) p (some (leaf old)),
            separator,
            left,
            right,
            rw (insert_entry_into_leaf_node, e, crowded, allocated, first) refl,
            record {
              left_page = rw (==_self p) refl;
              right_page = rw (==-ne p q apart, ==_self q) refl;
              inserted = done;
              below = below;
              first = first;
              left_items = (l1, l2);
              right_items = r2;
            },
          )
