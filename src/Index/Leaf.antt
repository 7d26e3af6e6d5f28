-- ===== src/Index/Leaf.antt =====
-- The insertion into a leaf and its split, and the removal from a leaf, of
-- src/observer/storage/index/bplus_tree.cpp.
use landbase.Base.{
  ℕ, zero, suc, ◌+◌, ◌-◌, ◌/◌, ◌≤◌, ◌≡◌, refl, sym, ap, ◌∙◌, ◌↔◌, inl, inr, List, [], ◌∷◌, ◌++◌,
  arith, ltb, take, drop, length, length-append, All, Bool-cases, length-take, length-drop,
}
use landbase.Base.Int.{ℤ}
use landbase.Index.Key.{Rid, Key, IsOrder}
use landbase.Index.Node.{Item, insert_at, move_half_to}
use landbase.Index.Sorted.{
  Lt, IsSorted, All-join, All-left, All-right, take-drop, sorted_join, sorted_left, sorted_right,
  All-map,
}
use landbase.Index.Lookup.{lt_trans}
use landbase.Index.Tree.{insert_split}

module _ {V : Type 0} where
  -- What holds of all items after an insertion held of all items before it, and of the new one.
  pub All-insert_at :
      (P : Item V → Type 0) (r : ℕ) (x : Item V) (xs : List (Item V))
      → All P (insert_at r x xs) ↔ (P x × All P xs)
  unfolding insert_at
  All-insert_at P r x xs = (
    λ h.
        let rest = All-right P (take r xs) (x ∷ drop r xs) h in
        (
          rest.0,
          rw (sym (take-drop r xs)) (
              All-join P (take r xs) (drop r xs) (All-left P (take r xs) (x ∷ drop r xs) h)
                (rest.1)),
        ),
    λ h.
        let parts : All P (take r xs ++ drop r xs) = rw (take-drop r xs) (h.1) in
        All-join P (take r xs) (x ∷ drop r xs) (All-left P (take r xs) (drop r xs) parts)
          (h.0, All-right P (take r xs) (drop r xs) parts),
  )

  insert_at-left :
      (r : ℕ) (x : Item V) (xs ys : List (Item V))
      → r ≤ length xs
      → insert_at r x xs ++ ys ≡ insert_at r x (xs ++ ys)
  unfolding insert_at
  insert_at-left zero x xs ys h = refl
  insert_at-left (suc r) x [] ys h = absurd (omega arith)
  insert_at-left (suc r) x (y ∷ xs) ys h = ap (◌∷◌ y) (insert_at-left r x xs ys (omega arith))

  insert_at-right :
      (r : ℕ) (x : Item V) (xs ys : List (Item V))
      → length xs ≤ r
      → xs ++ insert_at (r - length xs) x ys ≡ insert_at r x (xs ++ ys)
  unfolding insert_at
  insert_at-right r x [] ys h = ap (λ k. insert_at k x ys) (omega arith)
  insert_at-right zero x (y ∷ xs) ys h = absurd (omega arith)
  insert_at-right (suc r) x (y ∷ xs) ys h =
      ap (◌∷◌ y)
        (ap (λ k. xs ++ insert_at k x ys) (omega arith) ∙ insert_at-right r x xs ys (omega arith))

  length-insert_at :
      (r : ℕ) (x : Item V) (xs : List (Item V)) → length (insert_at r x xs) ≡ length xs + 1
  unfolding insert_at
  length-insert_at r x xs =
      omega (arith, length-append (take r xs) (x ∷ drop r xs), length-take r xs, length-drop r xs)

module _ (cmp : Key → Key → ℤ) (order : IsOrder cmp) where
  -- A new item at the place that parts the keys below it from those above it.
  pub sorted_insert :
      {V : Type 0} (r : ℕ) (x : Item V) (xs : List (Item V))
      → IsSorted cmp xs
      → All (λ y. Lt cmp y.key x.key) (take r xs)
      → All (λ y. Lt cmp x.key y.key) (drop r xs)
      → IsSorted cmp (insert_at r x xs)
  unfolding insert_at
  sorted_insert r x xs sorted below above =
      let parts : IsSorted cmp (take r xs ++ drop r xs) = rw (take-drop r xs) sorted in
      sorted_join cmp (take r xs) (x ∷ drop r xs) (sorted_left cmp (take r xs) (drop r xs) parts)
        (above, sorted_right cmp (take r xs) (drop r xs) parts)
        (All-map _ _
          (λ y lt.
            (lt, All-map _ _ (λ z k. lt_trans cmp order y.key x.key z.key lt k) (drop r xs) above))
          (take r xs) below)

-- The halves of a split leaf, one after the other, are the items with the new one at its place.
pub insert_split_join :
    (r : ℕ) (x : Item Rid) (xs : List (Item Rid))
    → r ≤ length xs
    → (insert_split r x xs).0 ++ (insert_split r x xs).1 ≡ insert_at r x xs
unfolding insert_split move_half_to
insert_split_join r x xs h =
    let left = take (length xs / 2) xs in
    let right = drop (length xs / 2) xs in
    elim (Bool-cases (ltb r (length left))) [
      | inl before ↦
          rw (insert_split, before)
            (insert_at-left r x left right (ground (arith, before))
              ∙ ap (insert_at r x) (take-drop (length xs / 2) xs))
      | inr after ↦
          rw (insert_split, after)
            (insert_at-right r x left right (ground (arith, after))
              ∙ ap (insert_at r x) (take-drop (length xs / 2) xs))
    ]

-- The halves' sizes differ by at most two, and both have items.
pub insert_split_sizes :
    (r : ℕ) (x : Item Rid) (xs : List (Item Rid))
    → 2 ≤ length xs
    → (1 ≤ length (insert_split r x xs).0)
      × (1 ≤ length (insert_split r x xs).1)
      × (length (insert_split r x xs).0 ≤ length xs)
      × (length (insert_split r x xs).1 ≤ length xs)
unfolding insert_split move_half_to
insert_split_sizes r x xs h =
    let left = take (length xs / 2) xs in
    let right = drop (length xs / 2) xs in
    let sl = length-take (length xs / 2) xs in
    let sr = length-drop (length xs / 2) xs in
    elim (Bool-cases (ltb r (length left))) [
      | inl before ↦
          let si = length-insert_at r x left in
          rw (insert_split, before) (omega arith, omega arith, omega arith, omega arith)
      | inr after ↦
          let si = length-insert_at (r - length left) x right in
          rw (insert_split, after) (omega arith, omega arith, omega arith, omega arith)
    ]
