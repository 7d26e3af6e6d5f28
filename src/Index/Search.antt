-- ===== src/Index/Search.antt =====
-- `InternalIndexNodeHandler::lookup` and `insert` of src/observer/storage/index/bplus_tree.cpp, on a node
-- whose keys, after the first, are ascending.
use landbase.Base.{
  ℕ, zero, suc, ◌+◌, ◌≤◌, ◌<◌, ◌≡◌, refl, sym, ap, ◌⊎◌, inl, inr, Bool, true, false, ◌||◌, some,
  List, ◌∷◌, arith, leb, take, drop, length, All, Bool-cases, length-take, length-drop,
  lt→leb-false,
}
use landbase.Base.Int.{ℤ, pos, ltb_ℤ}
use landbase.Lang.LowerBound.{lower_bound}
use landbase.Index.Key.{Key, IsOrder}
use landbase.Index.Order.{le_lt_trans, lt_le}
use landbase.Index.Node.{Item, key_or, internal_lookup}
use landbase.Index.Sorted.{Lt, Le, IsSorted, All-at, sorted_at, key_or-take, key_or-drop}
use landbase.Index.Lookup.{IsPlace, place_lem}

module _ (cmp : Key → Key → ℤ) (order : IsOrder cmp) (key : Key) (x : Item ℕ) (xs : List (Item ℕ))
    (sorted : IsSorted cmp xs) where
  -- The child at a place is the one whose range, from its own key to the next one, holds the key. The
  -- first child has no lower bound, and the last no upper one.
  pub record IsChild (index : ℕ) : Type 0 where
    pub within : index < length (x ∷ xs)
    pub from : 0 < index → Le cmp (key_or (x ∷ xs) index key) key
    pub to : suc index < length (x ∷ xs) → Lt cmp key (key_or (x ∷ xs) (suc index) key)

  equal_not_below : (k : Key) → cmp k key ≡ pos 0 → ltb_ℤ (cmp key k) (pos 0) ≡ false
  equal_not_below k e = ground (arith, e, order.flip key k)

  equal_le : (k : Key) → cmp k key ≡ pos 0 → Le cmp key k
  equal_le k e = ground (arith, e, order.flip k key)

  before_place :
      (r : ℕ)
      → r ≤ length xs
      → All (λ y. Lt cmp y.key key) (take r xs)
      → 0 < r
      → Le cmp (key_or (x ∷ xs) r key) key
  before_place zero le below h = absurd (omega arith)
  before_place (suc r) le below h =
      let size : r < length (take (suc r) xs) = omega (arith, length-take (suc r) xs) in
      lt_le cmp order (key_or xs r key) key (
        rw (sym (key_or-take (suc r) xs r key (omega arith)))
          (All-at (λ k. Lt cmp k key) (take (suc r) xs) r key below size))

  after_place :
      (r : ℕ)
      → r < length xs
      → All (λ y. Lt cmp key y.key) (drop r xs)
      → Lt cmp key (key_or xs r key)
  after_place r lt above =
      let place : r + 0 ≡ r = omega arith in
      let found =
        All-at (λ k. Lt cmp key k) (drop r xs) 0 key above (omega (arith, length-drop r xs)) in
      rw (← place) (rw (← key_or-drop r xs 0 key) found)

  parted :
      (r : ℕ)
      → r ≤ length xs
      → All (λ y. Lt cmp key y.key) (drop r xs)
      → (leb (length (x ∷ xs)) (suc r) || ltb_ℤ (cmp key (key_or xs r key)) (pos 0)) ≡ true
  parted r le above = elim (Bool-cases (leb (length (x ∷ xs)) (suc r))) [
    | inl last ↦ rw last refl
    | inr more ↦ rw (more, after_place r (ground (arith, more)) above) refl
  ]

  -- The lookup answers with the child whose range holds the key; a new key belongs behind that child,
  -- or, if the child's own key compares equal to it, at the child's place.
  pub internal_lookup_lem :
      (index : ℕ) × (position : ℕ) × (internal_lookup cmp key (x ∷ xs) ≡ some (index, position))
      × IsChild index
      × ((position ≡ index + 1)
          ⊎ ((position ≡ index) × (cmp (key_or (x ∷ xs) index key) key ≡ pos 0)))
  unfolding internal_lookup
  internal_lookup_lem =
      let (r, found, e, place) = place_lem cmp order key xs sorted in at r found e place
    where
      at :
          (r : ℕ) (found : Bool)
          → lower_bound (λ k. cmp k key) (λ i. key_or xs i key) (length xs) ≡ some (r, found)
          → IsPlace cmp order key xs sorted r found
          → (index : ℕ) × (position : ℕ) × (internal_lookup cmp key (x ∷ xs)
              ≡ some (index, position))
            × IsChild index
            × ((position ≡ index + 1)
                ⊎ ((position ≡ index) × (cmp (key_or (x ∷ xs) index key) key ≡ pos 0)))
      at r true e (lt, equal) = (
        suc r,
        suc r,
        rw
            (
              internal_lookup,
              e,
              lt→leb-false (suc r) (length (x ∷ xs)) (omega arith),
              equal_not_below (key_or xs r key) equal,
            )
            refl,
        record {
          within = omega arith;
          from = λ h. ground (arith, equal);
          to = λ h.
              le_lt_trans cmp order key (key_or xs r key) (key_or xs (suc r) key)
                (equal_le (key_or xs r key) equal)
                (sorted_at cmp xs r (suc r) key sorted (omega arith) (omega arith));
        },
        inr (refl, equal),
      )
      at r false e (le, below, above) = (
        r,
        suc r,
        rw (internal_lookup, e, parted r le above) (ap (λ k. some (k, suc r)) (omega arith)),
        record {
          within = omega arith;
          from = before_place r le below;
          to = λ h. after_place r (omega arith) above;
        },
        inl (omega arith),
      )
