-- ===== src/Index/Lookup.antt =====
-- The searches in a node of src/observer/storage/index/bplus_tree.cpp, on items with ascending keys.
use landbase.Base.{
  ℕ, ◌+◌, ◌≤◌, ◌<◌, ◌≡◌, inl, inr, Bool, true, false, some, List, arith, ltb, take, drop, length,
  All, Bool-cases, length-take, length-drop,
}
use landbase.Base.Int.{ℤ, pos, ltb_ℤ, eqb_ℤ}
use landbase.Lang.LowerBound.{lower_bound, IsOrdered, Bounds, lower_bound_lem}
use landbase.Index.Key.{Key, IsOrder}
use landbase.Index.Order.{lt_le_trans, le_lt_trans, lt_le}
use landbase.Index.Node.{Item, key_or}
use landbase.Index.Sorted.{Lt, Le, IsSorted, All-places, sorted_at, key_or-take, key_or-drop}

module _ (cmp : Key → Key → ℤ) (order : IsOrder cmp) where
  pub lt_trans : (a b c : Key) → Lt cmp a b → Lt cmp b c → Lt cmp a c
  lt_trans a b c h k = lt_le_trans cmp order a b c h (lt_le cmp order b c k)

  le_refl : (k : Key) → Le cmp k k
  le_refl k = ground (arith, order.flip k k)

  -- What is neither below the searched key nor equal to it is above it.
  above_lt :
      (k key : Key)
      → ltb_ℤ (cmp k key) (pos 0) ≡ false
      → eqb_ℤ (cmp k key) (pos 0) ≡ false
      → Lt cmp key k
  above_lt k key h e = ground (arith, h, e, order.flip key k)

  lt_above :
      (k key : Key)
      → Lt cmp key k
      → (ltb_ℤ (cmp k key) (pos 0) ≡ false) × (eqb_ℤ (cmp k key) (pos 0) ≡ false)
  lt_above k key h = (ground (arith, h, order.flip key k), ground (arith, h, order.flip key k))

  module _ {V : Type 0} (key : Key) (xs : List (Item V)) (sorted : IsSorted cmp xs) where
    pub later : (i j : ℕ) → i ≤ j → j < length xs → Le cmp (key_or xs i key) (key_or xs j key)
    later i j le lt = elim (Bool-cases (ltb i j)) [
      | inl before ↦
          lt_le cmp order _ _ (sorted_at cmp xs i j key sorted (ground (arith, before)) lt)
      | inr same ↦ let e : j ≡ i = ground (arith, same) in rw e (le_refl (key_or xs i key))
    ]

    ordered : IsOrdered (λ k. cmp k key) (λ i. key_or xs i key) (length xs)
    ordered = record {
      down = λ i j le lt below.
          le_lt_trans cmp order (key_or xs i key) (key_or xs j key) key (later i j le lt) below;
      up = λ i j le lt (h, e). lt_above (key_or xs j key) key (
          lt_le_trans cmp order key (key_or xs i key) (key_or xs j key)
            (above_lt (key_or xs i key) key h e) (later i j le lt));
    }

    -- The place that `lower_bound` finds: that of an equal key, or the one that parts the keys below
    -- the searched one from those above it.
    abbrev pub IsPlace : ℕ → Bool → Type 0
    IsPlace r true = (r < length xs) × (cmp (key_or xs r key) key ≡ pos 0)
    IsPlace r false =
        (r ≤ length xs)
        × All (λ x. Lt cmp x.key key) (take r xs)
        × All (λ x. Lt cmp key x.key) (drop r xs)

    IsPlace-of :
        (r : ℕ) (found : Bool)
        → Bounds (λ k. cmp k key) (λ i. key_or xs i key) (length xs) r found
        → IsPlace r found
    IsPlace-of r true h = h
    IsPlace-of r false (le, below, above) = (
      le,
      All-places (λ k. Lt cmp k key) (take r xs) key
          (λ i lt.
            rw (key_or-take r xs i key (omega (arith, lt, length-take r xs)))
              (below i (omega (arith, lt, length-take r xs)))),
      All-places (λ k. Lt cmp key k) (drop r xs) key
          (λ i lt.
            let (h, e) = above (r + i) (omega arith) (omega (arith, lt, length-drop r xs)) in
            rw (key_or-drop r xs i key) (above_lt (key_or xs (r + i) key) key h e)),
    )

    pub place_lem :
        (r : ℕ) × (found : Bool) × (lower_bound (λ k. cmp k key) (λ i. key_or xs i key) (length xs)
          ≡ some (r, found))
        × IsPlace r found
    place_lem =
        let (r, found, done, bounds) =
          lower_bound_lem (λ k. cmp k key) (λ i. key_or xs i key) (length xs) ordered in
        (r, found, done, IsPlace-of r found bounds)
