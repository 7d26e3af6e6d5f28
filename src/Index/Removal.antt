-- ===== src/Index/Removal.antt =====
-- `LeafIndexNodeHandler::remove` of src/observer/storage/index/bplus_tree.cpp on ascending items.
use mathlib.Core.Option.{some-injective, none-ne-some}
use landbase.Base.{
  ℕ, zero, suc, ◌+◌, ◌≡◌, ◌≢◌, refl, sym, ap, subst, ◌⊎◌, ◌↔◌, inl, inr, Bool, true, false, some,
  List, [], ◌∷◌, ◌++◌, arith, take, drop, length, length-append, All, get_elem?,
}
use landbase.Base.Int.{ℤ, pos}
use landbase.Lang.LowerBound.{lower_bound}
use landbase.Index.Key.{Rid, Key, IsOrder}
use landbase.Index.Order.{lt_le_trans, le_lt_trans}
use landbase.Index.Node.{Item, key_or, insert_at, remove_at, leaf_lookup, leaf_remove}
use landbase.Index.Sorted.{
  Lt, IsSorted, All-join, All-map, sorted_join, sorted_left, sorted_right, sorted_across,
}
use landbase.Index.Equal.{equal_le, equal_ge, irreflexive, outside}
use landbase.Index.Lookup.{IsPlace, place_lem}
use landbase.Index.Leaf.{All-insert_at}
use landbase.Index.Insertion.{item_at}

module _ {V : Type 0} where
  -- An item that is taken out and put back.
  insert_at-remove_at :
      (r : ℕ) (z : Item V) (xs : List (Item V))
      → get_elem? xs r ≡ some z
      → insert_at r z (remove_at r xs) ≡ xs
  unfolding insert_at remove_at
  insert_at-remove_at r z [] e = absurd (none-ne-some z e)
  insert_at-remove_at zero z (x ∷ xs) e = ap (λ y. y ∷ xs) (sym (some-injective x z e))
  insert_at-remove_at (suc r) z (x ∷ xs) e = ap (◌∷◌ x) (insert_at-remove_at r z xs e)

split_at :
    {V : Type 0} (r : ℕ) (z : Item V) (xs : List (Item V))
    → get_elem? xs r ≡ some z
    → take r xs ++ (z ∷ drop (suc r) xs) ≡ xs
split_at r z [] e = absurd (none-ne-some z e)
split_at zero z (x ∷ xs) e = ap (λ y. y ∷ xs) (sym (some-injective x z e))
split_at (suc r) z (x ∷ xs) e = ap (◌∷◌ x) (split_at r z xs e)

module _ (cmp : Key → Key → ℤ) (order : IsOrder cmp) where
  sorted_drop_middle :
      {V : Type 0} (xs ys : List (Item V)) (z : Item V)
      → IsSorted cmp (xs ++ (z ∷ ys))
      → IsSorted cmp (xs ++ ys)
  sorted_drop_middle xs ys z h =
      sorted_join cmp xs ys (sorted_left cmp xs (z ∷ ys) h) (sorted_right cmp xs (z ∷ ys) h).1
        (All-map _ _ (λ x a. a.1) xs (sorted_across cmp xs (z ∷ ys) h))

  unequal_below : (k key z : Key) → Lt cmp k z → cmp z key ≡ pos 0 → cmp k key ≢ pos 0
  unequal_below k key z lt e same = irreflexive cmp order z (
      le_lt_trans cmp order z k z
        (order.trans z key k (equal_le cmp order z key e) (equal_ge cmp order k key same)) lt)

  unequal_above : (k key z : Key) → Lt cmp z k → cmp z key ≡ pos 0 → cmp k key ≢ pos 0
  unequal_above k key z lt e same = irreflexive cmp order z (
      lt_le_trans cmp order z k z lt
        (order.trans k key z (equal_le cmp order k key same) (equal_ge cmp order z key e)))

  -- What is left of a leaf after the removal of an item.
  pub record IsRemoved (key : Key) (xs rest : List (Item Rid)) (z : Item Rid) (r : ℕ) : Type 1 where
    pub place : get_elem? xs r ≡ some z
    pub equal : cmp z.key key ≡ pos 0
    pub ascending : IsSorted cmp rest
    pub contents : (P : Item Rid → Type 0) → All P xs ↔ (P z × All P rest)
    pub others : All (λ y. cmp y.key key ≢ pos 0) rest
    pub size : length rest + 1 ≡ length xs

  removed :
      (key : Key) (xs : List (Item Rid)) (z : Item Rid) (r : ℕ)
      → IsSorted cmp xs
      → get_elem? xs r ≡ some z
      → cmp z.key key ≡ pos 0
      → IsRemoved key xs (remove_at r xs) z r
  unfolding remove_at
  removed key xs z r sorted at equal =
      let parts : IsSorted cmp (take r xs ++ (z ∷ drop (suc r) xs)) =
        rw (split_at r z xs at) sorted in
      let whole = split_at r z xs at in
      record {
        place = at;
        equal = equal;
        ascending = sorted_drop_middle (take r xs) (drop (suc r) xs) z parts;
        contents = λ P.
            subst (λ l. All P l ↔ (P z × All P (remove_at r xs))) (insert_at-remove_at r z xs at)
              (All-insert_at P r z (remove_at r xs));
        others =
            All-join _ (take r xs) (drop (suc r) xs)
              (All-map _ _ (λ y a. unequal_below y.key key z.key (a.0) equal) (take r xs)
                (sorted_across cmp (take r xs) (z ∷ drop (suc r) xs) parts))
              (All-map _ _ (λ y lt. unequal_above y.key key z.key lt equal) (drop (suc r) xs)
                (sorted_right cmp (take r xs) (z ∷ drop (suc r) xs) parts).0);
        size = omega (
          arith,
          length-append (take r xs) (z ∷ drop (suc r) xs),
          length-append (take r xs) (drop (suc r) xs),
          ap length whole,
        );
      }

  -- The removal from a leaf with ascending items either finds no item that compares equal, and leaves
  -- them; or takes out the one that does, and keeps all others in their order.
  pub leaf_remove_lem :
      (key : Key) (xs : List (Item Rid))
      → IsSorted cmp xs
      → ((leaf_remove cmp key xs ≡ some (xs, 0)) × All (λ y. cmp y.key key ≢ pos 0) xs)
        ⊎ ((rest : List (Item Rid)) × (z : Item Rid) × (r : ℕ) × (leaf_remove cmp key xs
              ≡ some (rest, 1))
            × IsRemoved key xs rest z r)
  unfolding leaf_remove leaf_lookup
  leaf_remove_lem key xs sorted =
      let (r, found, e, place) = place_lem cmp order key xs sorted in at r found e place
    where
      at :
          (r : ℕ) (found : Bool)
          → lower_bound (λ k. cmp k key) (λ i. key_or xs i key) (length xs) ≡ some (r, found)
          → IsPlace cmp order key xs sorted r found
          → ((leaf_remove cmp key xs ≡ some (xs, 0)) × All (λ y. cmp y.key key ≢ pos 0) xs)
            ⊎ ((rest : List (Item Rid)) × (z : Item Rid) × (r : ℕ) × (leaf_remove cmp key xs
                  ≡ some (rest, 1))
                × IsRemoved key xs rest z r)
      at r true e (lt, equal) =
          let (z, z_at, z_key) = item_at xs r key lt in
          inr (
            remove_at r xs,
            z,
            r,
            rw (leaf_remove, leaf_lookup, e) refl,
            removed key xs z r sorted z_at (subst (λ k. cmp k key ≡ pos 0) z_key equal),
          )
      at r false e (le, below, above) =
          inl (rw (leaf_remove, leaf_lookup, e) refl, outside cmp order key xs r below above)
