-- ===== src/Index/Equal.antt =====
-- Keys that compare equal, among ascending items of src/observer/storage/index/bplus_tree.cpp.
use landbase.Base.{ℕ, ◌≡◌, ◌≢◌, subst, List, arith, take, drop, All}
use landbase.Base.Int.{ℤ, pos}
use landbase.Index.Key.{Rid, Key, IsOrder}
use landbase.Index.Order.{lt_le_trans, le_lt_trans}
use landbase.Index.Node.{Item}
use landbase.Index.Sorted.{Lt, Le, take-drop, All-join, All-map}

module _ (cmp : Key → Key → ℤ) (order : IsOrder cmp) where
  pub equal_le : (k key : Key) → cmp k key ≡ pos 0 → Le cmp k key
  equal_le k key e = ground (arith, e)

  pub equal_ge : (k key : Key) → cmp k key ≡ pos 0 → Le cmp key k
  equal_ge k key e = ground (arith, e, order.flip k key)

  pub irreflexive : (k : Key) → Lt cmp k k → ⊥
  irreflexive k h = ground (arith, h, order.flip k k)

  -- Items below the key, and items above it: none of them compares equal to it.
  pub outside :
      (key : Key) (xs : List (Item Rid)) (r : ℕ)
      → All (λ y. Lt cmp y.key key) (take r xs)
      → All (λ y. Lt cmp key y.key) (drop r xs)
      → All (λ y. cmp y.key key ≢ pos 0) xs
  outside key xs r below above = subst (All (λ y. cmp y.key key ≢ pos 0)) (take-drop r xs) (
      All-join _ (take r xs) (drop r xs)
        (All-map _ _
          (λ y lt e.
            irreflexive key (le_lt_trans cmp order key y.key key (equal_ge y.key key e) lt))
          (take r xs) below)
        (All-map _ _
          (λ y lt e.
            irreflexive key (lt_le_trans cmp order key y.key key lt (equal_le y.key key e)))
          (drop r xs) above))
