-- ===== src/Index/Ranges.antt =====
-- The ranges of keys in a search tree of src/observer/storage/index/bplus_tree.cpp: a node's children share
-- out its range between them.
use mathlib.Core.Option.{some-injective, none-ne-some}
use landbase.Base.{
  ℕ, zero, suc, ◌≤◌, ◌<◌, ◌≡◌, refl, subst, ◌⊎◌, inl, inr, true, false, Option, none, some, List,
  [], ◌∷◌, arith, ltb, if◌then◌else◌, length, All, Bool-cases, get_elem?,
}
use landbase.Base.Int.{ℤ}
use landbase.Index.Key.{Rid, Key, IsOrder}
use landbase.Index.Order.{lt_le_trans}
use landbase.Index.Node.{Item, Node, leaf, key_or}
use landbase.Index.Sorted.{Lt, Le, IsSorted, All-at}
use landbase.Index.Lookup.{lt_trans, later}
use landbase.Index.Search.{IsChild}
use landbase.Index.Tree.{value_at}

module _ (cmp : Key → Key → ℤ) where
  abbrev pub Above : Option Key → Key → Type 0
  Above none k = Unit
  Above (some lo) k = Le cmp lo k

  abbrev pub Under : Option Key → Key → Type 0
  Under none k = Unit
  Under (some hi) k = Lt cmp k hi

  -- The range of a child: from its own key to the next one, or to the ends of the node's own range.
  abbrev pub lower : Option Key → List (Item ℕ) → ℕ → Option Key
  lower lo xs zero = lo
  lower lo [] (suc i) = lo
  lower lo (x ∷ xs) (suc i) = if ltb i (length xs) then some (key_or xs i x.key) else lo

  abbrev pub upper : Option Key → List (Item ℕ) → ℕ → Option Key
  upper hi [] i = hi
  upper hi (x ∷ xs) i = if ltb i (length xs) then some (key_or xs i x.key) else hi

  -- An internal node has a child, and the keys after the first are ascending and in its range.
  abbrev pub IsNode : Option Key → Option Key → List (Item ℕ) → Type 0
  IsNode lo hi [] = ⊥
  IsNode lo hi (x ∷ xs) = IsSorted cmp xs × All (λ y. Above lo y.key × Under hi y.key) xs

module _ (cmp : Key → Key → ℤ) (pages : ℕ → Option Node) where
  -- A search tree of so many levels at a page that holds this, with its keys in a range and an item in
  -- each leaf.
  abbrev pub TreeAt : ℕ → Option Node → Option Key → Option Key → Type 0
  TreeAt zero (some (leaf n)) lo hi =
      (1 ≤ length n.items)
      × IsSorted cmp n.items
      × All (λ y. Above cmp lo y.key × Under cmp hi y.key) n.items
  TreeAt (suc levels) (some (Node.internal n)) lo hi =
      IsNode cmp lo hi n.items
      × ((i c : ℕ)
          → value_at n.items i ≡ some c
          → TreeAt levels (pages c) (lower cmp lo n.items i) (upper cmp hi n.items i))
  TreeAt levels o lo hi = ⊥

  -- An item of one of the leaves.
  abbrev pub Holds : ℕ → Option Node → Item Rid → Type 0
  Holds zero (some (leaf n)) x = (i : ℕ) × (get_elem? n.items i ≡ some x)
  Holds (suc levels) (some (Node.internal n)) x =
      (i : ℕ) × (c : ℕ) × (value_at n.items i ≡ some c) × Holds levels (pages c) x
  Holds levels o x = ⊥

pub value_at-within : (xs : List (Item ℕ)) (i c : ℕ) → value_at xs i ≡ some c → i < length xs
unfolding value_at
value_at-within [] i c e = absurd (none-ne-some c e)
value_at-within (x ∷ xs) zero c e = omega arith
value_at-within (x ∷ xs) (suc i) c e = omega (arith, value_at-within xs i c e)

pub value_at-some :
    (xs : List (Item ℕ)) (i : ℕ) → i < length xs → (c : ℕ) × (value_at xs i ≡ some c)
unfolding value_at
value_at-some [] i h = absurd (omega arith)
value_at-some (x ∷ xs) zero h = (x.value, refl)
value_at-some (x ∷ xs) (suc i) h = value_at-some xs i (omega arith)

pub key_or_default :
    {V : Type 0} (xs : List (Item V)) (i : ℕ) (d e : Key)
    → i < length xs
    → key_or xs i d ≡ key_or xs i e
key_or_default [] i d e h = absurd (omega arith)
key_or_default (x ∷ xs) zero d e h = refl
key_or_default (x ∷ xs) (suc i) d e h = key_or_default xs i d e (omega arith)

pub All-element :
    {A : Type 0} (P : A → Type 0) (xs : List A) (i : ℕ) (x : A)
    → All P xs
    → get_elem? xs i ≡ some x
    → P x
All-element P [] i x h e = absurd (none-ne-some x e)
All-element P (y ∷ xs) zero x h e = subst P (some-injective y x e) (h.0)
All-element P (y ∷ xs) (suc i) x h e = All-element P xs i x (h.1) e

module _ (cmp : Key → Key → ℤ) (order : IsOrder cmp) where
  pub Above-trans : (lo : Option Key) (a b : Key) → Above cmp lo a → Le cmp a b → Above cmp lo b
  Above-trans none a b h k = tt
  Above-trans (some l) a b h k = order.trans l a b h k

  Under-trans : (hi : Option Key) (a b : Key) → Lt cmp a b → Under cmp hi b → Under cmp hi a
  Under-trans none a b h k = tt
  Under-trans (some u) a b h k = lt_trans cmp order a b u h k

  -- The range of a child is in that of its node.
  pub lower_within :
      (lo hi : Option Key) (xs : List (Item ℕ)) (i : ℕ) (k : Key)
      → IsNode cmp lo hi xs
      → Above cmp (lower cmp lo xs i) k
      → Above cmp lo k
  lower_within lo hi xs zero k h a = a
  lower_within lo hi [] (suc i) k h a = absurd h
  lower_within lo hi (x ∷ xs) (suc i) k h a = elim (Bool-cases (ltb i (length xs))) [
    | inl lt ↦
        Above-trans lo (key_or xs i x.key) k
          (All-at (λ q. Above cmp lo q × Under cmp hi q) xs i x.key (h.1) (ground (arith, lt))).0
          (rw lt at a)
    | inr ge ↦ rw ge at a
  ]

  pub upper_within :
      (lo hi : Option Key) (xs : List (Item ℕ)) (i : ℕ) (k : Key)
      → IsNode cmp lo hi xs
      → Under cmp (upper cmp hi xs i) k
      → Under cmp hi k
  upper_within lo hi [] i k h a = absurd h
  upper_within lo hi (x ∷ xs) i k h a = elim (Bool-cases (ltb i (length xs))) [
    | inl lt ↦
        Under-trans hi k (key_or xs i x.key) (rw lt at a)
          (All-at (λ q. Above cmp lo q × Under cmp hi q) xs i x.key (h.1) (ground (arith, lt))).1
    | inr ge ↦ rw ge at a
  ]

  irreflexive : (k : Key) → Lt cmp k k → ⊥
  irreflexive k h = ground (arith, h, order.flip k k)

  child_before :
      (lo hi : Option Key) (x : Item ℕ) (xs : List (Item ℕ)) (i j : ℕ) (k : Key)
      → IsSorted cmp xs
      → i ≤ j
      → j < length xs
      → Under cmp (upper cmp hi (x ∷ xs) i) k
      → Above cmp (lower cmp lo (x ∷ xs) (suc j)) k
      → ⊥
  child_before lo hi x xs i j k sorted le lt under above =
      let i_in : ltb i (length xs) ≡ true = ground arith in
      let j_in : ltb j (length xs) ≡ true = ground arith in
      let below : Lt cmp k (key_or xs i x.key) = rw i_in at under in
      let not_above : Le cmp (key_or xs j x.key) k = rw j_in at above in
      irreflexive k (
        lt_le_trans cmp order k (key_or xs i x.key) k below (
          order.trans (key_or xs i x.key) (key_or xs j x.key) k
            (later cmp order x.key xs sorted i j le lt) not_above))

  -- Two children's ranges do not share a key.
  pub same_child :
      (lo hi : Option Key) (xs : List (Item ℕ)) (i j : ℕ) (k : Key)
      → IsNode cmp lo hi xs
      → i < length xs
      → j < length xs
      → Above cmp (lower cmp lo xs i) k × Under cmp (upper cmp hi xs i) k
      → Above cmp (lower cmp lo xs j) k × Under cmp (upper cmp hi xs j) k
      → i ≡ j
  same_child lo hi [] i j k node li lj a b = absurd node
  same_child lo hi (x ∷ xs) zero zero k node li lj a b = refl
  same_child lo hi (x ∷ xs) zero (suc j) k node li lj a b =
      absurd (child_before lo hi x xs zero j k (node.0) (omega arith) (omega arith) (a.1) (b.0))
  same_child lo hi (x ∷ xs) (suc i) zero k node li lj a b =
      absurd (child_before lo hi x xs zero i k (node.0) (omega arith) (omega arith) (b.1) (a.0))
  same_child lo hi (x ∷ xs) (suc i) (suc j) k node li lj a b = elim (Bool-cases (ltb i j)) [
    | inl before ↦ absurd (
        child_before lo hi x xs (suc i) j k (node.0) (ground (arith, before)) (omega arith) (a.1)
          (b.0))
    | inr after ↦ elim (Bool-cases (ltb j i)) [
      | inl before ↦ absurd (
          child_before lo hi x xs (suc j) i k (node.0) (ground (arith, before)) (omega arith) (b.1)
            (a.0))
      | inr equal ↦ ground (arith, after, equal)
    ]
  ]

  -- The key is in the range of the child that the lookup answers with.
  pub child_range :
      (lo hi : Option Key) (x : Item ℕ) (xs : List (Item ℕ)) (i : ℕ) (key : Key)
      → (node : IsNode cmp lo hi (x ∷ xs)) → IsChild cmp order key x xs (node.0) i
      → Above cmp lo key
      → Under cmp hi key
      → Above cmp (lower cmp lo (x ∷ xs) i) key × Under cmp (upper cmp hi (x ∷ xs) i) key
  child_range lo hi x xs i key node child a u =
      (from_lower i child, to_upper (Bool-cases (ltb i (length xs))))
    where
      from_lower :
          (i : ℕ) → IsChild cmp order key x xs (node.0) i → Above cmp (lower cmp lo (x ∷ xs) i) key
      from_lower zero child = a
      from_lower (suc i) child =
          let lt : i < length xs = omega (arith, child.within) in
          let i_in : ltb i (length xs) ≡ true = ground (arith, lt) in
          rw (i_in, key_or_default xs i x.key key lt) (child.from (omega arith))

      to_upper :
          (ltb i (length xs) ≡ true) ⊎ (ltb i (length xs) ≡ false)
          → Under cmp (upper cmp hi (x ∷ xs) i) key
      to_upper (inl lt) =
          rw (lt, key_or_default xs i x.key key (ground (arith, lt)))
            (child.to (ground (arith, lt)))
      to_upper (inr ge) = rw ge u

  module _ (pages : ℕ → Option Node) where
    -- The keys of a tree are in its range.
    pub holds_within :
        (levels : ℕ) (o : Option Node) (lo hi : Option Key) (x : Item Rid)
        → TreeAt cmp pages levels o lo hi
        → Holds cmp pages levels o x
        → Above cmp lo x.key × Under cmp hi x.key
    holds_within zero (some (leaf n)) lo hi x (some_item, sorted, within) (i, e) =
        All-element (λ y. Above cmp lo y.key × Under cmp hi y.key) n.items i x within e
    holds_within zero (some (Node.internal n)) lo hi x h k = absurd h
    holds_within zero none lo hi x h k = absurd h
    holds_within (suc levels) (some (leaf n)) lo hi x h k = absurd h
    holds_within (suc levels) none lo hi x h k = absurd h
    holds_within (suc levels) (some (Node.internal n)) lo hi x (node, children) (i, c, at, k) =
        let (a, u) = holds_within levels (pages c) _ _ x (children i c at) k in
        (lower_within lo hi n.items i x.key node a, upper_within lo hi n.items i x.key node u)
