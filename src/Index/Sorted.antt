-- ===== src/Index/Sorted.antt =====
-- Items with ascending keys, and what the operations on nodes of
-- src/observer/storage/index/bplus_tree.cpp do to them.
use landbase.Base.{
  ℕ, zero, suc, ◌+◌, ◌<◌, ◌≡◌, refl, ap, ◌∙◌, true, List, [], ◌∷◌, ◌++◌, arith, take, drop, length,
  All,
}
use landbase.Base.Int.{ℤ, pos, ltb_ℤ, leb_ℤ}
use landbase.Index.Key.{Key}
use landbase.Index.Node.{Item, key_or}

module _ {A : Type 0} (P : A → Type 0) where
  pub All-join : (xs ys : List A) → All P xs → All P ys → All P (xs ++ ys)
  All-join [] ys h k = k
  All-join (x ∷ xs) ys h k = (h.0, All-join xs ys (h.1) k)

  pub All-left : (xs ys : List A) → All P (xs ++ ys) → All P xs
  All-left [] ys h = tt
  All-left (x ∷ xs) ys h = (h.0, All-left xs ys (h.1))

  pub All-right : (xs ys : List A) → All P (xs ++ ys) → All P ys
  All-right [] ys h = h
  All-right (x ∷ xs) ys h = All-right xs ys (h.1)

  pub All-map : (Q : A → Type 0) → ((x : A) → P x → Q x) → (xs : List A) → All P xs → All Q xs
  All-map Q f [] h = tt
  All-map Q f (x ∷ xs) h = (f x (h.0), All-map Q f xs (h.1))

pub take-drop : {A : Type 0} (n : ℕ) (xs : List A) → take n xs ++ drop n xs ≡ xs
take-drop zero xs = refl
take-drop (suc n) [] = refl
take-drop (suc n) (x ∷ xs) = ap (◌∷◌ x) (take-drop n xs)

module _ {V : Type 0} where
  -- A predicate of all items, by their places.
  pub All-at :
      (P : Key → Type 0) (xs : List (Item V)) (i : ℕ) (d : Key)
      → All (λ x. P x.key) xs
      → i < length xs
      → P (key_or xs i d)
  All-at P [] i d h lt = absurd (omega arith)
  All-at P (x ∷ xs) zero d h lt = h.0
  All-at P (x ∷ xs) (suc i) d h lt = All-at P xs i d (h.1) (omega arith)

  pub All-places :
      (P : Key → Type 0) (xs : List (Item V)) (d : Key)
      → ((i : ℕ) → i < length xs → P (key_or xs i d))
      → All (λ x. P x.key) xs
  All-places P [] d h = tt
  All-places P (x ∷ xs) d h =
      (h 0 (omega arith), All-places P xs d (λ i lt. h (suc i) (omega arith)))

  pub key_or-take :
      (n : ℕ) (xs : List (Item V)) (i : ℕ) (d : Key)
      → i < n
      → key_or (take n xs) i d ≡ key_or xs i d
  key_or-take zero xs i d h = absurd (omega arith)
  key_or-take (suc n) [] i d h = refl
  key_or-take (suc n) (x ∷ xs) zero d h = refl
  key_or-take (suc n) (x ∷ xs) (suc i) d h = key_or-take n xs i d (omega arith)

  pub key_or-drop :
      (n : ℕ) (xs : List (Item V)) (i : ℕ) (d : Key) → key_or (drop n xs) i d ≡ key_or xs (n + i) d
  key_or-drop zero xs i d = ap (λ k. key_or xs k d) (omega arith)
  key_or-drop (suc n) [] i d = refl
  key_or-drop (suc n) (x ∷ xs) i d =
      let next : suc (n + i) ≡ suc n + i = omega arith in
      key_or-drop n xs i d ∙ ap (λ k. key_or (x ∷ xs) k d) next

module _ (cmp : Key → Key → ℤ) where
  abbrev pub Lt : Key → Key → Type 0
  Lt a b = ltb_ℤ (cmp a b) (pos 0) ≡ true

  abbrev pub Le : Key → Key → Type 0
  Le a b = leb_ℤ (cmp a b) (pos 0) ≡ true

module _ (cmp : Key → Key → ℤ) {V : Type 0} where
  -- Each key is below those after it.
  abbrev pub IsSorted : List (Item V) → Type 0
  IsSorted [] = Unit
  IsSorted (x ∷ xs) = All (λ y. Lt cmp x.key y.key) xs × IsSorted xs

  pub sorted_join :
      (xs ys : List (Item V))
      → IsSorted xs
      → IsSorted ys
      → All (λ x. All (λ y. Lt cmp x.key y.key) ys) xs
      → IsSorted (xs ++ ys)
  sorted_join [] ys h k a = k
  sorted_join (x ∷ xs) ys h k a = (All-join _ xs ys (h.0) (a.0), sorted_join xs ys (h.1) k (a.1))

  pub sorted_left : (xs ys : List (Item V)) → IsSorted (xs ++ ys) → IsSorted xs
  sorted_left [] ys h = tt
  sorted_left (x ∷ xs) ys h = (All-left _ xs ys (h.0), sorted_left xs ys (h.1))

  pub sorted_right : (xs ys : List (Item V)) → IsSorted (xs ++ ys) → IsSorted ys
  sorted_right [] ys h = h
  sorted_right (x ∷ xs) ys h = sorted_right xs ys (h.1)

  pub sorted_across :
      (xs ys : List (Item V)) → IsSorted (xs ++ ys) → All (λ x. All (λ y. Lt cmp x.key y.key) ys) xs
  sorted_across [] ys h = tt
  sorted_across (x ∷ xs) ys h = (All-right _ xs ys (h.0), sorted_across xs ys (h.1))

  pub sorted_at :
      (xs : List (Item V)) (i j : ℕ) (d : Key)
      → IsSorted xs
      → i < j
      → j < length xs
      → Lt cmp (key_or xs i d) (key_or xs j d)
  sorted_at [] i j d h lt le = absurd (omega arith)
  sorted_at (x ∷ xs) i zero d h lt le = absurd (omega arith)
  sorted_at (x ∷ xs) zero (suc j) d h lt le = All-at (Lt cmp x.key) xs j d (h.0) (omega arith)
  sorted_at (x ∷ xs) (suc i) (suc j) d h lt le =
      sorted_at xs i j d (h.1) (omega arith) (omega arith)
