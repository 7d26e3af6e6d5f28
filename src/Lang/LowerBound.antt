-- ===== src/Lang/LowerBound.antt =====
-- `lower_bound` of deps/common/lang/lower_bound.h.
-- A range of iterators is what it holds at each place, `at`, and how many places there are.
use landbase.Base.{
  ℕ, zero, suc, ◌+◌, ◌-◌, ◌/◌, ◌≤◌, ◌<◌, ◌≡◌, refl, inl, inr, Bool, true, false, Bool-cases, Option,
  none, some, arith, ltb, ltb→lt,
}
use landbase.Base.Int.{ℤ, pos, ltb_ℤ, eqb_ℤ, eqb_ℤ-eq}

-- The loop of `lower_bound`, on fuel: where it stops, and whether it found the value.
unfoldable pub search_loop {ℓ} : {A : Type ℓ} → (A → ℤ) → (ℕ → A) → ℕ → ℕ → ℕ → Option (ℕ × Bool)
search_loop comp at zero first last_count = none
search_loop comp at (suc fuel) first last_count =
    let step = last_count / 2 in
    let iter = first + step in
    let result = comp (at iter) in
    elim (ltb 0 last_count) [
      | false ↦ some (first, false)
      | true ↦ elim (eqb_ℤ result (pos 0)) [
        | true ↦ some (iter, true)
        | false ↦ elim (ltb_ℤ result (pos 0)) [
          | true ↦ search_loop comp at fuel (iter + 1) (last_count - (step + 1))
          | false ↦ search_loop comp at fuel first step
        ]
      ]
    ]

-- `comp` compares an element with the value that is searched.
unfoldable pub lower_bound {ℓ} : {A : Type ℓ} → (A → ℤ) → (ℕ → A) → ℕ → Option (ℕ × Bool)
lower_bound comp at count = search_loop comp at (suc count) 0 count

module _ {ℓ} {A : Type ℓ} (comp : A → ℤ) (at : ℕ → A) (count : ℕ) where
  abbrev pub Below : ℕ → Type 0
  Below i = ltb_ℤ (comp (at i)) (pos 0) ≡ true

  abbrev pub Equal : ℕ → Type 0
  Equal i = comp (at i) ≡ pos 0

  abbrev pub Above : ℕ → Type 0
  Above i = (ltb_ℤ (comp (at i)) (pos 0) ≡ false) × (eqb_ℤ (comp (at i)) (pos 0) ≡ false)

  -- What lies before an element below the value is below it, and what lies after one above it is
  -- above it.
  pub record IsOrdered : Type 0 where
    pub down : (i j : ℕ) → i ≤ j → j < count → Below j → Below i
    pub up : (i j : ℕ) → i ≤ j → j < count → Above i → Above j

  -- The value at place `r`; or no value, all before `r` below it and all from `r` on above it.
  abbrev pub Bounds : ℕ → Bool → Type 0
  Bounds r true = (r < count) × Equal r
  Bounds r false =
      (r ≤ count) × ((i : ℕ) → i < r → Below i) × ((i : ℕ) → r ≤ i → i < count → Above i)

  module _ (ordered : IsOrdered) where
    search_loop_lem :
        (fuel first last_count : ℕ)
        → last_count < fuel
        → first + last_count ≤ count
        → ((i : ℕ) → i < first → Below i)
        → ((i : ℕ) → first + last_count ≤ i → i < count → Above i)
        → (r : ℕ) × (found : Bool) × (search_loop comp at fuel first last_count ≡ some (r, found))
          × Bounds r found
    unfolding search_loop
    search_loop_lem zero first last_count enough fits below above = absurd (omega arith)
    search_loop_lem (suc fuel) first last_count enough fits below above =
        let step = last_count / 2 in
        let iter = first + step in
        elim (Bool-cases (ltb 0 last_count)) [
          | inr stop ↦ (
            first,
            false,
            rw (search_loop, stop) refl,
            (omega arith, below, λ i le lt. above i (ground arith) lt),
          )
          | inl more ↦
              let some_left : 0 < last_count = ltb→lt 0 last_count more in
              elim (Bool-cases (eqb_ℤ (comp (at iter)) (pos 0))) [
                | inl equal ↦ (
                  iter,
                  true,
                  rw (search_loop, more, equal) refl,
                  (omega arith, eqb_ℤ-eq (comp (at iter)) (pos 0) equal),
                )
                | inr other ↦ elim (Bool-cases (ltb_ℤ (comp (at iter)) (pos 0))) [
                  | inl less ↦
                      let (r, found, done, bounds) =
                        search_loop_lem fuel (iter + 1) (last_count - (step + 1)) (omega arith)
                          (omega arith)
                          (λ i lt. ordered.down i iter (omega arith) (omega arith) less)
                          (λ i le lt. above i (omega arith) lt) in
                      (r, found, rw (search_loop, more, other, less) done, bounds)
                  | inr greater ↦
                      let (r, found, done, bounds) =
                        search_loop_lem fuel first step (omega arith) (omega arith) below
                          (λ i le lt. ordered.up iter i le lt (greater, other)) in
                      (r, found, rw (search_loop, more, other, greater) done, bounds)
                ]
              ]
        ]

    -- On an ordered range the search ends. It finds a place that holds the value, or, if there is
    -- none, the place that parts the elements below the value from those above it.
    pub lower_bound_lem :
        (r : ℕ) × (found : Bool) × (lower_bound comp at count ≡ some (r, found)) × Bounds r found
    unfolding lower_bound
    lower_bound_lem =
        search_loop_lem (suc count) 0 count (omega arith) (omega arith)
          (λ i lt. absurd (omega arith)) (λ i le lt. absurd (omega arith))
