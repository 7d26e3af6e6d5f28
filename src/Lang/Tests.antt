-- ===== src/Lang/Tests.antt =====
-- Small ranges and strings, and the theorems at them.
use landbase.Base.{
  ℕ, ◌+◌, ◌*◌, ◌≡◌, refl, Bool, true, some, [], ◌∷◌, arith, ltb, ◌==◌, if◌then◌else◌,
}
use landbase.Base.Int.{ℤ, pos, negsuc}
use landbase.Lang.Comparator.{compare_strings, sign, lexicographic, compare_strings-lexicographic}
use landbase.Lang.LowerBound.{lower_bound, search_loop, IsOrdered, Bounds, lower_bound_lem}

-- The odd numbers, compared with 5.
abbrev odd : ℕ → ℕ
odd i = 2 * i + 1

abbrev with_five : ℕ → ℤ
with_five x = if ltb x 5 then negsuc 0 else if x == 5 then pos 0 else pos 1

odd-IsOrdered : IsOrdered with_five odd 6
odd-IsOrdered = record {
  down = λ i j le lt below. ground arith;
  up = λ i j le lt above. ground arith;
}

lower_bound_lem_example :
    (r : ℕ) × (found : Bool) × (lower_bound with_five odd 6 ≡ some (r, found))
    × Bounds with_five odd 6 r found
lower_bound_lem_example = lower_bound_lem with_five odd 6 odd-IsOrdered

lower_bound_of_odd : lower_bound with_five odd 6 ≡ some (2, true)
unfolding lower_bound search_loop
lower_bound_of_odd = refl

compare_strings-lexicographic_example :
    sign (compare_strings (97 ∷ 98 ∷ []) (97 ∷ [])) ≡ lexicographic (97 ∷ 98 ∷ []) (97 ∷ [])
compare_strings-lexicographic_example =
    compare_strings-lexicographic (97 ∷ 98 ∷ []) (97 ∷ [])
      ((omega arith, omega arith), ((omega arith, omega arith), tt))
      ((omega arith, omega arith), tt)
