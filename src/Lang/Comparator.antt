-- ===== src/Lang/Comparator.antt =====
-- `compare_int`, `compare_date` and `compare_string` of deps/common/lang/comparator.cpp.
-- A string is its bytes, which are followed by a 0.
use landbase.Base.{
  ℕ, zero, suc, ◌-◌, ◌≤◌, ◌<◌, ◌≡◌, refl, ap, sym, ◌∙◌, inl, inr, Bool-cases, List, [], ◌∷◌, ◌++◌,
  arith, ltb, ◌==◌, not, if◌then◌else◌, min, length, get_or, All,
}
use landbase.Base.Int.{ℤ, pos, negsuc, neg, ltb_ℤ, eqb_ℤ}

unfoldable pub compare_int : ℤ → ℤ → ℤ
compare_int v1 v2 = if ltb_ℤ v2 v1 then pos 1 else if ltb_ℤ v1 v2 then negsuc 0 else pos 0

unfoldable pub compare_date : ℤ → ℤ → ℤ
compare_date left right =
    if ltb_ℤ right left then pos 1 else if ltb_ℤ left right then negsuc 0 else pos 0

-- The C library's `strncmp`, by its sign: up to `n` bytes, not past a 0.
unfoldable pub strncmp : ℕ → List ℕ → List ℕ → ℤ
strncmp zero s1 s2 = pos 0
strncmp (suc n) [] [] = pos 0
strncmp (suc n) [] (b ∷ s2) = if b == 0 then pos 0 else negsuc 0
strncmp (suc n) (a ∷ s1) [] = if a == 0 then pos 0 else pos 1
strncmp (suc n) (a ∷ s1) (b ∷ s2) =
    let rest = strncmp n s1 s2 in
    if ltb a b then negsuc 0 else if ltb b a then pos 1 else if a == 0 then pos 0 else rest

-- A byte as a `char`, which has a sign.
unfoldable pub char_value : ℕ → ℤ
char_value c = if ltb c 128 then pos c else neg (pos (256 - c))

unfoldable pub compare_string : List ℕ → ℕ → List ℕ → ℕ → ℤ
compare_string s1 length1 s2 length2 =
    let maxlen = min length1 length2 in
    let result = strncmp maxlen s1 s2 in
    if not (eqb_ℤ result (pos 0))
    then result
    else if ltb maxlen length1
    then char_value (get_or s1 maxlen 0)
    else if ltb maxlen length2
    then neg (char_value (get_or s2 maxlen 0))
    else pos 0

-- A whole string, as the values of a column are compared.
abbrev pub compare_strings : List ℕ → List ℕ → ℤ
compare_strings s1 s2 = compare_string s1 (length s1) s2 (length s2)

abbrev pub sign : ℤ → ℤ
sign z = if ltb_ℤ z (pos 0) then negsuc 0 else if eqb_ℤ z (pos 0) then pos 0 else pos 1

-- The order of a dictionary, where a string comes before those that go on from it.
abbrev pub lexicographic : List ℕ → List ℕ → ℤ
lexicographic [] [] = pos 0
lexicographic [] (b ∷ s2) = negsuc 0
lexicographic (a ∷ s1) [] = pos 1
lexicographic (a ∷ s1) (b ∷ s2) =
    if ltb a b then negsuc 0 else if ltb b a then pos 1 else lexicographic s1 s2

-- Every byte is one of ASCII other than 0.
abbrev pub IsAscii : List ℕ → Type 0
IsAscii s = All (λ c. (0 < c) × (c < 128)) s

-- Two strings that begin with the same byte are compared by what follows it.
compare_strings-cons :
    (a : ℕ) (s1 s2 : List ℕ) → 0 < a → compare_strings (a ∷ s1) (a ∷ s2) ≡ compare_strings s1 s2
unfolding compare_string strncmp
compare_strings-cons a s1 s2 h = rw step (ground (arith, h))
  where
    step : min (suc (length s1)) (suc (length s2)) ≡ suc (min (length s1) (length s2))
    step = omega arith

-- On strings of ASCII the comparison has the sign of the dictionary's order.
pub compare_strings-lexicographic :
    (s1 s2 : List ℕ) → IsAscii s1 → IsAscii s2 → sign (compare_strings s1 s2) ≡ lexicographic s1 s2
unfolding compare_string strncmp char_value
compare_strings-lexicographic [] [] a1 a2 = refl
compare_strings-lexicographic [] (b ∷ s2) a1 a2 = ground arith
compare_strings-lexicographic (a ∷ s1) [] a1 a2 = ground arith
compare_strings-lexicographic (a ∷ s1) (b ∷ s2) a1 a2 = elim (Bool-cases (a == b)) [
  | inl same ↦
      let e : a ≡ b = ground arith in
      ap (λ x. sign (compare_strings (a ∷ s1) (x ∷ s2))) (sym e)
      ∙ ap sign (compare_strings-cons a s1 s2 a1.0.0)
      ∙ compare_strings-lexicographic s1 s2 a1.1 a2.1
      ∙ ground arith
  | inr differ ↦ rw step (ground arith)
]
  where
    step : min (suc (length s1)) (suc (length s2)) ≡ suc (min (length s1) (length s2))
    step = omega arith

-- With a byte of 128 or more the comparison is no order: a string `s`, the string with an ASCII byte
-- behind it and the string with a high byte behind it come each before the next, in a circle.
pub compare_strings_circle :
    (s : List ℕ) (c h : ℕ)
    → All (λ b. 0 < b) s
    → 0 < c
    → c < 128
    → 128 ≤ h
    → h < 256
    → (sign (compare_strings s (s ++ (c ∷ []))) ≡ negsuc 0)
      × (sign (compare_strings (s ++ (c ∷ [])) (s ++ (h ∷ []))) ≡ negsuc 0)
      × (sign (compare_strings (s ++ (h ∷ [])) s) ≡ negsuc 0)
unfolding compare_string strncmp char_value
compare_strings_circle [] c h nz c_pos c_lt h_ge h_lt = (ground arith, ground arith, ground arith)
compare_strings_circle (b ∷ s) c h nz c_pos c_lt h_ge h_lt =
    let (e1, e2, e3) = compare_strings_circle s c h nz.1 c_pos c_lt h_ge h_lt in
    (
      ap sign (compare_strings-cons b s (s ++ (c ∷ [])) nz.0) ∙ e1,
      ap sign (compare_strings-cons b (s ++ (c ∷ [])) (s ++ (h ∷ [])) nz.0) ∙ e2,
      ap sign (compare_strings-cons b (s ++ (h ∷ [])) s nz.0) ∙ e3,
    )
