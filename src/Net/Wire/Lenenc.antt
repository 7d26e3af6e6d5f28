-- ===== src/Net/Wire/Lenenc.antt =====
-- Reading back what the functions of src/observer/net/mysql_communicator.cpp store: the decoders are
-- those of the MySQL protocol.
use landbase.Base.{
  ℕ, zero, suc, ◌+◌, ◌-◌, ◌*◌, ◌/◌, ◌%◌, ◌^◌, ◌≤◌, ◌<◌, ◌≡◌, refl, ap, ◌∙◌, ◌⊎◌, inl, inr,
  Bool-cases, true, Option, some, none, List, [], ◌∷◌, ◌++◌, arith, ltb, ◌==◌, if◌then◌else◌, take,
  drop, length, append_assoc, leb, ltb→lt, ltb-false, length-append,
}
use landbase.Net.Wire.{le_bytes, store_lenenc_int, store_lenenc_string, store_fix_length_string}

-- An integer of so many bytes, low byte first, and what follows it.
unfoldable pub read_le : ℕ → List ℕ → Option (ℕ × List ℕ)
read_le zero xs = some (0, xs)
read_le (suc n) [] = none
read_le (suc n) (x ∷ xs) = elim (read_le n xs) [ none ↦ none | some p ↦ some (x + 256 * p.0, p.1) ]

-- An integer with its length: one byte below 251, or the bytes after a mark.
unfoldable pub read_lenenc_int : List ℕ → Option (ℕ × List ℕ)
read_lenenc_int [] = none
read_lenenc_int (x ∷ xs) =
    if ltb x 251
    then some (x, xs)
    else if x == 252
    then read_le 2 xs
    else if x == 253
    then read_le 3 xs
    else if x == 254
    then read_le 8 xs
    else none

-- The part of a value that its lowest bytes keep.
abbrev pub low : ℕ → ℕ → ℕ
low zero value = 0
low (suc n) value = value % 256 + 256 * low n (value / 256)

abbrev pub bound : ℕ → ℕ
bound zero = 1
bound (suc n) = 256 * bound n

pub read_le-le_bytes :
    (n value : ℕ) (rest : List ℕ) → read_le n (le_bytes n value ++ rest) ≡ some (low n value, rest)
unfolding read_le le_bytes
read_le-le_bytes zero value rest = refl
read_le-le_bytes (suc n) value rest = rw (read_le-le_bytes n (value / 256) rest) refl

pub low-eq : (n value : ℕ) → value < bound n → low n value ≡ value
low-eq zero value h = omega arith
low-eq (suc n) value h = omega (arith, low-eq n (value / 256) (omega arith))

-- The lengths for which the encoding keeps the whole value: not those from `2 ^ 16` to `2 ^ 17` and
-- from `2 ^ 24` to `2 ^ 25`.
abbrev pub IsKept : ℕ → Type 0
IsKept value =
    (value < 2 ^ 64) × ((value < 2 ^ 16) ⊎ (2 ^ 17 ≤ value)) × ((value < 2 ^ 24) ⊎ (2 ^ 25 ≤ value))

lenenc_cases :
    (value : ℕ) (rest : List ℕ)
    → (value < 251 → read_lenenc_int (store_lenenc_int value ++ rest) ≡ some (value, rest))
      × (251 ≤ value
          → value < 2 ^ 17
          → read_lenenc_int (store_lenenc_int value ++ rest) ≡ some (low 2 value, rest))
      × (2 ^ 17 ≤ value
          → value < 2 ^ 25
          → read_lenenc_int (store_lenenc_int value ++ rest) ≡ some (low 3 value, rest))
      × (2 ^ 25 ≤ value
          → read_lenenc_int (store_lenenc_int value ++ rest) ≡ some (low 8 value, rest))
unfolding store_lenenc_int read_lenenc_int
lenenc_cases value rest = (
  λ h. ground arith,
  λ h h'. ground (arith, read_le-le_bytes 2 value rest),
  λ h h'. ground (arith, read_le-le_bytes 3 value rest),
  λ h. ground (arith, read_le-le_bytes 8 value rest),
)

-- The client reads the value that was stored, and is left with the bytes after it, for every value
-- but those from 2^16 to 2^17 and from 2^24 to 2^25.
pub store_lenenc_int_lem :
    (value : ℕ) (rest : List ℕ)
    → IsKept value
    → read_lenenc_int (store_lenenc_int value ++ rest) ≡ some (value, rest)
store_lenenc_int_lem value rest (w, k16, k24) =
    let (one, two, three, eight) = lenenc_cases value rest in
    elim (Bool-cases (ltb value 251)) [
      | inl a ↦ one (ltb→lt value 251 a)
      | inr a ↦ elim (Bool-cases (ltb value (2 ^ 17))) [
        | inl b ↦
            two (ltb-false value 251 a) (ltb→lt value (2 ^ 17) b)
            ∙ ap (λ v. some (v, rest)) (low-eq 2 value (ground (arith, k16, b)))
        | inr b ↦ elim (Bool-cases (ltb value (2 ^ 25))) [
          | inl c ↦
              three (ltb-false value (2 ^ 17) b) (ltb→lt value (2 ^ 25) c)
              ∙ ap (λ v. some (v, rest)) (low-eq 3 value (ground (arith, k24, c)))
          | inr c ↦ eight (ltb-false value (2 ^ 25) c) ∙ ap (λ v. some (v, rest)) (low-eq 8 value w)
        ]
      ]
    ]

-- The client reads 2^16 less than the value that was stored, for a value from 2^16 to 2^17, and 2^24
-- less for one from 2^24 to 2^25.
pub store_lenenc_int_loses :
    (value : ℕ) (rest : List ℕ)
    → (2 ^ 16 ≤ value
        → value < 2 ^ 17
        → read_lenenc_int (store_lenenc_int value ++ rest) ≡ some (value - 2 ^ 16, rest))
      × (2 ^ 24 ≤ value
          → value < 2 ^ 25
          → read_lenenc_int (store_lenenc_int value ++ rest) ≡ some (value - 2 ^ 24, rest))
store_lenenc_int_loses value rest =
    let (one, two, three, eight) = lenenc_cases value rest in
    (
      λ h h'. two (omega arith) h' ∙ ap (λ v. some (v, rest)) (low_two h h'),
      λ h h'. three (omega arith) h' ∙ ap (λ v. some (v, rest)) (low_three h h'),
    )
  where
    low_two : 2 ^ 16 ≤ value → value < 2 ^ 17 → low 2 value ≡ value - 2 ^ 16
    low_two h h' = omega arith

    low_three : 2 ^ 24 ≤ value → value < 2 ^ 25 → low 3 value ≡ value - 2 ^ 24
    low_three h h' = omega arith

-- A string with its length, and what follows it.
unfoldable pub read_lenenc_string : List ℕ → Option (List ℕ × List ℕ)
read_lenenc_string xs = elim (read_lenenc_int xs) [
  | none ↦ none
  | some (n, ys) ↦ if leb n (length ys) then some (take n ys, drop n ys) else none
]

pub take-append : (s rest : List ℕ) → take (length s) (s ++ rest) ≡ s
take-append [] rest = refl
take-append (c ∷ s) rest = ap (◌∷◌ c) (take-append s rest)

pub drop-append : (s rest : List ℕ) → drop (length s) (s ++ rest) ≡ rest
drop-append [] rest = refl
drop-append (c ∷ s) rest = drop-append s rest

pub take_all : (s : List ℕ) → take (length s) s ≡ s
take_all [] = refl
take_all (c ∷ s) = ap (◌∷◌ c) (take_all s)

-- The client reads the string that was stored, if its length is one that is kept.
pub store_lenenc_string_lem :
    (s rest : List ℕ)
    → IsKept (length s)
    → read_lenenc_string (store_lenenc_string s ++ rest) ≡ some (s, rest)
unfolding read_lenenc_string store_lenenc_string store_fix_length_string
store_lenenc_string_lem s rest kept =
    ap read_lenenc_string whole
    ∙ rw (read_lenenc_string, store_lenenc_int_lem (length s) (s ++ rest) kept)
        (rw (fits, take-append s rest, drop-append s rest) refl)
  where
    whole :
        (store_lenenc_int (length s) ++ take (length s) s) ++ rest
        ≡ store_lenenc_int (length s) ++ (s ++ rest)
    whole =
        append_assoc (store_lenenc_int (length s)) (take (length s) s) rest
        ∙ ap (λ t. store_lenenc_int (length s) ++ (t ++ rest)) (take_all s)

    fits : leb (length s) (length (s ++ rest)) ≡ true
    fits = ground (arith, length-append s rest)

-- The cells of a row, so many of them, when nothing follows.
unfoldable pub read_row : ℕ → List ℕ → Option (List (List ℕ))
read_row zero [] = some []
read_row zero (x ∷ xs) = none
read_row (suc n) xs = elim (read_lenenc_string xs) [
  | none ↦ none
  | some p ↦ elim (read_row n p.1) [ none ↦ none | some cells ↦ some (p.0 ∷ cells) ]
]
