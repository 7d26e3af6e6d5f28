-- ===== src/Sql/Value.antt =====
-- `Value` of src/observer/sql/parser/value.h and value.cpp: its comparison and its truth.
-- Floating point numbers and the conversions of strings are parameters.
use landbase.Base.{
  ℕ, ◌+◌, ◌*◌, ◌%◌, Bool, true, false, not, ◌&&◌, ◌||◌, Option, none, some, List, [], ◌∷◌, ltb, leb,
  ◌==◌, if◌then◌else◌,
}
use landbase.Base.Int.{ℤ, pos, negsuc, ltb_ℤ, leb_ℤ, eqb_ℤ}
use landbase.Lang.Comparator.{compare_int, compare_date, compare_strings}

pub data AttrType : Type 0 where
  undefined chars dates ints floats booleans nulls texts : AttrType

-- `CompOp`
pub data CompOp : Type 0 where
  equal_to less_equal not_equal less_than great_equal great_than like not_like : CompOp
  is is_not in_ not_in exists not_exists no_op : CompOp

pub record Floats : Type 1 where
  pub Float : Type 0
  pub of_int : ℤ → Float
  pub compare_float : Float → Float → ℤ
  -- whether a number is `EPSILON` or more away from 0
  pub is_nonzero : Float → Bool
  -- `std::stof`, with `none` for an exception, and reading from a stream, with 0 for a failure
  pub stof : List ℕ → Option Float
  pub read_float : List ℕ → Float
  -- `std::stol`
  pub stol : List ℕ → Option ℤ
  -- the numbers that `sscanf` finds in a date
  pub scan_date : List ℕ → ℤ × ℤ × ℤ
  -- `string_match`: 0 for a match
  pub string_match : List ℕ → List ℕ → ℤ
  -- what a `float` holds that nothing was stored in, where `compare` reads one: it may be another
  -- for each operator
  pub uninitialized : CompOp → Float

module _ (fp : Floats) where
  pub data Value : Type 0 where
    undefined_value : Value
    chars_value : List ℕ → Value
    dates_value : ℤ → Value
    ints_value : ℤ → Value
    floats_value : fp.Float → Value
    booleans_value : Bool → Value
    nulls_value : Value
    texts_value : List ℕ → Value

  abbrev pub attr_type : Value → AttrType
  attr_type undefined_value = undefined
  attr_type (chars_value s) = chars
  attr_type (dates_value d) = dates
  attr_type (ints_value i) = ints
  attr_type (floats_value f) = floats
  attr_type (booleans_value b) = booleans
  attr_type nulls_value = nulls
  attr_type (texts_value s) = texts

  abbrev pub is_null : Value → Bool
  is_null nulls_value = true
  is_null v = false

  -- Days of a month that is not a leap year's.
  abbrev month_days : ℕ → ℕ
  month_days m = if m == 2 then 28 else if m == 4 || (m == 6 || (m == 9 || m == 11)) then 30 else 31

  -- `check_date`, for numbers that are not negative.
  abbrev check_date : ℕ → ℕ → ℕ → Bool
  check_date year month day =
      if ltb 3999 year || (ltb 12 month || (ltb month 1 || ltb 31 day))
      then false
      else if year % 400 == 0 || (year % 4 == 0 && not (year % 100 == 0))
      then leb day (month_days month) || (month == 2 && day == 29)
      else leb day (month_days month)

  abbrev date_of : ℤ × ℤ × ℤ → ℤ
  date_of (pos year, pos month, pos day) =
      if check_date year month day then pos (year * 10000 + month * 100 + day) else negsuc 0
  date_of (y, m, d) = negsuc 0

  unfoldable pub convert_string_to_date : List ℕ → ℤ
  convert_string_to_date s = date_of (fp.scan_date s)

  -- What the two strings of a comparison give.
  unfoldable pub compare_texts : CompOp → List ℕ → List ℕ → ℤ
  compare_texts like s t = fp.string_match s t
  compare_texts not_like s t = fp.string_match s t
  compare_texts op s t = compare_strings s t

  abbrev bool_int : Bool → ℤ
  bool_int true = pos 1
  bool_int false = pos 0

  -- The number that `compare` tests, for two values that are not null, and what becomes of the other
  -- value: a string that is compared with a date turns into a date. `none` is a comparison that is
  -- not supported. A number on the left of a string is compared as if nothing were stored in it: the
  -- code declares `self` without a value, and the other operand is the left one.
  unfoldable pub cmp_result : CompOp → Value → Value → Option ℤ × Value
  unfolding compare_int compare_date convert_string_to_date compare_texts
  cmp_result op (ints_value a) (ints_value b) = (some (compare_int a b), ints_value b)
  cmp_result op (floats_value a) (floats_value b) = (some (fp.compare_float a b), floats_value b)
  cmp_result op (texts_value a) (texts_value b) = (some (compare_texts op a b), texts_value b)
  cmp_result op (chars_value a) (chars_value b) = (some (compare_texts op a b), chars_value b)
  cmp_result op (dates_value a) (dates_value b) = (some (compare_date a b), dates_value b)
  cmp_result op (booleans_value a) (booleans_value b) =
      (some (compare_int (bool_int a) (bool_int b)), booleans_value b)
  cmp_result op undefined_value undefined_value = (some (pos 0), undefined_value)
  cmp_result op (ints_value a) (floats_value b) =
      (some (fp.compare_float (fp.of_int a) b), floats_value b)
  cmp_result op (floats_value a) (ints_value b) =
      (some (fp.compare_float a (fp.of_int b)), ints_value b)
  cmp_result op (dates_value a) (chars_value b) =
      let d = convert_string_to_date b in (some (compare_date a d), dates_value d)
  cmp_result op (floats_value a) (chars_value b) =
      (some (fp.compare_float (fp.uninitialized op) a), chars_value b)
  cmp_result op (ints_value a) (chars_value b) =
      (some (fp.compare_float (fp.uninitialized op) (fp.of_int a)), chars_value b)
  cmp_result op (chars_value a) (ints_value b) =
      (some (fp.compare_float (fp.read_float a) (fp.of_int b)), ints_value b)
  cmp_result op (chars_value a) (floats_value b) =
      (some (fp.compare_float (fp.read_float a) b), floats_value b)
  cmp_result op a b = (none, b)

  -- The last `switch` of `compare`.
  unfoldable pub test_result : CompOp → ℤ → Bool
  test_result equal_to c = eqb_ℤ c (pos 0)
  test_result less_equal c = leb_ℤ c (pos 0)
  test_result not_equal c = not (eqb_ℤ c (pos 0))
  test_result less_than c = ltb_ℤ c (pos 0)
  test_result great_equal c = leb_ℤ (pos 0) c
  test_result great_than c = ltb_ℤ (pos 0) c
  test_result like c = eqb_ℤ c (pos 0)
  test_result not_like c = not (eqb_ℤ c (pos 0))
  test_result op c = false

  -- The operators other than `IS` and `IS_NOT`.
  unfoldable pub compare_values : CompOp → Value → Value → Bool × Value
  compare_values op v w =
      if is_null v || is_null w
      then (false, w)
      else let (result, w') = cmp_result op v w in
        elim result [ none ↦ (false, w') | some c ↦ (test_result op c, w') ]

  -- `v.compare(op, w)`: the answer, and the value `w` afterwards.
  unfoldable pub compare : CompOp → Value → Value → Bool × Value
  compare is v w = (is_null v && is_null w, w)
  compare is_not v w = (not (is_null v) && is_null w, w)
  compare op v w = compare_values op v w

  abbrev not_empty : List ℕ → Bool
  not_empty [] = false
  not_empty (c ∷ s) = true

  -- An exception of a conversion ends in the `catch`.
  unfoldable pub text_boolean : List ℕ → Bool
  text_boolean s = elim (fp.stof s) [
    | none ↦ not_empty s
    | some f ↦ if fp.is_nonzero f then true else elim (fp.stol s) [
      | none ↦ not_empty s
      | some i ↦ if not (eqb_ℤ i (pos 0)) then true else not_empty s
    ]
  ]

  unfoldable pub get_boolean : Value → Bool
  unfolding text_boolean
  get_boolean undefined_value = false
  get_boolean (chars_value s) = text_boolean s
  get_boolean (texts_value s) = text_boolean s
  get_boolean (dates_value d) = false
  get_boolean (ints_value i) = not (eqb_ℤ i (pos 0))
  get_boolean (floats_value f) = fp.is_nonzero f
  get_boolean (booleans_value b) = b
  get_boolean nulls_value = false
