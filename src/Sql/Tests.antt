-- ===== src/Sql/Tests.antt =====
-- Small conditions, and the theorems at them. A floating point number is an integer here, and a tuple
-- is the number in its only field.
use landbase.Base.{
  ℕ, ◌≡◌, refl, true, not, Option, none, some, List, [], ◌∷◌, ◌==◌, arith, if◌then◌else◌,
}
use landbase.Base.Int.{ℤ, pos, eqb_ℤ}
use landbase.Base.Result.{Result, ok}
use landbase.Rc.{Rc}
use landbase.Lang.Comparator.{compare_int}
use landbase.Sql.Value.{
  equal_to, Floats, Value, booleans_value, ints_value, compare, cmp_result, get_boolean,
  compare_values, test_result,
}
use landbase.Sql.Expr.{conj_and, Expr, field, value, comparison, conjunction, nil, cons, get_value}
use landbase.Sql.Rewrite.{rewrite_expression, try_to_get_bool_constant}
use landbase.Sql.Rewrite.Safe.{depth, IsSafe}
use landbase.Sql.Rewrite.Sound.{Rewrites, rewrite_expression_lem}
use landbase.Sql.Rewrite.Lost.{constant}
use landbase.Sql.Pushdown.{
  ScannedTable, index_pair, index_fields, select_index, get_exprs_can_pushdown, predicate_after,
  predicates_after, run,
}
use landbase.Sql.Pushdown.Sound.{pushdown_keeps_rows}

abbrev fp : Floats
fp = record {
  Float = ℤ;
  of_int = λ i. i;
  compare_float = λ a b. if eqb_ℤ a b then pos 0 else pos 1;
  is_nonzero = λ f. not (eqb_ℤ f (pos 0));
  stof = λ s. none;
  read_float = λ s. pos 0;
  stol = λ s. none;
  scan_date = λ s. (pos 0, pos 0, pos 0);
  string_match = λ s t. pos 0;
  uninitialized = λ op. pos 0;
}

abbrev find_cell : ℤ → ℕ → Result Rc (Value fp)
find_cell t i = ok (ints_value t)

-- The field is 5.
abbrev is_five : Expr fp
is_five = comparison equal_to (field 0) (value (ints_value (pos 5)))

-- `true AND field = 5`
abbrev condition : Expr fp
condition = conjunction conj_and (cons (constant fp true) (cons is_five nil))

is_five_value : get_value fp find_cell find_cell (pos 5) is_five ≡ ok (booleans_value true)
unfolding get_value compare compare_values cmp_result test_result compare_int
is_five_value = refl

condition-IsSafe : IsSafe fp find_cell find_cell (pos 5) condition
unfolding get_value try_to_get_bool_constant get_boolean
condition-IsSafe = (tt, tt, ((tt, (true, refl), ((tt, tt), (true, is_five_value), tt))))

rewrite_expression_lem_example :
    Rewrites fp find_cell find_cell (pos 5) (rewrite_expression fp 10 condition) condition
unfolding depth
rewrite_expression_lem_example =
    rewrite_expression_lem fp find_cell find_cell (pos 5) 10 condition (omega arith)
      condition-IsSafe

-- A table with an index on its field 3.
abbrev table : ScannedTable fp ℤ
table = record { find_index = at_three; index_scan = λ index predicates. ok [] }
  where
    at_three : List ℕ → Option ℕ
    at_three [] = none
    at_three (i ∷ is) = if i == 3 then some 0 else none

no_index : select_index fp table (predicates_after fp condition nil) ≡ none
unfolding select_index index_fields index_pair predicates_after get_exprs_can_pushdown
no_index = refl

no_index_before : select_index fp table nil ≡ none
unfolding select_index index_fields
no_index_before = refl

pushdown_keeps_rows_example :
    run fp find_cell find_cell table
      (predicate_after fp condition)
      (predicates_after fp condition nil)
      (pos 5 ∷ [])
    ≡ run fp find_cell find_cell table condition nil (pos 5 ∷ [])
unfolding get_value
pushdown_keeps_rows_example =
    pushdown_keeps_rows fp find_cell find_cell table condition (pos 5 ∷ []) no_index no_index_before
      (((true, refl), ((true, is_five_value), tt)), tt)
