-- ===== src/Sql/Rewrite/Lost.antt =====
-- Where `ConjunctionSimplificationRule` of
-- src/observer/sql/optimizer/conjunction_simplification_rule.cpp changes the value of a condition.
use landbase.Base.{ℕ, zero, suc, ◌≡◌, refl, ap, Bool, true, false, not, Option, none}
use landbase.Base.Result.{Result, ok}
use landbase.Rc.{Rc}
use landbase.Sql.Value.{Floats, Value, booleans_value, get_boolean}
use landbase.Sql.Expr.{
  ConjunctionType, conj_and, conj_or, Expr, value, conjunction, Exprs, nil, cons, get_value,
  get_children, decides,
}
use landbase.Sql.Rewrite.{try_to_get_bool_constant, sweep, conjunction_rule, kept, after_sweep}

module _ (fp : Floats) where
  abbrev pub constant : Bool → Expr fp
  constant b = value (booleans_value b)

  -- So many times the constant false.
  abbrev pub falses : ℕ → Exprs fp
  falses zero = nil
  falses (suc n) = cons (constant false) (falses n)

  -- The sweep of an `OR` takes every constant false out.
  sweep-falses : (front : Option (Expr fp)) (n : ℕ) → sweep fp conj_or front (falses n) ≡ kept nil
  unfolding sweep try_to_get_bool_constant get_boolean
  sweep-falses front zero = refl
  sweep-falses front (suc n) = sweep-falses front n

  module _ {Tuple : Type 0} (find_cell : Tuple → ℕ → Result Rc (Value fp))
      (other_value : Tuple → ℕ → Result Rc (Value fp)) (t : Tuple) where
    abbrev val : Expr fp → Result Rc (Value fp)
    val = get_value fp find_cell other_value t

    -- A condition with a constant that decides it behind it: on a tuple for which the condition is true,
    -- `e AND false` is false and is rewritten to an expression that is true; on a tuple for which it is
    -- false, `e OR true` is true and is rewritten to an expression that is false.
    pub constant_behind :
        (e : Expr fp) (b : Bool)
        → try_to_get_bool_constant fp e ≡ none
        → val e ≡ ok (booleans_value b)
        → (ty : ConjunctionType) → decides ty b ≡ false
        → (val (conjunction ty (cons e (cons (constant (not b)) nil)))
            ≡ ok (booleans_value (not b)))
          × (val (conjunction_rule fp (conjunction ty (cons e (cons (constant (not b)) nil)))).0
              ≡ ok (booleans_value b))
    unfolding get_value get_children conjunction_rule sweep try_to_get_bool_constant get_boolean
    constant_behind e true not_const is_b conj_and dec = (rw is_b refl, rw (sweep, not_const) is_b)
    constant_behind e true not_const is_b conj_or dec = cc dec
    constant_behind e false not_const is_b conj_and dec = cc dec
    constant_behind e false not_const is_b conj_or dec = (rw is_b refl, rw (sweep, not_const) is_b)

    falses-value :
        (n : ℕ)
        → get_children fp find_cell other_value t conj_or (falses n) ≡ ok (booleans_value false)
    unfolding get_value get_children get_boolean
    falses-value zero = refl
    falses-value (suc n) = falses-value n

    -- An `OR` of the constant false alone, any number of times, is false, and is rewritten to a
    -- conjunction without children, which is true.
    pub or_of_falses :
        (n : ℕ)
        → (val (conjunction conj_or (falses (suc n))) ≡ ok (booleans_value false))
          × (val (conjunction_rule fp (conjunction conj_or (falses (suc n)))).0
              ≡ ok (booleans_value true))
    unfolding get_value conjunction_rule
    or_of_falses n = (
      falses-value (suc n),
      ap (λ r. val (after_sweep fp conj_or r).0) (sweep-falses none (suc n)),
    )
