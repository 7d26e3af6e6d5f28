-- ===== src/Sql/Rewrite.antt =====
-- The rewriting of expressions in src/observer/sql/optimizer: `ComparisonSimplificationRule`,
-- `ConjunctionSimplificationRule` and `ExpressionRewriter::rewrite_expression`. A rule returns the
-- expression and whether it says that it made a change.
use landbase.Base.{
  ℕ, zero, suc, ◌≡◌, Bool, true, false, not, ◌&&◌, ◌||◌, Option, none, some, if◌then◌else◌,
}
use landbase.Base.Result.{Result, ok, fail}
use landbase.Rc.{Rc}
use landbase.Sql.Value.{CompOp, Floats, Value, booleans_value, get_boolean, compare}
use landbase.Sql.Expr.{
  ConjunctionType, conj_and, conj_or, Expr, field, value, cast, comparison, conjunction, other,
  Exprs, nil, cons, try_get_value, decides,
}
pub mod Safe
pub mod Sound
pub mod Lost

module _ (fp : Floats) where
  unfoldable pub comparison_rule : Expr fp → Expr fp × Bool
  unfolding try_get_value
  comparison_rule (comparison op l r) = elim (try_get_value fp (comparison op l r)) [
    | ok v ↦ (value v, true)
    | fail rc ↦ (comparison op l r, false)
  ]
  comparison_rule e = (e, false)

  unfoldable pub try_to_get_bool_constant : Expr fp → Option Bool
  unfolding get_boolean
  try_to_get_bool_constant (value (booleans_value b)) = some (get_boolean fp (booleans_value b))
  try_to_get_bool_constant e = none

  -- How the loop over the children ends: with the expression that takes the place of the
  -- conjunction, or with the children that are left.
  pub data Sweep : Type 0 where
    stopped : Expr fp → Sweep
    kept : Exprs fp → Sweep

  abbrev pub keep : Expr fp → Sweep → Sweep
  keep e (stopped e') = stopped e'
  keep e (kept es) = kept (cons e es)

  -- `child_exprs.front()`, where `front` is the first of the children that the loop has left.
  abbrev pub front_or : Option (Expr fp) → Expr fp → Expr fp
  front_or none e = e
  front_or (some f) e = f

  unfoldable pub sweep : ConjunctionType → Option (Expr fp) → Exprs fp → Sweep
  sweep ty front nil = kept nil
  sweep ty front (cons e es) = elim (try_to_get_bool_constant e) [
    | none ↦ keep e (sweep ty (some (front_or front e)) es)
    | some b ↦ elim (decides ty b) [ true ↦ stopped (front_or front e) | false ↦ sweep ty front es ]
  ]

  abbrev pub after_sweep : ConjunctionType → Sweep → Expr fp × Bool
  after_sweep ty (stopped e) = (e, false)
  after_sweep ty (kept (cons e nil)) = (e, true)
  after_sweep ty (kept es) = (conjunction ty es, false)

  unfoldable pub conjunction_rule : Expr fp → Expr fp × Bool
  conjunction_rule (conjunction ty es) = after_sweep ty (sweep ty none es)
  conjunction_rule e = (e, false)

  -- The loop over the children of a conjunction, which rewrites each.
  unfoldable pub rewrite_children :
      (Expr fp → Option (Expr fp × Bool)) → Exprs fp → Option (Exprs fp × Bool)
  rewrite_children rewrite nil = some (nil, false)
  rewrite_children rewrite (cons e es) = elim (rewrite e) [
    | none ↦ none
    | some (e', c) ↦ elim (rewrite_children rewrite es) [
      | none ↦ none
      | some (es', cs) ↦ some (cons e' es', c || cs)
    ]
  ]

  -- The `switch` over the type of an expression that no rule has changed.
  unfoldable pub rewrite_below :
      (Expr fp → Option (Expr fp × Bool)) → Expr fp → Option (Expr fp × Bool)
  rewrite_below rewrite (cast target e) = elim (rewrite e) [
    | none ↦ none
    | some (e', c) ↦ some (cast target e', c)
  ]
  rewrite_below rewrite (comparison op l r) = elim (rewrite l) [
    | none ↦ none
    | some (l', cl) ↦ elim (rewrite r) [
      | none ↦ none
      | some (r', cr) ↦ some (comparison op l' r', cl || cr)
    ]
  ]
  rewrite_below rewrite (conjunction ty es) = elim (rewrite_children rewrite es) [
    | none ↦ none
    | some (es', c) ↦ some (conjunction ty es', c)
  ]
  rewrite_below rewrite e = some (e, false)

  unfoldable pub rewrite_expression : ℕ → Expr fp → Option (Expr fp × Bool)
  rewrite_expression zero e = none
  rewrite_expression (suc fuel) e =
      let (e1, c1) = comparison_rule e in
      let (e2, c2) = conjunction_rule e1 in
      elim (c1 || c2) [
        | true ↦ some (e2, true)
        | false ↦ rewrite_below (rewrite_expression fuel) e2
      ]
