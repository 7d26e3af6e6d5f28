-- ===== src/Sql/Expr.antt =====
-- Expressions of src/observer/sql/expr/expression.h and expression.cpp, and their values on a tuple.
-- Expressions other than those that the rewriting looks into (`IN`, `EXISTS`, arithmetic, subqueries)
-- are numbered, and their values are a parameter.
use landbase.Base.{ℕ, Bool, true, false, not, if◌then◌else◌}
use landbase.Base.Result.{Result, ok, fail, ◌>>=◌}
use landbase.Rc.{Rc, internal, invalid_argument}
use landbase.Sql.Value.{
  AttrType, booleans, chars, dates, ints, floats, nulls, texts, undefined, CompOp, Floats, Value,
  booleans_value, attr_type, compare, get_boolean,
}

-- `ConjunctionExpr::Type`
pub data ConjunctionType : Type 0 where
  conj_and conj_or : ConjunctionType

-- Whether a child with this truth decides the conjunction, and what an exhausted one is.
abbrev pub decides : ConjunctionType → Bool → Bool
decides conj_and b = not b
decides conj_or b = b

abbrev pub default_value : ConjunctionType → Bool
default_value conj_and = true
default_value conj_or = false

-- The enumerators of `AttrType` are the same.
abbrev same_attr : AttrType → AttrType → Bool
same_attr chars chars = true
same_attr dates dates = true
same_attr ints ints = true
same_attr floats floats = true
same_attr booleans booleans = true
same_attr nulls nulls = true
same_attr texts texts = true
same_attr undefined undefined = true
same_attr a b = false

module _ (fp : Floats) where
  mutual
    pub data Expr : Type 0 where
      field : ℕ → Expr
      value : Value fp → Expr
      cast : AttrType → Expr → Expr
      comparison : CompOp → Expr → Expr → Expr
      conjunction : ConjunctionType → Exprs → Expr
      other : ℕ → Expr

    pub data Exprs : Type 0 where
      nil : Exprs
      cons : Expr → Exprs → Exprs

  -- `CastExpr::cast`
  unfoldable pub cast_value : AttrType → Value fp → Result Rc (Value fp)
  cast_value target v =
      if same_attr target (attr_type fp v)
      then ok v
      else elim target [ booleans ↦ ok (booleans_value (get_boolean fp v)) | _ ↦ fail internal ]

  -- `ComparisonExpr::try_get_value`
  unfoldable pub try_get_value : Expr → Result Rc (Value fp)
  try_get_value (comparison op (value v) (value w)) = ok (booleans_value (compare fp op v w).0)
  try_get_value e = fail invalid_argument

  module _ {Tuple : Type 0} (find_cell : Tuple → ℕ → Result Rc (Value fp))
      (other_value : Tuple → ℕ → Result Rc (Value fp)) (t : Tuple) where
    unfoldable mutual
      unfolding cast_value compare get_boolean

      -- `get_value` of the classes of expressions.
      pub get_value : Expr → Result Rc (Value fp)
      get_value (field i) = find_cell t i
      get_value (value v) = ok v
      get_value (cast target e) = get_value e >>= cast_value target
      get_value (comparison op l r) =
          get_value l >>= λ v. get_value r >>= λ w. ok (booleans_value (compare fp op v w).0)
      get_value (conjunction ty nil) = ok (booleans_value true)
      get_value (conjunction ty (cons e es)) = get_children ty (cons e es)
      get_value (other k) = other_value t k

      -- The loop of `ConjunctionExpr::get_value`.
      pub get_children : ConjunctionType → Exprs → Result Rc (Value fp)
      get_children ty nil = ok (booleans_value (default_value ty))
      get_children ty (cons e es) = get_value e >>= λ v.
          if decides ty (get_boolean fp v)
          then ok (booleans_value (get_boolean fp v))
          else get_children ty es
