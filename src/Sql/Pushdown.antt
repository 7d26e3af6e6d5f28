-- ===== src/Sql/Pushdown.antt =====
-- `PredicatePushdownRewriter` of src/observer/sql/optimizer/predicate_pushdown_rewriter.cpp, and what
-- the scan of a table and the predicate above it do with their conditions
-- (src/observer/sql/operator/table_scan_physical_operator.cpp and predicate_physical_operator.cpp).
use landbase.Base.{
  ℕ, ◌≡◌, refl, ap, sym, ◌∙◌, Bool, true, false, not, ◌&&◌, ◌||◌, Option, none, some, List, [], ◌∷◌,
  if◌then◌else◌,
}
use landbase.Base.Result.{Result, ok, fail, ◌>>=◌}
use landbase.Rc.{Rc}
use landbase.Sql.Value.{CompOp, equal_to, Floats, Value, is_null, booleans_value, get_boolean}
use landbase.Sql.Expr.{
  ConjunctionType, conj_and, conj_or, Expr, field, value, cast, comparison, conjunction, other,
  Exprs, nil, cons, get_value, get_children,
}
pub mod Sound

-- A tuple that is given, or passed over, before the rest.
abbrev pub prepend :
    {Tuple : Type 0} → Bool → Tuple → Result Rc (List Tuple) → Result Rc (List Tuple)
prepend true t rows = rows >>= λ ts. ok (t ∷ ts)
prepend false t rows = rows

module _ (fp : Floats) where
  abbrev is_field : Expr fp → Bool
  is_field (field i) = true
  is_field e = false

  abbrev is_value : Expr fp → Bool
  is_value (value v) = true
  is_value e = false

  abbrev is_equal : CompOp → Bool
  is_equal equal_to = true
  is_equal op = false

  -- The tests on a comparison: it can go down to the table.
  abbrev pub can_push : CompOp → Expr fp → Expr fp → Bool
  can_push op l r =
      if not (is_equal op)
      then false
      else if not (is_field l) && not (is_field r)
      then false
      else not (not (is_field l) && (not (is_value l) && (not (is_field r) && not (is_value r))))

  abbrev pub append_exprs : Exprs fp → Exprs fp → Exprs fp
  append_exprs nil ys = ys
  append_exprs (cons x xs) ys = cons x (append_exprs xs ys)

  abbrev push : Option (Expr fp) → Exprs fp → Exprs fp
  push none es = es
  push (some e) es = cons e es

  unfoldable mutual
    -- What is left of the expression, if it did not move down, and the expressions that did.
    pub get_exprs_can_pushdown : Expr fp → Option (Expr fp) × Exprs fp
    get_exprs_can_pushdown (conjunction conj_or es) = (some (conjunction conj_or es), nil)
    get_exprs_can_pushdown (conjunction conj_and es) =
        let (es', pushed) = pushdown_children es in (some (conjunction conj_and es'), pushed)
    get_exprs_can_pushdown (comparison op l r) =
        if can_push op l r
        then (none, cons (comparison op l r) nil)
        else (some (comparison op l r), nil)
    get_exprs_can_pushdown e = (some e, nil)

    -- The loop over the children.
    pub pushdown_children : Exprs fp → Exprs fp × Exprs fp
    pushdown_children nil = (nil, nil)
    pushdown_children (cons e es) =
        let (e', pushed) = get_exprs_can_pushdown e in
        let (es', pushed') = pushdown_children es in (push e' es', append_exprs pushed pushed')

  -- The expression that the predicate keeps: an empty one becomes the constant true.
  unfoldable pub predicate_after : Expr fp → Expr fp
  predicate_after e = elim (get_exprs_can_pushdown e).0 [
    | none ↦ value (booleans_value true)
    | some e' ↦ e'
  ]

  abbrev pub set_predicates : Exprs fp → Exprs fp → Exprs fp
  set_predicates nil old = old
  set_predicates (cons e es) old = cons e es

  -- The conditions of the table below, of which there were `old`.
  unfoldable pub predicates_after : Expr fp → Exprs fp → Exprs fp
  predicates_after e old = set_predicates (get_exprs_can_pushdown e).1 old

  -- What the generator of plans asks of a table: which index has exactly the given fields, and what
  -- the scan of an index gives for the table's conditions.
  pub record ScannedTable (Tuple : Type 0) : Type 0 where
    pub find_index : List ℕ → Option ℕ
    pub index_scan : ℕ → Exprs fp → Result Rc (List Tuple)

  -- The field and the value of an expression that an index can serve.
  unfoldable pub index_pair : Expr fp → Option (ℕ × Value fp)
  index_pair (comparison equal_to (field i) (value v)) = some (i, v)
  index_pair (comparison equal_to (value v) (field i)) = some (i, v)
  index_pair e = none

  -- The loop over the conditions: the fields in their order, and the last value.
  unfoldable pub index_fields : Exprs fp → List ℕ × Option (Value fp)
  index_fields nil = ([], none)
  index_fields (cons e es) =
      let (names, last) = index_fields es in
      elim (index_pair e) [
        | none ↦ (names, last)
        | some (i, v) ↦ (i ∷ names, elim last [ none ↦ some v | some w ↦ some w ])
      ]

  -- The index that the plan reads; there is none if the last value is null.
  unfoldable pub select_index : {Tuple : Type 0} → ScannedTable Tuple → Exprs fp → Option ℕ
  select_index table predicates =
      let (names, last) = index_fields predicates in
      let index = table.find_index names in
      elim last [ none ↦ index | some v ↦ if is_null fp v then none else index ]

  module _ {Tuple : Type 0} (find_cell : Tuple → ℕ → Result Rc (Value fp))
      (other_value : Tuple → ℕ → Result Rc (Value fp)) where
    -- `TableScanPhysicalOperator::filter`
    unfoldable pub filter : Exprs fp → Tuple → Result Rc Bool
    unfolding get_boolean get_value
    filter nil t = ok true
    filter (cons e es) t = get_value fp find_cell other_value t e >>= λ v.
        if not (get_boolean fp v) then ok false else filter es t

    -- All the tuples that the scan's `next` gives, from the records that it finds.
    unfoldable pub scan_all : Exprs fp → List Tuple → Result Rc (List Tuple)
    scan_all predicates [] = ok []
    scan_all predicates (t ∷ ts) = filter predicates t >>= λ b. prepend b t (scan_all predicates ts)

    -- All the tuples that the predicate's `next` gives, from those of the operator below.
    unfoldable pub select_all : Expr fp → List Tuple → Result Rc (List Tuple)
    unfolding get_boolean get_value
    select_all e [] = ok []
    select_all e (t ∷ ts) = get_value fp find_cell other_value t e >>= λ v.
        prepend (get_boolean fp v) t (select_all e ts)

    -- A predicate over the scan of all records of a table.
    unfoldable pub scan_and_select : Expr fp → Exprs fp → List Tuple → Result Rc (List Tuple)
    scan_and_select e predicates records = scan_all predicates records >>= λ ts. select_all e ts

    -- A predicate over a table: the plan reads an index, if one is selected for the table's
    -- conditions, and else scans all the records.
    unfoldable pub run :
        ScannedTable Tuple → Expr fp → Exprs fp → List Tuple → Result Rc (List Tuple)
    run table e predicates records = elim (select_index table predicates) [
      | none ↦ scan_and_select e predicates records
      | some index ↦ table.index_scan index predicates >>= λ ts. select_all e ts
    ]
