-- ===== src/Sql/Pushdown/Sound.antt =====
-- Moving conditions down to the scan of a table, in
-- src/observer/sql/optimizer/predicate_pushdown_rewriter.cpp, keeps the tuples of a query.
use landbase.Base.{
  ℕ, ◌≡◌, refl, ap, sym, ◌∙◌, Bool, true, false, not, ◌&&◌, Bool-cases, inl, inr, Option, none,
  some, List, [], ◌∷◌, if◌then◌else◌, All,
}
use landbase.Base.Result.{Result, ok, fail, ◌>>=◌}
use landbase.Rc.{Rc}
use landbase.Sql.Value.{Floats, Value, booleans_value, get_boolean}
use landbase.Sql.Expr.{
  conj_and, conj_or, Expr, field, value, cast, comparison, conjunction, other, Exprs, nil, cons,
  get_value, get_children,
}
use landbase.Sql.Pushdown.{
  can_push, append_exprs, push, get_exprs_can_pushdown, pushdown_children, predicate_after,
  set_predicates, predicates_after, filter, prepend, scan_all, select_all, scan_and_select,
  select_index, ScannedTable, run,
}

module _ (fp : Floats) {Tuple : Type 0} (find_cell : Tuple → ℕ → Result Rc (Value fp))
    (other_value : Tuple → ℕ → Result Rc (Value fp)) where
  module _ (t : Tuple) where
    abbrev val : Expr fp → Result Rc (Value fp)
    val = get_value fp find_cell other_value t

    abbrev vals : Exprs fp → Result Rc (Value fp)
    vals = get_children fp find_cell other_value t conj_and

    abbrev passes : Exprs fp → Result Rc Bool
    passes es = filter fp find_cell other_value es t

    -- The condition, and each condition that an `AND` in it is made of, is true or false of the tuple.
    abbrev mutual
      pub Answers : Expr fp → Type 0
      Answers (conjunction conj_and es) = AllAnswer es
      Answers e = (b : Bool) × (val e ≡ ok (booleans_value b))

      pub AllAnswer : Exprs fp → Type 0
      AllAnswer nil = Unit {0}
      AllAnswer (cons e es) = Answers e × AllAnswer es

    abbrev val_or_true : Option (Expr fp) → Result Rc (Value fp)
    val_or_true none = ok (booleans_value true)
    val_or_true (some e) = val e

    -- A condition of value `b` in two parts, the one that moved down and the one that is left.
    record Parts (whole : Result Rc (Value fp)) (down : Exprs fp) (left : Result Rc (Value fp))
        : Type 0 where
      b_down : Bool
      b_left : Bool
      is_down : passes down ≡ ok b_down
      is_left : left ≡ ok (booleans_value b_left)
      is_whole : whole ≡ ok (booleans_value (b_down && b_left))

    -- The first of the conditions decides, or the others do.
    passes_step :
        (rest rest' : Result Rc Bool) (stop b c : Bool)
        → (if stop then ok false else rest) ≡ ok b
        → (rest ≡ ok b → rest' ≡ ok (b && c))
        → ◌≡◌ {A = Result Rc Bool} (if stop then ok false else rest') (ok (b && c))
    passes_step rest rest' true true c e next = cc e
    passes_step rest rest' true false c e next = refl
    passes_step rest rest' false b c e next = next e

    passes-append :
        (xs ys : Exprs fp) (b c : Bool)
        → passes xs ≡ ok b
        → passes ys ≡ ok c
        → passes (append_exprs fp xs ys) ≡ ok (b && c)
    unfolding filter
    passes-append nil ys true c e e' = e'
    passes-append nil ys false c e e' = cc e
    passes-append (cons x xs) ys b c e e' = go (val x) e (λ h. passes-append xs ys b c h e')
      where
        go :
            (r : Result Rc (Value fp))
            → (r >>= λ v. if not (get_boolean fp v) then ok false else passes xs) ≡ ok b
            → (passes xs ≡ ok b → passes (append_exprs fp xs ys) ≡ ok (b && c))
            → (r >>= λ v.
                if not (get_boolean fp v) then ok false else passes (append_exprs fp xs ys))
              ≡ ok (b && c)
        go (fail rc) h next = cc h
        go (ok v) h next =
            passes_step (passes xs) (passes (append_exprs fp xs ys)) (not (get_boolean fp v)) b c h
              next

    vals-cons_value :
        (e : Expr fp) (es : Exprs fp) (b c : Bool)
        → val e ≡ ok (booleans_value b)
        → vals es ≡ ok (booleans_value c)
        → vals (cons e es) ≡ ok (booleans_value (b && c))
    unfolding get_children get_boolean
    vals-cons_value e es true c h h' = rw (get_children, h, h') refl
    vals-cons_value e es false c h h' = rw (get_children, h) refl

    and_assoc : (a b c d : Bool) → ((a && b) && (c && d)) ≡ ((a && c) && (b && d))
    and_assoc true b true d = refl
    and_assoc true true false d = refl
    and_assoc true false false d = refl
    and_assoc false b c d = refl

    -- An expression that stays, or moves as a whole.
    stays : (e : Expr fp) (b : Bool) → val e ≡ ok (booleans_value b) → Parts (val e) nil (val e)
    unfolding filter
    stays e b h = record { b_down = true; b_left = b; is_down = refl; is_left = h; is_whole = h }

    moves :
        (e : Expr fp) (b : Bool)
        → val e ≡ ok (booleans_value b)
        → Parts (val e) (cons e nil) (ok (booleans_value true))
    unfolding filter get_boolean
    moves e true h = record {
      b_down = true;
      b_left = true;
      is_down = rw h refl;
      is_left = refl;
      is_whole = h;
    }
    moves e false h = record {
      b_down = false;
      b_left = true;
      is_down = rw h refl;
      is_left = refl;
      is_whole = h;
    }

    left_nothing :
        (b c : Bool) (r : Result Rc (Value fp))
        → ◌≡◌ {A = Result Rc (Value fp)} (ok (booleans_value true)) (ok (booleans_value b))
        → r ≡ ok (booleans_value c)
        → r ≡ ok (booleans_value (b && c))
    left_nothing true c r h h' = h'
    left_nothing false c r h h' = cc h

    conjunction_vals : (es : Exprs fp) → val (conjunction conj_and es) ≡ vals es
    unfolding get_value get_children
    conjunction_vals nil = refl
    conjunction_vals (cons e es) = refl

    pushed_child :
        (e : Expr fp) (es : Exprs fp) (o : Option (Expr fp)) (down : Exprs fp)
        (es' down' : Exprs fp)
        → Parts (val e) down (val_or_true o)
        → Parts (vals es) down' (vals es')
        → Parts (vals (cons e es)) (append_exprs fp down down') (vals (push fp o es'))
    unfolding get_children get_boolean
    pushed_child e es o down es' down' p q = record {
      b_down = p.b_down && q.b_down;
      b_left = p.b_left && q.b_left;
      is_down = passes-append down down' p.b_down q.b_down p.is_down q.is_down;
      is_left = left o p.is_left;
      is_whole =
          vals-cons_value e es (p.b_down && p.b_left) (q.b_down && q.b_left) p.is_whole q.is_whole
          ∙ ap (λ b. ok (booleans_value b)) (and_assoc p.b_down p.b_left q.b_down q.b_left);
    }
      where
        left :
            (x : Option (Expr fp))
            → val_or_true x ≡ ok (booleans_value p.b_left)
            → vals (push fp x es') ≡ ok (booleans_value (p.b_left && q.b_left))
        left (some x) h = vals-cons_value x es' p.b_left q.b_left h q.is_left
        left none h = left_nothing p.b_left q.b_left (vals es') h q.is_left

    mutual
      unfolding get_exprs_can_pushdown pushdown_children get_value get_children filter

      pushed :
          (e : Expr fp)
          → Answers e
          → Parts
              (val e)
              (get_exprs_can_pushdown fp e).1
              (val_or_true (get_exprs_can_pushdown fp e).0)
      pushed (conjunction conj_or es) (b, h) = stays (conjunction conj_or es) b h
      pushed (conjunction conj_and es) h =
          let p = pushed_all es h in
          record {
            b_down = p.b_down;
            b_left = p.b_left;
            is_down = p.is_down;
            is_left = conjunction_vals (pushdown_children fp es).0 ∙ p.is_left;
            is_whole = conjunction_vals es ∙ p.is_whole;
          }
      pushed (comparison op l r) (b, h) = elim (Bool-cases (can_push fp op l r)) [
        | inl down ↦ rw (get_exprs_can_pushdown, down) (moves (comparison op l r) b h)
        | inr stay ↦ rw (get_exprs_can_pushdown, stay) (stays (comparison op l r) b h)
      ]
      pushed (field i) (b, h) = stays (field i) b h
      pushed (value v) (b, h) = stays (value v) b h
      pushed (cast target e) (b, h) = stays (cast target e) b h
      pushed (other k) (b, h) = stays (other k) b h

      pushed_all :
          (es : Exprs fp)
          → AllAnswer es
          → Parts (vals es) (pushdown_children fp es).1 (vals (pushdown_children fp es).0)
      pushed_all nil h = record {
        b_down = true;
        b_left = true;
        is_down = refl;
        is_left = refl;
        is_whole = refl;
      }
      pushed_all (cons e es) h =
          pushed_child e es (get_exprs_can_pushdown fp e).0 (get_exprs_can_pushdown fp e).1
            (pushdown_children fp es).0 (pushdown_children fp es).1 (pushed e h.0)
            (pushed_all es h.1)

    set_predicates_none : (es : Exprs fp) → set_predicates fp es nil ≡ es
    set_predicates_none nil = refl
    set_predicates_none (cons e es) = refl

    predicate_after-val :
        (e : Expr fp) → val (predicate_after fp e) ≡ val_or_true (get_exprs_can_pushdown fp e).0
    unfolding predicate_after get_value
    predicate_after-val e = go (get_exprs_can_pushdown fp e).0
      where
        go :
            (o : Option (Expr fp))
            → val (elim o [ none ↦ value (booleans_value true) | some e' ↦ e' ]) ≡ val_or_true o
        go none = refl
        go (some x) = refl

  -- What the predicate over the scan does with one more record, whose two conditions are known.
  run_step :
      (e : Expr fp) (down : Exprs fp) (t : Tuple) (ts : List Tuple) (b c : Bool)
      → passes t down ≡ ok b
      → val t e ≡ ok (booleans_value c)
      → scan_and_select fp find_cell other_value e down (t ∷ ts)
        ≡ prepend (b && c) t (scan_and_select fp find_cell other_value e down ts)
  unfolding scan_and_select scan_all select_all get_boolean
  run_step e down t ts b c h h' =
      rw (scan_all, h) (go b (scan_all fp find_cell other_value down ts))
    where
      go :
          (b : Bool) (rows : Result Rc (List Tuple))
          → (prepend b t rows >>= λ xs. select_all fp find_cell other_value e xs)
            ≡ prepend (b && c) t (rows >>= λ xs. select_all fp find_cell other_value e xs)
      go true (ok xs) = rw (select_all, h') refl
      go false (ok xs) = refl
      go true (fail rc) = failed c
        where
          failed : (c : Bool) → ◌≡◌ {A = Result Rc (List Tuple)} (fail rc) (prepend c t (fail rc))
          failed true = refl
          failed false = refl
      go false (fail rc) = refl

  scan_keeps_rows :
      (e : Expr fp) (records : List Tuple)
      → All (λ t. Answers t e) records
      → scan_and_select fp find_cell other_value
          (predicate_after fp e)
          (predicates_after fp e nil)
          records
        ≡ scan_and_select fp find_cell other_value e nil records
  unfolding predicates_after scan_and_select scan_all select_all filter
  scan_keeps_rows e [] h = refl
  scan_keeps_rows e (t ∷ ts) h =
      let p = pushed t e h.0 in
      run_step (predicate_after fp e) (predicates_after fp e nil) t ts p.b_down p.b_left
        (ap (passes t) (set_predicates_none t (get_exprs_can_pushdown fp e).1) ∙ p.is_down)
        (predicate_after-val t e ∙ p.is_left)
      ∙ ap (prepend (p.b_down && p.b_left) t) (scan_keeps_rows e ts h.1)
      ∙ sym (run_step e nil t ts true (p.b_down && p.b_left) refl p.is_whole)

  -- A condition over a table without conditions of its own, where the plans before and after the move
  -- select no index and so scan the table: after the move the query gives the same tuples in the same
  -- order, on records of which the condition and the parts of its `AND`s are true or false.
  pub pushdown_keeps_rows :
      (table : ScannedTable fp Tuple) (e : Expr fp) (records : List Tuple)
      → select_index fp table (predicates_after fp e nil) ≡ none
      → select_index fp table nil ≡ none
      → All (λ t. Answers t e) records
      → run fp find_cell other_value table
          (predicate_after fp e)
          (predicates_after fp e nil)
          records
        ≡ run fp find_cell other_value table e nil records
  unfolding run
  pushdown_keeps_rows table e records after before h =
      rw (run, after, before) (scan_keeps_rows e records h)
