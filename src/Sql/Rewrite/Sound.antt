-- ===== src/Sql/Rewrite/Sound.antt =====
-- The rewriting of expressions in src/observer/sql/optimizer keeps their values.
use landbase.Base.{
  ℕ, zero, suc, ◌≤◌, ◌<◌, ◌≡◌, ◌≢◌, refl, ap, sym, subst, ◌∙◌, ◌⊎◌, inl, inr, Bool, true, false,
  ◌||◌, Option, none, some, arith, if◌then◌else◌,
}
use landbase.Base.Result.{Result, ok, ◌>>=◌}
use landbase.Rc.{Rc}
use landbase.Sql.Value.{CompOp, Floats, Value, booleans_value, get_boolean, compare}
use landbase.Sql.Expr.{
  ConjunctionType, conj_and, conj_or, Expr, field, value, cast, comparison, conjunction, other,
  Exprs, nil, cons, try_get_value, decides, get_value, get_children, cast_value,
}
use landbase.Sql.Rewrite.{
  comparison_rule, kept, after_sweep, sweep, conjunction_rule, rewrite_children, rewrite_below,
  rewrite_expression,
}
use landbase.Sql.Rewrite.Safe.{
  depth, depth_children, KeepsFront, HasLeft, NotEmptied, IsSafe, AreSafe, vals-cons,
  sweep-KeepsFront, sweep-HasLeft,
}

module _ (fp : Floats) where
  module _ {Tuple : Type 0} (find_cell : Tuple → ℕ → Result Rc (Value fp))
      (other_value : Tuple → ℕ → Result Rc (Value fp)) (t : Tuple) where
    abbrev val : Expr fp → Result Rc (Value fp)
    val = get_value fp find_cell other_value t

    abbrev vals : ConjunctionType → Exprs fp → Result Rc (Value fp)
    vals = get_children fp find_cell other_value t

    -- What the conjunction rule makes of a conjunction: an expression of the same value, which is a
    -- constant, or a conjunction again, or is the end of the matter.
    abbrev Ruled : ConjunctionType → Exprs fp → Expr fp → Bool → Type 0
    Ruled ty es e c =
        (val e ≡ val (conjunction ty es))
        × ((c ≡ true)
            ⊎ (((v : Value fp) × (e ≡ value v))
                ⊎ ((es' : Exprs fp) × (e ≡ conjunction ty es')
                    × AreSafe fp find_cell other_value t es'
                    × (depth_children fp es' ≤ depth_children fp es))))

    one_child :
        (ty : ConjunctionType) (e : Expr fp) (b : Bool)
        → val e ≡ ok (booleans_value b)
        → val e ≡ vals ty (cons e nil)
    unfolding get_children get_boolean
    one_child conj_and e true h = rw h refl
    one_child conj_and e false h = rw h refl
    one_child conj_or e true h = rw h refl
    one_child conj_or e false h = rw h refl

    after_sweep-kept :
        (ty : ConjunctionType) (e : Expr fp) (es es' : Exprs fp)
        → NotEmptied fp ty (cons e es)
        → (HasLeft fp ty (cons e es) → es' ≢ nil)
        → vals ty es' ≡ vals ty (cons e es)
        → AreSafe fp find_cell other_value t es'
        → depth_children fp es' ≤ depth_children fp (cons e es)
        → Ruled ty (cons e es) (after_sweep fp ty (kept es')).0 (after_sweep fp ty (kept es')).1
    unfolding get_value depth
    after_sweep-kept ty e es (cons x (cons y ys)) ne left same safe less =
        (same, inr (inr (cons x (cons y ys), refl, safe, less)))
    after_sweep-kept ty e es (cons x nil) ne left same safe less =
        (one_child ty x safe.1.0 safe.1.1 ∙ same, inl refl)
    after_sweep-kept conj_and e es nil ne left same safe less =
        (same, inr (inr (nil, refl, tt, omega arith)))
    after_sweep-kept conj_or e es nil ne left same safe less = absurd (left ne refl)

    conjunction_rule_lem :
        (ty : ConjunctionType) (es : Exprs fp)
        → KeepsFront fp ty es
        → NotEmptied fp ty es
        → AreSafe fp find_cell other_value t es
        → Ruled ty es
            (conjunction_rule fp (conjunction ty es)).0
            (conjunction_rule fp (conjunction ty es)).1
    unfolding conjunction_rule sweep get_value
    conjunction_rule_lem ty nil front ne safe = (refl, inr (inr (nil, refl, tt, omega arith)))
    conjunction_rule_lem ty (cons e es) front ne safe =
        elim (sweep-KeepsFront fp find_cell other_value t ty (cons e es) front safe) [
          | inl (b, stops, same) ↦
              subst (λ r. Ruled ty (cons e es) (after_sweep fp ty r).0 (after_sweep fp ty r).1)
                (sym stops) (sym same, inr (inl (booleans_value b, refl)))
          | inr (es', swept, same, safe', less) ↦
              subst (λ r. Ruled ty (cons e es) (after_sweep fp ty r).0 (after_sweep fp ty r).1)
                (sym swept)
                (after_sweep-kept ty e es es' ne
                  (λ h nothing.
                    sweep-HasLeft fp find_cell other_value t ty none (cons e es) h
                      (swept ∙ ap kept nothing))
                  same safe' less)
        ]

    -- What the rewriting of an expression gives: an expression of the same value.
    abbrev pub Rewrites : Option (Expr fp × Bool) → Expr fp → Type 0
    Rewrites result e = (e' : Expr fp) × (c : Bool) × (result ≡ some (e', c)) × (val e' ≡ val e)

    rewrite_children_lem :
        (rewrite : Expr fp → Option (Expr fp × Bool)) (bound : ℕ)
        → ((e : Expr fp)
            → depth fp e < bound
            → IsSafe fp find_cell other_value t e
            → Rewrites (rewrite e) e)
        → (es : Exprs fp) → AreSafe fp find_cell other_value t es
        → depth_children fp es < bound
        → (es' : Exprs fp) × (c : Bool) × (rewrite_children fp rewrite es ≡ some (es', c))
          × ((ty : ConjunctionType) → vals ty es' ≡ vals ty es)
          × ((ty : ConjunctionType) → val (conjunction ty es') ≡ val (conjunction ty es))
    unfolding rewrite_children get_value get_children depth
    rewrite_children_lem rewrite bound each nil safe less =
        (nil, false, refl, λ ty. refl, λ ty. refl)
    rewrite_children_lem rewrite bound each (cons e es) safe less =
        let (e', c, done, same) = each e (omega arith) safe.0 in
        let (es', cs, done', sames, conj) =
          rewrite_children_lem rewrite bound each es safe.2 (omega arith) in
        let both : (ty : ConjunctionType) → vals ty (cons e' es') ≡ vals ty (cons e es) = λ ty.
          ap
            (λ r. r >>= λ v.
              if decides ty (get_boolean fp v)
              then ok (booleans_value (get_boolean fp v))
              else vals ty es')
            same
          ∙ vals-cons fp find_cell other_value t ty e es es' (sames ty) in
        (cons e' es', c || cs, rw (rewrite_children, done, done') refl, both, both)

    comparison_rule_lem :
        (op : CompOp) (l r : Expr fp)
        → ((v : Value fp) × (comparison_rule fp (comparison op l r) ≡ (value v, true))
            × (val (comparison op l r) ≡ ok v))
          ⊎ (comparison_rule fp (comparison op l r) ≡ (comparison op l r, false))
    unfolding comparison_rule try_get_value get_value
    comparison_rule_lem op (value v) (value w) =
        inl (booleans_value (compare fp op v w).0, refl, refl)
    comparison_rule_lem op l r = inr refl

    -- The second part of `rewrite_expression`, on what the conjunction rule gave.
    rest_of : ℕ → Expr fp × Bool → Option (Expr fp × Bool)
    rest_of fuel (e, c) = elim c [
      | true ↦ some (e, true)
      | false ↦ rewrite_below fp (rewrite_expression fp fuel) e
    ]

    rewrite_conjunction :
        (fuel bound : ℕ) (ty : ConjunctionType) (es : Exprs fp) (e : Expr fp) (c : Bool)
        → ((x : Expr fp)
            → depth fp x < bound
            → IsSafe fp find_cell other_value t x
            → Rewrites (rewrite_expression fp fuel x) x)
        → depth_children fp es < bound
        → Ruled ty es e c
        → Rewrites (rest_of fuel (e, c)) (conjunction ty es)
    unfolding rest_of rewrite_below
    rewrite_conjunction fuel bound ty es e true each less (same, kind) = (e, true, refl, same)
    rewrite_conjunction fuel bound ty es e false each less (same, inl changed) = cc changed
    rewrite_conjunction fuel bound ty es e false each less (same, inr (inl (v, is_v))) =
        (e, false, rw is_v refl, same)
    rewrite_conjunction fuel bound ty es e false each less
          (same, inr (inr (es', is_c, safe, smaller))) =
        let (es2, c2, done, sames, conj) =
          rewrite_children_lem (rewrite_expression fp fuel) bound each es' safe (omega arith) in
        (
          conjunction ty es2,
          c2,
          rw (is_c, rewrite_below, done) refl,
          conj ty ∙ ap val (sym is_c) ∙ same,
        )

    -- Rewriting an expression ends, with fuel for its depth, and keeps its value on every tuple on which
    -- the children of its conjunctions are true or false, provided that no constant that decides a
    -- conjunction stands behind another child, and no `OR` consists of the constant false alone.
    pub rewrite_expression_lem :
        (fuel : ℕ) (e : Expr fp)
        → depth fp e < fuel
        → IsSafe fp find_cell other_value t e
        → Rewrites (rewrite_expression fp fuel e) e
    unfolding rewrite_expression comparison_rule conjunction_rule rewrite_below depth get_value
        rest_of
    rewrite_expression_lem zero e less safe = absurd (omega arith)
    rewrite_expression_lem (suc fuel) (field i) less safe = (field i, false, refl, refl)
    rewrite_expression_lem (suc fuel) (value v) less safe = (value v, false, refl, refl)
    rewrite_expression_lem (suc fuel) (other k) less safe = (other k, false, refl, refl)
    rewrite_expression_lem (suc fuel) (cast target e) less safe =
        let (e', c, done, same) = rewrite_expression_lem fuel e (omega arith) safe in
        (cast target e', c, rw done refl, ap (λ r. r >>= cast_value fp target) same)
    rewrite_expression_lem (suc fuel) (comparison op l r) less safe =
        elim (comparison_rule_lem op l r) [
          | inl (v, rule, same) ↦
              (value v, true, rw (rewrite_expression, rule) (rw rule refl), sym same)
          | inr rule ↦
              let (l', cl, done_l, same_l) = rewrite_expression_lem fuel l (omega arith) safe.0 in
              let (r', cr, done_r, same_r) = rewrite_expression_lem fuel r (omega arith) safe.1 in
              (
                comparison op l' r',
                cl || cr,
                rw (rewrite_expression, rule) (rw (rule, rewrite_below, done_l, done_r) refl),
                rw (get_value, same_l, same_r) refl,
              )
        ]
    rewrite_expression_lem (suc fuel) (conjunction ty es) less safe =
        rewrite_conjunction fuel fuel ty es (conjunction_rule fp (conjunction ty es)).0
          (conjunction_rule fp (conjunction ty es)).1
          (λ x x_less x_safe. rewrite_expression_lem fuel x x_less x_safe) (omega arith)
          (conjunction_rule_lem ty es safe.0 safe.1 safe.2)
