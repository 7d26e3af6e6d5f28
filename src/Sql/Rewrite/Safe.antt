-- ===== src/Sql/Rewrite/Safe.antt =====
-- The expressions whose rewriting in src/observer/sql/optimizer keeps their values, and what the loop
-- of `ConjunctionSimplificationRule` does to the children of a conjunction.
use landbase.Base.{
  ℕ, suc, ◌+◌, ◌≤◌, ◌≡◌, ◌≢◌, refl, ap, sym, ◌∙◌, ◌⊎◌, inl, inr, Bool, true, false, Bool-cases,
  Option, none, some, Option-cases, arith, if◌then◌else◌,
}
use landbase.Base.Result.{Result, ok, ◌>>=◌}
use landbase.Rc.{Rc}
use landbase.Sql.Value.{Floats, Value, booleans_value, get_boolean}
use landbase.Sql.Expr.{
  ConjunctionType, conj_and, conj_or, Expr, field, value, cast, comparison, conjunction, other,
  Exprs, nil, cons, decides, get_value, get_children,
}
use landbase.Sql.Rewrite.{try_to_get_bool_constant, Sweep, stopped, kept, keep, front_or, sweep}

module _ (fp : Floats) where
  -- How deep an expression is: the fuel that its rewriting takes.
  unfoldable mutual
    pub depth : Expr fp → ℕ
    depth (field i) = 0
    depth (value v) = 0
    depth (cast target e) = suc (depth e)
    depth (comparison op l r) = suc (depth l + depth r)
    depth (conjunction ty es) = suc (depth_children es)
    depth (other k) = 0

    pub depth_children : Exprs fp → ℕ
    depth_children nil = 0
    depth_children (cons e es) = depth e + depth_children es

  -- No child is a constant that decides the conjunction.
  abbrev pub Undecided : ConjunctionType → Exprs fp → Type 0
  Undecided ty nil = Unit {0}
  Undecided ty (cons e es) = elim (try_to_get_bool_constant fp e) [
    | none ↦ Undecided ty es
    | some b ↦ (decides ty b ≡ false) × Undecided ty es
  ]

  -- No constant that decides the conjunction stands behind a child that is not a constant.
  abbrev pub KeepsFront : ConjunctionType → Exprs fp → Type 0
  KeepsFront ty nil = Unit {0}
  KeepsFront ty (cons e es) = elim (try_to_get_bool_constant fp e) [
    | none ↦ Undecided ty es
    | some b ↦ elim (decides ty b) [ true ↦ Unit {0} | false ↦ KeepsFront ty es ]
  ]

  -- Some child is not a constant that the conjunction does without.
  abbrev pub HasLeft : ConjunctionType → Exprs fp → Type 0
  HasLeft ty nil = ⊥
  HasLeft ty (cons e es) = elim (try_to_get_bool_constant fp e) [
    | none ↦ Unit {0}
    | some b ↦ elim (decides ty b) [ true ↦ Unit {0} | false ↦ HasLeft ty es ]
  ]

  -- An `OR` that has children does not lose all of them.
  abbrev pub NotEmptied : ConjunctionType → Exprs fp → Type 0
  NotEmptied conj_and es = Unit {0}
  NotEmptied conj_or nil = Unit {0}
  NotEmptied conj_or (cons e es) = HasLeft conj_or (cons e es)

  module _ {Tuple : Type 0} (find_cell : Tuple → ℕ → Result Rc (Value fp))
      (other_value : Tuple → ℕ → Result Rc (Value fp)) (t : Tuple) where
    abbrev pub val : Expr fp → Result Rc (Value fp)
    val = get_value fp find_cell other_value t

    abbrev pub vals : ConjunctionType → Exprs fp → Result Rc (Value fp)
    vals = get_children fp find_cell other_value t

    -- An expression whose rewriting keeps its value: the children of its conjunctions have a truth
    -- value, and the conjunctions are of the two kinds above.
    abbrev mutual
      pub IsSafe : Expr fp → Type 0
      IsSafe (cast target e) = IsSafe e
      IsSafe (comparison op l r) = IsSafe l × IsSafe r
      IsSafe (conjunction ty es) = KeepsFront ty es × NotEmptied ty es × AreSafe es
      IsSafe e = Unit {0}

      pub AreSafe : Exprs fp → Type 0
      AreSafe nil = Unit {0}
      AreSafe (cons e es) = IsSafe e × ((b : Bool) × (val e ≡ ok (booleans_value b))) × AreSafe es

    try_to_get_bool_constant-value :
        (e : Expr fp) (b : Bool)
        → try_to_get_bool_constant fp e ≡ some b
        → e ≡ value (booleans_value b)
    unfolding try_to_get_bool_constant get_boolean
    try_to_get_bool_constant-value (value (booleans_value c)) b h = cc h
    try_to_get_bool_constant-value e b h = cc h

    -- A constant that does not decide the conjunction can be left out.
    pub vals-neutral :
        (ty : ConjunctionType) (b : Bool) (es : Exprs fp)
        → decides ty b ≡ false
        → vals ty (cons (value (booleans_value b)) es) ≡ vals ty es
    unfolding get_value get_children get_boolean
    vals-neutral ty b es h = rw h refl

    pub vals-cons :
        (ty : ConjunctionType) (e : Expr fp) (es es' : Exprs fp)
        → vals ty es' ≡ vals ty es
        → vals ty (cons e es') ≡ vals ty (cons e es)
    unfolding get_children
    vals-cons ty e es es' h =
        ap
          (λ r. val e >>= λ v.
            if decides ty (get_boolean fp v) then ok (booleans_value (get_boolean fp v)) else r)
          h

    -- What a sweep leaves of the children, when it goes through all of them.
    abbrev pub Leaves : ConjunctionType → Sweep fp → Exprs fp → Type 0
    Leaves ty result es =
        (es' : Exprs fp) × (result ≡ kept es')
        × (vals ty es' ≡ vals ty es)
        × AreSafe es'
        × (depth_children es' ≤ depth_children es)

    sweep-Undecided :
        (ty : ConjunctionType) (front : Option (Expr fp)) (es : Exprs fp)
        → Undecided ty es
        → AreSafe es
        → Leaves ty (sweep fp ty front es) es
    unfolding sweep depth
    sweep-Undecided ty front nil h safe = (nil, refl, refl, tt, omega arith)
    sweep-Undecided ty front (cons e es) h safe =
        elim (Option-cases (try_to_get_bool_constant fp e)) [
          | inl none_e ↦
              let (es', swept, same, safe', less) =
                sweep-Undecided ty (some (front_or fp front e)) es (rw (Undecided, none_e) at h)
                  safe.2 in
              (
                cons e es',
                rw (sweep, none_e, swept) refl,
                vals-cons ty e es es' same,
                (safe.0, safe.1, safe'),
                omega (arith, less),
              )
          | inr (b, some_e) ↦
              let (dec, h') = rw (Undecided, some_e) at h in
              let (es', swept, same, safe', less) = sweep-Undecided ty front es h' safe.2 in
              (
                es',
                rw (sweep, some_e, dec) swept,
                same
                    ∙ sym (
                        ap (λ x. vals ty (cons x es)) (try_to_get_bool_constant-value e b some_e)
                        ∙ vals-neutral ty b es dec),
                safe',
                omega (arith, less),
              )
        ]

    -- A sweep that stops does so at a constant, which has the value of the conjunction.
    abbrev pub Stops : ConjunctionType → Sweep fp → Exprs fp → Type 0
    Stops ty result es =
        (b : Bool) × (result ≡ stopped (value (booleans_value b)))
        × (vals ty es ≡ ok (booleans_value b))

    vals-decided :
        (ty : ConjunctionType) (b : Bool) (es : Exprs fp)
        → decides ty b ≡ true
        → vals ty (cons (value (booleans_value b)) es) ≡ ok (booleans_value b)
    unfolding get_value get_children get_boolean
    vals-decided ty b es h = rw h refl

    pub sweep-KeepsFront :
        (ty : ConjunctionType) (es : Exprs fp)
        → KeepsFront ty es
        → AreSafe es
        → Stops ty (sweep fp ty none es) es ⊎ Leaves ty (sweep fp ty none es) es
    unfolding sweep depth
    sweep-KeepsFront ty nil h safe = inr (nil, refl, refl, tt, omega arith)
    sweep-KeepsFront ty (cons e es) h safe = elim (Option-cases (try_to_get_bool_constant fp e)) [
      | inl none_e ↦
          let (es', swept, same, safe', less) =
            sweep-Undecided ty (some e) es (rw (KeepsFront, none_e) at h) safe.2 in
          inr (
            cons e es',
            rw (sweep, none_e, swept) refl,
            vals-cons ty e es es' same,
            (safe.0, safe.1, safe'),
            omega (arith, less),
          )
      | inr (b, some_e) ↦
          let is_b = try_to_get_bool_constant-value e b some_e in
          let head_is = ap (λ x. vals ty (cons x es)) is_b in
          elim (Bool-cases (decides ty b)) [
            | inl dec ↦
                inl
                  (b, rw (sweep, some_e, dec) (ap stopped is_b), head_is ∙ vals-decided ty b es dec)
            | inr dec ↦ elim (sweep-KeepsFront ty es (rw (KeepsFront, some_e, dec) at h) safe.2) [
              | inl (b', stops, same) ↦
                  inl (b', rw (sweep, some_e, dec) stops, head_is ∙ vals-neutral ty b es dec ∙ same)
              | inr (es', swept, same, safe', less) ↦ inr (
                es',
                rw (sweep, some_e, dec) swept,
                same ∙ sym (head_is ∙ vals-neutral ty b es dec),
                safe',
                omega (arith, less),
              )
            ]
          ]
    ]

    not_emptied : (e : Expr fp) (result : Sweep fp) → keep fp e result ≢ kept nil
    not_emptied e (stopped e') h = cc h
    not_emptied e (kept es) h = cc h

    -- What a sweep of the children leaves is not empty, unless they were.
    pub sweep-HasLeft :
        (ty : ConjunctionType) (front : Option (Expr fp)) (es : Exprs fp)
        → HasLeft ty es
        → sweep fp ty front es ≢ kept nil
    unfolding sweep
    sweep-HasLeft ty front nil h e = h
    sweep-HasLeft ty front (cons x es) h e = elim (Option-cases (try_to_get_bool_constant fp x)) [
      | inl none_x ↦
          not_emptied x (sweep fp ty (some (front_or fp front x)) es) (rw (sweep, none_x) at e)
      | inr (b, some_x) ↦ elim (Bool-cases (decides ty b)) [
        | inl dec ↦ cc (rw (sweep, some_x, dec) at e)
        | inr dec ↦
            sweep-HasLeft ty front es (rw (HasLeft, some_x, dec) at h)
              (rw (sweep, some_x, dec) at e)
      ]
    ]
