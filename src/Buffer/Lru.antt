-- ===== src/Buffer/Lru.antt =====
-- `LruCache` of deps/common/lang/lru_cache.h. The linked list is the list of its keys, from
-- `lru_front_` along `next_`; `searcher_` is a function from keys to the values of the nodes.
use mathlib.Core.Option.{some-injective, none-ne-some}
use landbase.Base.{
  ◌≡◌, refl, Bool, true, false, Option, none, some, List, [], ◌∷◌, if◌then◌else◌, Bool-cases,
  Option-cases, inl, inr, ◌||◌, ap, sym, subst, ◌∙◌,
}

pub record Lru (K V : Type 0) : Type 0 where
  pub order : List K
  pub nodes : K → Option V

-- `pred_`
pub record Equality (K : Type 0) : Type 0 where
  pub same : K → K → Bool
  pub same-eq : (a b : K) → same a b ≡ true → a ≡ b
  pub same-refl : (a : K) → same a a ≡ true

-- The list without a node.
unfoldable pub unlink : {K : Type 0} → Equality K → K → List K → List K
unlink eq k [] = []
unlink eq k (j ∷ rest) = let rest' = unlink eq k rest in if eq.same k j then rest' else j ∷ rest'

-- Is there a node for the key in the list?
abbrev pub is_listed : {K : Type 0} → Equality K → K → List K → Bool
is_listed eq k [] = false
is_listed eq k (j ∷ rest) = eq.same j k || is_listed eq k rest

pub is_listed-unlink :
    {K : Type 0} (eq : Equality K) (k j : K) (order : List K)
    → eq.same k j ≡ false
    → is_listed eq j (unlink eq k order) ≡ is_listed eq j order
unfolding unlink
is_listed-unlink eq k j [] ne = refl
is_listed-unlink eq k j (i ∷ rest) ne = elim (Bool-cases (eq.same k i)) [
  | inl e ↦
      let apart : eq.same i j ≡ false = ap (λ x. eq.same x j) (sym (eq.same-eq k i e)) ∙ ne in
      rw (e, apart) (is_listed-unlink eq k j rest ne)
  | inr other ↦ rw (other, is_listed-unlink eq k j rest ne) refl
]

module _ {K V : Type 0} (eq : Equality K) where
  unfoldable pub store : (K → Option V) → K → Option V → K → Option V
  store nodes k v j = if eq.same k j then v else nodes j

  unfoldable pub lru_touch : K → Lru K V → Lru K V
  lru_touch k c = record c { order = k ∷ unlink eq k c.order }

  unfoldable pub get : K → Lru K V → Lru K V × Option V
  get k c = elim (c.nodes k) [ none ↦ (c, none) | some v ↦ (lru_touch k c, some v) ]

  unfoldable pub put : K → V → Lru K V → Lru K V
  put k v c = elim (c.nodes k) [
    | some w ↦ lru_touch k (record c { nodes = store c.nodes k (some v) })
    | none ↦ record { order = k ∷ c.order; nodes = store c.nodes k (some v) }
  ]

  unfoldable pub remove : K → Lru K V → Lru K V
  remove k c = elim (c.nodes k) [
    | none ↦ c
    | some w ↦ record { order = unlink eq k c.order; nodes = store c.nodes k none }
  ]

  -- A value that is changed through a pointer to it.
  unfoldable pub assign : K → V → Lru K V → Lru K V
  assign k v c = record c { nodes = store c.nodes k (some v) }

  -- `foreach_reverse`, with a function that stops at the first value that passes the test.
  unfoldable pub last_where : (V → Bool) → (K → Option V) → List K → Option K
  last_where p nodes [] = none
  last_where p nodes (k ∷ rest) = elim (last_where p nodes rest) [
    | some j ↦ some j
    | none ↦ elim (nodes k) [ none ↦ none | some v ↦ if p v then some k else none ]
  ]

  pub get_hit :
      (k : K) (c : Lru K V) (v : V) → c.nodes k ≡ some v → get k c ≡ (lru_touch k c, some v)
  unfolding get
  get_hit k c v e = rw (get, e) refl

  pub get_miss : (k : K) (c : Lru K V) → c.nodes k ≡ none → get k c ≡ (c, none)
  unfolding get
  get_miss k c e = rw (get, e) refl

  pub remove_hit :
      (k : K) (c : Lru K V) (v : V)
      → c.nodes k ≡ some v
      → remove k c ≡ record { order = unlink eq k c.order; nodes = store c.nodes k none }
  unfolding remove
  remove_hit k c v e = rw (remove, e) refl

  pub put_new :
      (k : K) (v : V) (c : Lru K V)
      → c.nodes k ≡ none
      → put k v c ≡ record { order = k ∷ c.order; nodes = store c.nodes k (some v) }
  unfolding put
  put_new k v c e = rw (put, e) refl

  pub store-store :
      (nodes : K → Option V) (k : K) (v w : Option V) (j : K)
      → store (store nodes k v) k w j ≡ (if eq.same k j then w else nodes j)
  unfolding store
  store-store nodes k v w j = elim (Bool-cases (eq.same k j)) [
    | inl e ↦ rw (store, e) refl
    | inr ne ↦ rw (store, store, ne) refl
  ]

  pub last_where-at :
      (p : V → Bool) (nodes : K → Option V) (order : List K) (k : K)
      → last_where p nodes order ≡ some k
      → (v : V) × (nodes k ≡ some v) × (p v ≡ true)
  unfolding last_where
  last_where-at p nodes [] k e = absurd (none-ne-some k e)
  last_where-at p nodes (j ∷ rest) k e = elim (Option-cases (last_where p nodes rest)) [
    | inr (i, found) ↦ last_where-at p nodes rest k (found ∙ (rw found at e))
    | inl below ↦ elim (Option-cases (nodes j)) [
      | inl gone ↦ absurd (none-ne-some k (rw (below, gone) at e))
      | inr (v, here) ↦ elim (Bool-cases (p v)) [
        | inl passes ↦
            let same : j ≡ k = some-injective j k (rw (below, here, passes) at e) in
            (v, subst (λ x. nodes x ≡ some v) same here, passes)
        | inr fails ↦ absurd (none-ne-some k (rw (below, here, fails) at e))
      ]
    ]
  ]

  -- A value that passes the test is found, that one or another.
  pub last_where_finds :
      (p : V → Bool) (nodes : K → Option V) (order : List K) (k : K) (v : V)
      → is_listed eq k order ≡ true
      → nodes k ≡ some v
      → p v ≡ true
      → (j : K) × (last_where p nodes order ≡ some j)
  unfolding last_where
  last_where_finds p nodes [] k v l e h = absurd (cc l)
  last_where_finds p nodes (j ∷ rest) k v l e h = elim (Option-cases (last_where p nodes rest)) [
    | inr (i, found) ↦ (i, rw found refl)
    | inl below ↦ elim (Bool-cases (eq.same j k)) [
      | inl same ↦ (j, rw (below, ap nodes (eq.same-eq j k same) ∙ e, h) refl)
      | inr ne ↦
          let (i, found) = last_where_finds p nodes rest k v (rw ne at l) e h in
          absurd (none-ne-some i (sym below ∙ found))
    ]
  ]
