-- ===== src/Mvcc/Effects.antt =====
-- What `commit_with_trx_id` and `rollback` of src/observer/storage/trx/mvcc_trx.cpp do to the rows.
use landbase.Base.{
  ◌≡◌, refl, sym, ◌∙◌, ◌⊎◌, inl, inr, Bool, true, false, Option, none, some, List, [], ◌∷◌, arith,
  if◌then◌else◌, Bool-cases,
}
use mathlib.Core.Bool.{false≢true}
use landbase.Base.Int.{ℤ, neg, eqb_ℤ, eqb_ℤ_self}
use landbase.Mvcc.Rows.{Row, RowId, same_id, same_id-eq, same_id_self, same_id_comm, Store, set_row}
use landbase.Mvcc.Trx.{
  OperationType, insert, update, delete, undefined, Operation, has_operation, set_begin, set_end,
  update_held, held_begin, held_end, commit_operation, commit_operations,
}

-- The operation that a transaction recorded for a row.
unfoldable pub lookup_operation : RowId → List Operation → Option OperationType
lookup_operation i [] = none
lookup_operation i (op ∷ ops) = if same_id op.id i then some op.type else lookup_operation i ops

-- A row is as an operation of transaction `id` left it: the commit's and the rollback's ASSERTs hold.
abbrev pub IsHeld : ℤ → OperationType → Option Row → Type 0
IsHeld id insert none = ⊥
IsHeld id insert (some r) = r.begin_xid ≡ neg id
IsHeld id delete none = ⊥
IsHeld id delete (some r) = r.end_xid ≡ neg id
IsHeld id update r = ⊥
IsHeld id undefined r = ⊥

-- The recorded operations are on different rows, and a predicate holds of each.
abbrev pub AllOperations : (OperationType → RowId → Type 0) → List Operation → Type 0
AllOperations P [] = Unit {0}
AllOperations P (op ∷ ops) =
    (has_operation op.id ops ≡ false) × P op.type op.id × AllOperations P ops

-- The recorded operations are on different rows.
abbrev pub IsDistinct : List Operation → Type 0
IsDistinct [] = Unit {0}
IsDistinct (op ∷ ops) = (has_operation op.id ops ≡ false) × IsDistinct ops

-- The recorded operations are on different rows, each held.
abbrev pub AllHeld : ℤ → List Operation → Store → Type 0
AllHeld id ops s = AllOperations (λ t i. IsHeld id t (s.row i)) ops

-- What a commit makes of a row with such an operation.
abbrev pub committed_row : ℤ → Option OperationType → Option Row → Option Row
committed_row c none r = r
committed_row c (some insert) none = none
committed_row c (some insert) (some r) = some (set_begin c r)
committed_row c (some delete) none = none
committed_row c (some delete) (some r) = some (set_end c r)
committed_row c (some update) r = r
committed_row c (some undefined) r = r

pub lookup_operation-none :
    (i : RowId) (ops : List Operation) → has_operation i ops ≡ false → lookup_operation i ops ≡ none
unfolding lookup_operation has_operation
lookup_operation-none i [] h = refl
lookup_operation-none i (op ∷ ops) h =
    ground (arith, same_id_comm i op.id, lookup_operation-none i ops)

lookup_later :
    (i : RowId) (t : OperationType) (op : Operation) (ops : List Operation)
    → has_operation op.id ops ≡ false
    → lookup_operation i ops ≡ some t
    → lookup_operation i (op ∷ ops) ≡ some t
unfolding lookup_operation
lookup_later i t op ops h e = elim (Bool-cases (same_id op.id i)) [
  | inl same ↦
      absurd
        (none_not_some (sym (lookup_operation-none i ops (rw (same_id-eq op.id i same) at h)) ∙ e))
  | inr other ↦ rw other e
]
  where
    none_not_some : none ≡ some t → ⊥
    none_not_some p = cc p

-- A predicate that holds wherever a lookup finds an operation holds of all operations.
pub AllOperations-of_lookup :
    (P : OperationType → RowId → Type 0) (ops : List Operation)
    → IsDistinct ops
    → ((i : RowId) (t : OperationType) → lookup_operation i ops ≡ some t → P t i)
    → AllOperations P ops
unfolding lookup_operation
AllOperations-of_lookup P [] d f = tt
AllOperations-of_lookup P (op ∷ ops) d f = (
  d.0,
  f op.id op.type (rw same_id_self),
  AllOperations-of_lookup P ops d.1 (λ i t e. f i t (lookup_later i t op ops d.0 e)),
)

-- A change of one row leaves the others held.
AllHeld-set_row :
    (id : ℤ) (ops : List Operation) (s : Store) (i : RowId) (r : Option Row)
    → has_operation i ops ≡ false
    → AllHeld id ops s
    → AllHeld id ops (set_row s i r)
unfolding has_operation
AllHeld-set_row id [] s i r h a = tt
AllHeld-set_row id (op ∷ ops) s i r h a = elim (Bool-cases (same_id i op.id)) [
  | inl e ↦ absurd (false≢true (sym (rw e at h)))
  | inr e ↦ (a.0, rw e a.1, AllHeld-set_row id ops s i r (rw e at h) a.2)
]

pub update_held_lem :
    (holds : Row → Bool) (updater : Row → Row) (s : Store) (i : RowId) (r : Row)
    → s.row i ≡ some r
    → holds r ≡ true
    → update_held holds updater s i ≡ some (set_row s i (some (updater r)))
unfolding update_held
update_held_lem holds updater s i r e h = rw (e, update_held) (rw h)

commit_operation_lem :
    (id c : ℤ) (op : Operation) (s : Store)
    → IsHeld id op.type (s.row op.id)
    → commit_operation id c op s
      ≡ some (set_row s op.id (committed_row c (some op.type) (s.row op.id)))
unfolding commit_operation
commit_operation_lem id c op s h = go op.type (s.row op.id) refl refl h
  where
    go :
        (t : OperationType) (r : Option Row)
        → op.type ≡ t
        → s.row op.id ≡ r
        → IsHeld id t r
        → commit_operation id c op s
          ≡ some (set_row s op.id (committed_row c (some op.type) (s.row op.id)))
    go insert (some r) et er held =
        let t : eqb_ℤ r.begin_xid (neg id) ≡ true = rw held (eqb_ℤ_self (neg id)) in
        simp (commit_operation, et, er)
          (update_held_lem (held_begin id) (set_begin c) s op.id r er t)
    go insert none et er held = absurd held
    go delete (some r) et er held =
        let t : eqb_ℤ r.end_xid (neg id) ≡ true = rw held (eqb_ℤ_self (neg id)) in
        simp (commit_operation, et, er) (update_held_lem (held_end id) (set_end c) s op.id r er t)
    go delete none et er held = absurd held
    go update r et er held = absurd held
    go undefined r et er held = absurd held

-- A commit of held rows meets no failed ASSERT. It changes each row that the transaction inserted or
-- deleted as its operation says, by the commit number, and leaves every other row as it was.
pub commit_operations_lem :
    (id c : ℤ) (ops : List Operation) (s : Store)
    → AllHeld id ops s
    → (s' : Store) × (commit_operations id c ops s ≡ some s')
      × ((i : RowId) → s'.row i ≡ committed_row c (lookup_operation i ops) (s.row i))
unfolding commit_operations lookup_operation
commit_operations_lem id c [] s a = (s, refl, λ i. refl)
commit_operations_lem id c (op ∷ ops) s a =
    let mid = set_row s op.id (committed_row c (some op.type) (s.row op.id)) in
    let (s', done, rows) =
      commit_operations_lem id c ops mid (AllHeld-set_row id ops s op.id _ a.0 a.2) in
    (
      s',
      rw (commit_operation_lem id c op s a.1, commit_operations) done,
      λ i. rows i ∙ first i (Bool-cases (same_id op.id i)),
    )
  where
    first :
        (i : RowId)
        → (same_id op.id i ≡ true) ⊎ (same_id op.id i ≡ false)
        → committed_row c
            (lookup_operation i ops)
            (if same_id op.id i then committed_row c (some op.type) (s.row op.id) else s.row i)
          ≡ committed_row c
              (if same_id op.id i then some op.type else lookup_operation i ops)
              (s.row i)
    first i (inl e) =
        let same = same_id-eq op.id i e in
        let other : lookup_operation i ops ≡ none = lookup_operation-none i ops (rw same at a.0) in
        rw (e, other, same)
    first i (inr e) = rw e
