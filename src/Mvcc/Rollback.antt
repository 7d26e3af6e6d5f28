-- ===== src/Mvcc/Rollback.antt =====
-- What `rollback` of src/observer/storage/trx/mvcc_trx.cpp does to the rows.
use mathlib.Core.Bool.{false≢true}
use landbase.Base.{
  ◌≡◌, refl, sym, ap, ◌∙◌, ◌⊎◌, inl, inr, Bool, true, false, not, ◌&&◌, Option, none, some, List,
  [], ◌∷◌, if◌then◌else◌, Bool-cases,
}
use landbase.Base.Int.{ℤ, neg, eqb_ℤ, eqb_ℤ_self}
use landbase.Rc.{ob_succ}
use landbase.Mvcc.Rows.{
  Row, RowId, same_id, same_id-eq, Store, set_row, set_indexed, Tables, delete_row,
  delete_entry_of_indexes,
}
use landbase.Mvcc.Effects.{lookup_operation, lookup_operation-none, update_held_lem, AllOperations}
use landbase.Mvcc.Trx.{
  OperationType, insert, update, delete, undefined, Operation, has_operation, set_end, max_trx_id,
  held_end, rollback_operation, rollback_operations,
}

-- What a rollback makes of a row with such an operation.
abbrev pub restored_row : Option OperationType → Option Row → Option Row
restored_row none r = r
restored_row (some insert) r = none
restored_row (some delete) none = none
restored_row (some delete) (some r) = some (set_end max_trx_id r)
restored_row (some update) r = r
restored_row (some undefined) r = r

module _ (tables : Tables) where
  -- Does a row lack the entries that the indexes of its table should hold?
  abbrev pub lacks_entries : Store → RowId → Bool
  lacks_entries s i = tables.has_index i.table_id && not (s.indexed i)

  -- The ASSERTs of the rollback hold for a row with such an operation.
  abbrev pub IsUndoable : ℤ → OperationType → Option Row → Bool → Type 0
  IsUndoable id insert none lacks = ⊥
  IsUndoable id insert (some r) lacks = lacks ≡ false
  IsUndoable id delete none lacks = ⊥
  IsUndoable id delete (some r) lacks = r.end_xid ≡ neg id
  IsUndoable id update r lacks = ⊥
  IsUndoable id undefined r lacks = ⊥

  abbrev pub AllUndoable : ℤ → List Operation → Store → Type 0
  AllUndoable id ops s = AllOperations (λ t i. IsUndoable id t (s.row i) (lacks_entries s i)) ops

  -- The store after one round.
  abbrev undone : OperationType → Store → RowId → Store
  undone insert s i = set_row (set_indexed s i false) i none
  undone delete s i = set_row s i (restored_row (some delete) (s.row i))
  undone update s i = s
  undone undefined s i = s

  AllUndoable-undone :
      (id : ℤ) (ops : List Operation) (t : OperationType) (s : Store) (i : RowId)
      → has_operation i ops ≡ false
      → AllUndoable id ops s
      → AllUndoable id ops (undone t s i)
  unfolding has_operation
  AllUndoable-undone id [] t s i h a = tt
  AllUndoable-undone id (op ∷ ops) t s i h a = elim (Bool-cases (same_id i op.id)) [
    | inl e ↦ absurd (false≢true (sym (rw e at h)))
    | inr e ↦ (a.0, kept t e, AllUndoable-undone id ops t s i (rw e at h) a.2)
  ]
    where
      kept :
          (t : OperationType)
          → same_id i op.id ≡ false
          → IsUndoable id op.type ((undone t s i).row op.id) (lacks_entries (undone t s i) op.id)
      kept insert e = rw e a.1
      kept delete e = rw e a.1
      kept update e = a.1
      kept undefined e = a.1

  rollback_operation_lem :
      (id : ℤ) (op : Operation) (s : Store)
      → IsUndoable id op.type (s.row op.id) (lacks_entries s op.id)
      → rollback_operation tables id op s ≡ some (undone op.type s op.id)
  unfolding rollback_operation delete_row delete_entry_of_indexes ob_succ
  rollback_operation_lem id op s h = go op.type (s.row op.id) refl refl h
    where
      go :
          (t : OperationType) (r : Option Row)
          → op.type ≡ t
          → s.row op.id ≡ r
          → IsUndoable id t r (lacks_entries s op.id)
          → rollback_operation tables id op s ≡ some (undone op.type s op.id)
      go insert (some r) et er held = simp (rollback_operation, et, er, held)
      go insert none et er held = absurd held
      go delete (some r) et er held =
          let t : eqb_ℤ r.end_xid (neg id) ≡ true = rw held (eqb_ℤ_self (neg id)) in
          simp (rollback_operation, et, er)
            (update_held_lem (held_end id) (set_end max_trx_id) s op.id r er t)
      go delete none et er held = absurd held
      go update r et er held = absurd held
      go undefined r et er held = absurd held

  unchanged :
      (s : Store) (i j : RowId)
      → (same_id i j ≡ true) ⊎ (same_id i j ≡ false)
      → s.row j ≡ (if same_id i j then s.row i else s.row j)
  unchanged s i j (inl e) = rw (e, same_id-eq i j e)
  unchanged s i j (inr e) = rw e

  undone-rows :
      (t : OperationType) (s : Store) (i j : RowId)
      → (undone t s i).row j ≡ (if same_id i j then restored_row (some t) (s.row i) else s.row j)
  undone-rows insert s i j = refl
  undone-rows delete s i j = refl
  undone-rows update s i j = unchanged s i j (Bool-cases (same_id i j))
  undone-rows undefined s i j = unchanged s i j (Bool-cases (same_id i j))

  -- A rollback of undoable operations meets no failed ASSERT. It removes each row that the
  -- transaction inserted, takes the mark off each row that it deleted, and leaves every other row
  -- as it was.
  pub rollback_operations_lem :
      (id : ℤ) (ops : List Operation) (s : Store)
      → AllUndoable id ops s
      → (s' : Store) × (rollback_operations tables id ops s ≡ some s')
        × ((i : RowId) → s'.row i ≡ restored_row (lookup_operation i ops) (s.row i))
  unfolding rollback_operations lookup_operation
  rollback_operations_lem id [] s a = (s, refl, λ i. refl)
  rollback_operations_lem id (op ∷ ops) s a =
      let mid = undone op.type s op.id in
      let (s', done, rows) =
        rollback_operations_lem id ops mid (AllUndoable-undone id ops op.type s op.id a.0 a.2) in
      (
        s',
        rw (rollback_operation_lem id op s a.1, rollback_operations) done,
        λ i.
            rows i
            ∙ ap (restored_row (lookup_operation i ops)) (undone-rows op.type s op.id i)
            ∙ first i (Bool-cases (same_id op.id i)),
      )
    where
      first :
          (i : RowId)
          → (same_id op.id i ≡ true) ⊎ (same_id op.id i ≡ false)
          → restored_row
              (lookup_operation i ops)
              (if same_id op.id i then restored_row (some op.type) (s.row op.id) else s.row i)
            ≡ restored_row
                (if same_id op.id i then some op.type else lookup_operation i ops)
                (s.row i)
      first i (inl e) =
          let same = same_id-eq op.id i e in
          let other : lookup_operation i ops ≡ none =
            lookup_operation-none i ops (rw same at a.0) in
          rw (e, other, same)
      first i (inr e) = rw e
