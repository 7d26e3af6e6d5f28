-- ===== src/Mvcc/Redo.antt =====
-- `redo` of src/observer/storage/trx/mvcc_trx.cpp keeps the transaction that it belongs to tracked.
use landbase.Base.{
  ℕ, ◌≡◌, refl, sym, ◌∙◌, ◌≢◌, ◌⊎◌, inl, inr, Bool, true, false, not, ◌&&◌, Option, none, some,
  List, ◌∷◌, if◌then◌else◌, Bool-cases,
}
use landbase.Base.Int.{ℤ, neg, eqb_ℤ_self}
use landbase.Rc.{success, ob_succ}
use landbase.Mvcc.Rows.{
  Row, RowId, same_id, same_id-eq, Store, set_row, set_indexed, Tables, recover_insert_row,
}
use landbase.Mvcc.Effects.{lookup_operation}
use landbase.Mvcc.Atomic.{Tracked, TracksRows, Tracks}
use landbase.Mvcc.Keep.{tracks_insert, absent_cases, unmarked_cases, has_operation-none}
use landbase.Mvcc.Trx.{
  insert, delete, Operation, World, has_operation, add_operation, set_end, max_trx_id,
  set_operations, update_held, redo, inserted, deleted,
}

-- Row `i` was there, not inserted by the transaction, and is marked; the indexes are left.
tracks_mark :
    (tables : Tables) (before : RowId → Option Row) (id : ℤ) (ops : List Operation) (s : Store)
    → TracksRows tables before id ops s
    → (i : RowId) (r : Row) → s.row i ≡ some r
    → r.end_xid ≡ max_trx_id
    → max_trx_id ≢ neg id
    → lookup_operation i ops ≢ some insert
    → (has_operation i ops ≡ false)
      × TracksRows tables before id
          (record { type = delete; id = i } ∷ ops)
          (set_row s i (some (set_end (neg id) r)))
unfolding lookup_operation
tracks_mark tables before id ops s tr i r here newest pos_id other = (
  has_operation-none i ops gone.0,
  record {
    distinct = (has_operation-none i ops gone.0, tr.distinct);
    rows = λ j. at j (Bool-cases (same_id i j));
  },
)
  where
    gone : (lookup_operation i ops ≡ none) × (before i ≡ some r)
    gone =
        unmarked_cases id _ (before i) r _ (λ e. pos_id (sym newest ∙ e)) other
          (rw here at (tr.rows i))

    at :
        (j : RowId)
        → (same_id i j ≡ true) ⊎ (same_id i j ≡ false)
        → Tracked id
            (if same_id i j then some delete else lookup_operation j ops)
            (before j)
            (if same_id i j then some (set_end (neg id) r) else s.row j)
            (tables.has_index j.table_id && not (s.indexed j))
    at j (inl e) = rw (e, ← same_id-eq i j e, gone.1) (newest, refl)
    at j (inr e) = rw e (tr.rows j)

module _ (tables : Tables) (table_exists : ℕ → Bool) (before : RowId → Option Row) (w : World)
    (tr : Tracks tables before w) (i : RowId) (known : table_exists i.table_id ≡ true) where
  -- The redo of an insertion into a free slot, which the indexes accept.
  pub redo_inserted :
      (id : ℤ) (r : Row)
      → w.store.row i ≡ none
      → r.begin_xid ≡ neg w.trx.trx_id
      → tables.insert_entries (set_row w.store i (some r)) i r ≡ success
      → (ops : List Operation) × (s : Store) × (redo tables table_exists w (inserted id i r)
          ≡ some (success, set_operations (record w { store = s }) ops))
        × TracksRows tables before w.trx.trx_id ops s
  unfolding redo recover_insert_row add_operation ob_succ
  redo_inserted id r free own accepted = (
    record { type = insert; id = i } ∷ w.trx.operations,
    set_indexed (set_row w.store i (some r)) i true,
    rw (redo, known, recover_insert_row, accepted) (rw (add_operation, fresh) refl),
    tracks_insert tables before w.trx.trx_id w.trx.operations w.store tr i r free own,
  )
    where
      fresh : has_operation i w.trx.operations ≡ false
      fresh =
          has_operation-none i w.trx.operations
            (absent_cases w.trx.trx_id _ (before i) (w.store.row i) _ free (tr.rows i)).0

  -- The redo of a deletion of the newest version of a row that the transaction did not insert.
  pub redo_deleted :
      (id : ℤ) (r : Row)
      → w.store.row i ≡ some r
      → r.end_xid ≡ max_trx_id
      → max_trx_id ≢ neg w.trx.trx_id
      → lookup_operation i w.trx.operations ≢ some insert
      → (ops : List Operation) × (s : Store) × (redo tables table_exists w (deleted id i)
          ≡ some (success, set_operations (record w { store = s }) ops))
        × TracksRows tables before w.trx.trx_id ops s
  unfolding redo update_held add_operation
  redo_deleted id r here newest pos_id other =
      let (fresh, tr') =
        tracks_mark tables before w.trx.trx_id w.trx.operations w.store tr i r here newest pos_id
          other in
      (
        record { type = delete; id = i } ∷ w.trx.operations,
        set_row w.store i (some (set_end (neg w.trx.trx_id) r)),
        rw (redo, known, update_held, here, newest, eqb_ℤ_self max_trx_id, add_operation, fresh)
            refl,
        tr',
      )
