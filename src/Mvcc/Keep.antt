-- ===== src/Mvcc/Keep.antt =====
-- `insert_record`, `delete_record` and `update_record` of
-- src/observer/storage/trx/mvcc_trx.cpp keep a transaction tracked.
use mathlib.Core.Bool.{false≢true}
use landbase.Base.{
  ℕ, ◌≡◌, refl, sym, ap, ◌∙◌, ◌≢◌, ◌⊎◌, inl, inr, Bool, true, false, not, ◌&&◌, Option, none, some,
  List, [], ◌∷◌, arith, if◌then◌else◌, Bool-cases, Option-cases,
}
use landbase.Base.Int.{ℤ, neg}
use landbase.Rc.{Rc, success, ob_succ}
use landbase.Mvcc.Rows.{
  Row, RowId, same_id, same_id-eq, same_id_self, same_id_comm, Store, set_row, set_indexed, Tables,
  insert_row, delete_entry_of_indexes,
}
use landbase.Mvcc.Effects.{lookup_operation}
use landbase.Mvcc.Atomic.{Tracked, TracksRows, Tracks}
use landbase.Mvcc.Trx.{
  OperationType, insert, update, delete, undefined, Operation, World, has_operation, add_operation,
  set_begin, set_end, max_trx_id, append, set_operations, insert_record, after_insert_row, inserted,
}

pub has_operation-none :
    (i : RowId) (ops : List Operation) → lookup_operation i ops ≡ none → has_operation i ops ≡ false
unfolding lookup_operation has_operation
has_operation-none i [] h = refl
has_operation-none i (op ∷ ops) h = ground (arith, same_id_comm i op.id, has_operation-none i ops)

-- A row that is not there has no operation, and was not there before.
pub absent_cases :
    (id : ℤ) (o : Option OperationType) (b now : Option Row) (lacks : Bool)
    → now ≡ none
    → Tracked id o b now lacks
    → (o ≡ none) × (b ≡ none)
absent_cases id none b now lacks e h = (refl, sym h ∙ e)
absent_cases id (some insert) b none lacks e h = absurd h
absent_cases id (some insert) b (some r) lacks e h = cc e
absent_cases id (some delete) none now lacks e h = absurd h
absent_cases id (some delete) (some r) now lacks e h = cc (e, h.1)
absent_cases id (some update) b now lacks e h = absurd h
absent_cases id (some undefined) b now lacks e h = absurd h

-- A row that is not marked as deleted, and was not inserted by the transaction, has no operation.
pub unmarked_cases :
    (id : ℤ) (o : Option OperationType) (b : Option Row) (r : Row) (lacks : Bool)
    → r.end_xid ≢ neg id
    → o ≢ some insert
    → Tracked id o b (some r) lacks
    → (o ≡ none) × (b ≡ some r)
unmarked_cases id none b r lacks ne ni h = (refl, sym h)
unmarked_cases id (some insert) b r lacks ne ni h = absurd (ni refl)
unmarked_cases id (some delete) none r lacks ne ni h = absurd h
unmarked_cases id (some delete) (some r') r lacks ne ni h = absurd (ne (cc (h.1)))
unmarked_cases id (some update) b r lacks ne ni h = absurd h
unmarked_cases id (some undefined) b r lacks ne ni h = absurd h

module _ (tables : Tables) (before : RowId → Option Row) (id : ℤ) (ops : List Operation) (s : Store)
    (tr : TracksRows tables before id ops s) (i : RowId) where
  -- Row `i` was absent and is inserted, with its index entries.
  pub tracks_insert :
      (r : Row)
      → s.row i ≡ none
      → r.begin_xid ≡ neg id
      → TracksRows tables before id
          (record { type = insert; id = i } ∷ ops)
          (set_indexed (set_row s i (some r)) i true)
  unfolding lookup_operation
  tracks_insert r free own = record {
    distinct = (has_operation-none i ops gone.0, tr.distinct);
    rows = λ j. at j (Bool-cases (same_id i j));
  }
    where
      gone : (lookup_operation i ops ≡ none) × (before i ≡ none)
      gone = absent_cases id _ (before i) (s.row i) _ free (tr.rows i)

      at :
          (j : RowId)
          → (same_id i j ≡ true) ⊎ (same_id i j ≡ false)
          → Tracked id
              (if same_id i j then some insert else lookup_operation j ops)
              (before j)
              (if same_id i j then some r else s.row j)
              (tables.has_index j.table_id && not (if same_id i j then true else s.indexed j))
      at j (inl e) = rw (e, ← same_id-eq i j e) (gone.1, own, ground arith)
      at j (inr e) = rw e (tr.rows j)

  -- Row `i` was put in the free slot, and taken out again.
  pub tracks_failed :
      (r : Row)
      → s.row i ≡ none
      → TracksRows tables before id ops
          (set_row (delete_entry_of_indexes (set_row s i (some r)) i) i none)
  unfolding delete_entry_of_indexes
  tracks_failed r free = record {
    distinct = tr.distinct;
    rows = λ j. at j (Bool-cases (same_id i j));
  }
    where
      gone : (lookup_operation i ops ≡ none) × (before i ≡ none)
      gone = absent_cases id _ (before i) (s.row i) _ free (tr.rows i)

      at :
          (j : RowId)
          → (same_id i j ≡ true) ⊎ (same_id i j ≡ false)
          → Tracked id
              (lookup_operation j ops)
              (before j)
              (if same_id i j then none else if same_id i j then some r else s.row j)
              (tables.has_index j.table_id && not (if same_id i j then false else s.indexed j))
      at j (inl e) = rw (e, ← same_id-eq i j e, gone.0, gone.1) refl
      at j (inr e) = rw e (tr.rows j)

  -- Row `i` was there, not inserted by the transaction, and is marked as deleted.
  pub tracks_delete :
      (r : Row)
      → s.row i ≡ some r
      → r.end_xid ≡ max_trx_id
      → max_trx_id ≢ neg id
      → lookup_operation i ops ≢ some insert
      → (has_operation i ops ≡ false)
        × TracksRows tables before id
            (record { type = delete; id = i } ∷ ops)
            (delete_entry_of_indexes (set_row s i (some (set_end (neg id) r))) i)
  unfolding lookup_operation delete_entry_of_indexes
  tracks_delete r here newest pos_id other = (
    has_operation-none i ops gone.0,
    record {
      distinct = (has_operation-none i ops gone.0, tr.distinct);
      rows = λ j. at j (Bool-cases (same_id i j));
    },
  )
    where
      gone : (lookup_operation i ops ≡ none) × (before i ≡ some r)
      gone =
          unmarked_cases id _ (before i) r _ (λ e. pos_id (sym newest ∙ e)) other
            (rw here at (tr.rows i))

      at :
          (j : RowId)
          → (same_id i j ≡ true) ⊎ (same_id i j ≡ false)
          → Tracked id
              (if same_id i j then some delete else lookup_operation j ops)
              (before j)
              (if same_id i j then some (set_end (neg id) r) else s.row j)
              (tables.has_index j.table_id && not (if same_id i j then false else s.indexed j))
      at j (inl e) = rw (e, ← same_id-eq i j e, gone.1) (newest, refl)
      at j (inr e) = rw e (tr.rows j)

pub ob_succ-false : (rc : Rc) → ob_succ rc ≡ false → rc ≢ success
unfolding ob_succ
ob_succ-false rc h e = false≢true (sym h ∙ ap ob_succ e)

-- The three outcomes of `Table::insert_record`.
pub data InsertOutcome (tables : Tables) (s : Store) (t : ℕ) (r : Row) : Type 0 where
  full : insert_row tables s t r ≡ (tables.failure s t, none, s) → InsertOutcome tables s t r
  stored :
      (i : RowId)
      → s.row i ≡ none
      → insert_row tables s t r ≡ (success, some i, set_indexed (set_row s i (some r)) i true)
      → InsertOutcome tables s t r
  refused :
      (i : RowId) (rc : Rc)
      → s.row i ≡ none
      → ob_succ rc ≡ false
      → insert_row tables s t r
        ≡ (rc, some i, set_row (delete_entry_of_indexes (set_row s i (some r)) i) i none)
      → InsertOutcome tables s t r

pub insert_row-InsertOutcome :
    (tables : Tables) (s : Store) (t : ℕ) (r : Row) → InsertOutcome tables s t r
unfolding insert_row
insert_row-InsertOutcome tables s t r = elim (Option-cases (tables.place s t)) [
  | inl none_left ↦ full (rw (none_left, insert_row))
  | inr (i, found) ↦
      let rc = tables.insert_entries (set_row s i (some r)) i r in
      let free = (tables.place_free s t i found).0 in
      elim (Bool-cases (ob_succ rc)) [
        | inl good ↦ stored i free (rw (found, insert_row) (rw good))
        | inr bad ↦ refused i rc free bad (rw (found, insert_row) (rw bad))
      ]
]

module _ (tables : Tables) (before : RowId → Option Row) (w : World)
    (tr : Tracks tables before w) where
  unrecorded : (i : RowId) → w.store.row i ≡ none → has_operation i w.trx.operations ≡ false
  unrecorded i free =
      has_operation-none i w.trx.operations
        (absent_cases w.trx.trx_id _ (before i) (w.store.row i) _ free (tr.rows i)).0

  -- `insert_record`, if the log takes its record, returns and keeps the transaction tracked, whether
  -- the row is stored, the record manager has no place for it, or an index refuses it. If it succeeds, the new row is in a
  -- slot that was free, under the number of the transaction.
  pub insert_record-Tracks :
      (table_id : ℕ) (new_row : Row)
      → ((i : RowId)
          → w.manager.append_log w.log
              (inserted w.trx.trx_id i (set_end max_trx_id (set_begin (neg w.trx.trx_id) new_row)))
            ≡ success)
      → (rc : Rc) × (w' : World) × (insert_record tables w table_id new_row ≡ some (rc, w'))
        × Tracks tables before w'
        × (rc ≡ success
            → (i : RowId) × (w.store.row i ≡ none)
              × (w'.store.row i ≡ some (set_end max_trx_id (set_begin (neg w.trx.trx_id) new_row))))
  unfolding insert_record after_insert_row add_operation ob_succ
  insert_record-Tracks table_id new_row takes =
      let r = set_end max_trx_id (set_begin (neg w.trx.trx_id) new_row) in
      elim (insert_row-InsertOutcome tables w.store table_id r) [
        | full e ↦ (
          tables.failure w.store table_id,
          w,
          ap (after_insert_row w r) e ∙ rw (tables.failure_fails w.store table_id) refl,
          tr,
          λ x. absurd (ob_succ-false _ (tables.failure_fails w.store table_id) x),
        )
        | stored i free e ↦ (
          success,
          set_operations
              (append (record w { store = set_indexed (set_row w.store i (some r)) i true })
                (inserted w.trx.trx_id i r))
              (record { type = insert; id = i } ∷ w.trx.operations),
          ap (after_insert_row w r) e ∙ rw (unrecorded i free, takes i, add_operation) refl,
          tracks_insert tables before w.trx.trx_id w.trx.operations w.store tr i r free refl,
          λ x. (i, free, ap (λ b. if b then some r else w.store.row i) (same_id_self i)),
        )
        | refused i rc free bad e ↦ (
          rc,
          record w {
            store = set_row (delete_entry_of_indexes (set_row w.store i (some r)) i) i none;
          },
          ap (after_insert_row w r) e ∙ rw bad,
          tracks_failed tables before w.trx.trx_id w.trx.operations w.store tr i r free,
          λ x. absurd (ob_succ-false rc bad x),
        )
      ]
