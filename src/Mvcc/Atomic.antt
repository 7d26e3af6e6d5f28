-- ===== src/Mvcc/Atomic.antt =====
-- A transaction of src/observer/storage/trx/mvcc_trx.cpp against the rows as they were when it
-- started: what its operations keep, so that a rollback restores those rows and a commit succeeds.
use landbase.Base.{
  ◌++◌, ◌∷◌, true, ◌≡◌, refl, sym, ap, Bool, false, Option, none, some, List, [], arith,
  if◌then◌else◌,
}
use landbase.Base.Int.{ℤ, neg}
use landbase.Rc.{Rc, success}
use landbase.Mvcc.Rows.{Row, RowId, Store, Tables}
use landbase.Mvcc.Effects.{
  lookup_operation, IsHeld, IsDistinct, AllOperations-of_lookup, committed_row,
  commit_operations_lem,
}
use landbase.Mvcc.Rollback.{lacks_entries, IsUndoable, restored_row, rollback_operations_lem}
use landbase.Mvcc.Trx.{
  start_if_need, increment, mtr_begin, next_trx_id, OperationType, insert, update, delete,
  undefined, Operation, World, LogRecord, set_end, max_trx_id, rollback, commit_with_trx_id,
  log_commit, ended, append, mtr_rollback,
}

-- How a row relates to the row before the transaction, by the operation recorded for it.
abbrev pub Tracked : ℤ → Option OperationType → Option Row → Option Row → Bool → Type 0
Tracked id none before now lacks = now ≡ before
Tracked id (some insert) before none lacks = ⊥
Tracked id (some insert) before (some r) lacks =
    (before ≡ none) × (r.begin_xid ≡ neg id) × (lacks ≡ false)
Tracked id (some delete) none now lacks = ⊥
Tracked id (some delete) (some b) now lacks =
    (b.end_xid ≡ max_trx_id) × (now ≡ some (set_end (neg id) b))
Tracked id (some update) before now lacks = ⊥
Tracked id (some undefined) before now lacks = ⊥

module _ (tables : Tables) where
  pub record TracksRows (before : RowId → Option Row) (id : ℤ) (ops : List Operation) (s : Store)
      : Type 0 where
    pub distinct : IsDistinct ops
    pub rows :
        (i : RowId)
        → Tracked id (lookup_operation i ops) (before i) (s.row i) (lacks_entries tables s i)

  -- The transaction has changed the rows `before` as its operations say, and no others.
  abbrev pub Tracks : (RowId → Option Row) → World → Type 0
  Tracks before w = TracksRows before w.trx.trx_id w.trx.operations w.store

  Tracked-IsUndoable :
      (id : ℤ) (t : OperationType) (b now : Option Row) (lacks : Bool)
      → Tracked id (some t) b now lacks
      → IsUndoable tables id t now lacks
  Tracked-IsUndoable id insert b (some r) lacks h = h.2
  Tracked-IsUndoable id insert b none lacks h = h
  Tracked-IsUndoable id delete (some r) now lacks h = rw h.1 refl
  Tracked-IsUndoable id delete none now lacks h = absurd h
  Tracked-IsUndoable id update b now lacks h = h
  Tracked-IsUndoable id undefined b now lacks h = h

  Tracked-IsHeld :
      (id : ℤ) (t : OperationType) (b now : Option Row) (lacks : Bool)
      → Tracked id (some t) b now lacks
      → IsHeld id t now
  Tracked-IsHeld id insert b (some r) lacks h = h.1
  Tracked-IsHeld id insert b none lacks h = h
  Tracked-IsHeld id delete (some r) now lacks h = rw h.1 refl
  Tracked-IsHeld id delete none now lacks h = absurd h
  Tracked-IsHeld id update b now lacks h = h
  Tracked-IsHeld id undefined b now lacks h = h

  Tracked-restored :
      (id : ℤ) (o : Option OperationType) (b now : Option Row) (lacks : Bool)
      → Tracked id o b now lacks
      → restored_row o now ≡ b
  Tracked-restored id none b now lacks h = h
  Tracked-restored id (some insert) b (some r) lacks h = sym h.0
  Tracked-restored id (some insert) b none lacks h = absurd h
  Tracked-restored id (some delete) (some r) now lacks h =
      rw h.1 (ap (λ x. some (set_end x r)) (sym h.0))
  Tracked-restored id (some delete) none now lacks h = absurd h
  Tracked-restored id (some update) b now lacks h = absurd h
  Tracked-restored id (some undefined) b now lacks h = absurd h

  module _ (before : RowId → Option Row) (w : World) (tr : Tracks before w) where
    found :
        (i : RowId) (t : OperationType)
        → lookup_operation i w.trx.operations ≡ some t
        → Tracked w.trx.trx_id (some t) (before i) (w.store.row i) (lacks_entries tables w.store i)
    found i t e = rw e at (tr.rows i)

    -- A rollback of a tracked transaction meets no failed ASSERT, restores every row as it was before
    -- the transaction, and leaves the transaction ended without operations.
    pub rollback_restores :
        (w' : World) × (rollback tables w ≡ some (success, w'))
        × ((i : RowId) → w'.store.row i ≡ before i)
        × (w'.trx.operations ≡ [])
        × (w'.trx.started ≡ false)
    unfolding rollback
    rollback_restores =
        let (s', done, rows) =
          rollback_operations_lem tables w.trx.trx_id w.trx.operations w.store (
            AllOperations-of_lookup _ w.trx.operations tr.distinct
              (λ i t e. Tracked-IsUndoable w.trx.trx_id t (before i) _ _ (found i t e))) in
        (
          if w.trx.recovering then ended w s' else append (ended w s') (mtr_rollback w.trx.trx_id),
          rw (done, rollback),
          λ i. ground (
            arith,
            rows i,
            Tracked-restored w.trx.trx_id (lookup_operation i w.trx.operations) (before i)
                (w.store.row i) (lacks_entries tables w.store i) (tr.rows i),
          ),
          ground arith,
          ground arith,
        )

    -- A commit of a tracked transaction, whatever the log manager answers but for a failed ASSERT of
    -- its own: it returns that answer, and success if it recovers; it meets no failed ASSERT, makes
    -- the changes of its operations permanent under the commit number, leaves every row without an
    -- operation as it was before the transaction, and leaves the transaction ended without operations.
    pub commit_succeeds :
        (c : ℤ) (rc : Rc) (log : List LogRecord)
        → log_commit w c ≡ some (rc, log)
        → (w' : World) × (commit_with_trx_id w c ≡ some (rc, w'))
          × ((i : RowId)
              → w'.store.row i
                ≡ committed_row c (lookup_operation i w.trx.operations) (w.store.row i))
          × ((i : RowId) → lookup_operation i w.trx.operations ≡ none → w'.store.row i ≡ before i)
          × (w'.trx.operations ≡ [])
          × (w'.trx.started ≡ false)
          × (w.trx.recovering ≡ true → rc ≡ success)
    unfolding commit_with_trx_id log_commit
    commit_succeeds c rc log answer =
        let (s', done, rows) = commit_operations_lem w.trx.trx_id c w.trx.operations w.store (
          AllOperations-of_lookup _ w.trx.operations tr.distinct
            (λ i t e. Tracked-IsHeld w.trx.trx_id t (before i) _ _ (found i t e))) in
        (
          record (ended w s') { log = log },
          rw (done, commit_with_trx_id, answer) refl,
          λ i. ground (arith, rows i),
          λ i e. ground (arith, rows i, untouched i e),
          refl,
          refl,
          λ e. cc (rw (log_commit, e) at answer),
        )
      where
        untouched :
            (i : RowId) → lookup_operation i w.trx.operations ≡ none → w.store.row i ≡ before i
        untouched i e = rw e at (tr.rows i)

  -- A transaction that starts takes the next number, and it tracks the rows as they are; nothing that
  -- is stored changes.
  pub start_if_need-Tracks :
      (w : World)
      → w.trx.started ≡ false
      → w.trx.operations ≡ []
      → (w' : World) × (start_if_need w ≡ some (success, w'))
        × Tracks w.store.row w'
        × (w'.trx.started ≡ true)
        × (w'.trx.trx_id ≡ increment w.current_trx_id)
        × (w'.current_trx_id ≡ w'.trx.trx_id)
  unfolding start_if_need next_trx_id lookup_operation
  start_if_need-Tracks w idle fresh =
      let id = increment w.current_trx_id in
      (
        record w {
          trx = record (w.trx) { trx_id = id; started = true; operations = [] };
          current_trx_id = id;
          log = w.log ++ (mtr_begin id ∷ []);
        },
        rw (start_if_need, idle, fresh) (rw (next_trx_id, fresh) refl),
        record { distinct = tt; rows = λ i. refl },
        refl,
        refl,
        refl,
      )
