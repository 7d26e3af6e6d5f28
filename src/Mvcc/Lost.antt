-- ===== src/Mvcc/Lost.antt =====
-- Two changes that src/observer/storage/trx/mvcc_trx.cpp does not record: the deletion of a row that
-- the same transaction inserted, and the mark of an update whose new row is refused.
use landbase.Base.{
  ℕ, suc, ◌≡◌, refl, sym, ap, ◌∙◌, ◌≢◌, true, false, none, some, List, [], ◌∷◌, ◌++◌, ◌≤◌, ◌<◌, ◌^◌,
  arith,
}
use landbase.Base.Int.{ℤ, pos, negsuc, neg, eqb_ℤ_self}
use landbase.Rc.{Rc, success, locked_concurrency_conflict, ob_succ}
use landbase.Mvcc.Rows.{
  Row, RowId, same_id_self, Store, set_row, set_indexed, Tables, insert_row,
  insert_entry_of_indexes, delete_entry_of_indexes,
}
use landbase.Mvcc.Trx.{
  insert, World, LogManager, LogRecord, has_operation, add_operation, set_begin, set_end,
  max_trx_id, append, set_operations, check_row, insert_record, after_insert_row, delete_record,
  after_update_row, update_record, inserted, deleted, mtr_commit, ended, commit_with_trx_id,
  log_commit, commit_operations, commit_operation, held_begin, update_held, rollback,
  rollback_operations, mtr_rollback,
}

-- The row that a transaction leaves behind when it inserts a row, deletes it and commits.
abbrev pub lost_row : ℕ → ℕ → Row → Row
lost_row id c new_row = set_end (neg (pos id)) (set_begin (pos c) new_row)

-- A transaction that has started and has no operations.
abbrev pub fresh_world : Store → LogManager → ℕ → ℤ → List LogRecord → World
fresh_world s m id current log = record {
  store = s;
  manager = m;
  trx = record { trx_id = pos id; started = true; recovering = false; operations = [] };
  current_trx_id = current;
  log = log;
}

-- The row as the insertion stores it, and the worlds after the insertion, the deletion and the commit.
abbrev stored_row : ℕ → Row → Row
stored_row id r = set_end max_trx_id (set_begin (neg (pos id)) r)

abbrev inserted_world : Store → LogManager → ℕ → ℤ → List LogRecord → RowId → Row → World
inserted_world s m id current log i r =
    set_operations
      (append
        (fresh_world (set_indexed (set_row s i (some (stored_row id r))) i true) m id current log)
        (inserted (pos id) i (stored_row id r)))
      (record { type = insert; id = i } ∷ [])

abbrev deleted_store : Store → ℕ → RowId → Row → Store
deleted_store s id i r =
    set_indexed
      (set_row (set_indexed (set_row s i (some (stored_row id r))) i true) i
        (some (set_end (neg (pos id)) (stored_row id r))))
      i false

abbrev deleted_world : Store → LogManager → ℕ → ℤ → List LogRecord → RowId → Row → World
deleted_world s m id current log i r =
    append (record (inserted_world s m id current log i r) { store = deleted_store s id i r })
      (deleted (pos id) i)

abbrev committed_world : Store → LogManager → ℕ → ℤ → List LogRecord → ℕ → RowId → Row → World
committed_world s m id current log c i r =
    append
      (ended (deleted_world s m id current log i r)
        (set_row (deleted_store s id i r) i (some (lost_row id c r))))
      (mtr_commit (pos id) (pos c))

module _ (tables : Tables) (s : Store) (m : LogManager) (n : ℕ) (current : ℤ) (log : List LogRecord)
    (i : RowId) (new_row : Row)
    (takes : (l : List LogRecord) (r : LogRecord) → m.append_log l r ≡ success)
    (commits_trx : (l : List LogRecord) (r : LogRecord)
      → m.commit_trx l r ≡ some (success, l ++ (r ∷ []))) where
  inserts :
      tables.place s i.table_id ≡ some i
      → tables.insert_entries
          (set_row s i (some (stored_row (suc n) new_row)))
          i
          (stored_row (suc n) new_row)
        ≡ success
      → insert_record tables (fresh_world s m (suc n) current log) i.table_id new_row
        ≡ some (success, inserted_world s m (suc n) current log i new_row)
  unfolding insert_record insert_row after_insert_row add_operation has_operation ob_succ
  inserts placed good = rw (insert_record, insert_row, placed, good) (rw takes refl)

  deletes :
      delete_record tables (inserted_world s m (suc n) current log i new_row) i
      ≡ some (success, deleted_world s m (suc n) current log i new_row)
  unfolding delete_record add_operation has_operation delete_entry_of_indexes ob_succ
  deletes =
      rw (delete_record, same_id_self i)
        (rw takes (rw (add_operation, has_operation, same_id_self i) refl))

  commits :
      (c : ℕ)
      → commit_with_trx_id (deleted_world s m (suc n) current log i new_row) (pos (suc c))
        ≡ some (success, committed_world s m (suc n) current log (suc c) i new_row)
  unfolding commit_with_trx_id log_commit commit_operations commit_operation update_held held_begin
  commits c =
      rw (commit_with_trx_id, commit_operations, commit_operation, update_held, same_id_self i)
        (rw (held_begin, eqb_ℤ_self (negsuc n), log_commit, commits_trx) refl)

  -- With a log that takes every record, a transaction that inserts a row, deletes it and commits leaves the row in the table: it has the
  -- commit number at its beginning and the mark of the ended transaction at its end, so every other
  -- transaction reads it, and none may change it.
  pub insert_then_delete_stays :
      tables.place s i.table_id ≡ some i
      → tables.insert_entries
          (set_row s i (some (stored_row (suc n) new_row)))
          i
          (stored_row (suc n) new_row)
        ≡ success
      → (c : ℕ)
      → (w1 : World) × (w2 : World) × (w3 : World) × (insert_record tables
            (fresh_world s m (suc n) current log)
            i.table_id
            new_row
          ≡ some (success, w1))
        × (delete_record tables w1 i ≡ some (success, w2))
        × (commit_with_trx_id w2 (pos (suc c)) ≡ some (success, w3))
        × (w3.store.row i ≡ some (lost_row (suc n) (suc c) new_row))
        × ((u : ℕ)
            → u ≢ suc n
            → (check_row (pos u) (lost_row (suc n) (suc c) new_row) true ≡ success)
              × (check_row (pos u) (lost_row (suc n) (suc c) new_row) false
                  ≡ locked_concurrency_conflict))
  unfolding check_row
  insert_then_delete_stays placed good c = (
    inserted_world s m (suc n) current log i new_row,
    deleted_world s m (suc n) current log i new_row,
    committed_world s m (suc n) current log (suc c) i new_row,
    inserts placed good,
    deletes,
    commits c,
    rw (same_id_self i) refl,
    λ u ne. (ground arith, ground arith),
  )

-- The store after an update whose new row found no place.
abbrev refused_store : Tables → Store → ℕ → RowId → Row → Store
refused_store tables s id i r =
    (insert_entry_of_indexes tables
      (delete_entry_of_indexes (set_row s i (some (set_end (neg (pos id)) r))) i) i
      (set_end (neg (pos id)) r)).1

refused_store_row :
    (tables : Tables) (s : Store) (id : ℕ) (i : RowId) (r : Row)
    → (refused_store tables s id i r).row i ≡ some (set_end (neg (pos id)) r)
unfolding insert_entry_of_indexes delete_entry_of_indexes
refused_store_row tables s id i r = ground (arith, same_id_self i)

-- An update whose new row the record manager has no place for fails with the record manager's code,
-- and leaves the old row marked by the transaction, which records no operation: a rollback does not take the mark off, and every
-- other transaction may no longer change the row.
pub refused_update_stays :
    (tables : Tables) (s : Store) (m : LogManager) (n : ℕ) (current : ℤ) (log : List LogRecord)
    (i : RowId) (r new_row : Row) (b : ℕ) (rc : Rc)
    → s.row i ≡ some r
    → r.begin_xid ≡ pos (suc b)
    → r.end_xid ≡ max_trx_id
    → suc b ≤ suc n
    → suc n < 2 ^ 31
    → ((s' : Store) → tables.place s' i.table_id ≡ none)
    → ((s' : Store) → tables.failure s' i.table_id ≡ rc)
    → (w1 : World) × (w2 : World) × (update_record tables
          (fresh_world s m (suc n) current log)
          i
          new_row
        ≡ some (rc, w1))
      × (rollback tables w1 ≡ some (success, w2))
      × (w2.store.row i ≡ some (set_end (neg (pos (suc n))) r))
      × ((u : ℕ)
          → u ≢ suc n
          → check_row (pos u) (set_end (neg (pos (suc n))) r) false ≡ locked_concurrency_conflict)
unfolding update_record insert_row after_update_row rollback rollback_operations ob_succ
    insert_entry_of_indexes delete_entry_of_indexes check_row
refused_update_stays tables s m n current log i r new_row b rc here made newest before small full
      code =
    let allowed : check_row (pos (suc n)) r false ≡ success = ground (arith, made, newest) in
    let fails : ob_succ rc ≡ false =
      ap ob_succ (sym (code s)) ∙ tables.failure_fails s i.table_id in
    let s' = refused_store tables s (suc n) i r in
    let w2 = fresh_world s' m (suc n) current log in
    (
      w2,
      append (ended w2 s') (mtr_rollback (pos (suc n))),
      rw (update_record, here, allowed, insert_row, full, code) (rw fails refl),
      refl,
      refused_store_row tables s (suc n) i r,
      λ u ne. ground (arith, made),
    )
