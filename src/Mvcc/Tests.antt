-- ===== src/Mvcc/Tests.antt =====
-- A small table, a transaction that inserts, deletes and updates in it, and the theorems at them.
use landbase.Base.{
  ℕ, zero, suc, subst, sym, ap, ◌∙◌, ◌≡◌, refl, ◌≢◌, Bool, true, false, Option, none, some, [], ◌∷◌,
  ◌++◌, arith, if◌then◌else◌,
}
use landbase.Base.Int.{negsuc, pos, neg}
use landbase.Rc.{Rc, success, record_invisible, record_nomem, locked_concurrency_conflict, ob_succ}
use landbase.Mvcc.Rows.{Row, RowId, same_id, Store, Tables, insert_row, delete_entry_of_indexes}
use landbase.Mvcc.Trx.{
  delete, World, LogManager, log_commit, max_trx_id, set_begin, set_end, check_row, insert_record,
  has_operation, delete_record, update_record, commit_with_trx_id, rollback,
}
use landbase.Mvcc.Visibility.{
  row_of, inserting, deleting, commit_version, snapshot_stable, commit_takes_effect,
}
use landbase.Mvcc.Effects.{lookup_operation, committed_row}
use landbase.Mvcc.Atomic.{Tracked, Tracks, rollback_restores, commit_succeeds}
use landbase.Mvcc.Keep.{insert_record-Tracks}
use landbase.Mvcc.Change.{
  IsCommitted, marked, replacement, delete_record-Tracks, update_record-Tracks,
}
use landbase.Mvcc.Lost.{fresh_world, lost_row, insert_then_delete_stays, refused_update_stays}

abbrev free_id : RowId
free_id = record { table_id = 1; page_num = 1; slot_num = 1 }

abbrev old_id : RowId
old_id = record { table_id = 1; page_num = 1; slot_num = 0 }

none≢some : {i : RowId} → none ≢ some i
none≢some e = cc e

-- The row manager has one free slot, in table 1.
abbrev place_in : Option Row → ℕ → Option RowId
place_in none (suc zero) = some free_id
place_in none zero = none
place_in none (suc (suc t)) = none
place_in (some r) t = none

place_in_free :
    (o : Option Row) (t : ℕ) (i : RowId)
    → place_in o t ≡ some i
    → (o ≡ none) × (free_id ≡ i) × (1 ≡ t)
place_in_free none zero i e = cc e
place_in_free none (suc zero) i e = (refl, cc e, refl)
place_in_free none (suc (suc t)) i e = cc e
place_in_free (some r) t i e = cc e

nomem_fails : ob_succ record_nomem ≡ false
unfolding ob_succ
nomem_fails = refl

abbrev tables : Tables
tables = record {
  place = λ s t. place_in (s.row free_id) t;
  failure = λ s t. record_nomem;
  failure_fails = λ s t. nomem_fails;
  insert_entries = λ s i r. success;
  has_index = λ t. true;
  place_free = λ s t i e.
      let (free, eq, t_eq) = place_in_free (s.row free_id) t i e in
      (subst (λ j. s.row j ≡ none) eq free, sym (ap (λ j. j.table_id) eq) ∙ t_eq);
}

-- Tables without a free slot.
abbrev full_tables : Tables
full_tables = record {
  place = λ s t. none;
  failure = λ s t. record_nomem;
  failure_fails = λ s t. nomem_fails;
  insert_entries = λ s i r. success;
  has_index = λ t. true;
  place_free = λ s t i e. absurd (none≢some e);
}

abbrev old_row : Row
old_row = record { begin_xid = pos 3; end_xid = max_trx_id; fields = 10 ∷ [] }

abbrev new_row : Row
new_row = record { begin_xid = pos 0; end_xid = pos 0; fields = 20 ∷ [] }

abbrev old_rows : RowId → Option Row
old_rows i = if same_id old_id i then some old_row else none

abbrev store : Store
store = record { row = old_rows; indexed = same_id old_id }

-- A log manager that takes every record, as `append_log` and `sync` do while the buffer has room.
abbrev roomy : LogManager
roomy = record {
  append_log = λ log r. success;
  commit_trx = λ log r. some (success, log ++ (r ∷ []));
}

abbrev world : World
world = fresh_world store roomy 5 (pos 5) []

world_tracks : Tracks tables old_rows world
unfolding lookup_operation
world_tracks = record { distinct = tt; rows = λ i. refl }

old_row-IsCommitted : IsCommitted old_row
old_row-IsCommitted = record { made = refl; ends = λ e. cc e }

old_row_allowed : check_row (pos 5) old_row false ≡ success
unfolding check_row
old_row_allowed = refl

insert_record-Tracks_example :
    (rc : Rc) × (w' : World) × (insert_record tables world 1 new_row ≡ some (rc, w'))
    × Tracks tables old_rows w'
    × (rc ≡ success
        → (i : RowId) × (world.store.row i ≡ none)
          × (w'.store.row i ≡ some (set_end max_trx_id (set_begin (neg (pos 5)) new_row))))
insert_record-Tracks_example =
    insert_record-Tracks tables old_rows world world_tracks 1 new_row (λ i. refl)

delete_record-Tracks_example :
    (w' : World) × (delete_record tables world old_id ≡ some (success, w'))
    × Tracks tables old_rows w'
    × (old_row.end_xid ≡ max_trx_id → w'.store.row old_id ≡ some (set_end (neg (pos 5)) old_row))
    × (old_row.end_xid ≢ max_trx_id → w' ≡ world)
delete_record-Tracks_example =
    delete_record-Tracks tables old_rows world world_tracks 4 refl old_id old_row refl
      old_row-IsCommitted old_row_allowed refl

update_stored :
    (insert_row tables
      (marked tables old_rows world world_tracks 4 refl old_id old_row refl old_row-IsCommitted
        old_row_allowed)
      1
      (replacement tables old_rows world world_tracks 4 refl old_id old_row refl old_row-IsCommitted
        old_row_allowed new_row)).0
    ≡ success
unfolding insert_row marked delete_entry_of_indexes ob_succ
update_stored = refl

update_record-Tracks_example :
    (w' : World) × (j : RowId) × (update_record tables world old_id new_row ≡ some (success, w'))
    × Tracks tables old_rows w'
    × (w'.store.row old_id ≡ some (set_end (neg (pos 5)) old_row))
    × (world.store.row j ≡ none)
    × (w'.store.row j
        ≡ some (record { begin_xid = neg (pos 5); end_xid = max_trx_id; fields = 20 ∷ [] }))
unfolding replacement
update_record-Tracks_example =
    update_record-Tracks tables old_rows world world_tracks 4 refl old_id old_row refl
      old_row-IsCommitted old_row_allowed new_row refl update_stored refl (λ j. refl)

-- The world after the deletion of the old row.
abbrev deleting_world : World
deleting_world =
    record (fresh_world
      (record {
        row = λ i. if same_id old_id i then some (set_end (neg (pos 5)) old_row) else none;
        indexed = λ i. false;
      })
      roomy 5 (pos 5) []) {
        trx = record {
          trx_id = pos 5;
          started = true;
          recovering = false;
          operations = record { type = delete; id = old_id } ∷ [];
        };
      }

deleting_world_tracks : Tracks tables old_rows deleting_world
unfolding lookup_operation has_operation
deleting_world_tracks = record { distinct = (refl, tt); rows = λ i. at (same_id old_id i) }
  where
    at :
        (b : Bool)
        → Tracked
            (pos 5)
            (if b then some delete else none)
            (if b then some old_row else none)
            (if b then some (set_end (neg (pos 5)) old_row) else none)
            true
    at true = (refl, refl)
    at false = refl

rollback_restores_example :
    (w' : World) × (rollback tables deleting_world ≡ some (success, w'))
    × ((i : RowId) → w'.store.row i ≡ old_rows i)
    × (w'.trx.operations ≡ [])
    × (w'.trx.started ≡ false)
rollback_restores_example = rollback_restores tables old_rows deleting_world deleting_world_tracks

-- Before the transaction starts.
abbrev idle_world : World
idle_world = record (fresh_world store roomy 5 (pos 4) []) {
  trx = record { trx_id = negsuc 0; started = false; recovering = false; operations = [] };
}

commit_succeeds_example :
    (w' : World) × (commit_with_trx_id deleting_world (pos 6) ≡ some (success, w'))
    × ((i : RowId)
        → w'.store.row i
          ≡ committed_row
              (pos 6)
              (lookup_operation i deleting_world.trx.operations)
              (deleting_world.store.row i))
    × ((i : RowId)
        → lookup_operation i deleting_world.trx.operations ≡ none
        → w'.store.row i ≡ old_rows i)
    × (w'.trx.operations ≡ [])
    × (w'.trx.started ≡ false)
    × (false ≡ true → success ≡ success)
unfolding log_commit
commit_succeeds_example =
    commit_succeeds tables old_rows deleting_world deleting_world_tracks (pos 6) success _ refl

insert_then_delete_stays_example :
    (w1 : World) × (w2 : World) × (w3 : World) × (insert_record tables world 1 new_row
      ≡ some (success, w1))
    × (delete_record tables w1 free_id ≡ some (success, w2))
    × (commit_with_trx_id w2 (pos 6) ≡ some (success, w3))
    × (w3.store.row free_id ≡ some (lost_row 5 6 new_row))
    × ((u : ℕ)
        → u ≢ 5
        → (check_row (pos u) (lost_row 5 6 new_row) true ≡ success)
          × (check_row (pos u) (lost_row 5 6 new_row) false ≡ locked_concurrency_conflict))
insert_then_delete_stays_example =
    insert_then_delete_stays tables store roomy 4 (pos 5) [] free_id new_row (λ l r. refl)
      (λ l r. refl) refl refl 5

refused_update_stays_example :
    (w1 : World) × (w2 : World) × (update_record full_tables world old_id new_row
      ≡ some (record_nomem, w1))
    × (rollback full_tables w1 ≡ some (success, w2))
    × (w2.store.row old_id ≡ some (set_end (neg (pos 5)) old_row))
    × ((u : ℕ)
        → u ≢ 5
        → check_row (pos u) (set_end (neg (pos 5)) old_row) false ≡ locked_concurrency_conflict)
refused_update_stays_example =
    refused_update_stays full_tables store roomy 4 (pos 5) [] old_id old_row new_row 2 record_nomem
      refl refl refl (omega arith) (omega arith) (λ s'. refl) (λ s'. refl)

inserting_allowed : check_row (pos 5) (row_of (inserting 5) []) false ≡ success
unfolding check_row
inserting_allowed = refl

snapshot_stable_example :
    check_row (pos 6) (row_of (commit_version 7 (deleting 3 5)) []) true
    ≡ check_row (pos 6) (row_of (deleting 3 5) []) true
snapshot_stable_example =
    snapshot_stable (deleting 3 5) [] 6 5 7 (omega arith, omega arith) refl (omega arith)
      (omega arith) (omega arith)

commit_takes_effect_example :
    check_row (pos 8) (row_of (commit_version 7 (deleting 3 5)) []) true ≡ record_invisible
commit_takes_effect_example =
    commit_takes_effect (deleting 3 5) [] 8 5 7 (omega arith, omega arith) refl (omega arith)
      (omega arith) (omega arith)
