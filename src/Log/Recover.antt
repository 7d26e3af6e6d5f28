-- ===== src/Log/Recover.antt =====
-- `CLogManager::recover` of src/observer/storage/clog/clog.cpp, with the calls of `MvccTrxKit` and
-- `MvccTrx` of src/observer/storage/trx/mvcc_trx.cpp that it makes.
use landbase.Base.{
  ℕ, zero, suc, Bool, true, false, not, Option, none, some, List, [], ◌∷◌, ◌++◌, if◌then◌else◌,
  take, length,
}
use landbase.Base.Int.{ℤ, pos_part, ltb_ℤ, eqb_ℤ}
use landbase.Base.Result.{Result, ok, fail}
use landbase.Rc.{Rc, success, internal, schema_table_not_exist, ob_succ, is_eof}
use landbase.Mvcc.Rows.{Row, RowId, Store, Tables}
use landbase.Mvcc.Trx.{
  Trx, recover_trx, World, LogManager, LogRecord, inserted, deleted, redo, rollback,
}
use landbase.Log.Record.{
  ClogType, mtr_begin, mtr_commit, mtr_rollback, insert, update, delete, ClogRecord, log_type,
}
use landbase.Log.File.{ClogFile, next}

-- `MvccTrxKit`
pub record TrxKit : Type 0 where
  pub trxes : List Trx
  pub current_trx_id : ℤ

-- What the recovery changes.
pub record Db : Type 0 where
  pub store : Store
  pub kit : TrxKit

-- `create_trx(trx_id)`
unfoldable pub create_trx_with_id : TrxKit → ℤ → TrxKit
create_trx_with_id kit trx_id = record {
  trxes = kit.trxes ++ (recover_trx trx_id ∷ []);
  current_trx_id = if ltb_ℤ kit.current_trx_id trx_id then trx_id else kit.current_trx_id;
}

-- The loop of `find_trx`.
unfoldable pub find_trx : List Trx → ℤ → Option Trx
find_trx [] trx_id = none
find_trx (t ∷ ts) trx_id = if eqb_ℤ t.trx_id trx_id then some t else find_trx ts trx_id

-- The transaction that `find_trx` gives is changed where it stands.
unfoldable pub put_trx : List Trx → ℤ → Trx → List Trx
put_trx [] trx_id t' = []
put_trx (t ∷ ts) trx_id t' = if eqb_ℤ t.trx_id trx_id then t' ∷ ts else t ∷ put_trx ts trx_id t'

-- A transaction that recovers has no log manager.
abbrev no_manager : LogManager
no_manager = record { append_log = λ log r. internal; commit_trx = λ log r. none }

abbrev pub world_of : Db → Trx → World
world_of db t = record {
  store = db.store;
  manager = no_manager;
  trx = t;
  current_trx_id = db.kit.current_trx_id;
  log = [];
}

abbrev pub after_redo : Db → ℤ → World → Db
after_redo db trx_id w = record {
  store = w.store;
  kit = record { trxes = put_trx db.kit.trxes trx_id w.trx; current_trx_id = w.current_trx_id };
}

abbrev pub rid_of : ClogRecord → RowId
rid_of r = record {
  table_id = pos_part r.data_record.table_id;
  page_num = pos_part r.data_record.page_num;
  slot_num = pos_part r.data_record.slot_num;
}

-- A record that is replayed without a failure is followed by the rest.
unfoldable pub after_record :
    Option (Rc × Db)
    → (Db → Option (Result (Rc × Db) (Rc × Db)))
    → Option (Result (Rc × Db) (Rc × Db))
after_record none rest = none
after_record (some (rc, db)) rest = elim (ob_succ rc) [
  | false ↦ some (fail (rc, db))
  | true ↦ rest db
]

-- `row_of` reads a record's bytes as a row of its table, `table_exists` is `db->find_table`.
module _ (tables : Tables) (row_of : List ℕ → Row) (table_exists : ℕ → Bool) where
  -- `MvccTrx::redo` of a record of the file.
  unfoldable pub redo_record : ClogType → World → ClogRecord → Option (Rc × World)
  redo_record insert w r = redo tables table_exists w (
      inserted r.header.trx_id (rid_of r)
        (row_of (take (pos_part r.data_record.data_len) r.data_record.payload)))
  redo_record delete w r = redo tables table_exists w (deleted r.header.trx_id (rid_of r))
  redo_record mtr_commit w r =
      redo tables table_exists w (LogRecord.mtr_commit r.header.trx_id r.commit_xid)
  redo_record mtr_rollback w r = redo tables table_exists w (LogRecord.mtr_rollback r.header.trx_id)
  redo_record update w r =
      if not (table_exists (rid_of r).table_id) then some (schema_table_not_exist, w) else none
  redo_record _ w r = none

  unfoldable pub redo_found : Db → ClogRecord → Trx → Option (Rc × Db)
  redo_found db r t = elim (redo_record (log_type r) (world_of db t) r) [
    | none ↦ none
    | some (rc, w) ↦ some (rc, after_redo db r.header.trx_id w)
  ]

  -- The `switch` of `recover`; nothing where an ASSERT fails.
  unfoldable pub recover_record : ClogType → Db → ClogRecord → Option (Rc × Db)
  recover_record mtr_begin db r =
      some (success, record db { kit = create_trx_with_id db.kit r.header.trx_id })
  recover_record mtr_commit db r = elim (find_trx db.kit.trxes r.header.trx_id) [
    | none ↦ some (internal, db)
    | some t ↦ redo_found db r t
  ]
  recover_record mtr_rollback db r = elim (find_trx db.kit.trxes r.header.trx_id) [
    | none ↦ some (internal, db)
    | some t ↦ redo_found db r t
  ]
  recover_record _ db r = elim (find_trx db.kit.trxes r.header.trx_id) [
    | none ↦ none
    | some t ↦ redo_found db r t
  ]

  -- The loop of `recover`, on fuel: the code that ends it, or the code with which it returns.
  unfoldable pub recover_loop : ℕ → ClogFile → Db → Option (Result (Rc × Db) (Rc × Db))
  recover_loop zero f db = none
  recover_loop (suc fuel) f db = elim (next f) [
    | none ↦ none
    | some (rc, none, f') ↦ some (ok (rc, db))
    | some (rc, some r, f') ↦ elim (ob_succ rc) [
      | false ↦ some (ok (rc, db))
      | true ↦ after_record (recover_record (log_type r) db r) (recover_loop fuel f')
    ]
  ]

  -- The last loop of `recover`: every transaction of the kit is rolled back and destroyed.
  unfoldable pub rollback_all : List Trx → Db → Option Db
  rollback_all [] db = some (record db { kit = record (db.kit) { trxes = [] } })
  rollback_all (t ∷ ts) db = elim (rollback tables (world_of db t)) [
    | none ↦ none
    | some (rc, w) ↦
        rollback_all ts (record { store = w.store; kit = record (db.kit) { trxes = ts } })
  ]

  -- What `recover` does with the outcome of its loop.
  unfoldable pub finish : Option (Result (Rc × Db) (Rc × Db)) → Option (Rc × Db)
  finish none = none
  finish (some (fail (rc, db))) = some (rc, db)
  finish (some (ok (rc, db))) = elim (is_eof rc) [
    | false ↦ some (rc, db)
    | true ↦ elim (rollback_all db.kit.trxes db) [ none ↦ none | some db' ↦ some (success, db') ]
  ]

  unfoldable pub recover : ClogFile → Db → Option (Rc × Db)
  recover f db = finish (recover_loop (suc (length f.unread)) f db)
