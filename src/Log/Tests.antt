-- ===== src/Log/Tests.antt =====
-- A small log and a disk, and the theorems at them.
use landbase.Base.{
  ℕ, ◌+◌, ◌≡◌, ◌≢◌, ◌<◌, refl, ap, Bool, true, false, none, some, List, [], ◌∷◌, ◌++◌, map, arith,
  take, length, All,
}
use landbase.Base.Int.{ℤ, pos, neg, ltb_ℤ}
use landbase.Base.Result.{ok, fail}
use landbase.Rc.{
  Rc, success, record_nomem, record_eof, ioerr_read, record_invisible, ob_succ, is_eof,
}
use landbase.Mvcc.Rows.{Row, RowId, Tables}
use landbase.Mvcc.Trx.{
  Trx, recover_trx, max_trx_id, check_row, increment, redo, commit_with_trx_id, commit_operations,
  rollback, rollback_operations,
}
use landbase.Log.Record.{
  ClogType, mtr_begin, ClogRecord, log_type, build_mtr_record, build_commit_record,
  build_data_record, clog_type_to_integer, clog_type_from_integer, header_bytes, data_header_bytes,
}
use landbase.Log.File.{ClogFile, init}
use landbase.Log.Buffer.{Disk, clog_buffer_size, ClogManager, commit_trx}
use landbase.Log.Entry.{
  Entry, begun, committed, changed, record_of, IsValid, entry_bytes, body_bytes,
}
use landbase.Log.Recover.{
  Db, create_trx_with_id, find_trx, put_trx, redo_record, redo_found, recover_record, after_record,
  recover, rollback_all, finish,
}
use landbase.Log.Replay.{all_bytes, replay, recover_lem, recover_torn}
use landbase.Log.Durable.{Holds, total_len, commit_trx_durable}
use landbase.Log.Crash.{AreApplicable, crash_restores}
use landbase.Log.Counter.{highest, recovered_counter}

none≢some : {i : RowId} → none ≢ some i
none≢some e = cc e

nomem_fails : ob_succ record_nomem ≡ false
unfolding ob_succ
nomem_fails = refl

abbrev tables : Tables
tables = record {
  place = λ s t. none;
  failure = λ s t. record_nomem;
  failure_fails = λ s t. nomem_fails;
  insert_entries = λ s i r. success;
  has_index = λ t. true;
  place_free = λ s t i e. absurd (none≢some e);
}

-- The bytes of a row are those after its two transaction fields; the begin field is the first byte.
abbrev row_of : List ℕ → Row
row_of [] = record { begin_xid = pos 0; end_xid = max_trx_id; fields = [] }
row_of (b ∷ bytes) = record { begin_xid = neg (pos b); end_xid = max_trx_id; fields = bytes }

abbrev known : ℕ → Bool
known t = true

abbrev empty_db : Db
empty_db = record {
  store = record { row = λ i. none; indexed = λ i. false };
  kit = record { trxes = []; current_trx_id = pos 0 };
}

abbrev insertion : Entry
insertion = changed ClogType.insert (pos 2) (pos 1) (pos 1) (pos 0) (pos 0) (2 ∷ 7 ∷ [])

-- Two transactions; the second commits with number 4.
abbrev entries : List Entry
entries =
    begun (pos 1)
    ∷ begun (pos 2)
    ∷ insertion
    ∷ committed (pos 1) (pos 3)
    ∷ committed (pos 2) (pos 4)
    ∷ []

insertion-IsValid : IsValid insertion
insertion-IsValid =
    (tt, omega arith, omega arith, omega arith, omega arith, omega arith, omega arith)

entries-IsValid : All IsValid entries
entries-IsValid = (
  omega arith,
  (
    omega arith,
    (insertion-IsValid, ((omega arith, omega arith), ((omega arith, omega arith), tt))),
  ),
)

abbrev torn_file : ClogFile
torn_file = record { contents = []; unread = all_bytes entries ++ (255 ∷ 255 ∷ []); eof = false }

recover_lem_example :
    ((rc : Rc) (db1 : Db)
      → replay tables row_of known record_eof (map record_of entries) empty_db
        ≡ some (fail (rc, db1))
      → recover tables row_of known torn_file empty_db ≡ some (rc, db1))
    × ((db1 db2 : Db)
        → replay tables row_of known record_eof (map record_of entries) empty_db
          ≡ some (ok (record_eof, db1))
        → rollback_all tables row_of known db1.kit.trxes db1 ≡ some db2
        → (recover tables row_of known torn_file empty_db ≡ some (success, db2))
          × (db2.kit.trxes ≡ []))
    × (replay tables row_of known record_eof (map record_of entries) empty_db ≡ none
        → recover tables row_of known torn_file empty_db ≡ none)
recover_lem_example =
    recover_lem tables row_of known entries (255 ∷ 255 ∷ []) torn_file empty_db entries-IsValid
      (omega arith) refl

abbrev cut_file : ClogFile
cut_file = record {
  contents = [];
  unread = all_bytes entries ++ take 30 (entry_bytes insertion);
  eof = false;
}

longer : 30 < length (entry_bytes insertion)
unfolding entry_bytes record_of build_data_record header_bytes body_bytes data_header_bytes
    landbase.Log.Int32.int32_bytes landbase.Net.Wire.le_bytes
longer = omega arith

recover_torn_example :
    ((rc : Rc) (db1 : Db)
      → replay tables row_of known ioerr_read (map record_of entries) empty_db
        ≡ some (fail (rc, db1))
      → recover tables row_of known cut_file empty_db ≡ some (rc, db1))
    × ((db1 : Db)
        → replay tables row_of known ioerr_read (map record_of entries) empty_db
          ≡ some (ok (ioerr_read, db1))
        → recover tables row_of known cut_file empty_db ≡ some (ioerr_read, db1))
recover_torn_example =
    recover_torn tables row_of known entries insertion 30 cut_file empty_db entries-IsValid
      insertion-IsValid (omega arith) longer refl

abbrev disk : Disk
disk = record { writen = λ contents bytes. (true, contents ++ bytes); fsync = λ contents. true }

abbrev manager : ClogManager
manager = record {
  log_buffer = record { log_records = map record_of entries; total_size = 34 };
  log_file = record { contents = all_bytes (begun (pos 9) ∷ []); unread = []; eof = true };
}

manager_holds : Holds disk (λ c b. refl) manager (begun (pos 9) ∷ []) entries
unfolding total_len body_bytes record_of build_data_record data_header_bytes
    landbase.Log.Int32.int32_bytes landbase.Net.Wire.le_bytes
manager_holds = record {
  records = refl;
  size = refl;
  file = refl;
  old_valid = (omega arith, tt);
  valid = entries-IsValid;
}

room_left : total_len entries + 4 < clog_buffer_size
unfolding total_len body_bytes record_of build_data_record data_header_bytes
    landbase.Log.Int32.int32_bytes landbase.Net.Wire.le_bytes
room_left = omega arith

commit_trx_durable_example :
    (m' : ClogManager) × (commit_trx disk manager (pos 9) (pos 10) ≡ some (success, m'))
    × (m'.log_buffer.log_records ≡ [])
    × (m'.log_buffer.total_size ≡ 0)
    × ((db : Db)
        → recover tables row_of known (init m'.log_file.contents) db
          ≡ finish tables row_of known (
              replay tables row_of known record_eof
                (map record_of
                  ((begun (pos 9) ∷ []) ++ (entries ++ (committed (pos 9) (pos 10) ∷ []))))
                db))
commit_trx_durable_example =
    commit_trx_durable disk (λ c b. refl) manager (begun (pos 9) ∷ []) entries (pos 9) (pos 10)
      manager_holds (omega arith) (omega arith) room_left (λ c. refl) tables row_of known

abbrev begin_record : ClogRecord
begin_record = record_of (begun (pos 5))

abbrev insert_record : ClogRecord
insert_record =
    record_of (changed ClogType.insert (pos 5) (pos 1) (pos 1) (pos 0) (pos 0) (5 ∷ 7 ∷ []))

begin_type : log_type begin_record ≡ mtr_begin
unfolding log_type record_of build_mtr_record clog_type_to_integer clog_type_from_integer
begin_type = refl

begin_trx_id : begin_record.header.trx_id ≡ pos 5
unfolding record_of build_mtr_record
begin_trx_id = refl

abbrev first_mark : List Trx → ℤ
first_mark [] = pos 0
first_mark (t ∷ ts) = neg t.trx_id

insert_applicable : AreApplicable tables row_of known 4 (insert_record ∷ []) (record empty_db {
  kit = create_trx_with_id (record { trxes = []; current_trx_id = pos 0 }) (pos 5);
})
unfolding log_type record_of build_data_record clog_type_to_integer clog_type_from_integer
    create_trx_with_id recover_trx
insert_applicable = (refl, refl, (λ t e. (refl, ap first_mark e, refl)), λ db' e. tt)

crash_restores_example :
    (db' : Db) × (finish tables row_of known
        (replay tables row_of known record_eof (begin_record ∷ insert_record ∷ []) empty_db)
      ≡ some (success, db'))
    × ((i : RowId) → db'.store.row i ≡ none)
    × (db'.kit.trxes ≡ [])
crash_restores_example =
    crash_restores tables row_of known empty_db 4 begin_record (insert_record ∷ []) refl begin_type
      begin_trx_id insert_applicable

abbrev commits : List ClogRecord
commits =
    map record_of
      (begun (pos 1) ∷ begun (pos 2) ∷ committed (pos 1) (pos 3) ∷ committed (pos 2) (pos 4) ∷ [])

abbrev replayed_db : Db
replayed_db = record empty_db {
  kit = record {
    trxes =
        record { trx_id = pos 1; started = false; recovering = true; operations = [] }
        ∷ record { trx_id = pos 2; started = false; recovering = true; operations = [] }
        ∷ [];
    current_trx_id = pos 2;
  };
}

abbrev recovered_db : Db
recovered_db = record empty_db { kit = record { trxes = []; current_trx_id = pos 2 } }

commits_replayed :
    replay tables row_of known record_eof commits empty_db ≡ some (ok (record_eof, replayed_db))
unfolding replay recover_record create_trx_with_id recover_trx after_record ob_succ find_trx put_trx
    redo_found redo_record redo commit_with_trx_id landbase.Mvcc.Trx.log_commit commit_operations
    log_type record_of build_mtr_record build_commit_record clog_type_to_integer
    clog_type_from_integer
commits_replayed = refl

commits_finished :
    finish tables row_of known (some (ok (record_eof, replayed_db))) ≡ some (success, recovered_db)
unfolding finish is_eof rollback_all rollback rollback_operations
commits_finished = refl

recovered_counter_example :
    (recovered_db.kit.current_trx_id ≡ highest (pos 0) commits)
    × ((row : Row) (readonly : Bool)
        → ltb_ℤ (pos 0) row.begin_xid ≡ true
        → ltb_ℤ (pos 0) row.end_xid ≡ true
        → ltb_ℤ (increment recovered_db.kit.current_trx_id) row.begin_xid ≡ true
        → check_row (increment recovered_db.kit.current_trx_id) row readonly ≡ record_invisible)
recovered_counter_example =
    recovered_counter tables row_of known commits empty_db replayed_db recovered_db success
      commits_replayed commits_finished

-- The next transaction has number 3, and does not see a row that the second one committed.
committed_row_unseen :
    check_row
      (increment recovered_db.kit.current_trx_id)
      (record { begin_xid = pos 4; end_xid = max_trx_id; fields = [] })
      true
    ≡ record_invisible
unfolding check_row increment
committed_row_unseen = refl
