-- ===== src/Log/Counter.antt =====
-- The number of the last transaction after the recovery of src/observer/storage/clog/clog.cpp.
use landbase.Base.{
  ℕ, ◌≡◌, refl, ◌∙◌, inl, inr, Bool, true, not, Option, none, some, List, [], ◌∷◌, arith,
  if◌then◌else◌, Bool-cases, Option-cases,
}
use landbase.Base.Int.{ℤ, pos, ltb_ℤ}
use landbase.Base.Result.{Result, ok, fail}
use landbase.Rc.{Rc, record_eof, record_invisible, ob_succ, is_eof}
use landbase.Mvcc.Rows.{Row, Tables}
use landbase.Mvcc.Trx.{Trx, World, rollback, check_row, increment}
use landbase.Mvcc.Counter.{Keeps, if_Keeps, redo_keeps}
use landbase.Log.Record.{
  ClogType, mtr_begin, mtr_commit, mtr_rollback, insert, update, delete, ClogRecord, log_type,
}
use landbase.Log.Recover.{
  Db, create_trx_with_id, find_trx, world_of, rid_of, redo_record, redo_found, recover_record,
  after_record, rollback_all, finish,
}
use landbase.Log.Replay.{replay}

-- The highest number among one number and those of the transactions that records begin.
unfoldable pub highest_with : ClogType → ℤ → ℤ → ℤ
highest_with mtr_begin c id = if ltb_ℤ c id then id else c
highest_with _ c id = c

unfoldable pub highest : ℤ → List ClogRecord → ℤ
highest c [] = c
highest c (r ∷ rs) = highest (highest_with (log_type r) c r.header.trx_id) rs

abbrev CounterIs : ℤ → Option (Rc × Db) → Type 0
CounterIs c none = Unit
CounterIs c (some (rc, db)) = db.kit.current_trx_id ≡ c

module _ (tables : Tables) (row_of : List ℕ → Row) (table_exists : ℕ → Bool) where
  redo_record_keeps :
      (type : ClogType) (w : World) (r : ClogRecord)
      → Keeps w (redo_record tables row_of table_exists type w r)
  unfolding redo_record
  redo_record_keeps insert w r = redo_keeps tables table_exists w _
  redo_record_keeps delete w r = redo_keeps tables table_exists w _
  redo_record_keeps mtr_commit w r = redo_keeps tables table_exists w _
  redo_record_keeps mtr_rollback w r = redo_keeps tables table_exists w _
  redo_record_keeps update w r = if_Keeps w (not (table_exists (rid_of r).table_id)) _ _ refl tt
  redo_record_keeps _ w r = tt

  redo_found_counter :
      (db : Db) (r : ClogRecord) (t : Trx)
      → CounterIs db.kit.current_trx_id (redo_found tables row_of table_exists db r t)
  unfolding redo_found
  redo_found_counter db r t =
      elim (Option-cases (redo_record tables row_of table_exists (log_type r) (world_of db t) r)) [
        | inl e ↦ rw (redo_found, e) tt
        | inr ((rc, w), e) ↦
            rw (redo_found, e) (rw e at (redo_record_keeps (log_type r) (world_of db t) r))
      ]

  looked_up :
      (db : Db) (r : ClogRecord) (o : Option Trx) (x : Option (Rc × Db))
      → CounterIs db.kit.current_trx_id x
      → CounterIs db.kit.current_trx_id
          (elim o [ none ↦ x | some t ↦ redo_found tables row_of table_exists db r t ])
  looked_up db r none x h = h
  looked_up db r (some t) x h = redo_found_counter db r t

  recover_record_counter :
      (type : ClogType) (db : Db) (r : ClogRecord)
      → CounterIs
          (highest_with type db.kit.current_trx_id r.header.trx_id)
          (recover_record tables row_of table_exists type db r)
  unfolding recover_record highest_with create_trx_with_id
  recover_record_counter mtr_begin db r = refl
  recover_record_counter mtr_commit db r =
      looked_up db r (find_trx db.kit.trxes r.header.trx_id) _ refl
  recover_record_counter mtr_rollback db r =
      looked_up db r (find_trx db.kit.trxes r.header.trx_id) _ refl
  recover_record_counter _ db r = looked_up db r (find_trx db.kit.trxes r.header.trx_id) _ tt

  abbrev Outcome : ℤ → Option (Result (Rc × Db) (Rc × Db)) → Type 0
  Outcome c none = Unit
  Outcome c (some (fail e)) = Unit
  Outcome c (some (ok (rc, db))) = db.kit.current_trx_id ≡ c

  after_record_counter :
      (c d : ℤ) (x : Option (Rc × Db)) (rest : Db → Option (Result (Rc × Db) (Rc × Db)))
      → CounterIs c x
      → ((db : Db) → db.kit.current_trx_id ≡ c → Outcome d (rest db))
      → Outcome d (after_record x rest)
  unfolding after_record
  after_record_counter c d none rest h k = tt
  after_record_counter c d (some (rc, db)) rest h k = elim (Bool-cases (ob_succ rc)) [
    | inl good ↦ rw (after_record, good) (k db h)
    | inr bad ↦ rw (after_record, bad) tt
  ]

  replay_counter :
      (end : Rc) (rs : List ClogRecord) (db : Db)
      → Outcome (highest db.kit.current_trx_id rs) (replay tables row_of table_exists end rs db)
  unfolding replay highest
  replay_counter end [] db = refl
  replay_counter end (r ∷ rs) db =
      after_record_counter (highest_with (log_type r) db.kit.current_trx_id r.header.trx_id) _
        (recover_record tables row_of table_exists (log_type r) db r)
        (replay tables row_of table_exists end rs) (recover_record_counter (log_type r) db r)
        (λ db' e. rw (← e) (replay_counter end rs db'))

  abbrev AllCounter : ℤ → Option Db → Type 0
  AllCounter c none = Unit
  AllCounter c (some db) = db.kit.current_trx_id ≡ c

  rollback_all_counter :
      (ts : List Trx) (db : Db)
      → AllCounter db.kit.current_trx_id (rollback_all tables row_of table_exists ts db)
  unfolding rollback_all
  rollback_all_counter [] db = refl
  rollback_all_counter (t ∷ ts) db = elim (Option-cases (rollback tables (world_of db t))) [
    | inl e ↦ rw (rollback_all, e) tt
    | inr ((rc, w), e) ↦ rw (rollback_all, e) (rollback_all_counter ts _)
  ]

  finish_counter :
      (db : Db)
      → CounterIs db.kit.current_trx_id
          (finish tables row_of table_exists (some (ok (record_eof, db))))
  unfolding finish is_eof
  finish_counter db =
      elim (Option-cases (rollback_all tables row_of table_exists db.kit.trxes db)) [
        | inl e ↦ rw (finish, e) tt
        | inr (db', e) ↦ rw (finish, e) (rw e at (rollback_all_counter db.kit.trxes db))
      ]

  later_row :
      (id : ℤ) (row : Row) (readonly : Bool)
      → ltb_ℤ (pos 0) row.begin_xid ≡ true
      → ltb_ℤ (pos 0) row.end_xid ≡ true
      → ltb_ℤ id row.begin_xid ≡ true
      → check_row id row readonly ≡ record_invisible
  unfolding check_row
  later_row id row readonly made ends above = ground (arith, made, ends, above)

  -- The recovery that reaches the end of the log and answers leaves the counter at the highest number
  -- at which a record begins a transaction, or at the number it started from: the numbers that commit
  -- records carry do not count. The next transaction does not see a row with a positive beginning
  -- above its own number and a positive end, so none that was committed above it and that no
  -- transaction is deleting.
  pub recovered_counter :
      (rs : List ClogRecord) (db db1 db' : Db) (rc : Rc)
      → replay tables row_of table_exists record_eof rs db ≡ some (ok (record_eof, db1))
      → finish tables row_of table_exists (some (ok (record_eof, db1))) ≡ some (rc, db')
      → (db'.kit.current_trx_id ≡ highest db.kit.current_trx_id rs)
        × ((row : Row) (readonly : Bool)
            → ltb_ℤ (pos 0) row.begin_xid ≡ true
            → ltb_ℤ (pos 0) row.end_xid ≡ true
            → ltb_ℤ (increment db'.kit.current_trx_id) row.begin_xid ≡ true
            → check_row (increment db'.kit.current_trx_id) row readonly ≡ record_invisible)
  recovered_counter rs db db1 db' rc replayed finished = (
    (rw finished at (finish_counter db1)) ∙ (rw replayed at (replay_counter record_eof rs db)),
    later_row (increment db'.kit.current_trx_id),
  )
