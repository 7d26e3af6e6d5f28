-- ===== src/Log/Crash.antt =====
-- The recovery of src/observer/storage/clog/clog.cpp for the log of one transaction, with the redo and
-- the rollback of src/observer/storage/trx/mvcc_trx.cpp.
use landbase.Base.{
  ℕ, suc, ◌≡◌, refl, ap, ◌∙◌, ◌≢◌, Bool, true, Option, none, some, List, [], ◌∷◌, ◌++◌, take,
}
use landbase.Base.Int.{ℤ, pos, neg, pos_part, eqb_ℤ_self}
use landbase.Base.Result.{ok}
use landbase.Rc.{Rc, success, record_eof, ob_succ, is_eof}
use landbase.Mvcc.Rows.{Row, RowId, Store, set_row, Tables}
use landbase.Mvcc.Trx.{Trx, recover_trx, World, ended, insert, max_trx_id}
use landbase.Mvcc.Effects.{lookup_operation}
use landbase.Mvcc.Atomic.{TracksRows, Tracks, rollback_restores}
use landbase.Mvcc.Change.{max_positive}
use landbase.Mvcc.Redo.{redo_inserted, redo_deleted}
use landbase.Log.Record.{ClogType, mtr_begin, delete, ClogRecord, log_type}
use landbase.Log.Recover.{
  Db, create_trx_with_id, find_trx, put_trx, world_of, rid_of, redo_record, recover_record,
  redo_found, after_redo, after_record, rollback_all, finish,
}
use landbase.Log.Replay.{replay}

module _ (tables : Tables) (row_of : List ℕ → Row) (table_exists : ℕ → Bool) where
  abbrev pub row_in : ClogRecord → Row
  row_in r = row_of (take (pos_part r.data_record.data_len) r.data_record.payload)

  -- A record of a change that the rows allow: an insertion into a free slot, with the mark of its
  -- transaction and accepted by the indexes, or a deletion of the newest version of a row that the
  -- transaction did not insert.
  abbrev pub IsApplicable : ClogType → World → ClogRecord → Type 0
  IsApplicable ClogType.insert w r =
      (w.store.row (rid_of r) ≡ none)
      × ((row_in r).begin_xid ≡ neg w.trx.trx_id)
      × (tables.insert_entries (set_row w.store (rid_of r) (some (row_in r))) (rid_of r) (row_in r)
          ≡ success)
  IsApplicable delete w r =
      (row : Row) × (w.store.row (rid_of r) ≡ some row)
      × (row.end_xid ≡ max_trx_id)
      × (lookup_operation (rid_of r) w.trx.operations ≢ some insert)
  IsApplicable _ w r = ⊥

  -- The kit holds one transaction that recovers, and the rows are as `before` but for its operations.
  pub record IsAlone (before : RowId → Option Row) (n : ℕ) (db : Db) : Type 0 where
    pub trx : Trx
    pub alone : db.kit.trxes ≡ trx ∷ []
    pub own : trx.trx_id ≡ pos (suc n)
    pub tracks : Tracks tables before (world_of db trx)

  -- Records of one transaction, each applicable when it is replayed.
  abbrev pub AreApplicable : ℕ → List ClogRecord → Db → Type 0
  AreApplicable n [] db = Unit
  AreApplicable n (r ∷ rs) db =
      (r.header.trx_id ≡ pos (suc n))
      × (table_exists (rid_of r).table_id ≡ true)
      × ((t : Trx) → db.kit.trxes ≡ t ∷ [] → IsApplicable (log_type r) (world_of db t) r)
      × ((db' : Db)
          → recover_record tables row_of table_exists (log_type r) db r ≡ some (success, db')
          → AreApplicable n rs db')

  redo_alone :
      (before : RowId → Option Row) (w : World) (type : ClogType) (r : ClogRecord) (n : ℕ)
      → Tracks tables before w
      → w.trx.trx_id ≡ pos (suc n)
      → table_exists (rid_of r).table_id ≡ true
      → IsApplicable type w r
      → (s : Store) × (t : Trx) × (redo_record tables row_of table_exists type w r
          ≡ some (success, record w { store = s; trx = t }))
        × (t.trx_id ≡ pos (suc n))
        × TracksRows tables before t.trx_id t.operations s
  unfolding redo_record
  redo_alone before w ClogType.insert r n tr own known (free, mark, accepted) =
      let (ops, s, done, tr') =
        redo_inserted tables table_exists before w tr (rid_of r) known r.header.trx_id (row_in r)
          free mark accepted in
      (s, record (w.trx) { operations = ops }, done, own, tr')
  redo_alone before w delete r n tr own known (row, here, newest, not_own) =
      let (ops, s, done, tr') =
        redo_deleted tables table_exists before w tr (rid_of r) known r.header.trx_id row here
          newest (rw own (max_positive n)) not_own in
      (s, record (w.trx) { operations = ops }, done, own, tr')
  redo_alone before w _ r n tr own known h = absurd h

  found_alone :
      (before : RowId → Option Row) (db : Db) (n : ℕ) (id : ℤ) (h : IsAlone before n db)
      → id ≡ pos (suc n)
      → find_trx db.kit.trxes id ≡ some h.trx
  unfolding find_trx
  found_alone before db n id h e =
      rw (h.alone, e, find_trx) (rw (h.own, eqb_ℤ_self (pos (suc n))) refl)

  put_alone :
      (before : RowId → Option Row) (db : Db) (n : ℕ) (id : ℤ) (t : Trx) (h : IsAlone before n db)
      → id ≡ pos (suc n)
      → put_trx db.kit.trxes id t ≡ t ∷ []
  unfolding put_trx
  put_alone before db n id t h e =
      rw (h.alone, e, put_trx) (rw (h.own, eqb_ℤ_self (pos (suc n))) refl)

  redo_found-IsAlone :
      (before : RowId → Option Row) (db : Db) (r : ClogRecord) (n : ℕ) (h : IsAlone before n db)
      → r.header.trx_id ≡ pos (suc n)
      → table_exists (rid_of r).table_id ≡ true
      → IsApplicable (log_type r) (world_of db h.trx) r
      → (db' : Db) × (redo_found tables row_of table_exists db r h.trx ≡ some (success, db'))
        × IsAlone before n db'
  unfolding redo_found
  redo_found-IsAlone before db r n h same_trx known app =
      let (s, t, done, own, tr) =
        redo_alone before (world_of db h.trx) (log_type r) r n h.tracks h.own known app in
      (
        after_redo db r.header.trx_id (record (world_of db h.trx) { store = s; trx = t }),
        rw (redo_found, done) refl,
        record {
          trx = t;
          alone = put_alone before db n r.header.trx_id t h same_trx;
          own = own;
          tracks = tr;
        },
      )

  at_found :
      (before : RowId → Option Row) (db : Db) (r : ClogRecord) (n : ℕ) (type : ClogType)
      (h : IsAlone before n db)
      → r.header.trx_id ≡ pos (suc n)
      → IsApplicable type (world_of db h.trx) r
      → recover_record tables row_of table_exists type db r
        ≡ redo_found tables row_of table_exists db r h.trx
  unfolding recover_record
  at_found before db r n ClogType.insert h e app =
      rw (recover_record, found_alone before db n r.header.trx_id h e) refl
  at_found before db r n delete h e app =
      rw (recover_record, found_alone before db n r.header.trx_id h e) refl
  at_found before db r n _ h e app = absurd app

  -- The changes of the only transaction are replayed, whichever they are.
  replay-IsAlone :
      (end : Rc) (before : RowId → Option Row) (n : ℕ) (rs : List ClogRecord) (db : Db)
      → IsAlone before n db
      → AreApplicable n rs db
      → (db' : Db) × (replay tables row_of table_exists end rs db ≡ some (ok (end, db')))
        × IsAlone before n db'
  unfolding replay after_record ob_succ
  replay-IsAlone end before n [] db h app = (db, refl, h)
  replay-IsAlone end before n (r ∷ rs) db h (same_trx, known, app, later) =
      let (db1, done, h1) = redo_found-IsAlone before db r n h same_trx known (app h.trx h.alone) in
      let step = at_found before db r n (log_type r) h same_trx (app h.trx h.alone) ∙ done in
      let (db2, rest, h2) = replay-IsAlone end before n rs db1 h1 (later db1 step) in
      (db2, rw (replay, step, after_record) rest, h2)

  rollback_alone :
      (before : RowId → Option Row) (n : ℕ) (db : Db)
      → IsAlone before n db
      → (db' : Db) × (finish tables row_of table_exists (some (ok (record_eof, db)))
          ≡ some (success, db'))
        × ((i : RowId) → db'.store.row i ≡ before i)
        × (db'.kit.trxes ≡ [])
  unfolding finish rollback_all is_eof
  rollback_alone before n db h =
      let (w, done, rows, ops, stopped) =
        rollback_restores tables before (world_of db h.trx) h.tracks in
      (
        record { store = w.store; kit = record (db.kit) { trxes = [] } },
        rw (finish, h.alone, rollback_all, done) refl,
        rows,
        refl,
      )

  -- The recovery of a transaction that began and did not end, in a kit without others, with any number
  -- of insertions and deletions in the log that apply to the rows as they are found: it succeeds,
  -- every row is as before the transaction, and the kit is left without transactions.
  pub crash_restores :
      (db : Db) (n : ℕ) (r : ClogRecord) (rs : List ClogRecord)
      → db.kit.trxes ≡ []
      → log_type r ≡ mtr_begin
      → r.header.trx_id ≡ pos (suc n)
      → AreApplicable n rs (record db { kit = create_trx_with_id db.kit (pos (suc n)) })
      → (db' : Db) × (finish tables row_of table_exists
            (replay tables row_of table_exists record_eof (r ∷ rs) db)
          ≡ some (success, db'))
        × ((i : RowId) → db'.store.row i ≡ db.store.row i)
        × (db'.kit.trxes ≡ [])
  unfolding replay recover_record create_trx_with_id recover_trx after_record ob_succ
      lookup_operation
  crash_restores db n r rs idle kind own app =
      let started : IsAlone db.store.row n
          (record db { kit = create_trx_with_id db.kit (pos (suc n)) }) =
        record {
          trx = recover_trx (pos (suc n));
          alone = ap (λ ts. ts ++ (recover_trx (pos (suc n)) ∷ [])) idle;
          own = refl;
          tracks = record { distinct = tt; rows = λ i. refl };
        } in
      let (db1, done, h1) =
        replay-IsAlone record_eof db.store.row n rs
          (record db { kit = create_trx_with_id db.kit (pos (suc n)) }) started app in
      let (db2, ended, rows, gone) = rollback_alone db.store.row n db1 h1 in
      (db2, rw (replay, kind, recover_record, own, after_record, done) ended, rows, gone)
