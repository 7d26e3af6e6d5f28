-- ===== src/Log/Replay.antt =====
-- The recovery of src/observer/storage/clog/clog.cpp over a file whose end may be torn: it replays the
-- records that the file holds whole.
use landbase.Base.{
  ℕ, zero, suc, ◌-◌, ◌≤◌, ◌<◌, ◌≡◌, refl, ap, ◌∙◌, inl, inr, Option-cases, Bool, true, false,
  Option, none, some, List, [], ◌∷◌, ◌++◌, map, arith, lt→leb-false, take, drop, length,
  length-append, length-take, take-split, append_assoc, All,
}
use landbase.Base.Int.{pos, ltb_ℤ}
use landbase.Base.Result.{Result, ok, fail}
use landbase.Rc.{Rc, success, ioerr_read, record_eof, ob_succ, is_eof}
use landbase.Mvcc.Rows.{Row, Tables}
use landbase.Mvcc.Trx.{Trx, rollback}
use mathlib.Core.Option.{none-ne-some}
use landbase.Net.Wire.{le_bytes}
use landbase.Net.Wire.Lenenc.{take-append, drop-append}
use landbase.Log.Int32.{int32_bytes}
use landbase.Log.Record.{
  ClogRecordHeader, ClogRecord, build_mtr_record, build_commit_record, build_data_record,
  data_header_bytes, log_type, header_bytes, record_header_size,
}
use landbase.Log.File.{ClogFile, readn, read, next_body, next_header, next}
use landbase.Log.Entry.{
  Entry, record_of, IsValid, entry_bytes, body_bytes, header_size, entry_header, begun, rolled_back,
  committed, changed,
}
use landbase.Log.Reading.{with_unread, next_lem, next_after_header}
use landbase.Log.Recover.{
  Db, after_record, recover_record, recover_loop, world_of, rollback_all, finish, recover,
}

-- The bytes that the buffer writes for some entries.
unfoldable pub all_bytes : List Entry → List ℕ
all_bytes [] = []
all_bytes (e ∷ es) = entry_bytes e ++ all_bytes es

read_short :
    (f : ClogFile) (n : ℕ)
    → length f.unread < n
    → (bytes : List ℕ) × (f' : ClogFile) × (read f n ≡ (ioerr_read, bytes, f')) × (f'.eof ≡ true)
unfolding read readn
read_short f n h = (
  take n f.unread,
  record f { unread = drop n f.unread; eof = true },
  rw (read, lt→leb-false (length f.unread) n h) refl,
  refl,
)

-- A file that ends in the header of a record, or before it, is read as one that ends.
pub torn_header :
    (f : ClogFile)
    → length f.unread < record_header_size
    → (f' : ClogFile) × (next f ≡ some (record_eof, none, f'))
unfolding next next_header ob_succ
torn_header f h =
    let (bytes, f', e, at_end) = read_short f record_header_size h in
    (f', rw (next, e, at_end, next_header) refl)

-- The length in a record's header is that of its body.
pub entry_len : (e : Entry) → (record_of e).header.logrec_len ≡ pos (length (body_bytes e))
unfolding record_of build_mtr_record build_commit_record build_data_record body_bytes
    data_header_bytes int32_bytes le_bytes
entry_len (begun trx_id) = refl
entry_len (rolled_back trx_id) = refl
entry_len (committed trx_id commit_xid) = refl
entry_len (changed type trx_id table_id page_num slot_num offset payload) = ap pos (omega arith)

-- A part of a record that holds its header.
take_entry :
    (e : Entry) (k : ℕ)
    → record_header_size ≤ k
    → take k (entry_bytes e)
      ≡ header_bytes (record_of e).header ++ take (k - record_header_size) (body_bytes e)
unfolding entry_bytes
take_entry e k le =
    take-split record_header_size (k - record_header_size) k (entry_bytes e) (omega arith)
    ∙ rw
        (
          header_size (record_of e).header,
          take-append (header_bytes (record_of e).header) (body_bytes e),
          drop-append (header_bytes (record_of e).header) (body_bytes e),
        )
        refl

next_body_short :
    (h : ClogRecordHeader) (f : ClogFile) (n : ℕ)
    → length f.unread < n
    → (f' : ClogFile) × (next_body h (read f n) ≡ some (ioerr_read, none, f'))
unfolding next_body ob_succ
next_body_short h f n short =
    let (bytes, f', e, at_end) = read_short f n short in (f', ap (next_body h) e)

-- A file that ends in the body of a record is not read as one that ends.
pub torn_body :
    (e : Entry) (k : ℕ) (f : ClogFile)
    → IsValid e
    → record_header_size ≤ k
    → k < length (entry_bytes e)
    → f.unread ≡ take k (entry_bytes e)
    → (f' : ClogFile) × (next f ≡ some (ioerr_read, none, f'))
unfolding entry_bytes
torn_body e k f v le lt h =
    let (a, b, c, d) = entry_header e v in
    let rest = take (k - record_header_size) (body_bytes e) in
    let size = length-append (header_bytes (record_of e).header) (body_bytes e) in
    let (f', fails) =
      next_body_short (record_of e).header (with_unread f rest) (length (body_bytes e)) (
        omega (
          arith,
          length-take (k - record_header_size) (body_bytes e),
          size,
          header_size (record_of e).header,
        )) in
    (
      f',
      next_after_header f (record_of e).header rest a b c d (h ∙ take_entry e k le)
          ∙ rw
              (
                entry_len e,
                positive (length (body_bytes e))
                    (omega (arith, size, header_size (record_of e).header)),
              )
              fails,
    )
  where
    positive : (n : ℕ) → 0 < n → ltb_ℤ (pos 0) (pos n) ≡ true
    positive n some_left = ground arith

module _ (tables : Tables) (row_of : List ℕ → Row) (table_exists : ℕ → Bool) where
  -- Records one after another, up to one that fails; `end` is the code at the end of them.
  unfoldable pub replay : Rc → List ClogRecord → Db → Option (Result (Rc × Db) (Rc × Db))
  replay end [] db = some (ok (end, db))
  replay end (r ∷ rs) db =
      after_record (recover_record tables row_of table_exists (log_type r) db r) (replay end rs)

  recover_loop_lem :
      (end : Rc) (tail : List ℕ)
      → ob_succ end ≡ false
      → ((f : ClogFile) → f.unread ≡ tail → (f' : ClogFile) × (next f ≡ some (end, none, f')))
      → (es : List Entry) (fuel : ℕ) (f : ClogFile) (db : Db) → All IsValid es
      → length es < fuel
      → f.unread ≡ all_bytes es ++ tail
      → recover_loop tables row_of table_exists fuel f db ≡ replay end (map record_of es) db
  unfolding recover_loop replay all_bytes ob_succ
  recover_loop_lem end tail bad ends es zero f db v enough h = absurd (omega arith)
  recover_loop_lem end tail bad ends [] (suc fuel) f db v enough h =
      let (f', e) = ends f h in rw (recover_loop, e) refl
  recover_loop_lem end tail bad ends (e ∷ es) (suc fuel) f db v enough h =
      rw
        (
          recover_loop,
          next_lem e f (all_bytes es ++ tail) (v.0)
              (h ∙ append_assoc (entry_bytes e) (all_bytes es) tail),
        )
        (ap
          (after_record
            (recover_record tables row_of table_exists (log_type (record_of e)) db (record_of e)))
          (λ i db'.
            recover_loop_lem end tail bad ends es fuel (with_unread f (all_bytes es ++ tail)) db'
              (v.1) (omega arith) refl i))

  entry_bytes_long : (e : Entry) → record_header_size ≤ length (entry_bytes e)
  unfolding entry_bytes
  entry_bytes_long e = omega (
    arith,
    length-append (header_bytes (record_of e).header) (body_bytes e),
    header_size (record_of e).header,
  )

  all_bytes_long : (es : List Entry) → length es ≤ length (all_bytes es)
  unfolding all_bytes
  all_bytes_long [] = omega arith
  all_bytes_long (e ∷ es) =
      omega
        (arith, length-append (entry_bytes e) (all_bytes es), entry_bytes_long e, all_bytes_long es)

  -- As the code composes it: the replay, and what `recover` does with its outcome.
  pub recover-finish :
      (es : List Entry) (tail : List ℕ) (f : ClogFile) (db : Db)
      → All IsValid es
      → length tail < record_header_size
      → f.unread ≡ all_bytes es ++ tail
      → recover tables row_of table_exists f db
        ≡ finish tables row_of table_exists (replay record_eof (map record_of es) db)
  unfolding recover ob_succ
  recover-finish es tail f db v short h = ap (finish tables row_of table_exists) (
      recover_loop_lem record_eof tail refl (λ f' e. torn_header f' (rw e short)) es
        (suc (length f.unread)) f db v
        (rw h (omega (arith, length-append (all_bytes es) tail, all_bytes_long es))) h)

  rolled_back_kit :
      (ts : List Trx) (db db' : Db)
      → rollback_all tables row_of table_exists ts db ≡ some db'
      → db'.kit.trxes ≡ []
  unfolding rollback_all
  rolled_back_kit [] db db' e = cc e
  rolled_back_kit (t ∷ ts) db db' e = elim (Option-cases (rollback tables (world_of db t))) [
    | inl gone ↦ absurd (none-ne-some db' (rw (rollback_all, gone) at e))
    | inr ((rc, w), done) ↦ rolled_back_kit ts _ db' (rw (rollback_all, done) at e)
  ]

  -- The recovery from a file whose records are followed by less than the header of another, or by
  -- nothing; the fuel is enough. If a record fails, it answers that code with the rows and the kit as
  -- they are then. If all are replayed, it rolls back every transaction of the kit: it succeeds with
  -- what that leaves, and with an empty kit, if these rollbacks meet no failed ASSERT. A failed ASSERT
  -- of the replay is one of the recovery.
  pub recover_lem :
      (es : List Entry) (tail : List ℕ) (f : ClogFile) (db : Db)
      → All IsValid es
      → length tail < record_header_size
      → f.unread ≡ all_bytes es ++ tail
      → ((rc : Rc) (db1 : Db)
          → replay record_eof (map record_of es) db ≡ some (fail (rc, db1))
          → recover tables row_of table_exists f db ≡ some (rc, db1))
        × ((db1 db2 : Db)
            → replay record_eof (map record_of es) db ≡ some (ok (record_eof, db1))
            → rollback_all tables row_of table_exists db1.kit.trxes db1 ≡ some db2
            → (recover tables row_of table_exists f db ≡ some (success, db2))
              × (db2.kit.trxes ≡ []))
        × (replay record_eof (map record_of es) db ≡ none
            → recover tables row_of table_exists f db ≡ none)
  unfolding finish is_eof
  recover_lem es tail f db v short h =
      let whole = recover-finish es tail f db v short h in
      (
        λ rc db1 e. whole ∙ rw e refl,
        λ db1 db2 e back.
            (whole ∙ rw (e, finish, back) refl, rolled_back_kit db1.kit.trxes db1 db2 back),
        λ e. whole ∙ rw e refl,
      )

  recover-finish_torn :
      (es : List Entry) (e : Entry) (k : ℕ) (f : ClogFile) (db : Db)
      → All IsValid es
      → IsValid e
      → record_header_size ≤ k
      → k < length (entry_bytes e)
      → f.unread ≡ all_bytes es ++ take k (entry_bytes e)
      → recover tables row_of table_exists f db
        ≡ finish tables row_of table_exists (replay ioerr_read (map record_of es) db)
  unfolding recover ob_succ
  recover-finish_torn es e k f db v ve le lt h = ap (finish tables row_of table_exists) (
      recover_loop_lem ioerr_read (take k (entry_bytes e)) refl
        (λ f' eq. torn_body e k f' ve le lt eq) es (suc (length f.unread)) f db v
        (rw h
          (omega (arith, length-append (all_bytes es) (take k (entry_bytes e)), all_bytes_long es)))
        h)

  -- The recovery from a file that ends inside the body of a record: if a record before it fails, it
  -- answers that code; if all before it are replayed, it answers IOERR_READ, with the rows and the
  -- kit as the replay leaves them, so that no transaction is rolled back.
  pub recover_torn :
      (es : List Entry) (e : Entry) (k : ℕ) (f : ClogFile) (db : Db)
      → All IsValid es
      → IsValid e
      → record_header_size ≤ k
      → k < length (entry_bytes e)
      → f.unread ≡ all_bytes es ++ take k (entry_bytes e)
      → ((rc : Rc) (db1 : Db)
          → replay ioerr_read (map record_of es) db ≡ some (fail (rc, db1))
          → recover tables row_of table_exists f db ≡ some (rc, db1))
        × ((db1 : Db)
            → replay ioerr_read (map record_of es) db ≡ some (ok (ioerr_read, db1))
            → recover tables row_of table_exists f db ≡ some (ioerr_read, db1))
  unfolding finish is_eof
  recover_torn es e k f db v ve le lt h =
      let whole = recover-finish_torn es e k f db v ve le lt h in
      (λ rc db1 eq. whole ∙ rw eq refl, λ db1 eq. whole ∙ rw eq refl)
