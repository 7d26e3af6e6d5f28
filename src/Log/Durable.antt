-- ===== src/Log/Durable.antt =====
-- What `flush_buffer` and `commit_trx` of src/observer/storage/clog/clog.cpp write, and what the
-- recovery finds of it.
use landbase.Base.{
  ℕ, ◌+◌, ◌-◌, ◌<◌, ◌≡◌, refl, sym, ap, ◌∙◌, Bool, true, some, List, [], ◌∷◌, ◌++◌, map, append-nil,
  append_assoc, arith, ltb, lt→leb-false, if◌then◌else◌, take, length, All,
}
use landbase.Base.Int.{ℤ}
use landbase.Rc.{success, record_eof, ob_succ}
use landbase.Mvcc.Rows.{Row, Tables}
use landbase.Net.Wire.{le_bytes}
use landbase.Net.Wire.Lenenc.{take_all}
use landbase.Log.Int32.{IsInt32, int32_bytes}
use landbase.Log.Record.{
  insert, update, delete, log_type, clog_type_to_integer, clog_type_from_integer, header_bytes,
  build_mtr_record, build_commit_record, build_data_record,
}
use landbase.Log.File.{ClogFile, write, init}
use landbase.Log.Buffer.{
  Disk, logrec_len, append_log_record, clog_buffer_size, sync_file, write_body, write_log_record,
  flush_records, flush_buffer, ClogManager, append_log, sync, commit_trx,
}
use landbase.Log.Entry.{
  Entry, begun, rolled_back, committed, changed, record_of, IsValid, body_bytes, entry_bytes,
}
use landbase.Log.Building.{payload_kept}
use landbase.Log.Recover.{Db, recover, finish}
use landbase.Log.Replay.{all_bytes, entry_len, replay, recover-finish}

-- The file after some bytes are appended to it.
abbrev pub appended : ClogFile → List ℕ → ClogFile
appended f bytes = record f { contents = f.contents ++ bytes; unread = [] }

-- The sum of the lengths that the buffer counts.
unfoldable pub total_len : List Entry → ℕ
total_len [] = 0
total_len (e ∷ es) = length (body_bytes e) + total_len es

module _ (disk : Disk)
    (writes : (contents bytes : List ℕ)
      → disk.writen contents bytes ≡ (true, contents ++ bytes)) where
  write_lem :
      (f : ClogFile) (bytes : List ℕ) → write disk.writen f bytes ≡ (success, appended f bytes)
  unfolding write
  write_lem f bytes = rw (write, writes f.contents bytes) refl

  appended_twice : (f : ClogFile) (s t : List ℕ) → appended (appended f s) t ≡ appended f (s ++ t)
  appended_twice f s t =
      ap (λ c. record f { contents = c; unread = [] }) (append_assoc f.contents s t)

  two_writes :
      (f : ClogFile) (s q p : List ℕ)
      → q ≡ p
      → (if ob_succ (write disk.writen f s).0
          then write disk.writen (write disk.writen f s).1 q
          else write disk.writen f s)
        ≡ (success, appended f (s ++ p))
  unfolding ob_succ
  two_writes f s q p e =
      rw (write_lem f s, e, write_lem (appended f s) p)
        (ap (λ g. (success, g)) (appended_twice f s p))

  kept : (p : List ℕ) → take (length p) (if ltb 0 (length p) then take (length p) p else []) ≡ p
  kept p = ap (take (length p)) (sym (payload_kept p)) ∙ take_all p

  unchanged : (f : ClogFile) → f.unread ≡ [] → f ≡ appended f []
  unchanged f e i = record f { contents = sym (append-nil f.contents) i; unread = e i }

  write_body_lem :
      (e : Entry) (f : ClogFile)
      → IsValid e
      → f.unread ≡ []
      → write_body disk (log_type (record_of e)) f (record_of e)
        ≡ (success, appended f (body_bytes e))
  unfolding write_body record_of build_mtr_record build_commit_record build_data_record body_bytes
      log_type clog_type_to_integer clog_type_from_integer int32_bytes le_bytes
  write_body_lem (begun trx_id) f v e = ap (λ g. (success, g)) (unchanged f e)
  write_body_lem (rolled_back trx_id) f v e = ap (λ g. (success, g)) (unchanged f e)
  write_body_lem (committed trx_id commit_xid) f v e = write_lem f (int32_bytes commit_xid)
  write_body_lem (changed insert trx_id table_id page_num slot_num offset payload) f v e =
      two_writes f _ _ payload (kept payload)
  write_body_lem (changed update trx_id table_id page_num slot_num offset payload) f v e =
      two_writes f _ _ payload (kept payload)
  write_body_lem (changed delete trx_id table_id page_num slot_num offset payload) f v e =
      two_writes f _ _ payload (kept payload)
  write_body_lem (changed _ trx_id table_id page_num slot_num offset payload) f v e = absurd (v.0)

  write_log_record_lem :
      (e : Entry) (f : ClogFile)
      → IsValid e
      → write_log_record disk f (record_of e) ≡ (success, appended f (entry_bytes e))
  unfolding write_log_record entry_bytes ob_succ
  write_log_record_lem e f v =
      rw (write_log_record, write_lem f (header_bytes (record_of e).header))
        (write_body_lem e (appended f (header_bytes (record_of e).header)) v refl
          ∙ ap (λ g. (success, g))
              (appended_twice f (header_bytes (record_of e).header) (body_bytes e)))

  flush_records_lem :
      (es : List Entry) (total : ℕ) (f : ClogFile)
      → All IsValid es
      → (f' : ClogFile) × (flush_records disk (map record_of es) total f
          ≡ some (total - total_len es, f'))
        × (f'.contents ≡ f.contents ++ all_bytes es)
  unfolding flush_records total_len all_bytes ob_succ
  flush_records_lem [] total f v =
      (f, ap (λ n. some (n, f)) (omega arith), sym (append-nil f.contents))
  flush_records_lem (e ∷ es) total f v =
      let (f', done, whole) =
        flush_records_lem es (total - length (body_bytes e)) (appended f (entry_bytes e)) (v.1) in
      (
        f',
        rw (flush_records, write_log_record_lem e f (v.0), entry_len e)
            (done ∙ ap (λ n. some (n, f')) (omega arith)),
        whole ∙ append_assoc f.contents (entry_bytes e) (all_bytes es),
      )

  all_bytes-append : (es ds : List Entry) → all_bytes (es ++ ds) ≡ all_bytes es ++ all_bytes ds
  unfolding all_bytes
  all_bytes-append [] ds = refl
  all_bytes-append (e ∷ es) ds =
      ap (λ b. entry_bytes e ++ b) (all_bytes-append es ds)
      ∙ sym (append_assoc (entry_bytes e) (all_bytes es) (all_bytes ds))

  total_len-append : (es ds : List Entry) → total_len (es ++ ds) ≡ total_len es + total_len ds
  unfolding total_len
  total_len-append [] ds = omega arith
  total_len-append (e ∷ es) ds = omega (arith, total_len-append es ds)

  All-append : (es ds : List Entry) → All IsValid es → All IsValid ds → All IsValid (es ++ ds)
  All-append [] ds v w = w
  All-append (e ∷ es) ds v w = (v.0, All-append es ds (v.1) w)

  map-append :
      (es ds : List Entry) → map record_of (es ++ ds) ≡ map record_of es ++ map record_of ds
  map-append [] ds = refl
  map-append (e ∷ es) ds = ap (◌∷◌ (record_of e)) (map-append es ds)

  -- What the manager holds: the entries `es` in the buffer, and the entries `old` in the file.
  pub record Holds (m : ClogManager) (old es : List Entry) : Type 0 where
    pub records : m.log_buffer.log_records ≡ map record_of es
    pub size : m.log_buffer.total_size ≡ total_len es
    pub file : m.log_file.contents ≡ all_bytes old
    pub old_valid : All IsValid old
    pub valid : All IsValid es

  -- An entry that fits is put behind those in the buffer.
  pub append_log-Holds :
      (m : ClogManager) (old es : List Entry) (e : Entry)
      → Holds m old es
      → IsValid e
      → total_len es + length (body_bytes e) < clog_buffer_size
      → (m' : ClogManager) × (append_log m (record_of e) ≡ (success, m'))
        × Holds m' old (es ++ (e ∷ []))
  unfolding append_log append_log_record total_len
  append_log-Holds m old es e h v fits = (
    record m {
      log_buffer = record {
        log_records = m.log_buffer.log_records ++ (record_of e ∷ []);
        total_size = m.log_buffer.total_size + logrec_len (record_of e);
      };
    },
    rw
        (
          append_log,
          append_log_record,
          h.size,
          entry_len e,
          lt→leb-false (total_len es + length (body_bytes e)) clog_buffer_size fits,
        )
        refl,
    record {
      records = rw (h.records) (sym (map-append es (e ∷ [])));
      size = rw (h.size, entry_len e) (omega (arith, total_len-append es (e ∷ [])));
      file = h.file;
      old_valid = h.old_valid;
      valid = All-append es (e ∷ []) h.valid (v, tt);
    },
  )

  -- A flush writes the entries of the buffer behind those of the file, in their order.
  pub sync-Holds :
      (m : ClogManager) (old es : List Entry)
      → Holds m old es
      → ((contents : List ℕ) → disk.fsync contents ≡ true)
      → (m' : ClogManager) × (sync disk m ≡ some (success, m')) × Holds m' (old ++ es) []
  unfolding sync flush_buffer sync_file total_len
  sync-Holds m old es h synced =
      let (f', done, whole) = flush_records_lem es (m.log_buffer.total_size) m.log_file h.valid in
      (
        record {
          log_buffer = record {
            log_records = [];
            total_size = m.log_buffer.total_size - total_len es;
          };
          log_file = f';
        },
        rw (sync, flush_buffer, h.records, done, sync_file, synced (f'.contents)) refl,
        record {
          records = refl;
          size = omega (arith, h.size);
          file = whole ∙ ap (λ b. b ++ all_bytes es) h.file ∙ sym (all_bytes-append old es);
          old_valid = All-append old es h.old_valid h.valid;
          valid = tt;
        },
      )

  -- A commit whose record fits in the buffer, with numbers of 32 bits, succeeds when the file takes
  -- what is written and fsync succeeds. It leaves the buffer empty, and a recovery from the file as
  -- it then is replays every entry of the file and of the buffer in their order, the commit at the
  -- end.
  pub commit_trx_durable :
      (m : ClogManager) (old es : List Entry) (trx_id commit_xid : ℤ)
      → Holds m old es
      → IsInt32 trx_id
      → IsInt32 commit_xid
      → total_len es + 4 < clog_buffer_size
      → ((contents : List ℕ) → disk.fsync contents ≡ true)
      → (tables : Tables) (row_of : List ℕ → Row) (table_exists : ℕ → Bool)
      → (m' : ClogManager) × (commit_trx disk m trx_id commit_xid ≡ some (success, m'))
        × (m'.log_buffer.log_records ≡ [])
        × (m'.log_buffer.total_size ≡ 0)
        × ((db : Db)
            → recover tables row_of table_exists (init m'.log_file.contents) db
              ≡ finish tables row_of table_exists (
                  replay tables row_of table_exists record_eof
                    (map record_of (old ++ (es ++ (committed trx_id commit_xid ∷ []))))
                    db))
  unfolding commit_trx record_of body_bytes int32_bytes le_bytes total_len ob_succ init
  commit_trx_durable m old es trx_id commit_xid h own stamp fits synced tables row_of table_exists =
      let (m1, put, h1) =
        append_log-Holds m old es (committed trx_id commit_xid) h (own, stamp) fits in
      let (m2, flushed, h2) =
        sync-Holds m1 old (es ++ (committed trx_id commit_xid ∷ [])) h1 synced in
      (
        m2,
        rw (commit_trx, put) flushed,
        h2.records,
        h2.size,
        λ db.
            recover-finish tables row_of table_exists
              (old ++ (es ++ (committed trx_id commit_xid ∷ []))) [] (init (m2.log_file.contents))
              db h2.old_valid (omega arith)
              (h2.file
                ∙ sym (append-nil (all_bytes (old ++ (es ++ (committed trx_id commit_xid ∷ [])))))),
      )
