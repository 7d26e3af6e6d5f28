-- ===== src/Log/Buffer.antt =====
-- `CLogBuffer` and `CLogManager` of src/observer/storage/clog/clog.cpp, up to the recovery.
use landbase.Base.{
  ℕ, ◌+◌, ◌-◌, ◌*◌, Bool, Option, none, some, List, [], ◌∷◌, ◌++◌, leb, if◌then◌else◌, take,
}
use landbase.Base.Int.{ℤ, pos_part}
use landbase.Rc.{Rc, success, logbuf_full, ioerr_sync, ob_succ}
use landbase.Log.Record.{
  ClogType, mtr_begin, mtr_commit, mtr_rollback, ClogRecord, log_type, header_bytes,
  data_header_bytes, build_mtr_record, build_commit_record, build_data_record,
}
use landbase.Log.Int32.{int32_bytes}
use landbase.Log.File.{ClogFile, write}

pub record ClogBuffer : Type 0 where
  pub log_records : List ClogRecord
  pub total_size : ℕ

-- `CLOG_BUFFER_SIZE`
abbrev pub clog_buffer_size : ℕ
clog_buffer_size = 4 * 1024 * 1024

-- What the system answers: `writen` from the bytes of the file and those to write, `fsync` from the
-- bytes of the file.
pub record Disk : Type 0 where
  pub writen : List ℕ → List ℕ → Bool × List ℕ
  pub fsync : List ℕ → Bool

-- A record in the buffer has a length that is not negative, and the sums stay below 2^31.
abbrev pub logrec_len : ClogRecord → ℕ
logrec_len r = pos_part r.header.logrec_len

-- `CLogBuffer::append_log_record`
unfoldable pub append_log_record : ClogBuffer → ClogRecord → Rc × ClogBuffer
append_log_record b r =
    if leb clog_buffer_size (b.total_size + logrec_len r) then (logbuf_full, b) else (
      success,
      record { log_records = b.log_records ++ (r ∷ []); total_size = b.total_size + logrec_len r },
    )

module _ (disk : Disk) where
  -- `CLogFile::sync`
  unfoldable pub sync_file : ClogFile → Rc
  sync_file f = if disk.fsync f.contents then success else ioerr_sync

  -- The `switch` of `write_log_record`.
  unfoldable pub write_body : ClogType → ClogFile → ClogRecord → Rc × ClogFile
  write_body mtr_begin f r = (success, f)
  write_body mtr_rollback f r = (success, f)
  write_body mtr_commit f r = write disk.writen f (take (logrec_len r) (int32_bytes r.commit_xid))
  write_body _ f r =
      let (rc, f') = write disk.writen f (data_header_bytes r.data_record) in
      if ob_succ rc
      then write disk.writen f' (take (pos_part r.data_record.data_len) r.data_record.payload)
      else (rc, f')

  unfoldable pub write_log_record : ClogFile → ClogRecord → Rc × ClogFile
  write_log_record f r =
      let (rc, f') = write disk.writen f (header_bytes r.header) in
      if ob_succ rc then write_body (log_type r) f' r else (rc, f')

  -- The loop of `flush_buffer`: the file and the total size after it; nothing where the ASSERT that
  -- a record was written fails.
  unfoldable pub flush_records : List ClogRecord → ℕ → ClogFile → Option (ℕ × ClogFile)
  flush_records [] total f = some (total, f)
  flush_records (r ∷ rs) total f =
      let (rc, f') = write_log_record f r in
      let rest = flush_records rs (total - logrec_len r) f' in if ob_succ rc then rest else none

  unfoldable pub flush_buffer : ClogBuffer → ClogFile → Option (Rc × ClogBuffer × ClogFile)
  flush_buffer b f = elim (flush_records b.log_records b.total_size f) [
    | none ↦ none
    | some (total, f') ↦ some (sync_file f', record { log_records = []; total_size = total }, f')
  ]

-- `CLogManager`
pub record ClogManager : Type 0 where
  pub log_buffer : ClogBuffer
  pub log_file : ClogFile

-- `append_log` of a record.
unfoldable pub append_log : ClogManager → ClogRecord → Rc × ClogManager
append_log m r = let (rc, b) = append_log_record m.log_buffer r in (rc, record m { log_buffer = b })

unfoldable pub append_data_log :
    ClogManager → ClogType → ℤ → ℤ → ℤ → ℤ → ℕ → ℤ → List ℕ → Rc × ClogManager
append_data_log m type trx_id table_id page_num slot_num data_len data_offset payload =
    append_log m
      (build_data_record type trx_id table_id page_num slot_num data_len data_offset payload)

unfoldable pub begin_trx : ClogManager → ℤ → Rc × ClogManager
begin_trx m trx_id = append_log m (build_mtr_record mtr_begin trx_id)

unfoldable pub rollback_trx : ClogManager → ℤ → Rc × ClogManager
rollback_trx m trx_id = append_log m (build_mtr_record mtr_rollback trx_id)

module _ (disk : Disk) where
  unfoldable pub sync : ClogManager → Option (Rc × ClogManager)
  sync m = elim (flush_buffer disk m.log_buffer m.log_file) [
    | none ↦ none
    | some (rc, b, f) ↦ some (rc, record { log_buffer = b; log_file = f })
  ]

  unfoldable pub commit_trx : ClogManager → ℤ → ℤ → Option (Rc × ClogManager)
  commit_trx m trx_id commit_xid =
      let (rc, m') = append_log m (build_commit_record trx_id commit_xid) in
      if ob_succ rc then sync m' else some (rc, m')
