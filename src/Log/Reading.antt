-- ===== src/Log/Reading.antt =====
-- Reading a record back: `CLogRecordIterator::next` of src/observer/storage/clog/clog.cpp on the
-- bytes that `write_log_record` writes.
use landbase.Base.{
  ℕ, ◌+◌, ◌≡◌, refl, ap, ◌∙◌, some, List, [], ◌++◌, arith, le→leb, if◌then◌else◌, length,
  length-append, append_assoc,
}
use landbase.Base.Int.{ℤ, pos, pos_part, ltb_ℤ}
use landbase.Rc.{success, ob_succ}
use landbase.Net.Wire.Lenenc.{take-append, drop-append}
use landbase.Log.Int32.{IsInt32, int32_bytes}
use landbase.Log.Record.{
  ClogType, mtr_begin, mtr_rollback, ClogRecordHeader, ClogRecord, header_bytes, data_header_bytes,
  build, build_mtr_record, build_commit_record, build_data_record, record_header_size,
  data_header_size,
}
use landbase.Log.File.{ClogFile, readn, read, next_body, next_header, next}
use landbase.Log.Entry.{
  Entry, begun, rolled_back, committed, changed, record_of, IsValid, body_bytes, entry_bytes,
  header_of-header_bytes, header_size, entry_header,
}
use landbase.Log.Building.{
  has_body, int32_size, built_data, built_commit, change_kind, data_size, payload_kept,
}

abbrev pub with_unread : ClogFile → List ℕ → ClogFile
with_unread f bytes = record f { unread = bytes }

pub read_whole :
    (f : ClogFile) (n : ℕ) (s rest : List ℕ)
    → n ≡ length s
    → f.unread ≡ s ++ rest
    → read f n ≡ (success, s, with_unread f rest)
unfolding read readn
read_whole f n s rest size e =
    rw
      (
        read,
        e,
        size,
        take-append s rest,
        drop-append s rest,
        le→leb (length s) (length (s ++ rest)) (omega (arith, length-append s rest)),
      )
      refl

-- A record is read up to its header.
pub next_after_header :
    (f : ClogFile) (h : ClogRecordHeader) (rest : List ℕ)
    → IsInt32 h.lsn
    → IsInt32 h.trx_id
    → IsInt32 h.type
    → IsInt32 h.logrec_len
    → f.unread ≡ header_bytes h ++ rest
    → next f ≡ (
        if ltb_ℤ (pos 0) h.logrec_len
        then next_body h (read (with_unread f rest) (pos_part h.logrec_len))
        else next_body h (success, [], with_unread f rest))
unfolding next next_header ob_succ
next_after_header f h rest a b c d e =
    rw
      (
        next,
        read_whole f record_header_size (header_bytes h) rest (header_size h) e,
        next_header,
        header_of-header_bytes h a b c d,
      )
      refl

-- A body of the length that the header names is read and built.
built_body :
    (h : ClogRecordHeader) (r : ClogRecord) (f : ClogFile) (n : ℕ) (s rest : List ℕ)
    → n ≡ length s
    → f.unread ≡ s ++ rest
    → build h s ≡ some r
    → next_body h (read f n) ≡ some (success, some r, with_unread f rest)
unfolding next_body ob_succ
built_body h r f n s rest size e built =
    ap (next_body h) (read_whole f n s rest size e) ∙ rw (next_body, built) refl

module _ (type : ClogType) (trx_id table_id page_num slot_num offset : ℤ) (payload : List ℕ) where
  abbrev holding : List ℕ → ClogRecord
  holding q =
      record (build_data_record type trx_id table_id page_num slot_num (length payload) offset
        payload) {
          data_record = record {
            table_id = table_id;
            page_num = page_num;
            slot_num = slot_num;
            data_len = pos (length payload);
            data_offset = offset;
            padding = 0;
            payload = q;
          };
        }

  built_change :
      (f : ClogFile) (rest : List ℕ)
      → IsValid (changed type trx_id table_id page_num slot_num offset payload)
      → f.unread
        ≡ body_bytes (changed type trx_id table_id page_num slot_num offset payload) ++ rest
      → next_body (holding payload).header (read f (data_header_size + length payload))
        ≡ some (
          success,
          some (record_of (changed type trx_id table_id page_num slot_num offset payload)),
          with_unread f rest,
        )
  unfolding body_bytes record_of build_data_record data_header_bytes
  built_change f rest (kind, own, a, b, c, o, fits) e =
      built_body (holding payload).header (holding payload) f (data_header_size + length payload)
        (data_header_bytes (holding payload).data_record ++ payload) rest
        (data_size (holding payload).data_record) e
        (built_data (holding payload).header (holding payload).data_record refl
          (change_kind type kind) refl fits a b c o refl)
      ∙ ap (λ q. some (success, some (holding q), with_unread f rest)) (payload_kept payload)

built_mark :
    (type : ClogType) (trx_id : ℤ) (f : ClogFile) (rest : List ℕ)
    → f.unread ≡ rest
    → next_body (build_mtr_record type trx_id).header (success, [], f)
      ≡ some (success, some (build_mtr_record type trx_id), with_unread f rest)
unfolding next_body build build_mtr_record ob_succ
built_mark type trx_id f rest e =
    ap (λ u. some (success, some (build_mtr_record type trx_id), with_unread f u)) e

-- The body of a record is built again from its bytes.
built_again :
    (e : Entry) (f : ClogFile) (rest : List ℕ)
    → IsValid e
    → f.unread ≡ body_bytes e ++ rest
    → (if ltb_ℤ (pos 0) (record_of e).header.logrec_len
        then next_body (record_of e).header (read f (pos_part (record_of e).header.logrec_len))
        else next_body (record_of e).header (success, [], f))
      ≡ some (success, some (record_of e), with_unread f rest)
unfolding body_bytes record_of build_mtr_record build_commit_record build_data_record
built_again (begun trx_id) f rest v e = built_mark mtr_begin trx_id f rest e
built_again (rolled_back trx_id) f rest v e = built_mark mtr_rollback trx_id f rest e
built_again (committed trx_id commit_xid) f rest v e =
    built_body (build_commit_record trx_id commit_xid).header _ f 4 (int32_bytes commit_xid) rest
      (int32_size commit_xid) e (built_commit trx_id commit_xid (v.1))
built_again (changed type trx_id table_id page_num slot_num offset payload) f rest v e =
    rw (has_body (length payload))
      (built_change type trx_id table_id page_num slot_num offset payload f rest v e)

-- The next record of a file is the one whose bytes come next.
pub next_lem :
    (e : Entry) (f : ClogFile) (rest : List ℕ)
    → IsValid e
    → f.unread ≡ entry_bytes e ++ rest
    → next f ≡ some (success, some (record_of e), with_unread f rest)
unfolding entry_bytes
next_lem e f rest v h =
    let (a, b, c, d) = entry_header e v in
    next_after_header f (record_of e).header (body_bytes e ++ rest) a b c d
      (h ∙ append_assoc (header_bytes (record_of e).header) (body_bytes e) rest)
    ∙ built_again e (with_unread f (body_bytes e ++ rest)) rest v refl
