-- ===== src/Log/Entry.antt =====
-- The calls that build records of src/observer/storage/clog/clog.cpp, their arguments and the bytes
-- that `write_log_record` writes for them.
use landbase.Base.{ℕ, ◌+◌, ◌^◌, ◌<◌, ◌≡◌, refl, List, [], ◌++◌, arith, length}
use landbase.Base.Int.{ℤ}
use landbase.Net.Wire.{le_bytes}
use landbase.Log.Int32.{IsInt32, int32_bytes, int32_of-int32_bytes}
use landbase.Log.Record.{
  ClogType, mtr_begin, mtr_rollback, insert, update, delete, ClogRecordHeader, ClogRecord,
  clog_type_to_integer, header_bytes, header_of, data_header_bytes, build_mtr_record,
  build_commit_record, build_data_record, record_header_size, data_header_size,
}

-- The arguments of the calls that build records.
pub data Entry : Type 0 where
  begun : ℤ → Entry
  rolled_back : ℤ → Entry
  committed : ℤ → ℤ → Entry
  changed : ClogType → ℤ → ℤ → ℤ → ℤ → ℤ → List ℕ → Entry

unfoldable pub record_of : Entry → ClogRecord
record_of (begun trx_id) = build_mtr_record mtr_begin trx_id
record_of (rolled_back trx_id) = build_mtr_record mtr_rollback trx_id
record_of (committed trx_id commit_xid) = build_commit_record trx_id commit_xid
record_of (changed type trx_id table_id page_num slot_num offset payload) =
    build_data_record type trx_id table_id page_num slot_num (length payload) offset payload

abbrev pub IsChange : ClogType → Type 0
IsChange insert = Unit
IsChange update = Unit
IsChange delete = Unit
IsChange _ = ⊥

-- Numbers that an `int32_t` holds, and a type that has a row's data.
abbrev pub IsValid : Entry → Type 0
IsValid (begun trx_id) = IsInt32 trx_id
IsValid (rolled_back trx_id) = IsInt32 trx_id
IsValid (committed trx_id commit_xid) = IsInt32 trx_id × IsInt32 commit_xid
IsValid (changed type trx_id table_id page_num slot_num offset payload) =
    IsChange type
    × IsInt32 trx_id
    × IsInt32 table_id
    × IsInt32 page_num
    × IsInt32 slot_num
    × IsInt32 offset
    × (length payload + data_header_size < 2 ^ 31)

-- What follows a record's header in the file.
unfoldable pub body_bytes : Entry → List ℕ
body_bytes (begun trx_id) = []
body_bytes (rolled_back trx_id) = []
body_bytes (committed trx_id commit_xid) = int32_bytes commit_xid
body_bytes (changed type trx_id table_id page_num slot_num offset payload) =
    data_header_bytes
      (record_of (changed type trx_id table_id page_num slot_num offset payload)).data_record
    ++ payload

unfoldable pub entry_bytes : Entry → List ℕ
entry_bytes e = header_bytes (record_of e).header ++ body_bytes e

pub header_of-header_bytes :
    (h : ClogRecordHeader)
    → IsInt32 h.lsn
    → IsInt32 h.trx_id
    → IsInt32 h.type
    → IsInt32 h.logrec_len
    → header_of (header_bytes h) ≡ h
unfolding header_of header_bytes int32_bytes le_bytes
header_of-header_bytes h a b c d =
    rw
      (
        int32_of-int32_bytes h.lsn
            (int32_bytes h.trx_id ++ (int32_bytes h.type ++ int32_bytes h.logrec_len)) a,
        int32_of-int32_bytes h.trx_id (int32_bytes h.type ++ int32_bytes h.logrec_len) b,
        int32_of-int32_bytes h.type (int32_bytes h.logrec_len) c,
        int32_of-int32_bytes h.logrec_len [] d,
      )
      refl

pub header_size : (h : ClogRecordHeader) → record_header_size ≡ length (header_bytes h)
unfolding header_bytes int32_bytes le_bytes
header_size h = refl

pub entry_header :
    (e : Entry)
    → IsValid e
    → (IsInt32 (record_of e).header.lsn)
      × (IsInt32 (record_of e).header.trx_id)
      × (IsInt32 (record_of e).header.type)
      × (IsInt32 (record_of e).header.logrec_len)
unfolding record_of build_mtr_record build_commit_record build_data_record clog_type_to_integer
entry_header (begun trx_id) v = (omega arith, v, omega arith, omega arith)
entry_header (rolled_back trx_id) v = (omega arith, v, omega arith, omega arith)
entry_header (committed trx_id commit_xid) v = (omega arith, v.0, omega arith, omega arith)
entry_header (changed insert trx_id table_id page_num slot_num offset payload) v =
    (omega arith, v.1, omega arith, omega (arith, v))
entry_header (changed update trx_id table_id page_num slot_num offset payload) v =
    (omega arith, v.1, omega arith, omega (arith, v))
entry_header (changed delete trx_id table_id page_num slot_num offset payload) v =
    (omega arith, v.1, omega arith, omega (arith, v))
entry_header (changed _ trx_id table_id page_num slot_num offset payload) v = absurd (v.0)
