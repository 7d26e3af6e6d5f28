-- ===== src/Log/Record.antt =====
-- `CLogRecord` of src/observer/storage/clog/clog.h and src/observer/storage/clog/clog.cpp: the parts
-- of a record, how one is built, and the bytes of each part in memory.
use landbase.Base.{
  ℕ, ◌+◌, ◌-◌, not, Option, none, some, List, [], ◌++◌, ltb, if◌then◌else◌, take, drop,
}
use landbase.Base.Int.{ℤ, pos, negsuc, pos_part, ltb_ℤ, eqb_ℤ}
use landbase.Net.Wire.{le_bytes}
use landbase.Log.Int32.{int32_bytes, int32_of, word}

-- `CLogType`; `other` is a number without a name.
pub data ClogType : Type 0 where
  error mtr_begin mtr_commit mtr_rollback insert update delete : ClogType
  other : ℤ → ClogType

unfoldable pub clog_type_to_integer : ClogType → ℤ
clog_type_to_integer error = pos 0
clog_type_to_integer mtr_begin = pos 1
clog_type_to_integer mtr_commit = pos 2
clog_type_to_integer mtr_rollback = pos 3
clog_type_to_integer insert = pos 4
clog_type_to_integer update = pos 5
clog_type_to_integer delete = pos 6
clog_type_to_integer (other z) = z

unfoldable pub clog_type_from_integer : ℤ → ClogType
clog_type_from_integer z =
    if eqb_ℤ z (pos 0)
    then error
    else if eqb_ℤ z (pos 1)
    then mtr_begin
    else if eqb_ℤ z (pos 2)
    then mtr_commit
    else if eqb_ℤ z (pos 3)
    then mtr_rollback
    else if eqb_ℤ z (pos 4)
    then insert
    else if eqb_ℤ z (pos 5)
    then update
    else if eqb_ℤ z (pos 6)
    then delete
    else other z

pub record ClogRecordHeader : Type 0 where
  pub lsn : ℤ
  pub trx_id : ℤ
  pub type : ℤ
  pub logrec_len : ℤ

-- The row id's two numbers are fields of their own, `padding` is the space before the pointer
-- `data_`, and `payload` is what the pointer points to.
pub record ClogRecordData : Type 0 where
  pub table_id : ℤ
  pub page_num : ℤ
  pub slot_num : ℤ
  pub data_len : ℤ
  pub data_offset : ℤ
  pub padding : ℕ
  pub payload : List ℕ

pub record ClogRecord : Type 0 where
  pub header : ClogRecordHeader
  pub data_record : ClogRecordData
  pub commit_xid : ℤ

-- `sizeof(CLogRecordHeader)`, `sizeof(CLogRecordCommitData)` and `CLogRecordData::HEADER_SIZE`.
abbrev pub record_header_size : ℕ
record_header_size = 16

abbrev pub commit_data_size : ℕ
commit_data_size = 4

abbrev pub data_header_size : ℕ
data_header_size = 24

-- `new CLogRecord()`
abbrev pub new_record : ClogRecord
new_record = record {
  header = record { lsn = negsuc 0; trx_id = negsuc 0; type = pos 0; logrec_len = pos 0 };
  data_record = record {
    table_id = negsuc 0;
    page_num = pos 0;
    slot_num = pos 0;
    data_len = pos 0;
    data_offset = pos 0;
    padding = 0;
    payload = [];
  };
  commit_xid = negsuc 0;
}

unfoldable pub log_type : ClogRecord → ClogType
log_type r = clog_type_from_integer r.header.type

unfoldable pub build_mtr_record : ClogType → ℤ → ClogRecord
build_mtr_record type trx_id = record new_record {
  header = record (new_record.header) { trx_id = trx_id; type = clog_type_to_integer type };
}

unfoldable pub build_commit_record : ℤ → ℤ → ClogRecord
build_commit_record trx_id commit_xid = record new_record {
  header = record (new_record.header) {
    trx_id = trx_id;
    type = clog_type_to_integer mtr_commit;
    logrec_len = pos commit_data_size;
  };
  commit_xid = commit_xid;
}

-- The length is one of a caller's record, not negative.
unfoldable pub build_data_record : ClogType → ℤ → ℤ → ℤ → ℤ → ℕ → ℤ → List ℕ → ClogRecord
build_data_record type trx_id table_id page_num slot_num data_len data_offset payload =
    record new_record {
      header = record (new_record.header) {
        trx_id = trx_id;
        type = clog_type_to_integer type;
        logrec_len = pos (data_header_size + data_len);
      };
      data_record = record {
        table_id = table_id;
        page_num = page_num;
        slot_num = slot_num;
        data_len = pos data_len;
        data_offset = data_offset;
        padding = 0;
        payload = if ltb 0 data_len then take data_len payload else [];
      };
    }

-- The bytes of a `CLogRecordHeader`.
unfoldable pub header_bytes : ClogRecordHeader → List ℕ
header_bytes h =
    int32_bytes h.lsn ++ (int32_bytes h.trx_id ++ (int32_bytes h.type ++ int32_bytes h.logrec_len))

unfoldable pub header_of : List ℕ → ClogRecordHeader
header_of bytes = record {
  lsn = int32_of bytes;
  trx_id = int32_of (drop 4 bytes);
  type = int32_of (drop 8 bytes);
  logrec_len = int32_of (drop 12 bytes);
}

-- The first `HEADER_SIZE` bytes of a `CLogRecordData`.
unfoldable pub data_header_bytes : ClogRecordData → List ℕ
data_header_bytes d =
    int32_bytes d.table_id
    ++ (int32_bytes d.page_num
        ++ (int32_bytes d.slot_num
            ++ (int32_bytes d.data_len ++ (int32_bytes d.data_offset ++ le_bytes 4 d.padding))))

unfoldable pub data_header_of : List ℕ → ClogRecordData
data_header_of bytes = record {
  table_id = int32_of bytes;
  page_num = int32_of (drop 4 bytes);
  slot_num = int32_of (drop 8 bytes);
  data_len = int32_of (drop 12 bytes);
  data_offset = int32_of (drop 16 bytes);
  padding = word (drop 20 bytes);
  payload = [];
}

-- `CLogRecord::build`; nothing where the ASSERT on a commit record's length fails.
unfoldable pub build : ClogRecordHeader → List ℕ → Option ClogRecord
build header bytes =
    if not (ltb_ℤ (pos 0) header.logrec_len)
    then some (record new_record { header = header })
    else if eqb_ℤ header.type (clog_type_to_integer mtr_commit)
    then (if eqb_ℤ header.logrec_len (pos commit_data_size)
        then some (record new_record { header = header; commit_xid = int32_of bytes })
        else none)
    else some (record new_record {
      header = header;
      data_record = record (data_header_of bytes) {
        payload =
            if ltb_ℤ (pos data_header_size) header.logrec_len
            then take (pos_part header.logrec_len - data_header_size) (drop data_header_size bytes)
            else [];
      };
    })
