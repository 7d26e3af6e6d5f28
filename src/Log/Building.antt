-- ===== src/Log/Building.antt =====
-- `CLogRecord::build` of src/observer/storage/clog/clog.cpp gives back a record from the bytes of its
-- body.
use landbase.Base.{
  ℕ, ◌+◌, ◌-◌, ◌^◌, ◌<◌, ◌≡◌, refl, ap, true, false, some, List, [], ◌∷◌, ◌++◌, arith, ltb,
  if◌then◌else◌, take, drop, length, length-append,
}
use landbase.Base.Int.{ℤ, pos, ltb_ℤ, eqb_ℤ}
use landbase.Net.Wire.{le_bytes}
use landbase.Net.Wire.Lenenc.{take_all}
use landbase.Log.Int32.{IsInt32, int32_bytes, int32_of, int32_of-int32_bytes}
use landbase.Log.Record.{
  ClogType, mtr_commit, insert, update, delete, ClogRecordHeader, ClogRecordData,
  clog_type_to_integer, data_header_bytes, data_header_of, new_record, build, build_commit_record,
  data_header_size,
}
use landbase.Log.Entry.{IsChange}

pub data_header_again :
    (d : ClogRecordData) (rest : List ℕ)
    → IsInt32 d.table_id
    → IsInt32 d.page_num
    → IsInt32 d.slot_num
    → IsInt32 d.data_len
    → IsInt32 d.data_offset
    → d.padding ≡ 0
    → data_header_of (data_header_bytes d ++ rest) ≡ record d { payload = [] }
unfolding data_header_of data_header_bytes int32_bytes le_bytes
data_header_again d rest a b c n o p =
    rw
      (
        int32_of-int32_bytes d.table_id
            (int32_bytes d.page_num
              ++ (int32_bytes d.slot_num
                  ++ (int32_bytes d.data_len
                      ++ (int32_bytes d.data_offset ++ (le_bytes 4 d.padding ++ rest)))))
            a,
        int32_of-int32_bytes d.page_num
            (int32_bytes d.slot_num
              ++ (int32_bytes d.data_len
                  ++ (int32_bytes d.data_offset ++ (le_bytes 4 d.padding ++ rest))))
            b,
        int32_of-int32_bytes d.slot_num
            (int32_bytes d.data_len
              ++ (int32_bytes d.data_offset ++ (le_bytes 4 d.padding ++ rest)))
            c,
        int32_of-int32_bytes d.data_len
            (int32_bytes d.data_offset ++ (le_bytes 4 d.padding ++ rest)) n,
        int32_of-int32_bytes d.data_offset (le_bytes 4 d.padding ++ rest) o,
        p,
      )
      refl

pub data_header_drop :
    (d : ClogRecordData) (rest : List ℕ)
    → drop data_header_size (data_header_bytes d ++ rest) ≡ rest
unfolding data_header_bytes int32_bytes le_bytes
data_header_drop d rest = refl

pub data_header_length : (d : ClogRecordData) → length (data_header_bytes d) ≡ data_header_size
unfolding data_header_bytes int32_bytes le_bytes
data_header_length d = refl

pub has_body : (n : ℕ) → ltb_ℤ (pos 0) (pos (data_header_size + n)) ≡ true
has_body n = ground arith

pub payload_again :
    (p : List ℕ)
    → (if ltb_ℤ (pos data_header_size) (pos (data_header_size + length p))
        then take (data_header_size + length p - data_header_size) p
        else [])
      ≡ p
payload_again [] = refl
payload_again (x ∷ p) = rw (longer, same (length (x ∷ p)), take_all (x ∷ p)) refl
  where
    longer : ltb_ℤ (pos data_header_size) (pos (data_header_size + length (x ∷ p))) ≡ true
    longer = ground arith

    same : (n : ℕ) → data_header_size + n - data_header_size ≡ n
    same n = omega arith

pub int32_size : (z : ℤ) → 4 ≡ length (int32_bytes z)
unfolding int32_bytes le_bytes
int32_size z = refl

-- The record with a row's data is built again from its body.
pub built_data :
    (h : ClogRecordHeader) (d : ClogRecordData)
    → h.logrec_len ≡ pos (data_header_size + length d.payload)
    → eqb_ℤ h.type (clog_type_to_integer mtr_commit) ≡ false
    → d.data_len ≡ pos (length d.payload)
    → length d.payload + data_header_size < 2 ^ 31
    → IsInt32 d.table_id
    → IsInt32 d.page_num
    → IsInt32 d.slot_num
    → IsInt32 d.data_offset
    → d.padding ≡ 0
    → build h (data_header_bytes d ++ d.payload)
      ≡ some (record new_record { header = h; data_record = d })
unfolding build
built_data h d len kind n fits a b c o p =
    rw
      (
        build,
        len,
        kind,
        data_header_again d d.payload a b c (rw n (omega arith)) o p,
        data_header_drop d d.payload,
        has_body (length d.payload),
        payload_again d.payload,
      )
      refl

pub int32_again : (z : ℤ) → IsInt32 z → int32_of (int32_bytes z) ≡ z
unfolding int32_bytes le_bytes
int32_again z h = int32_of-int32_bytes z [] h

pub built_commit :
    (trx_id commit_xid : ℤ)
    → IsInt32 commit_xid
    → build (build_commit_record trx_id commit_xid).header (int32_bytes commit_xid)
      ≡ some (build_commit_record trx_id commit_xid)
unfolding build build_commit_record clog_type_to_integer
built_commit trx_id commit_xid h =
    ap (λ z. some (record (build_commit_record trx_id commit_xid) { commit_xid = z }))
      (int32_again commit_xid h)

pub change_kind :
    (type : ClogType)
    → IsChange type
    → eqb_ℤ (clog_type_to_integer type) (clog_type_to_integer mtr_commit) ≡ false
unfolding clog_type_to_integer
change_kind insert h = refl
change_kind update h = refl
change_kind delete h = refl
change_kind _ h = absurd h

pub data_size :
    (d : ClogRecordData)
    → data_header_size + length d.payload ≡ length (data_header_bytes d ++ d.payload)
data_size d = omega (arith, length-append (data_header_bytes d) d.payload, data_header_length d)

pub payload_kept : (p : List ℕ) → p ≡ (if ltb 0 (length p) then take (length p) p else [])
payload_kept [] = refl
payload_kept (x ∷ p) = rw (longer, take_all p) refl
  where
    longer : ltb 0 (length (x ∷ p)) ≡ true
    longer = ground arith
