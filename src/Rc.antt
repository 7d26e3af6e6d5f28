-- ===== src/Rc.antt =====
-- The return codes of src/observer/common/rc.h.
use landbase.Base.{Bool, true, false}

pub data Rc : Type 0 where
  success invalid_argument unimplenment sql_syntax internal nomem notfound empty : Rc
  bufferpool_open bufferpool_nobuf bufferpool_invalid_page_num record_openned : Rc
  record_invalid_rid record_invalid_key record_duplicate_key record_nomem record_eof : Rc
  record_not_exist record_invisible schema_db_exist schema_db_not_exist tuple_not_exist : Rc
  schema_db_not_opened schema_table_not_exist schema_table_exist schema_field_not_exist : Rc
  schema_field_missing schema_field_type_mismatch schema_index_name_repeat ioerr_read : Rc
  ioerr_write ioerr_access ioerr_open ioerr_close ioerr_seek ioerr_too_long ioerr_sync : Rc
  locked_unlock locked_need_wait locked_concurrency_conflict file_exist file_not_exist : Rc
  file_name file_bound file_create file_open file_not_opened file_close file_remove file_seek : Rc
  file_read file_write variable_not_exists variable_not_valid logbuf_full failure : Rc
  fail_to_delete_file schema_field_not_nullable need_tuple : Rc

unfoldable pub ob_succ : Rc → Bool
ob_succ success = true
ob_succ _ = false

-- `rc == RC::RECORD_EOF`
unfoldable pub is_eof : Rc → Bool
is_eof record_eof = true
is_eof _ = false

-- `rc == RC::RECORD_INVISIBLE`
unfoldable pub is_invisible : Rc → Bool
is_invisible record_invisible = true
is_invisible _ = false
