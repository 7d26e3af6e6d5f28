-- ===== src/Net/Wire/Packet.antt =====
-- The packets that src/observer/net/mysql_communicator.cpp sends, each as the bytes that `encode`, or
-- the sender, makes of it. `none` stands for a write past the end of the packet's fixed buffer.
use landbase.Base.{
  ℕ, ◌+◌, ◌-◌, ◌*◌, ◌^◌, Bool, not, Option, some, none, List, [], ◌∷◌, ◌++◌, ◌==◌, leb,
  if◌then◌else◌, length, bit_and,
}
use landbase.Base.Result.{Result, ok, fail}
use landbase.Rc.{Rc, success}
use landbase.Net.Wire.{
  store_int1, store_int2, store_int3, store_int4, store_lenenc_int, store_null_terminated_string,
  store_fix_length_string, store_lenenc_string,
}

abbrev pub client_protocol_41 : ℕ
client_protocol_41 = 512

abbrev pub client_transactions : ℕ
client_transactions = 65535

abbrev pub client_session_track : ℕ
client_session_track = 2 ^ 23

abbrev pub client_optional_resultset_metadata : ℕ
client_optional_resultset_metadata = 2 ^ 25

abbrev pub has_flag : ℕ → ℕ → Bool
has_flag capabilities flag = not (bit_and capabilities flag == 0)

-- What every packet has in common: a buffer of so many bytes, three bytes left for the length, the
-- sequence id, the payload, then the length, and the buffer cut at the end of the payload.
unfoldable pub finish : ℕ → ℕ → List ℕ → Option (List ℕ)
finish limit sequence_id payload =
    let p = 4 + length payload in
    let payload_length = p - 4 in
    if leb p limit
    then some (store_int3 payload_length ++ (store_int1 sequence_id ++ payload))
    else none

pub record HandshakeV10 : Type 0 where
  pub protocol : ℕ
  pub server_version : List ℕ
  pub thread_id : ℕ
  pub auth_plugin_data_part_1 : List ℕ
  pub capability_flags_1 : ℕ
  pub character_set : ℕ
  pub status_flags : ℕ
  pub capability_flags_2 : ℕ
  pub auth_plugin_data_len : ℕ
  pub reserved : List ℕ
  pub auth_plugin_data_part_2 : List ℕ

unfoldable pub handshake_payload : HandshakeV10 → List ℕ
handshake_payload p =
    store_int1 p.protocol
    ++ (store_null_terminated_string p.server_version
        ++ (store_int4 p.thread_id
            ++ (store_null_terminated_string p.auth_plugin_data_part_1
                ++ (store_int2 p.capability_flags_1
                    ++ (store_int1 p.character_set
                        ++ (store_int2 p.status_flags
                            ++ (store_int2 p.capability_flags_2
                                ++ (store_int1 p.auth_plugin_data_len
                                    ++ (store_fix_length_string p.reserved 10
                                        ++ store_null_terminated_string
                                            p.auth_plugin_data_part_2)))))))))

unfoldable pub encode_handshake : ℕ → HandshakeV10 → Option (List ℕ)
encode_handshake sequence_id p = finish 100 sequence_id (handshake_payload p)

pub record OkPacket : Type 0 where
  pub header : ℕ
  pub affected_rows : ℕ
  pub last_insert_id : ℕ
  pub status_flags : ℕ
  pub warnings : ℕ
  pub info : List ℕ

unfoldable pub ok_payload : ℕ → OkPacket → List ℕ
ok_payload capabilities p =
    store_int1 p.header
    ++ (store_lenenc_int p.affected_rows
        ++ (store_lenenc_int p.last_insert_id
            ++ ((if has_flag capabilities client_protocol_41
                  then store_int2 p.status_flags ++ store_int2 p.warnings
                  else if has_flag capabilities client_transactions
                  then store_int2 p.status_flags
                  else [])
                ++ (if has_flag capabilities client_session_track
                    then store_lenenc_string p.info
                    else store_fix_length_string p.info (length p.info)))))

unfoldable pub encode_ok : ℕ → ℕ → OkPacket → Option (List ℕ)
encode_ok capabilities sequence_id p = finish 100 sequence_id (ok_payload capabilities p)

pub record EofPacket : Type 0 where
  pub header : ℕ
  pub warnings : ℕ
  pub status_flags : ℕ

unfoldable pub eof_payload : ℕ → EofPacket → List ℕ
eof_payload capabilities p =
    store_int1 p.header
    ++ (if has_flag capabilities client_protocol_41
        then store_int2 p.warnings ++ store_int2 p.status_flags
        else [])

unfoldable pub encode_eof : ℕ → ℕ → EofPacket → Option (List ℕ)
encode_eof capabilities sequence_id p = finish 10 sequence_id (eof_payload capabilities p)

pub record ErrPacket : Type 0 where
  pub header : ℕ
  pub error_code : ℕ
  pub sql_state_marker : List ℕ
  pub sql_state : List ℕ
  pub error_message : List ℕ

unfoldable pub err_payload : ℕ → ErrPacket → List ℕ
err_payload capabilities p =
    store_int1 p.header
    ++ (store_int2 p.error_code
        ++ ((if has_flag capabilities client_protocol_41
              then store_fix_length_string p.sql_state_marker 1
                ++ store_fix_length_string p.sql_state 5
              else [])
            ++ store_fix_length_string p.error_message (length p.error_message)))

unfoldable pub encode_err : ℕ → ℕ → ErrPacket → Option (List ℕ)
encode_err capabilities sequence_id p = finish 1000 sequence_id (err_payload capabilities p)

-- The number of columns of a result.
unfoldable pub encode_column_count : ℕ → ℕ → ℕ → Option (List ℕ)
encode_column_count capabilities sequence_id cell_num = finish 1024 sequence_id (
    (if has_flag capabilities client_optional_resultset_metadata then store_int1 1 else [])
    ++ store_lenenc_int cell_num)

-- A column by the names of its table and its own, after the catalog "def" and the schema "sys".
unfoldable pub column_payload : List ℕ → List ℕ → List ℕ
column_payload table name =
    store_lenenc_string (100 ∷ 101 ∷ 102 ∷ [])
    ++ (store_lenenc_string (115 ∷ 121 ∷ 115 ∷ [])
        ++ (store_lenenc_string table
            ++ (store_lenenc_string table
                ++ (store_lenenc_string name
                    ++ (store_lenenc_string name
                        ++ (store_lenenc_int 12
                            ++ (store_int2 33
                                ++ (store_int4 16384
                                    ++ (store_int1 253
                                        ++ (store_int2 0
                                            ++ (store_int1 31 ++ store_int2 0)))))))))))

unfoldable pub encode_column : ℕ → List ℕ → List ℕ → Option (List ℕ)
encode_column sequence_id table name = finish 1024 sequence_id (column_payload table name)

-- A row by the texts of its cells.
unfoldable pub row_payload : List (List ℕ) → List ℕ
row_payload [] = []
row_payload (cell ∷ cells) = store_lenenc_string cell ++ row_payload cells

-- The cells that the loop over `cell_at` stores, and its code: it stops at the first that fails.
unfoldable pub stored_cells : List (Result Rc (List ℕ)) → List (List ℕ) × Rc
stored_cells [] = ([], success)
stored_cells (fail rc ∷ cells) = ([], rc)
stored_cells (ok cell ∷ cells) = let (stored, rc) = stored_cells cells in (cell ∷ stored, rc)

-- The bytes that one round of `send_result_rows` hands to the writer, from what `cell_at` answers for
-- each cell of the tuple, with the code that it sets for the result. A tuple without cells sends
-- nothing; a cell that fails ends the row, which is sent as it is.
unfoldable pub encode_row : ℕ → List (Result Rc (List ℕ)) → Option (List ℕ × Rc)
encode_row sequence_id [] = some ([], success)
encode_row sequence_id (cell ∷ cells) =
    let (stored, rc) = stored_cells (cell ∷ cells) in
    elim (finish (4 * 1024 * 1024) sequence_id (row_payload stored)) [
      | none ↦ none
      | some bytes ↦ some (bytes, rc)
    ]
