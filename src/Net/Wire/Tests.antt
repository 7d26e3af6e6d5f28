-- ===== src/Net/Wire/Tests.antt =====
-- Small packets, and the theorems at them.
use landbase.Base.{
  ℕ, ◌-◌, ◌^◌, ◌<◌, ◌≤◌, ◌≡◌, refl, inl, none, some, List, [], ◌∷◌, ◌++◌, arith, map,
}
use landbase.Base.Result.{Result, ok, fail}
use landbase.Rc.{Rc, success}
use landbase.Net.Wire.{
  le_bytes, store_lenenc_int, store_lenenc_string, store_fix_length_string, store_int2, store_int3,
}
use landbase.Net.Wire.Lenenc.{read_le, read_lenenc_int, store_lenenc_int_loses}
use landbase.Net.Wire.Packet.{
  finish, eof_payload, encode_eof, OkPacket, ErrPacket, err_payload, encode_err,
  encode_column_count, row_payload, encode_row,
}
use landbase.Net.Wire.Frame.{Sends, RowSends, encode_row-Sends, encode_err_lem}

store_lenenc_int_loses_example :
    (2 ^ 16 ≤ 65541
      → 65541 < 2 ^ 17
      → read_lenenc_int (store_lenenc_int 65541 ++ []) ≡ some (65541 - 2 ^ 16, []))
    × (2 ^ 24 ≤ 65541
        → 65541 < 2 ^ 25
        → read_lenenc_int (store_lenenc_int 65541 ++ []) ≡ some (65541 - 2 ^ 24, []))
store_lenenc_int_loses_example = store_lenenc_int_loses 65541 []

lost_value : read_lenenc_int (store_lenenc_int 65541) ≡ some (5, [])
unfolding read_lenenc_int store_lenenc_int le_bytes read_le
lost_value = refl

abbrev cells : List (List ℕ)
cells = (49 ∷ []) ∷ (65 ∷ 66 ∷ []) ∷ []

encode_row-Sends_example :
    (encode_row 3 [] ≡ some ([], success))
    × (1 ≤ 2 → RowSends (encode_row 3 (map ok cells)) 3 cells success)
    × ((rc : Rc) (later : List (Result Rc (List ℕ)))
        → RowSends (encode_row 3 (map ok cells ++ (fail rc ∷ later))) 3 cells rc)
unfolding row_payload store_lenenc_string store_lenenc_int store_fix_length_string
encode_row-Sends_example =
    encode_row-Sends 3 cells (omega arith)
      (
        (omega arith, inl (omega arith), inl (omega arith)),
        ((omega arith, inl (omega arith), inl (omega arith)), tt),
      )
      (omega arith)

abbrev error : ErrPacket
error = record {
  header = 255;
  error_code = 0;
  sql_state_marker = 35 ∷ [];
  sql_state = 72 ∷ 89 ∷ 48 ∷ 48 ∷ 48 ∷ [];
  error_message = 70 ∷ [];
}

encode_err_lem_example :
    (1 ≤ 987 → Sends (encode_err 512 1 error) 1 (err_payload 512 error))
    × (987 < 1 → encode_err 512 1 error ≡ none)
encode_err_lem_example = encode_err_lem 512 1 error (omega arith) refl refl refl

abbrev done : OkPacket
done = record {
  header = 0;
  affected_rows = 3;
  last_insert_id = 0;
  status_flags = 34;
  warnings = 0;
  info = [];
}

-- The packet that ends a result.
eof_bytes :
    encode_eof 512 4 (record { header = 254; warnings = 0; status_flags = 34 })
    ≡ some (5 ∷ 0 ∷ 0 ∷ 4 ∷ 254 ∷ 0 ∷ 0 ∷ 34 ∷ 0 ∷ [])
unfolding encode_eof eof_payload finish store_int2 store_int3 le_bytes
eof_bytes = refl

-- A result of two columns.
column_count_bytes : encode_column_count 0 1 2 ≡ some (1 ∷ 0 ∷ 0 ∷ 1 ∷ 2 ∷ [])
unfolding encode_column_count finish store_int3 le_bytes store_lenenc_int
column_count_bytes = refl
