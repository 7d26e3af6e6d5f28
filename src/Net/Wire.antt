-- ===== src/Net/Wire.antt =====
-- The functions that put values into a packet of the MySQL protocol, in
-- src/observer/net/mysql_communicator.cpp. Each gives the bytes that it writes at the place it is
-- given. A value is its bit pattern; a C string is its characters before the 0.
use landbase.Base.{
  ℕ, zero, suc, ◌+◌, ◌*◌, ◌/◌, ◌%◌, ◌^◌, List, [], ◌∷◌, ◌++◌, ltb, if◌then◌else◌, take, length,
}
pub mod Lenenc
pub mod Packet
pub mod Frame
mod Tests

-- `memcpy(buf, &value, n)` on a machine that stores the low byte first.
unfoldable pub le_bytes : ℕ → ℕ → List ℕ
le_bytes zero value = []
le_bytes (suc n) value = value % 256 ∷ le_bytes n (value / 256)

abbrev pub store_int1 : ℕ → List ℕ
store_int1 value = value % 256 ∷ []

unfoldable pub store_int2 : ℕ → List ℕ
store_int2 value = le_bytes 2 value

unfoldable pub store_int3 : ℕ → List ℕ
store_int3 value = le_bytes 3 value

unfoldable pub store_int4 : ℕ → List ℕ
store_int4 value = le_bytes 4 value

unfoldable pub store_int6 : ℕ → List ℕ
store_int6 value = le_bytes 6 value

unfoldable pub store_int8 : ℕ → List ℕ
store_int8 value = le_bytes 8 value

-- `2UL << 16` and `2UL << 24` are `2 ^ 17` and `2 ^ 25`.
unfoldable pub store_lenenc_int : ℕ → List ℕ
store_lenenc_int value =
    if ltb value 251
    then value ∷ []
    else if ltb value (2 * 2 ^ 16)
    then 252 ∷ le_bytes 2 value
    else if ltb value (2 * 2 ^ 24)
    then 253 ∷ le_bytes 3 value
    else 254 ∷ le_bytes 8 value

-- A null pointer is like an empty string.
unfoldable pub store_null_terminated_string : List ℕ → List ℕ
store_null_terminated_string [] = []
store_null_terminated_string (c ∷ s) = (c ∷ s) ++ (0 ∷ [])

unfoldable pub store_fix_length_string : List ℕ → ℕ → List ℕ
store_fix_length_string s len = take len s

unfoldable pub store_lenenc_string : List ℕ → List ℕ
store_lenenc_string s = store_lenenc_int (length s) ++ store_fix_length_string s (length s)
