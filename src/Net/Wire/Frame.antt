-- ===== src/Net/Wire/Frame.antt =====
-- The client's view of the packets of src/observer/net/mysql_communicator.cpp: it finds the end of
-- each in the stream by its header, and reads back the cells of a row.
use landbase.Base.{
  ℕ, suc, ◌+◌, ◌-◌, ◌*◌, ◌%◌, ◌^◌, ◌≤◌, ◌<◌, ◌≡◌, refl, ap, ◌∙◌, Bool, true, false, Option, some,
  none, List, [], ◌∷◌, ◌++◌, arith, if◌then◌else◌, take, drop, length, append_assoc, leb,
  length-append, length-take, map, All,
}
use landbase.Base.Result.{Result, ok, fail}
use landbase.Rc.{Rc, success}
use landbase.Net.Wire.{
  le_bytes, store_int2, store_int3, store_lenenc_int, store_lenenc_string, store_fix_length_string,
}
use landbase.Net.Wire.Lenenc.{
  read_le, low, low-eq, read_le-le_bytes, IsKept, store_lenenc_string_lem, read_row, take-append,
  drop-append,
}
use landbase.Net.Wire.Packet.{
  finish, has_flag, client_protocol_41, client_transactions, client_session_track, OkPacket,
  ok_payload, encode_ok, ErrPacket, err_payload, encode_err, row_payload, stored_cells, encode_row,
}

-- A packet's sequence id and payload, and what follows it in the stream.
unfoldable pub read_packet : List ℕ → Option (ℕ × List ℕ × List ℕ)
read_packet xs = elim (read_le 3 xs) [
  | none ↦ none
  | some (n, []) ↦ none
  | some (n, id ∷ ys) ↦ if leb n (length ys) then some (id, take n ys, drop n ys) else none
]

-- The client finds the packet in the stream: its sequence id, its payload, and what follows.
abbrev pub Sends : Option (List ℕ) → ℕ → List ℕ → Type 0
Sends packet sequence_id payload =
    (bytes : List ℕ) × (packet ≡ some bytes)
    × ((rest : List ℕ) → read_packet (bytes ++ rest) ≡ some (sequence_id, payload, rest))

pub finish-Sends :
    (limit sequence_id : ℕ) (payload : List ℕ)
    → limit < 2 ^ 24
    → sequence_id < 256
    → 4 + length payload ≤ limit
    → Sends (finish limit sequence_id payload) sequence_id payload
unfolding finish read_packet store_int3
finish-Sends limit id payload small byte fits = (
  le_bytes 3 (4 + length payload - 4) ++ (id % 256 ∷ payload),
  rw (finish, ok) refl,
  λ rest.
      ap read_packet (whole rest)
      ∙ rw
          (
            read_packet,
            read_le-le_bytes 3 (4 + length payload - 4) (id % 256 ∷ (payload ++ rest)),
            size,
          )
          (rw (long rest, take-append payload rest, drop-append payload rest, id_eq) refl),
)
  where
    ok : leb (4 + length payload) limit ≡ true
    ok = ground arith

    size : low 3 (4 + length payload - 4) ≡ length payload
    size = low-eq 3 (4 + length payload - 4) (omega arith) ∙ omega arith

    id_eq : id % 256 ≡ id
    id_eq = omega arith

    long : (rest : List ℕ) → leb (length payload) (length (payload ++ rest)) ≡ true
    long rest = ground (arith, length-append payload rest)

    whole :
        (rest : List ℕ)
        → (le_bytes 3 (4 + length payload - 4) ++ (id % 256 ∷ payload)) ++ rest
          ≡ le_bytes 3 (4 + length payload - 4) ++ (id % 256 ∷ (payload ++ rest))
    whole rest = append_assoc (le_bytes 3 (4 + length payload - 4)) (id % 256 ∷ payload) rest

row_payload-read_row :
    (cells : List (List ℕ))
    → All (λ cell. IsKept (length cell)) cells
    → read_row (length cells) (row_payload cells) ≡ some cells
unfolding row_payload read_row
row_payload-read_row [] kept = refl
row_payload-read_row (cell ∷ cells) kept =
    rw (read_row, row_payload, store_lenenc_string_lem cell (row_payload cells) kept.0)
      (rw (row_payload-read_row cells kept.1) refl)

stored_cells-ok : (cells : List (List ℕ)) → stored_cells (map ok cells) ≡ (cells, success)
unfolding stored_cells
stored_cells-ok [] = refl
stored_cells-ok (cell ∷ cells) = rw (stored_cells, stored_cells-ok cells) refl

length-map_ok :
    (cells : List (List ℕ)) → length {A = Result Rc (List ℕ)} (map ok cells) ≡ length cells
length-map_ok [] = refl
length-map_ok (cell ∷ cells) = ap suc (length-map_ok cells)

stored_cells-fail :
    (cells : List (List ℕ)) (rc : Rc) (later : List (Result Rc (List ℕ)))
    → stored_cells (map ok cells ++ (fail rc ∷ later)) ≡ (cells, rc)
unfolding stored_cells
stored_cells-fail [] rc later = refl
stored_cells-fail (cell ∷ cells) rc later = rw (stored_cells, stored_cells-fail cells rc later) refl

-- The row of a tuple reaches the client: one packet with its cells, and the code.
pub record RowSends (row : Option (List ℕ × Rc)) (sequence_id : ℕ) (cells : List (List ℕ)) (rc : Rc)
    : Type 0 where
  pub bytes : List ℕ
  pub sent : row ≡ some (bytes, rc)
  pub packet :
      (rest : List ℕ) → read_packet (bytes ++ rest) ≡ some (sequence_id, row_payload cells, rest)
  pub row_read : read_row (length cells) (row_payload cells) ≡ some cells

row-RowSends :
    (sequence_id : ℕ) (answers : List (Result Rc (List ℕ))) (cells : List (List ℕ)) (rc : Rc)
    → 1 ≤ length answers
    → stored_cells answers ≡ (cells, rc)
    → sequence_id < 256
    → All (λ cell. IsKept (length cell)) cells
    → 4 + length (row_payload cells) ≤ 4 * 1024 * 1024
    → RowSends (encode_row sequence_id answers) sequence_id cells rc
unfolding encode_row
row-RowSends id [] cells rc some_cell stored byte kept fits = absurd (omega arith)
row-RowSends id (answer ∷ answers) cells rc some_cell stored byte kept fits =
    let (bytes, done, packet) =
      finish-Sends (4 * 1024 * 1024) id (row_payload cells) (omega arith) byte fits in
    record {
      bytes = bytes;
      sent = rw (encode_row, ap (λ r. r.0) stored, done) (ap (λ r. some (bytes, r.1)) stored);
      packet = packet;
      row_read = row_payload-read_row cells kept;
    }

-- What a tuple sends, when the cells that are stored have lengths that are kept and fit in the buffer
-- of 4 MB. A tuple without cells sends nothing. If every cell answers, and there is one, the client
-- gets one packet, from which it reads back the cells. If one fails, the client gets a packet all the
-- same, with the cells before it, and its code is set for the result.
pub encode_row-Sends :
    (sequence_id : ℕ) (cells : List (List ℕ))
    → sequence_id < 256
    → All (λ cell. IsKept (length cell)) cells
    → 4 + length (row_payload cells) ≤ 4 * 1024 * 1024
    → (encode_row sequence_id [] ≡ some ([], success))
      × (1 ≤ length cells
          → RowSends (encode_row sequence_id (map ok cells)) sequence_id cells success)
      × ((rc : Rc) (later : List (Result Rc (List ℕ)))
          → RowSends
              (encode_row sequence_id (map ok cells ++ (fail rc ∷ later)))
              sequence_id
              cells
              rc)
unfolding encode_row
encode_row-Sends id cells byte kept fits = (
  refl,
  λ some_cell.
      row-RowSends id (map ok cells) cells success (omega (arith, length-map_ok cells, some_cell))
        (stored_cells-ok cells) byte kept fits,
  λ rc later.
      row-RowSends id (map ok cells ++ (fail rc ∷ later)) cells rc
        (omega (arith, length-append (map ok cells) (fail rc ∷ later)))
        (stored_cells-fail cells rc later) byte kept fits,
)

length-err_payload :
    (capabilities : ℕ) (p : ErrPacket)
    → has_flag capabilities client_protocol_41 ≡ true
    → length p.sql_state_marker ≡ 1
    → length p.sql_state ≡ 5
    → length (err_payload capabilities p) ≡ 9 + length p.error_message
unfolding err_payload store_int2 le_bytes store_fix_length_string
length-err_payload capabilities p flag marker state =
    rw (err_payload, flag)
      (omega (
        arith,
        length-append (take 1 p.sql_state_marker ++ take 5 p.sql_state)
            (take (length p.error_message) p.error_message),
        length-append (take 1 p.sql_state_marker) (take 5 p.sql_state),
        length-take 1 p.sql_state_marker,
        length-take 5 p.sql_state,
        length-take (length p.error_message) p.error_message,
      ))

-- An error packet for a client of the protocol 4.1 is sent whole when the message has at most 987
-- bytes; a longer message is written past the end of the packet's buffer of 1000 bytes.
pub encode_err_lem :
    (capabilities sequence_id : ℕ) (p : ErrPacket)
    → sequence_id < 256
    → has_flag capabilities client_protocol_41 ≡ true
    → length p.sql_state_marker ≡ 1
    → length p.sql_state ≡ 5
    → (length p.error_message ≤ 987
        → Sends (encode_err capabilities sequence_id p) sequence_id (err_payload capabilities p))
      × (987 < length p.error_message → encode_err capabilities sequence_id p ≡ none)
unfolding encode_err finish
encode_err_lem capabilities id p byte flag marker state = (
  λ h. finish-Sends 1000 id (err_payload capabilities p) (omega arith) byte (omega (arith, size)),
  λ h. rw (finish, too_long h) refl,
)
  where
    size : length (err_payload capabilities p) ≡ 9 + length p.error_message
    size = length-err_payload capabilities p flag marker state

    too_long :
        987 < length p.error_message → leb (4 + length (err_payload capabilities p)) 1000 ≡ false
    too_long h = ground (arith, size)

length-store_lenenc_int : (value : ℕ) → length (store_lenenc_int value) ≤ 9
unfolding store_lenenc_int le_bytes
length-store_lenenc_int value = ground arith

length-ok_payload :
    (capabilities : ℕ) (p : OkPacket) → p.info ≡ [] → length (ok_payload capabilities p) ≤ 24
unfolding ok_payload store_int2 le_bytes store_fix_length_string store_lenenc_string
    store_lenenc_int
length-ok_payload capabilities p none_given =
    rw (ok_payload, none_given)
      (joined (store_lenenc_int p.affected_rows) (store_lenenc_int p.last_insert_id)
        (length-store_lenenc_int p.affected_rows) (length-store_lenenc_int p.last_insert_id)
        (has_flag capabilities client_protocol_41) (has_flag capabilities client_transactions)
        (has_flag capabilities client_session_track))
  where
    flags_le :
        (a b c : Bool) (x y t : List ℕ)
        → length ((if a then x ++ y else if b then x else []) ++ (if c then t else []))
          ≤ length x + length y + length t
    flags_le true b true x y t = omega (arith, length-append (x ++ y) t, length-append x y)
    flags_le true b false x y t = omega (arith, length-append (x ++ y) [], length-append x y)
    flags_le false true true x y t = omega (arith, length-append x t)
    flags_le false true false x y t = omega (arith, length-append x [])
    flags_le false false true x y t = omega arith
    flags_le false false false x y t = omega arith

    joined :
        (rows id : List ℕ)
        → length rows ≤ 9
        → length id ≤ 9
        → (a b c : Bool)
        → suc (
            length (
              rows
              ++ (id
                  ++ ((if a
                        then store_int2 p.status_flags ++ store_int2 p.warnings
                        else if b
                        then store_int2 p.status_flags
                        else [])
                      ++ (if c then store_lenenc_string [] else [])))))
          ≤ 24
    joined rows id h h' a b c = omega (
      arith,
      length-append rows (id ++ tail a b c),
      length-append id (tail a b c),
      flags_le a b c (store_int2 p.status_flags) (store_int2 p.warnings) (store_lenenc_string []),
    )
      where
        tail : Bool → Bool → Bool → List ℕ
        tail a b c =
            (if a
              then store_int2 p.status_flags ++ store_int2 p.warnings
              else if b
              then store_int2 p.status_flags
              else [])
            ++ (if c then store_lenenc_string [] else [])

-- The OK packets that the server sends carry no text, and then fit in the buffer of 100 bytes,
-- whatever the numbers of rows are: each is sent as one packet.
pub encode_ok-Sends :
    (capabilities sequence_id : ℕ) (p : OkPacket)
    → sequence_id < 256
    → p.info ≡ []
    → Sends (encode_ok capabilities sequence_id p) sequence_id (ok_payload capabilities p)
unfolding encode_ok
encode_ok-Sends capabilities id p byte none_given =
    finish-Sends 100 id (ok_payload capabilities p) (omega arith) byte
      (omega (arith, length-ok_payload capabilities p none_given))
