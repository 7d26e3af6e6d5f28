-- ===== src/Log/File.antt =====
-- `CLogFile` and `CLogRecordIterator` of src/observer/storage/clog/clog.cpp, over `readn` of
-- deps/common/io/io.cpp. A read of the file fails only at its end.
use landbase.Base.{
  ℕ, Bool, true, false, Option, none, some, List, [], leb, if◌then◌else◌, take, drop, length,
}
use landbase.Base.Int.{pos, pos_part, ltb_ℤ}
use landbase.Rc.{Rc, success, ioerr_read, ioerr_write, record_eof, ob_succ}
use landbase.Log.Record.{ClogRecordHeader, ClogRecord, record_header_size, header_of, build}

-- The bytes of the file, those after the file offset, and `eof_`.
pub record ClogFile : Type 0 where
  pub contents : List ℕ
  pub unread : List ℕ
  pub eof : Bool

-- `readn`: the bytes that are read, the file after it, and whether there were enough.
unfoldable pub readn : ClogFile → ℕ → Bool × List ℕ × ClogFile
readn f size =
    (leb size (length f.unread), take size f.unread, record f { unread = drop size f.unread })

unfoldable pub read : ClogFile → ℕ → Rc × List ℕ × ClogFile
unfolding readn
read f len =
    let (whole, bytes, f') = readn f len in
    if whole then (success, bytes, f') else (ioerr_read, bytes, record f' { eof = true })

-- What `next` does with the body of a record: the record, unless the ASSERT of `build` fails.
unfoldable pub next_body :
    ClogRecordHeader → Rc × List ℕ × ClogFile → Option (Rc × Option ClogRecord × ClogFile)
next_body header (rc, bytes, f) =
    if ob_succ rc
    then elim (build header bytes) [ none ↦ none | some r ↦ some (rc, some r, f) ]
    else some (rc, none, f)

unfoldable pub next_header : Rc × List ℕ × ClogFile → Option (Rc × Option ClogRecord × ClogFile)
next_header (rc, bytes, f) =
    let header = header_of bytes in
    if ob_succ rc
    then (if ltb_ℤ (pos 0) header.logrec_len
        then next_body header (read f (pos_part header.logrec_len))
        else next_body header (rc, [], f))
    else if f.eof
    then some (record_eof, none, f)
    else some (rc, none, f)

-- `CLogRecordIterator::next`
unfoldable pub next : ClogFile → Option (Rc × Option ClogRecord × ClogFile)
next f = next_header (read f record_header_size)

-- `CLogFile::write`. `writen` is a parameter: from the bytes of the file and those to write, whether
-- it returns 0, and the bytes of the file after it. The file is open with O_APPEND.
unfoldable pub write : (List ℕ → List ℕ → Bool × List ℕ) → ClogFile → List ℕ → Rc × ClogFile
write writen f bytes =
    let (done, contents) = writen f.contents bytes in
    let f' = record f { contents = contents; unread = [] } in
    if done then (success, f') else (ioerr_write, f')

-- `CLogFile::init` where `open(2)` succeeds: the offset of a file that is opened is 0.
unfoldable pub init : List ℕ → ClogFile
init contents = record { contents = contents; unread = contents; eof = false }
