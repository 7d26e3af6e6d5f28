-- ===== src/Lib.antt =====
-- A model of the storage core and the client connection of the landbase database, a server for SQL
-- written in C++, and what is proved of it.
--
-- The parts, from the disk to the client. The buffer pool holds pages of files in a limited number
-- of frames. A page of records keeps a bitmap of its slots; records go in and out by their slot
-- numbers, and a scan visits them in order. A table makes rows of records, with entries in indexes,
-- which are B+ trees over pages of the buffer pool.
-- A transaction marks the rows that it inserts and deletes with its number, keeps a set of its
-- operations, and on commit or rollback visits them all; a reader tells by the two numbers of a row
-- whether it sees it. What a transaction does goes to the write-ahead log, which its commit brings to
-- the disk; after a crash the recovery reads the log, does the changes of its records again and
-- rolls back the transactions that have not ended. A query's condition is an expression, which the optimizer rewrites and moves
-- down to the scan of a table; the operators evaluate it on every tuple. A result goes to the
-- client as packets of the MySQL protocol, through a ring buffer.
--
-- The files:
--   Base      numbers, tests, lists, memory and the bits of a byte, shared by all parts.
--   Rc        `RC` of src/observer/common/rc.h, and the macros on it.
--   Bitmap    `common::Bitmap` of deps/common/lang/bitmap.cpp. A bitmap is a list of bytes and a
--             number of bits. Bitmap.Bits is about single bits, Bitmap.Search and Bitmap.Find about
--             the search for the next bit.
--   Record    `RecordPageHandler` and `RecordPageIterator` of
--             src/observer/storage/record/record_manager.cpp. Record.Layout is the header of an
--             empty page, Record.Page the operations, `Page.Inv.IsValid` their invariant,
--             Record.Iterator the iterator and the scan of a page. A page's data is a function from
--             addresses to bytes; the frame's pin, latch and dirty flag are fields of the page.
--   Buffer    The buffer pool of src/observer/storage/buffer: `LruCache` of
--             deps/common/lang/lru_cache.h in Buffer.Lru, frames and the frame manager in
--             Buffer.Frames, `DiskBufferPool` of disk_buffer_pool.cpp in Buffer.Pool. Pool.View says
--             what readers see of a file and when a pool is coherent, Pool.Steps what single steps
--             do, Pool.Evict is about the loop that makes room, Pool.Read and Pool.Purge about
--             `get_this_page` and `purge_page`. The files are a parameter, `Pool.Device`.
--             Buffer.Header is the header of a file, with its bitmap of pages in use, and the
--             operations on it.
--   Mvcc      `MvccTrx` of src/observer/storage/trx/mvcc_trx.cpp, with what it calls of
--             src/observer/storage/table/table.cpp in Mvcc.Rows. `Atomic.Tracks` says how the rows
--             relate to those before the transaction; Mvcc.Keep and Mvcc.Change show that the
--             operations keep it, Mvcc.Atomic what commit and rollback make of it,
--             Mvcc.Visibility who sees what, Mvcc.Lost which changes are not recorded, Mvcc.Counter
--             which numbers are below the kit's counter. `MvccTrx::redo` is in Mvcc.Redo. The record
--             manager's choice of a slot and the indexes' answers are parameters, `Rows.Tables`, and
--             so are the log manager's answers, `Trx.LogManager`, with the refusal of a record.
--   Log       The write-ahead log of src/observer/storage/clog/clog.cpp. Log.Int32 is an integer as
--             four bytes, Log.Record `CLogRecord` and its bytes, Log.File `CLogFile` and
--             `CLogRecordIterator`, Log.Buffer `CLogBuffer` and `CLogManager` without the recovery,
--             Log.Recover `CLogManager::recover` with the list of transactions of `MvccTrxKit`.
--             Log.Entry, Log.Building and Log.Reading are about reading records back, Log.Replay
--             about the recovery from what was written, Log.Durable about what a commit leaves on
--             the disk, Log.Crash and Log.Counter about the state after the recovery. The answers
--             of writen and fsync are parameters, `Buffer.Disk`; so are a row of a record's bytes
--             and the lookup of a table.
--   Index     The B+ tree of src/observer/storage/index/bplus_tree.cpp. Index.Key has the comparison
--             of keys, Index.Node the handlers of leaves and of internal nodes, Index.Tree, Index.Insert,
--             Index.Merge and Index.Delete the operations of `BplusTreeHandler` over pages.
--             Index.Order, Equal, Sorted, Lookup, Leaf and Balance are about single nodes;
--             `Ranges.TreeAt` says when pages are a search tree, with the entries that it holds;
--             Index.Search, Find, Full, Grow, Insertion, Removal and Deletion are about these trees.
--   Net       `RingBuffer` of src/observer/net/ring_buffer.cpp in Net.RingBuffer, as a bounded queue
--             of bytes, `BufferedWriter` of src/observer/net/buffered_writer.cpp over it in
--             Net.Writer, with write(2) as a parameter, `Writer.Socket`, and the packets of
--             src/observer/net/mysql_communicator.cpp in Net.Wire, with the client's decoders of
--             the protocol as their specification.
--   Lang      `lower_bound` of deps/common/lang/lower_bound.h and the comparisons of
--             deps/common/lang/comparator.cpp.
--   Sql       `Value::compare` and `Value::get_boolean` of src/observer/sql/parser/value.cpp in
--             Sql.Value, expressions and their values of src/observer/sql/expr/expression.cpp in
--             Sql.Expr, the rewriting of expressions of src/observer/sql/optimizer in Sql.Rewrite:
--             `Rewrite.Safe` says which expressions the rules treat well, Rewrite.Sound what holds
--             of these, and Rewrite.Lost what happens to others. Sql.Pushdown moves conditions down
--             to the scan of a table, chooses between that scan and an index, and runs it with the
--             predicate above it; what the scan of an index gives is a parameter. What the code
--             does with floating point numbers and with std::stof and std::regex is a parameter,
--             `Value.Floats`; the answer of a table for a field of a tuple is another.
--
-- Conventions. A failed ASSERT, or a write past a buffer, is `none`. The numbers of a transaction are
-- integers within 32 bits; counters that the code keeps positive are natural numbers. The loops of
-- the bitmap and of the iterator are recursion on the list of bytes and on the number of slots; the
-- loops of the ring buffer run on as many rounds as bytes are asked for and one more, since every
-- round moves at least one byte. The loop around write(2) runs on a fuel of the socket's, its
-- patience; that this is enough is a hypothesis, since the code calls again for as long as the
-- system answers EAGAIN. A binary search runs on one round more than its range is long, and the
-- rewriting of an expression on as many levels as the expression is deep. The loop of the buffer
-- pool that makes room runs on fuel: two rounds are enough when a frame can be had, and no number is
-- when every frame is pinned. There a failed ASSERT is `aborted`, and fuel that has run out is
-- `still_running`. The recovery runs on one round more than the file has bytes left, since every
-- record takes some; the descent in a B+ tree and the ways back up run on the number of its levels.
-- The numbers in the row id of a key are below 2^31 and not negative.
-- BP_INVALID_PAGE_NUM is `none` as the number of a page, and a page of an index that is disposed is
-- gone at once.
--
-- Not modelled: the opening, closing and printing of files, the scanner and the checks of a B+ tree,
-- casts of values, arithmetic, aggregates and subqueries, plans and operators other than the scan and
-- the predicate, the parser, sessions, threads, and latches other than the flags of a page. A
-- transaction is taken by itself, between the steps of others; the list of all transactions in
-- `MvccTrxKit` is taken as far as the recovery uses it. Splits and merges of the nodes of a B+ tree are
-- modelled, but the search trees are looked at for changes that stay within a leaf. Values of `int` are
-- not taken beyond their range, but for the numbers of transactions.
pub mod Base
pub mod Rc
pub mod Bitmap
pub mod Buffer
pub mod Record
pub mod Lang
pub mod Mvcc
pub mod Log
pub mod Index
pub mod Net
pub mod Sql
