-- ===== src/Mvcc.antt =====
-- src/observer/storage/trx/mvcc_trx.cpp: transactions over versioned rows.
-- A row carries the two transaction fields that `MvccTrxKit::init` declares, as integers; the rest
-- of its bytes are its data. A table is what the transaction calls of it, `Store`: which rows there
-- are, and which of them the indexes hold. `World` is the store, one transaction, the kit's counter
-- and the log. `none` stands for a failed ASSERT.
pub mod Rows
pub mod Trx
pub mod Visibility
pub mod Effects
pub mod Rollback
pub mod Atomic
pub mod Keep
pub mod Change
pub mod Lost
mod Tests
pub mod Redo
pub mod Counter
