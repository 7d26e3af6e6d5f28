-- ===== src/Mvcc/Trx.antt =====
-- `MvccTrxKit` and `MvccTrx` of src/observer/storage/trx/mvcc_trx.cpp, and the operations of
-- src/observer/storage/trx/trx.h.
use mathlib.Core.Option
use landbase.Base.{
  ℕ, zero, suc, ◌-◌, ◌^◌, Bool, true, false, not, ◌&&◌, ◌||◌, Option, none, some, List, [], ◌∷◌,
  ◌++◌, if◌then◌else◌,
}
use landbase.Base.Int.{ℤ, pos, negsuc, neg, ltb_ℤ, leb_ℤ, eqb_ℤ}
use landbase.Rc.{
  Rc, success, record_invisible, locked_concurrency_conflict, internal, schema_table_not_exist,
  ob_succ,
}
use landbase.Mvcc.Rows.{
  Row, RowId, same_id, Store, set_row, delete_entry_of_indexes, Tables, insert_entry_of_indexes,
  insert_row, delete_row, recover_insert_row,
}

-- `Operation::Type`
pub data OperationType : Type 0 where
  insert update delete undefined : OperationType

pub record Operation : Type 0 where
  pub type : OperationType
  pub id : RowId

-- The log records that a transaction appends, without their lengths.
pub data LogRecord : Type 0 where
  mtr_begin : ℤ → LogRecord
  mtr_commit : ℤ → ℤ → LogRecord
  mtr_rollback : ℤ → LogRecord
  inserted : ℤ → RowId → Row → LogRecord
  deleted : ℤ → RowId → LogRecord

pub record Trx : Type 0 where
  pub trx_id : ℤ
  pub started : Bool
  pub recovering : Bool
  pub operations : List Operation

-- What the log manager answers to a record, from the records that it was given before: `append_log`
-- how it takes the record, and `commit_trx` the outcome of appending it and bringing the log to the
-- disk, with the records afterwards; `none` is a failed ASSERT.
pub record LogManager : Type 0 where
  pub append_log : List LogRecord → LogRecord → Rc
  pub commit_trx : List LogRecord → LogRecord → Option (Rc × List LogRecord)

pub record World : Type 0 where
  pub store : Store
  pub manager : LogManager
  pub trx : Trx
  pub current_trx_id : ℤ
  pub log : List LogRecord

-- `numeric_limits<int32_t>::max()`
abbrev pub max_trx_id : ℤ
max_trx_id = pos (2 ^ 31 - 1)

-- `++` on an `int32_t`.
unfoldable pub increment : ℤ → ℤ
increment (pos n) = if eqb_ℤ (pos n) max_trx_id then negsuc (2 ^ 31 - 1) else pos (suc n)
increment (negsuc zero) = pos 0
increment (negsuc (suc n)) = negsuc n

unfoldable pub next_trx_id : World → ℤ × World
next_trx_id w = let id = increment w.current_trx_id in (id, record w { current_trx_id = id })

-- `MvccTrx(kit, log_manager)` and `MvccTrx(kit, trx_id)`
unfoldable pub create_trx : Trx
create_trx = record { trx_id = negsuc 0; started = false; recovering = false; operations = [] }

unfoldable pub recover_trx : ℤ → Trx
recover_trx id = record { trx_id = id; started = true; recovering = true; operations = [] }

-- The records at which a transaction begins or rolls back have no body, and the buffer takes them
-- always.
abbrev pub append : World → LogRecord → World
append w r = record w { log = w.log ++ (r ∷ []) }

abbrev pub set_operations : World → List Operation → World
set_operations w ops = record w { trx = record (w.trx) { operations = ops } }

unfoldable pub has_operation : RowId → List Operation → Bool
has_operation i [] = false
has_operation i (op ∷ ops) = same_id i op.id || has_operation i ops

-- `operations_.insert(op)`: an operation with the same table, page and slot keeps its place.
unfoldable pub add_operation : Operation → List Operation → List Operation × Bool
add_operation op ops = if has_operation op.id ops then (ops, false) else (op ∷ ops, true)

-- `visit_record`: may transaction `id` read, or change, this row?
unfoldable pub check_row : ℤ → Row → Bool → Rc
check_row id r readonly =
    if ltb_ℤ (pos 0) r.begin_xid && ltb_ℤ (pos 0) r.end_xid
    then (if leb_ℤ r.begin_xid id && leb_ℤ id r.end_xid then success else record_invisible)
    else if ltb_ℤ r.begin_xid (pos 0)
    then (if eqb_ℤ (neg r.begin_xid) id then success else record_invisible)
    else if ltb_ℤ r.end_xid (pos 0)
    then (if readonly
        then (if not (eqb_ℤ (neg r.end_xid) id) then success else record_invisible)
        else if not (eqb_ℤ (neg r.end_xid) id)
        then locked_concurrency_conflict
        else record_invisible)
    else success

abbrev pub set_begin : ℤ → Row → Row
set_begin x r = record r { begin_xid = x }

abbrev pub set_end : ℤ → Row → Row
set_end x r = record r { end_xid = x }

unfoldable pub start_if_need : World → Option (Rc × World)
unfolding next_trx_id
start_if_need w = if w.trx.started then some (success, w) else elim w.trx.operations [
  | op ∷ ops ↦ none
  | [] ↦
      let (id, w') = next_trx_id w in
      some (
        success,
        record w' {
          trx = record (w'.trx) { trx_id = id; started = true };
          log = w'.log ++ (mtr_begin id ∷ []);
        },
      )
]

-- An updater for a row that the transaction holds: the ASSERT on the field, then the new value.
unfoldable pub held_begin : ℤ → Row → Bool
held_begin id r = eqb_ℤ r.begin_xid (neg id)

unfoldable pub held_end : ℤ → Row → Bool
held_end id r = eqb_ℤ r.end_xid (neg id)

-- `visit_record` with an updater that begins with an ASSERT, where the source then asserts that the
-- visit succeeded.
unfoldable pub update_held : (Row → Bool) → (Row → Row) → Store → RowId → Option Store
update_held holds updater s i = elim (s.row i) [
  | none ↦ none
  | some r ↦ if holds r then some (set_row s i (some (updater r))) else none
]

-- One round of the loop of `commit_with_trx_id`.
unfoldable pub commit_operation : ℤ → ℤ → Operation → Store → Option Store
unfolding update_held held_begin held_end
commit_operation id commit_xid op s = elim op.type [
  | insert ↦ update_held (held_begin id) (set_begin commit_xid) s op.id
  | delete ↦ update_held (held_end id) (set_end commit_xid) s op.id
  | _ ↦ none
]

unfoldable pub commit_operations : ℤ → ℤ → List Operation → Store → Option Store
commit_operations id commit_xid [] s = some s
commit_operations id commit_xid (op ∷ ops) s = elim (commit_operation id commit_xid op s) [
  | none ↦ none
  | some s' ↦ commit_operations id commit_xid ops s'
]

abbrev pub ended : World → Store → World
ended w s = record w { store = s; trx = record (w.trx) { started = false; operations = [] } }

-- The answer of the log to a commit; a transaction that recovers does not ask it.
unfoldable pub log_commit : World → ℤ → Option (Rc × List LogRecord)
log_commit w commit_xid =
    if w.trx.recovering
    then some (success, w.log)
    else w.manager.commit_trx w.log (mtr_commit w.trx.trx_id commit_xid)

unfoldable pub commit_with_trx_id : World → ℤ → Option (Rc × World)
commit_with_trx_id w commit_xid =
    elim (commit_operations w.trx.trx_id commit_xid w.trx.operations w.store) [
      | none ↦ none
      | some s ↦ elim (log_commit w commit_xid) [
        | none ↦ none
        | some (rc, log) ↦ some (rc, record (ended w s) { log = log })
      ]
    ]

unfoldable pub commit : World → Option (Rc × World)
commit w = let (id, w') = next_trx_id w in commit_with_trx_id w' id

-- What `insert_record` does with the outcome of `Table::insert_record`.
unfoldable pub after_insert_row : World → Row → Rc × Option RowId × Store → Option (Rc × World)
after_insert_row w r (rc, none, s) =
    if not (ob_succ rc) then some (rc, record w { store = s }) else none
after_insert_row w r (rc, some i, s) =
    let w' = append (record w { store = s }) (inserted w.trx.trx_id i r) in
    let (ops, fresh) = add_operation (record { type = insert; id = i }) w.trx.operations in
    if not (ob_succ rc)
    then some (rc, record w { store = s })
    else if not (ob_succ (w.manager.append_log w.log (inserted w.trx.trx_id i r)))
    then none
    else some (if fresh then success else internal, set_operations w' ops)

module _ (tables : Tables) where
  unfoldable pub insert_record : World → ℕ → Row → Option (Rc × World)
  insert_record w table_id new_row =
      let r = set_end max_trx_id (set_begin (neg w.trx.trx_id) new_row) in
      after_insert_row w r (insert_row tables w.store table_id r)

  -- The row is the one in the table, which the caller reached by a scan for writing.
  unfoldable pub delete_record : World → RowId → Option (Rc × World)
  delete_record w i = elim (w.store.row i) [
    | none ↦ none
    | some r ↦
        if not (ltb_ℤ (pos 0) r.end_xid)
        then none
        else if not (eqb_ℤ r.end_xid max_trx_id)
        then some (success, w)
        else if not (ob_succ (w.manager.append_log w.log (deleted w.trx.trx_id i)))
        then none
        else let s =
            delete_entry_of_indexes (set_row w.store i (some (set_end (neg w.trx.trx_id) r))) i in
          let w' = append (record w { store = s }) (deleted w.trx.trx_id i) in
          let ops = (add_operation (record { type = delete; id = i }) w.trx.operations).0 in
          some (success, set_operations w' ops)
  ]

  -- What `update_record` does with the outcome of `Table::insert_record`, for the old row `i` with
  -- its mark and the new row.
  unfoldable pub after_update_row :
      World → RowId → Row → Row → Rc × Option RowId × Store → Option (Rc × World)
  after_update_row w i old r (rc, none, s) =
      if not (ob_succ rc)
      then some (rc, record w { store = (insert_entry_of_indexes tables s i old).1 })
      else none
  after_update_row w i old r (rc, some j, s) =
      let w1 = append (record w { store = s }) (deleted w.trx.trx_id i) in
      let w' = append w1 (inserted w.trx.trx_id j r) in
      let ops = (add_operation (record { type = delete; id = i }) w.trx.operations).0 in
      if not (ob_succ rc)
      then some (rc, record w { store = (insert_entry_of_indexes tables s i old).1 })
      else if not (ob_succ (w.manager.append_log w.log (deleted w.trx.trx_id i)))
      then none
      else if not (ob_succ (w.manager.append_log w1.log (inserted w.trx.trx_id j r)))
      then none
      else some
          (success, set_operations w' (add_operation (record { type = insert; id = j }) ops).0)

  -- The old row is held before the new one is inserted; the results of the two calls of
  -- `operations_.insert` are not returned.
  unfoldable pub update_record : World → RowId → Row → Option (Rc × World)
  update_record w i new_row = elim (w.store.row i) [
    | none ↦ none
    | some r ↦
        let rc = check_row w.trx.trx_id r false in
        let old = set_end (neg w.trx.trx_id) r in
        let held = delete_entry_of_indexes (set_row w.store i (some old)) i in
        let r' = set_end max_trx_id (set_begin (neg w.trx.trx_id) new_row) in
        if not (ob_succ rc)
        then some (rc, w)
        else after_update_row w i old r' (insert_row tables held i.table_id r')
  ]

  -- One round of the loop of `rollback`.
  unfoldable pub rollback_operation : ℤ → Operation → Store → Option Store
  unfolding update_held held_end
  rollback_operation id op s = elim op.type [
    | insert ↦ elim (s.row op.id) [
      | none ↦ none
      | some r ↦ let (rc, s') = delete_row tables s op.id in if ob_succ rc then some s' else none
    ]
    | undefined ↦ none
    | _ ↦ update_held (held_end id) (set_end max_trx_id) s op.id
  ]

  unfoldable pub rollback_operations : ℤ → List Operation → Store → Option Store
  rollback_operations id [] s = some s
  rollback_operations id (op ∷ ops) s = elim (rollback_operation id op s) [
    | none ↦ none
    | some s' ↦ rollback_operations id ops s'
  ]

  unfoldable pub rollback : World → Option (Rc × World)
  rollback w = elim (rollback_operations w.trx.trx_id w.trx.operations w.store) [
    | none ↦ none
    | some s ↦ some (
      success,
      if w.trx.recovering then ended w s else append (ended w s) (mtr_rollback w.trx.trx_id),
    )
  ]

  -- Replays one record of the log; `table_exists` is `db->find_table`.
  unfoldable pub redo : (ℕ → Bool) → World → LogRecord → Option (Rc × World)
  unfolding update_held
  redo table_exists w (mtr_begin id) = none
  redo table_exists w (inserted id i r) =
      if not (table_exists i.table_id)
      then some (schema_table_not_exist, w)
      else let (rc, s) = recover_insert_row tables w.store i r in
        if not (ob_succ rc)
        then some (rc, record w { store = s })
        else some (
          success,
          set_operations (record w { store = s })
              (add_operation (record { type = insert; id = i }) w.trx.operations).0,
        )
  redo table_exists w (deleted id i) =
      if not (table_exists i.table_id)
      then some (schema_table_not_exist, w)
      else elim (update_held (λ r. eqb_ℤ r.end_xid max_trx_id) (set_end (neg w.trx.trx_id)) w.store
          i) [
            | none ↦ none
            | some s ↦ some (
              success,
              set_operations (record w { store = s })
                  (add_operation (record { type = delete; id = i }) w.trx.operations).0,
            )
          ]
  redo table_exists w (mtr_commit id commit_xid) =
      Option.map (λ r. (success, r.1)) (commit_with_trx_id w commit_xid)
  redo table_exists w (mtr_rollback id) = Option.map (λ r. (success, r.1)) (rollback w)
