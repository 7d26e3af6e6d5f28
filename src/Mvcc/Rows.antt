-- ===== src/Mvcc/Rows.antt =====
-- Rows, their ids, and the calls of `Table` that a transaction makes (`insert_record`,
-- `visit_record`, `get_record`, `delete_record` and the calls on indexes of
-- src/observer/storage/table/table.cpp, as far as a transaction relies on them).
use landbase.Base.{
  ℕ, ◌≡◌, inl, inr, Bool, true, false, not, ◌&&◌, Option, none, some, List, arith, ◌==◌,
  if◌then◌else◌, Bool-cases,
}
use landbase.Base.Int.{ℤ}
use landbase.Rc.{Rc, success, record_not_exist, ob_succ}

pub record Row : Type 0 where
  pub begin_xid : ℤ
  pub end_xid : ℤ
  pub fields : List ℕ

-- `OperationEqualer` compares these three numbers.
pub record RowId : Type 0 where
  pub table_id : ℕ
  pub page_num : ℕ
  pub slot_num : ℕ

abbrev pub same_id : RowId → RowId → Bool
same_id a b = a.table_id == b.table_id && (a.page_num == b.page_num && a.slot_num == b.slot_num)

pub same_id-eq : (a b : RowId) → same_id a b ≡ true → a ≡ b
same_id-eq a b h = ground arith

pub same_id_self : (a : RowId) → same_id a a ≡ true
same_id_self a = ground arith

pub same_id_comm : (a b : RowId) → same_id a b ≡ same_id b a
same_id_comm a b = ground arith

pub same_id-ne : (a b : RowId) → ¬ (a ≡ b) → same_id a b ≡ false
same_id-ne a b h = elim (Bool-cases (same_id a b)) [
  | inl e ↦ absurd (h (same_id-eq a b e))
  | inr e ↦ e
]

-- Which rows there are, and for which rows the indexes of their tables hold entries.
pub record Store : Type 0 where
  pub row : RowId → Option Row
  pub indexed : RowId → Bool

abbrev pub set_row : Store → RowId → Option Row → Store
set_row s i r = record s { row = λ j. if same_id i j then r else s.row j }

abbrev pub set_indexed : Store → RowId → Bool → Store
set_indexed s i b = record s { indexed = λ j. if same_id i j then b else s.indexed j }

-- `Table::visit_record` with an updater, which works on the row in place.
pub visit_record : Store → RowId → (Row → Row) → Rc × Store
visit_record s i updater = elim (s.row i) [
  | none ↦ (record_not_exist, s)
  | some r ↦ (success, set_row s i (some (updater r)))
]

-- `Table::delete_entry_of_indexes` without an error for entries that are not there.
unfoldable pub delete_entry_of_indexes : Store → RowId → Store
delete_entry_of_indexes s i = set_indexed s i false

-- What the tables rely on, as parameters: the free slot that the record manager puts a new record
-- in, if it has one, and else its code; what the indexes answer to the entries of a new row; which tables have indexes.
pub record Tables : Type 0 where
  pub place : Store → ℕ → Option RowId
  pub failure : Store → ℕ → Rc
  pub insert_entries : Store → RowId → Row → Rc
  pub has_index : ℕ → Bool
  pub failure_fails : (s : Store) (t : ℕ) → ob_succ (failure s t) ≡ false
  pub place_free :
      (s : Store) (t : ℕ) (i : RowId) → place s t ≡ some i → (s.row i ≡ none) × (i.table_id ≡ t)

module _ (tables : Tables) where
  -- `Table::insert_entry_of_indexes`
  unfoldable pub insert_entry_of_indexes : Store → RowId → Row → Rc × Store
  insert_entry_of_indexes s i r =
      let rc = tables.insert_entries s i r in
      if ob_succ rc then (rc, set_indexed s i true) else (rc, s)

  -- `Table::insert_record`: the row's id, if the record manager gave one. A failure of the indexes
  -- takes the entries and the record back.
  unfoldable pub insert_row : Store → ℕ → Row → Rc × Option RowId × Store
  insert_row s t r = elim (tables.place s t) [
    | none ↦ (tables.failure s t, none, s)
    | some i ↦
        let rc = tables.insert_entries (set_row s i (some r)) i r in
        if ob_succ rc
        then (success, some i, set_indexed (set_row s i (some r)) i true)
        else (rc, some i, set_row (delete_entry_of_indexes (set_row s i (some r)) i) i none)
  ]

  -- `Table::delete_record`: entries that should be in the indexes and are not are an error.
  unfoldable pub delete_row : Store → RowId → Rc × Store
  delete_row s i =
      if tables.has_index i.table_id && not (s.indexed i)
      then (record_not_exist, s)
      else elim (s.row i) [
        | none ↦ (record_not_exist, delete_entry_of_indexes s i)
        | some r ↦ (success, set_row (delete_entry_of_indexes s i) i none)
      ]

  -- `Table::recover_insert_record` at the row id that the log names.
  unfoldable pub recover_insert_row : Store → RowId → Row → Rc × Store
  recover_insert_row s i r =
      let rc = tables.insert_entries (set_row s i (some r)) i r in
      if ob_succ rc
      then (success, set_indexed (set_row s i (some r)) i true)
      else (rc, set_row (delete_entry_of_indexes (set_row s i (some r)) i) i none)
