-- ===== src/Mvcc/Change.antt =====
-- `delete_record` and `update_record` of src/observer/storage/trx/mvcc_trx.cpp, on a row that some
-- earlier transaction committed, keep a transaction tracked.
use mathlib.Core.Bool.{false≢true}
use landbase.Base.{
  ℕ, suc, ◌≡◌, refl, sym, ap, ◌∙◌, ◌≢◌, ◌⊎◌, inl, inr, Bool, true, false, Option, none, some, [],
  ◌∷◌, ◌++◌, arith, if◌then◌else◌, Bool-cases,
}
use landbase.Base.Int.{ℤ, pos, neg, eqb_ℤ, eqb_ℤ-eq, ltb_ℤ}
use landbase.Rc.{success, ob_succ}
use landbase.Mvcc.Rows.{
  Row, RowId, same_id, same_id_self, same_id_comm, Store, set_row, set_indexed, Tables, insert_row,
  delete_entry_of_indexes,
}
use landbase.Mvcc.Rollback.{lacks_entries}
use landbase.Mvcc.Atomic.{Tracked, TracksRows, Tracks}
use landbase.Mvcc.Keep.{
  tracks_insert, tracks_delete, full, stored, refused, insert_row-InsertOutcome, ob_succ-false,
  absent_cases, has_operation-none,
}
use landbase.Mvcc.Trx.{
  OperationType, insert, update, delete, undefined, World, has_operation, add_operation, set_begin,
  set_end, max_trx_id, append, set_operations, check_row, delete_record, after_update_row,
  update_record, inserted, deleted,
}

-- A row that was committed, with a number of a real transaction at its end.
pub record IsCommitted (r : Row) : Type 0 where
  pub made : ltb_ℤ (pos 0) r.begin_xid ≡ true
  pub ends : r.end_xid ≢ pos 0

writable_end :
    (id : ℤ) (r : Row)
    → IsCommitted r
    → check_row id r false ≡ success
    → ltb_ℤ (pos 0) r.end_xid ≡ true
unfolding check_row
writable_end id r c h = ground (arith, c.made, c.ends)

not_inserted :
    (n : ℕ) (o : Option OperationType) (b : Option Row) (r : Row) (lacks : Bool)
    → IsCommitted r
    → Tracked (pos (suc n)) o b (some r) lacks
    → o ≢ some insert
not_inserted n none b r lacks c h e = cc e
not_inserted n (some insert) b r lacks c h e = ground (arith, c.made, h.1)
not_inserted n (some delete) b r lacks c h e = cc e
not_inserted n (some update) b r lacks c h e = cc e
not_inserted n (some undefined) b r lacks c h e = cc e

pub max_positive : (n : ℕ) → max_trx_id ≢ neg (pos (suc n))
max_positive n e = cc e

module _ (tables : Tables) (before : RowId → Option Row) (w : World) (tr : Tracks tables before w)
    (n : ℕ) (running : w.trx.trx_id ≡ pos (suc n)) (i : RowId) (r : Row)
    (here : w.store.row i ≡ some r) (committed : IsCommitted r)
    (allowed : check_row w.trx.trx_id r false ≡ success) where
  unfoldable pub marked : Store
  marked = delete_entry_of_indexes (set_row w.store i (some (set_end (neg w.trx.trx_id) r))) i

  marked-Tracks :
      r.end_xid ≡ max_trx_id
      → (has_operation i w.trx.operations ≡ false)
        × TracksRows tables before w.trx.trx_id
            (record { type = delete; id = i } ∷ w.trx.operations)
            marked
  unfolding marked
  marked-Tracks newest =
      tracks_delete tables before w.trx.trx_id w.trx.operations w.store tr i r here newest
        (rw running (max_positive n))
        (not_inserted n _ (before i) r (lacks_entries tables w.store i) committed
          (rw (here, running) at (tr.rows i)))

  -- `delete_record` on a committed row that the transaction may change, if the log takes its record: it
  -- succeeds and keeps the
  -- transaction tracked; the newest version of a row is marked with the transaction, and an older
  -- one is left as it is.
  pub delete_record-Tracks :
      w.manager.append_log w.log (deleted w.trx.trx_id i) ≡ success
      → (w' : World) × (delete_record tables w i ≡ some (success, w'))
        × Tracks tables before w'
        × (r.end_xid ≡ max_trx_id → w'.store.row i ≡ some (set_end (neg w.trx.trx_id) r))
        × (r.end_xid ≢ max_trx_id → w' ≡ w)
  unfolding delete_record add_operation marked delete_entry_of_indexes ob_succ
  delete_record-Tracks takes = elim (Bool-cases (eqb_ℤ r.end_xid max_trx_id)) [
    | inl newest ↦
        let (fresh, tr') = marked-Tracks (eqb_ℤ-eq r.end_xid max_trx_id newest) in
        (
          set_operations (append (record w { store = marked }) (deleted w.trx.trx_id i))
              (record { type = delete; id = i } ∷ w.trx.operations),
          rw (here, delete_record)
              (rw (writable_end w.trx.trx_id r committed allowed, newest, takes)
                (rw (fresh, add_operation) refl)),
          tr',
          λ e.
              ap (λ b. if b then some (set_end (neg w.trx.trx_id) r) else w.store.row i)
                (same_id_self i),
          λ e. absurd (e (eqb_ℤ-eq r.end_xid max_trx_id newest)),
        )
    | inr older ↦ (
      w,
      rw (here, delete_record) (rw (writable_end w.trx.trx_id r committed allowed, older) refl),
      tr,
      λ e. absurd (false≢true (sym older ∙ ap (λ x. eqb_ℤ x max_trx_id) e)),
      λ e. refl,
    )
  ]

  unfoldable pub replacement : Row → Row
  replacement new_row = set_end max_trx_id (set_begin (neg w.trx.trx_id) new_row)

  ids_apart : (j : RowId) → marked.row j ≡ none → (same_id i j ≡ false) × (w.store.row j ≡ none)
  unfolding marked delete_entry_of_indexes
  ids_apart j free = go (Bool-cases (same_id i j)) free
    where
      go :
          (same_id i j ≡ true) ⊎ (same_id i j ≡ false)
          → (if same_id i j then some (set_end (neg w.trx.trx_id) r) else w.store.row j) ≡ none
          → (same_id i j ≡ false) × (w.store.row j ≡ none)
      go (inl e) f = cc (rw e at f)
      go (inr e) f = (e, rw e at f)

  -- `update_record` on the newest version of a committed row that the transaction may change, when
  -- the new row is stored and the log takes the records of both rows: it succeeds, keeps the transaction tracked, marks the old row with the
  -- transaction, and puts the new one in a slot that was free.
  pub update_record-Tracks :
      (new_row : Row)
      → r.end_xid ≡ max_trx_id
      → (insert_row tables marked i.table_id (replacement new_row)).0 ≡ success
      → w.manager.append_log w.log (deleted w.trx.trx_id i) ≡ success
      → ((j : RowId)
          → w.manager.append_log
              (w.log ++ (deleted w.trx.trx_id i ∷ []))
              (inserted w.trx.trx_id j (replacement new_row))
            ≡ success)
      → (w' : World) × (j : RowId) × (update_record tables w i new_row ≡ some (success, w'))
        × Tracks tables before w'
        × (w'.store.row i ≡ some (set_end (neg w.trx.trx_id) r))
        × (w.store.row j ≡ none)
        × (w'.store.row j ≡ some (replacement new_row))
  unfolding update_record after_update_row add_operation has_operation marked replacement
      delete_entry_of_indexes ob_succ
  update_record-Tracks new_row newest good takes takes_new =
      let (fresh, tr') = marked-Tracks newest in
      elim (insert_row-InsertOutcome tables marked i.table_id (replacement new_row)) [
        | full e ↦ absurd (
            ob_succ-false _ (tables.failure_fails marked i.table_id) (sym (ap (λ t. t.0) e) ∙ good))
        | refused j rc free bad e ↦ absurd (ob_succ-false rc bad (sym (ap (λ t. t.0) e) ∙ good))
        | stored j free e ↦
            let apart = ids_apart j free in
            let gone =
              absent_cases w.trx.trx_id _ (before j) (marked.row j) (lacks_entries tables marked j)
                free (tr'.rows j) in
            (
              set_operations
                  (append
                    (append
                      (record w {
                        store = set_indexed (set_row marked j (some (replacement new_row))) j true;
                      })
                      (deleted w.trx.trx_id i))
                    (inserted w.trx.trx_id j (replacement new_row)))
                  (record { type = insert; id = j }
                    ∷ record { type = delete; id = i }
                    ∷ w.trx.operations),
              j,
              rw (here, update_record)
                  (rw allowed (
                    ap
                      (after_update_row tables w i (set_end (neg w.trx.trx_id) r)
                        (replacement new_row))
                      e
                    ∙ rw (fresh, takes, takes_new j, add_operation)
                        (rw (has_operation-none j _ gone.0, add_operation) refl))),
              tracks_insert tables before w.trx.trx_id
                  (record { type = delete; id = i } ∷ w.trx.operations) marked tr' j
                  (replacement new_row) free refl,
              rw (same_id_comm j i, apart.0, same_id_self i) refl,
              apart.1,
              rw (same_id_self j) refl,
            )
      ]
