-- ===== src/Mvcc/Counter.antt =====
-- `redo` of src/observer/storage/trx/mvcc_trx.cpp and the number of the last transaction.
use landbase.Base.{
  ℕ, ◌≡◌, refl, inl, inr, Bool, true, false, not, Option, none, some, if◌then◌else◌, Option-cases,
}
use landbase.Base.Int.{ℤ, neg, eqb_ℤ}
use landbase.Rc.{Rc, ob_succ}
use landbase.Mvcc.Rows.{Tables, recover_insert_row}
use landbase.Mvcc.Trx.{
  World, LogRecord, mtr_begin, mtr_commit, mtr_rollback, inserted, deleted, commit_with_trx_id,
  log_commit, commit_operations, rollback, rollback_operations, redo, update_held, max_trx_id,
  set_end,
}

-- What a call may leave of the number of the last transaction.
abbrev pub Keeps : World → Option (Rc × World) → Type 0
Keeps w none = Unit
Keeps w (some (rc, w')) = w'.current_trx_id ≡ w.current_trx_id

if_counter :
    (w : World) (b : Bool) (x y : World)
    → x.current_trx_id ≡ w.current_trx_id
    → y.current_trx_id ≡ w.current_trx_id
    → (if b then x else y).current_trx_id ≡ w.current_trx_id
if_counter w true x y e f = e
if_counter w false x y e f = f

pub if_Keeps :
    (w : World) (b : Bool) (x y : Option (Rc × World))
    → Keeps w x
    → Keeps w y
    → Keeps w (if b then x else y)
if_Keeps w true x y e f = e
if_Keeps w false x y e f = f

commit_keeps : (w : World) (c : ℤ) → Keeps w (commit_with_trx_id w c)
unfolding commit_with_trx_id
commit_keeps w c = elim (Option-cases (commit_operations w.trx.trx_id c w.trx.operations w.store)) [
  | inl e ↦ rw (commit_with_trx_id, e) tt
  | inr (s, e) ↦ elim (Option-cases (log_commit w c)) [
    | inl gone ↦ rw (commit_with_trx_id, e, gone) tt
    | inr ((rc, log), answer) ↦ rw (commit_with_trx_id, e, answer) refl
  ]
]

module _ (tables : Tables) where
  pub rollback_keeps : (w : World) → Keeps w (rollback tables w)
  unfolding rollback
  rollback_keeps w =
      elim (Option-cases (rollback_operations tables w.trx.trx_id w.trx.operations w.store)) [
        | inl e ↦ rw (rollback, e) tt
        | inr (s, e) ↦ rw (rollback, e) (if_counter w w.trx.recovering _ _ refl refl)
      ]

  pub redo_keeps :
      (table_exists : ℕ → Bool) (w : World) (l : LogRecord) → Keeps w (redo tables table_exists w l)
  unfolding redo
  redo_keeps table_exists w (mtr_begin id) = tt
  redo_keeps table_exists w (inserted id i r) =
      if_Keeps w (not (table_exists i.table_id)) _ _ refl
        (if_Keeps w (not (ob_succ (recover_insert_row tables w.store i r).0)) _ _ refl refl)
  redo_keeps table_exists w (deleted id i) =
      if_Keeps w (not (table_exists i.table_id)) _ _ refl
        (elim (Option-cases
          (update_held (λ r. eqb_ℤ r.end_xid max_trx_id) (set_end (neg w.trx.trx_id)) w.store i)) [
            | inl e ↦ rw e tt
            | inr (s, e) ↦ rw e refl
          ])
  redo_keeps table_exists w (mtr_commit id c) = elim (Option-cases (commit_with_trx_id w c)) [
    | inl e ↦ rw (e) tt
    | inr (s, e) ↦ rw (e) (rw e at (commit_keeps w c))
  ]
  redo_keeps table_exists w (mtr_rollback id) = elim (Option-cases (rollback tables w)) [
    | inl e ↦ rw (e) tt
    | inr (s, e) ↦ rw (e) (rw e at (rollback_keeps w))
  ]
