-- ===== src/Mvcc/Visibility.antt =====
-- Who sees a row, and who may change it: `visit_record` of
-- src/observer/storage/trx/mvcc_trx.cpp.
use landbase.Base.{ℕ, ◌-◌, ◌^◌, ◌≤◌, ◌<◌, ◌≡◌, ◌≢◌, true, false, List, arith}
use landbase.Base.Int.{pos, neg}
use landbase.Rc.{success, record_invisible}
use landbase.Mvcc.Rows.{Row}
use landbase.Mvcc.Trx.{check_row, max_trx_id}

-- The states of a version of a row, by the transactions that made it and unmade it.
pub data Version : Type 0 where
  -- made by a commit, and valid up to a second one
  committed : ℕ → ℕ → Version
  -- inserted by a transaction that has not ended
  inserting : ℕ → Version
  -- made by a commit, and being deleted by a transaction that has not ended
  deleting : ℕ → ℕ → Version

abbrev pub IsVersion : Version → Type 0
IsVersion (committed b e) = (0 < b) × (0 < e)
IsVersion (inserting t) = 0 < t
IsVersion (deleting b t) = (0 < b) × (0 < t)

-- The transaction fields that stand for a version.
abbrev pub row_of : Version → List ℕ → Row
row_of (committed b e) f = record { begin_xid = pos b; end_xid = pos e; fields = f }
row_of (inserting t) f = record { begin_xid = neg (pos t); end_xid = max_trx_id; fields = f }
row_of (deleting b t) f = record { begin_xid = pos b; end_xid = neg (pos t); fields = f }

-- The transaction that holds a version, if one does.
abbrev pub HeldBy : Version → ℕ → Type 0
HeldBy (committed b e) t = ⊥
HeldBy (inserting u) t = t ≡ u
HeldBy (deleting b u) t = t ≡ u

-- A version that a running transaction holds can be changed by no other transaction.
pub writer_exclusive :
    (v : Version) (f : List ℕ) (t id : ℕ)
    → IsVersion v
    → HeldBy v t
    → check_row (pos id) (row_of v f) false ≡ success
    → id ≡ t
unfolding check_row
writer_exclusive (committed b e) f t id ok h s = absurd h
writer_exclusive (inserting u) f t id ok h s = ground arith
writer_exclusive (deleting b u) f t id ok h s = ground arith

-- What the commit of the holder makes of a version.
abbrev pub commit_version : ℕ → Version → Version
commit_version c (committed b e) = committed b e
commit_version c (inserting t) = committed c (2 ^ 31 - 1)
commit_version c (deleting b t) = committed b c

abbrev pub MadeBefore : Version → ℕ → Type 0
MadeBefore (committed b e) id = Unit
MadeBefore (inserting t) id = Unit
MadeBefore (deleting b t) id = b ≤ id

-- Snapshots are stable: a reader whose number is below the commit number, and who is not the holder,
-- sees a held version after the commit exactly if it saw it before, provided that a version that is
-- being deleted was made before the reader started.
pub snapshot_stable :
    (v : Version) (f : List ℕ) (id t c : ℕ)
    → IsVersion v
    → HeldBy v t
    → id ≢ t
    → id < c
    → MadeBefore v id
    → check_row (pos id) (row_of (commit_version c v) f) true ≡ check_row (pos id) (row_of v f) true
unfolding check_row
snapshot_stable (committed b e) f id t c ok h ne lt m = absurd h
snapshot_stable (inserting u) f id t c ok h ne lt m = ground arith
snapshot_stable (deleting b u) f id t c ok h ne lt m = ground arith

-- After the commit of its holder, a reader with a number above the commit number sees a version that
-- was being inserted, and does not see one that was being deleted.
pub commit_takes_effect :
    (v : Version) (f : List ℕ) (id t c : ℕ)
    → IsVersion v
    → HeldBy v t
    → c < id
    → id < 2 ^ 31
    → 0 < c
    → check_row (pos id) (row_of (commit_version c v) f) true
      ≡ elim v [ inserting u ↦ success | _ ↦ record_invisible ]
unfolding check_row
commit_takes_effect (committed b e) f id t c ok h lt small pos_c = absurd h
commit_takes_effect (inserting u) f id t c ok h lt small pos_c = ground arith
commit_takes_effect (deleting b u) f id t c ok h lt small pos_c = ground arith

-- A version that was committed after a reader started, and is invisible to it, becomes visible to
-- that reader while another transaction is deleting it: the branch for a deletion does not look at
-- `begin_xid`.
pub deletion_exposes_later_row :
    (f : List ℕ) (b id t : ℕ)
    → 0 < t
    → t ≢ id
    → id < b
    → (check_row (pos id) (row_of (committed b (2 ^ 31 - 1)) f) true ≡ record_invisible)
      × (check_row (pos id) (row_of (deleting b t) f) true ≡ success)
unfolding check_row
deletion_exposes_later_row f b id t pos_t ne lt = (ground arith, ground arith)
