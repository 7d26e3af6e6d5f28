-- ===== src/Net/Writer/Write.antt =====
-- `writen` and `flush` of src/observer/net/buffered_writer.cpp: the bytes reach the socket in order.
use landbase.Base.{
  ℕ, zero, suc, ◌+◌, ◌≤◌, ◌<◌, ◌≡◌, refl, ap, sym, ◌∙◌, inl, inr, Bool-cases, true, false, some,
  List, [], ◌∷◌, ◌++◌, arith, ltb, ◌==◌, min, drop, take, length, length-drop, append_assoc,
  append-nil,
}
use landbase.Base.Int.{pos, ltb_ℤ}
use landbase.Rc.{Rc, success, ob_succ}
use landbase.Net.RingBuffer.{RingBuffer, remain}
use landbase.Net.RingBuffer.Ring.{ring_bytes}
use landbase.Net.RingBuffer.Queue.{IsValid, contents}
use landbase.Net.RingBuffer.Loops.{write_lem, appended}
use landbase.Net.Writer.{
  Socket, BufferedWriter, flush_all, flush, write_ring, write_some, writen_loop, writen,
}
use landbase.Net.Writer.Flush.{Ends, all_bytes, flush_internal_lem}

module _ (socket : Socket) (ends : Ends socket.answer socket.patience) where
  flush_all_lem :
      (fuel : ℕ) (w : BufferedWriter)
      → IsValid w.ring
      → ltb_ℤ w.fd (pos 0) ≡ false
      → w.ring.data_size < fuel
      → (rc : Rc) × (w' : BufferedWriter) × (flush_all socket fuel w ≡ some (rc, w'))
        × IsValid w'.ring
        × (all_bytes w' ≡ all_bytes w)
        × (ob_succ rc ≡ true → w'.ring.data_size ≡ 0)
  unfolding flush_all
  flush_all_lem zero w v is_open enough = absurd (omega arith)
  flush_all_lem (suc fuel) w v is_open enough = elim (Bool-cases (ltb 0 w.ring.data_size)) [
    | inr empty ↦ (success, w, rw (flush_all, empty) refl, v, refl, λ e. ground arith)
    | inl more ↦
        let (rc, w1, flushed, effect) =
          flush_internal_lem socket ends w w.ring.data_size v is_open in
        let (v1, bytes1, fd1, cap1, le1, left1) = effect in
        elim (Bool-cases (ob_succ rc)) [
          | inr bad ↦
              (rc, w1, rw (flush_all, more, flushed, bad) refl, v1, bytes1, λ e. cc (e, bad))
          | inl good ↦
              let smaller : w1.ring.data_size < w.ring.data_size = ground (arith, left1 good) in
              let (rc', w', done, v', bytes', empty') =
                flush_all_lem fuel w1 v1 (ap (λ f. ltb_ℤ f (pos 0)) fd1 ∙ is_open) (omega arith) in
              (rc', w', rw (flush_all, more, flushed, good) done, v', bytes' ∙ bytes1, empty')
        ]
  ]

  no_bytes : (r : RingBuffer) → r.data_size ≡ 0 → contents r ≡ []
  unfolding ring_bytes
  no_bytes r e = rw e refl

  -- `flush` of an open writer ends, for every socket whose calls come to an end. If it succeeds, the
  -- socket has taken all that the writer held, in order; if not, what the socket has taken and what
  -- the writer still holds are together what they were.
  pub flush_lem :
      (w : BufferedWriter)
      → IsValid w.ring
      → ltb_ℤ w.fd (pos 0) ≡ false
      → (rc : Rc) × (w' : BufferedWriter) × (flush socket w ≡ some (rc, w'))
        × IsValid w'.ring
        × (w'.sent ++ contents w'.ring ≡ w.sent ++ contents w.ring)
        × (ob_succ rc ≡ true → w'.sent ≡ w.sent ++ contents w.ring)
  unfolding flush
  flush_lem w v is_open =
      let (rc, w', done, v', bytes', empty') =
        flush_all_lem (suc w.ring.data_size) w v is_open (omega arith) in
      (
        rc,
        w',
        rw (flush, is_open) done,
        v',
        bytes',
        λ good.
            sym (append-nil w'.sent)
            ∙ ap (w'.sent ++◌) (sym (no_bytes w'.ring (empty' good)))
            ∙ bytes',
      )

  -- What writing does: the bytes that the ring took are the first ones of the data.
  abbrev Wrote : BufferedWriter → List ℕ → Rc → ℕ → BufferedWriter → Type 0
  Wrote w data_ rc n w' =
      IsValid w'.ring
      × (w'.fd ≡ w.fd)
      × (n ≤ length data_)
      × (ob_succ rc ≡ true → (0 < n) × (all_bytes w' ≡ all_bytes w ++ take n data_))
      × (ob_succ rc ≡ false → all_bytes w' ≡ all_bytes w)

  write_ring_lem :
      (w : BufferedWriter) (data_ : List ℕ)
      → IsValid w.ring
      → 0 < length data_
      → 0 < remain w.ring
      → (n : ℕ) × (w' : BufferedWriter) × (write_ring socket w data_ (length data_)
          ≡ some (success, n, w'))
        × Wrote w data_ success n w'
  unfolding write_ring ob_succ
  write_ring_lem w data_ v some_data room =
      let (ring', done, v', cap', c') = write_lem w.ring data_ (length data_) v (omega arith) in
      (
        min (length data_) (remain w.ring),
        record w { ring = ring' },
        rw (write_ring, done) refl,
        (
          v',
          refl,
          omega arith,
          λ e. (
            omega arith,
            ap (w.sent ++◌) c'
                ∙ sym (
                    append_assoc w.sent (contents w.ring)
                      (take (min (length data_) (remain w.ring)) data_)),
          ),
          λ e. cc e,
        ),
      )

  write_some_lem :
      (w : BufferedWriter) (data_ : List ℕ)
      → IsValid w.ring
      → ltb_ℤ w.fd (pos 0) ≡ false
      → 0 < length data_
      → (rc : Rc) × (n : ℕ) × (w' : BufferedWriter) × (write_some socket w data_ (length data_)
          ≡ some (rc, n, w'))
        × Wrote w data_ rc n w'
  unfolding write_some remain
  write_some_lem w data_ v is_open some_data = elim (Bool-cases (remain w.ring == 0)) [
    | inr room ↦
        let (n, w', done, effect) = write_ring_lem w data_ v some_data (ground arith) in
        (success, n, w', rw (write_some, is_open, room) done, effect)
    | inl full ↦
        let (rc, w1, flushed, effect1) =
          flush_internal_lem socket ends w (length data_) v is_open in
        let (v1, bytes1, fd1, cap1, le1, left1) = effect1 in
        elim (Bool-cases (ob_succ rc)) [
          | inr bad ↦ (
            rc,
            0,
            w1,
            rw (write_some, is_open, full, flushed, bad) refl,
            (v1, fd1, omega arith, λ e. cc (e, bad), λ e. bytes1),
          )
          | inl good ↦
              let room : 0 < remain w1.ring = ground (arith, left1 good, v.write_within) in
              let (n, w', done, effect) = write_ring_lem w1 data_ v1 some_data room in
              let (v', fd', n_le, took, lost) = effect in
              (
                success,
                n,
                w',
                rw (write_some, is_open, full, flushed, good) done,
                (
                  v',
                  fd' ∙ fd1,
                  n_le,
                  λ e. ((took e).0, (took e).1 ∙ ap (λ xs. xs ++ take n data_) bytes1),
                  λ e. lost e ∙ bytes1,
                ),
              )
        ]
  ]

  writen_loop_lem :
      (fuel : ℕ) (w : BufferedWriter) (data_ : List ℕ)
      → IsValid w.ring
      → ltb_ℤ w.fd (pos 0) ≡ false
      → length data_ < fuel
      → (rc : Rc) × (w' : BufferedWriter) × (k : ℕ) × (writen_loop socket fuel w data_
          ≡ some (rc, w'))
        × IsValid w'.ring
        × (k ≤ length data_)
        × (all_bytes w' ≡ all_bytes w ++ take k data_)
        × (ob_succ rc ≡ true → k ≡ length data_)
  unfolding writen_loop
  writen_loop_lem zero w data_ v is_open enough = absurd (omega arith)
  writen_loop_lem (suc fuel) w data_ v is_open enough = elim (Bool-cases (ltb 0 (length data_))) [
    | inr none_left ↦ (
      success,
      w,
      0,
      rw (writen_loop, none_left) refl,
      v,
      omega arith,
      sym (append-nil (all_bytes w)),
      λ e. ground arith,
    )
    | inl more ↦
        let (rc, n, w1, wrote_some, effect) = write_some_lem w data_ v is_open (ground arith) in
        let (v1, fd1, n_le, took, lost) = effect in
        elim (Bool-cases (ob_succ rc)) [
          | inr bad ↦ (
            rc,
            w1,
            0,
            rw (writen_loop, more, wrote_some, bad) refl,
            v1,
            omega arith,
            lost bad ∙ sym (append-nil (all_bytes w)),
            λ e. cc (e, bad),
          )
          | inl good ↦
              let (n_pos, bytes1) = took good in
              let left = length-drop n data_ in
              let (rc', w', k, done, v', k_le, bytes', whole) =
                writen_loop_lem fuel w1 (drop n data_) v1 (ap (λ f. ltb_ℤ f (pos 0)) fd1 ∙ is_open)
                  (omega (arith, left)) in
              (
                rc',
                w',
                n + k,
                rw (writen_loop, more, wrote_some, good) done,
                v',
                omega (arith, left),
                appended (all_bytes w) (all_bytes w1) (all_bytes w') data_ n k (n + k) bytes1 bytes'
                    refl,
                λ e. omega (arith, left, whole e),
              )
        ]
  ]

  take_whole : (k : ℕ) (data_ : List ℕ) → k ≡ length data_ → take k data_ ≡ data_
  take_whole zero [] e = refl
  take_whole zero (x ∷ xs) e = absurd (omega arith)
  take_whole (suc k) [] e = absurd (omega arith)
  take_whole (suc k) (x ∷ xs) e = ap (◌∷◌ x) (take_whole k xs (omega arith))

  -- `writen` on an open writer ends, for every socket whose calls come to an end. If it succeeds, the
  -- bytes that the socket has taken and those that the writer holds are those from before followed
  -- by all the data; if not, they are those from before followed by a first part of the data.
  pub writen_lem :
      (w : BufferedWriter) (data_ : List ℕ)
      → IsValid w.ring
      → ltb_ℤ w.fd (pos 0) ≡ false
      → (rc : Rc) × (w' : BufferedWriter) × (k : ℕ) × (writen socket w data_ ≡ some (rc, w'))
        × IsValid w'.ring
        × (w'.sent ++ contents w'.ring ≡ (w.sent ++ contents w.ring) ++ take k data_)
        × (ob_succ rc ≡ true → w'.sent ++ contents w'.ring ≡ (w.sent ++ contents w.ring) ++ data_)
  unfolding writen
  writen_lem w data_ v is_open =
      let (rc, w', k, done, v', k_le, bytes', whole) =
        writen_loop_lem (suc (length data_)) w data_ v is_open (omega arith) in
      (
        rc,
        w',
        k,
        rw (writen, is_open) done,
        v',
        bytes',
        λ good. bytes' ∙ ap ((w.sent ++ contents w.ring) ++◌) (take_whole k data_ (whole good)),
      )
