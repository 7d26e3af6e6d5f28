-- ===== src/Net/Writer/Flush.antt =====
-- The buffered writer of src/observer/net/buffered_writer.cpp sends what it holds, in order.
use landbase.Base.{
  ℕ, zero, suc, ◌+◌, ◌-◌, ◌≤◌, ◌<◌, ◌≡◌, refl, ap, sym, subst, ◌∙◌, ◌⊎◌, inl, inr, Bool-cases, true,
  false, ◌&&◌, some, List, ◌++◌, arith, ltb, append_assoc,
}
use landbase.Base.Int.{pos, ltb_ℤ}
use landbase.Base.Memory.{read_bytes}
use landbase.Rc.{Rc, success, ioerr_write, ob_succ}
use landbase.Net.RingBuffer.{read_pos}
use landbase.Net.RingBuffer.Ring.{ring_bytes, ring_bytes-segment}
use landbase.Net.RingBuffer.Queue.{IsValid, contents, buffer_lem, forward_lem}
use landbase.Net.Writer.{
  Answer, wrote, again, failed, Socket, BufferedWriter, write_fd, flush_round, flush_loop,
  flush_internal,
}

-- An answer that ends the loop around `write(2)`.
abbrev pub IsFinal : Answer → Type 0
IsFinal (wrote n) = 0 < n
IsFinal again = ⊥
IsFinal failed = Unit

-- Among so many calls in a row there is one that takes a byte or fails.
abbrev pub Ends : (ℕ → ℕ → Answer) → ℕ → Type 0
Ends answer patience =
    (call count : ℕ) → 0 < count → (j : ℕ) × (j < patience) × IsFinal (answer (call + j) count)

-- All the bytes that have gone into a writer and not been cleared.
abbrev pub all_bytes : BufferedWriter → List ℕ
all_bytes w = w.sent ++ contents w.ring

-- A front moved from the ring to the socket.
moved_front :
    (sent held held' front front' : List ℕ)
    → held ≡ front ++ held'
    → front ≡ front'
    → (sent ++ front') ++ held' ≡ sent ++ held
moved_front sent held held' front front' e e' =
    append_assoc sent front' held' ∙ ap (sent ++◌) (sym (e ∙ ap (λ xs. xs ++ held') e'))

module _ (socket : Socket) where
  -- The loop around `write(2)` ends with at least one byte taken, or with the error of a failed call.
  abbrev Calls : ℕ → ℕ → ℕ → Type 0
  Calls fuel call count =
      (rc : Rc) × (n : ℕ) × (calls : ℕ) × (write_fd socket fuel call count ≡ some (rc, n, calls))
      × (n ≤ count)
      × ((rc ≡ success × (0 < n)) ⊎ (rc ≡ ioerr_write))

  -- After an answer that does not end the loop, it goes on.
  goes_on :
      (fuel call count i : ℕ) (a : Answer)
      → i < suc fuel
      → IsFinal (socket.answer (call + i) count)
      → socket.answer call count ≡ a
      → (IsFinal a → ⊥)
      → ((k : ℕ)
          → k < fuel
          → IsFinal (socket.answer (suc call + k) count)
          → Calls fuel (suc call) count)
      → Calls fuel (suc call) count
  goes_on fuel call count zero a lt final e other next =
      absurd
        (other (subst IsFinal e (subst (λ k. IsFinal (socket.answer k count)) (same call) final)))
    where
      same : (k : ℕ) → k + 0 ≡ k
      same k = omega arith
  goes_on fuel call count (suc i) a lt final e other next =
      next i (omega arith) (subst (λ k. IsFinal (socket.answer k count)) (shift call i) final)
    where
      shift : (k i : ℕ) → k + suc i ≡ suc k + i
      shift k i = omega arith

  one_call :
      (fuel call count : ℕ) (a : Answer)
      → socket.answer call count ≡ a
      → ((IsFinal a → ⊥) → Calls fuel (suc call) count)
      → Calls (suc fuel) call count
  unfolding write_fd
  one_call fuel call count (wrote zero) e next =
      let (rc, n, calls, eq, le, kind) = next (λ h. omega arith) in
      (rc, n, calls, rw (write_fd, e) eq, le, kind)
  one_call fuel call count (wrote (suc m)) e next = (
    success,
    suc m,
    suc call,
    rw (write_fd, e) refl,
    socket.within call count (suc m) e,
    inl (refl, omega arith),
  )
  one_call fuel call count again e next =
      let (rc, n, calls, eq, le, kind) = next (λ h. h) in
      (rc, n, calls, rw (write_fd, e) eq, le, kind)
  one_call fuel call count failed e next =
      (ioerr_write, 0, suc call, rw (write_fd, e) refl, omega arith, inr refl)

  write_fd_lem :
      (fuel call count j : ℕ)
      → j < fuel
      → IsFinal (socket.answer (call + j) count)
      → Calls fuel call count
  write_fd_lem zero call count j lt final = absurd (omega arith)
  write_fd_lem (suc fuel) call count j lt final =
      one_call fuel call count (socket.answer call count) refl (λ other.
        goes_on fuel call count j (socket.answer call count) lt final refl other
          (λ k k_lt k_final. write_fd_lem fuel (suc call) count k k_lt k_final))

  module _ (ends : Ends socket.answer socket.patience) where
    -- A round sends at least one byte off the front of the ring, or fails and changes nothing.
    flush_round_lem :
        (w : BufferedWriter)
        → IsValid w.ring
        → 0 < w.ring.data_size
        → (rc : Rc) × (n : ℕ) × (w' : BufferedWriter) × (flush_round socket w ≡ some (rc, n, w'))
          × IsValid w'.ring
          × (all_bytes w' ≡ all_bytes w)
          × (w'.fd ≡ w.fd)
          × (w'.ring.capacity ≡ w.ring.capacity)
          × (w'.ring.data_size ≤ w.ring.data_size)
          × ((ob_succ rc ≡ true × (0 < n) × (w'.ring.data_size + n ≡ w.ring.data_size))
              ⊎ (ob_succ rc ≡ false))
    unfolding flush_round ob_succ
    flush_round_lem w v held =
        let (at, size, found, size_le, there) = buffer_lem w.ring v in
        let (size_pos, at_eq, fits) = there held in
        let (j, j_lt, final) = ends w.calls size size_pos in
        let (rc, n, calls, called, n_le, kind) =
          write_fd_lem socket.patience w.calls size j j_lt final in
        elim kind [
          | inl (e, n_pos) ↦
              let (ring', moved, v', size', cap', c') =
                forward_lem w.ring n v n_pos (omega arith) in
              (
                success,
                n,
                record w {
                  ring = ring';
                  sent = w.sent ++ read_bytes w.ring.memory at n;
                  calls = calls;
                },
                rw (flush_round, found, called) (rw (e, moved, found) refl),
                v',
                moved_front w.sent (contents w.ring) (contents ring')
                    (ring_bytes w.ring.memory w.ring.capacity (read_pos w.ring) n)
                    (read_bytes w.ring.memory at n) c'
                    (ring_bytes-segment w.ring.memory w.ring.capacity (read_pos w.ring) n
                        (omega (arith, at_eq))
                      ∙ ap (λ k. read_bytes w.ring.memory k n) (sym at_eq)),
                refl,
                cap',
                omega (arith, size'),
                inl (refl, n_pos, size'),
              )
          | inr e ↦ (
            ioerr_write,
            0,
            record w { calls = calls },
            rw (flush_round, found, called) (rw e refl),
            v,
            refl,
            refl,
            refl,
            omega arith,
            inr refl,
          )
        ]

    -- What a flush by `left` bytes does: all bytes stay in order, and if it succeeds the ring is
    -- empty or has lost that many bytes at least.
    abbrev pub Flushed : BufferedWriter → ℕ → Rc → BufferedWriter → Type 0
    Flushed w left rc w' =
        IsValid w'.ring
        × (all_bytes w' ≡ all_bytes w)
        × (w'.fd ≡ w.fd)
        × (w'.ring.capacity ≡ w.ring.capacity)
        × (w'.ring.data_size ≤ w.ring.data_size)
        × (ob_succ rc ≡ true
            → (w'.ring.data_size ≡ 0) ⊎ (w'.ring.data_size + left ≤ w.ring.data_size))

    flush_loop_lem :
        (fuel : ℕ) (w : BufferedWriter) (left : ℕ)
        → IsValid w.ring
        → w.ring.data_size < fuel
        → (rc : Rc) × (w' : BufferedWriter) × (flush_loop socket fuel w left ≡ some (rc, w'))
          × Flushed w left rc w'
    unfolding flush_loop
    flush_loop_lem zero w left v enough = absurd (omega arith)
    flush_loop_lem (suc fuel) w left v enough =
        elim (Bool-cases (ltb 0 w.ring.data_size && ltb 0 left)) [
          | inr stop ↦ (
            success,
            w,
            rw (flush_loop, stop) refl,
            (v, refl, refl, refl, omega arith, λ e. ground arith),
          )
          | inl more ↦
              let (rc, n, w1, round, v1, bytes1, fd1, cap1, le1, kind) =
                flush_round_lem w v (ground arith) in
              elim kind [
                | inr bad ↦ (
                  rc,
                  w1,
                  rw (flush_loop, more, round, bad) refl,
                  (v1, bytes1, fd1, cap1, le1, λ e. cc (e, bad)),
                )
                | inl (good, n_pos, size1) ↦
                    let (rc', w', done, flushed) =
                      flush_loop_lem fuel w1 (left - n) v1 (omega (arith, size1)) in
                    let (v', bytes', fd', cap', le', left') = flushed in
                    (
                      rc',
                      w',
                      rw (flush_loop, more, round, good) done,
                      (
                        v',
                        bytes' ∙ bytes1,
                        fd' ∙ fd1,
                        cap' ∙ cap1,
                        omega arith,
                        λ e. elim (left' e) [
                          | inl none_left ↦ inl none_left
                          | inr fewer ↦ inr (omega (arith, size1, fewer))
                        ],
                      ),
                    )
              ]
        ]

    pub flush_internal_lem :
        (w : BufferedWriter) (size : ℕ)
        → IsValid w.ring
        → ltb_ℤ w.fd (pos 0) ≡ false
        → (rc : Rc) × (w' : BufferedWriter) × (flush_internal socket w size ≡ some (rc, w'))
          × Flushed w size rc w'
    unfolding flush_internal
    flush_internal_lem w size v is_open =
        let (rc, w', done, flushed) =
          flush_loop_lem (suc w.ring.data_size) w size v (omega arith) in
        (rc, w', rw (flush_internal, is_open) done, flushed)
