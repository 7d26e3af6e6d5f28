-- ===== src/Net/RingBuffer/Loops.antt =====
-- `read` and `write` of src/observer/net/ring_buffer.cpp as a whole, with the fuel that they take.
use landbase.Base.{
  ℕ, zero, suc, ◌+◌, ◌-◌, ◌≤◌, ◌<◌, ◌≡◌, refl, ap, sym, ◌∙◌, inl, inr, Bool-cases, ◌&&◌, some, List,
  [], ◌++◌, arith, min, ltb, take, drop, length, length-drop, length-append, take-split, append-nil,
  append_assoc,
}
use landbase.Base.Int.{pos}
use landbase.Base.Memory.{read_bytes}
use landbase.Rc.{success, ob_succ}
use landbase.Net.RingBuffer.{
  RingBuffer, remain, read_pos, buffer, read_chunk, read_loop, read, write_loop, write,
}
use landbase.Net.RingBuffer.Ring.{ring_bytes, ring_bytes-segment, length-ring_bytes}
use landbase.Net.RingBuffer.Queue.{IsValid, contents, buffer_lem, forward_lem, write_chunk_lem}

-- Two parts of the data, appended one after the other.
pub appended :
    (xs ys zs data_ : List ℕ) (m n total : ℕ)
    → ys ≡ xs ++ take m data_
    → zs ≡ ys ++ take n (drop m data_)
    → total ≡ m + n
    → zs ≡ xs ++ take total data_
appended xs ys zs data_ m n total e e' sum =
    e'
    ∙ ap (λ l. l ++ take n (drop m data_)) e
    ∙ append_assoc xs (take m data_) (take n (drop m data_))
    ∙ ap (xs ++◌) (sym (take-split m n total data_ sum))

write_loop_lem :
    (fuel : ℕ) (b : RingBuffer) (data_ : List ℕ) (left written : ℕ)
    → IsValid b
    → left ≤ length data_
    → left < fuel
    → (b' : RingBuffer) × (write_loop fuel b data_ left written
        ≡ some (success, written + min left (remain b), b'))
      × IsValid b'
      × (b'.capacity ≡ b.capacity)
      × (contents b' ≡ contents b ++ take (min left (remain b)) data_)
unfolding write_loop remain
write_loop_lem zero b data_ left written v long enough = absurd (omega arith)
write_loop_lem (suc fuel) b data_ left written v long enough =
    elim (Bool-cases (ltb 0 left && ltb 0 (remain b))) [
      | inl more ↦
          let (n, b1, chunk, v1, n_pos, n_left, size1, cap1, c1) =
            write_chunk_lem b data_ left v (ground arith) (ground arith) long in
          let (b', done, v', cap', c') =
            write_loop_lem fuel b1 (drop n data_) (left - n) (written + n) v1
              (omega (arith, length-drop n data_)) (omega arith) in
          let z = v1.size_within in
          (
            b',
            rw (more, chunk) (done ∙ ap (λ k. some (success, k, b')) (ground arith)),
            v',
            cap' ∙ cap1,
            appended (contents b) (contents b1) (contents b') data_ n (min (left - n) (remain b1))
                (min left (remain b)) c1 c' (ground arith),
          )
      | inr stop ↦ (
        b,
        rw stop (ap (λ k. some (success, k, b)) (ground arith)),
        v,
        refl,
        nothing (min left (remain b)) (ground arith),
      )
    ]
  where
    nothing : (k : ℕ) → k ≡ 0 → contents b ≡ contents b ++ take k data_
    nothing zero e = sym (append-nil (contents b))
    nothing (suc k) e = absurd (omega arith)

-- `write` takes as many bytes of the data as there is room for, and appends just them to what the
-- buffer holds; its loop ends.
pub write_lem :
    (b : RingBuffer) (data_ : List ℕ) (size : ℕ)
    → IsValid b
    → size ≤ length data_
    → (b' : RingBuffer) × (write b data_ (pos size) ≡ some (success, min size (remain b), b'))
      × IsValid b'
      × (b'.capacity ≡ b.capacity)
      × (contents b' ≡ contents b ++ take (min size (remain b)) data_)
unfolding write
write_lem b data_ size v long =
    let (b', done, v', cap', c') = write_loop_lem (suc size) b data_ size 0 v long (omega arith) in
    (b', done ∙ ap (λ k. some (success, k, b')) (omega arith), v', cap', c')

-- A round of `read`, when bytes are wanted and there are some, takes at least one off the front.
read_chunk_lem :
    (b : RingBuffer) (wanted : ℕ)
    → IsValid b
    → 0 < wanted
    → 0 < b.data_size
    → (bytes : List ℕ) × (b' : RingBuffer) × (read_chunk b wanted ≡ (success, bytes, b'))
      × IsValid b'
      × (0 < length bytes)
      × (length bytes ≡ min wanted (buffer b).2)
      × (b'.data_size + length bytes ≡ b.data_size)
      × (b'.capacity ≡ b.capacity)
      × (contents b ≡ bytes ++ contents b')
unfolding read_chunk
read_chunk_lem b wanted v some_wanted some_held =
    let (at, n, found, n_le, there) = buffer_lem b v in
    let (n_pos, at_eq, fits) = there some_held in
    let (b', moved, v', size', cap', c') =
      forward_lem b (min wanted n) v (omega arith) (omega arith) in
    let same : ring_bytes b.memory b.capacity (read_pos b) (min wanted n)
        ≡ read_bytes b.memory at (min wanted n) =
      ring_bytes-segment b.memory b.capacity (read_pos b) (min wanted n) (omega (arith, at_eq))
      ∙ ap (λ k. read_bytes b.memory k (min wanted n)) (sym at_eq) in
    let count : length (read_bytes b.memory at (min wanted n)) ≡ min wanted n =
      ap length (sym same) ∙ length-ring_bytes b.memory b.capacity (read_pos b) (min wanted n) in
    (
      read_bytes b.memory at (min wanted n),
      b',
      rw (found, moved) refl,
      v',
      omega (arith, count),
      rw found count,
      omega (arith, count, size'),
      cap',
      c' ∙ ap (λ xs. xs ++ contents b') same,
    )

read_loop_lem :
    (fuel : ℕ) (b : RingBuffer) (wanted : ℕ) (acc : List ℕ)
    → IsValid b
    → wanted < fuel
    → (bytes : List ℕ) × (b' : RingBuffer) × (read_loop fuel b wanted success acc
        ≡ some (success, acc ++ bytes, b'))
      × IsValid b'
      × (length bytes ≡ min wanted b.data_size)
      × (b'.capacity ≡ b.capacity)
      × (contents b ≡ bytes ++ contents b')
unfolding read_loop ob_succ
read_loop_lem zero b wanted acc v enough = absurd (omega arith)
read_loop_lem (suc fuel) b wanted acc v enough =
    elim (Bool-cases (ltb 0 wanted && ltb 0 b.data_size)) [
      | inl more ↦
          let (first, b1, chunk, v1, n_pos, n_eq, size1, cap1, c1) =
            read_chunk_lem b wanted v (ground arith) (ground arith) in
          let (others, b', done, v', n', cap', c') =
            read_loop_lem fuel b1 (wanted - min wanted (buffer b).2) (acc ++ first) v1
              (omega (arith, n_eq)) in
          (
            first ++ others,
            b',
            rw (more, chunk)
                (done ∙ ap (λ xs. some (success, xs, b')) (append_assoc acc first others)),
            v',
            length-append first others ∙ omega (arith, n_eq, size1, n'),
            cap' ∙ cap1,
            c1 ∙ ap (first ++◌) c' ∙ sym (append_assoc first others (contents b')),
          )
      | inr stop ↦ (
        [],
        b,
        rw stop (ap (λ xs. some (success, xs, b)) (sym (append-nil acc))),
        v,
        ground arith,
        refl,
        refl,
      )
    ]

-- `read` takes as many bytes as are wanted and there, off the front of what the buffer holds; its
-- loop ends.
pub read_lem :
    (b : RingBuffer) (size : ℕ)
    → IsValid b
    → (bytes : List ℕ) × (b' : RingBuffer) × (read b (pos size) ≡ some (success, bytes, b'))
      × IsValid b'
      × (length bytes ≡ min size b.data_size)
      × (b'.capacity ≡ b.capacity)
      × (contents b ≡ bytes ++ contents b')
unfolding read
read_lem b size v = read_loop_lem (suc size) b size [] v (omega arith)
