-- ===== src/Net/RingBuffer/Queue.antt =====
-- A ring buffer of src/observer/net/ring_buffer.cpp as a bounded queue of bytes: what it holds, and
-- what one step of each operation does to it.
use landbase.Base.{
  ℕ, zero, suc, ◌+◌, ◌-◌, ◌%◌, ◌≤◌, ◌<◌, ◌≡◌, refl, ap, ◌∙◌, ◌⊎◌, inl, inr, Bool-cases, List, ◌++◌,
  arith, min, ltb, leb, ◌==◌, if◌then◌else◌, take, length,
}
use landbase.Base.Int.{pos}
use landbase.Base.Memory.{Memory, write_bytes, read-write_bytes_self}
use landbase.Rc.{success}
use landbase.Net.RingBuffer.{RingBuffer, remain, read_pos, buffer, forward, write_chunk}
use landbase.Net.RingBuffer.Ring.{
  wrap, mod-wrap, ring_bytes, ring_bytes-segment, ring_bytes-append, ring_bytes-ext,
}

pub record IsValid (b : RingBuffer) : Type 0 where
  pub write_within : b.write_pos < b.capacity
  pub size_within : b.data_size ≤ b.capacity

-- The bytes that a buffer holds, the oldest first.
abbrev pub contents : RingBuffer → List ℕ
contents b = ring_bytes b.memory b.capacity (read_pos b) b.data_size

-- Where the oldest byte is, without a remainder.
abbrev pub start : ℕ → ℕ → ℕ → ℕ
start cap size w = if leb size w then w - size else w + cap - size

pub read_pos-start :
    (b : RingBuffer) → IsValid b → read_pos b ≡ start b.capacity b.data_size b.write_pos
unfolding read_pos
read_pos-start b v =
    mod-wrap (b.write_pos + b.capacity - b.data_size) b.capacity (small v.write_within)
    ∙ at v.write_within v.size_within
  where
    small :
        b.write_pos < b.capacity → b.write_pos + b.capacity - b.data_size < b.capacity + b.capacity
    small h = omega arith

    at :
        b.write_pos < b.capacity
        → b.data_size ≤ b.capacity
        → wrap b.capacity (b.write_pos + b.capacity - b.data_size)
          ≡ start b.capacity b.data_size b.write_pos
    at h h' = ground arith

-- `buffer` hands out a first part of what the buffer holds, and not none of it.
pub buffer_lem :
    (b : RingBuffer)
    → IsValid b
    → (at : ℕ) × (n : ℕ) × (buffer b ≡ (success, at, n))
      × (n ≤ b.data_size)
      × (0 < b.data_size → (0 < n) × (at ≡ read_pos b) × (at + n ≤ b.capacity))
unfolding buffer
buffer_lem b v =
    let eq = read_pos-start b v in
    let w = v.write_within in
    let z = v.size_within in
    elim (Bool-cases (b.data_size == 0)) [
      | inl e ↦ (0, 0, rw e refl, omega arith, λ h. absurd (ground arith))
      | inr e ↦ elim (Bool-cases (ltb (read_pos b) b.write_pos)) [
        | inl lt ↦ (
          read_pos b,
          b.write_pos - read_pos b,
          rw (e, lt) refl,
          ground arith,
          λ h. (ground arith, refl, ground arith),
        )
        | inr ge ↦ (
          read_pos b,
          b.capacity - read_pos b,
          rw (e, ge) refl,
          ground arith,
          λ h. (ground arith, refl, ground arith),
        )
      ]
    ]

-- `forward` by a size that is not positive, or more than the buffer holds, changes nothing; else it
-- drops that many bytes from the front.
pub forward_lem :
    (b : RingBuffer) (n : ℕ)
    → IsValid b
    → 0 < n
    → n ≤ b.data_size
    → (b' : RingBuffer) × (forward b (pos n) ≡ (success, b'))
      × IsValid b'
      × (b'.data_size + n ≡ b.data_size)
      × (b'.capacity ≡ b.capacity)
      × (contents b ≡ ring_bytes b.memory b.capacity (read_pos b) n ++ contents b')
unfolding forward
forward_lem b zero v lt le = absurd (omega arith)
forward_lem b (suc n) v lt le =
    let b' : RingBuffer = record b { data_size = b.data_size - suc n } in
    let w = v.write_within in
    let z = v.size_within in
    let v' : IsValid b' = record { write_within = w; size_within = omega arith } in
    let from = read_pos-start b v in
    let from' = read_pos-start b' v' in
    let moved : wrap b.capacity (read_pos b + suc n) ≡ read_pos b' = ground arith in
    (
      b',
      ground arith,
      v',
      omega arith,
      refl,
      ring_bytes-append b.memory b.capacity (read_pos b) (suc n) (b.data_size - suc n) b.data_size
            (ground arith) (omega arith) (omega arith)
          ∙ ap
              (λ j.
                ring_bytes b.memory b.capacity (read_pos b) (suc n)
                ++ ring_bytes b.memory b.capacity j (b.data_size - suc n))
              moved,
    )

-- Bytes written right after a stretch of the ring.
chunk_written :
    (mem : Memory) (cap r size w n : ℕ) (data_ : List ℕ)
    → r < cap
    → w + n ≤ cap
    → size + n ≤ cap
    → wrap cap (r + size) ≡ w
    → n ≤ length data_
    → ring_bytes (write_bytes mem w n data_) cap r size
        ++ ring_bytes (write_bytes mem w n data_) cap (wrap cap (r + size)) n
      ≡ ring_bytes mem cap r size ++ take n data_
unfolding write_bytes
chunk_written mem cap r size w n data_ r_lt fits room at_end long =
    ap (λ xs. xs ++ ring_bytes (write_bytes mem w n data_) cap (wrap cap (r + size)) n)
      (ring_bytes-ext (write_bytes mem w n data_) mem cap r size r_lt (omega arith)
        (λ j inside. kept j inside))
    ∙ ap (ring_bytes mem cap r size ++◌) (
        ap (λ j. ring_bytes (write_bytes mem w n data_) cap j n) at_end
        ∙ ring_bytes-segment (write_bytes mem w n data_) cap w n fits
        ∙ read-write_bytes_self mem w n data_ long)
  where
    kept :
        (j : ℕ)
        → ((r ≤ j) × (j < r + size)) ⊎ (j + cap < r + size)
        → write_bytes mem w n data_ j ≡ mem j
    kept j inside = ground arith

-- A round of `write`, when data are left and the buffer has room, appends at least one byte of the
-- data, and no more than fit.
pub write_chunk_lem :
    (b : RingBuffer) (data_ : List ℕ) (left : ℕ)
    → IsValid b
    → 0 < left
    → 0 < remain b
    → left ≤ length data_
    → (n : ℕ) × (b' : RingBuffer) × (write_chunk b data_ left ≡ (n, b'))
      × IsValid b'
      × (0 < n)
      × (n ≤ left)
      × (b'.data_size ≡ b.data_size + n)
      × (b'.capacity ≡ b.capacity)
      × (contents b' ≡ contents b ++ take n data_)
unfolding write_chunk remain
write_chunk_lem b data_ left v some_left room long =
    let w = v.write_within in
    let z = v.size_within in
    let from = read_pos-start b v in
    let n : ℕ = min left (
      if leb (read_pos b) b.write_pos
      then b.capacity - b.write_pos
      else read_pos b - b.write_pos) in
    let n_pos : 0 < n = ground arith in
    let n_left : n ≤ left = ground arith in
    let fits : b.write_pos + n ≤ b.capacity = ground arith in
    let fits' : b.data_size + n ≤ b.capacity = ground arith in
    let b' : RingBuffer = record b {
      memory = write_bytes b.memory b.write_pos n data_;
      write_pos = (b.write_pos + n) % b.capacity;
      data_size = b.data_size + n;
    } in
    let end_pos = mod-wrap (b.write_pos + n) b.capacity (omega arith) in
    let v' : IsValid b' = record { write_within = ground arith; size_within = fits' } in
    let from' = read_pos-start b' v' in
    let same : read_pos b' ≡ read_pos b = ground arith in
    let at_end : wrap b.capacity (read_pos b + b.data_size) ≡ b.write_pos = ground arith in
    (
      n,
      b',
      refl,
      v',
      n_pos,
      n_left,
      refl,
      refl,
      ap (λ j. ring_bytes (write_bytes b.memory b.write_pos n data_) b.capacity j (b.data_size + n))
            same
          ∙ ring_bytes-append (write_bytes b.memory b.write_pos n data_) b.capacity (read_pos b)
              b.data_size n (b.data_size + n) (ground arith) z refl
          ∙ chunk_written b.memory b.capacity (read_pos b) b.data_size b.write_pos n data_
              (ground arith) fits fits' at_end (omega arith),
    )
