-- ===== src/Net/RingBuffer.antt =====
-- `RingBuffer` of src/observer/net/ring_buffer.h and ring_buffer.cpp.
-- The vector is a memory with a capacity; the counters are numbers, which they are as long as
-- `Queue.IsValid` holds. A size that a caller passes may be negative. Loops run on fuel.
use landbase.Base.{
  ℕ, zero, suc, ◌+◌, ◌-◌, ◌%◌, Bool, not, ◌&&◌, Option, none, some, List, [], ◌++◌, min, ltb, leb,
  ◌==◌, if◌then◌else◌, drop,
}
use landbase.Base.Int.{ℤ, pos, negsuc}
use landbase.Base.Memory.{Memory, read_bytes, write_bytes}
use landbase.Rc.{Rc, success, invalid_argument, ob_succ}
pub mod Ring
pub mod Queue
pub mod Loops

pub record RingBuffer : Type 0 where
  pub memory : Memory
  pub capacity : ℕ
  pub data_size : ℕ
  pub write_pos : ℕ

-- `RingBuffer(size)`: the vector's bytes are zero.
unfoldable pub create : ℕ → RingBuffer
create size = record { memory = λ a. 0; capacity = size; data_size = 0; write_pos = 0 }

unfoldable pub remain : RingBuffer → ℕ
remain b = b.capacity - b.data_size

unfoldable pub read_pos : RingBuffer → ℕ
read_pos b = (b.write_pos + b.capacity - b.data_size) % b.capacity

-- The result is where the bytes start and how many there are.
unfoldable pub buffer : RingBuffer → Rc × ℕ × ℕ
buffer b =
    if b.data_size == 0
    then (success, 0, 0)
    else if ltb (read_pos b) b.write_pos
    then (success, read_pos b, b.write_pos - read_pos b)
    else (success, read_pos b, b.capacity - read_pos b)

unfoldable pub forward : RingBuffer → ℤ → Rc × RingBuffer
forward b (negsuc n) = (invalid_argument, b)
forward b (pos zero) = (invalid_argument, b)
forward b (pos (suc n)) =
    if ltb b.data_size (suc n)
    then (invalid_argument, b)
    else (success, record b { data_size = b.data_size - suc n })

-- One round of the loop of `read`: the bytes copied out, and the buffer after `forward`.
unfoldable pub read_chunk : RingBuffer → ℕ → Rc × List ℕ × RingBuffer
read_chunk b wanted =
    let (rc, start, tmp_size) = buffer b in
    let copy_size = min wanted tmp_size in
    let (rc', b') = forward b (pos copy_size) in (rc', read_bytes b.memory start copy_size, b')

-- `acc` holds the bytes read so far, of `size` that are wanted; `rc` is the last result.
unfoldable pub read_loop : ℕ → RingBuffer → ℕ → Rc → List ℕ → Option (Rc × List ℕ × RingBuffer)
read_loop zero b wanted rc acc = none
read_loop (suc fuel) b wanted rc acc =
    let (rc', bytes, b') = read_chunk b wanted in
    let rest = read_loop fuel b' (wanted - min wanted (buffer b).2) rc' (acc ++ bytes) in
    if ob_succ rc && (ltb 0 wanted && ltb 0 b.data_size) then rest else some (rc, acc, b)

unfoldable pub read : RingBuffer → ℤ → Option (Rc × List ℕ × RingBuffer)
read b (negsuc n) = some (invalid_argument, [], b)
read b (pos size) = read_loop (suc size) b size success []

-- One round of the loop of `write`, for the data that are left: how many bytes it copies in.
unfoldable pub write_chunk : RingBuffer → List ℕ → ℕ → ℕ × RingBuffer
write_chunk b data_ left =
    let tmp_buf_size =
      if leb (read_pos b) b.write_pos then b.capacity - b.write_pos else read_pos b - b.write_pos in
    let copy_size = min left tmp_buf_size in
    (
      copy_size,
      record b {
        memory = write_bytes b.memory b.write_pos copy_size data_;
        write_pos = (b.write_pos + copy_size) % b.capacity;
        data_size = b.data_size + copy_size;
      },
    )

-- `data_` are the bytes from `data + write_size` on, and `left` is `size - write_size`.
unfoldable pub write_loop : ℕ → RingBuffer → List ℕ → ℕ → ℕ → Option (Rc × ℕ × RingBuffer)
write_loop zero b data_ left write_size = none
write_loop (suc fuel) b data_ left write_size =
    let (n, b') = write_chunk b data_ left in
    let rest = write_loop fuel b' (drop n data_) (left - n) (write_size + n) in
    if ltb 0 left && ltb 0 (remain b) then rest else some (success, write_size, b)

unfoldable pub write : RingBuffer → List ℕ → ℤ → Option (Rc × ℕ × RingBuffer)
write b data_ (negsuc n) = some (invalid_argument, 0, b)
write b data_ (pos size) = write_loop (suc size) b data_ size 0

unfoldable pub clear : RingBuffer → Rc × RingBuffer
clear b = (success, record b { write_pos = 0; data_size = 0 })
