-- ===== src/Net/Writer.antt =====
-- `BufferedWriter` of src/observer/net/buffered_writer.cpp, over the ring buffer.
-- `write(2)` is a parameter: what it answers to each call, by the number of the call and of the bytes
-- offered. The loop around it runs on the fuel `patience`, the others on the bytes that are left.
use landbase.Base.{
  ℕ, zero, suc, ◌+◌, ◌-◌, ◌≤◌, ◌<◌, ◌≡◌, ◌&&◌, Option, none, some, List, [], ◌++◌, ltb, ◌==◌,
  if◌then◌else◌, drop, take, length,
}
use landbase.Base.Int.{ℤ, pos, negsuc, ltb_ℤ}
use landbase.Base.Memory.{read_bytes}
use landbase.Rc.{Rc, success, invalid_argument, ioerr_write, ob_succ}
use landbase.Net.RingBuffer.{RingBuffer, remain, buffer, forward, write, clear}
pub mod Flush
pub mod Write
mod Tests

-- What a call of `write(2)` does: take some of the bytes; nothing, for EAGAIN or EINTR; or fail.
pub data Answer : Type 0 where
  wrote : ℕ → Answer
  again failed : Answer

pub record Socket : Type 0 where
  pub answer : ℕ → ℕ → Answer
  pub patience : ℕ
  -- `write(2)` takes no more bytes than it is offered.
  pub within : (call count n : ℕ) → answer call count ≡ wrote n → n ≤ count

pub record BufferedWriter : Type 0 where
  pub fd : ℤ
  pub ring : RingBuffer
  -- the bytes that the socket has taken, and the number of calls so far
  pub sent : List ℕ
  pub calls : ℕ

module _ (socket : Socket) where
  -- The loop of calls until one takes a byte or fails: how many bytes, and the number of calls.
  unfoldable pub write_fd : ℕ → ℕ → ℕ → Option (Rc × ℕ × ℕ)
  write_fd zero call count = none
  write_fd (suc fuel) call count = elim (socket.answer call count) [
    | wrote n ↦ elim n [
      | zero ↦ write_fd fuel (suc call) count
      | suc m ↦ some (success, suc m, suc call)
    ]
    | again ↦ write_fd fuel (suc call) count
    | failed ↦ some (ioerr_write, 0, suc call)
  ]

  -- One round of the loop of `flush_internal`.
  unfoldable pub flush_round : BufferedWriter → Option (Rc × ℕ × BufferedWriter)
  flush_round w =
      let (rc, start, read_size) = buffer w.ring in
      elim (write_fd socket.patience w.calls read_size) [
        | none ↦ none
        | some (rc', n, calls') ↦
            if ob_succ rc'
            then some (
              success,
              n,
              record w {
                ring = (forward w.ring (pos n)).1;
                sent = w.sent ++ read_bytes w.ring.memory start n;
                calls = calls';
              },
            )
            else some (rc', 0, record w { calls = calls' })
      ]

  -- `left` is `size - write_size`, 0 when more was written.
  unfoldable pub flush_loop : ℕ → BufferedWriter → ℕ → Option (Rc × BufferedWriter)
  flush_loop zero w left = none
  flush_loop (suc fuel) w left =
      if ltb 0 w.ring.data_size && ltb 0 left
      then elim (flush_round w) [
        | none ↦ none
        | some (rc, n, w') ↦
            let rest = flush_loop fuel w' (left - n) in if ob_succ rc then rest else some (rc, w')
      ]
      else some (success, w)

  unfoldable pub flush_internal : BufferedWriter → ℕ → Option (Rc × BufferedWriter)
  flush_internal w size =
      if ltb_ℤ w.fd (pos 0)
      then some (invalid_argument, w)
      else flush_loop (suc w.ring.data_size) w size

  -- `flush` asks for all the bytes until there are none.
  unfoldable pub flush_all : ℕ → BufferedWriter → Option (Rc × BufferedWriter)
  flush_all zero w = none
  flush_all (suc fuel) w =
      if ltb 0 w.ring.data_size
      then elim (flush_internal w w.ring.data_size) [
        | none ↦ none
        | some (rc, w') ↦ let rest = flush_all fuel w' in if ob_succ rc then rest else some (rc, w')
      ]
      else some (success, w)

  unfoldable pub flush : BufferedWriter → Option (Rc × BufferedWriter)
  flush w =
      if ltb_ℤ w.fd (pos 0) then some (invalid_argument, w) else flush_all (suc w.ring.data_size) w

  unfoldable pub close : BufferedWriter → Option (Rc × BufferedWriter)
  close w = if ltb_ℤ w.fd (pos 0) then some (success, w) else elim (flush w) [
    | none ↦ none
    | some (rc, w') ↦
        if ob_succ rc then some (success, record w' { fd = negsuc 0 }) else some (rc, w')
  ]

  -- The number of bytes that the ring took, when it was asked.
  unfoldable pub write_ring : BufferedWriter → List ℕ → ℕ → Option (Rc × ℕ × BufferedWriter)
  write_ring w data_ size = elim (write w.ring data_ (pos size)) [
    | none ↦ none
    | some (rc, n, ring') ↦ some (rc, n, record w { ring = ring' })
  ]

  unfoldable pub write_some : BufferedWriter → List ℕ → ℕ → Option (Rc × ℕ × BufferedWriter)
  write_some w data_ size =
      if ltb_ℤ w.fd (pos 0)
      then some (invalid_argument, 0, w)
      else if remain w.ring == 0
      then elim (flush_internal w size) [
        | none ↦ none
        | some (rc, w') ↦ if ob_succ rc then write_ring w' data_ size else some (rc, 0, w')
      ]
      else write_ring w data_ size

  -- `data_` are the bytes that are left to write.
  unfoldable pub writen_loop : ℕ → BufferedWriter → List ℕ → Option (Rc × BufferedWriter)
  writen_loop zero w data_ = none
  writen_loop (suc fuel) w data_ =
      if ltb 0 (length data_)
      then elim (write_some w data_ (length data_)) [
        | none ↦ none
        | some (rc, n, w') ↦
            let rest = writen_loop fuel w' (drop n data_) in
            if ob_succ rc then rest else some (rc, w')
      ]
      else some (success, w)

  unfoldable pub writen : BufferedWriter → List ℕ → Option (Rc × BufferedWriter)
  writen w data_ =
      if ltb_ℤ w.fd (pos 0)
      then some (invalid_argument, w)
      else writen_loop (suc (length data_)) w data_

unfoldable pub clear_writer : BufferedWriter → Rc × BufferedWriter
clear_writer w =
    if ltb_ℤ w.fd (pos 0)
    then (invalid_argument, w)
    else (success, record w { ring = (clear w.ring).1 })
