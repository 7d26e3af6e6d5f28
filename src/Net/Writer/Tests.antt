-- ===== src/Net/Writer/Tests.antt =====
-- A socket that takes one byte at every second call, and the theorems at it.
use landbase.Base.{
  ℕ, ◌+◌, ◌%◌, ◌≤◌, ◌≡◌, refl, true, some, [], ◌∷◌, ◌++◌, arith, take, ◌==◌, if◌then◌else◌, ltb,
  ◌&&◌, inl, inr, Bool-cases,
}
use landbase.Base.Int.{pos}
use landbase.Rc.{Rc, ob_succ}
use landbase.Net.RingBuffer.Queue.{IsValid, contents}
use landbase.Net.Writer.{Answer, wrote, again, Socket, BufferedWriter, flush, writen}
use landbase.Net.Writer.Flush.{Ends}
use landbase.Net.Writer.Write.{flush_lem, writen_lem}

abbrev slow : ℕ → ℕ → Answer
slow call count = if call % 2 == 1 && ltb 0 count then wrote 1 else again

slow_within : (call count n : ℕ) → slow call count ≡ wrote n → n ≤ count
slow_within call count n e = ground arith

abbrev socket : Socket
socket = record { answer = slow; patience = 2; within = slow_within }

slow-Ends : Ends slow 2
slow-Ends call count h = elim (Bool-cases (call % 2 == 1)) [
  | inl odd ↦ (0, omega arith, ground arith)
  | inr even ↦ (1, omega arith, ground arith)
]

-- The ring has four places and holds the bytes 3 4; the socket has taken 1 2.
abbrev writer : BufferedWriter
writer = record {
  fd = pos 5;
  ring = record { memory = λ a. a + 1; capacity = 4; data_size = 2; write_pos = 0 };
  sent = 1 ∷ 2 ∷ [];
  calls = 0;
}

writer-IsValid : IsValid writer.ring
writer-IsValid = record { write_within = omega arith; size_within = omega arith }

flush_lem_example :
    (rc : Rc) × (w' : BufferedWriter) × (flush socket writer ≡ some (rc, w'))
    × IsValid w'.ring
    × (w'.sent ++ contents w'.ring ≡ writer.sent ++ contents writer.ring)
    × (ob_succ rc ≡ true → w'.sent ≡ writer.sent ++ contents writer.ring)
flush_lem_example = flush_lem socket slow-Ends writer writer-IsValid refl

writen_lem_example :
    (rc : Rc) × (w' : BufferedWriter) × (k : ℕ) × (writen socket writer (7 ∷ 8 ∷ 9 ∷ [])
      ≡ some (rc, w'))
    × IsValid w'.ring
    × (w'.sent ++ contents w'.ring
        ≡ (writer.sent ++ contents writer.ring) ++ take k (7 ∷ 8 ∷ 9 ∷ []))
    × (ob_succ rc ≡ true
        → w'.sent ++ contents w'.ring ≡ (writer.sent ++ contents writer.ring) ++ (7 ∷ 8 ∷ 9 ∷ []))
writen_lem_example = writen_lem socket slow-Ends writer (7 ∷ 8 ∷ 9 ∷ []) writer-IsValid refl
