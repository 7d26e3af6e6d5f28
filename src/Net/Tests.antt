-- ===== src/Net/Tests.antt =====
-- A ring buffer of four bytes in which one byte has been read, and the theorems at it.
use landbase.Base.{ℕ, ◌+◌, ◌≡◌, refl, some, List, [], ◌∷◌, ◌++◌, arith, min, take, length}
use landbase.Base.Int.{pos}
use landbase.Rc.{success}
use landbase.Net.RingBuffer.{RingBuffer, remain, read_pos, read, write}
use landbase.Net.RingBuffer.Ring.{ring_bytes}
use landbase.Net.RingBuffer.Queue.{IsValid, contents}
use landbase.Net.RingBuffer.Loops.{write_lem, read_lem}

-- It holds the bytes 3 4; place 1 is free, and so is place 0.
abbrev small : RingBuffer
small = record { memory = λ a. a + 1; capacity = 4; data_size = 2; write_pos = 0 }

small-IsValid : IsValid small
small-IsValid = record { write_within = omega arith; size_within = omega arith }

small_contents : contents small ≡ 3 ∷ 4 ∷ []
unfolding ring_bytes read_pos
small_contents = refl

write_lem_example :
    (b' : RingBuffer) × (write small (7 ∷ 8 ∷ 9 ∷ []) (pos 3)
      ≡ some (success, min 3 (remain small), b'))
    × IsValid b'
    × (b'.capacity ≡ 4)
    × (contents b' ≡ contents small ++ take (min 3 (remain small)) (7 ∷ 8 ∷ 9 ∷ []))
write_lem_example = write_lem small (7 ∷ 8 ∷ 9 ∷ []) 3 small-IsValid (omega arith)

read_lem_example :
    (bytes : List ℕ) × (b' : RingBuffer) × (read small (pos 1) ≡ some (success, bytes, b'))
    × IsValid b'
    × (length bytes ≡ 1)
    × (b'.capacity ≡ 4)
    × (contents small ≡ bytes ++ contents b')
read_lem_example = read_lem small 1 small-IsValid
