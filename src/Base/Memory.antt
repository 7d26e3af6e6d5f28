-- ===== src/Base/Memory.antt =====
-- A stretch of memory as a function from addresses to bytes, with `memcpy` in and out of it.
use landbase.Base.{
  ℕ, zero, suc, ◌+◌, ◌-◌, ◌≤◌, ◌<◌, ◌≡◌, refl, ap, ◌⊎◌, ◌∙◌, ◌&&◌, List, [], ◌∷◌, arith, ltb, leb,
  if◌then◌else◌, length, get_or, take,
}

abbrev pub Memory : Type 0
Memory = ℕ → ℕ

unfoldable pub read_bytes : Memory → ℕ → ℕ → List ℕ
read_bytes mem off zero = []
read_bytes mem off (suc n) = mem off ∷ read_bytes mem (off + 1) n

-- `memcpy(mem + off, src, n)`
unfoldable pub write_bytes : Memory → ℕ → ℕ → List ℕ → Memory
write_bytes mem off n src a = if leb off a && ltb a (off + n) then get_or src (a - off) 0 else mem a

pub read_bytes-eq-take :
    (mem : Memory) (off n : ℕ) (src : List ℕ)
    → n ≤ length src
    → ((i : ℕ) → i < n → mem (off + i) ≡ get_or src i 0)
    → read_bytes mem off n ≡ take n src
unfolding read_bytes
read_bytes-eq-take mem off zero src h e = refl
read_bytes-eq-take mem off (suc n) [] h e = absurd (omega arith)
read_bytes-eq-take mem off (suc n) (x ∷ xs) h e = ground (
  arith,
  e 0 (omega arith),
  ap mem (first off),
  read_bytes-eq-take mem (off + 1) n xs (omega arith)
      (λ i lt. ap mem (shift i) ∙ e (suc i) (omega arith)),
)
  where
    first : (a : ℕ) → a + 0 ≡ a
    first a = omega arith

    shift : (i : ℕ) → off + 1 + i ≡ off + suc i
    shift i = omega arith

pub read_bytes-ext :
    (mem mem' : Memory) (off n : ℕ)
    → ((i : ℕ) → off ≤ i → i < off + n → mem i ≡ mem' i)
    → read_bytes mem off n ≡ read_bytes mem' off n
unfolding read_bytes
read_bytes-ext mem mem' off zero e = refl
read_bytes-ext mem mem' off (suc n) e = ground (
  arith,
  e off (omega arith) (omega arith),
  read_bytes-ext mem mem' (off + 1) n (λ i a b. e i (omega arith) (omega arith)),
)

-- Reading back what was just written.
pub read-write_bytes_self :
    (mem : Memory) (off n : ℕ) (src : List ℕ)
    → n ≤ length src
    → read_bytes (write_bytes mem off n src) off n ≡ take n src
unfolding write_bytes
read-write_bytes_self mem off n src h =
    read_bytes-eq-take (write_bytes mem off n src) off n src h (λ i lt. at i lt)
  where
    at : (i : ℕ) → i < n → write_bytes mem off n src (off + i) ≡ get_or src i 0
    at i lt = ground (arith, ap (λ k. get_or src k 0) (back i))
      where
        back : (i : ℕ) → off + i - off ≡ i
        back i = omega arith

-- A write beside the bytes that are read does not show.
pub read-write_bytes_apart :
    (mem : Memory) (off n : ℕ) (src : List ℕ) (off' n' : ℕ)
    → (off' + n' ≤ off) ⊎ (off + n ≤ off')
    → read_bytes (write_bytes mem off n src) off' n' ≡ read_bytes mem off' n'
unfolding write_bytes
read-write_bytes_apart mem off n src off' n' apart =
    read_bytes-ext (write_bytes mem off n src) mem off' n' (λ i a b. ground arith)
