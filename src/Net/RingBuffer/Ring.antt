-- ===== src/Net/RingBuffer/Ring.antt =====
-- Stretches of a ring of memory, which go on at 0 after the last place.
use native.Mathlib.Nat.{mod-eq_of_lt, mod-eq-sub-mod}
use landbase.Base.{
  ◌%◌, Bool-cases, ltb→lt, ltb-false, ℕ, zero, suc, ◌+◌, ◌-◌, ◌≤◌, ◌<◌, ◌≡◌, refl, ap, ◌∙◌, ◌⊎◌,
  inl, inr, List, [], ◌∷◌, ◌++◌, arith, ltb, ◌==◌, if◌then◌else◌, length,
}
use landbase.Base.Memory.{Memory, read_bytes}

-- The place after `i`, and the place for a number below twice the capacity.
abbrev pub following : ℕ → ℕ → ℕ
following cap i = if suc i == cap then 0 else suc i

abbrev pub wrap : ℕ → ℕ → ℕ
wrap cap i = if ltb i cap then i else i - cap

pub mod-wrap : (x cap : ℕ) → x < cap + cap → x % cap ≡ wrap cap x
mod-wrap x cap small = elim (Bool-cases (ltb x cap)) [
  | inl lt ↦ rw lt (mod-eq_of_lt (ltb→lt x cap lt))
  | inr ge ↦ rw ge (mod-eq-sub-mod (ltb-false x cap ge) ∙ mod-eq_of_lt (below (ltb-false x cap ge)))
]
  where
    below : cap ≤ x → x - cap < cap
    below le = omega arith

unfoldable pub ring_bytes : Memory → ℕ → ℕ → ℕ → List ℕ
ring_bytes mem cap i zero = []
ring_bytes mem cap i (suc n) = mem i ∷ ring_bytes mem cap (following cap i) n

pub length-ring_bytes : (mem : Memory) (cap i n : ℕ) → length (ring_bytes mem cap i n) ≡ n
unfolding ring_bytes
length-ring_bytes mem cap i zero = refl
length-ring_bytes mem cap i (suc n) = ap suc (length-ring_bytes mem cap (following cap i) n)

-- A stretch that ends before the ring does.
pub ring_bytes-segment :
    (mem : Memory) (cap i n : ℕ) → i + n ≤ cap → ring_bytes mem cap i n ≡ read_bytes mem i n
unfolding ring_bytes read_bytes
ring_bytes-segment mem cap i zero h = refl
ring_bytes-segment mem cap i (suc zero) h = refl
ring_bytes-segment mem cap i (suc (suc n)) h = ap (◌∷◌ (mem i)) (
    ap (λ j. ring_bytes mem cap j (suc n)) next
    ∙ ring_bytes-segment mem cap (i + 1) (suc n) (omega arith))
  where
    next : following cap i ≡ i + 1
    next = ground arith

-- A stretch in two parts.
pub ring_bytes-append :
    (mem : Memory) (cap i m n total : ℕ)
    → i < cap
    → m ≤ cap
    → total ≡ m + n
    → ring_bytes mem cap i total ≡ ring_bytes mem cap i m ++ ring_bytes mem cap (wrap cap (i + m)) n
unfolding ring_bytes
ring_bytes-append mem cap i zero n total lt h e =
    ap (ring_bytes mem cap i) total_eq ∙ ap (λ j. ring_bytes mem cap j n) here
  where
    total_eq : total ≡ n
    total_eq = omega arith

    here : i ≡ wrap cap (i + 0)
    here = ground arith
ring_bytes-append mem cap i (suc m) n zero lt h e = absurd (omega arith)
ring_bytes-append mem cap i (suc m) n (suc total) lt h e = ap (◌∷◌ (mem i)) (
    ring_bytes-append mem cap (following cap i) m n total (ground arith) (omega arith) (omega arith)
    ∙ ap (λ j. ring_bytes mem cap (following cap i) m ++ ring_bytes mem cap j n) there)
  where
    there : wrap cap (following cap i + m) ≡ wrap cap (i + suc m)
    there = ground arith

-- Memories that agree on the places of a stretch.
pub ring_bytes-ext :
    (mem mem' : Memory) (cap i n : ℕ)
    → i < cap
    → n ≤ cap
    → ((j : ℕ) → ((i ≤ j) × (j < i + n)) ⊎ (j + cap < i + n) → mem j ≡ mem' j)
    → ring_bytes mem cap i n ≡ ring_bytes mem' cap i n
unfolding ring_bytes
ring_bytes-ext mem mem' cap i zero lt h e = refl
ring_bytes-ext mem mem' cap i (suc n) lt h e =
    ap (λ x. x ∷ ring_bytes mem cap (following cap i) n) (e i (inl (omega arith, omega arith)))
    ∙ ap (◌∷◌ (mem' i)) (
        ring_bytes-ext mem mem' cap (following cap i) n (ground arith) (omega arith)
          (λ j r. e j (inside j r)))
  where
    inside :
        (j : ℕ)
        → ((following cap i ≤ j) × (j < following cap i + n)) ⊎ (j + cap < following cap i + n)
        → ((i ≤ j) × (j < i + suc n)) ⊎ (j + cap < i + suc n)
    inside j r = ground arith
