-- ===== src/Base/Count.antt =====
-- How many numbers below a bound pass a Boolean test.
use native.Mathlib.Decide.{ℕ_discrete}
use landbase.Base.{
  ℕ, zero, suc, ◌+◌, ◌≤◌, ◌<◌, ◌≡◌, refl, Bool, true, false, ◌||◌, arith, ◌==◌, if◌then◌else◌, ap,
  ◌∙◌,
}

unfoldable pub count_where : (ℕ → Bool) → ℕ → ℕ
count_where p zero = 0
count_where p (suc n) = (if p n then 1 else 0) + count_where p n

pub count_where-le : (p : ℕ → Bool) (n : ℕ) → count_where p n ≤ n
unfolding count_where
count_where-le p zero = omega arith
count_where-le p (suc n) = ground (arith, count_where-le p n)

pub count_where-ext :
    (p q : ℕ → Bool) (n : ℕ) → ((i : ℕ) → i < n → p i ≡ q i) → count_where p n ≡ count_where q n
unfolding count_where
count_where-ext p q zero e = refl
count_where-ext p q (suc n) e =
    ground (arith, e n (omega arith), count_where-ext p q n (λ i h. e i (omega arith)))

pub count_where_full : (p : ℕ → Bool) (n : ℕ) → ((i : ℕ) → i < n → p i ≡ true) → count_where p n ≡ n
unfolding count_where
count_where_full p zero e = refl
count_where_full p (suc n) e =
    ground (arith, e n (omega arith), count_where_full p n (λ i h. e i (omega arith)))

pub count_where_none :
    (p : ℕ → Bool) (n : ℕ) → ((i : ℕ) → i < n → p i ≡ false) → count_where p n ≡ 0
unfolding count_where
count_where_none p zero e = refl
count_where_none p (suc n) e =
    ground (arith, e n (omega arith), count_where_none p n (λ i h. e i (omega arith)))

-- Adding one number to those that pass.
pub count_where-insert :
    (p q : ℕ → Bool) (k n : ℕ)
    → k < n
    → p k ≡ false
    → ((i : ℕ) → i < n → q i ≡ (k == i || p i))
    → count_where q n ≡ count_where p n + 1
unfolding count_where
count_where-insert p q k zero h f e = absurd (omega arith)
count_where-insert p q k (suc n) h f e = elim (ℕ_discrete k n) [
  | yes kn ↦ ground (
    arith,
    e n (omega arith),
    ap p kn,
    count_where-ext q p n (λ i lt. e i (omega arith) ∙ other i lt kn),
  )
  | no ne ↦ ground (
    arith,
    e n (omega arith),
    count_where-insert p q k n (omega arith) f (λ i lt. e i (omega arith)),
  )
]
  where
    other : (i : ℕ) → i < n → k ≡ n → (k == i || p i) ≡ p i
    other i lt kn = ground arith

-- A number that passes is counted.
pub count_where_some : (p : ℕ → Bool) (k n : ℕ) → k < n → p k ≡ true → 1 ≤ count_where p n
unfolding count_where
count_where_some p k zero h e = absurd (omega arith)
count_where_some p k (suc n) h e = elim (ℕ_discrete k n) [
  | yes kn ↦ ground (arith, ap p kn)
  | no ne ↦ ground (arith, count_where_some p k n (omega arith) e)
]
