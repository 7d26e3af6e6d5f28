-- ===== src/Bitmap/Search.antt =====
-- What the searches of deps/common/lang/bitmap.cpp find.
use native.Mathlib.Decide.{dec_lt}
use landbase.Base.{
  ℕ, zero, suc, ◌+◌, ◌-◌, ◌*◌, ◌/◌, ◌%◌, ◌≤◌, ◌<◌, ◌≡◌, refl, ap, ◌∙◌, ◌≢◌, ◌⊎◌, inl, inr, Bool,
  true, false, Option, none, some, List, arith, ◌==◌, ==_iff, Bool-cases, Option-cases, get_or,
}
use landbase.Bitmap.{first_where, scan_bytes}

-- `r` is the first index from `lo` and below `hi` at which `p` holds, or there is none.
abbrev pub First : (ℕ → Bool) → ℕ → ℕ → Option ℕ → Type 0
First p lo hi none = (i : ℕ) → lo ≤ i → i < hi → p i ≡ false
First p lo hi (some k) =
    (lo ≤ k) × (k < hi) × (p k ≡ true) × ((i : ℕ) → lo ≤ i → i < k → p i ≡ false)

module _ (p : ℕ → Bool) {lo mid : ℕ} (hi : ℕ) (h : lo ≤ mid) where
  First-skip :
      (r : Option ℕ)
      → ((i : ℕ) → lo ≤ i → i < mid → p i ≡ false)
      → First p mid hi r
      → First p lo hi r
  First-skip none g f =
      λ i a b. elim (dec_lt i mid) [ yes c ↦ g i a c | no c ↦ f i (omega arith) b ]
  First-skip (some k) g f = (
    omega (arith, f.0),
    f.1,
    f.2,
    λ i a b. elim (dec_lt i mid) [ yes c ↦ g i a c | no c ↦ f.3 i (omega arith) b ],
  )

pub first_where-First :
    (p : ℕ → Bool) (i rounds hi : ℕ) → hi ≡ i + rounds → First p i hi (first_where p i rounds)
unfolding first_where
first_where-First p i zero hi e = λ j a b. absurd (omega arith)
first_where-First p i (suc rounds) hi e = elim (Bool-cases (p i)) [
  | inl t ↦ rw t (omega arith, omega arith, t, λ j a b. absurd (omega arith))
  | inr f ↦ rw f (
      First-skip p hi (omega arith) (first_where p (i + 1) rounds) (λ j a b. rw (only j a b) f)
        (first_where-First p (i + 1) rounds hi (omega arith)))
]
  where
    only : (j : ℕ) → i ≤ j → j < i + 1 → j ≡ i
    only j a b = omega arith

some_inj : (a b : ℕ) → some a ≡ some b → a ≡ b
some_inj a b h = ground arith

-- A search over bytes: `hit b i` is the test of bit `i` of a byte `b`, and no bit of the byte
-- `skip` passes it.
module _ (hit : ℕ → ℕ → Bool) (skip : ℕ) (find : ℕ → ℕ → Option ℕ)
    (find-First : (b s : ℕ) → s < 8 → First (hit b) s 8 (find b s))
    (skip_none : (i : ℕ) → i < 8 → hit skip i ≡ false) where
  abbrev pub bit_of : List ℕ → ℕ → Bool
  bit_of bytes i = hit (get_or bytes (i / 8) 0) (i % 8)

  bit_of-at :
      (bytes : List ℕ) (iter i : ℕ)
      → iter * 8 ≤ i
      → i < (iter + 1) * 8
      → bit_of bytes i ≡ hit (get_or bytes iter 0) (i - iter * 8)
  bit_of-at bytes iter i a b = ground arith

  -- A byte that holds no hit from `s` on is passed over.
  pass_byte :
      (bytes : List ℕ) (iter s hi : ℕ) (r : Option ℕ)
      → s < 8
      → ((i : ℕ) → s ≤ i → i < 8 → hit (get_or bytes iter 0) i ≡ false)
      → First (bit_of bytes) ((iter + 1) * 8 + 0) hi r
      → First (bit_of bytes) (iter * 8 + s) hi r
  pass_byte bytes iter s hi r h g f =
      First-skip (bit_of bytes) hi (omega arith) r
        (λ i a b.
          bit_of-at bytes iter i (omega arith) (omega arith)
          ∙ g (i - iter * 8) (omega arith) (omega arith))
        f

  in_byte :
      (bytes : List ℕ) (iter s hi k : ℕ)
      → (iter + 1) * 8 ≤ hi
      → First (hit (get_or bytes iter 0)) s 8 (some k)
      → First (bit_of bytes) (iter * 8 + s) hi (some (iter * 8 + k))
  in_byte bytes iter s hi k h f = (
    omega (arith, f.0),
    omega (arith, f.1),
    bit_of-at bytes iter (iter * 8 + k) (omega arith) (omega (arith, f.1)) ∙ shift ∙ f.2,
    λ i a b.
        bit_of-at bytes iter i (omega arith) (omega (arith, f.1))
        ∙ f.3 (i - iter * 8) (omega arith) (omega arith),
  )
    where
      shift : hit (get_or bytes iter 0) (iter * 8 + k - iter * 8) ≡ hit (get_or bytes iter 0) k
      shift = ap (hit (get_or bytes iter 0)) (omega arith)

  -- The search is right if it starts at a byte's first bit, or in a byte that is not skipped.
  pub scan-First :
      (bytes : List ℕ) (iter s rounds hi : ℕ)
      → s < 8
      → hi ≡ (iter + rounds) * 8
      → (s ≡ 0) ⊎ (get_or bytes iter 0 ≢ skip)
      → First (bit_of bytes) (iter * 8 + s) hi (scan_bytes skip find bytes iter s rounds)
  unfolding scan_bytes
  scan-First bytes iter s zero hi h e ok = λ i a b. absurd (omega arith)
  scan-First bytes iter s (suc rounds) hi h e ok = elim (Bool-cases (get_or bytes iter 0 == skip)) [
    | inl t ↦ rw t (
        pass_byte bytes iter s hi _ h
          (λ i a b. ap (λ c. hit c i) ((==_iff _ skip).0 t) ∙ skip_none i b)
          (rw (at_start ok t)
            (scan-First bytes (iter + 1) 0 rounds hi (omega arith) (omega arith) (inl refl))))
    | inr f ↦ elim (Option-cases (find (get_or bytes iter 0) s)) [
      | inl n ↦
          rw (n, f)
            (pass_byte bytes iter s hi _ h (none-First n)
              (scan-First bytes (iter + 1) 0 rounds hi (omega arith) (omega arith) (inl refl)))
      | inr (k, n) ↦ rw (n, f) (in_byte bytes iter s hi k (omega arith) (some-First k n))
    ]
  ]
    where
      at_start :
          (s ≡ 0) ⊎ (get_or bytes iter 0 ≢ skip) → (get_or bytes iter 0 == skip) ≡ true → s ≡ 0
      at_start (inl z) t = z
      at_start (inr ne) t = absurd (ne ((==_iff _ skip).0 t))

      none-First : find (get_or bytes iter 0) s ≡ none → First (hit (get_or bytes iter 0)) s 8 none
      none-First n = rw n at (find-First (get_or bytes iter 0) s h)

      some-First :
          (k : ℕ)
          → find (get_or bytes iter 0) s ≡ some k
          → First (hit (get_or bytes iter 0)) s 8 (some k)
      some-First k n = rw n at (find-First (get_or bytes iter 0) s h)

  pub scan-skip :
      (bytes : List ℕ) (iter s rounds : ℕ)
      → get_or bytes iter 0 ≡ skip
      → scan_bytes skip find bytes iter s (suc rounds)
        ≡ scan_bytes skip find bytes (iter + 1) s rounds
  unfolding scan_bytes
  scan-skip bytes iter s rounds e = rw ((==_iff _ skip).1 e)

  abbrev pub Found : List ℕ → ℕ → ℕ → Type 0
  Found bytes lo k = (lo ≤ k) × (bit_of bytes k ≡ true)

  Found-in_byte :
      (bytes : List ℕ) (iter s i k : ℕ)
      → First (hit (get_or bytes iter 0)) s 8 (some i)
      → iter * 8 + i ≡ k
      → Found bytes (iter * 8 + s) k
  Found-in_byte bytes iter s i k f e = (
    omega (arith, f.0),
    bit_of-at bytes iter k (omega arith) (omega (arith, f.1))
        ∙ ap (hit (get_or bytes iter 0)) (omega arith)
        ∙ f.2,
  )

  -- Whatever the start, a search does not go back, and what it finds passes the test.
  pub scan_sound :
      (bytes : List ℕ) (iter s rounds k : ℕ)
      → s < 8
      → scan_bytes skip find bytes iter s rounds ≡ some k
      → Found bytes (iter * 8 + s) k
  unfolding scan_bytes
  scan_sound bytes iter s zero k h e = cc
  scan_sound bytes iter s (suc rounds) k h e = elim (Bool-cases (get_or bytes iter 0 == skip)) [
    | inl t ↦ let (a, b) = scan_sound bytes (iter + 1) s rounds k h (rw t at e) in (omega arith, b)
    | inr f ↦ elim (Option-cases (find (get_or bytes iter 0) s)) [
      | inl n ↦
          let (a, b) = scan_sound bytes (iter + 1) 0 rounds k (omega arith) (rw (n, f) at e) in
          (omega arith, b)
      | inr (i, n) ↦
          Found-in_byte bytes iter s i k (rw n at (find-First (get_or bytes iter 0) s h))
            (some_inj _ _ (rw (n, f) at e))
    ]
  ]
