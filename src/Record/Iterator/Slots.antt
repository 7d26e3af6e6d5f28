-- ===== src/Record/Iterator/Slots.antt =====
-- `RecordPageIterator` goes through the occupied slots of a page in order.
use landbase.Base.{
  ℕ, zero, suc, ◌+◌, ◌-◌, ◌/◌, ◌%◌, ◌≤◌, ◌<◌, ◌≡◌, refl, ap, sym, ◌∙◌, ◌≢◌, ◌⊎◌, inl, inr, Bool,
  true, false, Option, none, some, List, [], ◌∷◌, arith, if◌then◌else◌, get_or,
}
use native.Mathlib.Decide.{ℕ_discrete}
use mathlib.Core.Bool.{false≢true}
use landbase.Base.Bits.{byte_bit, bit_empty}
use landbase.Bitmap.{Bitmap, get_bit}
use landbase.Bitmap.Search.{First}
use landbase.Bitmap.Find.{start_byte, next_setted_bit-First}
use landbase.Record.Page.{RecordPage, bits}
use landbase.Record.Iterator.{Iterator, init, next}

-- The numbers from `lo` on, `n` of them, at which a test holds.
abbrev pub hits : (ℕ → Bool) → ℕ → ℕ → List ℕ
hits p lo zero = []
hits p lo (suc n) = if p lo then lo ∷ hits p (lo + 1) n else hits p (lo + 1) n

-- The occupied slots of a page from `lo` on.
abbrev pub occupied_slots : RecordPage → ℕ → List ℕ
occupied_slots p lo = hits (get_bit (bits p)) lo (p.record_capacity - lo)

module _ (p : ℕ → Bool) where
  hits_none : (lo n : ℕ) → ((i : ℕ) → lo ≤ i → i < lo + n → p i ≡ false) → hits p lo n ≡ []
  hits_none lo zero f = refl
  hits_none lo (suc n) f = ground (
    arith,
    f lo (omega arith) (omega arith),
    hits_none (lo + 1) n (λ i a b. f i (omega arith) (omega arith)),
  )

  hits_some :
      (lo n k : ℕ)
      → lo ≤ k
      → k < lo + n
      → p k ≡ true
      → ((i : ℕ) → lo ≤ i → i < k → p i ≡ false)
      → hits p lo n ≡ k ∷ hits p (k + 1) (lo + n - (k + 1))
  hits_some lo zero k a b t f = absurd (omega arith)
  hits_some lo (suc n) k a b t f = elim (ℕ_discrete lo k) [
    | yes e ↦
        let rounds : lo + suc n - (k + 1) ≡ n = omega arith in
        let here : p lo ≡ true = ap p e ∙ t in rw (rounds, ← e, here)
    | no ne ↦ rw (f lo (omega arith) (omega arith)) (
        hits_some (lo + 1) n k (omega arith) (omega arith) t (λ i c d. f i (omega arith) d)
        ∙ ap (λ m. k ∷ hits p (k + 1) m) (omega arith))
  ]

-- What an iterator has still to hand out.
abbrev pub remaining : RecordPage → Iterator → List ℕ
remaining p none = []
remaining p (some slot) = slot ∷ occupied_slots p (slot + 1)

-- The search for the slot behind an occupied one starts in a byte that is not empty, or at the
-- first bit of the next byte.
behind_occupied :
    (m : Bitmap) (k : ℕ) → get_bit m k ≡ true → ((k + 1) % 8 ≡ 0) ⊎ (start_byte m (k + 1) ≢ 0)
unfolding get_bit
behind_occupied m k held = elim (ℕ_discrete ((k + 1) % 8) 0) [
  | yes e ↦ inl e
  | no ne ↦ inr (λ zero_byte. false≢true (sym (empty_bit zero_byte ne) ∙ held))
]
  where
    empty_bit :
        start_byte m (k + 1) ≡ 0
        → (k + 1) % 8 ≢ 0
        → byte_bit (get_or m.bytes (k / 8) 0) (k % 8) ≡ false
    empty_bit z ne =
        let same : k / 8 ≡ (k + 1) / 8 = omega arith in
        ap (λ q. byte_bit (get_or m.bytes q 0) (k % 8)) same
        ∙ ap (λ b. byte_bit b (k % 8)) z
        ∙ bit_empty (k % 8) (omega arith)

First-remaining :
    (p : RecordPage) (lo : ℕ) (r : Option ℕ)
    → First (get_bit (bits p)) lo p.record_capacity r
    → remaining p r ≡ occupied_slots p lo
First-remaining p lo none f =
    sym (hits_none (get_bit (bits p)) lo (p.record_capacity - lo) (λ i a b. f i a (omega arith)))
First-remaining p lo (some k) f = sym (
    hits_some (get_bit (bits p)) lo (p.record_capacity - lo) k f.0 (omega (arith, f.0, f.1)) f.2 f.3
    ∙ ap (λ m. k ∷ hits (get_bit (bits p)) (k + 1) m) (omega (arith, f.0, f.1)))

-- An iterator that is set to a slot is set to an occupied one.
abbrev pub IsAt : RecordPage → Iterator → Type 0
IsAt p none = Unit {0}
IsAt p (some slot) = (get_bit (bits p) slot ≡ true) × (slot < p.record_capacity)

First-IsAt :
    (p : RecordPage) (lo : ℕ) (r : Option ℕ)
    → First (get_bit (bits p)) lo p.record_capacity r
    → IsAt p r
First-IsAt p lo none f = tt
First-IsAt p lo (some k) f = (f.2, f.1)

-- An iterator that starts at slot 0 has all occupied slots of the page before it, in order.
pub init-remaining :
    (p : RecordPage) → (remaining p (init p 0) ≡ occupied_slots p 0) × IsAt p (init p 0)
unfolding init
init-remaining p =
    let f = next_setted_bit-First (bits p) 0 (inl (omega arith)) in
    (First-remaining p 0 _ f, First-IsAt p 0 _ f)

-- `next` hands out the first of the slots that remain, and leaves the rest.
pub next-remaining :
    (p : RecordPage) (slot : ℕ)
    → IsAt p (some slot)
    → (remaining p (some slot) ≡ slot ∷ remaining p (next p (some slot)).2)
      × IsAt p (next p (some slot)).2
unfolding next
next-remaining p slot ok =
    let f = next_setted_bit-First (bits p) (slot + 1) (behind_occupied (bits p) slot ok.0) in
    (ap (◌∷◌ slot) (sym (First-remaining p (slot + 1) _ f)), First-IsAt p (slot + 1) _ f)
