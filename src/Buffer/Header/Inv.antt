-- ===== src/Buffer/Header/Inv.antt =====
-- Which pages are in use.
use landbase.Base.{
  ℕ, suc, ◌+◌, ◌≤◌, ◌<◌, ◌≡◌, refl, sym, ap, ◌∙◌, ◌⊎◌, inl, inr, Bool, true, false, not, ◌||◌,
  Bool-cases, Option-cases, none, some, arith, ltb, ltb→lt, lt→ltb, ltb-false, ◌==◌,
}
use landbase.Base.Count.{count_where, count_where-insert, count_where-le, count_where_full}
use landbase.Bitmap.{set_bit, first_where}
use landbase.Bitmap.Search.{First, first_where-First}
use landbase.Bitmap.Bits
use landbase.Buffer.Header.{
  FileHeader, bits, in_use, max_page_num, find_free_page, with_bit_set, reuse_page, extend_file,
}

-- The counts are right, no page behind the last one is in use, and the header's own page is.
pub record IsValid (h : FileHeader) : Type 0 where
  pub bitmap : Bits.IsValid (bits h)
  pub bounded : h.page_count ≤ max_page_num
  pub counted : h.allocated_pages ≡ count_where (in_use h) h.page_count
  pub behind : (i : ℕ) → h.page_count ≤ i → in_use h i ≡ false
  pub own : in_use h 0 ≡ true

-- Page `n` was free, and now is in use; all others are as they were.
pub record Takes (h h' : FileHeader) (n : ℕ) : Type 0 where
  pub free : in_use h n ≡ false
  pub others : (j : ℕ) → in_use h' j ≡ (n == j || in_use h j)
  pub valid : IsValid h'

count_last : (p : ℕ → Bool) (n : ℕ) → p n ≡ false → count_where p (n + 1) ≡ count_where p n
unfolding count_where
count_last p n e = ap (count_where p) next ∙ ground (arith, e)
  where
    next : n + 1 ≡ suc n
    next = omega arith

module _ {h : FileHeader} (v : IsValid h) where
  set_others :
      (n : ℕ) → n < max_page_num → (j : ℕ) → in_use (with_bit_set n h) j ≡ (n == j || in_use h j)
  unfolding set_bit
  set_others n lt j = Bits.get-set_bit v.bitmap n j lt

  reuse_page-Takes : (n : ℕ) → n < h.page_count → in_use h n ≡ false → Takes h (reuse_page n h) n
  unfolding reuse_page set_bit
  reuse_page-Takes n lt free = record {
    free = free;
    others = set_others n (omega (arith, lt, v.bounded));
    valid = record {
      bitmap = Bits.set_bit-IsValid n v.bitmap;
      bounded = v.bounded;
      counted =
          ap (λ k. k + 1) v.counted
          ∙ sym (
              count_where-insert (in_use h) (in_use (reuse_page n h)) n h.page_count lt free
                (λ i below. set_others n (omega (arith, lt, v.bounded)) i));
      behind =
          λ i le. set_others n (omega (arith, lt, v.bounded)) i ∙ ground (arith, v.behind i le);
      own = set_others n (omega (arith, lt, v.bounded)) 0 ∙ ground (arith, v.own);
    };
  }

  extend_file-Takes : h.page_count < max_page_num → Takes h (extend_file h) h.page_count
  unfolding extend_file set_bit
  extend_file-Takes lt = record {
    free = v.behind h.page_count (omega arith);
    others = set_others h.page_count lt;
    valid = record {
      bitmap = Bits.set_bit-IsValid h.page_count v.bitmap;
      bounded = omega (arith, lt);
      counted =
          ap (λ k. k + 1)
            (v.counted
              ∙ sym (count_last (in_use h) h.page_count (v.behind h.page_count (omega arith))))
          ∙ sym (
              count_where-insert (in_use h) (in_use (extend_file h)) h.page_count (h.page_count + 1)
                (omega arith) (v.behind h.page_count (omega arith))
                (λ i below. set_others h.page_count lt i));
      behind =
          λ i le. set_others h.page_count lt i ∙ ground (arith, v.behind i (omega (arith, le)));
      own = set_others h.page_count lt 0 ∙ ground (arith, v.own);
    };
  }

  -- Is there no page left?
  abbrev pub IsFull : Type 0
  IsFull = (h.page_count ≡ max_page_num) × ((i : ℕ) → i < max_page_num → in_use h i ≡ true)

  abbrev unused : ℕ → Bool
  unused i = not (in_use h i)

  searched : First unused 0 h.page_count (first_where unused 0 h.page_count)
  searched = first_where-First unused 0 h.page_count h.page_count (omega arith)

  not-false : (i : ℕ) → unused i ≡ false → in_use h i ≡ true
  not-false i e = ground (arith, e)

  not-true : (i : ℕ) → unused i ≡ true → in_use h i ≡ false
  not-true i e = ground (arith, e)

  some_free :
      h.allocated_pages < h.page_count
      → (i : ℕ) × (find_free_page h ≡ some i) × (i < h.page_count) × (in_use h i ≡ false)
  unfolding find_free_page
  some_free lt = elim (Option-cases (first_where unused 0 h.page_count)) [
    | inr (i, found) ↦
        let f = rw found at searched in
        (
          i,
          rw (find_free_page, lt→ltb h.allocated_pages h.page_count lt) found,
          f.1,
          not-true i f.2,
        )
    | inl nothing ↦
        let f = rw nothing at searched in
        let full =
          count_where_full (in_use h) h.page_count
            (λ i below. not-false i (f i (omega arith) below)) in
        absurd (omega (arith, lt, v.counted, full))
  ]

  all_used : h.page_count ≤ h.allocated_pages → (i : ℕ) → i < h.page_count → in_use h i ≡ true
  all_used le i lt = elim (Bool-cases (in_use h i)) [
    | inl used ↦ used
    | inr free ↦
        let more : ℕ → Bool = λ j. i == j || in_use h j in
        let one_more =
          count_where-insert (in_use h) more i h.page_count lt free (λ j below. refl) in
        absurd (omega (arith, le, v.counted, one_more, count_where-le more h.page_count))
  ]

  -- The page that `allocate_page` takes, on a valid header.
  abbrev pub Choice : Type 0
  Choice =
      ((i : ℕ) × (find_free_page h ≡ some i) × (i < h.page_count) × Takes h (reuse_page i h) i)
      ⊎ ((find_free_page h ≡ none)
          × (h.page_count < max_page_num)
          × Takes h (extend_file h) h.page_count)
      ⊎ ((find_free_page h ≡ none) × (max_page_num ≤ h.page_count) × IsFull)

  pub choice : Choice
  unfolding find_free_page
  choice = elim (Bool-cases (ltb h.allocated_pages h.page_count)) [
    | inl lt ↦
        let (i, found, below, free) = some_free (ltb→lt h.allocated_pages h.page_count lt) in
        inl (i, found, below, reuse_page-Takes i below free)
    | inr ge ↦
        let none_free : find_free_page h ≡ none = rw (find_free_page, ge) refl in
        let used = all_used (ltb-false h.allocated_pages h.page_count ge) in
        elim (Bool-cases (ltb h.page_count max_page_num)) [
          | inl room ↦
              let lt = ltb→lt h.page_count max_page_num room in
              inr (inl (none_free, lt, extend_file-Takes lt))
          | inr full ↦
              let le = ltb-false h.page_count max_page_num full in
              inr (
                inr (
                  none_free,
                  le,
                  (omega (arith, le, v.bounded), λ i lt. used i (omega (arith, le, lt))),
                ))
        ]
  ]
