-- ===== src/Record/Iterator/Scan.antt =====
-- `fetch_next_record_in_page` of src/observer/storage/record/record_manager.cpp against a plain
-- search of the list of occupied slots.
use landbase.Base.{
  ℕ, zero, suc, ◌<◌, ◌≡◌, refl, subst, ap, sym, inl, inr, Bool, true, false, not, ◌&&◌, Option,
  none, some, List, [], ◌∷◌, arith, if◌then◌else◌, length, Bool-cases,
}
use landbase.Rc.{Rc, success, record_eof, record_invisible, is_invisible}
use landbase.Record.Page.{RecordPage}
use landbase.Record.Iterator.{
  Iterator, next, record_at, filtered_out, visit, fetch_next_record_in_page,
}
use landbase.Record.Iterator.Slots.{remaining, IsAt, next-remaining}

module _ (condition_filter : Option (List ℕ → Bool)) (visit_record : Option (List ℕ → Rc)) where
  -- A record passes where there is no filter, and where the filter says so.
  pub passes : List ℕ → Bool
  passes bytes = elim condition_filter [ none ↦ true | some filter ↦ filter bytes ]

  -- What the caller is told of a record: the answer of the transaction, and success without one.
  pub answer : List ℕ → Rc
  answer bytes = elim visit_record [ none ↦ success | some f ↦ f bytes ]

  pub seen : Rc → Bool
  seen record_invisible = false
  seen _ = true

  -- The first slot of a list whose record passes the filter and is not invisible to the
  -- transaction, with what the transaction says of it, and the slots behind it.
  pub pick : RecordPage → List ℕ → Rc × Option ℕ × List ℕ
  pick p [] = (record_eof, none, [])
  pick p (slot ∷ slots) =
      if passes (record_at p slot) && seen (answer (record_at p slot))
      then (answer (record_at p slot), some slot, slots)
      else pick p slots

  passes-filtered_out :
      (bytes : List ℕ) → passes bytes ≡ not (filtered_out condition_filter visit_record bytes)
  unfolding filtered_out passes
  passes-filtered_out bytes =
      elim condition_filter
        as (λ c.
          (elim c [ none ↦ true | some filter ↦ filter bytes ])
          ≡ not (elim c [ none ↦ false | some filter ↦ not (filter bytes) ])) [
            | none ↦ refl
            | some filter ↦ twice (filter bytes)
          ]
    where
      twice : (b : Bool) → b ≡ not (not b)
      twice b = ground arith

  answer-visit : (bytes : List ℕ) → answer bytes ≡ visit condition_filter visit_record bytes
  unfolding visit answer
  answer-visit bytes = refl

  seen-is_invisible : (rc : Rc) → seen rc ≡ not (is_invisible rc)
  unfolding is_invisible seen
  seen-is_invisible record_invisible = refl
  seen-is_invisible _ = refl

  -- What a fetch means: the record that it found, and what its iterator has still to hand out.
  abbrev pub Fetches :
      RecordPage → Option (Rc × Option ℕ × Iterator) → Rc × Option ℕ × List ℕ → Type 0
  Fetches p none picked = ⊥
  Fetches p (some (rc, slot, it)) picked = ((rc, slot, remaining p it) ≡ picked) × IsAt p it

  -- One round of the loop, once the later rounds are known.
  fetch_round :
      (p : RecordPage) (fuel slot : ℕ)
      → IsAt p (next p (some slot)).2
      → Fetches p
          (fetch_next_record_in_page condition_filter visit_record p fuel (next p (some slot)).2)
          (pick p (remaining p (next p (some slot)).2))
      → Fetches p
          (fetch_next_record_in_page condition_filter visit_record p (suc fuel) (some slot))
          (pick p (slot ∷ remaining p (next p (some slot)).2))
  unfolding fetch_next_record_in_page pick next
  fetch_round p fuel slot ok later =
      elim (Bool-cases (filtered_out condition_filter visit_record (record_at p slot))) [
        | inl out ↦ rw (passes-filtered_out (record_at p slot), out) later
        | inr kept ↦
            elim (Bool-cases
              (is_invisible (visit condition_filter visit_record (record_at p slot)))) [
                | inl hidden ↦
                    rw
                      (
                        passes-filtered_out (record_at p slot),
                        answer-visit (record_at p slot),
                        seen-is_invisible (visit condition_filter visit_record (record_at p slot)),
                        kept,
                        hidden,
                      )
                      later
                | inr shown ↦
                    rw
                      (
                        passes-filtered_out (record_at p slot),
                        answer-visit (record_at p slot),
                        seen-is_invisible (visit condition_filter visit_record (record_at p slot)),
                        kept,
                        shown,
                      )
                      (refl, ok)
              ]
      ]

  -- On an iterator that is set to an occupied slot or at the end, with more fuel than slots remain,
  -- `fetch_next_record_in_page` returns, and returns the first remaining record that passes the
  -- filter and is not invisible, or RECORD_EOF if there is none; its iterator then has exactly the
  -- slots behind that record before it.
  pub fetch_next_record_in_page-pick :
      (p : RecordPage) (fuel : ℕ) (it : Iterator)
      → IsAt p it
      → length (remaining p it) < fuel
      → Fetches p
          (fetch_next_record_in_page condition_filter visit_record p fuel it)
          (pick p (remaining p it))
  unfolding fetch_next_record_in_page pick
  fetch_next_record_in_page-pick p zero it ok lt = absurd (omega arith)
  fetch_next_record_in_page-pick p (suc fuel) none ok lt = (refl, tt)
  fetch_next_record_in_page-pick p (suc fuel) (some slot) ok lt =
      let (e, ok') = next-remaining p slot ok in
      subst
        (λ l.
          Fetches p
            (fetch_next_record_in_page condition_filter visit_record p (suc fuel) (some slot))
            (pick p l))
        (sym e)
        (fetch_round p fuel slot ok' (
          fetch_next_record_in_page-pick p fuel (next p (some slot)).2 ok'
            (omega (arith, ap length e))))
