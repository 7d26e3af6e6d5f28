-- ===== src/Index/Order.antt =====
-- The comparisons of src/observer/storage/index/bplus_tree.h are orders, if those of the attributes'
-- types are.
use landbase.Base.{
  ℕ, ◌^◌, ◌<◌, ◌≡◌, refl, sym, ◌∙◌, inl, inr, true, false, not, List, [], ◌∷◌, arith, leb,
  if◌then◌else◌, Bool-cases, take, drop,
}
use landbase.Base.Int.{ℤ, pos, ltb_ℤ, leb_ℤ, eqb_ℤ}
use landbase.Log.Int32.{IsInt32}
use landbase.Index.Key.{Rid, Attr, difference, rid_compare, attr_compare, key_compare, IsOrder}

abbrev lex : ℤ → ℤ → ℤ
lex r s = if not (eqb_ℤ r (pos 0)) then r else s

lex_flip :
    (r s r' s' : ℤ)
    → ltb_ℤ r (pos 0) ≡ ltb_ℤ (pos 0) r'
    → ltb_ℤ r' (pos 0) ≡ ltb_ℤ (pos 0) r
    → ltb_ℤ s (pos 0) ≡ ltb_ℤ (pos 0) s'
    → ltb_ℤ (lex r s) (pos 0) ≡ ltb_ℤ (pos 0) (lex r' s')
lex_flip r s r' s' e f g = ground (arith, e, f, g)

lex_le : (r s : ℤ) → leb_ℤ (lex r s) (pos 0) ≡ true → leb_ℤ r (pos 0) ≡ true
lex_le r s h = ground (arith, h)

zero_of : (r : ℤ) → leb_ℤ r (pos 0) ≡ true → ltb_ℤ r (pos 0) ≡ false → eqb_ℤ r (pos 0) ≡ true
zero_of r h k = ground (arith, h, k)

lex_second : (r s : ℤ) → eqb_ℤ r (pos 0) ≡ true → leb_ℤ (lex r s) (pos 0) ≡ leb_ℤ s (pos 0)
lex_second r s h = rw h refl

module _ {A : Type 0} (c : A → A → ℤ) (h : IsOrder c) where
  -- What is not below is above or equal.
  pub turn : (a b : A) → ltb_ℤ (c a b) (pos 0) ≡ false → leb_ℤ (c b a) (pos 0) ≡ true
  turn a b e = ground (arith, e, h.flip a b)

  not_below : (a b : A) → leb_ℤ (c a b) (pos 0) ≡ true → ltb_ℤ (c b a) (pos 0) ≡ false
  not_below a b e = ground (arith, e, h.flip b a)

  pub lt_le_trans :
      (a b d : A)
      → ltb_ℤ (c a b) (pos 0) ≡ true
      → leb_ℤ (c b d) (pos 0) ≡ true
      → ltb_ℤ (c a d) (pos 0) ≡ true
  lt_le_trans a b d e f = elim (Bool-cases (ltb_ℤ (c a d) (pos 0))) [
    | inl yes' ↦ yes'
    | inr no' ↦ absurd (ground (arith, e, not_below b a (h.trans b d a f (turn a d no'))))
  ]

  pub le_lt_trans :
      (a b d : A)
      → leb_ℤ (c a b) (pos 0) ≡ true
      → ltb_ℤ (c b d) (pos 0) ≡ true
      → ltb_ℤ (c a d) (pos 0) ≡ true
  le_lt_trans a b d e f = elim (Bool-cases (ltb_ℤ (c a d) (pos 0))) [
    | inl yes' ↦ yes'
    | inr no' ↦ absurd (ground (arith, f, not_below d b (h.trans d a b (turn a d no') e)))
  ]

  pub lt_le : (a b : A) → ltb_ℤ (c a b) (pos 0) ≡ true → leb_ℤ (c a b) (pos 0) ≡ true
  lt_le a b e = ground (arith, e)

lex-IsOrder :
    {A : Type 0} (c d : A → A → ℤ) → IsOrder c → IsOrder d → IsOrder (λ a b. lex (c a b) (d a b))
lex-IsOrder c d h k = record {
  flip = λ a b. lex_flip (c a b) (d a b) (c b a) (d b a) (h.flip a b) (h.flip b a) (k.flip a b);
  trans = λ a b e p q.
      let ab = lex_le (c a b) (d a b) p in
      let be = lex_le (c b e) (d b e) q in
      let ae = h.trans a b e ab be in
      elim (Bool-cases (ltb_ℤ (c a e) (pos 0))) [
        | inl below ↦ ground (arith, below)
        | inr level ↦
            let ea = turn c h a e level in
            let ba = h.trans b e a be ea in
            let eb = h.trans e a b ea ab in
            let ab0 = zero_of (c a b) ab (not_below c h b a ba) in
            let be0 = zero_of (c b e) be (not_below c h e b eb) in
            let ae0 = zero_of (c a e) ae level in
            lex_second (c a e) (d a e) ae0
            ∙ k.trans a b e (sym (lex_second (c a b) (d a b) ab0) ∙ p)
                (sym (lex_second (c b e) (d b e) be0) ∙ q)
      ];
}

pub difference-IsOrder : {A : Type 0} (f : A → ℕ) → IsOrder (λ a b. difference (f a) (f b))
unfolding difference
difference-IsOrder f = record {
  flip = λ a b. turned (f a) (f b);
  trans = λ a b c h k. chained (f a) (f b) (f c) h k;
}
  where
    turned : (x y : ℕ) → ltb_ℤ (difference x y) (pos 0) ≡ ltb_ℤ (pos 0) (difference y x)
    turned x y = ground arith

    chained :
        (x y z : ℕ)
        → leb_ℤ (difference x y) (pos 0) ≡ true
        → leb_ℤ (difference y z) (pos 0) ≡ true
        → leb_ℤ (difference x z) (pos 0) ≡ true
    chained x y z h k = ground (arith, h, k)

rid_compare-IsOrder : IsOrder rid_compare
unfolding rid_compare
rid_compare-IsOrder =
    lex-IsOrder (λ a b. difference a.page_num.number b.page_num.number)
      (λ a b. difference a.slot_num.number b.slot_num.number)
      (difference-IsOrder (λ r. r.page_num.number)) (difference-IsOrder (λ r. r.slot_num.number))

difference-IsInt32 : (a b : ℕ) → a < 2 ^ 31 → b < 2 ^ 31 → IsInt32 (difference a b)
unfolding difference
difference-IsInt32 a b h k = elim (Bool-cases (leb b a)) [
  | inl le ↦ rw le (omega arith)
  | inr gt ↦ rw gt (omega arith)
]

rid_compare-IsInt32 : (a b : Rid) → IsInt32 (rid_compare a b)
unfolding rid_compare
rid_compare-IsInt32 a b =
    elim (Bool-cases (eqb_ℤ (difference a.page_num.number b.page_num.number) (pos 0))) [
      | inl same ↦
          rw same (
            difference-IsInt32 a.slot_num.number b.slot_num.number a.slot_num.small
              b.slot_num.small)
      | inr differ ↦
          rw differ (
            difference-IsInt32 a.page_num.number b.page_num.number a.page_num.small
              b.page_num.small)
    ]

pulled-IsOrder :
    {A B : Type 0} (c : A → A → ℤ) (f : B → A) → IsOrder c → IsOrder (λ a b. c (f a) (f b))
pulled-IsOrder c f h = record {
  flip = λ a b. h.flip (f a) (f b);
  trans = λ a b e. h.trans (f a) (f b) (f e);
}

-- The types of the attributes compare by orders.
abbrev pub AreOrders : List Attr → Type 0
AreOrders [] = Unit
AreOrders (a ∷ types) = IsOrder a.compare × AreOrders types

-- The comparison of attribute after attribute is an order, if that of each attribute is.
pub attr_compare-IsOrder : (types : List Attr) → AreOrders types → IsOrder (attr_compare types)
unfolding attr_compare
attr_compare-IsOrder [] h = record { flip = λ a b. refl; trans = λ a b c p q. refl }
attr_compare-IsOrder (a ∷ types) (h, hs) =
    lex-IsOrder (λ x y. a.compare (take a.attr_length x) (take a.attr_length y))
      (λ x y. attr_compare types (drop a.attr_length x) (drop a.attr_length y))
      (pulled-IsOrder a.compare (take a.attr_length) h)
      (pulled-IsOrder (attr_compare types) (drop a.attr_length) (attr_compare-IsOrder types hs))

-- The comparison of keys, attributes first and then row ids, is an order, if that of each attribute's
-- type is; and on row ids, whose numbers are not negative, no subtraction of it leaves the range of
-- an `int`.
pub key_compare-IsOrder :
    (types : List Attr)
    → AreOrders types
    → IsOrder (key_compare types) × ((a b : Rid) → IsInt32 (rid_compare a b))
unfolding key_compare
key_compare-IsOrder types h = (
  lex-IsOrder (λ x y. attr_compare types x.attrs y.attrs) (λ x y. rid_compare x.rid y.rid)
      (pulled-IsOrder (attr_compare types) (λ x. x.attrs) (attr_compare-IsOrder types h))
      (pulled-IsOrder rid_compare (λ x. x.rid) rid_compare-IsOrder),
  rid_compare-IsInt32,
)
