-- ===== src/Index/Key.antt =====
-- `AttrComparator` and `KeyComparator` of src/observer/storage/index/bplus_tree.h, and `RID::compare`
-- of src/observer/storage/record/record.h.
use landbase.Base.{ℕ, ◌-◌, ◌^◌, ◌<◌, ◌≡◌, true, not, List, [], ◌∷◌, leb, if◌then◌else◌, take, drop}
use landbase.Base.Int.{ℤ, pos, negsuc, ltb_ℤ, leb_ℤ, eqb_ℤ}

-- An `int32_t` that is not negative, as the numbers of pages and slots of records are.
pub record NonNegative : Type 0 where
  pub number : ℕ
  pub small : number < 2 ^ 31

pub record Rid : Type 0 where
  pub page_num : NonNegative
  pub slot_num : NonNegative

-- The attributes' bytes, and the row id behind them.
pub record Key : Type 0 where
  pub attrs : List ℕ
  pub rid : Rid

-- The length of an attribute, and how its type compares two values.
pub record Attr : Type 0 where
  pub attr_length : ℕ
  pub compare : List ℕ → List ℕ → ℤ

-- `a - b` of two numbers below 2^31, which an `int` holds.
unfoldable pub difference : ℕ → ℕ → ℤ
difference a b = if leb b a then pos (a - b) else negsuc (b - a - 1)

-- `RID::compare`
unfoldable pub rid_compare : Rid → Rid → ℤ
rid_compare a b =
    let page_diff = difference a.page_num.number b.page_num.number in
    if not (eqb_ℤ page_diff (pos 0))
    then page_diff
    else difference a.slot_num.number b.slot_num.number

-- `AttrComparator::operator()`: attribute after attribute, until two differ.
unfoldable pub attr_compare : List Attr → List ℕ → List ℕ → ℤ
attr_compare [] v1 v2 = pos 0
attr_compare (a ∷ types) v1 v2 =
    let res = a.compare (take a.attr_length v1) (take a.attr_length v2) in
    if not (eqb_ℤ res (pos 0))
    then res
    else attr_compare types (drop a.attr_length v1) (drop a.attr_length v2)

-- `KeyComparator::operator()`
unfoldable pub key_compare : List Attr → Key → Key → ℤ
key_compare types k1 k2 =
    let result = attr_compare types k1.attrs k2.attrs in
    if not (eqb_ℤ result (pos 0)) then result else rid_compare k1.rid k2.rid

-- The laws of a comparison: `a` is below `b` as `b` is above `a`, and not being above is transitive.
pub record IsOrder {A : Type 0} (cmp : A → A → ℤ) : Type 0 where
  pub flip : (a b : A) → ltb_ℤ (cmp a b) (pos 0) ≡ ltb_ℤ (pos 0) (cmp b a)
  pub trans :
      (a b c : A)
      → leb_ℤ (cmp a b) (pos 0) ≡ true
      → leb_ℤ (cmp b c) (pos 0) ≡ true
      → leb_ℤ (cmp a c) (pos 0) ≡ true
