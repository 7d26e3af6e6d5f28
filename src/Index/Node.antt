-- ===== src/Index/Node.antt =====
-- The nodes of a B+ tree: `IndexNodeHandler`, `LeafIndexNodeHandler` and `InternalIndexNodeHandler` of
-- src/observer/storage/index/bplus_tree.h and src/observer/storage/index/bplus_tree.cpp.
use landbase.Base.{
  arith, ℕ, zero, suc, ◌+◌, ◌-◌, ◌/◌, ◌^◌, Bool, true, false, Option, none, some, List, [], ◌∷◌,
  ◌++◌, ltb, leb, if◌then◌else◌, take, drop, replicate, length, ◌||◌, ◌==◌,
}
use landbase.Base.Int.{ℤ, pos, ltb_ℤ}
use landbase.Index.Key.{Rid, Key}
use landbase.Lang.LowerBound.{lower_bound}

-- An item of a node: a key with a row id, or with the page of a child.
pub record Item (V : Type 0) : Type 0 where
  pub key : Key
  pub value : V

-- A page that is not there, `BP_INVALID_PAGE_NUM`, is `none`.
pub record LeafNode : Type 0 where
  pub parent : Option ℕ
  pub next_page : Option ℕ
  pub items : List (Item Rid)

pub record InternalNode : Type 0 where
  pub parent : Option ℕ
  pub items : List (Item ℕ)

pub data Node : Type 0 where
  leaf : LeafNode → Node
  internal : InternalNode → Node

-- `BP_PAGE_DATA_SIZE`, and the sizes of a row id, of a page number and of the two headers.
abbrev pub page_data_size : ℕ
page_data_size = 2 ^ 19 - 4 - 4

abbrev pub rid_size : ℕ
rid_size = 8

abbrev pub page_num_size : ℕ
page_num_size = 4

abbrev pub internal_header_size : ℕ
internal_header_size = 12

abbrev pub leaf_header_size : ℕ
leaf_header_size = 12 + 4

unfoldable pub calc_internal_page_capacity : ℕ → ℕ
calc_internal_page_capacity attr_length =
    let item_size = attr_length + rid_size + page_num_size in
    (page_data_size - internal_header_size) / item_size

unfoldable pub calc_leaf_page_capacity : ℕ → ℕ
calc_leaf_page_capacity attr_length =
    let item_size = attr_length + rid_size + rid_size in
    (page_data_size - leaf_header_size) / item_size

unfoldable pub min_size : ℕ → ℕ
min_size max = max - max / 2

pub data OperationType : Type 0 where
  read insert delete : OperationType

-- `is_safe` of a node of so many items.
unfoldable pub is_safe : OperationType → Bool → Bool → ℕ → ℕ → Bool
is_safe read is_root is_leaf size max = true
is_safe insert is_root is_leaf size max = ltb size max
is_safe delete true true size max = ltb 1 size
is_safe delete true false size max = ltb 2 size
is_safe delete false is_leaf size max = ltb (min_size max) size

module _ {V : Type 0} where
  -- The key at a place, or a given one behind the last.
  abbrev pub key_or : List (Item V) → ℕ → Key → Key
  key_or [] i d = d
  key_or (x ∷ xs) zero d = x.key
  key_or (x ∷ xs) (suc i) d = key_or xs i d

  -- `insert(index, key, value)`
  unfoldable pub insert_at : ℕ → Item V → List (Item V) → List (Item V)
  insert_at index x xs = take index xs ++ (x ∷ drop index xs)

  -- `remove(index)`
  unfoldable pub remove_at : ℕ → List (Item V) → List (Item V)
  remove_at index xs = take index xs ++ drop (suc index) xs

  -- `move_half_to`: what stays, and what moves.
  unfoldable pub move_half_to : List (Item V) → List (Item V) × List (Item V)
  move_half_to xs = let move_index = length xs / 2 in (take move_index xs, drop move_index xs)

  -- `move_first_to_end`: the node and the other one, from one that has items.
  unfoldable pub move_first_to_end : List (Item V) → List (Item V) → List (Item V) × List (Item V)
  move_first_to_end [] other = ([], other)
  move_first_to_end (x ∷ xs) other = (xs, other ++ (x ∷ []))

  -- `move_last_to_front`
  unfoldable pub move_last_to_front : List (Item V) → List (Item V) → List (Item V) × List (Item V)
  move_last_to_front xs other = let last = length xs - 1 in (take last xs, drop last xs ++ other)

  -- `set_key_at`
  unfoldable pub set_key_at : ℕ → Key → List (Item V) → List (Item V)
  set_key_at index key [] = []
  set_key_at zero key (x ∷ xs) = record x { key = key } ∷ xs
  set_key_at (suc index) key (x ∷ xs) = x ∷ set_key_at index key xs

module _ (cmp : Key → Key → ℤ) where
  -- `LeafIndexNodeHandler::lookup`
  unfoldable pub leaf_lookup : Key → List (Item Rid) → Option (ℕ × Bool)
  leaf_lookup key xs = lower_bound (λ k. cmp k key) (λ i. key_or xs i key) (length xs)

  -- `LeafIndexNodeHandler::remove(key)`: the items and how many were removed.
  unfoldable pub leaf_remove : Key → List (Item Rid) → Option (List (Item Rid) × ℕ)
  leaf_remove key xs = elim (leaf_lookup key xs) [
    | none ↦ none
    | some (index, true) ↦ some (remove_at index xs, 1)
    | some (index, false) ↦ some (xs, 0)
  ]

  -- `InternalIndexNodeHandler::lookup`: the child to go to, and where a new key belongs.
  unfoldable pub internal_lookup : Key → List (Item ℕ) → Option (ℕ × ℕ)
  internal_lookup key [] = some (0, 1)
  internal_lookup key (x ∷ xs) =
      elim (lower_bound (λ k. cmp k key) (λ i. key_or xs i key) (length xs)) [
        | none ↦ none
        | some (r, found) ↦
            let ret = suc r in
            some (
              if leb (length (x ∷ xs)) ret || ltb_ℤ (cmp key (key_or (x ∷ xs) ret key)) (pos 0)
                  then ret - 1
                  else ret,
              ret,
            )
      ]

  -- `InternalIndexNodeHandler::insert`
  unfoldable pub internal_insert : Key → ℕ → List (Item ℕ) → Option (List (Item ℕ))
  internal_insert key page_num xs = elim (internal_lookup key xs) [
    | none ↦ none
    | some (ret, insert_position) ↦
        some (insert_at insert_position (record { key = key; value = page_num }) xs)
  ]

-- `value_index`
unfoldable pub value_index : ℕ → List (Item ℕ) → Option ℕ
value_index page_num [] = none
value_index page_num (x ∷ xs) =
    if page_num == x.value
    then some 0
    else elim (value_index page_num xs) [ none ↦ none | some i ↦ some (suc i) ]

-- A key of bytes 0, whose attributes have so many.
abbrev pub zero_key : ℕ → Key
zero_key attr_length = record {
  attrs = replicate attr_length 0;
  rid = record {
    page_num = record { number = 0; small = omega arith };
    slot_num = record { number = 0; small = omega arith };
  };
}

-- `create_new_root`
unfoldable pub create_new_root : ℕ → ℕ → Key → ℕ → List (Item ℕ)
create_new_root attr_length first_page_num key page_num =
    record { key = zero_key attr_length; value = first_page_num }
    ∷ (record { key = key; value = page_num } ∷ [])
