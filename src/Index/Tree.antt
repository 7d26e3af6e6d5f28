-- ===== src/Index/Tree.antt =====
-- `BplusTreeHandler` of src/observer/storage/index/bplus_tree.cpp: the search and the insertion. Pages
-- are what they hold; the latches are left out. `none` stands for a failed assert, for a page that
-- is read as one of the other kind, and for fuel that ran out.
use landbase.Base.{
  ℕ, zero, suc, ◌-◌, Bool, true, Option, none, some, List, [], ◌∷◌, ltb, ◌==◌, if◌then◌else◌,
  length,
}
use landbase.Base.Int.{ℤ}
use landbase.Rc.{Rc, success, empty, bufferpool_invalid_page_num}
use landbase.Index.Key.{Rid, Key, Attr, attr_compare, key_compare}
use landbase.Index.Node.{Item, Node, leaf, insert_at, move_half_to, leaf_lookup, internal_lookup}

-- The parts of `IndexFileHeader` that the tree reads, `header_dirty_`, and the pages.
pub record BplusTree : Type 0 where
  pub root_page : Option ℕ
  pub internal_max_size : ℕ
  pub leaf_max_size : ℕ
  pub unique : Bool
  pub attrs : List Attr
  pub attr_length : ℕ
  pub header_dirty : Bool
  pub pages : ℕ → Option Node

abbrev pub set_page : BplusTree → ℕ → Option Node → BplusTree
set_page t p n = record t { pages = λ q. if p == q then n else t.pages q }

abbrev pub set_parent : Option ℕ → Node → Node
set_parent parent (leaf n) = leaf (record n { parent = parent })
set_parent parent (Node.internal n) = Node.internal (record n { parent = parent })

abbrev pub parent_of : Node → Option ℕ
parent_of (leaf n) = n.parent
parent_of (Node.internal n) = n.parent

unfoldable pub value_at : List (Item ℕ) → ℕ → Option ℕ
value_at [] i = none
value_at (x ∷ xs) zero = some x.value
value_at (x ∷ xs) (suc i) = value_at xs i

-- The loop of `find_leaf_internal` from a page, with the way to a child.
unfoldable pub find_leaf_loop :
    (List (Item ℕ) → Option ℕ) → (ℕ → Option Node) → ℕ → ℕ → Option (Rc × ℕ)
find_leaf_loop child_page_getter pages zero p = none
find_leaf_loop child_page_getter pages (suc fuel) p = elim (pages p) [
  | none ↦ some (bufferpool_invalid_page_num, p)
  | some (leaf n) ↦ some (success, p)
  | some (Node.internal n) ↦ elim (child_page_getter n.items) [
    | none ↦ none
    | some q ↦ find_leaf_loop child_page_getter pages fuel q
  ]
]

unfoldable pub find_leaf_internal : (List (Item ℕ) → Option ℕ) → BplusTree → ℕ → Option (Rc × ℕ)
find_leaf_internal child_page_getter t fuel = elim t.root_page [
  | none ↦ some (empty, 0)
  | some p ↦ find_leaf_loop child_page_getter t.pages fuel p
]

-- The way to the child whose range holds a key.
unfoldable pub child_of : (Key → Key → ℤ) → Key → List (Item ℕ) → Option ℕ
child_of cmp key xs = elim (internal_lookup cmp key xs) [
  | none ↦ none
  | some (index, insert_position) ↦ value_at xs index
]

unfoldable pub find_leaf : BplusTree → ℕ → Key → Option (Rc × ℕ)
find_leaf t fuel key = find_leaf_internal (child_of (key_compare t.attrs) key) t fuel

unfoldable pub left_most_page : BplusTree → ℕ → Option (Rc × ℕ)
left_most_page t fuel = find_leaf_internal (λ xs. value_at xs 0) t fuel

unfoldable pub update_root_page_num_locked : BplusTree → Option ℕ → BplusTree
update_root_page_num_locked t root = record t { root_page = root; header_dirty = true }

-- The children of some items get a page as their parent; nothing if one of them is not there.
unfoldable pub adopt : ℕ → List (Item ℕ) → BplusTree → Option BplusTree
adopt parent [] t = some t
adopt parent (x ∷ xs) t = elim (t.pages x.value) [
  | none ↦ none
  | some n ↦ adopt parent xs (set_page t x.value (some (set_parent (some parent) n)))
]

-- The comparison of attributes alone.
abbrev pub attrs_only : List Attr → Key → Key → ℤ
attrs_only types a b = attr_compare types a.attrs b.attrs

-- The lookup of `insert_entry_into_leaf_node`.
unfoldable pub insert_lookup : BplusTree → Key → List (Item Rid) → Option (ℕ × Bool)
insert_lookup t key xs =
    leaf_lookup (if t.unique then attrs_only t.attrs else key_compare t.attrs) key xs

-- The halves of a full leaf with the new item in one of them.
unfoldable pub insert_split : ℕ → Item Rid → List (Item Rid) → List (Item Rid) × List (Item Rid)
insert_split insert_position x xs =
    let (left, right) = move_half_to xs in
    if ltb insert_position (length left)
    then (insert_at insert_position x left, right)
    else (left, insert_at (insert_position - length left) x right)
