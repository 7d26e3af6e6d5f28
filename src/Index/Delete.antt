-- ===== src/Index/Delete.antt =====
-- The deletion of `BplusTreeHandler` of src/observer/storage/index/bplus_tree.cpp. A page that is
-- disposed of is given back at once.
use landbase.Base.{
  ℕ, zero, suc, Option, none, some, List, [], ◌∷◌, ◌++◌, ltb, if◌then◌else◌, length,
}
use landbase.Rc.{Rc, success, bufferpool_invalid_page_num}
use landbase.Index.Key.{Key}
use landbase.Index.Node.{
  Item, InternalNode, Node, leaf, move_first_to_end, move_last_to_front, set_key_at,
}
use landbase.Index.Tree.{
  BplusTree, set_page, set_parent, value_at, update_root_page_num_locked, adopt,
}

module _ {V : Type 0} where
  abbrev pub head_key? : List (Item V) → Option Key
  head_key? [] = none
  head_key? (x ∷ xs) = some x.key

  -- `key_at(size() - 1)`
  abbrev pub last_key? : List (Item V) → Option Key
  last_key? [] = none
  last_key? (x ∷ []) = some x.key
  last_key? (x ∷ (y ∷ xs)) = last_key? (y ∷ xs)

  -- The moves of `redistribute`: the items of the neighbor and of the node, and the place and the key
  -- that are set in the parent. The neighbor is at the right of the first child, and at the left of
  -- any other.
  unfoldable pub redistribute_items :
      ℕ → List (Item V) → List (Item V) → List (Item V) × List (Item V) × ℕ × Option Key
  redistribute_items zero neighbor node =
      let (neighbor', node') = move_first_to_end neighbor node in
      (neighbor', node', 1, head_key? neighbor')
  redistribute_items (suc i) neighbor node =
      let (neighbor', node') = move_last_to_front neighbor node in
      (neighbor', node', suc i, head_key? node')

  -- The items of the left node and of the right one, in `coalesce`.
  unfoldable pub coalesce_items : ℕ → List (Item V) → List (Item V) → List (Item V)
  coalesce_items zero neighbor node = node ++ neighbor
  coalesce_items (suc i) neighbor node = neighbor ++ node

-- The left page and the right page, and the right one's place in the parent.
unfoldable pub coalesce_pages : ℕ → ℕ → ℕ → ℕ × ℕ × ℕ
coalesce_pages zero neighbor_page page = (page, neighbor_page, 1)
coalesce_pages (suc i) neighbor_page page = (neighbor_page, page, suc i)

-- `adjust_root`
unfoldable pub adjust_root : BplusTree → ℕ → Node → Option (Rc × BplusTree)
adjust_root t p (leaf n) =
    if ltb 0 (length n.items)
    then some (success, t)
    else some (success, set_page (update_root_page_num_locked t none) p none)
adjust_root t p (Node.internal n) = elim (value_at n.items 0) [
  | none ↦ none
  | some c ↦ elim (t.pages c) [
    | none ↦ some (bufferpool_invalid_page_num, t)
    | some child ↦ some (
      success,
      set_page (update_root_page_num_locked (set_page t c (some (set_parent none child))) (some c))
          p none,
    )
  ]
]

abbrev pub size_of : Node → ℕ
size_of (leaf n) = length n.items
size_of (Node.internal n) = length n.items

abbrev pub max_of : BplusTree → Node → ℕ
max_of t (leaf n) = t.leaf_max_size
max_of t (Node.internal n) = t.internal_max_size

abbrev pub last_key_of : Node → Option Key
last_key_of (leaf n) = last_key? n.items
last_key_of (Node.internal n) = last_key? n.items

-- The parent after `set_key_at`.
unfoldable pub set_separator : BplusTree → ℕ → InternalNode → ℕ → Option Key → Option BplusTree
set_separator t pp parent place none = none
set_separator t pp parent place (some key) = some (
    set_page t pp
      (some (Node.internal (record parent { items = set_key_at place key parent.items }))))

-- The child that moved into the node gets it as its parent.
unfoldable pub adopt_moved : ℕ → ℕ → List (Item ℕ) → BplusTree → Option BplusTree
adopt_moved zero p neighbor t = elim neighbor [ [] ↦ none | x ∷ xs ↦ adopt p (x ∷ []) t ]
adopt_moved (suc i) p neighbor t = adopt p ((move_last_to_front neighbor []).1) t

-- `redistribute`, of a node at `p`, its neighbor at `np` and their parent at `pp`.
unfoldable pub redistribute :
    BplusTree → ℕ → Node → ℕ → Node → ℕ → InternalNode → ℕ → Option (Rc × BplusTree)
redistribute t p (leaf n) np (leaf m) pp parent index =
    let (neighbor, node, place, key) = redistribute_items index m.items n.items in
    let t1 = set_page t np (some (leaf (record m { items = neighbor }))) in
    let t2 = set_page t1 p (some (leaf (record n { items = node }))) in
    elim (set_separator t2 pp parent place key) [ none ↦ none | some t3 ↦ some (success, t3) ]
redistribute t p (Node.internal n) np (Node.internal m) pp parent index =
    let (neighbor, node, place, key) = redistribute_items index m.items n.items in
    let t1 = set_page t np (some (Node.internal (record m { items = neighbor }))) in
    let t2 = set_page t1 p (some (Node.internal (record n { items = node }))) in
    elim (adopt_moved index p m.items t2) [
      | none ↦ none
      | some t3 ↦ elim (set_separator t3 pp parent place key) [
        | none ↦ none
        | some t4 ↦ some (success, t4)
      ]
    ]
redistribute t p _ np _ pp parent index = none
