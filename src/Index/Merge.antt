-- ===== src/Index/Merge.antt =====
-- `coalesce`, `coalesce_or_redistribute` and `delete_entry` of
-- src/observer/storage/index/bplus_tree.cpp.
use landbase.Base.{
  ℕ, zero, suc, ◌+◌, Bool, true, false, Option, none, some, List, ltb, leb, ◌==◌, length,
}
use landbase.Rc.{Rc, success, empty, bufferpool_invalid_page_num, record_not_exist, ob_succ}
use landbase.Index.Key.{Key, key_compare}
use landbase.Index.Node.{
  Item, LeafNode, InternalNode, Node, leaf, min_size, remove_at, leaf_remove, internal_lookup,
}
use landbase.Index.Tree.{BplusTree, set_page, parent_of, value_at, find_leaf, adopt}
use landbase.Index.Delete.{
  coalesce_items, coalesce_pages, adjust_root, size_of, max_of, last_key_of, redistribute,
}

-- Of two nodes, the left one, by the place of the first of them in the parent.
abbrev pub left_of : {A : Type 0} → ℕ → A → A → A
left_of zero neighbor node = node
left_of (suc i) neighbor node = neighbor

abbrev pub right_of : {A : Type 0} → ℕ → A → A → A
right_of zero neighbor node = neighbor
right_of (suc i) neighbor node = node

-- `coalesce` up to its last call: the right node's items go to the left node, its place goes out of
-- the parent, and its page is disposed of.
unfoldable pub coalesce : BplusTree → ℕ → Node → ℕ → Node → ℕ → InternalNode → ℕ → Option BplusTree
coalesce t p (leaf n) np (leaf m) pp parent index =
    let (left_page, right_page, place) = coalesce_pages index np p in
    let t1 =
      set_page t pp
        (some (Node.internal (record parent { items = remove_at place parent.items }))) in
    some (
      set_page
        (set_page t1 left_page (
          some (
            leaf (record (left_of index m n) {
              items = coalesce_items index m.items n.items;
              next_page = (right_of index m n).next_page;
            }))))
        right_page none)
coalesce t p (Node.internal n) np (Node.internal m) pp parent index =
    let (left_page, right_page, place) = coalesce_pages index np p in
    let t1 =
      set_page t pp
        (some (Node.internal (record parent { items = remove_at place parent.items }))) in
    elim (adopt left_page (right_of index m n).items t1) [
      | none ↦ none
      | some t2 ↦ some (
          set_page
            (set_page t2 left_page (
              some (
                Node.internal
                  (record (left_of index m n) { items = coalesce_items index m.items n.items }))))
            right_page none)
    ]
coalesce t p _ np _ pp parent index = none

-- The neighbor's place in the parent.
abbrev pub neighbor_place : ℕ → ℕ
neighbor_place zero = 1
neighbor_place (suc i) = i

-- The ASSERT that the lookup finds the page itself.
unfoldable pub is_child : ℕ → ℕ → List (Item ℕ) → Bool
is_child p index xs = elim (value_at xs index) [ none ↦ false | some c ↦ c == p ]

-- `coalesce_or_redistribute`, on the fuel of the levels above.
unfoldable pub coalesce_or_redistribute : ℕ → BplusTree → ℕ → Option (Rc × BplusTree)
coalesce_or_redistribute zero t p = none
coalesce_or_redistribute (suc fuel) t p = elim (t.pages p) [
  | none ↦ none
  | some node ↦ elim (leb (min_size (max_of t node)) (size_of node)) [
    | true ↦ some (success, t)
    | false ↦ elim (parent_of node) [
      | none ↦ elim (ltb 1 (size_of node)) [
        | true ↦ some (success, t)
        | false ↦ elim (adjust_root t p node) [ none ↦ none | some (rc, t') ↦ some (success, t') ]
      ]
      | some pp ↦ elim (t.pages pp) [
        | none ↦ some (bufferpool_invalid_page_num, t)
        | some (leaf l) ↦ none
        | some (Node.internal parent) ↦ elim (last_key_of node) [
          | none ↦ none
          | some key ↦ elim (internal_lookup (key_compare t.attrs) key parent.items) [
            | none ↦ none
            | some (index, position) ↦ elim (is_child p index parent.items) [
              | false ↦ none
              | true ↦ elim (value_at parent.items (neighbor_place index)) [
                | none ↦ none
                | some np ↦ elim (t.pages np) [
                  | none ↦ some (bufferpool_invalid_page_num, t)
                  | some neighbor ↦ elim (ltb (max_of t node) (size_of node + size_of neighbor)) [
                    | true ↦ redistribute t p node np neighbor pp parent index
                    | false ↦ elim (coalesce t p node np neighbor pp parent index) [
                      | none ↦ none
                      | some t' ↦ coalesce_or_redistribute fuel t' pp
                    ]
                  ]
                ]
              ]
            ]
          ]
        ]
      ]
    ]
  ]
]

unfoldable pub delete_entry_internal : ℕ → BplusTree → ℕ → LeafNode → Key → Option (Rc × BplusTree)
delete_entry_internal fuel t p n key = elim (leaf_remove (key_compare t.attrs) key n.items) [
  | none ↦ none
  | some (items, remove_count) ↦
      let t' = set_page t p (some (leaf (record n { items = items }))) in
      elim (remove_count == 0) [
        | true ↦ some (record_not_exist, t)
        | false ↦ elim (leb (min_size t.leaf_max_size) (length items)) [
          | true ↦ some (success, t')
          | false ↦ coalesce_or_redistribute fuel t' p
        ]
      ]
]

-- The code that `delete_entry` makes of the one of its search.
unfoldable pub not_found_code : Rc → Rc
not_found_code empty = record_not_exist
not_found_code rc = rc

-- `delete_entry`, with the key that `make_key` builds.
unfoldable pub delete_entry : ℕ → BplusTree → Key → Option (Rc × BplusTree)
delete_entry fuel t key = elim (find_leaf t fuel key) [
  | none ↦ none
  | some (rc, p) ↦ elim (ob_succ rc) [
    | false ↦ some (not_found_code rc, t)
    | true ↦ elim (t.pages p) [ some (leaf n) ↦ delete_entry_internal fuel t p n key | _ ↦ none ]
  ]
]
