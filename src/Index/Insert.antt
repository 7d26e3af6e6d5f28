-- ===== src/Index/Insert.antt =====
-- The insertion of `BplusTreeHandler` of src/observer/storage/index/bplus_tree.cpp. The page that the
-- buffer pool allocates is a parameter.
use landbase.Base.{ℕ, zero, suc, true, false, Option, none, some, List, [], ◌∷◌, ltb, length}
use landbase.Base.Int.{pos, ltb_ℤ}
use landbase.Rc.{
  Rc, success, bufferpool_nobuf, bufferpool_invalid_page_num, record_duplicate_key, ob_succ,
}
use landbase.Index.Key.{Rid, Key, key_compare}
use landbase.Index.Node.{
  Item, LeafNode, InternalNode, Node, leaf, insert_at, move_half_to, internal_insert,
  create_new_root,
}
use landbase.Index.Tree.{
  BplusTree, set_page, set_parent, parent_of, find_leaf, update_root_page_num_locked, adopt,
  insert_lookup, insert_split,
}

abbrev pub first_key : List (Item ℕ) → Option Key
first_key [] = none
first_key (x ∷ xs) = some x.key

abbrev pub first_leaf_key : List (Item Rid) → Option Key
first_leaf_key [] = none
first_leaf_key (x ∷ xs) = some x.key

-- The two halves of node `n` at the pages `p` and `r`, and the parent of the page `q`.
abbrev pub halves :
    BplusTree → ℕ → InternalNode → List (Item ℕ) → ℕ → List (Item ℕ) → ℕ → Node → ℕ → BplusTree
halves t p n left r right q m parent =
    set_page
      (set_page (set_page t p (some (Node.internal (record n { items = left })))) r
        (some (Node.internal (record { parent = n.parent; items = right }))))
      q (some (set_parent (some parent) m))

-- `allocate_page` of the buffer pool, from the pages that are in use.
module _ (allocate_page : (ℕ → Option Node) → Option ℕ) where
  -- `insert_entry_into_parent` of a root: a new root over the page and the new page.
  unfoldable pub grow_root : BplusTree → ℕ → Node → ℕ → Node → Key → Option (Rc × BplusTree)
  grow_root t p n q m key = elim (allocate_page t.pages) [
    | none ↦ some (bufferpool_nobuf, t)
    | some r ↦
        let root : InternalNode = record {
          parent = none;
          items = create_new_root t.attr_length p key q;
        } in
        let t1 = set_page t r (some (Node.internal root)) in
        let t2 = set_page t1 p (some (set_parent (some r) n)) in
        let t3 = set_page t2 q (some (set_parent (some r) m)) in
        some (success, update_root_page_num_locked t3 (some r))
  ]

  -- The split of a full internal node and the new key in one of its halves: the tree, and the first
  -- key of the new node.
  unfoldable pub split_internal :
      BplusTree → ℕ → InternalNode → ℕ → ℕ → Node → Key → Option (BplusTree × Key)
  split_internal t p n r q m key =
      let (left, right) = move_half_to n.items in
      elim (first_key right) [
        | none ↦ none
        | some separator ↦ elim (adopt r right t) [
          | none ↦ none
          | some t1 ↦ elim (ltb_ℤ (pos 0) (key_compare t.attrs key separator)) [
            | true ↦ elim (internal_insert (key_compare t.attrs) key q right) [
              | none ↦ none
              | some right' ↦ some (halves t1 p n left r right' q m r, separator)
            ]
            | false ↦ elim (internal_insert (key_compare t.attrs) key q left) [
              | none ↦ none
              | some left' ↦ some (halves t1 p n left' r right q m p, separator)
            ]
          ]
        ]
      ]

  -- `insert_entry_into_parent`, for a page, the new page beside it and the new page's first key; on
  -- the fuel of the levels above.
  unfoldable pub insert_entry_into_parent : ℕ → BplusTree → ℕ → ℕ → Key → Option (Rc × BplusTree)
  insert_entry_into_parent zero t p q key = none
  insert_entry_into_parent (suc fuel) t p q key = elim (t.pages p) [
    | none ↦ none
    | some n ↦ elim (t.pages q) [
      | none ↦ none
      | some m ↦ elim (parent_of n) [
        | none ↦ grow_root t p n q m key
        | some parent ↦ elim (t.pages parent) [
          | none ↦ some (bufferpool_invalid_page_num, t)
          | some (leaf l) ↦ none
          | some (Node.internal node) ↦ elim (ltb (length node.items) t.internal_max_size) [
            | true ↦ elim (internal_insert (key_compare t.attrs) key q node.items) [
              | none ↦ none
              | some items ↦ some (
                success,
                set_page (set_page t parent (some (Node.internal (record node { items = items }))))
                    q (some (set_parent (some parent) m)),
              )
            ]
            | false ↦ elim (allocate_page t.pages) [
              | none ↦ some (bufferpool_nobuf, t)
              | some r ↦ elim (split_internal t parent node r q m key) [
                | none ↦ none
                | some (t', separator) ↦ insert_entry_into_parent fuel t' parent r separator
              ]
            ]
          ]
        ]
      ]
    ]
  ]

  -- `insert_entry_into_leaf_node`
  unfoldable pub insert_entry_into_leaf_node :
      ℕ → BplusTree → ℕ → LeafNode → Item Rid → Option (Rc × BplusTree)
  insert_entry_into_leaf_node fuel t p n x = elim (insert_lookup t x.key n.items) [
    | none ↦ none
    | some (insert_position, true) ↦ some (record_duplicate_key, t)
    | some (insert_position, false) ↦ elim (ltb (length n.items) t.leaf_max_size) [
      | true ↦ some (
        success,
        set_page t p (some (leaf (record n { items = insert_at insert_position x n.items }))),
      )
      | false ↦ elim (allocate_page t.pages) [
        | none ↦ some (bufferpool_nobuf, t)
        | some q ↦
            let (left, right) = insert_split insert_position x n.items in
            let new : LeafNode = record {
              parent = n.parent;
              next_page = n.next_page;
              items = right;
            } in
            let old : LeafNode = record { parent = n.parent; next_page = some q; items = left } in
            elim (first_leaf_key right) [
              | none ↦ none
              | some separator ↦
                  insert_entry_into_parent fuel
                    (set_page (set_page t q (some (leaf new))) p (some (leaf old))) p q separator
            ]
      ]
    ]
  ]

  unfoldable pub create_new_tree : BplusTree → Item Rid → Rc × BplusTree
  create_new_tree t x = elim t.root_page [
    | some r ↦ (Rc.internal, t)
    | none ↦ elim (allocate_page t.pages) [
      | none ↦ (bufferpool_nobuf, t)
      | some p ↦
          let n : LeafNode = record { parent = none; next_page = none; items = insert_at 0 x [] } in
          (success, set_page (update_root_page_num_locked t (some p)) p (some (leaf n)))
    ]
  ]

  -- `insert_entry`, with the key that `make_key` builds.
  unfoldable pub insert_entry : ℕ → BplusTree → Item Rid → Option (Rc × BplusTree)
  insert_entry fuel t x = elim t.root_page [
    | none ↦ some (create_new_tree t x)
    | some r ↦ elim (find_leaf t fuel x.key) [
      | none ↦ none
      | some (rc, p) ↦ elim (ob_succ rc) [
        | false ↦ some (rc, t)
        | true ↦ elim (t.pages p) [
          | some (leaf n) ↦ insert_entry_into_leaf_node fuel t p n x
          | _ ↦ none
        ]
      ]
    ]
  ]
