-- ===== src/Index/Balance.antt =====
-- The items that `redistribute` of src/observer/storage/index/bplus_tree.cpp moves between a node and its
-- neighbor.
use landbase.Base.{
  ℕ, zero, suc, ◌+◌, ◌-◌, ◌≤◌, ◌≡◌, refl, sym, ap, ◌∙◌, some, List, [], ◌∷◌, ◌++◌, append_assoc,
  arith, take, drop, length, length-append, length-take, length-drop, All,
}
use landbase.Base.Int.{ℤ}
use landbase.Index.Key.{Key}
use landbase.Index.Node.{Item, move_first_to_end, move_last_to_front}
use landbase.Index.Sorted.{Lt, IsSorted, All-map, take-drop, sorted_across}
use landbase.Index.Delete.{head_key?, redistribute_items, coalesce_items}
use landbase.Index.Merge.{left_of, right_of}

-- The place in the parent of the right one of the two nodes.
abbrev pub right_place : ℕ → ℕ
right_place zero = 1
right_place (suc i) = suc i

module _ (cmp : Key → Key → ℤ) {V : Type 0} where
  head_some :
      (left right : List (Item V))
      → 1 ≤ length right
      → IsSorted cmp (left ++ right)
      → (k : Key) × (head_key? right ≡ some k) × All (λ x. Lt cmp x.key k) left
  head_some left [] h sorted = absurd (omega arith)
  head_some left (y ∷ right) h sorted =
      (y.key, refl, All-map _ _ (λ x a. a.0) left (sorted_across cmp left (y ∷ right) sorted))

  -- The redistribution moves one item from a neighbor with two or more into the node: the two nodes
  -- hold the same items in the same order, and the key for the parent is the first of the right node,
  -- above every key of the left one.
  pub redistribute_items_lem :
      (index : ℕ) (neighbor node : List (Item V))
      → IsSorted cmp (coalesce_items index neighbor node)
      → 2 ≤ length neighbor
      → (neighbor' : List (Item V)) × (node' : List (Item V)) × (k : Key) × (redistribute_items
            index neighbor node
          ≡ (neighbor', node', right_place index, some k))
        × (coalesce_items index neighbor' node' ≡ coalesce_items index neighbor node)
        × (length neighbor' + 1 ≡ length neighbor)
        × (length node' ≡ length node + 1)
        × (head_key? (right_of index neighbor' node') ≡ some k)
        × All (λ x. Lt cmp x.key k) (left_of index neighbor' node')
  unfolding redistribute_items coalesce_items move_first_to_end move_last_to_front
  redistribute_items_lem zero [] node sorted h = absurd (omega arith)
  redistribute_items_lem zero (x ∷ neighbor) node sorted h =
      let join = append_assoc node (x ∷ []) neighbor in
      let (k, head, below) = head_some (node ++ (x ∷ [])) neighbor (omega arith) (rw join sorted) in
      (
        neighbor,
        node ++ (x ∷ []),
        k,
        rw (redistribute_items, move_first_to_end, head) refl,
        join,
        omega arith,
        length-append node (x ∷ []),
        head,
        below,
      )
  redistribute_items_lem (suc i) neighbor node sorted h =
      let last = length neighbor - 1 in
      let join : take last neighbor ++ (drop last neighbor ++ node) ≡ neighbor ++ node =
        sym (append_assoc (take last neighbor) (drop last neighbor) node)
        ∙ ap (λ l. l ++ node) (take-drop last neighbor) in
      let size = length-append (drop last neighbor) node in
      let dropped = length-drop last neighbor in
      let (k, head, below) =
        head_some (take last neighbor) (drop last neighbor ++ node) (omega arith)
          (rw join sorted) in
      (
        take last neighbor,
        drop last neighbor ++ node,
        k,
        rw (redistribute_items, move_last_to_front, head) refl,
        join,
        omega (arith, length-take last neighbor),
        omega arith,
        head,
        below,
      )
