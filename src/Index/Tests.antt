-- ===== src/Index/Tests.antt =====
-- A tree of two leaves, and the theorems at it.
use mathlib.Core.Option.{some-injective, none-ne-some}
use landbase.Base.{
  subst, ℕ, zero, suc, ap, ◌∙◌, ◌+◌, ◌≡◌, ◌≢◌, ◌<◌, ◌≤◌, ◌⊎◌, refl, false, Option, none, some, List,
  [], ◌∷◌, arith, length, All, get_elem?, get_or,
}
use landbase.Base.Int.{ℤ, pos}
use landbase.Rc.{Rc, success, record_duplicate_key, record_not_exist}
use landbase.Log.Int32.{IsInt32}
use landbase.Index.Key.{Rid, Key, Attr, difference, attr_compare, key_compare, rid_compare, IsOrder}
use landbase.Index.Order.{AreOrders, difference-IsOrder, key_compare-IsOrder}
use landbase.Index.Node.{Item, LeafNode, Node, leaf, internal_lookup, key_or, min_size}
use landbase.Index.Sorted.{Lt, IsSorted}
use landbase.Lang.LowerBound.{lower_bound, search_loop}
use landbase.Index.Tree.{
  find_leaf_internal, find_leaf_loop, child_of, BplusTree, find_leaf, value_at,
}
use landbase.Index.Insert.{insert_entry, insert_entry_into_leaf_node, insert_entry_into_parent}
use landbase.Index.Delete.{head_key?, redistribute_items, coalesce_items}
use landbase.Index.Merge.{delete_entry, left_of, right_of}
use landbase.Index.Full.{IsSplit, insert_when_full}
use landbase.Index.Ranges.{lower, upper, TreeAt, Holds}
use landbase.Index.Find.{find_leaf_lem}
use landbase.Index.Insertion.{insert_entry_lem}
use landbase.Index.Deletion.{delete_entry_lem}
use landbase.Index.Balance.{right_place, redistribute_items_lem}

-- One attribute of one byte.
abbrev byte_compare : List ℕ → List ℕ → ℤ
byte_compare a b = difference (get_or a 0 0) (get_or b 0 0)

abbrev types : List Attr
types = record { attr_length = 1; compare = byte_compare } ∷ []

types-AreOrders : AreOrders types
types-AreOrders = (difference-IsOrder (λ a. get_or a 0 0), tt)

key_compare-IsOrder_example :
    IsOrder (key_compare types) × ((a b : Rid) → IsInt32 (rid_compare a b))
key_compare-IsOrder_example = key_compare-IsOrder types types-AreOrders

cmp-IsOrder : IsOrder (key_compare types)
cmp-IsOrder = (key_compare-IsOrder types types-AreOrders).0

-- The record of slot 2 of page 1.
abbrev some_rid : Rid
some_rid = record {
  page_num = record { number = 1; small = omega arith };
  slot_num = record { number = 2; small = omega arith };
}

abbrev item : ℕ → Item Rid
item b = record { key = record { attrs = b ∷ []; rid = some_rid }; value = some_rid }

abbrev left_leaf : LeafNode
left_leaf = record { parent = some 3; next_page = some 2; items = item 1 ∷ (item 3 ∷ []) }

abbrev right_leaf : LeafNode
right_leaf = record { parent = some 3; next_page = none; items = item 5 ∷ (item 7 ∷ (item 9 ∷ [])) }

abbrev pages : ℕ → Option Node
pages zero = none
pages (suc zero) = some (leaf left_leaf)
pages (suc (suc zero)) = some (leaf right_leaf)
pages (suc (suc (suc zero))) = some (
    Node.internal (record {
      parent = none;
      items =
          record { key = (item 0).key; value = 1 }
          ∷ (record { key = (item 5).key; value = 2 } ∷ []);
    }))
pages (suc (suc (suc (suc p)))) = none

abbrev small_tree : BplusTree
small_tree = record {
  root_page = some 3;
  internal_max_size = 4;
  leaf_max_size = 4;
  unique = false;
  attrs = types;
  attr_length = 1;
  header_dirty = false;
  pages = pages;
}

abbrev allocate : (ℕ → Option Node) → Option ℕ
allocate ps = some 4

abbrev root_items : List (Item ℕ)
root_items =
    record { key = (item 0).key; value = 1 } ∷ (record { key = (item 5).key; value = 2 } ∷ [])

abbrev cmp : Key → Key → ℤ
cmp = key_compare types

child_trees :
    (i c : ℕ)
    → value_at root_items i ≡ some c
    → TreeAt cmp pages 0 (pages c) (lower cmp none root_items i) (upper cmp none root_items i)
unfolding key_compare attr_compare rid_compare difference value_at
child_trees zero c e =
    subst (λ c. TreeAt cmp pages 0 (pages c) none (some (item 5).key)) (some-injective 1 c e)
      (omega arith, ((refl, tt), (tt, tt)), ((tt, refl), ((tt, refl), tt)))
child_trees (suc zero) c e =
    subst (λ c. TreeAt cmp pages 0 (pages c) (some (item 5).key) none) (some-injective 2 c e)
      (
        omega arith,
        ((refl, (refl, tt)), ((refl, tt), (tt, tt))),
        ((refl, tt), ((refl, tt), ((refl, tt), tt))),
      )
child_trees (suc (suc i)) c e = absurd (none-ne-some c e)

small_tree-TreeAt : TreeAt cmp pages 1 (pages 3) none none
small_tree-TreeAt = (((tt, tt), ((tt, tt), tt)), child_trees)

find_leaf_lem_example :
    (q : ℕ) × (n : LeafNode) × (find_leaf small_tree 2 (item 3).key ≡ some (success, q))
    × (pages q ≡ some (leaf n))
    × IsSorted cmp n.items
    × (1 ≤ length n.items)
    × ((x : Item Rid) (i : ℕ) → get_elem? n.items i ≡ some x → Holds cmp pages 1 (pages 3) x)
    × ((x : Item Rid)
        → cmp x.key (item 3).key ≡ pos 0
        → Holds cmp pages 1 (pages 3) x
        → (i : ℕ) × (get_elem? n.items i ≡ some x))
find_leaf_lem_example =
    find_leaf_lem small_tree (item 3).key 1 2 3 cmp-IsOrder refl small_tree-TreeAt (omega arith)

abbrev sizes : Option Node → ℕ
sizes (some (leaf n)) = length n.items
sizes o = 0

-- Every leaf of the small tree has room for one more item.
roomy :
    (q : ℕ) (n : LeafNode)
    → find_leaf small_tree 2 (item 4).key ≡ some (success, q)
    → pages q ≡ some (leaf n)
    → length n.items < 4
roomy zero n found page = absurd (none-ne-some (leaf n) page)
roomy (suc zero) n found page = omega (arith, ap sizes page)
roomy (suc (suc zero)) n found page = omega (arith, ap sizes page)
roomy (suc (suc (suc zero))) n found page = cc page
roomy (suc (suc (suc (suc q)))) n found page = absurd (none-ne-some (leaf n) page)

insert_entry_lem_example :
    (rc : Rc) × (t' : BplusTree) × (insert_entry allocate 2 small_tree (item 4) ≡ some (rc, t'))
    × (((rc ≡ record_duplicate_key)
          × (t' ≡ small_tree)
          × (z : Item Rid) × Holds cmp pages 1 (pages 3) z
          × (cmp z.key (item 4).key ≡ pos 0))
        ⊎ ((rc ≡ success)
            × TreeAt cmp t'.pages 1 (t'.pages 3) none none
            × Holds cmp t'.pages 1 (t'.pages 3) (item 4)
            × ((z : Item Rid) → Holds cmp pages 1 (pages 3) z → Holds cmp t'.pages 1 (t'.pages 3) z)
            × ((z : Item Rid)
                → z ≢ item 4
                → Holds cmp t'.pages 1 (t'.pages 3) z
                → Holds cmp pages 1 (pages 3) z)))
insert_entry_lem_example =
    insert_entry_lem allocate small_tree (item 4) 1 2 3 cmp-IsOrder refl refl small_tree-TreeAt
      (omega arith) roomy

all_sorted : IsSorted cmp (coalesce_items 0 right_leaf.items left_leaf.items)
unfolding coalesce_items key_compare attr_compare rid_compare difference
all_sorted = (
  (refl, (refl, (refl, (refl, tt)))),
  ((refl, (refl, (refl, tt))), ((refl, (refl, tt)), ((refl, tt), (tt, tt)))),
)

redistribute_items_lem_example :
    (neighbor' : List (Item Rid)) × (node' : List (Item Rid)) × (k : Key) × (redistribute_items 0
        right_leaf.items left_leaf.items
      ≡ (neighbor', node', right_place 0, some k))
    × (coalesce_items 0 neighbor' node' ≡ coalesce_items 0 right_leaf.items left_leaf.items)
    × (length neighbor' + 1 ≡ 3)
    × (length node' ≡ 2 + 1)
    × (head_key? (right_of 0 neighbor' node') ≡ some k)
    × All (λ x. Lt cmp x.key k) (left_of 0 neighbor' node')
redistribute_items_lem_example =
    redistribute_items_lem cmp 0 right_leaf.items left_leaf.items all_sorted (omega arith)

abbrev tight_tree : BplusTree
tight_tree = record small_tree { leaf_max_size = 2 }

left_sorted : IsSorted cmp left_leaf.items
unfolding key_compare attr_compare rid_compare difference
left_sorted = ((refl, tt), (tt, tt))

insert_when_full_example :
    ((insert_entry_into_leaf_node allocate 1 tight_tree 1 left_leaf (item 2)
        ≡ some (record_duplicate_key, tight_tree))
      × (i : ℕ) × (i < length left_leaf.items)
      × (cmp (key_or left_leaf.items i (item 2).key) (item 2).key ≡ pos 0))
    ⊎ (All (λ y. cmp y.key (item 2).key ≢ pos 0) left_leaf.items
        × (t' : BplusTree) × (separator : Key) × (left : List (Item Rid)) × (right : List
            (Item Rid))
        × (insert_entry_into_leaf_node allocate 1 tight_tree 1 left_leaf (item 2)
            ≡ insert_entry_into_parent allocate 1 t' 1 4 separator)
        × IsSplit allocate 1 tight_tree 1 left_leaf
            (item 2)
            cmp-IsOrder
            left_sorted
            t'
            4
            separator
            left
            right)
insert_when_full_example =
    insert_when_full allocate 1 tight_tree 1 left_leaf (item 2) cmp-IsOrder left_sorted 4
      (omega arith) (omega arith) refl (λ e. cc e)

seven_found : find_leaf small_tree 2 (item 7).key ≡ some (success, 2)
unfolding find_leaf find_leaf_internal find_leaf_loop child_of internal_lookup lower_bound
    search_loop value_at key_compare attr_compare rid_compare difference
seven_found = refl

above_least :
    (q : ℕ) (n : LeafNode)
    → find_leaf small_tree 2 (item 7).key ≡ some (success, q)
    → pages q ≡ some (leaf n)
    → min_size 4 < length n.items
unfolding min_size
above_least q n found page =
    let same : 2 ≡ q = cc (seven_found, found) in omega (arith, ap sizes (ap pages same ∙ page))

delete_entry_lem_example :
    (rc : Rc) × (t' : BplusTree) × (delete_entry 2 small_tree (item 7).key ≡ some (rc, t'))
    × (((rc ≡ record_not_exist)
          × (t' ≡ small_tree)
          × ((y : Item Rid) → Holds cmp pages 1 (pages 3) y → cmp y.key (item 7).key ≢ pos 0))
        ⊎ ((rc ≡ success)
            × TreeAt cmp t'.pages 1 (t'.pages 3) none none
            × ((y : Item Rid)
                → Holds cmp t'.pages 1 (t'.pages 3) y
                → cmp y.key (item 7).key ≢ pos 0)
            × (z : Item Rid) × Holds cmp pages 1 (pages 3) z
            × (cmp z.key (item 7).key ≡ pos 0)
            × ((y : Item Rid)
                → y ≢ z
                → Holds cmp pages 1 (pages 3) y
                → Holds cmp t'.pages 1 (t'.pages 3) y)
            × ((y : Item Rid)
                → Holds cmp t'.pages 1 (t'.pages 3) y
                → Holds cmp pages 1 (pages 3) y)))
delete_entry_lem_example =
    delete_entry_lem small_tree (item 7).key 1 2 3 cmp-IsOrder refl small_tree-TreeAt (omega arith)
      above_least (omega arith)
