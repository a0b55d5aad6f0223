-- ===== src/Tests/Splay.antt =====
-- libs/ntdll/splay.c on a table of numbers.
use Prim.Native.Nat.{compare, Ordering}
use nloader.Base.{◌≡◌, ◌⊎◌, refl, true, false, Option, some, none, [], ◌∷◌, ℕ, suc, arith, length}
use nloader.Splay.{Compared, less_than, greater_than, equal, Item, Tree, nil, node, splay}
use nloader.Splay.Loop.{IsOrder, IsSplayed, splay-IsSplayed, inorder}
use nloader.Splay.Table.{Table, done, fault, insert, lookup, delete}
use nloader.Splay.Contains.{contains}
use nloader.Splay.Valid.{IsValid}
use nloader.Splay.Insert.{IsInserted, insert-IsInserted}
use nloader.Splay.Lookup.{lookup-contains}
use nloader.Splay.Delete.{delete-present, IsDeleted, IsLast}
use nloader.Splay.Enumerate.{walk, walk-insert_order}

abbrev compare_numbers : ℕ → ℕ → Compared
compare_numbers a b = elim (compare a b) [
  | Ordering.lt ↦ less_than
  | Ordering.gt ↦ greater_than
  | Ordering.eq ↦ equal
]

compare_numbers-IsOrder : IsOrder compare_numbers
compare_numbers-IsOrder = record {
  less_trans = λ a b c p q. ground arith;
  greater_iff = λ a b. ground arith;
  equal_symm = λ a b p. ground arith;
  equal_less = λ a b c p q. ground arith;
}

abbrev item : ℕ → ℕ → Item ℕ
item a n = record { address = a; body = n }

-- 5 was inserted first, at 100, then 3, at 200.
abbrev two_nodes : Table ℕ
two_nodes = record {
  root = node nil (item 200 3) (node nil (item 100 5) nil);
  insert_order = 100 ∷ 200 ∷ [];
  ordered_pointer = none;
  which_ordered_element = 0;
  number_of_elements = 2;
}

two_nodes-IsValid : IsValid compare_numbers two_nodes
two_nodes-IsValid = record {
  sorted = ((refl, tt), (tt, tt));
  chained = λ a. ground arith;
  distinct = λ a. ground arith;
  counted = refl;
  bounded = omega arith;
}

four-absent : contains compare_numbers 4 (inorder two_nodes.root) ≡ false
unfolding contains
four-absent = refl

three-present : contains compare_numbers 3 (inorder two_nodes.root) ≡ true
unfolding contains
three-present = refl

splay-IsSplayed_example :
    IsSplayed compare_numbers 4 (inorder two_nodes.root) (splay compare_numbers 4 two_nodes.root)
splay-IsSplayed_example =
    splay-IsSplayed compare_numbers 4 compare_numbers-IsOrder nil (item 200 3)
      (node nil (item 100 5) nil) two_nodes-IsValid.sorted

insert-IsInserted_example :
    IsInserted compare_numbers
      (item 300 4)
      two_nodes
      (insert compare_numbers 4 (some 300) two_nodes)
insert-IsInserted_example =
    insert-IsInserted compare_numbers compare_numbers-IsOrder 4 300 two_nodes two_nodes-IsValid
      four-absent refl (omega arith)

lookup-contains_example :
    (root : Tree ℕ) × (found : Option ℕ) × (lookup compare_numbers 4 two_nodes
      ≡ done (record two_nodes { root = root }, found))
    × (inorder root ≡ inorder two_nodes.root)
    × IsValid compare_numbers (record two_nodes { root = root })
    × ((contains compare_numbers 4 (inorder two_nodes.root) ≡ false) × (found ≡ none)
        ⊎ ((l : Tree ℕ) × (x : Item ℕ) × (r : Tree ℕ) × (root ≡ node l x r)
            × (compare_numbers 4 x.body ≡ equal)
            × (found ≡ some x.address)))
lookup-contains_example =
    lookup-contains compare_numbers compare_numbers-IsOrder 4 two_nodes two_nodes-IsValid

delete-present_example :
    IsDeleted compare_numbers 3 two_nodes (delete compare_numbers 3 two_nodes)
    ⊎ IsLast compare_numbers 3 two_nodes (delete compare_numbers 3 two_nodes)
delete-present_example =
    delete-present compare_numbers compare_numbers-IsOrder 3 two_nodes two_nodes-IsValid
      three-present

-- 5 is the last in order, 3 is not.
delete_three :
    delete compare_numbers 3 two_nodes
    ≡ done (
      record {
        root = node nil (item 100 5) nil;
        insert_order = 100 ∷ [];
        ordered_pointer = none;
        which_ordered_element = 0;
        number_of_elements = 1;
      },
      true,
    )
unfolding delete splay
delete_three = refl

delete_five : delete compare_numbers 5 two_nodes ≡ fault
unfolding delete splay
delete_five = refl

walk-insert_order_example :
    walk (suc (length two_nodes.insert_order)) none two_nodes ≡ done (100 ∷ 200 ∷ [])
walk-insert_order_example = walk-insert_order two_nodes two_nodes-IsValid.distinct
