-- ===== src/Splay/Table.antt =====
-- libs/ntdll/splay.c: `RTL_GENERIC_TABLE` and its operations. The compare routine is a parameter, the
-- allocate routine's answer an argument. `fault` is an access through a null pointer, `aborted` a
-- call of `abort`; `stuck` is no value of the program: the loop of `splay` ran out of fuel.
use nloader.Base.{
  ℕ, ◌+◌, ◌-◌, ◌%◌, ◌^◌, Bool, true, false, Option, none, some, List, [], ◌∷◌, ◌++◌, ◌==◌,
  if◌then◌else◌,
}
use nloader.Splay.{Compared, less_than, greater_than, equal, Item, Tree, nil, node, splay}

pub record Table (A : Type 0) : Type 0 where
  pub root : Tree A
  pub insert_order : List ℕ
  pub ordered_pointer : Option ℕ
  pub which_ordered_element : ℕ
  pub number_of_elements : ℕ

pub data Run {ℓ} (A : Type ℓ) : Type ℓ where
  done : A → Run A
  aborted : Run A
  fault : Run A
  stuck : Run A

infixl 5 ◌>>=◌
abbrev pub ◌>>=◌ {ℓ κ} : {From : Type ℓ} {Into : Type κ} → Run From → (From → Run Into) → Run Into
done x >>= next = next x
aborted >>= next = aborted
fault >>= next = fault
stuck >>= next = stuck

-- The pointer returned, null as `none`, and what is stored through `NewElement`, if anything.
pub record Inserted : Type 0 where
  pub element : Option ℕ
  pub new_element : Option Bool

-- The new entry goes to the end of the chain, if the chain and the count agree on being empty.
unfoldable pub chain : ℕ → List ℕ → ℕ → Run (List ℕ)
chain a [] n = if n == 0 then done (a ∷ []) else aborted
chain a (b ∷ rest) n = if n == 0 then aborted else done (b ∷ rest ++ a ∷ [])

-- An entry is taken out of the chain.
unfoldable pub unlink : ℕ → List ℕ → List ℕ
unlink a [] = []
unlink a (b ∷ rest) = if b == a then rest else b ∷ unlink a rest

-- The entry behind that at address `a`; an address that is not in the chain dangles.
unfoldable pub entry_after : ℕ → List ℕ → Run (Option ℕ)
entry_after a [] = fault
entry_after a (b ∷ []) = if b == a then done none else fault
entry_after a (b ∷ c ∷ rest) =
    let later = entry_after a (c ∷ rest) in if b == a then done (some c) else later

module _ {A : Type 0} where
  -- `RtlInitializeGenericTable`, less the routines.
  unfoldable pub initialize : Table A
  initialize = record {
    root = nil;
    insert_order = [];
    ordered_pointer = none;
    which_ordered_element = 0;
    number_of_elements = 0;
  }

  unfoldable pub root_address : Tree A → Option ℕ
  root_address nil = none
  root_address (node l x r) = some x.address

  -- `RtlEnumerateGenericTableWithoutSplaying`; the restart key is null or the last entry.
  unfoldable pub enumerate : Option ℕ → Table A → Run (Option ℕ)
  unfolding entry_after
  enumerate none t = elim (t.insert_order) [ [] ↦ done none | b ∷ rest ↦ done (some b) ]
  enumerate (some key) t = entry_after key t.insert_order

  -- The end of `RtlDeleteElementGenericTable`: count, chain and the data of the enumeration.
  unfoldable pub forget : ℕ → Tree A → Table A → Table A
  unfolding unlink
  forget a root t =
      let n = (t.number_of_elements + 2 ^ 32 - 1) % 2 ^ 32 in
      record {
        root = root;
        insert_order = if n == 0 then [] else unlink a t.insert_order;
        ordered_pointer = none;
        which_ordered_element = 0;
        number_of_elements = n;
      }

  -- The largest node of the left subtree takes the right one: `TableRoot->Parent` and
  -- `RightChild->Parent` are written whether or not these pointers are null.
  unfoldable pub join_right : Tree A × Bool → Tree A → Run (Tree A)
  join_right (root, true) r = aborted
  join_right (nil, false) r = fault
  join_right (node a x b, false) nil = fault
  join_right (node a x b, false) (node c y d) = done (node a x (node c y d))

module _ {A : Type 0} (compare_routine : A → A → Compared) where
  -- The new node takes the place of the root, which becomes its child.
  unfoldable pub place : Item A → Tree A → Run (Tree A)
  place item nil = done (node nil item nil)
  place item (node l x r) = elim (compare_routine item.body x.body) [
    | less_than ↦ done (node l item (node nil x r))
    | greater_than ↦ done (node (node l x nil) item r)
    | equal ↦ aborted
  ]

  -- The part of `RtlInsertElementGenericTable` behind the allocation.
  unfoldable pub attach : Item A → Tree A → Table A → Run (Table A × Inserted)
  unfolding place chain
  attach item root t = do
    root' ← place item root
    order ← chain item.address t.insert_order t.number_of_elements
    done (
      record {
        root = root';
        insert_order = order;
        ordered_pointer = none;
        which_ordered_element = 0;
        number_of_elements = (t.number_of_elements + 1) % 2 ^ 32;
      },
      record { element = some item.address; new_element = some true },
    )

  unfoldable pub insert_at : A → Option ℕ → Table A → Tree A → Bool → Run (Table A × Inserted)
  unfolding attach root_address
  insert_at buffer allocated t root true =
      done
        (record t { root = root }, record { element = root_address root; new_element = some false })
  insert_at buffer none t root false =
      done (record t { root = root }, record { element = none; new_element = none })
  insert_at buffer (some a) t root false = attach (record { address = a; body = buffer }) root t

  -- `RtlInsertElementGenericTable`; `allocated` is what the allocate routine returns if it is asked.
  unfoldable pub insert : A → Option ℕ → Table A → Run (Table A × Inserted)
  unfolding insert_at
  insert buffer allocated t = elim (splay compare_routine buffer t.root) [
    | none ↦ stuck
    | some (root, found) ↦ insert_at buffer allocated t root found
  ]

  -- `RtlLookupElementGenericTable`
  unfoldable pub lookup : A → Table A → Run (Table A × Option ℕ)
  unfolding root_address
  lookup buffer t = elim (splay compare_routine buffer t.root) [
    | none ↦ stuck
    | some (root, found) ↦
        done (record t { root = root }, if found then root_address root else none)
  ]

  -- The tree without its root `x`.
  unfoldable pub drop_root : Tree A → Item A → Tree A → Run (Tree A)
  unfolding join_right
  drop_root nil x nil = fault
  drop_root nil x (node c y d) = done (node c y d)
  drop_root (node a y b) x r = elim (splay compare_routine x.body (node a y b)) [
    | none ↦ stuck
    | some result ↦ join_right result r
  ]

  unfoldable pub delete_at : Table A → Tree A → Bool → Run (Table A × Bool)
  unfolding drop_root forget
  delete_at t root false = done (record t { root = root }, false)
  delete_at t nil true = fault
  delete_at t (node l x r) true = do root ← drop_root l x r; done (forget x.address root t, true)

  -- `RtlDeleteElementGenericTable`
  unfoldable pub delete : A → Table A → Run (Table A × Bool)
  unfolding delete_at
  delete buffer t = elim (splay compare_routine buffer t.root) [
    | none ↦ stuck
    | some (root, found) ↦ delete_at t root found
  ]
