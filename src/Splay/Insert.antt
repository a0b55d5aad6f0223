-- ===== src/Splay/Insert.antt =====
-- libs/ntdll/splay.c: `RtlInsertElementGenericTable` on a valid table.
use mathlib.Core.Path.{subst}
use mathlib.Core.Bool.{false≢true}
use mathlib.Core.List.{append_assoc}
use nloader.Base.{
  ℕ, ◌+◌, ◌%◌, ◌^◌, ◌<◌, ◌≡◌, refl, sym, ◌∙◌, ap, Bool, true, false, Option, none, some, List, [],
  ◌∷◌, ◌++◌, arith, length, length-append, All, All-append, All-imp, inl, inr,
}
use nloader.Splay.{Compared, equal, Item, Tree, nil, node, splay}
use nloader.Splay.Table.{Table, Run, done, Inserted, insert, insert_at, attach, place, chain}
use nloader.Splay.Loop.{
  inorder, Precedes, IsSorted, IsOrder, IsSplayed, Compared-cases, IsSorted-split,
}
use nloader.Splay.Contains.{contains, IsSplayed-contains}
use nloader.Splay.Valid.{
  times, times-append, times_fresh, addresses, times-addresses-append, IsValid, IsValid-root,
  splay-found, splay-cases, IsSorted-insert,
}

-- A node put among others: what was `before ++ after` is `before ++ item ∷ after`.
pub record IsPlaced {A : Type 0} (compare_routine : A → A → Compared) (item : Item A)
    (xs : List (Item A)) (result : Run (Tree A)) : Type 0 where
  pub root : Tree A
  pub before : List (Item A)
  pub after : List (Item A)
  pub returns : result ≡ done root
  pub whole : before ++ after ≡ xs
  pub placed : inorder root ≡ before ++ item ∷ after
  pub below : All (λ z. Precedes compare_routine z item) before
  pub above : All (λ z. Precedes compare_routine item z) after

module _ {A : Type 0} (compare_routine : A → A → Compared) (laws : IsOrder compare_routine) where
  place-IsPlaced :
      (item : Item A) (xs : List (Item A)) (result : Option (Tree A × Bool))
      → IsSorted compare_routine xs
      → (s : IsSplayed compare_routine item.body xs result) → s.found ≡ false
      → IsPlaced compare_routine item xs (place compare_routine item (node s.left s.top s.right))
  unfolding place
  place-IsPlaced item xs result sorted s absent =
      let whole = subst (IsSorted compare_routine) (sym s.keeps) sorted in
      let (sl, below, above, sr) =
        IsSorted-split compare_routine item.body laws (inorder s.left) s.top (inorder s.right)
          whole in
      elim (Compared-cases (compare_routine item.body s.top.body)) [
        | inl c ↦ record {
          root = node s.left item (node nil s.top s.right);
          before = inorder s.left;
          after = s.top ∷ inorder s.right;
          returns = rw (place, c);
          whole = s.keeps;
          placed = refl;
          below = s.left_of c;
          above = (
            c,
            All-imp _ _ (λ z p. laws.less_trans item.body s.top.body z.body c p) (inorder s.right)
                above,
          );
        }
        | inr (inl c) ↦
            let first = (laws.greater_iff item.body s.top.body).0 c in
            record {
              root = node (node s.left s.top nil) item s.right;
              before = inorder s.left ++ s.top ∷ [];
              after = inorder s.right;
              returns = rw (place, c);
              whole = append_assoc (inorder s.left) (s.top ∷ []) (inorder s.right) ∙ s.keeps;
              placed = refl;
              below =
                  All-append _ (inorder s.left) (s.top ∷ [])
                    (All-imp _ _ (λ z p. laws.less_trans z.body s.top.body item.body p first)
                      (inorder s.left) below)
                    (first, tt);
              above = s.right_of c;
            }
        | inr (inr c) ↦ absurd (false≢true (sym absent ∙ s.is_found.1 c))
      ]

chain_lem :
    (a : ℕ) (order : List ℕ) (n : ℕ) → n ≡ length order → chain a order n ≡ done (order ++ a ∷ [])
unfolding chain
chain_lem a [] n e = ground arith
chain_lem a (b ∷ rest) n e = ground arith

-- A new node at address `a` in a valid table: it stands where it belongs, it is the last of the
-- chain, and the table is valid.
pub record IsInserted {A : Type 0} (compare_routine : A → A → Compared) (item : Item A)
    (t : Table A) (result : Run (Table A × Inserted)) : Type 0 where
  pub table : Table A
  pub before : List (Item A)
  pub after : List (Item A)
  pub returns :
      result ≡ done (table, record { element = some item.address; new_element = some true })
  pub whole : before ++ after ≡ inorder t.root
  pub nodes : inorder table.root ≡ before ++ item ∷ after
  pub order : table.insert_order ≡ t.insert_order ++ item.address ∷ []
  pub valid : IsValid compare_routine table

module _ {A : Type 0} (compare_routine : A → A → Compared) (laws : IsOrder compare_routine) where
  attach-IsInserted :
      (item : Item A) (root : Tree A) (t : Table A)
      → IsValid compare_routine t
      → IsPlaced compare_routine item (inorder t.root) (place compare_routine item root)
      → times item.address t.insert_order ≡ 0
      → length t.insert_order + 1 < 2 ^ 32
      → IsInserted compare_routine item t (attach compare_routine item root t)
  unfolding attach
  attach-IsInserted item root t v p fresh space =
      let order : List ℕ = t.insert_order ++ item.address ∷ [] in
      let total = length-append {0} t.insert_order (item.address ∷ []) in
      record {
        table = record {
          root = p.root;
          insert_order = order;
          ordered_pointer = none;
          which_ordered_element = 0;
          number_of_elements = (t.number_of_elements + 1) % 2 ^ 32;
        };
        before = p.before;
        after = p.after;
        returns =
            rw (p.returns, chain_lem item.address t.insert_order t.number_of_elements v.counted);
        whole = p.whole;
        nodes = p.placed;
        order = refl;
        valid = record {
          sorted = rw (p.placed) (
              IsSorted-insert compare_routine p.before item p.after
                (subst (IsSorted compare_routine) (sym p.whole) v.sorted) p.below p.above);
          chained = λ a. omega (
            arith,
            ap (λ xs. times a (addresses xs)) p.placed,
            ap (λ xs. times a (addresses xs)) p.whole,
            times-addresses-append a p.before (item ∷ p.after),
            times-addresses-append a p.before p.after,
            times-append a t.insert_order (item.address ∷ []),
            v.chained a,
          );
          distinct = λ a. times_fresh a item.address t.insert_order fresh (v.distinct a);
          counted = omega (arith, total, v.counted);
          bounded = omega (arith, total);
        };
      }

  insert_at-true :
      (buffer : A) (allocated : Option ℕ) (t : Table A) (l : Tree A) (x : Item A) (r : Tree A)
      → insert_at compare_routine buffer allocated t (node l x r) true
        ≡ done (
          record t { root = node l x r },
          record { element = some x.address; new_element = some false },
        )
  unfolding insert_at
  insert_at-true buffer allocated t l x r = refl

  insert_at-false :
      (buffer : A) (a : ℕ) (t : Table A) (root : Tree A)
      → insert_at compare_routine buffer (some a) t root false
        ≡ attach compare_routine (record { address = a; body = buffer }) root t
  unfolding insert_at
  insert_at-false buffer a t root = refl

  insert-splay :
      (buffer : A) (allocated : Option ℕ) (t : Table A) (root : Tree A) (found : Bool)
      → splay compare_routine buffer t.root ≡ some (root, found)
      → insert compare_routine buffer allocated t
        ≡ insert_at compare_routine buffer allocated t root found
  unfolding insert
  insert-splay buffer allocated t root found e = rw (insert, e)

  -- Inserting an element that no node is equal to, with a fresh address from the allocate routine
  -- and room in the count: it is put where it belongs and at the end of the chain, the table stays
  -- valid, and the new address and `NewElement = TRUE` are returned.
  pub insert-IsInserted :
      (buffer : A) (a : ℕ) (t : Table A)
      → IsValid compare_routine t
      → contains compare_routine buffer (inorder t.root) ≡ false
      → times a t.insert_order ≡ 0
      → length t.insert_order + 1 < 2 ^ 32
      → IsInserted compare_routine
          (record { address = a; body = buffer })
          t
          (insert compare_routine buffer (some a) t)
  insert-IsInserted buffer a t v absent fresh space =
      let item : Item A = record { address = a; body = buffer } in
      elim (splay-cases compare_routine laws buffer t.root v.sorted) [
        | inl (e, q) ↦
            rw (insert-splay buffer (some a) t nil false q ∙ insert_at-false buffer a t nil) (
              attach-IsInserted item nil t v
                (record {
                  root = node nil item nil;
                  before = [];
                  after = [];
                  returns = unfold place in refl;
                  whole = ap inorder (sym e);
                  placed = refl;
                  below = tt;
                  above = tt;
                })
                fresh space)
        | inr s ↦
            let new = IsSplayed-contains compare_routine buffer laws v.sorted s ∙ absent in
            let root : Tree A = node s.left s.top s.right in
            rw
              (insert-splay buffer (some a) t root false (s.returns ∙ ap (λ b. some (root, b)) new)
                ∙ insert_at-false buffer a t root)
              (attach-IsInserted item root t v
                (place-IsPlaced compare_routine laws item (inorder t.root) _ v.sorted s new) fresh
                space)
      ]

module _ {A : Type 0} (compare_routine : A → A → Compared) (laws : IsOrder compare_routine) where
  -- Inserting an element that some node is equal to changes no node: that node's address and
  -- `NewElement = FALSE` are returned, whatever the allocate routine would answer, and the table
  -- stays valid.
  pub insert-equal :
      (buffer : A) (allocated : Option ℕ) (t : Table A)
      → IsValid compare_routine t
      → contains compare_routine buffer (inorder t.root) ≡ true
      → (l : Tree A) × (x : Item A) × (r : Tree A) × (insert compare_routine buffer allocated t
          ≡ done (
            record t { root = node l x r },
            record { element = some x.address; new_element = some false },
          ))
        × (inorder (node l x r) ≡ inorder t.root)
        × (compare_routine buffer x.body ≡ equal)
        × IsValid compare_routine (record t { root = node l x r })
  insert-equal buffer allocated t v present =
      let (l, x, r, e, k, c) = splay-found compare_routine laws buffer t v present in
      (
        l,
        x,
        r,
        insert-splay compare_routine laws buffer allocated t (node l x r) true e
            ∙ insert_at-true compare_routine laws buffer allocated t l x r,
        k,
        c,
        IsValid-root compare_routine laws t (node l x r) k v,
      )
