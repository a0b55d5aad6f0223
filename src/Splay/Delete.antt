-- ===== src/Splay/Delete.antt =====
-- libs/ntdll/splay.c: `RtlDeleteElementGenericTable` on a valid table.
use mathlib.Core.Path.{subst}
use nloader.Base.{
  suc, ◌+◌, ◌-◌, ◌%◌, ◌^◌, ◌<◌, ◌≡◌, refl, sym, ◌∙◌, ap, Bool, true, false, some, List, [], ◌∷◌,
  ◌++◌, arith, length, inl, inr, ◌⊎◌, ◌≢◌,
}
use nloader.Splay.{Compared, equal, Item, Tree, nil, node, splay}
use nloader.Splay.Table.{Table, Run, done, fault, delete, delete_at, forget, unlink}
use nloader.Splay.Loop.{inorder, IsSorted, IsOrder}
use nloader.Splay.Contains.{contains}
use nloader.Splay.Valid.{
  IsValid, IsValid-root, splay-found, splay-absent, times, addresses, times-addresses-append,
  IsSorted-remove,
}
use nloader.Splay.Drop.{
  drop_root-fault, drop_root-done, times-unlink, length-unlink, next_order-unlink,
}

-- The element was deleted: its node `node` is gone from the tree and from the chain, all else is
-- as it was, and the table is valid. Some node stood behind it.
pub record IsDeleted {A : Type 0} (compare_routine : A → A → Compared) (buffer : A) (t : Table A)
    (result : Run (Table A × Bool)) : Type 0 where
  pub table : Table A
  pub before : List (Item A)
  pub gone : Item A
  pub after : List (Item A)
  pub returns : result ≡ done (table, true)
  pub is_equal : compare_routine buffer gone.body ≡ equal
  pub whole : before ++ gone ∷ after ≡ inorder t.root
  pub nodes : inorder table.root ≡ before ++ after
  pub not_last : after ≢ []
  pub order : table.insert_order ≡ unlink gone.address t.insert_order
  pub valid : IsValid compare_routine table

-- The element is the last in order, and its deletion writes through a null pointer.
pub record IsLast {A : Type 0} (compare_routine : A → A → Compared) (buffer : A) (t : Table A)
    (result : Run (Table A × Bool)) : Type 0 where
  pub before : List (Item A)
  pub last : Item A
  pub is_equal : compare_routine buffer last.body ≡ equal
  pub whole : before ++ last ∷ [] ≡ inorder t.root
  pub faults : result ≡ fault

module _ {A : Type 0} (compare_routine : A → A → Compared) (laws : IsOrder compare_routine) where
  delete-splay :
      (buffer : A) (t : Table A) (root : Tree A) (found : Bool)
      → splay compare_routine buffer t.root ≡ some (root, found)
      → delete compare_routine buffer t ≡ delete_at compare_routine t root found
  delete-splay buffer t root found e = unfold delete in rw (delete, e)

  forget-IsValid :
      (t : Table A) (root : Tree A) (before : List (Item A)) (x : Item A) (after : List (Item A))
      → IsValid compare_routine t
      → before ++ x ∷ after ≡ inorder t.root
      → inorder root ≡ before ++ after
      → (IsValid compare_routine (forget x.address root t))
        × ((forget x.address root t).insert_order ≡ unlink x.address t.insert_order)
  unfolding forget
  forget-IsValid t root before x after v whole nodes =
      let here : times x.address (addresses (x ∷ after)) ≡ suc (times x.address (addresses after)) =
        ground arith in
      let held : 0 < times x.address t.insert_order = omega (
        arith,
        v.chained x.address,
        ap (λ xs. times x.address (addresses xs)) whole,
        times-addresses-append x.address before (x ∷ after),
        here,
      ) in
      let shorter = length-unlink x.address t.insert_order held in
      let fewer : (t.number_of_elements + 2 ^ 32 - 1) % 2 ^ 32 + 1 ≡ length t.insert_order =
        omega (arith, v.counted, v.bounded, shorter) in
      let kept =
        next_order-unlink x.address ((t.number_of_elements + 2 ^ 32 - 1) % 2 ^ 32) t.insert_order
          held fewer in
      (
        record {
          sorted = rw nodes (
              IsSorted-remove compare_routine before x after
                (subst (IsSorted compare_routine) (sym whole) v.sorted));
          chained = λ a. rw kept (
              omega (
                arith,
                v.chained a,
                ap (λ xs. times a (addresses xs)) whole,
                ap (λ xs. times a (addresses xs)) nodes,
                times-addresses-append a before (x ∷ after),
                times-addresses-append a before after,
                times-unlink a x.address t.insert_order held,
              ));
          distinct = λ a.
              rw kept (omega (arith, v.distinct a, times-unlink a x.address t.insert_order held));
          counted = rw kept (omega (arith, shorter, fewer));
          bounded = rw kept (omega (arith, shorter, v.bounded));
        },
        kept,
      )

  -- Deleting an element that no node is equal to returns FALSE and keeps the nodes.
  pub delete-absent :
      (buffer : A) (t : Table A)
      → IsValid compare_routine t
      → contains compare_routine buffer (inorder t.root) ≡ false
      → (root : Tree A) × (delete compare_routine buffer t ≡ done (record t { root = root }, false))
        × (inorder root ≡ inorder t.root)
        × IsValid compare_routine (record t { root = root })
  delete-absent buffer t v absent =
      let (root, e, k) = splay-absent compare_routine laws buffer t v absent in
      (
        root,
        delete-splay buffer t root false e ∙ (unfold delete_at in refl),
        k,
        IsValid-root compare_routine laws t root k v,
      )

  cons-append-ne-nil : (xs : List (Item A)) (y : Item A) (ys : List (Item A)) → xs ++ y ∷ ys ≢ []
  cons-append-ne-nil [] y ys e = cc
  cons-append-ne-nil (x ∷ xs) y ys e = cc

  delete_at-cases :
      (buffer : A) (t : Table A) (l : Tree A) (x : Item A) (r : Tree A)
      → IsValid compare_routine t
      → inorder (node l x r) ≡ inorder t.root
      → compare_routine buffer x.body ≡ equal
      → IsSorted compare_routine (inorder (node l x r))
      → IsDeleted compare_routine buffer t (delete_at compare_routine t (node l x r) true)
        ⊎ IsLast compare_routine buffer t (delete_at compare_routine t (node l x r) true)
  unfolding delete_at
  delete_at-cases buffer t l x nil v k c sorted = inr (record {
    before = inorder l;
    last = x;
    is_equal = c;
    whole = k;
    faults = rw (drop_root-fault compare_routine laws l x sorted);
  })
  delete_at-cases buffer t l x (node a y b) v k c sorted =
      let (root, e, n) = drop_root-done compare_routine laws l x a y b sorted in
      let (valid, order) = forget-IsValid t root (inorder l) x (inorder (node a y b)) v k n in
      inl (record {
        table = forget x.address root t;
        before = inorder l;
        gone = x;
        after = inorder (node a y b);
        returns = rw e;
        is_equal = c;
        whole = k;
        nodes = (unfold forget in n);
        not_last = cons-append-ne-nil (inorder a) y (inorder b);
        order = order;
        valid = valid;
      })

  -- Deleting an element that some node is equal to: if it is not the last in order, its node is
  -- removed from the tree and the chain and the table stays valid; if it is, the code writes
  -- through a null pointer.
  pub delete-present :
      (buffer : A) (t : Table A)
      → IsValid compare_routine t
      → contains compare_routine buffer (inorder t.root) ≡ true
      → IsDeleted compare_routine buffer t (delete compare_routine buffer t)
        ⊎ IsLast compare_routine buffer t (delete compare_routine buffer t)
  delete-present buffer t v present =
      let (l, x, r, e, k, c) = splay-found compare_routine laws buffer t v present in
      let sorted = subst (IsSorted compare_routine) (sym k) v.sorted in
      rw (delete-splay buffer t (node l x r) true e) (delete_at-cases buffer t l x r v k c sorted)
