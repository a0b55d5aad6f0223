-- ===== src/Splay/Valid.antt =====
-- libs/ntdll/splay.c: the valid tables, and what `splay` does to one.
use mathlib.Core.Bool.{false≢true}
use nloader.Base.{
  ℕ, ◌+◌, ◌^◌, ◌≤◌, ◌<◌, ◌≡◌, refl, sym, ◌∙◌, ap, true, false, some, List, [], ◌∷◌, ◌++◌, arith,
  length, All, All-append, All-append_left, All-append_right, ◌⊎◌, ◌==◌, if◌then◌else◌, inl, inr,
}
use nloader.Splay.{Compared, equal, Item, Tree, nil, node, splay}
use nloader.Splay.Table.{Table}
use nloader.Splay.Loop.{inorder, Precedes, IsSorted, IsOrder, IsSplayed, splay-IsSplayed}
use nloader.Splay.Contains.{contains, IsSplayed-contains}

-- How often an address stands in a list.
abbrev pub times : ℕ → List ℕ → ℕ
times a [] = 0
times a (b ∷ bs) = (if b == a then 1 else 0) + times a bs

pub times-append :
    (a : ℕ) (front back : List ℕ) → times a (front ++ back) ≡ times a front + times a back
times-append a [] back = omega arith
times-append a (b ∷ front) back = let later = times-append a front back in omega arith

pub times_fresh :
    (a b : ℕ) (xs : List ℕ) → times b xs ≡ 0 → times a xs ≤ 1 → times a (xs ++ b ∷ []) ≤ 1
times_fresh a b xs h k = ground (arith, times-append a xs (b ∷ []))

module _ {A : Type 0} where
  abbrev pub addresses : List (Item A) → List ℕ
  addresses [] = []
  addresses (x ∷ xs) = x.address ∷ addresses xs

  pub times-addresses-append :
      (a : ℕ) (xs ys : List (Item A))
      → times a (addresses (xs ++ ys)) ≡ times a (addresses xs) + times a (addresses ys)
  times-addresses-append a [] ys = omega arith
  times-addresses-append a (x ∷ xs) ys = omega (arith, times-addresses-append a xs ys)

-- The tree is sorted, and the chain has the same nodes, each once; the count is its length.
pub record IsValid {A : Type 0} (compare_routine : A → A → Compared) (t : Table A) : Type 0 where
  pub sorted : IsSorted compare_routine (inorder t.root)
  pub chained : (a : ℕ) → times a (addresses (inorder t.root)) ≡ times a t.insert_order
  pub distinct : (a : ℕ) → times a t.insert_order ≤ 1
  pub counted : t.number_of_elements ≡ length t.insert_order
  pub bounded : length t.insert_order < 2 ^ 32

module _ {A : Type 0} (compare_routine : A → A → Compared) where
  pub IsSorted-insert :
      (xs : List (Item A)) (y : Item A) (ys : List (Item A))
      → IsSorted compare_routine (xs ++ ys)
      → All (λ z. Precedes compare_routine z y) xs
      → All (λ z. Precedes compare_routine y z) ys
      → IsSorted compare_routine (xs ++ y ∷ ys)
  IsSorted-insert [] y ys s b a = (a, s)
  IsSorted-insert (x ∷ xs) y ys s b a = (
    All-append _ xs (y ∷ ys) (All-append_left _ xs ys s.0) (b.0, All-append_right _ xs ys s.0),
    IsSorted-insert xs y ys s.1 b.1 a,
  )

  pub IsSorted-remove :
      (xs : List (Item A)) (y : Item A) (ys : List (Item A))
      → IsSorted compare_routine (xs ++ y ∷ ys)
      → IsSorted compare_routine (xs ++ ys)
  IsSorted-remove [] y ys s = s.1
  IsSorted-remove (x ∷ xs) y ys s = (
    All-append _ xs ys (All-append_left _ xs (y ∷ ys) s.0) (All-append_right _ xs (y ∷ ys) s.0).1,
    IsSorted-remove xs y ys s.1,
  )

  module _ (laws : IsOrder compare_routine) where
    pub splay-cases :
        (item : A) (t : Tree A)
        → IsSorted compare_routine (inorder t)
        → ((t ≡ nil) × (splay compare_routine item t ≡ some (nil, false)))
          ⊎ IsSplayed compare_routine item (inorder t) (splay compare_routine item t)
    splay-cases item nil s = inl (refl, unfold splay in refl)
    splay-cases item (node l x r) s = inr (splay-IsSplayed compare_routine item laws l x r s)

module _ {A : Type 0} (compare_routine : A → A → Compared) (laws : IsOrder compare_routine) where
  -- Another tree with the same nodes in the same order.
  pub IsValid-root :
      (t : Table A) (root : Tree A)
      → inorder root ≡ inorder t.root
      → IsValid compare_routine t
      → IsValid compare_routine (record t { root = root })
  IsValid-root t root e v = record {
    sorted = rw e (v.sorted);
    chained = λ a. ap (λ xs. times a (addresses xs)) e ∙ v.chained a;
    distinct = v.distinct;
    counted = v.counted;
    bounded = v.bounded;
  }

  -- The root that `splay` leaves where a node is equal to the item.
  pub splay-found :
      (buffer : A) (t : Table A)
      → IsValid compare_routine t
      → contains compare_routine buffer (inorder t.root) ≡ true
      → (l : Tree A) × (x : Item A) × (r : Tree A) × (splay compare_routine buffer t.root
          ≡ some (node l x r, true))
        × (inorder (node l x r) ≡ inorder t.root)
        × (compare_routine buffer x.body ≡ equal)
  splay-found buffer t v present = elim (splay-cases compare_routine laws buffer t.root v.sorted) [
    | inl (e, q) ↦ absurd (
        false≢true (
          unfold contains in
          ap (λ r. contains compare_routine buffer (inorder r)) (sym e) ∙ present))
    | inr s ↦
        let is_there = IsSplayed-contains compare_routine buffer laws v.sorted s ∙ present in
        (
          s.left,
          s.top,
          s.right,
          s.returns ∙ ap (λ b. some (node s.left s.top s.right, b)) is_there,
          s.keeps,
          s.is_found.0 is_there,
        )
  ]

  pub splay-absent :
      (buffer : A) (t : Table A)
      → IsValid compare_routine t
      → contains compare_routine buffer (inorder t.root) ≡ false
      → (root : Tree A) × (splay compare_routine buffer t.root ≡ some (root, false))
        × (inorder root ≡ inorder t.root)
  splay-absent buffer t v absent = elim (splay-cases compare_routine laws buffer t.root v.sorted) [
    | inl (e, q) ↦ (nil, q, ap inorder (sym e))
    | inr s ↦
        let is_new = IsSplayed-contains compare_routine buffer laws v.sorted s ∙ absent in
        (
          node s.left s.top s.right,
          s.returns ∙ ap (λ b. some (node s.left s.top s.right, b)) is_new,
          s.keeps,
        )
  ]
