-- ===== src/Splay/Drop.antt =====
-- libs/ntdll/splay.c: the node that is taken out of the tree and out of the chain.
use mathlib.Core.Path.{subst}
use mathlib.Core.List.{append_assoc}
use nloader.Base.{
  ℕ, zero, suc, ◌+◌, ◌<◌, ◌≡◌, refl, sym, ◌∙◌, ap, Bool, false, some, List, [], ◌∷◌, ◌++◌, arith,
  length, length-append, All, All-append_right, ◌==◌, if◌then◌else◌, Bool-cases, inl, inr,
}
use nloader.Splay.{Compared, less_than, Item, Tree, nil, node, splay}
use nloader.Splay.Table.{done, fault, drop_root, join_right, unlink}
use nloader.Splay.Loop.{inorder, Precedes, IsSorted, IsOrder, splay-IsSplayed, IsSorted-split}
use nloader.Splay.Valid.{times}

module _ {A : Type 0} (compare_routine : A → A → Compared) (laws : IsOrder compare_routine) where
  irreflexive : (a : A) → ¬ (compare_routine a a ≡ less_than)
  irreflexive a h = let g = (laws.greater_iff a a).1 h in cc

  -- Nodes that lie on both sides of an item: there are none.
  nothing_between :
      (a : A) (zs : List (Item A))
      → All (λ z. compare_routine z.body a ≡ less_than) zs
      → All (λ z. compare_routine a z.body ≡ less_than) zs
      → zs ≡ []
  nothing_between a [] b c = refl
  nothing_between a (z ∷ zs) b c = absurd (irreflexive a (laws.less_trans a z.body a c.0 b.0))

  nil_of_inorder : (t : Tree A) → inorder t ≡ [] → t ≡ nil
  nil_of_inorder nil e = refl
  nil_of_inorder (node l x r) e =
      absurd (omega (arith, ap length e, length-append {0} (inorder l) (x ∷ inorder r)))

  drop_root-node :
      (a : Tree A) (y : Item A) (b : Tree A) (x : Item A) (r : Tree A) (result : Tree A × Bool)
      → splay compare_routine x.body (node a y b) ≡ some result
      → drop_root compare_routine (node a y b) x r ≡ join_right result r
  unfolding drop_root
  drop_root-node a y b x r result e = rw (drop_root, e)

  -- The greatest node on the left becomes the root, with nothing on its right.
  splay_left :
      (a : Tree A) (y : Item A) (b : Tree A) (x : Item A)
      → IsSorted compare_routine (inorder (node a y b))
      → All (λ z. Precedes compare_routine z x) (inorder (node a y b))
      → (l : Tree A) × (m : Item A) × (splay compare_routine x.body (node a y b)
          ≡ some (node l m nil, false))
        × (inorder l ++ m ∷ [] ≡ inorder (node a y b))
  splay_left a y b x sorted below =
      let s = splay-IsSplayed compare_routine x.body laws a y b sorted in
      let all = subst (All (λ z. Precedes compare_routine z x)) (sym s.keeps) below in
      let back = All-append_right _ (inorder s.left) (s.top ∷ inorder s.right) all in
      let side = (laws.greater_iff x.body s.top.body).1 back.0 in
      let empty = nothing_between x.body (inorder s.right) back.1 (s.right_of side) in
      let gone = nil_of_inorder s.right empty in
      let missed : s.found ≡ false = elim (Bool-cases s.found) [
        | inl p ↦ (let q = s.is_found.0 p in cc)
        | inr p ↦ p
      ] in
      (
        s.left,
        s.top,
        s.returns
            ∙ ap (λ f. some (node s.left s.top s.right, f)) missed
            ∙ ap (λ r. some (node s.left s.top r, false)) gone,
        ap (λ zs. inorder s.left ++ s.top ∷ zs) (sym empty) ∙ s.keeps,
      )

  pub drop_root-fault :
      (l : Tree A) (x : Item A)
      → IsSorted compare_routine (inorder l ++ x ∷ [])
      → drop_root compare_routine l x nil ≡ fault
  drop_root-fault nil x sorted = unfold drop_root in refl
  drop_root-fault (node a y b) x sorted =
      let (sl, below, above, sr) = IsSorted-split compare_routine x.body laws _ x [] sorted in
      let (l', m, e, k) = splay_left a y b x sl below in
      drop_root-node a y b x nil (node l' m nil, false) e ∙ (unfold join_right in refl)

  pub drop_root-done :
      (l : Tree A) (x : Item A) (c : Tree A) (y : Item A) (d : Tree A)
      → IsSorted compare_routine (inorder l ++ x ∷ inorder (node c y d))
      → (root : Tree A) × (drop_root compare_routine l x (node c y d) ≡ done root)
        × (inorder root ≡ inorder l ++ inorder (node c y d))
  drop_root-done nil x c y d sorted = (node c y d, unfold drop_root in refl, refl)
  drop_root-done (node a z b) x c y d sorted =
      let (sl, below, above, sr) =
        IsSorted-split compare_routine x.body laws _ x (inorder (node c y d)) sorted in
      let (l', m, e, k) = splay_left a z b x sl below in
      (
        node l' m (node c y d),
        drop_root-node a z b x (node c y d) (node l' m nil, false) e ∙ (unfold join_right in refl),
        sym (append_assoc (inorder l') (m ∷ []) (inorder (node c y d)))
            ∙ ap (λ zs. zs ++ inorder (node c y d)) k,
      )

pub times-unlink :
    (a b : ℕ) (xs : List ℕ)
    → 0 < times b xs
    → times a (unlink b xs) + (if b == a then 1 else 0) ≡ times a xs
unfolding unlink
times-unlink a b [] h = absurd (omega arith)
times-unlink a b (x ∷ xs) h = ground (arith, times-unlink a b xs)

pub length-unlink : (b : ℕ) (xs : List ℕ) → 0 < times b xs → length (unlink b xs) + 1 ≡ length xs
unfolding unlink
length-unlink b [] h = absurd (omega arith)
length-unlink b (x ∷ xs) h = ground (arith, length-unlink b xs)

nil_of_length : (xs : List ℕ) → length xs ≡ 0 → xs ≡ []
nil_of_length [] e = refl
nil_of_length (x ∷ xs) e = absurd (omega arith)

abbrev next_order : ℕ → ℕ → List ℕ → List ℕ
next_order a n order = if n == 0 then [] else unlink a order

-- The chain loses the one entry, also where the list head is initialised again.
pub next_order-unlink :
    (a n : ℕ) (order : List ℕ)
    → 0 < times a order
    → n + 1 ≡ length order
    → next_order a n order ≡ unlink a order
next_order-unlink a zero order h e =
    sym (nil_of_length (unlink a order) (omega (arith, length-unlink a order h)))
next_order-unlink a (suc n) order h e = ground arith
