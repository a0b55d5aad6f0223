-- ===== src/Splay/Loop.antt =====
-- libs/ntdll/splay.c: what `splay` does to a tree. It ends; the nodes stay, in their order; the new
-- root is where the item is, or where it would be put.
use mathlib.Core.List.{append_assoc, append-nil}
use mathlib.Core.Path.{subst}
use nloader.Base.{
  ℕ, zero, suc, ◌≤◌, ◌<◌, ◌≡◌, refl, sym, ◌∙◌, ap, Bool, true, false, Option, some, List, [], ◌∷◌,
  ◌++◌, inl, inr, ◌↔◌, arith, All, All-append, All-append_left, All-append_right, All-imp,
}
use nloader.Splay.{
  Compared, less_than, greater_than, equal, Item, Tree, nil, node, LeftSpine, RightSpine,
  assemble_left, assemble_right, finish, size, Step, stop, link_right, link_left, splay_step,
  resume, splay_loop, splay,
}
pub use nloader.Splay.Steps.{inorder, IsOrder, Precedes, IsSorted, Compared-cases}
use nloader.Splay.Steps.{
  before, after, inorder-assemble_left, inorder-assemble_right, StepKeeps, splay_step-StepKeeps,
}

module _ {A : Type 0} (compare_routine : A → A → Compared) (item : A) where
  -- Of the result of `splay`: the nodes in order are `xs`; the flag says that the item is at the
  -- root; and if the item is less (greater) than the root, all on the left (right) of the root is
  -- less (greater) than it.
  pub record IsSplayed (xs : List (Item A)) (result : Option (Tree A × Bool)) : Type 0 where
    pub left : Tree A
    pub top : Item A
    pub right : Tree A
    pub found : Bool
    pub returns : result ≡ some (node left top right, found)
    pub keeps : inorder left ++ top ∷ inorder right ≡ xs
    pub is_found : (found ≡ true) ↔ (compare_routine item top.body ≡ equal)
    pub left_of :
        compare_routine item top.body ≡ less_than
        → All (λ z. compare_routine z.body item ≡ less_than) (inorder left)
    pub right_of :
        compare_routine item top.body ≡ greater_than
        → All (λ z. compare_routine item z.body ≡ less_than) (inorder right)

  module _ (laws : IsOrder compare_routine) where
    pub IsSorted-split :
        (xs : List (Item A)) (y : Item A) (ys : List (Item A))
        → IsSorted compare_routine (xs ++ y ∷ ys)
        → IsSorted compare_routine xs
          × All (λ x. Precedes compare_routine x y) xs
          × All (λ z. Precedes compare_routine y z) ys
          × IsSorted compare_routine ys
    IsSorted-split [] y ys h = (tt, tt, h.0, h.1)
    IsSorted-split (x ∷ xs) y ys h =
        let (a, b, c, d) = IsSorted-split xs y ys h.1 in
        ((All-append_left _ xs (y ∷ ys) h.0, a), ((All-append_right _ xs (y ∷ ys) h.0).0, b), c, d)

    finish-keeps :
        (left : LeftSpine A) (right : RightSpine A) (l : Tree A) (x : Item A) (r : Tree A)
        → inorder (assemble_left left l) ++ x ∷ inorder (assemble_right right r)
          ≡ before left ++ (inorder l ++ x ∷ inorder r) ++ after right
    finish-keeps left right l x r =
        simp (inorder-assemble_left left l, inorder-assemble_right right r, append_assoc)

    finish-IsSplayed :
        (left : LeftSpine A) (right : RightSpine A) (xs : List (Item A)) (n : ℕ) (found : Bool)
        (l : Tree A) (x : Item A) (r : Tree A)
        → StepKeeps compare_routine item xs n (stop found l x r)
        → All (λ z. compare_routine z.body item ≡ less_than) (before left)
        → All (λ z. compare_routine item z.body ≡ less_than) (after right)
        → IsSplayed (before left ++ xs ++ after right) (some (finish found left right l x r))
    unfolding finish
    finish-IsSplayed left right xs n true l x r (e, c) b a = record {
      left = assemble_left left l;
      top = x;
      right = assemble_right right r;
      found = true;
      returns = refl;
      keeps = finish-keeps left right l x r ∙ ap (λ ys. before left ++ ys ++ after right) e;
      is_found = (λ p. c, λ p. refl);
      left_of = λ p. cc;
      right_of = λ p. cc;
    }
    finish-IsSplayed left right xs n false l x r (e, side) b a = record {
      left = assemble_left left l;
      top = x;
      right = assemble_right right r;
      found = false;
      returns = refl;
      keeps = finish-keeps left right l x r ∙ ap (λ ys. before left ++ ys ++ after right) e;
      is_found = elim side [ inl (c, p) ↦ (λ q. cc, λ q. cc) | inr (c, p) ↦ (λ q. cc, λ q. cc) ];
      left_of = λ p. elim side [
        | inl (c, q) ↦ rw (inorder-assemble_left left l, q) (All-append _ (before left) [] b tt)
        | inr (c, q) ↦ cc
      ];
      right_of = λ p. elim side [
        | inl (c, q) ↦ cc
        | inr (c, q) ↦ rw (inorder-assemble_right right r, q) a
      ];
    }

    arrange_right :
        (bs ts rs cs : List (Item A)) (x : Item A)
        → bs ++ ts ++ (x ∷ rs ++ cs) ≡ bs ++ (ts ++ x ∷ rs) ++ cs
    arrange_right bs ts rs cs x = simp append_assoc

    arrange_left :
        (bs ls ts cs : List (Item A)) (x : Item A)
        → bs ++ (ls ++ x ∷ []) ++ ts ++ cs ≡ bs ++ (ls ++ x ∷ ts) ++ cs
    arrange_left bs ls ts cs x = simp append_assoc

    resume-IsSplayed :
        (fuel : ℕ) (left : LeftSpine A) (right : RightSpine A) (xs : List (Item A)) (n : ℕ)
        (st : Step A)
        → ((left : LeftSpine A) (right : RightSpine A) (t : Tree A)
            → size t ≤ fuel
            → 0 < size t
            → IsSorted compare_routine (inorder t)
            → All (λ z. compare_routine z.body item ≡ less_than) (before left)
            → All (λ z. compare_routine item z.body ≡ less_than) (after right)
            → IsSplayed
                (before left ++ inorder t ++ after right)
                (splay_loop compare_routine item fuel left right t))
        → StepKeeps compare_routine item xs n st
        → n ≤ suc fuel
        → IsSorted compare_routine xs
        → All (λ z. compare_routine z.body item ≡ less_than) (before left)
        → All (λ z. compare_routine item z.body ≡ less_than) (after right)
        → IsSplayed
            (before left ++ xs ++ after right)
            (resume compare_routine item (splay_loop compare_routine item fuel) left right st)
    unfolding resume
    resume-IsSplayed fuel left right xs n (stop found l x r) rest keeps h s b a =
        finish-IsSplayed left right xs n found l x r keeps b a
    resume-IsSplayed fuel left right xs n (link_right x r t) rest (e, c, lt, pos) h s b a =
        let (st, below, above, sr) =
          IsSorted-split (inorder t) x (inorder r) (subst (IsSorted compare_routine) (sym e) s) in
        let beyond =
          All-imp _ _ (λ z p. laws.less_trans item x.body z.body c p) (inorder r) above in
        subst (λ ys. IsSplayed ys (splay_loop compare_routine item fuel left ((x, r) ∷ right) t))
          (arrange_right (before left) (inorder t) (inorder r) (after right) x
            ∙ ap (λ ys. before left ++ ys ++ after right) e)
          (rest left ((x, r) ∷ right) t (omega arith) pos st b
            (c, All-append _ (inorder r) (after right) beyond a))
    resume-IsSplayed fuel left right xs n (link_left l x t) rest (e, c, lt, pos) h s b a =
        let (sl, below, above, st) =
          IsSorted-split (inorder l) x (inorder t) (subst (IsSorted compare_routine) (sym e) s) in
        let first = (laws.greater_iff item x.body).0 c in
        let behind =
          All-imp _ _ (λ z p. laws.less_trans z.body x.body item p first) (inorder l) below in
        subst (λ ys. IsSplayed ys (splay_loop compare_routine item fuel ((l, x) ∷ left) right t))
          (arrange_left (before left) (inorder l) (inorder t) (after right) x
            ∙ ap (λ ys. before left ++ ys ++ after right) e)
          (rest ((l, x) ∷ left) right t (omega arith) pos st
            (All-append _ (before left) (inorder l ++ x ∷ []) b
              (All-append _ (inorder l) (x ∷ []) behind (first, tt)))
            a)

    splay_loop-IsSplayed :
        (fuel : ℕ) (left : LeftSpine A) (right : RightSpine A) (t : Tree A)
        → size t ≤ fuel
        → 0 < size t
        → IsSorted compare_routine (inorder t)
        → All (λ z. compare_routine z.body item ≡ less_than) (before left)
        → All (λ z. compare_routine item z.body ≡ less_than) (after right)
        → IsSplayed
            (before left ++ inorder t ++ after right)
            (splay_loop compare_routine item fuel left right t)
    unfolding splay_loop
    splay_loop-IsSplayed zero left right t h k s b a = absurd (omega arith)
    splay_loop-IsSplayed (suc fuel) left right nil h k s b a = absurd (omega arith)
    splay_loop-IsSplayed (suc fuel) left right (node l x r) h k s b a =
        resume-IsSplayed fuel left right (inorder (node l x r)) (size (node l x r))
          (splay_step compare_routine item l x r) (splay_loop-IsSplayed fuel)
          (splay_step-StepKeeps compare_routine item l x r) h s b a

    -- On a sorted tree that is not empty `splay` returns a root: the nodes stay as they are in
    -- order, the flag says exactly whether the root is equal to the item, and all nodes between the
    -- item and the root lie where they belong.
    pub splay-IsSplayed :
        (l : Tree A) (x : Item A) (r : Tree A)
        → IsSorted compare_routine (inorder (node l x r))
        → IsSplayed (inorder (node l x r)) (splay compare_routine item (node l x r))
    unfolding splay
    splay-IsSplayed l x r s =
        subst (λ ys. IsSplayed ys (splay compare_routine item (node l x r))) (append-nil _)
          (splay_loop-IsSplayed (size (node l x r)) [] [] (node l x r) (omega arith) (omega arith) s
            tt tt)
