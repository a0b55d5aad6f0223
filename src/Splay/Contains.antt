-- ===== src/Splay/Contains.antt =====
-- libs/ntdll/splay.c: the answer of `splay` against a search through the nodes in order.
use mathlib.Core.Path.{subst}
use nloader.Base.{
  ◌≡◌, refl, sym, ◌∙◌, ap, Bool, true, false, Option, List, [], ◌∷◌, ◌++◌, ◌||◌, inl, inr, arith,
  All, All-imp, Bool-cases,
}
use nloader.Splay.{Compared, less_than, greater_than, equal, Item, Tree}
use nloader.Splay.Loop.{
  inorder, Precedes, IsSorted, IsOrder, IsSplayed, Compared-cases, IsSorted-split,
}

module _ {A : Type 0} (compare_routine : A → A → Compared) (item : A) where
  abbrev pub matches : Compared → Bool
  matches less_than = false
  matches greater_than = false
  matches equal = true

  -- Some node is equal to the item.
  unfoldable pub contains : List (Item A) → Bool
  contains [] = false
  contains (x ∷ xs) = matches (compare_routine item x.body) || contains xs

  contains-append : (xs ys : List (Item A)) → contains (xs ++ ys) ≡ (contains xs || contains ys)
  unfolding contains
  contains-append [] ys = refl
  contains-append (x ∷ xs) ys = ground (arith, contains-append xs ys)

  module _ (laws : IsOrder compare_routine) where
    contains-above :
        (xs : List (Item A))
        → All (λ z. compare_routine item z.body ≡ less_than) xs
        → contains xs ≡ false
    unfolding contains
    contains-above [] h = refl
    contains-above (x ∷ xs) h = rw (h.0) (contains-above xs h.1)

    contains-below :
        (xs : List (Item A))
        → All (λ z. compare_routine z.body item ≡ less_than) xs
        → contains xs ≡ false
    unfolding contains
    contains-below [] h = refl
    contains-below (x ∷ xs) h = rw ((laws.greater_iff item x.body).1 h.0) (contains-below xs h.1)

    contains-split :
        (xs : List (Item A)) (x : Item A) (ys : List (Item A))
        → contains (xs ++ x ∷ ys)
          ≡ (contains xs || (matches (compare_routine item x.body) || contains ys))
    unfolding contains
    contains-split xs x ys = contains-append xs (x ∷ ys)

    -- Where the item is not equal to the root, the nodes on the far side of the root are not equal
    -- to it either.
    contains-less :
        (xs : List (Item A)) (x : Item A) (ys : List (Item A))
        → compare_routine item x.body ≡ less_than
        → All (λ z. compare_routine z.body item ≡ less_than) xs
        → All (λ z. Precedes compare_routine x z) ys
        → contains (xs ++ x ∷ ys) ≡ false
    contains-less xs x ys c b a =
        let above = All-imp _ _ (λ z p. laws.less_trans item x.body z.body c p) ys a in
        contains-split xs x ys ∙ rw (c, contains-below xs b, contains-above ys above)

    contains-greater :
        (xs : List (Item A)) (x : Item A) (ys : List (Item A))
        → compare_routine item x.body ≡ greater_than
        → All (λ z. Precedes compare_routine z x) xs
        → All (λ z. compare_routine item z.body ≡ less_than) ys
        → contains (xs ++ x ∷ ys) ≡ false
    contains-greater xs x ys c b a =
        let first = (laws.greater_iff item x.body).0 c in
        let below = All-imp _ _ (λ z p. laws.less_trans z.body x.body item p first) xs b in
        contains-split xs x ys ∙ rw (c, contains-below xs below, contains-above ys a)

    contains-equal :
        (xs : List (Item A)) (x : Item A) (ys : List (Item A))
        → compare_routine item x.body ≡ equal
        → contains (xs ++ x ∷ ys) ≡ true
    contains-equal xs x ys c = contains-split xs x ys ∙ rw c (Bool-or (contains xs))
      where
        Bool-or : (b : Bool) → (b || true) ≡ true
        Bool-or true = refl
        Bool-or false = refl

    not_found :
        {xs : List (Item A)} {result : Option (Tree A × Bool)}
        → (s : IsSplayed compare_routine item xs result)
        → ¬ (compare_routine item s.top.body ≡ equal)
        → s.found ≡ false
    not_found s ne = elim (Bool-cases s.found) [ inl p ↦ absurd (ne (s.is_found.0 p)) | inr p ↦ p ]

    -- The flag of `splay` is the answer of the search.
    pub IsSplayed-contains :
        {xs : List (Item A)} {result : Option (Tree A × Bool)}
        → IsSorted compare_routine xs
        → (s : IsSplayed compare_routine item xs result) → s.found ≡ contains xs
    IsSplayed-contains {xs} sorted s =
        let whole = subst (IsSorted compare_routine) (sym s.keeps) sorted in
        let (sl, below, above, sr) =
          IsSorted-split compare_routine item laws (inorder s.left) s.top (inorder s.right) whole in
        elim (Compared-cases (compare_routine item s.top.body)) [
          | inl c ↦
              not_found s (λ e. cc)
              ∙ sym (contains-less (inorder s.left) s.top (inorder s.right) c (s.left_of c) above)
              ∙ ap contains s.keeps
          | inr (inl c) ↦
              not_found s (λ e. cc)
              ∙ sym
                  (contains-greater (inorder s.left) s.top (inorder s.right) c below (s.right_of c))
              ∙ ap contains s.keeps
          | inr (inr c) ↦
              s.is_found.1 c
              ∙ sym (contains-equal (inorder s.left) s.top (inorder s.right) c)
              ∙ ap contains s.keeps
        ]
