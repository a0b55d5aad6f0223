-- ===== src/Splay/Steps.antt =====
-- libs/ntdll/splay.c: the order of the nodes, and what one round of the loop of `splay` keeps.
use mathlib.Core.List.{append_assoc, append-nil}
use nloader.Base.{
  ℕ, ◌<◌, ◌≡◌, refl, sym, true, false, List, [], ◌∷◌, ◌++◌, ◌⊎◌, inl, inr, ◌↔◌, arith, All,
}
use nloader.Splay.{
  Compared, less_than, greater_than, equal, Item, Tree, nil, node, LeftSpine, RightSpine,
  assemble_left, assemble_right, size, Step, stop, link_right, link_left, rotated_right,
  rotated_left, left_branch, right_branch, splay_step,
}

pub Compared-cases : (c : Compared) → (c ≡ less_than) ⊎ ((c ≡ greater_than) ⊎ (c ≡ equal))
Compared-cases less_than = inl refl
Compared-cases greater_than = inr (inl refl)
Compared-cases equal = inr (inr refl)

module _ {A : Type 0} where
  -- The nodes from left to right.
  abbrev pub inorder : Tree A → List (Item A)
  inorder nil = []
  inorder (node l x r) = inorder l ++ x ∷ inorder r

  abbrev pub before : LeftSpine A → List (Item A)
  before [] = []
  before ((l, x) ∷ spine) = before spine ++ (inorder l ++ x ∷ [])

  abbrev pub after : RightSpine A → List (Item A)
  after [] = []
  after ((x, r) ∷ spine) = x ∷ inorder r ++ after spine

  pub inorder-assemble_left :
      (spine : LeftSpine A) (t : Tree A)
      → inorder (assemble_left spine t) ≡ before spine ++ inorder t
  unfolding assemble_left
  inorder-assemble_left [] t = refl
  inorder-assemble_left ((l, x) ∷ spine) t =
      simp (inorder-assemble_left spine (node l x t), append_assoc)

  pub inorder-assemble_right :
      (spine : RightSpine A) (t : Tree A)
      → inorder (assemble_right spine t) ≡ inorder t ++ after spine
  unfolding assemble_right
  inorder-assemble_right [] t = sym (append-nil _)
  inorder-assemble_right ((x, r) ∷ spine) t =
      simp (inorder-assemble_right spine (node t x r), append_assoc)

-- What the code relies on in the guest's compare routine: a strict order up to an equivalence.
pub record IsOrder {A : Type 0} (compare_routine : A → A → Compared) : Type 0 where
  pub less_trans :
      (a b c : A)
      → compare_routine a b ≡ less_than
      → compare_routine b c ≡ less_than
      → compare_routine a c ≡ less_than
  pub greater_iff :
      (a b : A) → (compare_routine a b ≡ greater_than) ↔ (compare_routine b a ≡ less_than)
  pub equal_symm : (a b : A) → compare_routine a b ≡ equal → compare_routine b a ≡ equal
  pub equal_less :
      (a b c : A)
      → compare_routine a b ≡ equal
      → compare_routine b c ≡ less_than
      → compare_routine a c ≡ less_than

module _ {A : Type 0} (compare_routine : A → A → Compared) where
  abbrev pub Precedes : Item A → Item A → Type 0
  Precedes x y = compare_routine x.body y.body ≡ less_than

  abbrev pub IsSorted : List (Item A) → Type 0
  IsSorted [] = Unit
  IsSorted (x ∷ xs) = All (λ y. Precedes x y) xs × IsSorted xs

module _ {A : Type 0} (compare_routine : A → A → Compared) (item : A) where
  -- A step keeps the nodes in order, and knows on which side of its root the item belongs.
  abbrev pub StepKeeps : List (Item A) → ℕ → Step A → Type 0
  StepKeeps xs n (stop true l x r) =
      (inorder l ++ x ∷ inorder r ≡ xs) × (compare_routine item x.body ≡ equal)
  StepKeeps xs n (stop false l x r) =
      (inorder l ++ x ∷ inorder r ≡ xs)
      × ((compare_routine item x.body ≡ less_than) × (l ≡ nil)
          ⊎ (compare_routine item x.body ≡ greater_than) × (r ≡ nil))
  StepKeeps xs n (link_right x r t) =
      (inorder t ++ x ∷ inorder r ≡ xs)
      × (compare_routine item x.body ≡ less_than)
      × (size t < n)
      × (0 < size t)
  StepKeeps xs n (link_left l x t) =
      (inorder l ++ x ∷ inorder t ≡ xs)
      × (compare_routine item x.body ≡ greater_than)
      × (size t < n)
      × (0 < size t)

  rotated_right-StepKeeps :
      (ll : Tree A) (y : Item A) (lr : Tree A) (x : Item A) (r : Tree A)
      → compare_routine item y.body ≡ less_than
      → StepKeeps
          (inorder (node (node ll y lr) x r))
          (size (node (node ll y lr) x r))
          (rotated_right compare_routine item ll y (node lr x r))
  unfolding rotated_right
  rotated_right-StepKeeps nil y lr x r e = (refl, inl (e, refl))
  rotated_right-StepKeeps (node a b c) y lr x r e = (
    sym (append_assoc (inorder (node a b c)) (y ∷ inorder lr) (x ∷ inorder r)),
    e,
    omega arith,
    omega arith,
  )

  rotated_left-StepKeeps :
      (l : Tree A) (x : Item A) (rl : Tree A) (y : Item A) (rr : Tree A)
      → compare_routine item y.body ≡ greater_than
      → StepKeeps
          (inorder (node l x (node rl y rr)))
          (size (node l x (node rl y rr)))
          (rotated_left compare_routine item (node l x rl) y rr)
  unfolding rotated_left
  rotated_left-StepKeeps l x rl y nil e =
      (append_assoc (inorder l) (x ∷ inorder rl) (y ∷ []), inr (e, refl))
  rotated_left-StepKeeps l x rl y (node a b c) e = (
    append_assoc (inorder l) (x ∷ inorder rl) (y ∷ inorder (node a b c)),
    e,
    omega arith,
    omega arith,
  )

  left_branch-StepKeeps :
      (l : Tree A) (x : Item A) (r : Tree A)
      → compare_routine item x.body ≡ less_than
      → StepKeeps
          (inorder (node l x r))
          (size (node l x r))
          (left_branch compare_routine item l x r)
  unfolding left_branch
  left_branch-StepKeeps nil x r e = (refl, inl (e, refl))
  left_branch-StepKeeps (node ll y lr) x r e = elim (Compared-cases (compare_routine item y.body)) [
    | inl c ↦ rw (StepKeeps, left_branch, c) (rotated_right-StepKeeps ll y lr x r c)
    | inr (inl c) ↦ rw (StepKeeps, left_branch, c) (refl, e, omega arith, omega arith)
    | inr (inr c) ↦ rw (StepKeeps, left_branch, c) (refl, e, omega arith, omega arith)
  ]

  right_branch-StepKeeps :
      (l : Tree A) (x : Item A) (r : Tree A)
      → compare_routine item x.body ≡ greater_than
      → StepKeeps
          (inorder (node l x r))
          (size (node l x r))
          (right_branch compare_routine item l x r)
  unfolding right_branch
  right_branch-StepKeeps l x nil e = (refl, inr (e, refl))
  right_branch-StepKeeps l x (node rl y rr) e =
      elim (Compared-cases (compare_routine item y.body)) [
        | inl c ↦ rw (StepKeeps, right_branch, c) (refl, e, omega arith, omega arith)
        | inr (inl c) ↦ rw (StepKeeps, right_branch, c) (rotated_left-StepKeeps l x rl y rr c)
        | inr (inr c) ↦ rw (StepKeeps, right_branch, c) (refl, e, omega arith, omega arith)
      ]

  pub splay_step-StepKeeps :
      (l : Tree A) (x : Item A) (r : Tree A)
      → StepKeeps (inorder (node l x r)) (size (node l x r)) (splay_step compare_routine item l x r)
  unfolding splay_step
  splay_step-StepKeeps l x r = elim (Compared-cases (compare_routine item x.body)) [
    | inl c ↦ rw (StepKeeps, splay_step, c) (left_branch-StepKeeps l x r c)
    | inr (inl c) ↦ rw (StepKeeps, splay_step, c) (right_branch-StepKeeps l x r c)
    | inr (inr c) ↦ rw (StepKeeps, splay_step, c) (refl, c)
  ]
