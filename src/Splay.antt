-- ===== src/Splay.antt =====
-- libs/ntdll/splay.c: the generic tables, a top-down splay tree whose nodes are also chained in the
-- order of insertion.
-- A node is an `Item`: its address, and the structure that the guest stored in it. The links of the
-- tree are the constructors of `Tree`; `Parent` is written by the code and never read by it, so it
-- has no field here. The list that starts at `InsertOrderList` is the list of the addresses of its
-- nodes.
pub mod Steps
pub mod Loop
pub mod Table
pub mod Contains
pub mod Valid
pub mod Insert
pub mod Lookup
pub mod Drop
pub mod Delete
pub mod Enumerate
use nloader.Base.{
  ℕ, zero, suc, ◌+◌, Bool, true, false, Option, none, some, List, [], ◌∷◌, ◌++◌, ◌==◌,
  if◌then◌else◌,
}

-- `RTL_GENERIC_COMPARE_RESULTS`
pub data Compared : Type 0 where
  less_than : Compared
  greater_than : Compared
  equal : Compared

pub record Item (A : Type 0) : Type 0 where
  pub address : ℕ
  pub body : A

pub data Tree (A : Type 0) : Type 0 where
  nil : Tree A
  node : Tree A → Item A → Tree A → Tree A

-- The tree that hangs from `left`, the last linked node first: each keeps its left subtree, and its
-- right child is what is linked next.
abbrev pub LeftSpine : Type 0 → Type 0
LeftSpine A = List (Tree A × Item A)

abbrev pub RightSpine : Type 0 → Type 0
RightSpine A = List (Item A × Tree A)

module _ {A : Type 0} where
  unfoldable pub assemble_left : LeftSpine A → Tree A → Tree A
  assemble_left [] t = t
  assemble_left ((l, x) ∷ spine) t = assemble_left spine (node l x t)

  unfoldable pub assemble_right : RightSpine A → Tree A → Tree A
  assemble_right [] t = t
  assemble_right ((x, r) ∷ spine) t = assemble_right spine (node t x r)

  -- The assignments behind the loop of `splay`.
  unfoldable pub finish :
      Bool → LeftSpine A → RightSpine A → Tree A → Item A → Tree A → Tree A × Bool
  unfolding assemble_left assemble_right
  finish found left right l x r = (node (assemble_left left l) x (assemble_right right r), found)

  abbrev pub size : Tree A → ℕ
  size nil = 0
  size (node l x r) = suc (size l + size r)

-- One round of the loop of `splay`: it ends at a root, or links the root of the tree (rotated
-- first, if two steps go the same way) on one side and goes on at a child of it.
pub data Step (A : Type 0) : Type 0 where
  stop : Bool → Tree A → Item A → Tree A → Step A
  link_right : Item A → Tree A → Tree A → Step A
  link_left : Tree A → Item A → Tree A → Step A

module _ {A : Type 0} (compare_routine : A → A → Compared) (item : A) where
  -- After the rotation to the right the loop ends if there is no left child.
  unfoldable pub rotated_right : Tree A → Item A → Tree A → Step A
  rotated_right nil y r = stop false nil y r
  rotated_right (node a b c) y r = link_right y r (node a b c)

  unfoldable pub rotated_left : Tree A → Item A → Tree A → Step A
  rotated_left l y nil = stop false l y nil
  rotated_left l y (node a b c) = link_left l y (node a b c)

  unfoldable pub left_branch : Tree A → Item A → Tree A → Step A
  unfolding rotated_right
  left_branch nil x r = stop false nil x r
  left_branch (node ll y lr) x r = elim (compare_routine item y.body) [
    | less_than ↦ rotated_right ll y (node lr x r)
    | _ ↦ link_right x r (node ll y lr)
  ]

  unfoldable pub right_branch : Tree A → Item A → Tree A → Step A
  unfolding rotated_left
  right_branch l x nil = stop false l x nil
  right_branch l x (node rl y rr) = elim (compare_routine item y.body) [
    | greater_than ↦ rotated_left (node l x rl) y rr
    | _ ↦ link_left l x (node rl y rr)
  ]

  unfoldable pub splay_step : Tree A → Item A → Tree A → Step A
  unfolding left_branch right_branch
  splay_step l x r = elim (compare_routine item x.body) [
    | less_than ↦ left_branch l x r
    | greater_than ↦ right_branch l x r
    | equal ↦ stop true l x r
  ]

  -- How the loop goes on: `next` is the rest of it.
  unfoldable pub resume :
      (LeftSpine A → RightSpine A → Tree A → Option (Tree A × Bool))
      → LeftSpine A
      → RightSpine A
      → Step A
      → Option (Tree A × Bool)
  unfolding finish
  resume next left right (stop found l x r) = some (finish found left right l x r)
  resume next left right (link_right x r t) = next left ((x, r) ∷ right) t
  resume next left right (link_left l x t) = next ((l, x) ∷ left) right t

  -- The loop; `none` means that the fuel ran out. The loop never reaches a null root.
  unfoldable pub splay_loop : ℕ → LeftSpine A → RightSpine A → Tree A → Option (Tree A × Bool)
  unfolding resume splay_step
  splay_loop zero left right t = none
  splay_loop (suc fuel) left right nil = none
  splay_loop (suc fuel) left right (node l x r) =
      resume (splay_loop fuel) left right (splay_step l x r)

  -- `splay`: the new root, and whether `item` is in the tree. Each round goes down at least one
  -- level, so as many rounds as the tree has nodes are enough.
  unfoldable pub splay : Tree A → Option (Tree A × Bool)
  unfolding splay_loop
  splay nil = some (nil, false)
  splay (node l x r) = splay_loop (size (node l x r)) [] [] (node l x r)
