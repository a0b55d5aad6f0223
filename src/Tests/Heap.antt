-- ===== src/Tests/Heap.antt =====
-- libs/ntdll/heap.c with an allocator of one block.
use mathlib.Core.Option.{none-ne-some, some-injective}
use nloader.Base.{
  inl, inr, ℕ, zero, suc, ◌+◌, ◌-◌, ◌≤◌, ◌≡◌, refl, ap, sym, ◌∙◌, true, false, Option, none, some,
  List, [], ◌∷◌, ◌++◌, arith, length, length-append, length-replicate, take, replicate, ltb, ◌==◌,
  if◌then◌else◌, Bool-cases,
}
use nloader.Heap.{
  done, fault, Block, Memory, put, zeroing, allocate_heap, re_allocate_heap, size_heap, free_heap,
}
use nloader.Heap.Sizes.{given_block, IsHeap, IsMalloc, IsRealloc, Resized, put-IsHeap}
use nloader.Heap.Blocks.{free_heap-allocate_heap, re_allocate_heap-Resized}

abbrev fresh : ℕ → Block
fresh n = record { magic = 0; size = 0; content = replicate n 7 }

abbrev take_place : Option Block → ℕ → Option (ℕ × Block)
take_place none n = if ltb n 8 then none else some (100, fresh (n - 8))
take_place (some b) n = none

abbrev malloc : ℕ → Memory → Option (ℕ × Block)
malloc n mem = take_place (mem 100) n

refused : (n : ℕ) → ltb n 8 ≡ true → take_place none n ≡ none
refused n l = rw l refl

placed : (n : ℕ) → ltb n 8 ≡ false → take_place none n ≡ some (100, fresh (n - 8))
placed n l = rw l refl

ltb→le : (n : ℕ) → ltb n 8 ≡ false → 8 ≤ n
ltb→le n l = ground arith

take_place-fresh :
    (o : Option Block) (n a : ℕ) (b : Block)
    → take_place o n ≡ some (a, b)
    → (o ≡ none) × (a ≡ 100) × (length (b.content) + 8 ≡ n)
take_place-fresh (some c) n a b e = absurd (none-ne-some _ e)
take_place-fresh none n a b e = elim (Bool-cases (ltb n 8)) [
  | inl l ↦ absurd (none-ne-some _ (sym (refused n l) ∙ e))
  | inr l ↦
      let same : (100, fresh (n - 8)) ≡ (a, b) = some-injective _ _ (sym (placed n l) ∙ e) in
      (
        refl,
        sym (ap (λ (p : ℕ × Block). p.0) same),
        ap (λ (p : ℕ × Block). length (p.1.content) + 8) (sym same)
            ∙ omega (arith, length-replicate {A = ℕ} (n - 8) 7, ltb→le n l),
      )
]

take-append_left : (k : ℕ) (xs ys : List ℕ) → k ≤ length xs → take k (xs ++ ys) ≡ take k xs
take-append_left zero xs ys h = refl
take-append_left (suc k) [] ys h = absurd (omega arith)
take-append_left (suc k) (x ∷ xs) ys h = ap (λ l. x ∷ l) (take-append_left k xs ys (omega arith))

malloc-IsMalloc : IsMalloc malloc
malloc-IsMalloc n mem a b e =
    let (free, there, size) = take_place-fresh (mem 100) n a b e in (ap mem there ∙ free, size)

-- Two bytes more, in the same place.
abbrev grown : Block → Block
grown b = record b { content = b.content ++ (9 ∷ 9 ∷ []) }

abbrev grow : ℕ → ℕ → Option Block → Option (ℕ × Block)
grow a n none = none
grow a n (some b) = if n == length (b.content) + 10 then some (a, grown b) else none

abbrev realloc : ℕ → ℕ → Memory → Option (ℕ × Block)
realloc a n mem = grow a n (mem a)

grow-keeps :
    (a n : ℕ) (b : Block) (a' : ℕ) (b' : Block)
    → grow a n (some b) ≡ some (a', b')
    → (length (b'.content) + 8 ≡ n) × (grown b ≡ b')
grow-keeps a n b a' b' e = elim (Bool-cases (n == length (b.content) + 10)) [
  | inr l ↦ absurd (none-ne-some _ (sym (not_grown l) ∙ e))
  | inl l ↦
      let same : grown b ≡ b' =
        ap (λ (p : ℕ × Block). p.1) (some-injective _ _ (sym (did l) ∙ e)) in
      (
        ap (λ (c : Block). length (c.content) + 8) (sym same)
            ∙ omega (arith, length-append (b.content) (9 ∷ 9 ∷ []), size l),
        same,
      )
]
  where
    not_grown : (n == length (b.content) + 10) ≡ false → grow a n (some b) ≡ none
    not_grown l = rw l refl

    did : (n == length (b.content) + 10) ≡ true → grow a n (some b) ≡ some (a, grown b)
    did l = rw l refl

    size : (n == length (b.content) + 10) ≡ true → n ≡ length (b.content) + 10
    size l = ground arith

realloc-IsRealloc : IsRealloc realloc
realloc-IsRealloc a n mem b a' b' old e =
    let (size, same) = grow-keeps a n b a' b' (sym (ap (grow a n) old) ∙ e) in
    (
      size,
      λ k h h'.
          ap (λ (c : Block). take k (c.content)) (sym same)
          ∙ take-append_left k (b.content) (9 ∷ 9 ∷ []) h,
    )

abbrev one_block : Memory
one_block = put (λ p. none) 16 (some (given_block (5 ∷ 6 ∷ [])))

empty-IsHeap : IsHeap (λ p. none)
empty-IsHeap p = tt

one_block-IsHeap : IsHeap one_block
one_block-IsHeap =
    put-IsHeap (λ p. none) 16 (some (given_block (5 ∷ 6 ∷ []))) empty-IsHeap (refl, omega arith)

re_allocate_heap-Resized_example :
    (c' : List ℕ) × (re_allocate_heap malloc realloc 8 (some 24) 4 one_block
      ≡ done (24, put (put one_block 16 none) 16 (some (given_block c'))))
    × Resized 8 (5 ∷ 6 ∷ []) 4 c'
    × IsHeap (put (put one_block 16 none) 16 (some (given_block c')))
unfolding put
re_allocate_heap-Resized_example =
    re_allocate_heap-Resized malloc realloc one_block 8 4 one_block-IsHeap (omega arith) 16 16
      (5 ∷ 6 ∷ []) (grown (given_block (5 ∷ 6 ∷ []))) realloc-IsRealloc refl refl

free_heap-allocate_heap_example :
    (mem' : Memory) × (c : List ℕ) × (mem'' : Memory) × (allocate_heap malloc realloc 8 3 one_block
      ≡ done (108, mem'))
    × (mem' 100 ≡ some (given_block c))
    × (zeroing 8 ≡ true → c ≡ replicate 3 0)
    × (size_heap mem' 108 ≡ done 3)
    × IsHeap mem'
    × (free_heap mem' 108 ≡ done (true, mem''))
    × (size_heap mem'' 108 ≡ fault)
    × ((p : ℕ) → mem'' p ≡ one_block p)
unfolding put
free_heap-allocate_heap_example =
    free_heap-allocate_heap malloc realloc one_block 8 3 one_block-IsHeap (omega arith) 100
      (fresh 3) malloc-IsMalloc refl
