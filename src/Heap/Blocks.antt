-- ===== src/Heap/Blocks.antt =====
-- libs/ntdll/heap.c: allocation, and what it makes of the blocks.
use nloader.Base.{
  ℕ, ◌+◌, ◌-◌, ◌≤◌, ◌<◌, ◌≡◌, inl, inr, refl, ap, sym, ◌∙◌, true, ◌&&◌, Option, none, some, List,
  ◌++◌, arith, length, length-append, length-replicate, take_enough, take-append, take, replicate,
  ltb, ◌==◌, if◌then◌else◌, Bool-cases,
}
use nloader.Heap.{
  done, fault, Block, Memory, put, max_heap_alloc, zeroing, set_zero, heap_header, size_heap,
  free_heap, allocate_block, allocate_heap, reallocate_block, re_allocate_heap,
}
use nloader.Heap.Sizes.{
  given_block, IsHeap, IsMalloc, IsRealloc, Resized, put-IsHeap, put_self, set_zero-rest,
  heap_header-block, block_at-behind, size_heap-block, free_heap-block, size_heap-none,
}

-- What a new block holds.
initial-size :
    (flags size : ℕ) (c : List ℕ)
    → length c ≡ size
    → (c' : List ℕ) × ((if zeroing flags then set_zero 0 size c else c) ≡ c')
      × (length c' ≡ size)
      × (zeroing flags ≡ true → c' ≡ replicate size 0)
initial-size flags size c e = elim (Bool-cases (zeroing flags)) [
  | inl l ↦ (
    replicate size 0,
    rw l (
        ap (λ n. set_zero 0 n c) (sym e)
        ∙ set_zero-rest 0 c
        ∙ ap (λ n. replicate n 0) (omega arith)),
    length-replicate size 0,
    λ h. refl,
  )
  | inr l ↦ (c, rw l refl, e, λ h. absurd (cc (l, h)))
]

abbrev Kept : List ℕ → List ℕ → Type 0
Kept c b = (k : ℕ) → k ≤ length c → k ≤ length b → take k b ≡ take k c

take-Kept :
    (size : ℕ) (c b : List ℕ) → length b ≡ size → Kept c b → length c < size → take (length c) b ≡ c
take-Kept size c b e kept h =
    kept (length c) (omega arith) (omega (arith, e, h)) ∙ take_enough (length c) c (omega arith)

unzeroed-Resized :
    (flags size : ℕ) (c b : List ℕ)
    → length b ≡ size
    → Kept c b
    → (length c < size → zeroing flags ≡ true → ⊥)
    → Resized flags c size b
unzeroed-Resized flags size c b e kept never = (
  e,
  λ h. sym (take_enough size b (omega (arith, e))) ∙ kept size h (omega (arith, e)),
  take-Kept size c b e kept,
  λ h z. absurd (never h z),
)

zeroed-Resized :
    (flags size : ℕ) (c : List ℕ)
    → length c < size
    → Resized flags c size (c ++ replicate (size - length c) 0)
zeroed-Resized flags size c h = (
  omega (
    arith,
    length-append c (replicate (size - length c) 0),
    length-replicate {A = ℕ} (size - length c) 0,
    h,
  ),
  λ k. absurd (omega arith),
  λ k. take-append c (replicate (size - length c) 0),
  λ k z. refl,
)

-- What a block holds that has another size.
Resized-resize :
    (flags size : ℕ) (c b : List ℕ)
    → length b ≡ size
    → Kept c b
    → (c' : List ℕ) × ((if ltb (length c) size && zeroing flags
          then set_zero (length c) size b
          else b)
        ≡ c')
      × Resized flags c size c'
Resized-resize flags size c b e kept = elim (Bool-cases (ltb (length c) size)) [
  | inr l ↦ (b, rw l refl, unzeroed-Resized flags size c b e kept (λ h z. ground (arith, l, h)))
  | inl l ↦
      let grows : length c < size = ground arith in
      elim (Bool-cases (zeroing flags)) [
        | inr z ↦
            (b, rw (l, z) refl, unzeroed-Resized flags size c b e kept (λ h t. absurd (cc (z, t))))
        | inl z ↦ (
          c ++ replicate (size - length c) 0,
          rw (l, z)
              (ap (λ n. set_zero (length c) n b) (sym e)
                ∙ set_zero-rest (length c) b
                ∙ ap (λ l. l ++ replicate (length b - length c) 0) (take-Kept size c b e kept grows)
                ∙ ap (λ n. c ++ replicate (n - length c) 0) e),
          zeroed-Resized flags size c grows,
        )
      ]
]

put_back :
    (mem : Memory) (a : ℕ) (x : Option Block)
    → mem a ≡ none
    → (p : ℕ) → put (put mem a x) a none p ≡ mem p
unfolding put
put_back mem a x free p = elim (Bool-cases (p == a)) [
  | inl l ↦ let same : p ≡ a = ground (arith, l) in rw l (sym (ap mem same ∙ free))
  | inr l ↦ rw l refl
]

module _ (malloc : ℕ → Memory → Option (ℕ × Block)) (realloc : ℕ → ℕ → Memory → Option (ℕ × Block))
    (mem : Memory) (flags size : ℕ) (heap : IsHeap mem) (small : size < max_heap_alloc) where
  -- Where `malloc` has memory.
  allocate_heap-block :
      (a : ℕ) (b : Block)
      → IsMalloc malloc
      → malloc (size + 8) mem ≡ some (a, b)
      → (c : List ℕ) × (allocate_heap malloc realloc flags size mem
          ≡ done (a + 8, put mem a (some (given_block c))))
        × (length c ≡ size)
        × (zeroing flags ≡ true → c ≡ replicate size 0)
  unfolding allocate_heap
  allocate_heap-block a b documented e =
      let (free, n) = documented (size + 8) mem a b e in
      let (c, f, g, z) = initial-size flags size b.content (omega (arith, n)) in
      let there : ltb size max_heap_alloc ≡ true = ground (arith, small) in
      let front : heap_header size c ≡ given_block c =
        ap (λ n. heap_header n c) (sym g) ∙ heap_header-block c (omega (arith, g, small)) in
      (c, rw (there, allocate_block, e, f, front) refl, g, z)

  -- In a memory whose blocks are the heap's, where `malloc` has memory, a block of less than a
  -- gigabyte is allocated, of zeros if that is asked for; its size is the one given, each block of
  -- the memory is still one of the heap, and freeing it leaves the memory as it was, where the
  -- pointer has no size: where `malloc` documents that the block was not in use and has the length
  -- asked for.
  pub free_heap-allocate_heap :
      (a : ℕ) (b : Block)
      → IsMalloc malloc
      → malloc (size + 8) mem ≡ some (a, b)
      → (mem' : Memory) × (c : List ℕ) × (mem'' : Memory) × (allocate_heap malloc realloc flags size
            mem
          ≡ done (a + 8, mem'))
        × (mem' a ≡ some (given_block c))
        × (zeroing flags ≡ true → c ≡ replicate size 0)
        × (size_heap mem' (a + 8) ≡ done size)
        × IsHeap mem'
        × (free_heap mem' (a + 8) ≡ done (true, mem''))
        × (size_heap mem'' (a + 8) ≡ fault)
        × ((p : ℕ) → mem'' p ≡ mem p)
  free_heap-allocate_heap a b documented e =
      let (c, f, g, z) = allocate_heap-block a b documented e in
      let there = put_self mem a (some (given_block c)) in
      let free = (documented (size + 8) mem a b e).0 in
      let mem' = put mem a (some (given_block c)) in
      (
        mem',
        c,
        put mem' a none,
        f,
        there,
        z,
        size_heap-block mem' a c there ∙ ap done g,
        put-IsHeap mem a (some (given_block c)) heap (refl, omega (arith, g, small)),
        free_heap-block mem' a c there,
        size_heap-none (put mem' a none) a (put_self mem' a none),
        put_back mem a (some (given_block c)) free,
      )

  -- In a memory whose blocks are the heap's, where `realloc` has memory, a block gets a size of
  -- less than a gigabyte: it keeps its bytes as far as both sizes go, and the bytes behind its old
  -- size are zeros if that is asked for; each block of the memory is still one of the heap: where
  -- `realloc` documents that the block has the length asked for and keeps its bytes.
  pub re_allocate_heap-Resized :
      (a a' : ℕ) (c : List ℕ) (b : Block)
      → IsRealloc realloc
      → mem a ≡ some (given_block c)
      → realloc a (size + 8) mem ≡ some (a', b)
      → (c' : List ℕ) × (re_allocate_heap malloc realloc flags (some (a + 8)) size mem
          ≡ done (a' + 8, put (put mem a none) a' (some (given_block c'))))
        × Resized flags c size c'
        × IsHeap (put (put mem a none) a' (some (given_block c')))
  unfolding re_allocate_heap
  re_allocate_heap-Resized a a' c b documented old e =
      let (n, kept) = documented a (size + 8) mem (given_block c) a' b old e in
      let (c', f, g) = Resized-resize flags size c b.content (omega (arith, n)) kept in
      let there : ltb size max_heap_alloc ≡ true = ground (arith, small) in
      let back : a + 8 - 8 ≡ a = omega arith in
      let fits : length c' < max_heap_alloc = omega (arith, g.0, small) in
      let front : heap_header size c' ≡ given_block c' =
        ap (λ n. heap_header n c') (sym g.0) ∙ heap_header-block c' fits in
      (
        c',
        rw (there, block_at-behind mem a, old, reallocate_block, back, e, back, f, front) refl,
        g,
        put-IsHeap (put mem a none) a' (some (given_block c')) (put-IsHeap mem a none heap tt)
            (refl, fits),
      )
