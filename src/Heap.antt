-- ===== src/Heap.antt =====
-- libs/ntdll/heap.c: the blocks that the heap functions keep in the memory of the host, each with a
-- magic number and its size in front. `malloc` and `realloc` are the host's: a pointer of theirs, 8
-- bytes in front of the one that is given out, with what stands there.
pub mod Sizes
pub mod Blocks
use nloader.Base.{
  ℕ, ◌+◌, ◌-◌, ◌/◌, ◌%◌, ◌^◌, Bool, true, false, ◌&&◌, Option, none, some, List, ◌++◌, length, take,
  drop, replicate, ltb, ◌==◌, if◌then◌else◌,
}

-- `fault` is an access that is not in a block, `aborted` an assertion that fails.
pub data Outcome (A : Type 0) : Type 0 where
  done : A → Outcome A
  fault : Outcome A
  aborted : Outcome A

-- `HEAP_OFFMAGIC`, `HEAP_OFFSIZE` and the bytes behind them.
pub record Block : Type 0 where
  pub magic : ℕ
  pub size : ℕ
  pub content : List ℕ

abbrev pub Memory : Type 0
Memory = ℕ → Option Block

unfoldable pub put : Memory → ℕ → Option Block → Memory
put mem a b p = if p == a then b else mem p

abbrev pub max_heap_alloc : ℕ
max_heap_alloc = 1073741824

abbrev pub heapalloc_magic : ℕ
heapalloc_magic = 4277858544

-- `Flags & HEAP_ZERO_MEMORY`.
abbrev pub zeroing : ℕ → Bool
zeroing flags = flags / 8 % 2 == 1

-- `memset` with 0 from a place up to another.
unfoldable pub set_zero : ℕ → ℕ → List ℕ → List ℕ
set_zero i j content = take i content ++ (replicate (j - i) 0 ++ drop j content)

unfoldable pub heap_header : ℕ → List ℕ → Block
heap_header size content = record {
  magic = heapalloc_magic;
  size = size % 2 ^ 32;
  content = content;
}

-- The block of a pointer that was given out.
unfoldable pub block_at : Memory → ℕ → Option Block
block_at mem pointer = if ltb pointer 8 then none else mem (pointer - 8)

unfoldable pub size_heap : Memory → ℕ → Outcome ℕ
unfolding block_at
size_heap mem pointer = elim (block_at mem pointer) [
  | none ↦ fault
  | some b ↦ if b.magic == heapalloc_magic then done (b.size) else aborted
]

-- The magic number of a block that is freed is changed, but the block is not the heap's any more.
unfoldable pub free_heap : Memory → ℕ → Outcome (Bool × Memory)
unfolding block_at put
free_heap mem pointer = elim (block_at mem pointer) [
  | none ↦ fault
  | some b ↦ if b.magic == heapalloc_magic then done (true, put mem (pointer - 8) none) else aborted
]

module _ (malloc : ℕ → Memory → Option (ℕ × Block))
    (realloc : ℕ → ℕ → Memory → Option (ℕ × Block)) where
  unfoldable pub allocate_block : ℕ → ℕ → Memory → Outcome (ℕ × Memory)
  unfolding put set_zero heap_header
  allocate_block flags size mem = elim (malloc (size + 8) mem) [
    | none ↦ aborted
    | some (a, b) ↦
        let content = if zeroing flags then set_zero 0 size b.content else b.content in
        done (a + 8, put mem a (some (heap_header size content)))
  ]

  unfoldable pub allocate_heap : ℕ → ℕ → Memory → Outcome (ℕ × Memory)
  unfolding allocate_block
  allocate_heap flags size mem =
      if ltb size max_heap_alloc then allocate_block flags size mem else aborted

  unfoldable pub reallocate_block : ℕ → ℕ → ℕ → ℕ → Memory → Outcome (ℕ × Memory)
  unfolding put set_zero heap_header
  reallocate_block flags a old size mem = elim (realloc a (size + 8) mem) [
    | none ↦ aborted
    | some (a', b) ↦
        let content =
          if ltb old size && zeroing flags then set_zero old size b.content else b.content in
        done (a' + 8, put (put mem a none) a' (some (heap_header size content)))
  ]

  -- A null pointer is `none`.
  unfoldable pub re_allocate_heap : ℕ → Option ℕ → ℕ → Memory → Outcome (ℕ × Memory)
  unfolding allocate_heap reallocate_block block_at
  re_allocate_heap flags none size mem =
      if ltb size max_heap_alloc then allocate_heap flags size mem else aborted
  re_allocate_heap flags (some pointer) size mem =
      if ltb size max_heap_alloc
      then elim (block_at mem pointer) [
        | none ↦ fault
        | some b ↦ reallocate_block flags (pointer - 8) b.size size mem
      ]
      else aborted
