-- ===== src/Heap/Sizes.antt =====
-- libs/ntdll/heap.c: the sizes that the blocks are recorded with, and what reallocation keeps.
use mathlib.Core.List.{append-nil}
use nloader.Base.{
  ℕ, ◌+◌, ◌-◌, ◌%◌, ◌^◌, ◌≤◌, ◌<◌, ◌≡◌, refl, ap, Bool, true, false, Option, none, some, List, ◌++◌,
  arith, length, drop_enough, take, replicate, ltb, ◌==◌, if◌then◌else◌,
}
use nloader.Heap.{
  done, fault, Block, Memory, put, max_heap_alloc, heapalloc_magic, zeroing, set_zero, heap_header,
  block_at, size_heap, free_heap,
}

-- A block that was given out.
abbrev pub given_block : List ℕ → Block
given_block c = record { magic = heapalloc_magic; size = length c; content = c }

abbrev pub IsGiven : Option Block → Type 0
IsGiven none = Unit
IsGiven (some b) = (b ≡ given_block (b.content)) × (length (b.content) < max_heap_alloc)

-- Each block of the memory is one of the heap, of less than a gigabyte.
abbrev pub IsHeap : Memory → Type 0
IsHeap mem = (a : ℕ) → IsGiven (mem a)

-- What `malloc` and `realloc` document.
abbrev pub IsMalloc : (ℕ → Memory → Option (ℕ × Block)) → Type 0
IsMalloc malloc =
    (n : ℕ) (mem : Memory) (a : ℕ) (b : Block)
    → malloc n mem ≡ some (a, b)
    → (mem a ≡ none) × (length (b.content) + 8 ≡ n)

abbrev pub IsRealloc : (ℕ → ℕ → Memory → Option (ℕ × Block)) → Type 0
IsRealloc realloc =
    (a n : ℕ) (mem : Memory) (b : Block) (a' : ℕ) (b' : Block)
    → mem a ≡ some b
    → realloc a n mem ≡ some (a', b')
    → (length (b'.content) + 8 ≡ n)
      × ((k : ℕ)
          → k ≤ length (b.content)
          → k ≤ length (b'.content)
          → take k (b'.content) ≡ take k (b.content))

-- The bytes `c` of a block, as `c'` after its size was changed.
abbrev pub Resized : ℕ → List ℕ → ℕ → List ℕ → Type 0
Resized flags c size c' =
    (length c' ≡ size)
    × (size ≤ length c → c' ≡ take size c)
    × (length c < size → take (length c) c' ≡ c)
    × (length c < size → zeroing flags ≡ true → c' ≡ c ++ replicate (size - length c) 0)

if-IsGiven : (t : Bool) (x y : Option Block) → IsGiven x → IsGiven y → IsGiven (if t then x else y)
if-IsGiven true x y h k = h
if-IsGiven false x y h k = k

pub put-IsHeap :
    (mem : Memory) (a : ℕ) (x : Option Block) → IsHeap mem → IsGiven x → IsHeap (put mem a x)
unfolding put
put-IsHeap mem a x heap h p = if-IsGiven (p == a) x (mem p) h (heap p)

pub put_self : (mem : Memory) (a : ℕ) (b : Option Block) → put mem a b a ≡ b
unfolding put
put_self mem a b = let same : (a == a) ≡ true = ground arith in rw same refl

pub set_zero-rest :
    (i : ℕ) (c : List ℕ) → set_zero i (length c) c ≡ take i c ++ replicate (length c - i) 0
unfolding set_zero
set_zero-rest i c =
    rw (drop_enough (length c) c (omega arith))
      (ap (λ l. take i c ++ l) (append-nil (replicate (length c - i) 0)))

pub heap_header-block :
    (c : List ℕ) → length c < max_heap_alloc → heap_header (length c) c ≡ given_block c
unfolding heap_header
heap_header-block c h = let small : length c % 2 ^ 32 ≡ length c = omega (arith, h) in rw small refl

pub block_at-behind : (mem : Memory) (a : ℕ) → block_at mem (a + 8) ≡ mem a
unfolding block_at
block_at-behind mem a =
    let room : ltb (a + 8) 8 ≡ false = ground arith in
    let back : a + 8 - 8 ≡ a = omega arith in rw (room, back) refl

pub size_heap-block :
    (mem : Memory) (a : ℕ) (c : List ℕ)
    → mem a ≡ some (given_block c)
    → size_heap mem (a + 8) ≡ done (length c)
unfolding size_heap
size_heap-block mem a c e = rw (size_heap, block_at-behind mem a, e) refl

pub free_heap-block :
    (mem : Memory) (a : ℕ) (c : List ℕ)
    → mem a ≡ some (given_block c)
    → free_heap mem (a + 8) ≡ done (true, put mem a none)
unfolding free_heap
free_heap-block mem a c e =
    let back : a + 8 - 8 ≡ a = omega arith in rw (free_heap, block_at-behind mem a, e, back) refl

pub size_heap-none : (mem : Memory) (a : ℕ) → mem a ≡ none → size_heap mem (a + 8) ≡ fault
unfolding size_heap
size_heap-none mem a e = rw (size_heap, block_at-behind mem a, e) refl
