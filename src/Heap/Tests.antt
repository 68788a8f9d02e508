-- ===== src/Heap/Tests.antt =====
-- The allocator on a small heap, and the theorems about it at concrete inputs.
use mathlib.Core.Option
use microbit_dal.Prelude.{
  ℕ, ◌+◌, ◌<◌, ◌≡◌, refl, ◌↔◌, true, false, Option, none, some, List, [], ◌∷◌, arith,
}
use microbit_dal.Heap.{
  Memory, store, malloc_in, free, Allocator, HeapDefinition, blocks_needed, heap_block_free,
}
use microbit_dal.Heap.Blocks.{Block, Blocks}
use microbit_dal.Heap.FirstFit.{scan, first_fit, longest_run}
use microbit_dal.Heap.Malloc.{Refines, malloc_in-Refines}
use microbit_dal.Heap.Contract.{
  Allocated, Freed, malloc_in_allocates, malloc_in_fails_iff, free-Freed,
}

abbrev heap : HeapDefinition
heap = record { heap_start = 100; heap_end = 120 }

-- A used block of 4 words, a free one of 3, a free one of 5, and a used one of 8.
abbrev memory : Memory
memory =
    store (store (store (store (λ q. 0) 100 4) 104 (heap_block_free + 3)) 107 (heap_block_free + 5))
      112 8

abbrev blocks : List Block
blocks = (false, 4) ∷ (true, 3) ∷ (true, 5) ∷ (false, 8) ∷ []

memory-Blocks : Blocks memory 100 blocks 120
memory-Blocks = omega arith

-- Ten bytes need four words: the two free blocks are merged and split.
first_fit_runs :
    first_fit (blocks_needed 10) blocks
    ≡ ((false, 4) ∷ (false, 4) ∷ (true, 4) ∷ (false, 8) ∷ [], some 4)
unfolding first_fit scan
first_fit_runs = refl

malloc_in-Refines_example : Refines 10 heap memory blocks (first_fit (blocks_needed 10) blocks)
malloc_in-Refines_example =
    malloc_in-Refines 10 heap memory blocks (omega arith) memory-Blocks (omega arith)

after_malloc : Option.map (λ r. r.1) (malloc_in 10 heap memory) ≡ some (some 105)
unfolding malloc_in
after_malloc = refl

after_memory : (m : Memory) × (malloc_in 10 heap memory ≡ some (m, some 105))
unfolding malloc_in
after_memory = (_, refl)

malloc_in_allocates_example : Allocated 10 heap memory blocks after_memory.0 105
malloc_in_allocates_example =
    malloc_in_allocates 10 heap memory blocks (omega arith) memory-Blocks (omega arith)
      after_memory.0 105 after_memory.1

malloc_in_fails_iff_example :
    ((m' : Memory) × (malloc_in 40 heap memory ≡ some (m', none)))
    ↔ (longest_run 0 blocks < blocks_needed 40)
malloc_in_fails_iff_example =
    malloc_in_fails_iff 40 heap memory blocks (omega arith) memory-Blocks (omega arith)

abbrev no_native : ℕ → ℕ → ℕ × Option ℕ
no_native size n = (n, none)

abbrev count_frees : ℕ → ℕ → ℕ
count_frees p n = n + 1

abbrev allocator : Allocator
allocator = record { heaps = heap ∷ []; memory = memory }

free-Freed_example :
    Freed heap memory (free no_native count_frees 113 allocator 0).0.memory 112 ((100, 4) ∷ [])
    × ((free no_native count_frees 113 allocator 0).1 ≡ 0)
free-Freed_example =
    free-Freed no_native count_frees allocator 0 [] [] heap blocks ((100, 4) ∷ []) [] 112 8 refl
      memory-Blocks refl (omega arith)
