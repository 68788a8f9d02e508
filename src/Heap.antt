-- ===== src/Heap.antt =====
-- source/core/MicroBitHeapAllocator.cpp: the first-fit block allocator.
-- Memory is a map from word addresses (a `uint32_t *` divided by 4) to 32-bit words.

pub mod Blocks
pub mod FirstFit
pub mod Search
pub mod Malloc
pub mod Contract
mod Tests
use microbit_dal.Prelude.{
  ◌&&◌, ℕ, zero, suc, ◌+◌, ◌-◌, ◌*◌, ◌/◌, ◌%◌, ◌^◌, Bool, true, false, ◌||◌, List, [], ◌∷◌, ◌++◌,
  Option, none, some, ltb, leb, ◌==◌, if◌then◌else◌, length,
}

abbrev pub Memory : Type 0
Memory = ℕ → ℕ

-- `*p = v`
abbrev pub store : Memory → ℕ → ℕ → Memory
store m p v q = if q == p then v else m q

-- `HeapDefinition`, in words.
pub record HeapDefinition : Type 0 where
  pub heap_start : ℕ
  pub heap_end : ℕ

abbrev pub maximum_heaps : ℕ
maximum_heaps = 2

-- MICROBIT_HEAP_BLOCK_SIZE, in bytes
abbrev pub heap_block_size : ℕ
heap_block_size = 4

-- MICROBIT_HEAP_BLOCK_FREE
abbrev pub heap_block_free : ℕ
heap_block_free = 2 ^ 31

-- `w & MICROBIT_HEAP_BLOCK_FREE`, `w & ~MICROBIT_HEAP_BLOCK_FREE`, `w | MICROBIT_HEAP_BLOCK_FREE`
abbrev pub is_free : ℕ → Bool
is_free w = w / heap_block_free % 2 == 1

abbrev pub size_bits : ℕ → ℕ
size_bits w = w % heap_block_free

abbrev pub mark_free : ℕ → ℕ
mark_free w = w % heap_block_free + heap_block_free

-- The error codes of `microbit_create_heap`.
pub data Status : Type 0 where
  ok no_resources invalid_parameter : Status

pub initialise_heap : HeapDefinition → Memory → Memory
initialise_heap h m =
    let m' = store m h.heap_start ((h.heap_end - h.heap_start) * 4 / heap_block_size) in
    store m' h.heap_start (mark_free (m' h.heap_start))

pub record Allocator : Type 0 where
  pub heaps : List HeapDefinition
  pub memory : Memory

abbrev pub not_aligned : ℕ → Bool
not_aligned p = if p % 4 == 0 then false else true

-- `start` and `end` are byte addresses.
pub create_heap : ℕ → ℕ → Allocator → Allocator × Status
unfolding initialise_heap
create_heap start end a =
    let h : HeapDefinition = record { heap_start = start / 4; heap_end = end / 4 } in
    if length a.heaps == maximum_heaps
    then (a, no_resources)
    else if leb end start
        || ltb (end - start) (heap_block_size * 2)
        || not_aligned end
        || not_aligned start
    then (a, invalid_parameter)
    else (record { heaps = a.heaps ++ h ∷ []; memory = initialise_heap h a.memory }, ok)

-- The words that a request for `size` bytes takes, the index block included.
abbrev pub blocks_needed : ℕ → ℕ
blocks_needed size =
    (if size % heap_block_size == 0 then size / heap_block_size else size / heap_block_size + 1) + 1

-- The inner loop: free blocks that follow `block` are merged into it. `none`: out of fuel.
pub merge : ℕ → ℕ → ℕ → ℕ → Memory → Option (ℕ × Memory)
merge zero heap_end block size m = none
merge (suc fuel) heap_end block size m =
    let next = block + size in
    let size' = (size + size_bits (m next)) % 2 ^ 32 in
    let again = merge fuel heap_end block size' (store m block (mark_free size')) in
    if is_free (m next)
    then (if leb heap_end next then some (size, m) else again)
    else some (size, m)

-- The outer loop: the block where it stops, `blockSize`, and the memory. `none`: out of fuel.
pub find_block : ℕ → ℕ → ℕ → ℕ → ℕ → Memory → Option (ℕ × ℕ × Memory)
unfolding merge
find_block zero needed heap_end block size m = none
find_block (suc fuel) needed heap_end block size m =
    let skip = find_block fuel needed heap_end (block + m block) size m in
    let on = λ (n : ℕ) (m' : Memory). find_block fuel needed heap_end (block + n) n m' in
    elim (ltb block heap_end) [
      | false ↦ some (block, size, m)
      | true ↦ elim (is_free (m block)) [
        | false ↦ skip
        | true ↦ elim (merge (suc heap_end) heap_end block (size_bits (m block)) m) [
          | none ↦ none
          | some (n, m') ↦ elim (leb needed n) [ true ↦ some (block, n, m') | false ↦ on n m' ]
        ]
      ]
    ]

-- The block found is taken whole, or split.
pub take_block : ℕ → ℕ → ℕ → ℕ → Memory → Memory
take_block needed heap_end block size m =
    if leb size (needed + 1) || leb heap_end (block + needed + 1)
    then store m block (size_bits (m block))
    else let split = block + needed in
      let m₁ = store m split ((size + 2 ^ 32 - needed) % 2 ^ 32) in
      let m₂ = store m₁ split (mark_free (m₁ split)) in store m₂ block needed

-- `microbit_malloc(size, heap)`: a pointer, or `none` for NULL. The outer `none`: out of fuel.
pub malloc_in : ℕ → HeapDefinition → Memory → Option (Memory × Option ℕ)
unfolding find_block take_block
malloc_in size h m =
    if leb size 0
    then some (m, none)
    else elim (find_block (suc h.heap_end) (blocks_needed size) h.heap_end h.heap_start 0 m) [
      | none ↦ none
      | some (block, n, m') ↦
          if leb h.heap_end block
          then some (m', none)
          else some (take_block (blocks_needed size) h.heap_end block n m', some (block + 1))
    ]

-- What `microbit_malloc(size)` does: return a pointer, or panic with MICROBIT_OOM.
pub data Outcome : Type 0 where
  pointer : ℕ → Outcome
  out_of_memory : Outcome

-- The heaps in the order in which they were created, up to the first that has space.
pub malloc_from : ℕ → List HeapDefinition → Memory → Option (Memory × Option ℕ)
unfolding malloc_in
malloc_from size [] m = some (m, none)
malloc_from size (h ∷ hs) m =
    let rest = λ (m' : Memory). malloc_from size hs m' in
    elim (malloc_in size h m) [
      | none ↦ none
      | some (m', some p) ↦ some (m', some p)
      | some (m', none) ↦ rest m'
    ]

-- The heap that holds the pointer `p`: `memory > heap_start && memory < heap_end`.
pub owned_by : ℕ → List HeapDefinition → Bool
owned_by p [] = false
owned_by p (h ∷ hs) = (ltb h.heap_start p && ltb p h.heap_end) || owned_by p hs

-- The native allocator is another library's: it has a state of its own.
module _ {ℓ} {N : Type ℓ} (native_malloc : ℕ → N → N × Option ℕ) (native_free : ℕ → N → N) where
  pub malloc : ℕ → Allocator → N → Option (Allocator × N × Outcome)
  unfolding malloc_from
  malloc size a nat = elim (malloc_from size a.heaps a.memory) [
    | none ↦ none
    | some (m, some p) ↦ some (record a { memory = m }, nat, pointer p)
    | some (m, none) ↦
        let (nat', r) = native_malloc size nat in
        elim r [
          | some p ↦ some (record a { memory = m }, nat', pointer p)
          | none ↦ some (record a { memory = m }, nat', out_of_memory)
        ]
  ]

  -- `cb = memory - 1` is marked free if the pointer lies in one of our heaps.
  pub free : ℕ → Allocator → N → Allocator × N
  unfolding owned_by
  free p a nat =
      if p == 0
      then (a, nat)
      else if owned_by p a.heaps
      then (record a { memory = store a.memory (p - 1) (mark_free (a.memory (p - 1))) }, nat)
      else (a, native_free p nat)
