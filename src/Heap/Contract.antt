-- ===== src/Heap/Contract.antt =====
-- What the clients of the heap rely on: `microbit_malloc`, `microbit_free`, `microbit_create_heap`.
use microbit_dal.Prelude.{
  ℕ, ◌+◌, ◌-◌, ◌*◌, ◌/◌, ◌%◌, ◌^◌, ◌≤◌, ◌<◌, ◌≡◌, refl, sym, ap, subst, ◌∙◌, ◌≢◌, ◌↔◌, ◌⊎◌, inl,
  inr, true, false, ◌||◌, Option, none, some, List, [], ◌∷◌, ◌++◌, arith, ltb, leb, ◌==◌, ==_iff,
  Bool-cases, length,
}
use microbit_dal.Heap.{
  Memory, store, mark_free, malloc_in, blocks_needed, HeapDefinition, Allocator, create_heap,
  Status, ok, no_resources, invalid_parameter, free, owned_by, heap_block_free, initialise_heap,
  not_aligned, maximum_heaps,
}
use microbit_dal.Heap.Blocks.{Block, Blocks, regions, Blocks-store, Blocks-total}
use microbit_dal.Heap.FirstFit.{first_fit, longest_run, first_fit_fails_iff, first_fit_gives, Given}
use microbit_dal.Heap.Search.{Foreign}
use microbit_dal.Heap.Malloc.{Refines, malloc_in-Refines}

-- A pointer `p` that was given for `size` bytes: the heap holds one more used block, whose words
-- behind the index block are enough, and all other used blocks are where they were, untouched.
pub record Allocated (size : ℕ) (h : HeapDefinition) (m : Memory) (bs : List Block) (m' : Memory)
    (p : ℕ) : Type 0 where
  pub blocks : List Block
  pub offset : ℕ
  pub laid : Blocks m' h.heap_start blocks h.heap_end
  pub given : Given (blocks_needed size) h.heap_start bs blocks offset
  pub there : p ≡ h.heap_start + offset + 1
  pub room : size ≤ 4 * (given.words - 1)
  pub untouched : (q : ℕ) → Foreign h.heap_start bs h.heap_end q → m' q ≡ m q

needed_room : (size w : ℕ) → blocks_needed size ≤ w → size ≤ 4 * (w - 1)
needed_room size w h = ground arith

module _ (size : ℕ) (h : HeapDefinition) (m : Memory) (bs : List Block) (pos : 0 < size)
    (laid : Blocks m h.heap_start bs h.heap_end)
    (small : h.heap_end < h.heap_start + heap_block_free) where
  -- A pointer that `microbit_malloc(size, heap)` returns points to a new block with room for
  -- `size` bytes; every other used block keeps its place and its words.
  pub malloc_in_allocates :
      (m' : Memory) (p : ℕ) → malloc_in size h m ≡ some (m', some p) → Allocated size h m bs m' p
  malloc_in_allocates m' p e =
      go (first_fit (blocks_needed size) bs) refl (malloc_in-Refines size h m bs pos laid small)
    where
      go :
          (r : List Block × Option ℕ)
          → first_fit (blocks_needed size) bs ≡ r
          → Refines size h m bs r
          → Allocated size h m bs m' p
      go (bs', none) fit (m₁, same, l, kept) = cc
      go (bs', some off) fit (m₁, same, l, kept) =
          let given : Given (blocks_needed size) h.heap_start bs bs' off =
            subst (λ (x : List Block). Given (blocks_needed size) h.heap_start bs x off)
              (ap (λ x. x.0) fit)
              (first_fit_gives (blocks_needed size) h.heap_start bs off (omega arith)
                (ap (λ x. x.1) fit)) in
          let same_memory : m₁ ≡ m' = cc in
          record {
            blocks = bs';
            offset = off;
            laid = subst (λ k. Blocks k h.heap_start bs' h.heap_end) same_memory l;
            given = given;
            there = cc;
            room = needed_room size given.words given.enough;
            untouched = λ q out. sym (ap (λ k. k q) same_memory) ∙ kept q out;
          }

  -- On a laid-out heap it returns NULL exactly when no run of free blocks, merged, has the words needed.
  pub malloc_in_fails_iff :
      ((m' : Memory) × (malloc_in size h m ≡ some (m', none)))
      ↔ (longest_run 0 bs < blocks_needed size)
  malloc_in_fails_iff =
      go (first_fit (blocks_needed size) bs) refl (malloc_in-Refines size h m bs pos laid small)
    where
      fails :
          ((first_fit (blocks_needed size) bs).1 ≡ none) ↔ (longest_run 0 bs < blocks_needed size)
      fails = first_fit_fails_iff (blocks_needed size) bs (omega arith)

      go :
          (r : List Block × Option ℕ)
          → first_fit (blocks_needed size) bs ≡ r
          → Refines size h m bs r
          → ((m' : Memory) × (malloc_in size h m ≡ some (m', none)))
            ↔ (longest_run 0 bs < blocks_needed size)
      go (bs', none) fit (m₁, same, l, kept) = (λ x. fails.0 (ap (λ x. x.1) fit), λ x. (m₁, same))
      go (bs', some off) fit (m₁, same, l, kept) = (λ (m', e). cc, λ x. cc (fails.1 x))

-- A used block of the heap is marked free, and is merged or given again by later requests.
free_region :
    (m : Memory) (p : ℕ) (bs : List Block) (e : ℕ) (l r : List (ℕ × ℕ)) (a w : ℕ)
    → Blocks m p bs e
    → regions p bs ≡ l ++ (a, w) ∷ r
    → (bs' : List Block) × Blocks (store m a (mark_free (m a))) p bs' e
      × (regions p bs' ≡ l ++ r)
      × (p ≤ a)
      × (a + w ≤ e)
free_region m p [] e [] r a w lay eq = cc
free_region m p [] e (x ∷ l) r a w lay eq = cc
free_region m p ((true, n) ∷ bs) e l r a w (h, pos, small, lay) eq =
    let (bs', lay', regs, lo, hi) = free_region m (p + n) bs e l r a w lay eq in
    ((true, n) ∷ bs', (ground arith, pos, small, lay'), regs, omega arith, hi)
free_region m p ((false, n) ∷ bs) e [] r a w (h, pos, small, lay) eq =
    let here : p ≡ a = cc in
    let words : n ≡ w = cc in
    let within = Blocks-total m (p + n) bs e lay in
    (
      (true, n) ∷ bs,
      (ground arith, pos, small, Blocks-store m a (mark_free (m a)) (p + n) bs e (omega arith) lay),
      cc,
      omega arith,
      omega (arith, within),
    )
free_region m p ((false, n) ∷ bs) e (x ∷ l) r a w (h, pos, small, lay) eq =
    let (bs', lay', regs, lo, hi) = free_region m (p + n) bs e l r a w lay (cc) in
    ((false, n) ∷ bs', (ground arith, pos, small, lay'), cc, omega arith, hi)

owned_append :
    (p : ℕ) (hs₁ hs₂ : List HeapDefinition) (h : HeapDefinition)
    → h.heap_start < p
    → p < h.heap_end
    → owned_by p (hs₁ ++ h ∷ hs₂) ≡ true
unfolding owned_by
owned_append p [] hs₂ h lo hi = ground arith
owned_append p (x ∷ hs₁) hs₂ h lo hi = ground (arith, owned_append p hs₁ hs₂ h lo hi)

-- The heap after `microbit_free` of the used block at `addr`: that block is free, every other used
-- block keeps its place, and no word but the block's header changes.
pub record Freed (h : HeapDefinition) (m m' : Memory) (addr : ℕ) (others : List (ℕ × ℕ))
    : Type 0 where
  pub blocks : List Block
  pub laid : Blocks m' h.heap_start blocks h.heap_end
  pub kept : regions h.heap_start blocks ≡ others
  pub untouched : (q : ℕ) → q ≢ addr → m' q ≡ m q

module _ {ℓ} {N : Type ℓ} (native_malloc : ℕ → N → N × Option ℕ) (native_free : ℕ → N → N) where
  -- `microbit_free` of a pointer into one of the heaps frees exactly the block behind it, and
  -- leaves the native allocator alone.
  pub free-Freed :
      (a : Allocator) (nat : N) (hs₁ hs₂ : List HeapDefinition) (h : HeapDefinition)
      (bs : List Block) (l r : List (ℕ × ℕ)) (addr w : ℕ)
      → a.heaps ≡ hs₁ ++ h ∷ hs₂
      → Blocks a.memory h.heap_start bs h.heap_end
      → regions h.heap_start bs ≡ l ++ (addr, w) ∷ r
      → 2 ≤ w
      → Freed h a.memory (free native_malloc native_free (addr + 1) a nat).0.memory addr (l ++ r)
        × ((free native_malloc native_free (addr + 1) a nat).1 ≡ nat)
  unfolding free
  free-Freed a nat hs₁ hs₂ h bs l r addr w hs laid regs wide =
      let (bs', laid', regs', lo, hi) =
        free_region a.memory h.heap_start bs h.heap_end l r addr w laid regs in
      let ours : owned_by (addr + 1) a.heaps ≡ true =
        rw hs (owned_append (addr + 1) hs₁ hs₂ h (omega arith) (omega arith)) in
      let not_null : ((addr + 1) == 0) ≡ false = ground arith in
      let back : addr + 1 - 1 ≡ addr = omega arith in
      rw (not_null, ours, back)
        (
          record { blocks = bs'; laid = laid'; kept = regs'; untouched = λ q ne. ground arith },
          refl,
        )

-- A new heap is one free block.
initialise_heap_lem :
    (h : HeapDefinition) (m : Memory)
    → h.heap_start < h.heap_end
    → h.heap_end < h.heap_start + heap_block_free
    → Blocks (initialise_heap h m) h.heap_start ((true, h.heap_end - h.heap_start) ∷ []) h.heap_end
unfolding initialise_heap
initialise_heap_lem h m lt small = (ground arith, omega arith, omega arith, omega arith)

-- The outcomes of `microbit_create_heap`: two refusals, and a new heap of one free block.
abbrev pub Creates : ℕ → ℕ → Allocator → Allocator × Status → Type 0
Creates start end a (a', s) =
    ((length a.heaps ≡ maximum_heaps) × (s ≡ no_resources) × (a' ≡ a))
    ⊎ (((length a.heaps ≢ maximum_heaps)
          × ((end < start + 8) ⊎ ((end % 4 ≢ 0) ⊎ (start % 4 ≢ 0)))
          × (s ≡ invalid_parameter)
          × (a' ≡ a))
        ⊎ ((length a.heaps ≢ maximum_heaps)
            × (start + 8 ≤ end)
            × (end % 4 ≡ 0)
            × (start % 4 ≡ 0)
            × (s ≡ ok)
            × (a'.heaps ≡ a.heaps ++ record { heap_start = start / 4; heap_end = end / 4 } ∷ [])
            × Blocks a'.memory (start / 4) ((true, end / 4 - start / 4) ∷ []) (end / 4)))

-- `microbit_create_heap` over 32-bit addresses, on every branch: with both heaps taken it refuses
-- for want of resources; else it refuses a range that is below two blocks or not aligned; else
-- the new heap, behind the others, is one free block that fills its range. A refusal leaves the
-- allocator as it was.
create_heap_lem :
    (start end : ℕ) (a : Allocator) → end < 2 ^ 32 → Creates start end a (create_heap start end a)
unfolding create_heap
create_heap_lem start end a small = elim (Bool-cases (length a.heaps == maximum_heaps)) [
  | inl taken ↦ inl ((==_iff _ _).0 taken, rw taken refl, rw taken refl)
  | inr room ↦
      let fresh : length a.heaps ≢ maximum_heaps = ground arith in
      elim (Bool-cases
        (leb end start || ltb (end - start) 8 || not_aligned end || not_aligned start)) [
          | inl bad ↦ inr (inl (fresh, ground arith, rw (room, bad) refl, rw (room, bad) refl))
          | inr good ↦
              let h : HeapDefinition = record { heap_start = start / 4; heap_end = end / 4 } in
              let wide : start + 8 ≤ end = ground arith in
              inr (
                inr (
                  fresh,
                  wide,
                  ground arith,
                  ground arith,
                  rw (room, good) refl,
                  rw (room, good) refl,
                  rw (room, good) (initialise_heap_lem h a.memory (omega arith) (omega arith)),
                ))
        ]
]
