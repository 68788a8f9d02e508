-- ===== src/Heap/Malloc.antt =====
-- `microbit_malloc` on one laid-out heap carries out the first-fit policy.
use mathlib.Core.Option
use microbit_dal.Prelude.{
  ℕ, suc, ◌+◌, ◌-◌, ◌%◌, ◌^◌, ◌≤◌, ◌<◌, ◌≡◌, refl, sym, ap, subst, ◌∙◌, ◌⊎◌, inl, inr, true, false,
  Option, none, some, List, [], ◌∷◌, ◌++◌, arith, leb, Bool-cases,
}
use microbit_dal.Heap.{
  Memory, store, mark_free, size_bits, heap_block_free, find_block, take_block, malloc_in,
  blocks_needed, HeapDefinition,
}
use microbit_dal.Heap.Blocks.{
  InUse, InRegion, store-store, Block, Blocks, header, total, Blocks-store, Blocks-agree,
  Blocks-split, Blocks-append, Blocks-total, InUse, InRegion, regions, regions-append,
}
use microbit_dal.Heap.FirstFit.{
  Scan, hit, full, scan, place, place_in, first_fit, listed, regions-scan,
}
use microbit_dal.Heap.Search.{Foreign, Found, find_block_lem}

take_whole :
    (needed e b n : ℕ) (m : Memory)
    → m b ≡ header true n
    → n < heap_block_free
    → leb n (needed + 1) ≡ true
    → take_block needed e b n m ≡ store m b n
unfolding take_block
take_whole needed e b n m h small whole =
    let bits : size_bits (m b) ≡ n = omega arith in rw (whole, bits) refl

take_split :
    (needed e b n : ℕ) (m : Memory)
    → n < heap_block_free
    → b + n ≤ e
    → leb n (needed + 1) ≡ false
    → take_block needed e b n m ≡ store (store m (b + needed) (header true (n - needed))) b needed
unfolding take_block
take_split needed e b n m small within split =
    let room : leb e (b + needed + 1) ≡ false = ground arith in
    let rest : (n + 2 ^ 32 - needed) % 2 ^ 32 ≡ n - needed = ground arith in
    let written : store m (b + needed) (n - needed) (b + needed) ≡ n - needed = ground arith in
    let marked : mark_free (n - needed) ≡ header true (n - needed) = omega arith in
    rw (split, room, rest, written, marked)
      (ap (λ k. store k b needed)
        (store-store m (b + needed) (n - needed) (header true (n - needed))))

-- The block found is marked used, whole or split; no other word changes.
take_block_lem :
    (needed e b n : ℕ) (post : List Block) (m : Memory)
    → 0 < needed
    → needed ≤ n
    → Blocks m b ((true, n) ∷ post) e
    → Blocks (take_block needed e b n m) b (place needed n ++ post) e
      × ((q : ℕ) → (q < b) ⊎ (b + n ≤ q) → take_block needed e b n m q ≡ m q)
take_block_lem needed e b n post m some_words fits (h, pos, small, l) =
    elim (Bool-cases (leb n (needed + 1))) [
      | inl whole ↦
          rw (take_whole needed e b n m h small whole, whole)
            (
              (ground arith, pos, small, Blocks-store m b n (b + n) post e (omega arith) l),
              λ q out. ground arith,
            )
      | inr split ↦
          let apart : needed + 1 < n = ground arith in
          let within = Blocks-total m (b + n) post e l in
          let m₁ = store m (b + needed) (header true (n - needed)) in
          let l₁ =
            Blocks-store m (b + needed) (header true (n - needed)) (b + n) post e (omega arith) l in
          let there : b + n ≡ b + needed + (n - needed) = omega arith in
          rw (take_split needed e b n m small (omega (arith, within)) split, split)
            (
              (
                ground arith,
                some_words,
                omega arith,
                (
                  ground arith,
                  omega arith,
                  omega arith,
                  subst (λ k. Blocks (store m₁ b needed) k post e) there
                      (Blocks-store m₁ b needed (b + n) post e (omega arith) l₁),
                ),
              ),
              λ q out. ground arith,
            )
    ]

InUse-bounds : (p : ℕ) (bs : List Block) (q : ℕ) → InUse p bs q → (p ≤ q) × (q < p + total bs)
InUse-bounds p [] q u = absurd u
InUse-bounds p ((false, n) ∷ bs) q (inl h) = omega arith
InUse-bounds p ((false, n) ∷ bs) q (inr u) = omega (arith, InUse-bounds (p + n) bs q u)
InUse-bounds p ((true, n) ∷ bs) q u = omega (arith, InUse-bounds (p + n) bs q u)

InRegion-cases :
    (xs ys : List (ℕ × ℕ)) (q : ℕ) → InRegion (xs ++ ys) q → InRegion xs q ⊎ InRegion ys q
InRegion-cases [] ys q u = inr u
InRegion-cases ((p, n) ∷ xs) ys q (inl h) = inl (inl h)
InRegion-cases ((p, n) ∷ xs) ys q (inr u) = elim (InRegion-cases xs ys q u) [
  | inl a ↦ inl (inr a)
  | inr b ↦ inr b
]

-- A foreign word lies outside the free block that a scan hits.
Foreign-outside :
    (p needed : ℕ) (bs pre post : List Block) (n e q : ℕ)
    → scan needed none bs ≡ hit pre n post
    → p + total pre + n ≤ e
    → Foreign p bs e q
    → (q < p + total pre) ⊎ (p + total pre + n ≤ q)
Foreign-outside p needed bs pre post n e q found within (inl u) =
    elim (InRegion-cases (regions p pre) (regions (p + total pre + n) post) q used) [
      | inl a ↦ inl (InUse-bounds p pre q a).1
      | inr b ↦ inr (InUse-bounds (p + total pre + n) post q b).0
    ]
  where
    used : InRegion (regions p pre ++ regions (p + total pre + n) post) q
    used =
        subst (λ rs. InRegion rs q)
          (sym (regions-scan needed p bs)
            ∙ ap (λ s. regions p (listed s)) found
            ∙ regions-append p pre ((true, n) ∷ post))
          u
Foreign-outside p needed bs pre post n e q found within (inr (inl below)) = inl (omega arith)
Foreign-outside p needed bs pre post n e q found within (inr (inr above)) = inr (omega arith)

module _ (size : ℕ) (h : HeapDefinition) (m : Memory) (bs : List Block) where
  -- What `malloc_in` does to a laid-out heap, by the policy.
  abbrev pub Refines : List Block × Option ℕ → Type 0
  Refines r =
      (m' : Memory) × (malloc_in size h m
        ≡ some (m', Option.map (λ off. h.heap_start + off + 1) r.1))
      × Blocks m' h.heap_start r.0 h.heap_end
      × ((q : ℕ) → Foreign h.heap_start bs h.heap_end q → m' q ≡ m q)

  malloc_from_scan :
      (s : Scan)
      → 0 < size
      → scan (blocks_needed size) none bs ≡ s
      → Found
          (blocks_needed size)
          m
          h.heap_start
          bs
          h.heap_end
          s
          (find_block (suc h.heap_end) (blocks_needed size) h.heap_end h.heap_start 0 m)
      → Refines (place_in (blocks_needed size) s)
  unfolding malloc_in
  malloc_from_scan (full bs') pos e (m', b', n, eq, past, l, kept) = (m', ground arith, l, kept)
  malloc_from_scan (hit pre n post) pos e (m', eq, l, fits, kept) =
      let needed = blocks_needed size in
      let b = h.heap_start + total pre in
      let (laid_pre, laid) = Blocks-split m' h.heap_start pre ((true, n) ∷ post) h.heap_end l in
      let within = Blocks-total m' (b + n) post h.heap_end laid.3 in
      let inside : b < h.heap_end = omega (arith, within, laid.1) in
      let (placed, same) = take_block_lem needed h.heap_end b n post m' (omega arith) fits laid in
      let m'' = take_block needed h.heap_end b n m' in
      let kept_pre = Blocks-agree m' m'' h.heap_start pre b (λ q lo hi. same q (inl hi)) laid_pre in
      (
        m'',
        ground arith,
        Blocks-append m'' h.heap_start pre (place needed n ++ post) h.heap_end kept_pre placed,
        λ q out.
            same q (
              Foreign-outside h.heap_start needed bs pre post n h.heap_end q e
                (omega (arith, within)) out)
            ∙ kept q out,
      )

-- `microbit_malloc(size, heap)` on a laid-out heap ends with fuel to spare, gives what the
-- first-fit policy gives, leaves the blocks as the policy says, and touches no word of a used
-- block and none outside the heap.
pub malloc_in-Refines :
    (size : ℕ) (h : HeapDefinition) (m : Memory) (bs : List Block)
    → 0 < size
    → Blocks m h.heap_start bs h.heap_end
    → h.heap_end < h.heap_start + heap_block_free
    → Refines size h m bs (first_fit (blocks_needed size) bs)
unfolding first_fit
malloc_in-Refines size h m bs pos l small =
    malloc_from_scan size h m bs (scan (blocks_needed size) none bs) pos refl (
      find_block_lem (suc h.heap_end) (blocks_needed size) h.heap_end h.heap_start 0 bs m l small
        (omega arith))
