-- ===== src/Heap/Search.antt =====
-- The loops of `microbit_malloc` on a laid-out heap compute the scan of its list of blocks.
use microbit_dal.Prelude.{
  leb→le, refl, if◌then◌else◌, Bool-cases, sym, ap, ◌++◌, leb, ◌∙◌, inr, inl, ◌⊎◌, subst, ℕ, zero,
  suc, ◌+◌, ◌%◌, ◌^◌, ◌≤◌, ◌<◌, ◌≡◌, true, false, List, [], ◌∷◌, arith, some, Bool, Option, none,
}
use microbit_dal.Heap.{
  none, is_free, Option, Bool, find_block, size_bits, Memory, store, mark_free, heap_block_free,
  merge,
}
use microbit_dal.Heap.Blocks.{
  total, InUse, Blocks-total, Block, Blocks, header, Blocks-store, store_self, store-store,
}
use microbit_dal.Heap.FirstFit.{scan-absorb, full, push, hit, scan, Scan, absorb}

-- What a merged run leaves in memory.
pub absorb-Blocks :
    (m : Memory) (b n : ℕ) (bs : List Block) (e : ℕ)
    → Blocks m (b + n) bs e
    → Blocks m (b + (absorb n bs).0) (absorb n bs).1 e
      × (n ≤ (absorb n bs).0)
      × (b + (absorb n bs).0 ≤ e)
absorb-Blocks m b n [] e l = (l, omega arith, omega arith)
absorb-Blocks m b n ((true, k) ∷ bs) e (h, pos, small, l) =
    let (x, y, z) = absorb-Blocks m b (n + k) bs e (subst (λ p. Blocks m p bs e) (omega arith) l) in
    (x, omega arith, z)
absorb-Blocks m b n ((false, k) ∷ bs) e l =
    (l, omega arith, omega (arith, Blocks-total m (b + n) ((false, k) ∷ bs) e l))

-- The inner loop merges the run, and writes its size into the first header only.
pub merge_lem :
    (fuel e b n : ℕ) (bs : List Block) (m : Memory)
    → m b ≡ header true n
    → 0 < n
    → Blocks m (b + n) bs e
    → e < b + heap_block_free
    → e < fuel + b + n
    → merge fuel e b n m ≡ some ((absorb n bs).0, store m b (header true (absorb n bs).0))
unfolding merge
merge_lem zero e b n bs m h pos l small fuel = absurd (omega (arith, Blocks-total m (b + n) bs e l))
merge_lem (suc fuel) e b n [] m h pos l small enough =
    rw (store_self m b (header true n) h) (ground arith)
merge_lem (suc fuel) e b n ((true, k) ∷ bs) m h pos (hk, posk, smallk, l) small enough =
    let within = Blocks-total m (b + n + k) bs e l in
    let grown : (n + size_bits (m (b + n))) % 2 ^ 32 ≡ n + k = omega arith in
    let marked : mark_free (n + k) ≡ header true (n + k) = omega (arith, within) in
    let further : b + n + k ≡ b + (n + k) = omega arith in
    let m' = store m b (header true (n + k)) in
    let l' : Blocks m' (b + (n + k)) bs e =
      Blocks-store m b _ (b + (n + k)) bs e (omega arith)
        (subst (λ p. Blocks m p bs e) further l) in
    let ih = merge_lem fuel e b (n + k) bs m' (ground arith) (omega arith) l' small (omega arith) in
    rw (grown, marked)
      (ground (
        arith,
        ih,
        within,
        store-store m b (header true (n + k)) (header true (absorb (n + k) bs).0),
      ))
merge_lem (suc fuel) e b n ((false, k) ∷ bs) m h pos (hk, posk, smallk, l) small enough =
    rw (store_self m b (header true n) h) (ground arith)

-- The words that the allocator must not touch: those in use, and those outside the heap.
abbrev pub Foreign : ℕ → List Block → ℕ → ℕ → Type 0
Foreign b bs e q = InUse b bs q ⊎ ((q < b) ⊎ (e ≤ q))

-- What a search from `b` over the blocks `bs` returns, by what the scan of `bs` says.
abbrev pub Found : ℕ → Memory → ℕ → List Block → ℕ → Scan → Option (ℕ × ℕ × Memory) → Type 0
Found needed m b bs e (hit pre n post) r =
    (m' : Memory) × (r ≡ some (b + total pre, n, m'))
    × Blocks m' b (pre ++ (true, n) ∷ post) e
    × (needed ≤ n)
    × ((q : ℕ) → Foreign b bs e q → m' q ≡ m q)
Found needed m b bs e (full bs') r =
    (m' : Memory) × (b' : ℕ) × (n : ℕ) × (r ≡ some (b', n, m'))
    × (e ≤ b')
    × Blocks m' b bs' e
    × ((q : ℕ) → Foreign b bs e q → m' q ≡ m q)

InUse-le : (p : ℕ) (bs : List Block) (q : ℕ) → InUse p bs q → p ≤ q
InUse-le p [] q u = absurd u
InUse-le p ((false, n) ∷ bs) q (inl h) = h.0
InUse-le p ((false, n) ∷ bs) q (inr u) = omega (arith, InUse-le (p + n) bs q u)
InUse-le p ((true, n) ∷ bs) q u = omega (arith, InUse-le (p + n) bs q u)

absorb-InUse :
    (b n : ℕ) (bs : List Block) (q : ℕ)
    → InUse (b + n) bs q
    → InUse (b + (absorb n bs).0) (absorb n bs).1 q
absorb-InUse b n [] q u = u
absorb-InUse b n ((true, k) ∷ bs) q u =
    absorb-InUse b (n + k) bs q (subst (λ p. InUse p bs q) (omega arith) u)
absorb-InUse b n ((false, k) ∷ bs) q u = u

-- A block that the search leaves behind it.
Found-push :
    (needed : ℕ) (m₀ m : Memory) (b : ℕ) (f : Bool) (k : ℕ) (bs rest : List Block) (e : ℕ)
    (s : Scan) (r : Option (ℕ × ℕ × Memory))
    → m b ≡ header f k
    → 0 < k
    → k < heap_block_free
    → ((q : ℕ) → Foreign b bs e q → (m q ≡ m₀ q) × Foreign (b + k) rest e q)
    → Found needed m (b + k) rest e s r
    → Found needed m₀ b bs e (push (f, k) s) r
Found-push needed m₀ m b f k bs rest e (hit pre n post) r h pos small keep (m', eq, l, fit, kept) =
    (
      m',
      ground arith,
      (kept b (inr (inl (omega arith))) ∙ h, pos, small, l),
      fit,
      λ q out. kept q (keep q out).1 ∙ (keep q out).0,
    )
Found-push needed m₀ m b f k bs rest e (full bs') r h pos small keep
      (m', b', n, eq, past, l, kept) =
    (
      m',
      b',
      n,
      eq,
      past,
      (kept b (inr (inl (omega arith))) ∙ h, pos, small, l),
      λ q out. kept q (keep q out).1 ∙ (keep q out).0,
    )

find_end :
    (fuel needed e b size : ℕ) (m : Memory)
    → e ≤ b
    → find_block (suc fuel) needed e b size m ≡ some (b, size, m)
unfolding find_block
find_end fuel needed e b size m past = ground arith

Foreign-used :
    (b k : ℕ) (bs : List Block) (e q : ℕ) → Foreign b ((false, k) ∷ bs) e q → Foreign (b + k) bs e q
Foreign-used b k bs e q (inl (inl h)) = inr (inl h.1)
Foreign-used b k bs e q (inl (inr u)) = inl u
Foreign-used b k bs e q (inr (inl h)) = inr (inl (omega arith))
Foreign-used b k bs e q (inr (inr h)) = inr (inr h)

Foreign-free :
    (m : Memory) (v b k : ℕ) (bs : List Block) (e q : ℕ)
    → b < e
    → 0 < k
    → Foreign b ((true, k) ∷ bs) e q
    → (store m b v q ≡ m q) × Foreign (b + (absorb k bs).0) (absorb k bs).1 e q
Foreign-free m v b k bs e q inside pos (inl u) =
    (ground (arith, InUse-le (b + k) bs q u), inl (absorb-InUse b k bs q u))
Foreign-free m v b k bs e q inside pos (inr (inl h)) = (ground arith, inr (inl (omega arith)))
Foreign-free m v b k bs e q inside pos (inr (inr h)) = (ground arith, inr (inr h))

find_used :
    (fuel needed e b size : ℕ) (m : Memory)
    → b < e
    → is_free (m b) ≡ false
    → find_block (suc fuel) needed e b size m ≡ find_block fuel needed e (b + m b) size m
unfolding find_block
find_used fuel needed e b size m inside used = ground arith

find_free :
    (fuel needed e b size n : ℕ) (m m' : Memory)
    → b < e
    → is_free (m b) ≡ true
    → merge (suc e) e b (size_bits (m b)) m ≡ some (n, m')
    → find_block (suc fuel) needed e b size m
      ≡ (if leb needed n then some (b, n, m') else find_block fuel needed e (b + n) n m')
unfolding find_block
find_free fuel needed e b size n m m' inside free merged = ground arith

-- The whole search finds what the scan finds, with `e - b` rounds or more.
pub find_block_lem :
    (fuel needed e b size : ℕ) (bs : List Block) (m : Memory)
    → Blocks m b bs e
    → e < b + heap_block_free
    → e < fuel + b
    → Found needed m b bs e (scan needed none bs) (find_block fuel needed e b size m)
unfolding scan
find_block_lem zero needed e b size bs m l small enough =
    absurd (omega (arith, Blocks-total m b bs e l))
find_block_lem (suc fuel) needed e b size [] m l small enough =
    (m, b, size, find_end fuel needed e b size m (omega arith), omega arith, l, λ q out. refl)
find_block_lem (suc fuel) needed e b size ((false, k) ∷ bs) m (h, pos, small_k, l) small enough =
    let within = Blocks-total m (b + k) bs e l in
    let step = find_used fuel needed e b size m (omega (arith, within)) (ground arith) in
    let ih = find_block_lem fuel needed e (b + k) size bs m l (omega arith) (omega arith) in
    subst (Found needed m b ((false, k) ∷ bs) e (push (false, k) (scan needed none bs)))
      (ap (λ p. find_block fuel needed e (b + p) size m) (sym h) ∙ sym step)
      (Found-push needed m m b false k ((false, k) ∷ bs) bs e (scan needed none bs) _ h pos small_k
        (λ q out. (refl, Foreign-used b k bs e q out)) ih)
find_block_lem (suc fuel) needed e b size ((true, k) ∷ bs) m (h, pos, small_k, l) small enough =
    let (l', grows, within) = absorb-Blocks m b k bs e l in
    let m' = store m b (header true (absorb k bs).0) in
    let bits : size_bits (m b) ≡ k = omega arith in
    let merged : merge (suc e) e b (size_bits (m b)) m ≡ some ((absorb k bs).0, m') =
      rw bits (merge_lem (suc e) e b k bs m h pos l small (omega arith)) in
    let step =
      find_free fuel needed e b size (absorb k bs).0 m m' (omega arith) (ground arith) merged in
    let laid = Blocks-store m b _ (b + (absorb k bs).0) (absorb k bs).1 e (omega arith) l' in
    let ih =
      find_block_lem fuel needed e (b + (absorb k bs).0) (absorb k bs).0 (absorb k bs).1 m' laid
        (omega arith) (omega arith) in
    rw (step, scan-absorb needed k bs)
      (elim (Bool-cases (leb needed (absorb k bs).0)) [
        | inl fits ↦ rw fits (
          m',
          ap (λ p. some (p, (absorb k bs).0, m')) (omega arith),
          (ground arith, omega arith, omega arith, laid),
          leb→le needed _ fits,
          λ q out. (Foreign-free m _ b k bs e q (omega arith) pos out).0,
        )
        | inr not_fits ↦ rw not_fits (
            Found-push needed m m' b true (absorb k bs).0 ((true, k) ∷ bs) (absorb k bs).1 e
              (scan needed none (absorb k bs).1) _ (ground arith) (omega arith) (omega arith)
              (λ q out. Foreign-free m _ b k bs e q (omega arith) pos out) ih)
      ])
