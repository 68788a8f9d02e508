-- ===== src/Heap/Blocks.antt =====
-- A heap as a list of blocks: the layout of the headers in memory, and which words are in use.
use microbit_dal.Prelude.{
  ℕ, ◌+◌, ◌≤◌, ◌<◌, ◌≡◌, ◌⊎◌, inl, inr, refl, Bool, true, false, List, [], ◌∷◌, ◌++◌, arith, ◌==◌,
  ==_iff, Bool-cases, sym, ap, subst, ◌∙◌,
}
use mathlib.Core.Path.{ap, subst, sym, fun_ext}
use microbit_dal.Heap.{Memory, store, heap_block_free}

-- A block: whether it is free, and its words, the index block included.
abbrev pub Block : Type 0
Block = Bool × ℕ

abbrev pub header : Bool → ℕ → ℕ
header true n = n + heap_block_free
header false n = n

abbrev pub total : List Block → ℕ
total [] = 0
total ((f, n) ∷ bs) = n + total bs

-- The headers of `bs` stand in memory from `p` on, end to end up to `e`.
abbrev pub Blocks : Memory → ℕ → List Block → ℕ → Type 0
Blocks m p [] e = p ≡ e
Blocks m p ((f, n) ∷ bs) e =
    (m p ≡ header f n) × (0 < n) × (n < heap_block_free) × Blocks m (p + n) bs e

-- The used blocks of a list that is laid out from `p` on: where each stands, and its words.
abbrev pub regions : ℕ → List Block → List (ℕ × ℕ)
regions p [] = []
regions p ((false, n) ∷ bs) = (p, n) ∷ regions (p + n) bs
regions p ((true, n) ∷ bs) = regions (p + n) bs

abbrev pub InRegion : List (ℕ × ℕ) → ℕ → Type 0
InRegion [] q = ⊥
InRegion ((p, n) ∷ rs) q = ((p ≤ q) × (q < p + n)) ⊎ InRegion rs q

-- The word `q` lies in a used block.
abbrev pub InUse : ℕ → List Block → ℕ → Type 0
InUse p bs q = InRegion (regions p bs) q

pub regions-append :
    (p : ℕ) (xs ys : List Block) → regions p (xs ++ ys) ≡ regions p xs ++ regions (p + total xs) ys
regions-append p [] ys = ap (λ k. regions k ys) (omega arith)
regions-append p ((false, n) ∷ xs) ys =
    ap (◌∷◌ (p, n))
      (regions-append (p + n) xs ys ∙ ap (λ k. regions (p + n) xs ++ regions k ys) (omega arith))
regions-append p ((true, n) ∷ xs) ys =
    regions-append (p + n) xs ys ∙ ap (λ k. regions (p + n) xs ++ regions k ys) (omega arith)

pub Blocks-total :
    (m : Memory) (p : ℕ) (bs : List Block) (e : ℕ) → Blocks m p bs e → p + total bs ≡ e
Blocks-total m p [] e l = omega arith
Blocks-total m p ((f, n) ∷ bs) e (h, pos, small, l) = omega (arith, Blocks-total m (p + n) bs e l)

-- A layout depends on the words of its range only.
pub Blocks-agree :
    (m m' : Memory) (p : ℕ) (bs : List Block) (e : ℕ)
    → ((q : ℕ) → p ≤ q → q < e → m' q ≡ m q)
    → Blocks m p bs e
    → Blocks m' p bs e
Blocks-agree m m' p [] e same l = l
Blocks-agree m m' p ((f, n) ∷ bs) e same (h, pos, small, l) = (
  same p (omega arith) (omega (arith, Blocks-total m (p + n) bs e l)) ∙ h,
  pos,
  small,
  Blocks-agree m m' (p + n) bs e (λ q lo hi. same q (omega arith) hi) l,
)

-- A write below a layout leaves it.
pub Blocks-store :
    (m : Memory) (b v p : ℕ) (bs : List Block) (e : ℕ)
    → b < p
    → Blocks m p bs e
    → Blocks (store m b v) p bs e
Blocks-store m b v p [] e lt l = l
Blocks-store m b v p ((f, n) ∷ bs) e lt (h, pos, small, l) =
    (ground arith, pos, small, Blocks-store m b v (p + n) bs e (omega arith) l)

pub Blocks-append :
    (m : Memory) (p : ℕ) (xs ys : List Block) (e : ℕ)
    → Blocks m p xs (p + total xs)
    → Blocks m (p + total xs) ys e
    → Blocks m p (xs ++ ys) e
Blocks-append m p [] ys e l r = subst (λ k. Blocks m k ys e) (omega arith) r
Blocks-append m p ((f, n) ∷ xs) ys e (h, pos, small, l) r = (
  h,
  pos,
  small,
  Blocks-append m (p + n) xs ys e (subst (Blocks m (p + n) xs) (omega arith) l)
      (subst (λ k. Blocks m k ys e) (omega arith) r),
)

pub Blocks-split :
    (m : Memory) (p : ℕ) (xs ys : List Block) (e : ℕ)
    → Blocks m p (xs ++ ys) e
    → Blocks m p xs (p + total xs) × Blocks m (p + total xs) ys e
Blocks-split m p [] ys e l = (omega arith, subst (λ k. Blocks m k ys e) (omega arith) l)
Blocks-split m p ((f, n) ∷ xs) ys e (h, pos, small, l) =
    let (a, b) = Blocks-split m (p + n) xs ys e l in
    (
      (h, pos, small, subst (Blocks m (p + n) xs) (omega arith) a),
      subst (λ k. Blocks m k ys e) (omega arith) b,
    )

-- Writing what is there changes nothing, and the last write to a word counts.
pub store_self : (m : Memory) (p v : ℕ) → m p ≡ v → store m p v ≡ m
store_self m p v h = fun_ext (λ q. elim (Bool-cases (q == p)) [
  | inl e ↦ rw (e, (==_iff q p).0 e) (sym h)
  | inr e ↦ rw e refl
])

pub store-store : (m : Memory) (p v w : ℕ) → store (store m p v) p w ≡ store m p w
store-store m p v w =
    fun_ext (λ q. elim (Bool-cases (q == p)) [ inl e ↦ rw e refl | inr e ↦ rw e refl ])
