-- ===== src/Heap/FirstFit.antt =====
-- The allocation policy on a list of blocks: first fit, with adjacent free blocks merged on the way.
use microbit_dal.Prelude.{
  max, inl, Bool-cases, arith, ◌∙◌, ap, ℕ, ◌+◌, ◌-◌, ◌≡◌, refl, true, false, List, [], ◌∷◌, ◌++◌,
  if◌then◌else◌, leb, Option, some, none, ◌≤◌, ◌<◌, sym, subst, ◌↔◌, inr, leb→le,
}
use microbit_dal.Heap.Blocks.{regions-append, regions, Block, total}

-- `hit pre n post`: a free block of `n` words behind `pre`. `full`: none, but with blocks merged.
pub data Scan : Type 0 where
  hit : List Block → ℕ → List Block → Scan
  full : List Block → Scan

abbrev pub push : Block → Scan → Scan
push x (hit pre n post) = hit (x ∷ pre) n post
push x (full bs) = full (x ∷ bs)

-- The option is the free run that is being merged.
unfoldable pub scan : ℕ → Option ℕ → List Block → Scan
scan needed none [] = full []
scan needed none ((false, n) ∷ bs) = push (false, n) (scan needed none bs)
scan needed none ((true, n) ∷ bs) = scan needed (some n) bs
scan needed (some s) [] = if leb needed s then hit [] s [] else full ((true, s) ∷ [])
scan needed (some s) ((true, n) ∷ bs) = scan needed (some (s + n)) bs
scan needed (some s) ((false, n) ∷ bs) =
    let rest = push (true, s) (push (false, n) (scan needed none bs)) in
    if leb needed s then hit [] s ((false, n) ∷ bs) else rest

-- The free run that starts with `s` words, and what follows it.
abbrev pub absorb : ℕ → List Block → ℕ × List Block
absorb s [] = (s, [])
absorb s ((true, n) ∷ bs) = absorb (s + n) bs
absorb s ((false, n) ∷ bs) = (s, (false, n) ∷ bs)

-- A block of `n` words serves a request for `needed`: whole, or split.
abbrev pub place : ℕ → ℕ → List Block
place needed n =
    if leb n (needed + 1) then (false, n) ∷ [] else (false, needed) ∷ (true, n - needed) ∷ []

-- The blocks after a request for `needed` words, and where in the heap the block given stands.
abbrev pub place_in : ℕ → Scan → List Block × Option ℕ
place_in needed (hit pre n post) = (pre ++ (place needed n ++ post), some (total pre))
place_in needed (full bs) = (bs, none)

unfoldable pub first_fit : ℕ → List Block → List Block × Option ℕ
first_fit needed bs = place_in needed (scan needed none bs)

-- A run is scanned like the block that it merges to.
pub scan-absorb :
    (needed s : ℕ) (bs : List Block)
    → scan needed (some s) bs ≡ (
        if leb needed (absorb s bs).0
        then hit [] (absorb s bs).0 (absorb s bs).1
        else push (true, (absorb s bs).0) (scan needed none (absorb s bs).1))
unfolding scan
scan-absorb needed s [] = refl
scan-absorb needed s ((true, n) ∷ bs) = scan-absorb needed (s + n) bs
scan-absorb needed s ((false, n) ∷ bs) = refl

-- The blocks that a scan ends with, the one that it hits not yet given away.
abbrev pub listed : Scan → List Block
listed (hit pre n post) = pre ++ (true, n) ∷ post
listed (full bs) = bs

listed-push : (x : Block) (s : Scan) → listed (push x s) ≡ x ∷ listed s
listed-push x (hit pre n post) = refl
listed-push x (full bs) = refl

-- Merging moves no used block.
mutual
  unfolding scan

  pub regions-scan :
      (needed p : ℕ) (bs : List Block) → regions p (listed (scan needed none bs)) ≡ regions p bs
  regions-scan needed p [] = refl
  regions-scan needed p ((false, n) ∷ bs) =
      rw listed-push (ap (◌∷◌ (p, n)) (regions-scan needed (p + n) bs))
  regions-scan needed p ((true, n) ∷ bs) = regions-scan_run needed p n bs

  pub regions-scan_run :
      (needed p s : ℕ) (bs : List Block)
      → regions p (listed (scan needed (some s) bs)) ≡ regions (p + s) bs
  regions-scan_run needed p s [] = elim (Bool-cases (leb needed s)) [
    | inl fits ↦ rw fits refl
    | inr not_fits ↦ rw not_fits refl
  ]
  regions-scan_run needed p s ((true, n) ∷ bs) =
      regions-scan_run needed p (s + n) bs ∙ ap (λ k. regions k bs) (omega arith)
  regions-scan_run needed p s ((false, n) ∷ bs) = elim (Bool-cases (leb needed s)) [
    | inl fits ↦ rw fits refl
    | inr not_fits ↦
        let rest = scan needed none bs in
        rw not_fits (
          ap (regions p) (
            listed-push (true, s) (push (false, n) rest)
            ∙ ap (◌∷◌ (true, s)) (listed-push (false, n) rest))
          ∙ ap (◌∷◌ (p + s, n)) (regions-scan needed (p + s + n) bs))
  ]

-- The words of the longest run of free blocks; `s` words of a run stand before the list.
abbrev pub longest_run : ℕ → List Block → ℕ
longest_run s [] = s
longest_run s ((true, n) ∷ bs) = longest_run (s + n) bs
longest_run s ((false, n) ∷ bs) = max s (longest_run 0 bs)

abbrev run_before : Option ℕ → ℕ
run_before none = 0
run_before (some s) = s

-- A hit is large enough, and within the longest run; without a hit every run is too short.
abbrev Verdict : ℕ → ℕ → Scan → Type 0
Verdict needed longest (hit pre n post) = (needed ≤ n) × (n ≤ longest)
Verdict needed longest (full bs) = longest < needed

Verdict-push :
    (needed l l' : ℕ) (x : Block) (s : Scan)
    → l ≤ l'
    → (l < needed → l' < needed)
    → Verdict needed l s
    → Verdict needed l' (push x s)
Verdict-push needed l l' x (hit pre n post) le lt v = omega arith
Verdict-push needed l l' x (full bs) le lt v = lt v

scan-Verdict :
    (needed : ℕ) (o : Option ℕ) (bs : List Block)
    → 0 < needed
    → Verdict needed (longest_run (run_before o) bs) (scan needed o bs)
unfolding scan
scan-Verdict needed none [] pos = pos
scan-Verdict needed none ((false, k) ∷ bs) pos =
    Verdict-push needed (longest_run 0 bs) _ (false, k) (scan needed none bs) (omega arith)
      (λ h. omega arith) (scan-Verdict needed none bs pos)
scan-Verdict needed none ((true, k) ∷ bs) pos =
    subst (λ r. Verdict needed (longest_run r bs) (scan needed (some k) bs)) (omega arith)
      (scan-Verdict needed (some k) bs pos)
scan-Verdict needed (some s) [] pos = elim (Bool-cases (leb needed s)) [
  | inl fits ↦ rw fits (leb→le needed s fits, omega arith)
  | inr not_fits ↦ rw not_fits (ground arith)
]
scan-Verdict needed (some s) ((true, k) ∷ bs) pos = scan-Verdict needed (some (s + k)) bs pos
scan-Verdict needed (some s) ((false, k) ∷ bs) pos = elim (Bool-cases (leb needed s)) [
  | inl fits ↦ rw fits (leb→le needed s fits, omega arith)
  | inr not_fits ↦
      let short : s < needed = ground arith in
      rw not_fits (
        Verdict-push needed (longest_run 0 bs) _ (true, s) (push (false, k) (scan needed none bs))
          (omega arith) (λ h. omega arith)
          (Verdict-push needed (longest_run 0 bs) _ (false, k) (scan needed none bs) (omega arith)
            (λ h. h) (scan-Verdict needed none bs pos)))
]

-- A request fails exactly when no run of free blocks, merged, has enough words.
pub first_fit_fails_iff :
    (needed : ℕ) (bs : List Block)
    → 0 < needed
    → ((first_fit needed bs).1 ≡ none) ↔ (longest_run 0 bs < needed)
unfolding first_fit
first_fit_fails_iff needed bs pos = go (scan needed none bs) (scan-Verdict needed none bs pos)
  where
    go :
        (s : Scan)
        → Verdict needed (longest_run 0 bs) s
        → ((place_in needed s).1 ≡ none) ↔ (longest_run 0 bs < needed)
    go (hit pre n post) v = (λ e. cc, λ lt. absurd (omega arith))
    go (full bs') v = (λ e. v, λ lt. refl)

-- The block that a request is given: behind the used blocks `l`, before the used blocks `r`.
pub record Given (needed p : ℕ) (bs bs' : List Block) (off : ℕ) : Type 0 where
  pub l : List (ℕ × ℕ)
  pub r : List (ℕ × ℕ)
  pub words : ℕ
  pub enough : needed ≤ words
  pub tight : words ≤ needed + 1
  pub before : regions p bs ≡ l ++ r
  pub after : regions p bs' ≡ l ++ (p + off, words) ∷ r

regions-place :
    (needed p n : ℕ) (post : List Block)
    → needed ≤ n
    → (w : ℕ) × (needed ≤ w)
      × (w ≤ needed + 1)
      × (regions p (place needed n ++ post) ≡ (p, w) ∷ regions (p + n) post)
regions-place needed p n post fits = elim (Bool-cases (leb n (needed + 1))) [
  | inl whole ↦ (n, fits, leb→le _ _ whole, rw whole refl)
  | inr split ↦ (
    needed,
    omega arith,
    omega arith,
    rw split (ap (λ k. (p, needed) ∷ regions k post) (ground arith)),
  )
]

-- A request that succeeds is given one new block of at least the words needed, and at most one
-- more; every other used block stays where it is.
pub first_fit_gives :
    (needed p : ℕ) (bs : List Block) (off : ℕ)
    → 0 < needed
    → (first_fit needed bs).1 ≡ some off
    → Given needed p bs (first_fit needed bs).0 off
unfolding first_fit
first_fit_gives needed p bs off pos =
    go (scan needed none bs) (scan-Verdict needed none bs pos) (regions-scan needed p bs)
  where
    go :
        (s : Scan)
        → Verdict needed (longest_run 0 bs) s
        → regions p (listed s) ≡ regions p bs
        → (place_in needed s).1 ≡ some off
        → Given needed p bs (place_in needed s).0 off
    go (full bs') v same e = cc
    go (hit pre n post) v same e =
        let (w, enough, tight, placed) = regions-place needed (p + total pre) n post v.0 in
        let here : total pre ≡ off = cc in
        record {
          l = regions p pre;
          r = regions (p + total pre + n) post;
          words = w;
          enough = enough;
          tight = tight;
          before = sym same ∙ regions-append p pre ((true, n) ∷ post);
          after =
              regions-append p pre (place needed n ++ post)
              ∙ ap (◌++◌ (regions p pre))
                  (placed ∙ ap (λ k. (p + k, w) ∷ regions (p + total pre + n) post) here);
        }
