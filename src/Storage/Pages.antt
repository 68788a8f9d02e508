-- ===== src/Storage/Pages.antt =====
-- A page as the list of its pairs, and what the loops over pages do with that list.
use microbit_dal.Prelude.{
  ℕ, zero, suc, ◌+◌, ◌-◌, ◌≤◌, ◌<◌, ◌≡◌, refl, ap, ◌∙◌, ◌↔◌, Bool, true, false, ◌||◌, Option, none,
  some, List, [], ◌∷◌, arith, ltb, ◌==◌, if◌then◌else◌, length,
}
use microbit_dal.Storage.{
  KeyValuePair, Page, Storage, storage_magic, flash_copy, scratch_key_value_store,
  scratch_key_value_pair, same_bytes, find_pair, put_loop, remove_loop,
}

-- The `n` pairs from block `i` on.
abbrev pub pairs : ℕ → ℕ → Page → List KeyValuePair
pairs zero i p = []
pairs (suc n) i p = p.block i ∷ pairs n (suc i) p

-- What the store holds; one that has not been used holds nothing.
abbrev pub entries : Storage → List KeyValuePair
entries s = if s.store.magic == storage_magic then pairs s.store.count 0 s.store else []

-- The specification: a list of pairs.
abbrev pub lookup : List ℕ → List KeyValuePair → Option KeyValuePair
lookup key [] = none
lookup key (e ∷ es) = if same_bytes key e.key then some e else lookup key es

abbrev pub has_key : List ℕ → List KeyValuePair → Bool
has_key key [] = false
has_key key (e ∷ es) = same_bytes e.key key || has_key key es

abbrev pub replace : KeyValuePair → List KeyValuePair → List KeyValuePair
replace pair [] = []
replace pair (e ∷ es) = (if same_bytes e.key pair.key then pair else e) ∷ replace pair es

abbrev pub without : List ℕ → List KeyValuePair → List KeyValuePair
without key [] = []
without key (e ∷ es) = if same_bytes e.key key then without key es else e ∷ without key es

pub same_bytes_iff : (xs ys : List ℕ) → (same_bytes xs ys ≡ true) ↔ (xs ≡ ys)
same_bytes_iff [] [] = (λ h. refl, λ h. refl)
same_bytes_iff [] (y ∷ ys) = (λ h. cc, λ h. cc)
same_bytes_iff (x ∷ xs) [] = (λ h. cc, λ h. cc)
same_bytes_iff (x ∷ xs) (y ∷ ys) =
    let rest = same_bytes_iff xs ys in (λ h. ground (arith, rest), λ h. ground (arith, rest))

pub find_pair-lookup :
    (n i : ℕ) (key : List ℕ) (p : Page) → find_pair n i key p ≡ lookup key (pairs n i p)
unfolding find_pair
find_pair-lookup zero i key p = refl
find_pair-lookup (suc n) i key p =
    ap (λ r. if same_bytes key (p.block i).key then some (p.block i) else r)
      (find_pair-lookup n (suc i) key p)

-- Pages that agree on blocks hold the same pairs there.
pub pairs-eq :
    (n i : ℕ) (p q : Page)
    → ((j : ℕ) → i ≤ j → j < i + n → p.block j ≡ q.block j)
    → pairs n i p ≡ pairs n i q
pairs-eq zero i p q h = refl
pairs-eq (suc n) i p q h =
    let first : p.block i ≡ q.block i = h i (omega arith) (omega arith) in
    let rest = pairs-eq n (suc i) p q (λ j lo hi. h j (omega arith) (omega arith)) in cc

pub pairs-flash_copy :
    (n k i : ℕ) (p q : Page) → i + n ≤ k → pairs n i (flash_copy k p q) ≡ pairs n i p
unfolding flash_copy
pairs-flash_copy n k i p q h = pairs-eq n i (flash_copy k p q) p (λ j lo hi.
    let inside : ltb j k ≡ true = ground arith in
    ap (λ b. if b then p.block j else q.block j) inside)

pub length-pairs : (n i : ℕ) (p : Page) → length (pairs n i p) ≡ n
length-pairs zero i p = refl
length-pairs (suc n) i p = ap suc (length-pairs n (suc i) p)

-- The header of a page that is in use.
abbrev pub Header : ℕ → Page → Type 0
Header n p = (p.magic ≡ storage_magic) × (p.count ≡ n)

or_true : (b : Bool) → (b || true) ≡ true
or_true true = refl
or_true false = refl

-- What a loop makes of the blocks from `i` on: those that are expected, and the flag and the header.
abbrev pub Looped : ℕ → ℕ → List KeyValuePair → Bool → Page → Bool → Page × Bool → Type 0
Looped i total expected any scratch found (p, found') =
    (pairs (length expected) i p ≡ expected)
    × (found' ≡ (any || found))
    × ((j : ℕ) → j < i → p.block j ≡ scratch.block j)
    × ((found ≡ true → Header total scratch) → found' ≡ true → Header total p)

pub put_block :
    (pair : KeyValuePair) (i : ℕ) (p : Page) → (scratch_key_value_pair pair i p).block i ≡ pair
unfolding scratch_key_value_pair
put_block pair i p =
    let here : (i == i) ≡ true = ground arith in ap (λ b. if b then pair else p.block i) here

pub put_block_below :
    (pair : KeyValuePair) (i j : ℕ) (p : Page)
    → j < i
    → (scratch_key_value_pair pair i p).block j ≡ p.block j
unfolding scratch_key_value_pair
put_block_below pair i j p h =
    let apart : (j == i) ≡ false = ground arith in ap (λ b. if b then pair else p.block j) apart

or_swap : (a b c : Bool) → (a || (b || c)) ≡ ((b || a) || c)
or_swap true true c = refl
or_swap true false c = refl
or_swap false true c = refl
or_swap false false c = refl

put_cons :
    (i : ℕ) (e : KeyValuePair) (es : List KeyValuePair) (q : Page)
    → pairs (length es) (suc i) q ≡ es
    → q.block i ≡ e
    → pairs (length (e ∷ es)) i q ≡ e ∷ es
put_cons i e es q rest first = cc

put_round :
    (i total : ℕ) (written : KeyValuePair) (rest : List KeyValuePair) (any found found' : Bool)
    (scratch p : Page) (r : Page × Bool)
    → Looped (suc i) total rest any (scratch_key_value_pair written i p) found' r
    → ((j : ℕ) → p.block j ≡ scratch.block j)
    → (now : Bool) → found' ≡ (now || found)
    → ((found ≡ true → Header total scratch) → found' ≡ true → Header total p)
    → Looped i total (written ∷ rest) (now || any) scratch found r
unfolding scratch_key_value_pair
put_round i total written rest any found found' scratch p (q, last) (same, flag, below, head) blocks
      now e keeps =
    (
      put_cons i written rest q same (below i (omega arith) ∙ put_block written i p),
      flag ∙ ap (λ b. any || b) e ∙ or_swap any now found,
      λ j h. below j (omega arith) ∙ put_block_below written i j p h ∙ blocks j,
      λ start end. head (keeps start) end,
    )

-- One block, with the test on its key as `b`.
put_step :
    (b : Bool) (n i total : ℕ) (pair : KeyValuePair) (store scratch : Page) (found : Bool)
    → ((later : Page) (seen : Bool)
        → Looped
            (suc i)
            total
            (replace pair (pairs n (suc i) store))
            (has_key pair.key (pairs n (suc i) store))
            later
            seen
            (put_loop n (suc i) total pair store (later, seen)))
    → Looped i total
        ((if b then pair else store.block i) ∷ replace pair (pairs n (suc i) store))
        (b || has_key pair.key (pairs n (suc i) store))
        scratch
        found
        (put_loop n (suc i) total pair store (
          if b
          then (scratch_key_value_pair pair i (scratch_key_value_store total scratch), true)
          else (scratch_key_value_pair (store.block i) i scratch, found)))
unfolding scratch_key_value_store
put_step true n i total pair store scratch found rest =
    put_round i total pair (replace pair (pairs n (suc i) store))
      (has_key pair.key (pairs n (suc i) store)) found true scratch
      (scratch_key_value_store total scratch)
      (put_loop n (suc i) total pair store
        (scratch_key_value_pair pair i (scratch_key_value_store total scratch), true))
      (rest (scratch_key_value_pair pair i (scratch_key_value_store total scratch)) true)
      (λ j. refl) true refl (λ start end. (refl, refl))
put_step false n i total pair store scratch found rest =
    put_round i total (store.block i) (replace pair (pairs n (suc i) store))
      (has_key pair.key (pairs n (suc i) store)) found found scratch scratch
      (put_loop n (suc i) total pair store
        (scratch_key_value_pair (store.block i) i scratch, found))
      (rest (scratch_key_value_pair (store.block i) i scratch) found) (λ j. refl) false refl
      (λ start end. start end)

pub put_loop-Replaces :
    (n i total : ℕ) (pair : KeyValuePair) (store scratch : Page) (found : Bool)
    → Looped i total
        (replace pair (pairs n i store))
        (has_key pair.key (pairs n i store))
        scratch
        found
        (put_loop n i total pair store (scratch, found))
unfolding put_loop
put_loop-Replaces zero i total pair store scratch found =
    (refl, refl, λ j h. refl, λ start end. start end)
put_loop-Replaces (suc n) i total pair store scratch found =
    put_step (same_bytes (store.block i).key pair.key) n i total pair store scratch found
      (put_loop-Replaces n (suc i) total pair store)

-- One block of the loop of `remove`, with the test on its key as `b`.
remove_step :
    (b : Bool) (n i to total : ℕ) (key : List ℕ) (store scratch : Page) (found : Bool)
    → ((at : ℕ) (later : Page) (seen : Bool)
        → Looped at
            (total - 1)
            (without key (pairs n (suc i) store))
            (has_key key (pairs n (suc i) store))
            later
            seen
            (remove_loop n (suc i) at total key store (later, seen)))
    → Looped to
        (total - 1)
        (if b
          then without key (pairs n (suc i) store)
          else store.block i ∷ without key (pairs n (suc i) store))
        (b || has_key key (pairs n (suc i) store))
        scratch
        found
        (remove_loop n (suc i) (if b then to else suc to) total key store (
          if b
          then (scratch_key_value_store (total - 1) scratch, true)
          else (scratch_key_value_pair (store.block i) to scratch, found)))
unfolding scratch_key_value_store
remove_step true n i to total key store scratch found rest =
    let (same, flag, below, head) = rest to (scratch_key_value_store (total - 1) scratch) true in
    (
      same,
      flag ∙ or_true (has_key key (pairs n (suc i) store)),
      below,
      λ start end. head (λ e. (refl, refl)) end,
    )
remove_step false n i to total key store scratch found rest =
    put_round to (total - 1) (store.block i) (without key (pairs n (suc i) store))
      (has_key key (pairs n (suc i) store)) found found scratch scratch
      (remove_loop n (suc i) (suc to) total key store
        (scratch_key_value_pair (store.block i) to scratch, found))
      (rest (suc to) (scratch_key_value_pair (store.block i) to scratch) found) (λ j. refl) false
      refl (λ start end. start end)

pub remove_loop-Removes :
    (n i to total : ℕ) (key : List ℕ) (store scratch : Page) (found : Bool)
    → Looped to
        (total - 1)
        (without key (pairs n i store))
        (has_key key (pairs n i store))
        scratch
        found
        (remove_loop n i to total key store (scratch, found))
unfolding remove_loop
remove_loop-Removes zero i to total key store scratch found =
    (refl, refl, λ j h. refl, λ start end. start end)
remove_loop-Removes (suc n) i to total key store scratch found =
    remove_step (same_bytes (store.block i).key key) n i to total key store scratch found
      (λ at. remove_loop-Removes n (suc i) at total key store)
