-- ===== src/Storage/Refine.antt =====
-- The operations of the store as operations on the list of its pairs.
use microbit_dal.Prelude.{
  if-cases, ℕ, zero, suc, ◌+◌, ◌-◌, ◌≤◌, ◌<◌, ◌≡◌, refl, sym, ap, subst, ◌∙◌, Bool, true, false,
  ◌||◌, List, [], ◌∷◌, ◌++◌, arith, ltb, ◌==◌, if◌then◌else◌, ==_iff, length,
}
use microbit_dal.Storage.{
  store_words, KeyValuePair, Page, Storage, Status, capacity, new_pair, up_to_date, storage_magic,
  key_size, value_size, erased_page, flash_copy, scratch_key_value_store, scratch_key_value_pair,
  find_pair, put_loop, remove_loop, size, get, put, put_pair, commit, remove_pair, remove,
}
use microbit_dal.Storage.Pages.{
  put_block_below, pairs, entries, lookup, has_key, replace, without, find_pair-lookup,
  pairs-flash_copy, length-pairs, Header, Looped, put_block, put_loop-Replaces, remove_loop-Removes,
  pairs-eq,
}
use microbit_dal.Storage.Entries.{Distinct, length-replace, replace-absent, length-without}

abbrev pub IsValid : Storage → Type 0
IsValid s = (length (entries s) ≤ capacity) × Distinct (entries s)

-- `put` on the list: a pair that is not up to date replaces the one with its key, or is added.
abbrev pub put_list : ℕ → KeyValuePair → List KeyValuePair → List KeyValuePair × Status
put_list n pair es =
    if has_key pair.key es
    then (replace pair es, Status.ok)
    else if n == capacity
    then (es, Status.no_resources)
    else (es ++ (pair ∷ []), Status.ok)

abbrev pub put_entries : List ℕ → List ℕ → List KeyValuePair → List KeyValuePair × Status
put_entries key bytes es =
    if up_to_date bytes (lookup key es)
    then (es, Status.ok)
    else put_list (length es) (new_pair key bytes) es

-- `remove` on the list.
abbrev pub remove_entries : List ℕ → List KeyValuePair → List KeyValuePair × Status
remove_entries key es = if has_key key es then (without key es, Status.ok) else (es, Status.no_data)

-- What an operation leaves in the store, and what it returns.
abbrev pub outcome : Storage × Status → List KeyValuePair × Status
outcome (s, r) = (entries s, r)

entries-Header : (n : ℕ) (s : Storage) → Header n s.store → entries s ≡ pairs n 0 s.store
entries-Header n s (m, c) =
    let t : (s.store.magic == storage_magic) ≡ true = ground arith in
    ap (λ b. if b then pairs s.store.count 0 s.store else []) t ∙ ap (λ k. pairs k 0 s.store) c

size_case :
    (b : Bool) (s : Storage) (fresh : Page)
    → (s.store.magic == storage_magic) ≡ b
    → Header 0 fresh
    → let r : Storage × ℕ =
        if b then (s, s.store.count) else (record { store = fresh; scratch = fresh }, 0) in
      Header (r.1) (r.0).store
      × (pairs (r.1) 0 (r.0).store ≡ (if b then pairs s.store.count 0 s.store else []))
size_case true s fresh e h = ((ground arith, refl), refl)
size_case false s fresh e h = (h, refl)

size_lem :
    (s : Storage)
    → Header ((size s).1) (size s).0.store × (pairs ((size s).1) 0 (size s).0.store ≡ entries s)
unfolding size scratch_key_value_store
size_lem s =
    size_case (s.store.magic == storage_magic) s (scratch_key_value_store 0 erased_page) refl
      (refl, refl)

entries-commit : (n : ℕ) (p : Page) → Header n p → entries (commit n p) ≡ pairs n 0 p
unfolding flash_copy
entries-commit n p h =
    entries-Header n (commit n p) h ∙ pairs-flash_copy n n 0 p erased_page (omega arith)

pairs-last :
    (n i j : ℕ) (p : Page) → j ≡ i + n → pairs (suc n) i p ≡ pairs n i p ++ (p.block j ∷ [])
pairs-last zero i j p e = ap (λ k. p.block k ∷ []) (omega arith)
pairs-last (suc n) i j p e = ap (λ es. p.block i ∷ es) (pairs-last n (suc i) j p (omega arith))

-- A pair behind the last one.
append_pair :
    (n : ℕ) (pair : KeyValuePair) (p : Page) (es : List KeyValuePair)
    → pairs n 0 p ≡ es
    → entries (commit (n + 1) (scratch_key_value_pair pair n (scratch_key_value_store (n + 1) p)))
      ≡ es ++ (pair ∷ [])
unfolding scratch_key_value_store scratch_key_value_pair
append_pair n pair p es h =
    let blank = scratch_key_value_store (n + 1) p in
    let q = scratch_key_value_pair pair n blank in
    let count : n + 1 ≡ suc n = omega arith in
    let before = pairs-eq n 0 q p (λ j lo hi. put_block_below pair n j blank (omega arith)) ∙ h in
    entries-commit (n + 1) q (refl, refl)
    ∙ ap (λ k. pairs k 0 q) count
    ∙ pairs-last n 0 n q (omega arith)
    ∙ ap (λ es'. es' ++ (q.block n ∷ [])) before
    ∙ ap (λ e. es ++ (e ∷ [])) (put_block pair n blank)

-- The end of `put` for a new key, with the test on the room as `b`.
put_new :
    (b : Bool) (n : ℕ) (pair : KeyValuePair) (s : Storage) (p : Page)
    → pairs n 0 p ≡ entries s
    → outcome (
        if b then (record s { scratch = p }, Status.no_resources) else (
          commit (n + 1) (scratch_key_value_pair pair n (scratch_key_value_store (n + 1) p)),
          Status.ok,
        ))
      ≡ (if b then (entries s, Status.no_resources) else (entries s ++ (pair ∷ []), Status.ok))
put_new true n pair s p h = refl
put_new false n pair s p h = ap (λ es. (es, Status.ok)) (append_pair n pair p (entries s) h)

put_pair_lem :
    (n : ℕ) (pair : KeyValuePair) (s : Storage) (r : Page × Bool)
    → Header n s.store
    → length (entries s) ≡ n
    → Looped 0 n (replace pair (entries s)) (has_key pair.key (entries s)) erased_page false r
    → outcome (put_pair n pair s r) ≡ put_list n pair (entries s)
unfolding put_pair
put_pair_lem n pair s (p, true) h l (same, flag, below, head) =
    let new_entries : List KeyValuePair × Status =
      if n == capacity
      then (entries s, Status.no_resources)
      else (entries s ++ (pair ∷ []), Status.ok) in
    let t : has_key pair.key (entries s) ≡ true = ground arith in
    let held =
      subst (λ k. pairs k 0 p ≡ replace pair (entries s)) (length-replace pair (entries s) ∙ l)
        same in
    ap (λ es. (es, Status.ok)) (entries-commit n p (head (λ e. cc) refl) ∙ held)
    ∙ sym (ap (λ b. if b then (replace pair (entries s), Status.ok) else new_entries) t)
put_pair_lem n pair s (p, false) h l (same, flag, below, head) =
    let new_entries : List KeyValuePair × Status =
      if n == capacity
      then (entries s, Status.no_resources)
      else (entries s ++ (pair ∷ []), Status.ok) in
    let f : has_key pair.key (entries s) ≡ false = ground arith in
    let held =
      subst (λ k. pairs k 0 p ≡ replace pair (entries s)) (length-replace pair (entries s) ∙ l)
        same in
    put_new (n == capacity) n pair s p (held ∙ replace-absent pair (entries s) f)
    ∙ sym (ap (λ b. if b then (replace pair (entries s), Status.ok) else new_entries) f)

outcome-if :
    (b : Bool) (x y : Storage × Status) (x' y' : List KeyValuePair × Status)
    → outcome x ≡ x'
    → outcome y ≡ y'
    → outcome (if b then x else y) ≡ (if b then x' else y')
outcome-if true x y x' y' p q = p
outcome-if false x y x' y' p q = q

entries-size : (s : Storage) → entries (size s).0 ≡ entries s
entries-size s = let (h, same) = size_lem s in entries-Header ((size s).1) (size s).0 h ∙ same

-- `get` keeps the pairs and returns the first one with the key.
pub get_lem :
    (key : List ℕ) (s : Storage)
    → (entries (get key s).0 ≡ entries s) × ((get key s).1 ≡ lookup key (entries s))
unfolding get
get_lem key s =
    let (h, same) = size_lem s in
    (entries-size s, find_pair-lookup ((size s).1) 0 key (size s).0.store ∙ ap (lookup key) same)

put_behind_get :
    (pair : KeyValuePair) (s : Storage)
    → let s' = (size s).0 in
      let n = s'.store.count in
      outcome (put_pair n pair s' (put_loop n 0 n pair s'.store (erased_page, false)))
      ≡ put_list (length (entries s)) pair (entries s)
put_behind_get pair s =
    let s' = (size s).0 in
    let n = s'.store.count in
    let h : Header n s'.store = ((size_lem s).0.0, refl) in
    let held = entries-Header n s' h in
    let len : length (entries s') ≡ n = ap length held ∙ length-pairs n 0 s'.store in
    let result = put_loop n 0 n pair s'.store (erased_page, false) in
    put_pair_lem n pair s' result h len (
      subst (λ es. Looped 0 n (replace pair es) (has_key pair.key es) erased_page false result)
        (sym held) (put_loop-Replaces n 0 n pair s'.store erased_page false))
    ∙ ap (λ k. put_list k pair (entries s')) (sym len)
    ∙ ap (λ es. put_list (length es) pair es) (entries-size s)

-- With a key and data that fit, `put` is `put_entries`.
pub put-Refines :
    (key bytes : List ℕ) (s : Storage)
    → length key < key_size
    → length bytes ≤ value_size
    → outcome (put key bytes s) ≡ put_entries key bytes (entries s)
unfolding put get new_pair
put-Refines key bytes s small fits =
    let pair = new_pair key bytes in
    let s' = (size s).0 in
    let n = s'.store.count in
    let done = put_pair n pair s' (put_loop n 0 n pair s'.store (erased_page, false)) in
    let found = find_pair ((size s).1) 0 key s'.store in
    let good : (ltb key_size (length key + 1) || ltb value_size (length bytes)) ≡ false =
      ground arith in
    ap
      (λ b. outcome (
        if b
        then (s, Status.invalid_parameter)
        else if up_to_date bytes found
        then (s', Status.ok)
        else done))
      good
    ∙ outcome-if (up_to_date bytes found) (s', Status.ok) done (entries s, Status.ok)
        (put_list (length (entries s)) pair (entries s))
        (ap (λ es. (es, Status.ok)) (entries-size s)) (put_behind_get pair s)
    ∙ ap
        (λ r.
          if up_to_date bytes r
          then (entries s, Status.ok)
          else put_list (length (entries s)) pair (entries s))
        (get_lem key s).1

entries-commit_lt : (k n : ℕ) (p : Page) → k ≤ n → Header k p → entries (commit n p) ≡ pairs k 0 p
unfolding flash_copy
entries-commit_lt k n p le h =
    entries-Header k (commit n p) h ∙ pairs-flash_copy k n 0 p erased_page (omega arith)

remove_absent :
    (key : List ℕ) (es : List KeyValuePair)
    → has_key key es ≡ false
    → (es, Status.no_data) ≡ remove_entries key es
remove_absent key es f =
    sym (ap (λ b. if b then (without key es, Status.ok) else (es, Status.no_data)) f)

has_key-nil : (key : List ℕ) (es : List KeyValuePair) → length es ≡ 0 → has_key key es ≡ false
has_key-nil key [] h = refl
has_key-nil key (e ∷ es) h = absurd (omega arith)

remove_pair_lem :
    (n : ℕ) (key : List ℕ) (s : Storage) (r : Page × Bool)
    → length (entries s) ≡ n
    → Distinct (entries s)
    → Looped 0 (n - 1) (without key (entries s)) (has_key key (entries s)) erased_page false r
    → outcome (remove_pair n s r) ≡ remove_entries key (entries s)
unfolding remove_pair
remove_pair_lem n key s (p, true) l d (same, flag, below, head) =
    let t : has_key key (entries s) ≡ true = ground arith in
    let left : length (without key (entries s)) ≡ n - 1 =
      ground (arith, length-without key (entries s) d t) in
    let held = subst (λ k. pairs k 0 p ≡ without key (entries s)) left same in
    ap (λ es. (es, Status.ok))
      (entries-commit_lt (n - 1) n p (omega arith) (head (λ e. cc) refl) ∙ held)
    ∙ sym (
        ap (λ b. if b then (without key (entries s), Status.ok) else (entries s, Status.no_data)) t)
remove_pair_lem n key s (p, false) l d (same, flag, below, head) =
    remove_absent key (entries s) (ground arith)

remove_erased :
    (key : List ℕ) (s : Storage)
    → Distinct (entries s)
    → (let (s', n) = size s in
        outcome (
          if n == 0
          then (s', Status.no_data)
          else remove_pair n s' (remove_loop n 0 0 n key s'.store (erased_page, false))))
      ≡ remove_entries key (entries s)
remove_erased key s d =
    let s' = (size s).0 in
    let n = (size s).1 in
    let (h, same) = size_lem s in
    let held = entries-size s in
    let len : length (entries s') ≡ n =
      ap length (entries-Header n s' h) ∙ length-pairs n 0 s'.store in
    let result = remove_loop n 0 0 n key s'.store (erased_page, false) in
    if-cases (λ r. outcome r ≡ remove_entries key (entries s)) (n == 0) (s', Status.no_data)
      (remove_pair n s' result)
      (λ t.
        ap (λ es. (es, Status.no_data)) held
        ∙ remove_absent key (entries s) (
            has_key-nil key (entries s) (sym (ap length held) ∙ len ∙ (==_iff ((size s).1) 0).0 t)))
      (λ f.
        remove_pair_lem n key s' result len (subst Distinct (sym held) d) (
          subst (λ es. Looped 0 (n - 1) (without key es) (has_key key es) erased_page false result)
            (sym (entries-Header n s' h))
            (remove_loop-Removes n 0 0 n key s'.store erased_page false))
        ∙ ap (remove_entries key) held)

-- A flash controller that erases the page that holds the address it is given, also where that is
-- not the first word; a page has 256 words.
abbrev pub ErasesPage : (ℕ → Page → Page) → Type 0
ErasesPage erase = (words : ℕ) (p : Page) → words < 256 → erase words p ≡ erased_page

-- `remove` is `remove_entries`, where no two pairs have the same key.
pub remove-Refines :
    (erase : ℕ → Page → Page) (key : List ℕ) (s : Storage)
    → ErasesPage erase
    → Distinct (entries s)
    → outcome (remove erase key s) ≡ remove_entries key (entries s)
unfolding remove
remove-Refines erase key s whole d =
    ap
      (λ q.
        let (s', n) = size s in
        outcome (
          if n == 0
          then (s', Status.no_data)
          else remove_pair n s' (remove_loop n 0 0 n key s'.store (q, false))))
      (whole store_words (size s).0.scratch (omega arith))
    ∙ remove_erased key s d
