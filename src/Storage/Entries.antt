-- ===== src/Storage/Entries.antt =====
-- The store as a list of pairs: what `put` and `remove` do to the list, and what `get` then finds.
use microbit_dal.Prelude.{
  ℕ, suc, ◌-◌, ◌<◌, ◌≡◌, refl, sym, ap, subst, ◌∙◌, inl, inr, true, false, ◌||◌, none, some, List,
  [], ◌∷◌, ◌++◌, arith, if◌then◌else◌, Bool-cases, length, take, replicate,
}
use microbit_dal.Storage.{
  value_size, some, none, suc, ◌-◌, ap, ◌++◌, true, arith, false, ◌∷◌, ℕ, length, ◌≡◌, List,
  KeyValuePair, same_bytes, new_pair, up_to_date,
}
use microbit_dal.Storage.Pages.{lookup, has_key, replace, without, same_bytes_iff}

-- No two pairs with the same key.
abbrev pub Distinct : List KeyValuePair → Type 0
Distinct [] = Unit
Distinct (e ∷ es) = (has_key e.key es ≡ false) × Distinct es

pub same_bytes_comm : (xs ys : List ℕ) → same_bytes xs ys ≡ same_bytes ys xs
same_bytes_comm [] [] = refl
same_bytes_comm [] (y ∷ ys) = refl
same_bytes_comm (x ∷ xs) [] = refl
same_bytes_comm (x ∷ xs) (y ∷ ys) = let rest = same_bytes_comm xs ys in ground arith

pub same_bytes_refl : (xs : List ℕ) → same_bytes xs xs ≡ true
same_bytes_refl xs = (same_bytes_iff xs xs).1 refl

pub lookup-absent :
    (key : List ℕ) (es : List KeyValuePair) → has_key key es ≡ false → lookup key es ≡ none
lookup-absent key [] h = refl
lookup-absent key (e ∷ es) h = ground (arith, same_bytes_comm key e.key, lookup-absent key es)

pub length-replace :
    (pair : KeyValuePair) (es : List KeyValuePair) → length (replace pair es) ≡ length es
length-replace pair [] = refl
length-replace pair (e ∷ es) = ap suc (length-replace pair es)

pub without-absent :
    (key : List ℕ) (es : List KeyValuePair) → has_key key es ≡ false → without key es ≡ es
without-absent key [] h = refl
without-absent key (e ∷ es) h = ground (arith, without-absent key es)

pub replace-absent :
    (pair : KeyValuePair) (es : List KeyValuePair)
    → has_key pair.key es ≡ false
    → replace pair es ≡ es
replace-absent pair [] h = refl
replace-absent pair (e ∷ es) h = ground (arith, replace-absent pair es)

same_bytes_cong : (k x y : List ℕ) → same_bytes x y ≡ true → same_bytes x k ≡ same_bytes y k
same_bytes_cong k x y h = ap (λ z. same_bytes z k) ((same_bytes_iff x y).0 h)

pub has_key-replace :
    (k : List ℕ) (pair : KeyValuePair) (es : List KeyValuePair)
    → has_key k (replace pair es) ≡ has_key k es
has_key-replace k pair [] = refl
has_key-replace k pair (e ∷ es) =
    ground (arith, has_key-replace k pair es, same_bytes_cong k e.key pair.key)

pub has_key-without :
    (k key : List ℕ) (es : List KeyValuePair)
    → has_key k es ≡ false
    → has_key k (without key es) ≡ false
has_key-without k key [] h = refl
has_key-without k key (e ∷ es) h = ground (arith, has_key-without k key es)

pub has_key-append :
    (k : List ℕ) (es : List KeyValuePair) (pair : KeyValuePair)
    → has_key k (es ++ (pair ∷ [])) ≡ has_key k es || same_bytes pair.key k
has_key-append k [] pair = ground arith
has_key-append k (e ∷ es) pair = ground (arith, has_key-append k es pair)

has_key_cong :
    (es : List KeyValuePair) (x y : List ℕ) → same_bytes x y ≡ true → has_key x es ≡ has_key y es
has_key_cong es x y h = ap (λ z. has_key z es) ((same_bytes_iff x y).0 h)

length-pos : (key : List ℕ) (es : List KeyValuePair) → has_key key es ≡ true → 0 < length es
length-pos key [] h = cc
length-pos key (e ∷ es) h = omega arith

pub Distinct-replace :
    (pair : KeyValuePair) (es : List KeyValuePair) → Distinct es → Distinct (replace pair es)
Distinct-replace pair [] d = d
Distinct-replace pair (e ∷ es) (h, d) = (
  elim (Bool-cases (same_bytes e.key pair.key)) [
    | inl t ↦
        ap (λ b. has_key (if b then pair else e).key (replace pair es)) t
        ∙ has_key-replace pair.key pair es
        ∙ sym (has_key_cong es e.key pair.key t)
        ∙ h
    | inr f ↦
        ap (λ b. has_key (if b then pair else e).key (replace pair es)) f
        ∙ has_key-replace e.key pair es
        ∙ h
  ],
  Distinct-replace pair es d,
)

pub Distinct-without :
    (key : List ℕ) (es : List KeyValuePair) → Distinct es → Distinct (without key es)
Distinct-without key [] d = d
Distinct-without key (e ∷ es) (h, d) = elim (Bool-cases (same_bytes e.key key)) [
  | inl t ↦
      subst (λ b. Distinct (if b then without key es else e ∷ without key es)) (sym t)
        (Distinct-without key es d)
  | inr f ↦
      subst (λ b. Distinct (if b then without key es else e ∷ without key es)) (sym f)
        (has_key-without e.key key es h, Distinct-without key es d)
]

pub Distinct-append :
    (es : List KeyValuePair) (pair : KeyValuePair)
    → Distinct es
    → has_key pair.key es ≡ false
    → Distinct (es ++ (pair ∷ []))
Distinct-append [] pair d h = (refl, tt)
Distinct-append (e ∷ es) pair (h, d) absent = (
  ground (arith, has_key-append e.key es pair, same_bytes_comm pair.key e.key),
  Distinct-append es pair d (ground arith),
)

pub length-without :
    (key : List ℕ) (es : List KeyValuePair)
    → Distinct es
    → has_key key es ≡ true
    → length (without key es) ≡ length es - 1
length-without key [] d h = cc
length-without key (e ∷ es) (fresh, d) h = ground (
  arith,
  length-without key es d,
  without-absent key es,
  has_key_cong es e.key key,
  length-pos key es,
)

pub lookup-replace :
    (pair : KeyValuePair) (es : List KeyValuePair)
    → has_key pair.key es ≡ true
    → lookup pair.key (replace pair es) ≡ some pair
lookup-replace pair [] h = cc
lookup-replace pair (e ∷ es) h =
    ground (arith, lookup-replace pair es, same_bytes_refl pair.key, same_bytes_comm pair.key e.key)

pub lookup-append :
    (es : List KeyValuePair) (pair : KeyValuePair)
    → has_key pair.key es ≡ false
    → lookup pair.key (es ++ (pair ∷ [])) ≡ some pair
lookup-append [] pair h = ap (λ b. if b then some pair else none) (same_bytes_refl pair.key)
lookup-append (e ∷ es) pair h =
    ground (arith, same_bytes_comm pair.key e.key, lookup-append es pair)

pub lookup-replace_other :
    (k : List ℕ) (pair : KeyValuePair) (es : List KeyValuePair)
    → same_bytes pair.key k ≡ false
    → lookup k (replace pair es) ≡ lookup k es
lookup-replace_other k pair [] h = refl
lookup-replace_other k pair (e ∷ es) h = ground (
  arith,
  lookup-replace_other k pair es h,
  same_bytes_comm k e.key,
  same_bytes_comm k pair.key,
  same_bytes_cong k e.key pair.key,
)

pub lookup-append_other :
    (k : List ℕ) (es : List KeyValuePair) (pair : KeyValuePair)
    → same_bytes pair.key k ≡ false
    → lookup k (es ++ (pair ∷ [])) ≡ lookup k es
lookup-append_other k [] pair h = ground (arith, same_bytes_comm k pair.key)
lookup-append_other k (e ∷ es) pair h =
    ap (λ r. if same_bytes k e.key then some e else r) (lookup-append_other k es pair h)

pub lookup-without : (key : List ℕ) (es : List KeyValuePair) → lookup key (without key es) ≡ none
lookup-without key [] = refl
lookup-without key (e ∷ es) = ground (arith, lookup-without key es, same_bytes_comm key e.key)

pub lookup-without_other :
    (k key : List ℕ) (es : List KeyValuePair)
    → same_bytes key k ≡ false
    → lookup k (without key es) ≡ lookup k es
lookup-without_other k key [] h = refl
lookup-without_other k key (e ∷ es) h =
    ground
      (arith, lookup-without_other k key es h, same_bytes_comm k e.key, same_bytes_cong k e.key key)

take-append : (xs ys : List ℕ) → take (length xs) (xs ++ ys) ≡ xs
take-append [] ys = refl
take-append (x ∷ xs) ys = ap (λ zs. x ∷ zs) (take-append xs ys)

pub up_to_date-new_pair : (key bytes : List ℕ) → up_to_date bytes (some (new_pair key bytes)) ≡ true
unfolding new_pair
up_to_date-new_pair key bytes =
    ap (λ bs. same_bytes bs bytes) (take-append bytes (replicate (value_size - length bytes) 0))
    ∙ same_bytes_refl bytes
