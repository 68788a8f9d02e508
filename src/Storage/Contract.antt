-- ===== src/Storage/Contract.antt =====
-- What the store promises: the pairs it holds stay well formed, and `get` finds what `put` stored.
use microbit_dal.Prelude.{
  if-cases, ℕ, ◌≤◌, ◌<◌, ◌≡◌, refl, sym, ap, subst, ◌∙◌, ◌≢◌, inl, inr, true, false, none, List, [],
  ◌∷◌, ◌++◌, arith, ◌==◌, if◌then◌else◌, Bool-cases, length, length-append,
}
use microbit_dal.Storage.{
  KeyValuePair, Storage, Status, capacity, same_bytes, new_pair, up_to_date, key_size, value_size,
  get, put,
}
use microbit_dal.Storage.Pages.{entries, lookup, has_key, replace, same_bytes_iff}
use microbit_dal.Storage.Entries.{
  lookup-append_other, up_to_date-new_pair, lookup-replace_other, Distinct, length-replace,
  Distinct-replace, Distinct-append, lookup-replace, lookup-append,
}
use microbit_dal.Storage.Refine.{IsValid, put_list, put_entries, get_lem, put-Refines}

abbrev Kept : List KeyValuePair × Status → Type 0
Kept (es, r) = (length es ≤ capacity) × Distinct es

put_list-Distinct :
    (n : ℕ) (pair : KeyValuePair) (es : List KeyValuePair)
    → length es ≡ n
    → (length es ≤ capacity) × Distinct es
    → Kept (put_list n pair es)
put_list-Distinct n pair es l (le, d) =
    if-cases Kept (has_key pair.key es) (replace pair es, Status.ok)
      (if n == capacity then (es, Status.no_resources) else (es ++ (pair ∷ []), Status.ok))
      (λ t.
        (subst (λ k. k ≤ capacity) (sym (length-replace pair es)) le, Distinct-replace pair es d))
      (λ f.
        if-cases Kept (n == capacity) (es, Status.no_resources) (es ++ (pair ∷ []), Status.ok)
          (λ t. (le, d))
          (λ room.
            (let more = length-append es (pair ∷ []) in ground arith, Distinct-append es pair d f)))

put_entries-Kept :
    (key bytes : List ℕ) (es : List KeyValuePair)
    → (length es ≤ capacity) × Distinct es
    → Kept (put_entries key bytes es)
put_entries-Kept key bytes es v =
    if-cases Kept (up_to_date bytes (lookup key es)) (es, Status.ok)
      (put_list (length es) (new_pair key bytes) es) (λ t. v)
      (λ f. put_list-Distinct (length es) (new_pair key bytes) es refl v)

abbrev Stored : List ℕ → List ℕ → List KeyValuePair × Status → Type 0
Stored key bytes (es, r) = r ≡ Status.ok → up_to_date bytes (lookup key es) ≡ true

put_entries-Stored :
    (key bytes : List ℕ) (es : List KeyValuePair) → Stored key bytes (put_entries key bytes es)
unfolding new_pair
put_entries-Stored key bytes es =
    let pair = new_pair key bytes in
    let fresh = up_to_date-new_pair key bytes in
    if-cases (Stored key bytes) (up_to_date bytes (lookup key es)) (es, Status.ok)
      (put_list (length es) pair es) (λ t r. t)
      (λ f.
        if-cases (Stored key bytes) (has_key key es) (replace pair es, Status.ok)
          (if length es == capacity
            then (es, Status.no_resources)
            else (es ++ (pair ∷ []), Status.ok))
          (λ t r. ap (up_to_date bytes) (lookup-replace pair es t) ∙ fresh)
          (λ g.
            if-cases (Stored key bytes) (length es == capacity) (es, Status.no_resources)
              (es ++ (pair ∷ []), Status.ok) (λ t r. cc)
              (λ room r. ap (up_to_date bytes) (lookup-append es pair g) ∙ fresh)))

-- The lookup of another key.
put_entries-other :
    (key bytes k : List ℕ) (es : List KeyValuePair)
    → same_bytes key k ≡ false
    → lookup k (put_entries key bytes es).0 ≡ lookup k es
unfolding new_pair
put_entries-other key bytes k es apart =
    let pair = new_pair key bytes in
    let Same : List KeyValuePair × Status → Type 0 = λ r. lookup k (r.0) ≡ lookup k es in
    if-cases Same (up_to_date bytes (lookup key es)) (es, Status.ok) (put_list (length es) pair es)
      (λ t. refl)
      (λ f.
        if-cases Same (has_key key es) (replace pair es, Status.ok)
          (if length es == capacity
            then (es, Status.no_resources)
            else (es ++ (pair ∷ []), Status.ok))
          (λ t. lookup-replace_other k pair es apart)
          (λ g.
            if-cases Same (length es == capacity) (es, Status.no_resources)
              (es ++ (pair ∷ []), Status.ok) (λ t. refl)
              (λ room. lookup-append_other k es pair apart)))

abbrev pub Promise : List ℕ → List ℕ → Storage → Storage × Status → Type 0
Promise key bytes s (s', r) =
    IsValid s'
    × (r ≡ Status.ok → up_to_date bytes ((get key s').1) ≡ true)
    × ((k : List ℕ) → k ≢ key → (get k s').1 ≡ (get k s).1)

same_bytes-apart : (key k : List ℕ) → k ≢ key → same_bytes key k ≡ false
same_bytes-apart key k ne = elim (Bool-cases (same_bytes key k)) [
  | inl t ↦ absurd (ne (sym ((same_bytes_iff key k).0 t)))
  | inr f ↦ f
]

-- `put` of a key and data that fit, on a valid store: the store stays valid; if `put` returns
-- MICROBIT_OK, `get` of the key finds a value that starts with the data; and `get` of every other key
-- returns what it returned before.
pub get-put :
    (key bytes : List ℕ) (s : Storage)
    → length key < key_size
    → length bytes ≤ value_size
    → IsValid s
    → Promise key bytes s (put key bytes s)
get-put key bytes s small fits v =
    let e = put-Refines key bytes s small fits in
    let s' = (put key bytes s).0 in
    (
      subst Kept (sym e) (put_entries-Kept key bytes (entries s) v),
      λ done.
          ap (up_to_date bytes) (get_lem key s').1
          ∙ subst (Stored key bytes) (sym e) (put_entries-Stored key bytes (entries s)) done,
      λ k ne.
          (get_lem k s').1
          ∙ ap (λ o. lookup k (o.0)) e
          ∙ put_entries-other key bytes k (entries s) (same_bytes-apart key k ne)
          ∙ sym (get_lem k s).1,
    )

abbrev pub Removal : List ℕ → Storage → Storage × Status → Type 0
Removal key s (s', r) =
    IsValid s' × ((get key s').1 ≡ none) × ((k : List ℕ) → k ≢ key → (get k s').1 ≡ (get k s).1)
