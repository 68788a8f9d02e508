-- ===== src/Storage.antt =====
-- source/drivers/MicroBitStorage.cpp: a store of keys and values in two pages of flash, the one in
-- use and a scratch page. A page is modelled by its header and its blocks, which is how the code
-- steps through it.
pub mod Pages
pub mod Entries
pub mod Refine
pub mod Contract
mod Tests
use microbit_dal.Prelude.{
  take, replicate, ℕ, zero, suc, ◌+◌, ◌-◌, ◌*◌, ◌/◌, ◌%◌, ◌^◌, ◌≤◌, ◌<◌, ◌≡◌, refl, sym, ap, subst,
  ◌∙◌, ◌≢◌, ◌↔◌, ◌⊎◌, inl, inr, Bool, true, false, not, ◌&&◌, ◌||◌, Option, none, some, List, [],
  ◌∷◌, ◌++◌, map, append-nil, append_assoc, arith, ltb, leb, ◌==◌, if◌then◌else◌, ltb→lt, lt→ltb,
  leb→le, ==_iff, Bool-cases, Option-cases, length,
}

-- MICROBIT_STORAGE_MAGIC
abbrev pub storage_magic : ℕ
storage_magic = 0xcafe

-- MICROBIT_STORAGE_BLOCK_SIZE, MICROBIT_STORAGE_KEY_SIZE, MICROBIT_STORAGE_VALUE_SIZE
abbrev pub block_size : ℕ
block_size = 48

abbrev pub key_size : ℕ
key_size = 16

abbrev pub value_size : ℕ
value_size = 32

-- `KeyValuePair`: the characters of the key before its 0, and the bytes of the value.
pub record KeyValuePair : Type 0 where
  pub key : List ℕ
  pub value : List ℕ

-- A page: the words of its `KeyValueStore`, and its blocks.
pub record Page : Type 0 where
  pub magic : ℕ
  pub count : ℕ
  pub block : ℕ → KeyValuePair

pub record Storage : Type 0 where
  pub store : Page
  pub scratch : Page

pub data Status : Type 0 where
  ok invalid_parameter no_resources no_data : Status

-- CODEPAGESIZE is 1024 bytes; the header is taken off in words.
abbrev pub capacity : ℕ
capacity = (1024 - 2) / block_size

-- `flashPageErase`: every bit of the page is set.
abbrev pub erased_page : Page
erased_page = record {
  magic = 2 ^ 32 - 1;
  count = 2 ^ 32 - 1;
  block = λ i. record { key = replicate key_size 255; value = replicate value_size 255 };
}

-- `flashCopy` of the header and the first `n` blocks.
pub flash_copy : ℕ → Page → Page → Page
flash_copy n from to = record {
  magic = from.magic;
  count = from.count;
  block = λ i. if ltb i n then from.block i else to.block i;
}

pub scratch_key_value_store : ℕ → Page → Page
scratch_key_value_store n p = record p { magic = storage_magic; count = n }

pub scratch_key_value_pair : KeyValuePair → ℕ → Page → Page
scratch_key_value_pair pair at p = record p { block = λ i. if i == at then pair else p.block i }

-- `size`: a store that has not been used before is set up. The whole page is copied then.
pub size : Storage → Storage × ℕ
unfolding scratch_key_value_store
size s = if s.store.magic == storage_magic then (s, s.store.count) else (
  record {
    store = scratch_key_value_store 0 erased_page;
    scratch = scratch_key_value_store 0 erased_page;
  },
  0,
)

-- `strcmp(a, b) == 0`, `memcmp(a, b, n) == 0`
abbrev pub same_bytes : List ℕ → List ℕ → Bool
same_bytes [] [] = true
same_bytes (x ∷ xs) (y ∷ ys) = x == y && same_bytes xs ys
same_bytes [] (y ∷ ys) = false
same_bytes (x ∷ xs) [] = false

-- The loop of `get`, over `n` blocks from block `i` on.
pub find_pair : ℕ → ℕ → List ℕ → Page → Option KeyValuePair
find_pair zero i key p = none
find_pair (suc n) i key p =
    let later = find_pair n (suc i) key p in
    if same_bytes key (p.block i).key then some (p.block i) else later

-- `get`: the storage, which `size` may have set up, and the pair.
pub get : List ℕ → Storage → Storage × Option KeyValuePair
unfolding size find_pair
get key s = let (s', n) = size s in (s', find_pair n 0 key s'.store)

-- The pair that `put` makes of a key and its data.
pub new_pair : List ℕ → List ℕ → KeyValuePair
new_pair key bytes = record { key = key; value = bytes ++ replicate (value_size - length bytes) 0 }

-- The loop of `put`: `n` blocks from block `i` on go to the scratch page, with the pair in place of
-- each that has its key. `total` is `storeSize`; the second result is `found`.
pub put_loop : ℕ → ℕ → ℕ → KeyValuePair → Page → Page × Bool → Page × Bool
unfolding scratch_key_value_store scratch_key_value_pair
put_loop zero i total pair store (scratch, found) = (scratch, found)
put_loop (suc n) i total pair store (scratch, found) = put_loop n (suc i) total pair store (
    if same_bytes (store.block i).key pair.key
    then (scratch_key_value_pair pair i (scratch_key_value_store total scratch), true)
    else (scratch_key_value_pair (store.block i) i scratch, found))

-- The end of `put`: the scratch page becomes the store.
abbrev pub commit : ℕ → Page → Storage
commit n scratch = record { store = flash_copy n scratch erased_page; scratch = scratch }

-- `put` behind its loop: the old number of pairs, the scratch page, and whether the key was there.
pub put_pair : ℕ → KeyValuePair → Storage → Page × Bool → Storage × Status
unfolding scratch_key_value_store scratch_key_value_pair flash_copy
put_pair n pair s (scratch, true) = (commit n scratch, ok)
put_pair n pair s (scratch, false) =
    if n == capacity then (record s { scratch = scratch }, no_resources) else (
      commit (n + 1) (scratch_key_value_pair pair n (scratch_key_value_store (n + 1) scratch)),
      ok,
    )

-- `upToDate`
abbrev pub up_to_date : List ℕ → Option KeyValuePair → Bool
up_to_date bytes none = false
up_to_date bytes (some pair) = same_bytes (take (length bytes) pair.value) bytes

-- `put`, of data whose size is not negative.
pub put : List ℕ → List ℕ → Storage → Storage × Status
unfolding get new_pair put_loop put_pair
put key bytes s =
    if ltb key_size (length key + 1) || ltb value_size (length bytes)
    then (s, invalid_parameter)
    else let (s₁, current) = get key s in
      if up_to_date bytes current
      then (s₁, ok)
      else let n = s₁.store.count in
        put_pair n (new_pair key bytes) s₁
          (put_loop n 0 n (new_pair key bytes) s₁.store (erased_page, false))

-- The loop of `remove`: as in `put`, but a block with the key is left out, so that the blocks are
-- written from block `to` on.
pub remove_loop : ℕ → ℕ → ℕ → ℕ → List ℕ → Page → Page × Bool → Page × Bool
unfolding scratch_key_value_store scratch_key_value_pair
remove_loop zero i to total key store (scratch, found) = (scratch, found)
remove_loop (suc n) i to total key store (scratch, found) =
    let skip = same_bytes (store.block i).key key in
    remove_loop n (suc i) (if skip then to else suc to) total key store (
      if skip
      then (scratch_key_value_store (total - 1) scratch, true)
      else (scratch_key_value_pair (store.block i) to scratch, found))

-- `remove` behind its loop.
pub remove_pair : ℕ → Storage → Page × Bool → Storage × Status
unfolding scratch_key_value_store flash_copy
remove_pair n s (scratch, true) = (commit n scratch, ok)
remove_pair n s (scratch, false) =
    (record s { scratch = scratch_key_value_store n scratch }, no_data)

-- `sizeof(KeyValueStore) / 4`
abbrev pub store_words : ℕ
store_words = 2

-- `remove`. It erases the scratch page with a pointer that stands behind the words of its header;
-- `erase` is what the flash controller makes of a page that is erased with a pointer so many words
-- behind its first one.
pub remove : (ℕ → Page → Page) → List ℕ → Storage → Storage × Status
unfolding size remove_loop remove_pair
remove erase key s =
    let (s', n) = size s in
    if n == 0
    then (s', no_data)
    else remove_pair n s' (remove_loop n 0 0 n key s'.store (erase store_words s'.scratch, false))
