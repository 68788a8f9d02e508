-- ===== src/Storage/Tests.antt =====
-- Runs of the store, and the theorems at a concrete store.
use microbit_dal.Prelude.{◌≡◌, refl, List, [], ◌∷◌, arith, some, ℕ}
use microbit_dal.Storage.{Storage, Page, erased_page, put, get, new_pair}
use microbit_dal.Storage.Refine.{IsValid}
use microbit_dal.Storage.Contract.{Promise, get-put}

abbrev unused : Storage
unused = record { store = erased_page; scratch = erased_page }

-- A controller that erases the whole page.
abbrev erase_all : ℕ → Page → Page
erase_all words p = erased_page

abbrev apple : List ℕ
apple = 97 ∷ 112 ∷ []

abbrev pear : List ℕ
pear = 112 ∷ []

abbrev two_pairs : Storage
unfolding put
two_pairs = (put pear (7 ∷ []) (put apple (1 ∷ 2 ∷ []) unused).0).0

get-apple : (get apple two_pairs).1 ≡ some (new_pair apple (1 ∷ 2 ∷ []))
unfolding get put new_pair
get-apple = refl

two_pairs-IsValid : IsValid two_pairs
unfolding put
two_pairs-IsValid = (omega arith, (refl, (refl, tt)))

get-put_example : Promise apple (9 ∷ []) two_pairs (put apple (9 ∷ []) two_pairs)
get-put_example = get-put apple (9 ∷ []) two_pairs (omega arith) (omega arith) two_pairs-IsValid
