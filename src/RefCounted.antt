-- ===== src/RefCounted.antt =====
-- source/types/RefCounted.cpp, and the handles on counted objects that ManagedString.cpp and
-- PacketBuffer.cpp share: copy constructor, assignment and destructor. The heap is a map from
-- addresses to objects. `none` is a panic, or an access to an object that is not there.
pub mod Counts
pub mod Values
pub mod Runs
mod Tests
use microbit_dal.Prelude.{
  set, get_elem?, ℕ, zero, suc, ◌+◌, ◌-◌, ◌*◌, ◌/◌, ◌%◌, ◌^◌, ◌≤◌, ◌<◌, ◌≡◌, refl, sym, ap, subst,
  ◌∙◌, ◌≢◌, ◌↔◌, ◌⊎◌, inl, inr, Bool, true, false, not, ◌&&◌, ◌||◌, Option, none, some, List, [],
  ◌∷◌, ◌++◌, map, append-nil, append_assoc, arith, ltb, leb, ◌==◌, if◌then◌else◌, ltb→lt, lt→ltb,
  leb→le, ==_iff, Bool-cases, Option-cases, length,
}

-- `RefCounted`, and the data behind the count
pub record Object {ℓ} (A : Type ℓ) : Type ℓ where
  pub ref_count : ℕ
  pub payload : A

abbrev pub Memory {ℓ} : Type ℓ → Type ℓ
Memory A = ℕ → Option (Object A)

-- A handle is one `ptr`; the list holds those of all objects of the class that exist.
pub record State {ℓ} (A : Type ℓ) : Type ℓ where
  pub memory : Memory A
  pub handles : List ℕ

infixl 5 ◌>>=◌
abbrev pub ◌>>=◌ {ℓ κ} : {A : Type ℓ} {B : Type κ} → Option A → (A → Option B) → Option B
none >>= f = none
some a >>= f = f a

abbrev pub remove_at : {B : Type 0} → ℕ → List B → List B
remove_at i [] = []
remove_at zero (x ∷ xs) = xs
remove_at (suc i) (x ∷ xs) = x ∷ remove_at i xs

-- `isReadOnlyInline`
abbrev pub is_read_only : ℕ → Option Bool
is_read_only count =
    if count == 65535 then some true else if count == 1 || count % 2 == 0 then none else some false

module _ {ℓ} {A : Type ℓ} where
  abbrev pub store : ℕ → Option (Object A) → Memory A → Memory A
  store p o m q = if q == p then o else m q

  -- `incr`
  abbrev pub incr : ℕ → Memory A → Option (Memory A)
  incr p m = do
    o ← m p
    read_only ← is_read_only o.ref_count
    let counted = record o { ref_count = (o.ref_count + 2) % 2 ^ 16 }
    some (if read_only then m else store p (some counted) m)

  -- `decr`; the object is freed with its last reference.
  abbrev pub decr : ℕ → Memory A → Option (Memory A)
  decr p m = do
    o ← m p
    read_only ← is_read_only o.ref_count
    let count = (o.ref_count + 2 ^ 16 - 2) % 2 ^ 16
    some (
        if read_only
        then m
        else if count == 1
        then store p none m
        else store p (some (record o { ref_count = count })) m)

  -- A new object, with the count that `init` gives it, at the address `p` that `malloc` returns.
  pub construct : ℕ → A → State A → State A
  construct p a s = record {
    memory = store p (some (record { ref_count = 3; payload = a })) s.memory;
    handles = p ∷ s.handles;
  }

  -- The copy constructor
  pub copy : ℕ → State A → Option (State A)
  copy i s = do
    p ← get_elem? s.handles i
    m ← incr p s.memory
    some (record { memory = m; handles = p ∷ s.handles })

  -- `operator =`
  pub assign : ℕ → ℕ → State A → Option (State A)
  assign i j s = do
    p ← get_elem? s.handles i
    q ← get_elem? s.handles j
    m ← if p == q then some s.memory else (decr p s.memory >>= incr q)
    some (record { memory = m; handles = set s.handles i q })

  -- The destructor
  pub destroy : ℕ → State A → Option (State A)
  destroy i s = do
    p ← get_elem? s.handles i
    m ← decr p s.memory
    some (record { memory = m; handles = remove_at i s.handles })
