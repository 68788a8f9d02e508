-- ===== src/ManagedString/Tests.antt =====
-- The theorems on strings at a concrete heap.
use microbit_dal.Prelude.{
  ℕ, refl, inl, inr, none, some, [], ◌∷◌, arith, ◌==◌, if◌then◌else◌, Bool-cases,
}
use microbit_dal.Prelude.Int.{pos}
use microbit_dal.RefCounted.{State}
use microbit_dal.RefCounted.Counts.{count, Counted}
use microbit_dal.RefCounted.Values.{Succeeds}
use microbit_dal.ManagedString.{Text, substring}
use microbit_dal.ManagedString.Texts.{substring-Holds}

-- The empty string stands at 0 in flash, and "hey" at 4 with one handle.
abbrev string_heap : State Text
string_heap = record {
  memory = λ p.
      if p == 0
      then some (record { ref_count = 65535; payload = [] })
      else if p == 4
      then some (record { ref_count = 3; payload = 104 ∷ 101 ∷ 121 ∷ [] })
      else none;
  handles = 4 ∷ [];
}

string_heap-IsValid : (p : ℕ) → Counted (string_heap.memory p) (count p string_heap.handles)
string_heap-IsValid p = elim (Bool-cases (p == 0)) [
  | inl zero_place ↦ rw zero_place (inl refl)
  | inr more ↦ elim (Bool-cases (p == 4)) [
    | inl four ↦ rw (more, four) (inr (omega arith, refl))
    | inr other ↦ rw (more, other) refl
  ]
]

substring-Holds_example :
    Succeeds
      (substring 0 7 0 1 (pos 9) string_heap)
      (some (101 ∷ 121 ∷ []) ∷ some (104 ∷ 101 ∷ 121 ∷ []) ∷ [])
substring-Holds_example =
    substring-Holds 0 7 0 1 (pos 9) string_heap (104 ∷ 101 ∷ 121 ∷ []) string_heap-IsValid refl refl
      refl refl (omega arith) (omega arith)
