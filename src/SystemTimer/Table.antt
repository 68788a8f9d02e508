-- ===== src/SystemTimer/Table.antt =====
-- The tables of components of the system timer and of the idle fiber.
use microbit_dal.Prelude.{
  ℕ, ◌+◌, ◌≡◌, refl, sym, ap, subst, ◌∙◌, ◌↔◌, inl, inr, Option, none, some, [], ◌∷◌, arith, ◌==◌,
  if◌then◌else◌, Bool-cases, Option-cases,
}
use microbit_dal.SystemTimer.{
  Components, put_component, take_component, with_slot, Status, ok, invalid_parameter, no_resources,
  fiber_add_idle_component, fiber_remove_idle_component,
}

abbrev pub free_slots : Components → ℕ
free_slots [] = 0
free_slots (none ∷ t) = free_slots t + 1
free_slots (some d ∷ t) = free_slots t

with_slot-none : (slot : Option ℕ) (r : Option Components) → with_slot slot r ≡ none → r ≡ none
with_slot-none slot none h = refl
with_slot-none slot (some t) h = cc

put_component_fails_iff : (c : ℕ) (t : Components) → (put_component c t ≡ none) ↔ (free_slots t ≡ 0)
unfolding put_component
put_component_fails_iff c [] = (λ h. refl, λ h. refl)
put_component_fails_iff c (none ∷ t) = (λ h. cc, λ h. absurd (omega arith))
put_component_fails_iff c (some d ∷ t) =
    let ih = put_component_fails_iff c t in
    (
      λ h. ih.0 (with_slot-none (some d) (put_component c t) h),
      λ h. ap (with_slot (some d)) (ih.1 h),
    )

take-put :
    (c : ℕ) (t t' : Components)
    → take_component c t ≡ none
    → put_component c t ≡ some t'
    → take_component c t' ≡ some t
unfolding put_component take_component
take-put c [] t' absent h = cc
take-put c (none ∷ t) t' absent h =
    let e : some c ∷ t ≡ t' = cc in
    subst (λ x. take_component c x ≡ some (none ∷ t)) e (ground arith)
take-put c (some d ∷ t) t' absent h = elim (Bool-cases (d == c)) [
  | inl same ↦
      let found : some (none ∷ t) ≡ none =
        sym (ap (λ b. if b then some (none ∷ t) else with_slot (some d) (take_component c t)) same)
        ∙ absent in
      cc
  | inr other ↦
      let rest : with_slot (some d) (take_component c t) ≡ none =
        sym (ap (λ b. if b then some (none ∷ t) else with_slot (some d) (take_component c t)) other)
        ∙ absent in
      elim (Option-cases (put_component c t)) [
        | inl full ↦ let no_table : none ≡ some t' = sym (ap (with_slot (some d)) full) ∙ h in cc
        | inr (u, put) ↦
            let e : some (some d ∷ u) ≡ some t' = sym (ap (with_slot (some d)) put) ∙ h in
            let e' : some d ∷ u ≡ t' = cc in
            let ih = take-put c t u (with_slot-none (some d) (take_component c t) rest) put in
            subst (λ x. take_component c x ≡ some (some d ∷ t)) e'
              (rw other (ap (with_slot (some d)) ih))
      ]
]

add_result : (c : ℕ) (t : Components) → Option Components → Components × Status
add_result c t none = (t, no_resources)
add_result c t (some t') = (t', ok)

remove_result : (c : ℕ) (t : Components) → Option Components → Components × Status
remove_result c t none = (t, invalid_parameter)
remove_result c t (some t') = (t', ok)

add-result :
    (c : ℕ) (t : Components) → fiber_add_idle_component c t ≡ add_result c t (put_component c t)
unfolding fiber_add_idle_component add_result
add-result c t = elim (Option-cases (put_component c t)) [
  | inl e ↦ rw (e, fiber_add_idle_component) refl
  | inr (u, e) ↦ rw (e, fiber_add_idle_component) refl
]

remove-result :
    (c : ℕ) (t : Components)
    → fiber_remove_idle_component c t ≡ remove_result c t (take_component c t)
unfolding fiber_remove_idle_component remove_result
remove-result c t = elim (Option-cases (take_component c t)) [
  | inl e ↦ rw (e, fiber_remove_idle_component) refl
  | inr (u, e) ↦ rw (e, fiber_remove_idle_component) refl
]

refused-none :
    (c : ℕ) (t : Components) (r : Option Components)
    → (add_result c t r).1 ≡ no_resources
    → r ≡ none
unfolding add_result
refused-none c t none h = refl
refused-none c t (some u) h = cc

accepted-some :
    (c : ℕ) (t : Components) (r : Option Components)
    → (add_result c t r).1 ≡ ok
    → r ≡ some (add_result c t r).0
unfolding add_result
accepted-some c t none h = cc
accepted-some c t (some u) h = refl

absent-none :
    (c : ℕ) (t : Components) (r : Option Components)
    → (remove_result c t r).1 ≡ invalid_parameter
    → r ≡ none
unfolding remove_result
absent-none c t none h = refl
absent-none c t (some u) h = cc

-- `fiber_add_idle_component` is refused exactly when the table is full, and changes nothing then.
fiber_add_idle_component_fails_iff :
    (c : ℕ) (t : Components)
    → (fiber_add_idle_component c t ≡ (t, no_resources)) ↔ (free_slots t ≡ 0)
unfolding add_result
fiber_add_idle_component_fails_iff c t = (
  λ h.
      (put_component_fails_iff c t).0
        (refused-none c t (put_component c t) (ap (λ r. r.1) (sym (add-result c t) ∙ h))),
  λ h. add-result c t ∙ ap (add_result c t) ((put_component_fails_iff c t).1 h),
)

-- A component that is not in the table, and is added to it, can be removed, which leaves the table
-- as it was.
remove-add_idle_component :
    (c : ℕ) (t : Components)
    → (fiber_remove_idle_component c t).1 ≡ invalid_parameter
    → (fiber_add_idle_component c t).1 ≡ ok
    → fiber_remove_idle_component c (fiber_add_idle_component c t).0 ≡ (t, ok)
unfolding remove_result
remove-add_idle_component c t absent added =
    let t' = (fiber_add_idle_component c t).0 in
    let gone =
      absent-none c t (take_component c t) (ap (λ r. r.1) (sym (remove-result c t)) ∙ absent) in
    let put : put_component c t ≡ some t' =
      accepted-some c t (put_component c t) (ap (λ r. r.1) (sym (add-result c t)) ∙ added)
      ∙ ap (λ r. some r.0) (sym (add-result c t)) in
    remove-result c t' ∙ ap (remove_result c t') (take-put c t t' gone put)
