-- ===== src/Accelerometer/Gestures.antt =====
-- source/drivers/MicroBitAccelerometer.cpp: the shake events of runs of samples.
use microbit_dal.Prelude.{
  if-both, ℕ, suc, ◌+◌, ◌*◌, ◌%◌, ◌^◌, ◌≤◌, ◌<◌, ◌≡◌, refl, sym, ap, subst, ◌∙◌, ◌⊎◌, inl, inr,
  Bool, true, false, not, ◌&&◌, List, [], ◌∷◌, ◌++◌, arith, ltb, leb, ◌==◌, if◌then◌else◌,
  Bool-cases, length,
}
use microbit_dal.Accelerometer.{
  acceleration_squared, Sample, ShakeHistory, Accelerometer, detect, count_crossing, decay, posture,
  instantaneous_posture, impulses, subside, low_pass, update_gesture,
}

-- The samples of a run, with all the events that they raise.
abbrev pub updates : List Sample → Accelerometer → Accelerometer × List ℕ
updates [] a = (a, [])
updates (p ∷ ps) a =
    let (a', es) = update_gesture p a in let (a'', es') = updates ps a' in (a'', es ++ es')

-- The number of shake events.
abbrev pub shakes : List ℕ → ℕ
shakes [] = 0
shakes (e ∷ es) = (if e == 11 then 1 else 0) + shakes es

shakes-append : (es es' : List ℕ) → shakes (es ++ es') ≡ shakes es + shakes es'
shakes-append [] es' = omega arith
shakes-append (e ∷ es) es' = let rest = shakes-append es es' in omega (arith, rest)

-- A shake was signalled `n` samples ago, or that is over.
abbrev Resting : ℕ → ShakeHistory → Type 0
Resting n h = (h.shaken ≡ true) × (h.count ≡ 4) × (h.timer ≡ n)

posture-lt : (p : Sample) → posture p < 11
unfolding posture
posture-lt p = ground arith

no_shake :
    (a b c : Bool)
    → shakes
        ((if a then 8 ∷ [] else []) ++ (if b then 9 ∷ [] else []) ++ (if c then 10 ∷ [] else []))
      ≡ 0
no_shake true true true = refl
no_shake true true false = refl
no_shake true false true = refl
no_shake true false false = refl
no_shake false true true = refl
no_shake false true false = refl
no_shake false false true = refl
no_shake false false false = refl

impulses-shakes : (force : ℕ) (h : ShakeHistory) → shakes (impulses force h).1 ≡ 0
unfolding impulses
impulses-shakes force h =
    no_shake (ltb (3072 * 3072) force && not h.impulse_3)
      (ltb (6144 * 6144) force && not h.impulse_6) (ltb (8192 * 8192) force && not h.impulse_8)

low_pass-shakes : (g : ℕ) (a : Accelerometer) → g < 11 → shakes (low_pass g a).1 ≡ 0
unfolding low_pass
low_pass-shakes g a h = ground arith

count_crossing_full : (b : Bool) (h : ShakeHistory) → h.count ≡ 4 → count_crossing b h ≡ (h, false)
unfolding count_crossing
count_crossing_full b h c =
    let full : ltb h.count 4 ≡ false = ground arith in
    let never : (b && ltb h.count 4) ≡ false = ground arith in rw never refl

decay-Resting : (n : ℕ) (h : ShakeHistory) → Resting n h → n < 29 → Resting (suc n) (decay h)
unfolding decay
decay-Resting n h (sh, c, t) small =
    let next : (h.timer + 1) % 2 ^ 16 ≡ suc n = omega (arith, t) in
    let some_left : ltb 0 h.count ≡ true = ground arith in
    let early : (h.shaken && leb 30 ((h.timer + 1) % 2 ^ 16)) ≡ false = ground arith in
    let set : (not h.shaken && leb 10 ((h.timer + 1) % 2 ^ 16)) ≡ false = ground arith in
    rw (some_left, early, set) (sh, c, next)

-- What `instantaneousPosture` makes of the count of the crossings.
abbrev choose : ShakeHistory × Bool → Sample → ShakeHistory × ℕ
choose r p = if r.1 then (r.0, 11) else (decay r.0, posture p)

instantaneous_posture-Resting :
    (p : Sample) (n : ℕ) (h : ShakeHistory)
    → Resting n h
    → ((instantaneous_posture p h).1 ≡ posture p)
      × ((instantaneous_posture p h).0 ≡ decay (detect p h).0)
unfolding instantaneous_posture detect
instantaneous_posture-Resting p n h (sh, c, t) =
    let (h₁, b) = detect p h in
    let full = count_crossing_full b h₁ c in
    (
      ap (λ (r : ShakeHistory × Bool). (choose r p).1) full,
      ap (λ (r : ShakeHistory × Bool). (choose r p).0) full,
    )

count_crossing_signals :
    (b : Bool) (h : ShakeHistory) → (count_crossing b h).1 ≡ true → Resting 0 (count_crossing b h).0
unfolding count_crossing
count_crossing_signals b h e = ground arith

instantaneous_posture_cases :
    (p : Sample) (h : ShakeHistory)
    → (((instantaneous_posture p h).1 ≡ 11) × Resting 0 (instantaneous_posture p h).0)
      ⊎ ((instantaneous_posture p h).1 ≡ posture p)
unfolding instantaneous_posture
instantaneous_posture_cases p h =
    let (h₁, b) = detect p h in
    elim (Bool-cases (count_crossing b h₁).1) [
      | inl signal ↦ inl (rw signal (refl, count_crossing_signals b h₁ signal))
      | inr silent ↦ inr (rw silent refl)
    ]

-- `updateGesture` in two parts: the impulses, and what follows `instantaneousPosture`.
abbrev strong : Sample → Accelerometer → List ℕ
strong p a =
    if ltb (3072 * 3072) (acceleration_squared p)
    then (impulses (acceleration_squared p) a.shake).1
    else []

abbrev struck : Sample → Accelerometer → Accelerometer
struck p a = subside (
    if ltb (3072 * 3072) (acceleration_squared p)
    then record a { shake = (impulses (acceleration_squared p) a.shake).0; impulse_sigma = 0 }
    else a)

abbrev finish : ShakeHistory × ℕ → Accelerometer → List ℕ → Accelerometer × List ℕ
finish r a events = if r.1 == 11 then (record a { shake = r.0 }, events ++ 11 ∷ []) else (
  (low_pass r.1 (record a { shake = r.0 })).0,
  events ++ (low_pass r.1 (record a { shake = r.0 })).1,
)

update_gesture_parts :
    (p : Sample) (a : Accelerometer)
    → update_gesture p a
      ≡ finish (instantaneous_posture p (struck p a).shake) (struck p a) (strong p a)
unfolding update_gesture
update_gesture_parts p a = refl

strong-shakes : (p : Sample) (a : Accelerometer) → shakes (strong p a) ≡ 0
strong-shakes p a =
    if-both (λ es. shakes es ≡ 0) (ltb (3072 * 3072) (acceleration_squared p))
      (impulses-shakes (acceleration_squared p) a.shake) refl

struck-Resting :
    (n : ℕ) (p : Sample) (a : Accelerometer) → Resting n a.shake → Resting n (struck p a).shake
unfolding subside impulses
struck-Resting n p a r = ground arith

low_pass-shake : (g : ℕ) (a : Accelerometer) → (low_pass g a).0.shake ≡ a.shake
unfolding low_pass
low_pass-shake g a = ground arith

update_gesture-Resting :
    (n : ℕ) (p : Sample) (a : Accelerometer)
    → Resting n a.shake
    → (shakes (update_gesture p a).1 ≡ 0) × (n < 29 → Resting (suc n) (update_gesture p a).0.shake)
unfolding detect
update_gesture-Resting n p a r =
    let b = struck p a in
    let rb = struck-Resting n p a r in
    let i = instantaneous_posture p b.shake in
    let (g, h) = instantaneous_posture-Resting p n b.shake rb in
    let other : (i.1 == 11) ≡ false = ground (arith, g, posture-lt p) in
    let small : i.1 < 11 = omega (arith, g, posture-lt p) in
    let c = record b { shake = i.0 } in
    let parts : update_gesture p a ≡ ((low_pass i.1 c).0, strong p a ++ (low_pass i.1 c).1) =
      update_gesture_parts p a ∙ rw other refl in
    (
      ap (λ (x : Accelerometer × List ℕ). shakes x.1) parts
          ∙ shakes-append (strong p a) (low_pass i.1 c).1
          ∙ omega (arith, strong-shakes p a, low_pass-shakes i.1 c small),
      λ k.
          let shake : (update_gesture p a).0.shake ≡ decay (detect p b.shake).0 =
            ap (λ (x : Accelerometer × List ℕ). x.0.shake) parts ∙ low_pass-shake i.1 c ∙ h in
          subst (λ x. Resting (suc n) x) (sym shake) (decay-Resting n (detect p b.shake).0 rb k),
    )

run_of_rest :
    (ps : List Sample) (n : ℕ) (a : Accelerometer)
    → Resting n a.shake
    → n + length ps ≤ 30
    → shakes (updates ps a).1 ≡ 0
run_of_rest [] n a r h = refl
run_of_rest (p ∷ []) n a r h =
    let (quiet, on) = update_gesture-Resting n p a r in
    shakes-append (update_gesture p a).1 [] ∙ omega (arith, quiet)
run_of_rest (p ∷ q ∷ ps) n a r h =
    let (quiet, on) = update_gesture-Resting n p a r in
    let a' = (update_gesture p a).0 in
    let later = run_of_rest (q ∷ ps) (suc n) a' (on (omega (arith, h))) (omega (arith, h)) in
    shakes-append (update_gesture p a).1 (updates (q ∷ ps) a').1 ∙ omega (arith, quiet, later)

-- After a sample that raises a shake event, the next thirty samples raise none, whatever they are.
pub shake_rate :
    (p : Sample) (ps : List Sample) (a : Accelerometer)
    → 1 ≤ shakes (update_gesture p a).1
    → length ps ≤ 30
    → shakes (updates ps (update_gesture p a).0).1 ≡ 0
shake_rate p ps a shaken short =
    let b = struck p a in
    let i = instantaneous_posture p b.shake in
    elim (instantaneous_posture_cases p b.shake) [
      | inl (g, rest) ↦
          let signal : (i.1 == 11) ≡ true = ground (arith, g) in
          let parts : update_gesture p a ≡ (record b { shake = i.0 }, strong p a ++ 11 ∷ []) =
            update_gesture_parts p a ∙ rw signal refl in
          let now : Resting 0 (update_gesture p a).0.shake =
            subst (λ (x : Accelerometer × List ℕ). Resting 0 x.0.shake) (sym parts) rest in
          run_of_rest ps 0 (update_gesture p a).0 now (omega (arith, short))
      | inr g ↦
          let other : (i.1 == 11) ≡ false = ground (arith, g, posture-lt p) in
          let small : i.1 < 11 = omega (arith, g, posture-lt p) in
          let c = record b { shake = i.0 } in
          let parts : update_gesture p a ≡ ((low_pass i.1 c).0, strong p a ++ (low_pass i.1 c).1) =
            update_gesture_parts p a ∙ rw other refl in
          let none_raised : shakes (update_gesture p a).1 ≡ 0 =
            ap (λ (x : Accelerometer × List ℕ). shakes x.1) parts
            ∙ shakes-append (strong p a) (low_pass i.1 c).1
            ∙ omega (arith, strong-shakes p a, low_pass-shakes i.1 c small) in
          absurd (omega (arith, shaken, none_raised))
    ]
