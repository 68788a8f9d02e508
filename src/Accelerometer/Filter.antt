-- ===== src/Accelerometer/Filter.antt =====
-- The low pass filter of the postures.
use microbit_dal.Prelude.{
  ℕ, zero, suc, ◌+◌, ◌-◌, ◌≤◌, ◌<◌, ◌≡◌, refl, sym, ap, ◌∙◌, ◌≢◌, inl, inr, List, [], ◌∷◌, ◌++◌,
  arith, ◌==◌, if◌then◌else◌, Bool-cases,
}
use microbit_dal.Accelerometer.{Accelerometer, low_pass}

-- The filter on one posture for `n` samples, with the events that it raises.
abbrev pub holds : ℕ → ℕ → Accelerometer → Accelerometer × List ℕ
holds g zero a = (a, [])
holds g (suc n) a = let (a', es) = low_pass g a in let (a'', es') = holds g n a' in (a'', es ++ es')

-- A posture that has been there for the six samples that it takes has been reported.
abbrev pub IsValid : Accelerometer → Type 0
IsValid a = (a.sigma ≤ 5) × (a.sigma ≡ 5 → a.last_gesture ≡ a.current_gesture)

pub low_pass-IsValid : (g : ℕ) (a : Accelerometer) → IsValid a → IsValid (low_pass g a).0
unfolding low_pass
low_pass-IsValid g a (le, same) = ground arith

low_pass_reported :
    (g : ℕ) (a : Accelerometer)
    → a.last_gesture ≡ g
    → ((low_pass g a).1 ≡ []) × ((low_pass g a).0.last_gesture ≡ g)
unfolding low_pass
low_pass_reported g a e = ground arith

holds_reported :
    (n g : ℕ) (a : Accelerometer)
    → a.last_gesture ≡ g
    → ((holds g n a).1 ≡ []) × ((holds g n a).0.last_gesture ≡ g)
holds_reported zero g a e = (refl, e)
holds_reported (suc n) g a e =
    let (silent, e') = low_pass_reported g a e in
    let (rest, e'') = holds_reported n g (low_pass g a).0 e' in
    (ap (λ es. es ++ (holds g n (low_pass g a).0).1) silent ∙ rest, e'')

low_pass_climbs :
    (g s : ℕ) (a : Accelerometer)
    → a.last_gesture ≢ g
    → a.current_gesture ≡ g
    → a.sigma ≡ s
    → s < 4
    → ((low_pass g a).1 ≡ [])
      × ((low_pass g a).0.last_gesture ≡ a.last_gesture)
      × ((low_pass g a).0.current_gesture ≡ g)
      × ((low_pass g a).0.sigma ≡ suc s)
unfolding low_pass
low_pass_climbs g s a ne e t h = ground arith

low_pass_reports :
    (g : ℕ) (a : Accelerometer)
    → a.last_gesture ≢ g
    → a.current_gesture ≡ g
    → a.sigma ≡ 4
    → ((low_pass g a).1 ≡ g ∷ []) × ((low_pass g a).0.last_gesture ≡ g)
unfolding low_pass
low_pass_reports g a ne e t = ground arith

holds_climbs :
    (k n g : ℕ) (a : Accelerometer)
    → a.last_gesture ≢ g
    → a.current_gesture ≡ g
    → a.sigma + suc k ≡ 5
    → suc k ≤ n
    → ((holds g n a).1 ≡ g ∷ []) × ((holds g n a).0.last_gesture ≡ g)
holds_climbs k zero g a ne e t h = absurd (omega (arith, h))
holds_climbs zero (suc n) g a ne e t h =
    let (now, done) = low_pass_reports g a ne e (omega (arith, t)) in
    let (rest, kept) = holds_reported n g (low_pass g a).0 done in
    (ap (λ es. es ++ (holds g n (low_pass g a).0).1) now ∙ ap (λ es. g ∷ es) rest, kept)
holds_climbs (suc k) (suc n) g a ne e t h =
    let (silent, last, current, sigma) = low_pass_climbs g a.sigma a ne e refl (omega (arith, t)) in
    let (rest, done) =
      holds_climbs k n g (low_pass g a).0 (λ q. ne (sym last ∙ q)) current (omega (arith, sigma, t))
        (omega (arith, h)) in
    (ap (λ es. es ++ (holds g n (low_pass g a).0).1) silent ∙ rest, done)

low_pass_turns :
    (g : ℕ) (a : Accelerometer)
    → a.current_gesture ≢ g
    → ((low_pass g a).1 ≡ [])
      × ((low_pass g a).0.last_gesture ≡ a.last_gesture)
      × ((low_pass g a).0.current_gesture ≡ g)
      × ((low_pass g a).0.sigma ≡ 0)
unfolding low_pass
low_pass_turns g a ne = ground arith

-- A posture that is held for at least six samples is reported exactly once, or not at all where it
-- is the one that was reported last; afterwards it is the last one.
pub holds_lem :
    (n g : ℕ) (a : Accelerometer)
    → IsValid a
    → 6 ≤ n
    → ((holds g n a).1 ≡ (if g == a.last_gesture then [] else g ∷ []))
      × ((holds g n a).0.last_gesture ≡ g)
holds_lem zero g a v h = absurd (omega (arith, h))
holds_lem (suc n) g a (le, settled) h = elim (Bool-cases (g == a.last_gesture)) [
  | inl same ↦ let e : a.last_gesture ≡ g = ground arith in rw same (holds_reported (suc n) g a e)
  | inr other ↦
      let ne : a.last_gesture ≢ g = ground arith in
      rw other (elim (Bool-cases (g == a.current_gesture)) [
        | inl here ↦
            let e : a.current_gesture ≡ g = ground arith in
            let early : a.sigma ≢ 5 = λ k. ne (settled k ∙ e) in
            let below : a.sigma < 5 = omega (arith, le, early) in
            holds_climbs (4 - a.sigma) (suc n) g a ne e (omega arith) (omega (arith, h))
        | inr away ↦
            let ne' : a.current_gesture ≢ g = ground arith in
            let (silent, last, current, sigma) = low_pass_turns g a ne' in
            let (rest, done) =
              holds_climbs 4 n g (low_pass g a).0 (λ q. ne (sym last ∙ q)) current
                (omega (arith, sigma)) (omega (arith, h)) in
            (ap (λ es. es ++ (holds g n (low_pass g a).0).1) silent ∙ rest, done)
      ])
]
