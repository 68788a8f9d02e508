-- ===== src/Button/Debounce.antt =====
-- The debouncing of a button: when a press starts and ends.
use microbit_dal.Prelude.{
  ℕ, suc, ◌+◌, ◌-◌, ◌≤◌, ◌<◌, ◌≡◌, refl, Bool, true, false, List, [], ◌∷◌, arith, length, ltb,
  if◌then◌else◌, not,
}
use microbit_dal.Button.{
  sigma_thresh_lo, Button, Sample, system_tick, sigma_max, sigma_thresh_hi, run,
}

-- The reachable states: the follower stays in its range, and only a pressed button is held.
pub record IsValid (b : Button) : Type 0 where
  pub in_range : b.sigma ≤ sigma_max
  pub held_pressed : b.hold_triggered ≡ true → b.pressed ≡ true

-- A tick keeps the follower in its range and holds no released button.
pub system_tick-IsValid : (s : Sample) (b : Button) → IsValid b → IsValid (system_tick s b).0
unfolding system_tick
system_tick-IsValid s b v = ground arith

-- Every run of ticks from a valid state ends in one: the follower is in its range, and no released
-- button is held.
run-IsValid : (ss : List Sample) (b : Button) → IsValid b → IsValid (run ss b).0
unfolding run
run-IsValid [] b v = v
run-IsValid (s ∷ ss) b v = run-IsValid ss (system_tick s b).0 (system_tick-IsValid s b v)

-- The samples at which the pin reads low.
abbrev pub low_count : List Sample → ℕ
low_count [] = 0
low_count (s ∷ ss) = if s.pin then low_count ss else suc (low_count ss)

quiet_tick :
    (s : Sample) (b : Button)
    → b.pressed ≡ false
    → b.sigma + low_count (s ∷ []) ≤ sigma_thresh_hi
    → ((system_tick s b).1 ≡ [])
      × ((system_tick s b).0.pressed ≡ false)
      × ((system_tick s b).0.sigma ≤ b.sigma + low_count (s ∷ []))
unfolding system_tick
quiet_tick s b released few = ground arith

-- Noise is no press: as long as the low samples, added to the follower, do not pass the upper
-- threshold, a released button raises nothing and stays released, however they are spread.
glitch_ignored :
    (ss : List Sample) (b : Button)
    → b.pressed ≡ false
    → b.sigma + low_count ss ≤ sigma_thresh_hi
    → ((run ss b).1 ≡ []) × ((run ss b).0.pressed ≡ false)
unfolding run
glitch_ignored [] b released few = (refl, released)
glitch_ignored (s ∷ ss) b released few =
    ground (arith, quiet_tick s b, glitch_ignored ss (system_tick s b).0)

-- Every sample reads the same.
abbrev pub AllPins : Bool → List Sample → Type 0
AllPins v [] = Unit {0}
AllPins v (s ∷ ss) = (s.pin ≡ v) × AllPins v ss

low_tick :
    (s : Sample) (b : Button)
    → s.pin ≡ false
    → ((system_tick s b).0.sigma ≡ (if ltb b.sigma sigma_max then suc b.sigma else b.sigma))
      × ((sigma_thresh_hi < (system_tick s b).0.sigma) → (system_tick s b).0.pressed ≡ true)
unfolding system_tick
low_tick s b p = ground arith

low_run :
    (ss : List Sample) (b : Button)
    → AllPins false ss
    → sigma_thresh_hi < b.sigma
    → b.pressed ≡ true
    → (sigma_thresh_hi < (run ss b).0.sigma) × ((run ss b).0.pressed ≡ true)
unfolding run
low_run [] b p h q = (h, q)
low_run (s ∷ ss) b p h q = ground (arith, low_tick s b, low_run ss (system_tick s b).0)

press_from :
    (ss : List Sample) (b : Button)
    → AllPins false ss
    → (sigma_thresh_hi < b.sigma → b.pressed ≡ true)
    → sigma_thresh_hi < b.sigma + length ss
    → (run ss b).0.pressed ≡ true
unfolding run
press_from [] b p e h = e (omega arith)
press_from (s ∷ ss) b p e h =
    ground (arith, low_tick s b, low_run ss (system_tick s b).0, press_from ss (system_tick s b).0)

-- A steady press is seen: once the low samples in a row, at least one, carry the follower past
-- the upper threshold, the button is pressed.
press_recognised :
    (s : Sample) (ss : List Sample) (b : Button)
    → AllPins false (s ∷ ss)
    → sigma_thresh_hi < b.sigma + length (s ∷ ss)
    → (run (s ∷ ss) b).0.pressed ≡ true
unfolding run
press_recognised s ss b p h =
    press_from ss (system_tick s b).0 p.1 (low_tick s b p.0).1 (ground (arith, low_tick s b))

high_tick :
    (s : Sample) (b : Button)
    → s.pin ≡ true
    → ((system_tick s b).0.sigma ≡ b.sigma - 1)
      × ((system_tick s b).0.sigma < sigma_thresh_lo → (system_tick s b).0.pressed ≡ false)
unfolding system_tick
high_tick s b p = ground arith

release_from :
    (ss : List Sample) (b : Button)
    → AllPins true ss
    → (b.sigma < sigma_thresh_lo → b.pressed ≡ false)
    → b.sigma < sigma_thresh_lo + length ss
    → (run ss b).0.pressed ≡ false
unfolding run
release_from [] b p e h = e (omega arith)
release_from (s ∷ ss) b p e h = ground (arith, high_tick s b, release_from ss (system_tick s b).0)

-- A steady release is seen: once the high samples in a row, at least one, carry the follower
-- below the lower threshold, the button is released.
release_recognised :
    (s : Sample) (ss : List Sample) (b : Button)
    → AllPins true (s ∷ ss)
    → b.sigma < sigma_thresh_lo + length (s ∷ ss)
    → (run (s ∷ ss) b).0.pressed ≡ false
unfolding run
release_recognised s ss b p h =
    release_from ss (system_tick s b).0 p.1 (high_tick s b p.0).1 (ground (arith, high_tick s b))

-- `n` samples of a pin carry the follower past the threshold.
abbrev pub Carries : Bool → ℕ → Button → Type 0
Carries false n b = sigma_thresh_hi < b.sigma + n
Carries true n b = b.sigma < sigma_thresh_lo + n

-- A steady pin is seen: once its samples in a row, at least one, carry the follower past the
-- threshold, the button is pressed if the pin is low, and released if it is high.
steady_pin_recognised :
    (pin : Bool) (s : Sample) (ss : List Sample) (b : Button)
    → AllPins pin (s ∷ ss)
    → Carries pin (length (s ∷ ss)) b
    → (run (s ∷ ss) b).0.pressed ≡ not pin
steady_pin_recognised false s ss b p h = press_recognised s ss b p h
steady_pin_recognised true s ss b p h = release_recognised s ss b p h
