-- ===== src/Button/Protocol.antt =====
-- The events of a button: in which order they come, and what the clock has to do with them.
use microbit_dal.Prelude.{
  subst, inr, inl, Option-cases, ◌⊎◌, ◌+◌, ◌≤◌, ◌<◌, ◌^◌, ◌≡◌, refl, ◌∙◌, true, false, List, [],
  ◌∷◌, ◌++◌, arith, Option, none, some, if◌then◌else◌,
}
use microbit_dal.Button.{
  Button, Sample, system_tick, sigma_thresh_hi, hold_time, run, ButtonEvent, down, up, hold, click,
  long_click, EventConfiguration, simple_events, all_events,
}
use microbit_dal.Button.Debounce.{IsValid, system_tick-IsValid}

-- What a listener knows of a button from its events. In `ended` the event that tells the length
-- of the press is still to come.
pub data Phase : Type 0 where
  idle pressed held ended : Phase

abbrev pub after_up : EventConfiguration → Phase
after_up simple_events = idle
after_up all_events = ended

-- The order that is promised: down, at most one hold, up, then one click or long click if the
-- configuration asks for it.
abbrev pub accept_one : EventConfiguration → Phase → ButtonEvent → Option Phase
accept_one c idle down = some pressed
accept_one c pressed hold = some held
accept_one c pressed up = some (after_up c)
accept_one c held up = some (after_up c)
accept_one c ended click = some idle
accept_one c ended long_click = some idle
accept_one c _ _ = none

abbrev pub accept : EventConfiguration → Phase → List ButtonEvent → Option Phase
accept c p [] = some p
accept c p (e ∷ es) = elim (accept_one c p e) [ none ↦ none | some q ↦ accept c q es ]

accept-append :
    (c : EventConfiguration) (p q : Phase) (es fs : List ButtonEvent)
    → accept c p es ≡ some q
    → accept c p (es ++ fs) ≡ accept c q fs
accept-append c p q [] fs h = ground arith
accept-append c p q (e ∷ es) fs h = elim (Option-cases (accept_one c p e)) [
  | inl stuck ↦ ground arith
  | inr (r, next) ↦ ground (arith, accept-append c r q es fs)
]

abbrev pub phase : Button → Phase
phase b = if b.pressed then (if b.hold_triggered then held else pressed) else idle

tick_accepted :
    (s : Sample) (b : Button)
    → IsValid b
    → (accept b.event_configuration (phase b) (system_tick s b).1
        ≡ some (phase (system_tick s b).0))
      × ((system_tick s b).0.event_configuration ≡ b.event_configuration)
unfolding system_tick
tick_accepted s b v = ground arith

ticks_accepted_from :
    (c : EventConfiguration) (ss : List Sample) (b : Button)
    → IsValid b
    → b.event_configuration ≡ c
    → accept c (phase b) (run ss b).1 ≡ some (phase (run ss b).0)
unfolding run
ticks_accepted_from c [] b v e = refl
ticks_accepted_from c (s ∷ ss) b v e =
    let (fits, same) = tick_accepted s b v in
    accept-append c (phase b) (phase (system_tick s b).0) (system_tick s b).1 _ (
      subst (λ d. accept d (phase b) (system_tick s b).1 ≡ some (phase (system_tick s b).0)) e fits)
    ∙ ticks_accepted_from c ss (system_tick s b).0 (system_tick-IsValid s b v) (same ∙ e)

-- Whatever the pin and the clock do, the events of a run from a valid state come in the order down,
-- at most one hold, up, and then, with all events configured, one click or long click before the next
-- down; with simple events there is no click. The listener's phase is the one the button ends in.
pub ticks_accepted :
    (ss : List Sample) (b : Button)
    → IsValid b
    → accept b.event_configuration (phase b) (run ss b).1 ≡ some (phase (run ss b).0)
ticks_accepted ss b v = ticks_accepted_from b.event_configuration ss b v refl

-- While the clock is below 2 ^ 32 milliseconds, a tick that raises `hold` on a button that was
-- already pressed comes at least `hold_time` after the press.
hold_after_hold_time :
    (s : Sample) (b : Button)
    → b.pressed ≡ true
    → b.down_start_time ≤ s.at_hold
    → s.at_hold < 2 ^ 32
    → (system_tick s b).0.hold_triggered ≡ true
    → (b.hold_triggered ≡ true) ⊎ (b.down_start_time + hold_time ≤ s.at_hold)
unfolding system_tick
hold_after_hold_time s b p lo hi h = ground arith

-- The 32-bit start time: once the clock has passed 2 ^ 32 milliseconds, the tick that recognises
-- a press raises `hold` together with `down`, with no time in between.
pub hold_at_once_after_wrap :
    (s : Sample) (b : Button)
    → b.pressed ≡ false
    → b.hold_triggered ≡ false
    → s.pin ≡ false
    → b.sigma ≡ sigma_thresh_hi
    → 2 ^ 32 ≤ s.at_down
    → s.at_hold ≡ s.at_down
    → s.at_down < 2 ^ 64
    → (system_tick s b).1 ≡ down ∷ hold ∷ []
unfolding system_tick
hold_at_once_after_wrap s b p h low e lo same hi = ground arith
