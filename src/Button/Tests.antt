-- ===== src/Button/Tests.antt =====
-- Runs of a button, and the theorems about it at concrete inputs.
use microbit_dal.Prelude.{
  ℕ, zero, suc, ◌+◌, ◌^◌, ◌≡◌, refl, Bool, true, false, some, List, [], ◌∷◌, ◌++◌, arith,
}
use microbit_dal.Button.{
  Button, Sample, new_button, run, system_tick, down, up, click, long_click, hold, simple_events,
  all_events, is_pressed, set_event_configuration,
}
use microbit_dal.Button.Debounce.{AllPins, IsValid}
use microbit_dal.Button.Protocol.{accept, phase, idle, ticks_accepted, hold_at_once_after_wrap}

abbrev sample : Bool → ℕ → Sample
sample pin now = record { pin = pin; at_down = now; at_up = now; at_hold = now }

abbrev ticks : Bool → ℕ → ℕ → List Sample
ticks pin now zero = []
ticks pin now (suc n) = sample pin now ∷ ticks pin (now + 6) n

ticks-AllPins : (pin : Bool) (now n : ℕ) → AllPins pin (ticks pin now n)
ticks-AllPins pin now zero = tt
ticks-AllPins pin now (suc n) = (refl, ticks-AllPins pin (now + 6) n)

abbrev fresh : Button
fresh = record {
  pressed = false;
  hold_triggered = false;
  sigma = 0;
  down_start_time = 0;
  event_configuration = all_events;
}

abbrev presses : List Sample
presses = ticks false 100 9 ++ ticks true 154 8

abbrev held_down : Button
held_down = record {
  pressed = true;
  hold_triggered = false;
  sigma = 9;
  down_start_time = 148;
  event_configuration = all_events;
}

-- Nine low samples press the button, eight high ones release it.
press_and_release : (run presses (new_button all_events)).1 ≡ down ∷ up ∷ click ∷ []
unfolding run system_tick new_button
press_and_release = refl

long_press :
    (run (ticks false 100 9 ++ sample false 1700 ∷ ticks true 1800 9) (new_button all_events)).1
    ≡ down ∷ hold ∷ up ∷ long_click ∷ []
unfolding run system_tick new_button
long_press = refl

simple_press :
    (run presses (set_event_configuration simple_events (new_button all_events))).1 ≡ down ∷ up ∷ []
unfolding run system_tick new_button set_event_configuration
simple_press = refl

pressed_reads_one : is_pressed (run (ticks false 0 9) (new_button all_events)).0 ≡ 1
unfolding run system_tick new_button is_pressed
pressed_reads_one = refl

fresh-IsValid : IsValid fresh
fresh-IsValid = record { in_range = omega arith; held_pressed = λ h. cc }

ticks_accepted_example :
    accept all_events idle (run presses fresh).1 ≡ some (phase (run presses fresh).0)
ticks_accepted_example = ticks_accepted presses fresh fresh-IsValid

hold_at_once_after_wrap_example :
    (system_tick (sample false (2 ^ 32 + 5)) (record fresh { sigma = 8 })).1 ≡ down ∷ hold ∷ []
hold_at_once_after_wrap_example =
    hold_at_once_after_wrap (sample false (2 ^ 32 + 5)) (record fresh { sigma = 8 }) refl refl refl
      refl (omega arith) refl (omega arith)

release_seen : (run (ticks true 200 8) held_down).0.pressed ≡ false
unfolding run system_tick
release_seen = refl
