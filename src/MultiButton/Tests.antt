-- ===== src/MultiButton/Tests.antt =====
-- Two buttons at work, and the theorems about them at concrete inputs.
use microbit_dal.Prelude.{ℕ, ◌≡◌, refl, inl, inr, true, false, some, List, [], ◌∷◌, arith}
use microbit_dal.Button.{all_events}
use microbit_dal.MultiButton.{
  Signal, MultiButton, released, new_multi_button, on_button_event, is_pressed,
}
use microbit_dal.MultiButton.Protocol.{
  IsValid, AllTimely, run, accept, phase, idle, signals_accepted,
}

abbrev signal : ℕ → ℕ → Signal
signal source value = record { source = source; value = value }

-- Buttons 1 and 2 under the id 26.
abbrev pair : MultiButton
pair = record {
  id = 26;
  button1 = 1;
  button2 = 2;
  event_configuration = all_events;
  sub1 = released;
  sub2 = released;
}

abbrev both : List Signal
both = signal 1 1 ∷ signal 2 1 ∷ signal 1 2 ∷ signal 2 2 ∷ []

both_clicks : (run both (new_multi_button 1 2 26)).1 ≡ signal 26 1 ∷ signal 26 2 ∷ signal 26 3 ∷ []
unfolding run on_button_event new_multi_button
both_clicks = refl

both_pressed : is_pressed (run (signal 1 1 ∷ signal 2 1 ∷ []) pair).0 ≡ true
unfolding run on_button_event is_pressed
both_pressed = refl

pair-IsValid : IsValid pair
pair-IsValid = record {
  apart = omega arith;
  apart1 = omega arith;
  apart2 = omega arith;
  held1 = λ h. cc;
  held2 = λ h. cc;
}

both-AllTimely : AllTimely both pair
unfolding on_button_event
both-AllTimely = (
  (inl refl, inl (refl, refl)),
  (
    (inr refl, inl (refl, refl)),
    ((inl refl, inr (inr (refl, refl))), ((inr refl, inr (inr (refl, refl))), tt)),
  ),
)

signals_accepted_example : accept 26 idle (run both pair).1 ≡ some (phase (run both pair).0)
signals_accepted_example = signals_accepted both pair pair-IsValid both-AllTimely

abbrev down_both : MultiButton
down_both = record pair {
  sub1 = record { pressed = true; held = false; supressed = false };
  sub2 = record { pressed = true; held = false; supressed = false };
}

down_both-IsValid : IsValid down_both
down_both-IsValid = record {
  apart = omega arith;
  apart1 = omega arith;
  apart2 = omega arith;
  held1 = λ h. cc;
  held2 = λ h. cc;
}
