-- ===== src/MultiButton.antt =====
-- source/drivers/MicroBitMultiButton.cpp: two buttons used as one.
pub mod Protocol
mod Tests
use microbit_dal.Prelude.{
  ℕ, zero, suc, ◌+◌, ◌-◌, ◌*◌, ◌/◌, ◌%◌, ◌^◌, ◌≤◌, ◌<◌, ◌≡◌, refl, sym, ap, subst, ◌∙◌, ◌≢◌, ◌↔◌,
  ◌⊎◌, inl, inr, Bool, true, false, not, ◌&&◌, ◌||◌, Option, none, some, List, [], ◌∷◌, ◌++◌, map,
  append-nil, append_assoc, arith, ltb, leb, ◌==◌, if◌then◌else◌, ltb→lt, lt→ltb, leb→le, ==_iff,
  Bool-cases, Option-cases, length,
}
use microbit_dal.Button.{EventConfiguration, simple_events, all_events}

-- The MICROBIT_BUTTON_EVT_* codes.
abbrev pub evt_down : ℕ
evt_down = 1

abbrev pub evt_up : ℕ
evt_up = 2

abbrev pub evt_click : ℕ
evt_click = 3

abbrev pub evt_long_click : ℕ
evt_long_click = 4

abbrev pub evt_hold : ℕ
evt_hold = 5

-- An event that is raised or received: source and value.
pub record Signal : Type 0 where
  pub source : ℕ
  pub value : ℕ

-- The bits of `status` for one of the two buttons: MICROBIT_MULTI_BUTTON_STATE_n, _HOLD_TRIGGERED_n
-- and _SUPRESSED_n.
pub record SubButton : Type 0 where
  pub pressed : Bool
  pub held : Bool
  pub supressed : Bool

pub record MultiButton : Type 0 where
  pub id : ℕ
  pub button1 : ℕ
  pub button2 : ℕ
  pub event_configuration : EventConfiguration
  pub sub1 : SubButton
  pub sub2 : SubButton

abbrev pub released : SubButton
released = record { pressed = false; held = false; supressed = false }

-- The constructor, without its registration for the events of the two buttons.
pub new_multi_button : ℕ → ℕ → ℕ → MultiButton
new_multi_button button1 button2 id = record {
  id = id;
  button1 = button1;
  button2 = button2;
  event_configuration = simple_events;
  sub1 = released;
  sub2 = released;
}

pub set_event_configuration : EventConfiguration → MultiButton → MultiButton
set_event_configuration config m = record m { event_configuration = config }

abbrev pub other_sub_button : MultiButton → ℕ → ℕ
other_sub_button m b = if b == m.button1 then m.button2 else m.button1

abbrev pub is_sub_button_pressed : MultiButton → ℕ → Bool
is_sub_button_pressed m b =
    if b == m.button1 then m.sub1.pressed else if b == m.button2 then m.sub2.pressed else false

abbrev pub is_sub_button_held : MultiButton → ℕ → Bool
is_sub_button_held m b =
    if b == m.button1 then m.sub1.held else if b == m.button2 then m.sub2.held else false

abbrev pub is_sub_button_supressed : MultiButton → ℕ → Bool
is_sub_button_supressed m b =
    if b == m.button1 then m.sub1.supressed else if b == m.button2 then m.sub2.supressed else false

-- The setters test for both buttons in turn.
abbrev pub update_sub : (SubButton → SubButton) → ℕ → MultiButton → MultiButton
update_sub f b m =
    let m₁ : MultiButton = if b == m.button1 then record m { sub1 = f m.sub1 } else m in
    if b == m₁.button2 then record m₁ { sub2 = f m₁.sub2 } else m₁

pub set_button_state : ℕ → Bool → MultiButton → MultiButton
set_button_state b v = update_sub (λ s. record s { pressed = v }) b

pub set_hold_state : ℕ → Bool → MultiButton → MultiButton
set_hold_state b v = update_sub (λ s. record s { held = v }) b

pub set_supressed_state : ℕ → Bool → MultiButton → MultiButton
set_supressed_state b v = update_sub (λ s. record s { supressed = v }) b

abbrev pub wants_all : EventConfiguration → Bool
wants_all all_events = true
wants_all simple_events = false

-- The three cases of the switch: the new state, and what is raised in order.
pub on_down : ℕ → MultiButton → MultiButton × List Signal
unfolding set_button_state
on_down b m =
    let m' = set_button_state b true m in
    (
      m',
      if is_sub_button_pressed m' (other_sub_button m b)
          then record { source = m.id; value = evt_down } ∷ []
          else [],
    )

pub on_hold : ℕ → MultiButton → MultiButton × List Signal
unfolding set_hold_state
on_hold b m =
    let m' = set_hold_state b true m in
    (
      m',
      if is_sub_button_held m' (other_sub_button m b)
          then record { source = m.id; value = evt_hold } ∷ []
          else [],
    )

-- `MICROBIT_BUTTON_EVT_UP`, up to the reset of the button's own flags.
pub raise_up : ℕ → MultiButton → MultiButton × List Signal
unfolding set_supressed_state
raise_up b m =
    let other = other_sub_button m b in
    if is_sub_button_pressed m other
    then (
      set_supressed_state other true m,
      record { source = m.id; value = evt_up }
          ∷ (if is_sub_button_held m b && is_sub_button_held m other
              then record { source = m.id; value = evt_long_click }
              else record { source = m.id; value = evt_click })
          ∷ [],
    )
    else if not (is_sub_button_supressed m b) && wants_all m.event_configuration
    then (
      m,
      (if is_sub_button_held m b
            then record { source = b; value = evt_long_click }
            else record { source = b; value = evt_click })
          ∷ [],
    )
    else (m, [])

pub on_up : ℕ → MultiButton → MultiButton × List Signal
unfolding raise_up set_button_state set_hold_state set_supressed_state
on_up b m =
    let (m', raised) = raise_up b m in
    (set_supressed_state b false (set_hold_state b false (set_button_state b false m')), raised)

pub on_button_event : Signal → MultiButton → MultiButton × List Signal
unfolding on_down on_hold on_up
on_button_event e m =
    if e.value == evt_down
    then on_down e.source m
    else if e.value == evt_hold
    then on_hold e.source m
    else if e.value == evt_up
    then on_up e.source m
    else (m, [])

pub is_pressed : MultiButton → Bool
is_pressed m = m.sub1.pressed && m.sub2.pressed
