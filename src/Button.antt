-- ===== src/Button.antt =====
-- source/drivers/MicroBitButton.cpp: the debounced button, driven by the system timer.
pub mod Debounce
pub mod Protocol
mod Tests
use microbit_dal.Prelude.{
  ℕ, ◌+◌, ◌-◌, ◌%◌, ◌^◌, Bool, true, false, not, ◌&&◌, List, [], ◌∷◌, ◌++◌, ltb, leb, if◌then◌else◌,
}

-- The MICROBIT_BUTTON_EVT_* codes that a button raises.
pub data ButtonEvent : Type 0 where
  down up click long_click hold : ButtonEvent

pub data EventConfiguration : Type 0 where
  simple_events all_events : EventConfiguration

abbrev pub sigma_min : ℕ
sigma_min = 0

abbrev pub sigma_max : ℕ
sigma_max = 12

abbrev pub sigma_thresh_hi : ℕ
sigma_thresh_hi = 8

abbrev pub sigma_thresh_lo : ℕ
sigma_thresh_lo = 2

abbrev pub long_click_time : ℕ
long_click_time = 1000

abbrev pub hold_time : ℕ
hold_time = 1500

-- `pressed` and `hold_triggered` are the bits MICROBIT_BUTTON_STATE and
-- MICROBIT_BUTTON_STATE_HOLD_TRIGGERED of `status`.
pub record Button : Type 0 where
  pub pressed : Bool
  pub hold_triggered : Bool
  pub sigma : ℕ
  pub down_start_time : ℕ
  pub event_configuration : EventConfiguration

-- The state that the constructor leaves: `status` is 0 from MicroBitComponent.
pub new_button : EventConfiguration → Button
new_button config = record {
  pressed = false;
  hold_triggered = false;
  sigma = 0;
  down_start_time = 0;
  event_configuration = config;
}

pub set_event_configuration : EventConfiguration → Button → Button
set_event_configuration config b = record b { event_configuration = config }

-- `unsigned long downStartTime` has 32 bits; `system_timer_current_time()` returns a uint64_t.
abbrev pub ulong : ℕ → ℕ
ulong t = t % 2 ^ 32

-- The uint64_t `system_timer_current_time() - downStartTime`.
abbrev pub elapsed : ℕ → ℕ → ℕ
elapsed now start = (now + 2 ^ 64 - start) % 2 ^ 64

-- What one tick reads: the pin, and the clock at each of the three places that read it.
pub record Sample : Type 0 where
  pub pin : Bool
  pub at_down : ℕ
  pub at_up : ℕ
  pub at_hold : ℕ

-- The lazy follower of the pin, which is low when touched.
unfoldable pub integrate : Bool → ℕ → ℕ
integrate true sigma = if ltb sigma_min sigma then sigma - 1 else sigma
integrate false sigma = if ltb sigma sigma_max then sigma + 1 else sigma

-- The off->on transition.
pub check_down : ℕ → Button → Button × List ButtonEvent
check_down now b =
    if ltb sigma_thresh_hi b.sigma && not b.pressed
    then (record b { pressed = true; down_start_time = ulong now }, down ∷ [])
    else (b, [])

-- The event that tells how long the press was, if the configuration wants one.
pub click_events : ℕ → Button → List ButtonEvent
click_events now b = elim b.event_configuration [
  | all_events ↦
      if leb long_click_time (elapsed now b.down_start_time) then long_click ∷ [] else click ∷ []
  | simple_events ↦ []
]

-- The on->off transition.
pub check_up : ℕ → Button → Button × List ButtonEvent
unfolding click_events
check_up now b =
    if ltb b.sigma sigma_thresh_lo && b.pressed
    then (record b { pressed = false; hold_triggered = false }, up ∷ click_events now b)
    else (b, [])

pub check_hold : ℕ → Button → Button × List ButtonEvent
check_hold now b =
    if (b.pressed && not b.hold_triggered) && leb hold_time (elapsed now b.down_start_time)
    then (record b { hold_triggered = true }, hold ∷ [])
    else (b, [])

-- The new state, with the events in the order in which they are raised.
pub system_tick : Sample → Button → Button × List ButtonEvent
unfolding integrate check_down check_up check_hold
system_tick s b =
    let b₀ : Button = record b { sigma = integrate s.pin b.sigma } in
    let (b₁, e₁) = check_down s.at_down b₀ in
    let (b₂, e₂) = check_up s.at_up b₁ in
    let (b₃, e₃) = check_hold s.at_hold b₂ in (b₃, e₁ ++ e₂ ++ e₃)

pub is_pressed : Button → ℕ
is_pressed b = if b.pressed then 1 else 0

-- The ticks of a run, with everything that they raise.
pub run : List Sample → Button → Button × List ButtonEvent
run [] b = (b, [])
run (s ∷ ss) b = let (b', e) = system_tick s b in let (b'', es) = run ss b' in (b'', e ++ es)
