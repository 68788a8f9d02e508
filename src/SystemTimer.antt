-- ===== src/SystemTimer.antt =====
-- source/core/MicroBitSystemTimer.cpp, and the idle components of source/core/MicroBitFiber.cpp: tables
-- of components, and the period of the tick.
pub mod Table
use microbit_dal.Prelude.{
  ℕ, zero, suc, ◌+◌, ◌-◌, ◌*◌, ◌/◌, ◌%◌, ◌^◌, ◌≤◌, ◌<◌, ◌≡◌, refl, sym, ap, subst, ◌∙◌, ◌≢◌, ◌↔◌,
  ◌⊎◌, inl, inr, Bool, true, false, not, ◌&&◌, ◌||◌, Option, none, some, List, [], ◌∷◌, ◌++◌, map,
  append-nil, append_assoc, arith, ltb, leb, ◌==◌, if◌then◌else◌, ltb→lt, lt→ltb, leb→le, ==_iff,
  Bool-cases, Option-cases, length,
}
use microbit_dal.Prelude.Int.{ℤ, pos, negsuc}

pub data Status : Type 0 where
  ok invalid_parameter no_resources : Status

-- A table with a slot for each entry; `none` is NULL. Components are numbers.
abbrev pub Components : Type 0
Components = List (Option ℕ)

abbrev pub with_slot : Option ℕ → Option Components → Option Components
with_slot slot none = none
with_slot slot (some t) = some (slot ∷ t)

-- Puts the component into the first empty slot; `none`: there is none.
pub put_component : ℕ → Components → Option Components
put_component c [] = none
put_component c (none ∷ t) = some (some c ∷ t)
put_component c (some d ∷ t) = with_slot (some d) (put_component c t)

-- Empties the first slot with the component; `none`: there is none.
pub take_component : ℕ → Components → Option Components
take_component c [] = none
take_component c (none ∷ t) = with_slot none (take_component c t)
take_component c (some d ∷ t) =
    let rest = with_slot (some d) (take_component c t) in if d == c then some (none ∷ t) else rest

pub fiber_add_idle_component : ℕ → Components → Components × Status
unfolding put_component
fiber_add_idle_component c t = elim (put_component c t) [
  | none ↦ (t, no_resources)
  | some t' ↦ (t', ok)
]

pub fiber_remove_idle_component : ℕ → Components → Components × Status
unfolding take_component
fiber_remove_idle_component c t = elim (take_component c t) [
  | none ↦ (t, invalid_parameter)
  | some t' ↦ (t', ok)
]

-- `attached`: the period in microseconds at which the ticker calls `system_timer_tick`.
pub record SystemTimer : Type 0 where
  pub has_ticker : Bool
  pub has_timer : Bool
  pub tick_period : ℕ
  pub attached : Option ℕ
  pub components : Components

-- SYSTEM_TICK_PERIOD_MS
abbrev pub system_tick_period_ms : ℕ
system_tick_period_ms = 6

-- `attach_us` replaces what was attached before, so that the `detach` leaves no trace.
pub system_timer_set_period : ℤ → SystemTimer → SystemTimer × Status
system_timer_set_period (negsuc p) s = (s, invalid_parameter)
system_timer_set_period (pos p) s =
    if ltb p 1
    then (s, invalid_parameter)
    else (record s { tick_period = p; attached = some (p * 1000) }, ok)

pub system_timer_init : ℤ → SystemTimer → SystemTimer × Status
unfolding system_timer_set_period
system_timer_init period s =
    system_timer_set_period period (record s { has_ticker = true; has_timer = true })

-- The first lines of `update_time` and `system_timer_add_component`.
pub bring_up : SystemTimer → SystemTimer
unfolding system_timer_init
bring_up s =
    if s.has_timer && s.has_ticker then s else (system_timer_init (pos system_tick_period_ms) s).0

pub system_timer_add_component : ℕ → SystemTimer → SystemTimer × Status
unfolding bring_up put_component
system_timer_add_component c s = elim (put_component c (bring_up s).components) [
  | none ↦ (bring_up s, no_resources)
  | some t ↦ (record (bring_up s) { components = t }, ok)
]

pub system_timer_remove_component : ℕ → SystemTimer → SystemTimer × Status
unfolding take_component
system_timer_remove_component c s = elim (take_component c s.components) [
  | none ↦ (s, invalid_parameter)
  | some t ↦ (record s { components = t }, ok)
]
