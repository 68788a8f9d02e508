-- ===== src/MultiButton/Protocol.antt =====
-- The compound events of a multi-button.
use microbit_dal.Prelude.{
  ℕ, ◌≡◌, refl, sym, ap, ◌∙◌, ◌≢◌, ◌⊎◌, inl, inr, true, false, not, ◌&&◌, Option, none, some, List,
  [], ◌∷◌, ◌++◌, arith, ◌==◌, if◌then◌else◌, Option-cases,
}
use microbit_dal.MultiButton.{
  wants_all, released, Signal, SubButton, MultiButton, on_down, on_hold, on_up, on_button_event,
  evt_down, evt_up, evt_click, evt_long_click, evt_hold, is_sub_button_pressed, is_sub_button_held,
}

-- Three different ids, and only a pressed button is held.
pub record IsValid (m : MultiButton) : Type 0 where
  pub apart : m.button1 ≢ m.button2
  pub apart1 : m.id ≢ m.button1
  pub apart2 : m.id ≢ m.button2
  pub held1 : m.sub1.held ≡ true → m.sub1.pressed ≡ true
  pub held2 : m.sub2.held ≡ true → m.sub2.pressed ≡ true

-- The signals that a button raises, at the point where it raises them: down if it was up, hold if
-- it is down and not held, up if it was down.
abbrev pub Timely : Signal → MultiButton → Type 0
Timely e m =
    ((e.source ≡ m.button1) ⊎ (e.source ≡ m.button2))
    × (((e.value ≡ evt_down) × (is_sub_button_pressed m e.source ≡ false))
        ⊎ (((e.value ≡ evt_hold)
              × (is_sub_button_pressed m e.source ≡ true)
              × (is_sub_button_held m e.source ≡ false))
            ⊎ ((e.value ≡ evt_up) × (is_sub_button_pressed m e.source ≡ true))))

-- What a listener for the compound button knows of it.
pub data Phase : Type 0 where
  idle pressed held after_press after_hold : Phase

abbrev pub phase : MultiButton → Phase
phase m =
    if m.sub1.pressed && m.sub2.pressed
    then (if m.sub1.held && m.sub2.held then held else pressed)
    else idle

-- The order that is promised for the signals of `id`: down, at most one hold, up, then one click,
-- a long one exactly after a hold. Signals of other sources are passed over.
abbrev pub next : Phase → ℕ → Option Phase
next idle v = if v == evt_down then some pressed else none
next pressed v = if v == evt_hold then some held else if v == evt_up then some after_press else none
next held v = if v == evt_up then some after_hold else none
next after_press v = if v == evt_click then some idle else none
next after_hold v = if v == evt_long_click then some idle else none

abbrev pub accept_one : ℕ → Phase → Signal → Option Phase
accept_one id p e = if e.source == id then next p e.value else some p

abbrev pub accept : ℕ → Phase → List Signal → Option Phase
accept id p [] = some p
accept id p (e ∷ es) = elim (accept_one id p e) [ none ↦ none | some q ↦ accept id q es ]

abbrev signal : ℕ → ℕ → Signal
signal source value = record { source = source; value = value }

-- What each signal of the first and of the second button does, the tests of the ids decided.
module _ (m : MultiButton) (apart : m.button1 ≢ m.button2) where
  on_down_first : on_down m.button1 m ≡ (
    record m { sub1 = record m.sub1 { pressed = true } },
    if m.sub2.pressed then signal m.id evt_down ∷ [] else [],
  )
  unfolding on_down
  on_down_first = ground arith

  on_down_second : on_down m.button2 m ≡ (
    record m { sub2 = record m.sub2 { pressed = true } },
    if m.sub1.pressed then signal m.id evt_down ∷ [] else [],
  )
  unfolding on_down
  on_down_second = ground arith

  on_hold_first : on_hold m.button1 m ≡ (
    record m { sub1 = record m.sub1 { held = true } },
    if m.sub2.held then signal m.id evt_hold ∷ [] else [],
  )
  unfolding on_hold
  on_hold_first = ground arith

  on_hold_second : on_hold m.button2 m ≡ (
    record m { sub2 = record m.sub2 { held = true } },
    if m.sub1.held then signal m.id evt_hold ∷ [] else [],
  )
  unfolding on_hold
  on_hold_second = ground arith

  -- The click of one button alone, where it is asked for.
  abbrev lone_click : ℕ → SubButton → List Signal
  lone_click b s =
      if not s.supressed && wants_all m.event_configuration
      then signal b (if s.held then evt_long_click else evt_click) ∷ []
      else []

  abbrev both_up : List Signal
  both_up =
      signal m.id evt_up
      ∷ signal m.id (if m.sub1.held && m.sub2.held then evt_long_click else evt_click)
      ∷ []

  on_up_first : on_up m.button1 m ≡ (
      if m.sub2.pressed
      then (record m { sub1 = released; sub2 = record m.sub2 { supressed = true } }, both_up)
      else (record m { sub1 = released }, lone_click m.button1 m.sub1))
  unfolding on_up
  on_up_first = ground arith

  on_up_second : on_up m.button2 m ≡ (
      if m.sub1.pressed
      then (record m { sub2 = released; sub1 = record m.sub1 { supressed = true } }, both_up)
      else (record m { sub2 = released }, lone_click m.button2 m.sub2))
  unfolding on_up
  on_up_second = ground arith

-- What a step promises, over its result.
record Keeps (m : MultiButton) (r : MultiButton × List Signal) : Type 0 where
  valid : IsValid r.0
  in_order : accept m.id (phase m) r.1 ≡ some (phase r.0)
  same_id : r.0.id ≡ m.id

module _ (m : MultiButton) (v : IsValid m) where
  down_first : m.sub1.pressed ≡ false → Keeps m (on_down m.button1 m)
  down_first up = rw (on_down_first m v.apart) (ground arith)

  down_second : m.sub2.pressed ≡ false → Keeps m (on_down m.button2 m)
  down_second up = rw (on_down_second m v.apart) (ground arith)

  hold_first : m.sub1.pressed ≡ true → m.sub1.held ≡ false → Keeps m (on_hold m.button1 m)
  hold_first down fresh = rw (on_hold_first m v.apart) (ground arith)

  hold_second : m.sub2.pressed ≡ true → m.sub2.held ≡ false → Keeps m (on_hold m.button2 m)
  hold_second down fresh = rw (on_hold_second m v.apart) (ground arith)

  up_first : m.sub1.pressed ≡ true → Keeps m (on_up m.button1 m)
  up_first down = rw (on_up_first m v.apart) (ground arith)

  up_second : m.sub2.pressed ≡ true → Keeps m (on_up m.button2 m)
  up_second down = rw (on_up_second m v.apart) (ground arith)

step-Keeps : (e : Signal) (m : MultiButton) → IsValid m → Timely e m → Keeps m (on_button_event e m)
unfolding on_button_event
step-Keeps e m v (inl h, inl (d, up)) = rw (d, h) (down_first m v (ground arith))
step-Keeps e m v (inl h, inr (inl (d, down, fresh))) =
    rw (d, h) (hold_first m v (ground arith) (ground arith))
step-Keeps e m v (inl h, inr (inr (d, down))) = rw (d, h) (up_first m v (ground arith))
step-Keeps e m v (inr h, inl (d, up)) = rw (d, h) (down_second m v (ground (arith, v.apart)))
step-Keeps e m v (inr h, inr (inl (d, down, fresh))) =
    rw (d, h) (hold_second m v (ground (arith, v.apart)) (ground (arith, v.apart)))
step-Keeps e m v (inr h, inr (inr (d, down))) = rw (d, h) (up_second m v (ground (arith, v.apart)))

unfoldable pub run : List Signal → MultiButton → MultiButton × List Signal
run [] m = (m, [])
run (e ∷ es) m =
    let (m', raised) = on_button_event e m in let (m'', rest) = run es m' in (m'', raised ++ rest)

abbrev pub AllTimely : List Signal → MultiButton → Type 0
AllTimely [] m = Unit {0}
AllTimely (e ∷ es) m = Timely e m × AllTimely es (on_button_event e m).0

accept-append :
    (id : ℕ) (p q : Phase) (es fs : List Signal)
    → accept id p es ≡ some q
    → accept id p (es ++ fs) ≡ accept id q fs
accept-append id p q [] fs h = ground arith
accept-append id p q (e ∷ es) fs h = elim (Option-cases (accept_one id p e)) [
  | inl stuck ↦ ground arith
  | inr (r, go) ↦ ground (arith, accept-append id r q es fs)
]

-- If the two buttons signal in their own order, the signals of the compound button come, in either
-- configuration, in the order down, at most one hold, up, and then a long click if there was a hold
-- and a click if not. Its phase says which of the two buttons are down and held.
pub signals_accepted :
    (es : List Signal) (m : MultiButton)
    → IsValid m
    → AllTimely es m
    → accept m.id (phase m) (run es m).1 ≡ some (phase (run es m).0)
unfolding run
signals_accepted [] m v t = refl
signals_accepted (e ∷ es) m v t =
    let k = step-Keeps e m v t.0 in
    let m' = (on_button_event e m).0 in
    accept-append m.id (phase m) (phase m') (on_button_event e m).1 (run es m').1 k.in_order
    ∙ ap (λ i. accept i (phase m') (run es m').1) (sym k.same_id)
    ∙ signals_accepted es m' k.valid t.1

-- A button that took part in a compound press, and is released after the other, raises nothing.
supressed_silent :
    (m : MultiButton)
    → IsValid m
    → m.sub1.pressed ≡ true
    → m.sub2.pressed ≡ true
    → let m' = (on_up m.button1 m).0 in
      ((on_up m.button2 m').1 ≡ []) × ((on_up m.button2 m').0.sub2 ≡ released)
supressed_silent m v d1 d2 =
    let m' : MultiButton = record m {
      sub1 = released;
      sub2 = record m.sub2 { supressed = true };
    } in
    let one : (on_up m.button1 m).0 ≡ m' = rw (on_up_first m v.apart, d2) refl in
    rw one (rw (on_up_second m' v.apart) (ground arith))
