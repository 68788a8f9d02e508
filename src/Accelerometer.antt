-- ===== src/Accelerometer.antt =====
-- source/drivers/MicroBitAccelerometer.cpp: the gestures of the accelerometer. A sample is what
-- getX, getY and getZ return, and no other sample arrives while one is worked on. A gesture is its
-- number, as in inc/drivers/MicroBitAccelerometer.h.
pub mod Gestures
pub mod Filter
mod Tests
use microbit_dal.Prelude.{
  xor, ℕ, zero, suc, ◌+◌, ◌-◌, ◌*◌, ◌/◌, ◌%◌, ◌^◌, ◌≤◌, ◌<◌, ◌≡◌, refl, sym, ap, subst, ◌∙◌, ◌≢◌,
  ◌↔◌, ◌⊎◌, inl, inr, Bool, true, false, not, ◌&&◌, ◌||◌, Option, none, some, List, [], ◌∷◌, ◌++◌,
  map, append-nil, append_assoc, arith, ltb, leb, ◌==◌, if◌then◌else◌, ltb→lt, lt→ltb, leb→le,
  ==_iff, Bool-cases, Option-cases, length,
}
use microbit_dal.Prelude.Int.{ℤ, pos, negsuc, ltb_ℤ, pos_part, neg_part}

pub record Sample : Type 0 where
  pub x : ℤ
  pub y : ℤ
  pub z : ℤ

-- `ShakeHistory`
pub record ShakeHistory : Type 0 where
  pub shaken : Bool
  pub x : Bool
  pub y : Bool
  pub z : Bool
  pub impulse_3 : Bool
  pub impulse_6 : Bool
  pub impulse_8 : Bool
  pub count : ℕ
  pub timer : ℕ

pub record Accelerometer : Type 0 where
  pub sigma : ℕ
  pub impulse_sigma : ℕ
  pub last_gesture : ℕ
  pub current_gesture : ℕ
  pub shake : ShakeHistory

-- MICROBIT_ACCELEROMETER_EVT_SHAKE
abbrev pub shake_gesture : ℕ
shake_gesture = 11

abbrev pub damping : ℕ
damping = 5

-- A strong acceleration against the direction of the last one.
abbrev pub crosses : ℤ → Bool → Bool
crosses v side = (ltb_ℤ v (negsuc 399) && side) || (ltb_ℤ (pos 400) v && not side)

-- The tests for zero crossings in `instantaneousPosture`
pub detect : Sample → ShakeHistory → ShakeHistory × Bool
detect p h =
    let cx = crosses p.x h.x in
    let cy = crosses p.y h.y in
    let cz = crosses p.z h.z in
    (record h { x = xor cx h.x; y = xor cy h.y; z = xor cz h.z }, cx || cy || cz)

-- The count of the crossings, and whether a shake is signalled
pub count_crossing : Bool → ShakeHistory → ShakeHistory × Bool
count_crossing detected h =
    let count = (h.count + 1) % 2 ^ 8 in
    let timer = if count == 1 then 0 else h.timer in
    if detected && ltb h.count 4
    then if count == 4
      then (record h { count = count; timer = 0; shaken = true }, true)
      else (record h { count = count; timer = timer }, false)
    else (h, false)

-- The decay of the count
pub decay : ShakeHistory → ShakeHistory
decay h =
    let timer = (h.timer + 1) % 2 ^ 16 in
    if ltb 0 h.count
    then if h.shaken && leb 30 timer
      then record h { shaken = false; timer = 0; count = 0 }
      else if not h.shaken && leb 10 timer
      then record h { timer = 0; count = h.count - 1 }
      else record h { timer = timer }
    else h

abbrev pub square : ℤ → ℕ
square v = (pos_part v + neg_part v) * (pos_part v + neg_part v)

-- `instantaneousAccelerationSquared`
pub acceleration_squared : Sample → ℕ
acceleration_squared p = square p.x + square p.y + square p.z

-- The posture that a sample shows: free fall, tilt left, right, down and up, face up and down, none
pub posture : Sample → ℕ
unfolding acceleration_squared
posture p =
    if ltb (acceleration_squared p) (400 * 400)
    then 7
    else if ltb_ℤ p.x (negsuc 799)
    then 3
    else if ltb_ℤ (pos 800) p.x
    then 4
    else if ltb_ℤ p.y (negsuc 799)
    then 2
    else if ltb_ℤ (pos 800) p.y
    then 1
    else if ltb_ℤ p.z (negsuc 799)
    then 5
    else if ltb_ℤ (pos 800) p.z
    then 6
    else 0

-- `instantaneousPosture`
pub instantaneous_posture : Sample → ShakeHistory → ShakeHistory × ℕ
unfolding detect count_crossing decay posture
instantaneous_posture p h =
    let (h₁, detected) = detect p h in
    let (h₂, shaken) = count_crossing detected h₁ in
    if shaken then (h₂, shake_gesture) else (decay h₂, posture p)

-- The events of strong forces, 3G, 6G and 8G
pub impulses : ℕ → ShakeHistory → ShakeHistory × List ℕ
impulses force h =
    let three = ltb (3072 * 3072) force && not h.impulse_3 in
    let six = ltb (6144 * 6144) force && not h.impulse_6 in
    let eight = ltb (8192 * 8192) force && not h.impulse_8 in
    (
      record h {
        impulse_3 = three || h.impulse_3;
        impulse_6 = six || h.impulse_6;
        impulse_8 = eight || h.impulse_8;
      },
      (if three then 8 ∷ [] else [])
          ++ (if six then 9 ∷ [] else [])
          ++ (if eight then 10 ∷ [] else []),
    )

-- The reset of the impulses once the force has subsided
pub subside : Accelerometer → Accelerometer
subside a =
    if ltb a.impulse_sigma damping
    then record a { impulse_sigma = a.impulse_sigma + 1 }
    else record a {
      shake = record a.shake { impulse_3 = false; impulse_6 = false; impulse_8 = false };
    }

-- The low pass filter behind `instantaneousPosture`
pub low_pass : ℕ → Accelerometer → Accelerometer × List ℕ
low_pass g a =
    let sigma =
      if g == a.current_gesture
      then (if ltb a.sigma damping then a.sigma + 1 else a.sigma)
      else 0 in
    let filtered = record a { current_gesture = g; sigma = sigma } in
    if not (g == a.last_gesture) && leb damping sigma
    then (record filtered { last_gesture = g }, g ∷ [])
    else (filtered, [])

-- `updateGesture`
pub update_gesture : Sample → Accelerometer → Accelerometer × List ℕ
unfolding acceleration_squared impulses subside instantaneous_posture low_pass
update_gesture p a =
    let force = acceleration_squared p in
    let (hit, strong) = impulses force a.shake in
    let a₁ = if ltb (3072 * 3072) force then record a { shake = hit; impulse_sigma = 0 } else a in
    let a₂ = subside a₁ in
    let (h, g) = instantaneous_posture p a₂.shake in
    let a₃ = record a₂ { shake = h } in
    let events = if ltb (3072 * 3072) force then strong else [] in
    if g == shake_gesture
    then (a₃, events ++ shake_gesture ∷ [])
    else let (a₄, es) = low_pass g a₃ in (a₄, events ++ es)
