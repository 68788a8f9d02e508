-- ===== src/Accelerometer/Tests.antt =====
-- The theorems on gestures at a concrete state.
use microbit_dal.Prelude.{◌≡◌, false, [], ◌∷◌, arith}
use microbit_dal.Prelude.Int.{pos}
use microbit_dal.Accelerometer.{
  Sample, Accelerometer, low_pass, update_gesture, detect, count_crossing, decay, posture,
  instantaneous_posture, impulses, subside, acceleration_squared,
}
use microbit_dal.Accelerometer.Gestures.{updates, shakes, shake_rate}
use microbit_dal.Accelerometer.Filter.{holds, holds_lem}

-- Three crossings have been counted, and tilting to the left was reported last.
abbrev moving : Accelerometer
moving = record {
  sigma = 2;
  impulse_sigma = 5;
  last_gesture = 3;
  current_gesture = 3;
  shake = record {
    shaken = false;
    x = false;
    y = false;
    z = false;
    impulse_3 = false;
    impulse_6 = false;
    impulse_8 = false;
    count = 3;
    timer = 2;
  };
}

-- A strong acceleration to the right.
abbrev push : Sample
push = record { x = pos 900; y = pos 0; z = pos 0 }

shake_rate_example : shakes (updates (push ∷ push ∷ []) (update_gesture push moving).0).1 ≡ 0
unfolding update_gesture detect count_crossing instantaneous_posture impulses subside low_pass
    acceleration_squared decay posture
shake_rate_example = shake_rate push (push ∷ push ∷ []) moving (omega arith) (omega arith)

holds_lem_example : ((holds 4 6 moving).1 ≡ 4 ∷ []) × ((holds 4 6 moving).0.last_gesture ≡ 4)
holds_lem_example = holds_lem 6 4 moving (omega arith, λ e. absurd (omega (arith, e))) (omega arith)
