-- ===== src/Listener/Tests.antt =====
-- A listener at work, and the theorems about it at concrete inputs.
use microbit_dal.Prelude.{ℕ, ◌≡◌, refl, true, false, List, [], ◌∷◌, ◌++◌, arith}
use microbit_dal.Listener.{Event, Listener, enter, queue, enqueue}
use microbit_dal.Listener.Machine.{
  State, idle, yielded, Step, arrive, return, resume, step, run, IsValid, run_in_order, Calm,
  pending, arrival_overwrites,
}

abbrev event : ℕ → Event
event v = record { source = 1; value = v; timestamp = 0 }

abbrev plain : Listener
plain = record {
  id = 1;
  value = 0;
  cb = 4096;
  target = 0;
  parameterised = false;
  method = false;
  busy = false;
  queue_if_busy = true;
  drop_if_busy = false;
  nonblocking = false;
  urgent = false;
  deleting = false;
  evt = event 0;
  evt_queue = [];
}

abbrev at_rest : State
at_rest = record { listener = plain; fiber = idle }

abbrev busy_script : List Step
busy_script = arrive (event 1) ∷ arrive (event 2) ∷ return ∷ resume ∷ arrive (event 3) ∷ []

-- The first event is owed, the fiber has yielded.
abbrev between : State
between = record {
  listener = record plain { busy = true; evt = event 1; evt_queue = event 2 ∷ [] };
  fiber = yielded;
}

fires_in_order : (run busy_script at_rest).1 ≡ event 1 ∷ event 2 ∷ []
unfolding run step enter queue enqueue
fires_in_order = refl

at_rest-IsValid : IsValid at_rest
at_rest-IsValid = record {
  queues = refl;
  keeps = refl;
  busy_iff = (λ h. refl, λ h. refl);
  idle_empty = λ h. refl;
  bounded = omega arith;
}

between-IsValid : IsValid between
between-IsValid = record {
  queues = refl;
  keeps = refl;
  busy_iff = (λ h. cc, λ h. cc);
  idle_empty = λ h. cc;
  bounded = omega arith;
}

busy_script-Calm : Calm busy_script at_rest
unfolding step enter queue enqueue
busy_script-Calm =
    ((λ h. cc, omega arith), ((λ h. cc, omega arith), (tt, (tt, ((λ h. cc, omega arith), tt)))))

run_in_order_example :
    (run busy_script at_rest).1 ++ pending (run busy_script at_rest).0
    ≡ event 1 ∷ event 2 ∷ event 3 ∷ []
run_in_order_example = run_in_order busy_script at_rest at_rest-IsValid busy_script-Calm

arrival_overwrites_example :
    ((run (arrive (event 3) ∷ resume ∷ []) between).1 ≡ event 3 ∷ [])
    × (pending (run (arrive (event 3) ∷ resume ∷ []) between).0 ≡ event 2 ∷ event 3 ∷ [])
arrival_overwrites_example = arrival_overwrites (event 3) between between-IsValid refl (omega arith)
