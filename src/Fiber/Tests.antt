-- ===== src/Fiber/Tests.antt =====
-- The theorems of the fiber scheduler at concrete states.
use microbit_dal.Prelude.{ℕ, ◌+◌, ◌*◌, ◌^◌, ◌≡◌, refl, true, none, some, List, [], ◌∷◌, arith}
use microbit_dal.Listener.{Event}
use microbit_dal.Fiber.{
  Queue, run_queue, sleep_queue, wait_queue, fiber_pool, Scheduler, no_flags, update, move_fiber,
  scheduler_tick, scheduler_event,
}
use microbit_dal.Fiber.Queues.{IsValid, move_fiber-IsValid}
use microbit_dal.Fiber.Scheduling.{scheduler_tick-Wakes, scheduler_event-Wakes}

-- Fibers 1 and 2 can run and 1 does, 3 sleeps until 50, and 4 waits for value 5 of id 7.
abbrev queues : Queue → List ℕ
queues run_queue = 1 ∷ 2 ∷ []
queues sleep_queue = 3 ∷ []
queues wait_queue = 4 ∷ []
queues fiber_pool = []

abbrev four_fibers : Scheduler
four_fibers = record {
  queues = queues;
  queue_of = update 1 (some run_queue) (
      update 2 (some run_queue)
        (update 3 (some sleep_queue) (update 4 (some wait_queue) (λ f. none))));
  context = update 3 50 (λ f. 5 * 2 ^ 16 + 7);
  flags = λ f. no_flags;
  current = 1;
  forked = none;
  idle_fiber = 9;
  running = true;
  has_bus = true;
}

abbrev pressed : Event
pressed = record { source = 7; value = 5; timestamp = 0 }

four_fibers-IsValid : IsValid four_fibers
four_fibers-IsValid f run_queue = ground arith
four_fibers-IsValid f sleep_queue = ground arith
four_fibers-IsValid f wait_queue = ground arith
four_fibers-IsValid f fiber_pool = ground arith

move_fiber-IsValid_example : IsValid (move_fiber fiber_pool 1 four_fibers)
move_fiber-IsValid_example = move_fiber-IsValid fiber_pool 1 four_fibers four_fibers-IsValid

scheduler_tick-Wakes_example :
    ((scheduler_tick (λ f. 60) four_fibers).queues sleep_queue ≡ [])
    × ((scheduler_tick (λ f. 60) four_fibers).queues run_queue ≡ 1 ∷ 2 ∷ 3 ∷ [])
scheduler_tick-Wakes_example = scheduler_tick-Wakes (λ f. 60) four_fibers four_fibers-IsValid

scheduler_event-Wakes_example :
    ((scheduler_event pressed four_fibers).0.queues wait_queue ≡ [])
    × ((scheduler_event pressed four_fibers).0.queues run_queue ≡ 1 ∷ 2 ∷ 4 ∷ [])
scheduler_event-Wakes_example =
    scheduler_event-Wakes pressed four_fibers (λ e. omega arith) refl four_fibers-IsValid
