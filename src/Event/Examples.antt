-- ===== src/Event/Examples.antt =====
-- kernel/lib/event.c with two events and two threads.
use os_lyre.Base.{ℕ, ◌≡◌, refl, true, false, List, [], ◌∷◌, ◌++◌, inl}
use os_lyre.Event.{
  set_event, sched_dequeue_thread, leave_slot, left_queue, Event, Thread, World, AwaitStart,
  returned, waiting, panic, check_from, check_for_pending, attach_from, attach_one,
  attach_listeners, wait_on, after_check, await_start, event_trigger, await_end,
}
use os_lyre.Event.Settled.{IsSettled}
use os_lyre.Event.Steps.{Run, done, next, step_wait, step_trigger, step_end, Run-IsSettled}

abbrev quiet_event : Event
quiet_event = record { pending = 0; listeners = [] }

abbrev busy_thread : Thread
busy_thread = record {
  enqueued = true;
  enqueued_by_signal = false;
  which_event = 0;
  attached_events = [];
}

abbrev calm : World
calm = record { event = λ e. quiet_event; thread = λ t. busy_thread; running_queue = 7 ∷ 1 ∷ [] }

calm-IsSettled : IsSettled calm
calm-IsSettled e = inl refl

abbrev two_events : List ℕ
two_events = 3 ∷ 4 ∷ []

abbrev world_of : AwaitStart → World
world_of r = elim r [ returned o w ↦ w | waiting w ↦ w | panic ↦ calm ]

abbrev asleep : World
asleep = world_of (await_start 1 two_events true calm)

await_asleep : await_start 1 two_events true calm ≡ waiting asleep
unfolding await_start check_for_pending check_from after_check attach_listeners attach_from
    attach_one wait_on sched_dequeue_thread leave_slot left_queue
await_asleep = refl

-- Another thread has begun to listen on the event 4.
abbrev crowded : World
crowded =
    set_event 4
      (record (asleep.event 4) {
        listeners = (asleep.event 4).listeners ++ (record { thread = 2; which = 0 } ∷ []);
      })
      asleep

abbrev triggered : World
triggered = (event_trigger 4 false asleep).1

wait_and_wake : Run calm (await_end 1 triggered).1
wait_and_wake =
    next calm asleep (await_end 1 triggered).1 (step_wait 1 two_events calm asleep await_asleep) (
      next asleep triggered (await_end 1 triggered).1 (step_trigger 4 false asleep) (
        next triggered (await_end 1 triggered).1 (await_end 1 triggered).1 (step_end 1 triggered)
          (done (await_end 1 triggered).1)))

Run-IsSettled_example : IsSettled (await_end 1 triggered).1
Run-IsSettled_example = Run-IsSettled calm (await_end 1 triggered).1 wait_and_wake calm-IsSettled
