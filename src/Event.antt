-- ===== src/Event.antt =====
-- kernel/lib/event.c and kernel/lib/event.k.h: events that threads wait on. Events and threads are known
-- by their addresses. The locks are not modelled: a step runs with them held. `event_await` is two steps,
-- before and after `sched_yield`. The run queue of kernel/sched/sched.c is the list of the threads in
-- its slots, with the flag that each thread keeps of being there; which slot it has is not modelled.
pub mod Settled
pub mod Attach
pub mod Steps
pub mod Trigger
mod Examples
use os_lyre.Base.{
  ℕ, zero, suc, ◌+◌, ◌-◌, Bool, true, false, Option, none, some, List, [], ◌∷◌, ◌++◌, ltb, ◌==◌,
  if◌then◌else◌, length, get_or, set, take,
}

-- EVENT_MAX_LISTENERS
abbrev pub event_max_listeners : ℕ
event_max_listeners = 32

-- MAX_EVENTS
abbrev pub max_events : ℕ
max_events = 32

pub record Listener : Type 0 where
  pub thread : ℕ
  pub which : ℕ

-- The `listeners_i` listeners of the array are a list.
pub record Event : Type 0 where
  pub pending : ℕ
  pub listeners : List Listener

-- The part of `struct thread` that events use.
pub record Thread : Type 0 where
  pub enqueued : Bool
  pub enqueued_by_signal : Bool
  pub which_event : ℕ
  pub attached_events : List ℕ

pub record World : Type 0 where
  pub event : ℕ → Event
  pub thread : ℕ → Thread
  pub running_queue : List ℕ

-- MAX_RUNNING_THREADS
abbrev pub max_running_threads : ℕ
max_running_threads = 65536

abbrev pub put {ℓ} : {A : Type ℓ} → (ℕ → A) → ℕ → A → ℕ → A
put f a v b = if b == a then v else f b

abbrev pub set_event : ℕ → Event → World → World
set_event e v w = record w { event = put w.event e v }

abbrev pub set_thread : ℕ → Thread → World → World
set_thread t v w = record w { thread = put w.thread t v }

-- A thread takes a slot of the run queue, where one is NULL.
unfoldable pub take_slot : ℕ → World → Bool × World
take_slot t w =
    if ltb (length w.running_queue) max_running_threads
    then (
      true,
      record (set_thread t (record (w.thread t) { enqueued = true }) w) {
        running_queue = w.running_queue ++ (t ∷ []);
      },
    )
    else (false, w)

unfoldable pub sched_enqueue_thread : ℕ → Bool → World → Bool × World
unfolding take_slot
sched_enqueue_thread t by_signal w =
    if (w.thread t).enqueued
    then (true, w)
    else take_slot t (set_thread t (record (w.thread t) { enqueued_by_signal = by_signal }) w)

-- The thread in the first slot that holds it is taken out of the list; none if no slot holds it.
unfoldable pub leave_slot : ℕ → List ℕ → Option (List ℕ)
leave_slot t [] = none
leave_slot t (u ∷ us) =
    let rest = leave_slot t us in
    if u == t then some us else elim rest [ none ↦ none | some vs ↦ some (u ∷ vs) ]

unfoldable pub left_queue : ℕ → World → Option (List ℕ) → Bool × World
left_queue t w none = (false, w)
left_queue t w (some queue) = (
  true,
  record (set_thread t (record (w.thread t) { enqueued = false }) w) { running_queue = queue },
)

unfoldable pub sched_dequeue_thread : ℕ → World → Bool × World
unfolding left_queue
sched_dequeue_thread t w =
    if (w.thread t).enqueued then left_queue t w (leave_slot t w.running_queue) else (true, w)

-- The loop of `check_for_pending` from the index `i` on: none is -1.
unfoldable pub check_from : ℕ → List ℕ → World → Option ℕ × World
check_from i [] w = (none, w)
check_from i (e ∷ es) w =
    let rest = check_from (suc i) es w in
    if ltb 0 (w.event e).pending
    then (some i, set_event e (record (w.event e) { pending = (w.event e).pending - 1 }) w)
    else rest

unfoldable pub check_for_pending : List ℕ → World → Option ℕ × World
check_for_pending events w = check_from 0 events w

-- One event in the loop of `attach_listeners`; none is a panic.
unfoldable pub attach_one : ℕ → ℕ → ℕ → World → Option World
attach_one t i e w =
    let listening =
      set_event e
        (record (w.event e) {
          listeners = (w.event e).listeners ++ (record { thread = t; which = i } ∷ []);
        })
        w in
    if length (w.event e).listeners == event_max_listeners
    then none
    else (if length (w.thread t).attached_events == max_events
        then none
        else some (
            set_thread t
              (record (w.thread t) { attached_events = (w.thread t).attached_events ++ (e ∷ []) })
              listening))

unfoldable pub attach_from : ℕ → ℕ → List ℕ → World → Option World
attach_from t i [] w = some w
attach_from t i (e ∷ es) w = elim (attach_one t i e w) [
  | none ↦ none
  | some v ↦ attach_from t (suc i) es v
]

unfoldable pub attach_listeners : ℕ → List ℕ → World → Option World
attach_listeners t events w =
    attach_from t 0 events (set_thread t (record (w.thread t) { attached_events = [] }) w)

-- The first listener of a thread.
unfoldable pub find_listener : ℕ → List Listener → Option ℕ
find_listener t [] = none
find_listener t (l ∷ ls) =
    let rest = find_listener t ls in
    if l.thread == t then some 0 else elim rest [ none ↦ none | some j ↦ some (suc j) ]

abbrev pub no_listener : Listener
no_listener = record { thread = 0; which = 0 }

unfoldable pub remove_listener : Option ℕ → List Listener → List Listener
remove_listener none ls = ls
remove_listener (some j) ls =
    take (length ls - 1) (set ls j (get_or ls (length ls - 1) no_listener))

-- One event in the loop of `detach_listeners`: the last listener takes the place of the thread's.
unfoldable pub detach_one : ℕ → ℕ → World → World
detach_one t e w =
    set_event e
      (record (w.event e) {
        listeners = remove_listener (find_listener t (w.event e).listeners) (w.event e).listeners;
      })
      w

unfoldable pub detach_all : ℕ → List ℕ → World → World
detach_all t [] w = w
detach_all t (e ∷ es) w = detach_all t es (detach_one t e w)

unfoldable pub detach_listeners : ℕ → World → World
detach_listeners t w =
    let detached = detach_all t (w.thread t).attached_events w in
    set_thread t (record (detached.thread t) { attached_events = [] }) detached

-- What the first step of `event_await` does: it returns, with none for -1, or it waits, or it panics.
pub data AwaitStart : Type 0 where
  returned : Option ℕ → World → AwaitStart
  waiting : World → AwaitStart
  panic : AwaitStart

unfoldable pub wait_on : ℕ → Option World → AwaitStart
wait_on t none = panic
wait_on t (some w) = waiting (sched_dequeue_thread t w).1

unfoldable pub after_check : ℕ → List ℕ → Bool → Option ℕ × World → AwaitStart
after_check t events block (some i, w) = returned (some i) w
after_check t events block (none, w) =
    if block then wait_on t (attach_listeners t events w) else returned none w

unfoldable pub await_start : ℕ → List ℕ → Bool → World → AwaitStart
await_start t events block w = after_check t events block (check_for_pending events w)

-- The step of `event_await` after `sched_yield`.
unfoldable pub await_end : ℕ → World → Option ℕ × World
await_end t w = (
  if (w.thread t).enqueued_by_signal then none else some (w.thread t).which_event,
  detach_listeners t w,
)

-- The loop of `event_trigger` over the listeners.
unfoldable pub wake_all : List Listener → World → World
wake_all [] w = w
wake_all (l ∷ ls) w =
    wake_all ls
      (sched_enqueue_thread l.thread false
        (set_thread l.thread (record (w.thread l.thread) { which_event = l.which }) w)).1

abbrev pub clear_listeners : ℕ → World → World
clear_listeners e w = set_event e (record (w.event e) { listeners = [] }) w

unfoldable pub event_trigger : ℕ → Bool → World → ℕ × World
event_trigger e drop w =
    if length (w.event e).listeners == 0
    then (
      0,
      if drop then w else set_event e (record (w.event e) { pending = (w.event e).pending + 1 }) w,
    )
    else (length (w.event e).listeners, clear_listeners e (wake_all (w.event e).listeners w))
