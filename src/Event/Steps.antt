-- ===== src/Event/Steps.antt =====
-- The steps of threads and triggers in kernel/lib/event.c, one after the other.
use os_lyre.Base.{
  ℕ, ◌≡◌, inl, inr, refl, ap, ◌∙◌, arith, Bool, true, Option, List, [], ◌∷◌, ◌==◌, ==_iff,
  Bool-cases, All,
}
use os_lyre.Event.{
  World, AwaitStart, returned, waiting, panic, Listener, set_thread, sched_enqueue_thread,
  sched_dequeue_thread, check_for_pending, attach_listeners, find_listener, remove_listener,
  detach_one, detach_all, detach_listeners, wait_on, after_check, await_start, await_end,
  event_trigger,
}
use mathlib.Core.Path.{subst}
use os_lyre.Event.Settled.{
  IsQuiet, IsSettled, set_event-IsSettled, same-IsSettled, dequeue-event, enqueue-event,
  check_from_lem,
}
use os_lyre.Event.Attach.{IsListed, attach_from_lem}
use os_lyre.Event.Trigger.{event_trigger_lem}

-- One step: a thread waits for some events, and goes on where it returns or sleeps, a sleeping thread
-- ends its wait, the scheduler enqueues a thread for a signal, or an event is triggered.
pub data Step : World → World → Type 0 where
  step_return :
      (t : ℕ) (es : List ℕ) (block : Bool) (r : Option ℕ) (w v : World)
      → await_start t es block w ≡ returned r v
      → Step w v
  step_wait : (t : ℕ) (es : List ℕ) (w v : World) → await_start t es true w ≡ waiting v → Step w v
  step_end : (t : ℕ) (w : World) → Step w (await_end t w).1
  step_signal : (t : ℕ) (w : World) → Step w (sched_enqueue_thread t true w).1
  step_trigger : (e : ℕ) (drop : Bool) (w : World) → Step w (event_trigger e drop w).1

pub data Run : World → World → Type 0 where
  done : (w : World) → Run w w
  next : (w v u : World) → Step w v → Run v u → Run w u

find-none : (t : ℕ) (ls : List Listener) → ls ≡ [] → remove_listener (find_listener t ls) ls ≡ []
unfolding find_listener remove_listener
find-none t ls e = rw e refl

detach_all-IsSettled :
    (t : ℕ) (es : List ℕ) (w : World) → IsSettled w → IsSettled (detach_all t es w)
unfolding detach_all detach_one
detach_all-IsSettled t [] w h = h
detach_all-IsSettled t (e ∷ es) w h =
    let ls = (w.event e).listeners in
    let quiet : IsQuiet
        (record (w.event e) { listeners = remove_listener (find_listener t ls) ls }) =
      elim (h e) [ inl p ↦ inl p | inr p ↦ inr (find-none t ls p) ] in
    detach_all-IsSettled t es (detach_one t e w) (
      set_event-IsSettled e
        (record (w.event e) { listeners = remove_listener (find_listener t ls) ls }) w quiet h)

await_end-IsSettled : (t : ℕ) (w : World) → IsSettled w → IsSettled (await_end t w).1
unfolding await_end detach_listeners
await_end-IsSettled t w h = detach_all-IsSettled t (w.thread t).attached_events w h

trigger-IsSettled :
    (e : ℕ) (drop : Bool) (w : World) → IsSettled w → IsSettled (event_trigger e drop w).1
trigger-IsSettled e drop w h d =
    let (n, l, p, wakes, others) = event_trigger_lem e drop w in
    elim (Bool-cases (d == e)) [
      | inl q ↦
          inr (ap (λ a. ((event_trigger e drop w).1.event a).listeners) ((==_iff d e).0 q) ∙ l)
      | inr q ↦ rw (others d (λ r. ground arith)) (h d)
    ]

-- What a thread that goes to sleep has seen and left.
abbrev pub IsAsleep : ℕ → List ℕ → World → Type 0
IsAsleep t es v = All (λ e. IsListed t (v.event e).listeners) es

-- The outcomes of the first step of a wait.
abbrev pub IsStarted : ℕ → List ℕ → World → AwaitStart → Type 0
IsStarted t es w (returned r v) = IsSettled v
IsStarted t es w (waiting v) = IsSettled v × All (λ e. (w.event e).pending ≡ 0) es × IsAsleep t es v
IsStarted t es w panic = Unit

block-IsStarted :
    (t : ℕ) (es : List ℕ) (w : World)
    → IsSettled w
    → All (λ e. (w.event e).pending ≡ 0) es
    → IsStarted t es w (wait_on t (attach_listeners t es w))
unfolding attach_listeners wait_on
block-IsStarted t es w h a =
    elim (attach_from_lem t 0 es (set_thread t (record (w.thread t) { attached_events = [] }) w) h
      a) [
        | inl e ↦ rw e tt
        | inr (v, e, (s, z, k), l) ↦ rw e (
          same-IsSettled (sched_dequeue_thread t v).1 v (dequeue-event t v) s,
          a,
          rw (dequeue-event t v) l,
        )
      ]

await_start-IsStarted :
    (t : ℕ) (es : List ℕ) (block : Bool) (w : World)
    → IsSettled w
    → IsStarted t es w (await_start t es block w)
unfolding await_start check_for_pending after_check
await_start-IsStarted t es block w h = elim (check_from_lem 0 es w h) [
  | inr (j, v, e, s) ↦ rw e s
  | inl (e, a) ↦
      rw e (elim (Bool-cases block) [ inl b ↦ rw b (block-IsStarted t es w h a) | inr b ↦ rw b h ])
]

Step-IsSettled : (w v : World) → Step w v → IsSettled w → IsSettled v
Step-IsSettled w v (step_return t es block r x y e) h =
    subst (IsStarted t es w) e (await_start-IsStarted t es block w h)
Step-IsSettled w v (step_wait t es x y e) h =
    (subst (IsStarted t es w) e (await_start-IsStarted t es true w h)).0
Step-IsSettled w v (step_end t x) h = await_end-IsSettled t w h
Step-IsSettled w v (step_signal t x) h =
    same-IsSettled (sched_enqueue_thread t true w).1 w (enqueue-event t true w) h
Step-IsSettled w v (step_trigger e drop x) h = trigger-IsSettled e drop w h

-- However waits, ends of waits, signals and triggers follow each other, no event is ever pending while
-- threads listen on it, if that held at the start.
pub Run-IsSettled : (w v : World) → Run w v → IsSettled w → IsSettled v
Run-IsSettled w v (done x) h = h
Run-IsSettled w v (next x u y s r) h = Run-IsSettled u v r (Step-IsSettled w u s h)
