-- ===== src/Event/Settled.antt =====
-- The steps of kernel/lib/event.c keep a pending event without listeners.
use os_lyre.Base.{
  ℕ, suc, ◌-◌, ◌≡◌, ◌⊎◌, inl, inr, refl, arith, Bool, false, none, some, List, [], ◌∷◌, ltb, ◌==◌,
  Bool-cases, All,
}
use os_lyre.Base.{Option-cases, ltb, length}
use os_lyre.Event.{
  leave_slot, left_queue, take_slot, max_running_threads, Event, World, set_event,
  sched_enqueue_thread, sched_dequeue_thread, check_from,
}

abbrev pub IsQuiet : Event → Type 0
IsQuiet v = (v.pending ≡ 0) ⊎ (v.listeners ≡ [])

-- No event is pending and has listeners.
abbrev pub IsSettled : World → Type 0
IsSettled w = (e : ℕ) → IsQuiet (w.event e)

pub set_event-IsSettled :
    (e : ℕ) (v : Event) (w : World) → IsQuiet v → IsSettled w → IsSettled (set_event e v w)
set_event-IsSettled e v w q h d = elim (Bool-cases (d == e)) [ inl p ↦ rw p q | inr p ↦ rw p (h d) ]

pub dequeue-event : (t : ℕ) (w : World) → (sched_dequeue_thread t w).1.event ≡ w.event
unfolding sched_dequeue_thread left_queue
dequeue-event t w = elim (Bool-cases (w.thread t).enqueued) [
  | inr p ↦ rw p refl
  | inl p ↦ elim (Option-cases (leave_slot t w.running_queue)) [
    | inl q ↦ rw (p, q, left_queue) refl
    | inr (l, q) ↦ rw (p, q, left_queue) refl
  ]
]

pub enqueue-event : (t : ℕ) (b : Bool) (w : World) → (sched_enqueue_thread t b w).1.event ≡ w.event
unfolding sched_enqueue_thread take_slot
enqueue-event t b w = elim (Bool-cases (w.thread t).enqueued) [
  | inl p ↦ rw p refl
  | inr p ↦ elim (Bool-cases (ltb (length w.running_queue) max_running_threads)) [
    | inl q ↦ rw (p, q) refl
    | inr q ↦ rw (p, q) refl
  ]
]

pub same-IsSettled : (v w : World) → v.event ≡ w.event → IsSettled w → IsSettled v
same-IsSettled v w p h e = rw p (h e)

less : (v : Event) → IsQuiet v → IsQuiet (record v { pending = v.pending - 1 })
less v q = elim q [ inl p ↦ inl (omega (arith, p)) | inr p ↦ inr p ]

not_pos : (n : ℕ) → ltb 0 n ≡ false → n ≡ 0
not_pos n h = ground arith

-- Either nothing is pending and nothing changes, or the first pending event is taken.
pub check_from_lem :
    (i : ℕ) (es : List ℕ) (w : World)
    → IsSettled w
    → ((check_from i es w ≡ (none, w)) × All (λ e. (w.event e).pending ≡ 0) es)
      ⊎ ((j : ℕ) × (v : World) × (check_from i es w ≡ (some j, v)) × IsSettled v)
unfolding check_from
check_from_lem i [] w h = inl (refl, tt)
check_from_lem i (e ∷ es) w h = elim (Bool-cases (ltb 0 (w.event e).pending)) [
  | inl p ↦ inr (
    i,
    set_event e (record (w.event e) { pending = (w.event e).pending - 1 }) w,
    rw p refl,
    set_event-IsSettled e (record (w.event e) { pending = (w.event e).pending - 1 }) w
        (less (w.event e) (h e)) h,
  )
  | inr p ↦ elim (check_from_lem (suc i) es w h) [
    | inl (q, a) ↦ inl (rw p q, (not_pos (w.event e).pending p, a))
    | inr (j, v, q, s) ↦ inr (j, v, rw p q, s)
  ]
]
