-- ===== src/Event/Trigger.antt =====
-- `event_trigger` of kernel/lib/event.c: whom it wakes.
use os_lyre.Base.{
  ℕ, ◌+◌, ◌≡◌, ◌≢◌, ◌⊎◌, inl, inr, refl, ap, ◌∙◌, sym, arith, Bool, true, false, List, [], ◌∷◌,
  ◌==◌, ◌&&◌, not, ==_iff, Bool-cases, if◌then◌else◌, length,
}
use os_lyre.Base.{ltb, ◌<◌, ◌≤◌, ◌++◌}
use os_lyre.Event.{
  take_slot, max_running_threads, World, Listener, put, set_thread, sched_enqueue_thread, wake_all,
  event_trigger,
}
use os_lyre.Event.Settled.{enqueue-event}
use os_lyre.Event.Attach.{IsListed}

pub put_self : {A : Type 0} (f : ℕ → A) (a : ℕ) (v : A) → put f a v a ≡ v
put_self f a v = ground arith

put_ne : {A : Type 0} (f : ℕ → A) (a b : ℕ) (v : A) → (b == a) ≡ false → put f a v b ≡ f b
put_ne f a b v e = rw e refl

-- the world in which the listener's thread is woken
abbrev woken : Listener → World → World
woken l w =
    (sched_enqueue_thread l.thread false
      (set_thread l.thread (record (w.thread l.thread) { which_event = l.which }) w)).1

longer : (us : List ℕ) (t : ℕ) → length (us ++ (t ∷ [])) ≤ length us + 1
longer [] t = omega arith
longer (u ∷ us) t = omega (arith, longer us t)

-- What enqueuing a thread does to the flags and the queue.
enqueue_lem :
    (t : ℕ) (b : Bool) (w : World)
    → (length w.running_queue < max_running_threads
        → ((sched_enqueue_thread t b w).1.thread t).enqueued ≡ true)
      × ((u : ℕ)
          → (w.thread u).enqueued ≡ true
          → ((sched_enqueue_thread t b w).1.thread u).enqueued ≡ true)
      × (length (sched_enqueue_thread t b w).1.running_queue ≤ length w.running_queue + 1)
unfolding sched_enqueue_thread take_slot
enqueue_lem t b w = elim (Bool-cases (w.thread t).enqueued) [
  | inl p ↦ rw p ((λ r. p), (λ u h. h), omega arith)
  | inr p ↦ elim (Bool-cases (ltb (length w.running_queue) max_running_threads)) [
    | inl q ↦
        rw (p, q)
          (
            (λ r. ground arith),
            (λ u h. elim (Bool-cases (u == t)) [ inl e ↦ rw e refl | inr e ↦ rw e h ]),
            longer w.running_queue t,
          )
    | inr q ↦
        rw (p, q)
          (
            (λ r. absurd (ground arith)),
            (λ u h. elim (Bool-cases (u == t)) [
              | inl e ↦ absurd (cc (ap (λ k. (w.thread k).enqueued) ((==_iff u t).0 e)))
              | inr e ↦ rw e h
            ]),
            omega arith,
          )
  ]
]

woken-keeps :
    (l : Listener) (u : ℕ) (w : World)
    → (w.thread u).enqueued ≡ true
    → ((woken l w).thread u).enqueued ≡ true
woken-keeps l u w h = (enqueue_lem l.thread false _).1 u (elim (Bool-cases (u == l.thread)) [
  | inl q ↦ rw (q, sym ((==_iff u l.thread).0 q)) h
  | inr q ↦ rw q h
])

pub wake_all-event : (ls : List Listener) (w : World) → (wake_all ls w).event ≡ w.event
unfolding wake_all
wake_all-event [] w = refl
wake_all-event (l ∷ ls) w = wake_all-event ls (woken l w) ∙ enqueue-event l.thread false _

wake_all-keeps :
    (ls : List Listener) (u : ℕ) (w : World)
    → (w.thread u).enqueued ≡ true
    → ((wake_all ls w).thread u).enqueued ≡ true
unfolding wake_all
wake_all-keeps [] u w h = h
wake_all-keeps (l ∷ ls) u w h = wake_all-keeps ls u (woken l w) (woken-keeps l u w h)

woken-queue :
    (l : Listener) (w : World) → length (woken l w).running_queue ≤ length w.running_queue + 1
woken-queue l w =
    (enqueue_lem l.thread false
      (set_thread l.thread (record (w.thread l.thread) { which_event = l.which }) w)).2

wake_all-wakes :
    (ls : List Listener) (u : ℕ) (w : World)
    → IsListed u ls
    → length w.running_queue + length ls ≤ max_running_threads
    → ((wake_all ls w).thread u).enqueued ≡ true
unfolding wake_all
wake_all-wakes [] u w h r = elim h [ ]
wake_all-wakes (l ∷ ls) u w h r = elim h [
  | inl e ↦
      wake_all-keeps ls u (woken l w)
        (rw (sym e) ((enqueue_lem l.thread false _).0 (omega (arith, r))))
  | inr m ↦ wake_all-wakes ls u (woken l w) m (omega (arith, r, woken-queue l w))
]

==_ne : (d e : ℕ) → d ≢ e → (d == e) ≡ false
==_ne d e n = ground arith

list_cases : (ls : List Listener) → (ls ≡ []) ⊎ ((ls ≢ []) × ((length ls == 0) ≡ false))
list_cases [] = inl refl
list_cases (l ∷ ls) = inr ((λ e. grind arith), ground arith)

-- What a trigger of `e` makes of the world `w`: a count and a world.
abbrev pub IsTriggered : ℕ → Bool → World → ℕ × World → Type 0
IsTriggered e drop w r =
    (r.0 ≡ length (w.event e).listeners)
    × ((r.1.event e).listeners ≡ [])
    × ((r.1.event e).pending ≡ (
        if length (w.event e).listeners == 0 && not drop
        then (w.event e).pending + 1
        else (w.event e).pending))
    × ((t : ℕ)
        → IsListed t (w.event e).listeners
        → length w.running_queue + length (w.event e).listeners ≤ max_running_threads
        → (r.1.thread t).enqueued ≡ true)
    × ((d : ℕ) → d ≢ e → r.1.event d ≡ w.event d)

none-IsListed : (t : ℕ) (ls : List Listener) → ls ≡ [] → ¬ IsListed t ls
none-IsListed t [] e h = h
none-IsListed t (l ∷ ls) e h = grind arith

quiet_trigger :
    (e : ℕ) (drop : Bool) (w : World)
    → (w.event e).listeners ≡ []
    → IsTriggered e drop w (event_trigger e drop w)
unfolding event_trigger
quiet_trigger e true w p = rw (ap (λ l. length l == 0) p) (
  sym (ap length p),
  p,
  refl,
  (λ t h room. absurd (none-IsListed t (w.event e).listeners p h)),
  λ d n. refl,
)
quiet_trigger e false w p =
    let own = put_self w.event e (record (w.event e) { pending = (w.event e).pending + 1 }) in
    rw (ap (λ l. length l == 0) p) (
      sym (ap length p),
      ap (λ x. x.listeners) own ∙ p,
      ap (λ x. x.pending) own,
      (λ t h room. absurd (none-IsListed t (w.event e).listeners p h)),
      λ d n. put_ne w.event e d _ (==_ne d e n),
    )

-- A trigger returns the number of listeners, wakes each of them, where the run queue has slots for all, and takes them off the event, which keeps
-- what it has pending; without listeners it adds one to that, unless it may drop, and wakes nobody. No
-- other event changes.
pub event_trigger_lem :
    (e : ℕ) (drop : Bool) (w : World) → IsTriggered e drop w (event_trigger e drop w)
unfolding event_trigger
event_trigger_lem e drop w = elim (list_cases (w.event e).listeners) [
  | inl p ↦ quiet_trigger e drop w p
  | inr (p, q) ↦
      let v = wake_all (w.event e).listeners w in
      let own = put_self v.event e (record (v.event e) { listeners = [] }) in
      let same = wake_all-event (w.event e).listeners w in
      rw q (
        refl,
        ap (λ x. x.listeners) own,
        ap (λ x. x.pending) own ∙ ap (λ f. (f e).pending) same,
        (λ t h room. wake_all-wakes (w.event e).listeners t w h room),
        λ d n. put_ne v.event e d _ (==_ne d e n) ∙ ap (λ f. f d) same,
      )
]
