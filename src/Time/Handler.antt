-- ===== src/Time/Handler.antt =====
-- The loop of `timer_handler` in kernel/time/time.c over the armed timers.
use os_lyre.Base.{
  ℕ, zero, suc, ◌+◌, ◌<◌, ◌≡◌, ◌≢◌, refl, ap, ◌∙◌, sym, arith, Bool, true, false, List, [], ◌∷◌,
  if◌then◌else◌, length, get_or,
}
use os_lyre.Time.{Timer, Clock, set_timer, count_down, count_down_all, timer_handler, interval}
use os_lyre.Time.Armed.{IsIn, IsValid, some_inj}
use os_lyre.Time.Spec.{nanos, IsNormal, timespec_add_lem}

count_out :
    (xs : List ℕ) (f : ℕ → Timer) (u : ℕ)
    → ((k : ℕ) → k < length xs → get_or xs k 0 ≢ u)
    → count_down_all xs f u ≡ f u
unfolding count_down_all
count_out [] f u h = refl
count_out (x ∷ xs) f u h =
    let apart : u ≢ x = λ p. h 0 (omega arith) (sym p) in
    count_out xs (set_timer x (count_down (f x)) f) u (λ k lt. h (suc k) (omega arith))
    ∙ ground (arith, apart)

zero-suc : (k : ℕ) → zero ≢ suc k
zero-suc k p = omega arith

suc_inj : (i j : ℕ) → suc i ≡ suc j → i ≡ j
suc_inj i j p = omega arith

abbrev pub AreApart : List ℕ → Type 0
AreApart xs = (j k : ℕ) → j < length xs → k < length xs → get_or xs j 0 ≡ get_or xs k 0 → j ≡ k

pub count_in :
    (xs : List ℕ) (f : ℕ → Timer) (k : ℕ)
    → AreApart xs
    → k < length xs
    → count_down_all xs f (get_or xs k 0) ≡ count_down (f (get_or xs k 0))
unfolding count_down_all
count_in [] f k d h = absurd (omega arith)
count_in (x ∷ xs) f zero d h =
    count_out xs (set_timer x (count_down (f x)) f) x
      (λ k lt p. zero-suc k (d zero (suc k) (omega arith) (omega arith) (sym p)))
    ∙ ground arith
count_in (x ∷ xs) f (suc k) d h =
    let apart : get_or xs k 0 ≢ x = λ p. zero-suc k (d zero (suc k) (omega arith) h (sym p)) in
    count_in xs (set_timer x (count_down (f x)) f) k
      (λ i j a b p. suc_inj i j (d (suc i) (suc j) (omega arith) (omega arith) p)) (omega arith)
    ∙ ap count_down (ground (arith, apart))

pub armed-AreApart : (s : Clock) → IsValid s → AreApart s.armed
armed-AreApart s v j k h l p =
    some_inj j k (sym (v.0 j h) ∙ ap (λ u. (s.timer u).index) p ∙ v.0 k l)

-- An interrupt adds a millisecond to both clocks. Where the indices agree with the list, and the handler
-- gets the lock, each armed timer counts down once and no other timer changes; without the lock none
-- changes.
pub timer_handler_lem :
    (locked : Bool) (s : Clock)
    → IsValid s
    → IsNormal s.monotonic
    → IsNormal s.realtime
    → (nanos (timer_handler locked s).monotonic ≡ nanos s.monotonic + 1000000)
      × (nanos (timer_handler locked s).realtime ≡ nanos s.realtime + 1000000)
      × ((u : ℕ)
          → IsIn s u
          → (timer_handler locked s).timer u
            ≡ (if locked then count_down (s.timer u) else s.timer u))
      × ((u : ℕ) → ¬ IsIn s u → (timer_handler locked s).timer u ≡ s.timer u)
unfolding timer_handler
timer_handler_lem true s v m r = (
  (timespec_add_lem s.monotonic interval m (omega arith)).1,
  (timespec_add_lem s.realtime interval r (omega arith)).1,
  (λ u w.
      sym (ap (count_down_all s.armed s.timer) w.2)
      ∙ count_in s.armed s.timer w.0 (armed-AreApart s v) w.1
      ∙ ap (λ k. count_down (s.timer k)) w.2),
  λ u n. count_out s.armed s.timer u (λ k h p. n (k, h, p)),
)
timer_handler_lem false s v m r = (
  (timespec_add_lem s.monotonic interval m (omega arith)).1,
  (timespec_add_lem s.realtime interval r (omega arith)).1,
  (λ u w. refl),
  λ u n. refl,
)
