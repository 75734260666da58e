-- ===== src/Time/Countdown.antt =====
-- How long a timer of kernel/time/time.c counts down.
use os_lyre.Base.{
  ℕ, zero, suc, ◌+◌, ◌-◌, ◌*◌, ◌≤◌, ◌<◌, ◌≡◌, refl, ap, ◌∙◌, ==_iff, arith, true, false, ◌==◌,
  Bool-cases, inl, inr,
}
use os_lyre.Time.{Timespec, Timer, timespec_sub, interval, count_to, count_down}
use os_lyre.Time.Spec.{nanos, IsNormal, timespec_sub_lem, borrow}

-- the timer after so many interrupts
unfoldable pub ticks : ℕ → Timer → Timer
ticks zero t = t
ticks (suc n) t = ticks n (count_down t)

count_down_fired : (t : Timer) → t.fired ≡ true → count_down t ≡ t
unfolding count_down
count_down_fired t h = ground arith

ticks_fired : (n : ℕ) (t : Timer) → t.fired ≡ true → ticks n t ≡ t
unfolding ticks
ticks_fired zero t h = refl
ticks_fired (suc n) t h = rw (count_down_fired t h) (ticks_fired n t h)

borrow-le : (a b : Timespec) → borrow a b ≤ 1
borrow-le a b = ground arith

open_when :
    (t : Timer) (w : Timespec)
    → timespec_sub t.when interval ≡ w
    → t.fired ≡ false
    → ((count_down t).when ≡ w)
      × (nanos w ≡ 0 → ((count_down t).fired ≡ true) × ((count_down t).triggered ≡ t.triggered + 1))
      × (0 < nanos w → ((count_down t).fired ≡ false) × ((count_down t).triggered ≡ t.triggered))
unfolding count_down count_to
open_when t w e f =
    rw (f, e, count_down)
      (ground arith, (λ z. (ground arith, ground arith)), λ p. (ground arith, ground arith))

-- One interrupt: the timer keeps the difference, and fires if it is zero.
count_down_lem :
    (t : Timer)
    → t.fired ≡ false
    → ((count_down t).when ≡ timespec_sub t.when interval)
      × (nanos (timespec_sub t.when interval) ≡ 0
          → ((count_down t).fired ≡ true) × ((count_down t).triggered ≡ t.triggered + 1))
      × (0 < nanos (timespec_sub t.when interval)
          → ((count_down t).fired ≡ false) × ((count_down t).triggered ≡ t.triggered))
count_down_lem t f = open_when t (timespec_sub t.when interval) refl f

positive : (n : ℕ) → (n == 0) ≡ false → 0 < n
positive n h = ground arith

late : (n w d b : ℕ) → d ≡ w - 1000000 - b → b ≤ 1 → 0 < d → suc n * 1000001 < w → n * 1000001 < d
late n w d b e h z l = omega arith

soon : (n w d b : ℕ) → d ≡ w - 1000000 - b → 0 < d → w < suc n * 1000000 → d < n * 1000000
soon n w d b e z l = omega arith

early : (n w d b : ℕ) → d ≡ w - 1000000 - b → b ≤ 1 → d ≡ 0 → ¬ (suc n * 1000001 < w)
early n w d b e h z l = omega arith

-- A normal timer that has not fired fires its event, once, by the time that `n` interrupts of a
-- millisecond add up to more than it was set to; it has not fired as long as `n` interrupts of a
-- millisecond and a nanosecond are less.
pub ticks_lem :
    (n : ℕ) (t : Timer)
    → IsNormal t.when
    → t.fired ≡ false
    → (nanos t.when < n * 1000000
        → ((ticks n t).fired ≡ true) × ((ticks n t).triggered ≡ t.triggered + 1))
      × (n * 1000001 < nanos t.when
          → ((ticks n t).fired ≡ false) × ((ticks n t).triggered ≡ t.triggered))
unfolding ticks
ticks_lem zero t h f = ((λ l. absurd (omega arith)), λ l. (f, refl))
ticks_lem (suc n) t h f =
    let d = timespec_sub t.when interval in
    let sub_ = timespec_sub_lem t.when interval h (omega arith) in
    let one = count_down_lem t f in
    let normal : IsNormal (count_down t).when = rw one.0 sub_.0 in
    let same : nanos (count_down t).when ≡ nanos d = ap nanos one.0 in
    elim (Bool-cases (nanos d == 0)) [
      | inl z ↦
          let fires = one.1 ((==_iff _ _).0 z) in
          (
            (λ l. rw (ticks_fired n (count_down t) fires.0) fires),
            λ l. absurd (
                early n (nanos t.when) (nanos d) (borrow t.when interval) sub_.1
                  (borrow-le t.when interval) ((==_iff _ _).0 z) l),
          )
      | inr p ↦
          let more = positive (nanos d) p in
          let waits = one.2 more in
          let rest = ticks_lem n (count_down t) normal waits.0 in
          (
            (λ l.
                let r = rest.0 (
                  rw same
                    (soon n (nanos t.when) (nanos d) (borrow t.when interval) sub_.1 more l)) in
                (r.0, r.1 ∙ ap (λ k. k + 1) waits.1)),
            λ l.
                let r = rest.1 (
                  rw same (
                    late n (nanos t.when) (nanos d) (borrow t.when interval) sub_.1
                      (borrow-le t.when interval) more l)) in
                (r.0, r.1 ∙ waits.1),
          )
    ]
