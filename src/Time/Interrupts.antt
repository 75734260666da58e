-- ===== src/Time/Interrupts.antt =====
-- A timer of kernel/time/time.c over a sequence of timer interrupts, some of which do not get the lock.
use os_lyre.Base.{
  ℕ, suc, ◌+◌, ◌*◌, ◌<◌, ◌≡◌, refl, ap, sym, ◌∙◌, Bool, true, false, List, [], ◌∷◌, length, get_or,
}
use os_lyre.Time.{Clock, timer_handler}
use os_lyre.Time.Armed.{IsIn, IsValid}
use os_lyre.Time.Handler.{AreApart, count_in, armed-AreApart}
use os_lyre.Time.Countdown.{ticks, ticks_lem}
use os_lyre.Time.Spec.{nanos, IsNormal}

-- The interrupts one after the other, each with whether its handler gets the lock of the timers.
unfoldable pub interrupts : List Bool → Clock → Clock
interrupts [] s = s
interrupts (locked ∷ rest) s = interrupts rest (timer_handler locked s)

-- The number of interrupts that get the lock.
pub locked_count : List Bool → ℕ
locked_count [] = 0
locked_count (true ∷ rest) = suc (locked_count rest)
locked_count (false ∷ rest) = locked_count rest

interrupts-ticks :
    (ls : List Bool) (s : Clock) (k : ℕ)
    → AreApart s.armed
    → k < length s.armed
    → (interrupts ls s).timer (get_or s.armed k 0)
      ≡ ticks (locked_count ls) (s.timer (get_or s.armed k 0))
unfolding interrupts timer_handler ticks locked_count
interrupts-ticks [] s k d h = refl
interrupts-ticks (true ∷ ls) s k d h =
    interrupts-ticks ls (timer_handler true s) k d h
    ∙ ap (ticks (locked_count ls)) (count_in s.armed s.timer k d h)
interrupts-ticks (false ∷ ls) s k d h = interrupts-ticks ls (timer_handler false s) k d h

-- Where the indices agree with the list, an armed normal timer that has not fired fires its event, once, by
-- the time that the interrupts that get the lock, a millisecond each, add up to more than it was set to. It
-- has not fired as long as those interrupts, a millisecond and a nanosecond each, add up to less.
pub interrupts_lem :
    (ls : List Bool) (s : Clock) (u : ℕ)
    → IsValid s
    → IsIn s u
    → IsNormal (s.timer u).when
    → (s.timer u).fired ≡ false
    → (nanos (s.timer u).when < locked_count ls * 1000000
        → (((interrupts ls s).timer u).fired ≡ true)
          × (((interrupts ls s).timer u).triggered ≡ (s.timer u).triggered + 1))
      × (locked_count ls * 1000001 < nanos (s.timer u).when
          → (((interrupts ls s).timer u).fired ≡ false)
            × (((interrupts ls s).timer u).triggered ≡ (s.timer u).triggered))
interrupts_lem ls s u v (k, low, at) normal fresh =
    let e : (interrupts ls s).timer u ≡ ticks (locked_count ls) (s.timer u) =
      ap (interrupts ls s).timer (sym at)
      ∙ interrupts-ticks ls s k (armed-AreApart s v) low
      ∙ ap (λ i. ticks (locked_count ls) (s.timer i)) at in
    rw e (ticks_lem (locked_count ls) (s.timer u) normal fresh)
