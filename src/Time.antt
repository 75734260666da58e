-- ===== src/Time.antt =====
-- kernel/time/time.c and time.k.h: the clocks, and the timers that count down to an event. A timer is
-- known by its address; a `struct timespec` holds natural numbers, as every time that the kernel makes
-- does. `timers_lock` is not modelled: a call runs with it held.
pub mod Spec
pub mod Countdown
pub mod Interrupts
pub mod Armed
pub mod Arming
pub mod Handler
mod Examples
use os_lyre.Base.{
  ℕ, zero, suc, ◌+◌, ◌-◌, ◌*◌, ◌/◌, Bool, true, false, not, ◌&&◌, Option, none, some, List, [], ◌∷◌,
  ◌++◌, ltb, ◌==◌, if◌then◌else◌, length, get_or, set, take,
}

pub record Timespec : Type 0 where
  pub tv_sec : ℕ
  pub tv_nsec : ℕ

-- TIMER_FREQ
abbrev pub timer_freq : ℕ
timer_freq = 1000

unfoldable pub timespec_add : Timespec → Timespec → Timespec
timespec_add a b =
    if ltb 999999999 (a.tv_nsec + b.tv_nsec)
    then record { tv_sec = a.tv_sec + 1 + b.tv_sec; tv_nsec = a.tv_nsec + b.tv_nsec - 1000000000 }
    else record { tv_sec = a.tv_sec + b.tv_sec; tv_nsec = a.tv_nsec + b.tv_nsec }

abbrev pub zero_time : Timespec
zero_time = record { tv_sec = 0; tv_nsec = 0 }

-- The second half of `timespec_sub`, on the seconds.
unfoldable pub sub_seconds : Timespec → Timespec → Timespec
sub_seconds a b =
    if ltb a.tv_sec b.tv_sec then zero_time else record a { tv_sec = a.tv_sec - b.tv_sec }

unfoldable pub timespec_sub : Timespec → Timespec → Timespec
unfolding sub_seconds
timespec_sub a b =
    if ltb a.tv_nsec b.tv_nsec
    then (if a.tv_sec == 0
        then zero_time
        else sub_seconds
            (record { tv_sec = a.tv_sec - 1; tv_nsec = 999999999 - (b.tv_nsec - a.tv_nsec) }) b)
    else sub_seconds (record a { tv_nsec = a.tv_nsec - b.tv_nsec }) b

-- `struct timer`: `index` is none for -1, and `triggered` counts the calls of event_trigger on its
-- event.
pub record Timer : Type 0 where
  pub index : Option ℕ
  pub fired : Bool
  pub when : Timespec
  pub triggered : ℕ

-- The clocks, the timers by address, and `armed_timers`.
pub record Clock : Type 0 where
  pub monotonic : Timespec
  pub realtime : Timespec
  pub timer : ℕ → Timer
  pub armed : List ℕ

abbrev pub set_timer : ℕ → Timer → (ℕ → Timer) → ℕ → Timer
set_timer t v f j = if j == t then v else f j

unfoldable pub timer_arm : ℕ → Clock → Clock
timer_arm t s = record s {
  timer = set_timer t (record (s.timer t) { index = some (length s.armed); fired = false }) s.timer;
  armed = s.armed ++ (t ∷ []);
}

-- A new timer at the address `t` that the allocator returned; the allocation succeeds.
unfoldable pub timer_new : ℕ → Timespec → Clock → Clock
unfolding timer_arm
timer_new t when s = timer_arm t (record s {
  timer = set_timer t (record { index = none; fired = false; when = when; triggered = 0 }) s.timer;
})

-- The removal of the timer at `index`: the last one takes its place.
unfoldable pub remove_at : ℕ → ℕ → Clock → Clock
remove_at t index s =
    let last = get_or s.armed (length s.armed - 1) 0 in
    let moved = set_timer last (record (s.timer last) { index = some index }) s.timer in
    record s {
      timer = set_timer t (record (moved t) { index = none }) moved;
      armed = take (length s.armed - 1) (set s.armed index last);
    }

unfoldable pub disarm_index : ℕ → Option ℕ → Clock → Clock
disarm_index t none s = s
disarm_index t (some index) s = if ltb index (length s.armed) then remove_at t index s else s

unfoldable pub timer_disarm : ℕ → Clock → Clock
unfolding disarm_index remove_at
timer_disarm t s = disarm_index t (s.timer t).index s

abbrev pub interval : Timespec
interval = record { tv_sec = 0; tv_nsec = 1000000000 / timer_freq }

-- A timer with `when` left, which fires at zero.
unfoldable pub count_to : Timer → Timespec → Timer
count_to t when =
    if when.tv_sec == 0 && when.tv_nsec == 0
    then record t { when = when; triggered = t.triggered + 1; fired = true }
    else record t { when = when }

-- One timer in the loop of `timer_handler`.
unfoldable pub count_down : Timer → Timer
count_down t = if t.fired then t else count_to t (timespec_sub t.when interval)

pub count_down_all : List ℕ → (ℕ → Timer) → ℕ → Timer
count_down_all [] f = f
count_down_all (t ∷ ts) f = count_down_all ts (set_timer t (count_down (f t)) f)

-- `locked` tells whether the handler got the lock of the timers.
unfoldable pub timer_handler : Bool → Clock → Clock
timer_handler locked s = record s {
  monotonic = timespec_add s.monotonic interval;
  realtime = timespec_add s.realtime interval;
  timer = if locked then count_down_all s.armed s.timer else s.timer;
}

-- The duration that `time_nsleep` gives its timer.
unfoldable pub nsleep_duration : ℕ → Timespec
nsleep_duration ns = record { tv_sec = ns / 1000000000; tv_nsec = ns }

-- How a sleep goes on: at once with 0, with EINVAL, or by waiting on a timer.
pub data SleepStart : Type 0 where
  no_sleep invalid start_timer : SleepStart

unfoldable pub sleep_start : Timespec → SleepStart
sleep_start d =
    if d.tv_sec == 0 && d.tv_nsec == 0
    then no_sleep
    else (if ltb 1000000000 d.tv_nsec then invalid else start_timer)

-- The end of the wait in `syscall_sleep`: whether it succeeds, what it writes to `remaining`, where that
-- is not NULL, and the state with the timer disarmed.
unfoldable pub sleep_end : ℕ → Bool → Clock → Bool × Option Timespec × Clock
sleep_end t interrupted s =
    (not interrupted, if interrupted then some (s.timer t).when else none, timer_disarm t s)

-- The clocks that `syscall_getclock` names, and any other number.
pub data ClockId : Type 0 where
  clock_realtime clock_realtime_coarse clock_boottime clock_monotonic : ClockId
  clock_monotonic_raw clock_monotonic_coarse clock_process_cputime_id : ClockId
  clock_thread_cputime_id other_clock : ClockId

-- What it writes to `out`; none is EINVAL.
unfoldable pub syscall_getclock : ClockId → Clock → Option Timespec
syscall_getclock clock_realtime s = some s.realtime
syscall_getclock clock_realtime_coarse s = some s.realtime
syscall_getclock clock_boottime s = some s.monotonic
syscall_getclock clock_monotonic s = some s.monotonic
syscall_getclock clock_monotonic_raw s = some s.monotonic
syscall_getclock clock_monotonic_coarse s = some s.monotonic
syscall_getclock clock_process_cputime_id s = some zero_time
syscall_getclock clock_thread_cputime_id s = some zero_time
syscall_getclock other_clock s = none

-- `boot_time` is the bootloader's answer; the start of the interval timer is not modelled.
unfoldable pub time_init : ℕ → Clock → Clock
time_init boot_time s = record s { realtime = record s.realtime { tv_sec = boot_time } }
