-- ===== src/Time.antt =====
-- The time functions of sync.c. What `st_utime()` and `time(NULL)` return is an argument.
use state_thread.Base.{ℕ, Bool, not, if◌then◌else◌, ◌==◌, Result, ok, err, einval}
use state_thread.Vp.{Vp}

-- `st_set_utime_function`: the function in use, by its address
abbrev set_utime_function : (func old : ℕ) → Vp → Result (Unit {0}) × ℕ
set_utime_function func old vp =
    if not (vp.active_count == 0) then (err einval, old) else (ok tt, func)

-- `st_utime_last_clock`
abbrev utime_last_clock : Vp → ℕ
utime_last_clock vp = vp.last_clock

-- `st_timecache_set`; the result is whether the cache was on.
abbrev timecache_set : (on : Bool) → (now time : ℕ) → Vp → Bool × Vp
timecache_set on now time vp = (
  not (vp.curr_time == 0),
  if on then record vp { curr_time = time; last_tset = now } else record vp { curr_time = 0 },
)

-- `st_time`
abbrev cached_time : (time : ℕ) → Vp → ℕ
cached_time time vp = if not (vp.curr_time == 0) then vp.curr_time else time
