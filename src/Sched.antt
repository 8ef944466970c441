-- ===== src/Sched.antt =====
-- sched.c: the clock, interrupts, the life of a thread and the idle thread. A function that blocks is
-- in two parts, as in Sync. The time comes from the system and is an argument.
pub mod Errors
pub mod Rung
pub mod Clock
pub mod Life
pub mod Join
pub mod Handover
pub mod Idle
use state_thread.Base.{
  ℕ, zero, suc, ◌+◌, ◌-◌, ◌*◌, ◌%◌, Bool, true, false, ◌&&◌, ◌||◌, not, Option, none, some, List,
  [], ◌∷◌, ◌++◌, if◌then◌else◌, ◌==◌, ltb, update, null, ◌>>=◌, remove, Result, ok, err, eintr,
  einval, ebusy, edeadlk, eperm, etime,
}
use state_thread.Key.{thread_cleanup, keys_max, KeyTable}
use state_thread.Stk.{Stack, StackPool, Memory, stack_free, stack_new, round_stack_size}
use state_thread.SleepQ.{Tree, leaf, node, SleepQ}
use state_thread.Vp.{
  State, Thread, Mutex, Vp, running, runnable, zombie, is_zombie, is_ready, is_cond_wait, Context,
  in_main, in_idle, in_usleep, in_cond, in_lock, in_join, in_exit, me, no_timeout, utime_mod,
  set_thread, set_state, set_interrupt, set_timedout, set_context, make_runnable, wake, Entered,
  returns, blocks, switch_context, unless_interrupted, add_timeout, vp_add_sleep_q, vp_del_sleep_q,
  add_zombieq, del_zombieq, add_runq, del_runq,
}
use state_thread.Sync.{cond_signal, cond_timedwait_in, cond_wait_resume, cond_new, is_empty}

-- A round of the loop of `_st_vp_check_clock`, at the root of the timeout heap: a thread that is due
-- goes to the run queue. `next` is the rest of the loop.
pub expire_root : (next : Vp → Option Vp) → ℕ → Vp → Tree → Option Vp
expire_root next now vp leaf = some vp
expire_root next now vp (node t _ _) =
    if ltb now (vp.sleepq.due t)
    then some vp
    else (vp_del_sleep_q t vp >>= λ vp'. next (
        make_runnable t
          (if is_cond_wait (vp.threads t).state then set_timedout t true vp' else vp')))

-- The loop, on fuel.
pub expire : ℕ → ℕ → Vp → Option Vp
unfolding expire_root
expire zero now vp = none
expire (suc fuel) now vp = expire_root (expire fuel now) now vp vp.sleepq.sleep_q

-- `_st_vp_check_clock`; `now` is `st_utime()` and `time` is `time(NULL)`.
pub vp_check_clock : (now time : ℕ) → Vp → Option Vp
unfolding expire
vp_check_clock now time vp =
    let stale =
      not (vp.curr_time == 0) && ltb 999000 ((now + utime_mod - vp.last_tset) % utime_mod) in
    expire (vp.sleepq.sleepq_size + 1) now (record vp {
      last_clock = now;
      curr_time = if stale then time else vp.curr_time;
      last_tset = if stale then now else vp.last_tset;
    })

-- `st_thread_interrupt`
pub thread_interrupt : ℕ → Vp → Option Vp
thread_interrupt t vp =
    if is_zombie (vp.threads t).state
    then some vp
    else (let vp' = set_interrupt t true vp in
        if is_ready (vp.threads t).state then some vp' else wake t vp')

-- `_st_thread_cleanup(thread)`, key.c, on the current thread
pub cleanup : Vp → Vp
cleanup vp =
    let (calls, data_of) = thread_cleanup vp.keys (me vp).private_data in
    record (set_thread vp.current (record (me vp) { private_data = data_of }) vp) {
      destroyed = vp.destroyed ++ calls;
    }

-- The end of `st_thread_exit`: the stack goes to the free list, and the thread runs no more.
pub exit_last : Vp → Vp
exit_last vp =
    switch_context in_exit
      (if (me vp).primordial then vp else record vp { pool = stack_free (me vp).stack vp.pool })

-- `st_thread_exit` behind the decrement of the count of active threads, up to the first
-- `_ST_SWITCH_CONTEXT`, whichever that is
pub end_thread : Vp → Option Vp
unfolding exit_last
end_thread vp =
    if (me vp).term == null
    then some (exit_last vp)
    else (cond_signal (me vp).term (add_zombieq vp.current (set_state vp.current zombie vp))
        >>= λ woken. some (switch_context in_exit woken))

-- `st_thread_exit` up to there
pub thread_exit : ℕ → Vp → Option Vp
unfolding cleanup end_thread
thread_exit retval vp =
    let clean = cleanup (set_thread vp.current (record (me vp) { retval = retval }) vp) in
    end_thread (record clean { active_count = clean.active_count - 1 })

-- `st_thread_exit` from there on: the thread was joined.
pub thread_exit_resume : Vp → Vp
unfolding exit_last
thread_exit_resume vp = exit_last (set_thread vp.current (record (me vp) { term = null }) vp)

-- `st_thread_join` behind its loop
pub joined : ℕ → Vp → Entered (Result ℕ) × Vp
joined t vp =
    (returns (ok (vp.threads t).retval), add_runq t (del_zombieq t (set_state t runnable vp)))

abbrev pub as_join : Entered (Result (Unit {0})) × Vp → Entered (Result ℕ) × Vp
as_join (returns (ok _), vp) = (blocks, vp)
as_join (returns (err e), vp) = (returns (err e), vp)
as_join (blocks, vp) = (blocks, vp)

-- The loop `while (thread->state != _ST_ST_ZOMBIE)`, up to the wait in it
pub join_round : (thread term : ℕ) → Vp → Option (Entered (Result ℕ) × Vp)
unfolding joined
join_round t term vp =
    if is_zombie (vp.threads t).state
    then some (joined t vp)
    else (cond_timedwait_in (in_join t term) term no_timeout vp >>= λ r. some (as_join r))

-- `st_thread_join`
pub thread_join : ℕ → Vp → Option (Entered (Result ℕ) × Vp)
unfolding join_round
thread_join t vp =
    let term = (vp.threads t).term in
    if term == null
    then some (returns (err einval), vp)
    else if vp.current == t
    then some (returns (err edeadlk), vp)
    else if not (is_empty (vp.conds term))
    then some (returns (err einval), vp)
    else join_round t term vp

abbrev pub after_wait :
    (ℕ → ℕ → Vp → Option (Entered (Result ℕ) × Vp))
    → ℕ
    → ℕ
    → Result (Unit {0}) × Vp
    → Option (Entered (Result ℕ) × Vp)
after_wait again t term (ok _, vp) = again t term vp
after_wait again t term (err e, vp) = some (returns (err e), vp)

pub thread_join_resume : (thread term : ℕ) → Vp → Option (Entered (Result ℕ) × Vp)
unfolding join_round
thread_join_resume t term vp = after_wait join_round t term (cond_wait_resume term vp)

-- A round of `_st_idle_thread_start`; `dispatch` is that of the event system. The idle thread
-- returns when the program is to exit.
pub idle_round : (dispatch : Vp → Option Vp) (now time : ℕ) → Vp → Option (Entered (Unit {0}) × Vp)
idle_round dispatch now time vp = if vp.active_count == 0 then some (returns tt, vp) else do
  woken ← dispatch vp
  vp' ← vp_check_clock now time woken
  some (blocks, switch_context in_idle (set_state vp'.current runnable vp'))
