-- ===== src/Sched/Life.antt =====
-- Interrupting and ending threads, sched.c.
use state_thread.Base.{
  ℕ, ◌≡◌, refl, Bool, true, false, [], ◌∷◌, ◌⊎◌, if◌then◌else◌, ◌==◌, Returns, arith, Bool-cases,
  occurs, subst, sym, inl, inr, null, occurs-append,
}
use state_thread.SleepQ.{SleepQ}
use state_thread.Stk.{stack_free}
use state_thread.Vp.{
  Vp, Thread, zombie, set_state, set_thread, set_interrupt, is_zombie, is_ready, me, in_exit,
  switch_context, add_zombieq,
}
use state_thread.Vp.Invariant.{IsVp, IsWaiting, woken, wake_lem}
use state_thread.Vp.Switch.{Runs, Calls, Stands, switch_context-Runs}
use state_thread.Vp.Timeouts.{no_timeout_yet}
use state_thread.Vp.Calls.{Frame, Frame-refl, Calls-same, off_same, set_interrupt-Runs}
use state_thread.Sync.Waits.{cond_signal_lem, Signalled-Frame}
use state_thread.Sched.{
  thread_interrupt, cleanup, exit_last, end_thread, thread_exit, thread_exit_resume,
}

-- What an interrupt does: nothing to a dead thread; to one that can run, the flag; one that waits is
-- runnable again besides.
abbrev pub Interrupted : ℕ → Vp → Vp → Type 0
Interrupted t vp vp' =
    ((is_zombie (vp.threads t).state ≡ true) × (vp' ≡ vp))
    ⊎ ((is_ready (vp.threads t).state ≡ true) × (vp' ≡ set_interrupt t true vp))
    ⊎ (IsWaiting t vp × (q : SleepQ) × (vp' ≡ woken t q (set_interrupt t true vp)))

-- An interrupt leaves a dead thread as it is, marks one that can run, and marks one that waits
-- and makes it runnable without timeout; the invariant is kept.
pub thread_interrupt-Interrupted :
    (t : ℕ) (vp : Vp)
    → Runs vp
    → Returns (λ vp'. Interrupted t vp vp' × Runs vp') (thread_interrupt t vp)
unfolding thread_interrupt
thread_interrupt-Interrupted t vp runs = elim (Bool-cases (is_zombie (vp.threads t).state)) [
  | inl dead ↦ rw dead (record { value = vp; returned = refl; holds = (inl (refl, refl), runs) })
  | inr alive ↦ elim (Bool-cases (is_ready (vp.threads t).state)) [
    | inl ready ↦
        rw (alive, ready)
          (record {
            value = set_interrupt t true vp;
            returned = refl;
            holds = (inr (inl (refl, refl)), set_interrupt-Runs t true vp runs);
          })
    | inr waits ↦
        let flagged = set_interrupt-Runs t true vp runs in
        let waiting : IsWaiting t (set_interrupt t true vp) = record {
          not_ready = ground (arith, waits);
          not_zombie = ground (arith, alive);
        } in
        let (q, e, v) = wake_lem t (set_interrupt t true vp) flagged.valid waiting in
        rw (alive, waits)
          (record {
            value = woken t q (set_interrupt t true vp);
            returned = e;
            holds = (
              inr (inr (record { not_ready = waits; not_zombie = alive }, q, refl)),
              record { valid = v; current_runs = ground (arith, runs.current_runs, waits) },
            );
          })
  ]
]

pub Interrupted-Frame : (t : ℕ) (vp vp' : Vp) → Interrupted t vp vp' → Frame vp vp'
Interrupted-Frame t vp vp' (inl (_, e)) = subst (Frame vp) (sym e) (Frame-refl vp)
Interrupted-Frame t vp vp' (inr (inl (_, e))) =
    subst (Frame vp) (sym e) (record { current = refl; idle = refl; io = refl })
Interrupted-Frame t vp vp' (inr (inr (_, q, e))) =
    subst (Frame vp) (sym e) (record { current = refl; idle = refl; io = refl })

-- A change of a thread that leaves its state, its timeout and its context alone.
pub set_thread-Runs :
    (t : ℕ) (th : Thread) (vp : Vp)
    → th.state ≡ (vp.threads t).state
    → th.on_sleepq ≡ (vp.threads t).on_sleepq
    → th.context ≡ (vp.threads t).context
    → Runs vp
    → Runs (set_thread t th vp)
set_thread-Runs t th vp same sleeps context runs = record {
  valid = record {
    heap = runs.valid.heap;
    timed = λ i. ground (arith, runs.valid.timed i, sleeps);
    waits = λ i h. ground (arith, runs.valid.waits i, same, sleeps);
    ready = λ i. ground (arith, runs.valid.ready i, same);
    dead = λ i. ground (arith, runs.valid.dead i, same);
    idles = ground (arith, runs.valid.idles, same);
    serves = runs.valid.serves;
    queued = runs.valid.queued;
    polls = λ i h. ground (arith, runs.valid.polls i h, same, context);
  };
  current_runs = ground (arith, runs.current_runs, same);
}

exit_last-Stands :
    (vp : Vp) → IsVp vp → occurs vp.current vp.io.io_q ≡ 0 → Stands true (exit_last vp)
unfolding exit_last
exit_last-Stands vp v off =
    switch_context-Runs in_exit _ (keeps (me vp).primordial) (stays (me vp).primordial)
  where
    keeps :
        (b : Bool) → IsVp (if b then vp else record vp { pool = stack_free (me vp).stack vp.pool })
    keeps true = v
    keeps false = v

    stays :
        (b : Bool)
        → let vp' = if b then vp else record vp { pool = stack_free (me vp).stack vp.pool } in
          occurs vp'.current vp'.io.io_q ≡ 0
    stays true = off
    stays false = off

pub zombie-IsVp :
    (vp : Vp) → Runs vp → Calls vp → IsVp (add_zombieq vp.current (set_state vp.current zombie vp))
zombie-IsVp vp runs calls = record {
  heap = runs.valid.heap;
  timed = λ i. ground (arith, runs.valid.timed i);
  waits = λ i h. ground (arith, runs.valid.waits i, no_timeout_yet vp runs calls);
  ready = λ i. ground (arith, runs.valid.ready i, runs.current_runs);
  dead = λ i.
      ground (
        arith,
        runs.valid.dead i,
        runs.current_runs,
        occurs-append i vp.zombie_q (vp.current ∷ []),
      );
  idles = ground (arith, runs.valid.idles, calls.other);
  serves = runs.valid.serves;
  queued = runs.valid.queued;
  polls = λ i h. ground (arith, runs.valid.polls i h, calls.off);
}

pub cleanup-Runs : (vp : Vp) → Runs vp → Runs (cleanup vp)
unfolding cleanup
cleanup-Runs vp runs =
    let same = set_thread-Runs vp.current _ vp refl refl refl runs in
    record { valid = same.valid; current_runs = same.current_runs }

end_thread-Stands : (vp : Vp) → Runs vp → Calls vp → Returns (Stands true) (end_thread vp)
unfolding end_thread
end_thread-Stands vp runs calls = elim (Bool-cases ((me vp).term == null)) [
  | inl detached ↦ rw detached (record {
    value = exit_last vp;
    returned = refl;
    holds = exit_last-Stands vp runs.valid calls.off;
  })
  | inr joinable ↦
      let ended = add_zombieq vp.current (set_state vp.current zombie vp) in
      let done = cond_signal_lem (me vp).term ended (zombie-IsVp vp runs calls) in
      let same = Signalled-Frame ended _ done.value done.holds.0 in
      rw (joinable, done.returned)
        (record {
          value = switch_context in_exit done.value;
          returned = refl;
          holds =
              switch_context-Runs in_exit done.value done.holds.1 (off_same ended calls.off same);
        })
]

-- The end of a thread other than the idle one, with no poll of it on the queue, does not fail,
-- keeps the invariant and finds a thread to switch to.
pub thread_exit-Runs :
    (retval : ℕ) (vp : Vp) → Runs vp → Calls vp → Returns (Stands true) (thread_exit retval vp)
unfolding thread_exit cleanup
thread_exit-Runs retval vp runs calls =
    let kept =
      set_thread-Runs vp.current (record (me vp) { retval = retval }) vp refl refl refl runs in
    let clean = cleanup-Runs _ kept in
    end_thread-Stands _ (record { valid = clean.valid; current_runs = clean.current_runs })
      (Calls-same vp calls refl refl refl)

-- Joined at last, it gives its stack back and switches for good.
pub thread_exit_resume-Stands : (vp : Vp) → Runs vp → Calls vp → Stands true (thread_exit_resume vp)
unfolding thread_exit_resume
thread_exit_resume-Stands vp runs calls =
    exit_last-Stands _
      (set_thread-Runs vp.current (record (me vp) { term = null }) vp refl refl refl runs).valid
      calls.off
