-- ===== src/Sched/Rung.antt =====
-- One thread that `_st_vp_check_clock` of sched.c wakes.
use state_thread.Base.{
  ℕ, ◌≡◌, ◌≢◌, refl, ap, ◌∙◌, Bool, true, false, ◌||◌, [], ◌∷◌, ◌++◌, some, if◌then◌else◌, ◌==◌,
  update, update_again, arith, occurs-append,
}
use state_thread.SleepQ.{SleepQ}
use state_thread.SleepQ.Shape.{count}
use state_thread.SleepQ.Delete.{Deleted, heap_delete-Deleted}
use state_thread.Vp.{
  Vp, Thread, runnable, set_timedout, make_runnable, vp_del_sleep_q, is_cond_wait, set_on_sleepq,
}
use state_thread.Vp.Invariant.{IsWaiting, not_idle}
use state_thread.Vp.Switch.{Runs}

-- A thread that was woken: a wait for a condition variable has timed out.
abbrev pub expired : Thread → Thread
expired th = record th {
  state = runnable;
  on_sleepq = false;
  timedout = th.timedout || is_cond_wait th.state;
}

abbrev pub rung : ℕ → SleepQ → Vp → Vp
rung t q vp = record vp {
  sleepq = q;
  run_q = vp.run_q ++ t ∷ [];
  threads = update vp.threads t (expired (vp.threads t));
}

module _ (t : ℕ) (vp : Vp) (runs : Runs vp) (there : count t vp.sleepq.sleep_q ≢ 0) where
  on : (vp.threads t).on_sleepq ≡ true
  on = ground (arith, runs.valid.timed t)

  waits : IsWaiting t vp
  waits = record {
    not_ready = ground (arith, runs.valid.waits t, on);
    not_zombie = ground (arith, runs.valid.waits t, on);
  }

  other : (t == vp.idle) ≡ false
  other = not_idle t vp runs.valid waits

  pub rung-Runs : (q : SleepQ) → Deleted vp.sleepq t q → Runs (rung t q vp)
  rung-Runs q out = record {
    valid = record {
      heap = out.valid;
      timed = λ i. ground (arith, out.counts i, runs.valid.timed i);
      waits = λ i h. ground (arith, runs.valid.waits i);
      ready = λ i.
          ground
            (arith, runs.valid.ready i, occurs-append i vp.run_q (t ∷ []), other, waits.not_ready);
      dead = λ i. ground (arith, runs.valid.dead i, waits.not_zombie);
      idles = ground (arith, other, runs.valid.idles);
      serves = runs.valid.serves;
      queued = runs.valid.queued;
      polls = λ i h. ground (arith, runs.valid.polls i h);
    };
    current_runs = ground (arith, waits.not_ready, runs.current_runs);
  }

  -- The loop's body on the thread `t`.
  abbrev dropped : SleepQ → Vp
  dropped q = set_on_sleepq t false (record vp { sleepq = q })

  rung_threads :
      (f : ℕ → Thread) (c : Bool)
      → is_cond_wait (f t).state ≡ c
      → let g = update f t (record (f t) { on_sleepq = false }) in
        let g' = if c then update g t (record (g t) { timedout = true }) else g in
        update g' t (record (g' t) { state = runnable }) ≡ update f t (expired (f t))
  rung_threads f true e =
      ap (λ g. update g t (record (g t) { state = runnable }))
        (update_again (λ th. record th { timedout = true }) f t
          (record (f t) { on_sleepq = false }))
      ∙ update_again (λ th. record th { state = runnable }) f t
          (record (f t) { on_sleepq = false; timedout = true })
      ∙ ap (λ b. update f t (record (f t) { state = runnable; on_sleepq = false; timedout = b }))
          (ground (arith, e))
  rung_threads f false e =
      update_again (λ th. record th { state = runnable }) f t (record (f t) { on_sleepq = false })
      ∙ ap (λ b. update f t (record (f t) { state = runnable; on_sleepq = false; timedout = b }))
          (ground (arith, e))

  rung_lem :
      (q : SleepQ) (c : Bool)
      → is_cond_wait (vp.threads t).state ≡ c
      → make_runnable t (if c then set_timedout t true (dropped q) else dropped q) ≡ rung t q vp
  rung_lem q true e =
      ap (λ g. record vp { sleepq = q; run_q = vp.run_q ++ t ∷ []; threads = g })
        (rung_threads vp.threads true e)
  rung_lem q false e =
      ap (λ g. record vp { sleepq = q; run_q = vp.run_q ++ t ∷ []; threads = g })
        (rung_threads vp.threads false e)

  pub expire_step :
      (q : SleepQ) × Deleted vp.sleepq t q
      × (vp_del_sleep_q t vp ≡ some (dropped q))
      × (make_runnable t (
            if is_cond_wait (vp.threads t).state
            then set_timedout t true (dropped q)
            else dropped q)
          ≡ rung t q vp)
  unfolding vp_del_sleep_q
  expire_step =
      let done = heap_delete-Deleted vp.sleepq t runs.valid.heap there in
      (done.value, done.holds, rw done.returned, rung_lem done.value _ refl)
