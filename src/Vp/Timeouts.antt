-- ===== src/Vp/Timeouts.antt =====
-- Going to sleep with a timeout, as the functions of sync.c do, and the invariant.
use state_thread.Base.{
  ap, ℕ, ◌+◌, ◌%◌, ◌≡◌, ap, subst, Bool, true, false, not, one_if, ◌&&◌, some, ◌==◌, update, arith,
  Bool-cases, inl, inr, fun_ext,
}
use state_thread.SleepQ.{SleepQ}
use state_thread.SleepQ.Shape.{count, IsSleepQ}
use state_thread.SleepQ.Add.{Added, add_sleep_q-Added}
use state_thread.Vp.Invariant.{Valid, IsVp, may_time_out}
use state_thread.Vp.{
  State, Thread, Vp, is_zombie, is_ready, set_state, set_on_sleepq, add_timeout, vp_add_sleep_q,
  utime_mod, no_timeout,
}
use state_thread.Vp.Switch.{Runs, Calls}

module _ (vp : Vp) (runs : Runs vp) (calls : Calls vp) where
  -- The current thread has no timeout.
  pub no_timeout_yet : (vp.threads vp.current).on_sleepq ≡ false
  no_timeout_yet = ground (arith, runs.valid.waits vp.current, runs.current_runs)

  pub block-IsVp :
      (s : State) → is_ready s ≡ false → is_zombie s ≡ false → IsVp (set_state vp.current s vp)
  block-IsVp s h g = record {
    heap = runs.valid.heap;
    timed = λ t. ground (arith, runs.valid.timed t);
    waits = λ t e. ground (arith, runs.valid.waits t, no_timeout_yet);
    ready = λ t. ground (arith, runs.valid.ready t, runs.current_runs);
    dead = λ t. ground (arith, runs.valid.dead t, runs.current_runs);
    idles = ground (arith, runs.valid.idles, calls.other);
    serves = runs.valid.serves;
    queued = runs.valid.queued;
    polls = λ t h. ground (arith, runs.valid.polls t h, calls.off);
  }

no_change :
    (f : ℕ → Thread) (t : ℕ)
    → (f t).on_sleepq ≡ false
    → f ≡ update f t (record (f t) { on_sleepq = false })
no_change f t h = fun_ext λ q. ground arith

-- The state after `add_timeout`.
abbrev pub timed : SleepQ → Bool → Vp → Vp
timed q b vp = set_on_sleepq vp.current b (record vp { sleepq = q })

-- What going to sleep does to the timeout heap.
pub record Sleeps (b : Bool) (t : ℕ) (q q' : SleepQ) : Type 0 where
  pub heap : IsSleepQ q'
  pub counts : (i : ℕ) → count i q'.sleep_q ≡ count i q.sleep_q + one_if (b && (t == i))

pub add_timeout_returns :
    (timeout : ℕ) (vp : Vp)
    → IsSleepQ vp.sleepq
    → count vp.current vp.sleepq.sleep_q ≡ 0
    → (vp.threads vp.current).on_sleepq ≡ false
    → (q : SleepQ) × (add_timeout timeout vp ≡ some (timed q (not (timeout == no_timeout)) vp))
      × Sleeps (not (timeout == no_timeout)) vp.current vp.sleepq q
unfolding add_timeout vp_add_sleep_q
add_timeout_returns timeout vp heap absent off = elim (Bool-cases (timeout == no_timeout)) [
  | inl ever ↦
      let same = no_change vp.threads vp.current off in
      (
        vp.sleepq,
        rw ever (ap some (ap (λ g. record vp { threads = g }) same)),
        rw ever (record { heap = heap; counts = λ i. omega arith }),
      )
  | inr limited ↦
      let wakeup = (vp.last_clock + timeout) % utime_mod in
      let done = add_sleep_q-Added vp.sleepq vp.current wakeup heap absent in
      (
        done.value,
        rw (limited, done.returned),
        rw limited
            (record { heap = done.holds.valid; counts = λ i. ground (arith, done.holds.counts i) }),
      )
]

module _ (timeout : ℕ) (vp : Vp) (v : IsVp vp) (off : (vp.threads vp.current).on_sleepq ≡ false)
    (may : may_time_out (vp.threads vp.current).state ≡ true) where
  timed-IsVp :
      (q : SleepQ) (wakeup : ℕ) → Added vp.sleepq vp.current wakeup q → IsVp (timed q true vp)
  timed-IsVp q wakeup added = record {
    heap = added.valid;
    timed = λ t. ground (arith, added.counts t, v.timed t, off);
    waits = λ t h. ground (arith, v.waits t, may);
    ready = λ t. ground (arith, v.ready t);
    dead = λ t. ground (arith, v.dead t);
    idles = ground (arith, v.idles);
    serves = v.serves;
    queued = v.queued;
    polls = λ t h. ground (arith, v.polls t h);
  }

  -- Going to sleep does not fail, and puts the thread into the timeout heap.
  pub vp_add_sleep_q_lem :
      (q : SleepQ) × (vp_add_sleep_q vp.current timeout vp ≡ some (timed q true vp))
      × Added vp.sleepq vp.current ((vp.last_clock + timeout) % utime_mod) q
      × IsVp (timed q true vp)
  unfolding vp_add_sleep_q
  vp_add_sleep_q_lem =
      let wakeup = (vp.last_clock + timeout) % utime_mod in
      let done =
        add_sleep_q-Added vp.sleepq vp.current wakeup v.heap
          (ground (arith, v.timed vp.current, off)) in
      (done.value, rw done.returned, done.holds, timed-IsVp done.value wakeup done.holds)

  -- The thread is in the timeout heap afterwards, unless it is to wait for ever.
  pub add_timeout_lem :
      (q : SleepQ) × (add_timeout timeout vp ≡ some (timed q (not (timeout == no_timeout)) vp))
      × IsVp (timed q (not (timeout == no_timeout)) vp)
  unfolding add_timeout
  add_timeout_lem = elim (Bool-cases (timeout == no_timeout)) [
    | inl ever ↦
        let same = no_change vp.threads vp.current off in
        (
          vp.sleepq,
          rw ever (ap some (ap (λ g. record vp { threads = g }) same)),
          rw ever
              (subst (λ g. Valid g vp.idle vp.current vp.run_q vp.zombie_q vp.sleepq vp.io) same v),
        )
    | inr limited ↦
        let (q, e, _, valid) = vp_add_sleep_q_lem in (q, rw (limited, e), rw limited valid)
  ]
