-- ===== src/Vp/Invariant.antt =====
-- What holds of the virtual processor whenever a function of the library has returned or switched.
use state_thread.Base.{
  ℕ, ◌≤◌, ◌≡◌, ◌≢◌, refl, ap, Bool, true, false, ◌&&◌, not, some, List, [], ◌∷◌, ◌++◌, ◌>>=◌,
  Option, none, if◌then◌else◌, ◌==◌, one_if, update, arith, Bool-cases, inl, inr, update_again,
  occurs, occurs-append,
}
use state_thread.SleepQ.{SleepQ, heap_delete}
use state_thread.SleepQ.Shape.{count, IsSleepQ}
use state_thread.SleepQ.Delete.{Deleted, heap_delete-Deleted}
use state_thread.Ioq.{IoState}
use state_thread.Ioq.Gather.{Serves}
use state_thread.Vp.{
  Context, in_poll, set_io, set_on_sleepq, make_runnable, State, Thread, Vp, running, runnable,
  io_wait, cond_wait, sleeping, is_zombie, is_ready, wake, vp_del_sleep_q,
}

abbrev pub is_runnable : State → Bool
is_runnable runnable = true
is_runnable _ = false

-- The states in which a thread may have a timeout.
abbrev pub may_time_out : State → Bool
may_time_out io_wait = true
may_time_out cond_wait = true
may_time_out sleeping = true
may_time_out _ = false

-- The states and the place of a thread that is in `st_poll`; only the current one can run.
abbrev pub may_poll : State → (is_current : Bool) → Bool
may_poll io_wait is_current = true
may_poll runnable is_current = true
may_poll running is_current = is_current
may_poll _ is_current = false

abbrev pub is_in_poll : Context → Bool
is_in_poll in_poll = true
is_in_poll _ = false

abbrev pub is_polling : Thread → (is_current : Bool) → Bool
is_polling th is_current = may_poll th.state is_current && is_in_poll th.context

pub record Valid (threads : ℕ → Thread) (idle current : ℕ) (run_q zombie_q : List ℕ) (q : SleepQ)
    (io : IoState) : Type 0 where
  -- the timeout heap is one,
  pub heap : IsSleepQ q
  -- with the threads that have the flag, each once;
  pub timed : (t : ℕ) → count t q.sleep_q ≡ one_if (threads t).on_sleepq
  -- these wait for something;
  pub waits : (t : ℕ) → (threads t).on_sleepq ≡ true → may_time_out (threads t).state ≡ true
  -- the run queue has the runnable threads but the idle one, each once,
  pub ready : (t : ℕ) → occurs t run_q ≡ one_if (is_runnable (threads t).state && not (t == idle))
  -- and the zombie queue the zombies;
  pub dead : (t : ℕ) → occurs t zombie_q ≡ one_if (is_zombie (threads t).state)
  -- the idle thread is ready to run.
  pub idles : is_ready (threads idle).state ≡ true
  -- The event system has what the polls on the queue ask for,
  pub serves : Serves io
  -- a thread polls once at a time,
  pub queued : (t : ℕ) → occurs t io.io_q ≡ one_if (io.pollqs t).on_ioq
  -- and goes on behind the switch in `st_poll`.
  pub polls :
      (t : ℕ)
      → occurs t io.io_q ≢ 0
      → (is_polling (threads t) (t == current) && (io.pollqs t).on_ioq && not (t == idle)) ≡ true

abbrev pub IsVp : Vp → Type 0
IsVp vp = Valid vp.threads vp.idle vp.current vp.run_q vp.zombie_q vp.sleepq vp.io

pub polls_once : (vp : Vp) → IsVp vp → (t : ℕ) → occurs t vp.io.io_q ≤ 1
polls_once vp v t = ground (arith, v.queued t)

-- Besides, the current thread runs.
abbrev pub IsRunning : Vp → Type 0
IsRunning vp = (vp.threads vp.current).state ≡ running

-- The state after `wake`: the thread is last in the run queue, and has no timeout.
abbrev pub woken : ℕ → SleepQ → Vp → Vp
woken t q vp = record vp {
  sleepq = q;
  run_q = vp.run_q ++ t ∷ [];
  threads = update vp.threads t (record (vp.threads t) { state = runnable; on_sleepq = false });
}

-- A thread that waits, on a timeout or without one.
pub record IsWaiting (t : ℕ) (vp : Vp) : Type 0 where
  pub not_ready : is_ready (vp.threads t).state ≡ false
  pub not_zombie : is_zombie (vp.threads t).state ≡ false

woken_threads :
    (f : ℕ → Thread) (t : ℕ)
    → let g = update f t (record (f t) { on_sleepq = false }) in
      update g t (record (g t) { state = runnable })
      ≡ update f t (record (f t) { state = runnable; on_sleepq = false })
woken_threads f t =
    update_again (λ th. record th { state = runnable }) f t (record (f t) { on_sleepq = false })

module _ (t : ℕ) (vp : Vp) (valid : IsVp vp) (waiting : IsWaiting t vp) where
  pub not_idle : (t == vp.idle) ≡ false
  not_idle = elim (Bool-cases (t == vp.idle)) [
    | inl same ↦
        let e : t ≡ vp.idle = ground arith in
        let r = ap (λ (u : ℕ). is_ready (vp.threads u).state) e in
        absurd (ground (arith, r, valid.idles, waiting.not_ready))
    | inr other ↦ other
  ]

  woken-IsVp :
      (q : SleepQ)
      → IsSleepQ q
      → ((i : ℕ) → count i q.sleep_q ≡ (if t == i then 0 else count i vp.sleepq.sleep_q))
      → IsVp (woken t q vp)
  woken-IsVp q heap counts = record {
    heap = heap;
    timed = λ i. ground (arith, counts i, valid.timed i);
    waits = λ i h. ground (arith, valid.waits i);
    ready = λ i.
        ground
          (arith, valid.ready i, occurs-append i vp.run_q (t ∷ []), not_idle, waiting.not_ready);
    dead = λ i. ground (arith, valid.dead i, waiting.not_zombie);
    idles = ground (arith, not_idle, valid.idles);
    serves = valid.serves;
    queued = valid.queued;
    polls = λ i h. ground (arith, valid.polls i h);
  }

  -- Waking a thread that waits does not fail: exactly that thread becomes runnable, last in the
  -- run queue, its timeout is dropped if it had one, and the invariant is kept.
  pub wake_lem : (q : SleepQ) × (wake t vp ≡ some (woken t q vp)) × IsVp (woken t q vp)
  unfolding wake vp_del_sleep_q
  wake_lem = elim (Bool-cases (vp.threads t).on_sleepq) [
    | inl on ↦
        let done = heap_delete-Deleted vp.sleepq t valid.heap (ground (arith, valid.timed t)) in
        let out : Deleted vp.sleepq t done.value = done.holds in
        (
          done.value,
          rw (on, done.returned)
              (ap
                (λ g.
                  some (record vp { sleepq = done.value; run_q = vp.run_q ++ t ∷ []; threads = g }))
                (woken_threads vp.threads t)),
          woken-IsVp done.value out.valid (λ i. ground (arith, out.counts i, valid.timed t)),
        )
    | inr off ↦ (
      vp.sleepq,
      rw off (
          ap
            (λ b. some (record vp {
              run_q = vp.run_q ++ t ∷ [];
              threads =
                  update vp.threads t (record (vp.threads t) { state = runnable; on_sleepq = b });
            }))
            off),
      woken-IsVp vp.sleepq valid.heap (λ i. ground (arith, valid.timed i)),
    )
  ]

-- The queue of polls has no part in it.
pub wake-set_io :
    (io : IoState) (t : ℕ) (vp : Vp)
    → wake t (set_io io vp) ≡ (wake t vp >>= λ vp'. some (set_io io vp'))
unfolding wake vp_del_sleep_q
wake-set_io io t vp = elim (Bool-cases (vp.threads t).on_sleepq) [
  | inl on ↦ rw on (deleted (heap_delete vp.sleepq t))
  | inr off ↦ rw off refl
]
  where
    deleted :
        (o : Option SleepQ)
        → (o >>= (λ q. some (set_on_sleepq t false (record (set_io io vp) { sleepq = q }))) >>= λ v.
            some (make_runnable t v))
          ≡ (o
              >>= (λ q. some (set_on_sleepq t false (record vp { sleepq = q })))
              >>= (λ v. some (make_runnable t v))
              >>= λ v. some (set_io io v))
    deleted none = refl
    deleted (some q) = refl
