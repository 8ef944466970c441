-- ===== src/Start/Create.antt =====
-- `st_thread_create` of sched.c.
use state_thread.Base.{
  ℕ, ◌+◌, ◌≡◌, refl, subst, Bool, true, false, Option, List, [], ◌∷◌, ◌++◌, ◌⊎◌, none, some,
  if◌then◌else◌, ◌==◌, arith, Bool-cases, inl, inr, null, occurs, occurs-append,
}
use state_thread.SleepQ.Shape.{count}
use state_thread.Stk.{Stack, StackPool, Memory, stack_new, round_stack_size, stack_free}
use state_thread.Vp.{Vp, runnable}
use state_thread.Vp.Switch.{Runs}
use state_thread.Vp.Calls.{Frame, Frame-if}
use state_thread.Sync.Waits.{cond_new-Frame}
use state_thread.Sync.{cond_new}
use state_thread.Start.{Layout, thread_create, start_thread, with_term, thread_address}

-- No thread of the library is at this address.
pub record IsUnused (t : ℕ) (vp : Vp) : Type 0 where
  pub not_ready : occurs t vp.run_q ≡ 0
  pub not_zombie : occurs t vp.zombie_q ≡ 0
  pub not_asleep : count t vp.sleepq.sleep_q ≡ 0
  pub not_idle : (t == vp.idle) ≡ false
  pub not_current : (t == vp.current) ≡ false
  pub not_polling : occurs t vp.io.io_q ≡ 0

-- No thread is made, or one that is runnable and last in the run queue.
abbrev pub Created : Vp → ℕ × Vp → Type 0
Created vp (t, vp') =
    ((t ≡ null)
      × (vp'.threads ≡ vp.threads)
      × (vp'.run_q ≡ vp.run_q)
      × (vp'.active_count ≡ vp.active_count))
    ⊎ (((vp'.threads t).state ≡ runnable)
        × (vp'.run_q ≡ vp.run_q ++ t ∷ [])
        × (vp'.active_count ≡ vp.active_count + 1))

start_thread-Runs :
    (t : ℕ) (ts : Stack) (term : ℕ) (vp : Vp)
    → Runs vp
    → IsUnused t vp
    → Runs (start_thread t ts term vp).1
start_thread-Runs t ts term vp runs unused = record {
  valid = record {
    heap = runs.valid.heap;
    timed = λ i. ground (arith, runs.valid.timed i, unused.not_asleep);
    waits = λ i h. ground (arith, runs.valid.waits i);
    ready = λ i. ground (
      arith,
      runs.valid.ready i,
      occurs-append i vp.run_q (t ∷ []),
      unused.not_ready,
      unused.not_idle,
    );
    dead = λ i. ground (arith, runs.valid.dead i, unused.not_zombie);
    idles = ground (arith, runs.valid.idles, unused.not_idle);
    serves = runs.valid.serves;
    queued = runs.valid.queued;
    polls = λ i h. ground (arith, runs.valid.polls i h, unused.not_polling);
  };
  current_runs = ground (arith, runs.current_runs, unused.not_current);
}

starts : (t : ℕ) (ts : Stack) (term : ℕ) (vp : Vp) → Created vp (start_thread t ts term vp)
starts t ts term vp = inr (ground arith, refl, refl)

pooled-Runs : (pool : StackPool) (vp : Vp) → Runs vp → Runs (record vp { pool = pool })
pooled-Runs pool vp runs = record { valid = runs.valid; current_runs = runs.current_runs }

-- The condition variable is all that `st_cond_new` changes.
cond_new_frame :
    (fresh : ℕ) (vp : Vp)
    → record vp { conds = (cond_new fresh vp).1.conds } ≡ (cond_new fresh vp).1
unfolding cond_new
cond_new_frame fresh vp = elim (Bool-cases (fresh == null)) [
  | inl full ↦ rw full
  | inr new ↦ rw new
]

module _ (vp : Vp) (runs : Runs vp) where
  started :
      (t : ℕ) (ts : Stack) (term : ℕ) (pool : StackPool) (conds : ℕ → List ℕ)
      → IsUnused t vp
      → let r = start_thread t ts term (record vp { pool = pool; conds = conds }) in
        Created vp r × Runs r.1
  started t ts term pool conds u = (
    starts t ts term vp,
    start_thread-Runs t ts term (record vp { pool = pool; conds = conds })
        (record { valid = runs.valid; current_runs = runs.current_runs })
        (record {
          not_ready = u.not_ready;
          not_zombie = u.not_zombie;
          not_asleep = u.not_asleep;
          not_idle = u.not_idle;
          not_current = u.not_current;
          not_polling = u.not_polling;
        }),
  )

  not_started :
      (pool : StackPool)
      → Created vp (null, record vp { pool = pool }) × Runs (record vp { pool = pool })
  not_started pool = (inl (refl, refl, refl, refl), pooled-Runs pool vp runs)

  joinable :
      (b : Bool) (t : ℕ) (ts : Stack) (term : ℕ) (pool : StackPool) (conds : ℕ → List ℕ)
      → let r : ℕ × Vp =
          if b
          then (null, record vp { pool = stack_free (some ts) pool })
          else start_thread t ts term (record vp { pool = pool; conds = conds }) in
        IsUnused r.0 vp → Created vp r × Runs r.1
  joinable true t ts term pool conds u = not_started (stack_free (some ts) pool)
  joinable false t ts term pool conds u = started t ts term pool conds u

  with_term-Created :
      (lay : Layout) (fresh : ℕ) (join : Bool) (r : Option Stack × StackPool)
      → IsUnused (with_term lay join fresh r vp).0 vp
      → Created vp (with_term lay join fresh r vp) × Runs (with_term lay join fresh r vp).1
  with_term-Created lay fresh join (none, pool) u = not_started pool
  with_term-Created lay fresh false (some ts, pool) u =
      started (thread_address lay ts) ts null pool vp.conds u
  with_term-Created lay fresh true (some ts, pool) u =
      subst
        (λ v.
          let r : ℕ × Vp =
            if fresh == null
            then (null, record vp { pool = stack_free (some ts) pool })
            else start_thread (thread_address lay ts) ts fresh v in
          IsUnused r.0 vp → Created vp r × Runs r.1)
        (cond_new_frame fresh (record vp { pool = pool }))
        (joinable (fresh == null) (thread_address lay ts) ts fresh pool
          (cond_new fresh (record vp { pool = pool })).1.conds)
        u

-- Making a thread fails with null and changes neither the threads nor the run queue, or the
-- thread is runnable, last in the run queue and counted as active; the invariant is kept,
-- provided that its memory is not that of another thread.
pub thread_create-Created :
    (lay : Layout) (m : Memory) (fresh : ℕ) (joinable : Bool) (stk_size : ℕ) (vp : Vp)
    → Runs vp
    → IsUnused (thread_create lay m fresh joinable stk_size vp).0 vp
    → Created vp (thread_create lay m fresh joinable stk_size vp)
      × Runs (thread_create lay m fresh joinable stk_size vp).1
unfolding thread_create
thread_create-Created lay m fresh joinable stk_size vp runs unused =
    with_term-Created vp runs lay fresh joinable
      (stack_new vp.pagesize (round_stack_size vp.pagesize stk_size) m vp.pool) unused

with_term-Frame :
    (lay : Layout) (fresh : ℕ) (join : Bool) (r : Option Stack × StackPool) (vp : Vp)
    → Frame vp (with_term lay join fresh r vp).1
with_term-Frame lay fresh join (none, pool) vp = record { current = refl; idle = refl; io = refl }
with_term-Frame lay fresh false (some ts, pool) vp = record {
  current = refl;
  idle = refl;
  io = refl;
}
with_term-Frame lay fresh true (some ts, pool) vp =
    let same = cond_new-Frame fresh (record vp { pool = pool }) in
    Frame-if (fresh == null) (null, record vp { pool = stack_free (some ts) pool }) _
      (record { current = refl; idle = refl; io = refl })
      (record { current = same.current; idle = same.idle; io = same.io })

pub thread_create-Frame :
    (lay : Layout) (m : Memory) (fresh : ℕ) (joinable : Bool) (stk_size : ℕ) (vp : Vp)
    → Frame vp (thread_create lay m fresh joinable stk_size vp).1
unfolding thread_create
thread_create-Frame lay m fresh joinable stk_size vp =
    with_term-Frame lay fresh joinable
      (stack_new vp.pagesize (round_stack_size vp.pagesize stk_size) m vp.pool) vp
