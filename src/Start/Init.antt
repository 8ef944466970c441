-- ===== src/Start/Init.antt =====
-- `st_init` of sched.c.
use state_thread.Base.{
  ℕ, ◌≡◌, ◌⊎◌, refl, false, Option, none, some, ◌==◌, Returns, arith, Bool-cases, inl, inr, null,
}
use state_thread.SleepQ.Shape.{IsSleepQ, le-index}
use state_thread.Stk.{Stack, StackPool, Memory, stack_new, round_stack_size}
use state_thread.Epoll.{epoll_data}
use state_thread.Epoll.Counts.{Kind, reading, writing, excepting, cnt}
use state_thread.Ioq.{Eventsys, select_system, poll_system, epoll_system}
use state_thread.Ioq.Gather.{ServesBy, gather}
use state_thread.Vp.{Vp}
use state_thread.Vp.Switch.{Runs}
use state_thread.Start.{
  Setup, Layout, thread_create, thread_address, start_thread, with_term, init, init_threads,
  blank_vp, take_idle, take_main,
}

-- The library is initialised, or there was no memory for one of the threads.
abbrev pub Initialised : (idle main : ℕ) → Option Vp → Type 0
Initialised idle main o = ((o ≡ none) × ((idle ≡ null) ⊎ (main ≡ null))) ⊎ Returns Runs o

module _ (sys : Setup) (pagesize last_clock main : ℕ) (vp : Vp) where
  blank : Vp
  blank = blank_vp sys pagesize last_clock vp

  no_sleeper : IsSleepQ blank.sleepq
  unfolding blank
  no_sleeper = record {
    heap = tt;
    shape = λ p. ground (arith, le-index 1 p);
    indexed = tt;
    distinct = λ i. omega arith;
  }

  cnt-blank : (k : Kind) (i : ℕ) → cnt k (epoll_data sys.pid sys.fdlim) i ≡ 0
  cnt-blank reading i = refl
  cnt-blank writing i = refl
  cnt-blank excepting i = refl

  blank-ServesBy : (e : Eventsys) → ServesBy e (blank_vp sys pagesize last_clock vp).io
  unfolding gather
  blank-ServesBy select_system = record {
    valid = record { read_valid = λ i. refl; write_valid = λ i. refl; excep_valid = λ i. refl };
    in_ = λ i. refl;
    out_ = λ i. refl;
    pri_ = λ i. refl;
  }
  blank-ServesBy poll_system = refl
  blank-ServesBy epoll_system = λ k i. cnt-blank k i

  threads-Runs :
      (t : ℕ) (ts : Stack)
      → (main == t) ≡ false
      → Runs (take_main main (take_idle t (start_thread t ts null blank).1))
  unfolding blank no_sleeper
  threads-Runs t ts apart = record {
    valid = record {
      heap = no_sleeper;
      timed = λ i. ground (arith, apart);
      waits = λ i h. ground (arith, apart);
      ready = λ i. ground (arith, apart);
      dead = λ i. ground (arith, apart);
      idles = ground (arith, apart);
      serves = blank-ServesBy sys.eventsys;
      queued = λ i. refl;
      polls = λ i h. absurd (h refl);
    };
    current_runs = ground arith;
  }

init_threads-Initialised :
    (main : ℕ) (r : ℕ × Vp)
    → ((r.0 == null) ≡ false → Runs (take_main main (take_idle r.0 r.1)))
    → Initialised r.0 main (init_threads main r)
init_threads-Initialised main (idle, vp) runs = elim (Bool-cases (idle == null)) [
  | inl out ↦ rw out (inl (refl, inl (ground arith)))
  | inr has ↦ elim (Bool-cases (main == null)) [
    | inl full ↦ rw (has, full) (inl (refl, inr (ground arith)))
    | inr free ↦ rw (has, free) (inr (record { value = _; returned = refl; holds = runs has }))
  ]
]

with_term-Initialised :
    (sys : Setup) (pagesize last_clock main : ℕ) (vp : Vp) (lay : Layout)
    (r : Option Stack × StackPool)
    → let idle = with_term lay false null r (blank_vp sys pagesize last_clock vp) in
      (main == idle.0) ≡ false → Initialised idle.0 main (init_threads main idle)
unfolding blank
with_term-Initialised sys pagesize last_clock main vp lay (none, pool') apart =
    init_threads-Initialised main
      (null, blank_vp sys pagesize last_clock (record vp { pool = pool' }))
      (λ h. absurd (ground arith))
with_term-Initialised sys pagesize last_clock main vp lay (some ts, pool') apart =
    let t = thread_address lay ts in
    init_threads-Initialised main
      (start_thread t ts null (blank_vp sys pagesize last_clock (record vp { pool = pool' })))
      (λ h. threads-Runs sys pagesize last_clock main (record vp { pool = pool' }) t ts apart)

-- Without memory for the idle or the primordial thread the initialisation fails; else the
-- invariant holds afterwards and the primordial thread runs, provided that the two have different
-- memory.
pub init-Initialised :
    (sys : Setup) (lay : Layout) (m : Memory) (main pagesize last_clock : ℕ) (vp : Vp)
    → let idle = (thread_create lay m null false 0 (blank_vp sys pagesize last_clock vp)).0 in
      (main == idle) ≡ false → Initialised idle main (init sys lay m main pagesize last_clock vp)
unfolding init thread_create
init-Initialised sys lay m main pagesize last_clock vp =
    with_term-Initialised sys pagesize last_clock main vp lay
      (stack_new pagesize (round_stack_size pagesize 0) m vp.pool)
