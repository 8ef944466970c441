-- ===== src/System/Turns.antt =====
-- No sequence of calls fails or breaks the invariant.
use state_thread.Base.{
  ℕ, ◌≡◌, refl, sym, Bool, true, false, Option, none, some, List, if◌then◌else◌, ◌==◌, ◌>>=◌,
  Returns, Result, ok, err, Bool-cases, inl, inr, subst, ◌∙◌, arith,
}
use state_thread.Key.{setspecific, Call}
use state_thread.Vp.{
  Vp, Context, Entered, returns, blocks, me, in_main, in_idle, in_usleep, in_exit, in_cond, in_lock,
  in_join, in_poll,
}
use state_thread.Vp.Invariant.{is_in_poll}
use state_thread.Vp.Switch.{Runs, Stands, Calls}
use state_thread.Vp.Calls.{Keeps, Calls-Frame, Frame, has_blocked}
use state_thread.Sync.Sleep.{usleep-Keeps, usleep_resume-Stands}
use state_thread.Sync.Waits.{
  cond_new-Runs, cond_new-Frame, cond_timedwait-Keeps, cond_wait_resume-Runs,
  cond_wait_resume-Calls, cond_signal-Signalled, Signalled-Frame,
}
use state_thread.Sync.Broadcast.{cond_broadcast-Onward}
use state_thread.Sync.Locks.{
  mutex_new-Runs, mutex_new-Frame, mutex_lock-Keeps, mutex_lock_resume-Runs,
  mutex_lock_resume-Frame, mutex_trylock-Runs, mutex_trylock-Frame, mutex_unlock-Runs,
  mutex_unlock-Frame,
}
use state_thread.Sched.Life.{
  thread_interrupt-Interrupted, Interrupted-Frame, set_thread-Runs, thread_exit-Runs,
  thread_exit_resume-Stands,
}
use state_thread.Sched.Join.{thread_join-Keeps, thread_join_resume-Keeps}
use state_thread.Start.Create.{thread_create-Created, thread_create-Frame}
use state_thread.Sched.Idle.{idle_round-Stands}
use state_thread.Dispatch.{Kernel}
use state_thread.Events.{dispatch}
use state_thread.Events.Systems.{dispatch-Dispatches}
use state_thread.Polling.Laws.{poll-Keeps}
use state_thread.Polling.Resume.{poll_resume-Stands}
use state_thread.System.{
  Operation, usleeps, polls, makes_cond, waits_for, signals, broadcasts, makes_mutex, locks, tries,
  unlocks, interrupts, joins, exits, creates, makes_key, sets, switches, set_specific, perform,
  call, faults, resume, Admissible, AdmissibleEvent, Event, Machine, machine, turn, Steps, here,
  there,
}

-- A turn of a thread that leads to a state in which the invariant holds.
abbrev Goes : Option (Bool × Vp) → Type 0
Goes o = Returns (λ r. Stands r.0 r.1) o

switches-Stands :
    {A : Type 0} (r : Entered A × Vp)
    → Stands (has_blocked r.0) r.1
    → Stands (switches r).0 (switches r).1
switches-Stands (returns _, vp) stands = stands
switches-Stands (blocks, vp) stands = stands

Keeps-switches :
    {A : Type 0} (o : Option (Entered A × Vp)) → Keeps o → Goes (o >>= λ r. some (switches r))
Keeps-switches o keeps = rw keeps.returned (record {
  value = switches keeps.value;
  returned = refl;
  holds = switches-Stands keeps.value keeps.holds;
})

goes : (b : Bool) {vp : Vp} → Stands b vp → Goes (some (b, vp))
goes b {vp} stands = record { value = (b, vp); returned = refl; holds = stands }

-- A call that does not switch, or always does.
Goes-Vp :
    (b : Bool) (o : Option Vp) (vp' : Vp)
    → o ≡ some vp'
    → Stands b vp'
    → Goes (o >>= λ vp'. some (b, vp'))
Goes-Vp b o vp' e stands = rw e (goes b stands)

set_specific-Runs :
    (r : Result (List Call) × (ℕ → ℕ)) (vp : Vp) → Runs vp → Runs (set_specific r vp)
set_specific-Runs (ok calls, data_of) vp runs =
    let same =
      set_thread-Runs vp.current (record (me vp) { private_data = data_of }) vp refl refl refl
        runs in
    record { valid = same.valid; current_runs = same.current_runs }
set_specific-Runs (err e, data_of) vp runs = runs

set_specific-Frame : (r : Result (List Call) × (ℕ → ℕ)) (vp : Vp) → Frame vp (set_specific r vp)
set_specific-Frame (ok calls, data_of) vp = record { current = refl; idle = refl; io = refl }
set_specific-Frame (err e, data_of) vp = record { current = refl; idle = refl; io = refl }

-- A call by a thread other than the idle one does not fail, and leaves a thread running.
module _ (k : Kernel) (vp : Vp) (runs : Runs vp) (calls : Calls vp) where
  stays : {vp' : Vp} → Runs vp' → Frame vp vp' → Stands false vp'
  stays {vp'} h f = record { runs = h; place = Calls-Frame vp calls f }

  call-Goes : (op : Operation) → Admissible op vp → Goes (call k op vp)
  unfolding call
  call-Goes (usleeps usecs) a = Keeps-switches _ (usleep-Keeps usecs vp runs calls)
  call-Goes (polls pds timeout) a =
      Keeps-switches _ (poll-Keeps timeout pds vp runs calls k.memory k.ctl)
  call-Goes (makes_cond fresh) a =
      goes false (stays (cond_new-Runs fresh vp runs) (cond_new-Frame fresh vp))
  call-Goes (waits_for c timeout) a =
      Keeps-switches _ (cond_timedwait-Keeps (in_cond c) c timeout vp runs calls)
  call-Goes (signals c) a =
      let done = cond_signal-Signalled c vp runs in
      Goes-Vp false _ done.value done.returned
        (stays done.holds.1 (Signalled-Frame vp _ done.value done.holds.0))
  call-Goes (broadcasts c) a =
      let done = cond_broadcast-Onward c vp runs in
      Goes-Vp false _ done.value done.returned (stays done.holds.0 done.holds.1)
  call-Goes (makes_mutex fresh) a =
      goes false (stays (mutex_new-Runs fresh vp runs) (mutex_new-Frame fresh vp))
  call-Goes (locks m) a = Keeps-switches _ (mutex_lock-Keeps m vp runs calls)
  call-Goes (tries m) a =
      goes false (stays (mutex_trylock-Runs m vp runs) (mutex_trylock-Frame m vp))
  call-Goes (unlocks m) a =
      goes false (stays (mutex_unlock-Runs m vp runs).1 (mutex_unlock-Frame m vp))
  call-Goes (interrupts t) a =
      let done = thread_interrupt-Interrupted t vp runs in
      Goes-Vp false _ done.value done.returned
        (stays done.holds.1 (Interrupted-Frame t vp done.value done.holds.0))
  call-Goes (joins t) a = Keeps-switches _ (thread_join-Keeps t vp runs calls)
  call-Goes (exits retval) a =
      let done = thread_exit-Runs retval vp runs calls in
      Goes-Vp true _ done.value done.returned done.holds
  call-Goes (creates lay m fresh joinable size) a = goes false (
      stays (thread_create-Created lay m fresh joinable size vp runs a).1
        (thread_create-Frame lay m fresh joinable size vp))
  call-Goes (makes_key destructor) a = goes false (
      stays (record { valid = runs.valid; current_runs = runs.current_runs })
        (record { current = refl; idle = refl; io = refl }))
  call-Goes (sets key value) a =
      let r = setspecific vp.keys key value (me vp).private_data in
      goes false (stays (set_specific-Runs r vp runs) (set_specific-Frame r vp))

  perform-Goes : (op : Operation) → Admissible op vp → faults op vp ≡ false → Goes (perform k op vp)
  unfolding perform
  perform-Goes op a h = rw h (call-Goes op a)

-- So does a thread that goes on where it was left.
module _ (k : Kernel) (vp : Vp) (runs : Runs vp) (other : (vp.current == vp.idle) ≡ false) where
  -- A thread that is not in `st_poll` has no poll on the queue.
  elsewhere-Calls : is_in_poll (me vp).context ≡ false → Calls vp
  elsewhere-Calls h = record { other = other; off = ground (arith, runs.valid.polls vp.current, h) }

  resume-Goes : (c : Context) → is_in_poll (me vp).context ≡ is_in_poll c → Goes (resume k c vp)
  unfolding resume
  resume-Goes in_main e = goes false (record { runs = runs; place = elsewhere-Calls e })
  resume-Goes in_idle e = goes false (record { runs = runs; place = elsewhere-Calls e })
  resume-Goes in_usleep e = goes false (usleep_resume-Stands vp runs (elsewhere-Calls e))
  resume-Goes in_exit e = goes true (thread_exit_resume-Stands vp runs (elsewhere-Calls e))
  resume-Goes in_poll e = goes false (poll_resume-Stands k.ctl vp runs other)
  resume-Goes (in_cond c) e = goes false (record {
    runs = cond_wait_resume-Runs c vp runs;
    place = cond_wait_resume-Calls c vp (elsewhere-Calls e);
  })
  resume-Goes (in_lock m) e = goes false (record {
    runs = mutex_lock_resume-Runs m vp runs;
    place = Calls-Frame vp (elsewhere-Calls e) (mutex_lock_resume-Frame m vp);
  })
  resume-Goes (in_join t term) e =
      Keeps-switches _ (thread_join_resume-Keeps t term vp runs (elsewhere-Calls e))

Goes-machine :
    (o : Option (Bool × Vp))
    → Goes o
    → Returns (λ m. Stands m.switched m.vp) (o >>= λ r. some (machine r))
Goes-machine o goes =
    rw goes.returned (record { value = machine goes.value; returned = refl; holds = goes.holds })

some-inj : {a b : Machine} → some a ≡ some b → a ≡ b
some-inj {a} {b} e = cc

-- The idle thread has been switched to.
idle_stands : (b : Bool) (vp : Vp) → Stands b vp → (vp.current == vp.idle) ≡ true → Stands true vp
idle_stands true vp stands idle = stands
idle_stands false vp stands idle = absurd (ground (arith, idle, stands.place.other))

-- If a thread makes a call now, its arguments are ones that the C program can work with.
abbrev pub Sound : Event → Machine → Type 0
Sound e m =
    (m.vp.current == m.vp.idle) ≡ false → m.switched ≡ false → faults e.operation m.vp ≡ false

-- In a state in which the invariant holds and a thread runs, whatever comes next does not fail,
-- and a thread runs afterwards: no null pointer is followed in the timeout heap, the clock's loop
-- over the heap ends, and the array for poll has room for all descriptors. A thread that makes a
-- call must not give null for a condition variable, a mutex or a thread (but may, if it was
-- interrupted, where it waits for a condition variable or locks), nor a descriptor from 2 ^ 30 on
-- to epoll, nor a stack size that no int can round; a new thread must get memory of its own; and
-- when the idle thread runs, the array for poll must get memory if it has to grow, and with epoll
-- the process must not have forked.
pub turn-Runs :
    (e : Event) (m : Machine)
    → Stands m.switched m.vp
    → AdmissibleEvent e m.vp
    → Sound e m
    → Returns (λ m'. Stands m'.switched m'.vp) (turn e m)
unfolding turn
turn-Runs e m stands a sound = Goes-machine _ (elim (Bool-cases (m.vp.current == m.vp.idle)) [
  | inl idle ↦
      let done =
        idle_round-Stands (dispatch e.kernel) e.now e.time m.vp
          (dispatch-Dispatches e.kernel m.vp (a.1 idle) (idle_stands m.switched m.vp stands idle)
            idle)
          (idle_stands m.switched m.vp stands idle) idle in
      rw (idle, done.returned) (goes true done.holds)
  | inr other ↦ rw other (goes_on m.switched refl stands other)
])
  where
    goes_on :
        (b : Bool)
        → m.switched ≡ b
        → Stands b m.vp
        → (m.vp.current == m.vp.idle) ≡ false
        → Goes (
            if b then resume e.kernel (me m.vp).context m.vp else perform e.kernel e.operation m.vp)
    goes_on true s h other = resume-Goes e.kernel m.vp h.runs other (me m.vp).context refl
    goes_on false s h other =
        perform-Goes e.kernel m.vp h.runs h.place e.operation a.0 (sound other s)

-- A call that comes to an end had such arguments.
done-Sound : (e : Event) (m m' : Machine) → turn e m ≡ some m' → Sound e m
unfolding turn perform
done-Sound e m m' did other fresh = elim (Bool-cases (faults e.operation m.vp)) [
  | inr sound ↦ sound
  | inl bad ↦
      let fails : turn e m ≡ none = rw (other, fresh, bad) refl in
      let apart : some m' ≡ none = sym did ∙ fails in absurd (cc)
]

-- From a state in which the invariant holds and a thread runs, every sequence of turns of the
-- library (calls by the application's threads that the C program can carry out, continuations of
-- threads that were switched to, rounds of the idle thread with the event system's dispatch)
-- leads to such a state again; in it the event system has exactly the descriptors that the
-- waiting polls ask for, by their counts. New threads must get memory of their own; when the idle
-- thread runs, the array for poll must get memory if it has to grow, and with epoll the process
-- must not have forked.
pub Steps-Runs : (m m' : Machine) → Stands m.switched m.vp → Steps m m' → Stands m'.switched m'.vp
Steps-Runs m m' stands (here _) = stands
Steps-Runs m m'' stands (there e _ m' a did rest) =
    let done = turn-Runs e m stands a (done-Sound e m m' did) in
    let same : done.value ≡ m' = some-inj (sym done.returned ∙ did) in
    Steps-Runs m' m'' (subst (λ (n : Machine). Stands n.switched n.vp) same done.holds) rest
