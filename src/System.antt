-- ===== src/System.antt =====
-- The library at work: the application's threads call it one after the other, and a thread that is
-- switched to goes on behind its `_ST_SWITCH_CONTEXT`.
pub mod Errors
pub mod Turns
use state_thread.Base.{
  ℕ, ◌+◌, ◌^◌, Bool, true, false, ◌&&◌, not, ltb, null, Option, none, some, List, [], ◌∷◌, ◌++◌,
  if◌then◌else◌, ◌==◌, update, ◌>>=◌, Result, ok, err, ◌≡◌,
}
use state_thread.Key.{key_create, setspecific, Call}
use state_thread.Stk.{Memory}
use state_thread.Vp.{
  Vp, Context, Entered, returns, blocks, me, set_thread, in_main, in_idle, in_usleep, in_exit,
  in_cond, in_lock, in_join, in_poll,
}
use state_thread.Select.{Pollfd}
use state_thread.Ioq.{Eventsys, epoll_system}
use state_thread.Dispatch.{Kernel}
use state_thread.Events.{dispatch}
use state_thread.Events.Systems.{Answers}
use state_thread.Polling.{poll, poll_resume}
use state_thread.Sync.{
  usleep, usleep_resume, cond_new, cond_timedwait, cond_wait_resume, cond_signal, cond_broadcast,
  mutex_new, mutex_lock, mutex_lock_resume, mutex_trylock, mutex_unlock,
}
use state_thread.Sched.{
  thread_interrupt, thread_exit, thread_exit_resume, thread_join, thread_join_resume, idle_round,
}
use state_thread.Start.{Layout, thread_create}
use state_thread.Start.Create.{IsUnused}

-- A call of the library with its arguments and the memory it gets.
pub data Operation : Type 0 where
  usleeps : ℕ → Operation
  polls : List Pollfd → (timeout : ℕ) → Operation
  makes_cond : (fresh : ℕ) → Operation
  waits_for : (cvar timeout : ℕ) → Operation
  signals broadcasts : (cvar : ℕ) → Operation
  makes_mutex : (fresh : ℕ) → Operation
  locks tries unlocks : (mutex : ℕ) → Operation
  interrupts joins : (thread : ℕ) → Operation
  exits : (retval : ℕ) → Operation
  creates : Layout → Memory → (fresh : ℕ) → (joinable : Bool) → (stk_size : ℕ) → Operation
  makes_key : (destructor : ℕ) → Operation
  sets : (key value : ℕ) → Operation

-- Has another thread been switched to?
abbrev pub switches : {A : Type 0} → Entered A × Vp → Bool × Vp
switches (returns _, vp) = (false, vp)
switches (blocks, vp) = (true, vp)

abbrev with_private : List Call → (ℕ → ℕ) → Vp → Vp
with_private calls data_of vp =
    record (set_thread vp.current (record (me vp) { private_data = data_of }) vp) {
      destroyed = vp.destroyed ++ calls;
    }

abbrev pub set_specific : Result (List Call) × (ℕ → ℕ) → Vp → Vp
set_specific (ok calls, data_of) vp = with_private calls data_of vp
set_specific (err _, _) vp = vp

-- The body of a call with arguments that it can work with
pub call : Kernel → Operation → Vp → Option (Bool × Vp)
call k (usleeps usecs) vp = usleep usecs vp >>= λ r. some (switches r)
call k (polls pds timeout) vp = poll k.memory k.ctl pds timeout vp >>= λ r. some (switches r)
call k (makes_cond fresh) vp = some (false, (cond_new fresh vp).1)
call k (waits_for c timeout) vp = cond_timedwait c timeout vp >>= λ r. some (switches r)
call k (signals c) vp = cond_signal c vp >>= λ vp'. some (false, vp')
call k (broadcasts c) vp = cond_broadcast c vp >>= λ vp'. some (false, vp')
call k (makes_mutex fresh) vp = some (false, (mutex_new fresh vp).1)
call k (locks m) vp = mutex_lock m vp >>= λ r. some (switches r)
call k (tries m) vp = some (false, (mutex_trylock m vp).1)
call k (unlocks m) vp = some (false, (mutex_unlock m vp).1)
call k (interrupts t) vp = thread_interrupt t vp >>= λ vp'. some (false, vp')
call k (joins t) vp = thread_join t vp >>= λ r. some (switches r)
call k (exits retval) vp = thread_exit retval vp >>= λ vp'. some (true, vp')
call k (creates lay m fresh joinable size) vp =
    some (false, (thread_create lay m fresh joinable size vp).1)
call k (makes_key destructor) vp =
    some (false, record vp { keys = (key_create destructor vp.keys).1 })
call k (sets key value) vp =
    some (false, set_specific (setspecific vp.keys key value (me vp).private_data) vp)

-- The descriptors for which the growth of epoll's array stays within an int
abbrev all_small : List Pollfd → Bool
all_small [] = true
all_small (pd ∷ pds) = ltb pd.fd (2 ^ 30) && all_small pds

abbrev is_epoll : Eventsys → Bool
is_epoll epoll_system = true
is_epoll _ = false

-- With which arguments does the C program follow a null pointer or leave the range of an int? A thread
-- that was interrupted does not come so far in the calls that wait, but for a join.
abbrev pub faults : Operation → Vp → Bool
faults (waits_for c timeout) vp = c == null && not (me vp).interrupt
faults (signals c) vp = c == null
faults (broadcasts c) vp = c == null
faults (locks m) vp = m == null && not (me vp).interrupt
faults (tries m) vp = m == null
faults (unlocks m) vp = m == null
faults (interrupts t) vp = t == null
faults (joins t) vp = t == null
faults (polls pds timeout) vp =
    is_epoll vp.io.eventsys && not (all_small pds) && not (me vp).interrupt
faults (creates lay m fresh joinable size) vp = ltb (2 ^ 31) (size + vp.pagesize)
faults _ vp = false

pub perform : Kernel → Operation → Vp → Option (Bool × Vp)
unfolding call
perform k op vp = if faults op vp then none else call k op vp

-- What the thread that is switched to does first. A thread that starts calls its function.
pub resume : Kernel → Context → Vp → Option (Bool × Vp)
resume k in_main vp = some (false, vp)
resume k in_idle vp = some (false, vp)
resume k in_usleep vp = some (false, (usleep_resume vp).1)
resume k in_poll vp = some (false, (poll_resume k.ctl vp).1)
resume k (in_cond c) vp = some (false, (cond_wait_resume c vp).1)
resume k (in_lock m) vp = some (false, (mutex_lock_resume m vp).1)
resume k (in_join t term) vp = thread_join_resume t term vp >>= λ r. some (switches r)
resume k in_exit vp = some (true, thread_exit_resume vp)

-- The memory that the system gives to a new thread is not that of another one.
abbrev pub Admissible : Operation → Vp → Type 0
Admissible (creates lay m fresh joinable size) vp =
    IsUnused (thread_create lay m fresh joinable size vp).0 vp
Admissible _ vp = Unit {0}

-- What happens next: the call that the application makes, and the time and what the system
-- answers.
pub record Event : Type 0 where
  pub now : ℕ
  pub time : ℕ
  pub kernel : Kernel
  pub operation : Operation

-- When the idle thread runs, there is memory for the array of the event system with poll if it has to
-- grow, and with epoll the process has not forked.
abbrev pub AdmissibleEvent : Event → Vp → Type 0
AdmissibleEvent e vp =
    Admissible e.operation vp × ((vp.current == vp.idle) ≡ true → Answers e.kernel vp)

pub record Machine : Type 0 where
  pub vp : Vp
  pub switched : Bool

abbrev pub machine : Bool × Vp → Machine
machine (b, vp) = record { vp = vp; switched = b }

-- The idle thread makes a round, a thread that was switched to goes on, one that runs makes a call.
-- After the last round of the idle thread the program has ended, and nothing changes any more.
pub turn : Event → Machine → Option Machine
unfolding perform resume
turn e m =
    (if m.vp.current == m.vp.idle
      then (idle_round (dispatch e.kernel) e.now e.time m.vp >>= λ r. some (true, r.1))
      else if m.switched
      then resume e.kernel (me m.vp).context m.vp
      else perform e.kernel e.operation m.vp)
    >>= λ r. some (machine r)

-- The machines that are reached by turns.
pub data Steps : Machine → Machine → Type 0 where
  here : (m : Machine) → Steps m m
  there :
      (e : Event) (m m' : Machine) {m'' : Machine}
      → AdmissibleEvent e m.vp
      → turn e m ≡ some m'
      → Steps m' m''
      → Steps m m''
