-- ===== src/Vp.antt =====
-- The state of the library, common.h: threads, the virtual processor's queues, condition variables
-- and mutexes; and the operations on the queues, which sched.c and the macros of common.h give.
-- Addresses are numbers, `null` is the null pointer. A circular list is the list of its elements.
pub mod Errors
pub mod Invariant
pub mod Switch
pub mod Timeouts
pub mod Calls
use state_thread.Base.{
  ℕ, ◌+◌, ◌-◌, ◌%◌, ◌^◌, Bool, true, false, Option, some, List, [], ◌∷◌, ◌++◌, if◌then◌else◌,
  update, ◌>>=◌, remove, Result, ok, err, eintr, ◌==◌,
}
use state_thread.Key.{KeyTable, Call}
use state_thread.Stk.{Stack, StackPool}
use state_thread.Ioq.{IoState}
use state_thread.SleepQ.{SleepQ, heap_delete, add_sleep_q}

pub data State : Type 0 where
  running runnable io_wait lock_wait cond_wait sleeping zombie suspended : State

abbrev pub is_cond_wait : State → Bool
is_cond_wait cond_wait = true
is_cond_wait _ = false

abbrev pub is_lock_wait : State → Bool
is_lock_wait lock_wait = true
is_lock_wait _ = false

abbrev pub is_running : State → Bool
is_running running = true
is_running _ = false

abbrev pub is_zombie : State → Bool
is_zombie zombie = true
is_zombie _ = false

-- Can it run, or does it?
abbrev pub is_ready : State → Bool
is_ready running = true
is_ready runnable = true
is_ready _ = false

-- Where a thread goes on when its context is restored: behind the `_ST_SWITCH_CONTEXT` of this call.
pub data Context : Type 0 where
  in_main in_idle in_usleep in_exit in_poll : Context
  in_cond in_lock : ℕ → Context
  in_join : (thread term : ℕ) → Context

-- struct _st_thread; `flags` bit by bit. The members `due`, `left`, `right` and `heap_index` are in
-- the timeout heap, `links` and `wait_links` in the lists.
pub record Thread : Type 0 where
  pub state : State
  pub primordial : Bool
  pub idle_thread : Bool
  pub on_sleepq : Bool
  pub interrupt : Bool
  pub timedout : Bool
  pub retval : ℕ
  pub stack : Option Stack
  pub private_data : ℕ → ℕ
  pub term : ℕ
  pub context : Context

-- struct _st_mutex
pub record Mutex : Type 0 where
  pub owner : ℕ
  pub wait_q : List ℕ

-- struct _st_vp, the globals of sched.c, and what is allocated.
pub record Vp : Type 0 where
  pub threads : ℕ → Thread
  pub conds : ℕ → List ℕ
  pub mutexes : ℕ → Mutex
  pub idle : ℕ
  pub current : ℕ
  pub active_count : ℕ
  pub last_clock : ℕ
  pub curr_time : ℕ
  pub last_tset : ℕ
  pub run_q : List ℕ
  pub zombie_q : List ℕ
  pub sleepq : SleepQ
  pub io : IoState
  pub keys : KeyTable
  pub pool : StackPool
  pub pagesize : ℕ
  -- The destructor calls that were made, oldest first.
  pub destroyed : List Call

-- Unsigned 64-bit, as st_utime_t is.
abbrev pub utime_mod : ℕ
utime_mod = 2 ^ 64

abbrev pub no_timeout : ℕ
no_timeout = utime_mod - 1

abbrev pub me : Vp → Thread
me vp = vp.threads vp.current

abbrev pub set_thread : ℕ → Thread → Vp → Vp
set_thread t th vp = record vp { threads = update vp.threads t th }

abbrev pub set_io : IoState → Vp → Vp
set_io io vp = record vp { io = io }

abbrev pub set_state : ℕ → State → Vp → Vp
set_state t s vp = set_thread t (record (vp.threads t) { state = s }) vp

abbrev pub set_on_sleepq : ℕ → Bool → Vp → Vp
set_on_sleepq t b vp = set_thread t (record (vp.threads t) { on_sleepq = b }) vp

abbrev pub set_interrupt : ℕ → Bool → Vp → Vp
set_interrupt t b vp = set_thread t (record (vp.threads t) { interrupt = b }) vp

abbrev pub set_timedout : ℕ → Bool → Vp → Vp
set_timedout t b vp = set_thread t (record (vp.threads t) { timedout = b }) vp

abbrev pub set_context : ℕ → Context → Vp → Vp
set_context t c vp = set_thread t (record (vp.threads t) { context = c }) vp

-- _ST_ADD_RUNQ, _ST_DEL_RUNQ, _ST_ADD_ZOMBIEQ, _ST_DEL_ZOMBIEQ
abbrev pub add_runq : ℕ → Vp → Vp
add_runq t vp = record vp { run_q = vp.run_q ++ t ∷ [] }

abbrev pub del_runq : ℕ → Vp → Vp
del_runq t vp = record vp { run_q = remove t vp.run_q }

abbrev pub add_zombieq : ℕ → Vp → Vp
add_zombieq t vp = record vp { zombie_q = vp.zombie_q ++ t ∷ [] }

abbrev pub del_zombieq : ℕ → Vp → Vp
del_zombieq t vp = record vp { zombie_q = remove t vp.zombie_q }

-- `_st_add_sleep_q`
pub vp_add_sleep_q : ℕ → ℕ → Vp → Option Vp
vp_add_sleep_q t timeout vp = do
  q ← add_sleep_q vp.sleepq t ((vp.last_clock + timeout) % utime_mod)
  some (set_on_sleepq t true (record vp { sleepq = q }))

-- `_st_del_sleep_q`
unfoldable pub vp_del_sleep_q : ℕ → Vp → Option Vp
vp_del_sleep_q t vp = do
  q ← heap_delete vp.sleepq t
  some (set_on_sleepq t false (record vp { sleepq = q }))

-- `if (thread->flags & _ST_FL_ON_SLEEPQ) _ST_DEL_SLEEPQ(thread)`
drop_timeout : ℕ → Vp → Option Vp
drop_timeout t vp = if (vp.threads t).on_sleepq then vp_del_sleep_q t vp else some vp

-- `thread->state = _ST_ST_RUNNABLE; _ST_ADD_RUNQ(thread)`
abbrev pub make_runnable : ℕ → Vp → Vp
make_runnable t vp = add_runq t (set_state t runnable vp)

-- A thread that waits is made runnable, its timeout dropped.
pub wake : ℕ → Vp → Option Vp
unfolding drop_timeout
wake t vp = drop_timeout t vp >>= λ vp'. some (make_runnable t vp')

-- What a call does that can block: it returns, or another thread runs and it goes on later.
pub data Entered {ℓ} (A : Type ℓ) : Type ℓ where
  returns : A → Entered A
  blocks : Entered A

-- `thread->state = _ST_ST_RUNNING; _ST_RESTORE_CONTEXT(thread)`
abbrev pub resume_thread : ℕ → Vp → Vp
resume_thread t vp = set_state t running (record vp { current = t })

-- `_st_vp_schedule`
pub vp_schedule : Vp → Vp
vp_schedule vp = elim vp.run_q [
  | [] ↦ resume_thread vp.idle vp
  | t ∷ rest ↦ resume_thread t (del_runq t vp)
]

-- _ST_SWITCH_CONTEXT(me)
pub switch_context : Context → Vp → Vp
unfolding vp_schedule
switch_context c vp = vp_schedule (set_context vp.current c vp)

-- `if (me->flags & _ST_FL_INTERRUPT) { me->flags &= ~_ST_FL_INTERRUPT; errno = EINTR; return -1; }`,
-- or what follows.
abbrev pub unless_interrupted :
    {A : Type 0} → Vp → Option (Entered (Result A) × Vp) → Option (Entered (Result A) × Vp)
unless_interrupted vp rest =
    if (me vp).interrupt
    then some (returns (err eintr), set_interrupt vp.current false vp)
    else rest

-- `if (timeout != ST_UTIME_NO_TIMEOUT) _ST_ADD_SLEEPQ(me, timeout)`
pub add_timeout : ℕ → Vp → Option Vp
add_timeout timeout vp =
    if timeout == no_timeout then some vp else vp_add_sleep_q vp.current timeout vp
