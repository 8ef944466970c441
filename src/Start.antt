-- ===== src/Start.antt =====
-- sched.c: `st_thread_create` and `st_init`. Memory comes from the system and is an argument; the
-- stack grows downwards.
pub mod Create
pub mod Init
use state_thread.Base.{
  ℕ, zero, suc, ◌+◌, ◌-◌, ◌*◌, ◌%◌, Bool, true, false, ◌&&◌, ◌||◌, not, Option, none, some, List,
  [], ◌∷◌, ◌++◌, if◌then◌else◌, ◌==◌, ltb, update, null, ◌>>=◌, remove, Result, ok, err, eintr,
  einval, ebusy, edeadlk, eperm, etime,
}
use state_thread.Key.{thread_cleanup, keys_max, KeyTable}
use state_thread.Stk.{Stack, StackPool, Memory, stack_free, stack_new, round_stack_size}
use state_thread.Select.{select_init}
use state_thread.Epoll.{epoll_data}
use state_thread.PollArray.{min_pollfds_size}
use state_thread.Ioq.{Eventsys, IoState}
use state_thread.SleepQ.{Tree, leaf, node, SleepQ}
use state_thread.Vp.{
  State, Thread, Mutex, Vp, running, runnable, zombie, is_zombie, is_ready, is_cond_wait, Context,
  in_main, in_idle, in_usleep, in_cond, in_lock, in_join, in_exit, me, no_timeout, utime_mod,
  set_thread, set_state, set_interrupt, set_timedout, set_context, make_runnable, wake, Entered,
  returns, blocks, switch_context, unless_interrupted, add_timeout, vp_add_sleep_q, vp_del_sleep_q,
  add_zombieq, del_zombieq, add_runq, del_runq,
}
use state_thread.Sync.{cond_new}

-- Sizes that the platform fixes.
pub record Layout : Type 0 where
  pub pointer_size : ℕ
  pub thread_size : ℕ
  pub pad_size : ℕ

-- Where `st_thread_create` puts the thread object on a stack that grows downwards, and the stack
-- pointer below it.
unfoldable pub thread_address : Layout → Stack → ℕ
thread_address lay ts = ts.stk_top - keys_max * lay.pointer_size - lay.thread_size

abbrev stack_pointer : Layout → Stack → ℕ
stack_pointer lay ts = let sp = thread_address lay ts in sp - sp % 64 - lay.pad_size

abbrev new_thread : Stack → ℕ → Thread
new_thread ts term = record {
  state = runnable;
  primordial = false;
  idle_thread = false;
  on_sleepq = false;
  interrupt = false;
  timedout = false;
  retval = null;
  stack = some ts;
  private_data = λ _. null;
  term = term;
  context = in_main;
}

abbrev pub start_thread : ℕ → Stack → ℕ → Vp → ℕ × Vp
start_thread t ts term vp = (
  t,
  add_runq t (set_thread t (new_thread ts term) (record vp { active_count = vp.active_count + 1 })),
)

-- `joinable` and the termination condition variable
abbrev pub with_term : Layout → Bool → (fresh : ℕ) → Option Stack × StackPool → Vp → ℕ × Vp
with_term lay joinable fresh (none, pool) vp = (null, record vp { pool = pool })
with_term lay false fresh (some ts, pool) vp =
    start_thread (thread_address lay ts) ts null (record vp { pool = pool })
with_term lay true fresh (some ts, pool) vp =
    if fresh == null
    then (null, record vp { pool = stack_free (some ts) pool })
    else start_thread (thread_address lay ts) ts fresh
        (cond_new fresh (record vp { pool = pool })).1

-- `st_thread_create`; the result is the thread, or null. `fresh` is the memory for the condition
-- variable.
unfoldable pub thread_create : Layout → Memory → (fresh : ℕ) → Bool → (stk_size : ℕ) → Vp → ℕ × Vp
thread_create lay m fresh joinable stk_size vp =
    with_term lay joinable fresh
      (stack_new vp.pagesize (round_stack_size vp.pagesize stk_size) m vp.pool) vp

-- The event system that is in use, and what the system says: the process and the limit of descriptors.
pub record Setup : Type 0 where
  pub eventsys : Eventsys
  pub pid : ℕ
  pub fdlim : ℕ

-- An empty queue of polls, and the data of `_st_select_init`, `_st_poll_init` and
-- `_st_epoll_init`
abbrev blank_io : Setup → IoState
blank_io sys = record {
  eventsys = sys.eventsys;
  io_q = [];
  pollqs = λ _. record { pds = []; on_ioq = false };
  select = select_init;
  poll_data = record { pollfds_size = min_pollfds_size; fdcnt = 0 };
  epoll = epoll_data sys.pid sys.fdlim;
}

-- The memory of a thread after `calloc`, the timeout heap and the virtual processor after `memset`.
abbrev blank_thread : Thread
blank_thread = record {
  state = running;
  primordial = false;
  idle_thread = false;
  on_sleepq = false;
  interrupt = false;
  timedout = false;
  retval = null;
  stack = none;
  private_data = λ _. null;
  term = null;
  context = in_main;
}

-- What is not in `_st_this_vp` stays: the condition variables and mutexes, the clock's globals, the keys
-- and the free stacks.
abbrev pub blank_vp : Setup → (pagesize last_clock : ℕ) → Vp → Vp
blank_vp sys pagesize last_clock vp = record {
  threads = λ _. blank_thread;
  conds = vp.conds;
  mutexes = vp.mutexes;
  idle = null;
  current = null;
  active_count = 0;
  last_clock = last_clock;
  curr_time = vp.curr_time;
  last_tset = vp.last_tset;
  run_q = [];
  zombie_q = [];
  sleepq = record { due = λ _. 0; heap_index = λ _. 0; sleep_q = leaf; sleepq_size = 0 };
  io = blank_io sys;
  keys = vp.keys;
  pool = vp.pool;
  pagesize = pagesize;
  destroyed = [];
}

-- The idle thread, made by `st_thread_create`, leaves the run queue.
abbrev pub take_idle : ℕ → Vp → Vp
take_idle idle vp =
    let flagged = record (vp.threads idle) {
      primordial = false;
      idle_thread = true;
      on_sleepq = false;
      interrupt = false;
      timedout = false;
    } in
    del_runq idle
      (record (set_thread idle flagged vp) { idle = idle; active_count = vp.active_count - 1 })

-- The thread that called `st_init` becomes the current one.
abbrev pub take_main : ℕ → Vp → Vp
take_main main vp = record (set_thread main (record blank_thread { primordial = true }) vp) {
  current = main;
  active_count = vp.active_count + 1;
}

abbrev pub init_threads : (main : ℕ) → ℕ × Vp → Option Vp
init_threads main (idle, vp) =
    if idle == null
    then none
    else if main == null
    then none
    else some (take_main main (take_idle idle vp))

-- `st_init` on a library that has no active thread, with an event system and `_st_io_init` that do
-- not fail; `none` is its failure. `main` is the memory for the primordial thread.
pub init : Setup → Layout → Memory → (main pagesize last_clock : ℕ) → Vp → Option Vp
unfolding thread_create
init sys lay m main pagesize last_clock vp =
    init_threads main (thread_create lay m null false 0 (blank_vp sys pagesize last_clock vp))
