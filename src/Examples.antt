-- ===== src/Examples.antt =====
-- A virtual processor with threads in every state, on which the theorems apply.
pub mod Heap
pub mod Kqueues
pub mod Queues
pub mod Threads
pub mod Twins
pub mod Memory
pub mod Descriptors
pub mod Polls
use state_thread.Base.{
  ℕ, ◌≡◌, ◌≢◌, ◌≤◌, ◌<◌, refl, Bool, true, false, Option, none, some, List, [], ◌∷◌, if◌then◌else◌,
  ◌==◌, null, Returns, arith,
}
use state_thread.SleepQ.{Tree, leaf, node, SleepQ, heap_delete, add_sleep_q}
use state_thread.SleepQ.Shape.{count, IsSleepQ, Shape, le-index}
use state_thread.Select.{Pollfd, no_revents, FdSet, no_fds, Select}
use state_thread.Select.Counts.{IsSelect}
use state_thread.Epoll.{Epoll}
use state_thread.Ioq.{IoState, select_system}
use state_thread.Ioq.Gather.{gather, Serves}
use state_thread.Key.{KeyTable}
use state_thread.Stk.{StackPool}
use state_thread.Vp.{
  Vp, Thread, State, running, runnable, cond_wait, lock_wait, zombie, sleeping, in_main, in_cond,
  in_lock, Context, in_exit, in_poll, io_wait,
}
use state_thread.Vp.Invariant.{IsVp}
use state_thread.Vp.Switch.{Runs, Calls}

abbrev pub a_thread : State → (on_sleepq : Bool) → (term : ℕ) → Context → Thread
a_thread s on term c = record {
  state = s;
  primordial = false;
  idle_thread = false;
  on_sleepq = on;
  interrupt = false;
  timedout = false;
  retval = null;
  stack = none;
  private_data = λ _. null;
  term = term;
  context = c;
}

-- 5 is the idle thread, 9 runs, 20 and 21 wait for the condition variable 30, the first with a
-- timeout, 22 for the mutex 40 of 9, 23 has ended, 24 can run, 25 sleeps, 26
-- polls.
abbrev a_state : ℕ → Thread
a_state t =
    if t == 5
    then a_thread runnable false null in_main
    else if t == 20
    then a_thread cond_wait true null (in_cond 30)
    else if t == 21
    then a_thread cond_wait false null (in_cond 30)
    else if t == 22
    then a_thread lock_wait false null (in_lock 40)
    else if t == 23
    then a_thread zombie false 31 in_exit
    else if t == 24
    then a_thread runnable false null in_main
    else if t == 25
    then a_thread sleeping true null in_main
    else if t == 26
    then a_thread io_wait false null in_poll
    else a_thread running false null in_main

abbrev pub queue : SleepQ
queue = record {
  due = λ t. if t == 20 then 100 else 200;
  heap_index = λ t. if t == 20 then 1 else 2;
  sleep_q = node 20 (node 25 leaf leaf) leaf;
  sleepq_size = 2;
}

queue-Shape : Shape 1 2 (node 20 (node 25 leaf leaf) leaf)
queue-Shape [] = refl
queue-Shape (true ∷ p) = ground (arith, le-index 3 p)
queue-Shape (false ∷ []) = refl
queue-Shape (false ∷ true ∷ p) = ground (arith, le-index 5 p)
queue-Shape (false ∷ false ∷ p) = ground (arith, le-index 4 p)

pub queue-IsSleepQ : IsSleepQ queue
queue-IsSleepQ = record {
  heap = (omega arith, tt, (tt, tt, tt, tt), tt);
  shape = queue-Shape;
  indexed = (refl, (refl, tt, tt), tt);
  distinct = λ i. ground arith;
}

abbrev pub a_pollfd : (fd : ℕ) → (pollin pollout : Bool) → Pollfd
a_pollfd fd pollin pollout = record {
  fd = fd;
  pollin = pollin;
  pollout = pollout;
  pollpri = false;
  other = false;
  revents = no_revents;
}

-- One poll reads from descriptor 7.
abbrev pub one_fd : FdSet
one_fd = record { member = λ i. if i == 7 then true else false; cnt = λ i. if i == 7 then 1 else 0 }

abbrev pub reader : Select
reader = record { read_set = one_fd; write_set = no_fds; excep_set = no_fds; maxfd = 8 }

pub reader-IsSelect : IsSelect reader
reader-IsSelect = record {
  read_valid = λ i. ground arith;
  write_valid = λ i. refl;
  excep_valid = λ i. refl;
}

abbrev pub no_polls : Epoll
no_polls = record {
  read_cnt = λ i. 0;
  write_cnt = λ i. 0;
  excep_cnt = λ i. 0;
  revents = λ i. no_revents;
  fd_data_size = 4;
  evtlist_cnt = 0;
  evtlist_size = 4;
  pid = 1;
}

-- Thread 26 polls for it.
abbrev pub io : IoState
io = record {
  eventsys = select_system;
  io_q = 26 ∷ [];
  pollqs = λ t.
      if t == 26
      then record { pds = a_pollfd 7 true false ∷ []; on_ioq = true }
      else record { pds = []; on_ioq = false };
  select = reader;
  poll_data = record { pollfds_size = 64; fdcnt = 0 };
  epoll = no_polls;
}

io-Serves : Serves io
unfolding gather
io-Serves = record {
  valid = reader-IsSelect;
  in_ = λ i. ground arith;
  out_ = λ i. ground arith;
  pri_ = λ i. ground arith;
}

abbrev pub vp : Vp
vp = record {
  threads = a_state;
  conds = λ c. if c == 30 then 20 ∷ 21 ∷ [] else [];
  mutexes = λ m.
      if m == 40
      then record { owner = 9; wait_q = 22 ∷ [] }
      else record { owner = null; wait_q = [] };
  idle = 5;
  current = 9;
  active_count = 7;
  last_clock = 50;
  curr_time = 0;
  last_tset = 0;
  run_q = 24 ∷ [];
  zombie_q = 23 ∷ [];
  sleepq = queue;
  io = io;
  keys = record { key_max = 1; destructors = λ k. 77 };
  pool = record { free_stacks = []; num_free_stacks = 0; randomize_stacks = false };
  pagesize = 4096;
  destroyed = [];
}

pub vp-Runs : Runs vp
vp-Runs = record {
  valid = record {
    heap = queue-IsSleepQ;
    timed = λ i. ground arith;
    waits = λ i h. ground arith;
    ready = λ i. ground arith;
    dead = λ i. ground arith;
    idles = refl;
    serves = io-Serves;
    queued = λ i. ground arith;
    polls = λ i h. ground arith;
  };
  current_runs = refl;
}

pub vp-Calls : Calls vp
vp-Calls = record { other = refl; off = refl }
