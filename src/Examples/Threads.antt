-- ===== src/Examples/Threads.antt =====
-- The theorems on threads, applied.
use state_thread.Base.{
  null, ◌≡◌, refl, true, false, ◌||◌, some, none, [], if◌then◌else◌, ◌==◌, Returns, ok, err, eperm,
  remove, arith,
}
use state_thread.SleepQ.{SleepQ}
use state_thread.Vp.{
  running, suspended, in_usleep, in_main, Vp, returns, set_interrupt, resume_thread, wake,
}
use state_thread.Vp.Invariant.{IsVp, woken, wake_lem}
use state_thread.Vp.Switch.{Runs, Stands}
use state_thread.Sync.{cond_broadcast, mutex_lock_resume, mutex_unlock}
use state_thread.Sync.Broadcast.{Broadcast, waiters, cond_broadcast-Broadcast}
use state_thread.Sync.Locks.{
  unlocked, first_locker, mutex_unlock-Runs, mutex_unlock-mutex_lock_resume,
}
use state_thread.Sched.{thread_interrupt, thread_exit, thread_join, idle_round}
use state_thread.Sched.Life.{Interrupted, thread_interrupt-Interrupted, thread_exit-Runs}
use state_thread.Sched.Handover.{Joined, thread_exit-thread_join}
use state_thread.Sched.Idle.{idle_round-Stands}
use state_thread.Ioq.{select_system}
use state_thread.Epoll.{done}
use state_thread.Dispatch.{Kernel, some_ready}
use state_thread.Events.{dispatch}
use state_thread.Dispatch.Rounds.{Sent}
use state_thread.Events.Ready.{woken_by}
use state_thread.Events.Systems.{Answers, dispatch-Dispatches, dispatch-Sent}
use state_thread.Polling.{poll}
use state_thread.System.{Event, Machine, here, there, signals, turn}
use state_thread.System.Turns.{turn-Runs, Steps-Runs}
use state_thread.Examples.{vp, vp-Runs, vp-Calls, a_thread}

cond_broadcast-Broadcast_example :
    Returns (Broadcast vp (waiters vp.threads (vp.conds 30))) (cond_broadcast 30 vp)
cond_broadcast-Broadcast_example = cond_broadcast-Broadcast 30 vp vp-Runs (λ t. ground arith)

mutex_unlock-Runs_example :
    (mutex_unlock 40 vp ≡ (
      if (vp.mutexes 40).owner == vp.current
      then (ok tt, unlocked 40 (first_locker vp.threads (vp.mutexes 40).wait_q) vp)
      else (err eperm, vp)))
    × Runs (mutex_unlock 40 vp).1
mutex_unlock-Runs_example = mutex_unlock-Runs 40 vp vp-Runs

mutex_unlock-mutex_lock_resume_example :
    let vp' = resume_thread 22 (set_interrupt 22 true (mutex_unlock 40 vp).1) in
    ((mutex_lock_resume 40 vp').0 ≡ ok tt)
    × (((mutex_lock_resume 40 vp').1.mutexes 40).owner ≡ 22)
    × (((mutex_lock_resume 40 vp').1.mutexes 40).wait_q ≡ remove 22 (vp.mutexes 40).wait_q)
unfolding first_locker
mutex_unlock-mutex_lock_resume_example = mutex_unlock-mutex_lock_resume 40 22 true vp refl refl

thread_interrupt-Interrupted_example :
    Returns (λ vp'. Interrupted 20 vp vp' × Runs vp') (thread_interrupt 20 vp)
thread_interrupt-Interrupted_example = thread_interrupt-Interrupted 20 vp vp-Runs

thread_exit-Runs_example : Returns (Stands true) (thread_exit 3 vp)
thread_exit-Runs_example = thread_exit-Runs 3 vp vp-Runs vp-Calls

wake_lem_example : (q : SleepQ) × (wake 20 vp ≡ some (woken 20 q vp)) × IsVp (woken 20 q vp)
wake_lem_example = wake_lem 20 vp vp-Runs.valid (record { not_ready = refl; not_zombie = refl })

-- The running thread, joinable: its condition variable is 32.
abbrev joinable : Vp
joinable = record vp {
  threads = λ t. record (vp.threads t) { term = if t == 9 then 32 else (vp.threads t).term };
}

joinable-Runs : Runs joinable
joinable-Runs = record {
  valid = record {
    heap = vp-Runs.valid.heap;
    timed = vp-Runs.valid.timed;
    waits = vp-Runs.valid.waits;
    ready = vp-Runs.valid.ready;
    dead = vp-Runs.valid.dead;
    idles = vp-Runs.valid.idles;
    serves = vp-Runs.valid.serves;
    queued = vp-Runs.valid.queued;
    polls = λ i h. ground arith;
  };
  current_runs = vp-Runs.current_runs;
}

thread_exit-thread_join_example :
    Returns
      (λ vp'. Returns (λ r. (r.0 ≡ returns (ok 3)) × Joined 9 vp' r.1) (thread_join 9 vp'))
      (thread_exit 3 joinable)
thread_exit-thread_join_example =
    thread_exit-thread_join 3 joinable joinable-Runs (record { other = refl; off = refl }) refl refl

-- The idle thread runs, the others wait.
abbrev pub idle : Vp
idle = record vp {
  current = 5;
  run_q = [];
  threads = λ t.
      if t == 5
      then a_thread running false null in_main
      else if t == 24 || t == 9
      then a_thread suspended false null in_usleep
      else vp.threads t;
}

pub idle-Runs : Runs idle
idle-Runs = record {
  valid = record {
    heap = vp-Runs.valid.heap;
    timed = λ i. ground arith;
    waits = λ i h. ground arith;
    ready = λ i. ground arith;
    dead = λ i. ground arith;
    idles = refl;
    serves = vp-Runs.valid.serves;
    queued = vp-Runs.valid.queued;
    polls = λ i h. ground arith;
  };
  current_runs = refl;
}

pub idle-Stands : Stands true idle
idle-Stands = record { runs = idle-Runs; place = λ h. refl }

-- Descriptor 7 is ready.
abbrev pub kernel : Kernel
kernel = record {
  select =
      λ n r w e t. record { nfd = some_ready; r = λ i. i == 7; w = λ i. false; e = λ i. false };
  poll = λ pds t. none;
  is_bad = λ i. false;
  memory = true;
  ctl = λ op fd. done;
  epoll_wait = λ n t. [];
  pid = 1;
  created = true;
}

answers : Answers kernel idle
answers = record { memory = λ e g. refl; same_process = λ e. refl }

idle_round-Stands_example : Returns (λ r. Stands true r.1) (idle_round (dispatch kernel) 150 7 idle)
idle_round-Stands_example =
    idle_round-Stands (dispatch kernel) 150 7 idle
      (dispatch-Dispatches kernel idle answers idle-Stands refl) idle-Stands refl

dispatch-Sent_example :
    Returns (Sent (woken_by select_system kernel idle) idle) (dispatch kernel idle)
dispatch-Sent_example = dispatch-Sent kernel idle answers idle-Stands refl

abbrev signal : Event
signal = record { now = 150; time = 7; kernel = kernel; operation = signals 30 }

abbrev first_machine : Machine
first_machine = record { vp = vp; switched = false }

first_machine-Stands : Stands false vp
first_machine-Stands = record { runs = vp-Runs; place = vp-Calls }

turn-Runs_example : Returns (λ m'. Stands m'.switched m'.vp) (turn signal first_machine)
turn-Runs_example =
    turn-Runs signal first_machine first_machine-Stands
      (tt, λ h. record { memory = λ e g. refl; same_process = λ e. refl }) (λ other fresh. refl)

-- What the signal leaves.
abbrev signalled : Returns (λ m'. Stands m'.switched m'.vp) (turn signal first_machine)
signalled =
    turn-Runs signal first_machine first_machine-Stands
      (tt, λ h. record { memory = λ e g. refl; same_process = λ e. refl }) (λ other fresh. refl)

Steps-Runs_example : Stands signalled.value.switched signalled.value.vp
Steps-Runs_example = Steps-Runs first_machine signalled.value first_machine-Stands (
    there signal first_machine signalled.value
      (tt, λ h. record { memory = λ e g. refl; same_process = λ e. refl }) signalled.returned
      (here signalled.value))
