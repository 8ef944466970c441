-- ===== src/Polling.antt =====
-- `st_poll` of sched.c, up to its `_ST_SWITCH_CONTEXT` and from there on.
pub mod Errors
pub mod Laws
pub mod Resume
use state_thread.Base.{
  ℕ, ◌+◌, Bool, true, false, Option, none, some, List, [], ◌∷◌, if◌then◌else◌, ◌>>=◌, Result, ok,
  err, eintr,
}
use state_thread.Select.{Pollfd, has_fired}
use state_thread.Epoll.{Op, Answer}
use state_thread.Ioq.{IoState, Pollq, pollset_add, pollset_del, add_ioq, del_ioq}
use state_thread.Vp.{
  Vp, set_io, io_wait, in_poll, me, set_state, set_interrupt, Entered, returns, blocks,
  switch_context, unless_interrupted, add_timeout,
}

-- The poll waits on the queue.
pub enqueue : (timeout : ℕ) → List Pollfd → Vp → Option (Entered (Result ℕ) × Vp)
enqueue timeout pds vp = add_timeout timeout (set_io (add_ioq vp.current pds vp.io) vp) >>= λ vp'.
    some (blocks, switch_context in_poll (set_state vp'.current io_wait vp'))

abbrev pub after_add :
    (timeout : ℕ)
    → List Pollfd
    → Result (Unit {0}) × IoState
    → Vp
    → Option (Entered (Result ℕ) × Vp)
after_add timeout pds (err e, io) vp = some (returns (err e), set_io io vp)
after_add timeout pds (ok _, io) vp = enqueue timeout pds (set_io io vp)

-- `st_poll`; the first arguments are whether there is memory, and what `epoll_ctl` answers.
pub poll :
    (memory : Bool) (ctl : Op → ℕ → Answer)
    → List Pollfd
    → (timeout : ℕ) → Vp
    → Option (Entered (Result ℕ) × Vp)
unfolding enqueue
poll memory ctl pds timeout vp =
    unless_interrupted vp (after_add timeout pds (pollset_add memory ctl pds vp.io) vp)

-- How many descriptors are ready
abbrev pub ready_count : List Pollfd → ℕ
ready_count [] = 0
ready_count (pd ∷ pds) = if has_fired pd.revents then ready_count pds + 1 else ready_count pds

-- A poll that is still on the queue leaves it: it timed out or was interrupted.
abbrev pub leave : (ctl : Op → ℕ → Answer) → Vp → Vp
leave ctl vp =
    if (vp.io.pollqs vp.current).on_ioq
    then set_io (pollset_del ctl (vp.io.pollqs vp.current).pds (del_ioq vp.current vp.io)) vp
    else vp

pub poll_resume : (ctl : Op → ℕ → Answer) → Vp → Result ℕ × Vp
poll_resume ctl vp =
    let pq = vp.io.pollqs vp.current in
    if (me vp).interrupt
    then (err eintr, set_interrupt vp.current false (leave ctl vp))
    else (ok (if pq.on_ioq then 0 else ready_count pq.pds), leave ctl vp)
