-- ===== src/Polling/Errors.antt =====
-- How `st_poll` of sched.c reports that it has failed.
use state_thread.Base.{ℕ, ◌≡◌, refl, Bool, true, List, Errno, false, Result, ok, err, inr}
use state_thread.Vp.{Vp, me, set_io, switch_context, in_poll, set_state, io_wait}
use state_thread.Vp.Errors.{Reports, blocks-Reports, unless_interrupted-Reports}
use state_thread.Select.{Pollfd}
use state_thread.Epoll.{Op, Answer}
use state_thread.Ioq.{IoState, pollset_add}
use state_thread.Ioq.Refusals.{LeavesNothing, IfRefused, pollset_add-IfRefused}
use state_thread.Polling.{poll, after_add, enqueue}

-- There was no interrupt, and nothing has changed, the queue of polls included, but that epoll's data may
-- have grown.
abbrev pub ButGrowth : Errno → Vp → Vp → Type 0
ButGrowth e vp vp' =
    ((me vp).interrupt ≡ false) × (vp' ≡ set_io vp'.io vp) × LeavesNothing vp.io vp'.io

after_add-Reports :
    (timeout : ℕ) (pds : List Pollfd) (vp : Vp) (r : Result (Unit {0}) × IoState)
    → IfRefused vp.io r
    → (me vp).interrupt ≡ false
    → Reports true ButGrowth vp (after_add timeout pds r vp)
unfolding enqueue
after_add-Reports timeout pds vp (err e, io) same go = inr (go, refl, same)
after_add-Reports timeout pds vp (ok _, io) same go =
    blocks-Reports (ℕ) true ButGrowth vp _
      (λ vp'. switch_context in_poll (set_state vp'.current io_wait vp')) go

pub poll-Reports :
    (memory : Bool) (ctl : Op → ℕ → Answer) (pds : List Pollfd) (timeout : ℕ) (vp : Vp)
    → Reports true ButGrowth vp (poll memory ctl pds timeout vp)
unfolding poll
poll-Reports memory ctl pds timeout vp = unless_interrupted-Reports true ButGrowth vp _ (
    after_add-Reports timeout pds vp (pollset_add memory ctl pds vp.io)
      (pollset_add-IfRefused memory ctl pds vp.io))
