-- ===== src/Events/Systems.antt =====
-- The dispatch functions of event.c keep the invariant.
use state_thread.Base.{ℕ, ◌≡◌, refl, ap, subst, true, ltb, occurs, ◌==◌, Returns, arith}
use state_thread.Ioq.{Eventsys, select_system, poll_system, epoll_system}
use state_thread.Vp.{Vp}
use state_thread.Vp.Invariant.{}
use state_thread.Vp.Switch.{Stands}
use state_thread.Sched.Idle.{Dispatched}
use state_thread.Events.{dispatch, dispatch_by}
use state_thread.Events.Epolls.{epoll_dispatch-Sent}
use state_thread.Events.Ready.{
  selected, woken_by, select_woken_lem, poll_woken_lem, epoll_woken_lem,
}
use state_thread.Dispatch.{Kernel}
use state_thread.Dispatch.Wakes.{Sending}
use state_thread.Dispatch.Rounds.{Sent}
use state_thread.Dispatch.Selects.{select_dispatch-Sent}
use state_thread.Dispatch.Polls.{poll_dispatch-Sent}

-- When the idle thread runs, no other can, so that all polls wait.
pub idle-Sending : (vp : Vp) → Stands true vp → (vp.current == vp.idle) ≡ true → Sending vp
idle-Sending vp stands idle = record {
  runs = stands.runs;
  waits = λ t h. ground (
    arith,
    stands.runs.valid.polls t h,
    stands.runs.valid.ready t,
    ap (occurs t) (stands.place idle),
    same t,
  );
}
  where
    -- The idle thread is the current one.
    same : (t : ℕ) → (t == vp.current) ≡ true → (t == vp.idle) ≡ true
    same t h = ground (arith, h, idle)

-- With poll there is memory for its array when it has to grow, and with epoll the process has not forked.
pub record Answers (k : Kernel) (vp : Vp) : Type 0 where
  pub memory :
      vp.io.eventsys ≡ poll_system
      → ltb vp.io.poll_data.pollfds_size vp.io.poll_data.fdcnt ≡ true
      → k.memory ≡ true
  pub same_process : vp.io.eventsys ≡ epoll_system → (k.pid == vp.io.epoll.pid) ≡ true

dispatch_by-Sent :
    (k : Kernel) (vp : Vp)
    → Answers k vp
    → Sending vp
    → (e : Eventsys) → vp.io.eventsys ≡ e
    → Returns (Sent (woken_by e k vp) vp) (dispatch_by e k vp)
dispatch_by-Sent k vp a sending select_system e =
    subst (λ ws. Returns (Sent ws vp) (dispatch_by select_system k vp))
      (select_woken_lem k.is_bad (selected k vp) (selected k vp).nfd vp)
      (select_dispatch-Sent k vp sending e)
dispatch_by-Sent k vp a sending poll_system e =
    subst (λ ws. Returns (Sent ws vp) (dispatch_by poll_system k vp)) (poll_woken_lem _ vp)
      (poll_dispatch-Sent vp sending e k (a.memory e))
dispatch_by-Sent k vp a sending epoll_system e =
    subst (λ ws. Returns (Sent ws vp) (dispatch_by epoll_system k vp)) (epoll_woken_lem _ vp)
      (epoll_dispatch-Sent k vp (a.same_process e) sending e)

-- When the idle thread runs, the dispatch of the event system does not fail, keeps the invariant
-- and wakes exactly these threads: with select, those that ask for an event whose set has the
-- descriptor, or after EBADF those that ask for something on a bad descriptor; with poll, those
-- whose part of the array has a bit set; with epoll, if it reports anything, those that ask for
-- an event that is in the last report on the descriptor, or in what was left of it when there is
-- no report, and those on which that has an error or a hangup. They come behind the run queue in
-- the order of their polls, which leave the queue, and no other thread changes its state. The
-- array for poll must get memory if it has to grow, and with epoll the process must not have
-- forked.
pub dispatch-Sent :
    (k : Kernel) (vp : Vp)
    → Answers k vp
    → Stands true vp
    → (vp.current == vp.idle) ≡ true
    → Returns (Sent (woken_by vp.io.eventsys k vp) vp) (dispatch k vp)
unfolding dispatch
dispatch-Sent k vp a stands idle =
    dispatch_by-Sent k vp a (idle-Sending vp stands idle) vp.io.eventsys refl

-- It keeps the invariant and does not switch.
pub dispatch-Dispatches :
    (k : Kernel) (vp : Vp)
    → Answers k vp
    → Stands true vp
    → (vp.current == vp.idle) ≡ true
    → Dispatched vp (dispatch k vp)
dispatch-Dispatches k vp a stands idle =
    let done = dispatch-Sent k vp a stands idle in
    record {
      value = done.value;
      returned = done.returned;
      holds = (done.holds.sending.runs, done.holds.current, done.holds.idle);
    }
