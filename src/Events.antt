-- ===== src/Events.antt =====
-- The dispatch of the event system with epoll, event.c, and that of the event system in use.
pub mod Epolls
pub mod Ready
pub mod Systems
pub mod Progress
pub mod Agreement
use state_thread.Base.{
  ℕ, ◌+◌, ◌-◌, Bool, true, false, ◌&&◌, ◌||◌, not, Option, none, some, List, [], ◌∷◌, if◌then◌else◌,
  ◌==◌, ◌>>=◌, update,
}
use state_thread.Select.{Pollfd, Revents, no_revents, has_fired}
use state_thread.Epoll.{Epoll, Op, Answer, ctl_mod, ctl_del, events, any, Events, is_done}
use state_thread.Epoll
use state_thread.Ioq.{
  IoState, Pollq, Eventsys, select_system, poll_system, epoll_system, take_off, set_pds,
}
use state_thread.Dispatch.{
  Kernel, any_fired, mark_each, milliseconds, min_timeout, select_dispatch, poll_dispatch,
}
use state_thread.Vp.{Vp, wake, set_io}

-- After a fork: the polls on the queue are put into a new epoll set, whether that works or not.
pub refill : (memory : Bool) (ctl : Op → ℕ → Answer) → List ℕ → (ℕ → Pollq) → Epoll → Epoll
refill memory ctl [] pollqs s = s
refill memory ctl (t ∷ q) pollqs s =
    refill memory ctl q pollqs (Epoll.pollset_add memory ctl (pollqs t).pds s).1

-- The epoll set, or nothing if none can be made.
pub reinitialise : Kernel → IoState → Option IoState
unfolding refill
reinitialise k io =
    if k.pid == io.epoll.pid
    then some io
    else if k.created
    then some (record io {
      epoll = refill k.memory k.ctl io.io_q io.pollqs (record io.epoll {
        pid = k.pid;
        read_cnt = λ _. 0;
        write_cnt = λ _. 0;
        excep_cnt = λ _. 0;
        revents = λ _. no_revents;
        evtlist_cnt = 0;
      });
    })
    else none

-- `|= _ST_EPOLL_EVENTS(osfd)`
abbrev pub or_events : Events → Revents → Revents
or_events (r, w, e) revents = record revents {
  r_in = revents.r_in || r;
  r_out = revents.r_out || w;
  r_pri = revents.r_pri || e;
}

-- The events of `epoll_wait` are noted for their descriptors.
pub note : List (ℕ × Revents) → Epoll → Epoll
note [] s = s
note ((osfd, r) ∷ evtlist) s = note evtlist (record s {
  revents = update s.revents osfd (if r.r_err || r.r_hup then or_events (events osfd s) r else r);
})

-- The `revents` of a poll's descriptor
abbrev pub epoll_revents : (ℕ → Revents) → Pollfd → Revents
epoll_revents fired pd =
    let r = fired pd.fd in
    if has_fired r
    then record no_revents {
      r_in = pd.pollin && r.r_in;
      r_out = pd.pollout && r.r_out;
      r_pri = pd.pollpri && r.r_pri;
      r_err = r.r_err;
      r_hup = r.r_hup;
    }
    else no_revents

-- A poll with the new `revents` `pds`: its thread is woken, or it stays.
pub epoll_settle : (ctl : Op → ℕ → Answer) → List Pollfd → ℕ → Vp → Option Vp
epoll_settle ctl pds t vp =
    if any_fired pds
    then wake t (
        set_io (record (take_off t pds vp.io) { epoll = Epoll.pollset_del ctl pds vp.io.epoll }) vp)
    else some (set_io (set_pds t pds vp.io) vp)

pub epoll_loop : (ctl : Op → ℕ → Answer) → List ℕ → Vp → Option Vp
unfolding epoll_settle
epoll_loop ctl [] vp = some vp
epoll_loop ctl (t ∷ q) vp =
    epoll_settle ctl (mark_each (epoll_revents vp.io.epoll.revents) (vp.io.pollqs t).pds) t vp
    >>= λ vp'. epoll_loop ctl q vp'

-- Descriptors that fired are deleted from the set, or changed there.
pub clear : (ctl : Op → ℕ → Answer) → List (ℕ × Revents) → Epoll → Epoll
clear ctl [] s = s
clear ctl ((osfd, r) ∷ evtlist) s =
    let s' = record s { revents = update s.revents osfd no_revents } in
    clear ctl evtlist (
      if not (any (events osfd s')) && is_done (ctl ctl_del osfd)
      then record s' { evtlist_cnt = s'.evtlist_cnt - 1 }
      else s')

abbrev pub set_epoll : Epoll → Vp → Vp
set_epoll s vp = set_io (record vp.io { epoll = s }) vp

-- Behind `epoll_wait`
abbrev pub after_wait : (ctl : Op → ℕ → Answer) → List (ℕ × Revents) → Vp → Option Vp
after_wait ctl [] vp = some vp
after_wait ctl (e ∷ es) vp =
    epoll_loop ctl vp.io.io_q (set_epoll (note (e ∷ es) vp.io.epoll) vp) >>= λ vp'.
    some (set_epoll (clear ctl (e ∷ es) vp'.io.epoll) vp')

abbrev pub wait_on : Kernel → Option IoState → Vp → Option Vp
wait_on k none vp = some vp
wait_on k (some io) vp =
    after_wait k.ctl (k.epoll_wait io.epoll.evtlist_size (milliseconds (min_timeout vp)))
      (set_io io vp)

-- `_st_epoll_dispatch`
pub epoll_dispatch : Kernel → Vp → Option Vp
unfolding reinitialise note epoll_loop clear
epoll_dispatch k vp = wait_on k (reinitialise k vp.io) vp

-- `(*_st_eventsys->dispatch)()`
abbrev pub dispatch_by : Eventsys → Kernel → Vp → Option Vp
dispatch_by select_system k vp = select_dispatch k vp
dispatch_by poll_system k vp = poll_dispatch k vp
dispatch_by epoll_system k vp = epoll_dispatch k vp

pub dispatch : Kernel → Vp → Option Vp
unfolding epoll_dispatch
dispatch k vp = dispatch_by vp.io.eventsys k vp
