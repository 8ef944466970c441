-- ===== src/Ioq.antt =====
-- The queue of polls of common.h, and the event system that `_st_eventsys` of event.c points to. A
-- `_st_pollq` is on the stack of the thread that polls, so that the thread stands for its address.
pub mod Gather
pub mod Serves
pub mod Refusals
use state_thread.Base.{
  ℕ, Bool, true, false, List, [], ◌∷◌, ◌++◌, if◌then◌else◌, update, remove, Result, ok, err,
}
use state_thread.Select.{Pollfd, Select}
use state_thread.Select
use state_thread.Epoll.{Epoll, Op, Answer}
use state_thread.Epoll
use state_thread.PollArray.{PollData}
use state_thread.PollArray

-- struct _st_pollq
pub record Pollq : Type 0 where
  pub pds : List Pollfd
  pub on_ioq : Bool

-- The event systems that are modelled as a whole.
pub data Eventsys : Type 0 where
  select_system poll_system epoll_system : Eventsys

-- What `_st_eventsys` is, the queue with the polls on it, `_st_select_data`, `_st_poll_data`
-- and `_st_epoll_data`.
pub record IoState : Type 0 where
  pub eventsys : Eventsys
  pub io_q : List ℕ
  pub pollqs : ℕ → Pollq
  pub select : Select
  pub poll_data : PollData
  pub epoll : Epoll

-- _ST_ADD_IOQ, on the poll of a thread.
abbrev pub add_ioq : ℕ → List Pollfd → IoState → IoState
add_ioq t pds io = record io {
  io_q = io.io_q ++ t ∷ [];
  pollqs = update io.pollqs t (record { pds = pds; on_ioq = true });
}

-- `ST_REMOVE_LINK(&pq->links); pq->on_ioq = 0;`, with the descriptors as they are then.
abbrev pub take_off : ℕ → List Pollfd → IoState → IoState
take_off t pds io = record io {
  io_q = remove t io.io_q;
  pollqs = update io.pollqs t (record { pds = pds; on_ioq = false });
}

-- _ST_DEL_IOQ at the end of `st_poll`, whose local variable the poll is: it is gone then.
abbrev pub del_ioq : ℕ → IoState → IoState
del_ioq t io = take_off t (io.pollqs t).pds io

-- New `revents` of a poll that stays on the queue.
abbrev pub set_pds : ℕ → List Pollfd → IoState → IoState
set_pds t pds io = record io {
  pollqs = update io.pollqs t (record { pds = pds; on_ioq = (io.pollqs t).on_ioq });
}

abbrev with_select : Result (Unit {0}) × Select → IoState → Result (Unit {0}) × IoState
with_select (r, s) io = (r, record io { select = s })

abbrev with_poll : Result (Unit {0}) × PollData → IoState → Result (Unit {0}) × IoState
with_poll (r, d) io = (r, record io { poll_data = d })

abbrev pub with_epoll : Result (Unit {0}) × Epoll → IoState → Result (Unit {0}) × IoState
with_epoll (r, d) io = (r, record io { epoll = d })

-- `(*_st_eventsys->pollset_add)(pds, npds)`
abbrev pub add_by :
    Eventsys
    → (memory : Bool) (ctl : Op → ℕ → Answer) → List Pollfd
    → IoState
    → Result (Unit {0}) × IoState
add_by select_system memory ctl pds io = with_select (Select.pollset_add pds io.select) io
add_by poll_system memory ctl pds io = with_poll (PollArray.pollset_add pds io.poll_data) io
add_by epoll_system memory ctl pds io = with_epoll (Epoll.pollset_add memory ctl pds io.epoll) io

abbrev pub pollset_add :
    (memory : Bool) (ctl : Op → ℕ → Answer) → List Pollfd → IoState → Result (Unit {0}) × IoState
pollset_add memory ctl pds io = add_by io.eventsys memory ctl pds io

-- `(*_st_eventsys->pollset_del)(pds, npds)`
abbrev pub del_by : Eventsys → (ctl : Op → ℕ → Answer) → List Pollfd → IoState → IoState
del_by select_system ctl pds io = record io { select = Select.pollset_del pds io.select }
del_by poll_system ctl pds io = record io { poll_data = PollArray.pollset_del pds io.poll_data }
del_by epoll_system ctl pds io = record io { epoll = Epoll.pollset_del ctl pds io.epoll }

abbrev pub pollset_del : (ctl : Op → ℕ → Answer) → List Pollfd → IoState → IoState
pollset_del ctl pds io = del_by io.eventsys ctl pds io
