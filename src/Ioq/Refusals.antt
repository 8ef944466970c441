-- ===== src/Ioq/Refusals.antt =====
-- A poll that an event system of event.c refuses leaves nothing behind.
use state_thread.Base.{ℕ, ◌≡◌, refl, Bool, List, Result, ok, err, inl, inr}
use state_thread.Select.{Pollfd}
use state_thread.Select.Counts.{pollset_add_either}
use state_thread.PollArray.{pollset_add_cases}
use state_thread.Epoll.{Epoll, Op, Answer}
use state_thread.Epoll
use state_thread.Epoll.Counts.{Kind, cnt, Counted, event, pollset_add-Counted}
use state_thread.Select.Counts.{asks}
use state_thread.Ioq.{
  Eventsys, IoState, select_system, poll_system, epoll_system, add_by, pollset_add, with_epoll,
}

-- The queue of polls and the data of the event systems with select and poll are as before, and with
-- epoll all counts.
abbrev pub LeavesNothing : IoState → IoState → Type 0
LeavesNothing io io' =
    (io' ≡ record io { epoll = io'.epoll })
    × ((k : Kind) (i : ℕ) → cnt k io'.epoll i ≡ cnt k io.epoll i)

abbrev pub IfRefused : IoState → Result (Unit {0}) × IoState → Type 0
IfRefused io (ok _, io') = Unit {0}
IfRefused io (err _, io') = LeavesNothing io io'

with_epoll-IfRefused :
    (pds : List Pollfd) (io : IoState) (r : Result (Unit {0}) × Epoll)
    → ((k : Kind) (i : ℕ) → Counted k i (cnt k io.epoll i) (asks (event k) i pds) r)
    → IfRefused io (with_epoll r io)
with_epoll-IfRefused pds io (ok _, s) h = tt
with_epoll-IfRefused pds io (err e, s) h = (refl, λ k i. h k i)

add_by-IfRefused :
    (e : Eventsys) (memory : Bool) (ctl : Op → ℕ → Answer) (pds : List Pollfd) (io : IoState)
    → IfRefused io (add_by e memory ctl pds io)
add_by-IfRefused select_system memory ctl pds io = elim (pollset_add_either pds io.select) [
  | inl refused ↦ rw refused (refl, λ k i. refl)
  | inr added ↦ rw added tt
]
add_by-IfRefused poll_system memory ctl pds io = elim (pollset_add_cases pds io.poll_data) [
  | inl refused ↦ rw refused (refl, λ k i. refl)
  | inr added ↦ rw added tt
]
add_by-IfRefused epoll_system memory ctl pds io =
    with_epoll-IfRefused pds io (Epoll.pollset_add memory ctl pds io.epoll)
      (pollset_add-Counted memory ctl pds io.epoll)

pub pollset_add-IfRefused :
    (memory : Bool) (ctl : Op → ℕ → Answer) (pds : List Pollfd) (io : IoState)
    → IfRefused io (pollset_add memory ctl pds io)
pollset_add-IfRefused memory ctl pds io = add_by-IfRefused io.eventsys memory ctl pds io
