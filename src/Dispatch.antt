-- ===== src/Dispatch.antt =====
-- The dispatch functions of the event systems with select and with poll, event.c: they wait for the
-- descriptors of all polls on the queue and wake the threads of those that are ready. What the system
-- answers is an argument.
pub mod Wakes
pub mod Rounds
pub mod Marks
pub mod Selects
pub mod Arrays
pub mod Polls
use state_thread.Base.{
  ℕ, zero, suc, ◌+◌, ◌-◌, ◌/◌, ◌%◌, ◌^◌, Bool, true, false, ◌&&◌, ◌||◌, not, Option, none, some,
  List, [], ◌∷◌, ◌++◌, if◌then◌else◌, ◌==◌, ltb, leb, ◌>>=◌, Errno, ebadf, length, take_first,
  drop_first,
}
use state_thread.SleepQ.{Tree, leaf, node}
use state_thread.Select.{Pollfd, Revents, no_revents, has_fired, Select, FdSet}
use state_thread.Select
use state_thread.PollArray.{PollData, asks_something}
use state_thread.Epoll.{Op, Answer}
use state_thread.Ioq.{IoState, Pollq, Eventsys, select_system, poll_system, take_off, set_pds}
use state_thread.Ioq.Gather.{gather}
use state_thread.Vp.{Vp, wake, set_io}

-- What `select` returns: a positive number, 0, or -1 with `errno`.
pub data Nfd : Type 0 where
  some_ready none_ready : Nfd
  fails : Errno → Nfd

-- With the descriptor sets afterwards
pub record Selected : Type 0 where
  pub nfd : Nfd
  pub r : ℕ → Bool
  pub w : ℕ → Bool
  pub e : ℕ → Bool

-- How the system answers the calls of a dispatch: `select`; `poll`, which gives the `revents` of each
-- element of the array if it returns a positive number; `fcntl` on a descriptor; `malloc`; `epoll_ctl`;
-- `epoll_wait`, with the events that it gives; `getpid`; `epoll_create`.
pub record Kernel : Type 0 where
  pub select : (nfds : ℕ) (r w e : ℕ → Bool) → (timeout : Option (ℕ × ℕ)) → Selected
  pub poll : List Pollfd → (timeout : Option ℕ) → Option (ℕ → Revents)
  pub is_bad : ℕ → Bool
  pub memory : Bool
  pub ctl : Op → ℕ → Answer
  pub epoll_wait : (maxevents : ℕ) (timeout : Option ℕ) → List (ℕ × Revents)
  pub pid : ℕ
  pub created : Bool

-- `min_timeout`, if a thread sleeps
abbrev pub timeout_of : Tree → (due : ℕ → ℕ) → (last_clock : ℕ) → Option ℕ
timeout_of leaf due last_clock = none
timeout_of (node t _ _) due last_clock =
    some (if leb (due t) last_clock then 0 else due t - last_clock)

abbrev pub min_timeout : Vp → Option ℕ
min_timeout vp = timeout_of vp.sleepq.sleep_q vp.sleepq.due vp.last_clock

-- As a `struct timeval`, and in milliseconds, an int each, by what it is modulo `2 ^ 32`
abbrev pub timeval : Option ℕ → Option (ℕ × ℕ)
timeval none = none
timeval (some t) = some (t / 1000000 % 2 ^ 32, t % 1000000)

abbrev pub milliseconds : Option ℕ → Option ℕ
milliseconds none = none
milliseconds (some t) = some (t / 1000 % 2 ^ 32)

-- Is a descriptor of the poll ready?
abbrev pub any_fired : List Pollfd → Bool
any_fired [] = false
any_fired (pd ∷ pds) = has_fired pd.revents || any_fired pds

-- The highest descriptor, as `maxfd`, of those that count
abbrev pub max_osfd : (counts : Pollfd → Bool) → List Pollfd → ℕ
max_osfd counts [] = 0
max_osfd counts (pd ∷ pds) =
    let rest = max_osfd counts pds in if counts pd && ltb rest (pd.fd + 1) then pd.fd + 1 else rest

abbrev pub mark_each : (Pollfd → Revents) → List Pollfd → List Pollfd
mark_each f [] = []
mark_each f (pd ∷ pds) = record pd { revents = f pd } ∷ mark_each f pds

-- The `revents` of a poll's descriptor after `select`
abbrev pub selected_revents : Selected → Pollfd → Revents
selected_revents s pd = record no_revents {
  r_in = pd.pollin && s.r pd.fd;
  r_out = pd.pollout && s.w pd.fd;
  r_pri = pd.pollpri && s.e pd.fd;
}

-- In `_st_select_find_bad_fd`
abbrev pub bad_revents : (ℕ → Bool) → Pollfd → Revents
bad_revents is_bad pd = record no_revents { r_nval = asks_something pd && is_bad pd.fd }

-- `if (_ST_SELECT_MAX_OSFD < pq_max_osfd) _ST_SELECT_MAX_OSFD = pq_max_osfd`
abbrev pub raise_maxfd : ℕ → Select → Select
raise_maxfd max s = record s { maxfd = if ltb s.maxfd max then max else s.maxfd }

-- A poll with the new `revents` `pds`: its thread is woken, its descriptors are taken out of the sets; or
-- it stays.
pub select_settle : (max : ℕ) → List Pollfd → ℕ → Vp → Option Vp
select_settle max pds t vp =
    if any_fired pds
    then wake t
        (set_io (record (take_off t pds vp.io) { select = Select.pollset_del pds vp.io.select }) vp)
    else some (set_io (record (set_pds t pds vp.io) { select = raise_maxfd max vp.io.select }) vp)

-- The loop over the queue, which goes on behind a poll that it takes off
pub select_loop : (counts : Pollfd → Bool) (revents : Pollfd → Revents) → List ℕ → Vp → Option Vp
unfolding select_settle
select_loop counts revents [] vp = some vp
select_loop counts revents (t ∷ q) vp =
    let pds = mark_each revents (vp.io.pollqs t).pds in
    select_settle (max_osfd counts pds) pds t vp >>= λ vp'. select_loop counts revents q vp'

-- `_ST_SELECT_MAX_OSFD = -1` and the loop
abbrev pub select_all : (counts : Pollfd → Bool) (revents : Pollfd → Revents) → Vp → Option Vp
select_all counts revents vp =
    select_loop counts revents vp.io.io_q
      (set_io (record vp.io { select = record vp.io.select { maxfd = 0 } }) vp)

abbrev pub is_ebadf : Errno → Bool
is_ebadf ebadf = true
is_ebadf _ = false

-- `_st_select_find_bad_fd`
abbrev pub find_bad_fd : (is_bad : ℕ → Bool) → Vp → Option Vp
find_bad_fd is_bad vp = select_all asks_something (bad_revents is_bad) vp

abbrev pub after_select : (is_bad : ℕ → Bool) → Selected → Nfd → Vp → Option Vp
after_select is_bad s some_ready vp = select_all (λ pd. true) (selected_revents s) vp
after_select is_bad s none_ready vp = some vp
after_select is_bad s (fails e) vp = if is_ebadf e then find_bad_fd is_bad vp else some vp

-- `_st_select_dispatch`
pub select_dispatch : Kernel → Vp → Option Vp
unfolding select_loop
select_dispatch k vp =
    let sets = vp.io.select in
    let s =
      k.select sets.maxfd sets.read_set.member sets.write_set.member sets.excep_set.member
        (timeval (min_timeout vp)) in
    after_select k.is_bad s s.nfd vp

-- The array is replaced if it is too small; a failure stops the program.
pub grow : (memory : Bool) → PollData → Option PollData
grow memory d =
    if not (ltb d.pollfds_size d.fdcnt)
    then some d
    else if memory
    then some (record d { pollfds_size = d.fdcnt + 10 })
    else none

-- The `revents` that `poll` writes into the array, from an index on
abbrev pub mark_from : (ℕ → Revents) → ℕ → List Pollfd → List Pollfd
mark_from f i [] = []
mark_from f i (pd ∷ pds) = record pd { revents = f i } ∷ mark_from f (i + 1) pds

-- `_ST_POLL_OSFD_CNT -= pq->npds`
abbrev pub lower_fdcnt : ℕ → Vp → Vp
lower_fdcnt n vp =
    set_io
      (record vp.io { poll_data = record vp.io.poll_data { fdcnt = vp.io.poll_data.fdcnt - n } }) vp

-- A poll with its part of the array
pub poll_settle : List Pollfd → ℕ → Vp → Option Vp
poll_settle pds t vp =
    if any_fired pds
    then (wake t (set_io (take_off t pds vp.io) vp) >>= λ vp'. some (lower_fdcnt (length pds) vp'))
    else some vp

-- The loop over the queue, along the array
pub poll_loop : List Pollfd → List ℕ → Vp → Option Vp
unfolding poll_settle
poll_loop pollfds [] vp = some vp
poll_loop pollfds (t ∷ q) vp =
    let npds = length (vp.io.pollqs t).pds in
    poll_settle (take_first npds pollfds) t vp >>= λ vp'. poll_loop (drop_first npds pollfds) q vp'

abbrev pub after_poll : List Pollfd → Option (ℕ → Revents) → Vp → Option Vp
after_poll pollfds none vp = some vp
after_poll pollfds (some revents) vp = poll_loop (mark_from revents 0 pollfds) vp.io.io_q vp

-- `_st_poll_dispatch`; that the descriptors fit into the array is asserted.
pub poll_dispatch : Kernel → Vp → Option Vp
unfolding grow poll_loop
poll_dispatch k vp = grow k.memory vp.io.poll_data >>= λ d.
    let pollfds = gather vp.io.io_q vp.io.pollqs in
    if not (leb (length pollfds) d.pollfds_size)
    then none
    else after_poll pollfds (k.poll (take_first d.fdcnt pollfds) (milliseconds (min_timeout vp)))
        (set_io (record vp.io { poll_data = d }) vp)
