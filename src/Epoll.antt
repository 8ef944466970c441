-- ===== src/Epoll.antt =====
-- The descriptors of the event system with epoll, event.c: counts of the polls that wait for each, and
-- the calls of epoll_ctl, whose answers are an argument.
pub mod Counts
use state_thread.Base.{
  ℕ, zero, suc, ◌+◌, ◌-◌, ◌%◌, ◌^◌, Bool, true, false, ◌&&◌, ◌||◌, not, List, [], ◌∷◌, ◌++◌, ◌*◌,
  if◌then◌else◌, ◌==◌, leb, ltb, update, Result, ok, err, Errno, einval, ebusy, enomem, eexist,
  one_if, Option, none, some,
}
use state_thread.Select.{Pollfd, Revents, has_fired, no_revents}

-- struct _st_epolldata. The descriptor of the epoll set itself is left out.
pub record Epoll : Type 0 where
  pub read_cnt : ℕ → ℕ
  pub write_cnt : ℕ → ℕ
  pub excep_cnt : ℕ → ℕ
  pub revents : ℕ → Revents
  pub fd_data_size : ℕ
  pub evtlist_cnt : ℕ
  pub evtlist_size : ℕ
  pub pid : ℕ

-- EPOLL_CTL_ADD, EPOLL_CTL_MOD, EPOLL_CTL_DEL
pub data Op : Type 0 where
  ctl_add ctl_mod ctl_del : Op

-- What epoll_ctl answers for a descriptor: 0, EEXIST, or another error.
pub data Answer : Type 0 where
  done exists : Answer
  fails : Errno → Answer

abbrev pub is_done : Answer → Bool
is_done done = true
is_done _ = false

-- ST_EPOLL_EVTLIST_SIZE
abbrev pub epoll_evtlist_size : ℕ
epoll_evtlist_size = 4096

-- What `_st_epoll_init` sets up, with the limit of descriptors `fdlim`; the other arguments are whether
-- `epoll_create` succeeds and there is memory for the data, the array and the event list.
abbrev pub epoll_hint : (fdlim : ℕ) → ℕ
epoll_hint fdlim = if ltb 0 fdlim && ltb fdlim epoll_evtlist_size then fdlim else epoll_evtlist_size

abbrev pub epoll_data : (pid fdlim : ℕ) → Epoll
epoll_data pid fdlim = record {
  read_cnt = λ _. 0;
  write_cnt = λ _. 0;
  excep_cnt = λ _. 0;
  revents = λ _. no_revents;
  fd_data_size = epoll_hint fdlim;
  evtlist_cnt = 0;
  evtlist_size = epoll_hint fdlim;
  pid = pid;
}

abbrev epoll_init :
    (data_memory created array_memory list_memory : Bool) → (pid fdlim : ℕ) → Option Epoll
epoll_init data_memory created array_memory list_memory pid fdlim =
    if not data_memory
    then none
    else if not created
    then none
    else if not array_memory
    then none
    else if not list_memory
    then none
    else some (epoll_data pid fdlim)

-- `_ST_EPOLL_EVENTS`, as three bits
abbrev pub Events : Type 0
Events = Bool × Bool × Bool

abbrev pub events : ℕ → Epoll → Events
events fd s = (not (s.read_cnt fd == 0), not (s.write_cnt fd == 0), not (s.excep_cnt fd == 0))

abbrev pub any : Events → Bool
any (r, w, e) = r || w || e

abbrev eq_bool : Bool → Bool → Bool
eq_bool true b = b
eq_bool false b = not b

abbrev same : Events → Events → Bool
same (r, w, e) (r', w', e') = eq_bool r r' && eq_bool w w' && eq_bool e e'

-- The increments and decrements of the counts
abbrev pub raise_cnts : Pollfd → Epoll → Epoll
raise_cnts pd s = record s {
  read_cnt = update s.read_cnt pd.fd (s.read_cnt pd.fd + one_if pd.pollin);
  write_cnt = update s.write_cnt pd.fd (s.write_cnt pd.fd + one_if pd.pollout);
  excep_cnt = update s.excep_cnt pd.fd (s.excep_cnt pd.fd + one_if pd.pollpri);
}

-- No poll is taken out that has not been added, so that the counts, of type int in the source, do not
-- go below 0; the subtraction here stops there.
abbrev pub lower_cnts : Pollfd → Epoll → Epoll
lower_cnts pd s = record s {
  read_cnt = update s.read_cnt pd.fd (s.read_cnt pd.fd - one_if pd.pollin);
  write_cnt = update s.write_cnt pd.fd (s.write_cnt pd.fd - one_if pd.pollout);
  excep_cnt = update s.excep_cnt pd.fd (s.excep_cnt pd.fd - one_if pd.pollpri);
}

-- A round of `_st_epoll_pollset_del`: `less` are the counts without the descriptor's.
pub del_round : (ctl : Op → ℕ → Answer) → ℕ → (s less : Epoll) → Epoll
del_round ctl fd s less =
    if same (events fd less) (events fd s) || has_fired (less.revents fd)
    then less
    else if not (any (events fd less)) && is_done (ctl ctl_del fd)
    then record less { evtlist_cnt = less.evtlist_cnt - 1 }
    else less

-- `_st_epoll_pollset_del`
pub pollset_del : (ctl : Op → ℕ → Answer) → List Pollfd → Epoll → Epoll
unfolding del_round
pollset_del ctl [] s = s
pollset_del ctl (pd ∷ pds) s = pollset_del ctl pds (del_round ctl pd.fd s (lower_cnts pd s))

-- `while (maxfd >= n) n <<= 1;` of `_st_epoll_fd_data_expand`, on fuel. `n` is an int: from `2 ^ 31` on
-- it is negative, and the doubling wraps.
pub expand_loop : ℕ → (maxfd n : ℕ) → ℕ
expand_loop zero maxfd n = n
expand_loop (suc fuel) maxfd n =
    let rest = expand_loop fuel maxfd (n * 2 % 2 ^ 32) in
    if leb (2 ^ 31) n || leb n maxfd then rest else n

-- `_st_epoll_evtlist_expand` gives the list of events a size that `evtlist_cnt` does not exceed.
abbrev pub evtlist_expand : (memory : Bool) → (evtlist_cnt evtlist_size : ℕ) → ℕ
evtlist_expand memory cnt size = if memory then expand_loop cnt (cnt - 1) size else size

-- One more descriptor is known to epoll.
abbrev pub count_event : (memory : Bool) → Epoll → Epoll
count_event memory s = record s {
  evtlist_cnt = s.evtlist_cnt + 1;
  evtlist_size =
      if ltb s.evtlist_size (s.evtlist_cnt + 1)
      then evtlist_expand memory (s.evtlist_cnt + 1) s.evtlist_size
      else s.evtlist_size;
}

-- How the loop of `_st_epoll_pollset_add` goes on: with the next descriptor, or it stops.
pub data Round : Type 0 where
  goes_on : Epoll → Round
  stops : Errno → Round

abbrev pub add_answer : (memory is_add : Bool) → Answer → Epoll → Round
add_answer memory true done s = goes_on (count_event memory s)
add_answer memory true exists s = goes_on (count_event memory s)
add_answer memory true (fails e) s = stops e
add_answer memory false done s = goes_on s
add_answer memory false exists s = stops eexist
add_answer memory false (fails e) s = stops e

abbrev pub add_round : (memory : Bool) (ctl : Op → ℕ → Answer) → ℕ → (s more : Epoll) → Round
add_round memory ctl fd s more =
    if same (events fd more) (events fd s)
    then goes_on more
    else if any (events fd s)
    then add_answer memory false (ctl ctl_mod fd) more
    else add_answer memory true (ctl ctl_add fd) more

-- The loop: the descriptors added so far are taken out again when a later one is refused.
abbrev pub after_round :
    (again : Epoll → Result (Unit {0}) × Epoll)
    → (undo : Epoll → Epoll) → (more : Epoll) → Round
    → Result (Unit {0}) × Epoll
after_round again undo more (goes_on s) = again s
after_round again undo more (stops e) = (err e, undo more)

pub add_loop :
    (memory : Bool) (ctl : Op → ℕ → Answer)
    → (added rest : List Pollfd) → Epoll
    → Result (Unit {0}) × Epoll
unfolding pollset_del expand_loop
add_loop memory ctl added [] s = (ok tt, s)
add_loop memory ctl added (pd ∷ pds) s =
    after_round (add_loop memory ctl (added ++ pd ∷ []) pds) (pollset_del ctl (added ++ pd ∷ []))
      (raise_cnts pd s) (add_round memory ctl pd.fd s (raise_cnts pd s))

-- The counts are functions, and those behind the end of the array are 0 before it grows: no descriptor
-- there has been added. So what the source clears is 0 already.
abbrev pub fd_data_expand : ℕ → Epoll → Epoll
fd_data_expand maxfd s = record s { fd_data_size = expand_loop (maxfd + 1) maxfd s.fd_data_size }

abbrev pub is_valid : Pollfd → Bool
is_valid pd = (pd.pollin || pd.pollout || pd.pollpri) && not pd.other

-- The checks up front; `memory` is whether `realloc` gives some.
pub check_loop : (memory : Bool) → List Pollfd → Epoll → Result (Unit {0}) × Epoll
unfolding expand_loop
check_loop memory [] s = (ok tt, s)
check_loop memory (pd ∷ pds) s =
    let big = leb s.fd_data_size pd.fd in
    let rest = check_loop memory pds (if big then fd_data_expand pd.fd s else s) in
    if not (is_valid pd)
    then (err einval, s)
    else if big && not memory
    then (err enomem, s)
    else rest

abbrev pub after_check :
    (memory : Bool) (ctl : Op → ℕ → Answer)
    → List Pollfd
    → Result (Unit {0}) × Epoll
    → Result (Unit {0}) × Epoll
after_check memory ctl pds (err e, s) = (err e, s)
after_check memory ctl pds (ok _, s) = add_loop memory ctl [] pds s

-- `_st_epoll_pollset_add`
pub pollset_add :
    (memory : Bool) (ctl : Op → ℕ → Answer) → List Pollfd → Epoll → Result (Unit {0}) × Epoll
unfolding add_loop check_loop
pollset_add memory ctl pds s = after_check memory ctl pds (check_loop memory pds s)

-- `_st_epoll_fd_new`, `_st_epoll_fd_close`
abbrev fd_new : (memory : Bool) → ℕ → Epoll → Result (Unit {0}) × Epoll
fd_new memory osfd s =
    if not (leb s.fd_data_size osfd)
    then (ok tt, s)
    else if memory
    then (ok tt, fd_data_expand osfd s)
    else (err enomem, s)

abbrev fd_close : ℕ → Epoll → Result (Unit {0})
fd_close osfd s = if any (events osfd s) then err ebusy else ok tt
