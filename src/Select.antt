-- ===== src/Select.antt =====
-- The descriptor sets of the event system with select, event.c: each descriptor is in a set as long as
-- some poll waits for it, by a count.
pub mod Counts
use state_thread.Base.{
  ℕ, ◌+◌, ◌-◌, Bool, true, false, ◌&&◌, ◌||◌, not, List, [], ◌∷◌, if◌then◌else◌, ◌==◌, ltb, leb,
  update, Result, ok, err, einval, ebusy, emfile,
}

-- The bits of `revents`
pub record Revents : Type 0 where
  pub r_in : Bool
  pub r_out : Bool
  pub r_pri : Bool
  pub r_err : Bool
  pub r_hup : Bool
  pub r_nval : Bool

abbrev pub no_revents : Revents
no_revents = record {
  r_in = false;
  r_out = false;
  r_pri = false;
  r_err = false;
  r_hup = false;
  r_nval = false;
}

-- `revents != 0`
abbrev pub has_fired : Revents → Bool
has_fired r = r.r_in || r.r_out || r.r_pri || r.r_err || r.r_hup || r.r_nval

-- struct pollfd; `events` bit by bit, `other` for the bits but POLLIN, POLLOUT and POLLPRI. The model
-- has no negative descriptors, which are refused as too big ones are.
pub record Pollfd : Type 0 where
  pub fd : ℕ
  pub pollin : Bool
  pub pollout : Bool
  pub pollpri : Bool
  pub other : Bool
  pub revents : Revents

-- A descriptor set with the counts of its descriptors.
pub record FdSet : Type 0 where
  pub member : ℕ → Bool
  pub cnt : ℕ → ℕ

-- `_st_select_data`; `maxfd` is one more, so that 0 is none.
pub record Select : Type 0 where
  pub read_set : FdSet
  pub write_set : FdSet
  pub excep_set : FdSet
  pub maxfd : ℕ

abbrev pub no_fds : FdSet
no_fds = record { member = λ _. false; cnt = λ _. 0 }

abbrev pub fd_setsize : ℕ
fd_setsize = 1024

-- `_st_select_init`, on the memory that `malloc` gives
abbrev pub select_init : Select
select_init = record { read_set = no_fds; write_set = no_fds; excep_set = no_fds; maxfd = 0 }

-- `FD_SET(fd, ...); ...CNT(fd)++`, if the event is asked for
abbrev pub raise : Bool → ℕ → FdSet → FdSet
raise false fd s = s
raise true fd s = record { member = update s.member fd true; cnt = update s.cnt fd (s.cnt fd + 1) }

-- `if (--...CNT(fd) == 0) FD_CLR(fd, ...)`, if the event is asked for
abbrev pub lower : Bool → ℕ → FdSet → FdSet
lower false fd s = s
lower true fd s = record {
  member = if s.cnt fd - 1 == 0 then update s.member fd false else s.member;
  cnt = update s.cnt fd (s.cnt fd - 1);
}

abbrev is_valid : Pollfd → Bool
is_valid pd = ltb pd.fd fd_setsize && (pd.pollin || pd.pollout || pd.pollpri) && not pd.other

-- The checks up front
unfoldable pub all_valid : List Pollfd → Bool
all_valid [] = true
all_valid (pd ∷ pds) = is_valid pd && all_valid pds

abbrev pub add_fd : Pollfd → Select → Select
add_fd pd s = record {
  read_set = raise pd.pollin pd.fd s.read_set;
  write_set = raise pd.pollout pd.fd s.write_set;
  excep_set = raise pd.pollpri pd.fd s.excep_set;
  maxfd = if ltb s.maxfd (pd.fd + 1) then pd.fd + 1 else s.maxfd;
}

pub add_loop : List Pollfd → Select → Select
add_loop [] s = s
add_loop (pd ∷ pds) s = add_loop pds (add_fd pd s)

-- `_st_select_pollset_add`
pub pollset_add : List Pollfd → Select → Result (Unit {0}) × Select
unfolding all_valid add_loop
pollset_add pds s = if all_valid pds then (ok tt, add_loop pds s) else (err einval, s)

abbrev pub del_fd : Pollfd → Select → Select
del_fd pd s = record s {
  read_set = lower pd.pollin pd.fd s.read_set;
  write_set = lower pd.pollout pd.fd s.write_set;
  excep_set = lower pd.pollpri pd.fd s.excep_set;
}

-- `_st_select_pollset_del`
pub pollset_del : List Pollfd → Select → Select
pollset_del [] s = s
pollset_del (pd ∷ pds) s = pollset_del pds (del_fd pd s)

-- `_st_select_fd_new`, `_st_select_fd_close`
abbrev fd_new : ℕ → Result (Unit {0})
fd_new osfd = if leb fd_setsize osfd then err emfile else ok tt

abbrev fd_close : ℕ → Select → Result (Unit {0})
fd_close osfd s =
    if s.read_set.cnt osfd == 0 && s.write_set.cnt osfd == 0 && s.excep_set.cnt osfd == 0
    then ok tt
    else err ebusy
