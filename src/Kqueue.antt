-- ===== src/Kqueue.antt =====
-- The descriptors of the event system with kqueue, event.c: counts of the polls that wait for each, and
-- the changes of filters that are kept for the kernel. Its dispatch is not modelled.
pub mod Covered
pub mod Adding
pub mod Room
pub mod Deleting
pub mod Registered
use state_thread.Base.{
  ℕ, zero, suc, ◌+◌, ◌-◌, ◌*◌, ◌%◌, ◌^◌, Bool, true, false, ◌&&◌, ◌||◌, not, Option, none, some,
  List, [], ◌∷◌, ◌++◌, if◌then◌else◌, ◌==◌, leb, ltb, update, length, Result, ok, err, Errno,
  einval, enomem, ebusy, ◌>>=◌,
}
use state_thread.Select.{Pollfd}

-- EVFILT_READ, EVFILT_WRITE
pub data Filter : Type 0 where
  evfilt_read evfilt_write : Filter

-- A change of a filter, to add it (EV_ADD | EV_ONESHOT) in the one list and to delete it in the other
pub record Kevent : Type 0 where
  pub ident : ℕ
  pub filter : Filter

-- struct _st_kqdata, without the results of the last dispatch
pub record Kqueue : Type 0 where
  pub rd_ref_cnt : ℕ → ℕ
  pub wr_ref_cnt : ℕ → ℕ
  pub fd_data_size : ℕ
  pub evtlist_size : ℕ
  pub addlist : List Kevent
  pub addlist_size : ℕ
  pub dellist : List Kevent
  pub dellist_size : ℕ

-- `while (maxfd >= n) n <<= 1;` on fuel. `n` is an int: from `2 ^ 31` on it is negative, and the doubling
-- wraps.
unfoldable pub kq_double : ℕ → (least n : ℕ) → ℕ
kq_double zero least n = n
kq_double (suc fuel) least n =
    let rest = kq_double fuel least (n * 2 % 2 ^ 32) in
    if leb (2 ^ 31) n || not (leb least n) then rest else n

-- The part of an array that `realloc` adds is cleared.
abbrev pub kq_grown : (old new : ℕ) → (ℕ → ℕ) → ℕ → ℕ
kq_grown old new cnt i = if leb old i && ltb i new then 0 else cnt i

-- `_st_kq_fd_data_expand`, when there is memory
unfoldable pub kq_fd_data_expand : ℕ → Kqueue → Kqueue
unfolding kq_double
kq_fd_data_expand maxfd s =
    let n = kq_double (maxfd + 1) (maxfd + 1) s.fd_data_size in
    record s {
      rd_ref_cnt = kq_grown s.fd_data_size n s.rd_ref_cnt;
      wr_ref_cnt = kq_grown s.fd_data_size n s.wr_ref_cnt;
      fd_data_size = n;
    }

-- `_st_kq_addlist_expand`, when there is memory for the list; `more` is whether there is also some for
-- the list of results.
unfoldable pub kq_addlist_expand : (more : Bool) → (avail : ℕ) → Kqueue → Kqueue
unfolding kq_double
kq_addlist_expand more avail s =
    let n = kq_double (avail + length s.addlist) (avail + length s.addlist) s.addlist_size in
    record s { addlist_size = n; evtlist_size = if more then n else s.evtlist_size }

-- `_st_kq_addlist_add`; `none` is a failed assertion.
unfoldable pub kq_addlist_add : Kevent → Kqueue → Option Kqueue
kq_addlist_add kev s =
    if ltb (length s.addlist) s.addlist_size
    then some (record s { addlist = s.addlist ++ kev ∷ [] })
    else none

-- `_st_kq_dellist_add`; without memory the change is dropped.
unfoldable pub kq_dellist_add : (memory : Bool) → Kevent → Kqueue → Kqueue
kq_dellist_add memory kev s =
    if ltb (length s.dellist) s.dellist_size
    then record s { dellist = s.dellist ++ kev ∷ [] }
    else if memory
    then record s { dellist = s.dellist ++ kev ∷ []; dellist_size = s.dellist_size * 2 }
    else s

-- What `realloc` answers for the array, the list of changes, that of results and that of deletions
pub record Memories : Type 0 where
  pub fds : Bool
  pub adds : Bool
  pub results : Bool
  pub dels : Bool

-- The checks up front of `_st_kq_pollset_add`
abbrev pub kq_is_valid : Pollfd → Bool
kq_is_valid pd = (pd.pollin || pd.pollout) && not (pd.pollpri || pd.other)

unfoldable pub kq_check_loop : (memory : Bool) → List Pollfd → Kqueue → Result (Unit {0}) × Kqueue
unfolding kq_fd_data_expand
kq_check_loop memory [] s = (ok tt, s)
kq_check_loop memory (pd ∷ pds) s =
    let big = leb s.fd_data_size pd.fd in
    let rest = kq_check_loop memory pds (if big then kq_fd_data_expand pd.fd s else s) in
    if not (kq_is_valid pd)
    then (err einval, s)
    else if big && not memory
    then (err enomem, s)
    else rest

-- The counts of a descriptor go up; a filter that no poll waited for is to be added.
abbrev pub kq_read : Pollfd → Kqueue → Option Kqueue
kq_read pd s =
    if pd.pollin
    then (let s' = record s { rd_ref_cnt = update s.rd_ref_cnt pd.fd (s.rd_ref_cnt pd.fd + 1) } in
        if s.rd_ref_cnt pd.fd == 0
        then kq_addlist_add (record { ident = pd.fd; filter = evfilt_read }) s'
        else some s')
    else some s

abbrev pub kq_write : Pollfd → Kqueue → Option Kqueue
kq_write pd s =
    if pd.pollout
    then (let s' = record s { wr_ref_cnt = update s.wr_ref_cnt pd.fd (s.wr_ref_cnt pd.fd + 1) } in
        if s.wr_ref_cnt pd.fd == 0
        then kq_addlist_add (record { ident = pd.fd; filter = evfilt_write }) s'
        else some s')
    else some s

unfoldable pub kq_add_loop : List Pollfd → Kqueue → Option Kqueue
unfolding kq_addlist_add
kq_add_loop [] s = some s
kq_add_loop (pd ∷ pds) s = kq_read pd s >>= kq_write pd >>= kq_add_loop pds

abbrev pub kq_after_room : List Pollfd → Kqueue → Option (Result (Unit {0}) × Kqueue)
kq_after_room pds s = kq_add_loop pds s >>= λ s'. some (ok tt, s')

-- Room for the changes, two for each descriptor
abbrev pub kq_make_room :
    Memories → List Pollfd → Result (Unit {0}) × Kqueue → Option (Result (Unit {0}) × Kqueue)
kq_make_room mem pds (err e, s) = some (err e, s)
kq_make_room mem pds (ok _, s) =
    if leb (length pds * 2) (s.addlist_size - length s.addlist)
    then kq_after_room pds s
    else if mem.adds
    then kq_after_room pds (kq_addlist_expand mem.results (length pds * 2) s)
    else some (err enomem, s)

-- `_st_kq_pollset_add`
unfoldable pub kq_pollset_add :
    Memories → List Pollfd → Kqueue → Option (Result (Unit {0}) × Kqueue)
unfolding kq_add_loop kq_check_loop kq_addlist_expand
kq_pollset_add mem pds s = kq_make_room mem pds (kq_check_loop mem.fds pds s)

-- The counts of a descriptor go down; a filter that no poll waits for any more is to be deleted. The
-- counts of the source are of type int: below 0, `none`, the model does not go.
abbrev pub kq_unread : (memory : Bool) → Pollfd → Kqueue → Option Kqueue
kq_unread memory pd s =
    if not pd.pollin
    then some s
    else if s.rd_ref_cnt pd.fd == 0
    then none
    else (let s' = record s { rd_ref_cnt = update s.rd_ref_cnt pd.fd (s.rd_ref_cnt pd.fd - 1) } in
        some (
          if s.rd_ref_cnt pd.fd == 1
          then kq_dellist_add memory (record { ident = pd.fd; filter = evfilt_read }) s'
          else s'))

abbrev pub kq_unwrite : (memory : Bool) → Pollfd → Kqueue → Option Kqueue
kq_unwrite memory pd s =
    if not pd.pollout
    then some s
    else if s.wr_ref_cnt pd.fd == 0
    then none
    else (let s' = record s { wr_ref_cnt = update s.wr_ref_cnt pd.fd (s.wr_ref_cnt pd.fd - 1) } in
        some (
          if s.wr_ref_cnt pd.fd == 1
          then kq_dellist_add memory (record { ident = pd.fd; filter = evfilt_write }) s'
          else s'))

unfoldable pub kq_del_loop : (memory : Bool) → List Pollfd → Kqueue → Option Kqueue
unfolding kq_dellist_add
kq_del_loop memory [] s = some s
kq_del_loop memory (pd ∷ pds) s =
    kq_unread memory pd s >>= kq_unwrite memory pd >>= kq_del_loop memory pds

-- `_st_kq_pollset_del`, up to the call of kevent with the list of deletions
unfoldable pub kq_pollset_del : Memories → List Pollfd → Kqueue → Option Kqueue
unfolding kq_del_loop
kq_pollset_del mem pds s = kq_del_loop mem.dels pds (record s { dellist = [] })

-- `_st_kq_fd_new`, `_st_kq_fd_close`
abbrev kq_fd_new : (memory : Bool) → ℕ → Kqueue → Result (Unit {0}) × Kqueue
kq_fd_new memory osfd s =
    if not (leb s.fd_data_size osfd)
    then (ok tt, s)
    else if memory
    then (ok tt, kq_fd_data_expand osfd s)
    else (err enomem, s)

abbrev kq_fd_close : ℕ → Kqueue → Result (Unit {0})
kq_fd_close osfd s =
    if not (s.rd_ref_cnt osfd == 0) || not (s.wr_ref_cnt osfd == 0) then err ebusy else ok tt

abbrev pub is_filter : Filter → Filter → Bool
is_filter evfilt_read evfilt_read = true
is_filter evfilt_write evfilt_write = true
is_filter _ _ = false

-- Is the filter of a descriptor in a list of changes?
abbrev pub listed : Filter → ℕ → List Kevent → Bool
listed f i [] = false
listed f i (k ∷ ks) = (is_filter k.filter f && (k.ident == i)) || listed f i ks

-- What the kernel knows after a kevent with the list of deletions
abbrev pub deleted : List Kevent → (Filter → ℕ → Bool) → Filter → ℕ → Bool
deleted ks known f i = known f i && not (listed f i ks)

-- The event system at work, with the filters that the kernel knows: descriptors come and go, and a
-- dispatch in which no event is reported gives the changes to the kernel.
pub record Registry : Type 0 where
  pub known : Filter → ℕ → Bool
  pub kqueue : Kqueue

pub data Request : Type 0 where
  enters drops : Memories → List Pollfd → Request
  submits : Request

abbrev pub submitted : List Kevent → (Filter → ℕ → Bool) → Filter → ℕ → Bool
submitted ks known f i = known f i || listed f i ks

abbrev pub request : Request → Registry → Option Registry
request (enters mem pds) r =
    kq_pollset_add mem pds r.kqueue >>= λ r'. some (record { known = r.known; kqueue = r'.1 })
request (drops mem pds) r = kq_pollset_del mem pds r.kqueue >>= λ s.
    some (record { known = deleted s.dellist r.known; kqueue = s })
request submits r = some (record {
  known = submitted r.kqueue.addlist r.known;
  kqueue = record r.kqueue { addlist = [] };
})

abbrev pub requests : List Request → Registry → Option Registry
requests [] r = some r
requests (q ∷ qs) r = request q r >>= requests qs
