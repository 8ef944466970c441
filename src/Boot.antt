-- ===== src/Boot.antt =====
-- The event system and the limit of descriptors of a process, event.c and io.c, and the whole of `st_init`,
-- sched.c.
pub mod Started
use state_thread.Base.{
  ℕ, ◌%◌, ◌^◌, Bool, true, false, ◌&&◌, not, Option, none, some, if◌then◌else◌, ◌==◌, leb, ltb,
  ◌>>=◌, Result, ok, err, Errno, ebusy, einval,
}
use state_thread.Select.{fd_setsize}
use state_thread.Ioq.{Eventsys, select_system, poll_system, epoll_system}
use state_thread.Key.{KeyTable}
use state_thread.Stk.{StackPool, Memory}
use state_thread.Vp.{Vp}
use state_thread.Start.{Setup, Layout, init}

-- ST_EVENTSYS_DEFAULT, ST_EVENTSYS_SELECT, ST_EVENTSYS_POLL, ST_EVENTSYS_ALT, and other numbers
pub data Choice : Type 0 where
  by_default by_select by_poll by_alt other : Choice

-- How the library was compiled, on a system with poll and epoll and without kqueue, and whether the
-- kernel has epoll
pub record Build : Type 0 where
  pub use_poll : Bool
  pub epoll_is_supported : Bool

-- `st_set_eventsys`; without epoll, the choice of it is no error and sets nothing.
pub set_eventsys : Build → Choice → Option Eventsys → Result (Unit {0}) × Option Eventsys
set_eventsys b c (some sys) = (err ebusy, some sys)
set_eventsys b by_default none = (ok tt, some (if b.use_poll then poll_system else select_system))
set_eventsys b by_select none = (ok tt, some select_system)
set_eventsys b by_poll none = (ok tt, some poll_system)
set_eventsys b by_alt none = (ok tt, if b.epoll_is_supported then some epoll_system else none)
set_eventsys b other none = (err einval, none)

-- `_st_select_fd_getlimit`, `_st_poll_fd_getlimit`, `_st_epoll_fd_getlimit`; 0 is no limit.
abbrev pub fd_getlimit : Eventsys → ℕ
fd_getlimit select_system = fd_setsize
fd_getlimit poll_system = 0
fd_getlimit epoll_system = 0

-- Whether sigaction and setrlimit succeed, and the limits that getrlimit gives
pub record Limits : Type 0 where
  pub sigaction : Bool
  pub getrlimit : Option (ℕ × ℕ)
  pub setrlimit : Bool

-- A number as an `int` of 32 bits, and whether that is negative
abbrev pub as_int : ℕ → ℕ
as_int n = n % 2 ^ 32

abbrev pub is_negative : ℕ → Bool
is_negative n = leb (2 ^ 31) (as_int n)

abbrev pub lower_max : (fdlim max : ℕ) → ℕ
lower_max fdlim max = if ltb 0 fdlim && ltb fdlim max then fdlim else max

-- What follows in `_st_io_init` when the limits are known
pub limit_of : (setrlimit : Bool) → (fdlim cur max : ℕ) → Option ℕ
limit_of setrlimit fdlim cur max =
    if is_negative max
    then some (as_int (if ltb 0 fdlim then fdlim else cur))
    else if not setrlimit
    then none
    else some (as_int max)

-- `_st_io_init`, with the `_st_osfd_limit` that it sets
pub io_init : Limits → (fdlim : ℕ) → Option ℕ
unfolding limit_of
io_init lim fdlim =
    if not lim.sigaction
    then none
    else do (cur, max) ← lim.getrlimit; limit_of lim.setrlimit fdlim cur (lower_max fdlim max)

-- What the event system's `init` gets: memory for its data, its array and its list, and epoll_create
pub record Resources : Type 0 where
  pub data_memory : Bool
  pub array_memory : Bool
  pub list_memory : Bool
  pub created : Bool

abbrev pub inits : Eventsys → Resources → Bool
inits select_system r = r.data_memory
inits poll_system r = r.data_memory && r.array_memory
inits epoll_system r = r.data_memory && r.created && r.array_memory && r.list_memory

-- The state of the library in a process
pub record Process : Type 0 where
  pub eventsys : Option Eventsys
  pub osfd_limit : ℕ
  pub vp : Vp

-- What the system gives to `st_init`
pub record Environment : Type 0 where
  pub build : Build
  pub limits : Limits
  pub resources : Resources
  pub layout : Layout
  pub memory : Memory
  pub main : ℕ
  pub pid : ℕ
  pub pagesize : ℕ
  pub time : ℕ

abbrev pub as_setup : Environment → Eventsys → (limit : ℕ) → Setup
as_setup env sys limit = record { eventsys = sys; pid = env.pid; fdlim = limit }

-- From `_st_io_init` on
pub start_with : Environment → Process → Option Eventsys → Option Process
unfolding io_init
start_with env p none = none
start_with env p (some sys) = io_init env.limits (fd_getlimit sys) >>= λ limit.
    if not (inits sys env.resources)
    then none
    else (init (as_setup env sys limit) env.layout env.memory env.main env.pagesize env.time p.vp
        >>= λ vp. some (record { eventsys = some sys; osfd_limit = limit; vp = vp }))

-- `st_init`; `none` is its failure.
pub start : Environment → Process → Option Process
unfolding start_with set_eventsys
start env p =
    if not (p.vp.active_count == 0)
    then some p
    else start_with env p (set_eventsys env.build by_default p.eventsys).1
