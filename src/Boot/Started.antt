-- ===== src/Boot/Started.antt =====
-- `st_init` of sched.c as a whole.
use state_thread.Base.{
  ℕ, ◌≤◌, ◌≡◌, true, false, ◌||◌, Option, none, some, if◌then◌else◌, ◌==◌, leb, ◌>>=◌, null,
}
use state_thread.Ioq.{Eventsys, select_system, poll_system, epoll_system}
use state_thread.Vp.{Vp}
use state_thread.Vp.Switch.{Runs}
use state_thread.Start.{init, blank_vp, thread_create}
use state_thread.Boot.{
  Resources, Build, Limits, lower_max, limit_of, Process, Environment, as_setup,
}

-- The idle thread's address
abbrev pub idle_address : Environment → Process → Eventsys → (limit : ℕ) → ℕ
idle_address env p sys limit =
    (thread_create env.layout env.memory null false 0
      (blank_vp (as_setup env sys limit) env.pagesize env.time p.vp)).0

-- The limit does not exceed that of the event system, if it has one.
abbrev Within : (fdlim limit : ℕ) → Type 0
Within fdlim limit = (fdlim == 0 || leb limit fdlim) ≡ true

-- select has a limit, the others have none.
abbrev pub Bounded : Eventsys → (limit : ℕ) → Type 0
Bounded select_system limit = limit ≤ 1024
Bounded poll_system limit = Unit
Bounded epoll_system limit = Unit

-- Why `_st_io_init` fails.
pub data Refused (lim : Limits) : Type 0 where
  no_sigaction : lim.sigaction ≡ false → Refused lim
  no_getrlimit : lim.getrlimit ≡ none → Refused lim
  no_setrlimit : lim.setrlimit ≡ false → Refused lim

abbrev limit_from : Limits → (fdlim : ℕ) → Option (ℕ × ℕ) → Option ℕ
limit_from lim fdlim o = o >>= λ (cur, max). limit_of lim.setrlimit fdlim cur (lower_max fdlim max)

-- What the event system's `init` needs: memory for its data; for the array of poll; with epoll also a
-- new descriptor, and memory for its array and its list
abbrev pub Ready : Eventsys → Resources → Type 0
Ready select_system r = r.data_memory ≡ true
Ready poll_system r = (r.data_memory ≡ true) × (r.array_memory ≡ true)
Ready epoll_system r =
    (r.data_memory ≡ true) × (r.created ≡ true) × (r.array_memory ≡ true) × (r.list_memory ≡ true)

-- Why it fails.
pub data Unready : Eventsys → Resources → Type 0 where
  no_data : {sys : Eventsys} {r : Resources} → r.data_memory ≡ false → Unready sys r
  no_poll_array : {r : Resources} → r.array_memory ≡ false → Unready poll_system r
  no_epoll : {r : Resources} → r.created ≡ false → Unready epoll_system r
  no_epoll_array : {r : Resources} → r.array_memory ≡ false → Unready epoll_system r
  no_list : {r : Resources} → r.list_memory ≡ false → Unready epoll_system r

-- Why `st_init` fails with an event system.
pub data Fails (env : Environment) (p : Process) (sys : Eventsys) : Type 0 where
  refused : Refused env.limits → Fails env p sys
  unready : Unready sys env.resources → Fails env p sys
  no_idle : (limit : ℕ) → idle_address env p sys limit ≡ null → Fails env p sys
  no_main : env.main ≡ null → Fails env p sys

-- What holds when it does not.
pub record Starts (env : Environment) (sys : Eventsys) (p : Process) : Type 0 where
  pub ignores : env.limits.sigaction ≡ true
  pub ready : Ready sys env.resources
  pub runs : Runs p.vp
  pub eventsys : p.eventsys ≡ some sys
  pub bounded : Bounded sys p.osfd_limit

-- With the limit, and with an event system that is ready
module _ (env : Environment) (p : Process) (sys : Eventsys) (limit : ℕ)
    (ignores : env.limits.sigaction ≡ true) (ready : Ready sys env.resources)
    (bounded : Bounded sys limit) where
  abbrev made : Option Vp
  made = init (as_setup env sys limit) env.layout env.memory env.main env.pagesize env.time p.vp

  abbrev finished : Option Vp → Option Process
  finished o = o >>= λ vp. some (record { eventsys = some sys; osfd_limit = limit; vp = vp })

-- The event system that was set, or the default one
abbrev pub chosen_system : Build → Option Eventsys → Eventsys
chosen_system b (some sys) = sys
chosen_system b none = if b.use_poll then poll_system else select_system
