-- ===== src/Sync.antt =====
-- sync.c: sleeping, condition variables and mutexes. A function that blocks is two functions, one up
-- to its `_ST_SWITCH_CONTEXT` and one, `..._resume`, from there on in the thread that called it.
pub mod Errors
pub mod Sleep
pub mod Waits
pub mod Broadcast
pub mod Locks
use state_thread.Base.{
  ℕ, ◌+◌, ◌*◌, ◌%◌, Bool, true, false, ◌&&◌, ◌||◌, not, Option, none, some, List, [], ◌∷◌, ◌++◌,
  if◌then◌else◌, ◌==◌, update, null, ◌>>=◌, remove, Result, ok, err, eintr, einval, ebusy, edeadlk,
  eperm, etime,
}
use state_thread.Vp.{
  State, Thread, Mutex, Vp, sleeping, suspended, cond_wait, lock_wait, is_cond_wait, is_lock_wait,
  Context, in_usleep, in_cond, in_lock, me, no_timeout, utime_mod, set_state, set_interrupt,
  set_timedout, make_runnable, wake, Entered, returns, blocks, switch_context, unless_interrupted,
  add_timeout, vp_add_sleep_q,
}

-- `st_usleep`
pub usleep : ℕ → Vp → Option (Entered (Result (Unit {0})) × Vp)
usleep usecs vp = unless_interrupted vp do
  vp' ←
      if usecs == no_timeout
      then some (set_state vp.current suspended vp)
      else vp_add_sleep_q vp.current usecs (set_state vp.current sleeping vp)
  some (blocks, switch_context in_usleep vp')

pub usleep_resume : Vp → Result (Unit {0}) × Vp
usleep_resume vp =
    if (me vp).interrupt then (err eintr, set_interrupt vp.current false vp) else (ok tt, vp)

-- `st_sleep`; `none` is a negative number of seconds.
abbrev sleep : Option ℕ → Vp → Option (Entered (Result (Unit {0})) × Vp)
sleep none vp = usleep no_timeout vp
sleep (some secs) vp = usleep (secs * 1000000 % utime_mod) vp

abbrev pub set_cond : ℕ → List ℕ → Vp → Vp
set_cond c q vp = record vp { conds = update vp.conds c q }

-- `st_cond_new` at the address that `calloc` gives, and `st_cond_destroy`
unfoldable pub cond_new : (fresh : ℕ) → Vp → ℕ × Vp
cond_new fresh vp = if fresh == null then (null, vp) else (fresh, set_cond fresh [] vp)

abbrev cond_destroy : ℕ → Vp → Result (Unit {0})
cond_destroy c vp = elim (vp.conds c) [ [] ↦ ok tt | _ ∷ _ ↦ err ebusy ]

-- `st_cond_timedwait`; what its caller does afterwards is in the context.
pub cond_timedwait_in : Context → ℕ → ℕ → Vp → Option (Entered (Result (Unit {0})) × Vp)
cond_timedwait_in context c timeout vp = unless_interrupted vp do
  vp' ←
      add_timeout timeout
        (set_cond c (vp.conds c ++ vp.current ∷ []) (set_state vp.current cond_wait vp))
  some (blocks, switch_context context vp')

abbrev pub cond_timedwait : ℕ → ℕ → Vp → Option (Entered (Result (Unit {0})) × Vp)
cond_timedwait c timeout vp = cond_timedwait_in (in_cond c) c timeout vp

pub cond_wait_resume : ℕ → Vp → Result (Unit {0}) × Vp
cond_wait_resume c vp =
    let out = set_cond c (remove vp.current (vp.conds c)) vp in
    let out' = if (me vp).timedout then set_timedout vp.current false out else out in
    if (me vp).interrupt
    then (err eintr, set_interrupt vp.current false out')
    else (if (me vp).timedout then err etime else ok tt, out')

-- The loop of `_st_cond_signal` over the wait queue.
pub signal_loop : Bool → List ℕ → Vp → Option Vp
signal_loop broadcast [] vp = some vp
signal_loop broadcast (t ∷ q) vp = elim (is_cond_wait (vp.threads t).state) [
  | false ↦ signal_loop broadcast q vp
  | true ↦ wake t vp >>= λ vp'. elim broadcast [ true ↦ signal_loop true q vp' | false ↦ some vp' ]
]

-- `st_cond_signal`, `st_cond_broadcast`
pub cond_signal : ℕ → Vp → Option Vp
unfolding signal_loop
cond_signal c vp = signal_loop false (vp.conds c) vp

pub cond_broadcast : ℕ → Vp → Option Vp
unfolding signal_loop
cond_broadcast c vp = signal_loop true (vp.conds c) vp

abbrev set_mutex : ℕ → Mutex → Vp → Vp
set_mutex m x vp = record vp { mutexes = update vp.mutexes m x }

abbrev pub set_owner : ℕ → ℕ → Vp → Vp
set_owner m t vp = set_mutex m (record (vp.mutexes m) { owner = t }) vp

abbrev pub set_wait_q : ℕ → List ℕ → Vp → Vp
set_wait_q m q vp = set_mutex m (record (vp.mutexes m) { wait_q = q }) vp

-- `st_mutex_new` at the address that `calloc` gives, and `st_mutex_destroy`
pub mutex_new : (fresh : ℕ) → Vp → ℕ × Vp
mutex_new fresh vp =
    if fresh == null
    then (null, vp)
    else (fresh, set_mutex fresh (record { owner = null; wait_q = [] }) vp)

abbrev pub is_empty : List ℕ → Bool
is_empty [] = true
is_empty (_ ∷ _) = false

abbrev mutex_destroy : ℕ → Vp → Result (Unit {0})
mutex_destroy m vp =
    if not ((vp.mutexes m).owner == null) || not (is_empty (vp.mutexes m).wait_q)
    then err ebusy
    else ok tt

-- `st_mutex_lock`
pub mutex_lock : ℕ → Vp → Option (Entered (Result (Unit {0})) × Vp)
mutex_lock m vp = unless_interrupted vp (
    if (vp.mutexes m).owner == null
    then some (returns (ok tt), set_owner m vp.current vp)
    else if (vp.mutexes m).owner == vp.current
    then some (returns (err edeadlk), vp)
    else some (
      blocks,
      switch_context (in_lock m) (
          set_wait_q m ((vp.mutexes m).wait_q ++ vp.current ∷ [])
            (set_state vp.current lock_wait vp)),
    ))

pub mutex_lock_resume : ℕ → Vp → Result (Unit {0}) × Vp
mutex_lock_resume m vp =
    let vp' = set_wait_q m (remove vp.current (vp.mutexes m).wait_q) vp in
    if (me vp).interrupt && not ((vp.mutexes m).owner == vp.current)
    then (err eintr, set_interrupt vp.current false vp')
    else (ok tt, vp')

-- The loop of `st_mutex_unlock`: the first thread that still waits gets the mutex.
pub unlock_loop : ℕ → List ℕ → Vp → Vp
unlock_loop m [] vp = set_owner m null vp
unlock_loop m (t ∷ q) vp =
    if is_lock_wait (vp.threads t).state
    then make_runnable t (set_owner m t vp)
    else unlock_loop m q vp

-- `st_mutex_unlock`
pub mutex_unlock : ℕ → Vp → Result (Unit {0}) × Vp
unfolding unlock_loop
mutex_unlock m vp =
    if (vp.mutexes m).owner == vp.current
    then (ok tt, unlock_loop m (vp.mutexes m).wait_q vp)
    else (err eperm, vp)

-- `st_mutex_trylock`
pub mutex_trylock : ℕ → Vp → Result (Unit {0}) × Vp
mutex_trylock m vp =
    if (vp.mutexes m).owner == null then (ok tt, set_owner m vp.current vp) else (err ebusy, vp)
