-- ===== src/Sync/Errors.antt =====
-- How the calls of sync.c report that they have failed.
use state_thread.Base.{ℕ, ◌≡◌, refl, true, false, inr, ◌==◌, null, Errno}
use state_thread.Vp.{Vp, Context, in_usleep, switch_context}
use state_thread.Vp.Errors.{
  is_eintr, Reports, unless_interrupted-Reports, blocks-Reports, if-Reports,
}
use state_thread.Sync.{usleep, cond_timedwait_in, mutex_lock}

-- The error is another one than EINTR, and nothing has changed.
abbrev pub Same : Errno → Vp → Vp → Type 0
Same e vp vp' = (is_eintr e ≡ false) × (vp' ≡ vp)

pub usleep-Reports : (usecs : ℕ) (vp : Vp) → Reports true Same vp (usleep usecs vp)
unfolding usleep
usleep-Reports usecs vp =
    unless_interrupted-Reports true Same vp _
      (blocks-Reports (Unit {0}) true Same vp _ (switch_context in_usleep))

pub cond_timedwait_in-Reports :
    (context : Context) (c timeout : ℕ) (vp : Vp)
    → Reports true Same vp (cond_timedwait_in context c timeout vp)
unfolding cond_timedwait_in
cond_timedwait_in-Reports context c timeout vp =
    unless_interrupted-Reports true Same vp _
      (blocks-Reports (Unit {0}) true Same vp _ (switch_context context))

pub mutex_lock-Reports : (m : ℕ) (vp : Vp) → Reports true Same vp (mutex_lock m vp)
unfolding mutex_lock
mutex_lock-Reports m vp = unless_interrupted-Reports true Same vp _ λ go.
    if-Reports true Same vp ((vp.mutexes m).owner == null) _ _ go
      (if-Reports true Same vp ((vp.mutexes m).owner == vp.current) _ _ (inr (refl, refl)) go)
