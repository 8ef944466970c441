-- ===== src/Sync/Waits.antt =====
-- Condition variables of sync.c.
use state_thread.Base.{
  ℕ, ◌≡◌, refl, true, false, Option, List, [], ◌∷◌, ◌++◌, none, some, if◌then◌else◌, ◌==◌, remove,
  Returns, arith, Bool-cases, inl, inr, subst, sym,
}
use state_thread.SleepQ.{SleepQ}
use state_thread.Vp.{Vp, Thread, cond_wait, set_state, set_timedout, me, is_cond_wait, Context}
use state_thread.Vp.Invariant.{IsVp, IsRunning, woken, wake_lem, IsWaiting}
use state_thread.Vp.Switch.{Runs, Calls}
use state_thread.Vp.Timeouts.{no_timeout_yet, block-IsVp, add_timeout_lem}
use state_thread.Vp.Calls.{
  if-Runs, if-Runs_snd, Frame, Frame-refl, Frame-if, Keeps, Keeps-switch, unless_interrupted-Keeps,
  set_interrupt-Runs, set_timedout-Runs,
}
use state_thread.Base.{null}
use state_thread.Sync.{
  cond_new, set_cond, cond_timedwait_in, cond_wait_resume, signal_loop, cond_signal,
}

module _ (context : Context) (c timeout : ℕ) (vp : Vp) (runs : Runs vp) (calls : Calls vp) where
  queued : Vp
  queued = set_cond c (vp.conds c ++ vp.current ∷ []) (set_state vp.current cond_wait vp)

  pub cond_timedwait-Keeps : Keeps (cond_timedwait_in context c timeout vp)
  unfolding cond_timedwait_in queued
  cond_timedwait-Keeps = unless_interrupted-Keeps vp runs calls (
      let (q, e, valid) =
        add_timeout_lem timeout queued (block-IsVp vp runs calls cond_wait refl refl)
          (ground (arith, no_timeout_yet vp runs calls)) (ground arith) in
      rw e (Keeps-switch _ _ valid calls.off))

pub cond_wait_resume-Runs : (c : ℕ) (vp : Vp) → Runs vp → Runs (cond_wait_resume c vp).1
unfolding cond_wait_resume
cond_wait_resume-Runs c vp runs =
    if-Runs_snd (me vp).interrupt _ _ (set_interrupt-Runs vp.current false _ timed) timed
  where
    out : Vp
    out = set_cond c (remove vp.current (vp.conds c)) vp

    out-Runs : Runs out
    out-Runs = record { valid = runs.valid; current_runs = runs.current_runs }

    timed : Runs (if (me vp).timedout then set_timedout vp.current false out else out)
    timed = if-Runs (me vp).timedout _ _ (set_timedout-Runs vp.current false out out-Runs) out-Runs

-- It does not switch.
pub cond_wait_resume-Calls : (c : ℕ) (vp : Vp) → Calls vp → Calls (cond_wait_resume c vp).1
unfolding cond_wait_resume
cond_wait_resume-Calls c vp calls = record {
  other = ground (arith, calls.other);
  off = ground (arith, calls.off);
}

-- The first thread of the queue that still waits.
pub first_waiter : (ℕ → Thread) → List ℕ → Option ℕ
first_waiter threads [] = none
first_waiter threads (t ∷ q) =
    if is_cond_wait (threads t).state then some t else first_waiter threads q

abbrev pub Signalled : Vp → Option ℕ → Vp → Type 0
Signalled vp none vp' = vp' ≡ vp
Signalled vp (some t) vp' = (q : SleepQ) × (vp' ≡ woken t q vp)

pub Signalled-Frame : (vp : Vp) (o : Option ℕ) (vp' : Vp) → Signalled vp o vp' → Frame vp vp'
Signalled-Frame vp none vp' same = subst (Frame vp) (sym same) (Frame-refl vp)
Signalled-Frame vp (some t) vp' (q, same) =
    subst (Frame vp) (sym same) (record { current = refl; idle = refl; io = refl })

pub waiting : (t : ℕ) (vp : Vp) → is_cond_wait (vp.threads t).state ≡ true → IsWaiting t vp
waiting t vp h = record { not_ready = ground arith; not_zombie = ground arith }

pub woken-Runs :
    (t : ℕ) (q : SleepQ) (vp : Vp)
    → Runs vp
    → is_cond_wait (vp.threads t).state ≡ true
    → IsVp (woken t q vp)
    → Runs (woken t q vp)
woken-Runs t q vp runs h v = record { valid = v; current_runs = ground (arith, runs.current_runs) }

signal_loop-Signalled :
    (q : List ℕ) (vp : Vp)
    → IsVp vp
    → Returns
        (λ vp'.
          Signalled vp (first_waiter vp.threads q) vp' × IsVp vp' × (IsRunning vp → IsRunning vp'))
        (signal_loop false q vp)
unfolding signal_loop first_waiter
signal_loop-Signalled [] vp v = record { value = vp; returned = refl; holds = (refl, v, λ h. h) }
signal_loop-Signalled (t ∷ q) vp v = elim (Bool-cases (is_cond_wait (vp.threads t).state)) [
  | inl here ↦
      let (s, e, w) = wake_lem t vp v (waiting t vp here) in
      rw (here, e, signal_loop)
        (record {
          value = woken t s vp;
          returned = refl;
          holds = (
            (s, refl),
            w,
            λ h. (woken-Runs t s vp (record { valid = v; current_runs = h }) here w).current_runs,
          );
        })
  | inr off ↦ rw (off, signal_loop) (signal_loop-Signalled q vp v)
]

pub cond_signal_lem :
    (c : ℕ) (vp : Vp)
    → IsVp vp
    → Returns
        (λ vp'.
          Signalled vp (first_waiter vp.threads (vp.conds c)) vp'
          × IsVp vp'
          × (IsRunning vp → IsRunning vp'))
        (cond_signal c vp)
unfolding cond_signal
cond_signal_lem c vp v = signal_loop-Signalled (vp.conds c) vp v

pub cond_signal-Signalled :
    (c : ℕ) (vp : Vp)
    → Runs vp
    → Returns
        (λ vp'. Signalled vp (first_waiter vp.threads (vp.conds c)) vp' × Runs vp')
        (cond_signal c vp)
cond_signal-Signalled c vp runs =
    let done = cond_signal_lem c vp runs.valid in
    record {
      value = done.value;
      returned = done.returned;
      holds = (
        done.holds.0,
        record { valid = done.holds.1; current_runs = done.holds.2 runs.current_runs },
      );
    }

pub cond_signal_nobody : (c : ℕ) (vp : Vp) → vp.conds c ≡ [] → cond_signal c vp ≡ some vp
unfolding cond_signal
cond_signal_nobody c vp e = rw (e, signal_loop)

pub cond_new-Runs : (fresh : ℕ) (vp : Vp) → Runs vp → Runs (cond_new fresh vp).1
unfolding cond_new
cond_new-Runs fresh vp runs =
    if-Runs_snd (fresh == null) (null, vp) _ runs
      (record { valid = runs.valid; current_runs = runs.current_runs })

pub cond_new-Frame : (fresh : ℕ) (vp : Vp) → Frame vp (cond_new fresh vp).1
unfolding cond_new
cond_new-Frame fresh vp =
    Frame-if (fresh == null) (null, vp) _ (Frame-refl vp)
      (record { current = refl; idle = refl; io = refl })
