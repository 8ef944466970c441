-- ===== src/Sync/Locks.antt =====
-- Mutexes of sync.c.
use state_thread.Base.{
  Bool, ℕ, ◌≡◌, refl, ap, true, false, ◌&&◌, Option, List, [], ◌∷◌, none, some, if◌then◌else◌, ◌==◌,
  arith, null, remove, Bool-cases, inl, inr, ok, err, eperm, not, occurs-append,
}
use state_thread.Vp.{
  set_interrupt, resume_thread, Vp, Thread, lock_wait, me, is_lock_wait, make_runnable,
}
use state_thread.Vp.Invariant.{IsVp, not_idle}
use state_thread.Vp.Switch.{Runs, Calls}
use state_thread.Vp.Timeouts.{block-IsVp}
use state_thread.Vp.Calls.{
  Calls-same, Frame, Frame-refl, Frame-if, Keeps, Keeps-switch, Keeps-same,
  unless_interrupted-Keeps, set_interrupt-Runs, if-Runs_snd,
}
use state_thread.Sync.{
  mutex_new, set_owner, set_wait_q, mutex_lock, mutex_lock_resume, unlock_loop, mutex_unlock,
  mutex_trylock,
}

module _ (m : ℕ) (vp : Vp) (runs : Runs vp) where
  set_owner-Runs : (t : ℕ) → Runs (set_owner m t vp)
  set_owner-Runs t = record { valid = runs.valid; current_runs = runs.current_runs }

  pub mutex_lock-Keeps : Calls vp → Keeps (mutex_lock m vp)
  unfolding mutex_lock
  mutex_lock-Keeps calls =
      unless_interrupted-Keeps vp runs calls (elim (Bool-cases ((vp.mutexes m).owner == null)) [
        | inl free ↦
            rw free
              (Keeps-same _ _ (set_owner-Runs vp.current) (Calls-same vp calls refl refl refl))
        | inr held ↦ elim (Bool-cases ((vp.mutexes m).owner == vp.current)) [
          | inl mine ↦ rw (held, mine) (Keeps-same _ _ runs calls)
          | inr theirs ↦
              rw (held, theirs)
                (Keeps-switch _ _ (block-IsVp vp runs calls lock_wait refl refl) calls.off)
        ]
      ])

  pub mutex_lock_resume-Runs : Runs (mutex_lock_resume m vp).1
  unfolding mutex_lock_resume
  mutex_lock_resume-Runs =
      let stop = (me vp).interrupt && not ((vp.mutexes m).owner == vp.current) in
      elim (Bool-cases stop) [
        | inl failed ↦ rw failed (set_interrupt-Runs vp.current false _ out-Runs)
        | inr locked ↦ rw locked out-Runs
      ]
    where
      out-Runs : Runs (set_wait_q m (remove vp.current (vp.mutexes m).wait_q) vp)
      out-Runs = record { valid = runs.valid; current_runs = runs.current_runs }

  pub mutex_trylock-Runs : Runs (mutex_trylock m vp).1
  unfolding mutex_trylock
  mutex_trylock-Runs = elim (Bool-cases ((vp.mutexes m).owner == null)) [
    | inl free ↦ rw free (set_owner-Runs vp.current)
    | inr held ↦ rw held runs
  ]

-- A thread that waits for a mutex has no timeout, so no more is done to make it runnable.
locked-IsVp :
    (t : ℕ) (vp : Vp)
    → IsVp vp
    → is_lock_wait (vp.threads t).state ≡ true
    → IsVp (make_runnable t vp)
locked-IsVp t vp v h = record {
  heap = v.heap;
  timed = λ i. ground (arith, v.timed i);
  waits = λ i e. ground (arith, v.waits i);
  ready = λ i. ground (arith, v.ready i, other, occurs-append i vp.run_q (t ∷ []));
  dead = λ i. ground (arith, v.dead i);
  idles = ground (arith, v.idles, other);
  serves = v.serves;
  queued = v.queued;
  polls = λ i h. ground (arith, v.polls i h);
}
  where
    other : (t == vp.idle) ≡ false
    other = not_idle t vp v (record { not_ready = ground arith; not_zombie = ground arith })

-- The first thread of the queue that still waits for the mutex.
unfoldable pub first_locker : (ℕ → Thread) → List ℕ → Option ℕ
first_locker threads [] = none
first_locker threads (t ∷ q) =
    if is_lock_wait (threads t).state then some t else first_locker threads q

-- What `st_mutex_unlock` leaves: the mutex free, or handed to `t`, which is runnable now.
abbrev pub unlocked : ℕ → Option ℕ → Vp → Vp
unlocked m none vp = set_owner m null vp
unlocked m (some t) vp = make_runnable t (set_owner m t vp)

unlock_loop-unlocked :
    (m : ℕ) (q : List ℕ) (vp : Vp) → unlock_loop m q vp ≡ unlocked m (first_locker vp.threads q) vp
unfolding unlock_loop first_locker
unlock_loop-unlocked m [] vp = refl
unlock_loop-unlocked m (t ∷ q) vp = elim (Bool-cases (is_lock_wait (vp.threads t).state)) [
  | inl here ↦ rw here
  | inr off ↦ rw off (unlock_loop-unlocked m q vp)
]

mutex_unlock_lem :
    (m : ℕ) (vp : Vp)
    → mutex_unlock m vp ≡ (
        if (vp.mutexes m).owner == vp.current
        then (ok tt, unlocked m (first_locker vp.threads (vp.mutexes m).wait_q) vp)
        else (err eperm, vp))
unfolding mutex_unlock
mutex_unlock_lem m vp = elim (Bool-cases ((vp.mutexes m).owner == vp.current)) [
  | inl mine ↦ rw mine (ap (λ v. (ok tt, v)) (unlock_loop-unlocked m (vp.mutexes m).wait_q vp))
  | inr other ↦ rw other
]

first_locker-waits :
    (threads : ℕ → Thread) (q : List ℕ) {t : ℕ}
    → first_locker threads q ≡ some t
    → is_lock_wait (threads t).state ≡ true
unfolding first_locker
first_locker-waits threads [] h = cc
first_locker-waits threads (u ∷ q) {t} h = ground (arith, first_locker-waits threads q {t = t})

unlocked-Runs :
    (m : ℕ) (vp : Vp) (o : Option ℕ)
    → Runs vp
    → ((t : ℕ) → o ≡ some t → is_lock_wait (vp.threads t).state ≡ true)
    → Runs (unlocked m o vp)
unlocked-Runs m vp none runs h = record { valid = runs.valid; current_runs = runs.current_runs }
unlocked-Runs m vp (some t) runs h = record {
  valid = locked-IsVp t vp runs.valid (h t refl);
  current_runs = ground (arith, runs.current_runs, h t refl);
}

-- Only the owner can unlock a mutex, others get EPERM and change nothing; the first thread of the
-- queue that still waits gets the mutex and is made runnable, or the mutex is free if there is
-- none; the invariant is kept.
pub mutex_unlock-Runs :
    (m : ℕ) (vp : Vp)
    → Runs vp
    → (mutex_unlock m vp ≡ (
        if (vp.mutexes m).owner == vp.current
        then (ok tt, unlocked m (first_locker vp.threads (vp.mutexes m).wait_q) vp)
        else (err eperm, vp)))
      × Runs (mutex_unlock m vp).1
mutex_unlock-Runs m vp runs = (
  mutex_unlock_lem m vp,
  rw (mutex_unlock_lem m vp) (
      if-Runs_snd ((vp.mutexes m).owner == vp.current)
        (ok tt, unlocked m (first_locker vp.threads (vp.mutexes m).wait_q) vp) (err eperm, vp)
        (unlocked-Runs m vp _ runs (λ t. first_locker-waits vp.threads (vp.mutexes m).wait_q))
        runs),
)

pub mutex_new-Runs : (fresh : ℕ) (vp : Vp) → Runs vp → Runs (mutex_new fresh vp).1
unfolding mutex_new
mutex_new-Runs fresh vp runs =
    if-Runs_snd (fresh == null) (null, vp) _ runs
      (record { valid = runs.valid; current_runs = runs.current_runs })

-- A thread that is handed a mutex on unlock owns it when it goes on, its lock call succeeds, even
-- if the thread was interrupted meanwhile, and its entry is taken out of the mutex's wait queue.
pub mutex_unlock-mutex_lock_resume :
    (m t : ℕ) (interrupted : Bool) (vp : Vp)
    → (vp.mutexes m).owner ≡ vp.current
    → first_locker vp.threads (vp.mutexes m).wait_q ≡ some t
    → let vp' = resume_thread t (set_interrupt t interrupted (mutex_unlock m vp).1) in
      ((mutex_lock_resume m vp').0 ≡ ok tt)
      × (((mutex_lock_resume m vp').1.mutexes m).owner ≡ t)
      × (((mutex_lock_resume m vp').1.mutexes m).wait_q ≡ remove t (vp.mutexes m).wait_q)
unfolding mutex_lock_resume
mutex_unlock-mutex_lock_resume m t interrupted vp mine first =
    let same : ((vp.mutexes m).owner == vp.current) ≡ true = ground arith in
    rw (mutex_unlock_lem m vp, same, first) (ground arith, ground arith, ground arith)

-- None of these calls switches.
pub mutex_new-Frame : (fresh : ℕ) (vp : Vp) → Frame vp (mutex_new fresh vp).1
unfolding mutex_new
mutex_new-Frame fresh vp =
    Frame-if (fresh == null) (null, vp) _ (Frame-refl vp)
      (record { current = refl; idle = refl; io = refl })

pub mutex_trylock-Frame : (m : ℕ) (vp : Vp) → Frame vp (mutex_trylock m vp).1
unfolding mutex_trylock
mutex_trylock-Frame m vp = elim (Bool-cases ((vp.mutexes m).owner == null)) [
  | inl free ↦ rw free (record { current = refl; idle = refl; io = refl })
  | inr held ↦ rw held (Frame-refl vp)
]

unlocked-Frame : (m : ℕ) (o : Option ℕ) (vp : Vp) → Frame vp (unlocked m o vp)
unlocked-Frame m none vp = record { current = refl; idle = refl; io = refl }
unlocked-Frame m (some t) vp = record { current = refl; idle = refl; io = refl }

pub mutex_unlock-Frame : (m : ℕ) (vp : Vp) → Frame vp (mutex_unlock m vp).1
mutex_unlock-Frame m vp = rw (mutex_unlock_lem m vp) (
    Frame-if ((vp.mutexes m).owner == vp.current)
      (ok tt, unlocked m (first_locker vp.threads (vp.mutexes m).wait_q) vp) (err eperm, vp)
      (unlocked-Frame m _ vp) (Frame-refl vp))

pub mutex_lock_resume-Frame : (m : ℕ) (vp : Vp) → Frame vp (mutex_lock_resume m vp).1
unfolding mutex_lock_resume
mutex_lock_resume-Frame m vp =
    elim (Bool-cases ((me vp).interrupt && not ((vp.mutexes m).owner == vp.current))) [
      | inl failed ↦ rw failed (record { current = refl; idle = refl; io = refl })
      | inr locked ↦ rw locked (record { current = refl; idle = refl; io = refl })
    ]
