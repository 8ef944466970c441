-- ===== src/Sync/Sleep.antt =====
-- `st_usleep` of sync.c.
use state_thread.Base.{ℕ, refl, false, ◌==◌, arith, Bool-cases, inl, inr}
use state_thread.Vp.{Vp, sleeping, suspended, set_state, me, no_timeout}
use state_thread.Vp.Switch.{Runs, Calls, Stands}
use state_thread.Vp.Timeouts.{no_timeout_yet, block-IsVp, vp_add_sleep_q_lem}
use state_thread.Vp.Calls.{
  Calls-same, Keeps, Keeps-switch, unless_interrupted-Keeps, set_interrupt-Runs,
}
use state_thread.Sync.{usleep, usleep_resume}

module _ (usecs : ℕ) (vp : Vp) (runs : Runs vp) (calls : Calls vp) where
  pub usleep-Keeps : Keeps (usleep usecs vp)
  unfolding usleep
  usleep-Keeps = unless_interrupted-Keeps vp runs calls (elim (Bool-cases (usecs == no_timeout)) [
    | inl ever ↦ rw ever (Keeps-switch _ _ (block-IsVp vp runs calls suspended refl refl) calls.off)
    | inr limited ↦
        let asleep = block-IsVp vp runs calls sleeping refl refl in
        let (q, e, _, valid) =
          vp_add_sleep_q_lem usecs (set_state vp.current sleeping vp) asleep
            (ground (arith, no_timeout_yet vp runs calls)) (ground arith) in
        rw (limited, e) (Keeps-switch _ _ valid calls.off)
  ])

-- After a sleep the call fails exactly when the thread was interrupted, and takes note of it.
pub usleep_resume-Stands : (vp : Vp) → Runs vp → Calls vp → Stands false (usleep_resume vp).1
unfolding usleep_resume
usleep_resume-Stands vp runs calls = elim (Bool-cases (me vp).interrupt) [
  | inl stop ↦ rw stop (record {
    runs = set_interrupt-Runs vp.current false vp runs;
    place = Calls-same vp calls refl refl refl;
  })
  | inr go ↦ rw go (record { runs = runs; place = calls })
]
