-- ===== src/Sched/Idle.antt =====
-- The idle thread of sched.c.
use state_thread.Base.{
  ℕ, ◌≡◌, refl, true, occurs, Option, ◌==◌, Returns, arith, Bool-cases, inl, inr, false, some,
}
use state_thread.Vp.{Vp, runnable, set_state, in_idle, switch_context, returns, blocks}
use state_thread.Vp.Invariant.{IsVp}
use state_thread.Vp.Switch.{Runs, Stands, switch_context-Runs}
use state_thread.Sched.{idle_round, vp_check_clock}
use state_thread.Sched.Clock.{vp_check_clock-Expired}

-- What the idle thread relies on in the `dispatch` function of an event system: it does not switch
-- and keeps the invariant.
abbrev pub Dispatched : Vp → Option Vp → Type 0
Dispatched vp o = Returns (λ vp'. Runs vp' × (vp'.current ≡ vp.current) × (vp'.idle ≡ vp.idle)) o

idle-IsVp :
    (vp : Vp) → Runs vp → (vp.current == vp.idle) ≡ true → IsVp (set_state vp.current runnable vp)
idle-IsVp vp runs idle = record {
  heap = runs.valid.heap;
  timed = λ i. ground (arith, runs.valid.timed i);
  waits = λ i h. ground (arith, runs.valid.waits i, runs.current_runs);
  ready = λ i. ground (arith, runs.valid.ready i, runs.current_runs, idle);
  dead = λ i. ground (arith, runs.valid.dead i, runs.current_runs);
  idles = ground (arith, idle);
  serves = runs.valid.serves;
  queued = runs.valid.queued;
  polls = λ i h. ground (arith, runs.valid.polls i h, idle);
}

idle_off : (vp : Vp) → Runs vp → (vp.current == vp.idle) ≡ true → occurs vp.current vp.io.io_q ≡ 0
idle_off vp runs idle = ground (arith, runs.valid.polls vp.current, idle)

-- A round with threads left: the dispatch, the clock and a switch.
pub idle_round_returns :
    (dispatch : Vp → Option Vp) (now time : ℕ) (vp sent due : Vp)
    → (vp.active_count == 0) ≡ false
    → dispatch vp ≡ some sent
    → vp_check_clock now time sent ≡ some due
    → idle_round dispatch now time vp
      ≡ some (blocks, switch_context in_idle (set_state due.current runnable due))
unfolding idle_round
idle_round_returns dispatch now time vp sent due left e f = rw (left, e, f) refl

-- A round of the idle thread does not fail, whatever is ready or due, keeps the invariant and
-- leaves a thread running, provided that the event system's dispatch does not fail, keeps the
-- invariant and does not switch.
pub idle_round-Stands :
    (dispatch : Vp → Option Vp) (now time : ℕ) (vp : Vp)
    → Dispatched vp (dispatch vp)
    → Stands true vp
    → (vp.current == vp.idle) ≡ true
    → Returns (λ r. Stands true r.1) (idle_round dispatch now time vp)
unfolding idle_round
idle_round-Stands dispatch now time vp sent stands idle = elim (Bool-cases (vp.active_count == 0)) [
  | inl over ↦ rw over (record { value = (returns tt, vp); returned = refl; holds = stands })
  | inr on ↦
      let done = vp_check_clock-Expired now time sent.value sent.holds.0 in
      let same : (done.value.current == done.value.idle) ≡ true =
        ground (arith, done.holds.current, done.holds.idle, sent.holds.1, sent.holds.2) in
      let ready = set_state done.value.current runnable done.value in
      record {
        value = (blocks, switch_context in_idle ready);
        returned =
            idle_round_returns dispatch now time vp sent.value done.value on sent.returned
              done.returned;
        holds =
            switch_context-Runs in_idle ready (idle-IsVp done.value done.holds.runs same)
              (idle_off done.value done.holds.runs same);
      }
]
