-- ===== src/Events/Progress.antt =====
-- A round of the idle thread of sched.c with the event systems of event.c.
use state_thread.Base.{ℕ, List, ◌++◌}
use state_thread.Vp.{Vp}
use state_thread.Vp.Switch.{Next}
use state_thread.Sched.Clock.{Expired}
use state_thread.Dispatch.Rounds.{Sent}

-- First the threads with an event become ready, then those whose time has come, and the first of
-- them runs.
pub record Passes (sent_to : List ℕ) (now : ℕ) (vp vp' : Vp) : Type 0 where
  pub sent : Vp
  pub sends : Sent sent_to vp sent
  pub expired : Vp
  pub expires : Expired now now sent expired
  pub next : Next (sent_to ++ expires.woken) vp vp'
