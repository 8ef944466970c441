-- ===== src/Sync/Broadcast.antt =====
-- `st_cond_broadcast` of sync.c.
use state_thread.Base.{
  ℕ, ◌≡◌, ltb, ◌≤◌, refl, sym, ap, ◌∙◌, Bool, true, false, List, [], ◌∷◌, ◌++◌, some, if◌then◌else◌,
  ◌>>=◌, Returns, arith, Bool-cases, inl, inr, occurs,
}
use mathlib.Core.List.{append-nil, append_assoc}
use state_thread.SleepQ.{SleepQ}
use state_thread.Vp.{Vp, Thread, runnable, is_cond_wait}
use state_thread.Vp.Invariant.{woken, wake_lem}
use state_thread.Vp.Switch.{Runs}
use state_thread.Vp.Calls.{Frame, Frame-refl, Frame-trans}
use state_thread.Sync.{signal_loop, cond_broadcast}
use state_thread.Sync.Waits.{waiting, woken-Runs}

-- The threads of the queue that wait, in its order.
pub waiters : (ℕ → Thread) → List ℕ → List ℕ
waiters threads [] = []
waiters threads (t ∷ q) =
    if is_cond_wait (threads t).state then t ∷ waiters threads q else waiters threads q

-- The threads `woken_up` are runnable, and in the run queue behind the others.
pub record Broadcast (vp : Vp) (woken_up : List ℕ) (vp' : Vp) : Type 0 where
  pub runs : Runs vp'
  pub run_q : vp'.run_q ≡ vp.run_q ++ woken_up
  pub states :
      (t : ℕ)
      → (vp'.threads t).state
        ≡ (if ltb 0 (occurs t woken_up) then runnable else (vp.threads t).state)
  pub current : vp'.current ≡ vp.current

waiters-woken :
    (vp : Vp) (t : ℕ) (s : SleepQ) (q : List ℕ)
    → occurs t q ≡ 0
    → waiters (woken t s vp).threads q ≡ waiters vp.threads q
unfolding waiters
waiters-woken vp t s [] h = refl
waiters-woken vp t s (u ∷ q) h = ground (arith, waiters-woken vp t s q)

occurs-waiters :
    (threads : ℕ → Thread) (t : ℕ) (q : List ℕ) → occurs t (waiters threads q) ≤ occurs t q
unfolding waiters
occurs-waiters threads t [] = omega arith
occurs-waiters threads t (u ∷ q) = ground (arith, occurs-waiters threads t q)

signal_loop-Broadcast :
    (q : List ℕ) (vp : Vp)
    → Runs vp
    → ((t : ℕ) → occurs t q ≤ 1)
    → Returns (Broadcast vp (waiters vp.threads q)) (signal_loop true q vp)
unfolding signal_loop waiters
signal_loop-Broadcast [] vp runs once = record {
  value = vp;
  returned = refl;
  holds = record {
    runs = runs;
    run_q = sym (append-nil vp.run_q);
    states = λ t. refl;
    current = refl;
  };
}
signal_loop-Broadcast (t ∷ q) vp runs once = elim (Bool-cases (is_cond_wait (vp.threads t).state)) [
  | inl here ↦
      let (s, e, v) = wake_lem t vp runs.valid (waiting t vp here) in
      let rest =
        signal_loop-Broadcast q (woken t s vp) (woken-Runs t s vp runs here v)
          (λ i. ground (arith, once i)) in
      let same = waiters-woken vp t s q (ground (arith, once t)) in
      rw (here, e, signal_loop)
        (record {
          value = rest.value;
          returned = rest.returned;
          holds = record {
            runs = rest.holds.runs;
            run_q =
                rest.holds.run_q
                ∙ ap (λ w. (vp.run_q ++ t ∷ []) ++ w) same
                ∙ append_assoc vp.run_q (t ∷ []) (waiters vp.threads q);
            states = λ i. ground (arith, rest.holds.states i, ap (occurs i) same);
            current = rest.holds.current;
          };
        })
  | inr off ↦ rw (off, signal_loop) (signal_loop-Broadcast q vp runs (λ i. ground (arith, once i)))
]

-- A broadcast on a condition variable whose queue has no thread twice wakes all threads of the
-- queue that wait, in the order in which they came, behind the run queue; no other thread changes
-- its state, and the invariant is kept.
pub cond_broadcast-Broadcast :
    (c : ℕ) (vp : Vp)
    → Runs vp
    → ((t : ℕ) → occurs t (vp.conds c) ≤ 1)
    → Returns (Broadcast vp (waiters vp.threads (vp.conds c))) (cond_broadcast c vp)
unfolding cond_broadcast
cond_broadcast-Broadcast c vp runs once = signal_loop-Broadcast (vp.conds c) vp runs once

-- What any broadcast keeps.
abbrev pub Onward : Vp → Vp → Type 0
Onward vp vp' = Runs vp' × Frame vp vp'

signal_loop-Onward :
    (broadcast : Bool) (q : List ℕ) (vp : Vp)
    → Runs vp
    → Returns (Onward vp) (signal_loop broadcast q vp)
unfolding signal_loop
signal_loop-Onward broadcast [] vp runs = record {
  value = vp;
  returned = refl;
  holds = (runs, Frame-refl vp);
}
signal_loop-Onward broadcast (t ∷ q) vp runs =
    elim (Bool-cases (is_cond_wait (vp.threads t).state)) [
      | inl here ↦
          let (s, e, v) = wake_lem t vp runs.valid (waiting t vp here) in
          let awake = woken-Runs t s vp runs here v in
          rw (here, e, signal_loop)
            (onward broadcast (woken t s vp) awake
              (record { current = refl; idle = refl; io = refl })
              (λ b. signal_loop-Onward b q (woken t s vp) awake))
      | inr off ↦ rw (off, signal_loop) (signal_loop-Onward broadcast q vp runs)
    ]
  where
    onward :
        (b : Bool) (vp' : Vp)
        → Runs vp'
        → Frame vp vp'
        → ((again : Bool) → Returns (Onward vp') (signal_loop again q vp'))
        → Returns
            (Onward vp)
            (some vp' >>= λ v. elim b [ true ↦ signal_loop true q v | false ↦ some v ])
    onward true vp' h f rest =
        let done = rest true in
        record {
          value = done.value;
          returned = done.returned;
          holds = (done.holds.0, Frame-trans f done.holds.1);
        }
    onward false vp' h f rest = record { value = vp'; returned = refl; holds = (h, f) }

pub cond_broadcast-Onward : (c : ℕ) (vp : Vp) → Runs vp → Returns (Onward vp) (cond_broadcast c vp)
unfolding cond_broadcast
cond_broadcast-Onward c vp runs = signal_loop-Onward true (vp.conds c) vp runs
