-- ===== src/Vp/Calls.antt =====
-- What calls of the library keep, whether they switch or not.
use state_thread.Base.{
  ◌∙◌, ap, ℕ, ◌≡◌, refl, ap, Bool, true, false, Option, some, if◌then◌else◌, Result, Returns, arith,
  Bool-cases, inl, inr, occurs,
}
use state_thread.Vp.Invariant.{IsVp}
use state_thread.Vp.{
  Vp, set_interrupt, set_timedout, unless_interrupted, me, Entered, switch_context, returns, blocks,
  Context,
}
use state_thread.Vp.Switch.{Runs, Calls, Stands, switch_context-Runs}

abbrev pub has_blocked : {A : Type 0} → Entered A → Bool
has_blocked (returns _) = false
has_blocked blocks = true

-- A call that does not fail and leaves a thread running.
abbrev pub Keeps : {A : Type 0} → Option (Entered A × Vp) → Type 0
Keeps o = Returns (λ r. Stands (has_blocked r.0) r.1) o

pub Keeps-switch :
    {A : Type 0} (c : Context) (vp : Vp)
    → IsVp vp
    → occurs vp.current vp.io.io_q ≡ 0
    → Keeps {A = A} (some (blocks, switch_context c vp))
Keeps-switch c vp v off = record {
  value = (blocks, switch_context c vp);
  returned = refl;
  holds = switch_context-Runs c vp v off;
}

pub Keeps-same : {A : Type 0} (a : A) (vp : Vp) → Runs vp → Calls vp → Keeps (some (returns a, vp))
Keeps-same a vp runs calls = record {
  value = (returns a, vp);
  returned = refl;
  holds = record { runs = runs; place = calls };
}

-- What a call that does not switch leaves as it is.
pub record Frame (vp vp' : Vp) : Type 0 where
  pub current : vp'.current ≡ vp.current
  pub idle : vp'.idle ≡ vp.idle
  pub io : vp'.io ≡ vp.io

pub Frame-refl : (vp : Vp) → Frame vp vp
Frame-refl vp = record { current = refl; idle = refl; io = refl }

pub Frame-trans : {vp vp' vp'' : Vp} → Frame vp vp' → Frame vp' vp'' → Frame vp vp''
Frame-trans a b = record {
  current = b.current ∙ a.current;
  idle = b.idle ∙ a.idle;
  io = b.io ∙ a.io;
}

pub Frame-if :
    {A : Type 0} (b : Bool) (r r' : A × Vp) {vp : Vp}
    → Frame vp r.1
    → Frame vp r'.1
    → Frame vp (if b then r else r').1
Frame-if true r r' f g = f
Frame-if false r r' f g = g

pub off_same :
    (vp : Vp)
    → occurs vp.current vp.io.io_q ≡ 0
    → {vp' : Vp} → Frame vp vp'
    → occurs vp'.current vp'.io.io_q ≡ 0
off_same vp off {vp'} same =
    ap (λ io. occurs vp'.current io.io_q) same.io
    ∙ ap (λ (i : ℕ). occurs i vp.io.io_q) same.current
    ∙ off

pub Calls-Frame : (vp : Vp) → Calls vp → {vp' : Vp} → Frame vp vp' → Calls vp'
Calls-Frame vp calls same = record {
  other = ground (arith, same.current, same.idle, calls.other);
  off = off_same vp calls.off same;
}

pub Calls-same :
    (vp : Vp)
    → Calls vp
    → {vp' : Vp} → vp'.current ≡ vp.current
    → vp'.idle ≡ vp.idle
    → vp'.io ≡ vp.io
    → Calls vp'
Calls-same vp calls e f g = Calls-Frame vp calls (record { current = e; idle = f; io = g })

-- A change of the `interrupt` and `timedout` flags is none for the invariant.
pub set_interrupt-Runs : (t : ℕ) (b : Bool) (vp : Vp) → Runs vp → Runs (set_interrupt t b vp)
set_interrupt-Runs t b vp runs = record {
  valid = record {
    heap = runs.valid.heap;
    timed = λ i. ground (arith, runs.valid.timed i);
    waits = λ i h. ground (arith, runs.valid.waits i);
    ready = λ i. ground (arith, runs.valid.ready i);
    dead = λ i. ground (arith, runs.valid.dead i);
    idles = ground (arith, runs.valid.idles);
    serves = runs.valid.serves;
    queued = runs.valid.queued;
    polls = λ i h. ground (arith, runs.valid.polls i h);
  };
  current_runs = ground (arith, runs.current_runs);
}

pub set_timedout-Runs : (t : ℕ) (b : Bool) (vp : Vp) → Runs vp → Runs (set_timedout t b vp)
set_timedout-Runs t b vp runs = record {
  valid = record {
    heap = runs.valid.heap;
    timed = λ i. ground (arith, runs.valid.timed i);
    waits = λ i h. ground (arith, runs.valid.waits i);
    ready = λ i. ground (arith, runs.valid.ready i);
    dead = λ i. ground (arith, runs.valid.dead i);
    idles = ground (arith, runs.valid.idles);
    serves = runs.valid.serves;
    queued = runs.valid.queued;
    polls = λ i h. ground (arith, runs.valid.polls i h);
  };
  current_runs = ground (arith, runs.current_runs);
}

pub unless_interrupted-Keeps :
    {A : Type 0} (vp : Vp) {rest : Option (Entered (Result A) × Vp)}
    → Runs vp
    → Calls vp
    → Keeps rest
    → Keeps (unless_interrupted vp rest)
unless_interrupted-Keeps vp runs calls keeps = elim (Bool-cases (me vp).interrupt) [
  | inl stop ↦ rw stop (
      Keeps-same _ _ (set_interrupt-Runs vp.current false vp runs)
        (record { other = calls.other; off = calls.off }))
  | inr go ↦ rw go keeps
]

pub if-Runs : (b : Bool) (vp vp' : Vp) → Runs vp → Runs vp' → Runs (if b then vp else vp')
if-Runs true vp vp' h g = h
if-Runs false vp vp' h g = g

pub if-Runs_snd :
    {A : Type 0} (b : Bool) (r r' : A × Vp) → Runs r.1 → Runs r'.1 → Runs (if b then r else r').1
if-Runs_snd true r r' h g = h
if-Runs_snd false r r' h g = g
