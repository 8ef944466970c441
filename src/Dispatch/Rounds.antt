-- ===== src/Dispatch/Rounds.antt =====
-- The loops of the dispatch functions of event.c over the queue of polls.
use state_thread.Base.{
  ℕ, ◌+◌, ◌≤◌, ◌≡◌, ◌≢◌, refl, sym, ap, ◌∙◌, subst, Bool, true, false, List, [], ◌∷◌, ◌++◌, ◌==◌,
  occurs, occurs-remove, occurs-remove_all, if◌then◌else◌, arith, Bool-cases, inl, inr, ==→≡,
}
use mathlib.Core.List.{append-nil, append_assoc}
use state_thread.Vp.{Vp, runnable}
use state_thread.Vp.Invariant.{polls_once}
use state_thread.Dispatch.Wakes.{Sending, Step}

-- The threads of a queue whose polls are ready.
unfoldable pub chosen : (ready : ℕ → Bool) → List ℕ → List ℕ
chosen ready [] = []
chosen ready (t ∷ q) = if ready t then t ∷ chosen ready q else chosen ready q

-- What a dispatch does that wakes the threads `woken_up`, in this order.
pub record Sent (woken_up : List ℕ) (vp vp' : Vp) : Type 0 where
  pub sending : Sending vp'
  -- They come behind the run queue, and their polls leave the queue;
  pub run_q : vp'.run_q ≡ vp.run_q ++ woken_up
  pub io_q : (u : ℕ) → occurs u vp'.io.io_q + occurs u woken_up ≡ occurs u vp.io.io_q
  -- no other thread changes.
  pub states : (u : ℕ) → occurs u woken_up ≢ 0 → (vp'.threads u).state ≡ runnable
  pub others : (u : ℕ) → occurs u woken_up ≡ 0 → (vp'.threads u).state ≡ (vp.threads u).state
  pub current : vp'.current ≡ vp.current
  pub idle : vp'.idle ≡ vp.idle
  pub eventsys : vp'.io.eventsys ≡ vp.io.eventsys

pub Sent-nil : (vp : Vp) → Sending vp → Sent [] vp vp
Sent-nil vp sending = record {
  sending = sending;
  run_q = sym (append-nil vp.run_q);
  io_q = λ u. omega arith;
  states = λ u h. absurd (h refl);
  others = λ u h. refl;
  current = refl;
  idle = refl;
  eventsys = refl;
}

pub occurs-chosen : (ready : ℕ → Bool) (u : ℕ) (q : List ℕ) → occurs u (chosen ready q) ≤ occurs u q
unfolding chosen
occurs-chosen ready u [] = omega arith
occurs-chosen ready u (t ∷ q) = ground (arith, occurs-chosen ready u q)

pub chosen-same :
    (r s : ℕ → Bool) (q : List ℕ) → ((u : ℕ) → occurs u q ≢ 0 → r u ≡ s u) → chosen r q ≡ chosen s q
unfolding chosen
chosen-same r s [] h = refl
chosen-same r s (t ∷ q) h =
    ap (λ b. if b then t ∷ chosen r q else chosen r q) (h t (ground arith))
    ∙ ap (λ c. if s t then t ∷ c else c) (chosen-same r s q (λ u c. h u (ground arith)))

module _ (t : ℕ) (vp vp' vp'' : Vp) (woken_up : List ℕ) (fresh : occurs t woken_up ≡ 0)
    (rest : Sent woken_up vp' vp'') where
  Sent-skip : Step false t vp vp' → Sent woken_up vp vp''
  Sent-skip step = record {
    sending = rest.sending;
    run_q = rest.run_q ∙ ap (λ q. q ++ woken_up) step.run_q;
    io_q = λ u. rest.io_q u ∙ ap (occurs u) step.io_q;
    states = rest.states;
    others = λ u h. rest.others u h ∙ elim (Bool-cases (t == u)) [
      | inl same ↦
          subst (λ i. (vp'.threads i).state ≡ (vp.threads i).state) (==→≡ t u same) step.state
      | inr apart ↦ ap (λ th. th.state) (step.others u apart)
    ];
    current = rest.current ∙ step.current;
    idle = rest.idle ∙ step.idle;
    eventsys = rest.eventsys ∙ step.eventsys;
  }

  Sent-cons : Step true t vp vp' → occurs t vp.io.io_q ≢ 0 → Sent (t ∷ woken_up) vp vp''
  Sent-cons step there = record {
    sending = rest.sending;
    run_q =
        rest.run_q ∙ ap (λ q. q ++ woken_up) step.run_q ∙ append_assoc vp.run_q (t ∷ []) woken_up;
    io_q = λ u.
        omega (arith, rest.io_q u, ap (occurs u) step.io_q, occurs-remove u t vp.io.io_q there);
    states = λ u h. elim (Bool-cases (t == u)) [
      | inl same ↦
          subst (λ i. (vp''.threads i).state ≡ runnable) (==→≡ t u same)
            (rest.others t fresh ∙ step.state)
      | inr apart ↦ rest.states u (ground (arith, h, apart))
    ];
    others = λ u h.
        rest.others u (ground (arith, h)) ∙ ap (λ th. th.state) (step.others u (ground (arith, h)));
    current = rest.current ∙ step.current;
    idle = rest.idle ∙ step.idle;
    eventsys = rest.eventsys ∙ step.eventsys;
  }

  pub Sent-step :
      (b : Bool)
      → Step b t vp vp'
      → occurs t vp.io.io_q ≢ 0
      → Sent (if b then t ∷ woken_up else woken_up) vp vp''
  Sent-step true step there = Sent-cons step there
  Sent-step false step there = Sent-skip step

-- The rest of the queue is still on it.
pub within-Step :
    (b : Bool) (t : ℕ) (q : List ℕ) (vp vp' : Vp)
    → Step b t vp vp'
    → ((u : ℕ) → occurs u (t ∷ q) ≤ occurs u vp.io.io_q)
    → (u : ℕ) → occurs u q ≤ occurs u vp'.io.io_q
within-Step true t q vp vp' step within u =
    ground (arith, within u, ap (occurs u) step.io_q, occurs-remove_all u t vp.io.io_q)
within-Step false t q vp vp' step within u = omega (arith, within u, ap (occurs u) step.io_q)

-- A loop goes on behind one poll, where the others are as ready as before.
pub Sent-rest :
    (b : Bool) (t : ℕ) (q : List ℕ) (vp vp' vp'' : Vp) (r s : ℕ → Bool)
    → Step b t vp vp'
    → Sending vp
    → ((u : ℕ) → occurs u (t ∷ q) ≤ occurs u vp.io.io_q)
    → ((u : ℕ) → (t == u) ≡ false → r u ≡ s u)
    → Sent (chosen r q) vp' vp''
    → Sent (if b then t ∷ chosen s q else chosen s q) vp vp''
Sent-rest b t q vp vp' vp'' r s step sending within same rest =
    subst (λ ws. Sent (if b then t ∷ ws else ws) vp vp'')
      (chosen-same r s q (λ u c. same u (apart u c)))
      (Sent-step t vp vp' vp'' (chosen r q) (omega (arith, occurs-chosen r t q, once)) rest b step
        (ground (arith, within t)))
  where
    once : occurs t q ≡ 0
    once = ground (arith, within t, polls_once vp sending.runs.valid t)

    apart : (u : ℕ) → occurs u q ≢ 0 → (t == u) ≡ false
    apart u c = elim (Bool-cases (t == u)) [
      | inl e ↦ absurd (c (ap (λ (i : ℕ). occurs i q) (sym (==→≡ t u e)) ∙ once))
      | inr off ↦ off
    ]
