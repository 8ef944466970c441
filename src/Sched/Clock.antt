-- ===== src/Sched/Clock.antt =====
-- `_st_vp_check_clock` of sched.c wakes the threads whose time has come.
use state_thread.Base.{
  ℕ, zero, suc, ◌+◌, ◌≤◌, ◌<◌, ◌≡◌, ◌≢◌, refl, sym, ap, ◌∙◌, Bool, true, false, ◌&&◌, List, [], ◌∷◌,
  ◌++◌, if◌then◌else◌, ◌==◌, ltb, leb, one_if, update_self, update_other, ==→≡, Returns, arith,
  Bool-cases, inl, inr, subst, occurs,
}
use mathlib.Core.List.{append-nil, append_assoc}
use state_thread.SleepQ.{SleepQ, Tree, leaf, node}
use state_thread.SleepQ.Shape.{count, root_least, IsHeap}
use state_thread.SleepQ.Delete.{Deleted}
use state_thread.Vp.{Vp, Thread}
use state_thread.Vp.Switch.{Runs}
use state_thread.Sched.{expire_root, expire, vp_check_clock}
use state_thread.Sched.Rung.{expired, rung, rung-Runs, expire_step}

-- The threads whose time has come, in the order in which they are woken.
abbrev Sorted : (ℕ → ℕ) → List ℕ → Type 0
Sorted due [] = Unit {0}
Sorted due (t ∷ []) = Unit {0}
Sorted due (t ∷ u ∷ ts) = (due t ≤ due u) × Sorted due (u ∷ ts)

-- What the clock makes of a thread.
abbrev tick : (now due : ℕ) → Thread → Thread
tick now due th = if th.on_sleepq && leb due now then expired th else th

tick_stays :
    (now due : ℕ) (th : Thread) → (th.on_sleepq && leb due now) ≡ false → th ≡ tick now due th
tick_stays now due th h = rw h

tick_rings :
    (now due : ℕ) (th : Thread)
    → (th.on_sleepq && leb due now) ≡ true
    → expired th ≡ tick now due th
tick_rings now due th h = rw h

pub record Expired (now stamp : ℕ) (vp vp' : Vp) : Type 0 where
  pub runs : Runs vp'
  -- every thread whose time has come is woken, and no other changes;
  pub threads : (t : ℕ) → vp'.threads t ≡ tick now (vp.sleepq.due t) (vp.threads t)
  -- these come behind the runnable threads, those due first first.
  pub woken : List ℕ
  pub run_q : vp'.run_q ≡ vp.run_q ++ woken
  pub asleep : (t : ℕ) → occurs t woken ≤ count t vp.sleepq.sleep_q
  pub in_order : Sorted vp.sleepq.due woken
  pub current : vp'.current ≡ vp.current
  pub idle : vp'.idle ≡ vp.idle
  pub due : vp'.sleepq.due ≡ vp.sleepq.due
  pub clock : vp'.last_clock ≡ stamp

Sorted-cons :
    (due : ℕ → ℕ) (t : ℕ) (ts : List ℕ)
    → ((u : ℕ) → occurs u ts ≢ 0 → due t ≤ due u)
    → Sorted due ts
    → Sorted due (t ∷ ts)
Sorted-cons due t [] h s = tt
Sorted-cons due t (u ∷ ts) h s = (h u (ground arith), s)

none_asleep :
    (now : ℕ) (vp : Vp) → Runs vp → vp.sleepq.sleep_q ≡ leaf → Expired now vp.last_clock vp vp
none_asleep now vp runs e = record {
  runs = runs;
  threads = λ i.
      tick_stays now (vp.sleepq.due i) (vp.threads i)
        (ground (arith, ap (count i) e, runs.valid.timed i));
  woken = [];
  run_q = sym (append-nil vp.run_q);
  asleep = λ i. omega arith;
  in_order = tt;
  current = refl;
  idle = refl;
  due = refl;
  clock = refl;
}

module _ (now : ℕ) (vp : Vp) (runs : Runs vp) (t : ℕ) (l r : Tree)
    (e : vp.sleepq.sleep_q ≡ node t l r) where
  first : (i : ℕ) → count i vp.sleepq.sleep_q ≢ 0 → vp.sleepq.due t ≤ vp.sleepq.due i
  first i c =
      root_least vp.sleepq.due t i l r (subst (IsHeap vp.sleepq.due) e runs.valid.heap.heap)
        (subst (λ s. count i s ≢ 0) e c)

  not_yet :
      now < vp.sleepq.due t
      → (i : ℕ) → ((vp.threads i).on_sleepq && leb (vp.sleepq.due i) now) ≡ false
  not_yet h i = elim (Bool-cases (vp.threads i).on_sleepq) [
    | inl sleeps ↦
        let later = first i (held (vp.threads i).on_sleepq (runs.valid.timed i) sleeps) in
        rw sleeps (after later)
    | inr awake ↦ rw awake
  ]
    where
      held :
          (b : Bool)
          → count i vp.sleepq.sleep_q ≡ one_if b
          → b ≡ true
          → count i vp.sleepq.sleep_q ≢ 0
      held b c g = ground arith

      after : vp.sleepq.due t ≤ vp.sleepq.due i → leb (vp.sleepq.due i) now ≡ false
      after g = ground (arith, h, g)

  none_due : now < vp.sleepq.due t → Expired now vp.last_clock vp vp
  none_due h = record {
    runs = runs;
    threads = λ i. tick_stays now (vp.sleepq.due i) (vp.threads i) (not_yet h i);
    woken = [];
    run_q = sym (append-nil vp.run_q);
    asleep = λ i. omega arith;
    in_order = tt;
    current = refl;
    idle = refl;
    due = refl;
    clock = refl;
  }

  tick-rung :
      (vp.sleepq.due t ≤ now)
      → (q : SleepQ) → Deleted vp.sleepq t q
      → (i : ℕ)
      → tick now (q.due i) ((rung t q vp).threads i) ≡ tick now (vp.sleepq.due i) (vp.threads i)
  tick-rung h q out i = elim (Bool-cases (t == i)) [
    | inl same ↦
        subst
          (λ j.
            tick now (q.due j) ((rung t q vp).threads j)
            ≡ tick now (vp.sleepq.due j) (vp.threads j))
          (==→≡ t i same)
          (ap (tick now (q.due t)) (update_self vp.threads t (expired (vp.threads t)))
            ∙ tick_rings now (vp.sleepq.due t) (vp.threads t)
                (ground (arith, h, runs.valid.timed t, ap (count t) e)))
    | inr off ↦
        ap (tick now (q.due i)) (update_other vp.threads t i (expired (vp.threads t)) off)
        ∙ ap (λ d. tick now (d i) (vp.threads i)) out.due
  ]

  one_due :
      (vp.sleepq.due t ≤ now)
      → (q : SleepQ) → Deleted vp.sleepq t q
      → (vp' : Vp) → Expired now vp.last_clock (rung t q vp) vp'
      → Expired now vp.last_clock vp vp'
  one_due h q out vp' rest = record {
    runs = rest.runs;
    threads = λ i. rest.threads i ∙ tick-rung h q out i;
    woken = t ∷ rest.woken;
    run_q = rest.run_q ∙ append_assoc vp.run_q (t ∷ []) rest.woken;
    asleep = λ i. ground (arith, rest.asleep i, out.counts i, ap (count i) e);
    in_order =
        Sorted-cons vp.sleepq.due t rest.woken
          (λ u c. first u (ground (arith, rest.asleep u, out.counts u)))
          (subst (λ d. Sorted d rest.woken) out.due rest.in_order);
    current = rest.current;
    idle = rest.idle;
    due = rest.due ∙ out.due;
    clock = rest.clock;
  }

-- One round, given what the others do.
expire_root-Expired :
    (fuel now : ℕ) (vp : Vp) (s : Tree)
    → ((vp' : Vp)
        → Runs vp'
        → vp'.sleepq.sleepq_size < fuel
        → Returns (Expired now vp'.last_clock vp') (expire fuel now vp'))
    → Runs vp
    → vp.sleepq.sleepq_size < suc fuel
    → vp.sleepq.sleep_q ≡ s
    → Returns (Expired now vp.last_clock vp) (expire_root (expire fuel now) now vp s)
unfolding expire_root
expire_root-Expired fuel now vp leaf again runs h e = record {
  value = vp;
  returned = refl;
  holds = none_asleep now vp runs e;
}
expire_root-Expired fuel now vp (node t l r) again runs h e =
    elim (Bool-cases (ltb now (vp.sleepq.due t))) [
      | inl early ↦ rw early (record {
        value = vp;
        returned = refl;
        holds = none_due now vp runs t l r e (ground arith);
      })
      | inr late ↦
          let there : count t vp.sleepq.sleep_q ≢ 0 = ground (arith, ap (count t) e) in
          let (q, out, del, same) = expire_step t vp runs there in
          let rest =
            again (rung t q vp) (rung-Runs t vp runs there q out) (omega (arith, out.size)) in
          rw (late, del, same)
            (record {
              value = rest.value;
              returned = rest.returned;
              holds = one_due now vp runs t l r e (ground arith) q out rest.value rest.holds;
            })
    ]

expire-Expired :
    (fuel now : ℕ) (vp : Vp)
    → Runs vp
    → vp.sleepq.sleepq_size < fuel
    → Returns (Expired now vp.last_clock vp) (expire fuel now vp)
unfolding expire
expire-Expired zero now vp runs h = elim h [ ]
expire-Expired (suc fuel) now vp runs h =
    expire_root-Expired fuel now vp vp.sleepq.sleep_q (expire-Expired fuel now) runs h refl

-- The clock wakes exactly the threads in the timeout heap that are due: each becomes runnable
-- without timeout, and is marked timed out if it waited for a condition variable; they come
-- behind the run queue, those due first first, no other thread changes, and the invariant is
-- kept.
pub vp_check_clock-Expired :
    (now time : ℕ) (vp : Vp) → Runs vp → Returns (Expired now now vp) (vp_check_clock now time vp)
unfolding vp_check_clock
vp_check_clock-Expired now time vp runs =
    let done =
      expire-Expired (vp.sleepq.sleepq_size + 1) now _
        (record { valid = runs.valid; current_runs = runs.current_runs }) (omega arith) in
    let out = done.holds in
    record {
      value = done.value;
      returned = done.returned;
      holds = record {
        runs = out.runs;
        threads = out.threads;
        woken = out.woken;
        run_q = out.run_q;
        asleep = out.asleep;
        in_order = out.in_order;
        current = out.current;
        idle = out.idle;
        due = out.due;
        clock = out.clock;
      };
    }
