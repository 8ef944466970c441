-- ===== src/Vp/Switch.antt =====
-- Blocking and switching keep the invariant.
use state_thread.Base.{
  ◌∙◌, sym, ap, ==→≡, update_other, ℕ, ◌≡◌, ◌≢◌, refl, ap, subst, Bool, true, false, List, [], ◌∷◌,
  ◌==◌, update, arith, Bool-cases, inl, inr, remove, occurs, occurs-remove,
}
use state_thread.Vp.Invariant.{IsVp, IsRunning, is_runnable}
use state_thread.Vp.{
  running, is_running, Vp, is_zombie, is_ready, me, vp_schedule, switch_context, resume_thread,
  Context, set_context, del_runq,
}

-- The invariant with a current thread that runs.
pub record Runs (vp : Vp) : Type 0 where
  pub valid : IsVp vp
  pub current_runs : IsRunning vp

-- The current thread is about to be left: it does not run on with its poll on the queue.
abbrev pub Leaves : Vp → Type 0
Leaves vp = occurs vp.current vp.io.io_q ≢ 0 → is_running (me vp).state ≡ false

left :
    (vp : Vp)
    → Leaves vp
    → (t : ℕ) → (t == vp.current) ≡ true
    → occurs t vp.io.io_q ≢ 0
    → is_running (vp.threads t).state ≡ false
left vp leaves t same h =
    subst (λ i. occurs i vp.io.io_q ≢ 0 → is_running (vp.threads i).state ≡ false)
      (sym (==→≡ t vp.current same)) leaves h

resume_idle-Runs : (vp : Vp) → IsVp vp → Leaves vp → vp.run_q ≡ [] → Runs (resume_thread vp.idle vp)
resume_idle-Runs vp v leaves none_ready = record {
  valid = record {
    heap = v.heap;
    timed = λ t. ground (arith, v.timed t);
    waits = λ t h. ground (arith, v.waits t, v.idles);
    ready = λ t. ground (arith, v.ready t);
    dead = λ t. ground (arith, v.dead t, v.idles);
    idles = ground arith;
    serves = v.serves;
    queued = v.queued;
    polls = λ t h. elim (Bool-cases (t == vp.current)) [
      | inl same ↦ ground (arith, v.polls t h, left vp leaves t same h)
      | inr apart ↦ ground (arith, v.polls t h, apart)
    ];
  };
  current_runs = ground arith;
}

resume_next-Runs :
    (vp : Vp) (t : ℕ) (rest : List ℕ)
    → IsVp vp
    → Leaves vp
    → vp.run_q ≡ t ∷ rest
    → Runs (resume_thread t (del_runq t vp))
resume_next-Runs vp t rest v leaves first = record {
  valid = record {
    heap = v.heap;
    timed = λ i. ground (arith, v.timed i);
    waits = λ i h. ground (arith, v.waits i, here);
    ready = λ i. ground (arith, v.ready i, occurs-remove i t vp.run_q, here, there);
    dead = λ i. ground (arith, v.dead i, here);
    idles = ground (arith, v.idles);
    serves = v.serves;
    queued = v.queued;
    polls = λ i h. elim (Bool-cases (i == vp.current)) [
      | inl same ↦ ground (arith, v.polls i h, left vp leaves i same h)
      | inr apart ↦ ground (arith, v.polls i h, apart)
    ];
  };
  current_runs = ground arith;
}
  where
    there : occurs t vp.run_q ≢ 0
    there = rw first (ground arith)

    here : is_runnable (vp.threads t).state ≡ true
    here = ground (arith, v.ready t, there)

vp_schedule-Runs : (vp : Vp) → IsVp vp → Leaves vp → Runs (vp_schedule vp)
unfolding vp_schedule
vp_schedule-Runs vp v leaves = cases vp.run_q refl
  where
    cases : (q : List ℕ) → vp.run_q ≡ q → Runs (vp_schedule vp)
    cases [] e = rw (e, vp_schedule) (resume_idle-Runs vp v leaves e)
    cases (t ∷ rest) e = rw (e, vp_schedule) (resume_next-Runs vp t rest v leaves e)

-- The idle thread is switched to when no other can run.
vp_schedule_alone :
    (vp : Vp)
    → IsVp vp
    → ((vp_schedule vp).current == (vp_schedule vp).idle) ≡ true
    → (vp_schedule vp).run_q ≡ []
unfolding vp_schedule
vp_schedule_alone vp v = cases vp.run_q refl
  where
    cases :
        (q : List ℕ)
        → vp.run_q ≡ q
        → ((vp_schedule vp).current == (vp_schedule vp).idle) ≡ true
        → (vp_schedule vp).run_q ≡ []
    cases [] e = rw (e, vp_schedule) (λ h. e)
    cases (t ∷ rest) e =
        rw (e, vp_schedule) (λ h. absurd (ground (arith, h, v.ready t, ap (occurs t) e)))

set_context-IsVp :
    (c : Context) (vp : Vp)
    → IsVp vp
    → occurs vp.current vp.io.io_q ≡ 0
    → IsVp (set_context vp.current c vp)
set_context-IsVp c vp v off = record {
  heap = v.heap;
  timed = λ t. ground (arith, v.timed t);
  waits = λ t h. ground (arith, v.waits t);
  ready = λ t. ground (arith, v.ready t);
  dead = λ t. ground (arith, v.dead t);
  idles = ground (arith, v.idles);
  serves = v.serves;
  queued = v.queued;
  polls = λ i h. ground (arith, v.polls i h, off);
}

-- The thread that is switched to is the first of the run queue, or the idle one if no other can run.
abbrev pub Next : List ℕ → Vp → Vp → Type 0
Next [] vp vp' = (vp'.current ≡ vp.idle) × (vp'.run_q ≡ [])
Next (t ∷ rest) vp vp' = (vp'.current ≡ t) × (vp'.run_q ≡ rest)

vp_schedule-Next : (vp : Vp) (q : List ℕ) → vp.run_q ≡ q → Next q vp (vp_schedule vp)
unfolding vp_schedule
vp_schedule-Next vp [] e = rw (e, vp_schedule) (refl, e)
vp_schedule-Next vp (t ∷ rest) e = rw (e, vp_schedule) (refl, ap (remove t) e ∙ ground arith)

pub switch_context-Next :
    (c : Context) (vp : Vp) (q : List ℕ) → vp.run_q ≡ q → Next q vp (switch_context c vp)
unfolding switch_context
switch_context-Next c vp [] e = vp_schedule-Next (set_context vp.current c vp) [] e
switch_context-Next c vp (t ∷ rest) e = vp_schedule-Next (set_context vp.current c vp) (t ∷ rest) e

-- A thread that has called the library: it is not the idle one, and no poll of it is on the queue.
pub record Calls (vp : Vp) : Type 0 where
  pub other : (vp.current == vp.idle) ≡ false
  pub off : occurs vp.current vp.io.io_q ≡ 0

-- What holds of the current thread when it has been switched to, and when it runs on.
abbrev pub Place : (switched : Bool) → Vp → Type 0
Place true vp = (vp.current == vp.idle) ≡ true → vp.run_q ≡ []
Place false vp = Calls vp

pub record Stands (switched : Bool) (vp : Vp) : Type 0 where
  pub runs : Runs vp
  pub place : Place switched vp

pub switch_context-Stands :
    (c : Context) (vp : Vp)
    → IsVp (set_context vp.current c vp)
    → Leaves (set_context vp.current c vp)
    → Stands true (switch_context c vp)
unfolding switch_context
switch_context-Stands c vp v leaves = record {
  runs = vp_schedule-Runs (set_context vp.current c vp) v leaves;
  place = vp_schedule_alone (set_context vp.current c vp) v;
}

pub switch_context-Runs :
    (c : Context) (vp : Vp)
    → IsVp vp
    → occurs vp.current vp.io.io_q ≡ 0
    → Stands true (switch_context c vp)
switch_context-Runs c vp v off =
    switch_context-Stands c vp (set_context-IsVp c vp v off) (λ h. absurd (h off))

-- A thread that has ended is not switched to.
resumed_stays :
    (vp : Vp) (t u : ℕ)
    → is_zombie (vp.threads t).state ≡ true
    → is_ready (vp.threads u).state ≡ true
    → update vp.threads u (record (vp.threads u) { state = running }) t ≡ vp.threads t
resumed_stays vp t u dead ready = elim (Bool-cases (u == t)) [
  | inl same ↦
      absurd
        (ground (arith, dead, ready, ap (λ (i : ℕ). is_ready (vp.threads i).state) (==→≡ u t same)))
  | inr apart ↦ update_other vp.threads u t _ apart
]

vp_schedule_stays :
    (vp : Vp) (t : ℕ)
    → IsVp vp
    → is_zombie (vp.threads t).state ≡ true
    → ((vp_schedule vp).threads t ≡ vp.threads t) × ((vp_schedule vp).conds ≡ vp.conds)
unfolding vp_schedule
vp_schedule_stays vp t v dead = cases vp.run_q refl
  where
    cases :
        (q : List ℕ)
        → vp.run_q ≡ q
        → ((vp_schedule vp).threads t ≡ vp.threads t) × ((vp_schedule vp).conds ≡ vp.conds)
    cases [] e = rw (e, vp_schedule) (resumed_stays vp t vp.idle dead v.idles, refl)
    cases (u ∷ rest) e =
        rw (e, vp_schedule)
          (resumed_stays vp t u dead (ground (arith, v.ready u, ap (occurs u) e)), refl)

pub switch_context_stays :
    (c : Context) (vp : Vp) (t : ℕ)
    → IsVp vp
    → occurs vp.current vp.io.io_q ≡ 0
    → is_zombie (vp.threads t).state ≡ true
    → let vp' = switch_context c vp in
      ((vp'.threads t).state ≡ (vp.threads t).state)
      × ((vp'.threads t).retval ≡ (vp.threads t).retval)
      × ((vp'.threads t).term ≡ (vp.threads t).term)
      × (vp'.conds ≡ vp.conds)
unfolding switch_context
switch_context_stays c vp t v off dead =
    let saved = set_context vp.current c vp in
    let stays = vp_schedule_stays saved t (set_context-IsVp c vp v off) (ground (arith, dead)) in
    (
      ap (λ th. th.state) stays.0 ∙ ground arith,
      ap (λ th. th.retval) stays.0 ∙ ground arith,
      ap (λ th. th.term) stays.0 ∙ ground arith,
      stays.1,
    )
