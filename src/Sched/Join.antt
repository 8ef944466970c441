-- ===== src/Sched/Join.antt =====
-- `st_thread_join` of sched.c.
use state_thread.Base.{
  ℕ, ◌≡◌, refl, ap, true, false, Option, [], ◌∷◌, some, ◌==◌, ◌>>=◌, arith, Bool-cases, inl, inr,
  null, Result, ok, err, occurs-append, occurs-remove,
}
use state_thread.Vp.{Vp, is_zombie, is_ready, in_join, Entered, returns, blocks, no_timeout}
use state_thread.Vp.Switch.{Runs, Calls, Stands}
use state_thread.Vp.Calls.{Calls-same, has_blocked, Keeps, Keeps-same}
use state_thread.Sync.{cond_wait_resume, is_empty}
use state_thread.Sync.Waits.{cond_timedwait-Keeps, cond_wait_resume-Runs, cond_wait_resume-Calls}
use state_thread.Sched.{joined, join_round, thread_join, thread_join_resume, as_join, after_wait}

joined-Runs :
    (t : ℕ) (vp : Vp) → Runs vp → is_zombie (vp.threads t).state ≡ true → Runs (joined t vp).1
unfolding joined
joined-Runs t vp runs dead = record {
  valid = record {
    heap = runs.valid.heap;
    timed = λ i. ground (arith, runs.valid.timed i);
    waits = λ i h. ground (arith, runs.valid.waits i);
    ready = λ i. ground (arith, runs.valid.ready i, occurs-append i vp.run_q (t ∷ []), other);
    dead = λ i. ground (arith, runs.valid.dead i, runs.valid.dead t, occurs-remove i t vp.zombie_q);
    idles = ground (arith, runs.valid.idles);
    serves = runs.valid.serves;
    queued = runs.valid.queued;
    polls = λ i h. ground (arith, runs.valid.polls i h, dead);
  };
  current_runs = ground (arith, runs.current_runs);
}
  where
    other : (t == vp.idle) ≡ false
    other = elim (Bool-cases (t == vp.idle)) [
      | inl same ↦
          let e : t ≡ vp.idle = ground arith in
          let r = ap (λ (u : ℕ). is_ready (vp.threads u).state) e in
          absurd (ground (arith, r, runs.valid.idles, dead))
      | inr off ↦ off
    ]

joined-Calls : (t : ℕ) (vp : Vp) → Calls vp → Calls (joined t vp).1
unfolding joined
joined-Calls t vp calls = Calls-same vp calls refl refl refl

as_join-Stands :
    (r : Entered (Result (Unit {0})) × Vp)
    → Stands (has_blocked r.0) r.1
    → Stands (has_blocked (as_join r).0) (as_join r).1
as_join-Stands (returns (ok _), vp) h = record {
  runs = h.runs;
  place = λ idle. absurd (ground (arith, idle, h.place.other));
}
as_join-Stands (returns (err e), vp) h = h
as_join-Stands (blocks, vp) h = h

Keeps-as_join :
    (o : Option (Entered (Result (Unit {0})) × Vp)) → Keeps o → Keeps (o >>= λ r. some (as_join r))
Keeps-as_join o keeps = rw keeps.returned (record {
  value = as_join keeps.value;
  returned = refl;
  holds = as_join-Stands keeps.value keeps.holds;
})

join_round-Keeps : (t term : ℕ) (vp : Vp) → Runs vp → Calls vp → Keeps (join_round t term vp)
unfolding join_round
join_round-Keeps t term vp runs calls = elim (Bool-cases (is_zombie (vp.threads t).state)) [
  | inl dead ↦ rw dead (Keeps-same _ _ (joined-Runs t vp runs dead) (joined-Calls t vp calls))
  | inr alive ↦
      rw alive
        (Keeps-as_join _ (cond_timedwait-Keeps (in_join t term) term no_timeout vp runs calls))
]

-- Joining a thread from another one than the idle one does not fail, whether it returns or waits,
-- and keeps the invariant.
pub thread_join-Keeps : (t : ℕ) (vp : Vp) → Runs vp → Calls vp → Keeps (thread_join t vp)
unfolding thread_join
thread_join-Keeps t vp runs calls = elim (Bool-cases ((vp.threads t).term == null)) [
  | inl detached ↦ rw detached (Keeps-same _ vp runs calls)
  | inr joinable ↦ rw joinable elim (Bool-cases (vp.current == t)) [
    | inl same ↦ rw same (Keeps-same _ vp runs calls)
    | inr else_ ↦ rw else_ elim (Bool-cases (is_empty (vp.conds (vp.threads t).term))) [
      | inl first ↦ rw first (join_round-Keeps t _ vp runs calls)
      | inr taken ↦ rw taken (Keeps-same _ vp runs calls)
    ]
  ]
]

after_wait-Keeps :
    (t term : ℕ) (r : Result (Unit {0}) × Vp)
    → Runs r.1
    → Calls r.1
    → Keeps (after_wait join_round t term r)
after_wait-Keeps t term (ok _, vp) runs calls = join_round-Keeps t term vp runs calls
after_wait-Keeps t term (err e, vp) runs calls = Keeps-same _ vp runs calls

pub thread_join_resume-Keeps :
    (t term : ℕ) (vp : Vp) → Runs vp → Calls vp → Keeps (thread_join_resume t term vp)
unfolding thread_join_resume
thread_join_resume-Keeps t term vp runs calls =
    after_wait-Keeps t term (cond_wait_resume term vp) (cond_wait_resume-Runs term vp runs)
      (cond_wait_resume-Calls term vp calls)
