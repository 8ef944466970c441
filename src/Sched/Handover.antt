-- ===== src/Sched/Handover.antt =====
-- What `st_thread_exit` and `st_thread_join` of sched.c hand over to each other.
use state_thread.Base.{
  ◌++◌, ◌+◌, ◌∷◌, occurs, occurs-remove, one_if, if◌then◌else◌, ℕ, ◌≡◌, ◌≢◌, refl, ap, ◌∙◌, true,
  false, some, List, [], ◌==◌, ==→≡, Returns, ok, null, arith, Bool-cases, inl, inr,
}
use state_thread.Vp.{
  Vp, zombie, is_zombie, me, set_state, add_zombieq, in_exit, runnable, switch_context, returns,
}
use state_thread.Vp.Invariant.{is_runnable}
use state_thread.Vp.Switch.{Runs, Calls, switch_context-Runs, switch_context_stays}
use state_thread.Vp.Calls.{Calls-same}
use state_thread.Sched.{thread_exit, end_thread, cleanup, thread_join, join_round, joined}
use state_thread.Sched.Life.{set_thread-Runs, cleanup-Runs, zombie-IsVp}
use state_thread.Sync.Waits.{cond_signal_nobody}

-- A thread that ended has its return value and its condition variable until it is joined.
record Ended (t value cvar : ℕ) (queues : ℕ → List ℕ) (vp : Vp) : Type 0 where
  pub runs : Runs vp
  pub dead : is_zombie (vp.threads t).state ≡ true
  pub retval : (vp.threads t).retval ≡ value
  pub term : (vp.threads t).term ≡ cvar
  pub conds : vp.conds ≡ queues

end_thread-Ended :
    (value cvar : ℕ) (vp : Vp)
    → Runs vp
    → Calls vp
    → (me vp).retval ≡ value
    → (me vp).term ≡ cvar
    → (cvar == null) ≡ false
    → vp.conds cvar ≡ []
    → Returns (Ended vp.current value cvar vp.conds) (end_thread vp)
unfolding end_thread
end_thread-Ended value cvar vp runs calls is_value is_cvar joinable alone =
    let vp' = add_zombieq vp.current (set_state vp.current zombie vp) in
    let v = zombie-IsVp vp runs calls in
    let stays = switch_context_stays in_exit vp' vp.current v calls.off (ground arith) in
    let has_term = ap (λ c. c == null) is_cvar ∙ joinable in
    rw (has_term, cond_signal_nobody (me vp).term vp' (ap vp.conds is_cvar ∙ alone))
      (record {
        value = switch_context in_exit vp';
        returned = refl;
        holds = record {
          runs = (switch_context-Runs in_exit vp' v calls.off).runs;
          dead = ap is_zombie stays.0 ∙ ground arith;
          retval = stays.1 ∙ ground (arith, is_value);
          term = stays.2 ∙ ground (arith, is_cvar);
          conds = stays.3;
        };
      })

thread_exit-Ended :
    (value cvar : ℕ) (vp : Vp)
    → Runs vp
    → Calls vp
    → (me vp).term ≡ cvar
    → (cvar == null) ≡ false
    → vp.conds cvar ≡ []
    → Returns (Ended vp.current value cvar vp.conds) (thread_exit value vp)
unfolding thread_exit cleanup
thread_exit-Ended value cvar vp runs calls is_cvar joinable alone =
    let kept =
      set_thread-Runs vp.current (record (me vp) { retval = value }) vp refl refl refl runs in
    let clean = cleanup-Runs _ kept in
    end_thread-Ended value cvar _
      (record { valid = clean.valid; current_runs = clean.current_runs })
      (Calls-same vp calls refl refl refl) (ground arith) (ground (arith, is_cvar)) joinable alone

-- Two threads, of which one runs and one has ended, are not the same.
apart :
    (vp : Vp) (t : ℕ) → Runs vp → is_zombie (vp.threads t).state ≡ true → (vp.current == t) ≡ false
apart vp t runs dead = elim (Bool-cases (vp.current == t)) [
  | inl same ↦ absurd (
      ground (
        arith,
        dead,
        runs.current_runs,
        ap (λ (i : ℕ). is_zombie (vp.threads i).state) (==→≡ vp.current t same),
      ))
  | inr different ↦ different
]

-- The processor after a join of a thread that has ended: that thread alone is runnable, last in the run
-- queue and no longer on the zombie queue; nothing else has changed.
pub record Joined (t : ℕ) (vp vp' : Vp) : Type 0 where
  pub state : is_runnable (vp'.threads t).state ≡ true
  pub run_q : vp'.run_q ≡ vp.run_q ++ t ∷ []
  pub was_dead : occurs t vp.zombie_q ≡ 1
  pub zombie_q : (u : ℕ) → occurs u vp'.zombie_q + one_if (t == u) ≡ occurs u vp.zombie_q
  pub rest : vp' ≡ record vp {
    threads = λ u. if t == u then record (vp.threads t) { state = runnable } else vp.threads u;
    run_q = vp'.run_q;
    zombie_q = vp'.zombie_q;
  }

joined_lem :
    (t : ℕ) (vp : Vp)
    → Runs vp
    → is_zombie (vp.threads t).state ≡ true
    → ((joined t vp).0 ≡ returns (ok (vp.threads t).retval)) × Joined t vp (joined t vp).1
unfolding joined
joined_lem t vp runs dead =
    let was_dead : occurs t vp.zombie_q ≡ 1 = ground (arith, runs.valid.dead t, dead) in
    let there : occurs t vp.zombie_q ≢ 0 = omega (arith, was_dead) in
    (
      refl,
      record {
        state = ground arith;
        run_q = refl;
        was_dead = was_dead;
        zombie_q = λ u. occurs-remove u t vp.zombie_q there;
        rest = refl;
      },
    )

thread_join-joined :
    (t value cvar : ℕ) (queues : ℕ → List ℕ) (vp : Vp)
    → Ended t value cvar queues vp
    → (cvar == null) ≡ false
    → queues cvar ≡ []
    → thread_join t vp ≡ some (joined t vp)
unfolding thread_join join_round
thread_join-joined t value cvar queues vp ended joinable alone =
    rw (ended.term, joinable, apart vp t ended.runs ended.dead, ended.conds, alone, ended.dead) refl

thread_join-Ended :
    (t value cvar : ℕ) (queues : ℕ → List ℕ) (vp : Vp)
    → Ended t value cvar queues vp
    → (cvar == null) ≡ false
    → queues cvar ≡ []
    → Returns (λ r. (r.0 ≡ returns (ok value)) × Joined t vp r.1) (thread_join t vp)
thread_join-Ended t value cvar queues vp ended joinable alone =
    let done = joined_lem t vp ended.runs ended.dead in
    record {
      value = joined t vp;
      returned = thread_join-joined t value cvar queues vp ended joinable alone;
      holds = (done.0 ∙ ap (λ v. returns (ok v)) ended.retval, done.1);
    }

-- When a joinable thread ends that is not the idle one, has no poll on the queue and nobody is
-- joining, whichever thread runs then can join it at once: it gets the value that the thread
-- ended with; the thread, a zombie until then, is off the zombie queue, runnable to clean up and
-- last in the run queue, and nothing else changes.
pub thread_exit-thread_join :
    (value : ℕ) (vp : Vp)
    → Runs vp
    → Calls vp
    → ((me vp).term == null) ≡ false
    → vp.conds (me vp).term ≡ []
    → Returns
        (λ vp'.
          Returns
            (λ r. (r.0 ≡ returns (ok value)) × Joined vp.current vp' r.1)
            (thread_join vp.current vp'))
        (thread_exit value vp)
thread_exit-thread_join value vp runs calls joinable alone =
    let done = thread_exit-Ended value (me vp).term vp runs calls refl joinable alone in
    record {
      value = done.value;
      returned = done.returned;
      holds =
          thread_join-Ended vp.current value (me vp).term vp.conds done.value done.holds joinable
            alone;
    }
