-- ===== src/Sched/Errors.antt =====
-- How `st_thread_join` of sched.c reports that it has failed.
use state_thread.Base.{
  ℕ, refl, Option, none, some, inr, ◌==◌, null, Result, ok, err, true, false, not, ◌>>=◌,
}
use state_thread.Vp.{Vp, Entered, returns, blocks, in_join, no_timeout, is_zombie}
use state_thread.Vp.Errors.{Reports, if-Reports}
use state_thread.Sync.{is_empty}
use state_thread.Sync.Errors.{Same, cond_timedwait_in-Reports}
use state_thread.Sched.{join_round, thread_join, as_join, joined}

as_join-Reports :
    (vp : Vp) (o : Option (Entered (Result (Unit {0})) × Vp))
    → Reports true Same vp o
    → Reports false Same vp (o >>= λ r. some (as_join r))
as_join-Reports vp none r = tt
as_join-Reports vp (some (returns (ok x), vp')) r = r
as_join-Reports vp (some (returns (err e), vp')) r = r
as_join-Reports vp (some (blocks, vp')) r = r

join_round-Reports : (t term : ℕ) (vp : Vp) → Reports false Same vp (join_round t term vp)
unfolding join_round joined
join_round-Reports t term vp =
    if-Reports false Same vp (is_zombie (vp.threads t).state) _ _ tt
      (as_join-Reports vp _ (cond_timedwait_in-Reports (in_join t term) term no_timeout vp))

pub thread_join-Reports : (t : ℕ) (vp : Vp) → Reports false Same vp (thread_join t vp)
unfolding thread_join
thread_join-Reports t vp =
    if-Reports false Same vp ((vp.threads t).term == null) _ _ (inr (refl, refl)) (
      if-Reports false Same vp (vp.current == t) _ _ (inr (refl, refl)) (
        if-Reports false Same vp (not (is_empty (vp.conds (vp.threads t).term))) _ _
          (inr (refl, refl)) (join_round-Reports t (vp.threads t).term vp)))
