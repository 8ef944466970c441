-- ===== src/Polling/Resume.antt =====
-- `st_poll` of sched.c behind its switch: afterwards the thread's poll is not on the queue.
use state_thread.Base.{
  ℕ, ◌≡◌, ◌≢◌, refl, sym, ap, subst, true, false, ◌==◌, arith, Bool-cases, inl, inr, occurs,
  occurs-remove, update_other,
}
use state_thread.Epoll.{Op, Answer}
use state_thread.Ioq.{
  IoState, Pollq, Eventsys, select_system, poll_system, epoll_system, del_by, del_ioq,
}
use state_thread.Ioq.Gather.{ServesBy, Alike-self}
use state_thread.Ioq.Serves.{left-ServesBy}
use state_thread.Vp.{Vp, me}
use state_thread.Vp.Invariant.{polls_once}
use state_thread.Vp.Switch.{Runs, Stands}
use state_thread.Vp.Calls.{Calls-same, set_interrupt-Runs}
use state_thread.Dispatch.Wakes.{Shrinks, set_io-IsVp, leaves-Shrinks}
use state_thread.Polling.{poll_resume, leave}

module _ (vp : Vp) (runs : Runs vp) (t : ℕ) (flag : (vp.io.pollqs t).on_ioq ≡ true)
    (ctl : Op → ℕ → Answer) where
  there : occurs t vp.io.io_q ≢ 0
  there = ground (arith, runs.valid.queued t, flag)

  abbrev gone : Eventsys → IoState
  gone e = del_by e ctl (vp.io.pollqs t).pds (del_ioq t vp.io)

  gone-ServesBy : (e : Eventsys) → ServesBy e vp.io → ServesBy e (gone e)
  gone-ServesBy e serves =
      left-ServesBy vp.io t (vp.io.pollqs t).pds (del_ioq t vp.io).pollqs there
        (polls_once vp runs.valid t)
        (λ u apart. ap (λ (p : Pollq). p.pds) (update_other vp.io.pollqs t u _ apart))
        (Alike-self (vp.io.pollqs t).pds) e serves ctl

  gone-Shrinks : (e : Eventsys) → vp.io.eventsys ≡ e → Shrinks vp.io (gone e)
  gone-Shrinks select_system same =
      leaves-Shrinks t vp.io (gone select_system) runs.valid.queued there
        (subst (λ s. ServesBy s (gone select_system)) (sym same)
          (gone-ServesBy select_system (subst (λ s. ServesBy s vp.io) same runs.valid.serves)))
        refl (ground arith) (λ u apart. update_other vp.io.pollqs t u _ apart)
  gone-Shrinks poll_system same =
      leaves-Shrinks t vp.io (gone poll_system) runs.valid.queued there
        (subst (λ s. ServesBy s (gone poll_system)) (sym same)
          (gone-ServesBy poll_system (subst (λ s. ServesBy s vp.io) same runs.valid.serves)))
        refl (ground arith) (λ u apart. update_other vp.io.pollqs t u _ apart)
  gone-Shrinks epoll_system same =
      leaves-Shrinks t vp.io (gone epoll_system) runs.valid.queued there
        (subst (λ s. ServesBy s (gone epoll_system)) (sym same)
          (gone-ServesBy epoll_system (subst (λ s. ServesBy s vp.io) same runs.valid.serves)))
        refl (ground arith) (λ u apart. update_other vp.io.pollqs t u _ apart)

  gone_off : (e : Eventsys) → occurs t (gone e).io_q ≡ 0
  gone_off select_system =
      ground (arith, occurs-remove t t vp.io.io_q there, polls_once vp runs.valid t)
  gone_off poll_system =
      ground (arith, occurs-remove t t vp.io.io_q there, polls_once vp runs.valid t)
  gone_off epoll_system =
      ground (arith, occurs-remove t t vp.io.io_q there, polls_once vp runs.valid t)

leave-Stands :
    (ctl : Op → ℕ → Answer) (vp : Vp)
    → Runs vp
    → (vp.current == vp.idle) ≡ false
    → Stands false (leave ctl vp)
leave-Stands ctl vp runs other = elim (Bool-cases (vp.io.pollqs vp.current).on_ioq) [
  | inl on ↦ rw on (record {
    runs = record {
      valid =
          set_io-IsVp _ vp runs.valid (gone-Shrinks vp runs vp.current on ctl vp.io.eventsys refl);
      current_runs = runs.current_runs;
    };
    place = record { other = other; off = gone_off vp runs vp.current on ctl vp.io.eventsys };
  })
  | inr off ↦ rw off (record {
    runs = runs;
    place = record { other = other; off = ground (arith, runs.valid.queued vp.current, off) };
  })
]

pub poll_resume-Stands :
    (ctl : Op → ℕ → Answer) (vp : Vp)
    → Runs vp
    → (vp.current == vp.idle) ≡ false
    → Stands false (poll_resume ctl vp).1
unfolding poll_resume
poll_resume-Stands ctl vp runs other = elim (Bool-cases (me vp).interrupt) [
  | inl stop ↦
      let left = leave-Stands ctl vp runs other in
      rw stop (record {
        runs = set_interrupt-Runs vp.current false (leave ctl vp) left.runs;
        place = Calls-same (leave ctl vp) left.place refl refl refl;
      })
  | inr go ↦ rw go (leave-Stands ctl vp runs other)
]
