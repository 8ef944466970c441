-- ===== src/Events/Epolls.antt =====
-- The dispatch with epoll, event.c.
use state_thread.Base.{
  ℕ, ◌-◌, ◌≤◌, ◌≡◌, ◌≢◌, refl, sym, ap, ◌∙◌, subst, Bool, true, false, some, List, [], ◌∷◌, ◌==◌,
  occurs, if◌then◌else◌, update, update_other, arith, Bool-cases, inl, inr, Returns, one_if,
}
use state_thread.Select.{Pollfd, Revents, no_revents}
use state_thread.Epoll.{Epoll, Op, Answer, events, any, is_done, ctl_del}
use state_thread.Epoll
use state_thread.Epoll.Counts.{Kind, reading, writing, excepting, cnt, revents-pollset_del}
use state_thread.Ioq.{IoState, Pollq, epoll_system, take_off, set_pds}
use state_thread.Ioq.Gather.{Serves, ServesBy, Alike}
use state_thread.Ioq.Serves.{left-ServesBy, same-ServesBy}
use state_thread.Vp.{Vp, set_io}
use state_thread.Vp.Invariant.{polls_once}
use state_thread.Dispatch.{Kernel, any_fired, mark_each, milliseconds, min_timeout}
use state_thread.Dispatch.Marks.{mark_each-Alike, set_pds-Alike, set_pds_flags, set_pds_others}
use state_thread.Dispatch.Wakes.{Sending, set_io-IsVp, Shrinks, leaves-Shrinks, Step, wakes, stays}
use state_thread.Dispatch.Rounds.{chosen, Sent, Sent-nil, Sent-rest, within-Step}
use state_thread.Events.{
  reinitialise, note, epoll_revents, epoll_settle, epoll_loop, clear, set_epoll, after_wait,
  epoll_dispatch,
}

-- The counts do not depend on what has fired.
cnt-revents :
    (k : Kind) (s : Epoll) (f : ℕ → Revents) (i : ℕ)
    → cnt k (record s { revents = f }) i ≡ cnt k s i
cnt-revents reading s f i = refl
cnt-revents writing s f i = refl
cnt-revents excepting s f i = refl

cnt-note :
    (k : Kind) (evtlist : List (ℕ × Revents)) (s : Epoll) (i : ℕ)
    → cnt k (note evtlist s) i ≡ cnt k s i
unfolding note
cnt-note k [] s i = refl
cnt-note k ((osfd, r) ∷ evtlist) s i = cnt-note k evtlist _ i ∙ cnt-revents k s _ i

cnt_cleared :
    (k : Kind) (b : Bool) (s : Epoll) (f : ℕ → Revents) (n i : ℕ)
    → let s' = record s { revents = f } in
      cnt k (if b then record s' { evtlist_cnt = n } else s') i ≡ cnt k s i
cnt_cleared reading true s f n i = refl
cnt_cleared writing true s f n i = refl
cnt_cleared excepting true s f n i = refl
cnt_cleared k false s f n i = cnt-revents k s f i

cnt-clear :
    (k : Kind) (ctl : Op → ℕ → Answer) (evtlist : List (ℕ × Revents)) (s : Epoll) (i : ℕ)
    → cnt k (clear ctl evtlist s) i ≡ cnt k s i
unfolding clear
cnt-clear k ctl [] s i = refl
cnt-clear k ctl ((osfd, r) ∷ evtlist) s i =
    cnt-clear k ctl evtlist _ i
    ∙ cnt_cleared k _ s (update s.revents osfd no_revents) (s.evtlist_cnt - 1) i

module _ (t : ℕ) (vp : Vp) (sending : Sending vp) (there : occurs t vp.io.io_q ≢ 0)
    (by_epoll : vp.io.eventsys ≡ epoll_system) (ctl : Op → ℕ → Answer) (pds : List Pollfd)
    (alike : Alike (vp.io.pollqs t).pds pds) where
  serves : ServesBy epoll_system vp.io
  serves = subst (λ s. ServesBy s vp.io) by_epoll sending.runs.valid.serves

  off : IoState
  off = record (take_off t pds vp.io) { epoll = Epoll.pollset_del ctl pds vp.io.epoll }

  off-others : (u : ℕ) → (t == u) ≡ false → off.pollqs u ≡ vp.io.pollqs u
  unfolding off
  off-others u apart = update_other vp.io.pollqs t u _ apart

  off-Serves : Serves off
  unfolding off
  off-Serves =
      subst (λ s. ServesBy s off) (sym by_epoll)
        (left-ServesBy vp.io t pds off.pollqs there (polls_once vp sending.runs.valid t)
          (λ u apart. ap (λ (p : Pollq). p.pds) (off-others u apart)) alike epoll_system serves ctl)

  kept-Shrinks : Shrinks vp.io (set_pds t pds vp.io)
  kept-Shrinks = record {
    serves =
        subst (λ s. ServesBy s (set_pds t pds vp.io)) (sym by_epoll)
          (same-ServesBy vp.io (set_pds t pds vp.io).pollqs (set_pds-Alike t pds vp.io alike)
            epoll_system serves);
    fewer = λ u. omega arith;
    queued =
        λ u. sending.runs.valid.queued u ∙ ap (λ b. one_if b) (sym (set_pds_flags t pds vp.io u));
    flags = λ u h. set_pds_flags t pds vp.io u;
  }

  -- The part of the loop about one poll
  epoll_settle-Step :
      Returns
        (λ vp'. Step (any_fired pds) t vp vp' × (vp'.io.epoll.revents ≡ vp.io.epoll.revents))
        (epoll_settle ctl pds t vp)
  unfolding epoll_settle off off-others
  epoll_settle-Step = elim (Bool-cases (any_fired pds)) [
    | inl ready ↦
        let gone =
          leaves-Shrinks t vp.io off sending.runs.valid.queued there off-Serves refl (ground arith)
            off-others in
        let (vp', e, _, step, same) =
          wakes t vp sending there off off gone refl off-others refl (λ v. v) (λ v. refl) in
        rw ready (record {
          value = vp';
          returned = e;
          holds =
              (step, ap (λ io. io.epoll.revents) same ∙ revents-pollset_del ctl pds vp.io.epoll);
        })
    | inr idle ↦ rw idle (record {
      value = set_io (set_pds t pds vp.io) vp;
      returned = refl;
      holds = (
        stays t vp sending there (set_pds t pds vp.io) (set_pds t pds vp.io) kept-Shrinks refl
            (set_pds_others t pds vp.io) refl,
        refl,
      );
    })
  ]

-- Is the poll of a thread ready?
abbrev pub fired_by : (ℕ → Revents) → (ℕ → Pollq) → ℕ → Bool
fired_by fired f t = any_fired (mark_each (epoll_revents fired) (f t).pds)

epoll_loop-Sent :
    (ctl : Op → ℕ → Answer) (fired : ℕ → Revents) (q : List ℕ) (vp : Vp)
    → Sending vp
    → vp.io.eventsys ≡ epoll_system
    → fired ≡ vp.io.epoll.revents
    → ((u : ℕ) → occurs u q ≤ occurs u vp.io.io_q)
    → Returns (Sent (chosen (fired_by fired vp.io.pollqs) q) vp) (epoll_loop ctl q vp)
unfolding epoll_loop chosen
epoll_loop-Sent ctl fired [] vp sending e same within = record {
  value = vp;
  returned = refl;
  holds = Sent-nil vp sending;
}
epoll_loop-Sent ctl fired (t ∷ q) vp sending e same within =
    let pds = mark_each (epoll_revents fired) (vp.io.pollqs t).pds in
    let there : occurs t vp.io.io_q ≢ 0 = ground (arith, within t) in
    let done =
      epoll_settle-Step t vp sending there e ctl pds
        (mark_each-Alike (epoll_revents fired) (vp.io.pollqs t).pds) in
    let rest =
      epoll_loop-Sent ctl fired q done.value done.holds.0.sending (done.holds.0.eventsys ∙ e)
        (same ∙ sym done.holds.1)
        (within-Step (any_fired pds) t q vp done.value done.holds.0 within) in
    let first : epoll_settle ctl
          (mark_each (epoll_revents vp.io.epoll.revents) (vp.io.pollqs t).pds) t vp
        ≡ some done.value =
      ap (λ f. epoll_settle ctl (mark_each (epoll_revents f) (vp.io.pollqs t).pds) t vp) (sym same)
      ∙ done.returned in
    rw first (record {
      value = rest.value;
      returned = rest.returned;
      holds =
          Sent-rest (any_fired pds) t q vp done.value rest.value
            (fired_by fired done.value.io.pollqs) (fired_by fired vp.io.pollqs) done.holds.0 sending
            within
            (λ u apart.
              ap (λ p. any_fired (mark_each (epoll_revents fired) p.pds))
                (done.holds.0.polls u apart))
            rest.holds;
    })

-- The threads that a dispatch wakes.
abbrev pub epoll_woken : List (ℕ × Revents) → Vp → List ℕ
epoll_woken [] vp = []
epoll_woken (e ∷ es) vp =
    chosen (fired_by (note (e ∷ es) vp.io.epoll).revents vp.io.pollqs) vp.io.io_q

-- Only what has fired changes.
set_epoll-Sending :
    (s : Epoll) (vp : Vp)
    → Sending vp
    → vp.io.eventsys ≡ epoll_system
    → ((k : Kind) (i : ℕ) → cnt k s i ≡ cnt k vp.io.epoll i)
    → Sending (set_epoll s vp)
set_epoll-Sending s vp sending e same = record {
  runs = record {
    valid =
        set_io-IsVp (record vp.io { epoll = s }) vp sending.runs.valid
          (record {
            serves =
                subst (λ b. ServesBy b (record vp.io { epoll = s })) (sym e)
                  (counted (subst (λ b. ServesBy b vp.io) e sending.runs.valid.serves));
            fewer = λ u. omega arith;
            queued = sending.runs.valid.queued;
            flags = λ u h. refl;
          });
    current_runs = sending.runs.current_runs;
  };
  waits = sending.waits;
}
  where
    counted : ServesBy epoll_system vp.io → ServesBy epoll_system (record vp.io { epoll = s })
    counted h = λ k i. same k i ∙ h k i

after_wait-Sent :
    (ctl : Op → ℕ → Answer) (evtlist : List (ℕ × Revents)) (vp : Vp)
    → Sending vp
    → vp.io.eventsys ≡ epoll_system
    → Returns (Sent (epoll_woken evtlist vp) vp) (after_wait ctl evtlist vp)
after_wait-Sent ctl [] vp sending e = record {
  value = vp;
  returned = refl;
  holds = Sent-nil vp sending;
}
after_wait-Sent ctl (x ∷ xs) vp sending e =
    let noted = note (x ∷ xs) vp.io.epoll in
    let start = set_epoll-Sending noted vp sending e (λ k i. cnt-note k (x ∷ xs) vp.io.epoll i) in
    let done =
      epoll_loop-Sent ctl noted.revents vp.io.io_q (set_epoll noted vp) start e refl
        (λ u. omega arith) in
    let sent = done.holds in
    rw done.returned (record {
      value = set_epoll (clear ctl (x ∷ xs) done.value.io.epoll) done.value;
      returned = refl;
      holds = record {
        sending =
            set_epoll-Sending _ done.value sent.sending (sent.eventsys ∙ e)
              (λ k i. cnt-clear k ctl (x ∷ xs) done.value.io.epoll i);
        run_q = sent.run_q;
        io_q = sent.io_q;
        states = sent.states;
        others = sent.others;
        current = sent.current;
        idle = sent.idle;
        eventsys = sent.eventsys;
      };
    })

-- In a process that has not forked.
pub epoll_dispatch-Sent :
    (k : Kernel) (vp : Vp)
    → (k.pid == vp.io.epoll.pid) ≡ true
    → Sending vp
    → vp.io.eventsys ≡ epoll_system
    → let evtlist = k.epoll_wait vp.io.epoll.evtlist_size (milliseconds (min_timeout vp)) in
      Returns (Sent (epoll_woken evtlist vp) vp) (epoll_dispatch k vp)
unfolding epoll_dispatch reinitialise
epoll_dispatch-Sent k vp same sending e = rw same (after_wait-Sent k.ctl _ vp sending e)
