-- ===== src/Dispatch/Selects.antt =====
-- The dispatch with select, event.c.
use state_thread.Base.{
  ℕ, ◌≤◌, ◌≡◌, ◌≢◌, refl, sym, ap, ◌∙◌, subst, Bool, true, false, List, [], ◌∷◌, ◌==◌, occurs,
  if◌then◌else◌, update_other, arith, Bool-cases, inl, inr, Returns, one_if,
}
use state_thread.Select.{Pollfd, Revents, Select}
use state_thread.Select
use state_thread.Epoll.{done}
use state_thread.Ioq.{IoState, Pollq, select_system, take_off, set_pds}
use state_thread.Ioq.Gather.{Serves, ServesBy, Alike, Exactly}
use state_thread.Ioq.Serves.{left-ServesBy, same-ServesBy}
use state_thread.PollArray.{asks_something}
use state_thread.Vp.{Vp, set_io}
use state_thread.Vp.Invariant.{polls_once}
use state_thread.Dispatch.{
  mark_each, any_fired, max_osfd, select_settle, select_loop, raise_maxfd, Kernel, Selected, Nfd,
  some_ready, none_ready, fails, timeval, min_timeout, select_all, selected_revents, bad_revents,
  is_ebadf, after_select, select_dispatch,
}
use state_thread.Dispatch.Marks.{mark_each-Alike, set_pds-Alike, set_pds_flags, set_pds_others}
use state_thread.Dispatch.Wakes.{Sending, set_io-IsVp, Shrinks, Step, leaves-Shrinks, wakes, stays}
use state_thread.Dispatch.Rounds.{chosen, Sent, Sent-nil, within-Step, Sent-rest}

Exactly-maxfd :
    (pds : List Pollfd) (s : Select) (max : ℕ)
    → Exactly pds s
    → Exactly pds (record s { maxfd = max })
Exactly-maxfd pds s max e = record {
  valid = record {
    read_valid = e.valid.read_valid;
    write_valid = e.valid.write_valid;
    excep_valid = e.valid.excep_valid;
  };
  in_ = e.in_;
  out_ = e.out_;
  pri_ = e.pri_;
}

module _ (t : ℕ) (vp : Vp) (sending : Sending vp) (there : occurs t vp.io.io_q ≢ 0)
    (by_select : vp.io.eventsys ≡ select_system) (pds : List Pollfd)
    (alike : Alike (vp.io.pollqs t).pds pds) where
  off : IoState
  off = record (take_off t pds vp.io) { select = Select.pollset_del pds vp.io.select }

  off-others : (u : ℕ) → (t == u) ≡ false → off.pollqs u ≡ vp.io.pollqs u
  unfolding off
  off-others u apart = update_other vp.io.pollqs t u _ apart

  off-Serves : Serves off
  unfolding off
  off-Serves =
      subst (λ s. ServesBy s off) (sym by_select)
        (left-ServesBy vp.io t pds off.pollqs there (polls_once vp sending.runs.valid t)
          (λ u apart. ap (λ (p : Pollq). p.pds) (off-others u apart)) alike select_system
          (subst (λ s. ServesBy s vp.io) by_select sending.runs.valid.serves) (λ op fd. done))

  kept : ℕ → IoState
  kept max = record (set_pds t pds vp.io) { select = raise_maxfd max vp.io.select }

  kept-Serves : (max : ℕ) → Serves (kept max)
  unfolding kept
  kept-Serves max =
      subst (λ s. ServesBy s (kept max)) (sym by_select)
        (Exactly-maxfd _ vp.io.select _ (
          same-ServesBy vp.io (kept max).pollqs (set_pds-Alike t pds vp.io alike) select_system
            (subst (λ s. ServesBy s vp.io) by_select sending.runs.valid.serves)))

  kept-Shrinks : (max : ℕ) → Shrinks vp.io (kept max)
  unfolding kept
  kept-Shrinks max = record {
    serves = kept-Serves max;
    fewer = λ u. omega arith;
    queued =
        λ u. sending.runs.valid.queued u ∙ ap (λ b. one_if b) (sym (set_pds_flags t pds vp.io u));
    flags = λ u h. set_pds_flags t pds vp.io u;
  }

  -- The part of the loop about one poll
  select_settle-Step : (max : ℕ) → Returns (Step (any_fired pds) t vp) (select_settle max pds t vp)
  unfolding select_settle off kept off-others
  select_settle-Step max = elim (Bool-cases (any_fired pds)) [
    | inl ready ↦
        let gone =
          leaves-Shrinks t vp.io off sending.runs.valid.queued there off-Serves refl (ground arith)
            off-others in
        let (vp', e, _, step, _) =
          wakes t vp sending there off off gone refl off-others refl (λ v. v) (λ v. refl) in
        rw ready (record { value = vp'; returned = e; holds = step })
    | inr idle ↦ rw idle (record {
      value = set_io (kept max) vp;
      returned = refl;
      holds =
          stays t vp sending there (kept max) (kept max) (kept-Shrinks max) refl
            (set_pds_others t pds vp.io) refl;
    })
  ]

-- Is the poll of a thread ready?
abbrev pub ready_by : (Pollfd → Revents) → (ℕ → Pollq) → ℕ → Bool
ready_by revents f t = any_fired (mark_each revents (f t).pds)

pub select_loop-Sent :
    (counts : Pollfd → Bool) (revents : Pollfd → Revents) (q : List ℕ) (vp : Vp)
    → Sending vp
    → vp.io.eventsys ≡ select_system
    → ((u : ℕ) → occurs u q ≤ occurs u vp.io.io_q)
    → Returns (Sent (chosen (ready_by revents vp.io.pollqs) q) vp) (select_loop counts revents q vp)
unfolding select_loop chosen
select_loop-Sent counts revents [] vp sending e within = record {
  value = vp;
  returned = refl;
  holds = Sent-nil vp sending;
}
select_loop-Sent counts revents (t ∷ q) vp sending e within =
    let pds = mark_each revents (vp.io.pollqs t).pds in
    let there : occurs t vp.io.io_q ≢ 0 = ground (arith, within t) in
    let done =
      select_settle-Step t vp sending there e pds (mark_each-Alike revents (vp.io.pollqs t).pds)
        (max_osfd counts pds) in
    let rest =
      select_loop-Sent counts revents q done.value done.holds.sending (done.holds.eventsys ∙ e)
        (within-Step (any_fired pds) t q vp done.value done.holds within) in
    rw done.returned (record {
      value = rest.value;
      returned = rest.returned;
      holds =
          Sent-rest (any_fired pds) t q vp done.value rest.value
            (ready_by revents done.value.io.pollqs) (ready_by revents vp.io.pollqs) done.holds
            sending within
            (λ u apart. ap (λ p. any_fired (mark_each revents p.pds)) (done.holds.polls u apart))
            rest.holds;
    })

-- The threads that a dispatch wakes.
abbrev pub select_woken : (is_bad : ℕ → Bool) → Selected → Nfd → Vp → List ℕ
select_woken is_bad s some_ready vp = chosen (ready_by (selected_revents s) vp.io.pollqs) vp.io.io_q
select_woken is_bad s none_ready vp = []
select_woken is_bad s (fails e) vp =
    if is_ebadf e then chosen (ready_by (bad_revents is_bad) vp.io.pollqs) vp.io.io_q else []

select_all-Sent :
    (counts : Pollfd → Bool) (revents : Pollfd → Revents) (vp : Vp)
    → Sending vp
    → vp.io.eventsys ≡ select_system
    → Returns
        (Sent (chosen (ready_by revents vp.io.pollqs) vp.io.io_q) vp)
        (select_all counts revents vp)
select_all-Sent counts revents vp sending e =
    let io = record vp.io { select = record vp.io.select { maxfd = 0 } } in
    let start : Sending (set_io io vp) = record {
      runs = record {
        valid = set_io-IsVp io vp sending.runs.valid (record {
          serves =
              subst (λ b. ServesBy b io) (sym e)
                (Exactly-maxfd _ vp.io.select 0
                  (subst (λ b. ServesBy b vp.io) e sending.runs.valid.serves));
          fewer = λ u. omega arith;
          queued = sending.runs.valid.queued;
          flags = λ u h. refl;
        });
        current_runs = sending.runs.current_runs;
      };
      waits = sending.waits;
    } in
    let done =
      select_loop-Sent counts revents vp.io.io_q (set_io io vp) start e (λ u. omega arith) in
    record {
      value = done.value;
      returned = done.returned;
      holds = record {
        sending = done.holds.sending;
        run_q = done.holds.run_q;
        io_q = done.holds.io_q;
        states = done.holds.states;
        others = done.holds.others;
        current = done.holds.current;
        idle = done.holds.idle;
        eventsys = done.holds.eventsys;
      };
    }

-- A call of select that returns with descriptors ready wakes exactly the threads whose polls ask for one
-- of them; one that fails with EBADF, exactly those whose polls have a bad descriptor; and no other does.
-- They come behind the run queue in the order of their polls, which leave the queue.
pub select_dispatch-Sent :
    (k : Kernel) (vp : Vp)
    → Sending vp
    → vp.io.eventsys ≡ select_system
    → let s =
        k.select vp.io.select.maxfd vp.io.select.read_set.member vp.io.select.write_set.member
          vp.io.select.excep_set.member
          (timeval (min_timeout vp)) in
      Returns (Sent (select_woken k.is_bad s s.nfd vp) vp) (select_dispatch k vp)
unfolding select_dispatch
select_dispatch-Sent k vp sending e = answered _ refl
  where
    s : Selected
    s =
        k.select vp.io.select.maxfd vp.io.select.read_set.member vp.io.select.write_set.member
          vp.io.select.excep_set.member (timeval (min_timeout vp))

    answered :
        (n : Nfd)
        → s.nfd ≡ n
        → Returns (Sent (select_woken k.is_bad s n vp) vp) (after_select k.is_bad s n vp)
    answered some_ready h = select_all-Sent (λ pd. true) (selected_revents s) vp sending e
    answered none_ready h = record { value = vp; returned = refl; holds = Sent-nil vp sending }
    answered (fails x) h = elim (Bool-cases (is_ebadf x)) [
      | inl bad ↦ rw bad (select_all-Sent asks_something (bad_revents k.is_bad) vp sending e)
      | inr odd ↦ rw odd (record { value = vp; returned = refl; holds = Sent-nil vp sending })
    ]
