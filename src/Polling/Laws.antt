-- ===== src/Polling/Laws.antt =====
-- `st_poll` of sched.c keeps the invariant.
use state_thread.Base.{
  ℕ, ◌+◌, ◌≡◌, refl, sym, ap, ◌∙◌, subst, Bool, true, false, not, ◌&&◌, List, [], ◌∷◌, ◌==◌, Result,
  ok, err, arith, Bool-cases, inl, inr, occurs, occurs-append, one_if, update_other, ==→≡,
}
use state_thread.SleepQ.{SleepQ}
use state_thread.Select.{Pollfd}
use state_thread.Epoll.{Op, Answer}
use state_thread.Dispatch.Wakes.{Shrinks, set_io-IsVp}
use state_thread.Ioq.{IoState, Pollq, pollset_add, add_ioq}
use state_thread.Ioq.Gather.{ServesBy}
use state_thread.Ioq.Serves.{add_by-Joined, Joined, Taken, Refused}
use state_thread.Vp.{Vp, set_io, io_wait, in_poll, set_state, set_context}
use state_thread.Vp.Invariant.{IsVp, is_polling}
use state_thread.Vp.Switch.{Runs, Calls, switch_context-Stands}
use state_thread.Vp.Timeouts.{no_timeout_yet, timed, Sleeps, add_timeout_returns}
use state_thread.Vp.Calls.{Keeps, Keeps-same, unless_interrupted-Keeps}
use state_thread.Polling.{enqueue, after_add, poll}

abbrev PollsAt : ℕ → Vp → Type 0
PollsAt i vp =
    (is_polling (vp.threads i) (i == vp.current) && (vp.io.pollqs i).on_ioq && not (i == vp.idle))
    ≡ true

module _ (timeout : ℕ) (pds : List Pollfd) (vp : Vp) (runs : Runs vp) (calls : Calls vp) where
  -- The queue is `io` when the event system has taken the poll.
  module _ (io : IoState) (taken : Taken vp.io vp.current pds calls.off vp.io.eventsys io) where
    -- The thread waits for its poll.
    abbrev polling : SleepQ → Bool → Vp
    polling q b =
        set_context vp.current in_poll
          (set_state vp.current io_wait (timed q b (set_io (add_ioq vp.current pds io) vp)))

    joined :
        (i : ℕ)
        → occurs i (add_ioq vp.current pds io).io_q
          ≡ occurs i vp.io.io_q + occurs i (vp.current ∷ [])
    joined i =
        occurs-append i io.io_q (vp.current ∷ [])
        ∙ ap (λ q. occurs i q + occurs i (vp.current ∷ [])) taken.io_q

    flags :
        (i : ℕ)
        → (vp.current == i) ≡ false
        → ((add_ioq vp.current pds io).pollqs i).on_ioq ≡ (vp.io.pollqs i).on_ioq
    flags i apart =
        ap (λ (p : Pollq). p.on_ioq)
          (update_other io.pollqs vp.current i _ apart ∙ ap (λ f. f i) taken.pollqs)

    polling-IsVp : (q : SleepQ) (b : Bool) → Sleeps b vp.current vp.sleepq q → IsVp (polling q b)
    polling-IsVp q b sleeps = record {
      heap = sleeps.heap;
      timed =
          λ i. ground (arith, sleeps.counts i, runs.valid.timed i, no_timeout_yet vp runs calls);
      waits = λ i h. ground (arith, runs.valid.waits i);
      ready = λ i. ground (arith, runs.valid.ready i, runs.current_runs);
      dead = λ i. ground (arith, runs.valid.dead i, runs.current_runs);
      idles = ground (arith, runs.valid.idles, calls.other);
      serves =
          subst (λ e. ServesBy e (add_ioq vp.current pds io)) (sym taken.eventsys) taken.serves;
      queued = λ i. elim (Bool-cases (vp.current == i)) [
        | inl same ↦
            subst
              (λ i.
                occurs i (add_ioq vp.current pds io).io_q
                ≡ one_if ((add_ioq vp.current pds io).pollqs i).on_ioq)
              (==→≡ vp.current i same) (ground (arith, joined vp.current, calls.off))
        | inr apart ↦
            ground (arith, joined i, apart, runs.valid.queued i, ap (λ b. one_if b) (flags i apart))
      ];
      polls = λ i h. elim (Bool-cases (vp.current == i)) [
        | inl same ↦
            subst (λ i. PollsAt i (polling q b)) (==→≡ vp.current i same)
              (ground (arith, calls.other))
        | inr apart ↦ ground (arith, apart, runs.valid.polls i, h, joined i, flags i apart)
      ];
    }

    enqueue-Keeps : Keeps (enqueue timeout pds (set_io io vp))
    unfolding enqueue
    enqueue-Keeps =
        let (q, e, sleeps) =
          add_timeout_returns timeout (set_io (add_ioq vp.current pds io) vp) runs.valid.heap
            (ground (arith, runs.valid.timed vp.current, no_timeout_yet vp runs calls))
            (no_timeout_yet vp runs calls) in
        rw e (record {
          value = _;
          returned = refl;
          holds = switch_context-Stands in_poll _ (polling-IsVp q _ sleeps) (λ h. ground arith);
        })

  Refused-Shrinks :
      (io : IoState) → Refused vp.io vp.current pds calls.off vp.io.eventsys io → Shrinks vp.io io
  Refused-Shrinks io refused = record {
    serves = subst (λ e. ServesBy e io) (sym refused.eventsys) refused.serves;
    fewer = λ t. omega (arith, ap (occurs t) refused.io_q);
    queued = λ t.
        ap (occurs t) refused.io_q
        ∙ runs.valid.queued t
        ∙ sym (ap (λ (f : ℕ → Pollq). one_if (f t).on_ioq) refused.pollqs);
    flags = λ t h. ap (λ (f : ℕ → Pollq). (f t).on_ioq) refused.pollqs;
  }

  after_add-Keeps :
      (r : Result (Unit {0}) × IoState)
      → Joined vp.io vp.current pds calls.off vp.io.eventsys r
      → Keeps (after_add timeout pds r vp)
  after_add-Keeps (err e, io) refused =
      Keeps-same (err e) (set_io io vp)
        (record {
          valid = set_io-IsVp io vp runs.valid (Refused-Shrinks io refused);
          current_runs = runs.current_runs;
        })
        (record { other = calls.other; off = ap (occurs vp.current) refused.io_q ∙ calls.off })
  after_add-Keeps (ok _, io) taken = enqueue-Keeps io taken

  -- A poll does not fail, whether it is refused or waits, and keeps the invariant.
  pub poll-Keeps : (memory : Bool) (ctl : Op → ℕ → Answer) → Keeps (poll memory ctl pds timeout vp)
  unfolding poll
  poll-Keeps memory ctl = unless_interrupted-Keeps vp runs calls (
      after_add-Keeps (pollset_add memory ctl pds vp.io)
        (add_by-Joined vp.io vp.current pds calls.off vp.io.eventsys runs.valid.serves memory ctl))
