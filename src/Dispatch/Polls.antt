-- ===== src/Dispatch/Polls.antt =====
-- `_st_poll_dispatch` of event.c as a whole.
use state_thread.Base.{
  ℕ, ◌≤◌, ◌≡◌, refl, sym, ap, ◌∙◌, subst, Bool, true, Option, none, some, List, [], ◌∷◌, Returns,
  length, leb, ltb, take_first, arith, Bool-cases, inl, inr,
}
use state_thread.Select.{Pollfd, Revents}
use state_thread.PollArray.{PollData}
use state_thread.Ioq.{poll_system}
use state_thread.Ioq.Gather.{gather, ServesBy}
use state_thread.Vp.{Vp, set_io}
use state_thread.Dispatch.{
  mark_from, Kernel, milliseconds, min_timeout, grow, after_poll, poll_dispatch,
}
use state_thread.Dispatch.Wakes.{Sending, set_io-IsVp}
use state_thread.Dispatch.Rounds.{Sent, Sent-nil}
use state_thread.Dispatch.Arrays.{ready_from, poll_loop-Sent}

take_first_all : (xs : List Pollfd) → take_first (length xs) xs ≡ xs
take_first_all [] = refl
take_first_all (x ∷ xs) = ap (λ ys. x ∷ ys) (take_first_all xs)

-- The array is big enough afterwards.
grow_lem :
    (memory : Bool) (d : PollData)
    → (ltb d.pollfds_size d.fdcnt ≡ true → memory ≡ true)
    → Returns (λ d'. (d'.fdcnt ≡ d.fdcnt) × (d.fdcnt ≤ d'.pollfds_size)) (grow memory d)
unfolding grow
grow_lem memory d has = elim (Bool-cases (ltb d.pollfds_size d.fdcnt)) [
  | inl small ↦
      rw (small, has small) (record { value = _; returned = refl; holds = (refl, omega arith) })
  | inr big ↦ rw big (record { value = d; returned = refl; holds = (refl, ground arith) })
]

-- The threads that a dispatch wakes.
abbrev pub poll_woken : Option (ℕ → Revents) → Vp → List ℕ
poll_woken none vp = []
poll_woken (some revents) vp = ready_from revents 0 vp.io.io_q vp.io.pollqs

module _ (vp : Vp) (sending : Sending vp) (e : vp.io.eventsys ≡ poll_system) where
  counted : vp.io.poll_data.fdcnt ≡ length (gather vp.io.io_q vp.io.pollqs)
  counted = subst (λ s. ServesBy s vp.io) e sending.runs.valid.serves

  -- Only the size of the array has changed.
  module _ (d : PollData) (same : d.fdcnt ≡ vp.io.poll_data.fdcnt) where
    grown : Vp
    grown = set_io (record vp.io { poll_data = d }) vp

    grown-Sending : Sending grown
    unfolding grown
    grown-Sending = record {
      runs = record {
        valid =
            set_io-IsVp (record vp.io { poll_data = d }) vp sending.runs.valid
              (record {
                serves =
                    subst (λ s. ServesBy s (record vp.io { poll_data = d })) (sym e)
                      (same ∙ counted);
                fewer = λ u. omega arith;
                queued = sending.runs.valid.queued;
                flags = λ u h. refl;
              });
        current_runs = sending.runs.current_runs;
      };
      waits = sending.waits;
    }

    from_grown : (ws : List ℕ) (vp' : Vp) → Sent ws grown vp' → Sent ws vp vp'
    unfolding grown
    from_grown ws vp' sent = record {
      sending = sent.sending;
      run_q = sent.run_q;
      io_q = sent.io_q;
      states = sent.states;
      others = sent.others;
      current = sent.current;
      idle = sent.idle;
      eventsys = sent.eventsys;
    }

    after_poll-Sent :
        (o : Option (ℕ → Revents))
        → Returns (Sent (poll_woken o vp) vp) (after_poll (gather vp.io.io_q vp.io.pollqs) o grown)
    unfolding grown grown-Sending
    after_poll-Sent none = record {
      value = grown;
      returned = refl;
      holds = from_grown [] grown (Sent-nil grown grown-Sending);
    }
    after_poll-Sent (some revents) =
        let done =
          poll_loop-Sent revents 0 vp.io.io_q grown grown-Sending e (λ u. omega arith)
            (mark_from revents 0 (gather vp.io.io_q vp.io.pollqs)) refl in
        record {
          value = done.value;
          returned = done.returned;
          holds = from_grown _ done.value done.holds;
        }

  -- With memory for the array, poll is asked for the descriptors of all polls on the queue, in its
  -- order, and exactly the threads are woken whose part of the array has an event. They come behind
  -- the run queue in the order of their polls, which leave the queue.
  pub poll_dispatch-Sent :
      (k : Kernel)
      → (ltb vp.io.poll_data.pollfds_size vp.io.poll_data.fdcnt ≡ true → k.memory ≡ true)
      → let pollfds = gather vp.io.io_q vp.io.pollqs in
        Returns
          (Sent (poll_woken (k.poll pollfds (milliseconds (min_timeout vp))) vp) vp)
          (poll_dispatch k vp)
  unfolding poll_dispatch grown
  poll_dispatch-Sent k memory =
      let pollfds = gather vp.io.io_q vp.io.pollqs in
      let done = grow_lem k.memory vp.io.poll_data memory in
      let fits : leb (length pollfds) done.value.pollfds_size ≡ true =
        ground (arith, done.holds.0, done.holds.1, counted) in
      let all : take_first done.value.fdcnt pollfds ≡ pollfds =
        ap (λ n. take_first n pollfds) (done.holds.0 ∙ counted) ∙ take_first_all pollfds in
      rw (done.returned, fits, all) (after_poll-Sent done.value done.holds.0 _)
