-- ===== src/Dispatch/Arrays.antt =====
-- The dispatch with poll, event.c.
use state_thread.Base.{
  ℕ, ◌+◌, ◌-◌, ◌≤◌, ◌≡◌, ◌≢◌, refl, sym, ap, ◌∙◌, subst, false, List, [], ◌∷◌, ◌++◌, ◌==◌, occurs,
  if◌then◌else◌, update_other, arith, Bool-cases, inl, inr, Returns, length, ==→≡, take_first,
  drop_first,
}
use state_thread.Select.{Pollfd, Revents}
use state_thread.Epoll.{done}
use state_thread.Ioq.{IoState, Pollq, poll_system, take_off}
use state_thread.Ioq.Gather.{gather, Serves, ServesBy, Alike}
use state_thread.Ioq.Serves.{left-ServesBy}
use state_thread.Vp.{Vp}
use state_thread.Vp.Invariant.{polls_once}
use state_thread.Dispatch.{mark_from, any_fired, poll_settle, poll_loop, lower_fdcnt}
use state_thread.Dispatch.Marks.{mark_from-Alike}
use state_thread.Dispatch.Wakes.{Sending, leaves-Shrinks, Step, wakes, stays}
use state_thread.Dispatch.Rounds.{Sent, Sent-nil, Sent-step, within-Step}

-- The part of a poll in the array, and what is behind it
pub take_first-mark_from :
    (f : ℕ → Revents) (n : ℕ) (pds rest : List Pollfd)
    → take_first (length pds) (mark_from f n (pds ++ rest)) ≡ mark_from f n pds
take_first-mark_from f n [] rest = refl
take_first-mark_from f n (pd ∷ pds) rest =
    ap (λ xs. record pd { revents = f n } ∷ xs) (take_first-mark_from f (n + 1) pds rest)

pub drop_first-mark_from :
    (f : ℕ → Revents) (n : ℕ) (pds rest : List Pollfd)
    → drop_first (length pds) (mark_from f n (pds ++ rest)) ≡ mark_from f (n + length pds) rest
drop_first-mark_from f n [] rest = ap (λ i. mark_from f i rest) (omega arith)
drop_first-mark_from f n (pd ∷ pds) rest =
    drop_first-mark_from f (n + 1) pds rest ∙ ap (λ i. mark_from f i rest) (omega arith)

module _ (t : ℕ) (vp : Vp) (sending : Sending vp) (there : occurs t vp.io.io_q ≢ 0)
    (by_poll : vp.io.eventsys ≡ poll_system) (pds : List Pollfd)
    (alike : Alike (vp.io.pollqs t).pds pds) where
  off : IoState
  off = record (take_off t pds vp.io) {
    poll_data = record vp.io.poll_data { fdcnt = vp.io.poll_data.fdcnt - length pds };
  }

  off-others : (u : ℕ) → (t == u) ≡ false → off.pollqs u ≡ vp.io.pollqs u
  unfolding off
  off-others u apart = update_other vp.io.pollqs t u _ apart

  off-Serves : Serves off
  unfolding off
  off-Serves =
      subst (λ s. ServesBy s off) (sym by_poll)
        (left-ServesBy vp.io t pds off.pollqs there (polls_once vp sending.runs.valid t)
          (λ u apart. ap (λ (p : Pollq). p.pds) (off-others u apart)) alike poll_system
          (subst (λ s. ServesBy s vp.io) by_poll sending.runs.valid.serves) (λ op fd. done))

  -- The part of the loop about one poll
  poll_settle-Step : Returns (Step (any_fired pds) t vp) (poll_settle pds t vp)
  unfolding poll_settle off off-others
  poll_settle-Step = elim (Bool-cases (any_fired pds)) [
    | inl ready ↦
        let gone =
          leaves-Shrinks t vp.io off sending.runs.valid.queued there off-Serves refl (ground arith)
            off-others in
        let (vp', _, e, step, _) =
          wakes t vp sending there (take_off t pds vp.io) off gone refl off-others refl
            (lower_fdcnt (length pds)) (λ v. refl) in
        rw ready (record { value = vp'; returned = e; holds = step })
    | inr idle ↦ rw idle (record {
      value = vp;
      returned = refl;
      holds =
          stays t vp sending there vp.io vp.io
            (record {
              serves = sending.runs.valid.serves;
              fewer = λ u. omega arith;
              queued = sending.runs.valid.queued;
              flags = λ u h. refl;
            })
            refl (λ u apart. refl) refl;
    })
  ]

-- The threads of the queue whose polls are ready, by their parts of the array from `n` on.
unfoldable pub ready_from : (ℕ → Revents) → ℕ → List ℕ → (ℕ → Pollq) → List ℕ
ready_from f n [] polls = []
ready_from f n (t ∷ q) polls =
    let rest = ready_from f (n + length (polls t).pds) q polls in
    if any_fired (mark_from f n (polls t).pds) then t ∷ rest else rest

occurs-ready_from :
    (f : ℕ → Revents) (n u : ℕ) (q : List ℕ) (polls : ℕ → Pollq)
    → occurs u (ready_from f n q polls) ≤ occurs u q
unfolding ready_from
occurs-ready_from f n u [] polls = omega arith
occurs-ready_from f n u (t ∷ q) polls =
    ground (arith, occurs-ready_from f (n + length (polls t).pds) u q polls)

ready_from-same :
    (f : ℕ → Revents) (n : ℕ) (q : List ℕ) (polls polls' : ℕ → Pollq)
    → ((u : ℕ) → occurs u q ≢ 0 → polls u ≡ polls' u)
    → ready_from f n q polls ≡ ready_from f n q polls'
unfolding ready_from
ready_from-same f n [] polls polls' h = refl
ready_from-same f n (t ∷ q) polls polls' h =
    ap
      (λ p.
        let rest = ready_from f (n + length p.pds) q polls in
        if any_fired (mark_from f n p.pds) then t ∷ rest else rest)
      (h t (ground arith))
    ∙ ap (λ rest. if any_fired (mark_from f n (polls' t).pds) then t ∷ rest else rest)
        (ready_from-same f (n + length (polls' t).pds) q polls polls' (λ u c. h u (ground arith)))

gather_same :
    (q : List ℕ) (polls polls' : ℕ → Pollq)
    → ((u : ℕ) → occurs u q ≢ 0 → polls u ≡ polls' u)
    → gather q polls ≡ gather q polls'
unfolding gather
gather_same [] polls polls' h = refl
gather_same (t ∷ q) polls polls' h =
    ap (λ p. p.pds ++ gather q polls) (h t (ground arith))
    ∙ ap (λ rest. (polls' t).pds ++ rest) (gather_same q polls polls' (λ u c. h u (ground arith)))

-- The loop at the poll of a thread.
module _ (f : ℕ → Revents) (n t : ℕ) (q : List ℕ) (vp : Vp) (sending : Sending vp)
    (e : vp.io.eventsys ≡ poll_system) (within : (u : ℕ) → occurs u (t ∷ q) ≤ occurs u vp.io.io_q)
    (pollfds : List Pollfd) (array : pollfds ≡ mark_from f n (gather (t ∷ q) vp.io.pollqs)) where
  abbrev npds : ℕ
  npds = length (vp.io.pollqs t).pds

  abbrev pds : List Pollfd
  pds = mark_from f n (vp.io.pollqs t).pds

  there : occurs t vp.io.io_q ≢ 0
  there = ground (arith, within t)

  once : occurs t q ≡ 0
  once = ground (arith, within t, polls_once vp sending.runs.valid t)

  apart : (u : ℕ) → occurs u q ≢ 0 → (t == u) ≡ false
  apart u c = elim (Bool-cases (t == u)) [
    | inl same ↦ absurd (c (ap (λ (i : ℕ). occurs i q) (sym (==→≡ t u same)) ∙ once))
    | inr different ↦ different
  ]

  first : Returns (Step (any_fired pds) t vp) (poll_settle pds t vp)
  first = poll_settle-Step t vp sending there e pds (mark_from-Alike f n (vp.io.pollqs t).pds)

  whole : pollfds ≡ mark_from f n ((vp.io.pollqs t).pds ++ gather q vp.io.pollqs)
  unfolding gather
  whole = array

  mine : take_first npds pollfds ≡ pds
  mine =
      ap (take_first npds) whole
      ∙ take_first-mark_from f n (vp.io.pollqs t).pds (gather q vp.io.pollqs)

  behind : drop_first npds pollfds ≡ mark_from f (n + npds) (gather q first.value.io.pollqs)
  behind =
      ap (drop_first npds) whole
      ∙ drop_first-mark_from f n (vp.io.pollqs t).pds (gather q vp.io.pollqs)
      ∙ ap (mark_from f (n + npds)) (
          gather_same q vp.io.pollqs first.value.io.pollqs
            (λ u c. sym (first.holds.polls u (apart u c))))

  poll_loop-cons :
      Returns
        (Sent (ready_from f (n + npds) q first.value.io.pollqs) first.value)
        (poll_loop (drop_first npds pollfds) q first.value)
      → Returns (Sent (ready_from f n (t ∷ q) vp.io.pollqs) vp) (poll_loop pollfds (t ∷ q) vp)
  unfolding poll_loop ready_from
  poll_loop-cons rest =
      rw (mine, first.returned)
        (record {
          value = rest.value;
          returned = rest.returned;
          holds =
              subst (λ ws. Sent (if any_fired pds then t ∷ ws else ws) vp rest.value)
                (ready_from-same f (n + npds) q first.value.io.pollqs vp.io.pollqs
                  (λ u c. first.holds.polls u (apart u c)))
                (Sent-step t vp first.value rest.value
                  (ready_from f (n + npds) q first.value.io.pollqs)
                  (omega (arith, occurs-ready_from f (n + npds) t q first.value.io.pollqs, once))
                  rest.holds (any_fired pds) first.holds there);
        })

pub poll_loop-Sent :
    (f : ℕ → Revents) (n : ℕ) (q : List ℕ) (vp : Vp)
    → Sending vp
    → vp.io.eventsys ≡ poll_system
    → ((u : ℕ) → occurs u q ≤ occurs u vp.io.io_q)
    → (pollfds : List Pollfd) → pollfds ≡ mark_from f n (gather q vp.io.pollqs)
    → Returns (Sent (ready_from f n q vp.io.pollqs) vp) (poll_loop pollfds q vp)
unfolding poll_loop ready_from
poll_loop-Sent f n [] vp sending e within pollfds array = record {
  value = vp;
  returned = refl;
  holds = Sent-nil vp sending;
}
poll_loop-Sent f n (t ∷ q) vp sending e within pollfds array =
    let done = first f n t q vp sending e within pollfds array in
    poll_loop-cons f n t q vp sending e within pollfds array (
      poll_loop-Sent f (n + length (vp.io.pollqs t).pds) q done.value done.holds.sending
        (done.holds.eventsys ∙ e) (within-Step _ t q vp done.value done.holds within)
        (drop_first (length (vp.io.pollqs t).pds) pollfds)
        (behind f n t q vp sending e within pollfds array))
