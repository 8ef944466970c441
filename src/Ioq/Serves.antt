-- ===== src/Ioq/Serves.antt =====
-- The operations on the queue of polls keep what the event system has equal to what the polls ask for.
use state_thread.Base.{
  ℕ, ◌+◌, ◌≤◌, ◌≡◌, ◌≢◌, refl, sym, ap, ◌∙◌, true, false, List, ◌++◌, ◌==◌, remove, arith, length,
  occurs, Bool-cases, inl, inr, ==→≡, Result, ok, err, Bool, remove_apart, update_self,
  update_other,
}
use state_thread.Select.{Pollfd, Select}
use state_thread.Select
use state_thread.PollArray.{pollset_add_cases}
use state_thread.Select.Counts.{
  IsSelect, Held, Counts, pollset_del-IsSelect, pollset_del-Counts, pollset_add_lem,
}
use state_thread.Epoll.{Epoll, Op, Answer}
use state_thread.Epoll
use state_thread.Epoll.Counts.{Kind, cnt, event, Counted, cnt-pollset_del, pollset_add-Counted}
use state_thread.Select.Counts.{asks}
use state_thread.Ioq.{
  Pollq, IoState, Eventsys, select_system, poll_system, epoll_system, with_epoll, add_ioq, add_by,
  del_by,
}
use state_thread.Ioq.Gather.{
  gather, gather-same, gather-append, gather-remove, Alike, Alike-event, Exactly, ServesBy,
  length-append, asks-append,
}

-- A poll leaves the queue: the others are as before, its own descriptors alike.
module _ (io : IoState) (t : ℕ) (pds : List Pollfd) (g : ℕ → Pollq) (there : occurs t io.io_q ≢ 0)
    (once : occurs t io.io_q ≤ 1)
    (others : (u : ℕ) → (t == u) ≡ false → (g u).pds ≡ (io.pollqs u).pds)
    (alike : Alike (io.pollqs t).pds pds) where
  left :
      (m : List Pollfd → ℕ)
      → ((xs ys : List Pollfd) → m (xs ++ ys) ≡ m xs + m ys)
      → m pds ≡ m (io.pollqs t).pds
      → m (gather (remove t io.io_q) g) + m pds ≡ m (gather io.io_q io.pollqs)
  left m m-append same = omega (
    arith,
    gather-remove m m-append io.pollqs io.io_q t there,
    gather-same m m-append g io.pollqs (remove t io.io_q)
        (λ u c. ap m (others u (remove_apart t u io.io_q once c))),
    same,
  )

  module _ (s : Select) (exactly : Exactly (gather io.io_q io.pollqs) s) where
    held : Held pds s
    held i = (
      omega (arith, exactly.in_ i, left _ (asks-append (λ pd. pd.pollin) i) (alike.in_ i)),
      omega (arith, exactly.out_ i, left _ (asks-append (λ pd. pd.pollout) i) (alike.out_ i)),
      omega (arith, exactly.pri_ i, left _ (asks-append (λ pd. pd.pollpri) i) (alike.pri_ i)),
    )

    left-Exactly : Exactly (gather (remove t io.io_q) g) (Select.pollset_del pds s)
    left-Exactly = record {
      valid = pollset_del-IsSelect pds s exactly.valid held;
      in_ = λ i. omega (
        arith,
        exactly.in_ i,
        (pollset_del-Counts pds s held i).0,
        left _ (asks-append (λ pd. pd.pollin) i) (alike.in_ i),
      );
      out_ = λ i. omega (
        arith,
        exactly.out_ i,
        (pollset_del-Counts pds s held i).1,
        left _ (asks-append (λ pd. pd.pollout) i) (alike.out_ i),
      );
      pri_ = λ i. omega (
        arith,
        exactly.pri_ i,
        (pollset_del-Counts pds s held i).2,
        left _ (asks-append (λ pd. pd.pollpri) i) (alike.pri_ i),
      );
    }

  pub left-ServesBy :
      (e : Eventsys)
      → ServesBy e io
      → (ctl : Op → ℕ → Answer)
      → ServesBy e (del_by e ctl pds (record io { io_q = remove t io.io_q; pollqs = g }))
  left-ServesBy select_system exactly ctl = left-Exactly io.select exactly
  left-ServesBy poll_system same ctl = omega (arith, same, left length length-append alike.size)
  left-ServesBy epoll_system counted ctl = λ k i. omega (
    arith,
    counted k i,
    cnt-pollset_del k ctl pds io.epoll i,
    left _ (asks-append (event k) i) (Alike-event alike k i),
    Alike-event alike k i,
  )

-- The descriptors of a poll that stays on the queue change to alike ones.
module _ (io : IoState) (g : ℕ → Pollq) (alike : (u : ℕ) → Alike (io.pollqs u).pds (g u).pds) where
  same-Exactly : (s : Select) → Exactly (gather io.io_q io.pollqs) s → Exactly (gather io.io_q g) s
  same-Exactly s exactly = record {
    valid = exactly.valid;
    in_ = λ i.
        exactly.in_ i
        ∙ sym (
            gather-same _ (asks-append (λ pd. pd.pollin) i) g io.pollqs io.io_q
              (λ u c. (alike u).in_ i));
    out_ = λ i.
        exactly.out_ i
        ∙ sym (
            gather-same _ (asks-append (λ pd. pd.pollout) i) g io.pollqs io.io_q
              (λ u c. (alike u).out_ i));
    pri_ = λ i.
        exactly.pri_ i
        ∙ sym (
            gather-same _ (asks-append (λ pd. pd.pollpri) i) g io.pollqs io.io_q
              (λ u c. (alike u).pri_ i));
  }

  pub same-ServesBy : (e : Eventsys) → ServesBy e io → ServesBy e (record io { pollqs = g })
  same-ServesBy select_system exactly = same-Exactly io.select exactly
  same-ServesBy poll_system same =
      same ∙ sym (gather-same length length-append g io.pollqs io.io_q (λ u c. (alike u).size))
  same-ServesBy epoll_system counted = λ k i.
      counted k i
      ∙ sym (
          gather-same _ (asks-append (event k) i) g io.pollqs io.io_q
            (λ u c. Alike-event (alike u) k i))

-- A poll joins the queue.
module _ (io : IoState) (t : ℕ) (pds : List Pollfd) (gone : occurs t io.io_q ≡ 0) where
  joins :
      (m : List Pollfd → ℕ)
      → ((xs ys : List Pollfd) → m (xs ++ ys) ≡ m xs + m ys)
      → m (gather (add_ioq t pds io).io_q (add_ioq t pds io).pollqs)
        ≡ m (gather io.io_q io.pollqs) + m pds
  joins m m-append = omega (
    arith,
    gather-append m m-append (add_ioq t pds io).pollqs io.io_q t,
    gather-same m m-append (add_ioq t pds io).pollqs io.pollqs io.io_q
        (λ u c. ap (λ (p : Pollq). m p.pds) (others u c)),
    ap (λ (p : Pollq). m p.pds) (update_self io.pollqs t (record { pds = pds; on_ioq = true })),
  )
    where
      others : (u : ℕ) → occurs u io.io_q ≢ 0 → (add_ioq t pds io).pollqs u ≡ io.pollqs u
      others u c = elim (Bool-cases (t == u)) [
        | inl same ↦ absurd (c (sym (ap (λ (i : ℕ). occurs i io.io_q) (==→≡ t u same)) ∙ gone))
        | inr apart ↦ update_other io.pollqs t u _ apart
      ]

  -- What the queue is when the event system has taken the poll, or refused it.
  pub record Taken (e : Eventsys) (io' : IoState) : Type 0 where
    pub io_q : io'.io_q ≡ io.io_q
    pub pollqs : io'.pollqs ≡ io.pollqs
    pub eventsys : io'.eventsys ≡ io.eventsys
    pub serves : ServesBy e (add_ioq t pds io')

  -- A refused poll leaves the queue as it was.
  pub record Refused (e : Eventsys) (io' : IoState) : Type 0 where
    pub io_q : io'.io_q ≡ io.io_q
    pub pollqs : io'.pollqs ≡ io.pollqs
    pub eventsys : io'.eventsys ≡ io.eventsys
    pub serves : ServesBy e io'

  abbrev pub Joined : Eventsys → Result (Unit {0}) × IoState → Type 0
  Joined e (ok _, io') = Taken e io'
  Joined e (err _, io') = Refused e io'

  joins-Exactly :
      (s s' : Select)
      → Exactly (gather io.io_q io.pollqs) s
      → IsSelect s'
      → ((i : ℕ) → Counts s' s pds i)
      → Exactly (gather (add_ioq t pds io).io_q (add_ioq t pds io).pollqs) s'
  joins-Exactly s s' exactly valid counts = record {
    valid = valid;
    in_ =
        λ i. omega (arith, exactly.in_ i, (counts i).0, joins _ (asks-append (λ pd. pd.pollin) i));
    out_ = λ i.
        omega (arith, exactly.out_ i, (counts i).1, joins _ (asks-append (λ pd. pd.pollout) i));
    pri_ = λ i.
        omega (arith, exactly.pri_ i, (counts i).2, joins _ (asks-append (λ pd. pd.pollpri) i));
  }

  pub add_by-Joined :
      (e : Eventsys)
      → ServesBy e io
      → (memory : Bool) (ctl : Op → ℕ → Answer) → Joined e (add_by e memory ctl pds io)
  add_by-Joined select_system exactly memory ctl =
      elim (pollset_add_lem pds io.select exactly.valid) [
        | inl refused ↦
            rw refused (record { io_q = refl; pollqs = refl; eventsys = refl; serves = exactly })
        | inr (s', added, valid, counts) ↦ rw added (record {
          io_q = refl;
          pollqs = refl;
          eventsys = refl;
          serves = joins-Exactly io.select s' exactly valid counts;
        })
      ]
  add_by-Joined poll_system same memory ctl = elim (pollset_add_cases pds io.poll_data) [
    | inl refused ↦
        rw refused (record { io_q = refl; pollqs = refl; eventsys = refl; serves = same })
    | inr added ↦ rw added (record {
      io_q = refl;
      pollqs = refl;
      eventsys = refl;
      serves = omega (arith, same, joins length length-append);
    })
  ]
  add_by-Joined epoll_system counted memory ctl =
      epolled (Epoll.pollset_add memory ctl pds io.epoll)
        (pollset_add-Counted memory ctl pds io.epoll)
    where
      epolled :
          (r : Result (Unit {0}) × Epoll)
          → ((k : Kind) (i : ℕ) → Counted k i (cnt k io.epoll i) (asks (event k) i pds) r)
          → Joined epoll_system (with_epoll r io)
      epolled (ok _, d) h = record {
        io_q = refl;
        pollqs = refl;
        eventsys = refl;
        serves = λ k i. omega (arith, h k i, counted k i, joins _ (asks-append (event k) i));
      }
      epolled (err e, d) h = record {
        io_q = refl;
        pollqs = refl;
        eventsys = refl;
        serves = λ k i. h k i ∙ counted k i;
      }
