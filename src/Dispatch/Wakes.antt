-- ===== src/Dispatch/Wakes.antt =====
-- Waking the thread of a poll that is taken off the queue, event.c.
use state_thread.Base.{
  ℕ, ◌≤◌, ◌≡◌, ◌≢◌, refl, ap, ◌∙◌, subst, Bool, true, false, some, [], ◌∷◌, ◌++◌, ◌==◌, ◌>>=◌,
  remove, occurs, remove_apart, occurs-remove_all, occurs-remove, one_if, ==→≡, if◌then◌else◌,
  update_other, arith, Bool-cases, inl, inr,
}
use state_thread.SleepQ.{}
use state_thread.Ioq.{IoState, Pollq}
use state_thread.Ioq.Gather.{Serves}
use state_thread.Vp.{Vp, Thread, State, io_wait, runnable, wake, set_io}
use state_thread.Vp.Invariant.{polls_once, IsVp, IsWaiting, woken, wake_lem, wake-set_io}
use state_thread.Vp.Switch.{Runs}

abbrev pub is_io_wait : State → Bool
is_io_wait io_wait = true
is_io_wait _ = false

-- Every thread whose poll is on the queue waits for it.
pub record Sending (vp : Vp) : Type 0 where
  pub runs : Runs vp
  pub waits : (t : ℕ) → occurs t vp.io.io_q ≢ 0 → is_io_wait (vp.threads t).state ≡ true

-- A change of the queue by which no poll joins it.
pub record Shrinks (io io' : IoState) : Type 0 where
  pub serves : Serves io'
  pub fewer : (t : ℕ) → occurs t io'.io_q ≤ occurs t io.io_q
  pub queued : (t : ℕ) → occurs t io'.io_q ≡ one_if (io'.pollqs t).on_ioq
  pub flags : (t : ℕ) → occurs t io'.io_q ≢ 0 → (io'.pollqs t).on_ioq ≡ (io.pollqs t).on_ioq

pub set_io-IsVp : (io : IoState) (vp : Vp) → IsVp vp → Shrinks vp.io io → IsVp (set_io io vp)
set_io-IsVp io vp v s = record {
  heap = v.heap;
  timed = v.timed;
  waits = v.waits;
  ready = v.ready;
  dead = v.dead;
  idles = v.idles;
  serves = s.serves;
  queued = s.queued;
  polls = λ t h. ground (arith, v.polls t, s.fewer t, s.flags t h);
}

-- A poll that leaves the queue.
pub leaves-Shrinks :
    (t : ℕ) (io io' : IoState)
    → ((u : ℕ) → occurs u io.io_q ≡ one_if (io.pollqs u).on_ioq)
    → occurs t io.io_q ≢ 0
    → Serves io'
    → io'.io_q ≡ remove t io.io_q
    → (io'.pollqs t).on_ioq ≡ false
    → ((u : ℕ) → (t == u) ≡ false → io'.pollqs u ≡ io.pollqs u)
    → Shrinks io io'
leaves-Shrinks t io io' queued there serves off gone others = record {
  serves = serves;
  fewer = λ u. omega (arith, occurs-remove_all u t io.io_q, ap (occurs u) off);
  queued = λ u. elim (Bool-cases (t == u)) [
    | inl same ↦
        subst (λ i. occurs i io'.io_q ≡ one_if (io'.pollqs i).on_ioq) (==→≡ t u same)
          (ground (arith, ap (occurs t) off, occurs-remove t t io.io_q there, queued t, gone))
    | inr apart ↦ omega (
      arith,
      ap (occurs u) off,
      occurs-remove u t io.io_q there,
      ap (λ b. one_if b) apart,
      queued u,
      ap (λ (p : Pollq). one_if p.on_ioq) (others u apart),
    )
  ];
  flags = λ u h.
      ap (λ (p : Pollq). p.on_ioq)
        (others u
          (remove_apart t u io.io_q (ground (arith, queued t)) (λ g. h (ap (occurs u) off ∙ g))));
}

-- What the part of a dispatch about one poll does: it is `b` whether the thread `t` is woken.
pub record Step (b : Bool) (t : ℕ) (vp vp' : Vp) : Type 0 where
  pub sending : Sending vp'
  pub run_q : vp'.run_q ≡ (if b then vp.run_q ++ t ∷ [] else vp.run_q)
  pub io_q : vp'.io.io_q ≡ (if b then remove t vp.io.io_q else vp.io.io_q)
  pub polls : (u : ℕ) → (t == u) ≡ false → vp'.io.pollqs u ≡ vp.io.pollqs u
  pub others : (u : ℕ) → (t == u) ≡ false → vp'.threads u ≡ vp.threads u
  pub state : (vp'.threads t).state ≡ (if b then runnable else (vp.threads t).state)
  pub current : vp'.current ≡ vp.current
  pub idle : vp'.idle ≡ vp.idle
  pub eventsys : vp'.io.eventsys ≡ vp.io.eventsys

module _ (t : ℕ) (vp : Vp) (sending : Sending vp) (there : occurs t vp.io.io_q ≢ 0)
    (io io' : IoState) (shrinks : Shrinks vp.io io') (eventsys : io'.eventsys ≡ vp.io.eventsys)
    (others : (u : ℕ) → (t == u) ≡ false → io'.pollqs u ≡ vp.io.pollqs u) where
  here : is_io_wait (vp.threads t).state ≡ true
  here = sending.waits t there

  waiting : IsWaiting t vp
  waiting = record { not_ready = ground (arith, here); not_zombie = ground (arith, here) }

  -- Its thread is woken when the queue is `io'`, or is `io` and becomes `io'` by `after`.
  pub wakes :
      io'.io_q ≡ remove t vp.io.io_q
      → (after : Vp → Vp) → ((v : Vp) → after (set_io io v) ≡ set_io io' v)
      → (vp' : Vp) × (wake t (set_io io' vp) ≡ some vp')
        × ((wake t (set_io io vp) >>= λ v. some (after v)) ≡ some vp')
        × Step true t vp vp'
        × (vp'.io ≡ io')
  wakes off after settles =
      let (q, e, v) = wake_lem t vp sending.runs.valid waiting in
      (
        set_io io' (woken t q vp),
        rw (wake-set_io io' t vp, e) refl,
        rw (wake-set_io io t vp, e) (ap some (settles (woken t q vp))),
        record {
          sending = record {
            runs = record {
              valid = set_io-IsVp io' (woken t q vp) v (record {
                serves = shrinks.serves;
                fewer = shrinks.fewer;
                queued = shrinks.queued;
                flags = shrinks.flags;
              });
              current_runs = ground (arith, sending.runs.current_runs, here);
            };
            waits = λ u h.
                let apart =
                  remove_apart t u vp.io.io_q (polls_once vp sending.runs.valid t)
                    (λ g. h (ap (occurs u) off ∙ g)) in
                ap (λ (th : Thread). is_io_wait th.state) (update_other vp.threads t u _ apart)
                ∙ sending.waits u (λ g. h (ground (arith, shrinks.fewer u, g)));
          };
          run_q = refl;
          io_q = off;
          polls = others;
          others = λ u apart. update_other vp.threads t u _ apart;
          state = ground arith;
          current = refl;
          idle = refl;
          eventsys = eventsys;
        },
        refl,
      )

  -- It stays.
  pub stays : io'.io_q ≡ vp.io.io_q → Step false t vp (set_io io' vp)
  stays same = record {
    sending = record {
      runs = record {
        valid = set_io-IsVp io' vp sending.runs.valid shrinks;
        current_runs = sending.runs.current_runs;
      };
      waits = λ u h. sending.waits u (λ g. h (ap (occurs u) same ∙ g));
    };
    run_q = refl;
    io_q = same;
    polls = others;
    others = λ u apart. refl;
    state = refl;
    current = refl;
    idle = refl;
    eventsys = eventsys;
  }
