-- ===== src/Kqueue/Adding.antt =====
-- Adding the descriptors of a poll in the event system with kqueue of event.c.
use state_thread.Base.{
  ℕ, suc, ◌+◌, ◌*◌, ◌≤◌, ◌≡◌, refl, Bool, true, List, [], ◌∷◌, ◌==◌, ltb, length, arith, Bool-cases,
  inl, inr, Returns,
}
use state_thread.Select.{Pollfd}
use state_thread.Kqueue.{
  Kqueue, Kevent, Filter, evfilt_read, evfilt_write, kq_read, kq_write, kq_add_loop, kq_addlist_add,
}
use state_thread.Kqueue.Covered.{listed-append, length-append, Holds}

module _ (known : Filter → ℕ → Bool) (n : ℕ) (pd : Pollfd) (s : Kqueue)
    (h : Holds known (suc n) s) where
  less : Holds known n s
  less = record { covered = h.covered; room = omega (arith, h.room); sizes = h.sizes }

  fits : ltb (length s.addlist) s.addlist_size ≡ true
  fits = ground (arith, h.room)

  kq_read-Holds : Returns (Holds known n) (kq_read pd s)
  unfolding kq_addlist_add
  kq_read-Holds = elim (Bool-cases pd.pollin) [
    | inr quiet ↦ rw quiet (record { value = s; returned = refl; holds = less })
    | inl asks ↦ elim (Bool-cases (s.rd_ref_cnt pd.fd == 0)) [
      | inr old ↦
          rw (asks, old)
            (record {
              value = _;
              returned = refl;
              holds = record {
                covered =
                    λ i. (ground (arith, (h.covered i).0, (h.covered pd.fd).0), (h.covered i).1);
                room = less.room;
                sizes = h.sizes;
              };
            })
      | inl new ↦
          let kev : Kevent = record { ident = pd.fd; filter = evfilt_read } in
          rw (asks, new, fits)
            (record {
              value = _;
              returned = refl;
              holds = record {
                covered = λ i. (
                  ground (arith, (h.covered i).0, listed-append evfilt_read i s.addlist kev),
                  ground (arith, (h.covered i).1, listed-append evfilt_write i s.addlist kev),
                );
                room = ground (arith, h.room, length-append s.addlist kev);
                sizes = h.sizes;
              };
            })
    ]
  ]

  kq_write-Holds : Returns (Holds known n) (kq_write pd s)
  unfolding kq_addlist_add
  kq_write-Holds = elim (Bool-cases pd.pollout) [
    | inr quiet ↦ rw quiet (record { value = s; returned = refl; holds = less })
    | inl asks ↦ elim (Bool-cases (s.wr_ref_cnt pd.fd == 0)) [
      | inr old ↦
          rw (asks, old)
            (record {
              value = _;
              returned = refl;
              holds = record {
                covered =
                    λ i. ((h.covered i).0, ground (arith, (h.covered i).1, (h.covered pd.fd).1));
                room = less.room;
                sizes = h.sizes;
              };
            })
      | inl new ↦
          let kev : Kevent = record { ident = pd.fd; filter = evfilt_write } in
          rw (asks, new, fits)
            (record {
              value = _;
              returned = refl;
              holds = record {
                covered = λ i. (
                  ground (arith, (h.covered i).0, listed-append evfilt_read i s.addlist kev),
                  ground (arith, (h.covered i).1, listed-append evfilt_write i s.addlist kev),
                );
                room = ground (arith, h.room, length-append s.addlist kev);
                sizes = h.sizes;
              };
            })
    ]
  ]

pub Holds-room :
    (known : Filter → ℕ → Bool) (m n : ℕ) (s : Kqueue)
    → Holds known m s
    → length s.addlist + n ≤ s.addlist_size
    → Holds known n s
Holds-room known m n s h room = record { covered = h.covered; room = room; sizes = h.sizes }

-- The assertion in `_st_kq_addlist_add` holds.
pub kq_add_loop-Holds :
    (known : Filter → ℕ → Bool) (pds : List Pollfd) (s : Kqueue)
    → Holds known (length pds * 2) s
    → Returns (Holds known 0) (kq_add_loop pds s)
unfolding kq_add_loop
kq_add_loop-Holds known [] s h = record { value = s; returned = refl; holds = h }
kq_add_loop-Holds known (pd ∷ pds) s h =
    let n = length pds * 2 in
    let r =
      kq_read-Holds known (suc n) pd s
        (Holds-room known _ (suc (suc n)) s h (omega (arith, h.room))) in
    let w = kq_write-Holds known n pd r.value r.holds in
    rw (r.returned, w.returned) (kq_add_loop-Holds known pds w.value w.holds)
