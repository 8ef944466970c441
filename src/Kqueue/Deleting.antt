-- ===== src/Kqueue/Deleting.antt =====
-- Taking out the descriptors of a poll in the event system with kqueue of event.c.
use state_thread.Base.{
  ℕ, suc, ◌+◌, ◌-◌, ◌*◌, ◌≤◌, ◌^◌, ◌≡◌, refl, Returns, Bool, true, false, ◌||◌, not, List, [], ◌∷◌,
  ◌++◌, ◌==◌, ltb, update, length, arith, Bool-cases, inl, inr,
}
use state_thread.Select.{Pollfd}
use state_thread.Kqueue.{
  listed, Kqueue, Kevent, Filter, evfilt_read, evfilt_write, kq_unread, kq_unwrite, kq_del_loop,
  kq_dellist_add, kq_pollset_del, Memories, deleted,
}
use state_thread.Kqueue.Covered.{listed-append, length-append, Holds, one_more, reads, writes}

-- No poll waits for a filter that is to be deleted.
abbrev Spared : Kqueue → Type 0
Spared s =
    (i : ℕ)
    → ((s.rd_ref_cnt i == 0 || not (listed evfilt_read i s.dellist)) ≡ true)
      × ((s.wr_ref_cnt i == 0 || not (listed evfilt_write i s.dellist)) ≡ true)

-- As many reads and writes of each descriptor as are still to be taken out have been counted, and the
-- list of deletions has not become too long for so many more.
record Deletes (known : Filter → ℕ → Bool) (more : ℕ) (rs ws : ℕ → ℕ) (s : Kqueue) : Type 0 where
  held : Holds known 0 s
  spared : Spared s
  few : length s.dellist + more ≤ 2 ^ 30
  counted : (i : ℕ) → (rs i ≤ s.rd_ref_cnt i) × (ws i ≤ s.wr_ref_cnt i)

fewer :
    (known : Filter → ℕ → Bool) (more : ℕ) (rs ws : ℕ → ℕ) (s : Kqueue)
    → Deletes known (suc more) rs ws s
    → Deletes known more rs ws s
fewer known more rs ws s d = record {
  held = d.held;
  spared = d.spared;
  few = omega (arith, d.few);
  counted = d.counted;
}

module _ (known : Filter → ℕ → Bool) (more : ℕ) (rs ws : ℕ → ℕ) (memory : Bool) (kev : Kevent)
    (s : Kqueue) (d : Deletes known (suc more) rs ws s) where
  kq_dellist_add-Deletes :
      Spared (record s { dellist = s.dellist ++ kev ∷ [] })
      → Deletes known more rs ws (kq_dellist_add memory kev s)
  unfolding kq_dellist_add
  kq_dellist_add-Deletes spared =
      let ((a, f, l), w, (a', f', l')) = d.held.sizes in
      let longer = length-append s.dellist kev in
      elim (Bool-cases (ltb (length s.dellist) s.dellist_size)) [
        | inl fits ↦ rw fits (record {
          held = record {
            covered = d.held.covered;
            room = d.held.room;
            sizes = ((a, f, l), ground (arith, longer, fits), (a', f', l'));
          };
          spared = spared;
          few = omega (arith, longer, d.few);
          counted = d.counted;
        })
        | inr full ↦ elim (Bool-cases memory) [
          | inl bigger ↦
              rw (full, bigger)
                (record {
                  held = record {
                    covered = d.held.covered;
                    room = d.held.room;
                    sizes = (
                      (a, f, omega (arith, l)),
                      omega (arith, longer, w, l),
                      (a', f', ground (arith, full, d.few)),
                    );
                  };
                  spared = spared;
                  few = omega (arith, longer, d.few);
                  counted = d.counted;
                })
          | inr none_left ↦ rw (full, none_left) (fewer known more rs ws s d)
        ]
      ]

module _ (known : Filter → ℕ → Bool) (more : ℕ) (rs ws : ℕ → ℕ) (memory : Bool) (pd : Pollfd)
    (s : Kqueue) where
  module _ (asks : pd.pollin ≡ true)
      (d : Deletes known (suc more) (one_more pd.pollin pd.fd rs) ws s) where
    fewer_reads :
        Deletes known
          (suc more)
          rs
          ws
          (record s { rd_ref_cnt = update s.rd_ref_cnt pd.fd (s.rd_ref_cnt pd.fd - 1) })
    fewer_reads = record {
      held = record {
        covered = λ i.
            (ground (arith, (d.held.covered i).0, (d.held.covered pd.fd).0), (d.held.covered i).1);
        room = d.held.room;
        sizes = d.held.sizes;
      };
      spared = λ i. (ground (arith, (d.spared i).0, (d.spared pd.fd).0), (d.spared i).1);
      few = d.few;
      counted = λ i. (ground (arith, asks, (d.counted i).0), (d.counted i).1);
    }

  kq_unread-Deletes :
      Deletes known (suc more) (one_more pd.pollin pd.fd rs) ws s
      → Returns (Deletes known more rs ws) (kq_unread memory pd s)
  kq_unread-Deletes d = elim (Bool-cases pd.pollin) [
    | inr quiet ↦ rw quiet (record {
      value = s;
      returned = refl;
      holds = record {
        held = d.held;
        spared = d.spared;
        few = omega (arith, d.few);
        counted = λ i. (ground (arith, quiet, (d.counted i).0), (d.counted i).1);
      };
    })
    | inl asks ↦
        let there : (s.rd_ref_cnt pd.fd == 0) ≡ false = ground (arith, asks, (d.counted pd.fd).0) in
        let d' = fewer_reads asks d in
        elim (Bool-cases (s.rd_ref_cnt pd.fd == 1)) [
          | inr used ↦
              rw (asks, there, used)
                (record { value = _; returned = refl; holds = fewer known more rs ws _ d' })
          | inl last ↦
              let kev : Kevent = record { ident = pd.fd; filter = evfilt_read } in
              rw (asks, there, last)
                (record {
                  value = _;
                  returned = refl;
                  holds = kq_dellist_add-Deletes known more rs ws memory kev _ d' λ i. (
                    ground (arith, (d.spared i).0, last, listed-append evfilt_read i s.dellist kev),
                    ground (arith, (d.spared i).1, listed-append evfilt_write i s.dellist kev),
                  );
                })
        ]
  ]

  module _ (asks : pd.pollout ≡ true)
      (d : Deletes known (suc more) rs (one_more pd.pollout pd.fd ws) s) where
    fewer_writes :
        Deletes known
          (suc more)
          rs
          ws
          (record s { wr_ref_cnt = update s.wr_ref_cnt pd.fd (s.wr_ref_cnt pd.fd - 1) })
    fewer_writes = record {
      held = record {
        covered = λ i.
            ((d.held.covered i).0, ground (arith, (d.held.covered i).1, (d.held.covered pd.fd).1));
        room = d.held.room;
        sizes = d.held.sizes;
      };
      spared = λ i. ((d.spared i).0, ground (arith, (d.spared i).1, (d.spared pd.fd).1));
      few = d.few;
      counted = λ i. ((d.counted i).0, ground (arith, asks, (d.counted i).1));
    }

  kq_unwrite-Deletes :
      Deletes known (suc more) rs (one_more pd.pollout pd.fd ws) s
      → Returns (Deletes known more rs ws) (kq_unwrite memory pd s)
  kq_unwrite-Deletes d = elim (Bool-cases pd.pollout) [
    | inr quiet ↦ rw quiet (record {
      value = s;
      returned = refl;
      holds = record {
        held = d.held;
        spared = d.spared;
        few = omega (arith, d.few);
        counted = λ i. ((d.counted i).0, ground (arith, quiet, (d.counted i).1));
      };
    })
    | inl asks ↦
        let there : (s.wr_ref_cnt pd.fd == 0) ≡ false = ground (arith, asks, (d.counted pd.fd).1) in
        let d' = fewer_writes asks d in
        elim (Bool-cases (s.wr_ref_cnt pd.fd == 1)) [
          | inr used ↦
              rw (asks, there, used)
                (record { value = _; returned = refl; holds = fewer known more rs ws _ d' })
          | inl last ↦
              let kev : Kevent = record { ident = pd.fd; filter = evfilt_write } in
              rw (asks, there, last)
                (record {
                  value = _;
                  returned = refl;
                  holds = kq_dellist_add-Deletes known more rs ws memory kev _ d' λ i. (
                    ground (arith, (d.spared i).0, listed-append evfilt_read i s.dellist kev),
                    ground
                        (arith, (d.spared i).1, last, listed-append evfilt_write i s.dellist kev),
                  );
                })
        ]
  ]

kq_del_loop-Deletes :
    (known : Filter → ℕ → Bool) (memory : Bool) (pds : List Pollfd) (s : Kqueue)
    → Deletes known (length pds * 2) (reads pds) (writes pds) s
    → Returns (λ s'. Holds known 0 s' × Spared s') (kq_del_loop memory pds s)
unfolding kq_del_loop reads writes
kq_del_loop-Deletes known memory [] s d = record {
  value = s;
  returned = refl;
  holds = (d.held, d.spared);
}
kq_del_loop-Deletes known memory (pd ∷ pds) s d =
    let n = length pds * 2 in
    let d' : Deletes known (suc (suc n)) (reads (pd ∷ pds)) (writes (pd ∷ pds)) s = record {
      held = d.held;
      spared = d.spared;
      few = omega (arith, d.few);
      counted = d.counted;
    } in
    let r = kq_unread-Deletes known (suc n) (reads pds) (writes (pd ∷ pds)) memory pd s d' in
    let w = kq_unwrite-Deletes known n (reads pds) (writes pds) memory pd r.value r.holds in
    rw (r.returned, w.returned) (kq_del_loop-Deletes known memory pds w.value w.holds)

-- The polls that are taken out have been added: what they ask for has been counted.
abbrev pub Counted : List Pollfd → Kqueue → Type 0
Counted pds s = (i : ℕ) → (reads pds i ≤ s.rd_ref_cnt i) × (writes pds i ≤ s.wr_ref_cnt i)

pub kq_pollset_del-Holds :
    (known : Filter → ℕ → Bool) (mem : Memories) (pds : List Pollfd) (s : Kqueue)
    → length pds * 2 ≤ 2 ^ 30
    → Counted pds s
    → Holds known 0 s
    → Returns (λ s'. Holds (deleted s'.dellist known) 0 s') (kq_pollset_del mem pds s)
unfolding kq_pollset_del
kq_pollset_del-Holds known mem pds s low counted h =
    let ((a, f, l), w, ints) = h.sizes in
    let done =
      kq_del_loop-Deletes known mem.dels pds (record s { dellist = [] })
        (record {
          held = record {
            covered = h.covered;
            room = h.room;
            sizes = ((a, f, l), omega arith, ints);
          };
          spared = λ i. (ground arith, ground arith);
          few = omega (arith, low);
          counted = counted;
        }) in
    let (held, spared) = done.holds in
    record {
      value = done.value;
      returned = done.returned;
      holds = record {
        covered = λ i. (
          ground (arith, (held.covered i).0, (spared i).0),
          ground (arith, (held.covered i).1, (spared i).1),
        );
        room = held.room;
        sizes = held.sizes;
      };
    }
