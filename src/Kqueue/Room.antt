-- ===== src/Kqueue/Room.antt =====
-- The arrays and lists of the event system with kqueue of event.c grow enough.
use state_thread.Base.{
  ℕ, zero, suc, ◌+◌, ◌-◌, ◌*◌, ◌%◌, ◌≤◌, false, ◌<◌, ◌^◌, ◌≡◌, refl, sym, subst, Bool, List, [],
  ◌∷◌, leb, length, arith, Bool-cases, inl, inr, Result, ok, err, Returns,
}
use state_thread.Select.{Pollfd}
use state_thread.Kqueue.{
  Kqueue, Filter, kq_double, kq_fd_data_expand, kq_addlist_expand, kq_check_loop, kq_pollset_add,
  kq_make_room, Memories, kq_is_valid, kq_after_room,
}
use state_thread.Kqueue.Covered.{Holds, Small}
use state_thread.Kqueue.Adding.{kq_add_loop-Holds, Holds-room}

kq_double_least :
    (fuel least n : ℕ)
    → 1 ≤ n
    → least ≤ n + fuel
    → least ≤ 2 ^ 30
    → n < 2 ^ 31
    → let n' = kq_double fuel least n in (least ≤ n') × (1 ≤ n') × (n' < 2 ^ 31)
unfolding kq_double
kq_double_least zero least n h g low int = (omega arith, h, int)
kq_double_least (suc fuel) least n h g low int = elim (Bool-cases (leb least n)) [
  | inl big ↦ rw (positive, big) (ground arith, h, int)
  | inr small ↦
      let under : n < least = ground (arith, small) in
      let fits : n * 2 % 2 ^ 32 ≡ n * 2 = omega (arith, under, low) in
      rw (positive, small, fits)
        (kq_double_least fuel least (n * 2) (omega arith) (omega (arith, g, h)) low
          (omega (arith, under, low)))
]
  where
    -- The size is not negative.
    positive : leb (2 ^ 31) n ≡ false
    positive = ground (arith, int)

-- Nobody waits for a descriptor of the part that is added to the array.
kq_fd_data_expand-Holds :
    (known : Filter → ℕ → Bool) (more maxfd : ℕ) (s : Kqueue)
    → maxfd < 2 ^ 30
    → Holds known more s
    → Holds known more (kq_fd_data_expand maxfd s)
unfolding kq_fd_data_expand
kq_fd_data_expand-Holds known more maxfd s low h =
    let ((adds, fds, dels), within, (adds', fds', dels')) = h.sizes in
    let big =
      kq_double_least (maxfd + 1) (maxfd + 1) s.fd_data_size fds (omega arith) (omega (arith, low))
        fds' in
    record {
      covered = λ i. (ground (arith, (h.covered i).0), ground (arith, (h.covered i).1));
      room = h.room;
      sizes = ((adds, big.1, dels), within, (adds', big.2, dels'));
    }

kq_check_loop-Holds :
    (known : Filter → ℕ → Bool) (more : ℕ) (memory : Bool) (pds : List Pollfd) (s : Kqueue)
    → Small pds
    → Holds known more s
    → Holds known more (kq_check_loop memory pds s).1
unfolding kq_check_loop
kq_check_loop-Holds known more memory [] s low h = h
kq_check_loop-Holds known more memory (pd ∷ pds) s low h = elim (Bool-cases (kq_is_valid pd)) [
  | inr bad ↦ rw bad h
  | inl good ↦ elim (Bool-cases (leb s.fd_data_size pd.fd)) [
    | inr small ↦ rw (good, small) (kq_check_loop-Holds known more memory pds s low.1 h)
    | inl big ↦ elim (Bool-cases memory) [
      | inr none_left ↦ rw (good, big, none_left) h
      | inl some_left ↦
          rw (good, big, some_left)
            (kq_check_loop-Holds known more memory pds (kq_fd_data_expand pd.fd s) low.1
              (kq_fd_data_expand-Holds known more pd.fd s low.0 h))
    ]
  ]
]

kq_addlist_expand-Holds :
    (known : Filter → ℕ → Bool) (results : Bool) (avail : ℕ) (s : Kqueue)
    → avail + length s.addlist ≤ 2 ^ 30
    → Holds known 0 s
    → Holds known avail (kq_addlist_expand results avail s)
unfolding kq_addlist_expand
kq_addlist_expand-Holds known results avail s low h =
    let ((adds, fds, dels), within, (adds', fds', dels')) = h.sizes in
    let least = avail + length s.addlist in
    let big = kq_double_least least least s.addlist_size adds (omega arith) low adds' in
    record {
      covered = h.covered;
      room = omega (arith, big.0);
      sizes = ((big.1, fds, dels), within, (big.2, fds', dels'));
    }

kq_after_room-Holds :
    (known : Filter → ℕ → Bool) (pds : List Pollfd) (s : Kqueue)
    → Holds known (length pds * 2) s
    → Returns (λ r. Holds known 0 r.1) (kq_after_room pds s)
kq_after_room-Holds known pds s h =
    let added = kq_add_loop-Holds known pds s h in
    rw added.returned
      (record { value = (ok tt, added.value); returned = refl; holds = added.holds })

kq_make_room-Holds :
    (known : Filter → ℕ → Bool) (mem : Memories) (pds : List Pollfd)
    (r : Result (Unit {0}) × Kqueue)
    → length pds * 2 + length r.1.addlist ≤ 2 ^ 30
    → Holds known 0 r.1
    → Returns (λ r'. Holds known 0 r'.1) (kq_make_room mem pds r)
kq_make_room-Holds known mem pds (err e, s) low h = record {
  value = (err e, s);
  returned = refl;
  holds = h;
}
kq_make_room-Holds known mem pds (ok _, s) low h =
    elim (Bool-cases (leb (length pds * 2) (s.addlist_size - length s.addlist))) [
      | inl fits ↦ rw fits (
          kq_after_room-Holds known pds s (Holds-room known 0 _ s h (ground (arith, fits, h.room))))
      | inr full ↦ elim (Bool-cases mem.adds) [
        | inl memory ↦
            rw (full, memory)
              (kq_after_room-Holds known pds _
                (kq_addlist_expand-Holds known mem.results (length pds * 2) s low h))
        | inr none_left ↦ rw (full, none_left) (record { value = _; returned = refl; holds = h })
      ]
    ]

-- The checks leave the list of additions.
addlist-kq_check_loop :
    (memory : Bool) (pds : List Pollfd) (s : Kqueue)
    → (kq_check_loop memory pds s).1.addlist ≡ s.addlist
unfolding kq_check_loop kq_fd_data_expand
addlist-kq_check_loop memory [] s = refl
addlist-kq_check_loop memory (pd ∷ pds) s = elim (Bool-cases (kq_is_valid pd)) [
  | inr bad ↦ rw bad refl
  | inl good ↦ elim (Bool-cases (leb s.fd_data_size pd.fd)) [
    | inr small ↦ rw (good, small) (addlist-kq_check_loop memory pds s)
    | inl big ↦ elim (Bool-cases memory) [
      | inr none_left ↦ rw (good, big, none_left) refl
      | inl some_left ↦
          rw (good, big, some_left) (addlist-kq_check_loop memory pds (kq_fd_data_expand pd.fd s))
    ]
  ]
]

pub kq_pollset_add-Holds :
    (known : Filter → ℕ → Bool) (mem : Memories) (pds : List Pollfd) (s : Kqueue)
    → Small pds
    → length pds * 2 + length s.addlist ≤ 2 ^ 30
    → Holds known 0 s
    → Returns (λ r. Holds known 0 r.1) (kq_pollset_add mem pds s)
unfolding kq_pollset_add
kq_pollset_add-Holds known mem pds s small low h =
    kq_make_room-Holds known mem pds (kq_check_loop mem.fds pds s)
      (subst (λ ks. length pds * 2 + length ks ≤ 2 ^ 30) (sym (addlist-kq_check_loop mem.fds pds s))
        low)
      (kq_check_loop-Holds known 0 mem.fds pds s small h)
