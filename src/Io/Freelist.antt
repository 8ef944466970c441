-- ===== src/Io/Freelist.antt =====
-- The free list of file descriptors of io.c.
use state_thread.Base.{
  ℕ, ◌≤◌, ◌≡◌, refl, ap, Bool, true, false, ◌&&◌, not, List, [], ◌∷◌, if◌then◌else◌, ◌==◌, one_if,
  null, arith, Bool-cases, inl, inr, ◌⊎◌, occurs,
}
use state_thread.Io.{Netfds, netfd_free, take_netfd, use_netfd, netfd_new}

-- The descriptors on the free list are not in use, and on it once.
abbrev pub IsNetfds : Netfds → Type 0
IsNetfds io = (t : ℕ) → occurs t io.freelist ≤ one_if (not (io.netfds t).inuse)

-- Freeing a descriptor, in use or not, keeps the invariant that descriptors on the free list are
-- not in use and on it once.
pub netfd_free-IsNetfds : (t : ℕ) (io : Netfds) → IsNetfds io → IsNetfds (netfd_free t io)
unfolding netfd_free
netfd_free-IsNetfds t io valid = elim (Bool-cases (io.netfds t).inuse) [
  | inl used ↦ rw (used, netfd_free) (λ i. ground (arith, valid i, used))
  | inr free ↦ rw (free, netfd_free) valid
]

-- A descriptor from the free list, or new memory that is not on it.
take_netfd-IsNetfds :
    (fresh : ℕ) (io : Netfds)
    → IsNetfds io
    → occurs fresh io.freelist ≡ 0
    → let r = take_netfd fresh io in IsNetfds r.1 × (occurs r.0 r.1.freelist ≡ 0)
take_netfd-IsNetfds fresh io valid off = cases io.freelist refl
  where
    cases :
        (q : List ℕ)
        → io.freelist ≡ q
        → let r = take_netfd fresh io in IsNetfds r.1 × (occurs r.0 r.1.freelist ≡ 0)
    cases [] e = rw e (λ i. ground (arith, valid i, ap (occurs i) e), ground arith)
    cases (t ∷ rest) e =
        rw e
          (λ i. ground (arith, valid i, ap (occurs i) e), ground (arith, valid t, ap (occurs t) e))

use_netfd-IsNetfds :
    (osfd t : ℕ) (io : Netfds)
    → IsNetfds io
    → occurs t io.freelist ≡ 0
    → IsNetfds (use_netfd osfd t io)
use_netfd-IsNetfds osfd t io valid off i = ground (arith, valid i, off)

-- The descriptor is in use, has the number that it was made for, and is not on the free list.
abbrev pub Opened : (osfd : ℕ) → ℕ × Netfds → Type 0
Opened osfd (t, io) =
    (t ≡ null)
    ⊎ (((io.netfds t).inuse ≡ true) × ((io.netfds t).osfd ≡ osfd) × (occurs t io.freelist ≡ 0))

outcome :
    (refused full blocking : Bool) (osfd t : ℕ) (io opened : Netfds)
    → IsNetfds io
    → IsNetfds opened
    → Opened osfd (t, opened)
    → let r : ℕ × Netfds =
        if refused
        then (null, io)
        else if full
        then (null, io)
        else if blocking
        then (null, netfd_free t opened)
        else (t, opened) in
      IsNetfds r.1 × Opened osfd r
outcome true full blocking osfd t io opened v w o = (v, inl refl)
outcome false true blocking osfd t io opened v w o = (v, inl refl)
outcome false false true osfd t io opened v w o = (netfd_free-IsNetfds t opened w, inl refl)
outcome false false false osfd t io opened v w o = (w, o)

-- Making a descriptor keeps the invariant that descriptors on the free list are not in use and on
-- it once; the result is null, or in use with the number it was made for and not on the free
-- list; provided that new memory is not that of a descriptor on the free list.
pub netfd_new-IsNetfds :
    (accepted set : Bool) (fresh osfd : ℕ) (nonblock : Bool) (io : Netfds)
    → IsNetfds io
    → occurs fresh io.freelist ≡ 0
    → let r = netfd_new accepted set fresh osfd nonblock io in IsNetfds r.1 × Opened osfd r
unfolding netfd_new
netfd_new-IsNetfds accepted set fresh osfd nonblock io valid off =
    let (taken, away) = take_netfd-IsNetfds fresh io valid off in
    let (t, io') = take_netfd fresh io in
    outcome (not accepted) (t == null) (nonblock && not set) osfd t io (use_netfd osfd t io') valid
      (use_netfd-IsNetfds osfd t io' taken away) (inr (ground arith, ground arith, away))

netfd_free_unused : (t : ℕ) (io : Netfds) → (io.netfds t).inuse ≡ false → netfd_free t io ≡ io
unfolding netfd_free
netfd_free_unused t io free = rw (free, netfd_free)

netfd_free-inuse : (t : ℕ) (io : Netfds) → ((netfd_free t io).netfds t).inuse ≡ false
unfolding netfd_free
netfd_free-inuse t io = elim (Bool-cases (io.netfds t).inuse) [
  | inl used ↦ rw (used, netfd_free) (ground arith)
  | inr free ↦ rw (free, netfd_free) free
]

-- Freeing a descriptor a second time changes nothing: it is not put on the free list twice and
-- its destructor is not called twice.
pub netfd_free-netfd_free : (t : ℕ) (io : Netfds) → netfd_free t (netfd_free t io) ≡ netfd_free t io
netfd_free-netfd_free t io = netfd_free_unused t (netfd_free t io) (netfd_free-inuse t io)
