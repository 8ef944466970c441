-- ===== src/Kqueue/Covered.antt =====
-- What holds of the event system with kqueue of event.c between its calls.
use state_thread.Base.{
  ℕ, ◌+◌, ◌≤◌, ◌<◌, ◌^◌, ◌≡◌, refl, Bool, true, ◌&&◌, ◌||◌, List, [], ◌∷◌, ◌++◌, ◌==◌, length,
  if◌then◌else◌, arith,
}
use state_thread.Select.{Pollfd}
use state_thread.Kqueue.{is_filter, listed, Kqueue, Kevent, Filter, evfilt_read, evfilt_write}

pub listed-append :
    (f : Filter) (i : ℕ) (ks : List Kevent) (k : Kevent)
    → listed f i (ks ++ k ∷ []) ≡ (listed f i ks || (is_filter k.filter f && (k.ident == i)))
listed-append f i [] k = ground arith
listed-append f i (x ∷ ks) k = ground (arith, listed-append f i ks k)

pub length-append : (ks : List Kevent) (k : Kevent) → length (ks ++ k ∷ []) ≡ length ks + 1
length-append [] k = refl
length-append (x ∷ ks) k = omega (arith, length-append ks k)

-- Every filter that a poll waits for is known to the kernel, or is to be added.
abbrev pub Covered : (known : Filter → ℕ → Bool) → Kqueue → Type 0
Covered known s =
    (i : ℕ)
    → ((s.rd_ref_cnt i == 0 || known evfilt_read i || listed evfilt_read i s.addlist) ≡ true)
      × ((s.wr_ref_cnt i == 0 || known evfilt_write i || listed evfilt_write i s.addlist) ≡ true)

-- No list or array is empty, so that it can grow by doubling, and each size is an int.
abbrev pub Sizes : Kqueue → Type 0
Sizes s =
    ((1 ≤ s.addlist_size) × (1 ≤ s.fd_data_size) × (1 ≤ s.dellist_size))
    × (length s.dellist ≤ s.dellist_size)
    × ((s.addlist_size < 2 ^ 31) × (s.fd_data_size < 2 ^ 31) × (s.dellist_size < 2 ^ 31))

-- One more for a descriptor, if the event is asked for
abbrev pub one_more : Bool → (fd : ℕ) → (ℕ → ℕ) → ℕ → ℕ
one_more asks fd f i = if asks && (fd == i) then f i + 1 else f i

-- How many elements of a poll ask for a descriptor to be read, or written
unfoldable pub reads : List Pollfd → ℕ → ℕ
reads [] = λ i. 0
reads (pd ∷ pds) = one_more pd.pollin pd.fd (reads pds)

unfoldable pub writes : List Pollfd → ℕ → ℕ
writes [] = λ i. 0
writes (pd ∷ pds) = one_more pd.pollout pd.fd (writes pds)

-- The descriptors are below `2 ^ 30`.
abbrev pub Small : List Pollfd → Type 0
Small [] = Unit
Small (pd ∷ pds) = (pd.fd < 2 ^ 30) × Small pds

-- There is room for so many changes.
pub record Holds (known : Filter → ℕ → Bool) (more : ℕ) (s : Kqueue) : Type 0 where
  pub covered : Covered known s
  pub room : length s.addlist + more ≤ s.addlist_size
  pub sizes : Sizes s
