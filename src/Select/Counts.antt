-- ===== src/Select/Counts.antt =====
-- The counts of the descriptor sets of event.c are the numbers of waiting polls.
use state_thread.Base.{
  ℕ, ◌+◌, ◌≤◌, ◌≡◌, ap, ◌∙◌, sym, Bool, true, false, ◌&&◌, not, List, [], ◌∷◌, ◌==◌, one_if, arith,
  Bool-cases, inl, inr, ◌⊎◌, refl, ok, err, einval,
}
use state_thread.Select.{
  Pollfd, FdSet, Select, raise, lower, all_valid, add_fd, add_loop, pollset_add, del_fd,
  pollset_del,
}

-- A descriptor is in the set exactly when its count is not 0.
abbrev IsFdSet : FdSet → Type 0
IsFdSet s = (i : ℕ) → s.member i ≡ not (s.cnt i == 0)

pub record IsSelect (s : Select) : Type 0 where
  pub read_valid : IsFdSet s.read_set
  pub write_valid : IsFdSet s.write_set
  pub excep_valid : IsFdSet s.excep_set

-- How often an event is asked for on a descriptor.
abbrev pub asks : (Pollfd → Bool) → ℕ → List Pollfd → ℕ
asks event i [] = 0
asks event i (pd ∷ pds) = one_if (event pd && (pd.fd == i)) + asks event i pds

raise-IsFdSet : (b : Bool) (fd : ℕ) (s : FdSet) → IsFdSet s → IsFdSet (raise b fd s)
raise-IsFdSet false fd s v i = v i
raise-IsFdSet true fd s v i = ground (arith, v i)

cnt-raise :
    (b : Bool) (fd i : ℕ) (s : FdSet) → (raise b fd s).cnt i ≡ s.cnt i + one_if (b && (fd == i))
cnt-raise false fd i s = omega arith
cnt-raise true fd i s = ground arith

lower-IsFdSet :
    (b : Bool) (fd : ℕ) (s : FdSet) → one_if b ≤ s.cnt fd → IsFdSet s → IsFdSet (lower b fd s)
lower-IsFdSet false fd s h v i = v i
lower-IsFdSet true fd s h v i = ground (arith, v i)

cnt-lower :
    (b : Bool) (fd i : ℕ) (s : FdSet)
    → one_if b ≤ s.cnt fd
    → (lower b fd s).cnt i + one_if (b && (fd == i)) ≡ s.cnt i
cnt-lower false fd i s h = omega arith
cnt-lower true fd i s h = ground arith

-- The counts of a descriptor, with those that some polls ask for.
abbrev pub Counts : (more less : Select) → List Pollfd → ℕ → Type 0
Counts more less pds i =
    (less.read_set.cnt i + asks (λ pd. pd.pollin) i pds ≡ more.read_set.cnt i)
    × (less.write_set.cnt i + asks (λ pd. pd.pollout) i pds ≡ more.write_set.cnt i)
    × (less.excep_set.cnt i + asks (λ pd. pd.pollpri) i pds ≡ more.excep_set.cnt i)

add_loop-Counts : (pds : List Pollfd) (s : Select) (i : ℕ) → Counts (add_loop pds s) s pds i
unfolding add_loop
add_loop-Counts [] s i = (omega arith, omega arith, omega arith)
add_loop-Counts (pd ∷ pds) s i =
    let rest = add_loop-Counts pds (add_fd pd s) i in
    (
      omega (arith, rest.0, cnt-raise pd.pollin pd.fd i s.read_set),
      omega (arith, rest.1, cnt-raise pd.pollout pd.fd i s.write_set),
      omega (arith, rest.2, cnt-raise pd.pollpri pd.fd i s.excep_set),
    )

add_loop-IsSelect : (pds : List Pollfd) (s : Select) → IsSelect s → IsSelect (add_loop pds s)
unfolding add_loop
add_loop-IsSelect [] s v = v
add_loop-IsSelect (pd ∷ pds) s v = add_loop-IsSelect pds (add_fd pd s) (record {
  read_valid = raise-IsFdSet pd.pollin pd.fd s.read_set v.read_valid;
  write_valid = raise-IsFdSet pd.pollout pd.fd s.write_set v.write_valid;
  excep_valid = raise-IsFdSet pd.pollpri pd.fd s.excep_set v.excep_valid;
})

-- The sets hold what the polls ask for.
abbrev pub Held : List Pollfd → Select → Type 0
Held pds s =
    (i : ℕ)
    → (asks (λ pd. pd.pollin) i pds ≤ s.read_set.cnt i)
      × (asks (λ pd. pd.pollout) i pds ≤ s.write_set.cnt i)
      × (asks (λ pd. pd.pollpri) i pds ≤ s.excep_set.cnt i)

module _ (pd : Pollfd) (pds : List Pollfd) (s : Select) (held : Held (pd ∷ pds) s) where
  asked_in : one_if pd.pollin ≤ s.read_set.cnt pd.fd
  asked_in = ground (arith, (held pd.fd).0)

  asked_out : one_if pd.pollout ≤ s.write_set.cnt pd.fd
  asked_out = ground (arith, (held pd.fd).1)

  asked_pri : one_if pd.pollpri ≤ s.excep_set.cnt pd.fd
  asked_pri = ground (arith, (held pd.fd).2)

  Held-del_fd : Held pds (del_fd pd s)
  Held-del_fd i = (
    omega (arith, (held i).0, cnt-lower pd.pollin pd.fd i s.read_set asked_in),
    omega (arith, (held i).1, cnt-lower pd.pollout pd.fd i s.write_set asked_out),
    omega (arith, (held i).2, cnt-lower pd.pollpri pd.fd i s.excep_set asked_pri),
  )

pub pollset_del-Counts :
    (pds : List Pollfd) (s : Select) → Held pds s → (i : ℕ) → Counts s (pollset_del pds s) pds i
unfolding pollset_del
pollset_del-Counts [] s h i = (omega arith, omega arith, omega arith)
pollset_del-Counts (pd ∷ pds) s h i =
    let rest = pollset_del-Counts pds (del_fd pd s) (Held-del_fd pd pds s h) i in
    (
      omega (arith, rest.0, cnt-lower pd.pollin pd.fd i s.read_set (asked_in pd pds s h)),
      omega (arith, rest.1, cnt-lower pd.pollout pd.fd i s.write_set (asked_out pd pds s h)),
      omega (arith, rest.2, cnt-lower pd.pollpri pd.fd i s.excep_set (asked_pri pd pds s h)),
    )

-- Taking out descriptors that the counts cover keeps the invariant that a descriptor is in a set
-- exactly when its count is not 0.
pub pollset_del-IsSelect :
    (pds : List Pollfd) (s : Select) → IsSelect s → Held pds s → IsSelect (pollset_del pds s)
unfolding pollset_del
pollset_del-IsSelect [] s v h = v
pollset_del-IsSelect (pd ∷ pds) s v h =
    pollset_del-IsSelect pds (del_fd pd s)
      (record {
        read_valid = lower-IsFdSet pd.pollin pd.fd s.read_set (asked_in pd pds s h) v.read_valid;
        write_valid =
            lower-IsFdSet pd.pollout pd.fd s.write_set (asked_out pd pds s h) v.write_valid;
        excep_valid =
            lower-IsFdSet pd.pollpri pd.fd s.excep_set (asked_pri pd pds s h) v.excep_valid;
      })
      (Held-del_fd pd pds s h)

-- Adding the descriptors of a poll keeps the invariant that a descriptor is in a set exactly when
-- its count is not 0, also when the poll is refused.
pub pollset_add-IsSelect :
    (pds : List Pollfd) (s : Select) → IsSelect s → IsSelect (pollset_add pds s).1
unfolding pollset_add
pollset_add-IsSelect pds s v = elim (Bool-cases (all_valid pds)) [
  | inl good ↦ rw good (add_loop-IsSelect pds s v)
  | inr bad ↦ rw bad v
]

-- Either nothing happens, or the descriptors are added.
pub pollset_add_either :
    (pds : List Pollfd) (s : Select)
    → (pollset_add pds s ≡ (err einval, s)) ⊎ (pollset_add pds s ≡ (ok tt, add_loop pds s))
unfolding pollset_add
pollset_add_either pds s = elim (Bool-cases (all_valid pds)) [
  | inl good ↦ inr (rw good refl)
  | inr bad ↦ inl (rw bad refl)
]

-- Either nothing happens, or the sets are valid and have more by what the poll asks for.
pub pollset_add_lem :
    (pds : List Pollfd) (s : Select)
    → IsSelect s
    → (pollset_add pds s ≡ (err einval, s))
      ⊎ ((s' : Select) × (pollset_add pds s ≡ (ok tt, s'))
          × IsSelect s'
          × ((i : ℕ) → Counts s' s pds i))
unfolding pollset_add
pollset_add_lem pds s v = elim (Bool-cases (all_valid pds)) [
  | inl good ↦ inr (add_loop pds s, rw good refl, add_loop-IsSelect pds s v, add_loop-Counts pds s)
  | inr bad ↦ inl (rw bad refl)
]

-- Two sets with the same counts have the same descriptors.
same_member :
    (s s' : FdSet) (i : ℕ) → IsFdSet s → IsFdSet s' → s.cnt i ≡ s'.cnt i → s.member i ≡ s'.member i
same_member s s' i v v' e = v i ∙ ap (λ n. not (n == 0)) e ∙ sym (v' i)

abbrev pub SameAt : ℕ → Select → Select → Type 0
SameAt i s s' =
    (s.read_set.cnt i ≡ s'.read_set.cnt i)
    × (s.read_set.member i ≡ s'.read_set.member i)
    × (s.write_set.cnt i ≡ s'.write_set.cnt i)
    × (s.write_set.member i ≡ s'.write_set.member i)
    × (s.excep_set.cnt i ≡ s'.excep_set.cnt i)
    × (s.excep_set.member i ≡ s'.excep_set.member i)

module _ (pds : List Pollfd) (s : Select) (v : IsSelect s) where
  added-Held : Held pds (add_loop pds s)
  added-Held i =
      let c = add_loop-Counts pds s i in
      (omega (arith, c.0), omega (arith, c.1), omega (arith, c.2))

  del-add_loop : (i : ℕ) → SameAt i (pollset_del pds (add_loop pds s)) s
  del-add_loop i =
      let more = add_loop pds s in
      let c = add_loop-Counts pds s i in
      let d = pollset_del-Counts pds more added-Held i in
      let w = pollset_del-IsSelect pds more (add_loop-IsSelect pds s v) added-Held in
      let less = pollset_del pds more in
      let in_ : less.read_set.cnt i ≡ s.read_set.cnt i = omega (arith, c.0, d.0) in
      let out_ : less.write_set.cnt i ≡ s.write_set.cnt i = omega (arith, c.1, d.1) in
      let pri_ : less.excep_set.cnt i ≡ s.excep_set.cnt i = omega (arith, c.2, d.2) in
      (
        in_,
        same_member less.read_set s.read_set i w.read_valid v.read_valid in_,
        out_,
        same_member less.write_set s.write_set i w.write_valid v.write_valid out_,
        pri_,
        same_member less.excep_set s.excep_set i w.excep_valid v.excep_valid pri_,
      )

  -- When the descriptors of a poll that are all valid are added to the sets of the event system
  -- and taken out again, every descriptor has the counts and is in the sets as before;
  -- descriptors may occur several times in the poll.
  pub pollset_del-pollset_add :
      (i : ℕ) → all_valid pds ≡ true → SameAt i (pollset_del pds (pollset_add pds s).1) s
  unfolding pollset_add
  pollset_del-pollset_add i good = rw good (del-add_loop i)
