-- ===== src/Ioq/Gather.antt =====
-- What the polls on the queue of event.c ask for, and that the event system has it.
use state_thread.Base.{
  ℕ, ◌+◌, ◌≡◌, ◌≢◌, refl, ap, Bool, List, [], ◌∷◌, ◌++◌, ◌==◌, remove, arith, length, occurs,
  Bool-cases, inl, inr, ==→≡,
}
use state_thread.Select.{Pollfd, Select}
use state_thread.Select.Counts.{asks, IsSelect}
use state_thread.Epoll.Counts.{Kind, reading, writing, excepting, cnt, event}
use state_thread.Ioq.{Pollq, IoState, Eventsys, select_system, poll_system, epoll_system}

-- The descriptors of all polls of a queue.
unfoldable pub gather : List ℕ → (ℕ → Pollq) → List Pollfd
gather [] f = []
gather (t ∷ q) f = (f t).pds ++ gather q f

-- A number that a list of descriptors has for each of them.
module _ (m : List Pollfd → ℕ) (m-append : (xs ys : List Pollfd) → m (xs ++ ys) ≡ m xs + m ys) where
  pub gather-same :
      (f g : ℕ → Pollq) (q : List ℕ)
      → ((u : ℕ) → occurs u q ≢ 0 → m (f u).pds ≡ m (g u).pds)
      → m (gather q f) ≡ m (gather q g)
  unfolding gather
  gather-same f g [] h = refl
  gather-same f g (t ∷ q) h = omega (
    arith,
    m-append (f t).pds (gather q f),
    m-append (g t).pds (gather q g),
    h t (ground arith),
    gather-same f g q (λ u c. h u (ground arith)),
  )

  pub gather-append :
      (f : ℕ → Pollq) (q : List ℕ) (t : ℕ)
      → m (gather (q ++ t ∷ []) f) ≡ m (gather q f) + m (f t).pds
  unfolding gather
  gather-append f [] t = omega (arith, m-append (f t).pds [])
  gather-append f (u ∷ q) t = omega (
    arith,
    m-append (f u).pds (gather (q ++ t ∷ []) f),
    m-append (f u).pds (gather q f),
    gather-append f q t,
  )

  pub gather-remove :
      (f : ℕ → Pollq) (q : List ℕ) (t : ℕ)
      → occurs t q ≢ 0
      → m (gather (remove t q) f) + m (f t).pds ≡ m (gather q f)
  unfolding gather
  gather-remove f [] t h = absurd (h refl)
  gather-remove f (u ∷ q) t h = elim (Bool-cases (u == t)) [
    | inl same ↦ rw same (
        omega (arith, m-append (f u).pds (gather q f), ap (λ (i : ℕ). m (f i).pds) (==→≡ u t same)))
    | inr apart ↦ rw apart (
        omega (
          arith,
          m-append (f u).pds (gather q f),
          m-append (f u).pds (gather (remove t q) f),
          gather-remove f q t (ground (arith, h, apart)),
        ))
  ]

-- Two lists of descriptors of which the event systems do the same.
pub record Alike (pds pds' : List Pollfd) : Type 0 where
  pub size : length pds' ≡ length pds
  pub in_ : (i : ℕ) → asks (λ pd. pd.pollin) i pds' ≡ asks (λ pd. pd.pollin) i pds
  pub out_ : (i : ℕ) → asks (λ pd. pd.pollout) i pds' ≡ asks (λ pd. pd.pollout) i pds
  pub pri_ : (i : ℕ) → asks (λ pd. pd.pollpri) i pds' ≡ asks (λ pd. pd.pollpri) i pds

pub Alike-event :
    {pds pds' : List Pollfd}
    → Alike pds pds'
    → (k : Kind) (i : ℕ) → asks (event k) i pds' ≡ asks (event k) i pds
Alike-event alike reading i = alike.in_ i
Alike-event alike writing i = alike.out_ i
Alike-event alike excepting i = alike.pri_ i

pub Alike-self : (pds : List Pollfd) → Alike pds pds
Alike-self pds = record { size = refl; in_ = λ i. refl; out_ = λ i. refl; pri_ = λ i. refl }

-- The event system has what some polls ask for, and no more.
pub record Exactly (pds : List Pollfd) (s : Select) : Type 0 where
  pub valid : IsSelect s
  pub in_ : (i : ℕ) → s.read_set.cnt i ≡ asks (λ pd. pd.pollin) i pds
  pub out_ : (i : ℕ) → s.write_set.cnt i ≡ asks (λ pd. pd.pollout) i pds
  pub pri_ : (i : ℕ) → s.excep_set.cnt i ≡ asks (λ pd. pd.pollpri) i pds

abbrev pub ServesBy : Eventsys → IoState → Type 0
ServesBy select_system io = Exactly (gather io.io_q io.pollqs) io.select
ServesBy epoll_system io =
    (k : Kind) (i : ℕ) → cnt k io.epoll i ≡ asks (event k) i (gather io.io_q io.pollqs)
ServesBy poll_system io = io.poll_data.fdcnt ≡ length (gather io.io_q io.pollqs)

abbrev pub Serves : IoState → Type 0
Serves io = ServesBy io.eventsys io

pub length-append : (xs ys : List Pollfd) → length (xs ++ ys) ≡ length xs + length ys
length-append [] ys = omega arith
length-append (x ∷ xs) ys = omega (arith, length-append xs ys)

pub asks-append :
    (event : Pollfd → Bool) (i : ℕ) (xs ys : List Pollfd)
    → asks event i (xs ++ ys) ≡ asks event i xs + asks event i ys
asks-append event i [] ys = omega arith
asks-append event i (x ∷ xs) ys = omega (arith, asks-append event i xs ys)
