-- ===== src/Kqueue/Registered.antt =====
-- The event system with kqueue of event.c at work.
use state_thread.Base.{
  ℕ, ◌+◌, ◌*◌, ◌≤◌, ◌^◌, refl, subst, length, Option, none, some, Bool, List, [], ◌∷◌, arith,
  Returns,
}
use state_thread.Kqueue.{
  Kqueue, Filter, Registry, Request, enters, drops, submits, request, requests, submitted,
}
use state_thread.Kqueue.Covered.{Holds, Small}
use state_thread.Kqueue.Room.{kq_pollset_add-Holds}
use state_thread.Kqueue.Deleting.{Counted, kq_pollset_del-Holds}

abbrev pub IsRegistry : Registry → Type 0
IsRegistry r = Holds r.known 0 r.kqueue

submits-Holds :
    (known : Filter → ℕ → Bool) (s : Kqueue)
    → Holds known 0 s
    → Holds (submitted s.addlist known) 0 (record s { addlist = [] })
submits-Holds known s h = record {
  covered = λ i. (ground (arith, (h.covered i).0), ground (arith, (h.covered i).1));
  room = omega arith;
  sizes = h.sizes;
}

-- A poll that is added has descriptors below `2 ^ 30`, and room for its changes is an int; one that is
-- taken out has been added before.
abbrev pub Fits : Request → Registry → Type 0
Fits (enters mem pds) r = Small pds × (length pds * 2 + length r.kqueue.addlist ≤ 2 ^ 30)
Fits (drops mem pds) r = (length pds * 2 ≤ 2 ^ 30) × Counted pds r.kqueue
Fits submits r = Unit {0}

-- Each request fits the state that the ones before it lead to.
abbrev pub AllFit : List Request → Option Registry → Type 0
AllFit [] r = Unit {0}
AllFit (q ∷ qs) none = Unit {0}
AllFit (q ∷ qs) (some r) = Fits q r × AllFit qs (request q r)

request-IsRegistry :
    (q : Request) (r : Registry) → Fits q r → IsRegistry r → Returns IsRegistry (request q r)
request-IsRegistry (enters mem pds) r fits h =
    let added = kq_pollset_add-Holds r.known mem pds r.kqueue fits.0 fits.1 h in
    rw added.returned (record { value = _; returned = refl; holds = added.holds })
request-IsRegistry (drops mem pds) r fits h =
    let gone = kq_pollset_del-Holds r.known mem pds r.kqueue fits.0 fits.1 h in
    rw gone.returned (record { value = _; returned = refl; holds = gone.holds })
request-IsRegistry submits r fits h = record {
  value = _;
  returned = refl;
  holds = submits-Holds r.known r.kqueue h;
}

-- From a state of the event system with kqueue in which no array is empty and each size an int,
-- no list overfull, and every filter that polls wait for is known to the kernel or in the list of
-- additions, every sequence of polls that are added or taken out and of dispatches without events
-- leads to such a state again, whatever memory there is: no assertion fails, no list is overrun,
-- no count goes below 0 and no size leaves the range of an int, also when additions are refused.
-- Polls that are added must have descriptors below 2 ^ 30, and the list of additions with two
-- changes for each of them at most 2 ^ 30 elements; polls that are taken out have at most 2 ^ 29
-- elements and must have been counted.
pub requests-IsRegistry :
    (qs : List Request) (r : Registry)
    → AllFit qs (some r)
    → IsRegistry r
    → Returns IsRegistry (requests qs r)
requests-IsRegistry [] r fit h = record { value = r; returned = refl; holds = h }
requests-IsRegistry (q ∷ qs) r fit h =
    let next = request-IsRegistry q r fit.0 h in
    rw next.returned
      (requests-IsRegistry qs next.value (subst (AllFit qs) next.returned fit.1) next.holds)
