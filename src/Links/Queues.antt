-- ===== src/Links/Queues.antt =====
-- The macros of common.h for circular lists do what the operations on lists do that stand for them in
-- the models of the queues.
use state_thread.Base.{ℕ, ◌≡◌, ◌≢◌, List, [], ◌∷◌, ◌++◌, remove, occurs}
use state_thread.Links.{
  Links, Change, appends, inserts, removes, change, changes, clist_is_empty, init_clist,
}
use state_thread.Links.Chains.{Ring, is_nil, clist_is_empty-Ring, init_clist-Ring}
use state_thread.Links.Insertion.{insert_before-Ring, insert_after-Ring}
use state_thread.Links.Removal.{remove_link-Ring}

abbrev pub listed : Change → List ℕ → List ℕ
listed (appends e) xs = xs ++ e ∷ []
listed (inserts e) xs = e ∷ xs
listed (removes e) xs = remove e xs

abbrev pub all_listed : List Change → List ℕ → List ℕ
all_listed [] xs = xs
all_listed (c ∷ cs) xs = all_listed cs (listed c xs)

-- Only what is not in the queue is put into it, and only what is in it is taken out.
abbrev pub Allowed : (head : ℕ) → Change → List ℕ → Type 0
Allowed h (appends e) xs = occurs e (h ∷ xs) ≡ 0
Allowed h (inserts e) xs = occurs e (h ∷ xs) ≡ 0
Allowed h (removes e) xs = occurs e xs ≢ 0

abbrev pub AllAllowed : (head : ℕ) → List Change → List ℕ → Type 0
AllAllowed h [] xs = Unit {0}
AllAllowed h (c ∷ cs) xs = Allowed h c xs × AllAllowed h cs (listed c xs)

change-Ring :
    (h : ℕ) (c : Change) (xs : List ℕ) (s : Links)
    → Ring s h xs
    → Allowed h c xs
    → Ring (change h c s) h (listed c xs)
change-Ring h (appends e) xs s ring a = insert_before-Ring e h xs s ring a
change-Ring h (inserts e) xs s ring a = insert_after-Ring e h xs s ring a
change-Ring h (removes e) xs s ring a = remove_link-Ring e h xs s ring a

changes-Ring :
    (h : ℕ) (cs : List Change) (xs : List ℕ) (s : Links)
    → Ring s h xs
    → AllAllowed h cs xs
    → Ring (changes h cs s) h (all_listed cs xs)
changes-Ring h [] xs s ring a = ring
changes-Ring h (c ∷ cs) xs s ring a =
    changes-Ring h cs (listed c xs) (change h c s) (change-Ring h c xs s ring a.0) a.1

-- After a circular list was initialised, any elements were appended to it or inserted at its head
-- while they were not in it, and taken out while they were, the links go around in both
-- directions through exactly the elements of the list that the same operations on lists give, in
-- its order, and the test for an empty list says whether that list is empty.
pub changes-init_clist :
    (h : ℕ) (cs : List Change) (s : Links)
    → AllAllowed h cs []
    → Ring (changes h cs (init_clist h s)) h (all_listed cs [])
      × (clist_is_empty h (changes h cs (init_clist h s)) ≡ is_nil (all_listed cs []))
changes-init_clist h cs s a =
    let ring = changes-Ring h cs [] (init_clist h s) (init_clist-Ring h s) a in
    (ring, clist_is_empty-Ring h (all_listed cs []) _ ring)
