-- ===== src/Examples/Queues.antt =====
-- Circular lists of common.h.
use state_thread.Base.{ℕ, ◌≡◌, ◌≢◌, refl, List, [], ◌∷◌, occurs, arith}
use state_thread.Links.{
  Links, Change, appends, inserts, removes, change, changes, clist_is_empty, init_clist,
}
use state_thread.Links.Chains.{Ring, is_nil}
use state_thread.Links.Queues.{changes-init_clist}
use state_thread.Links.Apart.{change-Disjoint, Disjoint}

abbrev links : Links
links = record { next = λ p. 0; prev = λ p. 0 }

-- Threads 3 and 5 are appended to the queue with head 1, 4 is put before them, and 3 is taken out.
abbrev steps : List Change
steps = appends 3 ∷ appends 5 ∷ inserts 4 ∷ removes 3 ∷ []

in_queue : occurs 3 (4 ∷ 3 ∷ 5 ∷ []) ≢ 0
in_queue = ground arith

changes-init_clist_example :
    Ring (changes 1 steps (init_clist 1 links)) 1 (4 ∷ 5 ∷ [])
    × (clist_is_empty 1 (changes 1 steps (init_clist 1 links)) ≡ is_nil (4 ∷ 5 ∷ []))
changes-init_clist_example = changes-init_clist 1 steps links (refl, (refl, (refl, (in_queue, tt))))

-- Every element is the head of an empty list.
abbrev empties : Links
empties = record { next = λ p. p; prev = λ p. p }

empties-Ring : (h : ℕ) → Ring empties h []
empties-Ring h = record { chain = (refl, refl); once = λ t. ground arith }

empties-Disjoint : Disjoint (1 ∷ []) (2 ∷ [])
empties-Disjoint t h = ground (arith, h)

change-Disjoint_example : Ring (change 1 (appends 3) empties) 2 []
change-Disjoint_example =
    change-Disjoint 1 [] 2 [] empties (empties-Ring 1) (empties-Ring 2) empties-Disjoint (appends 3)
      refl refl
