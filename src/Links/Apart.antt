-- ===== src/Links/Apart.antt =====
-- The macros of common.h for circular lists leave other lists alone.
use state_thread.Base.{ℕ, ◌≡◌, ◌≢◌, List, ◌∷◌, occurs, arith}
use state_thread.Links.{
  Links, Change, appends, inserts, removes, change, insert_before, insert_after, remove_link,
}
use state_thread.Links.Chains.{
  Ring, Chain-same, apart_from, prev_there, next_there, head_next, head_prev,
}
use state_thread.Links.Insertion.{Inserted, appended-Inserted, headed-Inserted}
use state_thread.Links.Removal.{removed-Unlinked}
use state_thread.Links.Queues.{Allowed}

abbrev pub element : Change → ℕ
element (appends e) = e
element (inserts e) = e
element (removes e) = e

-- No element is in both lists.
abbrev pub Disjoint : List ℕ → List ℕ → Type 0
Disjoint xs ys = (t : ℕ) → occurs t xs ≢ 0 → occurs t ys ≡ 0

same-Ring :
    (s s' : Links) (g : ℕ) (ys : List ℕ)
    → ((t : ℕ) → occurs t (g ∷ ys) ≢ 0 → s'.next t ≡ s.next t)
    → ((t : ℕ) → occurs t (g ∷ ys) ≢ 0 → s'.prev t ≡ s.prev t)
    → Ring s g ys
    → Ring s' g ys
same-Ring s s' g ys forth back ring = record {
  chain = Chain-same s s' g ys g forth back ring.chain;
  once = ring.once;
}

Inserted-other :
    (e p l : ℕ) (s s' : Links) (g : ℕ) (ys : List ℕ)
    → Inserted e p l s s'
    → occurs e (g ∷ ys) ≡ 0
    → occurs p (g ∷ ys) ≡ 0
    → occurs l (g ∷ ys) ≡ 0
    → Ring s g ys
    → Ring s' g ys
Inserted-other e p l s s' g ys ins off before behind =
    same-Ring s s' g ys
      (λ t h. ins.forth t (apart_from t e (g ∷ ys) h off) (apart_from t p (g ∷ ys) h before))
      (λ t h. ins.back t (apart_from t e (g ∷ ys) h off) (apart_from t l (g ∷ ys) h behind))

module _ (h : ℕ) (xs : List ℕ) (g : ℕ) (ys : List ℕ) (s : Links) (ring : Ring s h xs)
    (other : Ring s g ys) (disjoint : Disjoint (h ∷ xs) (g ∷ ys)) where
  -- A change of one circular list, allowed for it and of an element that is not in another list
  -- which has no element in common with it, leaves that other list as it is.
  pub change-Disjoint :
      (c : Change) → Allowed h c xs → occurs (element c) (g ∷ ys) ≡ 0 → Ring (change h c s) g ys
  change-Disjoint (appends e) a off =
      Inserted-other e (s.prev h) h s (insert_before e h s) g ys (appended-Inserted e h xs s ring a)
        off (disjoint (s.prev h) (head_prev s h xs ring)) (disjoint h (ground arith)) other
  change-Disjoint (inserts e) a off =
      Inserted-other e h (s.next h) s (insert_after e h s) g ys (headed-Inserted e h xs s ring a)
        off (disjoint h (ground arith)) (disjoint (s.next h) (head_next s h xs ring)) other
  change-Disjoint (removes e) a off =
      let un = removed-Unlinked e h xs s ring a in
      same-Ring s (remove_link e s) g ys
        (λ t i. un.forth t (
          apart_from t (s.prev e) (g ∷ ys) i
            (disjoint (s.prev e) (prev_there s e h xs h ring.chain a))))
        (λ t i. un.back t (
          apart_from t (s.next e) (g ∷ ys) i
            (disjoint (s.next e) (next_there s e h xs h ring.chain a))))
        other
