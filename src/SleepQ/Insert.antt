-- ===== src/SleepQ/Insert.antt =====
-- The loop of `heap_insert` ends at the slot of its target, and keeps the heap.
use state_thread.Base.{
  ℕ, zero, suc, ◌+◌, ◌*◌, ◌/◌, ◌^◌, ◌≤◌, ◌<◌, ◌≡◌, refl, sym, inl, inr, Bool, true, false, Option,
  arith, ltb, if◌then◌else◌, one_if, ◌==◌, ◌⊎◌, ◌∷◌, Bool-cases, update, Returns, [],
}
use state_thread.SleepQ.{
  Tree, leaf, node, Placed, has_bit, child_index, with_child, insert_loop, SleepQ, rounds,
  heap_insert,
}
use state_thread.SleepQ.Places.{off_left, off_right, on_the_way, child_at, child_pos}
use state_thread.SleepQ.Loop.{
  Ready, IsPlaced, Elsewhere, Fills, IsPlaced-left, IsPlaced-right, Ready-side,
}

module _ {P Q : Placed → Type 0} (top : ℕ) (l r : Tree) {o : Option Placed}
    (done : Returns P o) where
  Returns-left :
      ((p : Placed) → P p → Q (node top p.0 r, p.1)) → Returns Q (with_child top false l r o)
  Returns-left next = record {
    value = (node top done.value.0 r, done.value.1);
    returned = rw done.returned;
    holds = next done.value done.holds;
  }

  Returns-right :
      ((p : Placed) → P p → Q (node top l p.0, p.1)) → Returns Q (with_child top true l r o)
  Returns-right next = record {
    value = (node top l done.value.0, done.value.1);
    returned = rw done.returned;
    holds = next done.value done.holds;
  }

module _ (due : ℕ → ℕ) (target n n' : ℕ) (removed : ℕ → ℕ)
    (fill : ℕ → (ℕ → ℕ) → Tree → Option Placed) (fills : Fills due target n n' removed fill)
    (elsewhere : Elsewhere due target n n' removed) (grows : n ≤ n') (near : target ≤ n + 1) where
  -- A round in which the thread `top` stays at the place `k` and `e'` goes on.
  abbrev Round : ℕ → ℕ → ℕ → (ℕ → ℕ) → Tree → Type 0
  Round bit k e hi t =
      k ≡ target / 2 ^ bit
      → Ready due target n n' removed k e hi t
      → Returns (IsPlaced due target n n' removed k e hi t)
          (insert_loop due target fill bit k e hi t)

  module _ (bit : ℕ) {k x e e' top : ℕ} {hi hi' : ℕ → ℕ} {l r : Tree}
      (ready : Ready due target n n' removed k e hi (node x l r)) (pos : 1 ≤ k) (inner : k ≤ n)
      (below : k < target) (at : child_index k (has_bit target bit) ≡ target / 2 ^ bit)
      (same : (i : ℕ) → one_if (top == i) + one_if (e' == i) ≡ one_if (x == i) + one_if (e == i))
      (le_hand : due top ≤ due e') (le_root : due top ≤ due x)
      (le_new : (due top ≡ due x) ⊎ (due top ≡ due e)) (numbered : hi' top ≡ k)
      (others : (i : ℕ) → (top == i) ≡ false → hi' i ≡ hi i) where
    round :
        (b : Bool)
        → has_bit target bit ≡ b
        → Round bit (child_index k b) e' hi' (if b then r else l)
        → Returns (IsPlaced due target n n' removed k e hi (node x l r)) (
            with_child top b l r
              (insert_loop due target fill bit (child_index k b) e' hi' (if b then r else l)))
    round true is rest =
        let at' : k * 2 + 1 ≡ target / 2 ^ bit = rw is at at in
        let off = off_left target k bit pos (sym at') in
        Returns-right top l r
          (rest at' (
            Ready-side due target n n' removed ready pos inner below same le_hand le_root le_new
              numbered others (k * 2 + 1) (k * 2) r l ready.heap.3 (λ p. ready.shape (true ∷ p))
              ready.indexed.2 ready.indexed.1 (λ i. omega arith) off))
          (λ p placed.
            IsPlaced-right due target n n' removed ready pos inner below same le_hand le_root le_new
              numbered others elsewhere grows p off placed)
    round false is rest =
        let at' : k * 2 ≡ target / 2 ^ bit = rw is at at in
        let off = off_right target k bit pos (sym at') in
        Returns-left top l r
          (rest at' (
            Ready-side due target n n' removed ready pos inner below same le_hand le_root le_new
              numbered others (k * 2) (k * 2 + 1) l r ready.heap.2 (λ p. ready.shape (false ∷ p))
              ready.indexed.1 ready.indexed.2 (λ i. omega arith) off))
          (λ p placed.
            IsPlaced-left due target n n' removed ready pos inner below same le_hand le_root le_new
              numbered others elsewhere grows p off placed)

  pub insert_loop-Returns :
      (bit k e : ℕ) (hi : ℕ → ℕ) (t : Tree)
      → 1 ≤ k
      → k ≡ target / 2 ^ bit
      → Ready due target n n' removed k e hi t
      → Returns
          (IsPlaced due target n n' removed k e hi t)
          (insert_loop due target fill bit k e hi t)
  unfolding insert_loop
  insert_loop-Returns zero k e hi t pos at ready =
      let same : k ≡ target = omega arith in rw same (fills e hi t (rw same at ready))
  insert_loop-Returns (suc bit) k e hi leaf pos at ready =
      absurd (ground (arith, on_the_way target k bit pos at, ready.shape []))
  insert_loop-Returns (suc bit) k e hi (node x l r) pos at ready =
      let b = has_bit target bit in
      let below = on_the_way target k bit pos at in
      let inner : k ≤ n = omega arith in
      elim (Bool-cases (ltb (due e) (due x))) [
        | inl swap ↦ rw swap (
            round bit {e' = x} {top = e} {hi' = update hi e k} ready pos inner below
              (child_at target k bit at) (λ i. omega arith) (ground arith) (ground arith) (inr refl)
              (ground arith) (λ i h. ground arith) b refl
              (insert_loop-Returns bit (child_index k b) x (update hi e k) (if b then r else l)
                (child_pos k b pos)))
        | inr stay ↦ rw stay (
            round bit {e' = e} {top = x} {hi' = hi} ready pos inner below (child_at target k bit at)
              (λ i. refl) (ground arith) (ground arith) (inl refl) ready.indexed.0 (λ i h. refl) b
              refl
              (insert_loop-Returns bit (child_index k b) e hi (if b then r else l)
                (child_pos k b pos)))
      ]

-- From the loop to the queue.
pub heap_insert-Returns :
    (fill : ℕ → (ℕ → ℕ) → Tree → Option Placed) (q : SleepQ) (thread target : ℕ)
    (P : Placed → Type 0) (Q : SleepQ → Type 0)
    → q.heap_index thread ≡ target
    → Returns P (insert_loop q.due target fill (rounds target) 1 thread q.heap_index q.sleep_q)
    → ((p : Placed) → P p → Q (record q { sleep_q = p.0; heap_index = p.1 }))
    → Returns Q (heap_insert fill q thread)
unfolding heap_insert
heap_insert-Returns fill q thread target P Q at done next = rw at (record {
  value = record q { sleep_q = done.value.0; heap_index = done.value.1 };
  returned = rw done.returned;
  holds = next done.value done.holds;
})
