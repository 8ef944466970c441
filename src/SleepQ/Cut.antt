-- ===== src/SleepQ/Cut.antt =====
-- `heap_delete` of sched.c unlinks the last element first.
use state_thread.Base.{
  ℕ, zero, suc, ◌+◌, ◌-◌, ◌*◌, ◌/◌, ◌^◌, ◌≤◌, ◌<◌, ◌≡◌, ◌≢◌, refl, sym, ◌∙◌, inl, inr, Bool, true,
  false, Option, List, arith, ◌==◌, one_if, ◌∷◌, Bool-cases, Returns, [],
}
use state_thread.SleepQ.{Tree, leaf, node, has_bit, cut_child, cut_last}
use state_thread.SleepQ.Shape.{count, Shape, index, le-index, Above, IsHeap, Indexed, Shape-leaf}
use state_thread.SleepQ.Places.{off_left, off_right, on_the_way, child_at}

-- What is left of a subtree at the place `k`, and the thread that was at the place `n`.
pub record Cut (due hi : ℕ → ℕ) (n k : ℕ) (t : Tree) (r : ℕ × Tree) : Type 0 where
  pub last : hi r.0 ≡ n
  pub heap : IsHeap due r.1
  pub above : (d : ℕ) → Above due d t → Above due d r.1
  pub shape : Shape k (n - 1) r.1
  pub indexed : Indexed hi k r.1
  pub counts : (i : ℕ) → count i r.1 + one_if (r.0 == i) ≡ count i t

module _ (due hi : ℕ → ℕ) (n : ℕ) where
  -- A place that is not on the way to the last one stays as it is.
  Shape-off :
      (k : ℕ) (t : Tree) → Shape k n t → ((p : List Bool) → index k p ≢ n) → Shape k (n - 1) t
  Shape-off k t s off p = s p ∙ ground (arith, off p)

  module _ {k x : ℕ} {l r : Tree} (pos : 1 ≤ k) (inner : k < n) (h : IsHeap due (node x l r))
      (s : Shape k n (node x l r)) (ix : Indexed hi k (node x l r)) where
    Cut-left :
        {o : Option (ℕ × Tree)}
        → ((p : List Bool) → index (k * 2 + 1) p ≢ n)
        → Returns (Cut due hi n (k * 2) l) o
        → Returns (Cut due hi n k (node x l r)) (cut_child x false l r o)
    Cut-left off done = record {
      value = (done.value.0, node x done.value.1 r);
      returned = rw done.returned;
      holds = record {
        last = cut.last;
        heap = (cut.above (due x) h.0, h.1, cut.heap, h.3);
        above = λ d g. g;
        shape = shape;
        indexed = (ix.0, cut.indexed, ix.2);
        counts = λ i. omega (arith, cut.counts i);
      };
    }
      where
        cut : Cut due hi n (k * 2) l done.value
        cut = done.holds

        shape : Shape k (n - 1) (node x done.value.1 r)
        shape [] = ground arith
        shape (false ∷ p) = cut.shape p
        shape (true ∷ p) = Shape-off (k * 2 + 1) r (λ q. s (true ∷ q)) off p

    Cut-right :
        {o : Option (ℕ × Tree)}
        → ((p : List Bool) → index (k * 2) p ≢ n)
        → Returns (Cut due hi n (k * 2 + 1) r) o
        → Returns (Cut due hi n k (node x l r)) (cut_child x true l r o)
    Cut-right off done = record {
      value = (done.value.0, node x l done.value.1);
      returned = rw done.returned;
      holds = record {
        last = cut.last;
        heap = (h.0, cut.above (due x) h.1, h.2, cut.heap);
        above = λ d g. g;
        shape = shape;
        indexed = (ix.0, ix.1, cut.indexed);
        counts = λ i. omega (arith, cut.counts i);
      };
    }
      where
        cut : Cut due hi n (k * 2 + 1) r done.value
        cut = done.holds

        shape : Shape k (n - 1) (node x l done.value.1)
        shape [] = ground arith
        shape (true ∷ p) = cut.shape p
        shape (false ∷ p) = Shape-off (k * 2) l (λ q. s (false ∷ q)) off p

  -- The last place has no children.
  Cut-here :
      (x : ℕ) (l r : Tree)
      → 1 ≤ n
      → Shape n n (node x l r)
      → Indexed hi n (node x l r)
      → Cut due hi n n (node x l r) (x, leaf)
  Cut-here x l r pos s ix =
      let el = Shape-leaf (n * 2) n l (λ p. s (false ∷ p)) (omega arith) in
      let er = Shape-leaf (n * 2 + 1) n r (λ p. s (true ∷ p)) (omega arith) in
      record {
        last = ix.0;
        heap = tt;
        above = λ d g. tt;
        shape = λ p. ground (arith, le-index n p);
        indexed = tt;
        counts = λ i. rw (el, er) (omega arith);
      }

  pub cut_last-Cut :
      (bit k : ℕ) (t : Tree)
      → 1 ≤ k
      → k ≡ n / 2 ^ bit
      → IsHeap due t
      → Shape k n t
      → Indexed hi k t
      → Returns (Cut due hi n k t) (cut_last n bit t)
  unfolding cut_last
  cut_last-Cut zero k leaf pos at h s ix = absurd (ground (arith, s []))
  cut_last-Cut (suc bit) k leaf pos at h s ix =
      absurd (ground (arith, s [], on_the_way n k bit pos at))
  cut_last-Cut zero k (node x l r) pos at h s ix =
      let same : k ≡ n = omega arith in
      rw same (record {
        value = (x, leaf);
        returned = refl;
        holds = Cut-here x l r (omega arith) (rw same at s) (rw same at ix);
      })
  cut_last-Cut (suc bit) k (node x l r) pos at h s ix =
      let below = on_the_way n k bit pos at in
      let next = child_at n k bit at in
      elim (Bool-cases (has_bit n bit)) [
        | inl right ↦
            let at' : k * 2 + 1 ≡ n / 2 ^ bit = rw right at next in
            rw right (
              Cut-right pos below h s ix (off_left n k bit pos (sym at'))
                (cut_last-Cut bit (k * 2 + 1) r (omega arith) at' h.3 (λ p. s (true ∷ p)) ix.2))
        | inr left ↦
            let at' : k * 2 ≡ n / 2 ^ bit = rw left at next in
            rw left (
              Cut-left pos below h s ix (off_right n k bit pos (sym at'))
                (cut_last-Cut bit (k * 2) l (omega arith) at' h.2 (λ p. s (false ∷ p)) ix.1))
      ]
