-- ===== src/SleepQ/Sift.antt =====
-- The second loop of `heap_delete` in sched.c restores the heap order below a slot.
use state_thread.Base.{
  ℕ, ◌+◌, ◌*◌, ◌≤◌, ◌<◌, ◌≡◌, refl, inl, inr, true, false, arith, ltb, ◌==◌, one_if, ◌∷◌,
  Bool-cases, [],
}
use state_thread.SleepQ.{Tree, leaf, node, Placed, swap_index, sift}
use state_thread.SleepQ.Shape.{count, Shape, Indexed-frame, Above, IsHeap, Indexed}

-- The children of the root, whose own thread is out of the way.
abbrev Children : (ℕ → ℕ) → (ℕ → ℕ) → ℕ → ℕ → Tree → Type 0
Children due hi k d leaf = ⊥
Children due hi k d (node x l r) =
    (Above due d l × Above due d r)
    × (IsHeap due l × IsHeap due r)
    × Indexed hi (k * 2) l
    × Indexed hi (k * 2 + 1) r

-- How often a thread stands below the root.
abbrev below : ℕ → Tree → ℕ
below i leaf = 0
below i (node x l r) = count i l + count i r

module _ (due : ℕ → ℕ) (n e : ℕ) where
  pub record Sifted (k d : ℕ) (hi : ℕ → ℕ) (t : Tree) (r : Placed) : Type 0 where
    pub heap : IsHeap due r.0
    pub above : d ≤ due e → Above due d r.0
    pub shape : Shape k n r.0
    pub indexed : Indexed r.1 k r.0
    pub counts : (i : ℕ) → count i r.0 ≡ below i t + one_if (e == i)
    pub frame : (i : ℕ) → (e == i) ≡ false → below i t ≡ 0 → r.1 i ≡ hi i

  -- No child is due earlier: the loop ends.
  stay-Sifted :
      {k d x : ℕ} {hi : ℕ → ℕ} {l r : Tree}
      → Children due hi k d (node x l r)
      → Shape k n (node x l r)
      → hi e ≡ k
      → Above due (due e) l
      → Above due (due e) r
      → Sifted k d hi (node x l r) (node e l r, hi)
  stay-Sifted {k} {l} {r} c s at al ar = record {
    heap = (al, ar, c.1.0, c.1.1);
    above = λ h. h;
    shape = shape;
    indexed = (at, c.2, c.3);
    counts = λ i. omega arith;
    frame = λ i h g. refl;
  }
    where
      shape : Shape k n (node e l r)
      shape [] = s []
      shape (true ∷ p) = s (true ∷ p)
      shape (false ∷ p) = s (false ∷ p)

  -- The left child is due first: it moves up.
  module _ {k d x y : ℕ} (hi : ℕ → ℕ) {yl yr o : Tree}
      (c : Children due hi k d (node x (node y yl yr) o)) (s : Shape k n (node x (node y yl yr) o))
      (at : hi e ≡ k)
      (once : (i : ℕ) → below i (node x (node y yl yr) o) + one_if (e == i) ≤ 1) where
    left-Children : Children due (swap_index hi e y) (k * 2) (due y) (node y yl yr)
    left-Children = (
      (c.1.0.0, c.1.0.1),
      (c.1.0.2, c.1.0.3),
      Indexed-frame hi _ _ yl (λ i h. ground (arith, once i)) c.2.1,
      Indexed-frame hi _ _ yr (λ i h. ground (arith, once i)) c.2.2,
    )

    left-at : swap_index hi e y e ≡ k * 2
    left-at = ground (arith, once e, once y, c.2.0)

    left-Sifted :
        (r : Placed)
        → due y < due e
        → Above due (due y) o
        → Sifted (k * 2) (due y) (swap_index hi e y) (node y yl yr) r
        → Sifted k d hi (node x (node y yl yr) o) (node y r.0 o, r.1)
    left-Sifted r earlier other moved = record {
      heap = (moved.above (omega arith), other, moved.heap, c.1.1);
      above = λ h. c.0.0;
      shape = shape;
      indexed = (top, moved.indexed, rest);
      counts = λ i. omega (arith, moved.counts i);
      frame = λ i h g. ground (arith, moved.frame i);
    }
      where
        shape : Shape k n (node y r.0 o)
        shape [] = s []
        shape (false ∷ p) = moved.shape p
        shape (true ∷ p) = s (true ∷ p)

        top : r.1 y ≡ k
        top = ground (arith, moved.frame y, once y, at)

        rest : Indexed r.1 (k * 2 + 1) o
        rest = Indexed-frame hi _ _ o (λ i h. ground (arith, moved.frame i, once i)) c.3

  -- The right child is due first: it moves up.
  module _ {k d x y : ℕ} (hi : ℕ → ℕ) {yl yr o : Tree}
      (c : Children due hi k d (node x o (node y yl yr))) (s : Shape k n (node x o (node y yl yr)))
      (at : hi e ≡ k)
      (once : (i : ℕ) → below i (node x o (node y yl yr)) + one_if (e == i) ≤ 1) where
    right-Children : Children due (swap_index hi e y) (k * 2 + 1) (due y) (node y yl yr)
    right-Children = (
      (c.1.1.0, c.1.1.1),
      (c.1.1.2, c.1.1.3),
      Indexed-frame hi _ _ yl (λ i h. ground (arith, once i)) c.3.1,
      Indexed-frame hi _ _ yr (λ i h. ground (arith, once i)) c.3.2,
    )

    right-at : swap_index hi e y e ≡ k * 2 + 1
    right-at = ground (arith, once e, once y, c.3.0)

    right-Sifted :
        (r : Placed)
        → due y < due e
        → Above due (due y) o
        → Sifted (k * 2 + 1) (due y) (swap_index hi e y) (node y yl yr) r
        → Sifted k d hi (node x o (node y yl yr)) (node y o r.0, r.1)
    right-Sifted r earlier other moved = record {
      heap = (other, moved.above (omega arith), c.1.0, moved.heap);
      above = λ h. c.0.1;
      shape = shape;
      indexed = (top, rest, moved.indexed);
      counts = λ i. omega (arith, moved.counts i);
      frame = λ i h g. ground (arith, moved.frame i);
    }
      where
        shape : Shape k n (node y o r.0)
        shape [] = s []
        shape (true ∷ p) = moved.shape p
        shape (false ∷ p) = s (false ∷ p)

        top : r.1 y ≡ k
        top = ground (arith, moved.frame y, once y, at)

        rest : Indexed r.1 (k * 2) o
        rest = Indexed-frame hi _ _ o (λ i h. ground (arith, moved.frame i, once i)) c.2

  pub sift-Sifted :
      (t : Tree) (k d : ℕ) (hi : ℕ → ℕ)
      → Children due hi k d t
      → Shape k n t
      → hi e ≡ k
      → ((i : ℕ) → below i t + one_if (e == i) ≤ 1)
      → Sifted k d hi t (sift due e hi t)
  unfolding sift
  sift-Sifted leaf k d hi c s at once = absurd c
  sift-Sifted (node x leaf leaf) k d hi c s at once = stay-Sifted c s at tt tt
  sift-Sifted (node x leaf (node z zl zr)) k d hi c s at once =
      absurd (ground (arith, s (true ∷ []), s (false ∷ [])))
  sift-Sifted (node x (node y yl yr) leaf) k d hi c s at once =
      let moved =
        sift-Sifted (node y yl yr) (k * 2) (due y) (swap_index hi e y)
          (left-Children hi c s at once) (λ p. s (false ∷ p)) (left-at hi c s at once)
          (λ i. omega (arith, once i)) in
      elim (Bool-cases (ltb (due y) (due e))) [
        | inl down ↦ rw down (left-Sifted hi c s at once _ (ground arith) tt moved)
        | inr keep ↦ rw keep (stay-Sifted c s at (ground arith) tt)
      ]
  sift-Sifted (node x (node y yl yr) (node z zl zr)) k d hi c s at once =
      let left =
        sift-Sifted (node y yl yr) (k * 2) (due y) (swap_index hi e y)
          (left-Children hi c s at once) (λ p. s (false ∷ p)) (left-at hi c s at once)
          (λ i. omega (arith, once i)) in
      let right =
        sift-Sifted (node z zl zr) (k * 2 + 1) (due z) (swap_index hi e z)
          (right-Children hi c s at once) (λ p. s (true ∷ p)) (right-at hi c s at once)
          (λ i. omega (arith, once i)) in
      elim (Bool-cases (ltb (due y) (due z))) [
        | inl first ↦ elim (Bool-cases (ltb (due y) (due e))) [
          | inl down ↦
              rw (first, down) (left-Sifted hi c s at once _ (ground arith) (ground arith) left)
          | inr keep ↦ rw (first, keep) (stay-Sifted c s at (ground arith) (ground arith))
        ]
        | inr second ↦ elim (Bool-cases (ltb (due z) (due e))) [
          | inl down ↦
              rw (second, down) (right-Sifted hi c s at once _ (ground arith) (ground arith) right)
          | inr keep ↦ rw (second, keep) (stay-Sifted c s at (ground arith) (ground arith))
        ]
      ]
