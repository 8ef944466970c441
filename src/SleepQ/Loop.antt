-- ===== src/SleepQ/Loop.antt =====
-- `heap_insert` of sched.c: the loop keeps what docs/timeout_heap.txt says of the tree, whatever is
-- done at the slot that it leads to.
use state_thread.Base.{
  ℕ, ◌+◌, ◌*◌, ◌≤◌, ◌<◌, ◌≡◌, ◌≢◌, ◌⊎◌, inl, inr, Bool, true, false, Option, List, [], ◌∷◌, arith,
  ◌==◌, one_if, Bool-cases, update, Returns,
}
use state_thread.SleepQ.{Tree, node, Placed}
use state_thread.SleepQ.Shape.{
  count, index, Shape, Indexed, Above, IsHeap, Above-mono, Indexed-frame, Indexed-index,
}

module _ (due : ℕ → ℕ) (target n n' : ℕ) (removed : ℕ → ℕ) where
  -- The subtree at the place `k`, with a thread `e` in hand. `removed` counts what the step at the
  -- slot takes out of the tree.
  pub record Ready (k e : ℕ) (hi : ℕ → ℕ) (t : Tree) : Type 0 where
    pub heap : IsHeap due t
    pub shape : Shape k n t
    pub indexed : Indexed hi k t
    pub distinct : (i : ℕ) → count i t + one_if (e == i) ≤ 1
    pub holds_removed : (i : ℕ) → removed i ≤ count i t
    pub removed_place : (i : ℕ) → (removed i ≡ 0) ⊎ (hi i ≡ target)

  -- The subtree afterwards: `e` is in it, and each thread knows its new place.
  pub record IsPlaced (k e : ℕ) (hi : ℕ → ℕ) (t : Tree) (r : Placed) : Type 0 where
    pub heap : IsHeap due r.0
    pub above : (d : ℕ) → d ≤ due e → Above due d t → Above due d r.0
    pub shape : Shape k n' r.0
    pub indexed : Indexed r.1 k r.0
    pub counts : (i : ℕ) → count i r.0 + removed i ≡ count i t + one_if (e == i)
    pub frame : (i : ℕ) → (e == i) ≡ false → count i t ≡ 0 → r.1 i ≡ hi i

  -- Places that are not on the way to the target look the same after the operation.
  abbrev pub Elsewhere : Type 0
  Elsewhere =
      (k : ℕ) (t : Tree) → Shape k n t → ((p : List Bool) → index k p ≢ target) → Shape k n' t

  abbrev pub Fills : (ℕ → (ℕ → ℕ) → Tree → Option Placed) → Type 0
  Fills fill =
      (e : ℕ) (hi : ℕ → ℕ) (t : Tree)
      → Ready target e hi t
      → Returns (IsPlaced target e hi t) (fill e (update hi e target) t)

  -- One round: `top` stays at the place `k`, and `e` goes on.
  module _ {k x e e' top : ℕ} {hi hi' : ℕ → ℕ} {l r : Tree} (ready : Ready k e hi (node x l r))
      (pos : 1 ≤ k) (inner : k ≤ n) (below : k < target)
      (same : (i : ℕ) → one_if (top == i) + one_if (e' == i) ≡ one_if (x == i) + one_if (e == i))
      (le_hand : due top ≤ due e') (le_root : due top ≤ due x)
      (le_new : (due top ≡ due x) ⊎ (due top ≡ due e)) (numbered : hi' top ≡ k)
      (others : (i : ℕ) → (top == i) ≡ false → hi' i ≡ hi i) where
    -- The way goes on to the side `s`; `o` is the other side.
    pub Ready-side :
        (ks ko : ℕ) (s o : Tree)
        → IsHeap due s
        → Shape ks n s
        → Indexed hi ks s
        → Indexed hi ko o
        → ((i : ℕ) → count i s + count i o ≡ count i l + count i r)
        → ((p : List Bool) → index ko p ≢ target)
        → Ready ks e' hi' s
    Ready-side ks ko s o heap shape in_s in_o split off = record {
      heap = heap;
      shape = shape;
      indexed =
          Indexed-frame hi hi' ks s
            (λ i c. ground (arith, others i, same i, split i, ready.distinct i)) in_s;
      distinct = λ i. ground (arith, same i, split i, ready.distinct i);
      holds_removed = held;
      removed_place = λ i. ground (
        arith,
        ready.removed_place i,
        ready.holds_removed i,
        ready.distinct i,
        same i,
        others i,
        ready.indexed.0,
      );
    }
      where
        held : (i : ℕ) → removed i ≤ count i s
        held i = elim (Bool-cases (count i o == 0)) [
          | inl none_there ↦
              ground (arith, ready.removed_place i, ready.holds_removed i, split i, ready.indexed.0)
          | inr there ↦
              let (p, at) = Indexed-index hi i ko o in_o (ground arith) in
              ground (
                arith,
                ready.removed_place i,
                ready.holds_removed i,
                ready.distinct i,
                split i,
                off p,
                at,
              )
        ]

    top_le : {d : ℕ} → d ≤ due e → d ≤ due x → d ≤ due top
    top_le h g = omega arith

    module _ (elsewhere : Elsewhere) (grows : n ≤ n') (r' : Placed) where
      pub IsPlaced-left :
          ((p : List Bool) → index (k * 2 + 1) p ≢ target)
          → IsPlaced (k * 2) e' hi' l r'
          → IsPlaced k e hi (node x l r) (node top r'.0 r, r'.1)
      IsPlaced-left off placed = record {
        heap = (
          placed.above (due top) le_hand (Above-mono due l le_root ready.heap.0),
          Above-mono due r le_root ready.heap.1,
          placed.heap,
          ready.heap.3,
        );
        above = λ d h g. top_le h g;
        shape = shape;
        indexed = (top_there, placed.indexed, other_there);
        counts = λ i. omega (arith, placed.counts i, same i);
        frame = λ i h c. ground (arith, placed.frame i, others i, same i);
      }
        where
          shape : Shape k n' (node top r'.0 r)
          shape [] = ground arith
          shape (false ∷ p) = placed.shape p
          shape (true ∷ p) = elsewhere (k * 2 + 1) r (λ q. ready.shape (true ∷ q)) off p

          top_there : r'.1 top ≡ k
          top_there = ground (
            arith,
            placed.frame top,
            same top,
            ready.distinct top,
            ready.distinct x,
            ready.distinct e,
          )

          other_there : Indexed r'.1 (k * 2 + 1) r
          other_there =
              Indexed-frame hi r'.1 (k * 2 + 1) r
                (λ i c. ground (arith, placed.frame i, others i, same i, ready.distinct i))
                ready.indexed.2

      pub IsPlaced-right :
          ((p : List Bool) → index (k * 2) p ≢ target)
          → IsPlaced (k * 2 + 1) e' hi' r r'
          → IsPlaced k e hi (node x l r) (node top l r'.0, r'.1)
      IsPlaced-right off placed = record {
        heap = (
          Above-mono due l le_root ready.heap.0,
          placed.above (due top) le_hand (Above-mono due r le_root ready.heap.1),
          ready.heap.2,
          placed.heap,
        );
        above = λ d h g. top_le h g;
        shape = shape;
        indexed = (top_there, other_there, placed.indexed);
        counts = λ i. omega (arith, placed.counts i, same i);
        frame = λ i h c. ground (arith, placed.frame i, others i, same i);
      }
        where
          shape : Shape k n' (node top l r'.0)
          shape [] = ground arith
          shape (true ∷ p) = placed.shape p
          shape (false ∷ p) = elsewhere (k * 2) l (λ q. ready.shape (false ∷ q)) off p

          top_there : r'.1 top ≡ k
          top_there = ground (
            arith,
            placed.frame top,
            same top,
            ready.distinct top,
            ready.distinct x,
            ready.distinct e,
          )

          other_there : Indexed r'.1 (k * 2) l
          other_there =
              Indexed-frame hi r'.1 (k * 2) l
                (λ i c. ground (arith, placed.frame i, others i, same i, ready.distinct i))
                ready.indexed.1
