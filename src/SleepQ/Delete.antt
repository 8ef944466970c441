-- ===== src/SleepQ/Delete.antt =====
-- `heap_delete` of sched.c takes a thread out of the timeout heap.
use state_thread.Base.{
  ℕ, ◌+◌, ◌-◌, ◌*◌, ◌≤◌, ◌<◌, ◌≡◌, ◌≢◌, refl, ap, inl, inr, false, some, arith, ◌==◌, one_if,
  Bool-cases, update, Returns,
}
use state_thread.SleepQ.{
  Tree, leaf, node, SleepQ, rounds, refill, replace, after_cut, heap_delete, heap_insert,
  insert_loop, sift,
}
use state_thread.SleepQ.Shape.{
  count, le-index, IsSleepQ, Indexed-frame, Indexed-index, Indexed-le, Indexed, Above-mono,
}
use state_thread.SleepQ.Places.{rounds_lem}
use state_thread.SleepQ.Loop.{Ready, IsPlaced, Fills}
use state_thread.SleepQ.Insert.{insert_loop-Returns, heap_insert-Returns}
use state_thread.SleepQ.Sift.{Sifted, sift-Sifted}
use state_thread.SleepQ.Cut.{Cut, cut_last-Cut}

module _ (due : ℕ → ℕ) (target n thread : ℕ) where
  -- What the slot loses.
  abbrev lost : ℕ → ℕ
  lost i = one_if (thread == i)

  refill-root :
      (e x : ℕ) (hi : ℕ → ℕ) (l r : Tree)
      → Ready due target n n lost target e hi (node x l r)
      → 1 ≤ target
      → x ≡ thread
  refill-root e x hi l r ready pos = elim (Bool-cases (x == thread)) [
    | inl root ↦ ground arith
    | inr off ↦ absurd (deeper off)
  ]
    where
      there : (t : Tree) (k : ℕ) → target < k → Indexed hi k t → count thread t ≡ 0
      there t k h ix = elim (Bool-cases (count thread t == 0)) [
        | inl gone ↦ ground arith
        | inr held ↦
            let (p, at) = Indexed-index hi thread k t ix (ground arith) in
            absurd (ground (arith, ready.removed_place thread, le-index k p))
      ]

      deeper : (x == thread) ≡ false → ⊥
      deeper off = ground (
        arith,
        ready.holds_removed thread,
        there l (target * 2) (omega arith) ready.indexed.1,
        there r (target * 2 + 1) (omega arith) ready.indexed.2,
      )

  refill-Placed :
      (e x : ℕ) (hi : ℕ → ℕ) (l r : Tree)
      → Ready due target n n lost target e hi (node x l r)
      → x ≡ thread
      → IsPlaced due target n n lost target e hi
          (node x l r)
          (sift due e (update hi e target) (node x l r))
  refill-Placed e x hi l r ready root = record {
    heap = (sifted 0 (omega arith)).heap;
    above = λ d h a. (sifted d a).above h;
    shape = (sifted 0 (omega arith)).shape;
    indexed = (sifted 0 (omega arith)).indexed;
    counts =
        λ i. omega (arith, (sifted 0 (omega arith)).counts i, ap (λ (j : ℕ). one_if (j == i)) root);
    frame = λ i h c. ground (arith, (sifted 0 (omega arith)).frame i);
  }
    where
      hi' : ℕ → ℕ
      hi' = update hi e target

      sifted :
          (d : ℕ)
          → d ≤ due x
          → Sifted due n e target d hi' (node x l r) (sift due e hi' (node x l r))
      sifted d h =
          sift-Sifted due n e (node x l r) target d hi'
            (
              (Above-mono due l h ready.heap.0, Above-mono due r h ready.heap.1),
              (ready.heap.2, ready.heap.3),
              Indexed-frame hi _ _ l (λ i c. ground (arith, ready.distinct i)) ready.indexed.1,
              Indexed-frame hi _ _ r (λ i c. ground (arith, ready.distinct i)) ready.indexed.2,
            )
            ready.shape (ground arith) (λ i. omega (arith, ready.distinct i))

  refill-Fills : 1 ≤ target → Fills due target n n lost (refill due thread)
  unfolding refill
  refill-Fills pos e hi leaf ready = absurd (ground (arith, ready.holds_removed thread))
  refill-Fills pos e hi (node x l r) ready =
      let root = refill-root e x hi l r ready pos in
      record {
        value = sift due e (update hi e target) (node x l r);
        returned = ground (arith, root);
        holds = refill-Placed e x hi l r ready root;
      }

-- The queue afterwards holds one thread less.
pub record Deleted (q : SleepQ) (thread : ℕ) (q' : SleepQ) : Type 0 where
  pub valid : IsSleepQ q'
  pub size : q'.sleepq_size + 1 ≡ q.sleepq_size
  pub due : q'.due ≡ q.due
  pub counts : (i : ℕ) → count i q'.sleep_q + one_if (thread == i) ≡ count i q.sleep_q

module _ (q : SleepQ) (thread : ℕ) (valid : IsSleepQ q) (held : count thread q.sleep_q ≢ 0) where
  target_bounds : (1 ≤ q.heap_index thread) × (q.heap_index thread ≤ q.sleepq_size)
  target_bounds =
      let (p, at) = Indexed-index q.heap_index thread 1 q.sleep_q valid.indexed held in
      (
        omega (arith, le-index 1 p),
        Indexed-le q.heap_index thread 1 q.sleepq_size q.sleep_q valid.indexed valid.shape held,
      )

  module _ (t : ℕ) (rest : Tree)
      (cut : Cut q.due q.heap_index q.sleepq_size 1 q.sleep_q (t, rest)) where
    abbrev short : SleepQ
    short = record q { sleep_q = rest; sleepq_size = q.sleepq_size - 1 }

    -- The last element is put where `thread` was.
    replace-Deleted :
        (t == thread) ≡ false
        → Returns (Deleted q thread) (
            heap_insert
              (refill q.due thread)
              (record short { heap_index = update q.heap_index t (q.heap_index thread) })
              t)
    replace-Deleted other =
        heap_insert-Returns (refill q.due thread) _ t target _ _ (ground arith) placed λ p done.
          record {
            valid = record {
              heap = done.heap;
              shape = done.shape;
              indexed = done.indexed;
              distinct = λ i. ground (arith, done.counts i, valid.distinct i, cut.counts i);
            };
            size = omega (arith, target_bounds);
            due = refl;
            counts = λ i. omega (arith, done.counts i, cut.counts i);
          }
      where
        target : ℕ
        target = q.heap_index thread

        n : ℕ
        n = q.sleepq_size - 1

        hi : ℕ → ℕ
        hi = update q.heap_index t target

        ready : Ready q.due target n n (lost q.due target n thread) 1 t hi rest
        ready = record {
          heap = cut.heap;
          shape = cut.shape;
          indexed =
              Indexed-frame q.heap_index hi 1 rest
                (λ i c. ground (arith, cut.counts i, valid.distinct i)) cut.indexed;
          distinct = λ i. omega (arith, cut.counts i, valid.distinct i);
          holds_removed = λ i. ground (arith, cut.counts i, cut.counts thread, held);
          removed_place = λ i. ground arith;
        }

        near : target ≤ n + 1
        near = omega (arith, target_bounds)

        placed :
            Returns
              (IsPlaced q.due target n n (lost q.due target n thread) 1 t hi rest)
              (insert_loop q.due target (refill q.due thread) (rounds target) 1 t hi rest)
        placed =
            insert_loop-Returns q.due target n n (lost q.due target n thread) (refill q.due thread)
              (refill-Fills q.due target n thread target_bounds.0) (λ k o s off. s) (omega arith)
              near (rounds target) 1 t hi rest (omega arith) (rounds_lem target target_bounds.0)
              ready

    after_cut-Deleted : Returns (Deleted q thread) (after_cut q thread (some (t, rest)))
    unfolding after_cut replace
    after_cut-Deleted = elim (Bool-cases (t == thread)) [
      | inl same ↦ rw same (record {
        value = short;
        returned = refl;
        holds = record {
          valid = record {
            heap = cut.heap;
            shape = cut.shape;
            indexed = cut.indexed;
            distinct = λ i. omega (arith, cut.counts i, valid.distinct i);
          };
          size = omega (arith, target_bounds);
          due = refl;
          counts = λ i. ground (arith, cut.counts i);
        };
      })
      | inr other ↦ rw other (replace-Deleted other)
    ]

  -- Deleting a thread that is in the timeout heap does not fail: the heap has its order, its
  -- shape and the right indices again, it holds one thread less, namely that one, and no due time
  -- changes.
  pub heap_delete-Deleted : Returns (Deleted q thread) (heap_delete q thread)
  unfolding heap_delete
  heap_delete-Deleted =
      let done =
        cut_last-Cut q.due q.heap_index q.sleepq_size (rounds q.sleepq_size) 1 q.sleep_q
          (omega arith) (rounds_lem q.sleepq_size (omega (arith, target_bounds))) valid.heap
          valid.shape valid.indexed in
      rw done.returned (after_cut-Deleted done.value.0 done.value.1 done.holds)
