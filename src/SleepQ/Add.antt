-- ===== src/SleepQ/Add.antt =====
-- `_st_add_sleep_q` of sched.c puts a thread into the timeout heap.
use state_thread.Base.{
  ℕ, ◌+◌, ◌*◌, ◌≡◌, ◌≢◌, refl, ◌∙◌, inl, true, false, arith, ◌==◌, one_if, ◌∷◌, update, Returns, [],
}
use state_thread.SleepQ.{Tree, leaf, node, SleepQ, fill_leaf, rounds, add_sleep_q, insert_loop}
use state_thread.SleepQ.Shape.{count, Shape, le-index, IsSleepQ, IsHeap-frame, Indexed-frame}
use state_thread.SleepQ.Places.{rounds_lem}
use state_thread.SleepQ.Loop.{Ready, IsPlaced, Elsewhere, Fills}
use state_thread.SleepQ.Insert.{insert_loop-Returns, heap_insert-Returns}

abbrev none_removed : ℕ → ℕ
none_removed i = 0

module _ (due : ℕ → ℕ) (n : ℕ) where
  elsewhere : Elsewhere due (n + 1) n (n + 1) none_removed
  elsewhere k t shape off p = shape p ∙ ground (arith, off p)

  fill_leaf-Placed :
      (e : ℕ) (hi : ℕ → ℕ) (t : Tree)
      → Ready due (n + 1) n (n + 1) none_removed (n + 1) e hi t
      → IsPlaced due
          (n + 1)
          n
          (n + 1)
          none_removed
          (n + 1)
          e
          hi
          t
          (node e leaf leaf, update hi e (n + 1))
  fill_leaf-Placed e hi leaf ready = record {
    heap = (tt, tt, tt, tt);
    above = λ d h a. h;
    shape = shape;
    indexed = (ground arith, tt, tt);
    counts = λ i. omega arith;
    frame = λ i h c. ground arith;
  }
    where
      shape : Shape (n + 1) (n + 1) (node e leaf leaf)
      shape [] = ground arith
      shape (true ∷ p) = ground (arith, le-index ((n + 1) * 2 + 1) p)
      shape (false ∷ p) = ground (arith, le-index ((n + 1) * 2) p)
  fill_leaf-Placed e hi (node x l r) ready = absurd (ground (arith, ready.shape []))

  fill_leaf-Fills : Fills due (n + 1) n (n + 1) none_removed fill_leaf
  fill_leaf-Fills e hi t ready = record {
    value = _;
    returned = refl;
    holds = fill_leaf-Placed e hi t ready;
  }

-- The queue afterwards holds one thread more.
pub record Added (q : SleepQ) (thread wakeup : ℕ) (q' : SleepQ) : Type 0 where
  pub valid : IsSleepQ q'
  pub size : q'.sleepq_size ≡ q.sleepq_size + 1
  pub due : q'.due ≡ update q.due thread wakeup
  pub counts : (i : ℕ) → count i q'.sleep_q ≡ count i q.sleep_q + one_if (thread == i)

-- Adding a thread that is not in the timeout heap does not fail: the heap has its order, its
-- shape and the right indices again, and it holds one thread more, namely that one, due at the
-- given time.
pub add_sleep_q-Added :
    (q : SleepQ) (thread wakeup : ℕ)
    → IsSleepQ q
    → count thread q.sleep_q ≡ 0
    → Returns (Added q thread wakeup) (add_sleep_q q thread wakeup)
unfolding add_sleep_q
add_sleep_q-Added q thread wakeup valid fresh =
    heap_insert-Returns fill_leaf _ thread (n + 1) _ _ (ground arith) placed λ p done. record {
      valid = record {
        heap = done.heap;
        shape = done.shape;
        indexed = done.indexed;
        distinct = λ i. ground (arith, done.counts i, valid.distinct i);
      };
      size = refl;
      due = refl;
      counts = λ i. omega (arith, done.counts i);
    }
  where
    n : ℕ
    n = q.sleepq_size

    due : ℕ → ℕ
    due = update q.due thread wakeup

    hi : ℕ → ℕ
    hi = update q.heap_index thread (n + 1)

    in_heap : (i : ℕ) → count i q.sleep_q ≢ 0 → (thread == i) ≡ false
    in_heap i c = ground arith

    ready : Ready due (n + 1) n (n + 1) none_removed 1 thread hi q.sleep_q
    ready = record {
      heap = IsHeap-frame q.due due q.sleep_q (λ i c. ground (arith, in_heap i)) valid.heap;
      shape = valid.shape;
      indexed =
          Indexed-frame q.heap_index hi 1 q.sleep_q (λ i c. ground (arith, in_heap i))
            valid.indexed;
      distinct = λ i. ground (arith, valid.distinct i);
      holds_removed = λ i. omega arith;
      removed_place = λ i. inl refl;
    }

    placed :
        Returns
          (IsPlaced due (n + 1) n (n + 1) none_removed 1 thread hi q.sleep_q)
          (insert_loop due (n + 1) fill_leaf (rounds (n + 1)) 1 thread hi q.sleep_q)
    placed =
        insert_loop-Returns due (n + 1) n (n + 1) none_removed fill_leaf (fill_leaf-Fills due n)
          (elsewhere due n) (omega arith) (omega arith) (rounds (n + 1)) 1 thread hi q.sleep_q
          (omega arith) (rounds_lem (n + 1) (omega arith)) ready
