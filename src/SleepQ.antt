-- ===== src/SleepQ.antt =====
-- The timeout heap of sched.c and docs/timeout_heap.txt: the threads that sleep, in a tree.
-- The `left` and `right` pointers of the threads are the tree; `due` and `heap_index` are
-- functions of the thread. `none` is a null pointer that the source would follow.
pub mod Shape
pub mod Places
pub mod Loop
pub mod Insert
pub mod Delete
pub mod Cut
pub mod Sift
pub mod Add
use state_thread.Base.{
  ℕ, zero, suc, ◌+◌, ◌-◌, ◌*◌, ◌/◌, ◌%◌, ◌^◌, Bool, true, false, Option, none, some, ltb, ◌==◌,
  if◌then◌else◌, update, null,
}

pub data Tree : Type 0 where
  leaf : Tree
  node : ℕ → Tree → Tree → Tree

pub record SleepQ : Type 0 where
  pub due : ℕ → ℕ
  pub heap_index : ℕ → ℕ
  pub sleep_q : Tree
  pub sleepq_size : ℕ

-- `while (s) { s >>= 1; bits++; }`, with fuel.
pub bit_count : ℕ → ℕ → ℕ → ℕ
bit_count zero s bits = bits
bit_count (suc f) s bits =
    let rest = bit_count f (s / 2) (bits + 1) in if s == 0 then bits else rest

-- `target & (1 << bit)`
abbrev pub has_bit : ℕ → ℕ → Bool
has_bit target bit = (target / 2 ^ bit) % 2 == 1

-- What `index` becomes on the way down.
abbrev pub child_index : ℕ → Bool → ℕ
child_index index b = if b then index * 2 + 1 else index * 2

-- A subtree after a change, and the indices of the threads.
abbrev pub Placed : Type 0
Placed = Tree × (ℕ → ℕ)

abbrev pub with_child : ℕ → Bool → Tree → Tree → Option Placed → Option Placed
with_child top b l r none = none
with_child top true l r (some (t, hi)) = some (node top l t, hi)
with_child top false l r (some (t, hi)) = some (node top t r, hi)

-- The loop of `heap_insert`; `bit` is the number of rounds left. What happens at the slot that it
-- ends at is `fill`.
pub insert_loop :
    (due : ℕ → ℕ) (target : ℕ) (fill : ℕ → (ℕ → ℕ) → Tree → Option Placed)
    → (bit index thread : ℕ) (hi : ℕ → ℕ) → Tree
    → Option Placed
insert_loop due target fill zero index thread hi t = fill thread (update hi thread index) t
insert_loop due target fill (suc bit) index thread hi leaf = none
insert_loop due target fill (suc bit) index thread hi (node x l r) =
    let swap = ltb (due thread) (due x) in
    let b = has_bit target bit in
    with_child (if swap then thread else x) b l r (
      insert_loop due target fill bit (child_index index b) (if swap then x else thread)
        (if swap then update hi thread index else hi) (if b then r else l))

-- The new occupant of the slot has no children.
abbrev pub fill_leaf : ℕ → (ℕ → ℕ) → Tree → Option Placed
fill_leaf thread hi old = some (node thread leaf leaf, hi)

-- The rounds of `for (bit = bits - 2; bit >= 0; bit--)`.
abbrev pub rounds : ℕ → ℕ
rounds target = bit_count target target 0 - 1

abbrev after_insert : SleepQ → Option Placed → Option SleepQ
after_insert q none = none
after_insert q (some (t, hi)) = some (record q { sleep_q = t; heap_index = hi })

-- `heap_insert`, with what is done at the slot that it returns.
pub heap_insert : (ℕ → (ℕ → ℕ) → Tree → Option Placed) → SleepQ → ℕ → Option SleepQ
unfolding insert_loop bit_count
heap_insert fill q thread =
    let target = q.heap_index thread in
    after_insert q (insert_loop q.due target fill (rounds target) 1 thread q.heap_index q.sleep_q)

abbrev pub swap_index : (ℕ → ℕ) → ℕ → ℕ → ℕ → ℕ
swap_index hi t y = update (update hi t (hi y)) y (hi t)

abbrev with_left : ℕ → Tree → Placed → Placed
with_left y r (t, hi) = (node y t r, hi)

abbrev with_right : ℕ → Tree → Placed → Placed
with_right y l (t, hi) = (node y l t, hi)

-- The loop that reestablishes the heap invariant. `t` takes the place of the root of the tree, and
-- goes down past each child that is due earlier.
pub sift : (due : ℕ → ℕ) → ℕ → (ℕ → ℕ) → Tree → Placed
sift due t hi leaf = (leaf, hi)
sift due t hi (node _ leaf r) = (node t leaf r, hi)
sift due t hi (node _ (node y yl yr) leaf) =
    let down = with_left y leaf (sift due t (swap_index hi t y) (node y yl yr)) in
    if ltb (due y) (due t) then down else (node t (node y yl yr) leaf, hi)
sift due t hi (node _ (node y yl yr) (node z zl zr)) =
    let left = with_left y (node z zl zr) (sift due t (swap_index hi t y) (node y yl yr)) in
    let right = with_right z (node y yl yr) (sift due t (swap_index hi t z) (node z zl zr)) in
    let stay : Placed = (node t (node y yl yr) (node z zl zr), hi) in
    if ltb (due y) (due z)
    then (if ltb (due y) (due t) then left else stay)
    else (if ltb (due z) (due t) then right else stay)

abbrev pub cut_child : ℕ → Bool → Tree → Tree → Option (ℕ × Tree) → Option (ℕ × Tree)
cut_child x b l r none = none
cut_child x true l r (some (last, t)) = some (last, node x l t)
cut_child x false l r (some (last, t)) = some (last, node x t r)

-- `heap_delete` finds the last element and unlinks it.
pub cut_last : (size bit : ℕ) → Tree → Option (ℕ × Tree)
cut_last size bit leaf = none
cut_last size zero (node x l r) = some (x, leaf)
cut_last size (suc bit) (node x l r) =
    let b = has_bit size bit in cut_child x b l r (cut_last size bit (if b then r else l))

-- The new occupant takes over the children of `thread`, which is at the slot: its `heap_index` led
-- there. At another slot the source would read the children of a thread elsewhere; there `none`.
pub refill : (due : ℕ → ℕ) → ℕ → ℕ → (ℕ → ℕ) → Tree → Option Placed
unfolding sift
refill due thread t hi leaf = none
refill due thread t hi (node x l r) =
    if x == thread then some (sift due t hi (node x l r)) else none

-- The second half of `heap_delete`: the unlinked last element `t` goes where `thread` was.
pub replace : SleepQ → ℕ → ℕ → Option SleepQ
unfolding heap_insert refill
replace q thread t =
    if t == thread
    then some q
    else heap_insert (refill q.due thread)
        (record q { heap_index = update q.heap_index t (q.heap_index thread) }) t

pub after_cut : SleepQ → ℕ → Option (ℕ × Tree) → Option SleepQ
unfolding replace
after_cut q thread none = none
after_cut q thread (some (t, rest)) =
    replace (record q { sleep_q = rest; sleepq_size = q.sleepq_size - 1 }) thread t

pub heap_delete : SleepQ → ℕ → Option SleepQ
unfolding replace after_cut cut_last bit_count
heap_delete q thread = after_cut q thread (cut_last q.sleepq_size (rounds q.sleepq_size) q.sleep_q)

-- What `_st_add_sleep_q` does to the queue, with the wakeup time given.
pub add_sleep_q : SleepQ → ℕ → ℕ → Option SleepQ
unfolding heap_insert
add_sleep_q q thread wakeup =
    heap_insert fill_leaf
      (record q {
        due = update q.due thread wakeup;
        sleepq_size = q.sleepq_size + 1;
        heap_index = update q.heap_index thread (q.sleepq_size + 1);
      })
      thread
