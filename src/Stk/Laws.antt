-- ===== src/Stk/Laws.antt =====
-- Taking and returning stacks.
use mathlib.Core.List.{Perm}
use mathlib.Core.List.Perm
use native.Mathlib.Nat.{div-add-mod, mod-lt, mul_comm, mul-mod_left}
use state_thread.Base.{
  ◌^◌, ℕ, suc, ◌+◌, ◌-◌, ◌/◌, ◌%◌, ◌≤◌, ◌<◌, ◌≡◌, refl, ap, ◌⊎◌, inl, inr, Bool, false, Option,
  none, some, List, [], ◌∷◌, arith, Bool-cases, leb, ◌==◌,
}
use state_thread.Stk.{
  Stack, StackPool, Memory, keep_stack, find_stack, new_stack, from_pool, stack_new,
  insert_before_last, stack_free, round_stack_size,
}

abbrev length : List Stack → ℕ
length [] = 0
length (ts ∷ rest) = suc (length rest)

-- The counter is the length of the free list.
abbrev pub IsPool : StackPool → Type 0
IsPool pool = pool.num_free_stacks ≡ length pool.free_stacks

-- No stack of the list is big enough.
abbrev AllSmall : ℕ → List Stack → Type 0
AllSmall size [] = Unit {0}
AllSmall size (ts ∷ rest) = (ts.stk_size < size) × AllSmall size rest

-- The first of the list that is big enough: those before it are not.
abbrev Found : ℕ → List Stack → Option (Stack × List Stack) → Type 0
Found size xs none = AllSmall size xs
Found size xs (some (ts, rest)) =
    (size ≤ ts.stk_size) × Perm xs (ts ∷ rest) × (length xs ≡ suc (length rest))

Found-keep :
    (size : ℕ) (ts : Stack) (xs : List Stack) (r : Option (Stack × List Stack))
    → ts.stk_size < size
    → Found size xs r
    → Found size (ts ∷ xs) (keep_stack ts r)
Found-keep size ts xs none h f = (h, f)
Found-keep size ts xs (some (found, rest)) h f =
    (f.0, Perm.trans (Perm.cons ts f.1) (Perm.swap found ts rest), ap suc f.2)

find_stack-Found : (size : ℕ) (xs : List Stack) → Found size xs (find_stack size xs)
unfolding find_stack
find_stack-Found size [] = tt
find_stack-Found size (ts ∷ xs) = elim (Bool-cases (leb size ts.stk_size)) [
  | inl fits ↦ rw fits (ground arith, Perm.refl _, refl)
  | inr small ↦ rw small (Found-keep size ts xs _ (ground arith) (find_stack-Found size xs))
]

insert_before_last-perm : (ts : Stack) (xs : List Stack) → Perm (insert_before_last ts xs) (ts ∷ xs)
unfolding insert_before_last
insert_before_last-perm ts [] = Perm.refl _
insert_before_last-perm ts (a ∷ []) = Perm.refl _
insert_before_last-perm ts (a ∷ b ∷ rest) =
    Perm.trans (Perm.cons a (insert_before_last-perm ts (b ∷ rest))) (Perm.swap ts a (b ∷ rest))

length-insert_before_last :
    (ts : Stack) (xs : List Stack) → length (insert_before_last ts xs) ≡ suc (length xs)
unfolding insert_before_last
length-insert_before_last ts [] = refl
length-insert_before_last ts (a ∷ []) = refl
length-insert_before_last ts (a ∷ b ∷ rest) = ap suc (length-insert_before_last ts (b ∷ rest))

-- A stack that is freed joins the free ones, and the counter stays their number.
stack_free_lem :
    (ts : Stack) (pool : StackPool)
    → IsPool pool
    → IsPool (stack_free (some ts) pool)
      × Perm (stack_free (some ts) pool).free_stacks (ts ∷ pool.free_stacks)
unfolding stack_free
stack_free_lem ts pool h = (
  omega (arith, length-insert_before_last ts pool.free_stacks),
  insert_before_last-perm ts pool.free_stacks,
)

-- The outcome of `_st_stack_new`.
pub record Stacked (page size : ℕ) (m : Memory) (pool : StackPool) (r : Option Stack × StackPool)
    : Type 0 where
  pub pool_valid : IsPool r.1
  pub outcome :
      ((ts : Stack) × (r.0 ≡ some ts)
        × (size ≤ ts.stk_size)
        × Perm pool.free_stacks (ts ∷ r.1.free_stacks))
      ⊎ (AllSmall size pool.free_stacks
          × (r.1 ≡ pool)
          × (r.0 ≡ new_stack page size pool.randomize_stacks m))

from_pool-Stacked :
    (page size : ℕ) (m : Memory) (pool : StackPool) (r : Option (Stack × List Stack))
    → IsPool pool
    → Found size pool.free_stacks r
    → Stacked page size m pool (from_pool pool r (new_stack page size pool.randomize_stacks m))
from_pool-Stacked page size m pool none h f = record {
  pool_valid = h;
  outcome = inr (f, refl, refl);
}
from_pool-Stacked page size m pool (some (ts, rest)) h f = record {
  pool_valid = omega arith;
  outcome = inl (ts, refl, f.0, f.1);
}

-- A free stack that is big enough is used again and leaves the free list; memory is asked for
-- only if no free stack is big enough, and then the list does not change; the counter stays the
-- length of the free list.
pub stack_new-Stacked :
    (page size : ℕ) (m : Memory) (pool : StackPool)
    → IsPool pool
    → Stacked page size m pool (stack_new page size m pool)
unfolding stack_new
stack_new-Stacked page size m pool h =
    from_pool-Stacked page size m pool _ h (find_stack-Found size pool.free_stacks)

-- A new stack has the size asked for and lies in its memory with at least a page free at each
-- end, also when stacks are randomized.
pub new_stack_bounds :
    (page size : ℕ) (randomize : Bool) (m : Memory) {ts : Stack}
    → 1 ≤ page
    → new_stack page size randomize m ≡ some ts
    → (ts.stk_size ≡ size)
      × (ts.stk_top ≡ ts.stk_bottom + size)
      × (ts.vaddr + page ≤ ts.stk_bottom)
      × (ts.stk_top + page ≤ ts.vaddr + ts.vaddr_size)
unfolding new_stack
new_stack_bounds page size randomize m h e = ground arith

-- A stack size that is not 0 and does not come within a page of the largest int is rounded up to
-- whole pages, by less than a page, and no int overflows in between.
pub round_stack_size_bounds :
    (page size : ℕ)
    → 1 ≤ page
    → 1 ≤ size
    → size + page ≤ 2 ^ 31
    → (size ≤ round_stack_size page size)
      × (round_stack_size page size < size + page)
      × (round_stack_size page size % page ≡ 0)
      × (size + page - 1 < 2 ^ 31)
unfolding round_stack_size
round_stack_size_bounds page size h g fits =
    let none_zero : (size == 0) ≡ false = ground arith in
    let x = size + page - 1 in
    let split = div-add-mod x page in
    let low : x % page < page = mod-lt x h in
    rw none_zero (
      omega (arith, split, mul_comm page (x / page)),
      omega (arith, split, mul_comm page (x / page)),
      mul-mod_left (x / page) page,
      omega (arith, fits),
    )
