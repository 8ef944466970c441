-- ===== src/Stk.antt =====
-- stk.c: thread stacks, and the free list from which they are taken again. Memory comes from the
-- system: the addresses that `calloc` and the memory map return, and the random number, are
-- arguments; `null` is a failure.
pub mod Laws
use state_thread.Base.{
  ℕ, zero, suc, ◌+◌, ◌-◌, ◌*◌, ◌/◌, ◌%◌, Bool, true, false, Option, none, some, List, [], ◌∷◌, leb,
  ◌==◌, if◌then◌else◌, null,
}

-- struct _st_stack, with its address
pub record Stack : Type 0 where
  pub address : ℕ
  pub vaddr : ℕ
  pub vaddr_size : ℕ
  pub stk_size : ℕ
  pub stk_bottom : ℕ
  pub stk_top : ℕ

-- `_st_free_stacks`, `_st_num_free_stacks`, `_st_randomize_stacks`
pub record StackPool : Type 0 where
  pub free_stacks : List Stack
  pub num_free_stacks : ℕ
  pub randomize_stacks : Bool

-- What the system gives to one call.
pub record Memory : Type 0 where
  pub calloc : ℕ
  pub segment : ℕ
  pub random : ℕ

abbrev pub keep_stack : Stack → Option (Stack × List Stack) → Option (Stack × List Stack)
keep_stack ts none = none
keep_stack ts (some (found, rest)) = some (found, ts ∷ rest)

-- The loop over the free list: the first stack that is big enough, and the others.
unfoldable pub find_stack : ℕ → List Stack → Option (Stack × List Stack)
find_stack size [] = none
find_stack size (ts ∷ rest) =
    if leb size ts.stk_size then some (ts, rest) else keep_stack ts (find_stack size rest)

-- `(random() % extra) & ~0xf`
abbrev offset : ℕ → ℕ → ℕ
offset random extra = random % extra - random % extra % 16

-- A new stack of `size` bytes between two pages that stay free, moved up by less than a page when
-- stacks are randomized. In the source `vaddr_size` is an int, for sizes that leave room in it.
unfoldable pub new_stack : (page size : ℕ) → Bool → Memory → Option Stack
new_stack page size randomize m =
    let extra = if randomize then page else 0 in
    let shift = if extra == 0 then 0 else offset m.random extra in
    if m.calloc == null
    then none
    else if m.segment == null
    then none
    else some (record {
      address = m.calloc;
      vaddr = m.segment;
      vaddr_size = size + 2 * page + extra;
      stk_size = size;
      stk_bottom = m.segment + page + shift;
      stk_top = m.segment + page + size + shift;
    })

abbrev pub from_pool :
    StackPool → Option (Stack × List Stack) → Option Stack → Option Stack × StackPool
from_pool pool none fresh = (fresh, pool)
from_pool pool (some (ts, rest)) fresh =
    (some ts, record pool { free_stacks = rest; num_free_stacks = pool.num_free_stacks - 1 })

-- `_st_stack_new`
unfoldable pub stack_new : (page size : ℕ) → Memory → StackPool → Option Stack × StackPool
unfolding find_stack new_stack
stack_new page size m pool =
    from_pool pool (find_stack size pool.free_stacks) (new_stack page size pool.randomize_stacks m)

-- ST_APPEND_LINK(&ts->links, _st_free_stacks.prev): before the last element of the list.
insert_before_last : Stack → List Stack → List Stack
insert_before_last ts [] = ts ∷ []
insert_before_last ts (a ∷ []) = ts ∷ a ∷ []
insert_before_last ts (a ∷ b ∷ rest) = a ∷ insert_before_last ts (b ∷ rest)

-- `_st_stack_free`; `none` is the null pointer.
pub stack_free : Option Stack → StackPool → StackPool
unfolding insert_before_last
stack_free none pool = pool
stack_free (some ts) pool = record pool {
  free_stacks = insert_before_last ts pool.free_stacks;
  num_free_stacks = pool.num_free_stacks + 1;
}

-- `st_randomize_stacks`; the call of `srandom` is the system's.
abbrev randomize_stacks : Bool → StackPool → Bool × StackPool
randomize_stacks on pool = (pool.randomize_stacks, record pool { randomize_stacks = on })

-- `stk_size` as `st_thread_create` rounds it up to pages; 0 stands for the default. It is an `int`: the
-- source is undefined for sizes with which the sum does not fit.
unfoldable pub round_stack_size : (page size : ℕ) → ℕ
round_stack_size page size =
    let size' : ℕ = if size == 0 then 64 * 1024 else size in (size' + page - 1) / page * page
