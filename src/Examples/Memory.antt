-- ===== src/Examples/Memory.antt =====
-- The theorems on keys, stacks and the making of threads, applied.
use mathlib.Core.List.{}
use state_thread.Base.{
  ◌^◌, ◌-◌, ℕ, ◌+◌, ◌%◌, ◌<◌, ◌≤◌, ◌≡◌, ◌⊎◌, refl, true, false, [], ◌∷◌, if◌then◌else◌, ◌==◌, ok,
  err, eagain, arith, some,
}
use state_thread.Key.{KeyTable, keys_max, key_create, setspecific, getspecific, thread_cleanup}
use state_thread.Key.Laws.{
  key_create_lem, setspecific-calls, getspecific-setspecific, owed, cleaned, Sets,
  thread_cleanup_lem,
}
use state_thread.Stk.{Stack, StackPool, Memory, find_stack, new_stack, stack_new, round_stack_size}
use state_thread.Stk.Laws.{Stacked, stack_new-Stacked, new_stack_bounds, round_stack_size_bounds}
use state_thread.Ioq.{epoll_system}
use state_thread.Vp.Switch.{Runs}
use state_thread.Boot.{Process, Environment}
use state_thread.Start.{Layout, thread_create, thread_address}
use state_thread.Start.Create.{IsUnused, Created, thread_create-Created}
use state_thread.Examples.{vp, vp-Runs}

abbrev a_key : KeyTable
a_key = record { key_max = 1; destructors = λ k. 77 }

key_create_lem_example :
    let (r, k') = key_create 88 a_key in
    ((1 < keys_max)
      × (r ≡ ok 1)
      × (k'.key_max ≡ 1 + 1)
      × (k'.key_max ≤ keys_max)
      × (k'.destructors 1 ≡ (if 1 == 1 then 88 else a_key.destructors 1)))
    ⊎ ((1 ≡ keys_max) × (r ≡ err eagain) × (k' ≡ a_key))
key_create_lem_example = key_create_lem a_key 88 1 (omega arith)

setspecific-calls_example : Sets a_key 0 6 (λ i. 5) (setspecific a_key 0 6 (λ i. 5))
setspecific-calls_example = setspecific-calls a_key 0 6 (λ i. 5)

getspecific-setspecific_example :
    getspecific a_key 0 (setspecific a_key 0 6 (λ i. 5)).1
    ≡ (if 0 == 0 then 6 else getspecific a_key 0 (λ i. 5))
getspecific-setspecific_example = getspecific-setspecific a_key 0 0 6 (λ i. 5) (omega arith)

thread_cleanup_lem_example :
    ((thread_cleanup a_key (λ i. 5)).0 ≡ owed a_key 1 0 (λ i. 5))
    × ((i : ℕ) → (thread_cleanup a_key (λ i. 5)).1 i ≡ cleaned a_key 1 0 (λ i. 5) i)
thread_cleanup_lem_example = thread_cleanup_lem a_key (λ i. 5)

abbrev memory : Memory
memory = record { calloc = 10; segment = 1000; random = 333 }

abbrev a_stack : Stack
a_stack = record {
  address = 10;
  vaddr = 1000;
  vaddr_size = 12288;
  stk_size = 4096;
  stk_bottom = 5096;
  stk_top = 9192;
}

abbrev a_pool : StackPool
a_pool = record { free_stacks = a_stack ∷ []; num_free_stacks = 1; randomize_stacks = false }

stack_new-Stacked_example : Stacked 4096 4000 memory a_pool (stack_new 4096 4000 memory a_pool)
stack_new-Stacked_example = stack_new-Stacked 4096 4000 memory a_pool refl

new_stack_bounds_example :
    (a_stack.stk_size ≡ 4096)
    × (a_stack.stk_top ≡ a_stack.stk_bottom + 4096)
    × (a_stack.vaddr + 4096 ≤ a_stack.stk_bottom)
    × (a_stack.stk_top + 4096 ≤ a_stack.vaddr + a_stack.vaddr_size)
unfolding new_stack
new_stack_bounds_example = new_stack_bounds 4096 4096 false memory {ts = a_stack} (omega arith) refl

round_stack_size_bounds_example :
    (5000 ≤ round_stack_size 4096 5000)
    × (round_stack_size 4096 5000 < 5000 + 4096)
    × (round_stack_size 4096 5000 % 4096 ≡ 0)
    × (5000 + 4096 - 1 < 2 ^ 31)
round_stack_size_bounds_example =
    round_stack_size_bounds 4096 5000 (omega arith) (omega arith) (omega arith)

abbrev layout : Layout
layout = record { pointer_size = 8; thread_size = 200; pad_size = 128 }

-- The new thread is at 65768.
unused : IsUnused (thread_create layout memory 33 true 5000 vp).0 vp
unfolding thread_create thread_address stack_new find_stack new_stack round_stack_size
unused = record {
  not_ready = refl;
  not_zombie = refl;
  not_asleep = refl;
  not_idle = refl;
  not_current = refl;
  not_polling = refl;
}

thread_create-Created_example :
    Created vp (thread_create layout memory 33 true 5000 vp)
    × Runs (thread_create layout memory 33 true 5000 vp).1
thread_create-Created_example = thread_create-Created layout memory 33 true 5000 vp vp-Runs unused

-- The library is started with epoll.
abbrev process : Process
process = record {
  eventsys = some epoll_system;
  osfd_limit = 0;
  vp = record vp { active_count = 0; keys = a_key; pool = a_pool };
}

abbrev environment : Environment
environment = record {
  build = record { use_poll = true; epoll_is_supported = true };
  limits = record { sigaction = true; getrlimit = some (1024, 4096); setrlimit = true };
  resources = record {
    data_memory = true;
    array_memory = true;
    list_memory = true;
    created = true;
  };
  layout = layout;
  memory = memory;
  main = 500;
  pid = 1;
  pagesize = 4096;
  time = 50;
}
