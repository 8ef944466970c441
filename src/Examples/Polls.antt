-- ===== src/Examples/Polls.antt =====
-- The theorems on descriptor sets, applied.
use state_thread.Base.{
  ◌^◌, ◌<◌, eperm, ℕ, refl, true, false, if◌then◌else◌, ◌==◌, List, [], ◌∷◌, arith,
}
use state_thread.Select.{Pollfd, FdSet, Select, all_valid, pollset_add, pollset_del}
use state_thread.Select.Counts.{asks, IsSelect, SameAt, pollset_del-pollset_add}
use state_thread.Epoll.{Epoll, Op, Answer, done, fails, fd_data_expand}
use state_thread.Epoll
use state_thread.Examples.{a_pollfd, no_polls}
use state_thread.Epoll.Counts.{reading, event, Counted, pollset_add-Counted, fd_data_expand_bound}

-- Descriptor 7 is asked for twice.
abbrev polls : List Pollfd
polls = a_pollfd 7 true false ∷ a_pollfd 8 true true ∷ a_pollfd 7 true true ∷ []

abbrev no_fd : FdSet
no_fd = record { member = λ i. false; cnt = λ i. 0 }

abbrev nobody : Select
nobody = record { read_set = no_fd; write_set = no_fd; excep_set = no_fd; maxfd = 0 }

nobody-IsSelect : IsSelect nobody
nobody-IsSelect = record {
  read_valid = λ i. refl;
  write_valid = λ i. refl;
  excep_valid = λ i. refl;
}

pollset_del-pollset_add_example : SameAt 7 (pollset_del polls (pollset_add polls nobody).1) nobody
unfolding all_valid
pollset_del-pollset_add_example = pollset_del-pollset_add polls nobody nobody-IsSelect 7 refl

-- epoll_ctl refuses descriptor 8.
abbrev answers : Op → ℕ → Answer
answers op fd = if fd == 8 then fails eperm else done

pollset_add-Counted_example :
    Counted reading 7 0
      (asks (event reading) 7 polls)
      (Epoll.pollset_add true answers polls no_polls)
pollset_add-Counted_example = pollset_add-Counted true answers polls no_polls reading 7

fd_data_expand_bound_example :
    (9 < (fd_data_expand 9 no_polls).fd_data_size)
    × ((fd_data_expand 9 no_polls).fd_data_size < 2 ^ 31)
fd_data_expand_bound_example =
    fd_data_expand_bound 9 no_polls (omega arith) (omega arith) (omega arith)
