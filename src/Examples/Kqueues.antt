-- ===== src/Examples/Kqueues.antt =====
-- An event system with kqueue.
use state_thread.Base.{ℕ, true, false, some, refl, List, [], ◌∷◌, Returns, arith}
use state_thread.Select.{Pollfd, no_revents}
use state_thread.Kqueue.Covered.{reads, writes}
use state_thread.Kqueue.{
  kq_pollset_add, kq_pollset_del, kq_add_loop, kq_check_loop, kq_addlist_expand, kq_addlist_add,
  kq_fd_data_expand, kq_double, kq_del_loop, kq_dellist_add, Memories, Registry, Request, enters,
  drops, submits, requests,
}
use state_thread.Kqueue.Registered.{IsRegistry, AllFit, requests-IsRegistry}

-- It has room for one descriptor, and for one change.
abbrev small : Registry
small = record {
  known = λ f i. false;
  kqueue = record {
    rd_ref_cnt = λ i. 0;
    wr_ref_cnt = λ i. 0;
    fd_data_size = 1;
    evtlist_size = 1;
    addlist = [];
    addlist_size = 1;
    dellist = [];
    dellist_size = 1;
  };
}

small-IsRegistry : IsRegistry small
small-IsRegistry = record {
  covered = λ i. (refl, refl);
  room = omega arith;
  sizes = (
    (omega arith, omega arith, omega arith),
    omega arith,
    (omega arith, omega arith, omega arith),
  );
}

abbrev mem : Memories
mem = record { fds = true; adds = true; results = true; dels = true }

abbrev both : ℕ → Pollfd
both fd = record {
  fd = fd;
  pollin = true;
  pollout = true;
  pollpri = false;
  other = false;
  revents = no_revents;
}

abbrev some_requests : List Request
some_requests =
    enters mem (both 7 ∷ both 3 ∷ [])
    ∷ submits
    ∷ enters mem (both 7 ∷ [])
    ∷ drops mem (both 7 ∷ both 3 ∷ [])
    ∷ []

-- The polls that are taken out have been added.
some_requests-AllFit : AllFit some_requests (some small)
unfolding kq_pollset_add kq_pollset_del kq_add_loop kq_check_loop kq_addlist_expand kq_addlist_add
    kq_fd_data_expand kq_double kq_del_loop kq_dellist_add reads writes
some_requests-AllFit = (
  ((omega arith, (omega arith, tt)), omega arith),
  (tt, (((omega arith, tt), omega arith), ((omega arith, λ i. (ground arith, ground arith)), tt))),
)

requests-IsRegistry_example : Returns IsRegistry (requests some_requests small)
requests-IsRegistry_example =
    requests-IsRegistry some_requests small some_requests-AllFit small-IsRegistry
