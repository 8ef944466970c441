-- ===== src/Epoll/Counts.antt =====
-- The counts of the event system with epoll, event.c, are the numbers of waiting polls, whatever
-- epoll_ctl answers.
use state_thread.Base.{
  ◌^◌, ℕ, zero, suc, ◌+◌, ◌-◌, ◌*◌, ◌%◌, ◌≤◌, ◌<◌, ◌≡◌, refl, subst, Errno, einval, enomem, ◌∙◌,
  Bool, true, false, ◌&&◌, not, List, [], ◌∷◌, ◌++◌, if◌then◌else◌, ◌==◌, leb, one_if, Result, ok,
  err, arith, Bool-cases, inl, inr,
}
use state_thread.Select.{Pollfd}
use state_thread.Select.Counts.{asks}
use state_thread.Epoll.{
  Epoll, Op, Answer, done, exists, fails, raise_cnts, lower_cnts, del_round, pollset_del, Round,
  goes_on, stops, is_valid, add_round, add_answer, count_event, fd_data_expand, ctl_add, ctl_mod,
  after_round, add_loop, expand_loop, check_loop, after_check, pollset_add,
}

pub data Kind : Type 0 where
  reading writing excepting : Kind

abbrev pub cnt : Kind → Epoll → ℕ → ℕ
cnt reading s = s.read_cnt
cnt writing s = s.write_cnt
cnt excepting s = s.excep_cnt

abbrev pub event : Kind → Pollfd → Bool
event reading pd = pd.pollin
event writing pd = pd.pollout
event excepting pd = pd.pollpri

cnt-raise_cnts :
    (k : Kind) (pd : Pollfd) (s : Epoll) (i : ℕ)
    → cnt k (raise_cnts pd s) i ≡ cnt k s i + one_if (event k pd && (pd.fd == i))
cnt-raise_cnts reading pd s i = ground arith
cnt-raise_cnts writing pd s i = ground arith
cnt-raise_cnts excepting pd s i = ground arith

cnt-lower_cnts :
    (k : Kind) (pd : Pollfd) (s : Epoll) (i : ℕ)
    → cnt k (lower_cnts pd s) i ≡ cnt k s i - one_if (event k pd && (pd.fd == i))
cnt-lower_cnts reading pd s i = ground arith
cnt-lower_cnts writing pd s i = ground arith
cnt-lower_cnts excepting pd s i = ground arith

pub cnt-evtlist :
    (k : Kind) (s : Epoll) (n i : ℕ) → cnt k (record s { evtlist_cnt = n }) i ≡ cnt k s i
cnt-evtlist reading s n i = refl
cnt-evtlist writing s n i = refl
cnt-evtlist excepting s n i = refl

pub cnt_kept :
    (k : Kind) (b c : Bool) (s : Epoll) (n i : ℕ)
    → cnt k (if b then s else if c then record s { evtlist_cnt = n } else s) i ≡ cnt k s i
cnt_kept k true c s n i = refl
cnt_kept k false true s n i = cnt-evtlist k s n i
cnt_kept k false false s n i = refl

cnt-del_round :
    (k : Kind) (ctl : Op → ℕ → Answer) (fd : ℕ) (s less : Epoll) (i : ℕ)
    → cnt k (del_round ctl fd s less) i ≡ cnt k less i
unfolding del_round
cnt-del_round k ctl fd s less i = cnt_kept k _ _ less (less.evtlist_cnt - 1) i

pub cnt-pollset_del :
    (k : Kind) (ctl : Op → ℕ → Answer) (pds : List Pollfd) (s : Epoll) (i : ℕ)
    → cnt k (pollset_del ctl pds s) i ≡ cnt k s i - asks (event k) i pds
unfolding pollset_del
cnt-pollset_del k ctl [] s i = omega arith
cnt-pollset_del k ctl (pd ∷ pds) s i = omega (
  arith,
  cnt-pollset_del k ctl pds (del_round ctl pd.fd s (lower_cnts pd s)) i,
  cnt-del_round k ctl pd.fd s (lower_cnts pd s) i,
  cnt-lower_cnts k pd s i,
)

asks-append :
    (e : Pollfd → Bool) (i : ℕ) (xs ys : List Pollfd)
    → asks e i (xs ++ ys) ≡ asks e i xs + asks e i ys
asks-append e i [] ys = omega arith
asks-append e i (x ∷ xs) ys = omega (arith, asks-append e i xs ys)

-- It does not touch the events that fired.
revents_kept :
    (b c : Bool) (s : Epoll) (n : ℕ)
    → (if b then s else if c then record s { evtlist_cnt = n } else s).revents ≡ s.revents
revents_kept true c s n = refl
revents_kept false true s n = refl
revents_kept false false s n = refl

pub revents-pollset_del :
    (ctl : Op → ℕ → Answer) (pds : List Pollfd) (s : Epoll)
    → (pollset_del ctl pds s).revents ≡ s.revents
unfolding pollset_del del_round
revents-pollset_del ctl [] s = refl
revents-pollset_del ctl (pd ∷ pds) s =
    revents-pollset_del ctl pds (del_round ctl pd.fd s (lower_cnts pd s))
    ∙ revents_kept _ _ (lower_cnts pd s) ((lower_cnts pd s).evtlist_cnt - 1)

-- A call that succeeds adds to a count what the poll asks for, one that fails nothing.
abbrev pub Counted : Kind → ℕ → (before gain : ℕ) → Result (Unit {0}) × Epoll → Type 0
Counted k i before gain (ok _, s) = cnt k s i ≡ before + gain
Counted k i before gain (err _, s) = cnt k s i ≡ before

-- A round that goes on has the counts `more`.
abbrev GoesOn : Kind → ℕ → Epoll → Round → Type 0
GoesOn k i more (goes_on s) = cnt k s i ≡ cnt k more i
GoesOn k i more (stops e) = Unit {0}

cnt-count_event :
    (k : Kind) (memory : Bool) (s : Epoll) (i : ℕ) → cnt k (count_event memory s) i ≡ cnt k s i
cnt-count_event reading memory s i = refl
cnt-count_event writing memory s i = refl
cnt-count_event excepting memory s i = refl

add_answer-GoesOn :
    (k : Kind) (i : ℕ) (memory b : Bool) (a : Answer) (s : Epoll)
    → GoesOn k i s (add_answer memory b a s)
add_answer-GoesOn k i memory true done s = cnt-count_event k memory s i
add_answer-GoesOn k i memory true exists s = cnt-count_event k memory s i
add_answer-GoesOn k i memory true (fails e) s = tt
add_answer-GoesOn k i memory false done s = refl
add_answer-GoesOn k i memory false exists s = tt
add_answer-GoesOn k i memory false (fails e) s = tt

choice-GoesOn :
    (k : Kind) (i : ℕ) (memory b c : Bool) (a a' : Answer) (s : Epoll)
    → GoesOn k i s (
        if b
        then goes_on s
        else if c
        then add_answer memory false a s
        else add_answer memory true a' s)
choice-GoesOn k i memory true c a a' s = refl
choice-GoesOn k i memory false true a a' s = add_answer-GoesOn k i memory false a s
choice-GoesOn k i memory false false a a' s = add_answer-GoesOn k i memory true a' s

after_round-Counted :
    (k : Kind) (i before gain : ℕ) (more : Epoll) (r : Round)
    (again : Epoll → Result (Unit {0}) × Epoll) (undo : Epoll → Epoll)
    → GoesOn k i more r
    → ((s : Epoll) → cnt k s i ≡ cnt k more i → Counted k i before gain (again s))
    → cnt k (undo more) i ≡ before
    → Counted k i before gain (after_round again undo more r)
after_round-Counted k i before gain more (goes_on s) again undo e h u = h s e
after_round-Counted k i before gain more (stops e') again undo e h u = u

add_loop-Counted :
    (k : Kind) (memory : Bool) (ctl : Op → ℕ → Answer) (i before : ℕ) (added rest : List Pollfd)
    (s : Epoll)
    → cnt k s i ≡ before + asks (event k) i added
    → Counted k i before
        (asks (event k) i added + asks (event k) i rest)
        (add_loop memory ctl added rest s)
unfolding add_loop
add_loop-Counted k memory ctl i before added [] s h = omega (arith, h)
add_loop-Counted k memory ctl i before added (pd ∷ pds) s h =
    let more = raise_cnts pd s in
    let gain = asks (event k) i added + asks (event k) i (pd ∷ pds) in
    let grown = asks-append (event k) i added (pd ∷ []) in
    let raised = cnt-raise_cnts k pd s i in
    let next = added ++ pd ∷ [] in
    let e : asks (event k) i next + asks (event k) i pds ≡ gain = omega (arith, grown) in
    after_round-Counted k i before gain more (add_round memory ctl pd.fd s more)
      (add_loop memory ctl next pds) (pollset_del ctl next)
      (choice-GoesOn k i memory _ _ (ctl ctl_mod pd.fd) (ctl ctl_add pd.fd) more)
      (λ s' same'.
        subst (λ n. Counted k i before n (add_loop memory ctl next pds s')) e
          (add_loop-Counted k memory ctl i before next pds s'
            (omega (arith, same', raised, grown, h))))
      (omega (arith, cnt-pollset_del k ctl next more i, raised, grown, h))

cnt-fd_data_expand :
    (k : Kind) (b : Bool) (fd : ℕ) (s : Epoll) (i : ℕ)
    → cnt k (if b then fd_data_expand fd s else s) i ≡ cnt k s i
cnt-fd_data_expand reading true fd s i = refl
cnt-fd_data_expand writing true fd s i = refl
cnt-fd_data_expand excepting true fd s i = refl
cnt-fd_data_expand k false fd s i = refl

cnt_chosen :
    (k : Kind) (b c : Bool) (i : ℕ) (s : Epoll) (e e' : Errno) (rest : Result (Unit {0}) × Epoll)
    → cnt k rest.1 i ≡ cnt k s i
    → let r : Result (Unit {0}) × Epoll =
        if b then (err e, s) else if c then (err e', s) else rest in
      cnt k r.1 i ≡ cnt k s i
cnt_chosen k true c i s e e' rest h = refl
cnt_chosen k false true i s e e' rest h = refl
cnt_chosen k false false i s e e' rest h = h

cnt-check_loop :
    (k : Kind) (memory : Bool) (pds : List Pollfd) (s : Epoll) (i : ℕ)
    → cnt k (check_loop memory pds s).1 i ≡ cnt k s i
unfolding check_loop
cnt-check_loop k memory [] s i = refl
cnt-check_loop k memory (pd ∷ pds) s i =
    let big = leb s.fd_data_size pd.fd in
    let wider : Epoll = if big then fd_data_expand pd.fd s else s in
    cnt_chosen k (not (is_valid pd)) (big && not memory) i s einval enomem
      (check_loop memory pds wider)
      (cnt-check_loop k memory pds wider i ∙ cnt-fd_data_expand k big pd.fd s i)

after_check-Counted :
    (k : Kind) (memory : Bool) (ctl : Op → ℕ → Answer) (pds : List Pollfd) (i before : ℕ)
    (r : Result (Unit {0}) × Epoll)
    → cnt k r.1 i ≡ before
    → Counted k i before (asks (event k) i pds) (after_check memory ctl pds r)
after_check-Counted k memory ctl pds i before (err e, s) h = h
after_check-Counted k memory ctl pds i before (ok _, s) h =
    let e : 0 + asks (event k) i pds ≡ asks (event k) i pds = omega arith in
    subst (λ n. Counted k i before n (add_loop memory ctl [] pds s)) e
      (add_loop-Counted k memory ctl i before [] pds s (omega (arith, h)))

-- Whatever epoll_ctl answers and whether there is memory or not, adding the descriptors of a poll
-- for epoll adds to each count as often as the poll asks for the event on the descriptor if it
-- succeeds, and leaves every count as it was if it fails, however far it had come.
pub pollset_add-Counted :
    (memory : Bool) (ctl : Op → ℕ → Answer) (pds : List Pollfd) (s : Epoll) (k : Kind) (i : ℕ)
    → Counted k i (cnt k s i) (asks (event k) i pds) (pollset_add memory ctl pds s)
unfolding pollset_add
pollset_add-Counted memory ctl pds s k i =
    after_check-Counted k memory ctl pds i (cnt k s i) (check_loop memory pds s)
      (cnt-check_loop k memory pds s i)

-- The fuel of `fd_data_expand` is enough: the loop ends as the descriptor has a place in the array, and
-- the size, which doubles only while it does not exceed the descriptor, stays an `int`.
expand_loop_bound :
    (fuel maxfd n : ℕ)
    → 1 ≤ n
    → n < 2 ^ 31
    → maxfd < 2 ^ 30
    → maxfd < n + fuel
    → (maxfd < expand_loop fuel maxfd n) × (expand_loop fuel maxfd n < 2 ^ 31)
unfolding expand_loop
expand_loop_bound zero maxfd n h b m g = (omega arith, b)
expand_loop_bound (suc fuel) maxfd n h b m g = elim (Bool-cases (leb n maxfd)) [
  | inl small ↦
      let under : n ≤ maxfd = ground arith in
      let fits : n * 2 % 2 ^ 32 ≡ n * 2 = omega (arith, under, m) in
      rw (positive, small, fits)
        (expand_loop_bound fuel maxfd (n * 2) (omega arith) (omega (arith, under)) m (omega arith))
  | inr big ↦ rw (positive, big) (ground arith, b)
]
  where
    -- The size is not negative.
    positive : leb (2 ^ 31) n ≡ false
    positive = ground (arith, b)

-- The loop that doubles the size of the array for epoll, which is not empty and has a size that
-- is an int, ends within its fuel, the descriptor plus one, for a descriptor below 2 ^ 30:
-- afterwards the array has a place for the descriptor, and its size is an int.
pub fd_data_expand_bound :
    (maxfd : ℕ) (s : Epoll)
    → 1 ≤ s.fd_data_size
    → s.fd_data_size < 2 ^ 31
    → maxfd < 2 ^ 30
    → (maxfd < (fd_data_expand maxfd s).fd_data_size)
      × ((fd_data_expand maxfd s).fd_data_size < 2 ^ 31)
fd_data_expand_bound maxfd s h b m =
    expand_loop_bound (maxfd + 1) maxfd s.fd_data_size h b m (omega arith)
