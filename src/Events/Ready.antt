-- ===== src/Events/Ready.antt =====
-- Which threads have an event, described apart from the loops of event.c that look for them.
use state_thread.Base.{
  ℕ, ◌+◌, ◌≡◌, refl, ap, ◌∙◌, Bool, false, ◌&&◌, ◌||◌, none, some, List, [], ◌∷◌, ◌==◌,
  if◌then◌else◌, length, Bool-cases, inl, inr, Option, einval, eintr, ebusy, edeadlk, eperm, etime,
  eagain, enomem, ebadf, emfile, eaddrinuse, eexist, fun_ext, arith,
}
use state_thread.Select.{Pollfd, Revents, has_fired}
use state_thread.Epoll.{Epoll}
use state_thread.Ioq.{Pollq, Eventsys, select_system, poll_system, epoll_system}
use state_thread.Ioq.Gather.{gather}
use state_thread.Vp.{Vp}
use state_thread.Dispatch.{
  Kernel, Selected, Nfd, some_ready, none_ready, fails, any_fired, mark_each, mark_from,
  selected_revents, bad_revents, timeval, milliseconds, min_timeout,
}
use state_thread.Dispatch.Rounds.{chosen}
use state_thread.Dispatch.Selects.{select_woken}
use state_thread.Dispatch.Arrays.{ready_from}
use state_thread.Dispatch.Polls.{poll_woken}
use state_thread.Events.{note, epoll_revents}
use state_thread.Events.Epolls.{epoll_woken}

-- One descriptor of the list is ready.
unfoldable pub any_of : (ready : Pollfd → Bool) → List Pollfd → Bool
any_of ready [] = false
any_of ready (pd ∷ pds) = ready pd || any_of ready pds

-- The threads of the queue of polls with a ready descriptor, in its order
abbrev pub with_event : (ready : Pollfd → Bool) → Vp → List ℕ
with_event ready vp = chosen (λ t. any_of ready (vp.io.pollqs t).pds) vp.io.io_q

-- One of the three events is asked for and found.
abbrev pub asked : (found_in found_out found_pri : Bool) → Pollfd → Bool
asked found_in found_out found_pri pd =
    (pd.pollin && found_in) || (pd.pollout && found_out) || (pd.pollpri && found_pri)

-- What `select` found: after success, descriptors in its sets; after EBADF, bad ones.
abbrev pub by_select : (is_bad : ℕ → Bool) → Selected → Nfd → Vp → List ℕ
by_select is_bad s some_ready vp =
    with_event (λ pd. asked (s.r pd.fd) (s.w pd.fd) (s.e pd.fd) pd) vp
by_select is_bad s none_ready vp = []
by_select is_bad s (fails ebadf) vp =
    with_event (λ pd. (pd.pollin || pd.pollout || pd.pollpri || pd.other) && is_bad pd.fd) vp
by_select is_bad s (fails _) vp = []

-- `poll` gives an event for one of so many elements of the array, from an index on.
unfoldable pub any_at : (ready : ℕ → Bool) → ℕ → List Pollfd → Bool
any_at ready n [] = false
any_at ready n (pd ∷ pds) = ready n || any_at ready (n + 1) pds

unfoldable pub with_event_from : (ready : ℕ → Bool) → ℕ → List ℕ → (ℕ → Pollq) → List ℕ
with_event_from ready n [] polls = []
with_event_from ready n (t ∷ q) polls =
    let rest = with_event_from ready (n + length (polls t).pds) q polls in
    if any_at ready n (polls t).pds then t ∷ rest else rest

-- Some bit is set.
abbrev pub any_bit : Revents → Bool
any_bit r = r.r_in || r.r_out || r.r_pri || r.r_err || r.r_hup || r.r_nval

abbrev pub by_poll : Option (ℕ → Revents) → Vp → List ℕ
by_poll none vp = []
by_poll (some revents) vp = with_event_from (λ n. any_bit (revents n)) 0 vp.io.io_q vp.io.pollqs

-- The last event that `epoll_wait` reports of a descriptor, or else what was left of it
unfoldable pub latest : List (ℕ × Revents) → (fd : ℕ) → (left : Revents) → Revents
latest [] fd left = left
latest ((osfd, r) ∷ evtlist) fd left = latest evtlist fd (if osfd == fd then r else left)

-- An event that is asked for, an error or a hangup
abbrev pub concerns : Pollfd → Revents → Bool
concerns pd r = asked r.r_in r.r_out r.r_pri pd || r.r_err || r.r_hup

abbrev pub by_epoll : List (ℕ × Revents) → Vp → List ℕ
by_epoll [] vp = []
by_epoll (e ∷ es) vp =
    with_event (λ pd. concerns pd (latest (e ∷ es) pd.fd (vp.io.epoll.revents pd.fd))) vp

-- What `select` answers
abbrev pub selected : Kernel → Vp → Selected
selected k vp =
    k.select vp.io.select.maxfd vp.io.select.read_set.member vp.io.select.write_set.member
      vp.io.select.excep_set.member (timeval (min_timeout vp))

-- The threads that a dispatch should wake
abbrev pub woken_by : Eventsys → Kernel → Vp → List ℕ
woken_by select_system k vp = by_select k.is_bad (selected k vp) (selected k vp).nfd vp
woken_by poll_system k vp =
    by_poll (k.poll (gather vp.io.io_q vp.io.pollqs) (milliseconds (min_timeout vp))) vp
woken_by epoll_system k vp =
    by_epoll (k.epoll_wait vp.io.epoll.evtlist_size (milliseconds (min_timeout vp))) vp

-- A descriptor's `revents` say whether it is ready.
any_fired-mark_each :
    (revents : Pollfd → Revents) (ready : Pollfd → Bool)
    → ((pd : Pollfd) → has_fired (revents pd) ≡ ready pd)
    → (pds : List Pollfd) → any_fired (mark_each revents pds) ≡ any_of ready pds
unfolding any_of
any_fired-mark_each revents ready h [] = refl
any_fired-mark_each revents ready h (pd ∷ pds) =
    ap (λ b. b || any_fired (mark_each revents pds)) (h pd)
    ∙ ap (λ b. ready pd || b) (any_fired-mark_each revents ready h pds)

chosen-with_event :
    (revents : Pollfd → Revents) (ready : Pollfd → Bool)
    → ((pd : Pollfd) → has_fired (revents pd) ≡ ready pd)
    → (vp : Vp)
    → chosen (λ t. any_fired (mark_each revents (vp.io.pollqs t).pds)) vp.io.io_q
      ≡ with_event ready vp
chosen-with_event revents ready h vp =
    ap (λ f. chosen f vp.io.io_q)
      (fun_ext (λ t. any_fired-mark_each revents ready h (vp.io.pollqs t).pds))

selected_fires :
    (s : Selected) (pd : Pollfd)
    → has_fired (selected_revents s pd) ≡ asked (s.r pd.fd) (s.w pd.fd) (s.e pd.fd) pd
selected_fires s pd = ground arith

bad_fires :
    (is_bad : ℕ → Bool) (pd : Pollfd)
    → has_fired (bad_revents is_bad pd)
      ≡ ((pd.pollin || pd.pollout || pd.pollpri || pd.other) && is_bad pd.fd)
bad_fires is_bad pd = refl

pub select_woken_lem :
    (is_bad : ℕ → Bool) (s : Selected) (n : Nfd) (vp : Vp)
    → select_woken is_bad s n vp ≡ by_select is_bad s n vp
select_woken_lem is_bad s some_ready vp = chosen-with_event _ _ (selected_fires s) vp
select_woken_lem is_bad s none_ready vp = refl
select_woken_lem is_bad s (fails ebadf) vp = chosen-with_event _ _ (bad_fires is_bad) vp
select_woken_lem is_bad s (fails einval) vp = refl
select_woken_lem is_bad s (fails eintr) vp = refl
select_woken_lem is_bad s (fails ebusy) vp = refl
select_woken_lem is_bad s (fails edeadlk) vp = refl
select_woken_lem is_bad s (fails eperm) vp = refl
select_woken_lem is_bad s (fails etime) vp = refl
select_woken_lem is_bad s (fails eagain) vp = refl
select_woken_lem is_bad s (fails enomem) vp = refl
select_woken_lem is_bad s (fails emfile) vp = refl
select_woken_lem is_bad s (fails eaddrinuse) vp = refl
select_woken_lem is_bad s (fails eexist) vp = refl

any_fired-mark_from :
    (f : ℕ → Revents) (n : ℕ) (pds : List Pollfd)
    → any_fired (mark_from f n pds) ≡ any_at (λ i. any_bit (f i)) n pds
unfolding any_at
any_fired-mark_from f n [] = refl
any_fired-mark_from f n (pd ∷ pds) =
    ap (λ b. any_bit (f n) || b) (any_fired-mark_from f (n + 1) pds)

ready_from-with_event :
    (f : ℕ → Revents) (n : ℕ) (q : List ℕ) (polls : ℕ → Pollq)
    → ready_from f n q polls ≡ with_event_from (λ i. any_bit (f i)) n q polls
unfolding ready_from with_event_from
ready_from-with_event f n [] polls = refl
ready_from-with_event f n (t ∷ q) polls =
    ap
      (λ b.
        let rest = ready_from f (n + length (polls t).pds) q polls in if b then t ∷ rest else rest)
      (any_fired-mark_from f n (polls t).pds)
    ∙ ap (λ rest. if any_at (λ i. any_bit (f i)) n (polls t).pds then t ∷ rest else rest)
        (ready_from-with_event f (n + length (polls t).pds) q polls)

pub poll_woken_lem : (o : Option (ℕ → Revents)) (vp : Vp) → poll_woken o vp ≡ by_poll o vp
poll_woken_lem none vp = refl
poll_woken_lem (some revents) vp = ready_from-with_event revents 0 vp.io.io_q vp.io.pollqs

epoll_fires :
    (fired : ℕ → Revents) (pd : Pollfd)
    → has_fired (epoll_revents fired pd) ≡ concerns pd (fired pd.fd)
epoll_fires fired pd = ground arith

-- The bits that are added on an error or a hangup make no difference.
noted-concerns :
    (pd : Pollfd) (r r' : Revents)
    → r'.r_err ≡ r.r_err
    → r'.r_hup ≡ r.r_hup
    → concerns pd (if r.r_err || r.r_hup then r' else r) ≡ concerns pd r
noted-concerns pd r r' err hup = ground (arith, err, hup)

note-latest :
    (evtlist : List (ℕ × Revents)) (s : Epoll) (pd : Pollfd) (left : Revents)
    → concerns pd (s.revents pd.fd) ≡ concerns pd left
    → concerns pd ((note evtlist s).revents pd.fd) ≡ concerns pd (latest evtlist pd.fd left)
unfolding note latest
note-latest [] s pd left h = h
note-latest ((osfd, r) ∷ evtlist) s pd left h =
    note-latest evtlist _ pd (if osfd == pd.fd then r else left)
      (elim (Bool-cases (osfd == pd.fd)) [
        | inl same ↦ rw same (noted-concerns pd r _ refl refl)
        | inr apart ↦ rw apart h
      ])

pub epoll_woken_lem :
    (evtlist : List (ℕ × Revents)) (vp : Vp) → epoll_woken evtlist vp ≡ by_epoll evtlist vp
epoll_woken_lem [] vp = refl
epoll_woken_lem (e ∷ es) vp =
    chosen-with_event _ _
      (λ pd.
        epoll_fires (note (e ∷ es) vp.io.epoll).revents pd
        ∙ note-latest (e ∷ es) vp.io.epoll pd (vp.io.epoll.revents pd.fd) refl)
      vp
