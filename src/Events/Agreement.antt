-- ===== src/Events/Agreement.antt =====
-- The event systems with select and with poll of event.c agree.
use state_thread.Base.{
  ℕ, ◌+◌, ◌≡◌, ◌≢◌, refl, sym, ap, ◌∙◌, subst, Bool, true, false, ◌&&◌, ◌||◌, List, [], ◌∷◌, ◌++◌,
  ◌==◌, some, if◌then◌else◌, length, occurs, Returns, arith, Bool-cases, inl, inr,
}
use state_thread.Select.{Pollfd, Revents}
use state_thread.Ioq.{Pollq, select_system, poll_system}
use state_thread.Ioq.Gather.{gather}
use state_thread.Vp.{Vp}
use state_thread.Vp.Switch.{Stands}
use state_thread.Dispatch.{Kernel, Selected, some_ready, milliseconds, min_timeout}
use state_thread.Dispatch.Rounds.{Sent, chosen}
use state_thread.Events.{dispatch}
use state_thread.Events.Ready.{
  selected, woken_by, with_event, with_event_from, any_of, any_at, any_bit, asked, by_select,
  by_poll,
}
use state_thread.Events.Systems.{Answers, dispatch-Sent}

-- The two processors differ at most in their event systems.
pub record Twins (vp vp' : Vp) : Type 0 where
  pub io_q : vp'.io.io_q ≡ vp.io.io_q
  pub pollqs : vp'.io.pollqs ≡ vp.io.pollqs
  pub run_q : vp'.run_q ≡ vp.run_q
  pub states : (t : ℕ) → (vp'.threads t).state ≡ (vp.threads t).state

-- What `poll` writes at each index is what `select` has found for the events asked for there.
unfoldable pub Matches : (ℕ → Revents) → Selected → ℕ → List Pollfd → Type 0
Matches f s n [] = Unit
Matches f s n (pd ∷ pds) =
    (f n ≡ record {
      r_in = pd.pollin && s.r pd.fd;
      r_out = pd.pollout && s.w pd.fd;
      r_pri = pd.pollpri && s.e pd.fd;
      r_err = false;
      r_hup = false;
      r_nval = false;
    })
    × Matches f s (n + 1) pds

-- What the kernel knows of descriptors does not depend on the call that asks.
pub record Consistent (k : Kernel) (vp vp' : Vp) : Type 0 where
  pub found : (selected k vp).nfd ≡ some_ready
  pub revents : ℕ → Revents
  pub polled :
      k.poll (gather vp'.io.io_q vp'.io.pollqs) (milliseconds (min_timeout vp')) ≡ some revents
  pub matches : Matches revents (selected k vp) 0 (gather vp.io.io_q vp.io.pollqs)

-- The threads for which a descriptor is in one of the sets that `select` leaves, for an event that
-- they ask for
abbrev pub selects : Kernel → Vp → List ℕ
selects k vp =
    let s = selected k vp in with_event (λ pd. asked (s.r pd.fd) (s.w pd.fd) (s.e pd.fd) pd) vp

Matches-take :
    (f : ℕ → Revents) (s : Selected) (n : ℕ) (pds rest : List Pollfd)
    → Matches f s n (pds ++ rest)
    → any_at (λ i. any_bit (f i)) n pds
      ≡ any_of (λ pd. asked (s.r pd.fd) (s.w pd.fd) (s.e pd.fd) pd) pds
unfolding Matches any_at any_of
Matches-take f s n [] rest m = refl
Matches-take f s n (pd ∷ pds) rest m =
    ap (λ r. any_bit r || any_at (λ i. any_bit (f i)) (n + 1) pds) m.0
    ∙ ap (λ b. b || any_at (λ i. any_bit (f i)) (n + 1) pds)
        (bits (pd.pollin && s.r pd.fd) (pd.pollout && s.w pd.fd) (pd.pollpri && s.e pd.fd))
    ∙ ap (λ b. asked (s.r pd.fd) (s.w pd.fd) (s.e pd.fd) pd || b)
        (Matches-take f s (n + 1) pds rest m.1)
  where
    -- The other bits are not set.
    bits : (a b c : Bool) → (a || b || c || false || false || false) ≡ (a || b || c)
    bits a b c = ground arith

Matches-drop :
    (f : ℕ → Revents) (s : Selected) (n : ℕ) (pds rest : List Pollfd)
    → Matches f s n (pds ++ rest)
    → Matches f s (n + length pds) rest
unfolding Matches
Matches-drop f s n [] rest m = subst (λ i. Matches f s i rest) (omega arith) m
Matches-drop f s n (pd ∷ pds) rest m =
    subst (λ i. Matches f s i rest) (omega arith) (Matches-drop f s (n + 1) pds rest m.1)

Matches-with_event :
    (f : ℕ → Revents) (s : Selected) (n : ℕ) (q : List ℕ) (polls : ℕ → Pollq)
    → Matches f s n (gather q polls)
    → with_event_from (λ i. any_bit (f i)) n q polls
      ≡ chosen (λ t. any_of (λ pd. asked (s.r pd.fd) (s.w pd.fd) (s.e pd.fd) pd) (polls t).pds) q
unfolding gather chosen with_event_from
Matches-with_event f s n [] polls m = refl
Matches-with_event f s n (t ∷ q) polls m =
    let pds = (polls t).pds in
    ap
      (λ b.
        let rest = with_event_from (λ i. any_bit (f i)) (n + length pds) q polls in
        if b then t ∷ rest else rest)
      (Matches-take f s n pds (gather q polls) m)
    ∙ ap
        (λ rest.
          if any_of (λ pd. asked (s.r pd.fd) (s.w pd.fd) (s.e pd.fd) pd) pds
          then t ∷ rest
          else rest)
        (Matches-with_event f s (n + length pds) q polls
          (Matches-drop f s n pds (gather q polls) m))

woken_by_select :
    (k : Kernel) (vp : Vp)
    → (selected k vp).nfd ≡ some_ready
    → woken_by select_system k vp ≡ selects k vp
woken_by_select k vp found = ap (λ n. by_select k.is_bad (selected k vp) n vp) found

woken_by_poll :
    (k : Kernel) (vp vp' : Vp)
    → Twins vp vp'
    → Consistent k vp vp'
    → woken_by poll_system k vp' ≡ selects k vp
woken_by_poll k vp vp' twins same =
    let ready : ℕ → Bool = λ i. any_bit (same.revents i) in
    ap (λ o. by_poll o vp') same.polled
    ∙ ap (λ q. with_event_from ready 0 q vp'.io.pollqs) twins.io_q
    ∙ ap (λ polls. with_event_from ready 0 vp.io.io_q polls) twins.pollqs
    ∙ Matches-with_event same.revents (selected k vp) 0 vp.io.io_q vp.io.pollqs same.matches

-- They wake the same threads.
abbrev pub Agree : (woken_up : List ℕ) (vp r r' : Vp) → Type 0
Agree woken_up vp r r' =
    (r.run_q ≡ vp.run_q ++ woken_up)
    × (r'.run_q ≡ vp.run_q ++ woken_up)
    × ((t : ℕ) → (r'.threads t).state ≡ (r.threads t).state)

Sent-Twins :
    (ws : List ℕ) (vp vp' r r' : Vp)
    → Twins vp vp'
    → Sent ws vp r
    → Sent ws vp' r'
    → Agree ws vp r r'
Sent-Twins ws vp vp' r r' twins s s' = (
  s.run_q,
  s'.run_q ∙ ap (λ q. q ++ ws) twins.run_q,
  λ t. elim (Bool-cases (occurs t ws == 0)) [
    | inl off ↦
        let none : occurs t ws ≡ 0 = ground (arith, off) in
        s'.others t none ∙ twins.states t ∙ sym (s.others t none)
    | inr woken ↦
        let there : occurs t ws ≢ 0 = ground (arith, woken) in
        s'.states t there ∙ sym (s.states t there)
  ],
)

-- When the idle thread runs, and select finds descriptors ready, and poll reports at each place
-- of its array the events asked for there whose set of select has the descriptor, and no other
-- bits, then the dispatch with select and that with poll, on processors that differ at most in
-- their event systems, put the same threads behind the same run queue, those that ask for an
-- event whose set has the descriptor, in the order of their polls, and leave every thread in the
-- same state. The array for poll must get memory if it has to grow, and with epoll the process
-- must not have forked.
pub dispatch_agrees :
    (k : Kernel) (vp vp' : Vp)
    → Answers k vp × Answers k vp'
    → Stands true vp × Stands true vp'
    → ((vp.current == vp.idle) ≡ true) × ((vp'.current == vp'.idle) ≡ true)
    → (vp.io.eventsys ≡ select_system) × (vp'.io.eventsys ≡ poll_system)
    → Twins vp vp'
    → Consistent k vp vp'
    → Returns (λ r. Returns (λ r'. Agree (selects k vp) vp r r') (dispatch k vp')) (dispatch k vp)
dispatch_agrees k vp vp' answers stands idle (is_select, is_poll) twins same =
    let s = dispatch-Sent k vp answers.0 stands.0 idle.0 in
    let p = dispatch-Sent k vp' answers.1 stands.1 idle.1 in
    let ws = selects k vp in
    let sent : Sent ws vp s.value =
      subst (λ w. Sent w vp s.value) (woken_by_select k vp same.found)
        (subst (λ e. Sent (woken_by e k vp) vp s.value) is_select s.holds) in
    let sent' : Sent ws vp' p.value =
      subst (λ w. Sent w vp' p.value) (woken_by_poll k vp vp' twins same)
        (subst (λ e. Sent (woken_by e k vp') vp' p.value) is_poll p.holds) in
    record {
      value = s.value;
      returned = s.returned;
      holds = record {
        value = p.value;
        returned = p.returned;
        holds = Sent-Twins ws vp vp' s.value p.value twins sent sent';
      };
    }
