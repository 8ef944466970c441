-- ===== src/Dispatch/Marks.antt =====
-- New `revents` make no difference for the event systems of event.c.
use state_thread.Base.{
  ℕ, ◌+◌, ◌≡◌, refl, Bool, List, [], ◌∷◌, length, arith, false, subst, sym, update_other,
  update_self, ==→≡, ◌==◌, Bool-cases, inl, inr,
}
use state_thread.Select.{Pollfd, Revents}
use state_thread.Select.Counts.{asks}
use state_thread.Ioq.{IoState, Pollq, set_pds}
use state_thread.Ioq.Gather.{Alike, Alike-self}
use state_thread.Dispatch.{mark_each, mark_from}

asks-mark_each :
    (event : Pollfd → Bool)
    → ((pd : Pollfd) (r : Revents) → event (record pd { revents = r }) ≡ event pd)
    → (f : Pollfd → Revents) (pds : List Pollfd) (i : ℕ)
    → asks event i (mark_each f pds) ≡ asks event i pds
asks-mark_each event same f [] i = refl
asks-mark_each event same f (pd ∷ pds) i =
    ground (arith, same pd (f pd), asks-mark_each event same f pds i)

length-mark_each :
    (f : Pollfd → Revents) (pds : List Pollfd) → length (mark_each f pds) ≡ length pds
length-mark_each f [] = refl
length-mark_each f (pd ∷ pds) = omega (arith, length-mark_each f pds)

pub mark_each-Alike : (f : Pollfd → Revents) (pds : List Pollfd) → Alike pds (mark_each f pds)
mark_each-Alike f pds = record {
  size = length-mark_each f pds;
  in_ = asks-mark_each (λ pd. pd.pollin) (λ pd r. refl) f pds;
  out_ = asks-mark_each (λ pd. pd.pollout) (λ pd r. refl) f pds;
  pri_ = asks-mark_each (λ pd. pd.pollpri) (λ pd r. refl) f pds;
}

asks-mark_from :
    (event : Pollfd → Bool)
    → ((pd : Pollfd) (r : Revents) → event (record pd { revents = r }) ≡ event pd)
    → (f : ℕ → Revents) (n : ℕ) (pds : List Pollfd) (i : ℕ)
    → asks event i (mark_from f n pds) ≡ asks event i pds
asks-mark_from event same f n [] i = refl
asks-mark_from event same f n (pd ∷ pds) i =
    ground (arith, same pd (f n), asks-mark_from event same f (n + 1) pds i)

pub length-mark_from :
    (f : ℕ → Revents) (n : ℕ) (pds : List Pollfd) → length (mark_from f n pds) ≡ length pds
length-mark_from f n [] = refl
length-mark_from f n (pd ∷ pds) = omega (arith, length-mark_from f (n + 1) pds)

pub mark_from-Alike : (f : ℕ → Revents) (n : ℕ) (pds : List Pollfd) → Alike pds (mark_from f n pds)
mark_from-Alike f n pds = record {
  size = length-mark_from f n pds;
  in_ = asks-mark_from (λ pd. pd.pollin) (λ pd r. refl) f n pds;
  out_ = asks-mark_from (λ pd. pd.pollout) (λ pd r. refl) f n pds;
  pri_ = asks-mark_from (λ pd. pd.pollpri) (λ pd r. refl) f n pds;
}

-- New `revents` of a poll that stays on the queue
module _ (t : ℕ) (pds : List Pollfd) (io : IoState) where
  pub set_pds_others : (u : ℕ) → (t == u) ≡ false → (set_pds t pds io).pollqs u ≡ io.pollqs u
  set_pds_others u apart = update_other io.pollqs t u _ apart

  pub set_pds_flags : (u : ℕ) → ((set_pds t pds io).pollqs u).on_ioq ≡ (io.pollqs u).on_ioq
  set_pds_flags u = ground arith

  pub set_pds-Alike :
      Alike (io.pollqs t).pds pds
      → (u : ℕ) → Alike (io.pollqs u).pds ((set_pds t pds io).pollqs u).pds
  set_pds-Alike alike u = elim (Bool-cases (t == u)) [
    | inl same ↦
        subst (λ i. Alike (io.pollqs i).pds ((set_pds t pds io).pollqs i).pds) (==→≡ t u same)
          (subst (λ (p : Pollq). Alike (io.pollqs t).pds p.pds)
            (sym (update_self io.pollqs t (record { pds = pds; on_ioq = (io.pollqs t).on_ioq })))
            alike)
    | inr apart ↦
        subst (λ (p : Pollq). Alike (io.pollqs u).pds p.pds) (sym (set_pds_others u apart))
          (Alike-self (io.pollqs u).pds)
  ]
