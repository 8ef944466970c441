-- ===== src/Links/Removal.antt =====
-- Removal from the circular lists of common.h.
use state_thread.Base.{
  ℕ, ◌≡◌, ◌≢◌, refl, sym, ap, ◌∙◌, subst, false, List, [], ◌∷◌, occurs, occurs-remove, remove, ◌==◌,
  arith, Bool-cases, inl, inr, ==→≡,
}
use state_thread.Links.{Links, remove_link}
use state_thread.Links.Chains.{
  Chain, Apart, Apart-tail, sym_off, apart_from, Ring, Ring-Apart, first, Chain-same, Chain-next,
  prev_there, next_there,
}

-- Two elements have become neighbours.
pub record Unlinked (p l : ℕ) (s s' : Links) : Type 0 where
  pub next_p : s'.next p ≡ l
  pub prev_l : s'.prev l ≡ p
  pub forth : (t : ℕ) → (t == p) ≡ false → s'.next t ≡ s.next t
  pub back : (t : ℕ) → (t == l) ≡ false → s'.prev t ≡ s.prev t

remove_link-Unlinked :
    (e : ℕ) (s : Links)
    → (e == s.prev e) ≡ false
    → Unlinked (s.prev e) (s.next e) s (remove_link e s)
unfolding remove_link
remove_link-Unlinked e s off = record {
  next_p = ground (arith, off);
  prev_l = ground (arith, off);
  forth = λ t h. ground (arith, off, h);
  back = λ t h. ground (arith, off, h);
}

-- The element behind the first one is left out.
Unlinked-first :
    (p l : ℕ) (s s' : Links)
    → Unlinked p l s s'
    → (a e : ℕ) (xs : List ℕ) (b : ℕ) → p ≡ a
    → l ≡ first xs b
    → Chain s e xs b
    → Apart a (e ∷ xs) b
    → Chain s' a xs b
Unlinked-first p l s s' un a e [] b at to c apart =
    (ap s'.next (sym at) ∙ un.next_p ∙ to, ap s'.prev (sym to) ∙ un.prev_l ∙ at)
Unlinked-first p l s s' un a e (x ∷ xs) b at to c apart = (
  ap s'.next (sym at) ∙ un.next_p ∙ to,
  ap s'.prev (sym to) ∙ un.prev_l ∙ at,
  Chain-same s s' x xs b
      (λ t h. un.forth t (
        apart_from t p (x ∷ xs) h
          (ap (λ (i : ℕ). occurs i (x ∷ xs)) at ∙ ground (arith, (apart a).0))))
      (λ t h. un.back t (
        apart_from t l (b ∷ xs) h
          (ap (λ (i : ℕ). occurs i (b ∷ xs)) to ∙ ground (arith, (apart x).1))))
      c.2,
)

Unlinked-Chain :
    (e : ℕ) (s s' : Links)
    → Unlinked (s.prev e) (s.next e) s s'
    → (a : ℕ) (xs : List ℕ) (b : ℕ) → Chain s a xs b
    → Apart a xs b
    → occurs e xs ≢ 0
    → Chain s' a (remove e xs) b
Unlinked-Chain e s s' un a [] b c apart there = absurd (there refl)
Unlinked-Chain e s s' un a (x ∷ xs) b c apart there = elim (Bool-cases (x == e)) [
  | inl same ↦
      let is = sym (==→≡ x e same) in
      rw same (
        Unlinked-first (s.prev e) (s.next e) s s' un a x xs b (ap s.prev is ∙ c.1)
          (ap s.next is ∙ Chain-next s x xs b c.2) c.2 apart)
  | inr off ↦
      let behind : occurs e xs ≢ 0 = ground (arith, there, off) in
      rw off (
        un.forth a (
              sym_off (s.prev e) a (
                apart_from (s.prev e) a (x ∷ xs) (prev_there s e x xs b c.2 behind)
                  (ground (arith, (apart a).0))))
            ∙ c.0,
        un.back x (
              sym_off (s.next e) x (
                apart_from (s.next e) x (b ∷ xs) (next_there s e x xs b c.2 behind)
                  (ground (arith, (apart x).1))))
            ∙ c.1,
        Unlinked-Chain e s s' un x xs b c.2 (Apart-tail a x xs b apart) behind,
      )
]

prev_differs :
    (e a : ℕ) (xs : List ℕ) (b : ℕ) (s : Links)
    → Chain s a xs b
    → Apart a xs b
    → occurs e xs ≢ 0
    → (e == s.prev e) ≡ false
prev_differs e a [] b s c apart there = absurd (there refl)
prev_differs e a (x ∷ xs) b s c apart there = elim (Bool-cases (x == e)) [
  | inl same ↦
      let is = ==→≡ x e same in
      subst (λ i. (i == s.prev i) ≡ false) is (rw c.1 (ground (arith, (apart a).0)))
  | inr off ↦ prev_differs e x xs b s c.2 (Apart-tail a x xs b apart) (ground (arith, there, off))
]

pub removed-Unlinked :
    (e h : ℕ) (xs : List ℕ) (s : Links)
    → Ring s h xs
    → occurs e xs ≢ 0
    → Unlinked (s.prev e) (s.next e) s (remove_link e s)
removed-Unlinked e h xs s ring there =
    remove_link-Unlinked e s (prev_differs e h xs h s ring.chain (Ring-Apart ring) there)

pub remove_link-Ring :
    (e h : ℕ) (xs : List ℕ) (s : Links)
    → Ring s h xs
    → occurs e xs ≢ 0
    → Ring (remove_link e s) h (remove e xs)
remove_link-Ring e h xs s ring there = record {
  chain =
      Unlinked-Chain e s (remove_link e s) (removed-Unlinked e h xs s ring there) h xs h ring.chain
        (Ring-Apart ring) there;
  once = λ t. ground (arith, ring.once t, occurs-remove t e xs there);
}
