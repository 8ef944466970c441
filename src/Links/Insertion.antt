-- ===== src/Links/Insertion.antt =====
-- Insertion into the circular lists of common.h.
use state_thread.Base.{
  ℕ, ◌≤◌, ◌≡◌, ◌≢◌, refl, sym, ap, ◌∙◌, subst, true, false, List, [], ◌∷◌, ◌++◌, occurs,
  occurs-append, ◌==◌, arith, ==→≡,
}
use mathlib.Core.List.{append-nil}
use state_thread.Links.{Links, insert_before, insert_after}
use state_thread.Links.Chains.{
  Chain, Apart, Apart-tail, sym_off, apart_from, Ring, Ring-Apart, last, first, last_there,
  first_there, Chain-same, Chain-next, Chain-prev, head_next, head_prev,
}

-- An element has come between two that were next to each other.
pub record Inserted (e p l : ℕ) (s s' : Links) : Type 0 where
  pub next_e : s'.next e ≡ l
  pub prev_e : s'.prev e ≡ p
  pub next_p : s'.next p ≡ e
  pub prev_l : s'.prev l ≡ e
  pub forth : (t : ℕ) → (t == e) ≡ false → (t == p) ≡ false → s'.next t ≡ s.next t
  pub back : (t : ℕ) → (t == e) ≡ false → (t == l) ≡ false → s'.prev t ≡ s.prev t

Inserted-Chain :
    (e p l : ℕ) (s s' : Links)
    → Inserted e p l s s'
    → (a : ℕ) (us vs : List ℕ) (b : ℕ) → p ≡ last a us
    → l ≡ first vs b
    → Chain s a (us ++ vs) b
    → Apart a (us ++ vs) b
    → occurs e (a ∷ us ++ vs) ≡ 0
    → (b == e) ≡ false
    → Chain s' a (us ++ e ∷ vs) b
Inserted-Chain e p l s s' ins a [] [] b at to c apart new other = (
  ap s'.next (sym at) ∙ ins.next_p,
  ins.prev_e ∙ at,
  (ins.next_e ∙ to, ap s'.prev (sym to) ∙ ins.prev_l),
)
Inserted-Chain e p l s s' ins a [] (v ∷ vs) b at to c apart new other = (
  ap s'.next (sym at) ∙ ins.next_p,
  ins.prev_e ∙ at,
  (
    ins.next_e ∙ to,
    ap s'.prev (sym to) ∙ ins.prev_l,
    Chain-same s s' v vs b
        (λ t h. ins.forth t (apart_from t e (v ∷ vs) h (ground (arith, new))) (
          apart_from t p (v ∷ vs) h
            (ap (λ (i : ℕ). occurs i (v ∷ vs)) at ∙ ground (arith, (apart a).0))))
        (λ t h. ins.back t (apart_from t e (b ∷ vs) h (ground (arith, new, other))) (
          apart_from t l (b ∷ vs) h
            (ap (λ (i : ℕ). occurs i (b ∷ vs)) to ∙ ground (arith, (apart v).1))))
        c.2,
  ),
)
Inserted-Chain e p l s s' ins a (u ∷ us) vs b at to c apart new other = (
  ins.forth a (ground (arith, new)) (
        sym_off p a (
          apart_from p a (u ∷ us) (subst (λ i. occurs i (u ∷ us) ≢ 0) (sym at) (last_there u us))
            (ground (arith, (apart a).0, occurs-append a (u ∷ us) vs))))
      ∙ c.0,
  ins.back u (ground (arith, new)) (
        sym_off l u (
          apart_from l u (b ∷ vs) (subst (λ i. occurs i (b ∷ vs) ≢ 0) (sym to) (first_there vs b))
            (ground (arith, (apart u).1, occurs-append u us vs))))
      ∙ c.1,
  Inserted-Chain e p l s s' ins u us vs b at to c.2 (Apart-tail a u (us ++ vs) b apart)
      (ground (arith, new)) other,
)

insert_before-Inserted :
    (e l : ℕ) (s : Links)
    → (e == l) ≡ false
    → (s.prev l == e) ≡ false
    → Inserted e (s.prev l) l s (insert_before e l s)
unfolding insert_before
insert_before-Inserted e l s off apart = record {
  next_e = ground (arith, off, apart);
  prev_e = ground (arith, off, apart);
  next_p = ground (arith, off, apart);
  prev_l = ground (arith, off, apart);
  forth = λ t h g. ground (arith, off, apart, h, g);
  back = λ t h g. ground (arith, off, apart, h, g);
}

insert_after-Inserted :
    (e p : ℕ) (s : Links)
    → (e == p) ≡ false
    → (s.next p == e) ≡ false
    → Inserted e p (s.next p) s (insert_after e p s)
unfolding insert_after
insert_after-Inserted e p s off apart = record {
  next_e = ground (arith, off, apart);
  prev_e = ground (arith, off, apart);
  next_p = ground (arith, off, apart);
  prev_l = ground (arith, off, apart);
  forth = λ t h g. ground (arith, off, apart, h, g);
  back = λ t h g. ground (arith, off, apart, h, g);
}

-- An insertion keeps the distinctness.
insert_once :
    (e h : ℕ) (us vs : List ℕ)
    → ((t : ℕ) → occurs t (h ∷ us ++ vs) ≤ 1)
    → occurs e (h ∷ us ++ vs) ≡ 0
    → (t : ℕ) → occurs t (h ∷ us ++ e ∷ vs) ≤ 1
insert_once e h us vs once new t =
    let same = λ (g : (t == e) ≡ true). ap (λ (i : ℕ). occurs i (h ∷ us ++ vs)) (==→≡ t e g) in
    ground (arith, once t, new, occurs-append t us vs, occurs-append t us (e ∷ vs), same)

pub Inserted-Ring :
    (e p l : ℕ) (s s' : Links) (h : ℕ) (us vs : List ℕ)
    → Inserted e p l s s'
    → p ≡ last h us
    → l ≡ first vs h
    → Ring s h (us ++ vs)
    → occurs e (h ∷ us ++ vs) ≡ 0
    → Ring s' h (us ++ e ∷ vs)
Inserted-Ring e p l s s' h us vs ins at to ring new = record {
  chain =
      Inserted-Chain e p l s s' ins h us vs h at to ring.chain (Ring-Apart ring) new
        (ground (arith, new));
  once = insert_once e h us vs ring.once new;
}

-- Appending an element
pub appended-Inserted :
    (e h : ℕ) (xs : List ℕ) (s : Links)
    → Ring s h xs
    → occurs e (h ∷ xs) ≡ 0
    → Inserted e (s.prev h) h s (insert_before e h s)
appended-Inserted e h xs s ring new =
    insert_before-Inserted e h s (ground (arith, new))
      (apart_from (s.prev h) e (h ∷ xs) (head_prev s h xs ring) new)

pub insert_before-Ring :
    (e h : ℕ) (xs : List ℕ) (s : Links)
    → Ring s h xs
    → occurs e (h ∷ xs) ≡ 0
    → Ring (insert_before e h s) h (xs ++ e ∷ [])
insert_before-Ring e h xs s ring new =
    Inserted-Ring e (s.prev h) h s (insert_before e h s) h xs []
      (appended-Inserted e h xs s ring new) (Chain-prev s h xs h ring.chain) refl
      (subst (Ring s h) (sym (append-nil xs)) ring)
      (subst (λ ys. occurs e (h ∷ ys) ≡ 0) (sym (append-nil xs)) new)

-- Inserting an element at the head
pub headed-Inserted :
    (e h : ℕ) (xs : List ℕ) (s : Links)
    → Ring s h xs
    → occurs e (h ∷ xs) ≡ 0
    → Inserted e h (s.next h) s (insert_after e h s)
headed-Inserted e h xs s ring new =
    insert_after-Inserted e h s (ground (arith, new))
      (apart_from (s.next h) e (h ∷ xs) (head_next s h xs ring) new)

pub insert_after-Ring :
    (e h : ℕ) (xs : List ℕ) (s : Links)
    → Ring s h xs
    → occurs e (h ∷ xs) ≡ 0
    → Ring (insert_after e h s) h (e ∷ xs)
insert_after-Ring e h xs s ring new =
    Inserted-Ring e h (s.next h) s (insert_after e h s) h [] xs (headed-Inserted e h xs s ring new)
      refl (Chain-next s h xs h ring.chain) ring new
