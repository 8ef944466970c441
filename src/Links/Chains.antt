-- ===== src/Links/Chains.antt =====
-- What a circular list of common.h is: links that go around in both directions.
use state_thread.Base.{
  ℕ, ◌+◌, ◌≤◌, ◌≡◌, ◌≢◌, refl, sym, ◌∙◌, Bool, true, false, List, [], ◌∷◌, occurs, one_if, ◌==◌,
  arith, ap, subst, Bool-cases, ==→≡, inl, inr,
}
use state_thread.Links.{Links, clist_is_empty, init_clist}

-- The links from one element through others to one behind.
abbrev pub Chain : Links → ℕ → List ℕ → ℕ → Type 0
Chain s a [] b = (s.next a ≡ b) × (s.prev b ≡ a)
Chain s a (x ∷ xs) b = (s.next a ≡ x) × (s.prev x ≡ a) × Chain s x xs b

-- No element stands in it twice; it may end where it begins.
abbrev pub Apart : ℕ → List ℕ → ℕ → Type 0
Apart a xs b = (t : ℕ) → (occurs t (a ∷ xs) ≤ 1) × (one_if (b == t) + occurs t xs ≤ 1)

-- The circular list with a head and these elements
pub record Ring (s : Links) (h : ℕ) (xs : List ℕ) : Type 0 where
  pub chain : Chain s h xs h
  pub once : (t : ℕ) → occurs t (h ∷ xs) ≤ 1

pub Ring-Apart : {s : Links} {h : ℕ} {xs : List ℕ} → Ring s h xs → Apart h xs h
Ring-Apart ring t = (ring.once t, ring.once t)

abbrev pub last : ℕ → List ℕ → ℕ
last a [] = a
last a (x ∷ xs) = last x xs

abbrev pub first : List ℕ → ℕ → ℕ
first [] b = b
first (x ∷ xs) b = x

pub last_there : (a : ℕ) (xs : List ℕ) → occurs (last a xs) (a ∷ xs) ≢ 0
last_there a [] = ground arith
last_there a (x ∷ xs) = ground (arith, last_there x xs)

pub Apart-tail : (a x : ℕ) (xs : List ℕ) (b : ℕ) → Apart a (x ∷ xs) b → Apart x xs b
Apart-tail a x xs b apart t = (ground (arith, apart t), ground (arith, apart t))

pub first_there : (xs : List ℕ) (b : ℕ) → one_if (b == first xs b) + occurs (first xs b) xs ≢ 0
first_there [] b = ground arith
first_there (x ∷ xs) b = ground arith

pub apart_from : (t e : ℕ) (xs : List ℕ) → occurs t xs ≢ 0 → occurs e xs ≡ 0 → (t == e) ≡ false
apart_from t e xs there off = elim (Bool-cases (t == e)) [
  | inl same ↦ absurd (there (ap (λ (i : ℕ). occurs i xs) (==→≡ t e same) ∙ off))
  | inr apart ↦ apart
]

-- A chain stands in every memory with the same links in it.
pub Chain-same :
    (s s' : Links) (a : ℕ) (xs : List ℕ) (b : ℕ)
    → ((t : ℕ) → occurs t (a ∷ xs) ≢ 0 → s'.next t ≡ s.next t)
    → ((t : ℕ) → one_if (b == t) + occurs t xs ≢ 0 → s'.prev t ≡ s.prev t)
    → Chain s a xs b
    → Chain s' a xs b
Chain-same s s' a [] b forth back c = (forth a (ground arith) ∙ c.0, back b (ground arith) ∙ c.1)
Chain-same s s' a (x ∷ xs) b forth back c = (
  forth a (ground arith) ∙ c.0,
  back x (ground arith) ∙ c.1,
  Chain-same s s' x xs b (λ t h. forth t (ground (arith, h))) (λ t h. back t (ground (arith, h)))
      c.2,
)

pub Chain-next : (s : Links) (a : ℕ) (xs : List ℕ) (b : ℕ) → Chain s a xs b → s.next a ≡ first xs b
Chain-next s a [] b c = c.0
Chain-next s a (x ∷ xs) b c = c.0

pub Chain-prev : (s : Links) (a : ℕ) (xs : List ℕ) (b : ℕ) → Chain s a xs b → s.prev b ≡ last a xs
Chain-prev s a [] b c = c.1
Chain-prev s a (x ∷ xs) b c = Chain-prev s x xs b c.2

-- The neighbours of an element are in the chain.
pub prev_there :
    (s : Links) (e a : ℕ) (xs : List ℕ) (b : ℕ)
    → Chain s a xs b
    → occurs e xs ≢ 0
    → occurs (s.prev e) (a ∷ xs) ≢ 0
prev_there s e a [] b c there = absurd (there refl)
prev_there s e a (x ∷ xs) b c there = elim (Bool-cases (x == e)) [
  | inl same ↦ ground (arith, ap s.prev (==→≡ x e same), c.1)
  | inr off ↦ ground (arith, prev_there s e x xs b c.2, there, off)
]

pub next_there :
    (s : Links) (e a : ℕ) (xs : List ℕ) (b : ℕ)
    → Chain s a xs b
    → occurs e xs ≢ 0
    → one_if (b == s.next e) + occurs (s.next e) xs ≢ 0
next_there s e a [] b c there = absurd (there refl)
next_there s e a (x ∷ xs) b c there = elim (Bool-cases (x == e)) [
  | inl same ↦
      let follows = sym (ap s.next (==→≡ x e same)) ∙ Chain-next s x xs b c.2 in
      subst (λ n. one_if (b == n) + occurs n (x ∷ xs) ≢ 0) (sym follows)
        (ground (arith, first_there xs b))
  | inr off ↦ ground (arith, next_there s e x xs b c.2, there, off)
]

abbrev pub is_nil : List ℕ → Bool
is_nil [] = true
is_nil (x ∷ xs) = false

pub sym_off : (t u : ℕ) → (t == u) ≡ false → (u == t) ≡ false
sym_off t u h = ground (arith, h)

-- The test for an empty list says whether there are elements.
pub clist_is_empty-Ring :
    (h : ℕ) (xs : List ℕ) (s : Links) → Ring s h xs → clist_is_empty h s ≡ is_nil xs
unfolding clist_is_empty
clist_is_empty-Ring h [] s ring = ap (λ i. i == h) ring.chain.0 ∙ ground arith
clist_is_empty-Ring h (x ∷ xs) s ring = ap (λ i. i == h) ring.chain.0 ∙ ground (arith, ring.once x)

pub init_clist-Ring : (h : ℕ) (s : Links) → Ring (init_clist h s) h []
unfolding init_clist
init_clist-Ring h s = record { chain = (ground arith, ground arith); once = λ t. ground arith }

-- The head's neighbours are in the list.
pub head_next : (s : Links) (h : ℕ) (xs : List ℕ) → Ring s h xs → occurs (s.next h) (h ∷ xs) ≢ 0
head_next s h xs ring =
    subst (λ i. occurs i (h ∷ xs) ≢ 0) (sym (Chain-next s h xs h ring.chain))
      (ground (arith, first_there xs h))

pub head_prev : (s : Links) (h : ℕ) (xs : List ℕ) → Ring s h xs → occurs (s.prev h) (h ∷ xs) ≢ 0
head_prev s h xs ring =
    subst (λ i. occurs i (h ∷ xs) ≢ 0) (sym (Chain-prev s h xs h ring.chain)) (last_there h xs)
