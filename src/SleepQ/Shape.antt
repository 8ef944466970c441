-- ===== src/SleepQ/Shape.antt =====
-- What docs/timeout_heap.txt says of the tree: which places are taken, the numbers of the nodes, and
-- the heap order.
use state_thread.Base.{
  ℕ, ◌+◌, ◌*◌, ◌≤◌, ◌<◌, ◌≡◌, ◌≢◌, ◌⊎◌, refl, subst, ◌∙◌, inl, inr, Bool, true, false, List, [],
  ◌∷◌, arith, leb, ◌==◌, if◌then◌else◌, one_if, Bool-cases,
}
use state_thread.SleepQ.{Tree, leaf, node, SleepQ, child_index}

-- How often a thread stands in the tree.
abbrev pub count : ℕ → Tree → ℕ
count i leaf = 0
count i (node x l r) = one_if (x == i) + (count i l + count i r)

-- Is there a node at the end of this path? `true` goes to the right.
abbrev occupied : List Bool → Tree → Bool
occupied p leaf = false
occupied [] (node x l r) = true
occupied (b ∷ p) (node x l r) = occupied p (if b then r else l)

-- The number of the place that a path leads to from the place `k`.
abbrev pub index : ℕ → List Bool → ℕ
index k [] = k
index k (b ∷ p) = index (child_index k b) p

-- The places taken are those with a number up to `n`.
abbrev pub Shape : ℕ → ℕ → Tree → Type 0
Shape k n t = (p : List Bool) → occupied p t ≡ leb (index k p) n

-- Each thread's `heap_index` is the number of its place.
abbrev pub Indexed : (ℕ → ℕ) → ℕ → Tree → Type 0
Indexed hi k leaf = Unit {0}
Indexed hi k (node x l r) = (hi x ≡ k) × Indexed hi (k * 2) l × Indexed hi (k * 2 + 1) r

-- The root is due at `d` or later.
abbrev pub Above : (ℕ → ℕ) → ℕ → Tree → Type 0
Above due d leaf = Unit {0}
Above due d (node x l r) = d ≤ due x

abbrev pub IsHeap : (ℕ → ℕ) → Tree → Type 0
IsHeap due leaf = Unit {0}
IsHeap due (node x l r) = Above due (due x) l × Above due (due x) r × IsHeap due l × IsHeap due r

pub record IsSleepQ (q : SleepQ) : Type 0 where
  pub heap : IsHeap q.due q.sleep_q
  pub shape : Shape 1 q.sleepq_size q.sleep_q
  pub indexed : Indexed q.heap_index 1 q.sleep_q
  pub distinct : (i : ℕ) → count i q.sleep_q ≤ 1

pub le-index : (k : ℕ) (p : List Bool) → k ≤ index k p
le-index k [] = omega arith
le-index k (true ∷ p) = omega (arith, le-index (k * 2 + 1) p)
le-index k (false ∷ p) = omega (arith, le-index (k * 2) p)

-- No place lies under two places of which neither is above the other.
pub index-ne : (a b : ℕ) (p q : List Bool) → a < b → b < a * 2 → index a p ≢ index b q
index-ne a b [] q h g = λ e. omega (arith, le-index b q)
index-ne a b (true ∷ p) [] h g = λ e. omega (arith, le-index (a * 2 + 1) p)
index-ne a b (false ∷ p) [] h g = λ e. omega (arith, le-index (a * 2) p)
index-ne a b (true ∷ p) (true ∷ q) h g =
    index-ne (a * 2 + 1) (b * 2 + 1) p q (omega arith) (omega arith)
index-ne a b (true ∷ p) (false ∷ q) h g =
    index-ne (a * 2 + 1) (b * 2) p q (omega arith) (omega arith)
index-ne a b (false ∷ p) (true ∷ q) h g =
    index-ne (a * 2) (b * 2 + 1) p q (omega arith) (omega arith)
index-ne a b (false ∷ p) (false ∷ q) h g = index-ne (a * 2) (b * 2) p q (omega arith) (omega arith)

pub Above-mono : (due : ℕ → ℕ) {d e : ℕ} (t : Tree) → d ≤ e → Above due e t → Above due d t
Above-mono due leaf h a = tt
Above-mono due (node x l r) h a = omega arith

-- Only the indices of the threads in a tree matter to it.
pub Indexed-frame :
    (hi hi' : ℕ → ℕ) (k : ℕ) (t : Tree)
    → ((i : ℕ) → count i t ≢ 0 → hi' i ≡ hi i)
    → Indexed hi k t
    → Indexed hi' k t
Indexed-frame hi hi' k leaf same h = tt
Indexed-frame hi hi' k (node x l r) same h = (
  same x (ground arith) ∙ h.0,
  Indexed-frame hi hi' (k * 2) l (λ i c. same i (ground arith)) h.1,
  Indexed-frame hi hi' (k * 2 + 1) r (λ i c. same i (ground arith)) h.2,
)

-- The number of a thread leads to its place.
pub Indexed-index :
    (hi : ℕ → ℕ) (i k : ℕ) (t : Tree)
    → Indexed hi k t
    → count i t ≢ 0
    → (p : List Bool) × (hi i ≡ index k p)
Indexed-index hi i k leaf h c = absurd (c refl)
Indexed-index hi i k (node x l r) h c = elim (Bool-cases (x == i)) [
  | inl here ↦ ([], ground arith)
  | inr off ↦ elim (Bool-cases (count i l == 0)) [
    | inl right ↦ let (p, e) = Indexed-index hi i (k * 2 + 1) r h.2 (ground arith) in (true ∷ p, e)
    | inr left ↦ let (p, e) = Indexed-index hi i (k * 2) l h.1 (ground arith) in (false ∷ p, e)
  ]
]

-- A thread in the tree has the number of a place that is taken.
pub Indexed-le :
    (hi : ℕ → ℕ) (i k n : ℕ) (t : Tree) → Indexed hi k t → Shape k n t → count i t ≢ 0 → hi i ≤ n
Indexed-le hi i k n leaf h s c = absurd (c refl)
Indexed-le hi i k n (node x l r) h s c = elim (Bool-cases (x == i)) [
  | inl here ↦ ground (arith, s [])
  | inr off ↦ elim (Bool-cases (count i l == 0)) [
    | inl right ↦ Indexed-le hi i (k * 2 + 1) n r h.2 (λ p. s (true ∷ p)) (ground arith)
    | inr left ↦ Indexed-le hi i (k * 2) n l h.1 (λ p. s (false ∷ p)) (ground arith)
  ]
]

pub Shape-leaf : (k n : ℕ) (t : Tree) → Shape k n t → n < k → t ≡ leaf
Shape-leaf k n leaf s h = refl
Shape-leaf k n (node x l r) s h = absurd (ground (arith, s []))

Above-frame :
    (due due' : ℕ → ℕ) (d : ℕ) (t : Tree)
    → ((i : ℕ) → count i t ≢ 0 → due' i ≡ due i)
    → Above due d t
    → Above due' d t
Above-frame due due' d leaf same h = tt
Above-frame due due' d (node x l r) same h = omega (arith, same x (ground arith))

pub IsHeap-frame :
    (due due' : ℕ → ℕ) (t : Tree)
    → ((i : ℕ) → count i t ≢ 0 → due' i ≡ due i)
    → IsHeap due t
    → IsHeap due' t
IsHeap-frame due due' leaf same h = tt
IsHeap-frame due due' (node x l r) same h =
    let root = same x (ground arith) in
    (
      rw root (Above-frame due due' (due x) l (λ i c. same i (ground arith)) h.0),
      rw root (Above-frame due due' (due x) r (λ i c. same i (ground arith)) h.1),
      IsHeap-frame due due' l (λ i c. same i (ground arith)) h.2,
      IsHeap-frame due due' r (λ i c. same i (ground arith)) h.3,
    )

in_child :
    (x i : ℕ) (l r : Tree) → count i (node x l r) ≢ 0 → (x ≡ i) ⊎ (count i l ≢ 0) ⊎ (count i r ≢ 0)
in_child x i l r c = elim (Bool-cases (x == i)) [
  | inl here ↦ inl (ground arith)
  | inr off ↦ elim (Bool-cases (count i l == 0)) [
    | inl right ↦ inr (inr (ground arith))
    | inr left ↦ inr (inl (ground arith))
  ]
]

Above-least :
    (due : ℕ → ℕ) (d i : ℕ) (t : Tree) → Above due d t → IsHeap due t → count i t ≢ 0 → d ≤ due i
Above-least due d i leaf a h c = absurd (c refl)
Above-least due d i (node x l r) a h c = elim (in_child x i l r c) [
  | inl here ↦ subst (λ j. d ≤ due j) here a
  | inr (inl left) ↦ Above-least due d i l (Above-mono due l a h.0) h.2 left
  | inr (inr right) ↦ Above-least due d i r (Above-mono due r a h.1) h.3 right
]

-- The root is due first.
pub root_least :
    (due : ℕ → ℕ) (x i : ℕ) (l r : Tree)
    → IsHeap due (node x l r)
    → count i (node x l r) ≢ 0
    → due x ≤ due i
root_least due x i l r h c = Above-least due (due x) i (node x l r) (omega arith) h c
