-- ===== src/Base.antt =====
-- Names, tests and lemmas that the modules share.
pub use Prim.Native.Nat.{ℕ, zero, suc, ◌+◌, ◌-◌, ◌*◌, ◌/◌, ◌%◌, ◌^◌, ◌≤◌, ◌<◌}
pub use mathlib.Core.Path.{◌≡◌, refl, sym, ap, ◌∙◌, subst, fun_ext}
pub use mathlib.Core.Logic.{◌≢◌, ◌↔◌, ◌⊎◌, inl, inr}
pub use mathlib.Core.Bool.{Bool, true, false, not, ◌&&◌, ◌||◌}
pub use mathlib.Core.Option.{Option, none, some}
pub use mathlib.Core.List.{List, [], ◌∷◌, ◌++◌, map}
pub use native.Mathlib.Omega.{arith}
use Prim.Native.Nat.{compare, Ordering}

abbrev pub ltb : ℕ → ℕ → Bool
ltb a b = elim (compare a b) [ Ordering.lt ↦ true | _ ↦ false ]

abbrev pub leb : ℕ → ℕ → Bool
leb a b = elim (compare a b) [ Ordering.gt ↦ false | _ ↦ true ]

infix 50 ◌==◌
abbrev pub ◌==◌ : ℕ → ℕ → Bool
a == b = elim (compare a b) [ Ordering.eq ↦ true | _ ↦ false ]

infix 1 if◌then◌else◌
abbrev pub if◌then◌else◌ {ℓ} : {A : Type ℓ} → Bool → A → A → A
if true then x else y = x
if false then x else y = y

pub Bool-cases : (b : Bool) → (b ≡ true) ⊎ (b ≡ false)
Bool-cases true = inl refl
Bool-cases false = inr refl

-- A field of every object of a kind is a function of the object's address.
abbrev pub update {ℓ} : {A : Type ℓ} → (ℕ → A) → ℕ → A → ℕ → A
update f p v q = if p == q then v else f q

-- What a null pointer and an errno of the source are.
abbrev pub null : ℕ
null = 0

-- A computation that does not fault, and the property of its result.
pub record Returns {ℓ κ} {A : Type ℓ} (P : A → Type κ) (o : Option A) : Type (ℓ ⊔ κ) where
  pub value : A
  pub returned : o ≡ some value
  pub holds : P value

abbrev pub one_if : Bool → ℕ
one_if b = if b then 1 else 0

infixl 5 ◌>>=◌
abbrev pub ◌>>=◌ {ℓ κ} : {A : Type ℓ} {B : Type κ} → Option A → (A → Option B) → Option B
none >>= f = none
some a >>= f = f a

-- Takes out the first occurrence, as unlinking an element does.
abbrev pub remove : ℕ → List ℕ → List ℕ
remove a [] = []
remove a (x ∷ xs) = if x == a then xs else x ∷ remove a xs

-- What a call of the library returns: a value, or -1 with `errno` set.
pub data Errno : Type 0 where
  einval eintr ebusy edeadlk eperm etime eagain enomem ebadf emfile eaddrinuse eexist : Errno

pub data Result {ℓ} (A : Type ℓ) : Type ℓ where
  ok : A → Result A
  err : Errno → Result A

-- Two writes to one place, and reading at a place that was written and at another.
pub update-update {ℓ} :
    {A : Type ℓ} (f : ℕ → A) (p : ℕ) (a b : A) → update (update f p a) p b ≡ update f p b
update-update f p a b = fun_ext λ q. ground arith

pub update_self {ℓ} : {A : Type ℓ} (f : ℕ → A) (p : ℕ) (a : A) → update f p a p ≡ a
update_self f p a = ground arith

pub update_other {ℓ} :
    {A : Type ℓ} (f : ℕ → A) (p q : ℕ) (a : A) → (p == q) ≡ false → update f p a q ≡ f q
update_other f p q a h = rw h

-- A write of what stands there, changed.
pub update_again {ℓ} :
    {A : Type ℓ} (φ : A → A) (f : ℕ → A) (p : ℕ) (a : A)
    → update (update f p a) p (φ (update f p a p)) ≡ update f p (φ a)
update_again φ f p a =
    ap (λ x. update (update f p a) p (φ x)) (update_self f p a) ∙ update-update f p a (φ a)

pub ==→≡ : (a b : ℕ) → (a == b) ≡ true → a ≡ b
==→≡ a b h = ground arith

-- Lists over the native numbers
abbrev pub length {ℓ} : {A : Type ℓ} → List A → ℕ
length [] = 0
length (x ∷ xs) = suc (length xs)

abbrev pub take_first {ℓ} : {A : Type ℓ} → ℕ → List A → List A
take_first zero xs = []
take_first (suc n) [] = []
take_first (suc n) (x ∷ xs) = x ∷ take_first n xs

abbrev pub drop_first {ℓ} : {A : Type ℓ} → ℕ → List A → List A
drop_first zero xs = xs
drop_first (suc n) [] = []
drop_first (suc n) (x ∷ xs) = drop_first n xs

-- How often a thread stands in a queue.
abbrev pub occurs : ℕ → List ℕ → ℕ
occurs t [] = 0
occurs t (x ∷ xs) = one_if (x == t) + occurs t xs

pub occurs-append : (t : ℕ) (xs ys : List ℕ) → occurs t (xs ++ ys) ≡ occurs t xs + occurs t ys
occurs-append t [] ys = omega arith
occurs-append t (x ∷ xs) ys = omega (arith, occurs-append t xs ys)

pub occurs-remove :
    (t a : ℕ) (xs : List ℕ)
    → occurs a xs ≢ 0
    → occurs t (remove a xs) + one_if (a == t) ≡ occurs t xs
occurs-remove t a [] h = absurd (h refl)
occurs-remove t a (x ∷ xs) h = ground (arith, occurs-remove t a xs)

pub occurs-remove_all :
    (t a : ℕ) (xs : List ℕ)
    → occurs t (remove a xs) ≡ occurs t xs - one_if (a == t && ltb 0 (occurs a xs))
occurs-remove_all t a [] = ground arith
occurs-remove_all t a (x ∷ xs) = ground (arith, occurs-remove_all t a xs)

-- What is in a queue after an element that was there once has been taken out is another one.
pub remove_apart :
    (t u : ℕ) (q : List ℕ) → occurs t q ≤ 1 → occurs u (remove t q) ≢ 0 → (t == u) ≡ false
remove_apart t u q once there = elim (Bool-cases (t == u)) [
  | inl same ↦ absurd (
      there
        (ground (arith, once, occurs-remove_all u t q, ap (λ (i : ℕ). occurs i q) (==→≡ t u same))))
  | inr apart ↦ apart
]
