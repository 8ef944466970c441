-- ===== src/SleepQ/Places.antt =====
-- The numbers of the places, and the way that the bits of a number give.
use state_thread.Base.{
  ℕ, zero, suc, ◌+◌, ◌*◌, ◌/◌, ◌^◌, ◌≤◌, ◌<◌, ◌≡◌, ◌≢◌, refl, sym, ap, ◌∙◌, subst, inl, inr, Bool,
  true, false, List, [], ◌∷◌, arith, ◌==◌, Bool-cases,
}
use native.Mathlib.Nat.{mul_comm, div-div-eq-div-mul, pow-suc}
use state_thread.SleepQ.{bit_count, has_bit, child_index, rounds}
use state_thread.SleepQ.Shape.{index, le-index, index-ne}

-- The path that the bits of `target` below `bit` give.
abbrev path : ℕ → ℕ → List Bool
path target zero = []
path target (suc bit) = has_bit target bit ∷ path target bit

div-pow-suc : (target bit : ℕ) → target / 2 ^ suc bit ≡ target / 2 ^ bit / 2
div-pow-suc target bit = rw pow-suc (rw div-div-eq-div-mul)

child_index-div :
    (target bit : ℕ) → child_index (target / 2 ^ suc bit) (has_bit target bit) ≡ target / 2 ^ bit
child_index-div target bit = rw div-pow-suc (ground arith)

index-path : (target bit : ℕ) → index (target / 2 ^ bit) (path target bit) ≡ target
index-path target zero = omega arith
index-path target (suc bit) =
    ap (λ (k : ℕ). index k (path target bit)) (child_index-div target bit) ∙ index-path target bit

half-div-pow : (s b : ℕ) → s / 2 ^ suc b ≡ s / 2 / 2 ^ b
half-div-pow s b = rw (pow-suc, mul_comm (2 ^ b) 2) (sym (div-div-eq-div-mul s 2 (2 ^ b)))

bit_count_zero : (f bits : ℕ) → bit_count f 0 bits ≡ bits
unfolding bit_count
bit_count_zero zero bits = refl
bit_count_zero (suc f) bits = refl

-- The walk to the place `s` starts at the root, which has the number 1.
bit_count_lem :
    (f s bits : ℕ) → 1 ≤ s → s ≤ f → (b : ℕ) × (bit_count f s bits ≡ b + bits + 1) × (s / 2 ^ b ≡ 1)
unfolding bit_count
bit_count_lem zero s bits h g = absurd (omega arith)
bit_count_lem (suc f) s bits h g = elim (Bool-cases (s == 1)) [
  | inl one ↦ (0, ground (arith, bit_count_zero f (bits + 1)), ground arith)
  | inr more ↦
      let (b, e, d) = bit_count_lem f (s / 2) (bits + 1) (ground arith) (omega arith) in
      (suc b, ground arith, half-div-pow s b ∙ d)
]

-- The walk starts at the root.
pub rounds_lem : (target : ℕ) → 1 ≤ target → 1 ≡ target / 2 ^ rounds target
rounds_lem target h =
    let (b, e, d) = bit_count_lem target target 0 h (omega arith) in
    let same : rounds target ≡ b = omega arith in rw same (sym d)

module _ (target : ℕ) where
  -- The two children of a place on the way, and the target under one of them.
  pub off_right :
      (k b : ℕ) → 1 ≤ k → target / 2 ^ b ≡ k * 2 → (p : List Bool) → index (k * 2 + 1) p ≢ target
  off_right k b pos at p e =
      index-ne (k * 2) (k * 2 + 1) (path target b) p (omega arith) (omega arith)
        (ap (λ (j : ℕ). index j (path target b)) (sym at) ∙ index-path target b ∙ sym e)

  pub off_left :
      (k b : ℕ) → 1 ≤ k → target / 2 ^ b ≡ k * 2 + 1 → (p : List Bool) → index (k * 2) p ≢ target
  off_left k b pos at p e =
      index-ne (k * 2) (k * 2 + 1) p (path target b) (omega arith) (omega arith)
        (e ∙ sym (ap (λ (j : ℕ). index j (path target b)) (sym at) ∙ index-path target b))

  -- A place on the way has a number below the target's.
  pub on_the_way : (k bit : ℕ) → 1 ≤ k → k ≡ target / 2 ^ suc bit → k < target
  on_the_way k bit pos at = omega (
    arith,
    div-pow-suc target bit,
    le-index (target / 2 ^ bit) (path target bit),
    index-path target bit,
  )

  pub child_at :
      (k bit : ℕ) → k ≡ target / 2 ^ suc bit → child_index k (has_bit target bit) ≡ target / 2 ^ bit
  child_at k bit at =
      subst (λ j. child_index j (has_bit target bit) ≡ target / 2 ^ bit) (sym at)
        (child_index-div target bit)

pub child_pos : (k : ℕ) (b : Bool) → 1 ≤ k → 1 ≤ child_index k b
child_pos k true h = omega arith
child_pos k false h = omega arith
