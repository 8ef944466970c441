-- ===== src/Io/Skips.antt =====
-- The inner loop of io.c that passes the vectors that are done, and the bytes of vectors.
use mathlib.Core.List.{append-nil, append_assoc}
use state_thread.Base.{
  ℕ, zero, suc, ◌+◌, ◌-◌, ◌≤◌, ◌<◌, ◌≡◌, refl, sym, ap, ◌∙◌, subst, List, [], ◌∷◌, ◌++◌, ◌==◌, leb,
  Returns, arith, Bool-cases, inl, inr,
}
use state_thread.Io.{Iovec, total, range, addresses, min, take, skip, shift}

pub range-add : (b n m : ℕ) → range b (n + m) ≡ range b n ++ range (b + n) m
range-add b zero m =
    let e : 0 + m ≡ m = omega arith in let e' : b + 0 ≡ b = omega arith in rw (e, e')
range-add b (suc n) m =
    let e : suc n + m ≡ suc (n + m) = omega arith in
    let e' : b + 1 + n ≡ b + suc n = omega arith in
    subst (λ k. range b k ≡ range b (suc n) ++ range (b + suc n) m) (sym e)
      (ap (λ xs. b ∷ xs) (range-add (b + 1) n m ∙ ap (λ c. range (b + 1) n ++ range c m) e'))

pub take-range : (b n k : ℕ) (xs : List ℕ) → take (n + k) (range b n ++ xs) ≡ range b n ++ take k xs
take-range b zero k xs = let e : 0 + k ≡ k = omega arith in rw e
take-range b (suc n) k xs =
    let e : suc n + k ≡ suc (n + k) = omega arith in
    subst (λ i. take i (range b (suc n) ++ xs) ≡ range b (suc n) ++ take k xs) (sym e)
      (ap (λ ys. b ∷ ys) (take-range (b + 1) n k xs))

pub min_le : (k t : ℕ) → min k t ≤ t
min_le k t = ground arith

-- The bytes are those that were taken, and those that are left.
abbrev pub Skipped : ℕ → List Iovec → ℕ × List Iovec → Type 0
Skipped n vs r = addresses vs ≡ take n (addresses vs) ++ addresses (shift r)

shift_none : (vs : List Iovec) → addresses (shift (0, vs)) ≡ addresses vs
shift_none [] = refl
shift_none (v ∷ vs) =
    let e : v.iov_base + 0 ≡ v.iov_base = omega arith in
    let e' : v.iov_len - 0 ≡ v.iov_len = omega arith in
    ap (λ b. range b (v.iov_len - 0) ++ addresses vs) e
    ∙ ap (λ l. range v.iov_base l ++ addresses vs) e'

take_none : (xs : List ℕ) → take 0 xs ≡ []
take_none xs = refl

-- The vector is passed whole, with `k` bytes of the others.
whole :
    (v : Iovec) (vs : List Iovec) (n k : ℕ) (r : ℕ × List Iovec)
    → n ≡ v.iov_len + k
    → Skipped k vs r
    → Skipped n (v ∷ vs) r
whole v vs n k r e s =
    subst (λ i. Skipped i (v ∷ vs) r) (sym e)
      (ap (λ xs. range v.iov_base v.iov_len ++ xs) s
        ∙ sym (
            append_assoc (range v.iov_base v.iov_len) (take k (addresses vs)) (addresses (shift r)))
        ∙ ap (λ xs. xs ++ addresses (shift r))
            (sym (take-range v.iov_base v.iov_len k (addresses vs))))

-- A part of the vector is passed.
take_part : (b n : ℕ) (xs : List ℕ) → take n (range b n ++ xs) ≡ range b n
take_part b n xs =
    let e : n ≡ n + 0 = omega arith in
    ap (λ i. take i (range b n ++ xs)) e ∙ take-range b n 0 xs ∙ append-nil (range b n)

part :
    (b n m : ℕ) (xs : List ℕ)
    → range b (n + m) ++ xs ≡ take n (range b (n + m) ++ xs) ++ (range (b + n) (n + m - n) ++ xs)
part b n m xs =
    let rest = range (b + n) m ++ xs in
    let split =
      ap (λ ys. ys ++ xs) (range-add b n m) ∙ append_assoc (range b n) (range (b + n) m) xs in
    let e : m ≡ n + m - n = omega arith in
    subst (λ ys. ys ≡ take n ys ++ (range (b + n) (n + m - n) ++ xs)) (sym split)
      (ap (λ ys. ys ++ rest) (sym (take_part b n rest))
        ∙ ap (λ i. take n (range b n ++ rest) ++ (range (b + n) i ++ xs)) e)

part-Skipped :
    (v : Iovec) (vs : List Iovec) (n : ℕ) → n ≤ v.iov_len → Skipped n (v ∷ vs) (n, v ∷ vs)
part-Skipped v vs n h =
    let e : n + (v.iov_len - n) ≡ v.iov_len = omega arith in
    subst
      (λ l.
        range v.iov_base l ++ addresses vs
        ≡ take n (range v.iov_base l ++ addresses vs)
          ++ (range (v.iov_base + n) (l - n) ++ addresses vs))
      e (part v.iov_base n (v.iov_len - n) (addresses vs))

skip_step :
    (n : ℕ) (v : Iovec) (vs : List Iovec)
    → (v.iov_len < n → Returns (Skipped n (v ∷ vs)) (skip (n - v.iov_len) vs))
    → Returns (Skipped n (v ∷ vs)) (skip n (v ∷ vs))
unfolding skip
skip_step n v vs again = elim (Bool-cases (leb v.iov_len n)) [
  | inr small ↦
      rw small (record {
        value = (n, v ∷ vs);
        returned = refl;
        holds = part-Skipped v vs n (ground arith);
      })
  | inl big ↦ rw big elim (Bool-cases (n == v.iov_len)) [
    | inl same ↦ rw same (record {
      value = (0, vs);
      returned = refl;
      holds = whole v vs n 0 (0, vs) (ground arith) (sym (shift_none vs));
    })
    | inr more ↦ rw more (again (ground arith))
  ]
]

pub skip-Skipped :
    (n : ℕ) (v : Iovec) (vs : List Iovec)
    → n ≤ total (v ∷ vs)
    → Returns (Skipped n (v ∷ vs)) (skip n (v ∷ vs))
skip-Skipped n v [] h = skip_step n v [] (λ g. absurd (omega arith))
skip-Skipped n v (w ∷ ws) h = skip_step n v (w ∷ ws) λ g.
    let rest = skip-Skipped (n - v.iov_len) w ws (omega arith) in
    record {
      value = rest.value;
      returned = rest.returned;
      holds = whole v (w ∷ ws) n (n - v.iov_len) rest.value (omega arith) rest.holds;
    }
