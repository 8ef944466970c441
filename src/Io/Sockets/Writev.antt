-- ===== src/Io/Sockets/Writev.antt =====
-- `st_writev` of io.c.
use mathlib.Core.List.{append-nil, append_assoc}
use state_thread.Base.{
  ℕ, zero, suc, ◌+◌, ◌-◌, ◌≤◌, ◌<◌, ◌≡◌, refl, sym, ap, ◌∙◌, subst, Bool, true, false, Option, none,
  some, List, [], ◌∷◌, ◌++◌, if◌then◌else◌, ◌==◌, leb, Returns, Result, ok, err, Errno, enomem,
  arith, Bool-cases, inl, inr,
}
use state_thread.Vp.{Entered, returns, blocks}
use state_thread.Io.{
  Reply, gives, interrupted, not_ready, failed, Try, polled, Iovec, total, addresses, range, take,
  min, one_vector,
}
use state_thread.Io.Skips.{min_le, range-add, take-range}
use state_thread.Io.Transfers.{Complete, resid_loop-Moved}
use state_thread.Io.Sockets.{
  Copies, Wrote, unwritten, writev_round, last_result, writev_loop, writev,
}

-- The bytes behind the first ones
abbrev drop : ℕ → List ℕ → List ℕ
drop zero xs = xs
drop (suc n) [] = []
drop (suc n) (x ∷ xs) = drop n xs

take-drop : (n : ℕ) (xs : List ℕ) → take n xs ++ drop n xs ≡ xs
take-drop zero xs = refl
take-drop (suc n) [] = refl
take-drop (suc n) (x ∷ xs) = ap (λ ys. x ∷ ys) (take-drop n xs)

take_nil : (n : ℕ) → take n [] ≡ []
take_nil zero = refl
take_nil (suc n) = refl

take_twice : (m n : ℕ) (xs : List ℕ) → take m xs ++ take n (drop m xs) ≡ take (m + n) xs
take_twice zero n xs = let e : n ≡ 0 + n = omega arith in ap (λ i. take i xs) e
take_twice (suc m) zero [] = sym (take_nil (suc m + 0))
take_twice (suc m) (suc n) [] = sym (take_nil (suc m + suc n))
take_twice (suc m) n (x ∷ xs) =
    let e : suc (m + n) ≡ suc m + n = omega arith in
    ap (λ ys. x ∷ ys) (take_twice m n xs) ∙ ap (λ i. take i (x ∷ xs)) e

drop-range : (b n k : ℕ) (xs : List ℕ) → drop (n + k) (range b n ++ xs) ≡ drop k xs
drop-range b zero k xs = ap (λ i. drop i xs) (omega arith)
drop-range b (suc n) k xs =
    let e : suc n + k ≡ suc (n + k) = omega arith in
    ap (λ i. drop i (range b (suc n) ++ xs)) e ∙ drop-range (b + 1) n k xs

take-total : (vs : List Iovec) → take (total vs) (addresses vs) ≡ addresses vs
take-total [] = refl
take-total (v ∷ vs) =
    take-range v.iov_base v.iov_len (total vs) (addresses vs)
    ∙ ap (λ xs. range v.iov_base v.iov_len ++ xs) (take-total vs)

-- What is left of a vector
drop_part :
    (b len n : ℕ) (xs : List ℕ)
    → n ≤ len
    → range (b + n) (len - n) ++ xs ≡ drop n (range b len ++ xs)
drop_part b len n xs h =
    let e : len ≡ n + (len - n) = omega arith in
    let rest = range (b + n) (len - n) in
    sym (
      ap (λ i. drop n (range b i ++ xs)) e
      ∙ ap (λ ys. drop n (ys ++ xs)) (range-add b n (len - n))
      ∙ ap (drop n) (append_assoc (range b n) rest xs)
      ∙ ap (λ i. drop i (range b n ++ (rest ++ xs))) (omega arith)
      ∙ drop-range b n 0 (rest ++ xs))

-- So many bytes of the vectors are left: those that `tmp` has.
record Left (iov tmp : List Iovec) (nleft : ℕ) : Type 0 where
  bytes : addresses tmp ≡ drop (total iov - nleft) (addresses iov)
  size : total tmp ≡ nleft
  within : nleft ≤ total iov

-- There is a next unwritten vector as long as bytes are left.
unwritten-Returns :
    (n : ℕ) (vs : List Iovec)
    → n < total vs
    → Returns
        (λ tmp. (addresses tmp ≡ drop n (addresses vs)) × (total tmp ≡ total vs - n))
        (unwritten n vs)
unfolding unwritten
unwritten-Returns n [] h = absurd (omega arith)
unwritten-Returns n (v ∷ vs) h = elim (Bool-cases (leb v.iov_len n)) [
  | inl passed ↦
      let rest = unwritten-Returns (n - v.iov_len) vs (ground arith) in
      let e : n ≡ v.iov_len + (n - v.iov_len) = ground arith in
      rw (passed, rest.returned)
        (record {
          value = rest.value;
          returned = refl;
          holds = (
            rest.holds.0
                ∙ sym (drop-range v.iov_base v.iov_len (n - v.iov_len) (addresses vs))
                ∙ ap (λ i. drop i (range v.iov_base v.iov_len ++ addresses vs)) (sym e),
            ground (arith, rest.holds.1),
          );
        })
  | inr partly ↦ rw partly (record {
    value = _;
    returned = refl;
    holds = (drop_part v.iov_base v.iov_len n (addresses vs) (ground arith), ground arith);
  })
]

-- A call that returns without error has written all bytes, in order, and says how many.
abbrev Succeeds : List Iovec → Entered (Result ℕ) → (moved : List ℕ) → Type 0
Succeeds iov (returns (ok n)) moved = (n ≡ total iov) × (moved ≡ addresses iov)
Succeeds iov (returns (err e)) moved = Unit
Succeeds iov blocks moved = Unit

-- Always, the bytes written are first ones of the vectors, in order.
pub record WritesAll (iov : List Iovec) (r : Wrote) : Type 0 where
  pub left : List ℕ
  pub bytes : r.moved ++ left ≡ addresses iov
  pub succeeds : Succeeds iov r.result r.moved

-- The bytes written are the first ones of the vectors.
abbrev First : List Iovec → (n : ℕ) → (moved : List ℕ) → Type 0
First iov n moved = moved ≡ take n (addresses iov)

-- A call that does not succeed
stops :
    (iov : List Iovec) (n : ℕ) (moved : List ℕ)
    → First iov n moved
    → (e : Errno)
    → Returns (WritesAll iov) (some (record { result = returns (err e); moved = moved }))
stops iov n moved m e = record {
  value = _;
  returned = refl;
  holds = record {
    left = drop n (addresses iov);
    bytes = ap (λ xs. xs ++ drop n (addresses iov)) m ∙ take-drop n (addresses iov);
    succeeds = tt;
  };
}

ends :
    (iov : List Iovec) (moved : List ℕ)
    → moved ≡ addresses iov
    → Returns (WritesAll iov) (some (record { result = returns (ok (total iov)); moved = moved }))
ends iov moved m = record {
  value = _;
  returned = refl;
  holds = record { left = []; bytes = append-nil moved ∙ m; succeeds = (refl, m) };
}

module _ (iov tmp : List Iovec) (nleft : ℕ) (moved : List ℕ) (l : Left iov tmp nleft)
    (m : First iov (total iov - nleft) moved) where
  advance :
      (n : ℕ) → n ≤ nleft → First iov (total iov - (nleft - n)) (moved ++ take n (addresses tmp))
  advance n h =
      let a = total iov - nleft in
      let e : total iov - nleft + n ≡ total iov - (nleft - n) = omega (arith, l.within) in
      ap (λ xs. xs ++ take n (addresses tmp)) m
      ∙ ap (λ xs. take a (addresses iov) ++ take n xs) l.bytes
      ∙ take_twice a n (addresses iov)
      ∙ ap (λ i. take i (addresses iov)) e

  all_moved : (n : ℕ) → n ≡ nleft → moved ++ take n (addresses tmp) ≡ addresses iov
  all_moved n h =
      let e : total iov - (nleft - n) ≡ total iov = omega (arith, h) in
      advance n (omega (arith, h)) ∙ ap (λ i. take i (addresses iov)) e ∙ take-total iov

module _ (copies : Copies) (iov : List Iovec)
    (again : Bool → List Iovec → ℕ → List ℕ → Option Wrote)
    (h : (copied : Bool) (tmp : List Iovec) (nleft : ℕ) (moved : List ℕ)
      → Left iov tmp nleft
      → First iov (total iov - nleft) moved
      → Returns (WritesAll iov) (again copied tmp nleft moved)) where
  waits :
      (poll : Option Errno) (n : ℕ) (moved : List ℕ)
      → First iov n moved
      → {o : Option Wrote} → Returns (WritesAll iov) o
      → Returns
          (WritesAll iov)
          (polled poll (λ e. some (record { result = returns (err e); moved = moved })) o)
  waits none n moved m r = r
  waits (some e) n moved m r = stops iov n moved m e

  copies_them :
      (b : Bool) (n : ℕ) (moved : List ℕ)
      → First iov n moved
      → {o : Option Wrote} → Returns (WritesAll iov) o
      → Returns
          (WritesAll iov)
          (if b then some (record { result = returns (err enomem); moved = moved }) else o)
  copies_them true n moved m r = stops iov n moved m enomem
  copies_them false n moved m r = r

  writev_round-WritesAll :
      (reply : Reply) (poll : Option Errno) (copied : Bool) (tmp : List Iovec) (nleft : ℕ)
      (moved : List ℕ)
      → Left iov tmp nleft
      → First iov (total iov - nleft) moved
      → Returns (WritesAll iov) (
          writev_round copies iov again
            (record { reply = reply; poll = poll })
            copied
            tmp
            nleft
            moved)
  unfolding writev_round
  writev_round-WritesAll (gives k) poll copied tmp nleft moved l m =
      let n = min k (total tmp) in
      let low : n ≤ nleft = omega (arith, min_le k (total tmp), l.size) in
      let moved' = moved ++ take n (addresses tmp) in
      elim (Bool-cases (n == nleft)) [
        | inl whole ↦
            rw whole (ends iov moved' (all_moved iov tmp nleft moved l m n (ground (arith, whole))))
        | inr some_left ↦
            let first = advance iov tmp nleft moved l m n low in
            let next =
              unwritten-Returns (total iov - (nleft - n)) iov
                (ground (arith, l.within, low, some_left)) in
            rw (some_left, next.returned)
              (copies_them _ _ moved' first (
                waits poll _ moved' first (
                  h true next.value (nleft - n) moved'
                    (record {
                      bytes = next.holds.0;
                      size = omega (arith, next.holds.1, l.within);
                      within = omega (arith, l.within);
                    })
                    first)))
      ]
  writev_round-WritesAll interrupted poll copied tmp nleft moved l m = h copied tmp nleft moved l m
  writev_round-WritesAll not_ready poll copied tmp nleft moved l m =
      waits poll (total iov - nleft) moved m (h copied tmp nleft moved l m)
  writev_round-WritesAll (failed e) poll copied tmp nleft moved l m =
      stops iov (total iov - nleft) moved m e

-- The last vector is written by `st_write`.
last_result-WritesAll :
    (iov : List Iovec) (errno : Errno) (nleft : ℕ) (result : Entered (Result (Unit {0})))
    (left : List Iovec) (moved : List ℕ)
    → moved ++ addresses left ≡ addresses iov
    → Complete false result left
    → WritesAll iov (
        last_result errno
          (total iov)
          nleft
          (record { result = result; left = left; moved = moved }))
last_result-WritesAll iov errno nleft (returns (ok _)) left moved b c =
    let same : (nleft - total left == nleft) ≡ true = ground (arith, ap total c) in
    record {
      left = addresses left;
      bytes = b;
      succeeds =
          subst
            (λ (x : Bool).
              Succeeds iov (if x then returns (ok (total iov)) else returns (err errno)) moved)
            (sym same)
            (refl, sym (append-nil moved) ∙ sym (ap (λ vs. moved ++ addresses vs) c) ∙ b);
    }
last_result-WritesAll iov errno nleft (returns (err e)) left moved b c = record {
  left = addresses left;
  bytes = b;
  succeeds = tt;
}
last_result-WritesAll iov errno nleft blocks left moved b c = record {
  left = addresses left;
  bytes = b;
  succeeds = tt;
}

unless_done :
    (iov : List Iovec) (nleft : ℕ) (moved : List ℕ)
    → First iov (total iov - nleft) moved
    → {o : Option Wrote} → Returns (WritesAll iov) o
    → Returns (WritesAll iov) (
        if nleft == 0
        then some (record { result = returns (ok (total iov)); moved = moved })
        else o)
unless_done iov nleft moved m r = elim (Bool-cases (nleft == 0)) [
  | inl over ↦
      let e : total iov - nleft ≡ total iov = ground (arith, over) in
      rw over (ends iov moved (m ∙ ap (λ i. take i (addresses iov)) e ∙ take-total iov))
  | inr more ↦ rw more r
]

writev_loop-WritesAll :
    (copies : Copies) (iov : List Iovec) (ts : List Try) (copied : Bool) (tmp : List Iovec)
    (nleft : ℕ) (moved : List ℕ)
    → Left iov tmp nleft
    → First iov (total iov - nleft) moved
    → Returns (WritesAll iov) (writev_loop copies iov ts copied tmp nleft moved)
unfolding writev_loop
writev_loop-WritesAll copies iov [] copied tmp nleft moved l m =
    let a = total iov - nleft in
    unless_done iov nleft moved m (record {
      value = record { result = blocks; moved = moved };
      returned = refl;
      holds = record {
        left = drop a (addresses iov);
        bytes = ap (λ xs. xs ++ drop a (addresses iov)) m ∙ take-drop a (addresses iov);
        succeeds = tt;
      };
    })
writev_loop-WritesAll copies iov (t ∷ ts) copied [] nleft moved l m =
    unless_done iov nleft moved m (
      writev_round-WritesAll copies iov (writev_loop copies iov ts)
        (writev_loop-WritesAll copies iov ts) t.reply t.poll copied [] nleft moved l m)
writev_loop-WritesAll copies iov (t ∷ ts) copied (v ∷ []) nleft moved l m =
    let last = resid_loop-Moved false (t ∷ ts) (one_vector v.iov_base nleft) moved in
    let len : nleft ≡ v.iov_len = omega (arith, l.size) in
    let a = total iov - nleft in
    let bytes : moved ++ addresses (one_vector v.iov_base nleft) ≡ addresses iov =
      ap (λ n. moved ++ (range v.iov_base n ++ [])) len
      ∙ ap (λ xs. moved ++ xs) l.bytes
      ∙ ap (λ xs. xs ++ drop a (addresses iov)) m
      ∙ take-drop a (addresses iov) in
    unless_done iov nleft moved m (
      rw last.returned (record {
        value = last_result copies.errno (total iov) nleft last.value;
        returned = refl;
        holds =
            last_result-WritesAll iov copies.errno nleft last.value.result last.value.left
              last.value.moved (sym last.holds.bytes ∙ bytes) last.holds.complete;
      }))
writev_loop-WritesAll copies iov (t ∷ ts) copied (v ∷ w ∷ vs) nleft moved l m =
    unless_done iov nleft moved m (
      writev_round-WritesAll copies iov (writev_loop copies iov ts)
        (writev_loop-WritesAll copies iov ts) t.reply t.poll copied (v ∷ w ∷ vs) nleft moved l m)

-- Writing several vectors does not fail, whatever the system answers: there is always a next
-- unwritten vector when bytes are left. The bytes that the system has taken are always the first
-- ones of the vectors, in order; when the call returns without error, they are all of them, and
-- the count that it returns is their number.
pub writev-WritesAll :
    (copies : Copies) (ts : List Try) (iov : List Iovec)
    → Returns (WritesAll iov) (writev copies ts iov)
unfolding writev
writev-WritesAll copies ts iov =
    let none_moved : 0 ≡ total iov - total iov = omega arith in
    writev_loop-WritesAll copies iov ts false iov (total iov) []
      (record {
        bytes = ap (λ i. drop i (addresses iov)) none_moved;
        size = refl;
        within = omega arith;
      })
      (ap (λ i. take i (addresses iov)) none_moved)
