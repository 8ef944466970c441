-- ===== src/Io/Transfers.antt =====
-- The bytes that the functions of io.c with a residue move.
use mathlib.Core.List.{append_assoc}
use state_thread.Base.{
  ℕ, ◌≡◌, refl, sym, ap, ◌∙◌, Bool, true, false, ◌&&◌, Option, none, some, List, [], ◌∷◌, ◌++◌,
  if◌then◌else◌, ◌==◌, ◌>>=◌, Returns, Result, ok, err, Errno, arith,
}
use state_thread.Vp.{Entered, returns, blocks}
use state_thread.Io.{
  Reply, gives, interrupted, not_ready, failed, Try, Iovec, total, addresses, min, take, shift,
  Transfer, onward, resid_round, resid_loop, write, as_count, one_vector, readv_resid, writev_resid,
}
use state_thread.Io.Skips.{Skipped, min_le, skip-Skipped}

-- A call that writes and succeeds leaves nothing.
abbrev pub Complete : Bool → Entered (Result (Unit {0})) → List Iovec → Type 0
Complete false (returns (ok _)) left = left ≡ []
Complete false (returns (err _)) left = Unit {0}
Complete false blocks left = Unit {0}
Complete true result left = Unit {0}

-- The bytes of the vectors are those moved, in order, and those left.
pub record Moved (reads : Bool) (vs : List Iovec) (before : List ℕ) (r : Transfer) : Type 0 where
  pub bytes : before ++ addresses vs ≡ r.moved ++ addresses r.left
  pub complete : Complete reads r.result r.left

onward-Moved :
    (reads : Bool) (again : List Iovec → Option Transfer) (poll : Option Errno) (before : List ℕ)
    (vs : List Iovec)
    → ((vs' : List Iovec) → Returns (Moved reads vs' before) (again vs'))
    → Returns (Moved reads vs before) (onward again poll before vs)
onward-Moved true again poll before [] h = record {
  value = _;
  returned = refl;
  holds = record { bytes = refl; complete = tt };
}
onward-Moved false again poll before [] h = record {
  value = _;
  returned = refl;
  holds = record { bytes = refl; complete = refl };
}
onward-Moved reads again none before (v ∷ vs) h = h (v ∷ vs)
onward-Moved true again (some e) before (v ∷ vs) h = record {
  value = _;
  returned = refl;
  holds = record { bytes = refl; complete = tt };
}
onward-Moved false again (some e) before (v ∷ vs) h = record {
  value = _;
  returned = refl;
  holds = record { bytes = refl; complete = tt };
}

stopping :
    (reads z : Bool) (vs : List Iovec) (before : List ℕ) {o : Option Transfer}
    → Returns (Moved reads vs before) o
    → Returns (Moved reads vs before) (
        if reads && z
        then some (record { result = returns (ok tt); left = vs; moved = before })
        else o)
stopping true true vs before h = record {
  value = _;
  returned = refl;
  holds = record { bytes = refl; complete = tt };
}
stopping true false vs before h = h
stopping false z vs before h = h

failing :
    (reads : Bool) (e : Errno) (vs : List Iovec) (before : List ℕ)
    → Returns
        (Moved reads vs before)
        (some (record { result = returns (err e); left = vs; moved = before }))
failing true e vs before = record {
  value = _;
  returned = refl;
  holds = record { bytes = refl; complete = tt };
}
failing false e vs before = record {
  value = _;
  returned = refl;
  holds = record { bytes = refl; complete = tt };
}

-- What is moved of some vectors and then of those left is moved of them all.
Moved-step :
    (reads : Bool) (n : ℕ) (vs : List Iovec) (before : List ℕ) (r : ℕ × List Iovec)
    → Skipped n vs r
    → {o : Option Transfer} → Returns (Moved reads (shift r) (before ++ take n (addresses vs))) o
    → Returns (Moved reads vs before) o
Moved-step reads n vs before r s rest = record {
  value = rest.value;
  returned = rest.returned;
  holds = record {
    bytes =
        ap (λ xs. before ++ xs) s
        ∙ sym (append_assoc before (take n (addresses vs)) (addresses (shift r)))
        ∙ rest.holds.bytes;
    complete = rest.holds.complete;
  };
}

module _ (again : List Iovec → List ℕ → Option Transfer) (reads : Bool) (v : Iovec)
    (vs : List Iovec) (before : List ℕ)
    (h : (vs' : List Iovec) (before' : List ℕ)
      → Returns (Moved reads vs' before') (again vs' before')) where
  moves :
      (poll : Option Errno) (n : ℕ) (o : Option (ℕ × List Iovec))
      → Returns (Skipped n (v ∷ vs)) o
      → Returns (Moved reads (v ∷ vs) before) (
          o >>= λ r.
          onward
            (λ vs'. again vs' (before ++ take n (addresses (v ∷ vs))))
            poll
            (before ++ take n (addresses (v ∷ vs)))
            (shift r))
  moves poll n o done = rw done.returned (
      Moved-step reads n (v ∷ vs) before done.value done.holds (
        onward-Moved reads _ poll (before ++ take n (addresses (v ∷ vs))) (shift done.value)
          (λ vs'. h vs' (before ++ take n (addresses (v ∷ vs))))))

  resid_round-Moved :
      (reply : Reply) (poll : Option Errno)
      → Returns
          (Moved reads (v ∷ vs) before)
          (resid_round again reads (record { reply = reply; poll = poll }) (v ∷ vs) before)
  unfolding resid_round
  resid_round-Moved (gives k) poll =
      let n = min k (total (v ∷ vs)) in
      stopping reads (n == 0) (v ∷ vs) before
        (moves poll n _ (skip-Skipped n v vs (min_le k (total (v ∷ vs)))))
  resid_round-Moved interrupted poll = h (v ∷ vs) before
  resid_round-Moved not_ready poll =
      onward-Moved reads (λ vs'. again vs' before) poll before (v ∷ vs) (λ vs'. h vs' before)
  resid_round-Moved (failed e) poll = failing reads e (v ∷ vs) before

pub resid_loop-Moved :
    (reads : Bool) (ts : List Try) (vs : List Iovec) (before : List ℕ)
    → Returns (Moved reads vs before) (resid_loop reads ts vs before)
unfolding resid_loop
resid_loop-Moved true ts [] before = record {
  value = _;
  returned = refl;
  holds = record { bytes = refl; complete = tt };
}
resid_loop-Moved false ts [] before = record {
  value = _;
  returned = refl;
  holds = record { bytes = refl; complete = refl };
}
resid_loop-Moved true [] (v ∷ vs) before = record {
  value = _;
  returned = refl;
  holds = record { bytes = refl; complete = tt };
}
resid_loop-Moved false [] (v ∷ vs) before = record {
  value = _;
  returned = refl;
  holds = record { bytes = refl; complete = tt };
}
resid_loop-Moved reads (t ∷ ts) (v ∷ vs) before =
    resid_round-Moved (resid_loop reads ts) reads v vs before
      (λ vs' before'. resid_loop-Moved reads ts vs' before') t.reply t.poll

-- Writing vectors never steps behind the last one: whatever the system answers, the bytes written
-- so far, in order, followed by those of the vectors left are the bytes of the vectors, and when
-- the call succeeds none are left.
pub writev_resid-Moved :
    (ts : List Try) (vs : List Iovec) → Returns (Moved false vs []) (writev_resid ts vs)
writev_resid-Moved ts vs = resid_loop-Moved false ts vs []

-- Reading into vectors never steps behind the last one: whatever the system answers, the bytes
-- filled so far, in order, followed by those of the vectors left are the bytes of the vectors.
pub readv_resid-Moved :
    (ts : List Try) (vs : List Iovec) → Returns (Moved true vs []) (readv_resid ts vs)
readv_resid-Moved ts vs = resid_loop-Moved true ts vs []

-- A write that succeeds is complete.
abbrev pub Written : ℕ → Entered (Result ℕ) → Type 0
Written nbyte (returns (ok n)) = n ≡ nbyte
Written nbyte (returns (err e)) = Unit {0}
Written nbyte blocks = Unit {0}

as_count-Written :
    (nbyte : ℕ) (result : Entered (Result (Unit {0}))) (left : List Iovec) (moved : List ℕ)
    → Complete false result left
    → Written nbyte (as_count nbyte (record { result = result; left = left; moved = moved }))
as_count-Written nbyte (returns (ok _)) left moved h = omega (arith, ap total h)
as_count-Written nbyte (returns (err e)) left moved h = tt
as_count-Written nbyte blocks left moved h = tt

-- A write does not fail, and when it returns without error the count that it returns is the
-- number of bytes it was asked to write.
pub write-Written : (ts : List Try) (buf nbyte : ℕ) → Returns (Written nbyte) (write ts buf nbyte)
unfolding write
write-Written ts buf nbyte =
    let done = writev_resid-Moved ts (one_vector buf nbyte) in
    let r = done.value in
    rw done.returned (record {
      value = as_count nbyte r;
      returned = refl;
      holds = as_count-Written nbyte r.result r.left r.moved done.holds.complete;
    })
