-- ===== src/Vp/Errors.antt =====
-- How calls report that they have failed.
use state_thread.Base.{
  ◌≡◌, refl, Bool, true, false, Option, none, some, Result, ok, err, Errno, eintr, ◌⊎◌, inl, inr,
  Returns, subst, ◌>>=◌, Bool-cases, if◌then◌else◌,
}
use state_thread.Vp.{Vp, me, Entered, returns, blocks, set_interrupt, unless_interrupted}

abbrev pub is_eintr : Errno → Bool
is_eintr eintr = true
is_eintr _ = false

-- A call that looks for an interrupt first finds none when it succeeds.
abbrev pub Uninterrupted : (looks : Bool) → Vp → Type 0
Uninterrupted true vp = (me vp).interrupt ≡ false
Uninterrupted false vp = Unit {0}

-- What a call makes of errors. When it blocks there was no interrupt. When it fails at once with EINTR,
-- there was one, which it takes back; else it leaves the processor the same, as far as it is asked here.
abbrev pub Reported {ℓ} :
    {A : Type ℓ}
    → (looks : Bool) (same : Errno → Vp → Vp → Type 0) → Vp
    → Entered (Result A) × Vp
    → Type 0
Reported looks same vp (blocks, vp') = (me vp).interrupt ≡ false
Reported looks same vp (returns (ok a), vp') = Uninterrupted looks vp
Reported looks same vp (returns (err e), vp') =
    ((is_eintr e ≡ true) × ((me vp).interrupt ≡ true) × (vp' ≡ set_interrupt vp.current false vp))
    ⊎ same e vp vp'

abbrev pub Reports {ℓ} :
    {A : Type ℓ}
    → (looks : Bool) (same : Errno → Vp → Vp → Type 0) → Vp
    → Option (Entered (Result A) × Vp)
    → Type 0
Reports looks same vp none = Unit {0}
Reports looks same vp (some r) = Reported looks same vp r

-- A call that returns something reports it.
pub returns-Reported :
    {A : Type 0} (looks : Bool) (same : Errno → Vp → Vp → Type 0) (vp : Vp)
    (P : Entered (Result A) × Vp → Type 0) (o : Option (Entered (Result A) × Vp))
    → Returns P o
    → Reports looks same vp o
    → Returns (Reported looks same vp) o
returns-Reported looks same vp P o done r = record {
  value = done.value;
  returned = done.returned;
  holds = subst (Reports looks same vp) done.returned r;
}

pub unless_interrupted-Reports :
    {A : Type 0} (looks : Bool) (same : Errno → Vp → Vp → Type 0) (vp : Vp)
    (rest : Option (Entered (Result A) × Vp))
    → ((me vp).interrupt ≡ false → Reports looks same vp rest)
    → Reports looks same vp (unless_interrupted vp rest)
unless_interrupted-Reports looks same vp rest r = elim (Bool-cases (me vp).interrupt) [
  | inl stop ↦ rw stop (inl (refl, stop, refl))
  | inr go ↦ rw go (r go)
]

-- A call that blocks reports nothing yet.
pub blocks-Reports :
    (A : Type 0) (looks : Bool) (same : Errno → Vp → Vp → Type 0) (vp : Vp) (o : Option Vp)
    (f : Vp → Vp)
    → (me vp).interrupt ≡ false
    → Reports {A = A} looks same vp (o >>= λ v. some (blocks, f v))
blocks-Reports A looks same vp none f go = tt
blocks-Reports A looks same vp (some v) f go = go

pub if-Reports :
    {A : Type 0} (looks : Bool) (same : Errno → Vp → Vp → Type 0) (vp : Vp) (b : Bool)
    (o o' : Option (Entered (Result A) × Vp))
    → Reports looks same vp o
    → Reports looks same vp o'
    → Reports looks same vp (if b then o else o')
if-Reports looks same vp true o o' r r' = r
if-Reports looks same vp false o o' r r' = r'
