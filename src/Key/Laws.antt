-- ===== src/Key/Laws.antt =====
-- What the functions of key.c promise.
use state_thread.Base.{
  ℕ, zero, suc, ◌+◌, ◌<◌, ◌≤◌, ◌≡◌, ◌≢◌, Bool, true, false, Result, einval, refl, ◌&&◌, List, [],
  ◌∷◌, leb, ltb, ◌==◌, if◌then◌else◌, update, null, ok, err, eagain, arith, Bool-cases, inl, inr,
  ◌⊎◌,
}
use state_thread.Key.{
  KeyTable, keys_max, key_create, Call, has_destructor, setspecific, getspecific, cleanup_loop,
  thread_cleanup,
}

-- A new key is the next number, below the limit, and finds its destructor, and the other keys
-- keep theirs; when there are no keys left the call fails with EAGAIN and changes nothing.
pub key_create_lem :
    (k : KeyTable) (destructor i : ℕ)
    → k.key_max ≤ keys_max
    → let (r, k') = key_create destructor k in
      ((k.key_max < keys_max)
        × (r ≡ ok k.key_max)
        × (k'.key_max ≡ k.key_max + 1)
        × (k'.key_max ≤ keys_max)
        × (k'.destructors i ≡ (if i == k.key_max then destructor else k.destructors i)))
      ⊎ ((k.key_max ≡ keys_max) × (r ≡ err eagain) × (k' ≡ k))
unfolding key_create
key_create_lem k destructor i h = elim (Bool-cases (leb keys_max k.key_max)) [
  | inl full ↦ inr (ground arith, ground arith, ground arith)
  | inr free ↦ inl (ground arith, ground arith, ground arith, ground arith, ground arith)
]

-- After a valid key was set, reading it gives the new value, and reading any other key gives what
-- it gave before.
pub getspecific-setspecific :
    (k : KeyTable) (key j value : ℕ) (data_of : ℕ → ℕ)
    → key < k.key_max
    → getspecific k j (setspecific k key value data_of).1
      ≡ (if key == j then value else getspecific k j data_of)
unfolding getspecific setspecific
getspecific-setspecific k key j value data_of h = ground arith

-- Is a destructor to be called? There is one, and there is a value.
abbrev pub owes : (destructor value : ℕ) → Bool
owes zero value = false
owes (suc d) zero = false
owes (suc d) (suc v) = true

-- What setting a key does: refuse the key, keep the value, replace it without a call, or with one.
pub data Sets (k : KeyTable) (key value : ℕ) (data_of : ℕ → ℕ) (r : Result (List Call) × (ℕ → ℕ))
    : Type 0 where
  refuses :
      k.key_max ≤ key
      → r.0 ≡ err einval
      → ((j : ℕ) → r.1 j ≡ data_of j)
      → Sets k key value data_of r
  keeps :
      key < k.key_max
      → value ≡ data_of key
      → r.0 ≡ ok []
      → ((j : ℕ) → r.1 j ≡ data_of j)
      → Sets k key value data_of r
  replaces :
      key < k.key_max
      → value ≢ data_of key
      → (k.destructors key ≡ 0) ⊎ (data_of key ≡ 0)
      → r.0 ≡ ok []
      → ((j : ℕ) → r.1 j ≡ (if key == j then value else data_of j))
      → Sets k key value data_of r
  destroys :
      key < k.key_max
      → value ≢ data_of key
      → k.destructors key ≢ 0
      → data_of key ≢ 0
      → r.0 ≡ ok ((k.destructors key, data_of key) ∷ [])
      → ((j : ℕ) → r.1 j ≡ (if key == j then value else data_of j))
      → Sets k key value data_of r

-- Setting a key that was not made fails with EINVAL and changes nothing. For one that was made,
-- setting the value that it has calls nothing; another value calls the key's destructor, once and
-- with the old value, if there is a destructor and the old value is not null, and nothing
-- otherwise; the key then has the new value, and the other keys keep theirs.
pub setspecific-calls :
    (k : KeyTable) (key value : ℕ) (data_of : ℕ → ℕ)
    → Sets k key value data_of (setspecific k key value data_of)
unfolding setspecific
setspecific-calls k key value data_of = elim (Bool-cases (leb k.key_max key)) [
  | inl bad ↦ rw bad (refuses (ground arith) refl (λ j. refl))
  | inr good ↦ elim (Bool-cases (value == data_of key)) [
    | inl same ↦ rw (good, same) (keeps (ground arith) (ground arith) refl (λ j. refl))
    | inr new ↦ elim (Bool-cases (has_destructor k data_of key)) [
      | inl calls ↦
          rw (good, new, calls)
            (destroys (ground arith) (ground arith) (ground (arith, calls)) (ground (arith, calls))
              refl (λ j. refl))
      | inr quiet ↦
          rw (good, new, quiet)
            (replaces (ground arith) (ground arith) (ground (arith, quiet)) refl (λ j. refl))
    ]
  ]
]

-- The calls that the cleanup owes from a key on.
pub owed : KeyTable → (left key : ℕ) → (ℕ → ℕ) → List Call
owed k zero key data_of = []
owed k (suc left) key data_of =
    if owes (k.destructors key) (data_of key)
    then (k.destructors key, data_of key) ∷ owed k left (key + 1) data_of
    else owed k left (key + 1) data_of

owed-update :
    (k : KeyTable) (left key j : ℕ) (data_of : ℕ → ℕ)
    → j < key
    → owed k left key (update data_of j null) ≡ owed k left key data_of
unfolding owed
owed-update k zero key j data_of h = refl
owed-update k (suc left) key j data_of h = ground (arith, owed-update k left (key + 1) j data_of)

has_destructor-owes :
    (k : KeyTable) (data_of : ℕ → ℕ) (key : ℕ)
    → has_destructor k data_of key ≡ owes (k.destructors key) (data_of key)
has_destructor-owes k data_of key = ground arith

cleanup_loop-calls :
    (k : KeyTable) (left key : ℕ) (data_of : ℕ → ℕ)
    → (cleanup_loop k left key data_of).0 ≡ owed k left key data_of
unfolding cleanup_loop owed
cleanup_loop-calls k zero key data_of = refl
cleanup_loop-calls k (suc left) key data_of = ground (
  arith,
  cleanup_loop-calls k left (key + 1) data_of,
  cleanup_loop-calls k left (key + 1) (update data_of key null),
  owed-update k left (key + 1) key data_of,
)

-- After the cleanup a key has a value only if it had it and no destructor.
abbrev pub cleaned : KeyTable → (left key : ℕ) → (ℕ → ℕ) → ℕ → ℕ
cleaned k left key data_of i =
    if leb key i && ltb i (key + left) && owes (k.destructors i) (data_of i)
    then null
    else data_of i

cleanup_loop-cleaned :
    (k : KeyTable) (left key : ℕ) (data_of : ℕ → ℕ) (i : ℕ)
    → (cleanup_loop k left key data_of).1 i ≡ cleaned k left key data_of i
unfolding cleanup_loop
cleanup_loop-cleaned k zero key data_of i = ground arith
cleanup_loop-cleaned k (suc left) key data_of i = ground (
  arith,
  cleanup_loop-cleaned k left (key + 1) data_of i,
  cleanup_loop-cleaned k left (key + 1) (update data_of key null) i,
)

-- The cleanup of a thread calls the destructor of every key that has one and whose value is not
-- null, once, in the order of the keys and with that value, and clears exactly these values.
pub thread_cleanup_lem :
    (k : KeyTable) (data_of : ℕ → ℕ)
    → ((thread_cleanup k data_of).0 ≡ owed k k.key_max 0 data_of)
      × ((i : ℕ) → (thread_cleanup k data_of).1 i ≡ cleaned k k.key_max 0 data_of i)
unfolding thread_cleanup
thread_cleanup_lem k data_of =
    (cleanup_loop-calls k k.key_max 0 data_of, cleanup_loop-cleaned k k.key_max 0 data_of)
