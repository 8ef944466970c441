-- ===== src/Key.antt =====
-- key.c: keys for per-thread private data and their destructors. A destructor is code of the
-- application: the model notes each call, as the pair of the destructor and its argument.
pub mod Laws
use state_thread.Base.{
  ℕ, zero, suc, ◌+◌, ◌-◌, Bool, true, false, ◌&&◌, not, List, [], ◌∷◌, leb, ltb, ◌==◌,
  if◌then◌else◌, update, null, Result, ok, err, eagain, einval,
}

abbrev pub keys_max : ℕ
keys_max = 16

-- `key_max` and `_st_destructors`
pub record KeyTable : Type 0 where
  pub key_max : ℕ
  pub destructors : ℕ → ℕ

-- `st_key_create`
pub key_create : ℕ → KeyTable → Result ℕ × KeyTable
key_create destructor k = if leb keys_max k.key_max then (err eagain, k) else (
  ok k.key_max,
  record k { key_max = k.key_max + 1; destructors = update k.destructors k.key_max destructor },
)

-- A call `(*_st_destructors[key])(value)`.
abbrev pub Call : Type 0
Call = ℕ × ℕ

-- `private_data[key] && _st_destructors[key]`
abbrev pub has_destructor : KeyTable → (ℕ → ℕ) → ℕ → Bool
has_destructor k data_of key = not (data_of key == null) && not (k.destructors key == null)

-- `st_thread_setspecific` on the private data of the current thread. A key is an int of which the
-- negative values are refused as those from `key_max` on are; the model has the others.
pub setspecific : KeyTable → ℕ → ℕ → (ℕ → ℕ) → Result (List Call) × (ℕ → ℕ)
setspecific k key value data_of =
    if leb k.key_max key
    then (err einval, data_of)
    else if value == data_of key
    then (ok [], data_of)
    else (
      ok (if has_destructor k data_of key then (k.destructors key, data_of key) ∷ [] else []),
      update data_of key value,
    )

-- `st_thread_getspecific`
pub getspecific : KeyTable → ℕ → (ℕ → ℕ) → ℕ
getspecific k key data_of = if leb k.key_max key then null else data_of key

abbrev with_call : Bool → Call → List Call × (ℕ → ℕ) → List Call × (ℕ → ℕ)
with_call b c (calls, data_of) = (if b then c ∷ calls else calls, data_of)

-- The loop of `_st_thread_cleanup`, with the number of keys left.
cleanup_loop : KeyTable → (left key : ℕ) → (ℕ → ℕ) → List Call × (ℕ → ℕ)
cleanup_loop k zero key data_of = ([], data_of)
cleanup_loop k (suc left) key data_of =
    let b = has_destructor k data_of key in
    with_call b (k.destructors key, data_of key)
      (cleanup_loop k left (key + 1) (if b then update data_of key null else data_of))

pub thread_cleanup : KeyTable → (ℕ → ℕ) → List Call × (ℕ → ℕ)
unfolding cleanup_loop
thread_cleanup k data_of = cleanup_loop k k.key_max 0 data_of
