-- ===== src/PollArray.antt =====
-- The event system with poll, event.c, apart from its dispatch. The array of descriptors is built anew
-- in each dispatch, so that only its size is state.
use state_thread.Base.{
  ℕ, ◌+◌, ◌-◌, Bool, true, false, ◌||◌, List, [], ◌∷◌, if◌then◌else◌, Result, ok, err, einval,
  Option, none, some, length, not, ◌≡◌, ◌⊎◌, refl, Bool-cases, inl, inr,
}
use state_thread.Select.{Pollfd}

-- struct _st_polldata
pub record PollData : Type 0 where
  pub pollfds_size : ℕ
  pub fdcnt : ℕ

-- ST_MIN_POLLFDS_SIZE
abbrev pub min_pollfds_size : ℕ
min_pollfds_size = 64

-- `_st_poll_init`; the arguments are whether there is memory for the data and for the array.
abbrev poll_init : (data_memory array_memory : Bool) → Option PollData
poll_init data_memory array_memory =
    if not data_memory
    then none
    else if not array_memory
    then none
    else some (record { pollfds_size = min_pollfds_size; fdcnt = 0 })

-- `!pd->events`
abbrev pub asks_something : Pollfd → Bool
asks_something pd = pd.pollin || pd.pollout || pd.pollpri || pd.other

-- The checks of `_st_poll_pollset_add`
pub all_ask : List Pollfd → Bool
all_ask [] = true
all_ask (pd ∷ pds) = if not (asks_something pd) then false else all_ask pds

-- `_st_poll_pollset_add`
pub pollset_add : List Pollfd → PollData → Result (Unit {0}) × PollData
unfolding all_ask
pollset_add pds d =
    if all_ask pds then (ok tt, record d { fdcnt = d.fdcnt + length pds }) else (err einval, d)

-- `_st_poll_pollset_del`
abbrev pub pollset_del : List Pollfd → PollData → PollData
pollset_del pds d = record d { fdcnt = d.fdcnt - length pds }

pub pollset_add_cases :
    (pds : List Pollfd) (d : PollData)
    → (pollset_add pds d ≡ (err einval, d))
      ⊎ (pollset_add pds d ≡ (ok tt, record d { fdcnt = d.fdcnt + length pds }))
unfolding pollset_add
pollset_add_cases pds d = elim (Bool-cases (all_ask pds)) [
  | inl good ↦ inr (rw good refl)
  | inr bad ↦ inl (rw bad refl)
]
