-- ===== src/Io/Sockets.antt =====
-- io.c: connecting, accepting and opening, waiting for one descriptor, and writing several vectors.
pub mod Writev
use state_thread.Base.{
  ℕ, ◌+◌, ◌-◌, Bool, true, false, ◌&&◌, not, Option, none, some, List, [], ◌∷◌, ◌++◌, if◌then◌else◌,
  ◌==◌, leb, ltb, null, ◌>>=◌, Result, ok, err, Errno, etime, ebadf, eaddrinuse, enomem, eagain,
}
use state_thread.Vp.{Entered, returns, blocks}
use state_thread.Io.{
  Netfd, Netfds, netfd_free, netfd_new, Reply, gives, interrupted, not_ready, failed, Try, polled,
  call_loop, Iovec, total, addresses, min, take, Transfer, resid_loop, one_vector, as_count,
}

-- `st_netfd_poll`, given what `st_poll` returns and whether it reports POLLNVAL
abbrev netfd_poll : Result ℕ → (invalid : Bool) → Result (Unit {0})
netfd_poll (err e) invalid = err e
netfd_poll (ok n) invalid = if n == 0 then err etime else if invalid then err ebadf else ok tt

-- `st_netfd_close`, given the answers of the event system and of `close`
abbrev netfd_close : (fd_close close : Result (Unit {0})) → ℕ → Netfds → Result (Unit {0}) × Netfds
netfd_close (err e) close t io = (err e, io)
netfd_close (ok _) close t io = (close, netfd_free t io)

-- What connect answers; EINPROGRESS and EADDRINUSE are told apart from the other errors.
data Connected : Type 0 where
  done interrupts in_progress in_use : Connected
  refuses : Errno → Connected

-- An answer, how `st_netfd_poll` fails if it is called then, and what getsockopt and SO_ERROR say
-- after it.
record Connect : Type 0 where
  pub answer : Connected
  pub poll : Option Errno
  pub so_error : Option Errno

-- `st_connect` behind its wait
abbrev setup : Connect → Result (Unit {0})
setup c = polled c.poll err (polled c.so_error err (ok tt))

-- The loop of `st_connect`; the flag is whether connect was interrupted before.
connect_loop : (again : Bool) → List Connect → Entered (Result (Unit {0}))
connect_loop again [] = blocks
connect_loop again (c ∷ cs) =
    let rest = connect_loop true cs in
    elim c.answer [
      | done ↦ returns (ok tt)
      | interrupts ↦ rest
      | in_progress ↦ returns (setup c)
      | in_use ↦ returns (if again then setup c else err eaddrinuse)
      | refuses e ↦ returns (err e)
    ]

abbrev connect : List Connect → Entered (Result (Unit {0}))
unfolding connect_loop
connect cs = connect_loop false cs

-- A new descriptor object for a descriptor that the system gave; without one the descriptor is closed.
abbrev opened : (osfd : ℕ) → (new : ℕ × Netfds) → (ℕ × List ℕ) × Netfds
opened osfd (t, io) = ((t, if t == null then osfd ∷ [] else []), io)

-- `st_accept` where accepts need not be serialized: the descriptor object or null, what was closed, and
-- the descriptors.
abbrev accept_result :
    (new : ℕ → Netfds → ℕ × Netfds) → Netfds → Entered (Result ℕ) → Entered ((ℕ × List ℕ) × Netfds)
accept_result new io (returns (ok osfd)) = returns (opened osfd (new osfd io))
accept_result new io (returns (err e)) = returns ((null, []), io)
accept_result new io blocks = blocks

abbrev accept :
    List Try
    → (accepted set : Bool) → (fresh : ℕ) → (nonblock : Bool) → Netfds
    → Entered ((ℕ × List ℕ) × Netfds)
accept ts accepted set fresh nonblock io =
    accept_result (λ osfd. netfd_new accepted set fresh osfd nonblock) io (call_loop ts)

-- The loop of `st_open`, which goes on after EINTR only
open_loop : List Reply → Entered (Result ℕ)
open_loop [] = blocks
open_loop (r ∷ rs) =
    let rest = open_loop rs in
    elim r [
      | gives osfd ↦ returns (ok osfd)
      | interrupted ↦ rest
      | not_ready ↦ returns (err eagain)
      | failed e ↦ returns (err e)
    ]

-- `st_open`
abbrev open_file :
    List Reply → (accepted set : Bool) → (fresh : ℕ) → Netfds → Entered ((ℕ × List ℕ) × Netfds)
unfolding open_loop
open_file rs accepted set fresh io =
    accept_result (λ osfd. netfd_new accepted set fresh osfd false) io (open_loop rs)

-- "Find the next unwritten vector" of `st_writev`, and the vectors from there on
pub unwritten : ℕ → List Iovec → Option (List Iovec)
unwritten n [] = none
unwritten n (v ∷ vs) =
    let rest = unwritten (n - v.iov_len) vs in
    if leb v.iov_len n
    then rest
    else some (record { iov_base = v.iov_base + n; iov_len = v.iov_len - n } ∷ vs)

abbrev length : List Iovec → ℕ
length [] = 0
length (v ∷ vs) = 1 + length vs

-- Where the vectors are copied to, and what `errno` is before the call.
pub record Copies : Type 0 where
  -- _LOCAL_MAXIOV
  pub local_maxiov : ℕ
  -- does calloc give memory?
  pub memory : Bool
  pub errno : Errno

-- What a call that writes has come to, with the addresses of the bytes that the system has taken.
pub record Wrote : Type 0 where
  pub result : Entered (Result ℕ)
  pub moved : List ℕ

-- A round of the loop of `st_writev`: `nleft` bytes are left, in the vectors `tmp`. The answers are
-- those of writev; `copied` is whether `tmp_iov` is a copy already.
pub writev_round :
    Copies
    → (iov : List Iovec)
    → (again : Bool → List Iovec → (nleft : ℕ) → (moved : List ℕ) → Option Wrote) → Try
    → (copied : Bool) → (tmp : List Iovec) → (nleft : ℕ) → (moved : List ℕ) → Option Wrote
unfolding unwritten
writev_round copies iov again t copied tmp nleft moved = elim t.reply [
  | gives k ↦
      let n = min k (total tmp) in
      let moved' = moved ++ take n (addresses tmp) in
      let nleft' = nleft - n in
      if n == nleft
      then some (record { result = returns (ok (total iov)); moved = moved' })
      else unwritten (total iov - nleft') iov >>= λ tmp'.
          (if not copied && ltb copies.local_maxiov (length tmp') && not copies.memory
            then some (record { result = returns (err enomem); moved = moved' })
            else polled t.poll (λ e. some (record { result = returns (err e); moved = moved' }))
                (again true tmp' nleft' moved'))
  | interrupted ↦ again copied tmp nleft moved
  | not_ready ↦
      polled t.poll (λ e. some (record { result = returns (err e); moved = moved }))
        (again copied tmp nleft moved)
  | failed e ↦ some (record { result = returns (err e); moved = moved })
]

-- `if (st_write(...) != nleft) rv = -1`, for the last vector; a count that is too small leaves `errno`.
abbrev pub compared : (errno : Errno) (nbyte nleft : ℕ) → Entered (Result ℕ) → Entered (Result ℕ)
compared errno nbyte nleft (returns (ok n)) =
    if n == nleft then returns (ok nbyte) else returns (err errno)
compared errno nbyte nleft (returns (err e)) = returns (err e)
compared errno nbyte nleft blocks = blocks

abbrev pub last_result : (errno : Errno) (nbyte nleft : ℕ) → Transfer → Wrote
last_result errno nbyte nleft r = record {
  result = compared errno nbyte nleft (as_count nleft r);
  moved = r.moved;
}

pub writev_loop :
    Copies
    → (iov : List Iovec) → List Try
    → (copied : Bool) → (tmp : List Iovec) → (nleft : ℕ) → (moved : List ℕ) → Option Wrote
unfolding writev_round
writev_loop copies iov [] copied tmp nleft moved =
    if nleft == 0
    then some (record { result = returns (ok (total iov)); moved = moved })
    else some (record { result = blocks; moved = moved })
writev_loop copies iov (t ∷ ts) copied tmp nleft moved =
    let round = writev_round copies iov (writev_loop copies iov ts) t copied tmp nleft moved in
    if nleft == 0
    then some (record { result = returns (ok (total iov)); moved = moved })
    else elim tmp [
      | [] ↦ round
      | v ∷ vs ↦ elim vs [
        | [] ↦ resid_loop false (t ∷ ts) (one_vector v.iov_base nleft) moved >>= λ r.
            some (last_result copies.errno (total iov) nleft r)
        | _ ∷ _ ↦ round
      ]
    ]

-- `st_writev`
pub writev : Copies → List Try → List Iovec → Option Wrote
unfolding writev_loop
writev copies ts iov = writev_loop copies iov ts false iov (total iov) []
