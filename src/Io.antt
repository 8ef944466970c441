-- ===== src/Io.antt =====
-- io.c: file descriptors with their free list, and the loops around the system calls. What the
-- system answers, and what `st_netfd_poll` gives when it is asked to wait, is an argument.
pub mod Freelist
pub mod Skips
pub mod Transfers
pub mod Sockets
use state_thread.Base.{
  ℕ, zero, suc, ◌+◌, ◌-◌, Bool, true, false, ◌&&◌, not, Option, none, some, List, [], ◌∷◌, ◌++◌,
  if◌then◌else◌, ◌==◌, leb, update, null, ◌>>=◌, Result, ok, err, Errno,
}
use state_thread.Key.{Call}
use state_thread.Vp.{Entered, returns, blocks}

-- struct _st_netfd on a platform without serialized accept; `next` is in the free list.
pub record Netfd : Type 0 where
  pub osfd : ℕ
  pub inuse : Bool
  pub private_data : ℕ
  pub destructor : ℕ

-- The memory of descriptors, `_st_netfd_freelist`, and the destructor calls, oldest first.
pub record Netfds : Type 0 where
  pub netfds : ℕ → Netfd
  pub freelist : List ℕ
  pub destroyed : List Call

-- `fd->private_data && fd->destructor`
abbrev destroys : Netfd → List Call
destroys fd =
    if not (fd.private_data == null) && not (fd.destructor == null)
    then (fd.destructor, fd.private_data) ∷ []
    else []

-- `st_netfd_free`
pub netfd_free : ℕ → Netfds → Netfds
netfd_free t io = elim (io.netfds t).inuse [
  | false ↦ io
  | true ↦ record {
    netfds =
        update io.netfds t
          (record (io.netfds t) { inuse = false; private_data = null; destructor = null });
    freelist = t ∷ io.freelist;
    destroyed = io.destroyed ++ destroys (io.netfds t);
  }
]

-- `fd = _st_netfd_freelist; ...` or `calloc`
abbrev pub take_netfd : (fresh : ℕ) → Netfds → ℕ × Netfds
take_netfd fresh io = elim io.freelist [
  | [] ↦ (
    fresh,
    record io {
      netfds =
          update io.netfds fresh
            (record { osfd = 0; inuse = false; private_data = null; destructor = null });
    },
  )
  | t ∷ rest ↦ (t, record io { freelist = rest })
]

abbrev pub use_netfd : (osfd t : ℕ) → Netfds → Netfds
use_netfd osfd t io = record io {
  netfds = update io.netfds t (record (io.netfds t) { osfd = osfd; inuse = true });
}

-- `_st_netfd_new`; the flags are whether the event system takes the descriptor, and whether it could
-- be made nonblocking, if it has to. The result is the descriptor, or null.
pub netfd_new : (accepted set : Bool) → (fresh osfd : ℕ) → (nonblock : Bool) → Netfds → ℕ × Netfds
unfolding netfd_free
netfd_new accepted set fresh osfd nonblock io =
    let (t, taken) = take_netfd fresh io in
    let opened = use_netfd osfd t taken in
    if not accepted
    then (null, io)
    else if t == null
    then (null, io)
    else if nonblock && not set
    then (null, netfd_free t opened)
    else (t, opened)

-- `st_netfd_setspecific`
abbrev netfd_setspecific : (t value destructor : ℕ) → Netfds → Netfds
netfd_setspecific t value destructor io = record io {
  netfds =
      update io.netfds t (record (io.netfds t) { private_data = value; destructor = destructor });
  destroyed =
      if value == (io.netfds t).private_data
      then io.destroyed
      else io.destroyed ++ destroys (io.netfds t);
}

-- What a system call answers: it moves as many bytes as there are, at most those that it is asked
-- for; EINTR; EAGAIN or EWOULDBLOCK; another error.
pub data Reply : Type 0 where
  gives : ℕ → Reply
  interrupted not_ready : Reply
  failed : Errno → Reply

-- A system call, and how `st_netfd_poll` fails if it is called afterwards, if it does.
pub record Try : Type 0 where
  pub reply : Reply
  pub poll : Option Errno

abbrev pub polled : {A : Type 0} → Option Errno → (err : Errno → A) → (again : A) → A
polled none f again = again
polled (some e) f again = f e

-- The loop `while ((n = call) < 0)`; when the answers end, the call still waits.
pub call_loop : List Try → Entered (Result ℕ)
call_loop [] = blocks
call_loop (t ∷ ts) =
    let again = call_loop ts in
    elim t.reply [
      | gives n ↦ returns (ok n)
      | interrupted ↦ again
      | not_ready ↦ polled t.poll (λ e. returns (err e)) again
      | failed e ↦ returns (err e)
    ]

-- The calls that return with what the first system call that does not fail moves
abbrev read : List Try → Entered (Result ℕ)
read ts = call_loop ts

abbrev readv : List Try → Entered (Result ℕ)
readv ts = call_loop ts

abbrev recvfrom : List Try → Entered (Result ℕ)
recvfrom ts = call_loop ts

abbrev sendto : List Try → Entered (Result ℕ)
sendto ts = call_loop ts

abbrev recvmsg : List Try → Entered (Result ℕ)
recvmsg ts = call_loop ts

abbrev sendmsg : List Try → Entered (Result ℕ)
sendmsg ts = call_loop ts

-- struct iovec
pub record Iovec : Type 0 where
  pub iov_base : ℕ
  pub iov_len : ℕ

abbrev pub total : List Iovec → ℕ
total [] = 0
total (v ∷ vs) = v.iov_len + total vs

-- The bytes of a vector, and of several, by their addresses.
abbrev pub range : (base len : ℕ) → List ℕ
range base zero = []
range base (suc n) = base ∷ range (base + 1) n

abbrev pub addresses : List Iovec → List ℕ
addresses [] = []
addresses (v ∷ vs) = range v.iov_base v.iov_len ++ addresses vs

abbrev pub min : ℕ → ℕ → ℕ
min a b = if leb a b then a else b

abbrev pub take : ℕ → List ℕ → List ℕ
take zero xs = []
take (suc n) [] = []
take (suc n) (x ∷ xs) = x ∷ take n xs

-- The inner loop: the vectors that are done are passed; `none` is a step behind the last one.
pub skip : ℕ → List Iovec → Option (ℕ × List Iovec)
skip n [] = none
skip n (v ∷ vs) =
    let rest = skip (n - v.iov_len) vs in
    if leb v.iov_len n then (if n == v.iov_len then some (0, vs) else rest) else some (n, v ∷ vs)

abbrev pub shift : ℕ × List Iovec → List Iovec
shift (n, []) = []
shift (n, v ∷ vs) = record { iov_base = v.iov_base + n; iov_len = v.iov_len - n } ∷ vs

-- What a transfer has come to: its result, the vectors that are left, and the bytes moved.
pub record Transfer : Type 0 where
  pub result : Entered (Result (Unit {0}))
  pub left : List Iovec
  pub moved : List ℕ

-- After `n` bytes: the end if no vector is left, else wait for the descriptor and go on.
abbrev pub onward :
    (List Iovec → Option Transfer) → Option Errno → List ℕ → List Iovec → Option Transfer
onward again poll moved [] = some (record { result = returns (ok tt); left = []; moved = moved })
onward again poll moved (v ∷ vs) =
    polled poll (λ e. some (record { result = returns (err e); left = v ∷ vs; moved = moved }))
      (again (v ∷ vs))

-- A round of the loop of `st_readv_resid` (`reads`) and `st_writev_resid`.
pub resid_round :
    (List Iovec → List ℕ → Option Transfer)
    → (reads : Bool) → Try
    → List Iovec
    → List ℕ
    → Option Transfer
unfolding skip
resid_round again reads t vs moved = elim t.reply [
  | gives k ↦
      let n = min k (total vs) in
      let moved' = moved ++ take n (addresses vs) in
      if reads && n == 0
      then some (record { result = returns (ok tt); left = vs; moved = moved })
      else skip n vs >>= λ r. onward (λ vs'. again vs' moved') t.poll moved' (shift r)
  | interrupted ↦ again vs moved
  | not_ready ↦ onward (λ vs'. again vs' moved) t.poll moved vs
  | failed e ↦ some (record { result = returns (err e); left = vs; moved = moved })
]

pub resid_loop : (reads : Bool) → List Try → List Iovec → List ℕ → Option Transfer
unfolding resid_round
resid_loop reads ts [] moved = some (record { result = returns (ok tt); left = []; moved = moved })
resid_loop reads [] (v ∷ vs) moved = some (record { result = blocks; left = v ∷ vs; moved = moved })
resid_loop reads (t ∷ ts) (v ∷ vs) moved = resid_round (resid_loop reads ts) reads t (v ∷ vs) moved

abbrev pub readv_resid : List Try → List Iovec → Option Transfer
readv_resid ts vs = resid_loop true ts vs []

abbrev pub writev_resid : List Try → List Iovec → Option Transfer
writev_resid ts vs = resid_loop false ts vs []

abbrev pub one_vector : (buf nbyte : ℕ) → List Iovec
one_vector buf nbyte = record { iov_base = buf; iov_len = nbyte } ∷ []

-- `rv == 0 ? nbyte - resid : -1`
abbrev pub as_count : ℕ → Transfer → Entered (Result ℕ)
as_count nbyte r = elim r.result [
  | returns (ok _) ↦ returns (ok (nbyte - total r.left))
  | returns (err e) ↦ returns (err e)
  | blocks ↦ blocks
]

-- `st_read_resid` and `st_read_fully`, `st_write_resid` and `st_write`
abbrev read_fully : List Try → (buf nbyte : ℕ) → Option (Entered (Result ℕ))
unfolding resid_loop
read_fully ts buf nbyte = readv_resid ts (one_vector buf nbyte) >>= λ r. some (as_count nbyte r)

pub write : List Try → (buf nbyte : ℕ) → Option (Entered (Result ℕ))
unfolding resid_loop
write ts buf nbyte = writev_resid ts (one_vector buf nbyte) >>= λ r. some (as_count nbyte r)
