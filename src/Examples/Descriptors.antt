-- ===== src/Examples/Descriptors.antt =====
-- The theorems on file descriptors, applied.
use state_thread.Base.{
  eagain, ◌≡◌, refl, true, false, not, none, List, [], ◌∷◌, ◌==◌, Returns, arith,
}
use state_thread.Io.{
  Netfds, netfd_free, netfd_new, Try, gives, interrupted, not_ready, Iovec, writev_resid,
  readv_resid, write,
}
use state_thread.Io.Freelist.{
  IsNetfds, Opened, netfd_free-IsNetfds, netfd_new-IsNetfds, netfd_free-netfd_free,
}
use state_thread.Io.Transfers.{Moved, Written, writev_resid-Moved, readv_resid-Moved, write-Written}
use state_thread.Io.Sockets.{Copies, writev}
use state_thread.Io.Sockets.Writev.{WritesAll, writev-WritesAll}

-- Two vectors, of which five bytes go at once, and the others after a wait and an interrupt.
abbrev vectors : List Iovec
vectors = record { iov_base = 100; iov_len = 4 } ∷ record { iov_base = 200; iov_len = 3 } ∷ []

abbrev tries : List Try
tries =
    record { reply = gives 5; poll = none }
    ∷ record { reply = interrupted; poll = none }
    ∷ record { reply = not_ready; poll = none }
    ∷ record { reply = gives 9; poll = none }
    ∷ []

writev_resid-Moved_example : Returns (Moved false vectors []) (writev_resid tries vectors)
writev_resid-Moved_example = writev_resid-Moved tries vectors

readv_resid-Moved_example : Returns (Moved true vectors []) (readv_resid tries vectors)
readv_resid-Moved_example = readv_resid-Moved tries vectors

write-Written_example : Returns (Written 7) (write tries 100 7)
write-Written_example = write-Written tries 100 7

-- Descriptor 60 is free, the others are in use.
abbrev some_netfds : Netfds
some_netfds = record {
  netfds = λ t. record { osfd = 3; inuse = not (t == 60); private_data = 5; destructor = 77 };
  freelist = 60 ∷ [];
  destroyed = [];
}

some_netfds-IsNetfds : IsNetfds some_netfds
some_netfds-IsNetfds i = ground arith

netfd_new-IsNetfds_example :
    let r = netfd_new true true 70 4 true some_netfds in IsNetfds r.1 × Opened 4 r
netfd_new-IsNetfds_example =
    netfd_new-IsNetfds true true 70 4 true some_netfds some_netfds-IsNetfds refl

netfd_free-IsNetfds_example : IsNetfds (netfd_free 61 some_netfds)
netfd_free-IsNetfds_example = netfd_free-IsNetfds 61 some_netfds some_netfds-IsNetfds

netfd_free-netfd_free_example :
    netfd_free 61 (netfd_free 61 some_netfds) ≡ netfd_free 61 some_netfds
netfd_free-netfd_free_example = netfd_free-netfd_free 61 some_netfds

-- Two bytes of the second vector are written last.
abbrev copies : Copies
copies = record { local_maxiov = 1; memory = false; errno = eagain }

writev-WritesAll_example : Returns (WritesAll vectors) (writev copies tries vectors)
writev-WritesAll_example = writev-WritesAll copies tries vectors
