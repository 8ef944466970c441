-- ===== src/Lib.antt =====
-- The State Threads library, st-1.9: threads of an application that switch to each other within one
-- process. A thread runs until it calls a function that blocks; then the next one of the run queue
-- goes on, or the idle thread, which waits for the event system and wakes the threads that are due.
--
-- The parts, and the files that model them:
--   Base        names, Boolean tests, maps as functions, errno and results, for all others.
--   SleepQ      the timeout heap, `heap_insert` and `heap_delete` of st-1.9/sched.c, which
--               docs/timeout_heap.txt of st-1.9 explains. Shape says what a heap is, Places how the
--               bits of a number lead to a place, Loop, Insert and Add are about going down and
--               adding, Cut, Sift and Delete about deleting.
--   Links       the circular lists of st-1.9/common.h: what one is (Chains), that the macros do what
--               operations on lists do (Insertion, Removal, Queues) and leave other lists alone
--               (Apart).
--   Key         keys for private data of threads, st-1.9/key.c.
--   Stk         stacks and their free list, st-1.9/stk.c.
--   Vp          the threads, queues, condition variables and mutexes of st-1.9/common.h, and the
--               queue operations and the switch to another thread of sched.c and common.h.
--               Invariant says what holds between calls, Switch that switching keeps it, Timeouts
--               that going to sleep does, Calls what calls keep.
--   Sync        st-1.9/sync.c: sleeping (Sleep), condition variables (Waits, Broadcast) and mutexes
--               (Locks).
--   Sched       st-1.9/sched.c: the clock (Rung, Clock), interrupting and ending threads (Life),
--               joining (Join, Handover) and the idle thread (Idle).
--   Start       `st_thread_create` and `st_init` of sched.c (Create, Init).
--   Boot        `st_set_eventsys` of event.c, `_st_io_init` of io.c and the whole of `st_init` of sched.c
--               (Started).
--   Io          st-1.9/io.c: the free list of file descriptors (Freelist), and the loops around the
--               system calls (Skips, Transfers; Sockets with Writev).
--   Select      the descriptor sets of the event system with select, st-1.9/event.c (Counts).
--   PollArray   the event system with poll of event.c, apart from its dispatch.
--   Ioq         the queue of polls of common.h, and the event system in use (Gather, Serves; Refusals
--               tells what a refused poll leaves).
--   Dispatch    the dispatch of the event systems with select (Selects) and with poll (Arrays,
--               Polls) of event.c: how a thread is woken (Wakes), the loops (Rounds), the marks in
--               the descriptors (Marks).
--   Events      the dispatch of the event system with epoll (Epolls) of event.c, and that of the event
--               system in use (Systems), which wakes the threads that Ready describes; a round
--               of the idle thread with it (Progress), and that select and poll agree (Agreement).
--   Polling     `st_poll` of sched.c, up to its switch (Laws) and from there on (Resume).
--   Epoll       the descriptors of the event system with epoll, st-1.9/event.c (Counts).
--   Kqueue      the descriptors of the event system with kqueue, st-1.9/event.c: what holds of them
--               (Covered), adding (Adding, Room) and taking out (Deleting), in any order (Registered).
--   Time        the time functions of st-1.9/sync.c.
--   System      calls of the library and switches in any order (Turns). How the calls that block
--               report that they fail is told in Errors of Vp, Sync, Sched, Polling and System.
--   Examples    a virtual processor on which the theorems are applied.
--
-- State and operations. `Vp` holds what `_st_this_vp`, the globals of sched.c, key.c and stk.c and the
-- memory of threads, condition variables and mutexes hold; its field `io` is the queue of polls with the
-- data of the event system. Addresses are numbers and `null` is 0. A circular list is the list of its
-- elements: appending and unlinking are `++` and `remove`, which Links justifies. The tree of the `left`
-- and `right` pointers is an inductive type; `due` and `heap_index` are functions of the thread. A function
-- of the source that blocks is two definitions, up to `_ST_SWITCH_CONTEXT` and from there on
-- (`..._resume`); the saved context, a `jmp_buf` in the source, says which of them goes on. `none` is a
-- fault: a null pointer followed, fuel that has run out, a failed assertion, a count of kqueue below 0, or
-- a call with arguments that `faults` names (in `init` and `start`, that `st_init` fails). There is an object
-- of each kind at each address, so that a handle of another kind, or of an object that is gone, is not told
-- from a right one.
--
-- Bounds and fuel. `st_utime_t` has 64 bits and wraps where a wakeup time is computed. Counters and heap
-- indices are `int` in the source and numbers without bound here: they count threads in memory. Counting
-- the bits of a number has the number as fuel, which halving reaches first. The loop of
-- `_st_vp_check_clock` has the size of the heap plus one as fuel: each round deletes a thread.
-- The arrays and lists of epoll and kqueue have the number that must fit as fuel to double their size,
-- which is not 0; where the size stays an int is a hypothesis. Timeouts of the event system's calls are
-- an int, by what it is modulo `2 ^ 32`. The counts of descriptors, of type int, are numbers. The loops
-- around system calls are recursions on the list of the system's answers; where the answers end, the call
-- still waits.
--
-- Not modelled: saving and restoring registers and stacks (md.h, md.S); the dispatch of the event
-- system with kqueue when events are reported (its initialisation is commented out); serialized accepts;
-- the code under DEBUG, ST_SWITCH_CB and __ia64__; the extensions, the examples and the other port of the
-- library to C++.
pub mod Boot
pub mod Kqueue
pub mod Links
pub mod Base
pub mod SleepQ
pub mod Key
pub mod Stk
pub mod Vp
pub mod Sync
pub mod Sched
pub mod Start
pub mod System
pub mod Examples
pub mod Io
pub mod Ioq
pub mod Dispatch
pub mod Events
pub mod Polling
pub mod PollArray
pub mod Select
pub mod Epoll
pub mod Time
