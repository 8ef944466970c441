-- ===== src/Examples/Heap.antt =====
-- The theorems on the timeout heap, applied.
use state_thread.Base.{Returns, arith}
use state_thread.SleepQ.{heap_delete, add_sleep_q}
use state_thread.SleepQ.Add.{Added, add_sleep_q-Added}
use state_thread.SleepQ.Delete.{Deleted, heap_delete-Deleted}
use state_thread.Sched.{vp_check_clock}
use state_thread.Sched.Clock.{Expired, vp_check_clock-Expired}
use state_thread.Examples.{queue, queue-IsSleepQ, vp, vp-Runs}

add_sleep_q-Added_example : Returns (Added queue 26 70) (add_sleep_q queue 26 70)
add_sleep_q-Added_example = add_sleep_q-Added queue 26 70 queue-IsSleepQ (ground arith)

heap_delete-Deleted_example : Returns (Deleted queue 20) (heap_delete queue 20)
heap_delete-Deleted_example = heap_delete-Deleted queue 20 queue-IsSleepQ (ground arith)

vp_check_clock-Expired_example : Returns (Expired 150 150 vp) (vp_check_clock 150 7 vp)
vp_check_clock-Expired_example = vp_check_clock-Expired 150 7 vp vp-Runs
