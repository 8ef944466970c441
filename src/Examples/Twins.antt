-- ===== src/Examples/Twins.antt =====
-- The idle thread with select and with poll.
use state_thread.Base.{refl, true, some, Returns}
use state_thread.Select.{no_revents}
use state_thread.Ioq.{poll_system}
use state_thread.Ioq.Gather.{gather}
use state_thread.Vp.{Vp, set_io}
use state_thread.Vp.Switch.{Stands}
use state_thread.Dispatch.{Kernel}
use state_thread.Events.{dispatch}
use state_thread.Events.Agreement.{Twins, Matches, Consistent, Agree, selects, dispatch_agrees}
use state_thread.Examples.Threads.{idle, idle-Runs, idle-Stands, kernel}

-- Descriptor 7 is ready to be read.
abbrev reading : Kernel
reading = record kernel { poll = λ pds t. some (λ i. record no_revents { r_in = true }) }

abbrev twin : Vp
twin =
    set_io
      (record idle.io {
        eventsys = poll_system;
        poll_data = record { pollfds_size = 64; fdcnt = 1 };
      })
      idle

twin-Stands : Stands true twin
unfolding gather
twin-Stands = record {
  runs = record {
    valid = record {
      heap = idle-Runs.valid.heap;
      timed = idle-Runs.valid.timed;
      waits = idle-Runs.valid.waits;
      ready = idle-Runs.valid.ready;
      dead = idle-Runs.valid.dead;
      idles = idle-Runs.valid.idles;
      serves = refl;
      queued = idle-Runs.valid.queued;
      polls = idle-Runs.valid.polls;
    };
    current_runs = idle-Runs.current_runs;
  };
  place = λ h. refl;
}

same_polls : Twins idle twin
same_polls = record { io_q = refl; pollqs = refl; run_q = refl; states = λ t. refl }

same_events : Consistent reading idle twin
unfolding gather Matches
same_events = record {
  found = refl;
  revents = λ i. record no_revents { r_in = true };
  polled = refl;
  matches = (refl, tt);
}

dispatch_agrees_example :
    Returns
      (λ r. Returns (λ r'. Agree (selects reading idle) idle r r') (dispatch reading twin))
      (dispatch reading idle)
dispatch_agrees_example =
    dispatch_agrees reading idle twin
      (
        record { memory = λ e g. refl; same_process = λ e. refl },
        record { memory = λ e g. refl; same_process = λ e. refl },
      )
      (idle-Stands, twin-Stands) (refl, refl) (refl, refl) same_polls same_events
