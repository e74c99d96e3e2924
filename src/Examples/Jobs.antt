-- ===== src/Examples/Jobs.antt =====
-- src/core.c: the theorems on one job, at a job that is started, stopped and reaped.
use launchd.Base.{◌-◌, ◌*◌, ◌+◌, true, false, ◌≡◌, ◌≢◌, ◌⊎◌, ◌≤◌, refl, none, [], ◌∷◌, arith}
use launchd.Job.Types.{respawn_timer, proc_terminate, kill2, timer_add, exit_timer, Kernel, Ctx}
use launchd.Job.Keep.{job_active}
use launchd.Job.Signals.{job_stop}
use launchd.Job.Stopping.{job_stop_terminates, job_stop_falls_back}
use launchd.Job.Watch.{job_ignore}
use launchd.Job.Status.{nanoseconds_since}
use launchd.Runtime.{emit}
use launchd.Job.Start.{
  wants_ipc, started_job, job_uncork_fork, start_process, with_sockets, job_fork, fork_parent,
  parent_ctx, start_end, job_start, settled, is_throttled, seconds_since_start,
}
use launchd.Job.Respawn.{after, IsExempt, job_start_spaced, throttle_ends, at_time}
use launchd.Examples.Fixtures.{fair_kernel, idle_job, globals, idle, running_job, running}

abbrev ready : Ctx
ready = record idle { job = record idle_job { start_time = 5000000000 } }

ready_pid : (after (job_start fair_kernel ready)).job.p ≡ 77
unfolding job_start is_throttled seconds_since_start start_process with_sockets job_fork fork_parent
    parent_ctx start_end job_active nanoseconds_since wants_ipc started_job job_uncork_fork
    job_ignore
ready_pid = refl

ready_starts : (after (job_start fair_kernel ready)).job.p ≢ 0
ready_starts e = ground (arith, ready_pid)

job_start_spaced_example : IsExempt ready.job ⊎ (10 ≤ seconds_since_start ready)
job_start_spaced_example = job_start_spaced fair_kernel ready refl ready_starts

-- One second after the start.
abbrev young : Ctx
young = record idle {
  job = record idle_job { start_time = 5000000000 };
  sys = record globals { time_of_mach_msg_return = 6000000000 };
}

young_idle : job_active young.job ≡ none
unfolding job_active
young_idle = refl

young_throttled : is_throttled young ≡ true
unfolding is_throttled seconds_since_start nanoseconds_since
young_throttled = refl

young_left : 6000000000 + (10 - seconds_since_start young) * 1000000000 ≤ 16000000000
unfolding seconds_since_start nanoseconds_since
young_left = omega arith

throttle_ends_example :
    (job_start fair_kernel young
      ≡ settled (
          job_ignore (record young {
            sys = emit (timer_add respawn_timer 1 (10 - seconds_since_start young)) young.sys;
          })))
    × (is_throttled (at_time 16000000000 young) ≡ false)
throttle_ends_example =
    throttle_ends fair_kernel young 16000000000 young_idle young_throttled (omega arith)
      (omega arith) young_left

has_process : running_job.p ≢ 0
has_process e = omega arith

job_stop_terminates_example :
    ((job_stop fair_kernel running).job.stopped ≡ true)
    × ((job_stop fair_kernel running).sys.trace
        ≡ timer_add exit_timer 1 20 ∷ proc_terminate 77 ∷ [])
    × ((job_stop fair_kernel running).job.clean_kill ≡ false)
job_stop_terminates_example = job_stop_terminates fair_kernel running 15 has_process refl refl refl

-- proc_terminate(2) fails.
abbrev deaf_kernel : Kernel
deaf_kernel = record fair_kernel { terminate = λ t pid. none }

job_stop_falls_back_example :
    ((job_stop deaf_kernel running).job.stopped ≡ true)
    × ((job_stop deaf_kernel running).sys.trace
        ≡ timer_add exit_timer 1 20 ∷ kill2 77 15 ∷ proc_terminate 77 ∷ [])
job_stop_falls_back_example = job_stop_falls_back deaf_kernel running has_process refl refl refl
