-- ===== src/Job/Stopping.antt =====
-- src/core.c: what job_stop does to a job.
use launchd.Base.{
  ℕ, true, false, ◌&&◌, ◌||◌, ◌≡◌, ◌≢◌, Option, none, some, ◌∷◌, arith, ◌==◌, if◌then◌else◌,
}
use launchd.Job.Types.{exit_timer, proc_terminate, kill2, timer_add, Trace, Kernel, Ctx}
use launchd.Job.Status.{sigkill, sigterm, sigkill_timer}
use launchd.Job.Keep.{is_set}
use launchd.Job.Signals.{job_stop}

-- A job is stopped once: whatever the kernel answers, a second job_stop changes nothing, and sends no
-- second signal.
pub job_stop-job_stop : (k k' : Kernel) (c : Ctx) → job_stop k' (job_stop k c) ≡ job_stop k c
unfolding job_stop
job_stop-job_stop k k' c = ground arith

-- How many seconds a job has to exit after a signal, where launchd counts them.
abbrev pub deadline : Ctx → ℕ → Option ℕ
deadline c sig =
    if sig == sigterm && is_set c.job.exit_timeout
    then some c.job.exit_timeout
    else if sig == sigkill && c.mgr.shutting_down
    then some sigkill_timer
    else none

abbrev pub arm : ℕ → Option ℕ → Trace → Trace
arm i none t = t
arm i (some seconds) t = timer_add exit_timer i seconds ∷ t

-- A job that has a process, is not anonymous and was not stopped is asked to terminate, once, and is
-- marked as stopped. Its exit timer is set for its own time after SIGTERM, if it has one, for 4 seconds
-- after SIGKILL during shutdown, and otherwise not at all; SIGKILL marks the job as cleanly killed.
pub job_stop_terminates :
    (k : Kernel) (c : Ctx) (sig : ℕ)
    → c.job.p ≢ 0
    → c.job.stopped ≡ false
    → c.job.anonymous ≡ false
    → k.terminate c.sys.trace c.job.p ≡ some sig
    → let c' = job_stop k c in
      (c'.job.stopped ≡ true)
      × (c'.sys.trace ≡ arm c.job.id (deadline c sig) (proc_terminate c.job.p ∷ c.sys.trace))
      × (c'.job.clean_kill ≡ (sig == sigkill || c.job.clean_kill))
unfolding job_stop
job_stop_terminates k c sig h stopped anon answer = (ground arith, ground arith, ground arith)

-- Where proc_terminate(2) fails for a job that has a process, is not anonymous and was not stopped,
-- SIGTERM is sent in its place; where that fails too, the job is still
-- marked as stopped, and no exit timer is set.
pub job_stop_falls_back :
    (k : Kernel) (c : Ctx)
    → c.job.p ≢ 0
    → c.job.stopped ≡ false
    → c.job.anonymous ≡ false
    → k.terminate c.sys.trace c.job.p ≡ none
    → let asked = proc_terminate c.job.p ∷ c.sys.trace in
      let c' = job_stop k c in
      (c'.job.stopped ≡ true)
      × (c'.sys.trace
          ≡ arm c.job.id
              (if k.kill_works asked c.job.p sigterm then deadline c sigterm else none)
              (kill2 c.job.p sigterm ∷ asked))
unfolding job_stop
job_stop_falls_back k c h stopped anon answer = (ground arith, ground arith)
