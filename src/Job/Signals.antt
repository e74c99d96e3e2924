-- ===== src/Job/Signals.antt =====
-- src/core.c: how a job is asked to exit, and made to: job_stop, job_kill and the transactions that
-- keep a job dirty during shutdown.
use launchd.Base.{ℕ, true, false, not, ◌||◌, none, some, ◌==◌, if◌then◌else◌}
use launchd.Job.Types.{exit_timer, proc_terminate, kill2, timer_add, set_dirty, Kernel, Ctx}
use launchd.Job.Status.{sigkill, sigterm, sigkill_timer}
use launchd.Job.Keep.{is_set}
use launchd.Runtime.{emit}

-- The `switch` of job_stop, once a signal was sent.
signal_sent : ℕ → Ctx → Ctx
signal_sent sig c =
    if sig == sigkill
    then record c {
      job = record job { sent_sigkill = true; clean_kill = true };
      sys = if mgr.shutting_down then emit (timer_add exit_timer job.id sigkill_timer) sys else sys;
    }
    else if sig == sigterm
    then record c {
      sys =
          if is_set job.exit_timeout
          then emit (timer_add exit_timer job.id job.exit_timeout) sys
          else sys;
    }
    else c
  where
    open c use {job, mgr, sys}

-- proc_terminate(2), and SIGTERM where that fails.
terminate : Kernel → Ctx → Ctx
unfolding signal_sent
terminate k c =
    let asked = record c { sys = emit (proc_terminate job.p) sys } in
    elim (k.terminate sys.trace job.p) [
      | some sig ↦ signal_sent sig asked
      | none ↦
          let fallback = record asked { sys = emit (kill2 job.p sigterm) asked.sys } in
          if k.kill_works asked.sys.trace job.p sigterm
          then signal_sent sigterm fallback
          else fallback
    ]
  where
    open c use {job, sys}

unfoldable pub job_stop : Kernel → Ctx → Ctx
unfolding terminate
job_stop k c =
    if not (is_set c.job.p) || c.job.stopped || c.job.anonymous
    then c
    else let now = k.absolute_time c.sys.trace in
      let sent = terminate k (record c { job = record (c.job) { sent_signal_time = now } }) in
      record sent { job = record (sent.job) { stopped = true } }

unfoldable pub job_kill : Kernel → Ctx → Ctx
job_kill k c = if not (is_set job.p) || job.anonymous then c else record c {
  job = record job { sent_sigkill = true };
  sys = emit (timer_add exit_timer job.id sigkill_timer) (emit (kill2 job.p sigkill) sys);
}
  where
    open c use {job, sys}

unfoldable pub job_open_shutdown_transaction : Kernel → Ctx → Ctx
job_open_shutdown_transaction k c =
    let asked = record c { sys = emit (set_dirty job.p true) sys } in
    if k.set_dirty_works sys.trace job.p true
    then asked
    else record asked { job = record job { dirty_at_shutdown = false } }
  where
    open c use {job, sys}

unfoldable pub job_close_shutdown_transaction : Ctx → Ctx
job_close_shutdown_transaction c =
    if job.dirty_at_shutdown
    then record c {
      job = record job { dirty_at_shutdown = false };
      sys = emit (set_dirty job.p false) sys;
    }
    else c
  where
    open c use {job, sys}
