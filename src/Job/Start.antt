-- ===== src/Job/Start.antt =====
-- src/core.c: job_start, up to the point where a process that could not be watched is reaped.
-- The child's side of fork(2) is job_start_child, which never returns here.
use launchd.Base.{ℕ, ◌-◌, ◌/◌, Bool, false, not, ◌&&◌, ◌||◌, Option, none, some, ltb, if◌then◌else◌}
use launchd.Job.Types.{
  respawn_timer, fork, attach, timer_add, socketpair, close, open_ipc, write_pid, Kernel, Job, Sys,
  Ctx,
}
use launchd.Job.Status.{inc32, inc64, nanoseconds_since, nsec_per_sec}
use launchd.Job.Keep.{is_set, is_some, is_empty, job_active}
use launchd.Job.Watch.{job_ignore}
use launchd.Runtime.{emit, emit_when, runtime_add_ref}

-- How far job_start got: it is done, or the new process must be reaped at once.
pub data Started : Type 0 where
  settled : Ctx → Started
  stillborn : Ctx → Started

-- Whole seconds since the last start, by the clock of the event loop.
unfoldable pub seconds_since_start : Ctx → ℕ
unfolding nanoseconds_since
seconds_since_start c =
    nanoseconds_since c.sys.time_of_mach_msg_return c.job.start_time / nsec_per_sec

-- The test that holds a respawn back.
unfoldable pub is_throttled : Ctx → Bool
is_throttled c =
    is_set job.start_time
    && ltb (seconds_since_start c) job.min_run_time
    && not job.legacy_mach_job
    && not job.inetcompat
    && not job.unthrottle
  where
    open c use {job}

unfoldable pub wants_ipc : Job → Bool
wants_ipc j =
    not j.legacy_mach_job
    && ((not (is_empty j.sockets) || not (is_empty j.machservices)) && not j.deny_job_creation
        || j.embedded_god)

unfoldable pub job_uncork_fork : Ctx → Ctx
job_uncork_fork c = record c {
  job = record job { fork_fd = 0 };
  sys = emit (close job.fork_fd) (emit (write_pid job.fork_fd job.p) sys);
}
  where
    open c use {job, sys}

-- What job_start does last.
unfoldable pub start_end : Ctx → Ctx
unfolding job_uncork_fork
start_end c =
    let c' = record c { job = record (c.job) { wait4debugger_oneshot = false } } in
    if c'.job.stall_before_exec then c' else job_uncork_fork c'

-- The job's fields once fork(2) has given `pid` at the time `now`.
unfoldable pub started_job : ℕ → ℕ → ℕ → ℕ → Job → Job
started_job pid now unique fd j = record j {
  start_time = now;
  did_exec = false;
  fpfail = false;
  jettisoned = false;
  xpcproxy_did_exec = false;
  checkedin = false;
  start_pending = false;
  reaped = false;
  crashed = false;
  stopped = false;
  workaround9359725 = false;
  implicit_reap = false;
  unthrottle = false;
  needs_kickoff = false;
  ondemand = if j.needs_kickoff && is_empty j.semaphores then false else j.ondemand;
  p = pid;
  uniqueid = unique;
  fork_fd = fd;
}

-- The references, counts and descriptors of the parent's side of a fork(2) that gave `pid`.
unfoldable pub parent_counts : Job → ℕ → Sys → Sys
parent_counts j pid sys =
    let s =
      runtime_add_ref
        (record sys { launchd_wsp = if j.has_console then pid else sys.launchd_wsp }) in
    record s { total_children = inc64 s.total_children }

unfoldable pub parent_fds : Bool → ℕ × ℕ → ℕ × ℕ → Sys → Sys
parent_fds sipc ipc exec s =
    emit_when sipc (open_ipc ipc.0) (emit_when sipc (close ipc.1) (emit (close exec.1) s))

unfoldable pub parent_ctx : Kernel → Bool → ℕ × ℕ → ℕ × ℕ → ℕ → Ctx → Ctx
unfolding parent_counts parent_fds started_job
parent_ctx k sipc ipc exec pid c = record {
  job = started_job pid (k.absolute_time sys.trace) (k.unique_id s.trace pid) exec.0 job;
  mgr = record mgr { normal_active_cnt = inc32 mgr.normal_active_cnt };
  sys = parent_fds sipc ipc exec s;
}
  where
    open c use {job, mgr, sys}

    s : Sys
    s = parent_counts job pid sys

-- The parent's side: `exec` and `ipc` are the two socket pairs.
unfoldable pub fork_parent : Kernel → Bool → ℕ × ℕ → ℕ × ℕ → ℕ → Ctx → Started
unfolding parent_ctx
fork_parent k sipc ipc exec pid c =
    let c' = parent_ctx k sipc ipc exec pid c in
    let attached = record c' { sys = emit (attach pid) c'.sys } in
    if k.attach_works c'.sys.trace pid
    then settled (start_end (job_ignore attached))
    else stillborn attached

-- The `case -1` of the `switch`.
unfoldable pub fork_failed : Bool → ℕ × ℕ → ℕ × ℕ → Ctx → Started
fork_failed sipc ipc exec c =
    let ignored = job_ignore (record c { sys = emit (timer_add respawn_timer c.job.id 1) c.sys }) in
    settled (record ignored {
      sys =
          emit_when sipc (close ipc.1)
            (emit_when sipc (close ipc.0) (emit (close exec.1) (emit (close exec.0) ignored.sys)));
    })

-- The `switch` on what fork(2) gave.
unfoldable pub job_fork : Kernel → Bool → ℕ × ℕ → ℕ × ℕ → Option ℕ → Ctx → Started
unfolding fork_parent fork_failed
job_fork k sipc ipc exec none c = fork_failed sipc ipc exec c
job_fork k sipc ipc exec (some pid) c =
    fork_parent k sipc ipc exec pid (record c { sys = emit (fork pid) c.sys })

-- The globals once the socket pairs are made.
unfoldable pub with_sockets : Ctx → Ctx
with_sockets c = record c { sys = emit socketpair (emit_when (wants_ipc c.job) socketpair c.sys) }

-- job_start, past the throttle.
unfoldable pub start_process : Kernel → Ctx → Started
unfolding with_sockets job_fork
start_process k c =
    job_fork k (wants_ipc c.job) (k.socket_fds c.sys.trace)
      (k.socket_fds (emit_when (wants_ipc c.job) socketpair c.sys).trace)
      (k.fork_pid (with_sockets c).sys.trace) (with_sockets c)

unfoldable pub job_start : Kernel → Ctx → Started
unfolding start_process
job_start k c =
    if is_some (job_active job)
    then settled c
    else if is_throttled c
    then settled (
        job_ignore (record c {
          sys =
              emit (timer_add respawn_timer job.id (job.min_run_time - seconds_since_start c)) sys;
        }))
    else start_process k c
  where
    open c use {job, sys}
