-- ===== src/Job/Reap.antt =====
-- src/core.c: job_reap, in the three stretches between the calls that dispatch other jobs.
use launchd.Base.{
  ℕ, ◌+◌, ◌%◌, Bool, true, false, not, ◌&&◌, ◌||◌, Option, none, some, List, [], ◌∷◌, ◌==◌,
  if◌then◌else◌,
}
use launchd.Job.Types.{
  exit_timer, killpg2, wait4, timer_delete, get_dirty, add_mport, drain_port, close_recv,
  deallocate, create_recv, close, wait_reply, spawn_reply, Kernel, MachService, Job, Sys, Ctx,
}
use launchd.Job.Status.{
  wtermsig, wifexited, wifsignaled, wexitstatus, assumed_crash, sigill, sigtrap, sigabrt, sigfpe,
  sigkill, sigbus, sigsegv, sigsys, sigterm, enoent, esrch, enotdir, allows_idle_exit, is_dirty,
  inc32, dec32, dec64, nanoseconds_since,
}
use launchd.Job.Keep.{is_set}
use launchd.Runtime.{emit, emit_when, runtime_del_ref}

-- job_mig_swap_integer(j, VPROC_GSK_WEIRD_BOOTSTRAP, …), where the job has that mark.
unfoldable pub reap_bootstrap : Kernel → Ctx → Ctx
reap_bootstrap k c =
    if c.job.weird_bootstrap && k.caller_may_set c.sys.trace
    then record c {
      job = record (c.job) { weird_bootstrap = false };
      sys = emit (add_mport c.mgr.jm_port) c.sys;
    }
    else c

unfoldable pub reap_fork_fd : Ctx → Ctx
reap_fork_fd c =
    if is_set c.job.fork_fd
    then record c { job = record (c.job) { fork_fd = 0 }; sys = emit (close c.job.fork_fd) c.sys }
    else c

-- What a job that supports idle exit earns by how it went.
idle_exit_job : Bool → Job → Job
idle_exit_job was_dirty j =
    if j.idle_exit && was_dirty
    then if j.jettisoned then record j { unthrottle = true; start_pending = true } else j
    else if j.idle_exit && j.jettisoned
    then record j { unthrottle = true }
    else j

unfoldable pub reap_dirty : Kernel → Ctx → Ctx
unfolding idle_exit_job
reap_dirty k c =
    if c.job.anonymous || c.job.implicit_reap
    then record c { job = idle_exit_job false c.job }
    else let flags = k.dirty_flags c.sys.trace c.job.p in
      record c {
        job =
            idle_exit_job (is_dirty flags) (record (c.job) { idle_exit = allows_idle_exit flags });
        sys = emit (get_dirty c.job.p) c.sys;
      }

-- The status that wait4(2) leaves, and what is made of it.
waited_status : Option ℕ → Bool → ℕ
waited_status none forgiven = if forgiven then 0 else assumed_crash
waited_status (some status) forgiven = if forgiven then 0 else status

reap_wait : Kernel → Ctx → Ctx
unfolding waited_status
reap_wait k c =
    if c.job.implicit_reap
    then c
    else if c.job.workaround9359725
    then record c { job = record (c.job) { last_exit_status = assumed_crash } }
    else let status = k.wait_status c.sys.trace c.job.p in
      record c {
        job = record (c.job) {
          last_exit_status = waited_status status (c.job.idle_exit && c.job.jettisoned);
        };
        sys = emit (wait4 c.job.p) c.sys;
      }

-- The run time, the process group and the exit status.
unfoldable pub reap_process : Kernel → Ctx → Ctx
unfolding reap_wait nanoseconds_since
reap_process k c =
    if c.job.anonymous
    then record c { job = record (c.job) { last_exit_status = 0 } }
    else let rt = nanoseconds_since c.sys.time_of_mach_msg_return c.job.start_time in
      reap_wait k (record c {
        job = record (c.job) {
          trt = (c.job.trt + rt) % 18446744073709551616;
          nruns = inc32 c.job.nruns;
        };
        sys = emit_when (not c.job.abandon_pg) (killpg2 c.job.p sigterm) c.sys;
      })

-- The first stretch.
unfoldable pub reap_exit : Kernel → Ctx → Ctx
unfolding reap_bootstrap reap_fork_fd reap_dirty reap_process
reap_exit k c =
    let c' = reap_process k (reap_dirty k (reap_fork_fd (reap_bootstrap k c))) in
    record c' {
      sys = emit_when (is_set c'.job.exit_timeout) (timer_delete exit_timer c'.job.id) c'.sys;
    }

-- The exit code asks the support system to say when exec(3) may work.
unfoldable pub exec_failed : Job → Sys → Bool
unfolding wifexited wexitstatus
exec_failed j s =
    let code = wexitstatus j.last_exit_status in
    wifexited j.last_exit_status
    && not (code == 0)
    && not j.did_exec
    && s.launchd_support_system
    && (code == enoent || code == enotdir || code == esrch)

unfoldable pub is_crash_signal : ℕ → Bool
is_crash_signal s =
    s == sigill
    || s == sigabrt
    || s == sigfpe
    || s == sigbus
    || s == sigsegv
    || s == sigsys
    || s == sigtrap

-- The job was ended by a signal that nobody sent it on purpose.
unfoldable pub has_crashed : Job → Bool
unfolding wifsignaled wtermsig is_crash_signal
has_crashed j =
    let s = wtermsig j.last_exit_status in
    wifsignaled j.last_exit_status
    && not ((s == sigkill || s == sigterm) && not j.stopped)
    && not (j.stopped || j.clean_kill || j.jettisoned)
    && is_crash_signal s

unfoldable pub machservice_resetport : Kernel → MachService → Sys → MachService × Sys
machservice_resetport k ms s =
    let s' = emit (deallocate ms.port) (emit (close_recv ms.port) s) in
    (record ms { gen_num = inc32 ms.gen_num; port = k.new_port s'.trace }, emit create_recv s')

-- The body of the first loop over the services.
unfoldable pub recover_service : Kernel → Job → MachService → Sys → MachService × Sys
unfolding machservice_resetport
recover_service k j ms s =
    let drained =
      emit_when (j.crashed && not ms.is_active && (ms.drain_one_on_crash || ms.drain_all_on_crash))
        (drain_port ms.port) s in
    if not j.did_exec && ms.reset && not ms.is_active
    then machservice_resetport k ms drained
    else (ms, drained)

-- The body of the second, for an XPC service whose proxy did not exec(3).
unfoldable pub reset_upfront : Kernel → Job → MachService → Sys → MachService × Sys
unfolding machservice_resetport
reset_upfront k j ms s =
    if ms.upfront && not ms.is_active then machservice_resetport k ms s else (ms, s)

unfoldable pub each_service :
    (MachService → Sys → MachService × Sys) → List MachService → Sys → List MachService × Sys
each_service f [] s = ([], s)
each_service f (ms ∷ services) s =
    let (ms', s') = f ms s in let (rest, s'') = each_service f services s' in (ms' ∷ rest, s'')

unfoldable pub on_services : (Job → MachService → Sys → MachService × Sys) → Ctx → Ctx
unfolding each_service
on_services f c =
    let (services, s) = each_service (f c.job) c.job.machservices c.sys in
    record c { job = record (c.job) { machservices = services }; sys = s }

unfoldable pub reap_crash : Ctx → Ctx
unfolding has_crashed
reap_crash c = record c {
  job = record (c.job) { crashed = has_crashed c.job || c.job.crashed; reaped = true };
}

unfoldable pub reap_recover : Kernel → Ctx → Ctx
reap_recover k c =
    if c.job.crashed || not (c.job.did_exec || c.job.anonymous)
    then on_services (recover_service k) c
    else c

unfoldable pub reap_upfront : Kernel → Ctx → Ctx
reap_upfront k c =
    if c.job.xpc_service && not c.job.xpcproxy_did_exec then on_services (reset_upfront k) c else c

-- The second stretch.
unfoldable pub reap_services : Kernel → Ctx → Ctx
unfolding reap_crash reap_recover reap_upfront
reap_services k c = reap_upfront k (reap_recover k (reap_crash c))

unfoldable pub reap_replies : Kernel → Ctx → Ctx
reap_replies k c =
    let s =
      emit_when (is_set j.exit_status_dest) (wait_reply j.exit_status_dest j.last_exit_status)
        c.sys in
    if is_set j.spawn_reply_port
    then record c {
      job = record j { exit_status_dest = 0; exit_status_port = 0; spawn_reply_port = 0 };
      sys =
          emit_when (not (k.reply_works s.trace j.spawn_reply_port)) (close_recv j.exit_status_port)
            (emit (spawn_reply j.spawn_reply_port j.p j.exit_status_port) s);
    }
    else record c { job = record j { exit_status_dest = 0 }; sys = s }
  where
    open c use {job as j}

unfoldable pub reap_counts : Bool → Bool → Sys → Sys
reap_counts anonymous holds_ref s =
    let anon = record s { total_anon_children = dec64 s.total_anon_children } in
    let normal = runtime_del_ref s in
    if anonymous
    then if holds_ref then runtime_del_ref anon else anon
    else record normal { total_children = dec64 normal.total_children }

reaped_sys : Job → Sys → Sys
reaped_sys j s = record s {
  launchd_wsp = if j.has_console then 0 else s.launchd_wsp;
  launchd_shutdown_monitor = if j.shutdown_monitor then none else s.launchd_shutdown_monitor;
}

-- The third stretch.
unfoldable pub reap_end : Kernel → Ctx → Ctx
unfolding reap_replies reap_counts reaped_sys
reap_end k c =
    let c' = reap_replies k c in
    record {
      job = record (c'.job) {
        shutdown_monitor = false;
        sent_signal_time = 0;
        sent_sigkill = false;
        clean_kill = false;
        event_monitor_ready2signal = false;
        p = 0;
        uniqueid = 0;
      };
      mgr =
          if c'.job.anonymous
          then c'.mgr
          else record (c'.mgr) { normal_active_cnt = dec32 c'.mgr.normal_active_cnt };
      sys = reaped_sys c'.job (reap_counts c'.job.anonymous c'.job.holds_ref c'.sys);
    }
