-- ===== src/World/Callbacks.antt =====
-- src/core.c: the events of the kqueue that reach a job: job_callback and jobmgr_callback.
use launchd.Base.{
  ℕ, Bool, true, false, not, ◌&&◌, ◌||◌, Option, none, some, List, [], ◌∷◌, zero, suc, ◌==◌,
  if◌then◌else◌,
}
use launchd.Job.Types.{
  Timer, respawn_timer, interval_timer, exit_timer, semaphore_timer, close_recv, spawn_reply,
  enter_debugger, Kernel, Job, Ctx,
}
use launchd.Job.Keep.{is_set}
use launchd.Job.Signals.{job_kill}
use launchd.Runtime.{emit, emit_when}
use launchd.World.Store.{
  done, fault, out_of_fuel, M, ◌>>=◌, ◌>>◌, skip, when, choose, remove_id, load_job, get_sys,
  modify_sys, on,
}
use launchd.World.Walk.{foreach, submgrs_of}
use launchd.World.Release.{set_job}
use launchd.World.Dispatch.{job_dispatch, job_remove, job_reap, run}
use launchd.World.Shutdown.{jobmgr_do_garbage_collection}

-- The flags of a process event: NOTE_EXEC, NOTE_EXIT, and of the latter NOTE_EXIT_DECRYPTFAIL and
-- NOTE_EXIT_MEMORY. (NOTE_FORK is only logged.)
pub record ProcEvent : Type 0 where
  pub note_exec : Bool
  pub note_exit : Bool
  pub decrypt_fail : Bool
  pub memory : Bool

-- NOTE_EXEC, for a job that launchd manages.
unfoldable pub exec_event : Kernel → Ctx → Ctx
exec_event k c = record c {
  job = record job {
    spawn_reply_port = 0;
    exit_status_port = if is_set job.spawn_reply_port then 0 else job.exit_status_port;
    xpcproxy_did_exec = job.xpc_service && job.did_exec || job.xpcproxy_did_exec;
    did_exec = true;
  };
  sys =
      if is_set job.spawn_reply_port
      then (emit_when (not (k.reply_works sys.trace job.spawn_reply_port))
          (close_recv job.exit_status_port)
          (emit (spawn_reply job.spawn_reply_port job.p job.exit_status_port) sys))
      else sys;
}
  where
    open c use {job, sys}

-- NOTE_EXEC, for a process that launchd only knows of: a new label, at the head of its hash chain.
relabel : ℕ → Option (List ℕ) → M (Unit {0})
relabel i none = skip
relabel i (some name) = do
  set_job i (λ j. record j { label = name })
  λ w. done tt (record w { label_hash = i ∷ remove_id i w.label_hash })

exit_flags : ProcEvent → Job → Job
exit_flags ev j = record j {
  fpfail = ev.decrypt_fail || j.fpfail;
  jettisoned = not ev.decrypt_fail && ev.memory || j.jettisoned;
}

exit_event : ℕ → Kernel → ℕ → ProcEvent → M (Unit {0})
unfolding exit_flags
exit_event fuel k i ev = do
  set_job i (exit_flags ev)
  job_reap k (run fuel k) i
  j ← load_job i
  choose j.anonymous (run fuel k (job_remove i)) (run fuel k (job_dispatch i false))

unfoldable pub job_callback_proc : ℕ → Kernel → ℕ → ProcEvent → M (Unit {0})
unfolding exec_event exit_event relabel
job_callback_proc fuel k i ev = do
  j ← load_job i
  s ← get_sys
  when ev.note_exec
      (choose j.anonymous (relabel i (k.anonymous_label s.trace i)) (on i (exec_event k)))
  when ev.note_exit (exit_event fuel k i ev)

-- The job of a manager that has a process.
find_by_pid : ℕ → ℕ → List Job → Option Job
find_by_pid m pid [] = none
find_by_pid m pid (j ∷ js) = if j.mgr == m && j.p == pid then some j else find_by_pid m pid js

deliver : ℕ → Kernel → ProcEvent → Option Job → M (Unit {0})
unfolding job_callback_proc
deliver fuel k ev none = skip
deliver fuel k ev (some j) = job_callback_proc fuel k j.id ev

unfoldable pub jobmgr_reap_bulk : ℕ → Kernel → ℕ → ℕ → ProcEvent → M (Unit {0})
unfolding find_by_pid deliver
jobmgr_reap_bulk zero k m pid ev w = out_of_fuel
jobmgr_reap_bulk (suc fuel) k m pid ev w =
    (do
      foreach (submgrs_of m) (λ c w'. jobmgr_reap_bulk fuel k c pid ev w')
      λ w'. deliver fuel k ev (find_by_pid m pid w'.jobs) w')
      w

collect_root : ℕ → Kernel → Option ℕ → M (Unit {0})
collect_root fuel k none = λ _. fault
collect_root fuel k (some r) = do
  r' ← jobmgr_do_garbage_collection fuel k r
  λ w. done tt (record w { root_jobmgr = r' })

-- jobmgr_callback, for EVFILT_PROC.
unfoldable pub jobmgr_callback_proc : ℕ → Kernel → ℕ → ℕ → ProcEvent → M (Unit {0})
unfolding jobmgr_reap_bulk collect_root
jobmgr_callback_proc fuel k m pid ev = do
  jobmgr_reap_bulk fuel k m pid ev
  λ w. collect_root fuel k w.root_jobmgr w

abbrev bogus_exit : ProcEvent
bogus_exit = record { note_exec = false; note_exit = true; decrypt_fail = false; memory = false }

-- The exit timer: SIGKILL, or four seconds after that an exit that did not happen; each after the kernel
-- debugger, where that is asked for.
unfoldable pub exit_timeout_elapsed : ℕ → Kernel → ℕ → M (Unit {0})
unfolding jobmgr_callback_proc
exit_timeout_elapsed fuel k i = do
  j ← load_job i
  when (is_set j.p) (
      choose j.sent_sigkill
        (do
          set_job i (λ j'. record j' { workaround9359725 = true })
          s ← get_sys
          modify_sys (emit_when s.launchd_trap_sigkill_bugs enter_debugger)
          jobmgr_callback_proc fuel k j.mgr j.p bogus_exit)
        (do modify_sys (emit_when j.debug_before_kill enter_debugger); on i (job_kill k)))

unfoldable pub job_callback_timer : ℕ → Kernel → ℕ → Timer → M (Unit {0})
unfolding exit_timeout_elapsed
job_callback_timer fuel k i respawn_timer = run fuel k (job_dispatch i true)
job_callback_timer fuel k i semaphore_timer = run fuel k (job_dispatch i false)
job_callback_timer fuel k i interval_timer = do
  set_job i (λ j. record j { start_pending = true })
  run fuel k (job_dispatch i false)
job_callback_timer fuel k i exit_timer = exit_timeout_elapsed fuel k i

-- A readable descriptor, the job's own or that of a socket group.
unfoldable pub job_callback_read : ℕ → Kernel → ℕ → M (Unit {0})
job_callback_read fuel k i = run fuel k (job_dispatch i true)
