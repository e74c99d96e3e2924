-- ===== src/Job/Types.antt =====
-- src/core.c: `struct job_s`, `struct jobmgr_s` and the structures that hang off a job, the
-- process-wide counters, and the kernel as launchd sees it: what it asked for, and the answers.
use launchd.Base.{ℕ, Bool, Option, List}

-- The timers that a job installs, named by the address that identifies each.
pub data Timer : Type 0 where
  respawn_timer interval_timer exit_timer semaphore_timer : Timer

-- A call into the kernel, or a message sent; the trace holds the newest first.
pub data Effect : Type 0 where
  proc_terminate : ℕ → Effect
  kill2 : ℕ → ℕ → Effect
  killpg2 : ℕ → ℕ → Effect
  fork : ℕ → Effect
  attach : ℕ → Effect
  wait4 : ℕ → Effect
  timer_add : Timer → ℕ → ℕ → Effect
  timer_delete : Timer → ℕ → Effect
  get_dirty : ℕ → Effect
  set_dirty : ℕ → Bool → Effect
  add_mport : ℕ → Effect
  remove_mport : ℕ → Effect
  drain_port : ℕ → Effect
  close_recv : ℕ → Effect
  deallocate : ℕ → Effect
  create_recv : Effect
  watch_fd : ℕ → Effect
  ignore_fd : ℕ → Effect
  close : ℕ → Effect
  open_ipc : ℕ → Effect
  close_ipc : ℕ → Effect
  socketpair : Effect
  write_pid : ℕ → ℕ → Effect
  wait_reply : ℕ → ℕ → Effect
  spawn_reply : ℕ → ℕ → ℕ → Effect
  support_event : ℕ → Effect
  transaction_begin transaction_end standby_begin standby_end : Effect
  idle_timer_add idle_timer_delete : Effect
  shutdown_timer_add : ℕ → Effect
  reboot : ℕ → Effect
  exit : Effect
  -- the timer of sorted_calendar_events, at a wall-clock time
  calendar_alarm : ℕ → Effect
  raise : ℕ → Effect
  -- host_reboot(mach_host_self(), HOST_REBOOT_DEBUGGER)
  enter_debugger : Effect

abbrev pub Trace : Type 0
Trace = List Effect

-- What the kernel answers, each time from all that happened before.
pub record Kernel : Type 0 where
  -- the signal that proc_terminate(2) chose, or its failure
  pub terminate : Trace → ℕ → Option ℕ
  pub kill_works : Trace → ℕ → ℕ → Bool
  -- the new process, or -1
  pub fork_pid : Trace → Option ℕ
  -- kevent_mod(pid, EVFILT_PROC, EV_ADD, …) != -1
  pub attach_works : Trace → ℕ → Bool
  -- the exit status that wait4(2) wrote, or -1
  pub wait_status : Trace → ℕ → Option ℕ
  -- the flags of proc_get_dirty(2)
  pub dirty_flags : Trace → ℕ → ℕ
  pub set_dirty_works : Trace → ℕ → Bool → Bool
  -- the queued messages of a port, if it has a receive right
  pub msg_count : Trace → ℕ → Option ℕ
  -- runtime_add_mport() returned KERN_INVALID_RIGHT
  pub add_mport_invalid : Trace → ℕ → Bool
  -- helper_downcall_wait and job_mig_spawn2_reply succeed
  pub reply_works : Trace → ℕ → Bool
  -- the sender of the message in hand may set keys of any job
  pub caller_may_set : Trace → Bool
  pub new_port : Trace → ℕ
  pub socket_fds : Trace → ℕ × ℕ
  -- mach_absolute_time()
  pub absolute_time : Trace → ℕ
  pub unique_id : Trace → ℕ → ℕ
  -- "%p.anonymous.%s" of a job and the name of its new program, unless proc_pidinfo(2) fails
  pub anonymous_label : Trace → ℕ → Option (List ℕ)

pub record MachService : Type 0 where
  pub name : List ℕ
  pub port : ℕ
  pub gen_num : ℕ
  pub is_alias : Bool
  pub is_active : Bool
  pub reset : Bool
  pub recv : Bool
  pub recv_race_hack : Bool
  pub drain_one_on_crash : Bool
  pub drain_all_on_crash : Bool
  pub upfront : Bool

pub data Reason : Type 0 where
  network_up network_down successful_exit failed_exit crashed did_not_crash : Reason
  other_job_enabled other_job_disabled other_job_active other_job_inactive : Reason

pub record Semaphore : Type 0 where
  pub why : Reason
  pub what : List ℕ

pub record ExternalEvent : Type 0 where
  pub state : Bool
  pub wanted_state : Bool

pub record Job : Type 0 where
  -- the address of the structure
  pub id : ℕ
  pub label : List ℕ
  pub mgr : ℕ
  pub suspended_perusers : List ℕ
  pub subjobs : List ℕ
  pub events : List ExternalEvent
  -- the descriptors of each socket group
  pub sockets : List (List ℕ)
  pub machservices : List MachService
  pub semaphores : List Semaphore
  -- j->alias != NULL
  pub is_alias : Bool
  pub j_port : ℕ
  pub exit_status_dest : ℕ
  pub exit_status_port : ℕ
  pub spawn_reply_port : ℕ
  pub nruns : ℕ
  pub trt : ℕ
  pub p : ℕ
  pub uniqueid : ℕ
  pub last_exit_status : ℕ
  pub stdin_fd : ℕ
  pub fork_fd : ℕ
  pub exit_timeout : ℕ
  pub sent_signal_time : ℕ
  pub start_time : ℕ
  pub min_run_time : ℕ
  pub unthrottle : Bool
  pub start_interval : ℕ
  pub peruser_suspend_count : ℕ
  -- !uuid_is_null(j->expected_audit_uuid)
  pub needs_session : Bool
  pub ondemand : Bool
  pub priv_port_has_senders : Bool
  pub anonymous : Bool
  pub checkedin : Bool
  pub legacy_mach_job : Bool
  pub legacy_ls_job : Bool
  pub inetcompat : Bool
  pub start_pending : Bool
  pub wait4debugger_oneshot : Bool
  pub stall_before_exec : Bool
  pub only_once : Bool
  pub currently_ignored : Bool
  pub forced_peers_to_demand_mode : Bool
  pub removal_pending : Bool
  pub sent_sigkill : Bool
  pub weird_bootstrap : Bool
  pub start_on_mount : Bool
  pub per_user : Bool
  pub abandon_pg : Bool
  pub deny_job_creation : Bool
  pub clean_kill : Bool
  pub crashed : Bool
  pub reaped : Bool
  pub stopped : Bool
  pub needs_kickoff : Bool
  pub has_console : Bool
  pub embedded_god : Bool
  pub did_exec : Bool
  pub xpcproxy_did_exec : Bool
  pub holds_ref : Bool
  pub dedicated_instance : Bool
  pub former_subjob : Bool
  pub event_monitor : Bool
  pub event_monitor_ready2signal : Bool
  pub removing : Bool
  pub xpc_service : Bool
  pub shutdown_monitor : Bool
  pub dirty_at_shutdown : Bool
  pub workaround9359725 : Bool
  pub fpfail : Bool
  pub waiting4ok : Bool
  pub jettisoned : Bool
  pub idle_exit : Bool
  pub implicit_reap : Bool
  pub debug_before_kill : Bool

pub record Jobmgr : Type 0 where
  pub id : ℕ
  pub submgrs : List ℕ
  pub jobs : List ℕ
  pub jm_port : ℕ
  pub parentmgr : Option ℕ
  pub reboot_flags : ℕ
  pub global_on_demand_cnt : ℕ
  pub normal_active_cnt : ℕ
  pub shutting_down : Bool
  pub monitor_shutdown : Bool
  pub shutdown_jobs_dirtied : Bool
  pub shutdown_jobs_cleaned : Bool

-- The globals of core.c, runtime.c and launchd.c that the jobs share.
pub record Sys : Type 0 where
  pub trace : Trace
  pub total_children : ℕ
  pub total_anon_children : ℕ
  pub runtime_busy_cnt : ℕ
  pub runtime_standby_cnt : ℕ
  pub time_of_mach_msg_return : ℕ
  pub launchd_wsp : ℕ
  pub launchd_shutdown_monitor : Option ℕ
  pub launchd_support_system : Bool
  pub launchd_trap_sigkill_bugs : Bool
  pub launchd_event_monitor : Option ℕ
  pub pid1_magic : Bool
  pub network_up : Bool
  pub apple_internal : Bool

-- A job with its manager and the globals: all that most operations of a job touch.
pub record Ctx : Type 0 where
  pub job : Job
  pub mgr : Jobmgr
  pub sys : Sys
