-- ===== src/Examples/Fixtures.antt =====
-- A job of the root manager, and a kernel for it, for the examples.
use launchd.Base.{false, true, none, some, [], ◌∷◌}
use launchd.Job.Types.{Kernel, Job, Jobmgr, Sys, Ctx}
use launchd.World.Store.{World}

-- A kernel in which all calls succeed, fork(2) gives process 77, and processes get SIGTERM.
abbrev pub fair_kernel : Kernel
fair_kernel = record {
  terminate = λ t pid. some 15;
  kill_works = λ t pid sig. true;
  fork_pid = λ t. some 77;
  attach_works = λ t pid. true;
  wait_status = λ t pid. some 256;
  dirty_flags = λ t pid. 0;
  set_dirty_works = λ t pid on. true;
  msg_count = λ t port. some 0;
  add_mport_invalid = λ t port. false;
  reply_works = λ t port. true;
  caller_may_set = λ t. true;
  new_port = λ t. 900;
  socket_fds = λ t. (7, 8);
  absolute_time = λ t. 5000000000;
  unique_id = λ t pid. 1;
  anonymous_label = λ t pid. none;
}

abbrev pub idle_job : Job
idle_job = record {
  id = 1;
  label = 100 ∷ [];
  mgr = 9;
  suspended_perusers = [];
  subjobs = [];
  events = [];
  sockets = [];
  machservices = [];
  semaphores = [];
  is_alias = false;
  j_port = 0;
  exit_status_dest = 0;
  exit_status_port = 0;
  spawn_reply_port = 0;
  nruns = 0;
  trt = 0;
  p = 0;
  uniqueid = 0;
  last_exit_status = 0;
  stdin_fd = 0;
  fork_fd = 0;
  exit_timeout = 20;
  sent_signal_time = 0;
  start_time = 0;
  min_run_time = 10;
  unthrottle = false;
  start_interval = 0;
  peruser_suspend_count = 0;
  needs_session = false;
  ondemand = true;
  priv_port_has_senders = false;
  anonymous = false;
  checkedin = false;
  legacy_mach_job = false;
  legacy_ls_job = false;
  inetcompat = false;
  start_pending = false;
  wait4debugger_oneshot = false;
  stall_before_exec = false;
  only_once = false;
  currently_ignored = false;
  forced_peers_to_demand_mode = false;
  removal_pending = false;
  sent_sigkill = false;
  weird_bootstrap = false;
  start_on_mount = false;
  per_user = false;
  abandon_pg = false;
  deny_job_creation = false;
  clean_kill = false;
  crashed = false;
  reaped = false;
  stopped = false;
  needs_kickoff = false;
  has_console = false;
  embedded_god = false;
  did_exec = false;
  xpcproxy_did_exec = false;
  holds_ref = false;
  dedicated_instance = false;
  former_subjob = false;
  event_monitor = false;
  event_monitor_ready2signal = false;
  removing = false;
  xpc_service = false;
  shutdown_monitor = false;
  dirty_at_shutdown = false;
  workaround9359725 = false;
  fpfail = false;
  waiting4ok = false;
  jettisoned = false;
  idle_exit = false;
  implicit_reap = false;
  debug_before_kill = false;
}

abbrev pub root : Jobmgr
root = record {
  id = 9;
  submgrs = [];
  jobs = 1 ∷ [];
  jm_port = 0;
  parentmgr = none;
  reboot_flags = 0;
  global_on_demand_cnt = 0;
  normal_active_cnt = 0;
  shutting_down = false;
  monitor_shutdown = false;
  shutdown_jobs_dirtied = false;
  shutdown_jobs_cleaned = false;
}

abbrev pub globals : Sys
globals = record {
  trace = [];
  total_children = 0;
  total_anon_children = 0;
  runtime_busy_cnt = 0;
  runtime_standby_cnt = 0;
  time_of_mach_msg_return = 20000000000;
  launchd_wsp = 0;
  launchd_shutdown_monitor = none;
  launchd_support_system = false;
  launchd_trap_sigkill_bugs = false;
  launchd_event_monitor = none;
  pid1_magic = true;
  network_up = false;
  apple_internal = false;
}

abbrev pub idle : Ctx
idle = record { job = idle_job; mgr = root; sys = globals }

-- The job with process 77, as it is after its start.
abbrev pub running_job : Job
running_job = record idle_job { p = 77; start_time = 5000000000 }

abbrev pub running : Ctx
running = record {
  job = running_job;
  mgr = record root { normal_active_cnt = 1 };
  sys = record globals { total_children = 1; runtime_busy_cnt = 1 };
}

abbrev pub running_world : World
running_world = record {
  jobs = running_job ∷ [];
  mgrs = root ∷ [];
  sys = globals;
  curious_jobs = [];
  label_hash = 1 ∷ [];
  root_jobmgr = some 9;
  calendar = [];
}
