-- ===== src/Bootstrap/Types.antt =====
-- src/core.c: Mach services, and what the bootstrap calls read of jobs and job managers.
use launchd.Base.{ℕ, Bool, Option, List}

-- struct machservice. `ms_hash` is the manager in whose table of names it is, if it is in one, and
-- `alias` the service that it stands for.
pub record Service : Type 0 where
  pub id : ℕ
  pub name : List ℕ
  pub job : ℕ
  pub ms_hash : Option ℕ
  pub alias : Option ℕ
  pub port : ℕ
  pub gen_num : ℕ
  pub is_active : Bool
  pub recv : Bool
  pub hide : Bool
  pub per_user_hack : Bool
  pub per_pid : Bool
  pub event_channel : Bool

-- A job manager, by its properties.
pub record Domain : Type 0 where
  pub id : ℕ
  pub xpc_domain : Bool
  pub explicit_subset : Bool
  -- its name is that of the login window's session
  pub login_window : Bool

-- A job, with its manager and the parents of that.
pub record Client : Type 0 where
  pub id : ℕ
  pub mgr : Domain
  pub parents : List Domain
  pub anonymous : Bool
  pub legacy_mach_job : Bool
  pub dedicated_instance : Bool

-- The caller's credentials, and the process that launchd is.
pub record Env : Type 0 where
  pub flat_mach_namespace : Bool
  pub root_jobmgr : ℕ
  pub pid1_magic : Bool
  pub inherited_bootstrap : Bool
  pub own_uid : ℕ
  pub caller_uid : ℕ
  pub caller_euid : ℕ
  -- sandbox_check(3) of mach-register and mach-lookup is positive
  pub register_denied : List ℕ → Bool
  pub lookup_denied : List ℕ → Bool

pub data PortCall : Type 0 where
  create_recv make_send stamp close_recv deallocate : ℕ → PortCall
  notify_dead_name notify_port_destroyed : ℕ → PortCall
  forward : List ℕ → PortCall

-- All services: those of one job, and those of one table of names, are in the order of its list, the
-- newest first.
pub record Space : Type 0 where
  pub services : List Service
  -- the jobs that checked in
  pub checkedin : List ℕ
  pub exception_server : ℕ
  pub calls : List PortCall

-- kern_return_t, with the port that is returned on success.
pub data Reply : Type 0 where
  success : ℕ → Reply
  registered : Reply
  not_privileged service_active unknown_service no_memory try_per_user no_reply : Reply

-- BOOTSTRAP_PER_PID_SERVICE is not set, or it is, and the search for the process has ended.
pub data Target : Type 0 where
  by_name : Target
  by_pid : Option ℕ → Target
