-- ===== src/Bootstrap/Calls.antt =====
-- src/core.c: job_mig_check_in2, job_mig_register2 and job_mig_look_up2, for a job that exists.
use launchd.Base.{
  ℕ, Bool, true, false, not, ◌&&◌, Option, none, some, List, [], ◌∷◌, ◌==◌, if◌then◌else◌, leb,
}
use launchd.Bootstrap.Types.{
  Service, Client, Env, Space, Target, by_name, by_pid, forward, Reply, success, registered,
  not_privileged, service_active, unknown_service, no_memory, try_per_user, no_reply,
}
use launchd.Bootstrap.Services.{
  find_first, is_own, jobmgr_lookup_service, machservice_new, machservice_delete,
  machservice_request_notifications, job_checkin, call, update_service, port_null,
}

-- The end of job_mig_check_in2.
unfoldable pub checked_in : Client → Service → Space → Reply × Space
unfolding machservice_request_notifications
checked_in j ms s = (success ms.port, machservice_request_notifications ms (job_checkin j.id s))

-- A service that a job checks in without having it in its configuration: only for a job that came from
-- mach_init does launchd keep the receive right.
abbrev pub adopt : Client → Service → Service
adopt j ms = if j.legacy_mach_job then ms else record ms { is_active = true; recv = false }

unfoldable pub check_in_new : Client → Option (Service × Space) → Space → Reply × Space
unfolding checked_in update_service
check_in_new j none s = (no_memory, s)
check_in_new j (some (ms, s')) s = checked_in j (adopt j ms) (update_service ms.id (adopt j) s')

abbrev pub is_per_pid_target : Target → Bool
is_per_pid_target by_name = false
is_per_pid_target (by_pid p) = true

unfoldable pub check_in_found :
    Env → ℕ → Option ℕ → Client → List ℕ → Bool → Target → Space → Option Service → Reply × Space
unfolding machservice_new check_in_new checked_in
check_in_found env addr fresh j name strict target s none =
    if strict
    then (unknown_service, s)
    else if j.dedicated_instance
    then (unknown_service, s)
    else if env.register_denied name
    then (not_privileged, s)
    else check_in_new j
        (machservice_new env addr fresh j name port_null (is_per_pid_target target) s) s
check_in_found env addr fresh j name strict target s (some ms) =
    if not (ms.job == j.id)
    then (not_privileged, s)
    else if ms.is_active
    then (service_active, s)
    else checked_in j ms s

unfoldable pub check_in_service : Env → Client → List ℕ → Target → Space → Option Service
unfolding find_first jobmgr_lookup_service
check_in_service env j name target s =
    if j.dedicated_instance
    then find_first (is_own j.id name) s.services
    else jobmgr_lookup_service env s.services j name false target

-- `strict` is BOOTSTRAP_STRICT_CHECKIN.
unfoldable pub job_mig_check_in2 :
    Env → ℕ → Option ℕ → Client → List ℕ → Bool → Target → Space → Reply × Space
unfolding check_in_found check_in_service
job_mig_check_in2 env addr fresh j name strict target s =
    check_in_found env addr fresh j name strict target s (check_in_service env j name target s)

-- A job of the root manager that launchd only knows of, by the caller's user.
abbrev pub no_parent : Client → Bool
no_parent j = elim j.parents [ [] ↦ true | p ∷ ps ↦ false ]

abbrev pub is_foreign : Env → Client → Bool
is_foreign env j =
    j.anonymous
    && no_parent j
    && not (env.caller_uid == 0)
    && not (env.caller_uid == env.own_uid)
    && not (env.caller_uid == 92)

unfoldable pub register_new : Option (Service × Space) → Space → Reply × Space
unfolding machservice_request_notifications
register_new none s = (no_memory, s)
register_new (some (ms, s')) s = (registered, machservice_request_notifications ms s')

unfoldable pub register_port : Env → ℕ → Client → List ℕ → ℕ → Bool → Space → Reply × Space
unfolding machservice_new register_new
register_port env addr j name serviceport pid_local s =
    if serviceport == port_null
    then (registered, s)
    else register_new (machservice_new env addr none j name serviceport pid_local s) s

unfoldable pub register_found :
    Env → ℕ → Client → List ℕ → ℕ → Bool → Space → Option Service → Reply × Space
unfolding machservice_delete register_port
register_found env addr j name serviceport pid_local s none =
    register_port env addr j name serviceport pid_local s
register_found env addr j name serviceport pid_local s (some ms) =
    if not (ms.job == j.id)
    then (not_privileged, s)
    else if ms.is_active
    then (service_active, s)
    else if ms.recv && not (serviceport == port_null)
    then (not_privileged, s)
    else register_port env addr j name serviceport pid_local
        (machservice_delete ms (job_checkin j.id s))

unfoldable pub job_mig_register2 : Env → ℕ → Client → List ℕ → ℕ → Target → Space → Reply × Space
unfolding register_found jobmgr_lookup_service
job_mig_register2 env addr j name serviceport target s =
    if env.register_denied name
    then (not_privileged, s)
    else if is_foreign env j
    then (if env.pid1_magic then (try_per_user, s) else (not_privileged, s))
    else register_found env addr j name serviceport (is_per_pid_target target) s
        (jobmgr_lookup_service env s.services j name false target)

-- The service that an alias stands for.
abbrev pub find_id : ℕ → List Service → Option Service
find_id a [] = none
find_id a (ms ∷ rest) = if ms.id == a then some ms else find_id a rest

unfoldable pub original : List Service → Service → Option Service
original services ms = elim ms.alias [ none ↦ some ms | some a ↦ find_id a services ]

-- A hidden service is not found until it is active; one of the per-user hack is never.
unfoldable pub shown : Service → Option Service
shown ms = if ms.hide && not ms.is_active then none else if ms.per_user_hack then none else some ms

unfoldable pub look_up_service :
    Env → Client → List ℕ → Bool → Bool → Target → Space → Option Service
unfolding jobmgr_lookup_service
look_up_service env j name strict privileged (by_pid p) s =
    jobmgr_lookup_service env s.services j name false (by_pid p)
look_up_service env j name strict privileged by_name s =
    if j.mgr.xpc_domain
    then jobmgr_lookup_service env s.services j name false by_name
    else if strict && privileged && env.inherited_bootstrap
    then none
    else jobmgr_lookup_service env s.services j name true by_name

unfoldable pub answer_look_up :
    Env → Client → List ℕ → Bool → Bool → Space → Option Service → Reply × Space
answer_look_up env j name strict privileged s (some ms) = (success ms.port, s)
answer_look_up env j name strict privileged s none =
    if strict && not privileged
    then (unknown_service, s)
    else if env.inherited_bootstrap
    then (no_reply, call (forward name) s)
    else if env.pid1_magic && j.anonymous && leb 500 env.caller_euid && j.mgr.login_window
    then (try_per_user, s)
    else (unknown_service, s)

abbrev pub chain : Option Service → (Service → Option Service) → Option Service
chain none f = none
chain (some ms) f = f ms

-- `strict` and `privileged` are BOOTSTRAP_STRICT_LOOKUP and BOOTSTRAP_PRIVILEGED_SERVER;
-- BOOTSTRAP_SPECIFIC_INSTANCE is not set.
unfoldable pub job_mig_look_up2 :
    Env → Client → List ℕ → Bool → Bool → Target → Space → Reply × Space
unfolding look_up_service original shown answer_look_up
job_mig_look_up2 env j name strict privileged target s =
    if env.pid1_magic
      && j.anonymous
      && no_parent j
      && not (env.caller_uid == 0)
      && not (env.caller_euid == 0)
    then (try_per_user, s)
    else if not j.mgr.xpc_domain && env.lookup_denied name
    then (not_privileged, s)
    else answer_look_up env j name strict privileged s (
        chain (chain (look_up_service env j name strict privileged target s) (original s.services))
          shown)
