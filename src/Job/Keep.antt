-- ===== src/Job/Keep.antt =====
-- src/core.c: the questions that decide a job's fate, job_active, job_useless and job_keepalive.
use launchd.Base.{
  ℕ, Bool, true, false, not, ◌&&◌, ◌||◌, Option, none, some, List, [], ◌∷◌, ltb, ◌==◌,
  if◌then◌else◌, any, bytes_eq,
}
use launchd.Job.Types.{
  Reason, network_up, network_down, successful_exit, failed_exit, crashed, did_not_crash,
  other_job_enabled, other_job_disabled, other_job_active, other_job_inactive, Kernel, Job, Jobmgr,
  Ctx,
}
use launchd.Job.Status.{wifexited, wexitstatus, ebadarch}

-- What keeps a job active.
pub data Activity : Type 0 where
  monitoring_shutdown pid_is_valid privileged_port service_active : Activity

abbrev pub is_some {ℓ} : {A : Type ℓ} → Option A → Bool
is_some none = false
is_some (some a) = true

abbrev pub is_empty {ℓ} : {A : Type ℓ} → List A → Bool
is_empty [] = true
is_empty (x ∷ xs) = false

abbrev pub is_set : ℕ → Bool
is_set n = not (n == 0)

unfoldable pub job_active : Job → Option Activity
job_active j =
    if is_set j.p && j.shutdown_monitor
    then some monitoring_shutdown
    else if is_set j.p
    then some pid_is_valid
    else if j.priv_port_has_senders
    then some privileged_port
    else if any (λ ms. not j.workaround9359725 && (ms.recv && ms.is_active)) j.machservices
    then some service_active
    else none

unfoldable pub job_useless : Job → Jobmgr → Bool
unfolding wexitstatus
job_useless j mgr =
    if (j.legacy_ls_job || j.only_once) && is_set j.start_time
    then not (j.legacy_ls_job && is_set j.j_port)
    else if j.removal_pending
    then true
    else if j.shutdown_monitor
    then false
    else if mgr.shutting_down && not (is_some mgr.parentmgr)
    then true
    else if j.legacy_mach_job
    then is_empty j.machservices || not j.checkedin
    else not j.did_exec && wexitstatus j.last_exit_status == ebadarch

abbrev pub bool_eq : Bool → Bool → Bool
bool_eq true b = b
bool_eq false b = not b

abbrev pub good_exit : Job → Bool
good_exit j = wifexited j.last_exit_status && wexitstatus j.last_exit_status == 0

-- One criterion of KeepAlive. `find` is job_find(NULL, …), and `up` the state of the network.
unfoldable pub semaphore_fires : (List ℕ → Option Job) → Bool → Job → Reason → List ℕ → Bool
semaphore_fires find up j network_up what = up
semaphore_fires find up j network_down what = not up
semaphore_fires find up j successful_exit what = good_exit j
semaphore_fires find up j failed_exit what = not (good_exit j)
semaphore_fires find up j crashed what = j.crashed
semaphore_fires find up j did_not_crash what = not j.crashed
semaphore_fires find up j other_job_enabled what = is_some (find what)
semaphore_fires find up j other_job_disabled what = not (is_some (find what))
semaphore_fires find up j other_job_active what = elim (find what) [
  | none ↦ false
  | some other ↦ is_set other.p
]
semaphore_fires find up j other_job_inactive what = elim (find what) [
  | none ↦ false
  | some other ↦ not (is_set other.p)
]

-- mach_port_get_attributes succeeds and messages are queued.
abbrev pub has_messages : Option ℕ → Bool
has_messages none = false
has_messages (some count) = is_set count

-- "com.apple.kextd"
abbrev pub kextd : List ℕ
kextd =
    b'c' ∷ b'o' ∷ b'm' ∷ b'.' ∷ b'a' ∷ b'p' ∷ b'p' ∷ b'l' ∷ b'e' ∷ b'.' ∷ b'k' ∷ b'e' ∷ b'x' ∷ b't'
    ∷ b'd' ∷ []

unfoldable pub job_keepalive : Kernel → (List ℕ → Option Job) → Ctx → Bool
unfolding semaphore_fires
job_keepalive k find c =
    if mgr.shutting_down
    then false
    else if ltb 0 mgr.global_on_demand_cnt && (sys.apple_internal || not (bytes_eq job.label kextd))
    then false
    else if job.needs_kickoff
    then false
    else if job.start_pending
    then true
    else if not job.ondemand
    then true
    else if any (λ ms. has_messages (k.msg_count sys.trace ms.port)) job.machservices
    then true
    else if any (λ ee. bool_eq ee.state ee.wanted_state) job.events
    then true
    else any (λ si. semaphore_fires find sys.network_up job si.why si.what) job.semaphores
  where
    open c use {job, mgr, sys}
