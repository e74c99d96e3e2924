-- ===== src/Job/Decisions.antt =====
-- src/core.c: the KeepAlive criteria, which come in pairs of opposites.
use launchd.Base.{ℕ, Bool, not, ◌≡◌, refl, List, Option, some, arith}
use launchd.Job.Types.{
  Reason, network_up, network_down, successful_exit, failed_exit, crashed, did_not_crash,
  other_job_enabled, other_job_disabled, other_job_active, other_job_inactive, Job,
}
use launchd.Job.Keep.{semaphore_fires}

-- The criterion with the other value of the same KeepAlive key.
abbrev pub opposite : Reason → Reason
opposite network_up = network_down
opposite network_down = network_up
opposite successful_exit = failed_exit
opposite failed_exit = successful_exit
opposite crashed = did_not_crash
opposite did_not_crash = crashed
opposite other_job_enabled = other_job_disabled
opposite other_job_disabled = other_job_enabled
opposite other_job_active = other_job_inactive
opposite other_job_inactive = other_job_active

-- Of a criterion and its opposite exactly one fires, if the job that they name is loaded.
pub semaphore_fires-opposite :
    (find : List ℕ → Option Job) (up : Bool) (j : Job) (why : Reason) (what : List ℕ) {other : Job}
    → find what ≡ some other
    → semaphore_fires find up j (opposite why) what ≡ not (semaphore_fires find up j why what)
unfolding semaphore_fires
semaphore_fires-opposite find up j network_up what h = refl
semaphore_fires-opposite find up j network_down what h = ground arith
semaphore_fires-opposite find up j successful_exit what h = refl
semaphore_fires-opposite find up j failed_exit what h = ground arith
semaphore_fires-opposite find up j crashed what h = refl
semaphore_fires-opposite find up j did_not_crash what h = ground arith
semaphore_fires-opposite find up j other_job_enabled what h = ground arith
semaphore_fires-opposite find up j other_job_disabled what h = ground arith
semaphore_fires-opposite find up j other_job_active what h = ground arith
semaphore_fires-opposite find up j other_job_inactive what h = ground arith
