-- ===== src/Examples/Reaping.antt =====
-- src/core.c: the theorems on whole job_reap and job_start, at the tables of one job.
use launchd.Base.{false, ◌≡◌, refl, [], ◌∷◌, arith, if◌then◌else◌, ap}
use mathlib.Core.Path.{subst}
use launchd.Job.Types.{Kernel, Ctx}
use launchd.Job.Keep.{is_set, job_active}
use launchd.Job.Start.{
  parent_ctx, started_job, fork_parent, job_fork, with_sockets, start_process, job_start, stillborn,
  is_throttled, seconds_since_start, wants_ipc,
}
use launchd.Job.Reap.{
  reap_exit, exec_failed, reap_bootstrap, reap_fork_fd, reap_dirty, reap_process,
}
use launchd.Job.Status.{allows_idle_exit}
use launchd.Runtime.{runtime_add_ref}
use launchd.Job.Respawn.{after}
use launchd.Job.Accounts.{counts, one_more, one_less, ForkGivesPid, IsInRange}
use launchd.World.Store.{World, done, find_job, find_mgr}
use launchd.World.Dispatch.{run, job_reap, start_job}
use launchd.World.Reaping.{Holds, job_reap-counts}
use launchd.World.Starting.{start_job-counts}
use launchd.Examples.Fixtures.{fair_kernel, idle, running, running_world}

-- The tables in which the job of `c` stands alone.
abbrev alone : Ctx → World
alone c = record running_world { jobs = c.job ∷ []; mgrs = c.mgr ∷ []; sys = c.sys }

running_there : Holds 1 running (alone running)
unfolding find_job find_mgr
running_there = record { job = refl; mgr = refl; sys = refl }

running_ran :
    exec_failed (reap_exit fair_kernel running).job (reap_exit fair_kernel running).sys ≡ false
unfolding exec_failed reap_exit reap_bootstrap reap_fork_fd reap_dirty reap_process allows_idle_exit
running_ran = refl

job_reap-counts_example :
    (w' : World) × (c' : Ctx) × (job_reap fair_kernel (run 1 fair_kernel) 1 (alone running)
      ≡ done tt w')
    × Holds 1 c' w'
    × (counts c' ≡ one_less (1, 1, 1))
    × (c'.job.p ≡ 0)
job_reap-counts_example =
    job_reap-counts fair_kernel (run 1 fair_kernel) 1 running (alone running) running_there refl
      running_ran refl

-- kevent_mod(2) cannot attach to the process, since it is gone.
abbrev racy_kernel : Kernel
racy_kernel = record fair_kernel { attach_works = λ t pid. false }

forks : ForkGivesPid racy_kernel
forks t pid e = ground arith

in_range : IsInRange idle
in_range = (omega arith, omega arith, omega arith)

idle_there : Holds 1 idle (alone idle)
unfolding find_job find_mgr
idle_there = record { job = refl; mgr = refl; sys = refl }

-- The process is reaped at once.
abbrev new_born : Ctx
new_born = after (job_start racy_kernel idle)

new_born_ran :
    exec_failed (reap_exit racy_kernel new_born).job (reap_exit racy_kernel new_born).sys ≡ false
unfolding exec_failed reap_exit reap_bootstrap reap_fork_fd reap_dirty reap_process job_start
    is_throttled seconds_since_start start_process with_sockets job_fork fork_parent parent_ctx
    job_active started_job wants_ipc allows_idle_exit runtime_add_ref
new_born_ran = refl

new_born_quiet :
    (born : Ctx)
    → job_start racy_kernel idle ≡ stillborn born
    → exec_failed (reap_exit racy_kernel born).job (reap_exit racy_kernel born).sys ≡ false
new_born_quiet born e =
    subst (λ c. exec_failed (reap_exit racy_kernel c).job (reap_exit racy_kernel c).sys ≡ false)
      (ap after e) new_born_ran

start_job-counts_example :
    (w' : World) × (c' : Ctx) × (start_job racy_kernel (run 1 racy_kernel) 1 (alone idle)
      ≡ done tt w')
    × Holds 1 c' w'
    × (counts c' ≡ (if is_set c'.job.p then one_more (counts idle) else counts idle))
start_job-counts_example =
    start_job-counts racy_kernel (run 1 racy_kernel) 1 idle (alone idle) idle_there forks refl refl
      in_range refl new_born_quiet
