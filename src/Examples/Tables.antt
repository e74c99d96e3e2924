-- ===== src/Examples/Tables.antt =====
-- src/core.c, src/runtime.c and liblaunch/liblaunch.c: the theorems on the tables of jobs, the
-- references and the typed values.
use launchd.Base.{◌≡◌, ◌≢◌, inr, refl, true, some, [], ◌∷◌, arith}
use launchd.World.Callbacks.{job_callback_timer}
use launchd.World.Escalation.{exit_timer_kills}
use launchd.Job.Types.{exit_timer, timer_add, kill2, Job, Ctx}
use launchd.Job.Signals.{job_stop}
use launchd.Job.Keep.{job_active}
use launchd.World.Store.{World, done, find_job, find_mgr}
use launchd.World.Dispatch.{job_remove, run}
use launchd.World.Guards.{IsBarred}
use launchd.World.Removal.{pending, remove_live}
use launchd.Data.Types.{dictionary, string, scalar, integer, Slots, nil, slot}
use launchd.Data.Scalars.{launch_data_set_errno}
use launchd.Data.Dict.{same_name, launch_data_dict_insert, launch_data_dict_lookup}
use launchd.Data.Lookup.{lookup-insert}
use launchd.Examples.Fixtures.{fair_kernel, root, running_job, running_world}

there : find_job 1 running_world.jobs ≡ some running_job
unfolding find_job
there = refl

managed : find_mgr 9 running_world.mgrs ≡ some root
unfolding find_mgr
managed = refl

has_process : running_job.p ≢ 0
has_process e = omega arith

barred : IsBarred running_job
unfolding job_active
barred = inr (inr (inr refl))

abbrev stopped : Ctx
stopped = job_stop fair_kernel (pending running_job root running_world)

remove_live_example :
    (w' : World) × (run 1 fair_kernel (job_remove 1) running_world ≡ done tt w')
    × (w'.sys ≡ stopped.sys)
    × (find_job 1 w'.jobs ≡ some stopped.job)
    × (stopped.job.removal_pending ≡ true)
    × (stopped.job.p ≡ 77)
remove_live_example =
    remove_live 0 fair_kernel 1 running_world there managed has_process refl refl refl refl

abbrev going : Job
going = record running_job { removal_pending = true; stopped = true }

abbrev going_world : World
going_world = record running_world { jobs = going ∷ [] }

going_there : find_job 1 going_world.jobs ≡ some going
unfolding find_job
going_there = refl

exit_timer_kills_example :
    (w' : World) × (job_callback_timer 0 fair_kernel 1 exit_timer running_world ≡ done tt w')
    × (w'.sys.trace ≡ timer_add exit_timer 1 4 ∷ kill2 77 9 ∷ [])
    × (find_job 1 w'.jobs ≡ some (record running_job { sent_sigkill = true }))
exit_timer_kills_example =
    exit_timer_kills 0 fair_kernel 1 running_world there managed has_process refl refl

-- -2, as an int.
stored :
    launch_data_set_errno (scalar integer 7) 4294967294 ≡ some (scalar integer 18446744073709551614)
unfolding launch_data_set_errno
stored = refl

-- "A" ↦ 1
abbrev pairs : Slots
pairs = slot (string (65 ∷ []) 0) (slot (scalar integer 1) nil)

-- "a" ↦ 2
abbrev pairs' : Slots
pairs' = slot (string (97 ∷ []) 0) (slot (scalar integer 2) nil)

replaced : launch_data_dict_insert pairs (scalar integer 2) (97 ∷ []) ≡ some pairs'
unfolding launch_data_dict_insert
replaced = refl

alike : same_name (65 ∷ []) (97 ∷ []) ≡ true
unfolding same_name
alike = refl

lookup-insert_example :
    launch_data_dict_lookup (dictionary pairs') (65 ∷ []) ≡ some (some (scalar integer 2))
lookup-insert_example =
    lookup-insert pairs pairs' (scalar integer 2) (97 ∷ []) (65 ∷ []) refl alike replaced
