-- ===== src/World/Release.antt =====
-- src/core.c: what job_remove gives back and unlinks.
use launchd.Base.{
  ◌==◌, if◌then◌else◌, ℕ, Bool, true, false, not, ◌&&◌, none, List, [], ◌∷◌, if◌then◌else◌, any,
  bytes_eq,
}
use launchd.Calendar.Types.{CalendarInterval}
use launchd.Job.Types.{
  Reason, network_up, network_down, crashed, did_not_crash, other_job_enabled, other_job_disabled,
  respawn_timer, interval_timer, exit_timer, timer_delete, close_recv, deallocate, close,
  MachService, Semaphore, Job, Sys,
}
use launchd.Job.Keep.{is_set}
use launchd.Runtime.{emit, emit_when, runtime_del_weak_ref}
use launchd.World.Store.{
  done, M, ◌>>=◌, delete_job, put_mgr, remove_id, load_job, load_mgr, store_job,
}

unfoldable pub semaphore_is_curious : Semaphore → Bool
semaphore_is_curious si = elim si.why [
  | other_job_enabled ↦ true
  | other_job_disabled ↦ true
  | _ ↦ false
]

-- The inner loop of job_dispatch_curious_jobs.
unfoldable pub watches_label : List ℕ → Job → Bool
unfolding semaphore_is_curious
watches_label label j = any (λ si. semaphore_is_curious si && bytes_eq si.what label) j.semaphores

-- semaphoreitem_runtime_mod_ref: which criteria keep an idle launchd on standby.
is_external : Reason → Bool
is_external network_up = true
is_external network_down = true
is_external crashed = true
is_external did_not_crash = true
is_external _ = false

delete_semaphores : List Semaphore → Sys → Sys
unfolding is_external
delete_semaphores [] s = s
delete_semaphores (si ∷ rest) s =
    delete_semaphores rest (if is_external si.why then runtime_del_weak_ref s else s)

-- machservice_delete over each service of a job.
unfoldable pub delete_machservices : List MachService → Sys → Sys
delete_machservices [] s = s
delete_machservices (ms ∷ rest) s = delete_machservices rest (
    if ms.is_alias
    then s
    else (emit (deallocate ms.port)
        (emit_when (ms.recv && not ms.is_active) (close_recv ms.port) s)))

delete_sockets : List (List ℕ) → Sys → Sys
delete_sockets [] s = s
delete_sockets (fds ∷ rest) s = delete_sockets rest (runtime_del_weak_ref (close_all fds s))
  where
    close_all : List ℕ → Sys → Sys
    close_all [] s' = s'
    close_all (fd ∷ more) s' = close_all more (emit (close fd) s')

-- What job_remove gives back before its calendar intervals.
unfoldable pub release_files : Job → Sys → Sys
unfolding delete_sockets
release_files j s =
    let s1 = emit_when (is_set j.fork_fd) (close j.fork_fd) s in
    let s2 = emit_when (is_set j.stdin_fd) (close j.stdin_fd) s1 in
    let s3 = emit_when (is_set j.j_port) (close_recv j.j_port) s2 in delete_sockets j.sockets s3

-- The intervals of other jobs.
unfoldable pub other_intervals : ℕ → List CalendarInterval → List CalendarInterval
other_intervals i [] = []
other_intervals i (ci ∷ rest) =
    if ci.job == i then other_intervals i rest else ci ∷ other_intervals i rest

drop_refs : ℕ → List CalendarInterval → Sys → Sys
drop_refs i [] s = s
drop_refs i (ci ∷ rest) s = drop_refs i rest (if ci.job == i then runtime_del_weak_ref s else s)

-- calendarinterval_delete over each interval of a job.
unfoldable pub delete_intervals : ℕ → M (Unit {0})
unfolding other_intervals drop_refs
delete_intervals i w =
    done tt
      (record w { calendar = other_intervals i w.calendar; sys = drop_refs i w.calendar w.sys })

-- What job_remove gives back after that, before it unlinks the job.
unfoldable pub release_job : Job → Sys → Sys
unfolding delete_semaphores delete_machservices
release_job j s =
    let s4 = delete_semaphores j.semaphores (delete_machservices j.machservices s) in
    let s5 = record s4 {
      launchd_event_monitor = if j.event_monitor then none else s4.launchd_event_monitor;
    } in
    let s6 =
      if is_set j.start_interval
      then emit (timer_delete interval_timer j.id) (runtime_del_weak_ref s5)
      else s5 in
    let s7 = emit_when (is_set j.exit_timeout) (timer_delete exit_timer j.id) s6 in
    let s8 = record s7 {
      launchd_shutdown_monitor = if j.shutdown_monitor then none else s7.launchd_shutdown_monitor;
    } in
    emit (timer_delete respawn_timer j.id) s8

unlink_subjob : ℕ → List Job → List Job
unlink_subjob i [] = []
unlink_subjob i (j ∷ js) = record j { subjobs = remove_id i j.subjobs } ∷ unlink_subjob i js

-- LIST_REMOVE(j, subjob_sle), from whichever job has it.
unfoldable pub unlink_from_parent : ℕ → M (Unit {0})
unfolding unlink_subjob
unlink_from_parent i w = done tt (record w { jobs = unlink_subjob i w.jobs })

-- The job leaves its manager's list, the label hash and the list of the curious.
unfoldable pub unlink_job : Job → M (Unit {0})
unlink_job j = do
  m ← load_mgr j.mgr
  λ w. done tt (record w {
    mgrs = put_mgr (record m { jobs = remove_id j.id m.jobs }) w.mgrs;
    curious_jobs = remove_id j.id w.curious_jobs;
    label_hash = remove_id j.id w.label_hash;
  })

-- free(j)
unfoldable pub free_job : ℕ → M (Unit {0})
free_job i w = done tt (record w { jobs = delete_job i w.jobs })

unfoldable pub set_job : ℕ → (Job → Job) → M (Unit {0})
set_job i f = do j ← load_job i; store_job (f j)
