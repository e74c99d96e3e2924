-- ===== src/World/Dispatch.antt =====
-- src/core.c: job_dispatch, job_start, job_reap, job_remove and jobmgr_dispatch_all, which call one
-- another. Each body takes the recursive calls as `call`; `run` ties the knot on fuel.
use launchd.Base.{
  ℕ, ◌+◌, ◌%◌, Bool, true, false, not, ◌&&◌, ◌||◌, Option, none, some, List, [], ◌∷◌, zero, suc,
  ltb, ◌==◌, if◌then◌else◌,
}
use launchd.Job.Types.{kill2, close_ipc, support_event, Kernel, Job, Ctx}
use launchd.Job.Status.{dec32}
use launchd.Job.Keep.{is_set, is_some, job_active, job_useless, job_keepalive}
use launchd.Job.Signals.{job_stop}
use launchd.Job.Watch.{job_watch}
use launchd.Job.Start.{Started, settled, stillborn, job_start, start_end}
use launchd.Job.Reap.{reap_exit, exec_failed, reap_services, reap_end}
use launchd.Runtime.{emit}
use launchd.World.Store.{
  out_of_fuel, M, ◌>>=◌, ◌>>◌, skip, when, choose, load_job, load_mgr, get_sys, modify_sys,
  store_job, store_ctx, load_ctx, on, job_find,
}
use launchd.World.Walk.{foreach, jobs_of, submgrs_of, subjobs_of}
use launchd.World.Release.{
  watches_label, delete_machservices, release_files, delete_intervals, release_job,
  unlink_from_parent, unlink_job, free_job, set_job,
}

-- A call of an operation that may reach any job.
pub data Call : Type 0 where
  job_dispatch : ℕ → Bool → Call
  job_remove : ℕ → Call
  jobmgr_dispatch_all : ℕ → Bool → Call

abbrev pub sigusr1 : ℕ
sigusr1 = 30

module _ (k : Kernel) (call : Call → M (Unit {0})) where
  ping_monitor : Option ℕ → M (Unit {0})
  ping_monitor none = skip
  ping_monitor (some monitor) = do
    m ← load_job monitor
    choose (not (is_set m.p)) (call (job_dispatch monitor true))
        (when m.event_monitor_ready2signal (modify_sys (emit (kill2 m.p sigusr1))))

  eventsystem_ping : M (Unit {0})
  unfolding ping_monitor
  eventsystem_ping = do s ← get_sys; ping_monitor s.launchd_event_monitor

  -- externalevent_new(j, _launchd_support_system, …)
  unfoldable pub support_externalevent_new : ℕ → M (Unit {0})
  unfolding eventsystem_ping
  support_externalevent_new i = do
    j ← load_job i
    when (not j.event_monitor) (do
      store_job (record j { events = record { state = false; wanted_state = true } ∷ j.events })
      modify_sys (emit (support_event i))
      eventsystem_ping)

  -- The loop over the per-user launchds that the job had suspended.
  unfoldable pub resume_perusers : List ℕ → M (Unit {0})
  resume_perusers [] = skip
  resume_perusers (i ∷ rest) = do
    set_job i (λ spi. record spi { peruser_suspend_count = dec32 spi.peruser_suspend_count })
    spi ← load_job i
    when (spi.peruser_suspend_count == 0) (call (job_dispatch i false))
    resume_perusers rest

  unfoldable pub job_reap : ℕ → M (Unit {0})
  unfolding support_externalevent_new resume_perusers
  job_reap i = do
    on i (reap_exit k)
    c ← load_ctx i
    when (exec_failed c.job c.sys)
        (do support_externalevent_new i; set_job i (λ j. record j { waiting4ok = true }))
    on i (reap_services k)
    j ← load_job i
    resume_perusers j.suspended_perusers
    set_job i (λ j'. record j' { suspended_perusers = [] })
    on i (reap_end k)

  -- What is left of job_start: a process that could not be watched is reaped.
  unfoldable pub finish_start : ℕ → Started → M (Unit {0})
  unfolding job_reap
  finish_start i (settled c) = store_ctx c
  finish_start i (stillborn c) = do store_ctx c; job_reap i; on i (job_watch k); on i start_end

  -- job_start as a whole.
  unfoldable pub start_job : ℕ → M (Unit {0})
  unfolding finish_start
  start_job i = do c ← load_ctx i; finish_start i (job_start k c)

  dispatch_curious : List ℕ → ℕ → M (Unit {0})
  unfolding watches_label
  dispatch_curious label i = do
    ji ← load_job i
    when (watches_label label ji && not ji.removing) (call (job_dispatch i false))

  unfoldable pub job_dispatch_curious_jobs : List ℕ → M (Unit {0})
  unfolding dispatch_curious foreach
  job_dispatch_curious_jobs label = foreach (λ w. w.curious_jobs) (dispatch_curious label)

  unfoldable pub job_set_global_on_demand : ℕ → Bool → M (Unit {0})
  job_set_global_on_demand i val = do
    c ← load_ctx i
    when (xor_mode c.job.forced_peers_to_demand_mode) (do
      store_ctx (set_mode c)
      when (count c == 0) (call (jobmgr_dispatch_all c.job.mgr false)))
    where
      xor_mode : Bool → Bool
      xor_mode mode = if mode then not val else val

      count : Ctx → ℕ
      count c =
          if val
          then (c.mgr.global_on_demand_cnt + 1) % 4294967296
          else dec32 c.mgr.global_on_demand_cnt

      set_mode : Ctx → Ctx
      set_mode c = record c {
        job = record (c.job) { forced_peers_to_demand_mode = val };
        mgr = record (c.mgr) { global_on_demand_cnt = count c };
      }

  -- job_dispatch, past the tests that a job may run at all.
  unfoldable pub dispatch_inactive : ℕ → Bool → Ctx → M (Unit {0})
  unfolding start_job
  dispatch_inactive i kickstart c w =
      choose (job_useless c.job c.mgr) (call (job_remove i))
        (when (not (c.job.per_user && ltb 0 c.job.peruser_suspend_count))
          (choose (kickstart || job_keepalive k (job_find w) c) (start_job i) (on i (job_watch k))))
        w

  unfoldable pub dispatch_body : ℕ → Bool → M (Unit {0})
  unfolding dispatch_inactive
  dispatch_body i kickstart = do
    c ← load_ctx i
    when
        (not
          (c.job.needs_session || c.job.is_alias || c.job.waiting4ok || is_some (job_active c.job)))
        (dispatch_inactive i kickstart c)

  -- job_remove, once the job has no process.
  unfoldable pub remove_inactive : ℕ → M (Unit {0})
  unfolding foreach subjobs_of release_files delete_intervals release_job unlink_job free_job
      job_set_global_on_demand job_dispatch_curious_jobs
  remove_inactive i = do
    j ← load_job i
    when (not j.removing)
        (do set_job i (λ j'. record j' { removing = true }); job_dispatch_curious_jobs j.label)
    modify_sys (emit (close_ipc i))
    job_set_global_on_demand i false
    j' ← load_job i
    modify_sys (release_files j')
    delete_intervals i
    modify_sys (release_job j')
    unlink_job j'
    foreach (subjobs_of i) (λ s. call (job_remove s))
    free_job i

  -- The removal of a job that still has a process.
  unfoldable pub remove_active : ℕ → Job → M (Unit {0})
  unfolding job_reap remove_inactive
  remove_active i j =
      choose j.anonymous (do job_reap i; remove_inactive i)
        (when (not j.removal_pending)
          (do set_job i (λ j'. record j' { removal_pending = true }); on i (job_stop k)))

  unfoldable pub remove_alias : ℕ → Job → M (Unit {0})
  unfolding unlink_job free_job delete_machservices
  remove_alias i j = do modify_sys (delete_machservices j.machservices); unlink_job j; free_job i

  unfoldable pub remove_body : ℕ → M (Unit {0})
  unfolding remove_active remove_alias unlink_from_parent
  remove_body i = do
    j ← load_job i
    choose j.is_alias (remove_alias i j) (do
      when (j.dedicated_instance && not j.former_subjob)
          (do unlink_from_parent i; set_job i (λ j'. record j' { former_subjob = true }))
      choose (is_set j.p) (remove_active i j) (remove_inactive i))

  dispatch_each : Bool → ℕ → M (Unit {0})
  dispatch_each newmounthack i = do
    j ← load_job i
    when (newmounthack && j.start_on_mount) (set_job i (λ j'. record j' { start_pending = true }))
    call (job_dispatch i false)

  dispatch_all_body : ℕ → Bool → M (Unit {0})
  unfolding foreach jobs_of submgrs_of dispatch_each
  dispatch_all_body m newmounthack = do
    jm ← load_mgr m
    when (not jm.shutting_down) (do
      foreach (submgrs_of m) (λ jmi. call (jobmgr_dispatch_all jmi newmounthack))
      foreach (jobs_of m) (dispatch_each newmounthack))

-- The body of a call.
unfoldable pub body : Kernel → (Call → M (Unit {0})) → Call → M (Unit {0})
unfolding dispatch_body remove_body dispatch_all_body
body k call (job_dispatch i kickstart) = dispatch_body k call i kickstart
body k call (job_remove i) = remove_body k call i
body k call (jobmgr_dispatch_all m newmounthack) = dispatch_all_body k call m newmounthack

unfoldable pub run : ℕ → Kernel → Call → M (Unit {0})
unfolding body
run zero k c w = out_of_fuel
run (suc fuel) k c w = body k (λ c' w'. run fuel k c' w') c w
