-- ===== src/World/Shutdown.antt =====
-- src/core.c: the end of a job manager: jobmgr_shutdown, jobmgr_do_garbage_collection and
-- jobmgr_remove. `fuel` bounds the depth of the tree of managers and the rounds of the loops.
use launchd.Base.{
  ℕ, ◌+◌, Bool, true, false, not, ◌&&◌, ◌||◌, Option, none, some, List, [], ◌∷◌, zero, suc, ◌==◌,
  if◌then◌else◌,
}
use launchd.Job.Types.{close_recv, shutdown_timer_add, reboot, exit, Kernel, Jobmgr}
use launchd.Job.Keep.{is_set, is_some, is_empty, job_active}
use launchd.Job.Signals.{job_stop, job_open_shutdown_transaction, job_close_shutdown_transaction}
use launchd.Runtime.{emit, emit_when, runtime_del_weak_ref}
use launchd.World.Store.{
  done, out_of_fuel, M, ◌>>=◌, ◌>>◌, pure, skip, when, put_mgr, remove_id, load_job, load_mgr,
  get_sys, modify_sys, on,
}
use launchd.World.Walk.{foreach, foreach_fold, jobs_of, submgrs_of}
use launchd.World.Release.{set_job}
use launchd.World.Dispatch.{job_dispatch, job_remove, run}

unfoldable pub set_mgr : ℕ → (Jobmgr → Jobmgr) → M (Unit {0})
set_mgr i f = do m ← load_mgr i; λ w. done tt (record w { mgrs = put_mgr (f m) w.mgrs })

unlink_mgr : ℕ → Jobmgr → M (Unit {0})
unlink_mgr i m w = done tt (record w { mgrs = drop_mgr w.mgrs })
  where
    drop_mgr : List Jobmgr → List Jobmgr
    drop_mgr [] = []
    drop_mgr (x ∷ ms) = if x.id == i then ms else x ∷ drop_mgr ms

-- The last act of a manager: a child leaves its parent, and the root ends launchd.
retire : ℕ → Jobmgr → M (Unit {0})
unfolding set_mgr
retire i m = elim m.parentmgr [
  | some parent ↦ (do
    modify_sys runtime_del_weak_ref
    set_mgr parent (λ p. record p { submgrs = remove_id i p.submgrs }))
  | none ↦ modify_sys (λ s. if s.pid1_magic then emit (reboot m.reboot_flags) s else emit exit s)
]

-- while ((ji = LIST_FIRST(&jm->jobs))) { … job_remove(ji); }
remove_jobs : ℕ → ℕ → Kernel → ℕ → M (Unit {0})
remove_jobs zero depth k i w = out_of_fuel
remove_jobs (suc rounds) depth k i w = elim (jobs_of i w) [
  | [] ↦ done tt w
  | first ∷ rest ↦
      (do
        j ← load_job first
        when (not j.anonymous && is_set j.p) (set_job first (λ j'. record j' { p = 0 }))
        run depth k (job_remove first)
        remove_jobs rounds depth k i)
        w
]

-- while ((jmi = SLIST_FIRST(&jm->submgrs))) { jobmgr_remove(jmi); }
remove_submgrs : ℕ → (ℕ → M (Unit {0})) → ℕ → M (Unit {0})
remove_submgrs zero remove i w = out_of_fuel
remove_submgrs (suc rounds) remove i w = elim (submgrs_of i w) [
  | [] ↦ done tt w
  | first ∷ rest ↦ (remove first >> remove_submgrs rounds remove i) w
]

unfoldable pub jobmgr_remove : ℕ → Kernel → ℕ → M (Unit {0})
unfolding remove_submgrs remove_jobs retire unlink_mgr jobs_of submgrs_of
jobmgr_remove zero k i w = out_of_fuel
jobmgr_remove (suc fuel) k i w =
    (do
      remove_submgrs fuel (λ c w'. jobmgr_remove fuel k c w') i
      remove_jobs fuel fuel k i
      m ← load_mgr i
      modify_sys (emit_when (is_set m.jm_port) (close_recv m.jm_port))
      retire i m
      unlink_mgr i m)
      w

-- The body of the first loop of the collector; the sum is of the jobs that are still up.
collect_job : ℕ → Kernel → Bool → ℕ → ℕ → M ℕ
collect_job fuel k dirtied actives i = do
  j ← load_job i
  pass (j.anonymous || j.shutdown_monitor) (do
    when (j.dirty_at_shutdown && not dirtied) (on i (job_open_shutdown_transaction k))
    j' ← load_job i
    stop (is_some (job_active j')))
  where
    pass : Bool → M ℕ → M ℕ
    pass b m w = elim b [ true ↦ done actives w | false ↦ m w ]

    stop : Bool → M ℕ
    stop b w = elim b [
      | true ↦
          (do
            on i (job_stop k)
            j ← load_job i
            pure (if j.dirty_at_shutdown then actives else actives + 1))
            w
      | false ↦ (do run fuel k (job_remove i); pure actives) w
    ]

-- The body of the second loop: the jobs that were kept dirty become normal ones.
clean_job : ℕ → ℕ → M ℕ
clean_job actives i = do
  j ← load_job i
  clean (j.anonymous || not (is_some (job_active j)) || j.shutdown_monitor)
  where
    clean : Bool → M ℕ
    clean b w = elim b [
      | true ↦ done actives w
      | false ↦ (do on i job_close_shutdown_transaction; pure (actives + 1)) w
    ]

clean_jobs : ℕ → ℕ → Jobmgr → M ℕ
unfolding clean_job set_mgr
clean_jobs actives i m w = elim (actives == 0 && not m.shutdown_jobs_cleaned) [
  | true ↦
      (do
        actives' ← foreach_fold (jobs_of i) clean_job actives
        set_mgr i (λ jm. record jm { shutdown_jobs_cleaned = true })
        pure actives')
        w
  | false ↦ done actives w
]

-- Nothing is left: the shutdown monitor goes, and after it the manager.
last_of_all : ℕ → Kernel → ℕ → Jobmgr → Option ℕ → M (Option ℕ)
unfolding jobmgr_remove
last_of_all fuel k i m monitor w = elim m.monitor_shutdown [
  | true ↦ elim monitor [
    | some mon ↦
        (do
          set_job mon (λ j. record j { shutdown_monitor = false })
          on mon (job_stop k)
          modify_sys (λ s. record s { launchd_shutdown_monitor = none })
          pure (some i))
          w
    | none ↦ (jobmgr_remove fuel k i >> pure none) w
  ]
  | false ↦ (jobmgr_remove fuel k i >> pure none) w
]

-- A round of the collector over one manager that is shutting down.
unfoldable pub collect : ℕ → Kernel → ℕ → M (Option ℕ)
unfolding collect_job clean_jobs last_of_all
collect fuel k i = do
  m ← load_mgr i
  actives ← foreach_fold (jobs_of i) (collect_job fuel k m.shutdown_jobs_dirtied) 0
  set_mgr i (λ jm. record jm { shutdown_jobs_dirtied = true })
  actives' ← clean_jobs actives i m
  m' ← load_mgr i
  s ← get_sys
  λ w. elim (is_empty m'.submgrs && actives' == 0) [
    | true ↦ last_of_all fuel k i m' s.launchd_shutdown_monitor w
    | false ↦ done (some i) w
  ]

-- The manager, or NULL where it was removed.
unfoldable pub jobmgr_do_garbage_collection : ℕ → Kernel → ℕ → M (Option ℕ)
unfolding collect
jobmgr_do_garbage_collection zero k i w = out_of_fuel
jobmgr_do_garbage_collection (suc fuel) k i w =
    (do
      foreach (submgrs_of i) (λ c w'. (jobmgr_do_garbage_collection fuel k c >>= λ _. skip) w')
      m ← load_mgr i
      λ w'. elim m.shutting_down [ true ↦ collect fuel k i w' | false ↦ done (some i) w' ])
      w

start_monitor : ℕ → Kernel → Option ℕ → M (Unit {0})
start_monitor fuel k none = skip
start_monitor fuel k (some mon) = do
  j ← load_job mon
  when (not (is_set j.p)) (run fuel k (job_dispatch mon true))

unfoldable pub jobmgr_shutdown : ℕ → Kernel → ℕ → M (Option ℕ)
unfolding set_mgr start_monitor
jobmgr_shutdown zero k i w = out_of_fuel
jobmgr_shutdown (suc fuel) k i w =
    (do
      set_mgr i (λ m. record m { shutting_down = true })
      foreach (submgrs_of i) (λ c w'. (jobmgr_shutdown fuel k c >>= λ _. skip) w')
      m ← load_mgr i
      s ← get_sys
      when (not (is_some m.parentmgr)) (do
        when s.pid1_magic (start_monitor fuel k s.launchd_shutdown_monitor)
        modify_sys (emit (shutdown_timer_add i)))
      jobmgr_do_garbage_collection fuel k i)
      w
