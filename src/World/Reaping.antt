-- ===== src/World/Reaping.antt =====
-- src/core.c: job_reap and job_start as a whole, on the tables: the counts of children, references and
-- active jobs.
use launchd.Base.{ℕ, true, false, ◌≡◌, refl, some, [], ap, ◌∙◌, arith}
use launchd.Job.Types.{Kernel, Ctx}
use launchd.Job.Reap.{reap_exit, exec_failed, reap_services, reap_end}
use launchd.Job.Tally.{Keeps, reap_exit-Keeps, reap_services-Keeps, reap_replies-Keeps}
use launchd.Job.Accounts.{counts, one_less, reap_end-counts}
use launchd.World.Store.{
  World, done, M, load_ctx, load_job, find_job, find_mgr, put_job, put_mgr, on, store_ctx, when,
  ◌>>=◌, ◌>>◌,
}
use launchd.World.Release.{set_job}
use launchd.World.Dispatch.{Call, job_reap, resume_perusers, support_externalevent_new}
use launchd.World.Tables.{find_job-id, find_job-put_job, find_mgr-id, find_mgr-put_mgr}
use launchd.World.Guards.{load_ctx-eq, bind-done, when-false}
use launchd.World.Removal.{load_job-eq, set_job-eq}

-- The tables give the job at the address `i`, its manager and the globals as they are in `c`.
pub record Holds (i : ℕ) (c : Ctx) (w : World) : Type 0 where
  pub job : find_job i w.jobs ≡ some c.job
  pub mgr : find_mgr c.job.mgr w.mgrs ≡ some c.mgr
  pub sys : w.sys ≡ c.sys

-- An operation leaves the addresses of the job and of its manager alone, and the per-user launchds that
-- the job has suspended.
abbrev pub Stays : Ctx → Ctx → Type 0
Stays c c' =
    (c'.job.id ≡ c.job.id)
    × (c'.job.mgr ≡ c.job.mgr)
    × (c'.mgr.id ≡ c.mgr.id)
    × (c'.job.suspended_perusers ≡ c.job.suspended_perusers)

abbrev pub stored : Ctx → World → World
stored c w = record w { jobs = put_job c.job w.jobs; mgrs = put_mgr c.mgr w.mgrs; sys = c.sys }

pub stored-Holds :
    (i : ℕ) (c c' : Ctx) (w : World) → Holds i c w → Stays c c' → Holds i c' (stored c' w)
stored-Holds i c c' w h s = record {
  job = find_job-put_job i w.jobs c'.job h.job (s.0 ∙ find_job-id i w.jobs h.job);
  mgr =
      ap (λ x. find_mgr x (put_mgr c'.mgr w.mgrs)) s.1
      ∙ find_mgr-put_mgr c.job.mgr w.mgrs c'.mgr h.mgr (s.2 ∙ find_mgr-id c.job.mgr w.mgrs h.mgr);
  sys = refl;
}

pub Holds-load_ctx : (i : ℕ) (c : Ctx) (w : World) → Holds i c w → load_ctx i w ≡ done c w
Holds-load_ctx i c w h =
    load_ctx-eq i w h.job h.mgr
    ∙ ap (λ s. done (record { job = c.job; mgr = c.mgr; sys = s }) w) h.sys

pub Holds-on :
    (i : ℕ) (f : Ctx → Ctx) (c : Ctx) (w : World)
    → Holds i c w
    → on i f w ≡ done tt (stored (f c) w)
unfolding on store_ctx
Holds-on i f c w h = bind-done (load_ctx i) (λ c'. store_ctx (f c')) w (Holds-load_ctx i c w h)

pub Keeps-Stays : {c c' : Ctx} → Keeps c c' → Stays c c'
Keeps-Stays {c} {c'} a = (a.address, a.owner, ap (λ m. m.id) a.mgr, a.perusers)

reap_end-Stays : (k : Kernel) (c : Ctx) → Stays c (reap_end k c)
unfolding reap_end
reap_end-Stays k c =
    let replies = reap_replies-Keeps k c in
    (replies.address, replies.owner, ground (arith, replies), replies.perusers)

module _ (k : Kernel) (call : Call → M (Unit {0})) (i : ℕ) where
  -- What job_reap does once the exit status is known and no event is asked for.
  reap_rest : M (Unit {0})
  reap_rest = do
    on i (reap_services k)
    j ← load_job i
    resume_perusers k call j.suspended_perusers
    set_job i (λ j'. record j' { suspended_perusers = [] })
    on i (reap_end k)

  -- What it does when exec(3) failed.
  ask : M (Unit {0})
  ask = do support_externalevent_new k call i; set_job i (λ j. record j { waiting4ok = true })

  -- The job with no per-user launchds that it has suspended.
  abbrev resumed : Ctx → Ctx
  resumed c = record c { job = record (c.job) { suspended_perusers = [] } }

  -- The contexts between the stretches of job_reap.
  abbrev pub reaped : Ctx → Ctx
  reaped c = reap_end k (resumed (reap_services k (reap_exit k c)))

  abbrev resumed_world : Ctx → World → World
  resumed_world c w = record w {
    jobs = put_job (record (c.job) { suspended_perusers = [] }) w.jobs;
  }

  resumed-Holds : (c : Ctx) (w : World) → Holds i c w → Holds i (resumed c) (resumed_world c w)
  resumed-Holds c w h = record {
    job = find_job-put_job i w.jobs (resumed c).job h.job (find_job-id i w.jobs h.job);
    mgr = h.mgr;
    sys = h.sys;
  }

  resume-eq :
      (c : Ctx) (w : World)
      → Holds i c w
      → c.job.suspended_perusers ≡ []
      → (do
        resume_perusers k call c.job.suspended_perusers
        set_job i (λ j'. record j' { suspended_perusers = [] })
        on i (reap_end k))
          w
        ≡ on i (reap_end k) (resumed_world c w)
  unfolding resume_perusers
  resume-eq c w h none_suspended =
      bind-done (resume_perusers k call c.job.suspended_perusers) _ w
        (ap (λ l. resume_perusers k call l w) none_suspended)
      ∙ bind-done (set_job i (λ j'. record j' { suspended_perusers = [] })) _ w
          (set_job-eq i _ w h.job)

  reap_rest-Holds :
      (c : Ctx) (w : World)
      → Holds i c w
      → c.job.suspended_perusers ≡ []
      → let c' = reap_end k (resumed (reap_services k c)) in
        (w' : World) × (reap_rest w ≡ done tt w') × Holds i c' w'
  unfolding reap_rest
  reap_rest-Holds c w h none_suspended =
      let a = reap_services-Keeps k c in
      let w1 = stored (reap_services k c) w in
      let h1 = stored-Holds i c (reap_services k c) w h (Keeps-Stays a) in
      let c2 = resumed (reap_services k c) in
      let w2 = resumed_world (reap_services k c) w1 in
      let h2 = resumed-Holds (reap_services k c) w1 h1 in
      (
        stored (reap_end k c2) w2,
        bind-done (on i (reap_services k)) _ w (Holds-on i (reap_services k) c w h)
            ∙ bind-done (load_job i) _ w1 (load_job-eq i w1 h1.job)
            ∙ resume-eq (reap_services k c) w1 h1 (a.perusers ∙ none_suspended)
            ∙ Holds-on i (reap_end k) c2 w2 h2,
        stored-Holds i c2 (reap_end k c2) w2 h2 (reap_end-Stays k c2),
      )

  pub job_reap-Holds :
      (c : Ctx) (w : World)
      → Holds i c w
      → exec_failed (reap_exit k c).job (reap_exit k c).sys ≡ false
      → c.job.suspended_perusers ≡ []
      → (w' : World) × (job_reap k call i w ≡ done tt w') × Holds i (reaped c) w'
  unfolding job_reap reap_rest ask
  job_reap-Holds c w h ran none_suspended =
      let a = reap_exit-Keeps k c in
      let c1 = reap_exit k c in
      let w1 = stored c1 w in
      let h1 = stored-Holds i c c1 w h (Keeps-Stays a) in
      let (w', e, h') = reap_rest-Holds c1 w1 h1 (a.perusers ∙ none_suspended) in
      (
        w',
        bind-done (on i (reap_exit k)) _ w (Holds-on i (reap_exit k) c w h)
            ∙ bind-done (load_ctx i) _ w1 (Holds-load_ctx i c1 w1 h1)
            ∙ bind-done (when (exec_failed c1.job c1.sys) ask) (λ _. reap_rest) w1
                (when-false (exec_failed c1.job c1.sys) ask w1 ran)
            ∙ e,
        h',
      )

  pub reaped-counts :
      (c : Ctx)
      → c.job.anonymous ≡ false
      → (counts (reaped c) ≡ one_less (counts c)) × ((reaped c).job.p ≡ 0)
  reaped-counts c managed =
      let a = reap_exit-Keeps k c in
      let b = reap_services-Keeps k (reap_exit k c) in
      let (e, p) =
        reap_end-counts k (resumed (reap_services k (reap_exit k c))) (b.anon ∙ a.anon ∙ managed) in
      (ground arith, p)

  -- job_reap of a job that is not anonymous takes one from the children, the references and the active jobs
  -- of its manager, and leaves the job without a process; where nothing is dispatched on the way: the job does
  -- not wait for the support system to say when exec(3) may work, and has suspended no per-user launchd.
  pub job_reap-counts :
      (c : Ctx) (w : World)
      → Holds i c w
      → c.job.anonymous ≡ false
      → exec_failed (reap_exit k c).job (reap_exit k c).sys ≡ false
      → c.job.suspended_perusers ≡ []
      → (w' : World) × (c' : Ctx) × (job_reap k call i w ≡ done tt w')
        × Holds i c' w'
        × (counts c' ≡ one_less (counts c))
        × (c'.job.p ≡ 0)
  job_reap-counts c w h managed ran none_suspended =
      let (w', e, h') = job_reap-Holds c w h ran none_suspended in
      let (less, gone) = reaped-counts c managed in (w', reaped c, e, h', less, gone)
