-- ===== src/World/Removal.antt =====
-- src/core.c: job_remove, on a job that still has a process.
use launchd.Base.{ℕ, suc, Bool, true, false, not, ◌&&◌, ◌≡◌, ◌≢◌, refl, some, arith, ◌∙◌}
use launchd.Job.Types.{Kernel, Job, Jobmgr, Ctx}
use launchd.Job.Keep.{is_set}
use launchd.Job.Signals.{job_stop}
use launchd.World.Store.{
  World, done, M, load_ctx, load_job, find_job, find_mgr, put_job, put_mgr, on, store_ctx,
  store_job, ◌>>◌, when, choose,
}
use launchd.World.Release.{set_job, unlink_from_parent}
use launchd.World.Dispatch.{
  Call, job_remove, run, remove_body, remove_active, remove_inactive, remove_alias, job_reap,
}
use launchd.World.Tables.{find_job-id, find_job-put_job}
use launchd.World.Guards.{load_ctx-eq, bind-done, when-false}

pub load_job-eq :
    (i : ℕ) (w : World) {j : Job} → find_job i w.jobs ≡ some j → load_job i w ≡ done j w
unfolding load_job
load_job-eq i w h = rw (h, load_job)

pub set_job-eq :
    (i : ℕ) (f : Job → Job) (w : World) {j : Job}
    → find_job i w.jobs ≡ some j
    → set_job i f w ≡ done tt (record w { jobs = put_job (f j) w.jobs })
unfolding set_job store_job load_job
set_job-eq i f w h = ground arith

pub on-eq :
    (i : ℕ) (f : Ctx → Ctx) (w : World) {j : Job} {m : Jobmgr}
    → find_job i w.jobs ≡ some j
    → find_mgr j.mgr w.mgrs ≡ some m
    → on i f w ≡ store_ctx (f (record { job = j; mgr = m; sys = w.sys })) w
unfolding on
on-eq i f w hj hm = bind-done (load_ctx i) (λ c. store_ctx (f c)) w (load_ctx-eq i w hj hm)

-- What job_stop leaves alone.
job_stop-same :
    (k : Kernel) (c : Ctx)
    → ((job_stop k c).job.id ≡ c.job.id)
      × ((job_stop k c).job.p ≡ c.job.p)
      × ((job_stop k c).job.removal_pending ≡ c.job.removal_pending)
unfolding job_stop
job_stop-same k c = (ground arith, ground arith, ground arith)

-- A job, with its removal pending, and its manager and the globals.
abbrev pub pending : Job → Jobmgr → World → Ctx
pending j m w = record { job = record j { removal_pending = true }; mgr = m; sys = w.sys }

pend-eq :
    (k : Kernel) (i : ℕ) (w : World) {j : Job} {m : Jobmgr}
    → find_job i w.jobs ≡ some j
    → find_mgr j.mgr w.mgrs ≡ some m
    → (set_job i (λ j'. record j' { removal_pending = true }) >> on i (job_stop k)) w
      ≡ store_ctx
          (job_stop k (pending j m w))
          (record w { jobs = put_job (record j { removal_pending = true }) w.jobs })
pend-eq k i w {j} {m} hj hm =
    bind-done (set_job i (λ j'. record j' { removal_pending = true })) (λ _. on i (job_stop k)) w
      (set_job-eq i _ w hj)
    ∙ on-eq i (job_stop k) _ (find_job-put_job i w.jobs _ hj (find_job-id i w.jobs hj)) hm

pub when-true : (b : Bool) (m : M (Unit {0})) (w : World) → b ≡ true → when b m w ≡ m w
when-true b m w h = rw h

remove_body-live :
    (k : Kernel) (call : Call → M (Unit {0})) (i : ℕ) (w : World) {j : Job}
    → find_job i w.jobs ≡ some j
    → is_set j.p ≡ true
    → j.is_alias ≡ false
    → j.dedicated_instance ≡ false
    → remove_body k call i w ≡ remove_active k call i j w
unfolding remove_body
remove_body-live k call i w {j} hj live alias dedicated =
    bind-done (load_job i) _ w (load_job-eq i w hj)
    ∙ settle j.is_alias j.dedicated_instance alias dedicated
  where
    settle :
        (a d : Bool)
        → a ≡ false
        → d ≡ false
        → choose a
            (remove_alias k call i j)
            (do
              when
                  (d && not j.former_subjob)
                  (do unlink_from_parent i; set_job i (λ j'. record j' { former_subjob = true }))
              choose (is_set j.p) (remove_active k call i j) (remove_inactive k call i))
            w
          ≡ remove_active k call i j w
    settle a d ha hd = rw (ha, hd) (rw live)

remove_active-managed :
    (k : Kernel) (call : Call → M (Unit {0})) (i : ℕ) (w : World) (j : Job)
    → j.anonymous ≡ false
    → remove_active k call i j w
      ≡ when
          (not j.removal_pending)
          (set_job i (λ j'. record j' { removal_pending = true }) >> on i (job_stop k))
          w
unfolding remove_active
remove_active-managed k call i w j anon = settle j.anonymous anon
  where
    pend : M (Unit {0})
    pend =
        when (not j.removal_pending)
          (set_job i (λ j'. record j' { removal_pending = true }) >> on i (job_stop k))

    settle :
        (a : Bool)
        → a ≡ false
        → choose a (do job_reap k call i; remove_inactive k call i) pend w ≡ pend w
    settle a h = rw h

-- A job with a process that is no alias, is not anonymous, has no dedicated instance and is not yet
-- marked is not freed by job_remove: it is marked for removal and asked to stop, and stays in the table
-- with its process.
pub remove_live :
    (fuel : ℕ) (k : Kernel) (i : ℕ) (w : World) {j : Job} {m : Jobmgr}
    → find_job i w.jobs ≡ some j
    → find_mgr j.mgr w.mgrs ≡ some m
    → j.p ≢ 0
    → j.is_alias ≡ false
    → j.anonymous ≡ false
    → j.dedicated_instance ≡ false
    → j.removal_pending ≡ false
    → let c = job_stop k (pending j m w) in
      (w' : World) × (run (suc fuel) k (job_remove i) w ≡ done tt w')
      × (w'.sys ≡ c.sys)
      × (find_job i w'.jobs ≡ some c.job)
      × (c.job.removal_pending ≡ true)
      × (c.job.p ≡ j.p)
unfolding run store_ctx
remove_live fuel k i w {j} {m} hj hm live alias anon dedicated fresh = (
  after_stop,
  remove_body-live k (λ c' w'. run fuel k c' w') i w hj (ground arith) alias dedicated
      ∙ remove_active-managed k (λ c' w'. run fuel k c' w') i w j anon
      ∙ when-true (not j.removal_pending)
          (set_job i (λ j'. record j' { removal_pending = true }) >> on i (job_stop k)) w
          (ground arith)
      ∙ pend-eq k i w hj hm,
  refl,
  find_job-put_job i (put_job pended w.jobs) c.job
      (find_job-put_job i w.jobs pended hj (find_job-id i w.jobs hj))
      (same.0 ∙ find_job-id i w.jobs hj),
  same.2,
  same.1,
)
  where
    pended : Job
    pended = record j { removal_pending = true }

    c : Ctx
    c = job_stop k (pending j m w)

    after_stop : World
    after_stop = record w {
      jobs = put_job c.job (put_job pended w.jobs);
      mgrs = put_mgr c.mgr w.mgrs;
      sys = c.sys;
    }

    same : (c.job.id ≡ j.id) × (c.job.p ≡ j.p) × (c.job.removal_pending ≡ true)
    same = job_stop-same k (pending j m w)

-- job_remove of a job that is marked for removal and still has a process, and is no alias, not
-- anonymous and has no dedicated instance, does nothing.
pub remove_pending :
    (fuel : ℕ) (k : Kernel) (i : ℕ) (w : World) {j : Job}
    → find_job i w.jobs ≡ some j
    → j.p ≢ 0
    → j.is_alias ≡ false
    → j.anonymous ≡ false
    → j.dedicated_instance ≡ false
    → j.removal_pending ≡ true
    → run (suc fuel) k (job_remove i) w ≡ done tt w
unfolding run
remove_pending fuel k i w {j} hj live alias anon dedicated pended =
    remove_body-live k (λ c' w'. run fuel k c' w') i w hj (ground arith) alias dedicated
    ∙ remove_active-managed k (λ c' w'. run fuel k c' w') i w j anon
    ∙ when-false (not j.removal_pending)
        (set_job i (λ j'. record j' { removal_pending = true }) >> on i (job_stop k)) w
        (ground arith)
