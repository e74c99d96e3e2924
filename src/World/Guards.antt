-- ===== src/World/Guards.antt =====
-- src/core.c: which jobs job_dispatch leaves alone.
use launchd.Base.{ℕ, suc, Bool, true, false, not, ◌||◌, ◌≡◌, ◌⊎◌, some, arith, ◌∙◌}
use launchd.Job.Types.{Kernel, Job, Jobmgr}
use launchd.Job.Keep.{is_some, job_active}
use launchd.World.Store.{World, done, M, load_ctx, find_job, find_mgr, ◌>>=◌, when}
use launchd.World.Dispatch.{job_dispatch, run, dispatch_inactive}

pub load_ctx-eq :
    (i : ℕ) (w : World) {j : Job} {m : Jobmgr}
    → find_job i w.jobs ≡ some j
    → find_mgr j.mgr w.mgrs ≡ some m
    → load_ctx i w ≡ done (record { job = j; mgr = m; sys = w.sys }) w
unfolding load_ctx
load_ctx-eq i w hj hm = ground arith

pub bind-done :
    {A B : Type 0} (m : M A) (f : A → M B) (w : World) {a : A} {w' : World}
    → m w ≡ done a w'
    → (m >>= f) w ≡ f a w'
bind-done m f w h = rw (h, ◌>>=◌)

-- A job may not be dispatched: it waits for its audit session, is an alias, cannot exec(3), or is
-- active already.
abbrev pub IsBarred : Job → Type 0
IsBarred j =
    (j.needs_session ≡ true)
    ⊎ (j.is_alias ≡ true)
    ⊎ (j.waiting4ok ≡ true)
    ⊎ (is_some (job_active j) ≡ true)

barred-test :
    (j : Job)
    → IsBarred j
    → not (j.needs_session || j.is_alias || j.waiting4ok || is_some (job_active j)) ≡ false
barred-test j b = ground arith

pub when-false : (b : Bool) (m : M (Unit {0})) (w : World) → b ≡ false → when b m w ≡ done tt w
when-false b m w h = rw h

-- Dispatching a job that waits for its audit session, is an alias, cannot exec(3) or is active already,
-- kick-started or not, does nothing at all.
pub dispatch_barred :
    (fuel : ℕ) (k : Kernel) (i : ℕ) (kickstart : Bool) (w : World) {j : Job} {m : Jobmgr}
    → find_job i w.jobs ≡ some j
    → find_mgr j.mgr w.mgrs ≡ some m
    → IsBarred j
    → run (suc fuel) k (job_dispatch i kickstart) w ≡ done tt w
unfolding run
dispatch_barred fuel k i kickstart w {j} {m} hj hm b =
    bind-done (load_ctx i) _ w (load_ctx-eq i w hj hm)
    ∙ when-false _
        (dispatch_inactive k (λ c' w'. run fuel k c' w') i kickstart
          (record { job = j; mgr = m; sys = w.sys }))
        w (barred-test j b)
