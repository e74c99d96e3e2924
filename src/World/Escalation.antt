-- ===== src/World/Escalation.antt =====
-- src/core.c: what the exit timer does to a job that did not heed SIGTERM.
use launchd.Base.{ℕ, Bool, true, false, ◌≡◌, ◌≢◌, refl, some, ◌∷◌, arith, ◌∙◌, ap}
use launchd.Job.Types.{
  exit_timer, timer_add, kill2, enter_debugger, Trace, Kernel, Job, Jobmgr, Ctx,
}
use launchd.Job.Keep.{is_set}
use launchd.Job.Signals.{job_kill}
use launchd.World.Store.{
  World, done, M, load_job, find_job, find_mgr, put_job, put_mgr, on, store_ctx, choose, ◌>>◌,
  ◌>>=◌, get_sys, modify_sys,
}
use launchd.Runtime.{emit_when}
use launchd.World.Release.{set_job}
use launchd.World.Callbacks.{jobmgr_callback_proc, exit_timeout_elapsed, job_callback_timer}
use launchd.World.Tables.{find_job-id, find_job-put_job}
use launchd.World.Guards.{bind-done}
use launchd.World.Removal.{load_job-eq, on-eq, when-true}

job_kill-eq :
    (k : Kernel) (c : Ctx)
    → c.job.p ≢ 0
    → c.job.anonymous ≡ false
    → job_kill k c ≡ record c {
      job = record (c.job) { sent_sigkill = true };
      sys = record (c.sys) {
        trace = timer_add exit_timer c.job.id 4 ∷ kill2 c.job.p 9 ∷ c.sys.trace;
      };
    }
unfolding job_kill
job_kill-eq k c h anon = ground arith

choose-false : (b : Bool) (m n : M (Unit {0})) (w : World) → b ≡ false → choose b m n w ≡ n w
choose-false b m n w h = rw h

-- The entry into the kernel debugger that a job may ask for.
abbrev pub debugged : Bool → Trace → Trace
debugged true t = enter_debugger ∷ t
debugged false t = t

-- When the exit timer of a job runs out for the first time, and the job still has a process and is not
-- anonymous, the kernel debugger is entered if the job asks for it; then that process gets SIGKILL, the timer
-- is set again, to 4 seconds, and nothing else is asked of the kernel; the job is marked, and is otherwise as
-- it was.
pub exit_timer_kills :
    (fuel : ℕ) (k : Kernel) (i : ℕ) (w : World) {j : Job} {m : Jobmgr}
    → find_job i w.jobs ≡ some j
    → find_mgr j.mgr w.mgrs ≡ some m
    → j.p ≢ 0
    → j.anonymous ≡ false
    → j.sent_sigkill ≡ false
    → (w' : World) × (job_callback_timer fuel k i exit_timer w ≡ done tt w')
      × (w'.sys.trace
          ≡ timer_add exit_timer j.id 4 ∷ kill2 j.p 9 ∷ debugged j.debug_before_kill w.sys.trace)
      × (find_job i w'.jobs ≡ some (record j { sent_sigkill = true }))
unfolding job_callback_timer exit_timeout_elapsed store_ctx
exit_timer_kills fuel k i w {j} {m} hj hm live anon fresh = (
  after_kill,
  bind-done (load_job i) _ w (load_job-eq i w hj)
      ∙ when-true (is_set j.p) (choose j.sent_sigkill simulated killed) w (ground arith)
      ∙ choose-false j.sent_sigkill simulated killed w fresh
      ∙ bind-done (modify_sys (emit_when j.debug_before_kill enter_debugger))
          (λ _. on i (job_kill k)) w (debugger j.debug_before_kill)
      ∙ on-eq i (job_kill k) w₁ hj hm
      ∙ ap (λ c. store_ctx c w₁) (job_kill-eq k c live anon),
  refl,
  find_job-put_job i w.jobs (record j { sent_sigkill = true }) hj (find_job-id i w.jobs hj),
)
  where
    simulated : M (Unit {0})
    simulated = do
      set_job i (λ j'. record j' { workaround9359725 = true })
      s ← get_sys
      modify_sys (emit_when s.launchd_trap_sigkill_bugs enter_debugger)
      jobmgr_callback_proc fuel k j.mgr j.p
          (record { note_exec = false; note_exit = true; decrypt_fail = false; memory = false })

    killed : M (Unit {0})
    killed = do modify_sys (emit_when j.debug_before_kill enter_debugger); on i (job_kill k)

    w₁ : World
    w₁ = record w { sys = record (w.sys) { trace = debugged j.debug_before_kill w.sys.trace } }

    debugger :
        (b : Bool)
        → modify_sys (emit_when b enter_debugger) w
          ≡ done tt (record w { sys = record (w.sys) { trace = debugged b w.sys.trace } })
    debugger true = unfold modify_sys in refl
    debugger false = unfold modify_sys in refl

    c : Ctx
    c = record { job = j; mgr = m; sys = w₁.sys }

    after_kill : World
    after_kill = record w {
      jobs = put_job (record j { sent_sigkill = true }) w.jobs;
      mgrs = put_mgr m w.mgrs;
      sys = record (w.sys) {
        trace =
            timer_add exit_timer j.id 4 ∷ kill2 j.p 9 ∷ debugged j.debug_before_kill w.sys.trace;
      };
    }
