-- ===== src/World/Starting.antt =====
-- src/core.c: job_start as a whole, on the tables: the counts of children, references and active jobs.
use mathlib.Core.Path.{subst}
use launchd.Base.{
  ℕ, ◌-◌, Bool, false, ◌≡◌, refl, Option, none, some, [], ap, ◌∙◌, arith, if◌then◌else◌, inl, inr,
  Bool-cases,
}
use launchd.Job.Types.{respawn_timer, timer_add, fork, attach, socketpair, Kernel, Ctx}
use launchd.Job.Keep.{is_set, is_some, job_active}
use launchd.Job.Watch.{job_watch, job_ignore}
use launchd.Job.Start.{
  Started, settled, stillborn, is_throttled, seconds_since_start, job_start, start_end, parent_ctx,
  started_job, wants_ipc, fork_parent, fork_failed, job_fork, with_sockets, start_process,
}
use launchd.Job.Reap.{reap_exit, exec_failed}
use launchd.Job.Tally.{job_ignore-Keeps, job_watch-Keeps}
use launchd.Job.Respawn.{after}
use launchd.Job.Accounts.{
  counts, one_more, ForkGivesPid, IsInRange, start_end-Keeps, job_start-counts, job_start-Born,
  Born,
}
use launchd.Runtime.{emit, emit_when}
use launchd.World.Store.{World, done, M, load_ctx, on, store_ctx}
use launchd.World.Dispatch.{Call, job_reap, start_job, finish_start}
use launchd.World.Guards.{bind-done}
use launchd.World.Reaping.{
  Holds, Stays, stored, stored-Holds, Holds-load_ctx, Holds-on, Keeps-Stays, reaped, reaped-counts,
  job_reap-Holds,
}

Stays-trans : (a b c : Ctx) → Stays a b → Stays b c → Stays a c
Stays-trans a b c f g = (g.0 ∙ f.0, g.1 ∙ f.1, g.2 ∙ f.2, g.3 ∙ f.3)

parent_ctx-Stays :
    (k : Kernel) (sipc : Bool) (ipc exec : ℕ × ℕ) (pid : ℕ) (c : Ctx)
    → Stays c (parent_ctx k sipc ipc exec pid c)
unfolding parent_ctx started_job
parent_ctx-Stays k sipc ipc exec pid c = (refl, refl, refl, refl)

job_ignore-Stays : (c : Ctx) → Stays c (job_ignore c)
job_ignore-Stays c = Keeps-Stays (job_ignore-Keeps c)

fork_parent-Stays :
    (k : Kernel) (sipc : Bool) (ipc exec : ℕ × ℕ) (pid : ℕ) (c : Ctx)
    → Stays c (after (fork_parent k sipc ipc exec pid c))
unfolding fork_parent
fork_parent-Stays k sipc ipc exec pid c =
    let c' = parent_ctx k sipc ipc exec pid c in
    let attached = record c' { sys = emit (attach pid) c'.sys } in
    let begun : Stays c attached = parent_ctx-Stays k sipc ipc exec pid c in
    elim (Bool-cases (k.attach_works c'.sys.trace pid)) [
      | inl works ↦ rw works (
          Stays-trans c attached (start_end (job_ignore attached)) begun (
            Stays-trans attached (job_ignore attached) (start_end (job_ignore attached))
              (job_ignore-Stays attached) (Keeps-Stays (start_end-Keeps (job_ignore attached)))))
      | inr fails ↦ rw fails begun
    ]

fork_failed-Stays :
    (sipc : Bool) (ipc exec : ℕ × ℕ) (c : Ctx) → Stays c (after (fork_failed sipc ipc exec c))
unfolding fork_failed
fork_failed-Stays sipc ipc exec c =
    job_ignore-Stays (record c { sys = emit (timer_add respawn_timer c.job.id 1) c.sys })

job_fork-Stays :
    (k : Kernel) (sipc : Bool) (ipc exec : ℕ × ℕ) (answer : Option ℕ) (c : Ctx)
    → Stays c (after (job_fork k sipc ipc exec answer c))
unfolding job_fork
job_fork-Stays k sipc ipc exec none c = fork_failed-Stays sipc ipc exec c
job_fork-Stays k sipc ipc exec (some pid) c =
    fork_parent-Stays k sipc ipc exec pid (record c { sys = emit (fork pid) c.sys })

start_process-Stays : (k : Kernel) (c : Ctx) → Stays c (after (start_process k c))
unfolding start_process with_sockets
start_process-Stays k c =
    job_fork-Stays k (wants_ipc c.job) (k.socket_fds c.sys.trace)
      (k.socket_fds (emit_when (wants_ipc c.job) socketpair c.sys).trace)
      (k.fork_pid (with_sockets c).sys.trace) (with_sockets c)

job_start-Stays : (k : Kernel) (c : Ctx) → Stays c (after (job_start k c))
unfolding job_start
job_start-Stays k c = elim (Bool-cases (is_some (job_active c.job))) [
  | inl busy ↦ rw busy (refl, refl, refl, refl)
  | inr idle ↦ elim (Bool-cases (is_throttled c)) [
    | inl held ↦
        rw (idle, held)
          (job_ignore-Stays (record c {
            sys =
                emit (timer_add respawn_timer c.job.id (c.job.min_run_time - seconds_since_start c))
                  c.sys;
          }))
    | inr free ↦ rw (idle, free) (start_process-Stays k c)
  ]
]

module _ (k : Kernel) (call : Call → M (Unit {0})) (i : ℕ) where
  -- What start_job leaves, as the one that it started for is found: with one child, one reference and one
  -- active job more if it has a process, and with the same counts if not.
  abbrev Accounted : (c : Ctx) (w : World) → Type 0
  Accounted c w =
      (w' : World) × (c' : Ctx) × (start_job k call i w ≡ done tt w')
      × Holds i c' w'
      × (counts c' ≡ (if is_set c'.job.p then one_more (counts c) else counts c))

  start_job-eq :
      (c : Ctx) (w : World)
      → Holds i c w
      → start_job k call i w ≡ finish_start k call i (job_start k c) w
  unfolding start_job
  start_job-eq c w h =
      bind-done (load_ctx i) (λ c. finish_start k call i (job_start k c)) w (Holds-load_ctx i c w h)

  settled-Accounted :
      (c c' : Ctx) (w : World)
      → Holds i c w
      → ForkGivesPid k
      → c.job.p ≡ 0
      → job_start k c ≡ settled c'
      → Accounted c w
  unfolding finish_start store_ctx
  settled-Accounted c c' w h forks idle e =
      let stays : Stays c c' = subst (λ r. Stays c (after r)) e (job_start-Stays k c) in
      let more =
        subst
          (λ r.
            counts (after r) ≡ (if is_set (after r).job.p then one_more (counts c) else counts c))
          e (job_start-counts k c forks idle) in
      (
        stored c' w,
        c',
        start_job-eq c w h ∙ ap (λ r. finish_start k call i r w) e,
        stored-Holds i c c' w h stays,
        more,
      )

  idle-Accounted :
      (c c' : Ctx)
      → counts c' ≡ counts c
      → c'.job.p ≡ 0
      → counts c' ≡ (if is_set c'.job.p then one_more (counts c) else counts c)
  idle-Accounted c c' same idle = let off : is_set c'.job.p ≡ false = ground arith in rw off same

  stillborn-Accounted :
      (c born : Ctx) (w : World)
      → Holds i c w
      → c.job.anonymous ≡ false
      → IsInRange c
      → c.job.suspended_perusers ≡ []
      → exec_failed (reap_exit k born).job (reap_exit k born).sys ≡ false
      → job_start k c ≡ stillborn born
      → Accounted c w
  unfolding finish_start store_ctx
  stillborn-Accounted c born w h managed range none_suspended ran e =
      let stays : Stays c born = subst (λ r. Stays c (after r)) e (job_start-Stays k c) in
      let (more, same) = subst (Born (counts c) c.job.anonymous) e (job_start-Born k c) in
      let h0 = stored-Holds i c born w h stays in
      let (w1, reap_eq, h1) =
        job_reap-Holds k call i born (stored born w) h0 ran (stays.3 ∙ none_suspended) in
      let c1 = reaped k call i born in
      let (less, gone) = reaped-counts k call i born (same ∙ managed) in
      let watched = job_watch-Keeps k c1 in
      let c2 = job_watch k c1 in
      let h2 = stored-Holds i c1 c2 w1 h1 (Keeps-Stays watched) in
      let ended = start_end-Keeps c2 in
      let h3 = stored-Holds i c2 (start_end c2) (stored c2 w1) h2 (Keeps-Stays ended) in
      (
        stored (start_end c2) (stored c2 w1),
        start_end c2,
        start_job-eq c w h
            ∙ ap (λ r. finish_start k call i r w) e
            ∙ bind-done (job_reap k call i) _ (stored born w) reap_eq
            ∙ bind-done (on i (job_watch k)) _ w1 (Holds-on i (job_watch k) c1 w1 h1)
            ∙ Holds-on i start_end c2 (stored c2 w1) h2,
        h3,
        idle-Accounted c (start_end c2) (ground (arith, less, more, watched, ended, range))
            (ended.pid ∙ watched.pid ∙ gone),
      )

  -- job_start of a job that has no process and is not anonymous, to its end, adds one to the children, the
  -- references and the active jobs of the job's manager if the job has a process then, and changes none of them
  -- if not: when the job is active otherwise or throttled, fork(2) fails, or the process cannot be watched and
  -- is reaped; where fork(2) gives no process the number 0, the counts are in the range of their types, and a
  -- job that is reaped so dispatches no others: it does not wait for the support system to say when exec(3) may
  -- work, and has suspended no per-user launchd.
  pub start_job-counts :
      (c : Ctx) (w : World)
      → Holds i c w
      → ForkGivesPid k
      → c.job.p ≡ 0
      → c.job.anonymous ≡ false
      → IsInRange c
      → c.job.suspended_perusers ≡ []
      → ((born : Ctx)
          → job_start k c ≡ stillborn born
          → exec_failed (reap_exit k born).job (reap_exit k born).sys ≡ false)
      → (w' : World) × (c' : Ctx) × (start_job k call i w ≡ done tt w')
        × Holds i c' w'
        × (counts c' ≡ (if is_set c'.job.p then one_more (counts c) else counts c))
  start_job-counts c w h forks idle managed range none_suspended quiet =
      by_cases (job_start k c) refl
    where
      by_cases : (r : Started) → job_start k c ≡ r → Accounted c w
      by_cases (settled c') e = settled-Accounted c c' w h forks idle e
      by_cases (stillborn born) e =
          stillborn-Accounted c born w h managed range none_suspended (quiet born e) e
