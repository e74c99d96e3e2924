-- ===== src/Job/Accounts.antt =====
-- src/core.c: the counts of children and references over the life of one process.
use mathlib.Core.Path.{subst}
use launchd.Base.{
  ℕ, ◌<◌, Bool, true, false, ◌≡◌, ◌≢◌, refl, Option, none, some, arith, ◌∙◌, if◌then◌else◌, inl,
  inr, Bool-cases,
}
use launchd.Job.Types.{respawn_timer, timer_add, fork, attach, socketpair, Trace, Kernel, Ctx}
use launchd.Job.Status.{inc32, dec32, inc64, dec64}
use launchd.Job.Keep.{is_set, is_some, job_active}
use launchd.Job.Watch.{job_ignore}
use launchd.Job.Start.{
  Started, settled, stillborn, is_throttled, job_start, start_end, parent_ctx, parent_counts,
  wants_ipc, fork_parent, fork_failed, job_fork, with_sockets, start_process,
}
use launchd.Job.Reap.{reap_replies, reap_counts, reap_end}
use launchd.Runtime.{emit, emit_when}
use launchd.Job.Tally.{
  Keeps, job_ignore-Keeps, reap_replies-Keeps, runtime_del_ref-tally, parent_counts-tally,
  parent_fds-tally,
}
use launchd.Job.Respawn.{after}

-- What launchd counts: the children, the references held, and the processes of one manager.
abbrev pub counts : Ctx → ℕ × ℕ × ℕ
counts c = (c.sys.total_children, c.sys.runtime_busy_cnt, c.mgr.normal_active_cnt)

abbrev pub one_more : ℕ × ℕ × ℕ → ℕ × ℕ × ℕ
one_more t = (inc64 t.0, inc64 t.1, inc32 t.2)

abbrev pub one_less : ℕ × ℕ × ℕ → ℕ × ℕ × ℕ
one_less t = (dec64 t.0, dec64 t.1, dec32 t.2)

-- fork(2) gives the parent a process number other than 0.
abbrev pub ForkGivesPid : Kernel → Type 0
ForkGivesPid k = (t : Trace) (pid : ℕ) → k.fork_pid t ≡ some pid → pid ≢ 0

-- The counts have not wrapped around.
abbrev pub IsInRange : Ctx → Type 0
IsInRange c =
    (c.sys.total_children < 18446744073709551616)
    × (c.sys.runtime_busy_cnt < 18446744073709551616)
    × (c.mgr.normal_active_cnt < 4294967296)

pub reap_end-counts :
    (k : Kernel) (c : Ctx)
    → c.job.anonymous ≡ false
    → (counts (reap_end k c) ≡ one_less (counts c)) × ((reap_end k c).job.p ≡ 0)
unfolding reap_end reap_counts
reap_end-counts k c h =
    let replies = reap_replies-Keeps k c in
    let dropped = runtime_del_ref-tally (reap_replies k c).sys in (ground arith, refl)

pub start_end-Keeps : (c : Ctx) → Keeps c (start_end c)
unfolding start_end
start_end-Keeps c = ground arith

parent_ctx-counts :
    (k : Kernel) (sipc : Bool) (ipc exec : ℕ × ℕ) (pid : ℕ) (c : Ctx)
    → (counts (parent_ctx k sipc ipc exec pid c) ≡ one_more (counts c))
      × ((parent_ctx k sipc ipc exec pid c).job.p ≡ pid)
unfolding parent_ctx
parent_ctx-counts k sipc ipc exec pid c =
    let fds = parent_fds-tally sipc ipc exec (parent_counts c.job pid c.sys) in
    let more = parent_counts-tally c.job pid c.sys in (ground arith, refl)

fork_parent-counts :
    (k : Kernel) (sipc : Bool) (ipc exec : ℕ × ℕ) (pid : ℕ) (c : Ctx)
    → (counts (after (fork_parent k sipc ipc exec pid c)) ≡ one_more (counts c))
      × ((after (fork_parent k sipc ipc exec pid c)).job.p ≡ pid)
unfolding fork_parent
fork_parent-counts k sipc ipc exec pid c =
    let c' = parent_ctx k sipc ipc exec pid c in
    let attached = record c' { sys = emit (attach pid) c'.sys } in
    let (e, p) = parent_ctx-counts k sipc ipc exec pid c in
    let ignored = job_ignore-Keeps attached in
    let last = start_end-Keeps (job_ignore attached) in
    elim (Bool-cases (k.attach_works c'.sys.trace pid)) [
      | inl works ↦ rw works (ground arith, ground arith)
      | inr fails ↦ rw fails (e, p)
    ]

fork_failed-counts :
    (sipc : Bool) (ipc exec : ℕ × ℕ) (c : Ctx)
    → (counts (after (fork_failed sipc ipc exec c)) ≡ counts c)
      × ((after (fork_failed sipc ipc exec c)).job.p ≡ c.job.p)
unfolding fork_failed
fork_failed-counts sipc ipc exec c =
    let ignored =
      job_ignore-Keeps (record c { sys = emit (timer_add respawn_timer c.job.id 1) c.sys }) in
    (ground arith, ground arith)

-- The counts and the process of a context, read off what job_start leaves.
abbrev Accounted : ℕ × ℕ × ℕ → Started → Type 0
Accounted t r = counts (after r) ≡ (if is_set (after r).job.p then one_more t else t)

Accounted-unchanged :
    (c : Ctx) (r : Started)
    → counts (after r) ≡ counts c
    → (after r).job.p ≡ 0
    → Accounted (counts c) r
Accounted-unchanged c r e p = let idle : is_set (after r).job.p ≡ false = ground arith in rw idle e

fork_parent-Accounted :
    (k : Kernel) (sipc : Bool) (ipc exec : ℕ × ℕ) (pid : ℕ) (c : Ctx)
    → pid ≢ 0
    → Accounted (counts c) (fork_parent k sipc ipc exec pid c)
fork_parent-Accounted k sipc ipc exec pid c h =
    let (e, p) = fork_parent-counts k sipc ipc exec pid c in
    let live : is_set (after (fork_parent k sipc ipc exec pid c)).job.p ≡ true = ground arith in
    rw live e

-- What job_start does with fork(2)'s answer.
job_fork-Accounted :
    (k : Kernel) (sipc : Bool) (ipc exec : ℕ × ℕ) (answer : Option ℕ) (c : Ctx)
    → ((pid : ℕ) → answer ≡ some pid → pid ≢ 0)
    → c.job.p ≡ 0
    → Accounted (counts c) (job_fork k sipc ipc exec answer c)
unfolding job_fork
job_fork-Accounted k sipc ipc exec none c forks h =
    let (e, p) = fork_failed-counts sipc ipc exec c in
    Accounted-unchanged c (fork_failed sipc ipc exec c) e (p ∙ h)
job_fork-Accounted k sipc ipc exec (some pid) c forks h =
    fork_parent-Accounted k sipc ipc exec pid (record c { sys = emit (fork pid) c.sys })
      (forks pid refl)

with_sockets-counts : (c : Ctx) → counts (with_sockets c) ≡ counts c
unfolding with_sockets
with_sockets-counts c = ground arith

start_process-Accounted :
    (k : Kernel) (c : Ctx) → ForkGivesPid k → c.job.p ≡ 0 → Accounted (counts c) (start_process k c)
unfolding start_process
start_process-Accounted k c forks h =
    subst (λ t. Accounted t (start_process k c)) (with_sockets-counts c)
      (job_fork-Accounted k (wants_ipc c.job) (k.socket_fds c.sys.trace)
        (k.socket_fds (emit_when (wants_ipc c.job) socketpair c.sys).trace)
        (k.fork_pid (with_sockets c).sys.trace) (with_sockets c) (forks (with_sockets c).sys.trace)
        h)

-- The same up to where a process that could not be watched is reaped.
pub job_start-counts :
    (k : Kernel) (c : Ctx)
    → ForkGivesPid k
    → c.job.p ≡ 0
    → counts (after (job_start k c))
      ≡ (if is_set (after (job_start k c)).job.p then one_more (counts c) else counts c)
unfolding job_start
job_start-counts k c forks h = elim (Bool-cases (is_some (job_active c.job))) [
  | inl busy ↦ rw busy (Accounted-unchanged c (settled c) refl h)
  | inr idle ↦ elim (Bool-cases (is_throttled c)) [
    | inl held ↦ rw (idle, held) (held_back _)
    | inr free ↦ rw (idle, free) (start_process-Accounted k c forks h)
  ]
]
  where
    held_back :
        (seconds : ℕ)
        → Accounted (counts c) (
            settled (
              job_ignore
                (record c { sys = emit (timer_add respawn_timer c.job.id seconds) c.sys })))
    held_back seconds =
        let armed = record c { sys = emit (timer_add respawn_timer c.job.id seconds) c.sys } in
        let ignored = job_ignore-Keeps armed in
        Accounted-unchanged c (settled (job_ignore armed)) (ground arith) (ignored.pid ∙ h)

-- What is known of a process that must be reaped at once.
abbrev pub Born : ℕ × ℕ × ℕ → Bool → Started → Type 0
Born t anon (settled c) = Unit {0}
Born t anon (stillborn c) = (counts c ≡ one_more t) × (c.job.anonymous ≡ anon)

job_fork-Born :
    (k : Kernel) (sipc : Bool) (ipc exec : ℕ × ℕ) (answer : Option ℕ) (c : Ctx)
    → Born (counts c) c.job.anonymous (job_fork k sipc ipc exec answer c)
unfolding job_fork
job_fork-Born k sipc ipc exec none c = unfold fork_failed in tt
job_fork-Born k sipc ipc exec (some pid) c = elim (Bool-cases (k.attach_works c'.sys.trace pid)) [
  | inl works ↦ rw (fork_parent, works) tt
  | inr fails ↦ rw (fork_parent, fails) ((parent_ctx-counts k sipc ipc exec pid forked).0, same)
]
  where
    forked : Ctx
    forked = record c { sys = emit (fork pid) c.sys }

    c' : Ctx
    c' = parent_ctx k sipc ipc exec pid forked

    same : c'.job.anonymous ≡ c.job.anonymous
    same = unfold parent_ctx in refl

start_process-Born : (k : Kernel) (c : Ctx) → Born (counts c) c.job.anonymous (start_process k c)
unfolding start_process
start_process-Born k c =
    subst (λ t. Born t c.job.anonymous (start_process k c)) (with_sockets-counts c)
      (job_fork-Born k (wants_ipc c.job) (k.socket_fds c.sys.trace)
        (k.socket_fds (emit_when (wants_ipc c.job) socketpair c.sys).trace)
        (k.fork_pid (with_sockets c).sys.trace) (with_sockets c))

pub job_start-Born : (k : Kernel) (c : Ctx) → Born (counts c) c.job.anonymous (job_start k c)
unfolding job_start
job_start-Born k c = elim (Bool-cases (is_some (job_active c.job))) [
  | inl busy ↦ rw busy tt
  | inr idle ↦ elim (Bool-cases (is_throttled c)) [
    | inl held ↦ rw (idle, held) tt
    | inr free ↦ rw (idle, free) (start_process-Born k c)
  ]
]
