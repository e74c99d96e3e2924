-- ===== src/Job/Tally.antt =====
-- src/core.c: the counts of children and references, which most operations of a job leave alone.
use launchd.Base.{ℕ, Bool, ◌≡◌, refl, List, [], ◌∷◌, arith, ◌∙◌, if◌then◌else◌}
use launchd.Job.Types.{Effect, watch_fd, ignore_fd, Kernel, MachService, Job, Sys, Ctx}
use launchd.Job.Watch.{
  emit_all, socketgroups_mod, machservices_ignore, machservice_watch, machservices_watch,
  job_ignore, job_watch,
}
use launchd.Job.Reap.{
  reap_bootstrap, reap_fork_fd, reap_dirty, reap_process, reap_exit, each_service, on_services,
  recover_service, reset_upfront, reap_crash, reap_recover, reap_upfront, reap_services,
  reap_replies,
}
use launchd.Job.Status.{inc64, dec64}
use launchd.Job.Start.{parent_counts, parent_fds}
use launchd.Runtime.{emit, runtime_add_ref, runtime_del_ref}

-- The children, the anonymous children and the references held.
abbrev pub tally : Sys → ℕ × ℕ × ℕ
tally s = (s.total_children, s.total_anon_children, s.runtime_busy_cnt)

-- What an operation on a live process keeps: the counts, the manager, the process and its kind, the job's
-- address, and the per-user launchds that it has suspended.
pub record Keeps (c c' : Ctx) : Type 0 where
  pub children : c'.sys.total_children ≡ c.sys.total_children
  pub anon_children : c'.sys.total_anon_children ≡ c.sys.total_anon_children
  pub busy : c'.sys.runtime_busy_cnt ≡ c.sys.runtime_busy_cnt
  pub mgr : c'.mgr ≡ c.mgr
  pub pid : c'.job.p ≡ c.job.p
  pub anon : c'.job.anonymous ≡ c.job.anonymous
  pub ref : c'.job.holds_ref ≡ c.job.holds_ref
  pub address : c'.job.id ≡ c.job.id
  pub owner : c'.job.mgr ≡ c.job.mgr
  pub perusers : c'.job.suspended_perusers ≡ c.job.suspended_perusers

Keeps-trans : {a b c : Ctx} → Keeps a b → Keeps b c → Keeps a c
Keeps-trans f g = record {
  children = g.children ∙ f.children;
  anon_children = g.anon_children ∙ f.anon_children;
  busy = g.busy ∙ f.busy;
  mgr = g.mgr ∙ f.mgr;
  pid = g.pid ∙ f.pid;
  anon = g.anon ∙ f.anon;
  ref = g.ref ∙ f.ref;
  address = g.address ∙ f.address;
  owner = g.owner ∙ f.owner;
  perusers = g.perusers ∙ f.perusers;
}

reap_bootstrap-Keeps : (k : Kernel) (c : Ctx) → Keeps c (reap_bootstrap k c)
unfolding reap_bootstrap
reap_bootstrap-Keeps k c = ground arith

reap_fork_fd-Keeps : (c : Ctx) → Keeps c (reap_fork_fd c)
unfolding reap_fork_fd
reap_fork_fd-Keeps c = ground arith

reap_dirty-Keeps : (k : Kernel) (c : Ctx) → Keeps c (reap_dirty k c)
unfolding reap_dirty
reap_dirty-Keeps k c = ground arith

reap_process-Keeps : (k : Kernel) (c : Ctx) → Keeps c (reap_process k c)
unfolding reap_process
reap_process-Keeps k c = ground arith

pub reap_exit-Keeps : (k : Kernel) (c : Ctx) → Keeps c (reap_exit k c)
unfolding reap_exit
reap_exit-Keeps k c = Keeps-trans (reap_bootstrap-Keeps k c) (
    Keeps-trans (reap_fork_fd-Keeps c')
      (Keeps-trans (reap_dirty-Keeps k c'') (Keeps-trans (reap_process-Keeps k c''') last)))
  where
    c' : Ctx
    c' = reap_bootstrap k c

    c'' : Ctx
    c'' = reap_fork_fd c'

    c''' : Ctx
    c''' = reap_dirty k c''

    last : Keeps (reap_process k c''') (reap_exit k c)
    last = ground arith

-- The same of a walk over the services.

each_service-tally :
    (f : MachService → Sys → MachService × Sys)
    → ((ms : MachService) (s : Sys) → tally (f ms s).1 ≡ tally s)
    → (services : List MachService) (s : Sys) → tally (each_service f services s).1 ≡ tally s
unfolding each_service
each_service-tally f h [] s = refl
each_service-tally f h (ms ∷ services) s = each_service-tally f h services (f ms s).1 ∙ h ms s

on_services-Keeps :
    (f : Job → MachService → Sys → MachService × Sys)
    → ((j : Job) (ms : MachService) (s : Sys) → tally (f j ms s).1 ≡ tally s)
    → (c : Ctx) → Keeps c (on_services f c)
unfolding on_services
on_services-Keeps f h c =
    let e = each_service-tally (f c.job) (h c.job) c.job.machservices c.sys in ground arith

recover_service-tally :
    (k : Kernel) (j : Job) (ms : MachService) (s : Sys)
    → tally (recover_service k j ms s).1 ≡ tally s
unfolding recover_service
recover_service-tally k j ms s = ground arith

reset_upfront-tally :
    (k : Kernel) (j : Job) (ms : MachService) (s : Sys) → tally (reset_upfront k j ms s).1 ≡ tally s
unfolding reset_upfront
reset_upfront-tally k j ms s = ground arith

reap_crash-Keeps : (c : Ctx) → Keeps c (reap_crash c)
unfolding reap_crash
reap_crash-Keeps c = ground arith

reap_recover-Keeps : (k : Kernel) (c : Ctx) → Keeps c (reap_recover k c)
unfolding reap_recover
reap_recover-Keeps k c =
    ground (arith, on_services-Keeps (recover_service k) (recover_service-tally k) c)

reap_upfront-Keeps : (k : Kernel) (c : Ctx) → Keeps c (reap_upfront k c)
unfolding reap_upfront
reap_upfront-Keeps k c =
    ground (arith, on_services-Keeps (reset_upfront k) (reset_upfront-tally k) c)

pub reap_services-Keeps : (k : Kernel) (c : Ctx) → Keeps c (reap_services k c)
unfolding reap_services
reap_services-Keeps k c = Keeps-trans (reap_crash-Keeps c) (
    Keeps-trans (reap_recover-Keeps k (reap_crash c))
      (reap_upfront-Keeps k (reap_recover k (reap_crash c))))

emit_all-tally : (f : ℕ → Effect) (xs : List ℕ) (s : Sys) → tally (emit_all f xs s) ≡ tally s
unfolding emit_all
emit_all-tally f [] s = refl
emit_all-tally f (x ∷ xs) s = emit_all-tally f xs (emit (f x) s)

socketgroups_mod-tally :
    (f : ℕ → Effect) (groups : List (List ℕ)) (s : Sys)
    → tally (socketgroups_mod f groups s) ≡ tally s
unfolding socketgroups_mod
socketgroups_mod-tally f [] s = refl
socketgroups_mod-tally f (fds ∷ groups) s =
    socketgroups_mod-tally f groups (emit_all f fds s) ∙ emit_all-tally f fds s

machservices_ignore-tally :
    (services : List MachService) (s : Sys) → tally (machservices_ignore services s) ≡ tally s
unfolding machservices_ignore
machservices_ignore-tally [] s = refl
machservices_ignore-tally (ms ∷ services) s = machservices_ignore-tally services _ ∙ ground arith

machservices_watch-tally :
    (k : Kernel) (services : List MachService) (s : Sys)
    → tally (machservices_watch k services s).1 ≡ tally s
unfolding machservices_watch
machservices_watch-tally k [] s = refl
machservices_watch-tally k (ms ∷ services) s =
    machservices_watch-tally k services (machservice_watch k ms s).1 ∙ ground arith

pub job_ignore-Keeps : (c : Ctx) → Keeps c (job_ignore c)
unfolding job_ignore
job_ignore-Keeps c =
    let groups = socketgroups_mod-tally ignore_fd c.job.sockets c.sys in
    let services =
      machservices_ignore-tally c.job.machservices
        (socketgroups_mod ignore_fd c.job.sockets c.sys) in
    ground arith

pub job_watch-Keeps : (k : Kernel) (c : Ctx) → Keeps c (job_watch k c)
unfolding job_watch
job_watch-Keeps k c =
    let groups = socketgroups_mod-tally watch_fd c.job.sockets c.sys in
    let services =
      machservices_watch-tally k c.job.machservices
        (socketgroups_mod watch_fd c.job.sockets c.sys) in
    ground arith

pub runtime_add_ref-tally :
    (s : Sys)
    → tally (runtime_add_ref s)
      ≡ (s.total_children, s.total_anon_children, inc64 s.runtime_busy_cnt)
unfolding runtime_add_ref
runtime_add_ref-tally s = ground arith

pub runtime_del_ref-tally :
    (s : Sys)
    → tally (runtime_del_ref s)
      ≡ (s.total_children, s.total_anon_children, dec64 s.runtime_busy_cnt)
unfolding runtime_del_ref
runtime_del_ref-tally s = ground arith

pub reap_replies-Keeps : (k : Kernel) (c : Ctx) → Keeps c (reap_replies k c)
unfolding reap_replies
reap_replies-Keeps k c = ground arith

pub parent_counts-tally :
    (j : Job) (pid : ℕ) (s : Sys)
    → tally (parent_counts j pid s)
      ≡ (inc64 s.total_children, s.total_anon_children, inc64 s.runtime_busy_cnt)
unfolding parent_counts
parent_counts-tally j pid s =
    let e =
      runtime_add_ref-tally
        (record s { launchd_wsp = if j.has_console then pid else s.launchd_wsp }) in
    ground arith

pub parent_fds-tally :
    (sipc : Bool) (ipc exec : ℕ × ℕ) (s : Sys) → tally (parent_fds sipc ipc exec s) ≡ tally s
unfolding parent_fds
parent_fds-tally sipc ipc exec s = ground arith
