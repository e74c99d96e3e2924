-- ===== src/Job/Watch.antt =====
-- src/core.c: whether a job's sockets and Mach ports may wake it, job_watch and job_ignore.
use launchd.Base.{ℕ, true, false, not, List, [], ◌∷◌, if◌then◌else◌}
use launchd.Job.Types.{
  Effect, add_mport, remove_mport, watch_fd, ignore_fd, Kernel, MachService, Sys, Ctx,
}
use launchd.Runtime.{emit}

unfoldable pub emit_all : (ℕ → Effect) → List ℕ → Sys → Sys
emit_all f [] s = s
emit_all f (x ∷ xs) s = emit_all f xs (emit (f x) s)

-- socketgroup_kevent_mod over each group of a job.
unfoldable pub socketgroups_mod : (ℕ → Effect) → List (List ℕ) → Sys → Sys
unfolding emit_all
socketgroups_mod f [] s = s
socketgroups_mod f (fds ∷ groups) s = socketgroups_mod f groups (emit_all f fds s)

-- machservice_ignore over each service of a job.
unfoldable pub machservices_ignore : List MachService → Sys → Sys
machservices_ignore [] s = s
machservices_ignore (ms ∷ services) s =
    machservices_ignore services (if ms.recv then emit (remove_mport ms.port) s else s)

unfoldable pub machservice_watch : Kernel → MachService → Sys → MachService × Sys
machservice_watch k ms s =
    if ms.recv
    then (
      if k.add_mport_invalid s.trace ms.port then record ms { recv_race_hack = true } else ms,
      emit (add_mport ms.port) s,
    )
    else (ms, s)

-- machservice_watch over each service of a job.
unfoldable pub machservices_watch : Kernel → List MachService → Sys → List MachService × Sys
unfolding machservice_watch
machservices_watch k [] s = ([], s)
machservices_watch k (ms ∷ services) s =
    let (ms', s') = machservice_watch k ms s in
    let (rest, s'') = machservices_watch k services s' in (ms' ∷ rest, s'')

unfoldable pub job_ignore : Ctx → Ctx
unfolding socketgroups_mod machservices_ignore
job_ignore c = if job.currently_ignored then c else record c {
  job = record job { currently_ignored = true };
  sys = machservices_ignore job.machservices (socketgroups_mod ignore_fd job.sockets sys);
}
  where
    open c use {job, sys}

unfoldable pub job_watch : Kernel → Ctx → Ctx
unfolding socketgroups_mod machservices_watch
job_watch k c =
    if not job.currently_ignored
    then c
    else let (services, s) =
        machservices_watch k job.machservices (socketgroups_mod watch_fd job.sockets sys) in
      record c { job = record job { currently_ignored = false; machservices = services }; sys = s }
  where
    open c use {job, sys}
