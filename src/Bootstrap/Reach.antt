-- ===== src/Bootstrap/Reach.antt =====
-- src/core.c: the spaces of names that sequences of bootstrap calls lead to.
use launchd.Base.{ℕ, ◌≡◌, Bool, false, not, ◌&&◌, leb, ◌==◌, if_both, Option, none, some, List, any}
use launchd.Bootstrap.Types.{Service, Client, Env, Space, Target, Reply}
use launchd.Bootstrap.Services.{machservice_delete}
use launchd.Bootstrap.Calls.{
  job_mig_check_in2, job_mig_register2, job_mig_look_up2, answer_look_up, look_up_service, original,
  shown, chain, no_parent,
}
use launchd.Bootstrap.Unique.{has_id, IsUnique, check_in2-IsUnique}
use launchd.Bootstrap.Registered.{register2-IsUnique, delete-IsUnique}

-- A call of some client, in some state of the system, that the space has served. What malloc(3) gives
-- is not in use.
pub data Step : Space → Space → Type 0 where
  check_in :
      (env : Env) (addr : ℕ) (fresh : Option ℕ) (j : Client) (name : List ℕ) (strict : Bool)
      (target : Target) (s : Space)
      → any (has_id addr) s.services ≡ false
      → Step s (job_mig_check_in2 env addr fresh j name strict target s).1
  register :
      (env : Env) (addr : ℕ) (j : Client) (name : List ℕ) (port : ℕ) (target : Target) (s : Space)
      → any (has_id addr) s.services ≡ false
      → Step s (job_mig_register2 env addr j name port target s).1
  look_up :
      (env : Env) (j : Client) (name : List ℕ) (strict privileged : Bool) (target : Target)
      (s : Space)
      → Step s (job_mig_look_up2 env j name strict privileged target s).1
  delete : (ms : Service) (s : Space) → Step s (machservice_delete ms s)

pub data Reaches : Space → Space → Type 0 where
  start : (s : Space) → Reaches s s
  next : (s t u : Space) → Reaches s t → Step t u → Reaches s u

abbrev Fine : Reply × Space → Type 0
Fine r = IsUnique r.1.services

answer-IsUnique :
    (env : Env) (j : Client) (name : List ℕ) (strict privileged : Bool) (s : Space)
    (o : Option Service)
    → IsUnique s.services
    → Fine (answer_look_up env j name strict privileged s o)
unfolding answer_look_up
answer-IsUnique env j name strict privileged s (some ms) h = h
answer-IsUnique env j name strict privileged s none h = if_both Fine (strict && not privileged) h (
    if_both Fine env.inherited_bootstrap h (
      if_both Fine (env.pid1_magic && j.anonymous && leb 500 env.caller_euid && j.mgr.login_window)
        h h))

look_up2-IsUnique :
    (env : Env) (j : Client) (name : List ℕ) (strict privileged : Bool) (target : Target)
    (s : Space)
    → IsUnique s.services
    → Fine (job_mig_look_up2 env j name strict privileged target s)
unfolding job_mig_look_up2
look_up2-IsUnique env j name strict privileged target s h =
    if_both Fine
      (env.pid1_magic
        && j.anonymous
        && no_parent j
        && not (env.caller_uid == 0)
        && not (env.caller_euid == 0))
      h
      (if_both Fine (not j.mgr.xpc_domain && env.lookup_denied name) h (
        answer-IsUnique env j name strict privileged s
          (chain
            (chain (look_up_service env j name strict privileged target s) (original s.services))
            shown)
          h))

Step-IsUnique : (s t : Space) → Step s t → IsUnique s.services → IsUnique t.services
Step-IsUnique s t (check_in env addr fresh j name strict target u unused) h =
    check_in2-IsUnique env addr fresh j name strict target s unused h
Step-IsUnique s t (register env addr j name port target u unused) h =
    register2-IsUnique env addr j name port target s unused h
Step-IsUnique s t (look_up env j name strict privileged target u) h =
    look_up2-IsUnique env j name strict privileged target s h
Step-IsUnique s t (delete ms u) h = delete-IsUnique ms s h

-- Whatever calls clients make, and whatever services are deleted between them, no two services of a
-- manager have the same name, apart from services of processes, and no two have the same address, if
-- that was so before.
pub Reaches-IsUnique : (s u : Space) → Reaches s u → IsUnique s.services → IsUnique u.services
Reaches-IsUnique s u (start v) h = h
Reaches-IsUnique s u (next v t w path step) h = Step-IsUnique t u step (Reaches-IsUnique s t path h)
