-- ===== src/Examples/Bootstrap.antt =====
-- src/core.c: the theorems on Mach services, at a service that one job checks in and another looks up.
use launchd.Base.{ℕ, ◌≡◌, refl, false, true, some, List, [], ◌∷◌, codes, any}
use launchd.Bootstrap.Types.{Domain, Client, Env, Space, by_name, success, not_privileged}
use launchd.Bootstrap.Services.{where2look, update_service, machservice_request_notifications}
use launchd.Bootstrap.Calls.{job_mig_check_in2, job_mig_register2, job_mig_look_up2}
use launchd.Bootstrap.Unique.{has_id, IsUnique}
use launchd.Bootstrap.Reach.{check_in, register, Reaches, start, next, Reaches-IsUnique}
use launchd.Bootstrap.Found.{look_up2-check_in2, check_in2-check_in2}

abbrev root_domain : Domain
root_domain = record { id = 1; xpc_domain = false; explicit_subset = false; login_window = false }

abbrev session_domain : Domain
session_domain = record root_domain { id = 2 }

abbrev daemon : Client
daemon = record {
  id = 10;
  mgr = root_domain;
  parents = [];
  anonymous = false;
  legacy_mach_job = false;
  dedicated_instance = false;
}

abbrev agent : Client
agent = record daemon { id = 20; mgr = session_domain; parents = root_domain ∷ [] }

abbrev flat : Env
flat = record {
  flat_mach_namespace = true;
  root_jobmgr = 1;
  pid1_magic = true;
  inherited_bootstrap = false;
  own_uid = 0;
  caller_uid = 501;
  caller_euid = 501;
  register_denied = λ n. false;
  lookup_denied = λ n. false;
}

abbrev no_services : Space
no_services = record { services = []; checkedin = []; exception_server = 0; calls = [] }

abbrev name : List ℕ
name = codes "com.apple.example"

abbrev served : Space
served = (job_mig_check_in2 flat 100 (some 900) daemon name false by_name no_services).1

served_run :
    job_mig_check_in2 flat 100 (some 900) daemon name false by_name no_services
    ≡ (success 900, served)
unfolding job_mig_check_in2
served_run = refl

look_up2-check_in2_example :
    job_mig_look_up2 flat agent name false false by_name served ≡ (success 900, served)
unfolding where2look
look_up2-check_in2_example =
    look_up2-check_in2 flat 100 (some 900) daemon name false no_services served 900 refl tt
      served_run agent false refl (refl, refl)

check_in2-check_in2_example :
    job_mig_check_in2 flat 101 (some 901) agent name true by_name served ≡ (not_privileged, served)
unfolding where2look
check_in2-check_in2_example =
    check_in2-check_in2 flat 100 (some 900) daemon name false no_services served 900 refl tt
      served_run agent 101 (some 901) true refl refl

-- Another job registers a port of its own under another name.
abbrev other_name : List ℕ
other_name = codes "com.apple.other"

abbrev later : Space
later = (job_mig_register2 flat 101 agent other_name 77 by_name served).1

unused : any (has_id 101) served.services ≡ false
unfolding job_mig_check_in2 where2look update_service machservice_request_notifications
unused = refl

later_reached : Reaches no_services later
later_reached =
    next no_services served later
      (next no_services no_services served (start no_services)
        (check_in flat 100 (some 900) daemon name false by_name no_services refl))
      (register flat 101 agent other_name 77 by_name served unused)

Reaches-IsUnique_example : IsUnique later.services
Reaches-IsUnique_example = Reaches-IsUnique no_services later later_reached tt
