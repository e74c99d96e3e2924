-- ===== src/Examples/Import.antt =====
-- The theorems on imports at a root manager and three property lists.
use launchd.Base.{
  ◌-◌, ◌^◌, arith, ℕ, ◌≡◌, refl, Bool, true, false, Option, none, some, List, [], ◌∷◌, codes,
  replicate, all,
}
use launchd.Data.Types.{LaunchData, dictionary, array, string, opaque, Slots, nil, slot}
use launchd.Import.Types.{
  Manager, ImportedJob, ImportErrno, ok, einval, eexist, eneedauth, State, job_find_by_label,
}
use launchd.Import.Admit.{done, answered, job_import_bulk, jobmgr_import2}
use launchd.Import.Singles.{has_singleton}
use launchd.Import.Labels.{is_unique, jobmgr_import2-job_find_by_label}
use launchd.Import.Numbers.{Numbers, job_import_integer}
use launchd.Import.Ranges.{is_in_range, job_import_integer-is_in_range}
use launchd.Import.Bulk.{
  agrees, is_eneedauth, AllNamed, added, job_import_bulk-is_unique, job_import_bulk-agrees,
}

abbrev text : List ℕ → LaunchData
text t = string t 0

abbrev plist : List ℕ → Slots → LaunchData
plist label more = dictionary (
    slot (text (codes "Label"))
      (slot (text label) (slot (text (codes "Program")) (slot (text (codes "/bin/ls")) more))))

abbrev alpha : LaunchData
alpha = plist (codes "org.alpha") nil

abbrev beta : LaunchData
beta =
    plist (codes "org.beta")
      (slot (text (codes "SecuritySessionUUID")) (slot (opaque (replicate 16 7)) nil))

abbrev root : Manager
root = record {
  id = 1;
  name = codes "System";
  shutting_down = false;
  xpc_domain = false;
  xpc_singleton = false;
}

abbrev empty_state : State
empty_state = record {
  root = root;
  submgrs = [];
  pid1_magic = true;
  jobs = [];
  needing_sessions = [];
  errno = ok;
}

-- errno is left as it was.
abbrev same_errno : ImportErrno → ImportErrno
same_errno e = einval

abbrev job : List ℕ → Bool → ImportedJob
job label waits = record {
  label = label;
  prog = some (codes "/bin/ls");
  argv = none;
  mgr = root;
  table = 1;
  removal_pending = false;
  needs_session = waits;
}

abbrev with_alpha : State
with_alpha = record empty_state { jobs = job (codes "org.alpha") false ∷ []; errno = einval }

alpha_imported :
    jobmgr_import2 same_errno empty_state root (some alpha)
    ≡ done with_alpha (some (job (codes "org.alpha") false))
unfolding jobmgr_import2
alpha_imported = refl

jobmgr_import2-job_find_by_label_example :
    job_find_by_label with_alpha.jobs 1 (codes "org.alpha") ≡ some (job (codes "org.alpha") false)
jobmgr_import2-job_find_by_label_example =
    jobmgr_import2-job_find_by_label same_errno empty_state with_alpha root (some alpha)
      (job (codes "org.alpha") false) alpha_imported

abbrev three : Slots
three = slot alpha (slot beta (slot alpha nil))

abbrev imported : State
imported = record empty_state {
  jobs = job (codes "org.beta") true ∷ job (codes "org.alpha") false ∷ [];
  needing_sessions = codes "org.beta" ∷ [];
  errno = eexist;
}

abbrev replies : List (ImportErrno × Option ImportedJob)
replies =
    (ok, some (job (codes "org.alpha") false))
    ∷ (eneedauth, some (job (codes "org.beta") true))
    ∷ (eexist, none)
    ∷ []

all_imported : job_import_bulk same_errno empty_state (array three) ≡ answered imported replies
unfolding job_import_bulk
all_imported = refl

no_jobs : is_unique [] ≡ true
unfolding is_unique
no_jobs = refl

job_import_bulk-is_unique_example : is_unique imported.jobs ≡ true
job_import_bulk-is_unique_example =
    job_import_bulk-is_unique same_errno empty_state imported three replies no_jobs all_imported

no_singleton : has_singleton empty_state root ≡ false
unfolding has_singleton
no_singleton = refl

quiet : (e : ImportErrno) → is_eneedauth (same_errno e) ≡ false
quiet e = refl

job_import_bulk-agrees_example :
    (all agrees replies ≡ true)
    × AllNamed three replies
    × (imported.jobs ≡ added replies empty_state.jobs)
job_import_bulk-agrees_example =
    job_import_bulk-agrees same_errno quiet empty_state imported three replies no_singleton
      all_imported

-- The times that job_new sets.
abbrev defaults : Numbers
defaults = record {
  exit_timeout = 20;
  main_thread_priority = 0;
  jetsam_priority = 0;
  jetsam_properties = false;
  nice = 0;
  setnice = false;
  timeout = 30;
  min_run_time = 10;
  mask = 0;
  setmask = false;
  start_interval = 0;
  seatbelt_flags = 0;
  weak_refs = 0;
  timers = [];
}

in_range : is_in_range defaults ≡ true
unfolding is_in_range
in_range = refl

-- A priority of -5.
job_import_integer-is_in_range_example :
    is_in_range (job_import_integer (λ p. p) false defaults (codes "nice") (2 ^ 64 - 5)) ≡ true
job_import_integer-is_in_range_example =
    job_import_integer-is_in_range (λ p. p) false defaults (codes "nice") (2 ^ 64 - 5) (omega arith)
      in_range

nice_set :
    (job_import_integer (λ p. p) false defaults (codes "nice") (2 ^ 64 - 5)).nice ≡ 2 ^ 32 - 5
unfolding job_import_integer
nice_set = refl
