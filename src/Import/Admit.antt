-- ===== src/Import/Admit.antt =====
-- src/core.c: jobmgr_import2 and job_import_bulk.
use launchd.Base.{
  ℕ, Bool, true, false, not, ◌&&◌, Option, none, some, List, [], ◌∷◌, length, any, ◌==◌,
  if◌then◌else◌, codes,
}
use launchd.Data.Types.{LaunchData, dictionary, array, opaque, Slots, nil, null, slot}
use launchd.Data.Dict.{dict_lookup, launch_data_dict_iterate, same_name}
use launchd.Import.Types.{
  Manager, ImportedJob, ImportErrno, ok, einval, eexist, esrch, eneedauth, State, job_find_by_label,
  jobmgr_label_test, jobmgr_find_by_name,
}
use launchd.Import.Payload.{
  Check, fault, refuse, accept, get_text, is_string, label_of, program_of, arguments_of,
  count_arguments,
}

-- A name that is not given is that of the graphical session.
abbrev pub session_name : Manager → Option (List ℕ) → List ℕ
session_name jm (some name) = name
session_name jm none =
    if same_name jm.name (codes "LoginWindow") then codes "LoginWindow" else codes "Aqua"

unfoldable pub session_of : State → Manager → Slots → Check Manager
unfolding dict_lookup jobmgr_find_by_name
session_of s jm xs = elim (dict_lookup xs (codes "LimitLoadToSessionType")) [
  | none ↦ fault
  | some o ↦ elim o [
    | none ↦ accept jm
    | some v ↦
        if is_string v
        then elim (get_text v) [
          | none ↦ fault
          | some name ↦ elim (jobmgr_find_by_name s jm (session_name jm name)) [
            | none ↦ refuse
            | some m ↦ accept m
          ]
        ]
        else refuse
  ]
]

-- What the values that are opaque leave in expected_audit_uuid, of sixteen bytes; none where it is clear.
unfoldable pub job_import_opaque : List ℕ → List ℕ → List ℕ → List ℕ
unfolding same_name
job_import_opaque uuid key bytes =
    if same_name key (codes "SecuritySessionUUID") && (length bytes == 16) then bytes else uuid

unfoldable pub import_uuid : List ℕ → List (Option LaunchData × List ℕ) → List ℕ
unfolding job_import_opaque
import_uuid uuid [] = uuid
import_uuid uuid ((none, key) ∷ visits) = import_uuid uuid visits
import_uuid uuid ((some v, key) ∷ visits) =
    import_uuid (elim v [ opaque bytes ↦ job_import_opaque uuid key bytes | _ ↦ uuid ]) visits

-- !uuid_is_null(uuid)
abbrev pub is_uuid : List ℕ → Bool
is_uuid uuid = any (λ b. not (b == 0)) uuid

-- The source reads what is not there, or leaves a state, with a job or NULL.
pub data Result : Type 0 where
  broken : Result
  done : State → Option ImportedJob → Result

abbrev pub give_up : State → ImportErrno → Result
give_up s e = done (record s { errno = e }) none

abbrev pub checked {ℓ} : {A : Type ℓ} → State → Check A → (A → Result) → Result
checked s fault f = broken
checked s refuse f = give_up s einval
checked s (accept a) f = f a

-- The arguments up to a NULL pointer.
unfoldable pub until_null : List (Option (List ℕ)) → List (List ℕ)
until_null [] = []
until_null (none ∷ ts) = []
until_null (some t ∷ ts) = t ∷ until_null ts

abbrev pub words_of : Option (List (Option (List ℕ))) → Option (List (List ℕ))
words_of none = none
words_of (some ts) = some (until_null ts)

abbrev pub is_null {ℓ} : {A : Type ℓ} → Option A → Bool
is_null none = true
is_null (some a) = false

abbrev pub label_table : State → Manager → ℕ
label_table s jm = if jm.xpc_domain then jm.id else s.root.id

-- job_new by a label that is given.
unfoldable pub job_new :
    State → Manager → List ℕ → Option (List ℕ) → Option (List (List ℕ)) → Option ImportedJob
job_new s jm label prog argv =
    if jm.shutting_down
    then none
    else if is_null prog && is_null argv
    then none
    else some (record {
      label = label;
      prog = prog;
      argv = argv;
      mgr = jm;
      table = label_table s jm;
      removal_pending = false;
      needs_session = false;
    })

-- The keys of the payload, and the session that they may ask for. What the system calls for the keys leave
-- in errno is `left`.
unfoldable pub import_keys : (ImportErrno → ImportErrno) → State → ImportedJob → Slots → Result
unfolding launch_data_dict_iterate import_uuid
import_keys left s j xs = elim (launch_data_dict_iterate xs) [
  | none ↦ broken
  | some visits ↦
      if is_uuid (import_uuid [] visits)
      then done
          (record s {
            jobs = record j { needs_session = true } ∷ s.jobs;
            needing_sessions = j.label ∷ s.needing_sessions;
            errno = eneedauth;
          })
          (some (record j { needs_session = true }))
      else done (record s { jobs = j ∷ s.jobs; errno = left s.errno }) (some j)
]

unfoldable pub import_new :
    (ImportErrno → ImportErrno)
    → State
    → Manager
    → Slots
    → List ℕ
    → Option (List ℕ)
    → Option (List (List ℕ))
    → Result
unfolding job_new import_keys
import_new left s jm xs label prog argv = elim (job_new s jm label prog argv) [
  | none ↦ give_up s einval
  | some j ↦ import_keys left s j xs
]

-- With a label, a program or arguments, and a manager.
unfoldable pub import_into :
    (ImportErrno → ImportErrno)
    → State
    → Manager
    → Slots
    → List ℕ
    → Option (List ℕ)
    → Option (List (List ℕ))
    → Result
unfolding job_find_by_label jobmgr_label_test import_new
import_into left s jm xs label prog argv =
    elim (job_find_by_label s.jobs (label_table s jm) label) [
      | some j ↦
          if jm.xpc_singleton then done (record s { errno = eexist }) (some j) else give_up s eexist
      | none ↦
          if jobmgr_label_test label
          then import_new left (record s { errno = esrch }) jm xs label prog argv
          else give_up s einval
    ]

unfoldable pub import_slots : (ImportErrno → ImportErrno) → State → Manager → Slots → Result
unfolding label_of program_of arguments_of session_of import_into
import_slots left s jm xs = checked s (label_of xs) (λ label. checked s (program_of xs) (λ prog.
    checked s (arguments_of xs) (λ ts.
      if is_null prog && (count_arguments ts == 0)
      then give_up s einval
      else checked s (session_of s jm xs) (λ m. import_into left s m xs label prog (words_of ts)))))

-- jobmgr_import2; a NULL payload is `none`.
unfoldable pub jobmgr_import2 :
    (ImportErrno → ImportErrno) → State → Manager → Option LaunchData → Result
unfolding import_slots
jobmgr_import2 left s jm (some (dictionary xs)) = import_slots left s jm xs
jobmgr_import2 left s jm _ = give_up s einval

abbrev pub settle : State → Option ImportedJob → ImportErrno
settle s (some j) = elim s.errno [ eneedauth ↦ eneedauth | _ ↦ ok ]
settle s none = s.errno

-- The answers of job_import_bulk, and the jobs, each NULL or to be dispatched then.
pub data Bulk : Type 0 where
  broken : Bulk
  answered : State → List (ImportErrno × Option ImportedJob) → Bulk

abbrev pub answer : Result → (State → Bulk) → Bulk
answer broken f = broken
answer (done s o) f = elim (f (record s { errno = settle s o })) [
  | broken ↦ broken
  | answered t rs ↦ answered t ((settle s o, o) ∷ rs)
]

unfoldable pub import_each : (ImportErrno → ImportErrno) → State → Slots → Bulk
unfolding jobmgr_import2
import_each left s nil = answered s []
import_each left s (null ps) =
    answer (jobmgr_import2 left s s.root none) (λ s'. import_each left s' ps)
import_each left s (slot p ps) =
    answer (jobmgr_import2 left s s.root (some p)) (λ s'. import_each left s' ps)

-- The loop of job_import_bulk that imports; the one after it dispatches the new jobs, and is left out.
unfoldable pub job_import_bulk : (ImportErrno → ImportErrno) → State → LaunchData → Bulk
unfolding import_each
job_import_bulk left s (array ps) = import_each left s ps
job_import_bulk left s _ = answered s []
