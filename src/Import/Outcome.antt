-- ===== src/Import/Outcome.antt =====
-- src/core.c: how jobmgr_import2 can end.
use launchd.Base.{
  ℕ, ◌≡◌, refl, inl, inr, Bool, true, false, not, ◌&&◌, ◌||◌, Option, none, some, List, [], ◌∷◌,
  Bool-cases, if◌then◌else◌, ◌==◌, ap,
}
use launchd.Data.Types.{LaunchData, dictionary, Slots}
use launchd.Data.Dict.{launch_data_dict_iterate}
use launchd.Import.Types.{
  Manager, ImportedJob, ImportErrno, einval, eexist, esrch, eneedauth, State, job_find_by_label,
  jobmgr_label_test,
}
use launchd.Import.Payload.{
  Check, fault, refuse, accept, label_of, program_of, arguments_of, count_arguments,
}
use launchd.Import.Singles.{job_find_by_label-job_find_by_label, has_singleton, session_of-single}
use launchd.Import.Admit.{
  Result, broken, done, give_up, checked, session_of, words_of, is_null, is_uuid, import_uuid,
  label_table, job_new, import_keys, import_new, import_into, import_slots, jobmgr_import2,
}

abbrev pub is_live : ImportedJob → Bool
is_live j = not (j.removal_pending || j.mgr.shutting_down)

-- A job that can be added: no live job of its table has its label, which is an allowed one.
pub record Addable (s : State) (j : ImportedJob) : Type 0 where
  pub fresh : job_find_by_label s.jobs j.table j.label ≡ none
  pub live : is_live j ≡ true
  pub named : jobmgr_label_test j.label ≡ true

abbrev pub is_refusal : ImportErrno → Bool
is_refusal einval = true
is_refusal eexist = true
is_refusal _ = false

-- It reads what is not there; or refuses; or gives a job that was there, in a manager of singletons; or adds a
-- job, which waits for its session or not.
pub data Outcome (left : ImportErrno → ImportErrno) (s : State) (jm : Manager)
    : Result → Type 0 where
  breaks : Outcome left s jm broken
  refuses : (e : ImportErrno) → is_refusal e ≡ true → Outcome left s jm (give_up s e)
  exists :
      (j : ImportedJob)
      → has_singleton s jm ≡ true
      → job_find_by_label s.jobs j.table j.label ≡ some j
      → Outcome left s jm (done (record s { errno = eexist }) (some j))
  waits :
      (j : ImportedJob)
      → Addable s j
      → j.needs_session ≡ true
      → Outcome left s jm (
          done
            (record s {
              jobs = j ∷ s.jobs;
              needing_sessions = j.label ∷ s.needing_sessions;
              errno = eneedauth;
            })
            (some j))
  adds :
      (j : ImportedJob)
      → Addable s j
      → j.needs_session ≡ false
      → Outcome left s jm (done (record s { jobs = j ∷ s.jobs; errno = left esrch }) (some j))

module _ (left : ImportErrno → ImportErrno) (s : State) (jm : Manager) where
  checked-Outcome :
      {A : Type 0} (c : Check A) (f : A → Result)
      → ((a : A) → c ≡ accept a → Outcome left s jm (f a))
      → Outcome left s jm (checked s c f)
  checked-Outcome fault f k = breaks
  checked-Outcome refuse f k = refuses einval refl
  checked-Outcome (accept a) f k = k a refl

  import_keys-Outcome :
      (j : ImportedJob) (xs : Slots)
      → Addable s j
      → j.needs_session ≡ false
      → Outcome left s jm (import_keys left (record s { errno = esrch }) j xs)
  unfolding import_keys
  import_keys-Outcome j xs new idle = iterated (launch_data_dict_iterate xs)
    where
      iterated :
          (o : Option (List (Option LaunchData × List ℕ)))
          → Outcome left s jm (elim o [
            | none ↦ broken
            | some visits ↦
                if is_uuid (import_uuid [] visits)
                then done
                    (record s {
                      jobs = record j { needs_session = true } ∷ s.jobs;
                      needing_sessions = j.label ∷ s.needing_sessions;
                      errno = eneedauth;
                    })
                    (some (record j { needs_session = true }))
                else done (record s { jobs = j ∷ s.jobs; errno = left esrch }) (some j)
          ])
      iterated none = breaks
      iterated (some visits) = elim (Bool-cases (is_uuid (import_uuid [] visits))) [
        | inl h ↦ rw h (
            waits (record j { needs_session = true })
              (record { fresh = new.fresh; live = new.live; named = new.named }) refl)
        | inr h ↦ rw h (adds j new idle)
      ]

  -- What job_new gives.
  data IsNew (table : ℕ) (label : List ℕ) : Option ImportedJob → Type 0 where
    no_job : IsNew table label none
    new_job :
        (j : ImportedJob)
        → j.table ≡ table
        → j.label ≡ label
        → is_live j ≡ true
        → j.needs_session ≡ false
        → IsNew table label (some j)

  if_IsNew :
      (table : ℕ) (label : List ℕ) (b c : Bool) (o : Option ImportedJob)
      → (b ≡ false → IsNew table label o)
      → IsNew table label (if b then none else if c then none else o)
  if_IsNew table label true c o k = no_job
  if_IsNew table label false true o k = no_job
  if_IsNew table label false false o k = k refl

  job_new-IsNew :
      (m : Manager) (label : List ℕ) (prog : Option (List ℕ)) (argv : Option (List (List ℕ)))
      → IsNew (label_table s m) label (job_new (record s { errno = esrch }) m label prog argv)
  unfolding job_new
  job_new-IsNew m label prog argv =
      if_IsNew _ label m.shutting_down (is_null prog && is_null argv) _
        (λ h. new_job _ refl refl (ap not h) refl)

  import_new-Outcome :
      (m : Manager) (xs : Slots) (label : List ℕ) (prog : Option (List ℕ))
      (argv : Option (List (List ℕ)))
      → job_find_by_label s.jobs (label_table s m) label ≡ none
      → jobmgr_label_test label ≡ true
      → Outcome left s jm (import_new left (record s { errno = esrch }) m xs label prog argv)
  unfolding import_new
  import_new-Outcome m xs label prog argv fresh named =
      made (job_new (record s { errno = esrch }) m label prog argv)
        (job_new-IsNew m label prog argv)
    where
      made :
          (o : Option ImportedJob)
          → IsNew (label_table s m) label o
          → Outcome left s jm (elim o [
            | none ↦ give_up (record s { errno = esrch }) einval
            | some j ↦ import_keys left (record s { errno = esrch }) j xs
          ])
      made none n = refuses einval refl
      made (some _) (new_job j t l live idle) =
          import_keys-Outcome j xs
            (record { fresh = rw (t, l) fresh; live = live; named = rw l named }) idle

  import_into-Outcome :
      (m : Manager) (xs : Slots) (label : List ℕ) (prog : Option (List ℕ))
      (argv : Option (List (List ℕ)))
      → (m.xpc_singleton ≡ true → has_singleton s jm ≡ true)
      → Outcome left s jm (import_into left s m xs label prog argv)
  unfolding import_into
  import_into-Outcome m xs label prog argv single =
      known (job_find_by_label s.jobs (label_table s m) label) refl
    where
      known :
          (o : Option ImportedJob)
          → job_find_by_label s.jobs (label_table s m) label ≡ o
          → Outcome left s jm (elim o [
            | some j ↦
                if m.xpc_singleton
                then done (record s { errno = eexist }) (some j)
                else give_up s eexist
            | none ↦
                if jobmgr_label_test label
                then import_new left (record s { errno = esrch }) m xs label prog argv
                else give_up s einval
          ])
      known (some j) e = elim (Bool-cases (m.xpc_singleton)) [
        | inl h ↦ rw h (
            exists j (single h)
              (job_find_by_label-job_find_by_label s.jobs (label_table s m) label j e))
        | inr h ↦ rw h (refuses eexist refl)
      ]
      known none e = elim (Bool-cases (jobmgr_label_test label)) [
        | inl h ↦ rw h (import_new-Outcome m xs label prog argv e h)
        | inr h ↦ rw h (refuses einval refl)
      ]

  import_slots-Outcome : (xs : Slots) → Outcome left s jm (import_slots left s jm xs)
  unfolding import_slots
  import_slots-Outcome xs = checked-Outcome (label_of xs) _ (λ label _.
      checked-Outcome (program_of xs) _ (λ prog _. checked-Outcome (arguments_of xs) _ (λ ts _.
        if_given (is_null prog && (count_arguments ts == 0)) (
          checked-Outcome (session_of s jm xs) _ (λ m e.
            import_into-Outcome m xs label prog (words_of ts) (session_of-single s jm m xs e))))))
    where
      if_given :
          (b : Bool) {r : Result}
          → Outcome left s jm r
          → Outcome left s jm (if b then give_up s einval else r)
      if_given true o = refuses einval refl
      if_given false o = o

  pub jobmgr_import2-Outcome :
      (p : Option LaunchData) → Outcome left s jm (jobmgr_import2 left s jm p)
  unfolding jobmgr_import2
  jobmgr_import2-Outcome none = refuses einval refl
  jobmgr_import2-Outcome (some (dictionary xs)) = import_slots-Outcome xs
  jobmgr_import2-Outcome (some v) = refuses einval refl
