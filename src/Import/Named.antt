-- ===== src/Import/Named.antt =====
-- src/core.c: the job that jobmgr_import2 gives has the label that its payload asks for.
use launchd.Base.{
  ℕ, ◌≡◌, refl, inl, inr, Bool, true, false, ◌&&◌, Option, none, some, List, [], ◌∷◌, Bool-cases,
  ap, sym, ◌∙◌, if◌then◌else◌, ◌==◌, subst,
}
use launchd.Data.Types.{LaunchData, dictionary, Slots}
use launchd.Data.Dict.{launch_data_dict_iterate}
use launchd.Import.Types.{
  Manager, ImportedJob, ImportErrno, einval, eexist, esrch, eneedauth, State, job_find_by_label,
  jobmgr_label_test,
}
use launchd.Import.Payload.{
  Check, fault, refuse, accept, label_of, program_of, arguments_of, count_arguments,
}
use launchd.Import.Singles.{job_find_by_label-FoundKey}
use launchd.Import.Admit.{
  Result, broken, done, give_up, checked, session_of, words_of, is_null, is_uuid, import_uuid,
  job_new, import_keys, import_new, import_into, import_slots, jobmgr_import2, label_table,
}

-- The job, where there is one, has a label.
abbrev pub HasLabel : List ℕ → Result → Type 0
HasLabel label broken = Unit {0}
HasLabel label (done t none) = Unit {0}
HasLabel label (done t (some j)) = j.label ≡ label

-- The payload is a dictionary whose label is this one.
abbrev pub AsksFor : Option LaunchData → List ℕ → Type 0
AsksFor (some (dictionary xs)) label = label_of xs ≡ accept label
AsksFor _ label = true ≡ false

-- The job, where there is one, has the label of the payload.
abbrev pub IsNamed : Option LaunchData → Result → Type 0
IsNamed p broken = Unit {0}
IsNamed p (done t none) = Unit {0}
IsNamed p (done t (some j)) = AsksFor p j.label

module _ (left : ImportErrno → ImportErrno) (s : State) where
  import_keys-HasLabel : (j : ImportedJob) (xs : Slots) → HasLabel j.label (import_keys left s j xs)
  unfolding import_keys
  import_keys-HasLabel j xs = iterated (launch_data_dict_iterate xs)
    where
      iterated :
          (o : Option (List (Option LaunchData × List ℕ)))
          → HasLabel j.label (elim o [
            | none ↦ broken
            | some visits ↦
                if is_uuid (import_uuid [] visits)
                then done
                    (record s {
                      jobs = record j { needs_session = true } ∷ s.jobs;
                      needing_sessions = j.label ∷ s.needing_sessions;
                      errno = eneedauth;
                    })
                    (some (record j { needs_session = true }))
                else done (record s { jobs = j ∷ s.jobs; errno = left s.errno }) (some j)
          ])
      iterated none = tt
      iterated (some visits) = elim (Bool-cases (is_uuid (import_uuid [] visits))) [
        | inl h ↦ rw h refl
        | inr h ↦ rw h refl
      ]

  job_new-label :
      (m : Manager) (label : List ℕ) (prog : Option (List ℕ)) (argv : Option (List (List ℕ)))
      (j : ImportedJob)
      → job_new s m label prog argv ≡ some j
      → j.label ≡ label
  unfolding job_new
  job_new-label m label prog argv j e = by_tests m.shutting_down (is_null prog && is_null argv) e
    where
      made : ImportedJob
      made = record {
        label = label;
        prog = prog;
        argv = argv;
        mgr = m;
        table = label_table s m;
        removal_pending = false;
        needs_session = false;
      }

      by_tests :
          (b c : Bool)
          → (if b then none else if c then none else some made) ≡ some j
          → j.label ≡ label
      by_tests true c h = cc
      by_tests false true h = cc
      by_tests false false h = let same : made ≡ j = cc in sym (ap (λ x. x.label) same)

  import_new-HasLabel :
      (m : Manager) (xs : Slots) (label : List ℕ) (prog : Option (List ℕ))
      (argv : Option (List (List ℕ)))
      → HasLabel label (import_new left s m xs label prog argv)
  unfolding import_new
  import_new-HasLabel m xs label prog argv = given (job_new s m label prog argv) refl
    where
      given :
          (o : Option ImportedJob)
          → job_new s m label prog argv ≡ o
          → HasLabel label (elim o [ none ↦ give_up s einval | some j ↦ import_keys left s j xs ])
      given none e = tt
      given (some j) e =
          subst (λ l. HasLabel l (import_keys left s j xs)) (job_new-label m label prog argv j e)
            (import_keys-HasLabel j xs)

module _ (left : ImportErrno → ImportErrno) (s : State) where
  import_into-HasLabel :
      (m : Manager) (xs : Slots) (label : List ℕ) (prog : Option (List ℕ))
      (argv : Option (List (List ℕ)))
      → HasLabel label (import_into left s m xs label prog argv)
  unfolding import_into
  import_into-HasLabel m xs label prog argv =
      known (job_find_by_label s.jobs (label_table s m) label) refl
    where
      known :
          (o : Option ImportedJob)
          → job_find_by_label s.jobs (label_table s m) label ≡ o
          → HasLabel label (elim o [
            | some j ↦
                if m.xpc_singleton
                then done (record s { errno = eexist }) (some j)
                else give_up s eexist
            | none ↦
                if jobmgr_label_test label
                then import_new left (record s { errno = esrch }) m xs label prog argv
                else give_up s einval
          ])
      known (some j) e = elim (Bool-cases (m.xpc_singleton)) [
        | inl h ↦ rw h ((job_find_by_label-FoundKey s.jobs (label_table s m) label j e).label_is)
        | inr h ↦ rw h tt
      ]
      known none e = elim (Bool-cases (jobmgr_label_test label)) [
        | inl h ↦ rw h (import_new-HasLabel left (record s { errno = esrch }) m xs label prog argv)
        | inr h ↦ rw h tt
      ]

  checked-HasLabel :
      {A : Type 0} (label : List ℕ) (c : Check A) (f : A → Result)
      → ((a : A) → HasLabel label (f a))
      → HasLabel label (checked s c f)
  checked-HasLabel label fault f k = tt
  checked-HasLabel label refuse f k = tt
  checked-HasLabel label (accept a) f k = k a

  named :
      (xs : Slots) (label : List ℕ) (r : Result)
      → label_of xs ≡ accept label
      → HasLabel label r
      → IsNamed (some (dictionary xs)) r
  named xs label broken e h = tt
  named xs label (done t none) e h = tt
  named xs label (done t (some j)) e h = e ∙ ap accept (sym h)

  import_slots-IsNamed :
      (xs : Slots) (jm : Manager) → IsNamed (some (dictionary xs)) (import_slots left s jm xs)
  unfolding import_slots
  import_slots-IsNamed xs jm = labelled (label_of xs) refl
    where
      with_label : List ℕ → Result
      with_label label = checked s (program_of xs) (λ prog. checked s (arguments_of xs) (λ ts.
          if is_null prog && (count_arguments ts == 0)
          then give_up s einval
          else checked s (session_of s jm xs)
              (λ m. import_into left s m xs label prog (words_of ts))))

      if_given :
          (label : List ℕ) (b : Bool) (r : Result)
          → HasLabel label r
          → HasLabel label (if b then give_up s einval else r)
      if_given label true r h = tt
      if_given label false r h = h

      with_label-HasLabel : (label : List ℕ) → HasLabel label (with_label label)
      with_label-HasLabel label = checked-HasLabel label (program_of xs) _ (λ prog.
          checked-HasLabel label (arguments_of xs) _ (λ ts.
            if_given label (is_null prog && (count_arguments ts == 0)) _ (
              checked-HasLabel label (session_of s jm xs) _
                (λ m. import_into-HasLabel m xs label prog (words_of ts)))))

      labelled :
          (c : Check (List ℕ))
          → label_of xs ≡ c
          → IsNamed (some (dictionary xs)) (checked s c with_label)
      labelled fault e = tt
      labelled refuse e = tt
      labelled (accept label) e = named xs label (with_label label) e (with_label-HasLabel label)

  -- A job that jobmgr_import2 gives has the label that the payload asks for.
  pub jobmgr_import2-IsNamed :
      (p : Option LaunchData) (jm : Manager) → IsNamed p (jobmgr_import2 left s jm p)
  unfolding jobmgr_import2
  jobmgr_import2-IsNamed none jm = tt
  jobmgr_import2-IsNamed (some (dictionary xs)) jm = import_slots-IsNamed xs jm
  jobmgr_import2-IsNamed (some v) jm = tt
