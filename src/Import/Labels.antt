-- ===== src/Import/Labels.antt =====
-- src/core.c: labels in the tables of jobs after an import, and the answers of job_import_bulk.
use launchd.Base.{
  ℕ, ◌≡◌, refl, Bool, true, false, not, ◌&&◌, ◌||◌, Option, none, some, List, [], ◌∷◌, arith,
  if◌then◌else◌, ◌==◌, some_same, any, bytes_eq, bytes_eq_refl, subst, ap,
}
use launchd.Data.Types.{LaunchData}
use launchd.Import.Types.{Manager, ImportedJob, ImportErrno, State, job_find_by_label}
use launchd.Import.Admit.{Result, broken, done, jobmgr_import2}
use launchd.Import.Outcome.{
  is_live, Addable, Outcome, breaks, refuses, exists, waits, adds, jobmgr_import2-Outcome,
}

-- A live job with the table and the label of x.
abbrev pub clashes : ImportedJob → ImportedJob → Bool
clashes x y = (y.table == x.table) && is_live y && bytes_eq y.label x.label

-- No two live jobs of a table have the same label.
unfoldable pub is_unique : List ImportedJob → Bool
is_unique [] = true
is_unique (x ∷ xs) = not (is_live x && any (clashes x) xs) && is_unique xs

no_clash :
    (js : List ImportedJob) (x : ImportedJob)
    → job_find_by_label js x.table x.label ≡ none
    → any (clashes x) js ≡ false
unfolding job_find_by_label
no_clash [] x h = refl
no_clash (y ∷ ys) x h = passed (clashes x y) (no_clash ys x) h
  where
    passed :
        (b : Bool)
        → (job_find_by_label ys x.table x.label ≡ none → any (clashes x) ys ≡ false)
        → (if b then some y else job_find_by_label ys x.table x.label) ≡ none
        → (b || any (clashes x) ys) ≡ false
    passed true k q = cc
    passed false k q = k q

pub adds-is_unique :
    (s : State) (j : ImportedJob)
    → Addable s j
    → is_unique s.jobs ≡ true
    → is_unique (j ∷ s.jobs) ≡ true
unfolding is_unique
adds-is_unique s j new u =
    with_head (is_live j) (any (clashes j) s.jobs) (is_unique s.jobs)
      (no_clash s.jobs j (new.fresh)) u
  where
    with_head :
        (live clash rest : Bool)
        → clash ≡ false
        → rest ≡ true
        → (not (live && clash) && rest) ≡ true
    with_head live clash rest h k = ground (arith, h, k)

found_first :
    (js : List ImportedJob) (j : ImportedJob)
    → is_live j ≡ true
    → job_find_by_label (j ∷ js) j.table j.label ≡ some j
unfolding job_find_by_label
found_first js j h =
    rw
      (head_found j.table (j.removal_pending || j.mgr.shutting_down) (bytes_eq j.label j.label) h
        (bytes_eq_refl j.label))
      refl
  where
    head_found :
        (t : ℕ) (dead same : Bool)
        → not dead ≡ true
        → same ≡ true
        → ((t == t) && not dead && same) ≡ true
    head_found t dead same h k = ground (arith, h, k)

abbrev pub state_of : State → Result → State
state_of s broken = s
state_of s (done t o) = t

abbrev pub job_of : Result → Option ImportedJob
job_of broken = none
job_of (done t o) = o

module _ (left : ImportErrno → ImportErrno) where
  -- A job that jobmgr_import2 gives is in the table of labels: job_find_by_label, in its table and by its label, gives
  -- just this job.
  pub jobmgr_import2-job_find_by_label :
      (s t : State) (jm : Manager) (p : Option LaunchData) (j : ImportedJob)
      → jobmgr_import2 left s jm p ≡ done t (some j)
      → job_find_by_label t.jobs j.table j.label ≡ some j
  jobmgr_import2-job_find_by_label s t jm p j e = ended _ (jobmgr_import2-Outcome left s jm p) e
    where
      same :
          (a b : State) (x : ImportedJob)
          → done a (some x) ≡ done b (some j)
          → job_find_by_label a.jobs x.table x.label ≡ some x
          → job_find_by_label b.jobs j.table j.label ≡ some j
      same a b x q h =
          let one : x ≡ j = some_same x j (ap job_of q) in
          subst (λ y. job_find_by_label b.jobs y.table y.label ≡ some y) one
            (subst (λ c. job_find_by_label c.jobs x.table x.label ≡ some x) (ap (state_of a) q) h)

      ended :
          (r : Result)
          → Outcome left s jm r
          → r ≡ done t (some j)
          → job_find_by_label t.jobs j.table j.label ≡ some j
      ended _ breaks q = cc
      ended _ (refuses e' k) q = cc
      ended _ (exists x k f) q = same _ t x q f
      ended _ (waits x new k) q = same _ t x q (found_first s.jobs x (new.live))
      ended _ (adds x new k) q = same _ t x q (found_first s.jobs x (new.live))
