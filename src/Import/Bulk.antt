-- ===== src/Import/Bulk.antt =====
-- src/core.c: the answers of job_import_bulk.
use launchd.Base.{
  ◌≡◌, refl, Bool, true, false, not, Option, none, some, List, [], ◌∷◌, all, subst, ap, ◌∙◌,
}
use launchd.Data.Types.{LaunchData, array, Slots, nil, null, slot}
use launchd.Import.Types.{
  ImportedJob, ImportErrno, ok, einval, eexist, esrch, eneedauth, other, State,
}
use launchd.Import.Admit.{
  Result, broken, done, settle, Bulk, answered, answer, import_each, job_import_bulk,
  jobmgr_import2,
}
use launchd.Import.Singles.{has_singleton}
use launchd.Import.Outcome.{
  is_refusal, Outcome, breaks, refuses, exists, waits, adds, jobmgr_import2-Outcome,
}
use launchd.Import.Named.{IsNamed, AsksFor, jobmgr_import2-IsNamed}
use launchd.Import.Labels.{state_of, job_of, is_unique, adds-is_unique}

abbrev left_of : State → Bulk → State
left_of s broken = s
left_of s (answered t rs) = t

abbrev answers_of : Bulk → List (ImportErrno × Option ImportedJob)
answers_of broken = []
answers_of (answered t rs) = rs

-- Zero for a job without a session to wait for, ENEEDAUTH for one with, and another error where there is none.
abbrev pub agrees : ImportErrno × Option ImportedJob → Bool
agrees (ok, some j) = not j.needs_session
agrees (eneedauth, some j) = j.needs_session
agrees (e, none) = is_refusal e
agrees _ = false

-- The table with the job that was added, if any; and with the jobs of all answers.
abbrev pub added_one : Option ImportedJob → List ImportedJob → List ImportedJob
added_one none js = js
added_one (some j) js = j ∷ js

abbrev pub added : List (ImportErrno × Option ImportedJob) → List ImportedJob → List ImportedJob
added [] js = js
added (r ∷ rs) js = added rs (added_one r.1 js)

abbrev pub GivesNamed : Option LaunchData → Option ImportedJob → Type 0
GivesNamed p none = Unit {0}
GivesNamed p (some j) = AsksFor p j.label

-- The answers belong to the payloads, one to each, in order: a job has the label of its payload.
abbrev pub AllNamed : Slots → List (ImportErrno × Option ImportedJob) → Type 0
AllNamed nil [] = Unit {0}
AllNamed nil (r ∷ rs) = true ≡ false
AllNamed (null ps) [] = true ≡ false
AllNamed (null ps) (r ∷ rs) = GivesNamed none r.1 × AllNamed ps rs
AllNamed (slot p ps) [] = true ≡ false
AllNamed (slot p ps) (r ∷ rs) = GivesNamed (some p) r.1 × AllNamed ps rs

abbrev pub is_eneedauth : ImportErrno → Bool
is_eneedauth eneedauth = true
is_eneedauth _ = false

module _ (left : ImportErrno → ImportErrno) where
  -- What one import leaves, with the errno that its answer has.
  abbrev next_state : State → Option ImportedJob → State
  next_state t o = record t { errno = settle t o }

  -- What holds of the state through each import, P, and what of the answers grows with each, R, hold for
  -- job_import_bulk.
  module _ (P : State → Type 0)
      (R : State → Slots → State → List (ImportErrno × Option ImportedJob) → Type 0)
      (keep : (s : State) (p : Option LaunchData) (t : State) (o : Option ImportedJob)
        → P s
        → jobmgr_import2 left s s.root p ≡ done t o
        → P (next_state t o))
      (stop : (s : State) → P s → R s nil s [])
      (on_null : (s t u : State) (o : Option ImportedJob) (ps : Slots)
          (qs : List (ImportErrno × Option ImportedJob))
        → P s
        → jobmgr_import2 left s s.root none ≡ done t o
        → R (next_state t o) ps u qs
        → R s (null ps) u ((settle t o, o) ∷ qs))
      (on_slot : (s t u : State) (o : Option ImportedJob) (p : LaunchData) (ps : Slots)
          (qs : List (ImportErrno × Option ImportedJob))
        → P s
        → jobmgr_import2 left s s.root (some p) ≡ done t o
        → R (next_state t o) ps u qs
        → R s (slot p ps) u ((settle t o, o) ∷ qs)) where
    cons_answer :
        (X : State → List (ImportErrno × Option ImportedJob) → Type 0)
        (a : ImportErrno × Option ImportedJob) (b : Bulk) (t : State)
        (rs : List (ImportErrno × Option ImportedJob))
        → ((u : State) (qs : List (ImportErrno × Option ImportedJob))
            → b ≡ answered u qs
            → X u (a ∷ qs))
        → elim b [ broken ↦ broken | answered u qs ↦ answered u (a ∷ qs) ] ≡ answered t rs
        → X t rs
    cons_answer X a broken t rs k e = cc
    cons_answer X a (answered u qs) t rs k e =
        subst (λ l. X t l) (ap answers_of e)
          (subst (λ v. X v (a ∷ qs)) (ap (left_of u) e) (k u qs refl))

    one_answer :
        (X : State → List (ImportErrno × Option ImportedJob) → Type 0) (s : State)
        (p : Option LaunchData) (f : State → Bulk) (t : State)
        (rs : List (ImportErrno × Option ImportedJob))
        → ((t' : State) (o : Option ImportedJob)
            → jobmgr_import2 left s s.root p ≡ done t' o
            → (u : State) (qs : List (ImportErrno × Option ImportedJob))
            → f (next_state t' o) ≡ answered u qs
            → X u ((settle t' o, o) ∷ qs))
        → answer (jobmgr_import2 left s s.root p) f ≡ answered t rs
        → X t rs
    one_answer X s p f t rs k e = ended (jobmgr_import2 left s s.root p) refl e
      where
        ended :
            (r : Result) → jobmgr_import2 left s s.root p ≡ r → answer r f ≡ answered t rs → X t rs
        ended broken g q = cc
        ended (done a o) g q = cons_answer X (settle a o, o) (f (next_state a o)) t rs (k a o g) q

    pub each :
        (s : State) (ps : Slots) (t : State) (rs : List (ImportErrno × Option ImportedJob))
        → P s
        → import_each left s ps ≡ answered t rs
        → R s ps t rs
    unfolding import_each
    each s nil t rs h e =
        subst (λ l. R s nil t l) (ap answers_of e)
          (subst (λ v. R s nil v []) (ap (left_of s) e) (stop s h))
    each s (null ps) t rs h e =
        one_answer (R s (null ps)) s none (λ s'. import_each left s' ps) t rs
          (λ t' o g u qs w.
            on_null s t' u o ps qs h g (each (next_state t' o) ps u qs (keep s none t' o h g) w))
          e
    each s (slot p ps) t rs h e =
        one_answer (R s (slot p ps)) s (some p) (λ s'. import_each left s' ps) t rs
          (λ t' o g u qs w.
            on_slot s t' u o p ps qs h g
              (each (next_state t' o) ps u qs (keep s (some p) t' o h g) w))
          e

  moved :
      (r : Result) (t : State) (o : Option ImportedJob) (P : State → Option ImportedJob → Type 0)
      → P (state_of t r) (job_of r)
      → r ≡ done t o
      → P t o
  moved r t o P h e = subst (λ q. P (state_of t q) (job_of q)) e h

  unique_after :
      (s : State) (r : Result) (t : State) (o : Option ImportedJob)
      → Outcome left s s.root r
      → is_unique s.jobs ≡ true
      → r ≡ done t o
      → is_unique t.jobs ≡ true
  unique_after s _ t o breaks u e = cc
  unique_after s r t o (refuses n k) u e = moved r t o (λ a _. is_unique a.jobs ≡ true) u e
  unique_after s r t o (exists j k f) u e = moved r t o (λ a _. is_unique a.jobs ≡ true) u e
  unique_after s r t o (waits j new k) u e =
      moved r t o (λ a _. is_unique a.jobs ≡ true) (adds-is_unique s j new u) e
  unique_after s r t o (adds j new k) u e =
      moved r t o (λ a _. is_unique a.jobs ≡ true) (adds-is_unique s j new u) e

  -- If no two live jobs of a table have the same label, then this is so after job_import_bulk too.
  pub job_import_bulk-is_unique :
      (s t : State) (ps : Slots) (rs : List (ImportErrno × Option ImportedJob))
      → is_unique s.jobs ≡ true
      → job_import_bulk left s (array ps) ≡ answered t rs
      → is_unique t.jobs ≡ true
  unfolding job_import_bulk
  job_import_bulk-is_unique s t ps rs u e =
      each (λ a. is_unique a.jobs ≡ true) (λ a qs b ls. is_unique b.jobs ≡ true)
        (λ a p b o h g. unique_after a _ b o (jobmgr_import2-Outcome left a a.root p) h g)
        (λ a h. h) (λ a b c o qs ls h g r. r) (λ a b c o p qs ls h g r. r) s ps t rs u e

  settled :
      (e : ImportErrno) (j : ImportedJob)
      → is_eneedauth e ≡ false
      → j.needs_session ≡ false
      → agrees (elim e [ eneedauth ↦ eneedauth | _ ↦ ok ], some j) ≡ true
  settled ok j h k = ap not k
  settled einval j h k = ap not k
  settled eexist j h k = ap not k
  settled esrch j h k = ap not k
  settled eneedauth j h k = cc
  settled (other n) j h k = ap not k

  abbrev IsAlone : State → Type 0
  IsAlone a = has_singleton a a.root ≡ false

  record Agrees (s t : State) (o : Option ImportedJob) : Type 0 where
    alone : IsAlone t
    agreed : agrees (settle t o, o) ≡ true
    stored : t.jobs ≡ added_one o s.jobs

  refused : (e : ImportErrno) → is_refusal e ≡ true → agrees (e, none) ≡ true
  refused einval h = refl
  refused eexist h = refl
  refused ok h = cc
  refused esrch h = cc
  refused eneedauth h = cc
  refused (other n) h = cc

  answer_after :
      ((e : ImportErrno) → is_eneedauth (left e) ≡ false)
      → (s : State) (r : Result) (t : State) (o : Option ImportedJob) → Outcome left s s.root r
      → IsAlone s
      → r ≡ done t o
      → Agrees s t o
  unfolding has_singleton
  answer_after quiet s _ t o breaks u e = cc
  answer_after quiet s r t o (refuses n k) u e =
      moved r t o (Agrees s) (record { alone = u; agreed = refused n k; stored = refl }) e
  answer_after quiet s r t o (exists j k f) u e = cc (u, k)
  answer_after quiet s r t o (waits j new k) u e =
      moved r t o (Agrees s) (record { alone = u; agreed = k; stored = refl }) e
  answer_after quiet s r t o (adds j new k) u e =
      moved r t o (Agrees s)
        (record { alone = u; agreed = settled (left esrch) j (quiet esrch) k; stored = refl }) e

  -- What job_import_bulk leaves and answers.
  abbrev Replies : State → Slots → State → List (ImportErrno × Option ImportedJob) → Type 0
  Replies s ps t rs = (all agrees rs ≡ true) × AllNamed ps rs × (t.jobs ≡ added rs s.jobs)

  cons-Replies :
      (s t u : State) (o : Option ImportedJob) (qs : List (ImportErrno × Option ImportedJob))
      → Agrees s t o
      → u.jobs ≡ added qs t.jobs
      → u.jobs ≡ added ((settle t o, o) ∷ qs) s.jobs
  cons-Replies s t u o qs a e = e ∙ ap (added qs) (a.stored)

  -- Where no manager gives the job that is there already, and no system call for the keys leaves ENEEDAUTH in
  -- errno, job_import_bulk answers each payload of the array once and in order: zero where a job was added that
  -- waits for no session, ENEEDAUTH where one was added that waits for one, and EINVAL or EEXIST where none was
  -- added. The job that was added for a payload has the label that this payload asks for, and the table of jobs
  -- is the old one with the jobs that were added, and no others, in the order of the payloads, the last in front.
  pub job_import_bulk-agrees :
      ((e : ImportErrno) → is_eneedauth (left e) ≡ false)
      → (s t : State) (ps : Slots) (rs : List (ImportErrno × Option ImportedJob))
      → has_singleton s s.root ≡ false
      → job_import_bulk left s (array ps) ≡ answered t rs
      → (all agrees rs ≡ true) × AllNamed ps rs × (t.jobs ≡ added rs s.jobs)
  unfolding job_import_bulk has_singleton
  job_import_bulk-agrees quiet s t ps rs u e =
      each IsAlone Replies (λ a p b o h g. (told a p b o h g).alone) (λ a h. (refl, tt, refl))
        (λ a b c o qs ls h g r.
          let w = told a none b o h g in
          (rw (w.agreed) (r.0), (payload a none b o g, r.1), cons-Replies a b c o ls w (r.2)))
        (λ a b c o p qs ls h g r.
          let w = told a (some p) b o h g in
          (rw (w.agreed) (r.0), (payload a (some p) b o g, r.1), cons-Replies a b c o ls w (r.2)))
        s ps t rs u e
    where
      told :
          (a : State) (p : Option LaunchData) (b : State) (o : Option ImportedJob)
          → IsAlone a
          → jobmgr_import2 left a a.root p ≡ done b o
          → Agrees a b o
      told a p b o h g = answer_after quiet a _ b o (jobmgr_import2-Outcome left a a.root p) h g

      payload :
          (a : State) (p : Option LaunchData) (b : State) (o : Option ImportedJob)
          → jobmgr_import2 left a a.root p ≡ done b o
          → GivesNamed p o
      payload a p b none g = tt
      payload a p b (some j) g = subst (IsNamed p) g (jobmgr_import2-IsNamed left a p a.root)
