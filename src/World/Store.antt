-- ===== src/World/Store.antt =====
-- The structures that core.c allocates, found by their addresses, and computations over them.
use launchd.Base.{
  ℕ, Bool, true, false, ◌||◌, Option, none, some, List, [], ◌∷◌, ◌==◌, if◌then◌else◌, bytes_eq,
}
use launchd.Calendar.Types.{CalendarInterval}
use launchd.Job.Types.{Job, Jobmgr, Sys, Ctx}

pub record World : Type 0 where
  pub jobs : List Job
  pub mgrs : List Jobmgr
  pub sys : Sys
  -- s_curious_jobs
  pub curious_jobs : List ℕ
  -- the chains of root_jobmgr->label_hash, the newest job first
  pub label_hash : List ℕ
  pub root_jobmgr : Option ℕ
  -- sorted_calendar_events
  pub calendar : List CalendarInterval

pub data Outcome (A : Type 0) : Type 0 where
  done : A → World → Outcome A
  fault : Outcome A
  out_of_fuel : Outcome A

abbrev pub M : Type 0 → Type 0
M A = World → Outcome A

infixl 5 ◌>>=◌ ◌>>◌
abbrev pub ◌>>=◌ : {A B : Type 0} → M A → (A → M B) → M B
◌>>=◌ m f w = elim (m w) [ done a w' ↦ f a w' | fault ↦ fault | out_of_fuel ↦ out_of_fuel ]

abbrev pub ◌>>◌ : {B : Type 0} → M (Unit {0}) → M B → M B
m >> rest = m >>= λ _. rest

abbrev pub pure : {A : Type 0} → A → M A
pure a w = done a w

abbrev pub skip : M (Unit {0})
skip w = done tt w

-- The case of the branch alone is run.
abbrev pub when : Bool → M (Unit {0}) → M (Unit {0})
when b m w = elim b [ true ↦ m w | false ↦ done tt w ]

abbrev pub choose : Bool → M (Unit {0}) → M (Unit {0}) → M (Unit {0})
choose b m n w = elim b [ true ↦ m w | false ↦ n w ]

unfoldable pub find_job : ℕ → List Job → Option Job
find_job i [] = none
find_job i (j ∷ js) = if j.id == i then some j else find_job i js

unfoldable pub put_job : Job → List Job → List Job
put_job j [] = []
put_job j (x ∷ js) = if x.id == j.id then j ∷ js else x ∷ put_job j js

unfoldable pub delete_job : ℕ → List Job → List Job
delete_job i [] = []
delete_job i (j ∷ js) = if j.id == i then js else j ∷ delete_job i js

unfoldable pub find_mgr : ℕ → List Jobmgr → Option Jobmgr
find_mgr i [] = none
find_mgr i (m ∷ ms) = if m.id == i then some m else find_mgr i ms

unfoldable pub put_mgr : Jobmgr → List Jobmgr → List Jobmgr
put_mgr m [] = []
put_mgr m (x ∷ ms) = if x.id == m.id then m ∷ ms else x ∷ put_mgr m ms

unfoldable pub remove_id : ℕ → List ℕ → List ℕ
remove_id i [] = []
remove_id i (x ∷ xs) = if x == i then remove_id i xs else x ∷ remove_id i xs

unfoldable pub load_job : ℕ → M Job
load_job i w = elim (find_job i w.jobs) [ none ↦ fault | some j ↦ done j w ]

unfoldable pub load_mgr : ℕ → M Jobmgr
load_mgr i w = elim (find_mgr i w.mgrs) [ none ↦ fault | some m ↦ done m w ]

unfoldable pub get_sys : M Sys
get_sys w = done w.sys w

unfoldable pub modify_sys : (Sys → Sys) → M (Unit {0})
modify_sys f w = done tt (record w { sys = f w.sys })

unfoldable pub store_job : Job → M (Unit {0})
store_job j w = done tt (record w { jobs = put_job j w.jobs })

unfoldable pub store_ctx : Ctx → M (Unit {0})
store_ctx c w =
    done tt (record w { jobs = put_job c.job w.jobs; mgrs = put_mgr c.mgr w.mgrs; sys = c.sys })

-- A job with its manager.
unfoldable pub load_ctx : ℕ → M Ctx
unfolding load_job load_mgr get_sys
load_ctx i = do
  j ← load_job i
  m ← load_mgr j.mgr
  s ← get_sys
  pure (record { job = j; mgr = m; sys = s })

-- An operation that touches one job, its manager and the globals.
unfoldable pub on : ℕ → (Ctx → Ctx) → M (Unit {0})
unfolding load_ctx store_ctx
on i f = do c ← load_ctx i; store_ctx (f c)

-- job_find(NULL, label): jobs that are going, or whose manager is, are passed over.
unfoldable pub job_find_in : List ℕ → World → List ℕ → Option Job
unfolding find_job find_mgr
job_find_in [] w label = none
job_find_in (i ∷ chain) w label =
    let rest = job_find_in chain w label in
    elim (find_job i w.jobs) [
      | none ↦ rest
      | some j ↦ elim (find_mgr j.mgr w.mgrs) [
        | none ↦ rest
        | some m ↦
            if j.removal_pending || m.shutting_down
            then rest
            else if bytes_eq j.label label
            then some j
            else rest
      ]
    ]

unfoldable pub job_find : World → List ℕ → Option Job
unfolding job_find_in
job_find w label = job_find_in w.label_hash w label
