-- ===== src/World/Tables.antt =====
-- The tables of jobs and managers: looking up what was stored.
use launchd.Base.{ℕ, ◌≡◌, ◌≢◌, refl, some, List, [], ◌∷◌, arith}
use launchd.Job.Types.{Job, Jobmgr}
use launchd.World.Store.{find_job, put_job, find_mgr, put_mgr}

pub find_job-id : (i : ℕ) (js : List Job) {j : Job} → find_job i js ≡ some j → j.id ≡ i
unfolding find_job
find_job-id i [] h = cc
find_job-id i (x ∷ js) {j} h = ground (arith, find_job-id i js {j = j})

-- A job that is stored over one with its address is the one found there.
pub find_job-put_job :
    (i : ℕ) (js : List Job) (j' : Job) {j : Job}
    → find_job i js ≡ some j
    → j'.id ≡ i
    → find_job i (put_job j' js) ≡ some j'
unfolding find_job put_job
find_job-put_job i [] j' h e = cc
find_job-put_job i (x ∷ js) j' {j} h e = ground (arith, find_job-put_job i js j' {j = j})

pub find_job-put_job_ne :
    (i : ℕ) (js : List Job) (j' : Job) → j'.id ≢ i → find_job i (put_job j' js) ≡ find_job i js
unfolding find_job put_job
find_job-put_job_ne i [] j' e = refl
find_job-put_job_ne i (x ∷ js) j' e = ground (arith, find_job-put_job_ne i js j')

pub find_mgr-id : (i : ℕ) (ms : List Jobmgr) {m : Jobmgr} → find_mgr i ms ≡ some m → m.id ≡ i
unfolding find_mgr
find_mgr-id i [] h = cc
find_mgr-id i (x ∷ ms) {m} h = ground (arith, find_mgr-id i ms {m = m})

pub find_mgr-put_mgr :
    (i : ℕ) (ms : List Jobmgr) (m' : Jobmgr) {m : Jobmgr}
    → find_mgr i ms ≡ some m
    → m'.id ≡ i
    → find_mgr i (put_mgr m' ms) ≡ some m'
unfolding find_mgr put_mgr
find_mgr-put_mgr i [] m' h e = cc
find_mgr-put_mgr i (x ∷ ms) m' {m} h e = ground (arith, find_mgr-put_mgr i ms m' {m = m})

-- Storing what is there changes nothing.
pub put_job_self : (i : ℕ) (js : List Job) {j : Job} → find_job i js ≡ some j → put_job j js ≡ js
unfolding find_job put_job
put_job_self i [] h = refl
put_job_self i (x ∷ js) {j} h = ground (arith, find_job-id i js {j = j}, put_job_self i js {j = j})
