-- ===== src/Job/Respawn.antt =====
-- src/core.c: the throttle on respawns in job_start.
use launchd.Base.{
  ℕ, ◌+◌, ◌-◌, ◌*◌, ◌/◌, ◌≤◌, ◌<◌, true, false, ◌≡◌, ◌≢◌, ◌⊎◌, none, arith, ◌∙◌, Bool-cases, le→ltb,
  inl, inr,
}
use launchd.Job.Types.{respawn_timer, timer_add, Kernel, Job, Ctx}
use launchd.Job.Status.{nanoseconds_since}
use launchd.Job.Keep.{is_some, job_active}
use launchd.Job.Watch.{job_ignore}
use launchd.Runtime.{emit}
use launchd.Job.Start.{Started, settled, stillborn, seconds_since_start, is_throttled, job_start}

-- The context that job_start leaves.
abbrev pub after : Started → Ctx
after (settled c) = c
after (stillborn c) = c

-- A job is not held to its minimum run time.
abbrev pub IsExempt : Job → Type 0
IsExempt j =
    (j.start_time ≡ 0) ⊎ (j.legacy_mach_job ≡ true) ⊎ (j.inetcompat ≡ true) ⊎ (j.unthrottle ≡ true)

job_ignore-p : (c : Ctx) → (job_ignore c).job.p ≡ c.job.p
unfolding job_ignore
job_ignore-p c = ground arith

throttled-p :
    (k : Kernel) (c : Ctx) → is_throttled c ≡ true → (after (job_start k c)).job.p ≡ c.job.p
unfolding job_start
throttled-p k c t = elim (Bool-cases (is_some (job_active c.job))) [
  | inl busy ↦ rw busy
  | inr idle ↦ rw (idle, t) (job_ignore-p _)
]

unthrottled-IsExempt :
    (c : Ctx)
    → is_throttled c ≡ false
    → IsExempt c.job ⊎ (c.job.min_run_time ≤ seconds_since_start c)
unfolding is_throttled
unthrottled-IsExempt c t = ground arith

-- A job with no process that job_start gives one is exempt, or its last start is at least
-- `min_run_time` seconds back.
pub job_start_spaced :
    (k : Kernel) (c : Ctx)
    → c.job.p ≡ 0
    → (after (job_start k c)).job.p ≢ 0
    → IsExempt c.job ⊎ (c.job.min_run_time ≤ seconds_since_start c)
job_start_spaced k c h started = elim (Bool-cases (is_throttled c)) [
  | inl t ↦ absurd (started (throttled-p k c t ∙ h))
  | inr t ↦ unthrottled-IsExempt c t
]

job_start-throttled :
    (k : Kernel) (c : Ctx)
    → job_active c.job ≡ none
    → is_throttled c ≡ true
    → job_start k c
      ≡ settled (
          job_ignore (record c {
            sys =
                emit
                  (timer_add respawn_timer c.job.id (c.job.min_run_time - seconds_since_start c))
                  c.sys;
          }))
unfolding job_start
job_start-throttled k c idle t = rw (idle, t)

elapsed :
    (now start later least : ℕ)
    → start ≤ now
    → later < 18446744073709551616
    → now + (least - nanoseconds_since now start / 1000000000) * 1000000000 ≤ later
    → least ≤ nanoseconds_since later start / 1000000000
unfolding nanoseconds_since
elapsed now start later least h fits enough = omega arith

unthrottled : (c : Ctx) → c.job.min_run_time ≤ seconds_since_start c → is_throttled c ≡ false
unfolding is_throttled
unthrottled c h = rw (le→ltb _ _ h) (ground arith)

-- The clock of the event loop at a later event.
abbrev pub at_time : ℕ → Ctx → Ctx
at_time t c = record c { sys = record (c.sys) { time_of_mach_msg_return = t } }

-- A throttled job gets a respawn timer, and when that has run out, by a clock that did not step back
-- past the start, job_start no longer throttles the job.
pub throttle_ends :
    (k : Kernel) (c : Ctx) (later : ℕ)
    → job_active c.job ≡ none
    → is_throttled c ≡ true
    → c.job.start_time ≤ c.sys.time_of_mach_msg_return
    → later < 18446744073709551616
    → c.sys.time_of_mach_msg_return + (c.job.min_run_time - seconds_since_start c) * 1000000000
      ≤ later
    → (job_start k c
        ≡ settled (
            job_ignore (record c {
              sys =
                  emit
                    (timer_add respawn_timer c.job.id (c.job.min_run_time - seconds_since_start c))
                    c.sys;
            })))
      × (is_throttled (at_time later c) ≡ false)
unfolding seconds_since_start
throttle_ends k c later idle t h fits enough =
    (job_start-throttled k c idle t, unthrottled (at_time later c) (elapsed _ _ _ _ h fits enough))
