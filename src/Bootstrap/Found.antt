-- ===== src/Bootstrap/Found.antt =====
-- src/core.c: what clients see of a Mach service that a job has checked in.
use launchd.Base.{
  ℕ, ◌≡◌, refl, ap, sym, subst, ◌∙◌, Bool, true, false, not, ◌&&◌, Option, none, some, List, ◌==◌,
  if◌then◌else◌, Bool-cases, if_both, inl, inr,
}
use launchd.Bootstrap.Types.{
  Service, Client, Env, Space, by_name, success, not_privileged, service_active, try_per_user,
}
use launchd.Bootstrap.Services.{find_first, is_own, where2look, lookup_name, jobmgr_lookup_service}
use launchd.Bootstrap.Calls.{
  check_in_found, check_in_service, job_mig_check_in2, no_parent, look_up_service, original, shown,
  chain, answer_look_up, job_mig_look_up2, find_id,
}
use launchd.Bootstrap.Owned.{AllPlain, Owned, Leaves, check_in2-Leaves}

-- The caller is not sent to the manager of its user, and may look up the name.
abbrev pub MayLookUp : Env → Client → List ℕ → Type 0
MayLookUp env k name =
    ((env.pid1_magic
        && k.anonymous
        && no_parent k
        && not (env.caller_uid == 0)
        && not (env.caller_euid == 0))
      ≡ false)
    × ((not k.mgr.xpc_domain && env.lookup_denied name) ≡ false)

module _ (env : Env) (k : Client) (name : List ℕ) where
  lookup_owned :
      (job port : ℕ) (check_parent : Bool) (s : Space)
      (o : Owned (where2look env k.mgr) name job port s.services)
      → jobmgr_lookup_service env s.services k name check_parent by_name ≡ some o.service
  unfolding jobmgr_lookup_service lookup_name
  lookup_owned job port check_parent s o = rw (lookup_name, o.found) refl

  shown_owned :
      (d job port : ℕ) (services : List Service) (o : Owned d name job port services)
      → chain (original services o.service) shown ≡ some o.service
  unfolding original shown
  shown_owned d job port services o =
      let hidden : (o.service.hide && not o.service.is_active) ≡ false =
        ap (λ b. o.service.hide && not b) o.active ∙ both_false o.service.hide in
      ap (λ a. chain (elim a [ none ↦ some o.service | some x ↦ find_id x services ]) shown)
        o.plain.0
      ∙ ap (λ b. if b then none else if o.service.per_user_hack then none else some o.service)
          hidden
      ∙ ap (λ b. if b then none else some o.service) o.plain.1
    where
      both_false : (b : Bool) → (b && false) ≡ false
      both_false true = refl
      both_false false = refl

  looks_up :
      (job port : ℕ) (privileged : Bool) (s : Space)
      (o : Owned (where2look env k.mgr) name job port s.services)
      → look_up_service env k name false privileged by_name s ≡ some o.service
  unfolding look_up_service
  looks_up job port privileged s o =
      if_both (λ (r : Option Service). r ≡ some o.service) k.mgr.xpc_domain
        (lookup_owned job port false s o) (lookup_owned job port true s o)

  look_up2_owned :
      (job port : ℕ) (privileged : Bool) (s : Space)
      → Owned (where2look env k.mgr) name job port s.services
      → MayLookUp env k name
      → job_mig_look_up2 env k name false privileged by_name s ≡ (success port, s)
  unfolding job_mig_look_up2 answer_look_up
  look_up2_owned job port privileged s o may =
      let found =
        ap (λ x. chain (chain x (original s.services)) shown) (looks_up job port privileged s o)
        ∙ shown_owned (where2look env k.mgr) job port s.services o in
      ap
        (λ b.
          if b
          then (try_per_user, s)
          else if not k.mgr.xpc_domain && env.lookup_denied name
          then (not_privileged, s)
          else answer_look_up env k name false privileged s (
              chain
                (chain (look_up_service env k name false privileged by_name s)
                  (original s.services))
                shown))
        may.0
      ∙ ap
          (λ b.
            if b
            then (not_privileged, s)
            else answer_look_up env k name false privileged s (
                chain
                  (chain (look_up_service env k name false privileged by_name s)
                    (original s.services))
                  shown))
          may.1
      ∙ ap (answer_look_up env k name false privileged s) found
      ∙ ap (λ p. (success p, s)) o.same_port

  check_in2_owned :
      (job port addr : ℕ) (fresh : Option ℕ) (strict : Bool) (s : Space)
      → Owned (where2look env k.mgr) name job port s.services
      → k.dedicated_instance ≡ false
      → job_mig_check_in2 env addr fresh k name strict by_name s
        ≡ (if job == k.id then (service_active, s) else (not_privileged, s))
  unfolding job_mig_check_in2 check_in_service check_in_found
  check_in2_owned job port addr fresh strict s o managed =
      let same : check_in_service env k name by_name s ≡ some o.service =
        ap
          (λ b.
            if b
            then find_first (is_own k.id name) s.services
            else jobmgr_lookup_service env s.services k name false by_name)
          managed
        ∙ lookup_owned job port false s o in
      ap (check_in_found env addr fresh k name strict by_name s) same
      ∙ (elim (Bool-cases (job == k.id)) [
        | inl e ↦ rw (o.same_job, e, o.active) refl
        | inr e ↦ rw (o.same_job, e) refl
      ])

module _ (env : Env) (addr : ℕ) (fresh : Option ℕ) (j : Client) (name : List ℕ) (strict : Bool)
    (s s' : Space) (port : ℕ) (managed : j.dedicated_instance ≡ false) (plain : AllPlain s.services)
    (result : job_mig_check_in2 env addr fresh j name strict by_name s ≡ (success port, s')) where
  left : Owned (where2look env j.mgr) name j.id port s'.services
  left =
      subst (Leaves (where2look env j.mgr) name j.id) result
        (check_in2-Leaves env j name managed addr fresh strict s plain)

  -- After a job has checked in a service by its name, every client whose manager uses the same table,
  -- and that may look the name up, gets the port that the job got, by a look-up that is not strict. The
  -- job is no instance of another; no service is an alias or of the per-user hack.
  pub look_up2-check_in2 :
      (k : Client) (privileged : Bool)
      → where2look env k.mgr ≡ where2look env j.mgr
      → MayLookUp env k name
      → job_mig_look_up2 env k name false privileged by_name s' ≡ (success port, s')
  look_up2-check_in2 k privileged same may =
      look_up2_owned env k name j.id port privileged s'
        (subst (λ d. Owned d name j.id port s'.services) (sym same) left) may

  -- After a job has checked in a service by its name, no client whose manager uses the same table can
  -- check it in: the job itself is told that the service is active, and others that they may not. None of
  -- them is an instance of another job; no service is an alias or of the per-user hack.
  pub check_in2-check_in2 :
      (k : Client) (addr' : ℕ) (fresh' : Option ℕ) (strict' : Bool)
      → where2look env k.mgr ≡ where2look env j.mgr
      → k.dedicated_instance ≡ false
      → job_mig_check_in2 env addr' fresh' k name strict' by_name s'
        ≡ (if j.id == k.id then (service_active, s') else (not_privileged, s'))
  check_in2-check_in2 k addr' fresh' strict' same alone =
      check_in2_owned env k name j.id port addr' fresh' strict' s'
        (subst (λ d. Owned d name j.id port s'.services) (sym same) left) alone
