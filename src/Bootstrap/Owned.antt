-- ===== src/Bootstrap/Owned.antt =====
-- src/core.c: a Mach service that was checked in is found by others, and is its job's alone.
use launchd.Base.{
  ℕ, ◌≡◌, refl, ap, sym, subst, ◌∙◌, Bool, true, false, not, ◌&&◌, Option, none, some, List, [],
  ◌∷◌, map, ◌==◌, if◌then◌else◌, Bool-cases, some_same, if_both, if_cases, inl, inr, arith, ==_refl,
  bytes_eq, bytes_eq_refl,
}
use launchd.Bootstrap.Types.{
  Service, Client, Env, Space, by_name, Reply, stamp, make_send, create_recv, success, registered,
  not_privileged, service_active, unknown_service, no_memory, try_per_user, no_reply,
}
use launchd.Bootstrap.Services.{
  find_first, is_named, is_own, where2look, lookup_name, jobmgr_lookup_service, machservice_new,
  machservice_request_notifications, new_service, table_of, update_service, port_null, job_checkin,
  add_service, call,
}
use launchd.Bootstrap.Calls.{
  checked_in, adopt, check_in_new, check_in_found, check_in_service, job_mig_check_in2,
}
use launchd.Bootstrap.Unique.{updated, is_named-updated, activate-KeepsName, adopt-KeepsName}

-- No alias, and not of the per-user hack.
abbrev pub IsPlain : Service → Type 0
IsPlain ms = (ms.alias ≡ none) × (ms.per_user_hack ≡ false)

abbrev pub AllPlain : List Service → Type 0
AllPlain [] = Unit {0}
AllPlain (ms ∷ rest) = IsPlain ms × AllPlain rest

-- The service that has a name in a table is active, is a job's, and has a port.
pub record Owned (d : ℕ) (name : List ℕ) (job port : ℕ) (services : List Service) : Type 0 where
  pub service : Service
  pub found : find_first (is_named d name) services ≡ some service
  pub plain : IsPlain service
  pub active : service.is_active ≡ true
  pub same_port : service.port ≡ port
  pub same_job : service.job ≡ job

-- A call that succeeds leaves a service that is owned.
abbrev pub Leaves : ℕ → List ℕ → ℕ → Reply × Space → Type 0
Leaves d name job (success port, s) = Owned d name job port s.services
Leaves d name job (registered, s) = Unit {0}
Leaves d name job (not_privileged, s) = Unit {0}
Leaves d name job (service_active, s) = Unit {0}
Leaves d name job (unknown_service, s) = Unit {0}
Leaves d name job (no_memory, s) = Unit {0}
Leaves d name job (try_per_user, s) = Unit {0}
Leaves d name job (no_reply, s) = Unit {0}

find-map :
    (p : Service → Bool) (u : Service → Service) (l : List Service) (m : Service)
    → ((r : Service) → p (u r) ≡ p r)
    → find_first p l ≡ some m
    → find_first p (map u l) ≡ some (u m)
unfolding find_first
find-map p u [] m h e = cc
find-map p u (x ∷ rest) m h e = elim (Bool-cases (p x)) [
  | inl q ↦
      rw (h x, q)
        (ap some (
          ap u (
            some_same x m
              (ap (λ b. elim b [ true ↦ some x | false ↦ find_first p rest ]) (sym q) ∙ e))))
  | inr q ↦
      rw (h x, q)
        (find-map p u rest m h
          (ap (λ b. elim b [ true ↦ some x | false ↦ find_first p rest ]) (sym q) ∙ e))
]

find-IsPlain :
    (p : Service → Bool) (l : List Service) (m : Service)
    → AllPlain l
    → find_first p l ≡ some m
    → IsPlain m
unfolding find_first
find-IsPlain p [] m h e = cc
find-IsPlain p (x ∷ rest) m h e = elim (Bool-cases (p x)) [
  | inl q ↦
      subst IsPlain
        (some_same x m (ap (λ b. elim b [ true ↦ some x | false ↦ find_first p rest ]) (sym q) ∙ e))
        h.0
  | inr q ↦
      find-IsPlain p rest m h.1
        (ap (λ b. elim b [ true ↦ some x | false ↦ find_first p rest ]) (sym q) ∙ e)
]

notified :
    (ms : Service) (s : Space)
    → (machservice_request_notifications ms s).services
      ≡ map (updated ms.id (λ r. record r { is_active = true }) activate-KeepsName) s.services
unfolding machservice_request_notifications update_service
notified ms s =
    if_both
      (λ (t : Space).
        t.services
        ≡ map (updated ms.id (λ r. record r { is_active = true }) activate-KeepsName) s.services)
      ms.recv refl refl

checked_in-Leaves :
    (d : ℕ) (name : List ℕ) (j : Client) (m : Service) (s : Space)
    → find_first (is_named d name) s.services ≡ some m
    → IsPlain m
    → m.job ≡ j.id
    → Leaves d name j.id (checked_in j m s)
unfolding checked_in
checked_in-Leaves d name j m s e plain own =
    let act = λ (r : Service). record r { is_active = true } in
    record {
      service = record m { is_active = true };
      found =
          ap (find_first (is_named d name)) (notified m (job_checkin j.id s))
          ∙ find-map (is_named d name) (updated m.id act activate-KeepsName) s.services m
              (is_named-updated m.id act activate-KeepsName d name) e
          ∙ ap (λ b. some (if b then act m else m)) (==_refl m.id);
      plain = plain;
      active = refl;
      same_port = refl;
      same_job = own;
    }

find_head :
    (p : Service → Bool) (ms : Service) (rest : List Service)
    → p ms ≡ true
    → find_first p (ms ∷ rest) ≡ some ms
unfolding find_first
find_head p ms rest h = rw (find_first, h) refl

first_named :
    (addr d p : ℕ) (j : Client) (name : List ℕ) (rest : List Service)
    → find_first (is_named d name) (new_service addr j name (some d) p true false ∷ rest)
      ≡ some (new_service addr j name (some d) p true false)
unfolding is_named
first_named addr d p j name rest =
    find_head (is_named d name) (new_service addr j name (some d) p true false) rest
      (ap (λ b. b && not false && bytes_eq name name) (==_refl d) ∙ bytes_eq_refl name)

check_in_new-Leaves :
    (d : ℕ) (name : List ℕ) (j : Client) (ms : Service) (s' s : Space)
    → find_first (is_named d name) s'.services ≡ some ms
    → IsPlain ms
    → ms.job ≡ j.id
    → Leaves d name j.id (check_in_new j (some (ms, s')) s)
unfolding check_in_new update_service
check_in_new-Leaves d name j ms s' s first plain own =
    checked_in-Leaves d name j (adopt j ms) (update_service ms.id (adopt j) s')
      (find-map (is_named d name) (updated ms.id (adopt j) (adopt-KeepsName j)) s'.services ms
          (is_named-updated ms.id (adopt j) (adopt-KeepsName j) d name) first
        ∙ ap (λ b. some (if b then adopt j ms else ms)) (==_refl ms.id))
      (if_both IsPlain j.legacy_mach_job plain plain)
      (if_both (λ (x : Service). x.job ≡ j.id) j.legacy_mach_job own own)

module _ (env : Env) (j : Client) (name : List ℕ) (managed : j.dedicated_instance ≡ false) where
  -- The service that machservice_new puts at the head is the one that has the name.
  new-Leaves :
      (addr : ℕ) (fresh : Option ℕ) (s : Space)
      → Leaves
          (where2look env j.mgr)
          name
          j.id
          (check_in_new j (machservice_new env addr fresh j name port_null false s) s)
  unfolding check_in_new machservice_new
  new-Leaves addr none s = tt
  new-Leaves addr (some p) s =
      let d = where2look env j.mgr in
      let table : table_of env j ≡ some d = ap (λ b. if b then none else some d) managed in
      subst
        (λ t. Leaves d name j.id (
          check_in_new j
            (some (
              add_service (new_service addr j name t p true false)
                (call (stamp p) (call (make_send p) (call (create_recv p) s)))))
            s))
        (sym table)
        (check_in_new-Leaves d name j (new_service addr j name (some d) p true false) _ s
          (first_named addr d p j name s.services) (refl, refl) refl)

  found-Leaves :
      (addr : ℕ) (fresh : Option ℕ) (strict : Bool) (s : Space) (o : Option Service)
      → (find_first (is_named (where2look env j.mgr) name) s.services ≡ o)
      → AllPlain s.services
      → Leaves
          (where2look env j.mgr)
          name
          j.id
          (check_in_found env addr fresh j name strict by_name s o)
  unfolding check_in_found
  found-Leaves addr fresh strict s none e plain =
      let L = Leaves (where2look env j.mgr) name j.id in
      if_both L strict tt (
        if_both L j.dedicated_instance tt
          (if_both L (env.register_denied name) tt (new-Leaves addr fresh s)))
  found-Leaves addr fresh strict s (some ms) e plain =
      let L = Leaves (where2look env j.mgr) name j.id in
      let m = find-IsPlain (is_named (where2look env j.mgr) name) s.services ms plain e in
      if_cases L (not (ms.job == j.id)) (λ h. tt)
        (λ h.
          if_both L ms.is_active tt
            (checked_in-Leaves (where2look env j.mgr) name j ms s e m (ground (arith, h))))

  pub check_in2-Leaves :
      (addr : ℕ) (fresh : Option ℕ) (strict : Bool) (s : Space)
      → AllPlain s.services
      → Leaves
          (where2look env j.mgr)
          name
          j.id
          (job_mig_check_in2 env addr fresh j name strict by_name s)
  unfolding job_mig_check_in2 check_in_service jobmgr_lookup_service lookup_name
  check_in2-Leaves addr fresh strict s plain =
      let o = find_first (is_named (where2look env j.mgr) name) s.services in
      let same : check_in_service env j name by_name s ≡ o =
        ap
          (λ b.
            if b
            then find_first (is_own j.id name) s.services
            else jobmgr_lookup_service env s.services j name false by_name)
          managed
        ∙ itself o in
      subst
        (λ x.
          Leaves (where2look env j.mgr) name j.id
            (check_in_found env addr fresh j name strict by_name s x))
        (sym same) (found-Leaves addr fresh strict s o refl plain)
    where
      itself : (o : Option Service) → elim o [ some ms ↦ some ms | none ↦ none ] ≡ o
      itself none = refl
      itself (some ms) = refl
