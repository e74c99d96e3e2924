-- ===== src/Bootstrap/Registered.antt =====
-- src/core.c: job_mig_register2 puts a new Mach service in the place of one that was found.
use launchd.Base.{
  ℕ, ◌≡◌, refl, ap, sym, subst, ◌∙◌, Bool, true, false, not, ◌&&◌, ◌||◌, Option, none, some, List,
  [], ◌∷◌, any, ◌==◌, Bool-cases, some_same, if_both, inl, inr, arith, ==_refl, bytes_eq,
  bytes_eq→eq,
}
use launchd.Bootstrap.Types.{Service, Client, Env, Space, Target, by_name, by_pid, Reply}
use launchd.Bootstrap.Services.{
  in_table, find_first, is_named, where2look, lookup_name, jobmgr_lookup_service, machservice_new,
  machservice_delete, table_of, remove_service, port_null, job_checkin,
}
use launchd.Bootstrap.Calls.{
  is_per_pid_target, is_foreign, register_new, register_port, register_found, job_mig_register2,
}
use launchd.Bootstrap.Unique.{
  is_taken_by, has_id, IsUnique, NewIsUnique, any-false, lookup_free, new-IsUnique,
  notifications-IsUnique,
}

any-remove :
    (p : Service → Bool) (a : ℕ) (l : List Service)
    → any p l ≡ false
    → any p (remove_service a l) ≡ false
unfolding remove_service
any-remove p a [] h = refl
any-remove p a (ms ∷ rest) h = elim (Bool-cases (p ms)) [
  | inl e ↦ cc (e, h)
  | inr e ↦ elim (Bool-cases (ms.id == a)) [
    | inl i ↦ rw i (ap (λ b. b || any p rest) (sym e) ∙ h)
    | inr i ↦ rw (i, e) (any-remove p a rest (ap (λ b. b || any p rest) (sym e) ∙ h))
  ]
]

remove-IsUnique : (a : ℕ) (l : List Service) → IsUnique l → IsUnique (remove_service a l)
unfolding remove_service
remove-IsUnique a [] h = tt
remove-IsUnique a (ms ∷ rest) h = elim (Bool-cases (ms.id == a)) [
  | inl i ↦ rw i h.2
  | inr i ↦
      rw i
        (any-remove _ a rest h.0, any-remove (has_id ms.id) a rest h.1, remove-IsUnique a rest h.2)
]

named_parts :
    (d : ℕ) (name : List ℕ) (t : Option ℕ) (pid_local : Bool) (n : List ℕ)
    → (in_table d t && not pid_local && bytes_eq name n) ≡ true
    → (t ≡ some d) × (pid_local ≡ false) × (name ≡ n)
named_parts d name none pid_local n h = cc
named_parts d name (some y) true n h = elim (Bool-cases (y == d)) [ inl e ↦ cc | inr e ↦ cc ]
named_parts d name (some y) false n h = ground (arith, bytes_eq→eq name n)

find_other :
    (p : Service → Bool) (a : ℕ) (l : List Service) (ms : Service)
    → any (has_id a) l ≡ false
    → find_first p l ≡ some ms
    → (a == ms.id) ≡ false
unfolding find_first
find_other p a [] ms h e = cc
find_other p a (x ∷ rest) ms h e = elim (Bool-cases (x.id == a)) [
  | inl i ↦ cc (i, h)
  | inr i ↦
      let later = ap (λ b. b || any (has_id a) rest) (sym i) ∙ h in
      elim (Bool-cases (p x)) [
        | inl q ↦
            let same : x ≡ ms =
              some_same x ms
                (ap (λ b. elim b [ true ↦ some x | false ↦ find_first p rest ]) (sym q) ∙ e) in
            subst (λ y. (a == y.id) ≡ false) same (ground (arith, i))
        | inr q ↦
            find_other p a rest ms later
              (ap (λ b. elim b [ true ↦ some x | false ↦ find_first p rest ]) (sym q) ∙ e)
      ]
]

-- No other service has the name of one that is removed.
found_removed :
    (d : ℕ) (name : List ℕ) (l : List Service) (ms : Service)
    → IsUnique l
    → find_first (is_named d name) l ≡ some ms
    → any (is_named d name) (remove_service ms.id l) ≡ false
unfolding find_first remove_service is_taken_by is_named
found_removed d name [] ms h e = cc
found_removed d name (x ∷ rest) ms h e = elim (Bool-cases (is_named d name x)) [
  | inl q ↦
      let same : x ≡ ms = some_same x ms (
        ap (λ b. elim b [ true ↦ some x | false ↦ find_first (is_named d name) rest ]) (sym q)
        ∙ e) in
      let (hash, local, named) = named_parts d name x.ms_hash x.per_pid x.name q in
      let others : any (is_named d name) rest ≡ false =
        sym (
          ap (λ t. any (is_taken_by t x.per_pid x.name) rest) hash
          ∙ ap (λ b. any (is_taken_by (some d) b x.name) rest) local
          ∙ ap (λ n. any (is_taken_by (some d) false n) rest) (sym named))
        ∙ h.0 in
      subst (λ y. any (is_named d name) (remove_service y.id (x ∷ rest)) ≡ false) same
        (rw (==_refl x.id) others)
  | inr q ↦
      let later =
        ap (λ b. elim b [ true ↦ some x | false ↦ find_first (is_named d name) rest ]) (sym q)
        ∙ e in
      rw (find_other (is_named d name) x.id rest ms h.1 later, q)
        (found_removed d name rest ms h.2 later)
]

delete-services :
    (ms : Service) (s : Space)
    → (machservice_delete ms s).services ≡ remove_service ms.id s.services
unfolding machservice_delete
delete-services ms s = of_alias ms.alias refl
  where
    of_alias :
        (o : Option ℕ)
        → ms.alias ≡ o
        → (machservice_delete ms s).services ≡ remove_service ms.id s.services
    of_alias (some orig) e = rw e refl
    of_alias none e = elim (Bool-cases (ms.recv && not ms.is_active)) [
      | inl c ↦ elim (Bool-cases (ms.port == s.exception_server)) [
        | inl x ↦ rw (e, c, x) refl
        | inr x ↦ rw (e, c, x) refl
      ]
      | inr c ↦ elim (Bool-cases (ms.port == s.exception_server)) [
        | inl x ↦ rw (e, c, x) refl
        | inr x ↦ rw (e, c, x) refl
      ]
    ]

-- After a service that was found is deleted, its name is free where a new one would go.
deleted_free :
    (env : Env) (services : List Service) (j : Client) (name : List ℕ) (target : Target)
    (ms : Service)
    → IsUnique services
    → jobmgr_lookup_service env services j name false target ≡ some ms
    → any
        (is_taken_by (table_of env j) (is_per_pid_target target) name)
        (remove_service ms.id services)
      ≡ false
unfolding jobmgr_lookup_service lookup_name is_taken_by
deleted_free env services j name target ms u h = elim (Bool-cases j.dedicated_instance) [
  | inl e ↦ rw e (any-false (λ r. false) (remove_service ms.id services) (λ r. refl))
  | inr e ↦ rw e (free_of target h)
]
  where
    free_of :
        (target : Target)
        → jobmgr_lookup_service env services j name false target ≡ some ms
        → any
            (is_taken_by (some (where2look env j.mgr)) (is_per_pid_target target) name)
            (remove_service ms.id services)
          ≡ false
    free_of by_name e =
        found_removed (where2look env j.mgr) name services ms u
          (result (find_first (is_named (where2look env j.mgr) name) services) e)
      where
        result :
            (o : Option Service) → elim o [ some x ↦ some x | none ↦ none ] ≡ some ms → o ≡ some ms
        result none k = cc
        result (some x) k = k
    free_of (by_pid p) e = any-false (λ r. false) (remove_service ms.id services) (λ r. refl)

register_new-IsUnique :
    (o : Option (Service × Space)) (s : Space)
    → NewIsUnique o
    → IsUnique s.services
    → IsUnique (register_new o s).1.services
unfolding register_new
register_new-IsUnique none s n h = h
register_new-IsUnique (some (ms, s')) s n h = notifications-IsUnique ms s' n

register_port-IsUnique :
    (env : Env) (addr : ℕ) (j : Client) (name : List ℕ) (port : ℕ) (pid_local : Bool) (s : Space)
    → any (is_taken_by (table_of env j) pid_local name) s.services ≡ false
    → any (has_id addr) s.services ≡ false
    → IsUnique s.services
    → IsUnique (register_port env addr j name port pid_local s).1.services
unfolding register_port
register_port-IsUnique env addr j name port pid_local s free unused h =
    if_both (λ (r : Reply × Space). IsUnique r.1.services) (port == port_null) h
      (register_new-IsUnique (machservice_new env addr none j name port pid_local s) s
        (new-IsUnique env addr none j name port pid_local s free unused h) h)

register_found-IsUnique :
    (env : Env) (addr : ℕ) (j : Client) (name : List ℕ) (port : ℕ) (target : Target) (s : Space)
    (o : Option Service)
    → jobmgr_lookup_service env s.services j name false target ≡ o
    → any (has_id addr) s.services ≡ false
    → IsUnique s.services
    → IsUnique (register_found env addr j name port (is_per_pid_target target) s o).1.services
unfolding register_found
register_found-IsUnique env addr j name port target s none e unused h =
    register_port-IsUnique env addr j name port (is_per_pid_target target) s
      (lookup_free env s.services j name target e) unused h
register_found-IsUnique env addr j name port target s (some ms) e unused h =
    let left = machservice_delete ms (job_checkin j.id s) in
    let removed : left.services ≡ remove_service ms.id s.services =
      delete-services ms (job_checkin j.id s) in
    let new =
      register_port-IsUnique env addr j name port (is_per_pid_target target) left
        (ap (any _) removed ∙ deleted_free env s.services j name target ms h e)
        (ap (any (has_id addr)) removed ∙ any-remove (has_id addr) ms.id s.services unused)
        (subst IsUnique (sym removed) (remove-IsUnique ms.id s.services h)) in
    let Fine = λ (r : Reply × Space). IsUnique r.1.services in
    if_both Fine (not (ms.job == j.id)) h
      (if_both Fine ms.is_active h (if_both Fine (ms.recv && not (port == port_null)) h new))

pub register2-IsUnique :
    (env : Env) (addr : ℕ) (j : Client) (name : List ℕ) (port : ℕ) (target : Target) (s : Space)
    → any (has_id addr) s.services ≡ false
    → IsUnique s.services
    → IsUnique (job_mig_register2 env addr j name port target s).1.services
unfolding job_mig_register2
register2-IsUnique env addr j name port target s unused h =
    let Fine = λ (r : Reply × Space). IsUnique r.1.services in
    if_both Fine (env.register_denied name) h (
      if_both Fine (is_foreign env j) (if_both Fine env.pid1_magic h h) (
        register_found-IsUnique env addr j name port target s
          (jobmgr_lookup_service env s.services j name false target) refl unused h))

pub delete-IsUnique :
    (ms : Service) (s : Space) → IsUnique s.services → IsUnique (machservice_delete ms s).services
delete-IsUnique ms s h =
    subst IsUnique (sym (delete-services ms s)) (remove-IsUnique ms.id s.services h)
