-- ===== src/Bootstrap/Unique.antt =====
-- src/core.c: no two Mach services of a manager have the same name.
use launchd.Base.{
  ℕ, ◌≡◌, refl, ap, sym, ◌∙◌, Bool, true, false, not, ◌&&◌, ◌||◌, Option, none, some, List, [], ◌∷◌,
  map, ◌==◌, if◌then◌else◌, Bool-cases, inl, inr, bytes_eq, any,
}
use launchd.Bootstrap.Types.{Service, Client, Env, Space, Target, by_name, by_pid}
use launchd.Bootstrap.Services.{
  in_table, find_first, is_own, is_named, where2look, lookup_name, jobmgr_lookup_service,
  machservice_new, machservice_request_notifications, table_of, update_service, port_null,
  port_dead,
}
use launchd.Bootstrap.Calls.{
  checked_in, adopt, check_in_new, check_in_found, check_in_service, is_per_pid_target,
  job_mig_check_in2,
}

-- A service would have a name in a table already.
unfoldable pub is_taken_by : Option ℕ → Bool → List ℕ → Service → Bool
is_taken_by none pid_local name r = false
is_taken_by (some d) pid_local name r = not pid_local && is_named d name r

abbrev pub has_id : ℕ → Service → Bool
has_id a r = r.id == a

-- Of the services that are found by their names, no two in a table have the same; and each has an
-- address of its own.
abbrev pub IsUnique : List Service → Type 0
IsUnique [] = Unit {0}
IsUnique (ms ∷ rest) =
    (any (is_taken_by ms.ms_hash ms.per_pid ms.name) rest ≡ false)
    × (any (has_id ms.id) rest ≡ false)
    × IsUnique rest

pub find_none : (p : Service → Bool) (l : List Service) → find_first p l ≡ none → any p l ≡ false
unfolding find_first
find_none p [] h = refl
find_none p (ms ∷ rest) h = elim (Bool-cases (p ms)) [
  | inl e ↦ cc (e, h)
  | inr e ↦ rw e (
      find_none p rest
        (ap (λ b. elim b [ true ↦ some ms | false ↦ find_first p rest ]) (sym e) ∙ h))
]

pub any-false :
    (p : Service → Bool) (l : List Service) → ((r : Service) → p r ≡ false) → any p l ≡ false
any-false p [] h = refl
any-false p (ms ∷ rest) h = rw (h ms) (any-false p rest h)

-- What changes neither the address, nor the table, nor the name, nor whether it is of a process.
pub record KeepsName (f : Service → Service) : Type 0 where
  pub address : (r : Service) → (f r).id ≡ r.id
  pub table : (r : Service) → (f r).ms_hash ≡ r.ms_hash
  pub local : (r : Service) → (f r).per_pid ≡ r.per_pid
  pub named : (r : Service) → (f r).name ≡ r.name

module _ (a : ℕ) (f : Service → Service) (keeps : KeepsName f) where
  abbrev pub updated : Service → Service
  updated ms = if ms.id == a then f ms else ms

  updated-KeepsName : KeepsName updated
  updated-KeepsName = record {
    address =
        λ r. elim (Bool-cases (r.id == a)) [ inl e ↦ rw e (keeps.address r) | inr e ↦ rw e refl ];
    table = λ r. elim (Bool-cases (r.id == a)) [ inl e ↦ rw e (keeps.table r) | inr e ↦ rw e refl ];
    local = λ r. elim (Bool-cases (r.id == a)) [ inl e ↦ rw e (keeps.local r) | inr e ↦ rw e refl ];
    named = λ r. elim (Bool-cases (r.id == a)) [ inl e ↦ rw e (keeps.named r) | inr e ↦ rw e refl ];
  }

  pub is_named-updated :
      (d : ℕ) (name : List ℕ) (r : Service) → is_named d name (updated r) ≡ is_named d name r
  unfolding is_named
  is_named-updated d name r =
      let k = updated-KeepsName in
      ap (λ x. in_table d x && not (updated r).per_pid && bytes_eq name (updated r).name)
        (k.table r)
      ∙ ap (λ x. in_table d r.ms_hash && not x && bytes_eq name (updated r).name) (k.local r)
      ∙ ap (λ x. in_table d r.ms_hash && not r.per_pid && bytes_eq name x) (k.named r)

  is_taken-updated :
      (t : Option ℕ) (pid_local : Bool) (name : List ℕ) (r : Service)
      → is_taken_by t pid_local name (updated r) ≡ is_taken_by t pid_local name r
  unfolding is_taken_by
  is_taken-updated none pid_local name r = refl
  is_taken-updated (some d) pid_local name r = ap (not pid_local &&◌) (is_named-updated d name r)

  any-updated :
      (p : Service → Bool) (l : List Service)
      → ((r : Service) → p (updated r) ≡ p r)
      → any p (map updated l) ≡ any p l
  any-updated p [] h = refl
  any-updated p (ms ∷ rest) h = rw (h ms) (ap (p ms ||◌) (any-updated p rest h))

  update-IsUnique : (l : List Service) → IsUnique l → IsUnique (map updated l)
  update-IsUnique [] h = tt
  update-IsUnique (ms ∷ rest) h =
      let k = updated-KeepsName in
      (
        any-updated (is_taken_by (updated ms).ms_hash (updated ms).per_pid (updated ms).name) rest
              (is_taken-updated (updated ms).ms_hash (updated ms).per_pid (updated ms).name)
            ∙ ap (λ x. any (is_taken_by x (updated ms).per_pid (updated ms).name) rest) (k.table ms)
            ∙ ap (λ x. any (is_taken_by ms.ms_hash x (updated ms).name) rest) (k.local ms)
            ∙ ap (λ x. any (is_taken_by ms.ms_hash ms.per_pid x) rest) (k.named ms)
            ∙ h.0,
        any-updated (has_id (updated ms).id) rest
              (λ r. ap (λ x. x == (updated ms).id) (k.address r))
            ∙ ap (λ x. any (has_id x) rest) (k.address ms)
            ∙ h.1,
        update-IsUnique rest h.2,
      )

-- What is looked for in vain, in the table where a new service goes, has a name that is free.
pub lookup_free :
    (env : Env) (services : List Service) (j : Client) (name : List ℕ) (target : Target)
    → jobmgr_lookup_service env services j name false target ≡ none
    → any (is_taken_by (table_of env j) (is_per_pid_target target) name) services ≡ false
unfolding jobmgr_lookup_service lookup_name is_taken_by
lookup_free env services j name target h = elim (Bool-cases j.dedicated_instance) [
  | inl e ↦ rw e (any-false (λ r. false) services (λ r. refl))
  | inr e ↦ rw e (free_of target h)
]
  where
    free_of :
        (target : Target)
        → jobmgr_lookup_service env services j name false target ≡ none
        → any (is_taken_by (some (where2look env j.mgr)) (is_per_pid_target target) name) services
          ≡ false
    free_of by_name e = find_none (is_named (where2look env j.mgr) name) services (result _ e)
      where
        result : (o : Option Service) → elim o [ some ms ↦ some ms | none ↦ none ] ≡ none → o ≡ none
        result none k = refl
        result (some ms) k = cc
    free_of (by_pid p) e = any-false _ services (λ r. refl)

-- What machservice_new gives, under a name that is free.
abbrev pub NewIsUnique : Option (Service × Space) → Type 0
NewIsUnique none = Unit {0}
NewIsUnique (some (ms, s)) = IsUnique s.services

pub new-IsUnique :
    (env : Env) (addr : ℕ) (fresh : Option ℕ) (j : Client) (name : List ℕ) (port : ℕ)
    (pid_local : Bool) (s : Space)
    → any (is_taken_by (table_of env j) pid_local name) s.services ≡ false
    → any (has_id addr) s.services ≡ false
    → IsUnique s.services
    → NewIsUnique (machservice_new env addr fresh j name port pid_local s)
unfolding machservice_new
new-IsUnique env addr fresh j name port pid_local s free unused h =
    elim (Bool-cases (port == port_dead)) [
      | inl e ↦ rw e tt
      | inr e ↦ elim (Bool-cases (port == port_null)) [
        | inl n ↦ rw (e, n) (made fresh)
        | inr n ↦ rw (e, n) (free, unused, h)
      ]
    ]
  where
    made :
        (fresh : Option ℕ)
        → NewIsUnique (machservice_new env addr fresh j name port_null pid_local s)
    made none = tt
    made (some p) = (free, unused, h)

pub activate-KeepsName : KeepsName (λ r. record r { is_active = true })
activate-KeepsName = record {
  address = λ r. refl;
  table = λ r. refl;
  local = λ r. refl;
  named = λ r. refl;
}

pub adopt-KeepsName : (j : Client) → KeepsName (adopt j)
adopt-KeepsName j = record {
  address = λ r. elim (Bool-cases j.legacy_mach_job) [ inl e ↦ rw e refl | inr e ↦ rw e refl ];
  table = λ r. elim (Bool-cases j.legacy_mach_job) [ inl e ↦ rw e refl | inr e ↦ rw e refl ];
  local = λ r. elim (Bool-cases j.legacy_mach_job) [ inl e ↦ rw e refl | inr e ↦ rw e refl ];
  named = λ r. elim (Bool-cases j.legacy_mach_job) [ inl e ↦ rw e refl | inr e ↦ rw e refl ];
}

pub notifications-IsUnique :
    (ms : Service) (s : Space)
    → IsUnique s.services
    → IsUnique (machservice_request_notifications ms s).services
unfolding machservice_request_notifications update_service
notifications-IsUnique ms s h =
    let active =
      update-IsUnique ms.id (λ r. record r { is_active = true }) activate-KeepsName s.services h in
    elim (Bool-cases ms.recv) [ inl e ↦ rw e active | inr e ↦ rw e active ]

check_in_new-IsUnique :
    (j : Client) (o : Option (Service × Space)) (s : Space)
    → NewIsUnique o
    → IsUnique s.services
    → IsUnique (check_in_new j o s).1.services
unfolding check_in_new checked_in update_service
check_in_new-IsUnique j none s n h = h
check_in_new-IsUnique j (some (ms, s')) s n h =
    notifications-IsUnique (adopt j ms) _
      (update-IsUnique ms.id (adopt j) (adopt-KeepsName j) s'.services n)

check_in_found-IsUnique :
    (env : Env) (addr : ℕ) (fresh : Option ℕ) (j : Client) (name : List ℕ) (strict : Bool)
    (target : Target) (s : Space) (o : Option Service)
    → (o ≡ none
        → j.dedicated_instance ≡ false
        → any (is_taken_by (table_of env j) (is_per_pid_target target) name) s.services ≡ false)
    → any (has_id addr) s.services ≡ false
    → IsUnique s.services
    → IsUnique (check_in_found env addr fresh j name strict target s o).1.services
unfolding check_in_found checked_in
check_in_found-IsUnique env addr fresh j name strict target s none free unused h =
    elim (Bool-cases strict) [
      | inl e ↦ rw e h
      | inr e ↦ elim (Bool-cases j.dedicated_instance) [
        | inl d ↦ rw (e, d) h
        | inr d ↦ elim (Bool-cases (env.register_denied name)) [
          | inl r ↦ rw (e, d, r) h
          | inr r ↦
              rw (e, d, r)
                (check_in_new-IsUnique j _ s
                  (new-IsUnique env addr fresh j name port_null (is_per_pid_target target) s
                    (free refl d) unused h)
                  h)
        ]
      ]
    ]
check_in_found-IsUnique env addr fresh j name strict target s (some ms) free unused h =
    elim (Bool-cases (ms.job == j.id)) [
      | inl e ↦ elim (Bool-cases ms.is_active) [
        | inl a ↦ rw (e, a) h
        | inr a ↦ rw (e, a) (notifications-IsUnique ms _ h)
      ]
      | inr e ↦ rw e h
    ]

pub check_in2-IsUnique :
    (env : Env) (addr : ℕ) (fresh : Option ℕ) (j : Client) (name : List ℕ) (strict : Bool)
    (target : Target) (s : Space)
    → any (has_id addr) s.services ≡ false
    → IsUnique s.services
    → IsUnique (job_mig_check_in2 env addr fresh j name strict target s).1.services
unfolding job_mig_check_in2 check_in_service
check_in2-IsUnique env addr fresh j name strict target s unused h =
    check_in_found-IsUnique env addr fresh j name strict target s
      (check_in_service env j name target s)
      (λ e d. lookup_free env s.services j name target (
        ap
          (λ b.
            if b
            then find_first (is_own j.id name) s.services
            else jobmgr_lookup_service env s.services j name false target)
          (sym d)
        ∙ e))
      unused h
