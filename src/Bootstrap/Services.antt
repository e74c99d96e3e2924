-- ===== src/Bootstrap/Services.antt =====
-- src/core.c: the lists of Mach services, jobmgr_lookup_service, machservice_new, machservice_delete.
use launchd.Base.{
  ℕ, Bool, true, false, not, ◌&&◌, Option, none, some, List, [], ◌∷◌, map, take, ◌==◌,
  if◌then◌else◌, bytes_eq,
}
use launchd.Bootstrap.Types.{
  Service, Domain, Client, Env, Space, Target, by_name, by_pid, PortCall, create_recv, make_send,
  stamp, close_recv, deallocate, notify_dead_name, notify_port_destroyed,
}

abbrev pub port_null : ℕ
port_null = 0

abbrev pub port_dead : ℕ
port_dead = 4294967295

unfoldable pub find_first : (Service → Bool) → List Service → Option Service
find_first p [] = none
find_first p (ms ∷ rest) = elim (p ms) [ true ↦ some ms | false ↦ find_first p rest ]

abbrev pub in_table : ℕ → Option ℕ → Bool
in_table d none = false
in_table d (some x) = x == d

-- The test of the loop over a chain of ms_hash.
unfoldable pub is_named : ℕ → List ℕ → Service → Bool
is_named d name ms = in_table d ms.ms_hash && not ms.per_pid && bytes_eq name ms.name

-- The test of the loop over the services of the job with the process.
unfoldable pub is_per_pid : ℕ → List ℕ → Service → Bool
is_per_pid j name ms = (ms.job == j) && ms.per_pid && bytes_eq name ms.name

-- strncmp(3) with the length of a name_t less one, over the services of an instance of a job.
unfoldable pub is_own : ℕ → List ℕ → Service → Bool
is_own j name ms = (ms.job == j) && bytes_eq (take 127 name) (take 127 ms.name)

-- The manager whose table is used: Mach services of managers that are neither XPC domains nor explicit
-- subsets are in the root's, where the namespace is flat.
unfoldable pub where2look : Env → Domain → ℕ
where2look env jm =
    if not jm.xpc_domain && env.flat_mach_namespace && not jm.explicit_subset
    then env.root_jobmgr
    else jm.id

unfoldable pub lookup_name :
    Env → List Service → List ℕ → Domain → List Domain → Bool → Option Service
unfolding find_first where2look
lookup_name env services name jm parents check_parent =
    elim (find_first (is_named (where2look env jm) name) services) [
      | some ms ↦ some ms
      | none ↦ elim check_parent [ true ↦ lookup_parents parents | false ↦ none ]
    ]
  where
    lookup_parents : List Domain → Option Service
    lookup_parents [] = none
    lookup_parents (p ∷ ps) = elim (find_first (is_named (where2look env p) name) services) [
      | some ms ↦ some ms
      | none ↦ lookup_parents ps
    ]

unfoldable pub jobmgr_lookup_service :
    Env → List Service → Client → List ℕ → Bool → Target → Option Service
unfolding lookup_name find_first
jobmgr_lookup_service env services j name check_parent by_name =
    lookup_name env services name j.mgr j.parents check_parent
jobmgr_lookup_service env services j name check_parent (by_pid none) = none
jobmgr_lookup_service env services j name check_parent (by_pid (some target)) =
    find_first (is_per_pid target name) services

abbrev pub call : PortCall → Space → Space
call c s = record s { calls = c ∷ s.calls }

-- The new service with its address, and the space with it; `fresh` is the receive right that the
-- kernel makes, if it does.
abbrev pub add_service : Service → Space → Service × Space
add_service ms s = (ms, record s { services = ms ∷ s.services })

abbrev pub table_of : Env → Client → Option ℕ
table_of env j = if j.dedicated_instance then none else some (where2look env j.mgr)

abbrev pub new_service : ℕ → Client → List ℕ → Option ℕ → ℕ → Bool → Bool → Service
new_service addr j name table port received pid_local = record {
  id = addr;
  name = name;
  job = j.id;
  ms_hash = table;
  alias = none;
  port = port;
  gen_num = 1;
  is_active = not received;
  recv = received;
  hide = false;
  per_user_hack = false;
  per_pid = pid_local;
  event_channel = false;
}

unfoldable pub machservice_new :
    Env → ℕ → Option ℕ → Client → List ℕ → ℕ → Bool → Space → Option (Service × Space)
unfolding where2look
machservice_new env addr fresh j name serviceport pid_local s =
    if serviceport == port_dead
    then none
    else if serviceport == port_null
    then elim fresh [
      | none ↦ none
      | some p ↦ some (
          add_service (new_service addr j name (table_of env j) p true pid_local)
            (call (stamp p) (call (make_send p) (call (create_recv p) s))))
    ]
    else some (add_service (new_service addr j name (table_of env j) serviceport false pid_local) s)

unfoldable pub update_service : ℕ → (Service → Service) → Space → Space
update_service a f s = record s {
  services = map (λ ms. if ms.id == a then f ms else ms) s.services;
}

unfoldable pub remove_service : ℕ → List Service → List Service
remove_service a [] = []
remove_service a (ms ∷ rest) = if ms.id == a then rest else ms ∷ remove_service a rest

abbrev pub unlink_service : Service → Space → Space
unlink_service ms s = record s { services = remove_service ms.id s.services }

-- An alias has no port. A receive right is closed, unless the service is still active.
unfoldable pub machservice_delete : Service → Space → Space
unfolding remove_service
machservice_delete ms s = elim ms.alias [
  | some orig ↦ unlink_service ms s
  | none ↦
      let closed = if ms.recv && not ms.is_active then call (close_recv ms.port) s else s in
      let freed = call (deallocate ms.port) closed in
      unlink_service ms
        (if ms.port == freed.exception_server then record freed { exception_server = 0 } else freed)
]

abbrev pub job_checkin : ℕ → Space → Space
job_checkin j s = record s { checkedin = j ∷ s.checkedin }

unfoldable pub machservice_request_notifications : Service → Space → Space
unfolding update_service
machservice_request_notifications ms s =
    let active = update_service ms.id (λ x. record x { is_active = true }) s in
    if ms.recv
    then call (notify_port_destroyed ms.port) (job_checkin ms.job active)
    else call (notify_dead_name ms.port) active
