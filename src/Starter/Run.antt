-- ===== src/Starter/Run.antt =====
-- SystemStarter/StartupItems.c, SystemStarter/IPC.c and SystemStarter/SystemStarter.c: running an item, its
-- end, and the run loop.
use launchd.Base.{
  ℕ, suc, ◌+◌, ◌-◌, Bool, true, false, not, ◌&&◌, ◌||◌, Option, none, some, List, [], ◌∷◌, ◌++◌,
  any, length, ltb, leb, ◌==◌, if◌then◌else◌, bytes_eq, codes,
}
use launchd.Starter.Items.{
  Pid, failed, process, permissions, fork, return_non_zero, Item, Action, stop, nothing,
  contains_name, remove_item, update_item, count_services, Status, add_value, set_value,
}
use launchd.Starter.Dependents.{create_dependents_list}
use launchd.Starter.Next.{get_next}

unfoldable pub set_all : (Status → List ℕ → Bool → Status) → Status → List (List ℕ) → Bool → Status
set_all action status [] success = status
set_all action status (n ∷ ns) success = set_all action (action status n success) ns success

-- The services whose status is set: the one that is named, if the item provides it, or all.
abbrev pub services_of : Option (List ℕ) → List (List ℕ) → List (List ℕ)
services_of none names = names
services_of (some name) names = if contains_name names name then name ∷ [] else names

unfoldable pub set_status : Status → Item → Option (List ℕ) → Bool → Bool → Status
unfolding add_value set_value set_all
set_status status x name success replace = elim x.provides [
  | none ↦ status
  | some names ↦
      set_all (if replace then set_value else add_value) status (services_of name names) success
]

unfoldable pub item_exit : Status → Item → Bool → Status
unfolding set_status
item_exit status x success = set_status status x none success false

-- The items that StartupItemRun does not stop.
abbrev pub stub_items : List (List ℕ)
stub_items =
    codes "BootROMUpdater"
    ∷ codes "FCUUpdater"
    ∷ codes "AutoProtect Daemon"
    ∷ codes "Check For Missed Tasks"
    ∷ codes "Privacy"
    ∷ codes "Firmware Update Checking"
    ∷ codes "M-Audio FireWire Audio Support"
    ∷ codes "help for M-Audio Delta Family"
    ∷ codes "help for M-Audio Devices"
    ∷ codes "help for M-Audio Revo 5.1"
    ∷ codes "M-Audio USB Duo Configuration Service"
    ∷ codes "firmware loader for M-Audio devices"
    ∷ codes "M-Audio MobilePre USB Configuration Service"
    ∷ codes "M-Audio OmniStudio USB Configuration Service"
    ∷ codes "M-Audio Transit USB Configuration Service"
    ∷ codes "M-Audio Audiophile USB Configuration Service"
    ∷ []

unfoldable pub is_stub : Item → Bool
is_stub x = elim x.provides [ none ↦ false | some names ↦ any (contains_name names) stub_items ]

abbrev pub is_stop : Action → Bool
is_stop stop = true
is_stop _ = false

abbrev pub is_nothing : Action → Bool
is_nothing nothing = true
is_nothing _ = false

-- What waitpid(2) tells of a process; code zero where it could not be called.
pub data Wait : Type 0 where
  exited : ℕ → Wait
  signaled : ℕ → Bool → Wait

-- What the system answers in a round: whether access(2) finds the executable, the process of fork(2), as
-- its number less one, whether the process can be watched, the item whose process has ended, and how.
pub record Answers : Type 0 where
  pub accessible : Bool
  pub forked : Option ℕ
  pub watched : Bool
  pub ended : Option (List ℕ)
  pub wait : Wait

-- PATH_MAX
abbrev pub path_max : ℕ
path_max = 1024

-- What StartupItemRun leaves: the item, the statuses, and whether it returns an error.
pub record Ran : Type 0 where
  pub item : Item
  pub status : Status
  pub error : Bool

unfoldable pub run_bundle : Answers → Status → Item → Ran
unfolding item_exit
run_bundle a status x =
    if leb path_max (length x.path)
    then record { item = x; status = status; error = true }
    else if not a.accessible
    then record {
      item = record x { pid = some failed; error = some permissions };
      status = item_exit status x false;
      error = true;
    }
    else elim a.forked [
      | none ↦ record {
        item = record x { error = some fork };
        status = item_exit status x false;
        error = true;
      }
      | some n ↦ record {
        item = record x { pid = some (process (suc n)) };
        status = status;
        error = false;
      }
    ]

unfoldable pub run_item : Answers → Status → Item → Action → Ran
unfolding is_stub run_bundle
run_item a status x action =
    if is_stop action && is_stub x
    then record {
      item = record x { pid = some failed };
      status = item_exit status x true;
      error = true;
    }
    else if is_nothing action
    then record { item = x; status = item_exit status x true; error = false }
    else run_bundle a status x

-- struct StartupContextStorage; a failed list that is not there is empty.
pub record Context : Type 0 where
  pub waiting : List Item
  pub failed_items : List Item
  pub status : Status
  pub services : ℕ
  pub running : ℕ

abbrev pub add_to_failed : Context → Item → Context
add_to_failed c x = record c { failed_items = c.failed_items ++ (x ∷ []) }

abbrev pub remove_from_waiting : Context → Item → Context
remove_from_waiting c x = record c { waiting = remove_item c.waiting x }

abbrev pub is_success : Wait → Bool
is_success (exited code) = code == 0
is_success (signaled n core) = false

-- WEXITSTATUS, WTERMSIG or WCOREDUMP.
abbrev pub is_failure : Wait → Bool
is_failure (exited code) = not (code == 0)
is_failure (signaled n core) = not (n == 0) || core

abbrev pub note_failure : Context → Item → Context
note_failure c x =
    add_to_failed
      (record c {
        waiting = update_item c.waiting x (λ y. record y { error = some return_non_zero });
      })
      (record x { error = some return_non_zero })

-- startupItemTerminated.
unfoldable pub item_terminated : Context → Item → Wait → Context
unfolding item_exit
item_terminated c x wait =
    let recorded : Context = record c {
      running = c.running - 1;
      status = item_exit c.status x (is_success wait);
    } in
    remove_from_waiting (if is_failure wait then note_failure recorded x else recorded) x

abbrev pub is_positive : Option Pid → Bool
is_positive (some (process p)) = ltb 0 p
is_positive _ = false

-- MonitorStartupItem: the end of a process that can not be watched is told at once.
unfoldable pub monitor_item : Answers → Context → Item → Context
unfolding item_terminated
monitor_item a c x = if is_positive x.pid && not a.watched then item_terminated c x a.wait else c

-- The run loop on an item that StartupItemListGetNext gives.
unfoldable pub launch : Answers → Context → Item → Action → Context
unfolding run_item monitor_item
launch a c x action =
    let r : Ran = run_item a c.status x action in
    let after : Context = record c {
      waiting = update_item c.waiting x (λ _. r.item);
      status = r.status;
    } in
    if r.error
    then remove_from_waiting (add_to_failed after (r.item)) (r.item)
    else monitor_item a (record after { running = after.running + 1 }) (r.item)

-- The item whose process ends, among those that are watched.
unfoldable pub find_running : List Item → List ℕ → Option Item
find_running [] path = none
find_running (x ∷ xs) path =
    if bytes_eq path x.path && is_positive x.pid then some x else find_running xs path

unfoldable pub handle_source : Answers → Context → Context
unfolding find_running item_terminated
handle_source a c = elim a.ended [
  | none ↦ c
  | some path ↦ elim (find_running c.waiting path) [
    | none ↦ c
    | some x ↦ item_terminated c x a.wait
  ]
]

-- One round of the loop; none where it is left.
unfoldable pub loop_round : Action → Answers → Context → Option Context
unfolding launch handle_source get_next
loop_round action a c = elim (get_next c.waiting c.status action) [
  | some x ↦ some (launch a c x action)
  | none ↦ if c.running == 0 then none else some (handle_source a c)
]

-- What system_starter starts with, from the items of the directories; none for an unknown service, and
-- for a service whose dependents are not found.
abbrev pub context_of : List Item → Context
context_of items = record {
  waiting = items;
  failed_items = [];
  status = [];
  services = count_services items;
  running = 0;
}

unfoldable pub first_context : List Item → Option (List ℕ) → Action → Option Context
unfolding create_dependents_list count_services
first_context items none action = some (context_of items)
first_context items (some service) action = elim (create_dependents_list items service action) [
  | none ↦ none
  | some r ↦ elim r [ none ↦ none | some deps ↦ some (context_of deps) ]
]
