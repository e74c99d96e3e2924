-- ===== src/Examples/Starter.antt =====
-- The theorems on SystemStarter at four startup items.
use launchd.Base.{
  ℕ, ◌≡◌, refl, inl, inr, Bool, true, false, ◌&&◌, Option, none, some, List, [], ◌∷◌, all, any,
  arith, codes, ◌==◌, if◌then◌else◌, bytes_eq, bytes_eq_refl, Bool-cases,
}
use launchd.Starter.Items.{
  Item, start, stop, Status, get_status, get_provider, process, update_item, remove_item,
}
use launchd.Starter.Next.{
  get_next, next_from, judge, check_for_duplicates, hard_count, is_pending, soft_count, int_max,
  has_value, succeeded,
}
use launchd.Starter.Chosen.{may_run, IsPick, get_next-IsPick}
use launchd.Starter.Ready.{names_in, get_next-ready}
use launchd.Starter.Dependents.{dependents_of, append_dependents, create_dependents_list}
use launchd.Starter.Reached.{IsAnswer, create_dependents_list-IsAnswer}
use launchd.Starter.Run.{
  Answers, find_running, Context, context_of, exited, is_positive, loop_round,
}
use launchd.Starter.Sums.{sum_of, is_distinct}
use launchd.Starter.Rounds.{tells_end}
use launchd.Starter.Ends.{
  WellRun, count_run, count_lost, work_left, IsLeft, run_loop, loop_round-WellRun, run_loop-IsLeft,
}
use launchd.Starter.Kept.{run_loop-get_status}

abbrev item : List ℕ → List (List ℕ) → List (List ℕ) → Item
item name requires uses = record {
  path = name;
  provides = some (name ∷ []);
  requires = some requires;
  uses = some uses;
  pid = none;
  domain = none;
  error = none;
}

abbrev web : Item
web = item (codes "web") (codes "net" ∷ []) (codes "log" ∷ [])

abbrev net : Item
net = item (codes "net") [] []

abbrev logger : Item
logger = item (codes "log") (codes "net" ∷ []) []

abbrev printer : Item
printer = item (codes "lp") [] []

abbrev items : List Item
items = web ∷ net ∷ logger ∷ printer ∷ []

get_next-IsPick_example :
    IsPick
      (may_run items [] start)
      (soft_count items [] start)
      int_max
      items
      (get_next items [] start)
get_next-IsPick_example = get_next-IsPick items [] start (inl refl)

abbrev net_runs : Status
net_runs = (codes "net", true) ∷ []

net_known : get_status net_runs (codes "net") ≡ some true
unfolding get_status
net_known = refl

log_is_next : get_next (web ∷ logger ∷ []) net_runs start ≡ some logger
unfolding get_next next_from judge check_for_duplicates hard_count soft_count is_pending
log_is_next = refl

get_next-ready_example :
    (has_value logger.pid ≡ false)
    × (all (λ n. succeeded (get_status net_runs n)) (names_in logger.requires) ≡ true)
    × (any (λ n. succeeded (get_status net_runs n)) (names_in logger.provides) ≡ false)
get_next-ready_example = get_next-ready (web ∷ logger ∷ []) net_runs logger log_is_next

-- What the web server needs, and the items that are stopped with the network.
needed_by_web : create_dependents_list items (codes "web") start ≡ some (some (web ∷ net ∷ []))
unfolding create_dependents_list get_provider dependents_of append_dependents
needed_by_web = refl

stopped_with_net :
    create_dependents_list items (codes "net") stop ≡ some (some (net ∷ web ∷ logger ∷ []))
unfolding create_dependents_list get_provider dependents_of append_dependents
stopped_with_net = refl

create_dependents_list-IsAnswer_example :
    IsAnswer items (codes "web") start (create_dependents_list items (codes "web") start)
create_dependents_list-IsAnswer_example = create_dependents_list-IsAnswer items (codes "web") start

-- The path of the first item that runs.
unfoldable first_path : List Item → Option (List ℕ)
first_path [] = none
first_path (x ∷ xs) = if is_positive x.pid then some x.path else first_path xs

-- A system on which all succeeds, and that tells of the first process that it ends.
abbrev prompt : Context → Answers
prompt c = record {
  accessible = true;
  forked = some 41;
  watched = true;
  ended = first_path c.waiting;
  wait = exited 0;
}

abbrev begin : Context
begin = context_of items

begin-WellRun : WellRun begin
unfolding is_distinct sum_of
begin-WellRun = record { distinct = refl; processes = refl; counted = refl }

abbrev next : Context
next = record begin {
  waiting = web ∷ record net { pid = some (process 42) } ∷ logger ∷ printer ∷ [];
  running = 1;
}

next_round : loop_round start (prompt begin) begin ≡ some next
unfolding loop_round update_item
next_round = refl

loop_round-WellRun_example : WellRun next
loop_round-WellRun_example =
    loop_round-WellRun start (prompt begin) begin next begin-WellRun next_round

-- It does tell of a process while there is one.
told : List Item → Option (List ℕ) → Bool
told xs none = false
told xs (some path) = elim (find_running xs path) [ none ↦ false | some x ↦ true ]

told_later :
    (x : Item) (xs : List Item) (o : Option (List ℕ))
    → is_positive x.pid ≡ false
    → told xs o ≡ true
    → told (x ∷ xs) o ≡ true
unfolding told find_running
told_later x xs none k h = h
told_later x xs (some path) k h = elim (Bool-cases (bytes_eq path x.path && is_positive x.pid)) [
  | inl e ↦ absurd (ground (arith, e, k))
  | inr e ↦ rw (told, e) h
]

first_told :
    (xs : List Item)
    → sum_of count_lost xs ≡ 0
    → (sum_of count_run xs == 0) ≡ false
    → told xs (first_path xs) ≡ true
unfolding sum_of first_path told find_running
first_told [] l h = cc
first_told (x ∷ xs) l h = elim (Bool-cases (is_positive x.pid)) [
  | inl k ↦ rw (k, told, bytes_eq_refl x.path, k) refl
  | inr k ↦ rw k (
      told_later x xs (first_path xs) k
        (first_told xs (ground (arith, l, k)) (ground (arith, l, k, h))))
]

prompt_fair : (b : Context) → (b.running == 0) ≡ false → WellRun b → tells_end (prompt b) b ≡ true
unfolding tells_end told
prompt_fair b h inv =
    same (first_path b.waiting) (first_told b.waiting (inv.processes) (rw⁻¹ (inv.counted) h))
  where
    same :
        (o : Option (List ℕ))
        → told b.waiting o ≡ true
        → elim o [
          | none ↦ false
          | some path ↦ elim (find_running b.waiting path) [ none ↦ false | some x ↦ true ]
        ]
          ≡ true
    same none h = h
    same (some path) h = h

run_loop-IsLeft_example : IsLeft start (run_loop 9 start prompt begin)
unfolding work_left sum_of
run_loop-IsLeft_example =
    run_loop-IsLeft start prompt 9 begin prompt_fair begin-WellRun (omega arith)

abbrev with_net : Context
with_net = record (context_of (web ∷ logger ∷ [])) { status = net_runs }

abbrev over : Context
over = record with_net {
  waiting = [];
  status = (codes "web", true) ∷ (codes "log", true) ∷ net_runs;
}

all_run : run_loop 9 start prompt with_net ≡ some over
unfolding run_loop loop_round update_item first_path remove_item
all_run = refl

run_loop-get_status_example : get_status over.status (codes "net") ≡ some true
run_loop-get_status_example =
    run_loop-get_status start prompt 9 with_net over (codes "net") true all_run net_known
