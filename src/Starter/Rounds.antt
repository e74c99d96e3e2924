-- ===== src/Starter/Rounds.antt =====
-- SystemStarter/SystemStarter.c: what a round of the run loop changes in the waiting list and the count of
-- running items.
use launchd.Base.{
  ℕ, suc, ◌+◌, ◌-◌, ◌≡◌, refl, ap, ap₂, sym, subst, ◌∙◌, inl, inr, Bool, true, false, ◌&&◌, Option,
  none, some, List, [], ◌∷◌, ◌++◌, length, arith, some_same, Bool-cases, if◌then◌else◌, bytes_eq,
  bytes_eq→eq, leb, ◌==◌,
}
use mathlib.Core.List.{Memᴰ}
use mathlib.Core.List.Memᴰ.{head, tail}
use launchd.Starter.Items.{
  Item, Action, Status, start, stop, restart, nothing, same_item, remove_item, update_item, Pid,
  process, fork, return_non_zero,
}
use launchd.Starter.Next.{get_next, has_value}
use launchd.Starter.Run.{
  Ran, Answers, Wait, Context, run_bundle, run_item, is_stop, is_stub, is_nothing, path_max,
  item_exit, is_positive, is_failure, item_terminated, monitor_item, launch, handle_source,
  find_running, loop_round,
}
use launchd.Starter.Sums.{Fresh, get_next-Fresh}

-- What StartupItemRun gives for an item: an error, or a process.
pub data IsRan (x : Item) : Ran → Type 0 where
  refused :
      (item : Item) (status : Status)
      → item.path ≡ x.path
      → IsRan x (record { item = item; status = status; error = true })
  begun :
      (item : Item) (status : Status)
      → item.path ≡ x.path
      → is_positive item.pid ≡ true
      → IsRan x (record { item = item; status = status; error = false })

run_bundle-IsRan : (a : Answers) (status : Status) (x : Item) → IsRan x (run_bundle a status x)
unfolding run_bundle
run_bundle-IsRan a status x = elim (Bool-cases (leb path_max (length x.path))) [
  | inl h ↦ rw (run_bundle, h) (refused _ _ refl)
  | inr h ↦ elim (Bool-cases (a.accessible)) [
    | inl k ↦ rw (run_bundle, h, k) (forks (a.forked))
    | inr k ↦ rw (run_bundle, h, k) (refused _ _ refl)
  ]
]
  where
    forks :
        (o : Option ℕ)
        → IsRan x (elim o [
          | none ↦ record {
            item = record x { error = some fork };
            status = item_exit status x false;
            error = true;
          }
          | some n ↦ record {
            item = record x { pid = some (process (suc n)) };
            status = status;
            error = false;
          }
        ])
    forks none = refused _ _ refl
    forks (some n) = begun (record x { pid = some (process (suc n)) }) status refl (ground arith)

run_item-IsRan :
    (a : Answers) (status : Status) (x : Item) (action : Action)
    → is_nothing action ≡ false
    → IsRan x (run_item a status x action)
unfolding run_item
run_item-IsRan a status x action n = elim (Bool-cases (is_stop action && is_stub x)) [
  | inl h ↦ rw (run_item, h) (refused _ _ refl)
  | inr h ↦ rw (run_item, h, n) (run_bundle-IsRan a status x)
]

remove_item_path :
    (xs : List Item) (x y : Item) → y.path ≡ x.path → remove_item xs y ≡ remove_item xs x
unfolding remove_item
remove_item_path [] x y e = refl
remove_item_path (z ∷ xs) x y e =
    ap₂ (λ b r. if b then xs else z ∷ r) (ap (λ p. bytes_eq p z.path) e) (remove_item_path xs x y e)

remove_item-update_item :
    (xs : List Item) (x : Item) (g : Item → Item)
    → ((y : Item) → same_item x y ≡ true → (g y).path ≡ y.path)
    → remove_item (update_item xs x g) x ≡ remove_item xs x
unfolding remove_item update_item
remove_item-update_item [] x g k = refl
remove_item-update_item (y ∷ ys) x g k = elim (Bool-cases (same_item x y)) [
  | inl h ↦ rw (h, k y h, h) refl
  | inr h ↦ rw (h, h, remove_item-update_item ys x g k) refl
]

-- How the waiting list and the count change.
pub data Moves : Context → Context → Type 0 where
  started :
      (c c' : Context) (x item : Item)
      → Fresh (c.waiting) x
      → item.path ≡ x.path
      → is_positive item.pid ≡ true
      → c'.waiting ≡ update_item c.waiting x (λ _. item)
      → c'.running ≡ c.running + 1
      → Moves c c'
  dropped :
      (c c' : Context) (x : Item)
      → Fresh (c.waiting) x
      → c'.waiting ≡ remove_item c.waiting x
      → c'.running ≡ c.running
      → Moves c c'
  ended :
      (c c' : Context) (x : Item)
      → Memᴰ x (c.waiting)
      → has_value x.pid ≡ true
      → c'.waiting ≡ remove_item c.waiting x
      → c'.running ≡ c.running - 1
      → Moves c c'

pub data Change : Context → Context → Type 0 where
  idle : (c : Context) → Change c c
  moved : (c c' : Context) → Moves c c' → Change c c'

terminated_waiting :
    (c : Context) (x : Item) (w : Wait) → (item_terminated c x w).waiting ≡ remove_item c.waiting x
unfolding item_terminated
terminated_waiting c x w = elim (Bool-cases (is_failure w)) [
  | inl h ↦ rw h (
      remove_item-update_item (c.waiting) x (λ y. record y { error = some return_non_zero })
        (λ y _. refl))
  | inr h ↦ rw h refl
]

terminated_running :
    (c : Context) (x : Item) (w : Wait) → (item_terminated c x w).running ≡ c.running - 1
unfolding item_terminated
terminated_running c x w = elim (Bool-cases (is_failure w)) [
  | inl h ↦ rw h refl
  | inr h ↦ rw h refl
]

not_nothing :
    (waiting : List Item) (status : Status) (action : Action) (x : Item)
    → get_next waiting status action ≡ some x
    → is_nothing action ≡ false
unfolding get_next
not_nothing waiting status start x e = refl
not_nothing waiting status stop x e = refl
not_nothing waiting status restart x e = refl
not_nothing waiting status nothing x e = cc

launch-Moves :
    (a : Answers) (c : Context) (x : Item) (action : Action)
    → is_nothing action ≡ false
    → Fresh (c.waiting) x
    → Moves c (launch a c x action)
unfolding launch
launch-Moves a c x action n fresh =
    ran (run_item a (c.status) x action) (run_item-IsRan a (c.status) x action n)
  where
    replaced :
        (item : Item)
        → item.path ≡ x.path
        → remove_item (update_item c.waiting x (λ _. item)) item ≡ remove_item c.waiting x
    replaced item e =
        remove_item_path _ x item e
        ∙ remove_item-update_item c.waiting x (λ _. item) (λ y h. e ∙ bytes_eq→eq x.path y.path h)

    after : Ran → Context
    after r = record c { waiting = update_item c.waiting x (λ _. r.item); status = r.status }

    counted : Ran → Context
    counted r = record (after r) { running = c.running + 1 }

    ran :
        (r : Ran)
        → IsRan x r
        → Moves c (
            if r.error
            then record (after r) {
              failed_items = c.failed_items ++ (r.item ∷ []);
              waiting = remove_item (update_item c.waiting x (λ _. r.item)) (r.item);
            }
            else monitor_item a (counted r) (r.item))
    ran _ (refused item status e) = dropped c _ x fresh (replaced item e) refl
    ran _ (begun item status e p) = elim (Bool-cases (a.watched)) [
      | inl h ↦ rw (monitor_item, p, h) (started c _ x item fresh e p refl refl)
      | inr h ↦
          let now : Context = record c {
            waiting = update_item c.waiting x (λ _. item);
            status = status;
            running = c.running + 1;
          } in
          rw (monitor_item, p, h)
            (dropped c _ x fresh (terminated_waiting now item (a.wait) ∙ replaced item e)
              (terminated_running now item (a.wait) ∙ omega arith))
    ]

pub next-Moves :
    (a : Answers) (c : Context) (x : Item) (action : Action)
    → get_next c.waiting c.status action ≡ some x
    → Moves c (launch a c x action)
next-Moves a c x action g =
    launch-Moves a c x action (not_nothing c.waiting c.status action x g)
      (get_next-Fresh c.waiting c.status action x g)

record Running (xs : List Item) (x : Item) : Type 0 where
  member : Memᴰ x xs
  set : has_value x.pid ≡ true

pub positive_set : (o : Option Pid) → is_positive o ≡ true → has_value o ≡ true
positive_set none h = cc
positive_set (some p) h = refl

find_running-Running :
    (xs : List Item) (path : List ℕ) (x : Item) → find_running xs path ≡ some x → Running xs x
unfolding find_running
find_running-Running [] path x e = cc
find_running-Running (y ∷ ys) path x e =
    elim (Bool-cases (bytes_eq path y.path && is_positive y.pid)) [
      | inl h ↦
          let same : y ≡ x = some_same y x (sym (rw (find_running, h) refl) ∙ e) in
          record {
            member = head (sym same);
            set =
                subst (λ z. has_value z.pid ≡ true) same (positive_set (y.pid) (ground (arith, h)));
          }
      | inr h ↦
          let rest = find_running-Running ys path x (sym (rw (find_running, h) refl) ∙ e) in
          record { member = tail (rest.member); set = rest.set }
    ]

ended_Moves :
    (a : Answers) (c : Context) (x : Item)
    → Running (c.waiting) x
    → Moves c (item_terminated c x (a.wait))
ended_Moves a c x r =
    ended c _ x (r.member) (r.set) (terminated_waiting c x (a.wait))
      (terminated_running c x (a.wait))

-- The item whose end is told is one that runs.
unfoldable pub tells_end : Answers → Context → Bool
unfolding find_running
tells_end a c = elim a.ended [
  | none ↦ false
  | some path ↦ elim (find_running c.waiting path) [ none ↦ false | some x ↦ true ]
]

pub handle_source-Moves :
    (a : Answers) (c : Context) → tells_end a c ≡ true → Moves c (handle_source a c)
unfolding handle_source tells_end
handle_source-Moves a c = source (a.ended)
  where
    found :
        (o : Option Item)
        → ((x : Item) → o ≡ some x → Running (c.waiting) x)
        → elim o [ none ↦ false | some x ↦ true ] ≡ true
        → Moves c (elim o [ none ↦ c | some x ↦ item_terminated c x (a.wait) ])
    found none k h = cc
    found (some x) k h = ended_Moves a c x (k x refl)

    source :
        (o : Option (List ℕ))
        → elim o [
          | none ↦ false
          | some path ↦ elim (find_running c.waiting path) [ none ↦ false | some x ↦ true ]
        ]
          ≡ true
        → Moves c (elim o [
          | none ↦ c
          | some path ↦ elim (find_running c.waiting path) [
            | none ↦ c
            | some x ↦ item_terminated c x (a.wait)
          ]
        ])
    source none h = cc
    source (some path) h =
        found (find_running c.waiting path) (λ x e. find_running-Running c.waiting path x e) h

handle_source-Change : (a : Answers) (c : Context) → Change c (handle_source a c)
unfolding handle_source
handle_source-Change a c = source (a.ended)
  where
    found :
        (o : Option Item)
        → ((x : Item) → o ≡ some x → Running (c.waiting) x)
        → Change c (elim o [ none ↦ c | some x ↦ item_terminated c x (a.wait) ])
    found none k = idle c
    found (some x) k = moved c _ (ended_Moves a c x (k x refl))

    source :
        (o : Option (List ℕ))
        → Change c (elim o [
          | none ↦ c
          | some path ↦ elim (find_running c.waiting path) [
            | none ↦ c
            | some x ↦ item_terminated c x (a.wait)
          ]
        ])
    source none = idle c
    source (some path) =
        found (find_running c.waiting path) (λ x e. find_running-Running c.waiting path x e)

pub loop_round-Change :
    (action : Action) (a : Answers) (c c' : Context) → loop_round action a c ≡ some c' → Change c c'
unfolding loop_round
loop_round-Change action a c c' e = next (get_next c.waiting c.status action) refl e
  where
    next :
        (o : Option Item)
        → get_next c.waiting c.status action ≡ o
        → elim o [
          | some x ↦ some (launch a c x action)
          | none ↦ if c.running == 0 then none else some (handle_source a c)
        ]
          ≡ some c'
        → Change c c'
    next none g e' = elim (Bool-cases (c.running == 0)) [
      | inl h ↦ cc (h, e')
      | inr h ↦
          subst (Change c) (some_same (handle_source a c) c' (sym (rw h refl) ∙ e'))
            (handle_source-Change a c)
    ]
    next (some x) g e' =
        subst (Change c) (some_same (launch a c x action) c' e')
          (moved c _ (next-Moves a c x action g))
