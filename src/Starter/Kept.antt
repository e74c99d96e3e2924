-- ===== src/Starter/Kept.antt =====
-- SystemStarter/StartupItems.c: the status of a service is set once.
use launchd.Base.{
  ℕ, zero, suc, ◌+◌, ◌≡◌, refl, ap, sym, subst, ◌∙◌, inl, inr, Bool, true, false, not, ◌&&◌, Option,
  none, some, List, [], ◌∷◌, some_same, Bool-cases, if◌then◌else◌, bytes_eq, bytes_eq→eq, ◌==◌, leb,
  length,
}
use launchd.Starter.Items.{Item, fork, process, Action, Status, get_status, add_value, update_item}
use launchd.Starter.Next.{get_next}
use launchd.Starter.Run.{
  Ran, Answers, Wait, Context, set_all, set_status, item_exit, is_stop, is_stub, is_nothing,
  path_max, run_bundle, run_item, is_success, is_failure, item_terminated, is_positive,
  add_to_failed, remove_from_waiting, monitor_item, launch, handle_source, find_running, loop_round,
}
use launchd.Starter.Ends.{run_loop}

abbrev Kept : Status → Status → Type 0
Kept old new = (n : List ℕ) (b : Bool) → get_status old n ≡ some b → get_status new n ≡ some b

Kept-refl : (s : Status) → Kept s s
Kept-refl s n b h = h

add_value-Kept : (s : Status) (m : List ℕ) (v : Bool) → Kept s (add_value s m v)
unfolding add_value get_status
add_value-Kept s m v n b h = added (get_status s m) refl
  where
    added :
        (o : Option Bool)
        → get_status s m ≡ o
        → get_status (elim o [ none ↦ (m, v) ∷ s | some old ↦ s ]) n ≡ some b
    added (some old) e = h
    added none e = elim (Bool-cases (bytes_eq n m)) [
      | inl k ↦ cc (sym h ∙ ap (get_status s) (bytes_eq→eq n m k) ∙ e)
      | inr k ↦ rw k h
    ]

set_all-Kept :
    (s : Status) (names : List (List ℕ)) (v : Bool) → Kept s (set_all add_value s names v)
unfolding set_all
set_all-Kept s [] v n b h = h
set_all-Kept s (m ∷ ms) v n b h =
    set_all-Kept (add_value s m v) ms v n b (add_value-Kept s m v n b h)

item_exit-Kept : (s : Status) (x : Item) (v : Bool) → Kept s (item_exit s x v)
unfolding item_exit set_status
item_exit-Kept s x v = provided (x.provides)
  where
    provided :
        (o : Option (List (List ℕ)))
        → Kept s (elim o [ none ↦ s | some names ↦ set_all add_value s names v ])
    provided none = Kept-refl s
    provided (some names) = set_all-Kept s names v

run_bundle-Kept : (a : Answers) (s : Status) (x : Item) → Kept s ((run_bundle a s x).status)
unfolding run_bundle
run_bundle-Kept a s x = elim (Bool-cases (leb path_max (length x.path))) [
  | inl h ↦ rw (run_bundle, h) (Kept-refl s)
  | inr h ↦ elim (Bool-cases (a.accessible)) [
    | inl k ↦ rw (run_bundle, h, k) (forks (a.forked))
    | inr k ↦ rw (run_bundle, h, k) (item_exit-Kept s x false)
  ]
]
  where
    fork_of : Option ℕ → Ran
    fork_of none = record {
      item = record x { error = some fork };
      status = item_exit s x false;
      error = true;
    }
    fork_of (some n) = record {
      item = record x { pid = some (process (suc n)) };
      status = s;
      error = false;
    }

    forks : (o : Option ℕ) → Kept s ((fork_of o).status)
    forks none = item_exit-Kept s x false
    forks (some n) = Kept-refl s

run_item-Kept :
    (a : Answers) (s : Status) (x : Item) (action : Action)
    → Kept s ((run_item a s x action).status)
unfolding run_item
run_item-Kept a s x action = elim (Bool-cases (is_stop action && is_stub x)) [
  | inl h ↦ rw (run_item, h) (item_exit-Kept s x true)
  | inr h ↦ elim (Bool-cases (is_nothing action)) [
    | inl k ↦ rw (run_item, h, k) (item_exit-Kept s x true)
    | inr k ↦ rw (run_item, h, k) (run_bundle-Kept a s x)
  ]
]

item_terminated-Kept :
    (c : Context) (x : Item) (w : Wait) → Kept (c.status) ((item_terminated c x w).status)
unfolding item_terminated
item_terminated-Kept c x w = elim (Bool-cases (is_failure w)) [
  | inl h ↦ rw h (item_exit-Kept c.status x (is_success w))
  | inr h ↦ rw h (item_exit-Kept c.status x (is_success w))
]

monitor_item-Kept :
    (a : Answers) (c : Context) (x : Item) → Kept (c.status) ((monitor_item a c x).status)
unfolding monitor_item
monitor_item-Kept a c x = elim (Bool-cases (is_positive x.pid && not a.watched)) [
  | inl h ↦ rw (monitor_item, h) (item_terminated-Kept c x (a.wait))
  | inr h ↦ rw (monitor_item, h) (Kept-refl (c.status))
]

launch-Kept :
    (a : Answers) (c : Context) (x : Item) (action : Action)
    → Kept (c.status) ((launch a c x action).status)
unfolding launch
launch-Kept a c x action n b h =
    ran (run_item a c.status x action) (run_item-Kept a c.status x action n b h)
  where
    after : Ran → Context
    after r = record c { waiting = update_item c.waiting x (λ _. r.item); status = r.status }

    counted : Ran → Context
    counted r = record (after r) { running = c.running + 1 }

    ran :
        (r : Ran)
        → get_status (r.status) n ≡ some b
        → get_status
            ((if r.error
              then remove_from_waiting (add_to_failed (after r) (r.item)) (r.item)
              else monitor_item a (counted r) (r.item)).status)
            n
          ≡ some b
    ran r k = elim (Bool-cases (r.error)) [
      | inl e ↦ rw e k
      | inr e ↦ rw e (monitor_item-Kept a (counted r) (r.item) n b k)
    ]

handle_source-Kept : (a : Answers) (c : Context) → Kept (c.status) ((handle_source a c).status)
unfolding handle_source
handle_source-Kept a c n b h = source (a.ended)
  where
    found :
        (o : Option Item)
        → get_status
            ((elim o as (λ _. Context) [ none ↦ c | some x ↦ item_terminated c x (a.wait) ]).status)
            n
          ≡ some b
    found none = h
    found (some x) = item_terminated-Kept c x (a.wait) n b h

    source :
        (o : Option (List ℕ))
        → get_status
            ((elim o as (λ _. Context) [
              | none ↦ c
              | some path ↦ elim (find_running c.waiting path) [
                | none ↦ c
                | some x ↦ item_terminated c x (a.wait)
              ]
            ]).status)
            n
          ≡ some b
    source none = h
    source (some path) = found (find_running c.waiting path)

loop_round-Kept :
    (action : Action) (a : Answers) (c c' : Context)
    → loop_round action a c ≡ some c'
    → Kept (c.status) (c'.status)
unfolding loop_round
loop_round-Kept action a c c' e n b h = next (get_next c.waiting c.status action) e
  where
    next :
        (o : Option Item)
        → elim o [
          | some x ↦ some (launch a c x action)
          | none ↦ if c.running == 0 then none else some (handle_source a c)
        ]
          ≡ some c'
        → get_status (c'.status) n ≡ some b
    next none e' = elim (Bool-cases (c.running == 0)) [
      | inl k ↦ cc (k, e')
      | inr k ↦
          subst (λ d. get_status (d.status) n ≡ some b)
            (some_same (handle_source a c) c' (sym (rw k refl) ∙ e')) (handle_source-Kept a c n b h)
    ]
    next (some x) e' =
        subst (λ d. get_status (d.status) n ≡ some b) (some_same (launch a c x action) c' e')
          (launch-Kept a c x action n b h)

-- The status that a service has in some context of the run loop, it keeps in the context in which the loop is
-- left: no end of another item that provides it too changes whether it succeeded.
pub run_loop-get_status :
    (action : Action) (env : Context → Answers) (rounds : ℕ) (c d : Context) (name : List ℕ)
    (success : Bool)
    → run_loop rounds action env c ≡ some d
    → get_status c.status name ≡ some success
    → get_status d.status name ≡ some success
unfolding run_loop
run_loop-get_status action env zero c d name success e h = cc
run_loop-get_status action env (suc n) c d name success e h =
    onward (loop_round action (env c) c) refl
      (λ c'. run_loop-get_status action env n c' d name success) e
  where
    onward :
        (o : Option Context)
        → loop_round action (env c) c ≡ o
        → ((c' : Context)
            → run_loop n action env c' ≡ some d
            → get_status c'.status name ≡ some success
            → get_status d.status name ≡ some success)
        → elim o [ none ↦ some c | some c' ↦ run_loop n action env c' ] ≡ some d
        → get_status d.status name ≡ some success
    onward none g rest e' =
        subst (λ b. get_status (b.status) name ≡ some success) (some_same c d e') h
    onward (some c') g rest e' = rest c' e' (loop_round-Kept action (env c) c c' g name success h)
