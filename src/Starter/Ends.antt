-- ===== src/Starter/Ends.antt =====
-- SystemStarter/SystemStarter.c: the run loop keeps count of the items that run, and ends.
use launchd.Base.{
  ℕ, zero, suc, ◌+◌, ◌<◌, ◌≡◌, refl, ◌∙◌, inl, inr, true, false, not, ◌&&◌, Option, none, some,
  arith, Bool-cases, bytes_eq→eq, if◌then◌else◌, ◌==◌,
}
use launchd.Starter.Items.{Item, Action, update_item, same_item}
use launchd.Starter.Next.{get_next, has_value}
use launchd.Starter.Run.{Answers, Context, is_positive, launch, handle_source, loop_round}
use launchd.Starter.Sums.{
  is_distinct, sum_of, sum_of-remove_item, sum_of-update_item, is_distinct-remove_item,
  is_distinct-update_item,
}
use launchd.Starter.Rounds.{
  Moves, started, dropped, ended, Change, idle, moved, tells_end, next-Moves, handle_source-Moves,
  positive_set, loop_round-Change,
}

abbrev pub count_run : Item → ℕ
count_run x = if has_value x.pid then 1 else 0

abbrev pub count_lost : Item → ℕ
count_lost x = if has_value x.pid && not (is_positive x.pid) then 1 else 0

abbrev pub count_work : Item → ℕ
count_work x = if has_value x.pid then 1 else 2

-- The items that wait are different, those with a PID have a process, and the count is the count of these.
pub record WellRun (c : Context) : Type 0 where
  pub distinct : is_distinct c.waiting ≡ true
  pub processes : sum_of count_lost c.waiting ≡ 0
  pub counted : c.running ≡ sum_of count_run c.waiting

unfoldable pub work_left : Context → ℕ
unfolding sum_of
work_left c = sum_of count_work c.waiting

same_path : (x item y : Item) → item.path ≡ x.path → same_item x y ≡ true → item.path ≡ y.path
same_path x item y e h = e ∙ bytes_eq→eq x.path y.path h

Moves-WellRun : (c c' : Context) → Moves c c' → WellRun c → WellRun c'
Moves-WellRun c c' (started _ _ x item fresh e p w r) inv =
    let update : (f : Item → ℕ)
        → sum_of f (update_item c.waiting x (λ _. item)) + f x ≡ sum_of f c.waiting + f item =
      λ f. sum_of-update_item f c.waiting x (λ _. item) (inv.distinct) (fresh.member) in
    record {
      distinct = rw w (
          is_distinct-update_item c.waiting x (λ _. item) (λ y h. same_path x item y e h)
            (inv.distinct));
      processes = rw w (ground (arith, inv.processes, update count_lost, fresh.unset, p));
      counted =
          rw (w, r)
            (ground (arith, inv.counted, update count_run, fresh.unset, positive_set (item.pid) p));
    }
Moves-WellRun c c' (dropped _ _ x fresh w r) inv = record {
  distinct = rw w (is_distinct-remove_item c.waiting x (inv.distinct));
  processes = rw w (
      omega (
        arith,
        inv.processes,
        sum_of-remove_item count_lost c.waiting x (inv.distinct) (fresh.member),
      ));
  counted =
      rw (w, r)
        (ground (
          arith,
          inv.counted,
          fresh.unset,
          sum_of-remove_item count_run c.waiting x (inv.distinct) (fresh.member),
        ));
}
Moves-WellRun c c' (ended _ _ x m s w r) inv = record {
  distinct = rw w (is_distinct-remove_item c.waiting x (inv.distinct));
  processes =
      rw w
        (omega (arith, inv.processes, sum_of-remove_item count_lost c.waiting x (inv.distinct) m));
  counted =
      rw (w, r)
        (ground (arith, inv.counted, s, sum_of-remove_item count_run c.waiting x (inv.distinct) m));
}

Moves-work_left : (c c' : Context) → Moves c c' → WellRun c → work_left c' < work_left c
unfolding work_left
Moves-work_left c c' (started _ _ x item fresh e p w r) inv = rw w (
    ground (
      arith,
      sum_of-update_item count_work c.waiting x (λ _. item) (inv.distinct) (fresh.member),
      fresh.unset,
      positive_set (item.pid) p,
    ))
Moves-work_left c c' (dropped _ _ x fresh w r) inv = rw w (
    ground
      (arith, fresh.unset, sum_of-remove_item count_work c.waiting x (inv.distinct) (fresh.member)))
Moves-work_left c c' (ended _ _ x m s w r) inv =
    rw w (ground (arith, s, sum_of-remove_item count_work c.waiting x (inv.distinct) m))

-- A round of the run loop keeps the items that wait different, those with a PID with a process, and the
-- count of running items equal to the number of these.
pub loop_round-WellRun :
    (action : Action) (a : Answers) (c c' : Context)
    → WellRun c
    → loop_round action a c ≡ some c'
    → WellRun c'
loop_round-WellRun action a c c' inv e = changed c c' (loop_round-Change action a c c' e) inv
  where
    changed : (b b' : Context) → Change b b' → WellRun b → WellRun b'
    changed b b' (idle _) i = i
    changed b b' (moved _ _ m) i = Moves-WellRun b b' m i

-- The rounds of the loop, with what the system answers in each context; none where the rounds are used up.
unfoldable pub run_loop : ℕ → Action → (Context → Answers) → Context → Option Context
unfolding loop_round
run_loop zero action env c = none
run_loop (suc n) action env c = elim (loop_round action (env c) c) [
  | none ↦ some c
  | some c' ↦ run_loop n action env c'
]

-- The loop has been left: no item can be run, and none runs.
pub data IsLeft (action : Action) : Option Context → Type 0 where
  left :
      (c : Context)
      → WellRun c
      → get_next c.waiting c.status action ≡ none
      → c.running ≡ 0
      → IsLeft action (some c)

-- If each time that no item can be run and some item runs, the end of one that runs is told, then the loop is
-- left after at most as many rounds as there is work left: two for each item that has not been started and one
-- for each that runs. Then no item can be run and none runs.
pub run_loop-IsLeft :
    (action : Action) (env : Context → Answers) (n : ℕ) (c : Context)
    → ((b : Context) → (b.running == 0) ≡ false → WellRun b → tells_end (env b) b ≡ true)
    → WellRun c
    → work_left c < n
    → IsLeft action (run_loop n action env c)
unfolding run_loop
run_loop-IsLeft action env zero c fair inv h = absurd (omega (arith, h))
run_loop-IsLeft action env (suc n) c fair inv h =
    next (get_next c.waiting c.status action) refl (run_loop-IsLeft action env n)
  where
    onward :
        (b : Context)
        → Moves c b
        → ((d : Context)
            → ((b : Context) → (b.running == 0) ≡ false → WellRun b → tells_end (env b) b ≡ true)
            → WellRun d
            → work_left d < n
            → IsLeft action (run_loop n action env d))
        → IsLeft action (run_loop n action env b)
    onward b m rest =
        rest b fair (Moves-WellRun c b m inv) (omega (arith, h, Moves-work_left c b m inv))

    next :
        (o : Option Item)
        → get_next c.waiting c.status action ≡ o
        → ((d : Context)
            → ((b : Context) → (b.running == 0) ≡ false → WellRun b → tells_end (env b) b ≡ true)
            → WellRun d
            → work_left d < n
            → IsLeft action (run_loop n action env d))
        → IsLeft action
            (elim (elim o as (λ _. Option Context) [
              | some x ↦ some (launch (env c) c x action)
              | none ↦ if c.running == 0 then none else some (handle_source (env c) c)
            ]) [ none ↦ some c | some c' ↦ run_loop n action env c' ])
    next (some x) g rest = onward (launch (env c) c x action) (next-Moves (env c) c x action g) rest
    next none g rest = elim (Bool-cases (c.running == 0)) [
      | inl k ↦ rw k (left c inv g (ground (arith, k)))
      | inr k ↦
          rw k
            (onward (handle_source (env c) c) (handle_source-Moves (env c) c (fair c k inv)) rest)
    ]
