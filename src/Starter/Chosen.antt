-- ===== src/Starter/Chosen.antt =====
-- SystemStarter/StartupItems.c: which item StartupItemListGetNext picks.
use launchd.Base.{
  ℕ, ◌<◌, ◌≡◌, refl, ap, sym, ◌∙◌, ◌⊎◌, inl, inr, Bool, true, false, not, ◌&&◌, ◌||◌, Option, none,
  some, List, [], ◌∷◌, all, ltb, leb, ◌==◌, ◌++◌, if◌then◌else◌, arith, append_nil, append_assoc,
  lt→ltb, subst, Bool-cases,
}
use launchd.Starter.Items.{Item, uses, value_of, Action, start, stop, restart, nothing, Status}
use launchd.Starter.Next.{
  count_names, count_unmet_requirements, count_dependants_present, has_value, check_for_duplicates,
  hard_count, soft_count, is_pending, soft_key, is_restart, Verdict, pass, at_once, best, judge,
  next_from, int_max, get_next,
}

-- An item that may run: it is not running, none of its services is provided already, its antecedents are
-- met, and it is not worth while to wait for one that it prefers.
unfoldable pub may_run : List Item → Status → Action → Item → Bool
unfolding check_for_duplicates hard_count soft_count is_pending
may_run waiting status action x =
    not (has_value x.pid)
    && not (check_for_duplicates waiting status x)
    && (hard_count waiting status action x == 0)
    && not (ltb 0 (soft_count waiting status action x) && is_pending waiting status action x)

-- The verdict, with what it tests taken apart. `named` tells whether there are preferred antecedents.
verdict_of :
    (running duplicate pending named : Bool) (hard n least : ℕ)
    → (named ≡ false → n ≡ 0)
    → (if running
        then pass
        else if duplicate
        then pass
        else if false
        then at_once
        else if not (hard == 0)
        then pass
        else if ltb 0 n && pending
        then pass
        else if ltb least n
        then pass
        else if not named && ltb 0 least || ltb n least
        then best n
        else pass)
      ≡ (if (not running && not duplicate && (hard == 0) && not (ltb 0 n && pending)) && ltb n least
          then best n
          else pass)
verdict_of true duplicate pending named hard n least h = refl
verdict_of false true pending named hard n least h = refl
verdict_of false false true true hard n least h = ground arith
verdict_of false false false true hard n least h = ground arith
verdict_of false false true false hard n least h = ground (arith, h refl)
verdict_of false false false false hard n least h = ground (arith, h refl)

count_none :
    (o : Option (List (List ℕ))) (f : List (List ℕ) → ℕ) → has_value o ≡ false → count_names o f ≡ 0
count_none none f h = refl
count_none (some names) f h = cc

abbrev named : Action → Item → Bool
named action x = has_value (value_of (soft_key action) x)

soft_none :
    (waiting : List Item) (status : Status) (action : Action) (x : Item)
    → named action x ≡ false
    → soft_count waiting status action x ≡ 0
unfolding soft_count
soft_none waiting status start x h =
    count_none x.uses (λ names. count_unmet_requirements status names) h
soft_none waiting status stop x h =
    count_none x.provides (λ names. count_dependants_present waiting names uses) h
soft_none waiting status restart x h =
    count_none x.provides (λ names. count_dependants_present waiting names uses) h
soft_none waiting status nothing x h =
    count_none x.provides (λ names. count_dependants_present waiting names uses) h

judge_lem :
    (waiting : List Item) (status : Status) (action : Action) (least : ℕ) (x : Item)
    → is_restart action ≡ false
    → judge waiting status action least x ≡ (
        if may_run waiting status action x && ltb (soft_count waiting status action x) least
        then best (soft_count waiting status action x)
        else pass)
unfolding judge may_run
judge_lem waiting status action least x h = rw h (
    verdict_of (has_value x.pid) (check_for_duplicates waiting status x)
      (is_pending waiting status action x) (named action x) (hard_count waiting status action x)
      (soft_count waiting status action x) least (soft_none waiting status action x))

-- `next` is the first of the items `seen` with the smallest cost below a bound, of those that pass a test.
module _ (p : Item → Bool) (f : Item → ℕ) (bound : ℕ) where
  abbrev pub costs_more : ℕ → Item → Bool
  costs_more n y = not (p y) || ltb n (f y)

  abbrev pub costs_enough : ℕ → Item → Bool
  costs_enough n y = not (p y) || leb n (f y)

  pub data IsPick : List Item → Option Item → Type 0 where
    no_pick : (seen : List Item) → all (costs_enough bound) seen ≡ true → IsPick seen none
    pick :
        (before : List Item) (x : Item) (after : List Item)
        → p x ≡ true
        → f x < bound
        → all (costs_more (f x)) before ≡ true
        → all (costs_enough (f x)) after ≡ true
        → IsPick (before ++ (x ∷ after)) (some x)

  abbrev cost : Option Item → ℕ
  cost none = bound
  cost (some x) = f x

  all_snoc :
      (q : Item → Bool) (xs : List Item) (x : Item)
      → all q xs ≡ true
      → q x ≡ true
      → all q (xs ++ (x ∷ [])) ≡ true
  all_snoc q [] x h e = rw e refl
  all_snoc q (y ∷ xs) x h e = elim (Bool-cases (q y)) [
    | inl k ↦ rw k (all_snoc q xs x (ap (λ b. b && all q xs) (sym k) ∙ h) e)
    | inr k ↦ cc (k, h)
  ]

  all_imp :
      (q r : Item → Bool) (xs : List Item)
      → ((y : Item) → q y ≡ true → r y ≡ true)
      → all q xs ≡ true
      → all r xs ≡ true
  all_imp q r [] i h = refl
  all_imp q r (y ∷ ys) i h = elim (Bool-cases (q y)) [
    | inl k ↦ rw (i y k) (all_imp q r ys i (ap (λ b. b && all q ys) (sym k) ∙ h))
    | inr k ↦ cc (k, h)
  ]

  all_append :
      (q : Item → Bool) (xs ys : List Item)
      → all q xs ≡ true
      → all q ys ≡ true
      → all q (xs ++ ys) ≡ true
  all_append q [] ys h k = k
  all_append q (x ∷ xs) ys h k = elim (Bool-cases (q x)) [
    | inl e ↦ rw e (all_append q xs ys (ap (λ b. b && all q xs) (sym e) ∙ h) k)
    | inr e ↦ cc (e, h)
  ]

  -- One more item is seen, which costs less, or not.
  IsPick-less :
      (seen : List Item) (next : Option Item) (x : Item)
      → IsPick seen next
      → (p x && ltb (f x) (cost next)) ≡ true
      → IsPick (seen ++ (x ∷ [])) (some x)
  IsPick-less seen next x (no_pick s h) e =
      pick seen x [] (ground (arith, e)) (ground (arith, e)) (weaken_all seen h (ground (arith, e)))
        refl
    where
      weaken_all :
          (xs : List Item)
          → all (costs_enough bound) xs ≡ true
          → f x < bound
          → all (costs_more (f x)) xs ≡ true
      weaken_all xs k l =
          all_imp (costs_enough bound) (costs_more (f x)) xs (λ z q. ground (arith, q, l)) k
  IsPick-less seen next x (pick before y after py fy less enough) e =
      let smaller : f x < f y = ground (arith, e) in
      pick (before ++ (y ∷ after)) x [] (ground (arith, e)) (omega (arith, smaller, fy))
        (all_append (costs_more (f x)) before (y ∷ after)
          (all_imp (costs_more (f y)) (costs_more (f x)) before (λ z q. ground (arith, q, smaller))
            less)
          (rw (lt→ltb (f x) (f y) smaller, py)
            (all_imp (costs_enough (f y)) (costs_more (f x)) after
              (λ z q. ground (arith, q, smaller)) enough)))
        refl

  IsPick-more :
      (seen : List Item) (next : Option Item) (x : Item)
      → IsPick seen next
      → (p x && ltb (f x) (cost next)) ≡ false
      → IsPick (seen ++ (x ∷ [])) next
  IsPick-more seen next x (no_pick s h) e =
      no_pick _ (all_snoc (costs_enough bound) seen x h (ground (arith, e)))
  IsPick-more seen next x (pick before y after py fy less enough) e =
      subst (λ l. IsPick l (some y)) (sym (append_assoc before (y ∷ after) (x ∷ [])))
        (pick before y (after ++ (x ∷ [])) py fy less
          (all_snoc (costs_enough (f y)) after x enough (ground (arith, e))))

-- What the loop picks, once it has seen some of the items.
next_from-IsPick :
    (waiting : List Item) (status : Status) (action : Action) (seen xs : List Item)
    (next : Option Item)
    → is_restart action ≡ false
    → IsPick (may_run waiting status action) (soft_count waiting status action) int_max seen next
    → IsPick
        (may_run waiting status action)
        (soft_count waiting status action)
        int_max
        (seen ++ xs)
        (next_from waiting status action xs
          (cost (may_run waiting status action) (soft_count waiting status action) int_max next)
          next)
unfolding next_from
next_from-IsPick waiting status action seen [] next r h =
    subst
      (λ l.
        IsPick (may_run waiting status action) (soft_count waiting status action) int_max l next)
      (sym (append_nil seen)) h
next_from-IsPick waiting status action seen (x ∷ xs) next r h =
    let p = may_run waiting status action in
    let f = soft_count waiting status action in
    let least = cost p f int_max next in
    let go : Verdict → Option Item = λ (v : Verdict). elim v [
      | pass ↦ next_from waiting status action xs least next
      | best n ↦ next_from waiting status action xs n (some x)
      | at_once ↦ some x
    ] in
    let test = p x && ltb (f x) least in
    let judged = judge_lem waiting status action least x r in
    subst (λ l. IsPick p f int_max l (next_from waiting status action (x ∷ xs) least next))
      (append_assoc seen (x ∷ []) xs)
      (elim (Bool-cases test) [
        | inl e ↦
            subst (λ v. IsPick p f int_max ((seen ++ (x ∷ [])) ++ xs) (go v))
              (sym (judged ∙ ap (λ b. if b then best (f x) else pass) e))
              (next_from-IsPick waiting status action (seen ++ (x ∷ [])) xs (some x) r
                (IsPick-less p f int_max seen next x h e))
        | inr e ↦
            subst (λ v. IsPick p f int_max ((seen ++ (x ∷ [])) ++ xs) (go v))
              (sym (judged ∙ ap (λ b. if b then best (f x) else pass) e))
              (next_from-IsPick waiting status action (seen ++ (x ∷ [])) xs next r
                (IsPick-more p f int_max seen next x h e))
      ])

-- To start or stop, StartupItemListGetNext gives the first of the items with the fewest preferred
-- antecedents that failed, of those that may run, and none where there is no such item; a number of
-- failed antecedents of INT_MAX or more counts as too many.
pub get_next-IsPick :
    (waiting : List Item) (status : Status) (action : Action)
    → (action ≡ start) ⊎ (action ≡ stop)
    → IsPick
        (may_run waiting status action)
        (soft_count waiting status action)
        int_max
        waiting
        (get_next waiting status action)
unfolding get_next
get_next-IsPick waiting status start h =
    next_from-IsPick waiting status start [] waiting none refl (no_pick [] refl)
get_next-IsPick waiting status stop h =
    next_from-IsPick waiting status stop [] waiting none refl (no_pick [] refl)
get_next-IsPick waiting status restart (inl e) = cc
get_next-IsPick waiting status restart (inr e) = cc
get_next-IsPick waiting status nothing (inl e) = cc
get_next-IsPick waiting status nothing (inr e) = cc
