-- ===== src/Starter/Walk.antt =====
-- SystemStarter/StartupItems.c: the loops of appendDependents add what depends on the parent.
use launchd.Base.{
  ℕ, zero, suc, ◌≡◌, refl, sym, subst, ◌∙◌, inl, inr, Bool, true, false, not, ◌&&◌, Option, none,
  some, List, [], ◌∷◌, ◌++◌, all, arith, append_assoc, bytes_eq_refl, some_same, Bool-cases,
  if◌then◌else◌,
}
use mathlib.Core.List.{Memᴰ}
use mathlib.Core.List.Memᴰ.{head, tail}
use launchd.Starter.Items.{Item, Action, contains_item, same_item, lists}
use launchd.Starter.Dependents.{
  inner_key, outer_names, append_item, walk_items, walk_names, append_dependents,
}
use launchd.Starter.Growth.{is_covered, is_closed, all_mono, any_append}
use launchd.Starter.Closure.{
  here, one_more, Grown, Grown-none, Grown-contains, Grown-covered, Grown-trans, Grown-there,
}

module _ (items : List Item) (action : Action) where
  -- What a call for x gives.
  pub record Called (x : Item) (deps deps' : List Item) : Type 0 where
    pub grown : Grown items action x deps deps'
    pub has : contains_item deps' x ≡ true

  abbrev pub Calls : (List Item → Item → Option (List Item)) → Type 0
  Calls append =
      (deps : List Item) (x : Item) (deps' : List Item)
      → append deps x ≡ some deps'
      → Called x deps deps'

  module _ (p : Item) (append : List Item → Item → Option (List Item)) (calls : Calls append) where
    pub record WalkedItems (s : List ℕ) (xs deps deps' : List Item) : Type 0 where
      pub grown : Grown items action p deps deps'
      pub covered : all (is_covered deps' (inner_key action) s) xs ≡ true

    pub record WalkedNames (ss : List (List ℕ)) (deps deps' : List Item) : Type 0 where
      pub grown : Grown items action p deps deps'
      pub covered : all (λ s. all (is_covered deps' (inner_key action) s) items) ss ≡ true

    covers :
        (s : List ℕ) (x : Item) (deps : List Item)
        → (lists (inner_key action) s x && not (contains_item deps x)) ≡ false
        → is_covered deps (inner_key action) s x ≡ true
    unfolding is_covered
    covers s x deps h = ground (arith, h)

    covers_has :
        (s : List ℕ) (x : Item) (deps : List Item)
        → contains_item deps x ≡ true
        → is_covered deps (inner_key action) s x ≡ true
    unfolding is_covered
    covers_has s x deps h = ground (arith, h)

    and_cons :
        (f : Item → Bool) (x : Item) (xs : List Item)
        → f x ≡ true
        → all f xs ≡ true
        → all f (x ∷ xs) ≡ true
    and_cons f x xs h k = rw (h) k

    pub walk_items-Walked :
        (s : List ℕ) (xs deps deps' : List Item)
        → Memᴰ s (outer_names action p)
        → ((x : Item) → Memᴰ x xs → Memᴰ x items)
        → walk_items append (inner_key action) s xs deps ≡ some deps'
        → WalkedItems s xs deps deps'
    unfolding walk_items
    walk_items-Walked s [] deps deps' m sub e = record {
      grown =
          subst (Grown items action p deps) (some_same deps deps' e)
            (Grown-none items action p deps);
      covered = refl;
    }
    walk_items-Walked s (x ∷ xs) deps deps' m sub e =
        elim (Bool-cases (lists (inner_key action) s x && not (contains_item deps x))) [
          | inr l ↦
              let rest =
                walk_items-Walked s xs deps deps' m (λ y i. sub y (tail i))
                  (sym (rw (walk_items, l) refl) ∙ e) in
              record {
                grown = rest.grown;
                covered =
                    and_cons _ x xs
                      (Grown-covered items action p deps deps' (inner_key action) s x (rest.grown)
                        (covers s x deps l))
                      (rest.covered);
              }
          | inl l ↦
              called (λ d. walk_items-Walked s xs d deps' m (λ y i. sub y (tail i))) (append deps x)
                refl (ground (arith, l)) (sym (rw (walk_items, l) refl) ∙ e)
        ]
      where
        called :
            ((d : List Item)
              → walk_items append (inner_key action) s xs d ≡ some deps'
              → WalkedItems s xs d deps')
            → (o : Option (List Item)) → append deps x ≡ o
            → lists (inner_key action) s x ≡ true
            → elim o [ none ↦ none | some d ↦ walk_items append (inner_key action) s xs d ]
              ≡ some deps'
            → WalkedItems s (x ∷ xs) deps deps'
        called walk none a l e' = cc
        called walk (some d) a l e' =
            let first = calls deps x d a in
            let rest = walk d e' in
            record {
              grown =
                  Grown-trans items action p deps d deps'
                    (Grown-there items action p x s deps d m (sub x (head refl)) l (first.grown))
                    (rest.grown);
              covered =
                  and_cons _ x xs
                    (covers_has s x deps'
                      (Grown-contains items action p d deps' x (rest.grown) (first.has)))
                    (rest.covered);
            }

    walk_names-Walked :
        (ss : List (List ℕ)) (deps deps' : List Item)
        → ((s : List ℕ) → Memᴰ s ss → Memᴰ s (outer_names action p))
        → walk_names append (inner_key action) ss items deps ≡ some deps'
        → WalkedNames ss deps deps'
    unfolding walk_names
    walk_names-Walked [] deps deps' sub e = record {
      grown =
          subst (Grown items action p deps) (some_same deps deps' e)
            (Grown-none items action p deps);
      covered = refl;
    }
    walk_names-Walked (s ∷ ss) deps deps' sub e =
        walked (λ d. walk_names-Walked ss d deps' (λ t i. sub t (tail i)))
          (walk_items append (inner_key action) s items deps) refl e
      where
        walked :
            ((d : List Item)
              → walk_names append (inner_key action) ss items d ≡ some deps'
              → WalkedNames ss d deps')
            → (o : Option (List Item)) → walk_items append (inner_key action) s items deps ≡ o
            → elim o [ none ↦ none | some d ↦ walk_names append (inner_key action) ss items d ]
              ≡ some deps'
            → WalkedNames (s ∷ ss) deps deps'
        walked walk none a e' = cc
        walked walk (some d) a e' =
            let first = walk_items-Walked s items deps d (sub s (head refl)) (λ x i. i) a in
            let rest = walk d e' in
            record {
              grown = Grown-trans items action p deps d deps' (first.grown) (rest.grown);
              covered =
                  rw
                    (all_mono _ _
                      (λ x.
                        Grown-covered items action p d deps' (inner_key action) s x (rest.grown))
                      items (first.covered))
                    (rest.covered);
            }

  appended : (deps : List Item) (p : Item) → contains_item (append_item deps p) p ≡ true
  appended deps p = elim (Bool-cases (contains_item deps p)) [
    | inl h ↦ rw (h, h) refl
    | inr h ↦ rw h (ground (arith, any_append (same_item p) deps (p ∷ []), bytes_eq_refl (p.path)))
  ]

  with_parent :
      (p : Item) (deps deps' : List Item) (b : Bool)
      → Grown items action p (if b then deps else deps ++ (p ∷ [])) deps'
      → is_closed items action deps' p ≡ true
      → Grown items action p deps deps'
  with_parent p deps deps' true g c = g
  with_parent p deps deps' false g c = record {
    more = p ∷ g.more;
    equal = g.equal ∙ append_assoc deps (p ∷ []) (g.more);
    closed = rw c (g.closed);
    reached = one_more p p (g.more) (here p) (g.reached);
  }

  pub append_dependents-Called : (fuel : ℕ) → Calls (append_dependents fuel items action)
  unfolding append_dependents is_closed
  append_dependents-Called zero deps p deps' e = cc
  append_dependents-Called (suc fuel) deps p deps' e =
      let walked =
        walk_names-Walked p (append_dependents fuel items action) (append_dependents-Called fuel)
          (outer_names action p) (append_item deps p) deps' (λ s i. i) e in
      record {
        grown = with_parent p deps deps' (contains_item deps p) (walked.grown) (walked.covered);
        has =
            Grown-contains items action p (append_item deps p) deps' p (walked.grown)
              (appended deps p);
      }
