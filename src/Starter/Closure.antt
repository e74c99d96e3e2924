-- ===== src/Starter/Closure.antt =====
-- SystemStarter/StartupItems.c: what one call of appendDependents adds, and that it does return.
use launchd.Base.{
  ℕ, ◌≡◌, refl, ap, sym, ◌∙◌, true, List, [], ◌∷◌, ◌++◌, all, append_nil, append_assoc,
}
use mathlib.Core.List.{Memᴰ}
use launchd.Starter.Items.{Item, Key, Action, contains_item, lists}
use launchd.Starter.Dependents.{inner_key, outer_names}
use launchd.Starter.Growth.{
  is_covered, is_closed, all_append, all_mono, contains_append, covered_append, closed_append,
}

module _ (items : List Item) (action : Action) where
  -- x is reached from p: it has, in the inner key, a service that p names in the outer key, and so on.
  pub data Reaches : Item → Item → Type 0 where
    here : (p : Item) → Reaches p p
    there :
        (p x y : Item) (s : List ℕ)
        → Memᴰ s (outer_names action p)
        → Memᴰ x items
        → lists (inner_key action) s x ≡ true
        → Reaches x y
        → Reaches p y

  pub data ReachesAll : Item → List Item → Type 0 where
    no_more : (p : Item) → ReachesAll p []
    one_more : (p y : Item) (ys : List Item) → Reaches p y → ReachesAll p ys → ReachesAll p (y ∷ ys)

  ReachesAll-append :
      (p : Item) (xs ys : List Item) → ReachesAll p xs → ReachesAll p ys → ReachesAll p (xs ++ ys)
  ReachesAll-append p [] ys (no_more q) r = r
  ReachesAll-append p (x ∷ xs) ys (one_more q y zs a h) r =
      one_more p x (xs ++ ys) a (ReachesAll-append p xs ys h r)

  ReachesAll-there :
      (p x : Item) (s : List ℕ) (xs : List Item)
      → Memᴰ s (outer_names action p)
      → Memᴰ x items
      → lists (inner_key action) s x ≡ true
      → ReachesAll x xs
      → ReachesAll p xs
  ReachesAll-there p x s [] m n l (no_more q) = no_more p
  ReachesAll-there p x s (y ∷ ys) m n l (one_more q z zs a h) =
      one_more p y ys (there p x y s m n l a) (ReachesAll-there p x s ys m n l h)

  -- What a call for p adds to a list.
  pub record Grown (p : Item) (deps deps' : List Item) : Type 0 where
    pub more : List Item
    pub equal : deps' ≡ deps ++ more
    pub closed : all (is_closed items action deps') more ≡ true
    pub reached : ReachesAll p more

  pub Grown-none : (p : Item) (deps : List Item) → Grown p deps deps
  Grown-none p deps = record {
    more = [];
    equal = sym (append_nil deps);
    closed = refl;
    reached = no_more p;
  }

  pub Grown-contains :
      (p : Item) (deps deps' : List Item) (x : Item)
      → Grown p deps deps'
      → contains_item deps x ≡ true
      → contains_item deps' x ≡ true
  Grown-contains p deps deps' x g h = rw (g.equal) (contains_append deps (g.more) x h)

  pub Grown-covered :
      (p : Item) (deps deps' : List Item) (key : Key) (s : List ℕ) (x : Item)
      → Grown p deps deps'
      → is_covered deps key s x ≡ true
      → is_covered deps' key s x ≡ true
  Grown-covered p deps deps' key s x g h = rw (g.equal) (covered_append deps (g.more) key s x h)

  pub Grown-closed :
      (p : Item) (deps deps' : List Item) (y : Item)
      → Grown p deps deps'
      → is_closed items action deps y ≡ true
      → is_closed items action deps' y ≡ true
  Grown-closed p deps deps' y g h = rw (g.equal) (closed_append items action deps (g.more) y h)

  pub Grown-trans : (p : Item) (a b c : List Item) → Grown p a b → Grown p b c → Grown p a c
  Grown-trans p a b c g h = record {
    more = g.more ++ h.more;
    equal = h.equal ∙ (ap (◌++ h.more) (g.equal) ∙ append_assoc a (g.more) (h.more));
    closed =
        all_append _ (g.more) (h.more)
          (all_mono _ _ (λ y. Grown-closed p b c y h) (g.more) (g.closed)) (h.closed);
    reached = ReachesAll-append p (g.more) (h.more) (g.reached) (h.reached);
  }

  pub Grown-there :
      (p x : Item) (s : List ℕ) (a b : List Item)
      → Memᴰ s (outer_names action p)
      → Memᴰ x items
      → lists (inner_key action) s x ≡ true
      → Grown x a b
      → Grown p a b
  Grown-there p x s a b m n l g = record {
    more = g.more;
    equal = g.equal;
    closed = g.closed;
    reached = ReachesAll-there p x s (g.more) m n l (g.reached);
  }
