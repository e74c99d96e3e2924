-- ===== src/World/Walk.antt =====
-- src/core.c: how a list of jobs or managers is walked while its members may be freed.
use launchd.Base.{ℕ, Bool, true, false, Option, none, some, List, [], ◌∷◌, ◌==◌, if◌then◌else◌, any}
use launchd.World.Store.{World, done, fault, M, ◌>>=◌, find_job, find_mgr}

-- Iteration by LIST_FOREACH_SAFE: the next member is fetched before the body runs on this one, and
-- using it when the body has unlinked it is a fault. `members` is the list as it stands.
first_member : List ℕ → List ℕ → Option ℕ
first_member live [] = none
first_member live (i ∷ rest) = if any (λ x. x == i) live then some i else first_member live rest

is_saved : Option ℕ → ℕ → Bool
is_saved none i = false
is_saved (some saved) i = saved == i

pick {ℓ} : {A : Type 0} {B : Type ℓ} → Bool → (A → B) → (A → B) → A → B
pick true f g a = f a
pick false f g a = g a

-- The walk over what is left of a snapshot; `saved` is the member that was fetched.
fold_safe : {A : Type 0} → (World → List ℕ) → (A → ℕ → M A) → List ℕ → Option ℕ → A → M A
unfolding first_member is_saved pick
fold_safe members f [] saved a w = done a w
fold_safe members f (i ∷ rest) saved a w =
    pick (is_saved saved i)
      (pick (any (λ x. x == i) (members w))
        (λ w'. (f a i >>= λ a'. fold_safe members f rest (first_member (members w) rest) a') w')
        (λ _. fault))
      (fold_safe members f rest saved a) w

unfoldable pub foreach_fold : {A : Type 0} → (World → List ℕ) → (A → ℕ → M A) → A → M A
unfolding fold_safe
foreach_fold members f a w =
    fold_safe members f (members w) (first_member (members w) (members w)) a w

unfoldable pub foreach : (World → List ℕ) → (ℕ → M (Unit {0})) → M (Unit {0})
unfolding foreach_fold
foreach members f = foreach_fold members (λ _ i. f i) tt

unfoldable pub jobs_of : ℕ → World → List ℕ
unfolding find_mgr
jobs_of m w = elim (find_mgr m w.mgrs) [ none ↦ [] | some jm ↦ jm.jobs ]

unfoldable pub submgrs_of : ℕ → World → List ℕ
unfolding find_mgr
submgrs_of m w = elim (find_mgr m w.mgrs) [ none ↦ [] | some jm ↦ jm.submgrs ]

unfoldable pub subjobs_of : ℕ → World → List ℕ
unfolding find_job
subjobs_of i w = elim (find_job i w.jobs) [ none ↦ [] | some j ↦ j.subjobs ]
