-- ===== src/Ipc/Revoked.antt =====
-- src/ipc.c: what ipc_revoke_fds leaves has no descriptors.
use launchd.Base.{ℕ, ◌≡◌, refl, ap, ap₂, sym, ◌∙◌, Option, none, some, [], some_same}
use launchd.Data.Types.{
  LaunchData, dictionary, array, string, no_string, opaque, Scalar, fd, integer, real, boolean,
  errno, machport, scalar, Slots, nil, null, slot,
}
use launchd.Ipc.Descriptors.{
  close_fd, append_closed, add_slot, make_of, revoke_fd, ipc_close_fds, close_elements,
  close_values, ipc_revoke_fds, revoke_elements, revoke_values,
}

add_slot-split :
    (o : Option LaunchData) (p : Option Slots) (ys : Slots)
    → add_slot o p ≡ some ys
    → (d : LaunchData) × (xs : Slots) × (o ≡ some d) × (p ≡ some xs) × (slot d xs ≡ ys)
add_slot-split none p ys h = cc
add_slot-split (some d) none ys h = cc
add_slot-split (some d) (some xs) ys h = (d, xs, refl, refl, some_same (slot d xs) ys h)

make_of-split :
    (f : Slots → LaunchData) (o : Option Slots) (d : LaunchData)
    → make_of f o ≡ some d
    → (xs : Slots) × (o ≡ some xs) × (f xs ≡ d)
make_of-split f none d h = cc
make_of-split f (some xs) d h = (xs, refl, some_same (f xs) d h)

revoked_scalar : (t : Scalar) (w : ℕ) → ipc_close_fds (revoke_fd t w) ≡ some []
unfolding ipc_close_fds close_fd
revoked_scalar fd w = refl
revoked_scalar integer w = refl
revoked_scalar real w = refl
revoked_scalar boolean w = refl
revoked_scalar errno w = refl
revoked_scalar machport w = refl

mutual
  unfolding ipc_close_fds close_elements close_values ipc_revoke_fds revoke_elements revoke_values

  revoked_closes : (d e : LaunchData) → ipc_revoke_fds d ≡ some e → ipc_close_fds e ≡ some []
  revoked_closes (dictionary xs) e h =
      let (ys, result, made) = make_of-split dictionary (revoke_values xs) e h in
      ap ipc_close_fds (sym made) ∙ revoked_values xs ys result
  revoked_closes (array xs) e h =
      let (ys, result, made) = make_of-split array (revoke_elements xs) e h in
      ap ipc_close_fds (sym made) ∙ revoked_elements xs ys result
  revoked_closes (string text end) e h = ap ipc_close_fds (sym (some_same (string text end) e h))
  revoked_closes no_string e h = ap ipc_close_fds (sym (some_same no_string e h))
  revoked_closes (opaque c) e h = ap ipc_close_fds (sym (some_same (opaque c) e h))
  revoked_closes (scalar t w) e h =
      ap ipc_close_fds (sym (some_same (revoke_fd t w) e h)) ∙ revoked_scalar t w

  revoked_elements : (xs ys : Slots) → revoke_elements xs ≡ some ys → close_elements ys ≡ some []
  revoked_elements nil ys h = ap close_elements (sym (some_same nil ys h))
  revoked_elements (null xs) ys h = cc
  revoked_elements (slot d xs) ys h =
      let (e, zs, first, rest, made) =
        add_slot-split (ipc_revoke_fds d) (revoke_elements xs) ys h in
      ap close_elements (sym made)
      ∙ ap₂ append_closed (revoked_closes d e first) (revoked_elements xs zs rest)

  revoked_values : (xs ys : Slots) → revoke_values xs ≡ some ys → close_values ys ≡ some []
  revoked_values nil ys h = ap close_values (sym (some_same nil ys h))
  revoked_values (null xs) ys h = cc
  revoked_values (slot k nil) ys h = cc
  revoked_values (slot k (null xs)) ys h = cc
  revoked_values (slot k (slot d xs)) ys h =
      let (k', zs, key, rest, made) =
        add_slot-split (some k) (add_slot (ipc_revoke_fds d) (revoke_values xs)) ys h in
      let (e, us, first, more, built) =
        add_slot-split (ipc_revoke_fds d) (revoke_values xs) zs rest in
      ap close_values (sym made ∙ ap (slot k') (sym built))
      ∙ ap₂ append_closed (revoked_closes d e first) (revoked_values xs us more)

-- In what ipc_revoke_fds leaves of a value, ipc_close_fds finds no descriptor to close.
pub ipc_close_fds-ipc_revoke_fds :
    (d e : LaunchData) → ipc_revoke_fds d ≡ some e → ipc_close_fds e ≡ some []
ipc_close_fds-ipc_revoke_fds d e h = revoked_closes d e h
