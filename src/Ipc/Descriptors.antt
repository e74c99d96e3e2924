-- ===== src/Ipc/Descriptors.antt =====
-- src/ipc.c: ipc_close_fds and ipc_revoke_fds.
use launchd.Base.{ℕ, Option, none, some, List, [], ◌∷◌, ◌++◌, ◌==◌, ◌%◌, if◌then◌else◌}
use launchd.Data.Types.{
  LaunchData, dictionary, array, string, no_string, opaque, Scalar, fd, scalar, Slots, nil, null,
  slot,
}

-- -1 as an int.
abbrev pub no_fd : ℕ
no_fd = 4294967295

abbrev pub int_value : ℕ → ℕ
int_value w = w % 4294967296

-- runtime_close of a descriptor that is one.
unfoldable pub close_fd : Scalar → ℕ → Option (List ℕ)
close_fd fd w = if int_value w == no_fd then some [] else some (int_value w ∷ [])
close_fd t w = some []

abbrev pub append_closed : Option (List ℕ) → Option (List ℕ) → Option (List ℕ)
append_closed none b = none
append_closed (some xs) none = none
append_closed (some xs) (some ys) = some (xs ++ ys)

abbrev pub add_slot : Option LaunchData → Option Slots → Option Slots
add_slot none xs = none
add_slot (some d) none = none
add_slot (some d) (some xs) = some (slot d xs)

abbrev pub make_of : (Slots → LaunchData) → Option Slots → Option LaunchData
make_of f none = none
make_of f (some xs) = some (f xs)

abbrev pub revoke_fd : Scalar → ℕ → LaunchData
revoke_fd fd w = scalar fd 18446744073709551615
revoke_fd t w = scalar t w

-- The descriptors that are closed, in order; `none` is a fault on a NULL pointer. Of a dictionary only the
-- values are visited.
unfoldable mutual
  unfolding close_fd

  pub ipc_close_fds : LaunchData → Option (List ℕ)
  ipc_close_fds (dictionary xs) = close_values xs
  ipc_close_fds (array xs) = close_elements xs
  ipc_close_fds (string text end) = some []
  ipc_close_fds no_string = some []
  ipc_close_fds (opaque bytes) = some []
  ipc_close_fds (scalar t w) = close_fd t w

  pub close_elements : Slots → Option (List ℕ)
  close_elements nil = some []
  close_elements (null xs) = none
  close_elements (slot d xs) = append_closed (ipc_close_fds d) (close_elements xs)

  pub close_values : Slots → Option (List ℕ)
  close_values nil = some []
  close_values (null xs) = none
  close_values (slot k nil) = none
  close_values (slot k (null xs)) = none
  close_values (slot k (slot d xs)) = append_closed (ipc_close_fds d) (close_values xs)

-- The value without its descriptors.
unfoldable mutual
  pub ipc_revoke_fds : LaunchData → Option LaunchData
  ipc_revoke_fds (dictionary xs) = make_of dictionary (revoke_values xs)
  ipc_revoke_fds (array xs) = make_of array (revoke_elements xs)
  ipc_revoke_fds (string text end) = some (string text end)
  ipc_revoke_fds no_string = some no_string
  ipc_revoke_fds (opaque bytes) = some (opaque bytes)
  ipc_revoke_fds (scalar t w) = some (revoke_fd t w)

  pub revoke_elements : Slots → Option Slots
  revoke_elements nil = some nil
  revoke_elements (null xs) = none
  revoke_elements (slot d xs) = add_slot (ipc_revoke_fds d) (revoke_elements xs)

  pub revoke_values : Slots → Option Slots
  revoke_values nil = some nil
  revoke_values (null xs) = none
  revoke_values (slot k nil) = none
  revoke_values (slot k (null xs)) = none
  revoke_values (slot k (slot d xs)) =
      add_slot (some k) (add_slot (ipc_revoke_fds d) (revoke_values xs))
