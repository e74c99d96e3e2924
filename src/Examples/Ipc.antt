-- ===== src/Examples/Ipc.antt =====
-- src/ipc.c: the theorems on descriptors in messages, at a dictionary of an array with a descriptor.
use launchd.Base.{ℕ, ◌≡◌, refl, some, List, [], ◌∷◌, replicate, codes}
use launchd.Data.Types.{LaunchData, dictionary, array, string, scalar, fd, slot, nil}
use launchd.Data.Dict.{slots_count}
use launchd.Data.Bytes.{bytes_of}
use launchd.Data.Scalars.{sign_extend}
use launchd.Data.Wire.{Packed, packed, launch_data_pack}
use launchd.Ipc.Descriptors.{ipc_close_fds, ipc_revoke_fds}
use launchd.Ipc.Closed.{IsTidy, ipc_close_fds-launch_data_pack}
use launchd.Ipc.Revoked.{ipc_close_fds-ipc_revoke_fds}

abbrev sockets_of : ℕ → LaunchData
sockets_of w =
    dictionary (slot (string (codes "Listeners") 0) (slot (array (slot (scalar fd w) nil)) nil))

abbrev sockets : LaunchData
sockets = sockets_of 5

abbrev bytes_packed : Packed → List ℕ
bytes_packed (packed bytes fds) = bytes
bytes_packed r = []

abbrev buffer : List ℕ
buffer = replicate 300 0

sockets-IsTidy : IsTidy sockets
unfolding IsTidy sign_extend
sockets-IsTidy = ((refl, tt), tt)

sockets_packed :
    launch_data_pack sockets buffer
    ≡ packed (bytes_packed (launch_data_pack sockets buffer)) (5 ∷ [])
unfolding launch_data_pack slots_count bytes_of
sockets_packed = refl

ipc_close_fds-launch_data_pack_example : ipc_close_fds sockets ≡ some (5 ∷ [])
ipc_close_fds-launch_data_pack_example =
    ipc_close_fds-launch_data_pack sockets buffer (bytes_packed (launch_data_pack sockets buffer))
      (5 ∷ []) sockets-IsTidy sockets_packed

abbrev revoked : LaunchData
revoked = sockets_of 18446744073709551615

sockets_revoked : ipc_revoke_fds sockets ≡ some revoked
unfolding ipc_revoke_fds
sockets_revoked = refl

ipc_close_fds-ipc_revoke_fds_example : ipc_close_fds revoked ≡ some []
ipc_close_fds-ipc_revoke_fds_example = ipc_close_fds-ipc_revoke_fds sockets revoked sockets_revoked
