-- ===== src/Message/Send.antt =====
-- liblaunch/liblaunch.c: launchd_msg_send, and the loop of launch_msg_internal around it.
use launchd.Base.{
  ℕ, ◌-◌, Option, none, some, List, [], ◌∷◌, ◌++◌, length, take, drop, ltb, ◌==◌, if◌then◌else◌,
}
use launchd.Data.Types.{LaunchData}
use launchd.Data.Wire.{Packed, packed, no_space, fault, launch_data_pack}
use launchd.Message.Types.{
  Errno, eperm, enomem, eagain, econnreset, Connection, launchd_getfd, msg_header, SendAnswer,
  wrote, failed,
}

-- The result, the connection after it, and the bytes and descriptors that went out; or a failed assertion; or a
-- fault of launch_data_pack; or an access outside a buffer, after which nothing is defined: descriptors behind
-- the 4096 bytes that they have, or bytes from before `sendbuf`, where `r` has become negative.
pub data Sent : Type 0 where
  sent : Connection → List ℕ → List ℕ → Sent
  send_failed : Errno → Connection → List ℕ → List ℕ → Sent
  aborted faulted overrun : Sent

-- After sendmsg(2) took `r` bytes, of which `header` were not of the buffer.
unfoldable pub after_send : Connection → ℕ → ℕ → List ℕ → Sent
after_send lh header r out =
    if r == 0
    then send_failed econnreset lh [] []
    else if ltb r header
    then overrun
    else let rest = drop (r - header) lh.sendbuf in
      let lh' = record lh { sendbuf = rest; sendfds = [] } in
      if length rest == 0 then sent lh' out lh.sendfds else send_failed eagain lh' out lh.sendfds

unfoldable pub do_sendmsg : SendAnswer → Connection → List ℕ → Sent
unfolding after_send
do_sendmsg (failed e) lh header = send_failed e lh [] []
do_sendmsg (wrote r) lh header = after_send lh (length header) r (take r (header ++ lh.sendbuf))

-- How many descriptors there is space for: malloc(4 * 1024), of four bytes each.
abbrev pub max_fds : ℕ
max_fds = 1024

-- A new message, packed into a buffer. launch_data_pack does not know the space for the descriptors.
unfoldable pub send_packed : SendAnswer → Connection → Packed → Sent
unfolding do_sendmsg
send_packed answer lh (packed bytes fds) =
    if ltb max_fds (length fds)
    then overrun
    else do_sendmsg answer (record lh { sendbuf = bytes; sendfds = fds }) (msg_header bytes)
send_packed answer lh no_space = send_failed enomem (record lh { sendbuf = []; sendfds = [] }) [] []
send_packed answer lh fault = faulted

-- launchd_msg_send of a message, with the buffer that malloc(3) gave, or of the rest of one.
unfoldable pub launchd_msg_send : List ℕ → SendAnswer → Connection → Option LaunchData → Sent
unfolding launchd_getfd send_packed do_sendmsg
launchd_msg_send buffer answer lh d = elim (launchd_getfd lh) [
  | none ↦ send_failed eperm lh [] []
  | some fd ↦ elim d [
    | some m ↦
        if length lh.sendbuf == 0
        then send_packed answer lh (launch_data_pack m buffer)
        else aborted
    | none ↦ if length lh.sendbuf == 0 then aborted else do_sendmsg answer lh []
  ]
]

abbrev pub add_out : List ℕ → List ℕ → Sent → Sent
add_out out fds (sent lh o f) = sent lh (out ++ o) (fds ++ f)
add_out out fds (send_failed e lh o f) = send_failed e lh (out ++ o) (fds ++ f)
add_out out fds r = r

-- The loop of launch_msg_internal: while the socket takes a part alone, the rest is sent. An answer is
-- given for each call; where they run out, the call is still under way.
unfoldable pub send_rest : List ℕ → List SendAnswer → Sent → Sent
unfolding launchd_msg_send
send_rest buffer [] r = r
send_rest buffer (answer ∷ more) (send_failed eagain lh out fds) =
    add_out out fds (send_rest buffer more (launchd_msg_send buffer answer lh none))
send_rest buffer (answer ∷ more) r = r

unfoldable pub send_all : List ℕ → SendAnswer → List SendAnswer → Connection → LaunchData → Sent
unfolding send_rest
send_all buffer answer answers lh d =
    send_rest buffer answers (launchd_msg_send buffer answer lh (some d))
