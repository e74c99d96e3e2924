-- ===== src/Message/Recv.antt =====
-- liblaunch/liblaunch.c: launchd_msg_recv.
use launchd.Base.{
  ℕ, zero, suc, ◌+◌, Bool, not, ◌&&◌, none, some, List, [], ◌∷◌, ◌++◌, length, take, drop, ltb,
  ◌==◌, if◌then◌else◌,
}
use launchd.Data.Types.{LaunchData}
use launchd.Data.Bytes.{word_of}
use launchd.Data.Wire.{inside, beyond, Unpacked, unpacked, refused, launch_data_unpack}
use launchd.Message.Types.{
  Errno, eperm, eagain, econnreset, econnaborted, ebadrpc, Connection, launchd_getfd, magic,
  RecvAnswer, received, failed,
}

-- How a call ends, with the messages that the callback was given, in order.
pub data Received : Type 0 where
  returned : Connection → List LaunchData → Received
  recv_failed : Errno → Connection → List LaunchData → Received
  -- the callback closed the connection
  closed : List LaunchData → Received
  overrun out_of_fuel : Received

abbrev pub add_message : LaunchData → Received → Received
add_message d (returned lh ds) = returned lh (d ∷ ds)
add_message d (recv_failed e lh ds) = recv_failed e lh (d ∷ ds)
add_message d (closed ds) = closed (d ∷ ds)
add_message d r = r

-- What a header says: whether it is one, and the length of the message with it.
unfoldable pub is_header : List ℕ → Bool
is_header buf = word_of (take 8 buf) == magic && ltb 16 (word_of (take 8 (drop 8 buf)))

unfoldable pub header_len : List ℕ → ℕ
header_len buf = word_of (take 8 (drop 8 buf))

-- A message that was unpacked goes to the callback, and its bytes and descriptors are dropped, unless
-- the callback closed the connection; `closes` tells for which it does.
unfoldable pub take_message :
    Connection
    → (LaunchData → Bool)
    → (LaunchData → List ℕ → List ℕ → Received)
    → Unpacked
    → Received
take_message lh closes next (unpacked d place fds) =
    if closes d
    then closed (d ∷ [])
    else elim place [ inside rest ↦ next d rest fds | beyond ↦ overrun ]
take_message lh closes next refused = recv_failed ebadrpc lh []
take_message lh closes next Unpacked.overrun = overrun
take_message lh closes next Unpacked.out_of_fuel = out_of_fuel

-- The loop over the messages in the buffer.
unfoldable pub recv_loop : ℕ → (LaunchData → Bool) → Connection → Received
unfolding is_header header_len take_message
recv_loop zero closes lh = out_of_fuel
recv_loop (suc fuel) closes lh =
    let next = λ (d : LaunchData) (rest fds : List ℕ).
      add_message d (recv_loop fuel closes (record lh { recvbuf = rest; recvfds = fds })) in
    let message =
      take_message lh closes next
        (launch_data_unpack (suc (length lh.recvbuf)) (inside (drop 16 lh.recvbuf)) lh.recvfds) in
    if length lh.recvbuf == 0
    then returned lh []
    else if ltb (length lh.recvbuf) 16
    then recv_failed eagain lh []
    else if not (is_header lh.recvbuf)
    then recv_failed ebadrpc lh []
    else if ltb (length lh.recvbuf) (header_len lh.recvbuf)
    then recv_failed eagain lh []
    else message

-- What recvmsg(2) gave goes behind what was kept.
unfoldable pub recv_more : (LaunchData → Bool) → Connection → List ℕ → List ℕ → Received
unfolding recv_loop
recv_more closes lh bytes fds =
    recv_loop (suc (length lh.recvbuf + length bytes)) closes
      (record lh { recvbuf = lh.recvbuf ++ bytes; recvfds = lh.recvfds ++ fds })

unfoldable pub launchd_msg_recv : (LaunchData → Bool) → RecvAnswer → Connection → Received
unfolding recv_more launchd_getfd
launchd_msg_recv closes answer lh = elim (launchd_getfd lh) [
  | none ↦ recv_failed eperm lh []
  | some fd ↦ elim answer [
    | failed e ↦ recv_failed e lh []
    | received bytes fds truncated ↦
        if length bytes == 0
        then recv_failed econnreset lh []
        else if truncated
        then recv_failed econnaborted lh []
        else recv_more closes lh bytes fds
  ]
]
