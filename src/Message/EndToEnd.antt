-- ===== src/Message/EndToEnd.antt =====
-- liblaunch/liblaunch.c and src/ipc.c: what one side sends, and the other takes from its socket.
use launchd.Base.{
  suc, false, ◌==◌, ℕ, ◌+◌, ◌≤◌, ◌<◌, ◌≡◌, refl, inl, sym, ap, ◌∙◌, some, List, [], ◌∷◌, ◌++◌, map,
  length, arith, append_nil,
}
use launchd.Data.Types.{LaunchData}
use launchd.Data.Wire.{packed, launch_data_pack}
use launchd.Data.RoundTrip.{IsPackable}
use launchd.Message.Types.{
  Connection, launchd_getfd, msg_header, SendAnswer, wrote, RecvAnswer, received,
}
use launchd.Message.Send.{sent, send_all}
use launchd.Message.Recv.{returned, launchd_msg_recv, recv_more, recv_loop}
use launchd.Message.Sending.{writes, AllGoing, send_all-sent}
use launchd.Message.Frames.{Frame}
use launchd.Message.Delivery.{never, holding}
use launchd.Message.Chunks.{
  plain, joined, AllSome, read_all, read_all-stream, ipc_callback_read, read_arm, read_on,
}

read_more-received :
    (lh : Connection) (fd : ℕ) (b fds : List ℕ)
    → launchd_getfd lh ≡ some fd
    → 1 ≤ length b
    → launchd_msg_recv never (received b fds false) lh ≡ recv_more never lh b fds
unfolding launchd_msg_recv
read_more-received lh fd b fds has_fd some_bytes =
    let test : (length b == 0) ≡ false = ground (arith, some_bytes) in
    rw (launchd_msg_recv, has_fd, test) refl

-- Descriptors that come with the first bytes.
module _ (lh : Connection) (fd : ℕ) (has_fd : launchd_getfd lh ≡ some fd) (b fds : List ℕ)
    (some_bytes : 1 ≤ length b) where
  recv_with :
      launchd_msg_recv never (received b fds false) (holding lh [] [])
      ≡ launchd_msg_recv never (plain b) (holding lh [] fds)
  unfolding recv_more launchd_getfd
  recv_with =
      read_more-received (holding lh [] []) fd b fds has_fd some_bytes
      ∙ ap (λ f. recv_loop (suc (0 + length b)) never (holding lh b f)) (sym (append_nil fds))
      ∙ sym (read_more-received (holding lh [] fds) fd b [] has_fd some_bytes)

  read_with :
      (more : List RecvAnswer)
      → read_all never (received b fds false ∷ more) (holding lh [] [])
        ≡ read_all never (plain b ∷ more) (holding lh [] fds)
  unfolding read_all ipc_callback_read
  read_with more = ap (λ r. read_on (read_all never more) (read_arm r)) recv_with

-- A value that a client sends, in however many writes, is what the callback of an idle peer is given, in
-- however many pieces the peer reads what was written, of which the first comes with the descriptors; nothing
-- of it is left over. The client's first write takes the header at least, and neither socket fails; the value
-- can be sent, with at most 1024 descriptors, its length is a 64-bit number, and the callback keeps the
-- connection.
pub read_all-send_all :
    (buffer : List ℕ) (lh lh' : Connection) (fd : ℕ) (d : LaunchData)
    (content fds out out_fds : List ℕ) (r : ℕ) (answers : List SendAnswer) (peer : Connection)
    (peer_fd : ℕ) (chunk : List ℕ) (chunks : List (List ℕ))
    → launchd_getfd lh ≡ some fd
    → lh.sendbuf ≡ []
    → launch_data_pack d buffer ≡ packed content fds
    → length fds ≤ 1024
    → IsPackable d
    → 1 ≤ length content
    → length content + 16 < 18446744073709551616
    → 16 ≤ r
    → AllGoing answers
    → length content ≤ writes answers
    → send_all buffer (wrote r) answers lh d ≡ sent lh' out out_fds
    → launchd_getfd peer ≡ some peer_fd
    → AllSome (chunk ∷ chunks)
    → joined (chunk ∷ chunks) ≡ out
    → read_all never (received chunk out_fds false ∷ map plain chunks) (holding peer [] [])
      ≡ returned (holding peer [] []) (d ∷ [])
read_all-send_all buffer lh lh' fd d content fds out out_fds r answers peer peer_fd chunk chunks
      has_fd idle written few ok nonempty small h going enough result peer_has_fd some_bytes
      arrived =
    let f : Frame = record { value = d; buffer = buffer; content = content; fds = fds } in
    let same =
      sym
        (send_all-sent buffer lh fd d content fds has_fd idle written few r answers h going enough)
      ∙ result in
    let wire : msg_header content ++ content ≡ out = cc (same) in
    let held : fds ≡ out_fds = cc (same) in
    read_with peer peer_fd peer_has_fd chunk out_fds (some_bytes.0) (map plain chunks)
    ∙ ap (λ x. read_all never (map plain (chunk ∷ chunks)) (holding peer [] x))
        (sym held ∙ sym (append_nil fds) ∙ sym (append_nil (fds ++ [])))
    ∙ read_all-stream (f ∷ []) (chunk ∷ chunks) peer peer_fd [] []
        ((ok, written, nonempty, small), tt) some_bytes (inl (omega arith)) peer_has_fd
        (arrived ∙ sym wire ∙ sym (append_nil (msg_header content ++ content)))
