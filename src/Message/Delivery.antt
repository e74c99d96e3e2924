-- ===== src/Message/Delivery.antt =====
-- liblaunch/liblaunch.c: launchd_msg_recv gives the callback every message that is complete.
use launchd.Base.{
  ℕ, zero, suc, ◌+◌, ◌<◌, ◌≡◌, ◌⊎◌, inl, inr, refl, ap, ◌∙◌, Bool, true, false, List, [], ◌∷◌, ◌++◌,
  length, drop, ltb, ◌==◌, if◌then◌else◌, arith, length-append, le→ltb, lt→ltb, Bool-cases,
}
use launchd.Data.Types.{LaunchData}
use launchd.Data.Bytes.{drop_first}
use launchd.Data.Wire.{inside, unpacked, launch_data_unpack}
use launchd.Data.Pieces.{append_assoc}
use launchd.Data.RoundTrip.{unpack-pack_fueled}
use launchd.Message.Types.{eagain, Connection, msg_header}
use launchd.Message.Recv.{
  Received, returned, recv_failed, add_message, is_header, header_len, take_message, recv_loop,
}
use launchd.Message.Frames.{
  Frame, IsFrame, AllFrames, frame_bytes, stream, all_fds, values, length-msg_header, length-frame,
  frame_header,
}

-- A callback that never closes the connection, as in a client.
abbrev pub never : LaunchData → Bool
never d = false

-- The connection with other received bytes and descriptors.
abbrev pub holding : Connection → List ℕ → List ℕ → Connection
holding lh bytes fds = record lh { recvbuf = bytes; recvfds = fds }

spread :
    (f : Frame) (rest : List ℕ)
    → frame_bytes f ++ rest ≡ msg_header f.content ++ (f.content ++ rest)
spread f rest = append_assoc (msg_header f.content) f.content rest

take_frame :
    (fuel : ℕ) (lh : Connection) (f : Frame) (rest more : List ℕ)
    → IsFrame f
    → recv_loop (suc fuel) never (holding lh (frame_bytes f ++ rest) (f.fds ++ more))
      ≡ add_message f.value (recv_loop fuel never (holding lh rest more))
unfolding recv_loop take_message
take_frame fuel lh f rest more ok =
    let buf = frame_bytes f ++ rest in
    let len : length buf ≡ 16 + length f.content + length rest =
      omega (arith, length-append (frame_bytes f) rest, length-frame f) in
    let (header, size) = frame_header f.content (f.content ++ rest) ok.2 ok.3 in
    let some_bytes : (length buf == 0) ≡ false = ground (arith, len) in
    let enough : ltb (length buf) 16 ≡ false = le→ltb _ _ (omega arith) in
    let good : is_header buf ≡ true = ap is_header (spread f rest) ∙ header in
    let whole : ltb (length buf) (header_len buf) ≡ false =
      le→ltb _ _ (omega (arith, ap header_len (spread f rest) ∙ size)) in
    let read : launch_data_unpack (suc (length buf)) (inside (drop 16 buf)) (f.fds ++ more)
        ≡ unpacked f.value (inside rest) more =
      ap (λ x. launch_data_unpack (suc (length buf)) (inside x) (f.fds ++ more))
        (ap (drop 16) (spread f rest)
          ∙ drop_first 16 (msg_header f.content) (f.content ++ rest) (length-msg_header f.content))
      ∙ unpack-pack_fueled f.value (length buf) f.buffer f.content f.fds rest more ok.0 ok.1
          (omega arith) in
    rw (some_bytes, enough, good, whole, read) refl

-- What is left when no message is complete: fewer bytes than a header, or than a header says.
abbrev pub IsPart : List ℕ → Type 0
IsPart part = (length part < 16) ⊎ ((is_header part ≡ true) × (length part < header_len part))

abbrev pub waiting : Connection → Received
waiting lh = if length lh.recvbuf == 0 then returned lh [] else recv_failed eagain lh []

part_waits :
    (fuel : ℕ) (lh : Connection) → IsPart lh.recvbuf → recv_loop (suc fuel) never lh ≡ waiting lh
unfolding recv_loop
part_waits fuel lh (inl short) = rw (lt→ltb (length lh.recvbuf) 16 short) refl
part_waits fuel lh (inr (header, short)) = elim (Bool-cases (ltb (length lh.recvbuf) 16)) [
  | inl e ↦ rw e refl
  | inr e ↦ rw (e, header, lt→ltb (length lh.recvbuf) (header_len lh.recvbuf) short) refl
]

abbrev pub add_messages : List LaunchData → Received → Received
add_messages [] r = r
add_messages (d ∷ ds) r = add_message d (add_messages ds r)

-- The loop of launchd_msg_recv on whole messages and a part gives the callback each of the messages,
-- once and in order, and keeps the part and the descriptors that belong to none of them, where the
-- callback keeps the connection. Fuel for one round more than there are messages is enough.
pub recv_loop-stream :
    (fs : List Frame) (fuel : ℕ) (lh : Connection) (part more : List ℕ)
    → AllFrames fs
    → IsPart part
    → length fs < fuel
    → recv_loop fuel never (holding lh (stream fs ++ part) (all_fds fs ++ more))
      ≡ add_messages (values fs) (waiting (holding lh part more))
recv_loop-stream fs zero lh part more ok p h = absurd (omega (arith, h))
recv_loop-stream [] (suc fuel) lh part more ok p h = part_waits fuel (holding lh part more) p
recv_loop-stream (f ∷ fs) (suc fuel) lh part more ok p h =
    ap (λ x. recv_loop (suc fuel) never (holding lh x ((f.fds ++ all_fds fs) ++ more)))
      (append_assoc (frame_bytes f) (stream fs) part)
    ∙ ap (λ x. recv_loop (suc fuel) never (holding lh (frame_bytes f ++ (stream fs ++ part)) x))
        (append_assoc f.fds (all_fds fs) more)
    ∙ take_frame fuel lh f (stream fs ++ part) (all_fds fs ++ more) ok.0
    ∙ ap (add_message f.value) (recv_loop-stream fs fuel lh part more ok.1 p (omega arith))
