-- ===== src/Message/Chunks.antt =====
-- src/ipc.c: ipc_callback on EVFILT_READ, for as many times as the socket has something to read.
use launchd.Base.{
  ℕ, suc, ◌+◌, ◌≤◌, ◌<◌, ◌≡◌, inl, inr, refl, ap, sym, ◌∙◌, false, Bool, some, List, [], ◌∷◌, ◌++◌,
  map, length, ◌==◌, if◌then◌else◌, arith, length-append, append_nil, Bool-cases,
}
use launchd.Data.Types.{LaunchData}
use launchd.Data.Pieces.{append_assoc}
use launchd.Message.Types.{eagain, Connection, launchd_getfd, RecvAnswer, received, msg_header}
use launchd.Message.Recv.{
  Received, returned, recv_failed, closed, add_message, header_len, recv_loop, recv_more,
  launchd_msg_recv,
}
use launchd.Message.Frames.{
  Frame, AllFrames, frame_bytes, stream, all_fds, values, length-frame, frame_header,
}
use launchd.Message.Delivery.{never, holding, IsPart, waiting, add_messages, recv_loop-stream}
use launchd.Message.Cuts.{Cut, cut}

-- ipc_callback on EVFILT_READ: an error other than EAGAIN closes the connection.
unfoldable pub read_arm : Received → Received
read_arm (recv_failed eagain lh ds) = returned lh ds
read_arm (recv_failed e lh ds) = closed ds
read_arm r = r

unfoldable pub ipc_callback_read : (LaunchData → Bool) → RecvAnswer → Connection → Received
unfolding read_arm launchd_msg_recv
ipc_callback_read closes answer lh = read_arm (launchd_msg_recv closes answer lh)

abbrev pub read_on : (Connection → Received) → Received → Received
read_on next (returned lh ds) = add_messages ds (next lh)
read_on next r = r

-- The callback runs for each answer of recvmsg(2) while the connection is open.
unfoldable pub read_all : (LaunchData → Bool) → List RecvAnswer → Connection → Received
unfolding ipc_callback_read
read_all closes [] lh = returned lh []
read_all closes (answer ∷ more) lh =
    read_on (read_all closes more) (ipc_callback_read closes answer lh)

-- recvmsg(2) with some bytes and no descriptors.
abbrev pub plain : List ℕ → RecvAnswer
plain bytes = received bytes [] false

abbrev pub joined : List (List ℕ) → List ℕ
joined [] = []
joined (b ∷ bs) = b ++ joined bs

-- recvmsg(2) never gives no bytes while the peer has the connection open.
abbrev pub AllSome : List (List ℕ) → Type 0
AllSome [] = Unit {0}
AllSome (b ∷ bs) = (1 ≤ length b) × AllSome bs

values_append : (fs gs : List Frame) → values (fs ++ gs) ≡ values fs ++ values gs
values_append [] gs = refl
values_append (f ∷ fs) gs = ap (f.value ∷◌) (values_append fs gs)

fds_append : (fs gs : List Frame) → all_fds (fs ++ gs) ≡ all_fds fs ++ all_fds gs
fds_append [] gs = refl
fds_append (f ∷ fs) gs =
    ap (f.fds ++◌) (fds_append fs gs) ∙ sym (append_assoc f.fds (all_fds fs) (all_fds gs))

length-stream : (fs : List Frame) → length fs ≤ length (stream fs)
length-stream [] = omega (arith)
length-stream (f ∷ fs) =
    omega (arith, length-append (frame_bytes f) (stream fs), length-frame f, length-stream fs)

add_messages-returned :
    (ds es : List LaunchData) (lh : Connection)
    → add_messages ds (returned lh es) ≡ returned lh (ds ++ es)
add_messages-returned [] es lh = refl
add_messages-returned (d ∷ ds) es lh = ap (add_message d) (add_messages-returned ds es lh)

add_messages-failed :
    (ds es : List LaunchData) (lh : Connection)
    → add_messages ds (recv_failed eagain lh es) ≡ recv_failed eagain lh (ds ++ es)
add_messages-failed [] es lh = refl
add_messages-failed (d ∷ ds) es lh = ap (add_message d) (add_messages-failed ds es lh)

-- Messages and then a part leave the connection open.
read_arm-waiting :
    (ds : List LaunchData) (lh : Connection)
    → read_arm (add_messages ds (waiting lh)) ≡ returned lh (ds ++ [])
unfolding read_arm
read_arm-waiting ds lh = elim (Bool-cases (length lh.recvbuf == 0)) [
  | inl e ↦
      ap (λ b. read_arm (add_messages ds (if b then returned lh [] else recv_failed eagain lh [])))
        e
      ∙ ap read_arm (add_messages-returned ds [] lh)
  | inr e ↦
      ap (λ b. read_arm (add_messages ds (if b then returned lh [] else recv_failed eagain lh [])))
        e
      ∙ ap read_arm (add_messages-failed ds [] lh)
]

-- A part of a message is not a stream of whole ones, but where it is empty.
part_empty :
    (gs : List Frame) (part : List ℕ) → AllFrames gs → IsPart part → part ≡ stream gs → gs ≡ []
part_empty [] part ok p e = refl
part_empty (g ∷ gs) part ok (inl short) e =
    absurd
      (omega (arith, short, ap length e, length-append (frame_bytes g) (stream gs), length-frame g))
part_empty (g ∷ gs) part ok (inr (header, short)) e =
    let (good, size) = frame_header g.content (g.content ++ stream gs) ok.0.2 ok.0.3 in
    absurd (
      omega (
        arith,
        short,
        ap length e,
        length-append (frame_bytes g) (stream gs),
        length-frame g,
        ap header_len (e ∙ append_assoc (msg_header g.content) g.content (stream gs)) ∙ size,
      ))

cut_fds :
    (gs fs later : List Frame) (more : List ℕ)
    → gs ≡ fs ++ later
    → (all_fds gs ++ more) ++ [] ≡ all_fds fs ++ (all_fds later ++ more)
cut_fds gs fs later more e =
    append_nil (all_fds gs ++ more)
    ∙ ap (λ x. all_fds x ++ more) e
    ∙ ap (◌++ more) (fds_append fs later)
    ∙ append_assoc (all_fds fs) (all_fds later) more

read_more-plain :
    (lh : Connection) (fd : ℕ) (b : List ℕ)
    → launchd_getfd lh ≡ some fd
    → 1 ≤ length b
    → launchd_msg_recv never (plain b) lh ≡ recv_more never lh b []
unfolding launchd_msg_recv
read_more-plain lh fd b has_fd some_bytes =
    let test : (length b == 0) ≡ false = ground (arith, some_bytes) in
    rw (launchd_msg_recv, has_fd, test) refl

-- One call takes the messages that are complete with the bytes that came, and keeps the rest.
read_one :
    (gs : List Frame) (lh : Connection) (fd : ℕ) (part b r more : List ℕ) (c : Cut gs (part ++ b) r)
    → launchd_getfd lh ≡ some fd
    → 1 ≤ length b
    → ipc_callback_read never (plain b) (holding lh part (all_fds gs ++ more))
      ≡ returned (holding lh c.part (all_fds c.later ++ more)) (values c.whole ++ [])
unfolding ipc_callback_read recv_more launchd_getfd
read_one gs lh fd part b r more c has_fd some_bytes =
    let fuel = suc (length part + length b) in
    let enough : length c.whole < fuel = omega (
      arith,
      length-stream c.whole,
      ap length c.front,
      length-append part b,
      length-append (stream c.whole) c.part,
    ) in
    ap read_arm (
      read_more-plain (holding lh part (all_fds gs ++ more)) fd b has_fd some_bytes
      ∙ ap (λ x. recv_loop fuel never (holding lh x ((all_fds gs ++ more) ++ []))) c.front
      ∙ ap (λ x. recv_loop fuel never (holding lh (stream c.whole ++ c.part) x))
          (cut_fds gs c.whole c.later more c.frames)
      ∙ recv_loop-stream c.whole fuel lh c.part (all_fds c.later ++ more) c.whole_ok c.part_ok
          enough)
    ∙ read_arm-waiting (values c.whole) (holding lh c.part (all_fds c.later ++ more))

values_nil : (fs : List Frame) → values fs ++ [] ≡ values fs
values_nil [] = refl
values_nil (f ∷ fs) = ap (f.value ∷◌) (values_nil fs)

-- A stream of messages, cut by recvmsg(2) at any places, is given to the callback message by message,
-- each one whole, once and in order; nothing is left in the buffer, and of the descriptors that the
-- connection holds, those of the messages are used up. The connection holds a part of the first message
-- already, if any; the descriptors have all arrived, and the callback keeps the connection.
pub read_all-stream :
    (gs : List Frame) (chunks : List (List ℕ)) (lh : Connection) (fd : ℕ) (part more : List ℕ)
    → AllFrames gs
    → AllSome chunks
    → IsPart part
    → launchd_getfd lh ≡ some fd
    → part ++ joined chunks ≡ stream gs
    → read_all never (map plain chunks) (holding lh part (all_fds gs ++ more))
      ≡ returned (holding lh [] more) (values gs)
unfolding read_all
read_all-stream gs [] lh fd part more ok nonempty p has_fd e =
    let same : part ≡ stream gs = sym (append_nil part) ∙ e in
    let none_left = part_empty gs part ok p same in
    ap (λ x. returned (holding lh x (all_fds gs ++ more)) []) (same ∙ ap stream none_left)
    ∙ ap (λ x. returned (holding lh [] (all_fds x ++ more)) []) none_left
    ∙ ap (λ x. returned (holding lh [] more) (values x)) (sym none_left)
read_all-stream gs (b ∷ bs) lh fd part more ok nonempty p has_fd e =
    let c = cut gs (part ++ b) (joined bs) ok (append_assoc part b (joined bs) ∙ e) in
    ap (read_on (read_all never (map plain bs)))
      (read_one gs lh fd part b (joined bs) more c has_fd nonempty.0)
    ∙ ap
        (λ x.
          add_messages x
            (read_all never (map plain bs) (holding lh c.part (all_fds c.later ++ more))))
        (values_nil c.whole)
    ∙ ap (add_messages (values c.whole))
        (read_all-stream c.later bs lh fd c.part more c.later_ok nonempty.1 c.part_ok has_fd c.back)
    ∙ add_messages-returned (values c.whole) (values c.later) (holding lh [] more)
    ∙ ap (returned (holding lh [] more))
        (sym (values_append c.whole c.later) ∙ ap values (sym c.frames))
