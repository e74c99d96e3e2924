-- ===== src/Examples/Messages.antt =====
-- liblaunch/liblaunch.c: the theorems on messages, at an array of a descriptor and a string, sent twice.
use launchd.Base.{
  ℕ, zero, suc, ◌≡◌, inl, refl, false, none, some, List, [], ◌∷◌, ◌++◌, map, length, take, drop,
  replicate, arith,
}
use launchd.Examples.Wire.{message, buffer, content, message-IsPackable, message_packed}
use launchd.Data.Dict.{slots_count}
use launchd.Data.Bytes.{bytes_of}
use launchd.Data.Wire.{launch_data_pack}
use launchd.Message.Types.{
  Connection, msg_header, eagain, SendAnswer, wrote, failed, received, launchd_getfd,
}
use launchd.Message.Send.{sent, send_all}
use launchd.Message.Sending.{AllGoing, took, blocked, flushed, send_all-sent}
use launchd.Message.Recv.{returned}
use launchd.Message.Frames.{Frame, IsFrame, AllFrames, stream, all_fds, values, frame_bytes}
use launchd.Message.Delivery.{never, holding}
use launchd.Message.Chunks.{plain, joined, AllSome, read_all, read_all-stream}
use launchd.Message.EndToEnd.{read_all-send_all}

content_length : length content ≡ 96
unfolding launch_data_pack slots_count bytes_of
content_length = refl

abbrev frame : Frame
frame = record { value = message; buffer = buffer; content = content; fds = 3 ∷ [] }

abbrev frames : List Frame
frames = frame ∷ frame ∷ []

frame-IsFrame : IsFrame frame
frame-IsFrame = (
  message-IsPackable,
  message_packed,
  omega (arith, content_length),
  omega (arith, content_length),
)

frames-AllFrames : AllFrames frames
frames-AllFrames = (frame-IsFrame, (frame-IsFrame, tt))

abbrev connection : Connection
connection = record {
  sendbuf = [];
  sendfds = [];
  recvbuf = [];
  recvfds = [];
  use_checkin_fd = false;
  cifd = none;
  fd = some 4;
}

connection_fd : launchd_getfd connection ≡ some 4
unfolding launchd_getfd
connection_fd = refl

-- Both messages in three parts.
abbrev chunks : List (List ℕ)
chunks =
    take 10 (stream frames) ∷ take 150 (drop 10 (stream frames)) ∷ drop 160 (stream frames) ∷ []

chunks-AllSome : AllSome chunks
unfolding launch_data_pack slots_count bytes_of msg_header
chunks-AllSome = (omega arith, (omega arith, (omega arith, tt)))

joined-chunks : joined chunks ≡ stream frames
unfolding launch_data_pack slots_count bytes_of msg_header
joined-chunks = refl

read_all-stream_example :
    read_all never (map plain chunks) (holding connection [] (all_fds frames ++ (9 ∷ [])))
    ≡ returned (holding connection [] (9 ∷ [])) (values frames)
read_all-stream_example =
    read_all-stream frames chunks connection 4 [] (9 ∷ []) frames-AllFrames chunks-AllSome
      (inl (omega arith)) connection_fd joined-chunks

-- The socket takes all but a byte, would block, and takes the byte; further answers are not asked for.
abbrev answers : List SendAnswer
answers = failed eagain ∷ replicate 100 (wrote 1)

ones-AllGoing : (n : ℕ) → AllGoing (replicate n (wrote 1))
ones-AllGoing zero = tt
ones-AllGoing (suc n) = (took 1 (omega arith), ones-AllGoing n)

answers-AllGoing : AllGoing answers
answers-AllGoing = (blocked, ones-AllGoing 100)

send_all-sent_example :
    send_all buffer (wrote 111) answers connection message
    ≡ sent (flushed connection) (msg_header content ++ content) (3 ∷ [])
send_all-sent_example =
    send_all-sent buffer connection 4 message content (3 ∷ []) connection_fd refl message_packed
      (omega arith) 111 answers (omega arith) answers-AllGoing (omega (arith, content_length))

sending :
    send_all buffer (wrote 111) answers connection message
    ≡ sent (flushed connection) (frame_bytes frame) (3 ∷ [])
unfolding send_all launch_data_pack slots_count bytes_of msg_header launchd_getfd
sending = refl

abbrev peer : Connection
peer = record connection { fd = some 6 }

peer_fd : launchd_getfd peer ≡ some 6
unfolding launchd_getfd
peer_fd = refl

abbrev pieces : List (List ℕ)
pieces = take 10 (frame_bytes frame) ∷ drop 10 (frame_bytes frame) ∷ []

pieces-AllSome : AllSome pieces
unfolding launch_data_pack slots_count bytes_of msg_header
pieces-AllSome = (omega arith, (omega arith, tt))

joined-pieces : joined pieces ≡ frame_bytes frame
unfolding launch_data_pack slots_count bytes_of msg_header
joined-pieces = refl

read_all-send_all_example :
    read_all never
      (received (take 10 (frame_bytes frame)) (3 ∷ []) false
        ∷ plain (drop 10 (frame_bytes frame))
        ∷ [])
      (holding peer [] [])
    ≡ returned (holding peer [] []) (message ∷ [])
read_all-send_all_example =
    read_all-send_all buffer connection (flushed connection) 4 message content (3 ∷ [])
      (frame_bytes frame) (3 ∷ []) 111 answers peer 6 (take 10 (frame_bytes frame))
      (drop 10 (frame_bytes frame) ∷ []) connection_fd refl message_packed (omega arith)
      message-IsPackable (omega (arith, content_length)) (omega (arith, content_length))
      (omega arith) answers-AllGoing (omega (arith, content_length)) sending peer_fd pieces-AllSome
      joined-pieces
