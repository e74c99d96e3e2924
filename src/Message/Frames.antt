-- ===== src/Message/Frames.antt =====
-- liblaunch/liblaunch.c: a stream of messages, and how the receiver takes it apart.
use launchd.Base.{
  ℕ, ◌+◌, ◌≤◌, ◌<◌, ◌≡◌, ap, ◌∙◌, true, List, [], ◌∷◌, ◌++◌, length, take, drop, arith,
  length-append, lt→ltb, ==_refl,
}
use launchd.Data.Types.{LaunchData}
use launchd.Data.Bytes.{
  bytes_of, word_of, word_of-bytes_of, length-bytes_of, take_first, drop_first,
}
use launchd.Data.Wire.{packed, launch_data_pack}
use launchd.Data.Pieces.{append_assoc}
use launchd.Data.RoundTrip.{IsPackable}
use launchd.Message.Types.{magic, msg_header}
use launchd.Message.Recv.{is_header, header_len}

-- A message as launchd_msg_send puts it on the wire.
pub record Frame : Type 0 where
  pub value : LaunchData
  pub buffer : List ℕ
  pub content : List ℕ
  pub fds : List ℕ

-- launch_data_pack wrote it, all of the value can be sent, and its length is a 64-bit number.
abbrev pub IsFrame : Frame → Type 0
IsFrame f =
    IsPackable f.value
    × (launch_data_pack f.value f.buffer ≡ packed f.content f.fds)
    × (1 ≤ length f.content)
    × (length f.content + 16 < 18446744073709551616)

abbrev pub AllFrames : List Frame → Type 0
AllFrames [] = Unit {0}
AllFrames (f ∷ fs) = IsFrame f × AllFrames fs

abbrev pub frame_bytes : Frame → List ℕ
frame_bytes f = msg_header f.content ++ f.content

abbrev pub stream : List Frame → List ℕ
stream [] = []
stream (f ∷ fs) = frame_bytes f ++ stream fs

abbrev pub all_fds : List Frame → List ℕ
all_fds [] = []
all_fds (f ∷ fs) = f.fds ++ all_fds fs

abbrev pub values : List Frame → List LaunchData
values [] = []
values (f ∷ fs) = f.value ∷ values fs

pub length-msg_header : (content : List ℕ) → length (msg_header content) ≡ 16
unfolding msg_header
length-msg_header content = omega (
  arith,
  length-append (bytes_of 8 magic) (bytes_of 8 (length content + 16)),
  length-bytes_of 8 magic,
  length-bytes_of 8 (length content + 16),
)

pub length-frame : (f : Frame) → length (frame_bytes f) ≡ 16 + length f.content
length-frame f =
    omega (arith, length-append (msg_header f.content) f.content, length-msg_header f.content)

-- Whatever follows a header, it is read as it was written.
header_read :
    (content rest : List ℕ)
    → length content + 16 < 18446744073709551616
    → (word_of (take 8 (msg_header content ++ rest)) ≡ magic)
      × (word_of (take 8 (drop 8 (msg_header content ++ rest))) ≡ length content + 16)
unfolding msg_header
header_read content rest h =
    let m = bytes_of 8 magic in
    let l = bytes_of 8 (length content + 16) in
    let spread = append_assoc m l rest in
    (
      ap (λ x. word_of (take 8 x)) spread
          ∙ ap word_of (take_first 8 m (l ++ rest) (length-bytes_of 8 magic))
          ∙ word_of-bytes_of magic (omega arith),
      ap (λ x. word_of (take 8 (drop 8 x))) spread
          ∙ ap (λ x. word_of (take 8 x)) (drop_first 8 m (l ++ rest) (length-bytes_of 8 magic))
          ∙ ap word_of (take_first 8 l rest (length-bytes_of 8 (length content + 16)))
          ∙ word_of-bytes_of (length content + 16) h,
    )

pub frame_header :
    (content rest : List ℕ)
    → 1 ≤ length content
    → length content + 16 < 18446744073709551616
    → (is_header (msg_header content ++ rest) ≡ true)
      × (header_len (msg_header content ++ rest) ≡ length content + 16)
unfolding is_header header_len
frame_header content rest pos h =
    let (m, l) = header_read content rest h in
    (rw (m, l) (rw (lt→ltb 16 (length content + 16) (omega arith)) (==_refl magic)), l)
