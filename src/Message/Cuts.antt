-- ===== src/Message/Cuts.antt =====
-- liblaunch/liblaunch.c: how a stream of messages can be cut where recvmsg(2) stops.
use launchd.Base.{
  ℕ, ◌≤◌, ◌<◌, ◌≡◌, inl, inr, refl, ap, sym, ◌∙◌, List, [], ◌∷◌, ◌++◌, length, arith, length-append,
  less_or_more,
}
use launchd.Data.Pieces.{append_assoc}
use launchd.Message.Types.{msg_header}
use launchd.Message.Recv.{is_header, header_len}
use launchd.Message.Frames.{
  Frame, IsFrame, AllFrames, frame_bytes, stream, length-msg_header, length-frame, frame_header,
}
use launchd.Message.Delivery.{IsPart}

-- What follows `c` in a list that is also `a` and then `b`.
pub record Split {ℓ} {A : Type ℓ} (a b c d : List A) : Type ℓ where
  pub tail : List A
  pub front : a ≡ c ++ tail
  pub back : tail ++ b ≡ d

add_front {ℓ} :
    {A : Type ℓ} (x y : A) (a b c d : List A) → x ≡ y → Split a b c d → Split (x ∷ a) b (y ∷ c) d
add_front x y a b c d e s = record { tail = s.tail; front = cc (e, s.front); back = s.back }

pub append-Split {ℓ} :
    {A : Type ℓ} (a b c d : List A) → a ++ b ≡ c ++ d → length c ≤ length a → Split a b c d
append-Split a b [] d e h = record { tail = a; front = refl; back = e }
append-Split [] b (y ∷ c) d e h = absurd (omega (arith, h))
append-Split (x ∷ a) b (y ∷ c) d e h =
    add_front x y a b c d (cc e) (append-Split a b c d (cc e) (omega (arith, h)))

-- The bytes `x` that came first of a stream: whole messages, and a part of the next.
pub record Cut (gs : List Frame) (x r : List ℕ) : Type 0 where
  pub whole : List Frame
  pub later : List Frame
  pub part : List ℕ
  pub frames : gs ≡ whole ++ later
  pub front : x ≡ stream whole ++ part
  pub back : part ++ r ≡ stream later
  pub whole_ok : AllFrames whole
  pub later_ok : AllFrames later
  pub part_ok : IsPart part

add_frame :
    (g : Frame) (gs : List Frame) (x y r : List ℕ)
    → IsFrame g
    → x ≡ frame_bytes g ++ y
    → Cut gs y r
    → Cut (g ∷ gs) x r
add_frame g gs x y r ok e c = record {
  whole = g ∷ c.whole;
  later = c.later;
  part = c.part;
  frames = ap (g ∷◌) c.frames;
  front =
      e
      ∙ ap (frame_bytes g ++◌) c.front
      ∙ sym (append_assoc (frame_bytes g) (stream c.whole) c.part);
  back = c.back;
  whole_ok = (ok, c.whole_ok);
  later_ok = c.later_ok;
  part_ok = c.part_ok;
}

-- Fewer bytes than a message has are a part of it.
short-IsPart :
    (g : Frame) (x r rest : List ℕ)
    → IsFrame g
    → x ++ r ≡ frame_bytes g ++ rest
    → length x < length (frame_bytes g)
    → IsPart x
short-IsPart g x r rest ok e h = elim (less_or_more (length x) 16) [
  | inl s ↦ inl s
  | inr l ↦
      let s =
        append-Split x r (msg_header g.content) (g.content ++ rest)
          (e ∙ append_assoc (msg_header g.content) g.content rest)
          (omega (arith, l, length-msg_header g.content)) in
      let (header, size) = frame_header g.content s.tail ok.2 ok.3 in
      inr (
        ap is_header s.front ∙ header,
        omega (arith, h, length-frame g, ap header_len s.front ∙ size),
      )
]

-- Every prefix of a stream can be cut so.
pub cut : (gs : List Frame) (x r : List ℕ) → AllFrames gs → x ++ r ≡ stream gs → Cut gs x r
cut [] x r ok e = record {
  whole = [];
  later = [];
  part = x;
  frames = refl;
  front = refl;
  back = e;
  whole_ok = tt;
  later_ok = tt;
  part_ok = inl (omega (arith, length-append x r, ap length e));
}
cut (g ∷ gs) x r ok e = elim (less_or_more (length x) (length (frame_bytes g))) [
  | inl s ↦ record {
    whole = [];
    later = g ∷ gs;
    part = x;
    frames = refl;
    front = refl;
    back = e;
    whole_ok = tt;
    later_ok = ok;
    part_ok = short-IsPart g x r (stream gs) ok.0 e s;
  }
  | inr l ↦
      let s = append-Split x r (frame_bytes g) (stream gs) e l in
      add_frame g gs x s.tail r ok.0 s.front (cut gs s.tail r ok.1 s.back)
]
