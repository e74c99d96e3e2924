-- ===== src/Message/Sending.antt =====
-- liblaunch/liblaunch.c: what the loop of launch_msg_internal puts on the wire.
use launchd.Base.{
  ℕ, zero, suc, ◌+◌, ◌-◌, ◌≤◌, ◌≡◌, inl, inr, refl, ap, sym, ◌∙◌, false, some, none, List, [], ◌∷◌,
  ◌++◌, length, take, drop, less_or_more, ap₂, ltb, ◌==◌, arith, append_nil, le→ltb,
}
use launchd.Data.Types.{LaunchData}
use launchd.Data.Wire.{packed, launch_data_pack}
use launchd.Data.Bytes.{length-drop}
use launchd.Data.Pieces.{append_assoc}
use launchd.Message.Types.{eagain, Connection, launchd_getfd, msg_header, SendAnswer, wrote, failed}
use launchd.Message.Send.{
  Sent, sent, send_failed, after_send, do_sendmsg, send_packed, launchd_msg_send, add_out,
  send_rest, send_all,
}
use launchd.Message.Frames.{length-msg_header}

-- A socket that takes some bytes or would block, and never fails otherwise.
pub data IsGoing : SendAnswer → Type 0 where
  took : (r : ℕ) → 1 ≤ r → IsGoing (wrote r)
  blocked : IsGoing (failed eagain)

abbrev pub AllGoing : List SendAnswer → Type 0
AllGoing [] = Unit {0}
AllGoing (a ∷ more) = IsGoing a × AllGoing more

-- How often it takes some.
abbrev pub writes : List SendAnswer → ℕ
writes [] = 0
writes (wrote r ∷ more) = suc (writes more)
writes (failed e ∷ more) = writes more

abbrev pub flushed : Connection → Connection
flushed lh = record lh { sendbuf = []; sendfds = [] }

take-drop : (n : ℕ) (xs : List ℕ) → take n xs ++ drop n xs ≡ xs
take-drop zero xs = refl
take-drop (suc n) [] = refl
take-drop (suc n) (x ∷ xs) = ap (x ∷◌) (take-drop n xs)

no_length : (xs : List ℕ) → length xs ≤ 0 → xs ≡ []
no_length [] h = refl
no_length (x ∷ xs) h = absurd (omega (arith, h))

-- Once all is sent, the loop is over.
send_rest_ended :
    (buffer : List ℕ) (answers : List SendAnswer) (lh : Connection) (out fds : List ℕ)
    → send_rest buffer answers (sent lh out fds) ≡ sent lh out fds
unfolding send_rest
send_rest_ended buffer [] lh out fds = refl
send_rest_ended buffer (a ∷ more) lh out fds = refl

send_more :
    (buffer : List ℕ) (answer : SendAnswer) (lh : Connection) (fd : ℕ)
    → launchd_getfd lh ≡ some fd
    → 1 ≤ length lh.sendbuf
    → launchd_msg_send buffer answer lh none ≡ do_sendmsg answer lh []
unfolding launchd_msg_send
send_more buffer answer lh fd has_fd h =
    let test : (length lh.sendbuf == 0) ≡ false = ground (arith, h) in
    rw (launchd_msg_send, has_fd, test) refl

-- A write of `n` bytes of the buffer, and of a header before them.
module _ (lh : Connection) (header r n : ℕ) (out : List ℕ) (size : r ≡ header + n)
    (some_bytes : 1 ≤ r) where
  after_send-part :
      1 ≤ length (drop n lh.sendbuf)
      → after_send lh header r out
        ≡ send_failed eagain
            (record lh { sendbuf = drop n lh.sendbuf; sendfds = [] })
            out
            lh.sendfds
  unfolding after_send
  after_send-part more =
      let positive : (r == 0) ≡ false = ground (arith, some_bytes) in
      let covered : ltb r header ≡ false = le→ltb r header (omega (arith, size)) in
      let taken : r - header ≡ n = omega (arith, size) in
      let left : (length (drop n lh.sendbuf) == 0) ≡ false = ground (arith, more) in
      rw (positive, covered, taken, left) refl

  after_send-rest :
      drop n lh.sendbuf ≡ [] → after_send lh header r out ≡ sent (flushed lh) out lh.sendfds
  unfolding after_send
  after_send-rest done =
      let positive : (r == 0) ≡ false = ground (arith, some_bytes) in
      let covered : ltb r header ≡ false = le→ltb r header (omega (arith, size)) in
      let taken : r - header ≡ n = omega (arith, size) in rw (positive, covered, taken, done) refl

-- What a buffer that is being sent comes to.
abbrev pub all_sent : Connection → List ℕ → List ℕ → Sent
all_sent lh out fds = sent (flushed lh) (out ++ lh.sendbuf) (fds ++ lh.sendfds)

-- The rest of a message goes out once: each call that the socket lets through takes a byte at least.
pub send_rest-sent :
    (buffer : List ℕ) (answers : List SendAnswer) (lh : Connection) (fd : ℕ) (out fds : List ℕ)
    → launchd_getfd lh ≡ some fd
    → 1 ≤ length lh.sendbuf
    → AllGoing answers
    → length lh.sendbuf ≤ writes answers
    → send_rest buffer answers (send_failed eagain lh out fds) ≡ all_sent lh out fds
unfolding send_rest launchd_getfd do_sendmsg
send_rest-sent buffer [] lh fd out fds has_fd some_left going enough =
    absurd (omega (arith, some_left, enough))
send_rest-sent buffer (_ ∷ more) lh fd out fds has_fd some_left (blocked, going) enough =
    ap (λ x. add_out out fds (send_rest buffer more x))
      (send_more buffer (failed eagain) lh fd has_fd some_left)
    ∙ ap (add_out out fds) (send_rest-sent buffer more lh fd [] [] has_fd some_left going enough)
send_rest-sent buffer (_ ∷ more) lh fd out fds has_fd some_left (took r some_bytes, going) enough =
    let step = send_more buffer (wrote r) lh fd has_fd some_left in
    let whole = take-drop r lh.sendbuf in
    elim (less_or_more 0 (length (drop r lh.sendbuf))) [
      | inl left ↦
          let lh' = record lh { sendbuf = drop r lh.sendbuf; sendfds = [] } in
          ap (λ x. add_out out fds (send_rest buffer more x))
            (step ∙ after_send-part lh 0 r r (take r lh.sendbuf) (omega arith) some_bytes left)
          ∙ ap (add_out out fds) (
              send_rest-sent buffer more lh' fd (take r lh.sendbuf) lh.sendfds has_fd left going
                (omega (arith, length-drop r lh.sendbuf, enough, some_bytes)))
          ∙ ap₂ (λ o f. sent (flushed lh) (out ++ o) (fds ++ f)) whole (append_nil lh.sendfds)
      | inr none_left ↦
          let done = no_length (drop r lh.sendbuf) none_left in
          ap (λ x. add_out out fds (send_rest buffer more x))
            (step ∙ after_send-rest lh 0 r r (take r lh.sendbuf) (omega arith) some_bytes done)
          ∙ ap (add_out out fds)
              (send_rest_ended buffer more (flushed lh) (take r lh.sendbuf) lh.sendfds)
          ∙ ap (λ o. sent (flushed lh) (out ++ o) (fds ++ lh.sendfds))
              (sym (append_nil _) ∙ ap (take r lh.sendbuf ++◌) (sym done) ∙ whole)
    ]

take-append : (xs ys : List ℕ) (m n : ℕ) → m ≡ length xs + n → take m (xs ++ ys) ≡ xs ++ take n ys
take-append [] ys m n e = let same : m ≡ n = omega (arith, e) in ap (λ k. take k ys) same
take-append (x ∷ xs) ys zero n e = absurd (omega (arith, e))
take-append (x ∷ xs) ys (suc m) n e = ap (x ∷◌) (take-append xs ys m n (omega (arith, e)))

module _ (buffer : List ℕ) (lh : Connection) (fd : ℕ) (d : LaunchData) (content fds : List ℕ)
    (has_fd : launchd_getfd lh ≡ some fd) (idle : lh.sendbuf ≡ [])
    (written : launch_data_pack d buffer ≡ packed content fds) (few : length fds ≤ 1024) where
  send_new :
      (answer : SendAnswer)
      → launchd_msg_send buffer answer lh (some d)
        ≡ do_sendmsg answer (record lh { sendbuf = content; sendfds = fds }) (msg_header content)
  unfolding launchd_msg_send send_packed
  send_new answer =
      let space : ltb 1024 (length fds) ≡ false = le→ltb 1024 (length fds) few in
      rw (launchd_msg_send, has_fd, idle, written, space) refl

  -- A message with at most 1024 descriptors, whose first write takes the header at least, goes out as the header
  -- and the packed value, with its descriptors, once each, in however many parts the socket takes it.
  pub send_all-sent :
      (r : ℕ) (answers : List SendAnswer)
      → 16 ≤ r
      → AllGoing answers
      → length content ≤ writes answers
      → send_all buffer (wrote r) answers lh d
        ≡ sent (flushed lh) (msg_header content ++ content) fds
  unfolding send_all do_sendmsg launchd_getfd
  send_all-sent r answers h going enough =
      let lh₁ = record lh { sendbuf = content; sendfds = fds } in
      let header = msg_header content in
      let n = r - 16 in
      let whole = take-drop n content in
      let size : r ≡ length header + n = omega (arith, h, length-msg_header content) in
      let out : take r (header ++ content) ≡ header ++ take n content =
        take-append header content r n size in
      let step = send_new (wrote r) in
      elim (less_or_more 0 (length (drop n content))) [
        | inl left ↦
            ap (send_rest buffer answers) (
              step
              ∙ after_send-part lh₁ (length header) r n (take r (header ++ content)) size
                  (omega (arith, h)) left)
            ∙ send_rest-sent buffer answers (record lh { sendbuf = drop n content; sendfds = [] })
                fd (take r (header ++ content)) fds has_fd left going
                (omega (arith, length-drop n content, enough))
            ∙ ap₂ (sent (flushed lh))
                (ap (◌++ drop n content) out
                  ∙ append_assoc header (take n content) (drop n content)
                  ∙ ap (header ++◌) whole)
                (append_nil fds)
        | inr none_left ↦
            let done = no_length (drop n content) none_left in
            ap (send_rest buffer answers) (
              step
              ∙ after_send-rest lh₁ (length header) r n (take r (header ++ content)) size
                  (omega (arith, h)) done)
            ∙ send_rest_ended buffer answers (flushed lh) (take r (header ++ content)) fds
            ∙ ap (λ o. sent (flushed lh) o fds)
                (out
                  ∙ ap (header ++◌) (
                      sym (append_nil (take n content))
                      ∙ ap (take n content ++◌) (sym done)
                      ∙ whole))
      ]
