-- ===== src/Ipc/Closed.antt =====
-- src/ipc.c: the descriptors that ipc_close_fds closes are those that were sent.
use launchd.Base.{
  ℕ, ◌+◌, ◌*◌, ◌%◌, ◌≤◌, ◌≡◌, refl, ap, ap₂, sym, ◌∙◌, some, List, [], ◌∷◌, ◌++◌, length, drop,
  arith,
}
use launchd.Data.Types.{
  LaunchData, dictionary, array, string, no_string, opaque, Scalar, fd, integer, real, boolean,
  errno, machport, scalar, Slots, nil, null, slot,
}
use launchd.Data.Scalars.{sign_extend}
use launchd.Data.Dict.{slots_count}
use launchd.Data.Wire.{packed, scalar_fds, pack_block, pack_slots, launch_data_pack}
use launchd.Data.Pieces.{pack_scalar-split}
use launchd.Data.RoundTrip.{pack_array-split, pack_slots-split}
use launchd.Ipc.Descriptors.{close_fd, append_closed, ipc_close_fds, close_elements, close_values}

-- The keys of dictionaries are strings, and descriptors are ints.
unfoldable mutual
  pub IsTidy : LaunchData → Type 0
  IsTidy (dictionary xs) = PairsTidy xs
  IsTidy (array xs) = AllTidy xs
  IsTidy (string text end) = Unit {0}
  IsTidy no_string = Unit {0}
  IsTidy (opaque bytes) = Unit {0}
  IsTidy (scalar fd w) = sign_extend (w % 4294967296) ≡ w
  IsTidy (scalar t w) = Unit {0}

  pub AllTidy : Slots → Type 0
  AllTidy nil = Unit {0}
  AllTidy (null xs) = Unit {0}
  AllTidy (slot d xs) = IsTidy d × AllTidy xs

  pub PairsTidy : Slots → Type 0
  PairsTidy nil = Unit {0}
  PairsTidy (slot (string text end) (slot d xs)) = IsTidy d × PairsTidy xs
  PairsTidy xs = 1 ≤ 0

pack_block-none :
    (code count : ℕ) (content old bytes fds : List ℕ)
    → pack_block code count content old ≡ packed bytes fds
    → fds ≡ []
unfolding pack_block
pack_block-none code count content old bytes fds h = ground (arith, h)

close_fd-sent : (w : ℕ) → sign_extend (w % 4294967296) ≡ w → close_fd fd w ≡ some (scalar_fds fd w)
unfolding close_fd scalar_fds sign_extend
close_fd-sent w h = ground (arith, h)

close_scalar : (t : Scalar) (w : ℕ) → IsTidy (scalar t w) → close_fd t w ≡ some (scalar_fds t w)
unfolding close_fd scalar_fds IsTidy
close_scalar fd w h = close_fd-sent w h
close_scalar integer w h = refl
close_scalar real w h = refl
close_scalar boolean w h = refl
close_scalar errno w h = refl
close_scalar machport w h = refl

mutual
  unfolding ipc_close_fds close_elements close_values launch_data_pack IsTidy AllTidy PairsTidy

  close_fds-pack :
      (d : LaunchData) (old bytes fds : List ℕ)
      → IsTidy d
      → launch_data_pack d old ≡ packed bytes fds
      → ipc_close_fds d ≡ some fds
  close_fds-pack (dictionary xs) old bytes fds t h =
      let (room, body, items, written) =
        pack_array-split 1 (slots_count xs) old (pack_slots xs (drop (24 + slots_count xs * 8) old))
          bytes fds h in
      close_values-pack xs (drop (24 + slots_count xs * 8) old) body fds t items
  close_fds-pack (array xs) old bytes fds t h =
      let (room, body, items, written) =
        pack_array-split 2 (slots_count xs) old (pack_slots xs (drop (24 + slots_count xs * 8) old))
          bytes fds h in
      close_elements-pack xs (drop (24 + slots_count xs * 8) old) body fds t items
  close_fds-pack (string text end) old bytes fds t h =
      ap some (sym (pack_block-none 7 (length text) (text ++ (end ∷ [])) old bytes fds h))
  close_fds-pack no_string old bytes fds t h = ground (arith, h)
  close_fds-pack (opaque c) old bytes fds t h =
      ap some (sym (pack_block-none 8 (length c) c old bytes fds h))
  close_fds-pack (scalar s w) old bytes fds t h =
      let (room, written, sent) = pack_scalar-split s w old bytes fds h in
      close_scalar s w t ∙ ap some (sym sent)

  close_elements-pack :
      (xs : Slots) (old bytes fds : List ℕ)
      → AllTidy xs
      → pack_slots xs old ≡ packed bytes fds
      → close_elements xs ≡ some fds
  close_elements-pack nil old bytes fds t h = cc
  close_elements-pack (null xs) old bytes fds t h = cc
  close_elements-pack (slot d xs) old bytes fds t h =
      let (b, f, b', f', first, rest, bs, fs) = pack_slots-split d xs old bytes fds h in
      ap₂ append_closed (close_fds-pack d old b f t.0 first)
        (close_elements-pack xs (drop (length b) old) b' f' t.1 rest)
      ∙ ap some (sym fs)

  close_values-pack :
      (xs : Slots) (old bytes fds : List ℕ)
      → PairsTidy xs
      → pack_slots xs old ≡ packed bytes fds
      → close_values xs ≡ some fds
  close_values-pack nil old bytes fds t h = cc
  close_values-pack (slot (string text end) (slot d xs)) old bytes fds t h =
      let (b, f, b', f', key, rest, bs, fs) =
        pack_slots-split (string text end) (slot d xs) old bytes fds h in
      let (c, g, c', g', value, more, cs, gs) =
        pack_slots-split d xs (drop (length b) old) b' f' rest in
      let no_key : f ≡ [] = pack_block-none 7 (length text) (text ++ (end ∷ [])) old b f key in
      ap₂ append_closed (close_fds-pack d (drop (length b) old) c g t.0 value)
        (close_values-pack xs (drop (length c) (drop (length b) old)) c' g' t.1 more)
      ∙ ap some (sym gs ∙ ap (◌++ f') (sym no_key) ∙ sym fs)
  close_values-pack xs old bytes fds t h = absurd (omega (arith, t))

-- Of a value that launch_data_pack writes, in which the keys of dictionaries are strings and
-- descriptors are ints, ipc_close_fds closes the descriptors that launch_data_pack gives for sending, in
-- their order, and no others.
pub ipc_close_fds-launch_data_pack :
    (d : LaunchData) (old bytes fds : List ℕ)
    → IsTidy d
    → launch_data_pack d old ≡ packed bytes fds
    → ipc_close_fds d ≡ some fds
ipc_close_fds-launch_data_pack d old bytes fds t h = close_fds-pack d old bytes fds t h
