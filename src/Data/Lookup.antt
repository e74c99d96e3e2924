-- ===== src/Data/Lookup.antt =====
-- liblaunch/liblaunch.c: dictionaries as maps from names, without regard to case.
use launchd.Base.{
  ℕ, zero, suc, ◌+◌, ◌<◌, ◌≤◌, ◌≡◌, ◌⊎◌, inl, inr, refl, ap, Bool, true, false, Option, none, some,
  List, map, arith, bytes_eq, bytes_eq_refl, bytes_eq→eq, if◌then◌else◌, ◌∙◌,
}
use launchd.Data.Types.{
  LaunchData, dictionary, array, string, no_string, opaque, scalar, Slots, nil, null, slot,
  c_string,
}
use launchd.Data.Dict.{
  slots_count, get_slot, set_index, to_lower, same_name, Find, found, missing, bad_key, test_key,
  find_key, launch_data_dict_insert, dict_lookup, launch_data_dict_lookup,
}

-- The key and the value at index n.
abbrev pub put : Slots → ℕ → List ℕ → LaunchData → Slots
put xs n key what = set_index (set_index xs (string key 0) n) what (suc n)

get_slot-set_index :
    (xs : Slots) (what : LaunchData) (i : ℕ) → get_slot (set_index xs what i) i ≡ some what
unfolding get_slot set_index
get_slot-set_index nil what zero = refl
get_slot-set_index nil what (suc i) = get_slot-set_index nil what i
get_slot-set_index (null xs) what zero = refl
get_slot-set_index (slot d xs) what zero = refl
get_slot-set_index (null xs) what (suc i) = get_slot-set_index xs what i
get_slot-set_index (slot d xs) what (suc i) = get_slot-set_index xs what i

slots_count-set_index :
    (xs : Slots) (what : LaunchData) (i : ℕ) → i < slots_count (set_index xs what i)
unfolding slots_count set_index
slots_count-set_index nil what zero = omega arith
slots_count-set_index nil what (suc i) = omega (arith, slots_count-set_index nil what i)
slots_count-set_index (null xs) what zero = omega arith
slots_count-set_index (slot d xs) what zero = omega arith
slots_count-set_index (null xs) what (suc i) = omega (arith, slots_count-set_index xs what i)
slots_count-set_index (slot d xs) what (suc i) = omega (arith, slots_count-set_index xs what i)

same_name_refl : (key : List ℕ) → same_name key key ≡ true
unfolding same_name
same_name_refl key = bytes_eq_refl (map to_lower key)

same_name_trans : (a b c : List ℕ) → same_name a b ≡ true → same_name a c ≡ same_name b c
unfolding same_name
same_name_trans a b c h =
    ap (λ x. bytes_eq x (map to_lower c)) (bytes_eq→eq (map to_lower a) (map to_lower b) h)

test_key_same :
    (a b : List ℕ) (k : Option (List ℕ)) (i : ℕ) (x y : Find)
    → same_name a b ≡ true
    → x ≡ y
    → test_key a k i x ≡ test_key b k i y
test_key_same a b none i x y h e = refl
test_key_same a b (some k) i x y h e = rw (same_name_trans a b k h, e)

-- Only the name in lower case matters.
find_key_same :
    (a b : List ℕ) (xs : Slots) (i : ℕ) → same_name a b ≡ true → find_key a xs i ≡ find_key b xs i
unfolding find_key
find_key_same a b nil i h = refl
find_key_same a b (null xs) i h = refl
find_key_same a b (slot (dictionary ys) xs) i h = refl
find_key_same a b (slot (array ys) xs) i h = refl
find_key_same a b (slot no_string xs) i h = refl
find_key_same a b (slot (opaque c) xs) i h = refl
find_key_same a b (slot (scalar t w) xs) i h = refl
find_key_same a b (slot (string text end) nil) i h =
    test_key_same a b (c_string text end) i _ _ h refl
find_key_same a b (slot (string text end) (null rest)) i h =
    test_key_same a b (c_string text end) i _ _ h (find_key_same a b rest (i + 2) h)
find_key_same a b (slot (string text end) (slot v rest)) i h =
    test_key_same a b (c_string text end) i _ _ h (find_key_same a b rest (i + 2) h)

-- A search that ends well ends at n.
abbrev IsAt : ℕ → Find → Type 0
IsAt n (found j) = j ≡ n
IsAt n (missing j) = j ≡ n
IsAt n bad_key = n < n

test_key_le :
    (key : List ℕ) (k : Option (List ℕ)) (i n : ℕ) (next : Find)
    → IsAt n (test_key key k i next)
    → (i ≡ n) ⊎ IsAt n next
test_key_le key none i n next h = omega arith
test_key_le key (some k) i n next h = on_same (same_name key k) h
  where
    on_same : (b : Bool) → IsAt n (if b then found i else next) → (i ≡ n) ⊎ IsAt n next
    on_same true at = inl at
    on_same false at = inr at

-- A search in the rest ends at or after its start.
find_key_le : (key : List ℕ) (xs : Slots) (i n : ℕ) → IsAt n (find_key key xs i) → i ≤ n
unfolding find_key
find_key_le key nil i n h = omega arith
find_key_le key (null xs) i n h = omega arith
find_key_le key (slot (dictionary ys) xs) i n h = omega arith
find_key_le key (slot (array ys) xs) i n h = omega arith
find_key_le key (slot no_string xs) i n h = omega arith
find_key_le key (slot (opaque c) xs) i n h = omega arith
find_key_le key (slot (scalar t w) xs) i n h = omega arith
find_key_le key (slot (string text end) nil) i n h =
    ground (arith, test_key_le key (c_string text end) i n (missing (i + 2)) h)
find_key_le key (slot (string text end) (null rest)) i n h = ground (
  arith,
  find_key_le key rest (i + 2) n,
  test_key_le key (c_string text end) i n (find_key key rest (i + 2)) h,
)
find_key_le key (slot (string text end) (slot v rest)) i n h = ground (
  arith,
  find_key_le key rest (i + 2) n,
  test_key_le key (c_string text end) i n (find_key key rest (i + 2)) h,
)

test_key_own :
    (key : List ℕ) (i : ℕ) (next : Find)
    → c_string key 0 ≡ some key
    → test_key key (c_string key 0) i next ≡ found i
test_key_own key i next own = rw (own, same_name_refl key)

rest-IsAt :
    (key : List ℕ) (k : Option (List ℕ)) (i n : ℕ) (next : Find)
    → i < n
    → IsAt n (test_key key k i next)
    → IsAt n next
rest-IsAt key k i n next lt h = elim (test_key_le key k i n next h) [
  | inl e ↦ ground arith
  | inr at ↦ at
]

test_key_later :
    (key : List ℕ) (k : Option (List ℕ)) (i n : ℕ) (next next' : Find)
    → i < n
    → IsAt n (test_key key k i next)
    → next' ≡ found n
    → test_key key k i next' ≡ found n
test_key_later key none i n next next' lt h e = ground arith
test_key_later key (some k) i n next next' lt h e = on_same (same_name key k) h
  where
    on_same :
        (b : Bool) → IsAt n (if b then found i else next) → (if b then found i else next') ≡ found n
    on_same true at = ground arith
    on_same false at = e

found_here :
    (key : List ℕ) (i m : ℕ) (next : Find)
    → c_string key 0 ≡ some key
    → m ≡ i + 0
    → test_key key (c_string key 0) i next ≡ found m
found_here key i m next own e = test_key_own key i next own ∙ ap found (omega arith)

no_odd :
    (key : List ℕ) (k : Option (List ℕ)) (i m : ℕ) (rest : Slots)
    → m ≡ i + 1
    → IsAt m (test_key key k i (find_key key rest (i + 2)))
    → m < m
no_odd key k i m rest e h = ground (
  arith,
  find_key_le key rest (i + 2) m (rest-IsAt key k i m (find_key key rest (i + 2)) (omega arith) h),
)

-- After the insertion at the place that the search found, it finds the key there.
find_key-put :
    (key : List ℕ) (what : LaunchData) (xs : Slots) (i n m : ℕ)
    → c_string key 0 ≡ some key
    → m ≡ i + n
    → IsAt m (find_key key xs i)
    → find_key key (put xs n key what) i ≡ found m
unfolding find_key set_index
find_key-put key what nil i zero m own e h = found_here key i m _ own e
find_key-put key what nil i (suc n) m own e h = ground arith
find_key-put key what (null xs) i n m own e h = ground arith
find_key-put key what (slot (dictionary ys) xs) i n m own e h = ground arith
find_key-put key what (slot (array ys) xs) i n m own e h = ground arith
find_key-put key what (slot no_string xs) i n m own e h = ground arith
find_key-put key what (slot (opaque c) xs) i n m own e h = ground arith
find_key-put key what (slot (scalar t w) xs) i n m own e h = ground arith
find_key-put key what (slot (string text end) nil) i zero m own e h = found_here key i m _ own e
find_key-put key what (slot (string text end) nil) i (suc zero) m own e h =
    ground (arith, no_odd key (c_string text end) i m nil e h)
find_key-put key what (slot (string text end) nil) i (suc (suc n)) m own e h =
    test_key_later key (c_string text end) i m (missing (i + 2)) _ (omega arith) h (
      find_key-put key what nil (i + 2) n m own (omega arith)
        (rest-IsAt key (c_string text end) i m (missing (i + 2)) (omega arith) h))
find_key-put key what (slot (string text end) (null rest)) i zero m own e h =
    found_here key i m _ own e
find_key-put key what (slot (string text end) (null rest)) i (suc zero) m own e h =
    ground (arith, no_odd key (c_string text end) i m rest e h)
find_key-put key what (slot (string text end) (null rest)) i (suc (suc n)) m own e h =
    test_key_later key (c_string text end) i m (find_key key rest (i + 2)) _ (omega arith) h (
      find_key-put key what rest (i + 2) n m own (omega arith)
        (rest-IsAt key (c_string text end) i m (find_key key rest (i + 2)) (omega arith) h))
find_key-put key what (slot (string text end) (slot v rest)) i zero m own e h =
    found_here key i m _ own e
find_key-put key what (slot (string text end) (slot v rest)) i (suc zero) m own e h =
    ground (arith, no_odd key (c_string text end) i m rest e h)
find_key-put key what (slot (string text end) (slot v rest)) i (suc (suc n)) m own e h =
    test_key_later key (c_string text end) i m (find_key key rest (i + 2)) _ (omega arith) h (
      find_key-put key what rest (i + 2) n m own (omega arith)
        (rest-IsAt key (c_string text end) i m (find_key key rest (i + 2)) (omega arith) h))

lookup_put :
    (key : List ℕ) (what : LaunchData) (xs : Slots) (n : ℕ) (ys : Slots)
    → c_string key 0 ≡ some key
    → IsAt n (find_key key xs 0)
    → put xs n key what ≡ ys
    → dict_lookup ys key ≡ some (some what)
unfolding dict_lookup
lookup_put key what xs n ys own at e = ground (
  arith,
  find_key-put key what xs 0 n n own (omega arith) at,
  get_slot-set_index (set_index xs (string key 0) n) what (suc n),
  slots_count-set_index (set_index xs (string key 0) n) what (suc n),
)

dict_lookup_same :
    (a b : List ℕ) (xs : Slots) → same_name a b ≡ true → dict_lookup xs a ≡ dict_lookup xs b
unfolding dict_lookup
dict_lookup_same a b xs h = rw (dict_lookup, find_key_same a b xs 0 h)

-- After launch_data_dict_insert of a value under a key without NUL bytes, launch_data_dict_lookup
-- gives that value for every name that differs from the key in case only.
pub lookup-insert :
    (xs ys : Slots) (what : LaunchData) (key name : List ℕ)
    → c_string key 0 ≡ some key
    → same_name name key ≡ true
    → launch_data_dict_insert xs what key ≡ some ys
    → launch_data_dict_lookup (dictionary ys) name ≡ some (some what)
unfolding launch_data_dict_insert launch_data_dict_lookup
lookup-insert xs ys what key name own same h =
    dict_lookup_same name key ys same ∙ settle (find_key key xs 0) refl
  where
    settle : (f : Find) → find_key key xs 0 ≡ f → dict_lookup ys key ≡ some (some what)
    settle (found n) e = lookup_put key what xs n ys own (ground (arith, e)) (ground (arith, e, h))
    settle (missing n) e =
        lookup_put key what xs n ys own (ground (arith, e)) (ground (arith, e, h))
    settle bad_key e = ground (arith, e, h)
