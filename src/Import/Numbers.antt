-- ===== src/Import/Numbers.antt =====
-- src/core.c: job_import_integer, and jetsam_property_setup of an integer.
use launchd.Base.{
  ℕ, ◌+◌, ◌-◌, ◌%◌, ◌^◌, Bool, true, false, not, ◌&&◌, ◌||◌, List, [], ◌∷◌, leb, ltb, ◌==◌,
  if◌then◌else◌, codes,
}
use launchd.Data.Dict.{same_name}

-- The fields of struct job_s that are set from an integer, each a pattern of its width, and the references and
-- timers that StartInterval takes.
pub record Numbers : Type 0 where
  pub exit_timeout : ℕ
  pub main_thread_priority : ℕ
  pub jetsam_priority : ℕ
  pub jetsam_properties : Bool
  pub nice : ℕ
  pub setnice : Bool
  pub timeout : ℕ
  pub min_run_time : ℕ
  pub mask : ℕ
  pub setmask : Bool
  pub start_interval : ℕ
  pub seatbelt_flags : ℕ
  pub weak_refs : ℕ
  pub timers : List ℕ

-- The sign of a long long, from its 64-bit pattern.
abbrev pub is_negative : ℕ → Bool
is_negative value = leb (2 ^ 63) value

abbrev pub is_above_uint32 : ℕ → Bool
is_above_uint32 value = ltb (2 ^ 32 - 1) value

-- value < PRIO_MIN, and value > PRIO_MAX.
abbrev pub is_below_prio : ℕ → Bool
is_below_prio value = is_negative value && ltb value (2 ^ 64 - 20)

abbrev pub is_above_prio : ℕ → Bool
is_above_prio value = not (is_negative value) && ltb 20 value

-- The two cases of a letter.
abbrev pub starts : List ℕ → ℕ → Bool
starts [] c = false
starts (x ∷ key) c = (x == c) || (x == c - 32)

-- `band` gives the priority of a band of xpc(3), and another priority as it is.
unfoldable pub jetsam_priority_setup : (ℕ → ℕ) → Numbers → ℕ → Numbers
jetsam_priority_setup band j value = record j {
  jetsam_priority = band (value % 2 ^ 32);
  jetsam_properties = true;
}

unfoldable pub set_exit : Numbers → List ℕ → ℕ → Numbers
unfolding same_name
set_exit j key value =
    if same_name key (codes "ExitTimeOut")
    then (if is_negative value
        then j
        else if is_above_uint32 value
        then j
        else record j { exit_timeout = value })
    else if same_name key (codes "EmbeddedMainThreadPriority")
    then record j { main_thread_priority = value % 2 ^ 32 }
    else j

unfoldable pub set_nice : Numbers → List ℕ → ℕ → Numbers
unfolding same_name
set_nice j key value =
    if same_name key (codes "Nice")
    then (if is_below_prio value
        then j
        else if is_above_prio value
        then j
        else record j { nice = value % 2 ^ 32; setnice = true })
    else j

unfoldable pub set_time : Numbers → List ℕ → ℕ → Numbers
unfolding same_name
set_time j key value =
    if same_name key (codes "TimeOut")
    then (if is_negative value
        then j
        else if is_above_uint32 value
        then j
        else record j { timeout = value })
    else if same_name key (codes "ThrottleInterval")
    then (if is_negative value
        then j
        else if is_above_uint32 value
        then j
        else record j { min_run_time = value })
    else j

unfoldable pub set_mask : Numbers → List ℕ → ℕ → Numbers
unfolding same_name
set_mask j key value =
    if same_name key (codes "Umask") then record j { mask = value % 2 ^ 16; setmask = true } else j

unfoldable pub set_start : Bool → Numbers → List ℕ → ℕ → Numbers
unfolding same_name
set_start sandbox j key value =
    if same_name key (codes "StartInterval")
    then (if is_negative value || (value == 0)
        then j
        else if is_above_uint32 value
        then j
        else record j {
          weak_refs = j.weak_refs + 1;
          start_interval = value;
          timers = value ∷ j.timers;
        })
    else if sandbox && same_name key (codes "SandboxFlags")
    then record j { seatbelt_flags = value }
    else j

-- job_import_integer; `sandbox` is HAVE_SANDBOX. A falls through to E, and J to N.
unfoldable pub job_import_integer : (ℕ → ℕ) → Bool → Numbers → List ℕ → ℕ → Numbers
unfolding jetsam_priority_setup set_exit set_nice set_time set_mask set_start
job_import_integer band sandbox j key value =
    if starts key b'a' || starts key b'e'
    then set_exit j key value
    else if starts key b'j'
    then set_nice
        (if same_name key (codes "JetsamPriority") then jetsam_priority_setup band j value else j)
        key value
    else if starts key b'n'
    then set_nice j key value
    else if starts key b't'
    then set_time j key value
    else if starts key b'u'
    then set_mask j key value
    else if starts key b's'
    then set_start sandbox j key value
    else j
