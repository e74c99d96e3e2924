-- ===== src/Import/Payload.antt =====
-- src/core.c: what jobmgr_import2 takes from the payload before there is a job.
use launchd.Base.{
  ℕ, Bool, true, false, Option, none, some, List, [], ◌∷◌, length, if◌then◌else◌, codes,
}
use launchd.Data.Types.{LaunchData, array, string, no_string, Slots, nil, null, slot, c_string}
use launchd.Data.Dict.{dict_lookup}

-- A check of the payload: the source reads what is not there, or gives up with EINVAL, or goes on.
pub data Check {ℓ} (A : Type ℓ) : Type ℓ where
  fault refuse : Check A
  accept : A → Check A

-- The text of a string, or NULL; `none` is a fault.
abbrev pub get_text : LaunchData → Option (Option (List ℕ))
get_text (string text end) = elim (c_string text end) [ none ↦ none | some s ↦ some (some s) ]
get_text _ = some none

abbrev pub is_string : LaunchData → Bool
is_string (string text end) = true
is_string no_string = true
is_string _ = false

abbrev pub text_or : Check (Option (List ℕ)) → LaunchData → Check (Option (List ℕ))
text_or otherwise v =
    if is_string v then elim (get_text v) [ none ↦ fault | some o ↦ accept o ] else otherwise

unfoldable pub label_of : Slots → Check (List ℕ)
unfolding dict_lookup
label_of xs = elim (dict_lookup xs (codes "Label")) [
  | none ↦ fault
  | some o ↦ elim o [
    | none ↦ refuse
    | some v ↦ elim (text_or refuse v) [
      | fault ↦ fault
      | refuse ↦ refuse
      | accept t ↦ elim t [ none ↦ refuse | some label ↦ accept label ]
    ]
  ]
]

unfoldable pub program_of : Slots → Check (Option (List ℕ))
unfolding dict_lookup
program_of xs = elim (dict_lookup xs (codes "Program")) [
  | none ↦ fault
  | some o ↦ elim o [ none ↦ accept none | some v ↦ text_or (accept none) v ]
]

-- The loop over the arguments; a string that was not set is a NULL pointer.
unfoldable pub each_argument : Slots → Check (List (Option (List ℕ)))
each_argument nil = accept []
each_argument (null xs) = fault
each_argument (slot v xs) =
    let rest = each_argument xs in
    elim (text_or refuse v) [
      | fault ↦ fault
      | refuse ↦ refuse
      | accept t ↦ elim rest [ fault ↦ fault | refuse ↦ refuse | accept ts ↦ accept (t ∷ ts) ]
    ]

-- The arguments, or NULL where there is no array.
unfoldable pub arguments_of : Slots → Check (Option (List (Option (List ℕ))))
unfolding dict_lookup each_argument
arguments_of xs = elim (dict_lookup xs (codes "ProgramArguments")) [
  | none ↦ fault
  | some o ↦ elim o [
    | none ↦ accept none
    | some v ↦ elim v [
      | array vs ↦ elim (each_argument vs) [
        | fault ↦ fault
        | refuse ↦ refuse
        | accept ts ↦ accept (some ts)
      ]
      | _ ↦ refuse
    ]
  ]
]

abbrev pub count_arguments : Option (List (Option (List ℕ))) → ℕ
count_arguments none = 0
count_arguments (some ts) = length ts
