-- ===== src/Assistant/References.antt =====
-- References among the arguments of a step (backend/app/assistant/workflow.py): `{"from": 0, "path": ..}`
-- names the output of a step, `{"from": "selection", ..}` an item that the user has ticked.
use cloud_drive.Prelude.{
  Bool, true, false, Option, none, some, [], ◌∷◌, Text, text_eq, is_some, if◌then◌else◌,
}
use cloud_drive.Assistant.Value.{ℤ, Value, null, integer, string, object, lookup}

-- "from"
abbrev pub from_key : Text
from_key = 102 ∷ 114 ∷ 111 ∷ 109 ∷ []

-- "from_step"
abbrev pub from_step_key : Text
from_step_key = 102 ∷ 114 ∷ 111 ∷ 109 ∷ 95 ∷ 115 ∷ 116 ∷ 101 ∷ 112 ∷ []

-- "selection"
abbrev pub selection_word : Text
selection_word = 115 ∷ 101 ∷ 108 ∷ 101 ∷ 99 ∷ 116 ∷ 105 ∷ 111 ∷ 110 ∷ []

source_of : Option Value → Option Value → Value
source_of (some v) legacy = v
source_of none (some v) = v
source_of none none = null

unfoldable pub ref_source : Value → Value
unfolding source_of
ref_source (object fs) = source_of (lookup from_key fs) (lookup from_step_key fs)
ref_source v = null

unfoldable pub is_reference : Value → Bool
is_reference (object fs) =
    if is_some (lookup from_key fs) then true else is_some (lookup from_step_key fs)
is_reference v = false

is_selection_word : Value → Bool
is_selection_word (string s) = text_eq s selection_word
is_selection_word v = false

unfoldable pub is_selection_ref : Value → Bool
unfolding is_selection_word
is_selection_ref v = is_selection_word (ref_source v)

-- The number of the step that a value refers to; Python's Booleans are numbers and do not count.
number_of : Value → Option ℤ
number_of (integer i) = some i
number_of v = none

unfoldable pub step_ref : Value → Option ℤ
unfolding number_of
step_ref v = number_of (ref_source v)

unfoldable pub is_step_ref : Value → Bool
is_step_ref v = is_some (step_ref v)

-- `value.get(key)`
unfoldable pub get_field : Text → Value → Option Value
get_field key (object fs) = lookup key fs
get_field key v = none
