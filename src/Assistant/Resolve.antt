-- ===== src/Assistant/Resolve.antt =====
-- How the references to earlier steps are replaced by what those steps returned, and the steps that run
-- once for each item of a list (backend/app/assistant/workflow.py, `resolve_arguments` and
-- `resolve_fanout_arguments`). A path that is itself a list or a dict resolves to nothing.
use cloud_drive.Prelude.{
  ℕ, zero, suc, Bool, true, false, not, ◌&&◌, Option, none, some, List, [], ◌∷◌, Text, text_eq,
  ◌==◌, is_some, keep, if◌then◌else◌,
}
use cloud_drive.Naming.Decimal.{show}
use cloud_drive.Assistant.Value.{
  ℤ, pos, negsuc, Value, null, boolean, integer, string, array, object, Values, Fields, end, field,
  lookup, put, any_field, map_fields, drop_fields, len, nth, get_index, parse_int,
}
use cloud_drive.Assistant.References.{step_ref, is_step_ref, get_field}

-- "path"
abbrev pub path_key : Text
path_key = 112 ∷ 97 ∷ 116 ∷ 104 ∷ []

-- "parent_id"
abbrev pub parent_id_key : Text
parent_id_key = 112 ∷ 97 ∷ 114 ∷ 101 ∷ 110 ∷ 116 ∷ 95 ∷ 105 ∷ 100 ∷ []

-- "item_type"
abbrev pub item_type_key : Text
item_type_key = 105 ∷ 116 ∷ 101 ∷ 109 ∷ 95 ∷ 116 ∷ 121 ∷ 112 ∷ 101 ∷ []

-- "FOLDER"
abbrev folder_word : Text
folder_word = 70 ∷ 79 ∷ 76 ∷ 68 ∷ 69 ∷ 82 ∷ []

-- `path.split(".")`
cons_head : ℕ → List Text → List Text
cons_head c [] = (c ∷ []) ∷ []
cons_head c (p ∷ ps) = (c ∷ p) ∷ ps

split_dots : Text → List Text
unfolding cons_head
split_dots [] = [] ∷ []
split_dots (c ∷ s) = let rest = split_dots s in if c == 46 then [] ∷ rest else cons_head c rest

is_nonempty : Text → Bool
is_nonempty [] = false
is_nonempty (c ∷ s) = true

unfoldable pub parts : Text → List Text
unfolding split_dots is_nonempty
parts path = keep is_nonempty (split_dots path)

-- The parts of `str(value.get("path", ""))`.
unfoldable pub path_parts : Option Value → Option (List Text)
path_parts none = some []
path_parts (some null) = some ((78 ∷ 111 ∷ 110 ∷ 101 ∷ []) ∷ [])
path_parts (some (boolean true)) = some ((84 ∷ 114 ∷ 117 ∷ 101 ∷ []) ∷ [])
path_parts (some (boolean false)) = some ((70 ∷ 97 ∷ 108 ∷ 115 ∷ 101 ∷ []) ∷ [])
path_parts (some (integer (pos n))) = some (show n ∷ [])
path_parts (some (integer (negsuc n))) = some ((45 ∷ show (suc n)) ∷ [])
path_parts (some (string s)) = some (parts s)
path_parts (some (array vs)) = none
path_parts (some (object fs)) = none

-- `_resolve_path`, or none where it raises
unfoldable pub resolve_path : List Text → Value → Option Value
resolve_path [] v = some v
resolve_path (p ∷ ps) (array vs) = elim (parse_int p) [
  | none ↦ none
  | some i ↦ elim (get_index i vs) [ none ↦ none | some v ↦ resolve_path ps v ]
]
resolve_path (p ∷ ps) (object fs) = elim (lookup p fs) [ none ↦ none | some v ↦ resolve_path ps v ]
resolve_path (p ∷ ps) v = none

upper_letter : ℕ → ℕ
upper_letter c = elim (c == 102) [
  | true ↦ 70
  | false ↦ elim (c == 111) [
    | true ↦ 79
    | false ↦ elim (c == 108) [
      | true ↦ 76
      | false ↦ elim (c == 100) [
        | true ↦ 68
        | false ↦ elim (c == 101) [ true ↦ 69 | false ↦ elim (c == 114) [ true ↦ 82 | false ↦ c ] ]
      ]
    ]
  ]
]

-- `text.upper_letter()` on the letters that FOLDER has
upper_text : Text → Text
unfolding upper_letter
upper_text [] = []
upper_text (c ∷ s) = upper_letter c ∷ upper_text s

is_not_folder : Option Value → Bool
unfolding upper_text
is_not_folder none = false
is_not_folder (some null) = false
is_not_folder (some (string s)) = not (text_eq (upper_text s) folder_word)
is_not_folder (some v) = true

unfoldable pub has_destination_problem : Text → Value → Bool
unfolding is_not_folder
has_destination_problem key item =
    text_eq key parent_id_key && is_not_folder (get_field item_type_key item)

-- `parts[:-1]`
butlast : List Text → List Text
butlast [] = []
butlast (p ∷ []) = []
butlast (p ∷ q ∷ ps) = p ∷ butlast (q ∷ ps)

-- `_reference_parent`, where None is a value without fields
unfoldable pub reference_parent : List Text → Value → Option Value
unfolding butlast
reference_parent [] output = some null
reference_parent (p ∷ ps) output = resolve_path (butlast (p ∷ ps)) output

-- A value found by a path, unless it is the id of a file where a folder is needed.
unfoldable pub resolve_leaf : Text → List Text → Value → Option Value
resolve_leaf key path output = elim (resolve_path path output) [
  | none ↦ none
  | some v ↦ elim (reference_parent path output) [
    | none ↦ none
    | some item ↦ if has_destination_problem key item then none else some v
  ]
]

unfoldable pub resolve_argument : (ℤ → Option Value) → Text → Value → Option Value
resolve_argument outputs key v = elim (step_ref v) [
  | none ↦ some v
  | some i ↦ elim (outputs i) [
    | none ↦ none
    | some output ↦ elim (path_parts (get_field path_key v)) [
      | none ↦ none
      | some path ↦ resolve_leaf key path output
    ]
  ]
]

unfoldable pub resolve_arguments : (ℤ → Option Value) → Fields → Option Fields
resolve_arguments outputs arguments = map_fields (resolve_argument outputs) arguments

-- The parts before and after the first `*`.
unfoldable pub wildcard_split : List Text → Option (List Text × List Text)
wildcard_split [] = none
wildcard_split (p ∷ ps) =
    let rest = wildcard_split ps in
    if text_eq p (42 ∷ [])
    then some ([], ps)
    else elim rest [ none ↦ none | some split ↦ some (p ∷ split.0, split.1) ]

wildcard_of : Option (List Text) → Option (List Text × List Text)
wildcard_of none = none
wildcard_of (some path) = wildcard_split path

unfoldable pub is_wildcard : Value → Bool
unfolding wildcard_of
is_wildcard v = is_step_ref v && is_some (wildcard_of (path_parts (get_field path_key v)))

unfoldable pub has_fanout : Fields → Bool
has_fanout arguments = any_field is_wildcard arguments

-- A key, the list that its reference names, and the path within each item.
abbrev Wildcard : Type 0
Wildcard = Text × (Values × List Text)

abbrev as_list : Text → List Text → Option Value → Option Wildcard
as_list key after (some (array vs)) = some (key, (vs, after))
as_list key after v = none

unfoldable pub wildcard_list : (ℤ → Option Value) → Text → Value → Option Wildcard
unfolding wildcard_of
wildcard_list outputs key v = elim (step_ref v) [
  | none ↦ none
  | some i ↦ elim (outputs i) [
    | none ↦ none
    | some output ↦ elim (wildcard_of (path_parts (get_field path_key v))) [
      | none ↦ none
      | some split ↦ as_list key split.1 (resolve_path split.0 output)
    ]
  ]
]

unfoldable pub wildcard_lists : (ℤ → Option Value) → Fields → Option (List Wildcard)
wildcard_lists outputs end = some []
wildcard_lists outputs (field k v fs) =
    let rest = wildcard_lists outputs fs in
    if is_wildcard v
    then elim (wildcard_list outputs k v) [
      | none ↦ none
      | some w ↦ elim rest [ none ↦ none | some ws ↦ some (w ∷ ws) ]
    ]
    else rest

-- The length that the lists share, or none where they differ.
same_length : ℕ → List Wildcard → Bool
same_length n [] = true
same_length n (w ∷ ws) = n == len w.1.0 && same_length n ws

shared_length : List Wildcard → Option ℕ
unfolding same_length
shared_length [] = some 0
shared_length (w ∷ ws) = if same_length (len w.1.0) ws then some (len w.1.0) else none

element_value : Text → List Text → Option Value → Option Value
element_value key after none = none
element_value key [] (some v) = some v
element_value key (p ∷ ps) (some v) = resolve_leaf key (p ∷ ps) v

-- The arguments of the run for item `i`.
row_at : ℕ → List Wildcard → Fields → Option Fields
unfolding element_value
row_at i [] row = some row
row_at i (w ∷ ws) row = elim (element_value w.0 w.1.1 (nth i w.1.0)) [
  | none ↦ none
  | some v ↦ row_at i ws (put w.0 v row)
]

rows_from : ℕ → ℕ → List Wildcard → Fields → Option (List Fields)
unfolding row_at
rows_from i zero lists base = some []
rows_from i (suc n) lists base =
    let rest = rows_from (suc i) n lists base in
    elim (row_at i lists base) [
      | none ↦ none
      | some row ↦ elim rest [ none ↦ none | some rows ↦ some (row ∷ rows) ]
    ]

unfoldable pub resolve_fanout_arguments : (ℤ → Option Value) → Fields → Option (List Fields)
unfolding shared_length rows_from
resolve_fanout_arguments outputs arguments =
    elim (resolve_arguments outputs (drop_fields is_wildcard arguments)) [
      | none ↦ none
      | some base ↦ elim (wildcard_lists outputs arguments) [
        | none ↦ none
        | some lists ↦ elim (shared_length lists) [
          | none ↦ none
          | some n ↦ rows_from 0 n lists base
        ]
      ]
    ]
