-- ===== src/Assistant/Selection.antt =====
-- How references to the items that the user has ticked are resolved before a workflow runs, one copy
-- of a step for each item where it says so (backend/app/assistant/workflow.py, `apply_selection`).
pub mod Marks
pub mod Runnable
use cloud_drive.Prelude.{
  ℕ, zero, suc, ◌+◌, Bool, true, false, not, ◌&&◌, ◌||◌, Option, none, some, List, [], ◌∷◌, ◌++◌,
  map, Text, text_eq, ltb, ◌==◌, is_some, any, length, if◌then◌else◌,
}
use cloud_drive.Naming.{strip}
use cloud_drive.Assistant.Value.{
  ℤ, pos, negsuc, Value, null, boolean, integer, string, object, Fields, end, field, lookup, put,
  any_field, map_fields, drop_fields, is_truthy,
}
use cloud_drive.Assistant.References.{
  from_key, from_step_key, selection_word, is_reference, is_selection_ref, step_ref, get_field,
}
use cloud_drive.Assistant.Steps.{RegisteredSkill, Registry, get, WorkflowStep}
use cloud_drive.Assistant.Resolve.{path_key, path_parts, resolve_path}

-- "id_value"
abbrev item_id_key : Text
item_id_key = 105 ∷ 116 ∷ 101 ∷ 109 ∷ 95 ∷ 105 ∷ 100 ∷ []

-- "item"
abbrev item_key : Text
item_key = 105 ∷ 116 ∷ 101 ∷ 109 ∷ []

-- "each"
abbrev each_key : Text
each_key = 101 ∷ 97 ∷ 99 ∷ 104 ∷ []

-- "id"
abbrev id_key : Text
id_key = 105 ∷ 100 ∷ []

unfoldable pub has_selection_reference : Registry → List WorkflowStep → Bool
has_selection_reference registry [] = false
has_selection_reference registry (s ∷ ss) =
    let rest = has_selection_reference registry ss in
    let refers = any_field is_selection_ref s.arguments || rest in
    elim (get s.skill registry) [ none ↦ refers | some skill ↦ skill.requires_selection || refers ]

item_at : ℕ → List Fields → Option Fields
item_at i [] = none
item_at zero (x ∷ xs) = some x
item_at (suc i) (x ∷ xs) = item_at i xs

-- `ref.get("item", 0)`, where it is an index.
item_index : Option Value → Option ℕ
item_index none = some 0
item_index (some (integer (pos i))) = some i
item_index (some v) = none

id_value : Option Value → Option Value
id_value none = none
id_value (some null) = none
id_value (some v) = some v

-- `_selection_value`, or none where it raises
unfoldable pub selection_value : Value → List Fields → Option ℕ → Option Value
unfolding item_at item_index id_value
selection_value ref items forced =
    let index : Option ℕ = elim forced [
      | none ↦ item_index (get_field item_key ref)
      | some i ↦ some i
    ] in
    elim index [
      | none ↦ none
      | some i ↦ elim (item_at i items) [
        | none ↦ none
        | some item ↦ elim (get_field path_key ref) [
          | none ↦ id_value (lookup id_key item)
          | some path ↦
              if is_truthy path
              then elim (path_parts (some path)) [
                | none ↦ none
                | some ps ↦ resolve_path ps (object item)
              ]
              else id_value (lookup id_key item)
        ]
      ]
    ]

-- The new numbers of each step that came before, the last assignment first.
abbrev pub Renumbering : Type 0
Renumbering = List (ℕ × List ℕ)

unfoldable pub find_new : ℕ → Renumbering → Option (List ℕ)
find_new i [] = none
find_new i (e ∷ es) = let rest = find_new i es in if e.0 == i then some e.1 else rest

unfoldable pub new_numbers : Renumbering → ℤ → Option (List ℕ)
new_numbers old_to_new (pos i) = find_new i old_to_new
new_numbers old_to_new (negsuc i) = none

unfoldable pub remap_deps : Renumbering → List ℤ → List ℤ
remap_deps old_to_new [] = []
remap_deps old_to_new (d ∷ ds) =
    let rest = remap_deps old_to_new ds in
    elim (new_numbers old_to_new d) [ none ↦ d ∷ rest | some news ↦ map pos news ++ rest ]

-- `{k: v for k, v in fs.items() if k != key}`
without : Text → Fields → Fields
without key end = end
without key (field k v fs) =
    let rest = without key fs in if text_eq k key then rest else field k v rest

first_number : Value → List ℕ → Option Value
unfolding without
first_number (object fs) (n ∷ ns) =
    some (object (put from_key (integer (pos n)) (without from_step_key fs)))
first_number v ns = none

unfoldable pub remap_step_ref : Renumbering → Value → Option Value
unfolding first_number
remap_step_ref old_to_new v = elim (step_ref v) [
  | none ↦ some v
  | some old ↦ elim (new_numbers old_to_new old) [ none ↦ some v | some news ↦ first_number v news ]
]

has_text : Value → Bool
has_text (string s) = elim (strip s) [ [] ↦ false | c ∷ t ↦ true ]
has_text v = false

-- An unbound `id_value` of a skill that works on the selection stands for every ticked item.
bind_item_id : Fields → Option Value → Fields
unfolding has_text
bind_item_id arguments current =
    let bound : Bool = elim current [ none ↦ false | some v ↦ is_reference v || has_text v ] in
    if bound
    then arguments
    else put item_id_key
        (object (field from_key (string selection_word) (field each_key (boolean true) end)))
        arguments

unfoldable pub selection_arguments : Registry → WorkflowStep → Fields
unfolding bind_item_id
selection_arguments registry step = elim (get step.skill registry) [
  | none ↦ step.arguments
  | some skill ↦
      if skill.requires_selection
      then bind_item_id step.arguments (lookup item_id_key step.arguments)
      else step.arguments
]

unfoldable pub is_each : Value → Bool
is_each v =
    is_selection_ref v && elim (get_field each_key v) [ none ↦ false | some each ↦ is_truthy each ]

unfoldable pub resolved_value : List Fields → Renumbering → Option ℕ → Text → Value → Option Value
resolved_value items old_to_new current key v =
    if is_selection_ref v
    then selection_value v items (if is_each v then current else none)
    else remap_step_ref old_to_new v

abbrev pub renumbered : WorkflowStep → ℕ → Fields → List ℤ → WorkflowStep
renumbered step index arguments depends_on = record {
  index = index;
  skill = step.skill;
  arguments = arguments;
  depends_on = depends_on;
  permission_tier = step.permission_tier;
  requires_approval = step.requires_approval;
}

-- The copies of a step for the items from `i` on, numbered from `index`.
unfoldable pub copies :
    List Fields → Renumbering → WorkflowStep → Fields → ℕ → ℕ → ℕ → Option (List WorkflowStep)
copies items old_to_new step arguments zero i index = some []
copies items old_to_new step arguments (suc n) i index =
    let rest = copies items old_to_new step arguments n (suc i) (suc index) in
    elim (map_fields (resolved_value items old_to_new (some i)) arguments) [
      | none ↦ none
      | some resolved ↦ elim rest [
        | none ↦ none
        | some steps ↦
            some (renumbered step index resolved (remap_deps old_to_new step.depends_on) ∷ steps)
      ]
    ]

unfoldable pub single :
    List Fields → Renumbering → WorkflowStep → Fields → ℕ → Option (List WorkflowStep)
single items old_to_new step arguments index =
    elim (map_fields (resolved_value items old_to_new none) arguments) [
      | none ↦ none
      | some resolved ↦
          some (renumbered step index resolved (remap_deps old_to_new step.depends_on) ∷ [])
    ]

unfoldable pub expand_step :
    Registry → List Fields → Renumbering → ℕ → WorkflowStep → Option (List WorkflowStep)
expand_step registry items old_to_new index step =
    let arguments = selection_arguments registry step in
    if any_field is_each arguments
    then copies items old_to_new step arguments (length items) 0 index
    else single items old_to_new step arguments index

abbrev pub step_numbers : List WorkflowStep → List ℕ
step_numbers steps = map (λ s. s.index) steps

unfoldable pub expand_steps :
    Registry → List Fields → Renumbering → ℕ → List WorkflowStep → Option (List WorkflowStep)
expand_steps registry items old_to_new index [] = some []
expand_steps registry items old_to_new index (s ∷ ss) =
    elim (expand_step registry items old_to_new index s) [
      | none ↦ none
      | some new ↦
          elim (expand_steps registry items ((s.index, step_numbers new) ∷ old_to_new)
            (index + length new) ss) [ none ↦ none | some rest ↦ some (new ++ rest) ]
    ]

unfoldable pub apply_selection :
    List WorkflowStep → List Fields → Registry → Option (List WorkflowStep)
apply_selection steps items registry = expand_steps registry items [] 0 steps
