-- ===== src/Assistant/Steps.antt =====
-- Skills, planned steps and workflow steps (backend/app/assistant/workflow.py, skills/registry.py), and
-- the classification of a plan (permissions.py).
pub mod Runnable
pub mod Marks
use cloud_drive.Prelude.{
  ℕ, suc, Bool, true, false, not, Option, none, some, List, [], ◌∷◌, ◌++◌, Text, text_eq, ltb, any,
  is_some, if◌then◌else◌,
}
use cloud_drive.Model.{Uuid, bad_operation}
use cloud_drive.Exec.{Result, ok, err, bind_result, Exec, raise}
use cloud_drive.Assistant.Value.{ℤ, pos, negsuc, Value, Fields}

-- What a skill returns, as a reference sees it.
pub data SkillOutput : Type 0 where
  paged_items item_list item new_folder mutated_item opaque : SkillOutput

-- `required` holds the names under `parameters["required"]`.
pub record RegisteredSkill : Type 0 where
  pub name : Text
  pub permission_tier : Text
  pub handler : Uuid → Fields → Exec Value
  pub requires_selection : Bool
  pub required : List Text
  pub output : SkillOutput

abbrev pub Registry : Type 0
Registry = List RegisteredSkill

unfoldable pub get : Text → Registry → Option RegisteredSkill
get name [] = none
get name (s ∷ ss) = let rest = get name ss in if text_eq s.name name then some s else rest

unfoldable pub register : RegisteredSkill → Registry → Result Registry
register skill registry =
    if is_some (get skill.name registry) then err bad_operation else ok (registry ++ skill ∷ [])

-- `SkillRegistry.execute`
unfoldable pub run_skill : Registry → Uuid → Text → Fields → Exec Value
run_skill registry user name arguments = elim (get name registry) [
  | none ↦ raise bad_operation
  | some skill ↦ skill.handler user arguments
]

-- "read"
abbrev pub read_tier : Text
read_tier = 114 ∷ 101 ∷ 97 ∷ 100 ∷ []

pub record PlannedStep : Type 0 where
  pub skill : Text
  pub arguments : Fields
  pub depends_on : List ℤ

pub record WorkflowStep : Type 0 where
  pub index : ℕ
  pub skill : Text
  pub arguments : Fields
  pub depends_on : List ℤ
  pub permission_tier : Text
  pub requires_approval : Bool

-- `dependency < 0 or dependency >= index`
unfoldable pub is_bad_dependency : ℕ → ℤ → Bool
is_bad_dependency index (pos d) = not (ltb d index)
is_bad_dependency index (negsuc d) = true

abbrev pub classified : ℕ → PlannedStep → RegisteredSkill → WorkflowStep
classified index planned skill = record {
  index = index;
  skill = planned.skill;
  arguments = planned.arguments;
  depends_on = planned.depends_on;
  permission_tier = skill.permission_tier;
  requires_approval = not (text_eq skill.permission_tier read_tier);
}

unfoldable pub classify_from : Registry → ℕ → List PlannedStep → Result (List WorkflowStep)
classify_from registry index [] = ok []
classify_from registry index (p ∷ ps) =
    let rest = classify_from registry (suc index) ps in
    elim (get p.skill registry) [
      | none ↦ err bad_operation
      | some skill ↦
          if any (is_bad_dependency index) p.depends_on
          then err bad_operation
          else bind_result rest (λ steps. ok (classified index p skill ∷ steps))
    ]

unfoldable pub classify_steps : Registry → List PlannedStep → Result (List WorkflowStep)
classify_steps registry planned = classify_from registry 0 planned

-- `not step.requires_approval`
unfoldable pub is_auto_confirmable : List WorkflowStep → Bool
is_auto_confirmable steps = not (any (λ s. s.requires_approval) steps)
