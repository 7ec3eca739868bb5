-- ===== src/Assistant/Validate.antt =====
-- The check of a plan against the skills before anything runs, and the loop that asks the planner again with
-- what was wrong (backend/app/assistant/planner.py, `validate_plan` and `WorkflowPlanner.plan`). The model's
-- answer, read as JSON, is a parameter.
pub mod Sound
use cloud_drive.Prelude.{
  ℕ, zero, suc, Bool, true, false, not, ◌&&◌, ◌||◌, Option, none, some, List, [], ◌∷◌, ◌++◌, Text,
  text_eq, leb, ◌==◌, length, if◌then◌else◌,
}
use cloud_drive.Naming.{strip}
use cloud_drive.Exec.{Result, ok, err, bind_result}
use cloud_drive.Assistant.Value.{
  ℤ, pos, negsuc, Value, null, boolean, integer, string, array, object, Fields, end, field, lookup,
}
use cloud_drive.Assistant.References.{step_ref, get_field}
use cloud_drive.Assistant.Steps.{
  SkillOutput, RegisteredSkill, Registry, get, PlannedStep, is_bad_dependency,
}
use cloud_drive.Assistant.Resolve.{path_key, parent_id_key, path_parts}
use cloud_drive.Assistant.Planning.{PlanResult, planned_at, reply_or}

-- What is wrong at a step: its number, the argument, and what is referred to.
pub data PlanProblem : Type 0 where
  unknown_skill : ℕ → Text → PlanProblem
  bad_dependency : ℕ → ℤ → PlanProblem
  raw_bytes : ℕ → Text → PlanProblem
  bad_reference : ℕ → ℤ → PlanProblem
  wrong_path : ℕ → Text → ℕ → PlanProblem
  not_a_folder : ℕ → Text → ℕ → PlanProblem
  missing_argument : ℕ → Text → PlanProblem

is_hex : ℕ → Bool
is_hex c = leb 48 c && leb c 57 || (leb 65 c && leb c 70 || leb 97 c && leb c 102)

-- `<0x..>`
starts_byte : Text → Bool
unfolding is_hex
starts_byte (a ∷ b ∷ c ∷ d ∷ e ∷ f ∷ s) =
    a == 60 && (b == 48 && (c == 120 && (is_hex d && (is_hex e && f == 62))))
starts_byte s = false

has_byte_token : Text → Bool
unfolding starts_byte
has_byte_token [] = false
has_byte_token (c ∷ s) = let rest = has_byte_token s in if starts_byte (c ∷ s) then true else rest

unfoldable pub has_byte_tokens : Value → Bool
unfolding has_byte_token
has_byte_tokens (string s) = has_byte_token s
has_byte_tokens v = false

-- The first part of a path; a list or a dict begins with a bracket.
path_head : Option (List Text) → Text
path_head none = 91 ∷ []
path_head (some []) = []
path_head (some (p ∷ ps)) = p

all_digits : Text → Bool
all_digits [] = true
all_digits (c ∷ s) = leb 48 c && leb c 57 && all_digits s

is_digit_text : Text → Bool
unfolding all_digits
is_digit_text [] = false
is_digit_text (c ∷ s) = all_digits (c ∷ s)

-- "items"
abbrev items_word : Text
items_word = 105 ∷ 116 ∷ 101 ∷ 109 ∷ 115 ∷ []

-- The path does not fit what the skill returns.
is_wrong_path : SkillOutput → Text → Bool
unfolding is_digit_text
is_wrong_path SkillOutput.opaque head = false
is_wrong_path SkillOutput.paged_items head = not (text_eq head items_word)
is_wrong_path SkillOutput.item_list head = not (is_digit_text head) && not (text_eq head (42 ∷ []))
is_wrong_path output head =
    text_eq head items_word || (text_eq head (42 ∷ []) || is_digit_text head)

is_mutated : SkillOutput → Bool
is_mutated SkillOutput.mutated_item = true
is_mutated output = false

problem_if : Bool → PlanProblem → List PlanProblem
problem_if true p = p ∷ []
problem_if false p = []

unfoldable pub reference_problems : ℕ → Text → Text → Option RegisteredSkill → ℕ → List PlanProblem
unfolding is_wrong_path is_mutated problem_if
reference_problems index arg_name head none from_step = []
reference_problems index arg_name head (some source) from_step =
    problem_if (is_wrong_path source.output head) (wrong_path index arg_name from_step)
    ++ problem_if (text_eq arg_name parent_id_key && is_mutated source.output)
        (not_a_folder index arg_name from_step)

skill_of : Registry → Option PlannedStep → Option RegisteredSkill
skill_of registry none = none
skill_of registry (some p) = get p.skill registry

step_ref_problems : Registry → List PlannedStep → ℕ → Text → Value → ℤ → List PlanProblem
unfolding path_head skill_of
step_ref_problems registry all_steps index arg_name v (negsuc i) =
    bad_reference index (negsuc i) ∷ []
step_ref_problems registry all_steps index arg_name v (pos i) =
    if is_bad_dependency index (pos i)
    then bad_reference index (pos i) ∷ []
    else reference_problems index arg_name (path_head (path_parts (get_field path_key v)))
        (skill_of registry (planned_at i all_steps)) i

unfoldable pub argument_problems : Registry → List PlannedStep → ℕ → Text → Value → List PlanProblem
unfolding step_ref_problems
argument_problems registry all_steps index arg_name v =
    if has_byte_tokens v then raw_bytes index arg_name ∷ [] else elim (step_ref v) [
      | none ↦ []
      | some i ↦ step_ref_problems registry all_steps index arg_name v i
    ]

unfoldable pub all_argument_problems : Registry → List PlannedStep → ℕ → Fields → List PlanProblem
all_argument_problems registry all_steps index end = []
all_argument_problems registry all_steps index (field k v fs) =
    argument_problems registry all_steps index k v
    ++ all_argument_problems registry all_steps index fs

unfoldable pub dependency_problems : ℕ → List ℤ → List PlanProblem
dependency_problems index [] = []
dependency_problems index (d ∷ ds) =
    let rest = dependency_problems index ds in
    if is_bad_dependency index d then bad_dependency index d ∷ rest else rest

is_missing : Option Value → Bool
is_missing none = true
is_missing (some null) = true
is_missing (some (string s)) = elim (strip s) [ [] ↦ true | c ∷ t ↦ false ]
is_missing (some v) = false

unfoldable pub required_problems : ℕ → List Text → Fields → List PlanProblem
unfolding is_missing
required_problems index [] arguments = []
required_problems index (arg ∷ args) arguments =
    let rest = required_problems index args arguments in
    if is_missing (lookup arg arguments) then missing_argument index arg ∷ rest else rest

unfoldable pub step_problems : Registry → List PlannedStep → ℕ → PlannedStep → List PlanProblem
step_problems registry all_steps index step = elim (get step.skill registry) [
  | none ↦ unknown_skill index step.skill ∷ []
  | some skill ↦
      dependency_problems index step.depends_on
      ++ (all_argument_problems registry all_steps index step.arguments
          ++ required_problems index skill.required step.arguments)
]

unfoldable pub validate_from : Registry → List PlannedStep → ℕ → List PlannedStep → List PlanProblem
validate_from registry all_steps index [] = []
validate_from registry all_steps index (p ∷ ps) =
    step_problems registry all_steps index p ++ validate_from registry all_steps (suc index) ps

unfoldable pub validate_plan : Registry → List PlannedStep → List PlannedStep → List PlanProblem
validate_plan registry preceding steps =
    validate_from registry (preceding ++ steps) (length preceding) steps

-- An answer of the model: its text, and the plan that it is when it reads as one.
pub record ModelAnswer : Type 0 where
  pub content : Text
  pub parsed : Option PlanResult

-- "I could not plan that request."
abbrev default_reply : Text
default_reply =
    73 ∷ 32 ∷ 99 ∷ 111 ∷ 117 ∷ 108 ∷ 100 ∷ 32 ∷ 110 ∷ 111 ∷ 116 ∷ 32 ∷ 112 ∷ 108 ∷ 97 ∷ 110 ∷ 32
    ∷ 116 ∷ 104 ∷ 97 ∷ 116 ∷ 32 ∷ 114 ∷ 101 ∷ 113 ∷ 117 ∷ 101 ∷ 115 ∷ 116 ∷ 46 ∷ []

-- "I couldn't turn that into a valid action with the tools I have. Could you rephrase or be more specific?"
abbrev exhausted_reply : Text
exhausted_reply =
    73 ∷ 32 ∷ 99 ∷ 111 ∷ 117 ∷ 108 ∷ 100 ∷ 110 ∷ 39 ∷ 116 ∷ 32 ∷ 116 ∷ 117 ∷ 114 ∷ 110 ∷ 32 ∷ 116
    ∷ 104 ∷ 97 ∷ 116 ∷ 32 ∷ 105 ∷ 110 ∷ 116 ∷ 111 ∷ 32 ∷ 97 ∷ 32 ∷ 118 ∷ 97 ∷ 108 ∷ 105 ∷ 100 ∷ 32
    ∷ 97 ∷ 99 ∷ 116 ∷ 105 ∷ 111 ∷ 110 ∷ 32 ∷ 119 ∷ 105 ∷ 116 ∷ 104 ∷ 32 ∷ 116 ∷ 104 ∷ 101 ∷ 32 ∷ 116
    ∷ 111 ∷ 111 ∷ 108 ∷ 115 ∷ 32 ∷ 73 ∷ 32 ∷ 104 ∷ 97 ∷ 118 ∷ 101 ∷ 46 ∷ 32 ∷ 67 ∷ 111 ∷ 117 ∷ 108
    ∷ 100 ∷ 32 ∷ 121 ∷ 111 ∷ 117 ∷ 32 ∷ 114 ∷ 101 ∷ 112 ∷ 104 ∷ 114 ∷ 97 ∷ 115 ∷ 101 ∷ 32 ∷ 111
    ∷ 114 ∷ 32 ∷ 98 ∷ 101 ∷ 32 ∷ 109 ∷ 111 ∷ 114 ∷ 101 ∷ 32 ∷ 115 ∷ 112 ∷ 101 ∷ 99 ∷ 105 ∷ 102 ∷ 105
    ∷ 99 ∷ 63 ∷ []

abbrev without_steps : Text → PlanResult
without_steps reply = record { reply = reply; steps = []; needs_followup = false }

-- The model is asked with the problems of each of its answers so far.
module _ (llm : List (List PlanProblem) → Result ModelAnswer) (registry : Registry)
    (preceding : List PlannedStep) where
  unfoldable pub plan_loop : ℕ → List (List PlanProblem) → Text → Result PlanResult
  plan_loop zero asked last_reply =
      ok (without_steps (if text_eq last_reply default_reply then exhausted_reply else last_reply))
  plan_loop (suc n) asked last_reply = bind_result (llm asked) (λ answer. elim answer.parsed [
    | none ↦ ok (without_steps (reply_or (strip answer.content) last_reply))
    | some plan ↦ elim (validate_plan registry preceding plan.steps) [
      | [] ↦ ok plan
      | p ∷ ps ↦ plan_loop n (asked ++ (p ∷ ps) ∷ []) (reply_or plan.reply last_reply)
    ]
  ])

  unfoldable pub plan : ℕ → Result PlanResult
  plan max_repair = plan_loop (suc max_repair) [] default_reply
