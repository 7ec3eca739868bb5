-- ===== src/Assistant/Steps/Marks.antt =====
-- That a step carries the mark of its skill: the user's approval, unless the skill only reads.
use cloud_drive.Prelude.{
  ◌≡◌, refl, true, false, not, some, List, [], ◌∷◌, ◌++◌, All, text_eq, any, arith,
}
use cloud_drive.Exec.{ok}
use cloud_drive.Assistant.Steps.{
  Registry, RegisteredSkill, get, read_tier, PlannedStep, WorkflowStep, classify_steps,
  is_auto_confirmable,
}
use cloud_drive.Assistant.Steps.Runnable.{IsClassified, classify_steps-IsRunnable}

abbrev pub IsMarked : Registry → WorkflowStep → Type 0
IsMarked registry s =
    (skill : RegisteredSkill) × (get s.skill registry ≡ some skill)
    × (s.requires_approval ≡ not (text_eq skill.permission_tier read_tier))

IsClassified-IsMarked :
    (registry : Registry) (planned : List PlannedStep) (steps : List WorkflowStep)
    → IsClassified registry planned steps
    → All (IsMarked registry) steps
IsClassified-IsMarked registry [] [] h = tt
IsClassified-IsMarked registry [] (s ∷ ss) h = absurd h
IsClassified-IsMarked registry (p ∷ ps) [] h = absurd h
IsClassified-IsMarked registry (p ∷ ps) (s ∷ ss)
      ((skill, found, tier), (same, (args, (mark, rest)))) =
    ((skill, rw same found, rw (mark, tier) refl), IsClassified-IsMarked registry ps ss rest)

pub classify_steps-IsMarked :
    (registry : Registry) (planned : List PlannedStep) (steps : List WorkflowStep)
    → classify_steps registry planned ≡ ok steps
    → All (IsMarked registry) steps
classify_steps-IsMarked registry planned steps h =
    IsClassified-IsMarked registry planned steps
      (classify_steps-IsRunnable registry planned steps h).1

pub head_auto_confirmable :
    (s : WorkflowStep) (ss : List WorkflowStep)
    → is_auto_confirmable (s ∷ ss) ≡ true
    → (s.requires_approval ≡ false) × (is_auto_confirmable ss ≡ true)
unfolding is_auto_confirmable any
head_auto_confirmable s ss h = ground arith

pub IsMarked-append :
    (registry : Registry) (ss ts : List WorkflowStep)
    → All (IsMarked registry) ss
    → All (IsMarked registry) ts
    → All (IsMarked registry) (ss ++ ts)
IsMarked-append registry [] ts h k = k
IsMarked-append registry (s ∷ ss) ts h k = (h.0, IsMarked-append registry ss ts h.1 k)
