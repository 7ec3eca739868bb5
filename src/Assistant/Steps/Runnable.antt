-- ===== src/Assistant/Steps/Runnable.antt =====
-- What the classification of a plan promises the executor: steps numbered in order that depend only on
-- earlier ones, each of a registered skill, whose tier decides on the user's approval.
use cloud_drive.Prelude.{
  ℕ, suc, ◌≡◌, refl, inl, inr, false, not, some, List, [], ◌∷◌, text_eq, any, Bool-cases,
  Option-cases,
}
use cloud_drive.Exec.{Result, ok, err, bind_result, Ensures, Ensures-ok}
use cloud_drive.Assistant.Steps.{
  Registry, RegisteredSkill, get, read_tier, PlannedStep, WorkflowStep, is_bad_dependency,
  classified, classify_from, classify_steps,
}

-- Steps numbered from `n` on, each depending on lower numbers.
abbrev pub IsRunnable : ℕ → List WorkflowStep → Type 0
IsRunnable n [] = Unit
IsRunnable n (s ∷ ss) =
    (s.index ≡ n) × ((any (is_bad_dependency n) s.depends_on ≡ false) × IsRunnable (suc n) ss)

-- The steps are those of the plan, with the tiers of the registered skills.
abbrev pub IsClassified : Registry → List PlannedStep → List WorkflowStep → Type 0
IsClassified registry [] [] = Unit
IsClassified registry [] (s ∷ ss) = ⊥
IsClassified registry (p ∷ ps) [] = ⊥
IsClassified registry (p ∷ ps) (s ∷ ss) =
    ((skill : RegisteredSkill) × (get p.skill registry ≡ some skill)
      × (s.permission_tier ≡ skill.permission_tier))
    × ((s.skill ≡ p.skill)
        × ((s.arguments ≡ p.arguments)
            × ((s.requires_approval ≡ not (text_eq s.permission_tier read_tier))
                × IsClassified registry ps ss)))

abbrev IsPrepared : Registry → ℕ → List PlannedStep → List WorkflowStep → Type 0
IsPrepared registry n planned steps = IsRunnable n steps × IsClassified registry planned steps

classified-IsPrepared :
    (registry : Registry) (n : ℕ) (p : PlannedStep) (ps : List PlannedStep)
    (skill : RegisteredSkill)
    → get p.skill registry ≡ some skill
    → any (is_bad_dependency n) p.depends_on ≡ false
    → (rest : Result (List WorkflowStep)) → Ensures (IsPrepared registry (suc n) ps) rest
    → Ensures
        (IsPrepared registry n (p ∷ ps))
        (bind_result rest (λ steps. ok (classified n p skill ∷ steps)))
classified-IsPrepared registry n p ps skill found good (err e) h = tt
classified-IsPrepared registry n p ps skill found good (ok steps) h =
    ((refl, (good, h.0)), ((skill, found, refl), (refl, (refl, (refl, h.1)))))

classify_from-IsPrepared :
    (registry : Registry) (n : ℕ) (planned : List PlannedStep)
    → Ensures (IsPrepared registry n planned) (classify_from registry n planned)
unfolding classify_from
classify_from-IsPrepared registry n [] = (tt, tt)
classify_from-IsPrepared registry n (p ∷ ps) = elim (Option-cases (get p.skill registry)) [
  | inl e ↦ rw (e, Ensures) tt
  | inr (skill, e) ↦ elim (Bool-cases (any (is_bad_dependency n) p.depends_on)) [
    | inl bad ↦ rw (e, bad, Ensures) tt
    | inr good ↦
        rw (e, good, Ensures)
          (classified-IsPrepared registry n p ps skill e good _
            (classify_from-IsPrepared registry (suc n) ps))
  ]
]

-- A plan that passes the classification becomes a workflow whose steps are numbered from 0 and depend
-- only on steps before them, one for each planned step with its skill and arguments, where every skill is
-- registered, the tier is that of the skill, and every tier but `read` needs the user's approval.
pub classify_steps-IsRunnable :
    (registry : Registry) (planned : List PlannedStep) (steps : List WorkflowStep)
    → classify_steps registry planned ≡ ok steps
    → IsRunnable 0 steps × IsClassified registry planned steps
unfolding classify_steps
classify_steps-IsRunnable registry planned steps h =
    Ensures-ok (IsPrepared registry 0 planned) _ steps h
      (classify_from-IsPrepared registry 0 planned)
