-- ===== src/Assistant/Selection/Marks.antt =====
-- The marks of the steps while a selection is resolved.
use cloud_drive.Prelude.{
  ℕ, zero, suc, ◌+◌, ◌≡◌, inl, inr, none, some, List, [], ◌∷◌, ◌++◌, All, IfSome, IfSome-some,
  length, Bool-cases, Option-cases,
}
use cloud_drive.Assistant.Value.{ℤ, Fields, any_field, map_fields}
use cloud_drive.Assistant.Steps.{Registry, WorkflowStep}
use cloud_drive.Assistant.Steps.Marks.{IsMarked}
use cloud_drive.Assistant.Selection.{
  Renumbering, selection_arguments, is_each, resolved_value, renumbered, copies, single,
  expand_step, step_numbers, expand_steps, apply_selection,
}

All-append {ℓ κ} :
    {A : Type ℓ} (P : A → Type κ) (xs ys : List A) → All P xs → All P ys → All P (xs ++ ys)
All-append P [] ys h k = k
All-append P (x ∷ xs) ys h k = (h.0, All-append P xs ys h.1 k)

-- What a step keeps when it gets a new number, new arguments and new dependencies.
module _ (P : WorkflowStep → Type 0)
    (stable : (s : WorkflowStep) (n : ℕ) (args : Fields) (deps : List ℤ)
      → P s
      → P (renumbered s n args deps)) where
  copies-All :
      (items : List Fields) (old_to_new : Renumbering) (s : WorkflowStep) (args : Fields)
      (n i index : ℕ)
      → P s
      → IfSome (All P) (copies items old_to_new s args n i index)
  unfolding copies
  copies-All items old_to_new s args zero i index h = tt
  copies-All items old_to_new s args (suc n) i index h =
      let more = copies-All items old_to_new s args n (suc i) (suc index) h in
      elim (Option-cases (map_fields (resolved_value items old_to_new (some i)) args)) [
        | inl e ↦ rw (e, IfSome) tt
        | inr (resolved, e) ↦
            elim (Option-cases (copies items old_to_new s args n (suc i) (suc index))) [
              | inl f ↦ rw (e, f, IfSome) tt
              | inr (steps, f) ↦
                  rw (e, f, IfSome) (stable s _ _ _ h, IfSome-some (All P) _ steps f more)
            ]
      ]

  expand_step-All :
      (registry : Registry) (items : List Fields) (old_to_new : Renumbering) (index : ℕ)
      (s : WorkflowStep)
      → P s
      → IfSome (All P) (expand_step registry items old_to_new index s)
  unfolding expand_step single
  expand_step-All registry items old_to_new index s h =
      let args = selection_arguments registry s in
      elim (Bool-cases (any_field is_each args)) [
        | inl e ↦ rw (e, IfSome) (copies-All items old_to_new s args (length items) 0 index h)
        | inr e ↦ elim (Option-cases (map_fields (resolved_value items old_to_new none) args)) [
          | inl f ↦ rw (e, f, IfSome) tt
          | inr (resolved, f) ↦ rw (e, f, IfSome) (stable s _ _ _ h, tt)
        ]
      ]

  expand_steps-All :
      (registry : Registry) (items : List Fields) (ss : List WorkflowStep)
      (old_to_new : Renumbering) (index : ℕ)
      → All P ss
      → IfSome (All P) (expand_steps registry items old_to_new index ss)
  unfolding expand_steps
  expand_steps-All registry items [] old_to_new index h = tt
  expand_steps-All registry items (s ∷ ss) old_to_new index h =
      let now = expand_step-All registry items old_to_new index s h.0 in
      elim (Option-cases (expand_step registry items old_to_new index s)) [
        | inl e ↦ rw (e, IfSome) tt
        | inr (new, e) ↦
            let after : Renumbering = (s.index, step_numbers new) ∷ old_to_new in
            let more = expand_steps-All registry items ss after (index + length new) h.1 in
            elim (Option-cases (expand_steps registry items after (index + length new) ss)) [
              | inl f ↦ rw (e, f, IfSome) tt
              | inr (rest, f) ↦
                  rw (e, f, IfSome)
                    (All-append P new rest (IfSome-some (All P) _ new e now)
                      (IfSome-some (All P) _ rest f more))
            ]
      ]

  apply_selection-All :
      (registry : Registry) (items : List Fields) (ss out : List WorkflowStep)
      → apply_selection ss items registry ≡ some out
      → All P ss
      → All P out
  unfolding apply_selection
  apply_selection-All registry items ss out e h =
      IfSome-some (All P) _ out e (expand_steps-All registry items ss [] 0 h)

pub apply_selection-IsMarked :
    (registry : Registry) (items : List Fields) (ss out : List WorkflowStep)
    → apply_selection ss items registry ≡ some out
    → All (IsMarked registry) ss
    → All (IsMarked registry) out
apply_selection-IsMarked registry =
    apply_selection-All (IsMarked registry) (λ s n args deps h. h) registry
