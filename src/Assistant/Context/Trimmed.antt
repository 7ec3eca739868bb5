-- ===== src/Assistant/Context/Trimmed.antt =====
-- The lemmas on the trimming of the context.
use mathlib.Core.List.{append_assoc, append-nil}
use cloud_drive.Prelude.{
  ℕ, ◌+◌, ◌≤◌, ◌≡◌, ◌≢◌, refl, sym, ◌∙◌, ap, subst, ◌⊎◌, inl, inr, true, false, not, ◌&&◌, List, [],
  ◌∷◌, ◌++◌, arith, length, keep, ltb, Bool-cases,
}
use cloud_drive.Assistant.Context.{
  LlmMessage, is_system, chars, reverse_onto, has_items, select, max_chars_of, trim,
}

reverse_onto-append {ℓ} :
    {A : Type ℓ} (xs acc : List A) → reverse_onto xs acc ≡ reverse_onto xs [] ++ acc
unfolding reverse_onto
reverse_onto-append [] acc = refl
reverse_onto-append (x ∷ xs) acc =
    reverse_onto-append xs (x ∷ acc)
    ∙ (sym (append_assoc (reverse_onto xs []) (x ∷ []) acc)
        ∙ ap (λ ys. ys ++ acc) (sym (reverse_onto-append xs (x ∷ []))))

reverse_onto_twice {ℓ} :
    {A : Type ℓ} (xs ys zs : List A)
    → reverse_onto (reverse_onto xs ys) zs ≡ reverse_onto ys (xs ++ zs)
unfolding reverse_onto
reverse_onto_twice [] ys zs = refl
reverse_onto_twice (x ∷ xs) ys zs = reverse_onto_twice xs (x ∷ ys) zs

-- The characters fit, or there is one message at most.
abbrev pub Fits : ℕ → ℕ → List LlmMessage → Type 0
Fits max_chars base kept = (base + chars kept ≤ max_chars) ⊎ (length kept ≤ 1)

abbrev pub IsSelected : ℕ → ℕ → List LlmMessage → List LlmMessage → Type 0
IsSelected max_chars base all kept =
    ((dropped : List LlmMessage) × (all ≡ dropped ++ kept))
    × (Fits max_chars base kept × (kept ≡ [] → all ≡ []))

has_items-nonempty {ℓ} : {A : Type ℓ} (xs : List A) → has_items xs ≡ true → xs ≢ []
has_items-nonempty [] h e = absurd (ground arith)
has_items-nonempty (x ∷ xs) h e = absurd (ground arith)

no_items-length {ℓ} : {A : Type ℓ} (xs : List A) → has_items xs ≡ false → length xs ≡ 0
no_items-length [] h = refl
no_items-length (x ∷ xs) h = absurd (ground arith)

room-Fits :
    (max_chars base used : ℕ) (m : LlmMessage) (selected : List LlmMessage)
    → used ≡ base + chars selected
    → (has_items selected && ltb max_chars (used + length m.content)) ≡ false
    → Fits max_chars base (m ∷ selected)
unfolding chars
room-Fits max_chars base used m selected e room = elim (Bool-cases (has_items selected)) [
  | inl some_item ↦
      let small : ltb max_chars (used + length m.content) ≡ false = ground arith in
      let le : used + length m.content ≤ max_chars = ground arith in inl (omega (arith, e, le))
  | inr no_item ↦ inr (omega (arith, no_items-length selected no_item))
]

select-IsSelected :
    (max_chars base used : ℕ) (selected ms : List LlmMessage)
    → used ≡ base + chars selected
    → Fits max_chars base selected
    → IsSelected max_chars base (reverse_onto ms selected) (select max_chars selected used ms)
unfolding select reverse_onto chars
select-IsSelected max_chars base used selected [] e fits = (([], refl), (fits, λ h. h))
select-IsSelected max_chars base used selected (m ∷ ms) e fits =
    elim (Bool-cases (has_items selected && ltb max_chars (used + length m.content))) [
      | inl full ↦ rw full (
        (reverse_onto (m ∷ ms) [], reverse_onto-append (m ∷ ms) selected),
        (fits, λ h. absurd (has_items-nonempty selected (ground arith) h)),
      )
      | inr room ↦ rw room (
          select-IsSelected max_chars base (used + length m.content) (m ∷ selected) ms
            (omega (arith, e)) (room-Fits max_chars base used m selected e room))
    ]

-- Trimming a conversation keeps its system messages and the newest of the others, in their order, one of
-- them at least where there is any; together they have no more characters than the context allows, except
-- that a single message is kept whatever its size.
pub trim-IsSelected :
    (num_ctx : ℕ) (messages : List LlmMessage)
    → let system_messages = keep is_system messages in
      (kept : List LlmMessage) × (trim num_ctx messages ≡ system_messages ++ kept)
      × IsSelected
          (max_chars_of num_ctx)
          (chars system_messages)
          (keep (λ m. not (is_system m)) messages)
          kept
unfolding trim chars reverse_onto
trim-IsSelected num_ctx messages =
    let system_messages = keep is_system messages in
    let others = keep (λ m. not (is_system m)) messages in
    let kept = select (max_chars_of num_ctx) [] (chars system_messages) (reverse_onto others []) in
    let back : reverse_onto (reverse_onto others []) [] ≡ others =
      reverse_onto_twice others [] [] ∙ append-nil others in
    (
      kept,
      refl,
      subst (λ all. IsSelected (max_chars_of num_ctx) (chars system_messages) all kept) back
          (select-IsSelected (max_chars_of num_ctx) (chars system_messages) (chars system_messages)
            [] (reverse_onto others []) (omega arith) (inr (omega arith))),
    )
