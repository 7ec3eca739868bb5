-- ===== src/Assistant/Context.antt =====
-- What the planner is reminded of: the messages of the conversation (backend/app/assistant/memory.py) and
-- their trimming to the size of the model's context (backend/app/assistant/context.py).
pub mod Trimmed
use cloud_drive.Prelude.{
  ℕ, zero, suc, ◌+◌, ◌-◌, ◌*◌, max, Bool, true, false, not, ◌&&◌, List, [], ◌∷◌, ◌++◌, Text, length,
  keep, drop, ltb, if◌then◌else◌,
}

pub data Role : Type 0 where
  system user assistant tool : Role

pub record LlmMessage : Type 0 where
  pub role : Role
  pub content : Text

unfoldable pub is_system : LlmMessage → Bool
is_system m = elim m.role [ Role.system ↦ true | _ ↦ false ]

-- `sum(len(m.content) for m in messages)`
unfoldable pub chars : List LlmMessage → ℕ
chars [] = 0
chars (m ∷ ms) = length m.content + chars ms

-- `reversed(xs)`, before the items of `acc`
unfoldable pub reverse_onto {ℓ} : {A : Type ℓ} → List A → List A → List A
reverse_onto [] acc = acc
reverse_onto (x ∷ xs) acc = reverse_onto xs (x ∷ acc)

abbrev pub has_items {ℓ} : {A : Type ℓ} → List A → Bool
has_items [] = false
has_items (x ∷ xs) = true

-- From the newest message on, as long as the characters fit; one is always taken.
unfoldable pub select : ℕ → List LlmMessage → ℕ → List LlmMessage → List LlmMessage
select max_chars selected used [] = selected
select max_chars selected used (m ∷ ms) =
    let more = select max_chars (m ∷ selected) (used + length m.content) ms in
    if has_items selected && ltb max_chars (used + length m.content) then selected else more

unfoldable pub max_chars_of : ℕ → ℕ
max_chars_of num_ctx = max 1024 (num_ctx * 4)

unfoldable pub trim : ℕ → List LlmMessage → List LlmMessage
trim num_ctx messages =
    let system_messages = keep is_system messages in
    let non_system = keep (λ m. not (is_system m)) messages in
    system_messages
    ++ select (max_chars_of num_ctx) [] (chars system_messages) (reverse_onto non_system [])

-- A message of the user or the assistant that says something.
unfoldable pub is_replayed : LlmMessage → Bool
is_replayed m =
    has_items m.content && elim m.role [ Role.user ↦ true | Role.assistant ↦ true | _ ↦ false ]

-- `history[-max_messages:]`
unfoldable pub history_to_messages : ℕ → List LlmMessage → List LlmMessage
history_to_messages zero messages = []
history_to_messages (suc n) messages =
    let history = keep is_replayed messages in drop (length history - suc n) history
