-- ===== src/Naming/Split.antt =====
-- Cutting a name before its last dot.
use cloud_drive.Prelude.{
  ℕ, zero, suc, ◌<◌, ◌≡◌, refl, ◌≢◌, ◌⊎◌, inl, inr, Text, false, none, some, [], ◌∷◌, ◌++◌, arith,
  take, drop, any, ltb, ◌==◌, Option-cases, Bool-cases,
}
use mathlib.Core.List.{append-nil}
use cloud_drive.Naming.{rfind, split_name}

take-append-drop : (i : ℕ) (s : Text) → take i s ++ drop i s ≡ s
take-append-drop zero s = refl
take-append-drop (suc i) [] = refl
take-append-drop (suc i) (x ∷ s) = rw (take-append-drop i s)

-- No position: the character does not occur.
rfind-none : (c : ℕ) (s : Text) → rfind c s ≡ none → any (λ x. x == c) s ≡ false
unfolding rfind any
rfind-none c [] h = refl
rfind-none c (x ∷ s) h = ground (arith, rfind-none c s)

-- A position: the character stands there, and not behind it.
rfind-some :
    (c : ℕ) (s : Text) (i : ℕ)
    → rfind c s ≡ some i
    → (rest : Text) × (drop i s ≡ c ∷ rest) × (any (λ x. x == c) rest ≡ false)
unfolding rfind
rfind-some c [] i h = absurd (ground arith)
rfind-some c (x ∷ s) i h = elim (Option-cases (rfind c s)) [
  | inl e ↦ elim (Bool-cases (x == c)) [
    | inl same ↦ let at : i ≡ 0 = ground arith in (s, rw at (ground arith), rfind-none c s e)
    | inr other ↦ absurd (ground arith)
  ]
  | inr (j, e) ↦
      let at : i ≡ suc j = ground arith in
      let (rest, d, a) = rfind-some c s j e in (rest, rw at d, a)
]

-- What `split_name` promises of a name, its stem and its extension.
pub record IsSplit (name stem ext : Text) : Type 0 where
  pub joined : stem ++ ext ≡ name
  pub dotted : (ext ≡ []) ⊎ ((rest : Text) × (ext ≡ 46 ∷ rest) × (any (λ x. x == 46) rest ≡ false))
  pub rooted : name ≢ [] → stem ≢ []

IsSplit-whole : (s : Text) → IsSplit s s []
IsSplit-whole s = record { joined = append-nil s; dotted = inl refl; rooted = λ ne. ne }

take-ne : (i : ℕ) (s : Text) → 0 < i → s ≢ [] → take i s ≢ []
take-ne zero s h ne e = absurd (omega arith)
take-ne (suc i) [] h ne e = ne refl
take-ne (suc i) (x ∷ s) h ne e = cc

-- Stem and extension joined are the name; an extension is empty or starts with the last dot of the
-- name; the stem of a name that is not empty is not empty.
pub split_name-IsSplit : (name : Text) → IsSplit name (split_name name).0 (split_name name).1
unfolding split_name
split_name-IsSplit name = elim (Option-cases (rfind 46 name)) [
  | inl e ↦ rw (e, split_name) (IsSplit-whole name)
  | inr (i, e) ↦ elim (Bool-cases (ltb 0 i)) [
    | inl inner ↦
        rw (e, split_name, inner)
          (record {
            joined = take-append-drop i name;
            dotted = inr (rfind-some 46 name i e);
            rooted = take-ne i name (ground arith);
          })
    | inr first ↦ rw (e, split_name, first) (IsSplit-whole name)
  ]
]
