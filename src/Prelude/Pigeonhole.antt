-- ===== src/Prelude/Pigeonhole.antt =====
-- A list without repetitions whose items all stand in another list is no longer than it.
use Prim.Native.Nat.{suc, ◌≤◌}
use mathlib.Core.Path.{◌≡◌, refl}
use mathlib.Core.Logic.{◌≢◌}
use mathlib.Core.List.{List, [], ◌∷◌}
use native.Mathlib.Omega.{arith}
use cloud_drive.Prelude.Lists.{length, All}

module _ {ℓ} {A : Type ℓ} where
  -- a place of `a` in the list
  pub data In (a : A) : List A → Type ℓ where
    here : {x : A} {xs : List A} → a ≡ x → In a (x ∷ xs)
    there : {x : A} {xs : List A} → In a xs → In a (x ∷ xs)

  abbrev pub Distinct : List A → Type ℓ
  Distinct [] = Unit
  Distinct (x ∷ xs) = All (λ y. x ≢ y) xs × Distinct xs

  remove : {a : A} {xs : List A} → In a xs → List A
  remove (here {xs = xs} e) = xs
  remove (there {x = x} i) = x ∷ remove i

  length-remove : {a : A} {xs : List A} (i : In a xs) → suc (length (remove i)) ≡ length xs
  unfolding remove
  length-remove (here e) = refl
  length-remove (there i) = omega (arith, length-remove i)

  In-remove : {a b : A} {xs : List A} (i : In a xs) → a ≢ b → In b xs → In b (remove i)
  unfolding remove
  In-remove (here e) ne (here f) = absurd (ne (cc))
  In-remove (here e) ne (there j) = j
  In-remove (there i) ne (here f) = here f
  In-remove (there i) ne (there j) = there (In-remove i ne j)

  All-In-remove :
      {a : A} {ys : List A} (i : In a ys) (xs : List A)
      → All (λ y. a ≢ y) xs
      → All (λ y. In y ys) xs
      → All (λ y. In y (remove i)) xs
  All-In-remove i [] ne h = tt
  All-In-remove i (x ∷ xs) ne h = (In-remove i ne.0 h.0, All-In-remove i xs ne.1 h.1)

  pub length-le_of_Distinct :
      (xs ys : List A) → Distinct xs → All (λ x. In x ys) xs → length xs ≤ length ys
  length-le_of_Distinct [] ys d h = omega arith
  length-le_of_Distinct (x ∷ xs) ys d h = omega (
    arith,
    length-remove h.0,
    length-le_of_Distinct xs (remove h.0) d.1 (All-In-remove h.0 xs d.0 h.1),
  )
