-- ===== src/Exec.antt =====
-- Service methods: a state-passing computation that may raise. What was written before a raise stays
-- written, so the state comes back beside the error; the request handler decides on a rollback.
pub mod Steps
use cloud_drive.Prelude.{
  ◌≡◌, refl, ◌⊎◌, inl, inr, subst, All, IfSome, Bool, true, false, Option, none, some, List, [],
  ◌∷◌,
}
use cloud_drive.Model.{Error, multiple_results, no_result, Db}

pub data Result {ℓ} (A : Type ℓ) : Type ℓ where
  ok : A → Result A
  err : Error → Result A

-- A read-only computation over one state.
abbrev pub bind_result {ℓ κ} : {A : Type ℓ} {B : Type κ} → Result A → (A → Result B) → Result B
bind_result (ok a) f = f a
bind_result (err e) f = err e

-- What a computation returns, if it returns, has a property.
abbrev pub Ensures {ℓ κ} : {A : Type ℓ} → (A → Type κ) → Result A → Type κ
Ensures P (ok a) = P a
Ensures P (err e) = Unit

pub Ensures-ok {ℓ κ} :
    {A : Type ℓ} (P : A → Type κ) (r : Result A) (a : A) → r ≡ ok a → Ensures P r → P a
Ensures-ok P r a e h = subst (Ensures P) e h

pub Result-cases {ℓ} :
    {A : Type ℓ} (r : Result A) → ((e : Error) × (r ≡ err e)) ⊎ ((a : A) × (r ≡ ok a))
Result-cases (ok a) = inr (a, refl)
Result-cases (err e) = inl (e, refl)

-- `scalar_one_or_none()`: no row, one row, or `MultipleResultsFound`
unfoldable pub one_or_none {ℓ} : {A : Type ℓ} → List A → Result (Option A)
one_or_none [] = ok none
one_or_none (x ∷ []) = ok (some x)
one_or_none (x ∷ y ∷ xs) = err multiple_results

pub one_or_none-All {ℓ} :
    {A : Type ℓ} (P : A → Type 0) (xs : List A) → All P xs → Ensures (IfSome P) (one_or_none xs)
unfolding one_or_none
one_or_none-All P [] h = tt
one_or_none-All P (x ∷ []) h = h.0
one_or_none-All P (x ∷ y ∷ xs) h = tt

abbrev pub Exec : Type 0 → Type 0
Exec A = Db → Result A × Db

module _ {A : Type 0} where
  abbrev pub pure : A → Exec A
  pure a s = (ok a, s)

  abbrev pub raise : Error → Exec A
  raise e s = (err e, s)

  -- a query that may raise
  abbrev pub query : (Db → Result A) → Exec A
  query q s = (q s, s)

  abbrev pub gets : (Db → A) → Exec A
  gets f s = (ok (f s), s)

  -- `if x is None: raise e`
  abbrev pub required : Error → Option A → Exec A
  required e none s = (err e, s)
  required e (some a) s = (ok a, s)

-- The computation raised, and nothing changed.
abbrev pub IsRefused : {A : Type 0} → Db → Result A × Db → Type 0
IsRefused db r = (e : Error) × (r ≡ (err e, db))

abbrev pub modify : (Db → Db) → Exec (Unit {0})
modify f s = (ok tt, f s)

-- `if not b: raise e`
abbrev pub guard : Bool → Error → Exec (Unit {0})
guard true e s = (ok tt, s)
guard false e s = (err e, s)

-- `if b: raise e`
abbrev pub refuse : Bool → Error → Exec (Unit {0})
refuse true e s = (err e, s)
refuse false e s = (ok tt, s)

-- What the database raises, if it does.
abbrev pub raise_if : Option Error → Exec (Unit {0})
raise_if none s = (ok tt, s)
raise_if (some e) s = (err e, s)

-- `if b: m`
abbrev pub when : Bool → Exec (Unit {0}) → Exec (Unit {0})
when true m s = m s
when false m s = (ok tt, s)

module _ {A B : Type 0} where
  abbrev pub continue : Result A → (A → Exec B) → Exec B
  continue (ok a) f s = f a s
  continue (err e) f s = (err e, s)

  infixl 5 ◌>>=◌ ◌>>◌
  abbrev pub ◌>>=◌ : Exec A → (A → Exec B) → Exec B
  ◌>>=◌ m f s = continue (m s).0 f (m s).1

  abbrev pub ◌>>◌ : Exec A → Exec B → Exec B
  m >> k = m >>= λ _. k
