-- ===== src/Exec/Steps.antt =====
-- One rule for each way in which a service method goes on or raises: a property of the method's
-- result and final state follows from the two cases, each with the equation that it brings.
use cloud_drive.Prelude.{◌≡◌, refl, Bool, true, false, Option, none, some}
use cloud_drive.Model.{Error, Db}
use cloud_drive.Exec.{Result, ok, err, Exec, required, guard, refuse, continue, ◌>>=◌, ◌>>◌}

module _ {ℓ} {B : Type 0} (Q : Result B × Db → Type ℓ) (s : Db) where
  pub step_query :
      {A : Type 0} (r : Result A) (f : A → Exec B)
      → ((e : Error) → r ≡ err e → Q (err e, s))
      → ((a : A) → r ≡ ok a → Q (f a s))
      → Q (continue r f s)
  step_query (ok a) f bad good = good a refl
  step_query (err e) f bad good = bad e refl

  pub step_required :
      {A : Type 0} (e : Error) (o : Option A) (f : A → Exec B)
      → (o ≡ none → Q (err e, s))
      → ((a : A) → o ≡ some a → Q (f a s))
      → Q ((required e o >>= f) s)
  step_required e none f bad good = bad refl
  step_required e (some a) f bad good = good a refl

  pub step_refuse :
      (e : Error) (b : Bool) (k : Exec B)
      → (b ≡ true → Q (err e, s))
      → (b ≡ false → Q (k s))
      → Q ((refuse b e >> k) s)
  step_refuse e true k bad good = bad refl
  step_refuse e false k bad good = good refl

  pub step_guard :
      (e : Error) (b : Bool) (k : Exec B)
      → (b ≡ false → Q (err e, s))
      → (b ≡ true → Q (k s))
      → Q ((guard b e >> k) s)
  step_guard e true k bad good = good refl
  step_guard e false k bad good = bad refl
