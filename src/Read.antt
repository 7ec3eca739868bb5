-- ===== src/Read.antt =====
-- Read-only queries of the services: they may raise, and leave the state alone.
use cloud_drive.Prelude.{Bool, true, false, Option, none, some}
use cloud_drive.Model.{Error, Db}
use cloud_drive.Exec.{Result, ok, err, bind_result}

abbrev pub Read : Type 0 → Type 0
Read A = Db → Result A

module _ {A : Type 0} where
  abbrev pub pure : A → Read A
  pure a db = ok a

  abbrev pub gets : (Db → A) → Read A
  gets f db = ok (f db)

  -- `if x is None: raise e`
  abbrev pub required : Error → Option A → Read A
  required e none db = err e
  required e (some a) db = ok a

-- `if not b: raise e`
abbrev pub guard : Bool → Error → Read (Unit {0})
guard true e db = ok tt
guard false e db = err e

-- `if b: raise e`
abbrev pub refuse : Bool → Error → Read (Unit {0})
refuse true e db = err e
refuse false e db = ok tt

module _ {A B : Type 0} where
  infixl 5 ◌>>=◌ ◌>>◌
  abbrev pub ◌>>=◌ : Read A → (A → Read B) → Read B
  ◌>>=◌ m f db = bind_result (m db) (λ a. f a db)

  abbrev pub ◌>>◌ : Read A → Read B → Read B
  m >> k = m >>= λ _. k
