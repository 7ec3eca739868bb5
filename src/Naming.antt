-- ===== src/Naming.antt =====
-- Names of items: `_validate_name` of backend/app/drive/service.py, `_safe_filename` and
-- `_split_name` of backend/app/upload/service.py, and the numbered names that both upload and
-- restore try until one is free.
pub mod Decimal
pub mod Split
pub mod Free
use cloud_drive.Prelude.{
  ℕ, zero, suc, ◌+◌, Text, Bool, ◌||◌, ◌&&◌, Option, none, some, List, [], ◌∷◌, ◌++◌, any, length,
  take, drop, ltb, leb, ◌==◌, if◌then◌else◌, true, false,
}
use mathlib.Core.List.{reverse}
use cloud_drive.Model.{Uuid, Db, Error, bad_operation, diverges}
use cloud_drive.Exec.{Result, ok, err, bind_result}
use cloud_drive.Items.{name_exists_in_parent}
use cloud_drive.Naming.Decimal.{show}

-- The characters that `str.strip` takes for white space.
is_space : ℕ → Bool
is_space c =
    leb 9 c && leb c 13
    || leb 28 c && leb c 32
    || c == 0x85
    || c == 0xa0
    || c == 0x1680
    || leb 0x2000 c && leb c 0x200a
    || c == 0x2028
    || c == 0x2029
    || c == 0x202f
    || c == 0x205f
    || c == 0x3000

lstrip : Text → Text
lstrip [] = []
lstrip (c ∷ s) = let rest = lstrip s in if is_space c then rest else c ∷ s

unfoldable pub strip : Text → Text
unfolding lstrip is_space
strip s = lstrip (reverse (lstrip (reverse s)))

abbrev pub max_name_len : ℕ
max_name_len = 512

-- `/`, `\` and the null character
unfoldable pub is_invalid_char : ℕ → Bool
is_invalid_char c = c == 47 || c == 92 || c == 0

-- The tests on the stripped name, in the order of the source.
unfoldable pub checked_name : Text → Result Text
unfolding is_invalid_char
checked_name [] = err bad_operation
checked_name (c ∷ s) =
    if ltb max_name_len (length (c ∷ s))
    then err bad_operation
    else if any is_invalid_char (c ∷ s)
    then err bad_operation
    else ok (c ∷ s)

unfoldable pub validate_name : Text → Result Text
validate_name name = checked_name (strip name)

-- The same tests, for the name of an upload.
unfoldable pub safe_filename : Text → Result Text
safe_filename name = checked_name (strip name)

-- `str.rfind`
unfoldable pub rfind : ℕ → Text → Option ℕ
rfind c [] = none
rfind c (x ∷ s) = elim (rfind c s) [
  | some i ↦ some (suc i)
  | none ↦ if x == c then some 0 else none
]

-- The stem, and the extension with its dot.
unfoldable pub split_name : Text → Text × Text
unfolding rfind
split_name name = elim (rfind 46 name) [
  | none ↦ (name, [])
  | some i ↦ if ltb 0 i then (take i name, drop i name) else (name, [])
]

-- f"{stem} ({counter}){ext}"
unfoldable pub numbered : Text → Text → ℕ → Text
numbered stem ext counter = stem ++ (32 ∷ 40 ∷ (show counter ++ (41 ∷ ext)))

-- `while name_exists_in_parent(name): name = f"{stem} ({counter}){ext}"; counter += 1`, on fuel.
unfoldable pub free_name_loop : ℕ → Text → Text → Option Uuid → Uuid → Text → ℕ → Db → Result Text
free_name_loop zero stem ext parent owner name counter db = err diverges
free_name_loop (suc fuel) stem ext parent owner name counter db =
    bind_result (name_exists_in_parent name parent owner none db) (λ taken. elim taken [
      | true ↦
          free_name_loop fuel stem ext parent owner (numbered stem ext counter) (counter + 1) db
      | false ↦ ok name
    ])

-- More names are tried than there are rows.
unfoldable pub free_name : Text → Option Uuid → Uuid → Db → Result Text
free_name name parent owner db =
    let (stem, ext) = split_name name in
    free_name_loop (suc (length db.items + 1)) stem ext parent owner name 1 db
