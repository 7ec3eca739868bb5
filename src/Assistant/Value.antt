-- ===== src/Assistant/Value.antt =====
-- The JSON values that backend/app/assistant/workflow.py passes as arguments and outputs of steps, with
-- Python's operations on them: `dict.get`, `d[key] = value`, `list[i]` and `bool(value)`.
use cloud_drive.Prelude.{
  ℕ, zero, suc, ◌-◌, ◌*◌, ◌+◌, Bool, true, false, not, ◌&&◌, Option, none, some, [], ◌∷◌, Text,
  text_eq, ltb, leb, ◌==◌, if◌then◌else◌,
}
use cloud_drive.Naming.{strip}

pub data ℤ : Type 0 where
  pos negsuc : ℕ → ℤ

mutual
  pub data Value : Type 0 where
    null : Value
    boolean : Bool → Value
    integer : ℤ → Value
    string : Text → Value
    array : Values → Value
    object : Fields → Value

  pub data Values : Type 0 where
    nil : Values
    cons : Value → Values → Values

  -- A dict, in the order of its keys.
  pub data Fields : Type 0 where
    end : Fields
    field : Text → Value → Fields → Fields

unfoldable pub lookup : Text → Fields → Option Value
lookup key end = none
lookup key (field k v fs) = let rest = lookup key fs in if text_eq k key then some v else rest

-- `fs[key] = value`
unfoldable pub put : Text → Value → Fields → Fields
put key value end = field key value end
put key value (field k v fs) =
    let rest = put key value fs in if text_eq k key then field k value fs else field k v rest

unfoldable pub any_field : (Value → Bool) → Fields → Bool
any_field test end = false
any_field test (field k v fs) = let rest = any_field test fs in if test v then true else rest

-- `{key: f(key, value) for key, value in fs.items()}`, where `f` may fail.
unfoldable pub map_fields : (Text → Value → Option Value) → Fields → Option Fields
map_fields f end = some end
map_fields f (field k v fs) =
    let rest = map_fields f fs in
    elim (f k v) [
      | none ↦ none
      | some w ↦ elim rest [ none ↦ none | some ws ↦ some (field k w ws) ]
    ]

-- The values of the keys that `chosen` does not hold.
unfoldable pub drop_fields : (Value → Bool) → Fields → Fields
drop_fields chosen end = end
drop_fields chosen (field k v fs) =
    let rest = drop_fields chosen fs in if chosen v then rest else field k v rest

unfoldable pub len : Values → ℕ
len nil = 0
len (cons v vs) = suc (len vs)

unfoldable pub nth : ℕ → Values → Option Value
nth i nil = none
nth zero (cons v vs) = some v
nth (suc i) (cons v vs) = nth i vs

-- `vs[i]`, which counts from the end when `i` is negative.
unfoldable pub get_index : ℤ → Values → Option Value
get_index (pos i) vs = nth i vs
get_index (negsuc i) vs = if ltb i (len vs) then nth (len vs - suc i) vs else none

unfoldable pub is_truthy : Value → Bool
is_truthy null = false
is_truthy (boolean b) = b
is_truthy (integer (pos n)) = not (n == 0)
is_truthy (integer (negsuc n)) = true
is_truthy (string []) = false
is_truthy (string (c ∷ s)) = true
is_truthy (array nil) = false
is_truthy (array (cons v vs)) = true
is_truthy (object end) = false
is_truthy (object (field k v fs)) = true

-- `int(text)`: spaces around, a sign, and digits with single underscores between them.
unfoldable pub digits : Bool → ℕ → Text → Option ℕ
digits last acc [] = if last then some acc else none
digits last acc (c ∷ s) =
    let next = digits true (acc * 10 + (c - 48)) s in
    let gap = digits false acc s in
    if leb 48 c && leb c 57 then next else if c == 95 && last then gap else none

negate : ℕ → ℤ
negate zero = pos 0
negate (suc n) = negsuc n

signed : Text → Option ℤ
unfolding digits negate
signed [] = none
signed (c ∷ s) =
    if c == 45
    then elim (digits false 0 s) [ none ↦ none | some n ↦ some (negate n) ]
    else elim (digits false 0 (if c == 43 then s else c ∷ s)) [
      | none ↦ none
      | some n ↦ some (pos n)
    ]

unfoldable pub parse_int : Text → Option ℤ
unfolding signed
parse_int s = signed (strip s)
