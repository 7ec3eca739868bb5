-- ===== src/Naming/Decimal.antt =====
-- Decimal text of a number, as an f-string writes it, and its reading.
use cloud_drive.Prelude.{
  ℕ, zero, suc, ◌+◌, ◌-◌, ◌*◌, ◌/◌, ◌%◌, ◌<◌, ◌≡◌, refl, ap, Text, [], ◌∷◌, ◌++◌, arith, ltb, inl,
  inr, Bool-cases, if◌then◌else◌, sym, ◌∙◌,
}

show_fuel : ℕ → ℕ → Text
show_fuel zero n = []
show_fuel (suc f) n =
    let more = show_fuel f (n / 10) ++ (48 + n % 10) ∷ [] in
    if ltb n 10 then (48 + n) ∷ [] else more

unfoldable pub show : ℕ → Text
unfolding show_fuel
show n = show_fuel (suc n) n

read_from : ℕ → Text → ℕ
read_from acc [] = acc
read_from acc (c ∷ s) = read_from (acc * 10 + (c - 48)) s

read_from-append :
    (acc : ℕ) (s : Text) (c : ℕ) → read_from acc (s ++ c ∷ []) ≡ read_from acc s * 10 + (c - 48)
unfolding read_from
read_from-append acc [] c = refl
read_from-append acc (x ∷ s) c = read_from-append (acc * 10 + (x - 48)) s c

read-show_fuel : (f n : ℕ) → n < f → read_from 0 (show_fuel f n) ≡ n
unfolding read_from show_fuel
read-show_fuel zero n h = absurd (omega arith)
read-show_fuel (suc f) n h = elim (Bool-cases (ltb n 10)) [
  | inl small ↦ rw small (omega arith)
  | inr big ↦
      let lt : n / 10 < f = ground arith in
      rw big (
        omega (
          arith,
          read_from-append 0 (show_fuel f (n / 10)) (48 + n % 10),
          read-show_fuel f (n / 10) lt,
        ))
]

-- Different numbers have different texts.
pub show-injective : (m n : ℕ) → show m ≡ show n → m ≡ n
unfolding show
show-injective m n e =
    sym (read-show_fuel (suc m) m (omega arith))
    ∙ (ap (read_from 0) e ∙ read-show_fuel (suc n) n (omega arith))
