-- ===== src/App/ParseLaws.antt =====
-- What `parse_opc_value` makes of the text that a user types.
use opc_cli.Prelude.{
  ℕ, zero, suc, ◌+◌, ◌-◌, ◌*◌, ◌/◌, ◌%◌, ◌≤◌, ◌<◌, ◌≡◌, refl, ◌∙◌, ap, true, false, none, some, [],
  ◌∷◌, Text, arith, decimal, digits_from, leb, ltb, if◌then◌else◌, Bool-cases, inl, inr, ltb→lt,
}
use opc_cli.Platform.{Platform}
use opc_cli.Provider.{OpcValue, ℤ, pos, negsuc}
use opc_cli.App.Parse.{
  is_digit, digits_value, parse_digits, i32_max, negate, parse_magnitude, parse_i32,
  parse_opc_value,
}

-- What a digit reader has after the digits of `n`, from `acc` on.
value_from : ℕ → ℕ → ℕ → ℕ
value_from zero n acc = acc
value_from (suc fuel) n acc =
    let more = value_from fuel (n / 10) acc in if ltb n 10 then acc * 10 + n else more * 10 + n % 10

read_digit :
    (d acc : ℕ) (t : Text)
    → d < 10
    → digits_value acc ((b'0' + d) ∷ t) ≡ digits_value (acc * 10 + d) t
unfolding digits_value
read_digit d acc t h =
    let test : is_digit (b'0' + d) ≡ true = ground arith in
    let value : b'0' + d - b'0' ≡ d = omega arith in rw (test, value)

digits_value-digits_from :
    (fuel n acc : ℕ) (t : Text)
    → n < fuel
    → digits_value acc (digits_from fuel n t) ≡ digits_value (value_from fuel n acc) t
unfolding digits_from value_from
digits_value-digits_from zero n acc t h = elim h [ ]
digits_value-digits_from (suc fuel) n acc t h = elim (Bool-cases (ltb n 10)) [
  | inl e ↦ rw e (
      let e' : n % 10 ≡ n = omega (arith, ltb→lt n 10 e) in
      read_digit (n % 10) acc t (omega arith) ∙ ap (λ m. digits_value (acc * 10 + m) t) e')
  | inr e ↦ rw e (
      digits_value-digits_from fuel (n / 10) acc ((b'0' + n % 10) ∷ t) (ground arith)
      ∙ read_digit (n % 10) (value_from fuel (n / 10) acc) t (omega arith))
]

value_from_lem : (fuel n : ℕ) → n < fuel → value_from fuel n 0 ≡ n
unfolding value_from
value_from_lem zero n h = elim h [ ]
value_from_lem (suc fuel) n h = ground (arith, value_from_lem fuel (n / 10))

-- The digits are not empty, and the first is a digit.
StartsWithDigit : Text → Type 0
StartsWithDigit s = (c : ℕ) × (t : Text) × (s ≡ c ∷ t) × (is_digit c ≡ true)

digits_from-StartsWithDigit :
    (fuel n : ℕ) (t : Text) → n < fuel → StartsWithDigit (digits_from fuel n t)
unfolding digits_from StartsWithDigit
digits_from-StartsWithDigit zero n t h = elim h [ ]
digits_from-StartsWithDigit (suc fuel) n t h = elim (Bool-cases (ltb n 10)) [
  | inl e ↦ rw e (b'0' + n % 10, t, refl, ground arith)
  | inr e ↦ rw e (digits_from-StartsWithDigit fuel (n / 10) ((b'0' + n % 10) ∷ t) (ground arith))
]

pub digits_value-decimal : (n : ℕ) → digits_value 0 (decimal n) ≡ some n
unfolding decimal digits_value
digits_value-decimal n =
    digits_value-digits_from (suc n) n 0 [] (omega arith)
    ∙ ap some (value_from_lem (suc n) n (omega arith))

decimal-StartsWithDigit : (n : ℕ) → StartsWithDigit (decimal n)
unfolding decimal
decimal-StartsWithDigit n = digits_from-StartsWithDigit (suc n) n [] (omega arith)

parse_digits-decimal : (n : ℕ) → parse_digits (decimal n) ≡ some n
unfolding parse_digits StartsWithDigit
parse_digits-decimal n =
    let (c, t, e, d) = decimal-StartsWithDigit n in rw e (rw e at (digits_value-decimal n))

parse_magnitude-decimal :
    (n : ℕ)
    → (parse_magnitude true (decimal n) ≡ (if leb n (i32_max + 1) then some (negate n) else none))
      × (parse_magnitude false (decimal n) ≡ (if leb n i32_max then some (pos n) else none))
unfolding parse_magnitude
parse_magnitude-decimal n = rw (parse_digits-decimal n, parse_magnitude) (refl, refl)

-- A decimal text is read as the integer that it prints, with a minus sign or a plus sign before it or
-- none, as far as an i32 reaches; beyond, it is no i32.
pub parse_i32-decimal :
    (n : ℕ)
    → (parse_i32 (decimal n) ≡ (if leb n i32_max then some (pos n) else none))
      × (parse_i32 (b'+' ∷ decimal n) ≡ (if leb n i32_max then some (pos n) else none))
      × (parse_i32 (b'-' ∷ decimal n) ≡ (if leb n (i32_max + 1) then some (negate n) else none))
unfolding parse_i32 StartsWithDigit
parse_i32-decimal n =
    let (c, t, e, d) = decimal-StartsWithDigit n in
    let (minus, plus) = parse_magnitude-decimal n in
    let unsigned : parse_i32 (c ∷ t) ≡ parse_magnitude false (c ∷ t) = ground arith in
    (rw (e, unsigned) (rw e at plus), plus, minus)

-- An integer that is read is in the range of an i32.
abbrev pub IsI32 : ℤ → Type 0
IsI32 (pos n) = n ≤ 2147483647
IsI32 (negsuc n) = n ≤ 2147483647

-- When a text typed in for a write is read as an integer, the integer is in the range of an i32.
pub parse_opc_value-IsI32 :
    (p : Platform) (s : Text) (z : ℤ) → parse_opc_value p s ≡ OpcValue.int z → IsI32 z
unfolding parse_opc_value parse_i32 parse_magnitude
parse_opc_value-IsI32 p s z h = ground arith

pub parse_opc_value-int :
    (p : Platform) (t : Text) (z : ℤ) → parse_i32 t ≡ some z → parse_opc_value p t ≡ OpcValue.int z
unfolding parse_opc_value
parse_opc_value-int p t z h = rw (h, parse_opc_value)

-- The decimal text of an integer in the range of an i32, typed in for a write, is read as that
-- integer on every platform, never as a float or, for 0 and 1, as a truth value.
pub parse_opc_value-decimal :
    (p : Platform) (n : ℕ)
    → n ≤ i32_max
    → (parse_opc_value p (decimal n) ≡ OpcValue.int (pos n))
      × (parse_opc_value p (b'-' ∷ decimal n) ≡ OpcValue.int (negate n))
parse_opc_value-decimal p n h =
    let fits : leb n i32_max ≡ true = ground arith in
    let fits_below : leb n (i32_max + 1) ≡ true = ground arith in
    let (plain, plus, minus) = parse_i32-decimal n in
    (
      parse_opc_value-int p (decimal n) (pos n) (rw fits at plain),
      parse_opc_value-int p (b'-' ∷ decimal n) (negate n) (rw fits_below at minus),
    )
