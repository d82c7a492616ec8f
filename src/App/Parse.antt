-- ===== src/App/Parse.antt =====
-- opc-cli/src/app.rs: `parse_opc_value`, with the standard library's `str::parse::<i32>`.
use opc_cli.Prelude.{
  ℕ, zero, suc, ◌+◌, ◌-◌, ◌*◌, Bool, true, false, ◌&&◌, ◌||◌, Option, none, some, [], ◌∷◌, Text,
  codes, text_eq, leb, ◌==◌, if◌then◌else◌,
}
use opc_cli.Platform.{Platform}
use opc_cli.Provider.{OpcValue, ℤ, pos, negsuc}

abbrev pub is_digit : ℕ → Bool
is_digit c = leb b'0' c && leb c b'9'

-- The digits to the end of the text, most significant first.
unfoldable pub digits_value : ℕ → Text → Option ℕ
digits_value acc [] = some acc
digits_value acc (c ∷ t) =
    let rest = digits_value (acc * 10 + (c - b'0')) t in if is_digit c then rest else none

-- At least one digit.
unfoldable pub parse_digits : Text → Option ℕ
unfolding digits_value
parse_digits [] = none
parse_digits (c ∷ t) = digits_value 0 (c ∷ t)

abbrev pub i32_max : ℕ
i32_max = 2147483647

abbrev pub negate : ℕ → ℤ
negate zero = pos 0
negate (suc n) = negsuc n

-- The value, if it is in the range of an i32.
unfoldable pub parse_magnitude : Bool → Text → Option ℤ
parse_magnitude true t = elim (parse_digits t) [
  | none ↦ none
  | some n ↦ if leb n (i32_max + 1) then some (negate n) else none
]
parse_magnitude false t = elim (parse_digits t) [
  | none ↦ none
  | some n ↦ if leb n i32_max then some (pos n) else none
]

unfoldable pub parse_i32 : Text → Option ℤ
parse_i32 [] = none
parse_i32 (c ∷ t) =
    if c == b'-'
    then parse_magnitude true t
    else if c == b'+'
    then parse_magnitude false t
    else parse_magnitude false (c ∷ t)

unfoldable pub parse_bool : Text → Option Bool
parse_bool t =
    if text_eq t (codes "true") || text_eq t (codes "1")
    then some true
    else if text_eq t (codes "false") || text_eq t (codes "0")
    then some false
    else none

unfoldable pub parse_opc_value : Platform → Text → OpcValue
unfolding parse_bool
parse_opc_value p s = elim (parse_i32 s) [
  | some i ↦ OpcValue.int i
  | none ↦ elim (p.parse_f64 s) [
    | some f ↦ OpcValue.float f
    | none ↦ elim (parse_bool (p.to_lowercase s)) [
      | some b ↦ OpcValue.bool b
      | none ↦ OpcValue.string s
    ]
  ]
]
