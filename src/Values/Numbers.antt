-- ===== src/Values/Numbers.antt =====
-- Signed machine integers and the texts of numbers, for opc-da-client/src/helpers.rs.
use opc_cli.Prelude.{
  ℕ, zero, suc, ◌+◌, ◌-◌, ◌/◌, ◌%◌, ◌^◌, [], ◌∷◌, ◌++◌, Text, decimal, length, replicate, ltb,
  hex_digits, if◌then◌else◌,
}
use opc_cli.Provider.{ℤ, pos, negsuc}

-- The low `w` bits, in two's complement.
abbrev pub to_signed : ℕ → ℕ → ℤ
to_signed w bits =
    let n = bits % 2 ^ w in if ltb n (2 ^ (w - 1)) then pos n else negsuc (2 ^ w - 1 - n)

-- The bits of a number that has at most `w` of them.
abbrev pub of_signed : ℕ → ℤ → ℕ
of_signed w (pos n) = n % 2 ^ w
of_signed w (negsuc n) = 2 ^ w - 1 - n % 2 ^ w

-- `{}` on a signed integer.
abbrev pub int_text : ℤ → Text
int_text (pos n) = decimal n
int_text (negsuc n) = b'-' ∷ decimal (suc n)

abbrev pub magnitude : ℤ → ℕ
magnitude (pos n) = n
magnitude (negsuc n) = suc n

abbrev pub opposite : ℕ → ℤ
opposite zero = pos 0
opposite (suc n) = negsuc n

-- The `/` of signed integers, which rounds towards zero.
abbrev pub quotient : ℤ → ℕ → ℤ
quotient (pos n) d = pos (n / d)
quotient (negsuc n) d = opposite (suc n / d)

-- `{:04}`.
abbrev pub padded4 : ℕ → Text
padded4 n = replicate (4 - length (decimal n)) b'0' ++ decimal n

-- `(upper - lower + 1).max(0)`.
abbrev pub count_between : ℤ → ℤ → ℕ
count_between (pos l) (pos u) = u + 1 - l
count_between (pos l) (negsuc u) = 0
count_between (negsuc l) (pos u) = u + suc l + 1
count_between (negsuc l) (negsuc u) = suc l + 1 - suc u

-- `{:04X}` on a u16.
unfoldable pub hex4 : ℕ → Text
unfolding hex_digits
hex4 n = hex_digits 4 n []
