-- ===== src/Values/Laws.antt =====
-- What a written value is shown as, the exactness of times, and the sign of small currency amounts.
use opc_cli.Prelude.{
  ℕ, zero, suc, ◌+◌, ◌*◌, ◌/◌, ◌≤◌, ◌<◌, ◌≡◌, refl, ap, ◌∙◌, ◌∷◌, decimal, arith, leb, true,
}
use opc_cli.Platform.{Platform}
use opc_cli.Provider.{OpcValue, ℤ, pos, negsuc}
use opc_cli.App.Parse.{parse_opc_value, i32_max}
use opc_cli.App.ParseLaws.{IsI32, parse_opc_value-decimal, parse_i32-decimal, parse_opc_value-int}
use opc_cli.Values.{
  Formats, variant_to_string, opc_value_to_variant, scalar_text, currency_text, unix_secs, nanos,
  intervals_of,
}
use opc_cli.Values.Numbers.{to_signed, of_signed, int_text, opposite}

to_signed-of_signed : (z : ℤ) → IsI32 z → to_signed 32 (of_signed 32 z) ≡ z
to_signed-of_signed (pos n) h = ground arith
to_signed-of_signed (negsuc n) h = ground arith

int_shown :
    (f : Formats) (z : ℤ)
    → IsI32 z
    → variant_to_string f (opc_value_to_variant (OpcValue.int z)) ≡ int_text z
unfolding variant_to_string opc_value_to_variant scalar_text
int_shown f z h = ap int_text (to_signed-of_signed z h)

parse-int_text : (p : Platform) (z : ℤ) → IsI32 z → parse_opc_value p (int_text z) ≡ OpcValue.int z
parse-int_text p (pos n) h = (parse_opc_value-decimal p n h).0
parse-int_text p (negsuc n) h =
    let fits : leb (suc n) (i32_max + 1) ≡ true = ground arith in
    parse_opc_value-int p (b'-' ∷ decimal (suc n)) (negsuc n)
      (rw fits at (parse_i32-decimal (suc n)).2)

-- An integer in the range of an i32 that is written as a VARIANT and read back is shown as a text that,
-- typed in for a write, is read as that integer.
pub int_round_trip :
    (p : Platform) (f : Formats) (z : ℤ)
    → IsI32 z
    → parse_opc_value p (variant_to_string f (opc_value_to_variant (OpcValue.int z)))
      ≡ OpcValue.int z
int_round_trip p f z h = ap (parse_opc_value p) (int_shown f z h) ∙ parse-int_text p z h

-- The seconds and nanoseconds taken from a FILETIME of 1970 or later are its time exactly, and the
-- nanoseconds are less than a second, so they fit in a u32.
filetime_exact :
    (high low : ℕ)
    → 116444736000000000 ≤ intervals_of high low
    → ((unix_secs (intervals_of high low) + 11644473600) * 1000000000
          + nanos (intervals_of high low)
        ≡ intervals_of high low * 100)
      × (nanos (intervals_of high low) < 1000000000)
unfolding unix_secs nanos
filetime_exact high low h = omega arith

-- A currency amount between minus one unit and zero is shown without its sign.
pub currency_sign_lost : (n : ℕ) → n < 10000 → currency_text (opposite n) ≡ currency_text (pos n)
unfolding currency_text
currency_sign_lost zero h = refl
currency_sign_lost (suc n) h = let none_whole : suc n / 10000 ≡ 0 = omega arith in rw none_whole
