-- ===== src/Values/Tests.antt =====
-- Runs of opc-da-client/src/helpers.rs: the values that its own tests use.
use opc_cli.Prelude.{ℕ, ◌≡◌, refl, none, some, [], Text, codes, true, arith, decimal, hex8}
use opc_cli.Errors.{friendly_hresult_hint}
use opc_cli.Platform.{Platform}
use opc_cli.Provider.{OpcValue, pos, negsuc}
use opc_cli.App.Parse.{parse_opc_value}
use opc_cli.Values.{
  Formats, payload, null_array, safe_array, no_cells, cell, variant_to_string,
  variant_to_display_string, opc_value_to_variant, filetime_to_string, quality_to_string,
  currency_text,
}
use opc_cli.Values.Numbers.{of_signed, opposite}
use opc_cli.Values.Laws.{int_round_trip, currency_sign_lost}

abbrev blank : Platform
blank = record { to_lowercase = λ t. t; debug = λ t. t; parse_f64 = λ t. none }

abbrev formats : Formats
formats = record {
  fixed2_f32 = λ b. codes "f32";
  fixed2_f64 = λ b. codes "f64";
  fixed6_f64 = λ b. codes "f64";
  ole_seconds = λ b. pos 0;
  local_time = λ s n. some (codes "time");
  debug_varenum = λ vt. codes "VARENUM";
}

abbrev shown : ℕ → ℕ → Text
shown vt bits =
    variant_to_string formats (record { vt = vt; contents = payload bits [] null_array })

currency_positive : shown 6 123456789 ≡ codes "12345.6789"
unfolding variant_to_string decimal
currency_positive = refl

currency_negative : shown 6 (of_signed 64 (negsuc 500000)) ≡ codes "-50.0001"
unfolding variant_to_string decimal
currency_negative = refl

short_negative : shown 2 (of_signed 16 (negsuc 41)) ≡ codes "-42"
unfolding variant_to_string decimal
short_negative = refl

unknown_error : shown 10 0xDEADBEEF ≡ codes "Error (0xDEADBEEF)"
unfolding variant_to_string friendly_hresult_hint hex8
unknown_error = refl

array_of_numbers :
    variant_to_string formats (record {
      vt = 0x2003;
      contents = payload 0 [] (
          safe_array 1 (some (pos 0)) (some (pos 2)) true (
            cell 0
              (payload 10 [] null_array)
              (cell 0 (payload 20 [] null_array) (cell 0 (payload 30 [] null_array) no_cells))));
    })
    ≡ codes "[10, 20, 30]"
unfolding variant_to_string decimal
array_of_numbers = refl

text_shown :
    (variant_to_string formats (opc_value_to_variant (OpcValue.string (codes "AUT"))) ≡ codes "AUT")
    × (variant_to_display_string formats (opc_value_to_variant (OpcValue.string (codes "AUT")))
        ≡ codes "\"AUT\"")
unfolding variant_to_string variant_to_display_string opc_value_to_variant
text_shown = (refl, refl)

no_time : filetime_to_string formats 0 0 ≡ codes "N/A"
unfolding filetime_to_string
no_time = refl

qualities :
    (quality_to_string 0xC4 ≡ codes "Good") × (quality_to_string 0x80 ≡ codes "Unknown(0x0080)")
unfolding quality_to_string
qualities = (refl, refl)

int_round_trip_example :
    parse_opc_value blank
      (variant_to_string formats (opc_value_to_variant (OpcValue.int (negsuc 41))))
    ≡ OpcValue.int (negsuc 41)
int_round_trip_example = int_round_trip blank formats (negsuc 41) (omega arith)

currency_sign_lost_example : currency_text (opposite 5000) ≡ currency_text (pos 5000)
currency_sign_lost_example = currency_sign_lost 5000 (omega arith)
