-- ===== src/Values.antt =====
-- opc-da-client/src/helpers.rs: how the values of a server are shown and how a value to write becomes a
-- VARIANT. A VARIANT is its type word, the low 64 bits of its union, the text that the union points
-- at when it is a BSTR, and the array that it points at when it is one. The formats of floating
-- numbers, of the windows crate's VARENUM and of chrono's local time are the record `Formats`. The
-- count of an array is taken for bounds whose difference is an i32.
pub mod Numbers
pub mod Laws
mod Tests
use opc_cli.Prelude.{
  ℕ, zero, suc, ◌+◌, ◌-◌, ◌*◌, ◌/◌, ◌%◌, ◌^◌, min, Bool, true, false, not, ◌&&◌, Option, none, some,
  List, [], ◌∷◌, ◌++◌, Text, codes, decimal, hex8, ◌==◌, ltb, if◌then◌else◌,
}
use opc_cli.Errors.{friendly_hresult_hint, unwrap_or}
use opc_cli.Provider.{OpcValue, string, int, float, bool, ℤ, pos, negsuc}
use opc_cli.Values.Numbers.{
  to_signed, of_signed, int_text, quotient, magnitude, padded4, count_between,
}

pub record Formats : Type 0 where
  pub fixed2_f32 : ℕ → Text
  pub fixed2_f64 : ℕ → Text
  pub fixed6_f64 : ℕ → Text
  -- `(ole_date - 25569.0) * 86400.0`, as an i64.
  pub ole_seconds : ℕ → ℤ
  -- `chrono::DateTime::from_timestamp` in local time and its format.
  pub local_time : ℤ → ℕ → Option Text
  pub debug_varenum : ℕ → Text

-- A cell of an array has the type word that it would have as a VARIANT.
mutual
  pub data Payload : Type 0 where
    payload : ℕ → Text → ArrayPointer → Payload

  pub data ArrayPointer : Type 0 where
    null_array : ArrayPointer
    safe_array : ℕ → Option ℤ → Option ℤ → Bool → Cells → ArrayPointer

  pub data Cells : Type 0 where
    no_cells : Cells
    cell : ℕ → Payload → Cells → Cells

pub record Variant : Type 0 where
  pub vt : ℕ
  pub contents : Payload

abbrev pub vt_i4 : ℕ
vt_i4 = 3

abbrev pub vt_r8 : ℕ
vt_r8 = 5

abbrev pub vt_bstr : ℕ
vt_bstr = 8

abbrev pub vt_bool : ℕ
vt_bool = 11

abbrev pub vt_variant : ℕ
vt_variant = 12

abbrev pub is_array : ℕ → Bool
is_array vt = vt / 0x2000 % 2 == 1

abbrev pub base_type : ℕ → ℕ
base_type vt = vt % 0x1000

-- VT_CY: a 64-bit number of ten-thousandths.
unfoldable pub currency_text : ℤ → Text
currency_text raw = int_text (quotient raw 10000) ++ (codes "." ++ padded4 (magnitude raw % 10000))

-- VT_ERROR.
unfoldable pub scode_text : ℕ → Text
scode_text hr = elim (friendly_hresult_hint hr) [
  | some hint ↦ codes "Error: " ++ (hint ++ (codes " (0x" ++ (hex8 hr ++ codes ")")))
  | none ↦ codes "Error (0x" ++ (hex8 hr ++ codes ")")
]

abbrev pub quoted : Bool → Text → Text
quoted true t = codes "\"" ++ (t ++ codes "\"")
quoted false t = t

abbrev pub bool_text : Bool → Text
bool_text true = codes "true"
bool_text false = codes "false"

unfoldable pub join_texts : List Text → Text
join_texts [] = []
join_texts (t ∷ []) = t
join_texts (t ∷ u ∷ ts) = t ++ (codes ", " ++ join_texts (u ∷ ts))

-- An array of one dimension with `count` elements, of which the first 20 are shown.
unfoldable pub elements_text : ℕ → List Text → Text
unfolding join_texts
elements_text count elements =
    codes "["
    ++ (join_texts elements ++ ((if ltb 20 count then codes ", ..." else []) ++ codes "]"))

-- The seconds since 1970 of a FILETIME; earlier times are taken for 1970.
unfoldable pub unix_secs : ℕ → ℕ
unix_secs intervals = intervals / 10000000 - 11644473600

unfoldable pub nanos : ℕ → ℕ
nanos intervals = intervals % 10000000 * 100

abbrev pub intervals_of : ℕ → ℕ → ℕ
intervals_of high low = high * 2 ^ 32 + low

module _ (f : Formats) where
  unfoldable pub ole_date_to_string : ℕ → Text
  ole_date_to_string date = unwrap_or (f.local_time (f.ole_seconds date) 0) (f.fixed6_f64 date)

  -- A VARIANT that is no array, by its type word.
  unfoldable pub scalar_text : Bool → ℕ → ℕ → Text → Text
  unfolding ole_date_to_string currency_text scode_text
  scalar_text quote_bstr vt bits bstr =
      if vt == 0
      then codes "Empty"
      else if vt == 1
      then codes "Null"
      else if vt == 2
      then int_text (to_signed 16 bits)
      else if vt == 3
      then int_text (to_signed 32 bits)
      else if vt == 4
      then f.fixed2_f32 (bits % 2 ^ 32)
      else if vt == 5
      then f.fixed2_f64 bits
      else if vt == 6
      then currency_text (to_signed 64 bits)
      else if vt == 7
      then ole_date_to_string bits
      else if vt == 8
      then quoted quote_bstr bstr
      else if vt == 10
      then scode_text (bits % 2 ^ 32)
      else if vt == 11
      then bool_text (not (bits % 2 ^ 16 == 0))
      else if vt == 16
      then int_text (to_signed 8 bits)
      else if vt == 17
      then decimal (bits % 2 ^ 8)
      else if vt == 18
      then decimal (bits % 2 ^ 16)
      else if vt == 19
      then decimal (bits % 2 ^ 32)
      else if vt == 20
      then int_text (to_signed 64 bits)
      else if vt == 21
      then decimal bits
      else codes "(VT " ++ (f.debug_varenum vt ++ codes ")")

  unfoldable mutual
    unfolding scalar_text elements_text

    -- `variant_to_string_with_bstr_quotes`.
    pub text_of : Bool → ℕ → Payload → Text
    text_of quote_bstr vt (payload bits bstr parray) =
        if is_array vt
        then array_text quote_bstr (base_type vt) parray
        else scalar_text quote_bstr vt bits bstr

    pub array_text : Bool → ℕ → ArrayPointer → Text
    array_text quote_bstr base null_array = codes "Array[?]"
    array_text quote_bstr base (safe_array dims lower upper accessible cells) =
        let count = count_between (unwrap_or lower (pos 0)) (unwrap_or upper (negsuc 0)) in
        let shown = cell_texts quote_bstr base (min count 20) cells in
        if dims == 0
        then codes "Array[0]"
        else if dims == 1
        then elements_text count (if accessible then shown else [])
        else codes "Array[" ++ (decimal dims ++ codes "D]")

    -- The cells of an array of VARIANTs have their own types, others that of the array.
    pub cell_texts : Bool → ℕ → ℕ → Cells → List Text
    cell_texts quote_bstr base n no_cells = []
    cell_texts quote_bstr base zero (cell vt contents rest) = []
    cell_texts quote_bstr base (suc n) (cell vt contents rest) =
        text_of quote_bstr (if base == vt_variant then vt else base) contents
        ∷ cell_texts quote_bstr base n rest

  unfoldable pub variant_to_string : Variant → Text
  unfolding text_of array_text cell_texts
  variant_to_string v = text_of false v.vt v.contents

  unfoldable pub variant_to_display_string : Variant → Text
  unfolding text_of array_text cell_texts
  variant_to_display_string v = text_of true v.vt v.contents

  -- A FILETIME, by its high and its low word.
  unfoldable pub filetime_to_string : ℕ → ℕ → Text
  unfolding unix_secs nanos
  filetime_to_string high low =
      let intervals = intervals_of high low in
      if high == 0 && low == 0
      then codes "N/A"
      else unwrap_or (f.local_time (pos (unix_secs intervals)) (nanos intervals)) (codes "Invalid")

-- Four hexadecimal digits are enough for the u16 of a quality.
unfoldable pub quality_to_string : ℕ → Text
unfolding Numbers.hex4
quality_to_string quality =
    let quality_bits = quality / 0x40 % 4 * 0x40 in
    if quality_bits == 0xC0
    then codes "Good"
    else if quality_bits == 0x00
    then codes "Bad"
    else if quality_bits == 0x40
    then codes "Uncertain"
    else codes "Unknown(0x" ++ (Numbers.hex4 quality ++ codes ")")

abbrev scalar : ℕ → ℕ → Text → Variant
scalar vt bits bstr = record { vt = vt; contents = payload bits bstr null_array }

unfoldable pub opc_value_to_variant : OpcValue → Variant
opc_value_to_variant (string s) = scalar vt_bstr 0 s
opc_value_to_variant (int i) = scalar vt_i4 (of_signed 32 i) []
opc_value_to_variant (float bits) = scalar vt_r8 bits []
opc_value_to_variant (bool b) = scalar vt_bool (if b then 0xFFFF else 0) []
