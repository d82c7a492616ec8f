-- ===== src/Errors.antt =====
-- opc-da-client/src/errors.rs on Windows: the error type, its display text, the HRESULT hints, the
-- classification predicates and the constructors of browse errors. A `windows::core::Error` is its
-- code (as a u32) and the text that the windows crate prints; `{:?}` of a string is the parameter
-- `debug`, since its escapes depend on Unicode tables.
pub mod Classify
use opc_cli.Prelude.{
  ℕ, ◌≡◌, Bool, true, false, ◌||◌, Option, none, some, List, [], ◌∷◌, ◌++◌, map, Text, codes,
  decimal, hex8, ◌==◌, if◌then◌else◌,
}

pub record ComError : Type 0 where
  pub code : ℕ
  pub display : Text

pub data OpcError : Type 0 where
  com_error : ComError → OpcError
  connection : Text → OpcError
  server : Text → ℕ → OpcError
  conversion : Text → OpcError
  invalid_state : Text → OpcError
  not_implemented : Text → OpcError
  browse_non_progress : Text → Text → Text → ℕ → ℕ → OpcError
  browse_continuation_non_progress : Text → Text → OpcError
  internal : Text → OpcError

-- `OpcResult<T>`.
pub data OpcResult {ℓ} (A : Type ℓ) : Type ℓ where
  ok : A → OpcResult A
  err : OpcError → OpcResult A

unfoldable pub friendly_hresult_hint : ℕ → Option Text
friendly_hresult_hint hr =
    if hr == 0x80040112
    then some (codes "Server license does not permit OPC client connections")
    else if hr == 0x80080005
    then some (codes "Server process failed to start — check if it is installed and running")
    else if hr == 0x80070005
    then some
        (codes "Access denied — DCOM launch/activation permissions not configured for this user")
    else if hr == 0x800706BA
    then some (codes "RPC server unavailable — the target host may be offline or blocking RPC")
    else if hr == 0x800706F4
    then some (codes "COM marshalling error — try restarting the OPC server")
    else if hr == 0x80040154
    then some (codes "Server is not registered on this machine")
    else if hr == 0x80004003
    then some (codes "Invalid pointer (E_POINTER)")
    else if hr == 0xC0040004
    then some (codes "Server rejected write — the item may be read-only (OPC_E_BADRIGHTS)")
    else if hr == 0xC0040006
    then some (codes "Data type mismatch — server cannot convert the written value (OPC_E_BADTYPE)")
    else if hr == 0xC0040007
    then some (codes "Item ID not found in server address space (OPC_E_UNKNOWNITEMID)")
    else if hr == 0xC0040008
    then some (codes "Item ID syntax is invalid for this server (OPC_E_INVALIDITEMID)")
    else none

abbrev pub unwrap_or {ℓ} : {A : Type ℓ} → Option A → A → A
unwrap_or none d = d
unwrap_or (some a) d = a

unfoldable pub format_hresult : ℕ → Text
unfolding friendly_hresult_hint
format_hresult hr = elim (friendly_hresult_hint hr) [
  | some hint ↦ codes "0x" ++ (hex8 hr ++ (codes ": " ++ hint))
  | none ↦ codes "0x" ++ hex8 hr
]

unfoldable pub friendly_com_hint : OpcError → Option Text
unfolding friendly_hresult_hint
friendly_com_hint (com_error e) = friendly_hresult_hint e.code
friendly_com_hint _ = none

abbrev pub e_invalidarg_hresult : ℕ
e_invalidarg_hresult = 0x80070057

abbrev pub e_notimpl_hresult : ℕ
e_notimpl_hresult = 0x80004001

abbrev pub rpc_x_null_ref_pointer_hresult : ℕ
rpc_x_null_ref_pointer_hresult = 0x800706F4

abbrev pub max_consecutive_identical_browse_values : ℕ
max_consecutive_identical_browse_values = 64

abbrev pub max_consecutive_empty_da3_pages : ℕ
max_consecutive_empty_da3_pages = max_consecutive_identical_browse_values

unfoldable pub com_hresult : OpcError → Option ℕ
com_hresult (com_error e) = some e.code
com_hresult _ = none

-- `com_hresult(error) == Some(expected)`.
unfoldable pub is_com_hresult : OpcError → ℕ → Bool
unfolding com_hresult
is_com_hresult e expected = elim (com_hresult e) [ none ↦ false | some c ↦ c == expected ]

unfoldable pub is_da3_browse_compatibility_error : OpcError → Bool
unfolding is_com_hresult
is_da3_browse_compatibility_error e =
    is_com_hresult e rpc_x_null_ref_pointer_hresult || is_com_hresult e e_notimpl_hresult

abbrev is_not_implemented : OpcError → Bool
is_not_implemented (not_implemented _) = true
is_not_implemented _ = false

unfoldable pub is_da2_browse_to_fallback_error : OpcError → Bool
unfolding is_com_hresult
is_da2_browse_to_fallback_error e =
    is_not_implemented e
    || is_com_hresult e e_invalidarg_hresult
    || is_com_hresult e e_notimpl_hresult
    || is_com_hresult e rpc_x_null_ref_pointer_hresult
    || (is_com_hresult e 0xC0040007 || is_com_hresult e 0xC0040008)

unfoldable pub is_non_progress_browse_error : OpcError → Bool
is_non_progress_browse_error (browse_non_progress _ _ _ _ _) = true
is_non_progress_browse_error _ = false

module _ (debug : Text → Text) where
  -- The parts joined by " > ".
  unfoldable pub join_path : List Text → Text
  join_path [] = []
  join_path (p ∷ []) = debug p
  join_path (p ∷ q ∷ ps) = debug p ++ (codes " > " ++ join_path (q ∷ ps))

  unfoldable pub format_browse_path : List Text → Text
  unfolding join_path
  format_browse_path [] = codes "<root>"
  format_browse_path (p ∷ ps) = join_path (p ∷ ps)

  unfoldable pub browse_non_progress_error : Text → List Text → Text → ℕ → ℕ → OpcError
  browse_non_progress_error iterator_type browse_path repeated consecutive yielded =
      browse_non_progress iterator_type (format_browse_path browse_path) repeated consecutive
        yielded

  unfoldable pub browse_continuation_non_progress_error : List Text → Text → OpcError
  browse_continuation_non_progress_error browse_path detail =
      browse_continuation_non_progress (format_browse_path browse_path) detail

  -- The texts of the `#[error(…)]` attributes.
  unfoldable pub display : OpcError → Text
  display (com_error e) =
      codes "COM error: "
      ++ (e.display
          ++ (codes " ("
              ++ (unwrap_or (friendly_hresult_hint e.code) (codes "No hint available")
                  ++ codes ")")))
  display (connection m) = codes "Connection failed: " ++ m
  display (server m c) = codes "Server error: " ++ (m ++ (codes " (0x" ++ (hex8 c ++ codes ")")))
  display (conversion m) = codes "Data conversion failed: " ++ m
  display (invalid_state m) = codes "Invalid state: " ++ m
  display (not_implemented m) = codes "Not implemented: " ++ m
  display (browse_non_progress i p r c y) =
      codes "OPC DA browse iterator "
      ++ (i
          ++ (codes " made no progress at browse path "
              ++ (p
                  ++ (codes ": repeated value "
                      ++ (debug r
                          ++ (codes " for "
                              ++ (decimal c
                                  ++ (codes " consecutive results after "
                                      ++ (decimal y ++ codes " values")))))))))
  display (browse_continuation_non_progress p d) =
      codes "OPC DA browse continuation made no progress at browse path "
      ++ (p ++ (codes ": " ++ d))
  display (internal m) = codes "Internal error: " ++ m

  item_text : Option Text → Text
  item_text none = []
  item_text (some name) = codes " item " ++ debug name

  -- The log event has no effect on the result. The fields of a non-progress error are kept, but for
  -- the path.
  unfoldable pub contextual_browse_error : OpcError → Text → List Text → Option Text → OpcError
  unfolding item_text
  contextual_browse_error (browse_non_progress i p r c y) operation browse_path item =
      browse_non_progress i (format_browse_path browse_path) r c y
  contextual_browse_error e operation browse_path item = internal (
      codes "OPC DA "
      ++ (operation
          ++ (codes " failed at browse path "
              ++ (format_browse_path browse_path
                  ++ (item_text item ++ (codes ": " ++ display e))))))
