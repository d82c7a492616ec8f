-- ===== src/Errors/Classify.antt =====
-- How the predicates of errors.rs on error values relate, and what adding context does to them.
use opc_cli.Prelude.{◌≡◌, ◌≢◌, refl, true, false, Option, none, List, Text, arith}
use opc_cli.Errors.{
  OpcError, com_error, com_hresult, is_da3_browse_compatibility_error,
  is_da2_browse_to_fallback_error, is_non_progress_browse_error, contextual_browse_error,
  friendly_com_hint,
}

-- An error on which a DA 3.0 root browse falls back to DA 2.x is one on which browse-to falls back
-- too; it is no non-progress error, and it has an HRESULT.
pub compatibility_fallback :
    (e : OpcError)
    → is_da3_browse_compatibility_error e ≡ true
    → (is_da2_browse_to_fallback_error e ≡ true)
      × (is_non_progress_browse_error e ≡ false)
      × (com_hresult e ≢ none)
unfolding is_da3_browse_compatibility_error is_da2_browse_to_fallback_error
    is_non_progress_browse_error
compatibility_fallback e h = ground arith

-- Adding browse context keeps an error in or out of the non-progress class; the result has no
-- HRESULT, so no hint, and is in neither fallback class.
contextual_browse_error_class :
    (debug : Text → Text) (e : OpcError) (operation : Text) (path : List Text) (item : Option Text)
    → let e' = contextual_browse_error debug e operation path item in
      (is_non_progress_browse_error e' ≡ is_non_progress_browse_error e)
      × (com_hresult e' ≡ none)
      × (friendly_com_hint e' ≡ none)
      × (is_da3_browse_compatibility_error e' ≡ false)
      × (is_da2_browse_to_fallback_error e' ≡ false)
unfolding contextual_browse_error is_non_progress_browse_error com_hresult friendly_com_hint
    is_da3_browse_compatibility_error is_da2_browse_to_fallback_error
contextual_browse_error_class debug (com_error c) o p i = (refl, refl, refl, refl, refl)
contextual_browse_error_class debug _ o p i = (refl, refl, refl, refl, refl)
