-- ===== src/Worker/Read.antt =====
-- opc-da-client/src/com_worker/read.rs: `handle_read`. Its result is `none` where an index is out of
-- bounds, which is a panic of the worker's thread.
use opc_cli.Prelude.{
  ℕ, suc, true, not, ◌||◌, Option, none, some, List, [], ◌∷◌, ◌++◌, Text, codes, length, get_elem?,
  set, is_empty, ◌==◌, if◌then◌else◌,
}
use opc_cli.Errors.{OpcError, internal, format_hresult, unwrap_or}
use opc_cli.Provider.{TagValue}
use opc_cli.Act.{Act, return, fail, invoke, ◌>>=◌, ◌>>◌}
use opc_cli.Values.{
  Formats, Variant, variant_to_string, variant_to_display_string, filetime_to_string,
  quality_to_string,
}
use opc_cli.Worker.Groups.{
  GroupServer, ItemState, AddedGroup, item_defs, is_success, opc_ds_device, update_rate, cleanup,
}

pub data ReadPresentation : Type 0 where
  semantic display : ReadPresentation

unfoldable pub mismatched_results : OpcError
mismatched_results = internal (codes "OPC server returned mismatched result array sizes")

-- A tag that was rejected, and a tag that is still to be read.
unfoldable pub not_read : Text → Text → TagValue
not_read tag_id reason = record {
  tag_id = tag_id;
  value = codes "Error";
  quality = codes "Bad — " ++ reason;
  timestamp = [];
}

unfoldable pub placeholders : List Text → List ℕ → List TagValue
unfolding not_read is_success
placeholders [] errors = []
placeholders (t ∷ ts) [] = not_read t (codes "not added to group") ∷ placeholders ts []
placeholders (t ∷ ts) (e ∷ es) =
    not_read t (if is_success e then codes "not added to group" else format_hresult e)
    ∷ placeholders ts es

-- The handles of the items that were added, and the places of their tags.
unfoldable pub accepted : ℕ → List ℕ → List ℕ → List (ℕ × ℕ)
unfolding is_success
accepted n [] errors = []
accepted n (h ∷ hs) [] = []
accepted n (h ∷ hs) (e ∷ es) =
    let rest = accepted (suc n) hs es in if is_success e then (n, h) ∷ rest else rest

abbrev pub handles_of : List (ℕ × ℕ) → List ℕ
handles_of [] = []
handles_of ((n, h) ∷ rest) = h ∷ handles_of rest

module _ (f : Formats) where
  abbrev pub present : ReadPresentation → Variant → Text
  present semantic v = variant_to_string f v
  present display v = variant_to_display_string f v

  unfoldable pub read_value : ReadPresentation → Text → ItemState → ℕ → TagValue
  unfolding filetime_to_string quality_to_string is_success
  read_value presentation tag_id state error = record {
    tag_id = tag_id;
    value = if is_success error then present presentation state.value else codes "Error";
    quality =
        if is_success error
        then quality_to_string state.quality
        else codes "Bad — " ++ format_hresult error;
    timestamp = filetime_to_string f state.time_high state.time_low;
  }

  -- The loop over the indices of the tags that were added.
  unfoldable pub fill :
      ReadPresentation
      → List Text
      → List (ℕ × ℕ)
      → List ItemState
      → List ℕ
      → List TagValue
      → Option (List TagValue)
  unfolding read_value
  fill presentation tag_ids [] states errors values = some values
  fill presentation tag_ids ((n, h) ∷ rest) (s ∷ ss) (e ∷ es) values =
      fill presentation tag_ids rest ss es
        (set values n (read_value presentation (unwrap_or (get_elem? tag_ids n) []) s e))
  fill presentation tag_ids ((n, h) ∷ rest) _ _ values = none

  module _ {W : Type 0} (server : GroupServer W) where
    -- The cleanup that follows the values; a panic skips it.
    unfoldable pub finish_read : ℕ → Option (List TagValue) → Act W (Option (List TagValue))
    unfolding cleanup
    finish_read handle none = return none
    finish_read handle (some values) = do cleanup server handle; return (some values)

    unfoldable pub read_items :
        ReadPresentation → List Text → AddedGroup → List ℕ × List ℕ → Act W (Option (List TagValue))
    unfolding placeholders accepted fill finish_read
    read_items presentation tag_ids added answer =
        if is_empty (accepted 0 answer.0 answer.1)
        then finish_read added.server_handle (some (placeholders tag_ids answer.1))
        else do
          let taken = accepted 0 answer.0 answer.1
          read ← invoke (server.read added.group opc_ds_device (handles_of taken))
          finish_read added.server_handle
              (fill presentation tag_ids taken read.0 read.1 (placeholders tag_ids answer.1))

    unfoldable pub handle_read : List Text → ReadPresentation → Act W (Option (List TagValue))
    unfolding read_items cleanup
    handle_read tag_ids presentation = do
      added ← invoke (server.add_group (codes "opc-da-client-read") true update_rate)
      answer ← invoke (server.add_items added.group (item_defs 0 tag_ids))
      if not (length answer.0 == length tag_ids) || not (length answer.1 == length tag_ids)
          then (do cleanup server added.server_handle; fail mismatched_results)
          else read_items presentation tag_ids added answer
