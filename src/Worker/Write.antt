-- ===== src/Worker/Write.antt =====
-- opc-da-client/src/com_worker/write.rs: `handle_write`.
use opc_cli.Prelude.{ℕ, true, false, none, some, List, [], ◌∷◌, ◌++◌, Text, codes, if◌then◌else◌}
use opc_cli.Errors.{OpcResult, ok, err, internal, format_hresult}
use opc_cli.Provider.{OpcValue, WriteResult}
use opc_cli.Act.{Act, return, try, invoke, ◌>>=◌, ◌>>◌}
use opc_cli.Values.{opc_value_to_variant}
use opc_cli.Worker.Groups.{GroupServer, AddedGroup, item_defs, is_success, update_rate, cleanup}

-- `first().ok_or_else(…)?`.
abbrev pub first_or : List ℕ → Text → OpcResult ℕ
first_or [] message = err (internal message)
first_or (x ∷ xs) message = ok x

unfoldable pub write_result : Text → ℕ → WriteResult
unfolding is_success
write_result tag_id error = record {
  tag_id = tag_id;
  success = is_success error;
  error = if is_success error then none else some (format_hresult error);
}

unfoldable pub not_added_result : Text → ℕ → WriteResult
not_added_result tag_id error = record {
  tag_id = tag_id;
  success = false;
  error = some (codes "Failed to add tag: " ++ format_hresult error);
}

module _ {W : Type 0} (server : GroupServer W) where
  unfoldable pub finish_write : ℕ → WriteResult → Act W WriteResult
  unfolding cleanup
  finish_write handle result = do cleanup server handle; return result

  unfoldable pub write_item : Text → OpcValue → AddedGroup → ℕ → Act W WriteResult
  unfolding finish_write write_result opc_value_to_variant
  write_item tag_id value added handle = do
    errors ← invoke (server.write added.group (handle ∷ []) (opc_value_to_variant value ∷ []))
    error ← try (first_or errors (codes "Server returned empty write errors"))
    finish_write added.server_handle (write_result tag_id error)

  unfoldable pub handle_write : Text → OpcValue → Act W WriteResult
  unfolding finish_write write_item not_added_result is_success
  handle_write tag_id value = do
    added ← invoke (server.add_group (codes "opc-da-client-write") true update_rate)
    answer ← invoke (server.add_items added.group (item_defs 0 (tag_id ∷ [])))
    handle ← try (first_or answer.0 (codes "Server returned empty item results"))
    error ← try (first_or answer.1 (codes "Server returned empty item errors"))
    if is_success error
        then write_item tag_id value added handle
        else finish_write added.server_handle (not_added_result tag_id error)
