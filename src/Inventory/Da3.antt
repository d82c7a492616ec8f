-- ===== src/Inventory/Da3.antt =====
-- opc-da-client/src/inventory/da3.rs: a page of an OPC DA 3.0 branch: the request for it, the answer (of
-- the call that `paced_call` makes, or its cancellation), which is a function of the request, and the
-- progress of the continuation tokens.
use opc_cli.Prelude.{
  ℕ, Bool, true, false, not, ◌&&◌, Option, none, some, List, [], ◌∷◌, ◌++◌, Text, codes, decimal,
  is_empty, leb, if◌then◌else◌,
}
use opc_cli.Errors.{
  OpcError, OpcResult, internal, contextual_browse_error, browse_continuation_non_progress_error,
  is_da3_browse_compatibility_error, max_consecutive_empty_da3_pages,
}
use opc_cli.Errors as Errors
use opc_cli.Provider.{BrowseNodeKind, BrowseNodeFilter, all, has_children, is_item}
use opc_cli.Server.{NativeBrowseElement, NativeBrowsePage}
use opc_cli.Browse.Da2.{has_text}
use opc_cli.Browse.Da3.{kind_of_flags}
use opc_cli.Telemetry.Histogram.{add_u64}
use opc_cli.Inventory.State.{
  InventoryError, was_cancelled, failed, invalid_da2_branch, InventoryResult, ok, err, da3_branch,
  BranchWork, InventoryNode, da3_page, InventoryPage, is_none, is_empty_list,
}

module _ (debug : Text → Text) where
  unfoldable pub da3_continuation_error : BranchWork → Text → InventoryError
  da3_continuation_error work detail =
      failed (browse_continuation_non_progress_error debug work.breadcrumbs detail)

  -- What is made of an error of the call.
  unfoldable pub da3_error : Bool → BranchWork → Option Text → InventoryError → InventoryError
  da3_error is_root work item_id (failed e) =
      if is_root && is_da3_browse_compatibility_error e
      then failed e
      else failed (contextual_browse_error debug e (codes "browse_da3") work.breadcrumbs item_id)
  da3_error is_root work item_id was_cancelled = was_cancelled
  da3_error is_root work item_id (invalid_da2_branch parent name) = invalid_da2_branch parent name

  -- The empty pages in a row are counted, and limited.
  unfoldable pub count_empty_page :
      Bool → Text → BranchWork → InventoryResult (Option Text) × BranchWork
  unfolding da3_continuation_error
  count_empty_page empty value work =
      let pages = add_u64 work.da3_consecutive_empty_pages 1 in
      let counted = record work { da3_consecutive_empty_pages = pages } in
      if not empty
      then (ok (some value), record work { da3_consecutive_empty_pages = 0 })
      else if leb max_consecutive_empty_da3_pages pages
      then (
        err (
            da3_continuation_error counted
              (codes "server returned " ++ (decimal pages ++ codes " consecutive empty pages"))),
        counted,
      )
      else (ok (some value), counted)

  -- A token is new, or an error.
  unfoldable pub take_token : Bool → Text → BranchWork → InventoryResult (Option Text) × BranchWork
  unfolding count_empty_page da3_continuation_error has_text
  take_token empty value work =
      if is_empty value
      then (
        err (da3_continuation_error work (codes "server returned an empty continuation token")),
        work,
      )
      else if has_text value work.da3_seen_continuations
      then (
        err (
            da3_continuation_error work
              (codes "server repeated continuation token " ++ debug value)),
        work,
      )
      else count_empty_page empty value
          (record work { da3_seen_continuations = value ∷ work.da3_seen_continuations })

  unfoldable pub next_continuation :
      Bool → Option Text → Bool → BranchWork → InventoryResult (Option Text) × BranchWork
  unfolding take_token da3_continuation_error
  next_continuation more_elements continuation empty work =
      if not more_elements
      then (ok none, record work { da3_consecutive_empty_pages = 0 })
      else elim continuation [
        | none ↦ (
          err (
              da3_continuation_error work
                (codes "server reported more elements without a continuation point")),
          work,
        )
        | some value ↦ take_token empty value work
      ]

abbrev pub da3_inventory_node : BrowseNodeKind → NativeBrowseElement → InventoryNode
da3_inventory_node kind e = record {
  display_name = e.name;
  item_id = e.item_id;
  kind = kind;
  child = if has_children kind then some (da3_branch e.item_id) else none;
}

abbrev pub without_item_id : BrowseNodeKind → NativeBrowseElement → OpcError
without_item_id kind e =
    if is_item kind
    then internal (codes "DA3 item '" ++ (e.name ++ codes "' did not include an item ID"))
    else internal (codes "DA3 branch '" ++ (e.name ++ codes "' did not include an item ID"))

unfoldable pub map_da3_node : NativeBrowseElement → OpcResult InventoryNode
map_da3_node e = elim (kind_of_flags e.has_children e.is_item) [
  | none ↦ Errors.err (
      internal
        (codes "DA3 browse element '" ++ (e.name ++ codes "' is neither a branch nor an item")))
  | some kind ↦
      if is_none e.item_id
      then Errors.err (without_item_id kind e)
      else Errors.ok (da3_inventory_node kind e)
]

-- The first error, or all nodes.
abbrev pub collect_node :
    OpcResult InventoryNode
    → InventoryResult (List InventoryNode)
    → InventoryResult (List InventoryNode)
collect_node (Errors.err e) rest = err (failed e)
collect_node (Errors.ok node) (ok nodes) = ok (node ∷ nodes)
collect_node (Errors.ok node) (err e) = err e

unfoldable pub map_da3_page : List NativeBrowseElement → InventoryResult (List InventoryNode)
unfolding map_da3_node
map_da3_page [] = ok []
map_da3_page (e ∷ es) = collect_node (map_da3_node e) (map_da3_page es)

abbrev pub no_elements : List NativeBrowseElement → Bool
no_elements [] = true
no_elements (e ∷ es) = false

abbrev pub da3_result :
    InventoryResult (Option Text) × BranchWork
    → InventoryResult (List InventoryNode)
    → InventoryResult InventoryPage × BranchWork
da3_result (err e, work) nodes = (err e, work)
da3_result (ok none, work) (ok nodes) = (ok (record { nodes = nodes; continuation = none }), work)
da3_result (ok (some value), work) (ok nodes) =
    (ok (record { nodes = nodes; continuation = some (da3_page value) }), work)
da3_result (ok continuation, work) (err e) = (err e, work)

-- The arguments of `browse_da3`.
pub record Da3Request : Type 0 where
  pub item_id : Option Text
  pub continuation : Option Text
  pub max_elements : ℕ
  pub filter : BrowseNodeFilter

-- The call of `browse_da3` by `paced_call`.
abbrev pub Da3Call : Type 0
Da3Call = Da3Request → InventoryResult NativeBrowsePage

-- The request for the next page of a branch at `item_id`.
abbrev pub da3_request : ℕ → Option Text → BranchWork → Da3Request
da3_request batch_size item_id work = record {
  item_id = item_id;
  continuation = work.da3_continuation;
  max_elements = batch_size;
  filter = all;
}

-- What is made of the answer.
unfoldable pub received_page :
    (Text → Text)
    → Option Text
    → BranchWork
    → InventoryResult NativeBrowsePage
    → InventoryResult InventoryPage × BranchWork
unfolding da3_error next_continuation map_da3_page
received_page debug item_id work (err e) =
    let is_root = is_none item_id && is_empty_list work.breadcrumbs in
    (err (da3_error debug is_root work item_id e), work)
received_page debug item_id work (ok page) =
    da3_result
      (next_continuation debug page.more_elements page.continuation (no_elements page.elements)
        work)
      (map_da3_page page.elements)

-- `next_page` of a branch at `item_id`.
unfoldable pub next_da3_page :
    (Text → Text)
    → ℕ
    → Da3Call
    → Option Text
    → BranchWork
    → InventoryResult InventoryPage × BranchWork
unfolding received_page
next_da3_page debug batch_size call item_id work =
    received_page debug item_id work (call (da3_request batch_size item_id work))
