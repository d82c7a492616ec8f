-- ===== src/Provider.antt =====
-- opc-da-client/src/provider.rs: the values that the client passes to its callers.
-- An f64 is kept as its bit pattern, an i32 by its sign and magnitude.
use opc_cli.Prelude.{ℕ, Bool, true, false, Option, List, Text}

pub record TagValue : Type 0 where
  pub tag_id : Text
  pub value : Text
  pub quality : Text
  pub timestamp : Text

-- A signed integer: `negsuc n` is -(n + 1).
pub data ℤ : Type 0 where
  pos : ℕ → ℤ
  negsuc : ℕ → ℤ

pub data OpcValue : Type 0 where
  string : Text → OpcValue
  int : ℤ → OpcValue
  float : ℕ → OpcValue
  bool : Bool → OpcValue

pub record WriteResult : Type 0 where
  pub tag_id : Text
  pub success : Bool
  pub error : Option Text

pub data BrowseNamespace : Type 0 where
  flat_namespace hierarchical unknown_namespace : BrowseNamespace

unfoldable pub is_flat : BrowseNamespace → Bool
is_flat flat_namespace = true
is_flat _ = false

pub record BrowseCapabilities : Type 0 where
  pub namespace : BrowseNamespace
  pub supports_da3 : Bool
  pub supports_da2 : Bool
  pub max_page_size : ℕ

pub data BrowseNodeKind : Type 0 where
  branch item branch_and_item : BrowseNodeKind

abbrev pub has_children : BrowseNodeKind → Bool
has_children item = false
has_children _ = true

abbrev pub is_item : BrowseNodeKind → Bool
is_item branch = false
is_item _ = true

pub data BrowseNodeFilter : Type 0 where
  branches items all : BrowseNodeFilter

abbrev pub filter_eq : BrowseNodeFilter → BrowseNodeFilter → Bool
filter_eq branches branches = true
filter_eq items items = true
filter_eq all all = true
filter_eq _ _ = false

-- A token is the number of its UUID.
pub record BrowseNode : Type 0 where
  pub token : ℕ
  pub name : Text
  pub item_id : Option Text
  pub kind : BrowseNodeKind

pub record BrowsePageRequest : Type 0 where
  pub parent : Option ℕ
  pub filter : BrowseNodeFilter
  pub max_elements : ℕ
  pub continuation : Option ℕ

pub record BrowsePage : Type 0 where
  pub nodes : List BrowseNode
  pub continuation : Option ℕ
