-- ===== src/Worker/Groups.antt =====
-- opc-da-client/src/backend/connector.rs: `ConnectedGroup`, the methods of `ConnectedServer` that add and
-- remove groups, and the values that they exchange, as far as the worker sets and reads them. A group
-- is a number; its methods act on the server. An HRESULT is a u32. An array of an answer is a list, and
-- empty for a null pointer, whose `len` is 0 and whose slice is empty.
use opc_cli.Prelude.{ℕ, suc, ◌%◌, ◌^◌, Bool, true, List, [], ◌∷◌, Text, ltb, ◌≡◌}
use opc_cli.Errors.{OpcError, OpcResult, ok, err}
use opc_cli.Act.{Act, return}
use opc_cli.Values.{Variant}

-- `tagOPCITEMDEF`.
pub record ItemDef : Type 0 where
  pub item_id : Text
  pub client_handle : ℕ

-- `tagOPCITEMSTATE`; the time is a FILETIME.
pub record ItemState : Type 0 where
  pub value : Variant
  pub quality : ℕ
  pub time_high : ℕ
  pub time_low : ℕ

-- What `add_group` gives: the group, and the handle that the server has for it.
pub record AddedGroup : Type 0 where
  pub group : ℕ
  pub server_handle : ℕ

pub record GroupServer (W : Type 0) : Type 0 where
  -- The name, whether it is active, and the update rate.
  pub add_group : Text → Bool → ℕ → W → OpcResult AddedGroup × W
  -- The handles of the items, and an HRESULT for each.
  pub add_items : ℕ → List ItemDef → W → OpcResult (List ℕ × List ℕ) × W
  pub read : ℕ → ℕ → List ℕ → W → OpcResult (List ItemState × List ℕ) × W
  pub write : ℕ → List ℕ → List Variant → W → OpcResult (List ℕ) × W
  pub remove_group : ℕ → Bool → W → OpcResult (Unit {0}) × W

abbrev pub opc_ds_device : ℕ
opc_ds_device = 2

abbrev pub update_rate : ℕ
update_rate = 1000

-- `HRESULT::is_ok`: it is not negative.
unfoldable pub is_success : ℕ → Bool
is_success hr = ltb hr 0x80000000

unfoldable pub item_defs : ℕ → List Text → List ItemDef
item_defs n [] = []
item_defs n (t ∷ ts) = record { item_id = t; client_handle = n % 2 ^ 32 } ∷ item_defs (suc n) ts

-- The groups that a server holds, as OPC DA documents it: a group that was added is there until it is
-- removed, and the removal of a group that is there succeeds.
pub record HoldsGroups {W : Type 0} (server : GroupServer W) (held_groups : W → List ℕ)
    : Type 0 where
  pub added :
      (name : Text) (a : AddedGroup) (w w' : W)
      → server.add_group name true update_rate w ≡ (ok a, w')
      → held_groups w' ≡ a.server_handle ∷ held_groups w
  pub not_added :
      (name : Text) (e : OpcError) (w w' : W)
      → server.add_group name true update_rate w ≡ (err e, w')
      → held_groups w' ≡ held_groups w
  pub items_kept :
      (group : ℕ) (items : List ItemDef) (w : W)
      → held_groups (server.add_items group items w).1 ≡ held_groups w
  pub read_kept :
      (group : ℕ) (handles : List ℕ) (w : W)
      → held_groups (server.read group opc_ds_device handles w).1 ≡ held_groups w
  pub write_kept :
      (group : ℕ) (handles : List ℕ) (values : List Variant) (w : W)
      → held_groups (server.write group handles values w).1 ≡ held_groups w
  pub removed :
      (handle : ℕ) (others : List ℕ) (w : W)
      → held_groups w ≡ handle ∷ others
      → held_groups (server.remove_group handle true w).1 ≡ others

module _ {W : Type 0} (server : GroupServer W) where
  -- The removal at the end of an operation: an error of it goes to the log.
  unfoldable pub cleanup : ℕ → Act W (Unit {0})
  cleanup handle w = return tt (server.remove_group handle true w).1
