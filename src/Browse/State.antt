-- ===== src/Browse/State.antt =====
-- opc-da-client/src/native_browse/state.rs: the state of a session, and its tokens. A hash map is an
-- association list with each key once. `uuid k` is the UUID of draw number `k`, and the session
-- counts the draws of the process.
use opc_cli.Prelude.{
  ℕ, zero, suc, Bool, true, false, ◌||◌, Option, none, some, List, [], ◌∷◌, ◌++◌, Text, codes,
  decimal, length, leb, ◌==◌, if◌then◌else◌,
}
use opc_cli.Errors.{OpcError, OpcResult, ok, err, invalid_state}
use opc_cli.Provider.{BrowseCapabilities, BrowseNodeKind, BrowseNodeFilter}
use opc_cli.Act.{Act, return, fail, out_of_fuel, get, update, ◌>>=◌, ◌>>◌}
use opc_cli.Browse.Buffer.{Da2PageState}

abbrev pub max_browse_sessions : ℕ
max_browse_sessions = 64

abbrev pub max_node_tokens_per_session : ℕ
max_node_tokens_per_session = 100000

abbrev pub max_page_tokens_per_session : ℕ
max_page_tokens_per_session = 256

-- 300 seconds, in nanoseconds.
abbrev pub browse_session_idle_timeout : ℕ
browse_session_idle_timeout = 300000000000

module _ {V : Type 0} where
  unfoldable pub lookup : ℕ → List (ℕ × V) → Option V
  lookup key [] = none
  lookup key ((k, v) ∷ kvs) = if k == key then some v else lookup key kvs

  unfoldable pub erase : ℕ → List (ℕ × V) → List (ℕ × V)
  erase key [] = []
  erase key ((k, v) ∷ kvs) = if k == key then erase key kvs else (k, v) ∷ erase key kvs

  unfoldable pub contains_key : ℕ → List (ℕ × V) → Bool
  contains_key key [] = false
  contains_key key ((k, v) ∷ kvs) = k == key || contains_key key kvs

pub data BrowseBackend : Type 0 where
  da3 : BrowseBackend
  da2 : List Text → BrowseBackend

pub data NodeLocation : Type 0 where
  da3_location : Text → NodeLocation
  da2_location : List Text → NodeLocation
  item_location : NodeLocation

pub record NodeState : Type 0 where
  pub kind : BrowseNodeKind
  pub location : NodeLocation

pub data BrowseContinuation : Type 0 where
  da3_continuation : Option ℕ → BrowseNodeFilter → Text → BrowseContinuation
  da2_continuation : Option ℕ → BrowseNodeFilter → Da2PageState → BrowseContinuation

abbrev pub parent_of : BrowseContinuation → Option ℕ
parent_of (da3_continuation parent filter raw) = parent
parent_of (da2_continuation parent filter state) = parent

abbrev pub filter_of : BrowseContinuation → BrowseNodeFilter
filter_of (da3_continuation parent filter raw) = filter
filter_of (da2_continuation parent filter state) = filter

pub record BrowseSessionState (W : Type 0) : Type 0 where
  pub server : W
  pub capabilities : BrowseCapabilities
  pub backend : BrowseBackend
  pub da3_root_succeeded : Bool
  pub nodes : List (ℕ × NodeState)
  pub continuations : List (ℕ × BrowseContinuation)
  pub last_used : ℕ
  pub draws : ℕ

-- The number of the first draw that is not taken; `none` when the fuel runs out.
unfoldable pub free_draw : ℕ → (ℕ → Bool) → ℕ → Option ℕ
free_draw zero taken k = none
free_draw (suc fuel) taken k = elim (taken k) [
  | true ↦ free_draw fuel taken (suc k)
  | false ↦ some k
]

module _ {W : Type 0} where
  -- A method of the session's server, with `map_err`.
  unfoldable pub call_map_err :
      {A : Type 0} → (OpcError → OpcError) → (W → OpcResult A × W) → Act (BrowseSessionState W) A
  call_map_err f method s =
      let (r, w) = method s.server in
      elim r [
        | ok a ↦ return a (record s { server = w })
        | err e ↦ fail (f e) (record s { server = w })
      ]

  unfoldable pub call : {A : Type 0} → (W → OpcResult A × W) → Act (BrowseSessionState W) A
  unfolding call_map_err
  call = call_map_err (λ e. e)

unfoldable pub too_many_nodes : OpcError
too_many_nodes = invalid_state (
    codes "Browse session reached its limit of "
    ++ (decimal max_node_tokens_per_session ++ codes " node tokens"))

unfoldable pub too_many_pages : OpcError
too_many_pages = invalid_state (
    codes "Browse session reached its limit of "
    ++ (decimal max_page_tokens_per_session ++ codes " page tokens"))

module _ {W : Type 0} (uuid : ℕ → ℕ) where
  -- The loop that draws until a UUID is no key.
  unfoldable pub draw_token : {V : Type 0} → List (ℕ × V) → Act (BrowseSessionState W) ℕ
  unfolding free_draw contains_key
  draw_token map s = elim (free_draw (suc (length map)) (λ k. contains_key (uuid k) map) s.draws) [
    | none ↦ out_of_fuel s
    | some k ↦ return (uuid k) (record s { draws = suc k })
  ]

  unfoldable pub insert_node : BrowseNodeKind → NodeLocation → Act (BrowseSessionState W) ℕ
  unfolding draw_token
  insert_node kind location = do
    nodes ← get (λ s. s.nodes)
    if leb max_node_tokens_per_session (length nodes) then fail too_many_nodes else do
      token ← draw_token nodes
      let node : NodeState = record { kind = kind; location = location }
      update (λ s. record s { nodes = (token, node) ∷ s.nodes })
      return token

  unfoldable pub store_continuation : BrowseContinuation → Act (BrowseSessionState W) ℕ
  unfolding draw_token
  store_continuation continuation = do
    continuations ← get (λ s. s.continuations)
    if leb max_page_tokens_per_session (length continuations) then fail too_many_pages else do
      token ← draw_token continuations
      update (λ s. record s { continuations = (token, continuation) ∷ s.continuations })
      return token
