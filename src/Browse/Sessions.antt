-- ===== src/Browse/Sessions.antt =====
-- opc-da-client/src/native_browse.rs: the sessions of the worker, and
-- the dispatch of a page request. The clock is read where the expired sessions are dropped, and again
-- where a session is marked as used.
use opc_cli.Prelude.{
  ℕ, suc, ◌-◌, Bool, true, false, not, ◌&&◌, ◌||◌, Option, none, some, List, [], ◌∷◌, ◌++◌, Text,
  codes, decimal, length, ltb, leb, ◌==◌, if◌then◌else◌,
}
use opc_cli.Errors.{OpcError, OpcResult, ok, err, invalid_state, is_da3_browse_compatibility_error}
use opc_cli.Provider.{
  is_flat, BrowseCapabilities, BrowseNodeFilter, filter_eq, BrowsePageRequest, BrowsePage,
}
use opc_cli.Act.{Act, return, fail, get, try, update, or_else, ◌>>=◌, ◌>>◌}
use opc_cli.Server.{Server}
use opc_cli.Browse.State.{
  max_browse_sessions, browse_session_idle_timeout, lookup, erase, contains_key, BrowseSessionState,
  da3, da2, BrowseContinuation, da3_continuation, da2_continuation, parent_of, filter_of, free_draw,
}
use opc_cli.Act.{out_of_fuel}
use opc_cli.Browse.Da3.{browse_da3}
use opc_cli.Browse.Da2.{start_da2_page, browse_da2}
use opc_cli.Browse.Capabilities.{max_browse_page_size, capabilities_for_server}

pub record BrowseSessions (W : Type 0) : Type 0 where
  pub sessions : List (ℕ × BrowseSessionState W)
  pub draws : ℕ

unfoldable pub closed_session : OpcError
closed_session = invalid_state (codes "Browse session is invalid, closed, or expired")

abbrev pub ok_or {ℓ} : {A : Type ℓ} → Option A → OpcError → OpcResult A
ok_or none e = err e
ok_or (some a) e = ok a

unfoldable pub too_many_sessions : OpcError
too_many_sessions = invalid_state (
    codes "Maximum of "
    ++ (decimal max_browse_sessions ++ codes " browse sessions is already open"))

unfoldable pub consumed_continuation : OpcError
consumed_continuation =
    invalid_state (codes "Browse continuation is invalid, expired, or already consumed")

unfoldable pub mismatched_continuation : OpcError
mismatched_continuation =
    invalid_state (codes "Browse continuation does not match the requested parent and filter")

unfoldable pub flat_children : OpcError
flat_children = invalid_state (codes "Flat namespaces do not have browsable child nodes")

unfoldable pub bad_page_size : OpcError
bad_page_size =
    invalid_state (codes "Browse page size must be between 1 and " ++ decimal max_browse_page_size)

abbrev pub same_token : Option ℕ → Option ℕ → Bool
same_token none none = true
same_token (some a) (some b) = a == b
same_token _ _ = false

abbrev pub is_root : Option ℕ → Bool
is_root none = true
is_root (some token) = false

module _ {W : Type 0} where
  -- `retain` the sessions that are not expired.
  unfoldable pub live_sessions :
      ℕ → List (ℕ × BrowseSessionState W) → List (ℕ × BrowseSessionState W)
  live_sessions now [] = []
  live_sessions now ((t, s) ∷ rest) =
      if ltb (now - s.last_used) browse_session_idle_timeout
      then (t, s) ∷ live_sessions now rest
      else live_sessions now rest

  unfoldable pub cleanup_expired : ℕ → BrowseSessions W → BrowseSessions W
  unfolding live_sessions
  cleanup_expired now b = record b { sessions = live_sessions now b.sessions }

  -- The session is replaced where it stands.
  unfoldable pub write_back :
      ℕ → BrowseSessionState W → List (ℕ × BrowseSessionState W) → List (ℕ × BrowseSessionState W)
  write_back token s' [] = []
  write_back token s' ((t, s) ∷ rest) =
      if t == token then (t, s') ∷ rest else (t, s) ∷ write_back token s' rest

  -- A method on the session that `get_mut` finds.
  unfoldable pub on_session :
      {A : Type 0} → ℕ → Act (BrowseSessionState W) A → Act (BrowseSessions W) A
  unfolding lookup write_back
  on_session token method b = elim (lookup token b.sessions) [
    | none ↦ fail closed_session b
    | some s ↦
        let (r, s') = method (record s { draws = b.draws }) in
        (r, record b { sessions = write_back token s' b.sessions; draws = s'.draws })
  ]

  abbrev pub without_da3 : BrowseSessionState W → BrowseSessionState W
  without_da3 s = record s {
    capabilities = record s.capabilities { supports_da3 = false };
    backend = da2 [];
  }

  abbrev pub with_root : Option ℕ → BrowseSessionState W → BrowseSessionState W
  with_root parent s = if is_root parent then record s { da3_root_succeeded = true } else s

  unfoldable pub close : ℕ → ℕ → Act (BrowseSessions W) (Unit {0})
  unfolding cleanup_expired lookup erase
  close now token = do
    update (cleanup_expired now)
    sessions ← get (λ b. b.sessions)
    try (ok_or (lookup token sessions) closed_session)
    update (λ b. record b { sessions = erase token b.sessions })
    return tt

module _ {W : Type 0} (server : Server W) (debug : Text → Text) (uuid : ℕ → ℕ) where
  abbrev pub new_session : ℕ → W → BrowseCapabilities → ℕ → BrowseSessionState W
  new_session now w capabilities draws = record {
    server = w;
    capabilities = capabilities;
    backend = if capabilities.supports_da3 then da3 else da2 [];
    da3_root_succeeded = false;
    nodes = [];
    continuations = [];
    last_used = now;
    draws = draws;
  }

  unfoldable pub draw_session_token : Act (BrowseSessions W) ℕ
  unfolding free_draw contains_key
  draw_session_token b =
      elim (free_draw (suc (length b.sessions)) (λ k. contains_key (uuid k) b.sessions) b.draws) [
        | none ↦ out_of_fuel b
        | some k ↦ return (uuid k) (record b { draws = suc k })
      ]

  -- The session that has been connected gets a token.
  unfoldable pub register : ℕ → W → BrowseCapabilities → Act (BrowseSessions W) ℕ
  unfolding draw_session_token
  register now w capabilities = do
    token ← draw_session_token
    update
        (λ b. record b { sessions = (token, new_session now w capabilities b.draws) ∷ b.sessions })
    return token

  unfoldable pub add_session : ℕ → W → Act (BrowseSessions W) ℕ
  unfolding capabilities_for_server register
  add_session now w = do
    sessions ← get (λ b. b.sessions)
    if leb max_browse_sessions (length sessions) then fail too_many_sessions else do
      let (detected, w') = capabilities_for_server server w
      capabilities ← try detected
      register now w' capabilities

  unfoldable pub open_session : ℕ → ℕ → W → Act (BrowseSessions W) ℕ
  unfolding cleanup_expired add_session
  open_session now later w = do update (cleanup_expired now); add_session later w

  unfoldable pub da2_page :
      ℕ → Option ℕ → BrowseNodeFilter → ℕ → Act (BrowseSessionState W) BrowsePage
  unfolding start_da2_page browse_da2
  da2_page fuel parent filter max_elements = do
    state ← start_da2_page server debug uuid parent filter
    browse_da2 server debug uuid fuel parent filter max_elements state

  -- A DA 3.0 page; a root page that comes is remembered.
  unfoldable pub da3_page : Option ℕ → BrowseNodeFilter → ℕ → Act (BrowseSessionState W) BrowsePage
  unfolding browse_da3
  da3_page parent filter max_elements = do
    page ← browse_da3 server uuid parent filter max_elements none
    update (with_root parent)
    return page

  unfoldable pub fall_back :
      Bool → ℕ → Option ℕ → BrowseNodeFilter → ℕ → OpcError → Act (BrowseSessionState W) BrowsePage
  unfolding da2_page
  fall_back can_fallback fuel parent filter max_elements e = do
    capabilities ← get (λ s. s.capabilities)
    if can_fallback && (capabilities.supports_da2 && is_da3_browse_compatibility_error e)
        then (do update without_da3; da2_page fuel parent filter max_elements)
        else fail e

  unfoldable pub first_page :
      ℕ → Option ℕ → BrowseNodeFilter → ℕ → Act (BrowseSessionState W) BrowsePage
  unfolding da3_page fall_back da2_page
  first_page fuel parent filter max_elements = do
    session ← get (λ s. s)
    let can_fallback = is_root parent && not session.da3_root_succeeded
    elim session.backend [
      | da3 ↦
          or_else (da3_page parent filter max_elements)
            (fall_back can_fallback fuel parent filter max_elements)
      | da2 _ ↦ da2_page fuel parent filter max_elements
    ]

  unfoldable pub continue_page : ℕ → BrowseContinuation → ℕ → Act (BrowseSessionState W) BrowsePage
  unfolding browse_da3 browse_da2
  continue_page fuel (da3_continuation parent filter raw) max_elements =
      browse_da3 server uuid parent filter max_elements (some raw)
  continue_page fuel (da2_continuation parent filter state) max_elements =
      browse_da2 server debug uuid fuel parent filter max_elements state

  -- The continuation that is found is the one that `remove` gives.
  unfoldable pub resume_page : ℕ → ℕ → BrowsePageRequest → Act (BrowseSessionState W) BrowsePage
  unfolding continue_page lookup erase
  resume_page fuel token request = do
    continuations ← get (λ s. s.continuations)
    c ← try (ok_or (lookup token continuations) consumed_continuation)
    if not (same_token (parent_of c) request.parent) || not (filter_eq (filter_of c) request.filter)
        then fail mismatched_continuation
        else do
          update (λ s. record s { continuations = erase token s.continuations })
          continue_page fuel c request.max_elements

  unfoldable pub session_page : ℕ → ℕ → BrowsePageRequest → Act (BrowseSessionState W) BrowsePage
  unfolding resume_page first_page
  session_page fuel now request = do
    update (λ s. record s { last_used = now })
    capabilities ← get (λ s. s.capabilities)
    if is_flat capabilities.namespace && not (is_root request.parent)
        then fail flat_children
        else elim request.continuation [
          | some token ↦ resume_page fuel token request
          | none ↦ first_page fuel request.parent request.filter request.max_elements
        ]

  unfoldable pub page : ℕ → ℕ → ℕ → ℕ → BrowsePageRequest → Act (BrowseSessions W) BrowsePage
  unfolding cleanup_expired on_session session_page
  page fuel now later token request = do
    update (cleanup_expired now)
    if request.max_elements == 0 || ltb max_browse_page_size request.max_elements
        then fail bad_page_size
        else on_session token (session_page fuel later request)
