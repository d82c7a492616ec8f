-- ===== src/Browse/Consumed.antt =====
-- A continuation of a session is consumed by the page that it gives.
use opc_cli.Prelude.{
  ℕ, ◌<◌, ◌≡◌, refl, Bool, false, not, ◌&&◌, ◌||◌, none, some, List, [], ◌∷◌, Text, arith, ◌==◌,
  if◌then◌else◌, Bool-cases, inl, inr, ==_iff,
}
use opc_cli.Provider.{is_flat, filter_eq, BrowsePageRequest, BrowsePage}
use opc_cli.Act.{Outcome, failed, fail, get, try, update, ◌>>=◌}
use opc_cli.Server.{Server}
use opc_cli.Browse.State.{
  BrowseSessionState, BrowseContinuation, parent_of, filter_of, lookup, erase, contains_key,
}
use opc_cli.Browse.Sessions.{
  continue_page, resume_page, session_page, same_token, is_root, consumed_continuation,
  flat_children,
}
use opc_cli.Browse.Tokens.{
  Injective, lookup-Drawn, lookup_fresh, contains_key-erase_same, Drawn-erase, length-erase_le,
}
use opc_cli.Browse.Sound.{Past, IsSound}
use opc_cli.Browse.SoundSessions.{continue_page-IsSound, session_page-IsSound}

-- A request for a page, with the fuel of its loop and the reading of the clock.
pub record PageCall : Type 0 where
  pub fuel : ℕ
  pub now : ℕ
  pub request : BrowsePageRequest

-- A child page is asked for where all items are at the root.
abbrev pub is_below_flat : {W : Type 0} → BrowsePageRequest → BrowseSessionState W → Bool
is_below_flat request s = is_flat s.capabilities.namespace && not (is_root request.parent)

-- The continuation is for another parent or another filter.
abbrev pub is_mismatched : BrowseContinuation → BrowsePageRequest → Bool
is_mismatched c request =
    not (same_token (parent_of c) request.parent) || not (filter_eq (filter_of c) request.filter)

module _ {W : Type 0} (server : Server W) (debug : Text → Text) (uuid : ℕ → ℕ) where
  abbrev pub ask : PageCall → BrowseSessionState W → Outcome BrowsePage × BrowseSessionState W
  ask c s = session_page server debug uuid c.fuel c.now c.request s

  abbrev pub ask_all : List PageCall → BrowseSessionState W → BrowseSessionState W
  ask_all [] s = s
  ask_all (c ∷ cs) s = ask_all cs (ask c s).1

  resume_page_taken :
      (fuel token : ℕ) (request : BrowsePageRequest) (c : BrowseContinuation)
      (s : BrowseSessionState W)
      → lookup token s.continuations ≡ some c
      → is_mismatched c request ≡ false
      → resume_page server debug uuid fuel token request s
        ≡ continue_page server debug uuid fuel c request.max_elements
            (record s { continuations = erase token s.continuations })
  unfolding resume_page ◌>>=◌ get try update
  resume_page_taken fuel token request c s known fits = rw (known, fits) refl

  resume_page_refused :
      (fuel token : ℕ) (request : BrowsePageRequest) (s : BrowseSessionState W)
      → lookup token s.continuations ≡ none
      → resume_page server debug uuid fuel token request s ≡ (failed consumed_continuation, s)
  unfolding resume_page ◌>>=◌ get try
  resume_page_refused fuel token request s unknown = rw unknown refl

  ask_taken :
      (p : PageCall) (token : ℕ) (c : BrowseContinuation) (s : BrowseSessionState W)
      → p.request.continuation ≡ some token
      → is_below_flat p.request s ≡ false
      → lookup token s.continuations ≡ some c
      → is_mismatched c p.request ≡ false
      → ask p s
        ≡ continue_page server debug uuid p.fuel c p.request.max_elements
            (record s { last_used = p.now; continuations = erase token s.continuations })
  unfolding session_page ◌>>=◌ get update
  ask_taken p token c s asked open_to known fits =
      rw (open_to, asked)
        (resume_page_taken p.fuel token p.request c (record s { last_used = p.now }) known fits)

  ask_refused :
      (p : PageCall) (token : ℕ) (s : BrowseSessionState W)
      → p.request.continuation ≡ some token
      → lookup token s.continuations ≡ none
      → ask p s ≡ (
        failed (if is_below_flat p.request s then flat_children else consumed_continuation),
        record s { last_used = p.now },
      )
  unfolding session_page ◌>>=◌ get update fail
  ask_refused p token s asked unknown = elim (Bool-cases (is_below_flat p.request s)) [
    | inl below ↦ rw below refl
    | inr open_to ↦
        rw (open_to, asked)
          (resume_page_refused p.fuel token p.request (record s { last_used = p.now }) unknown)
  ]

module _ {W : Type 0} (server : Server W) (debug : Text → Text) (uuid : ℕ → ℕ)
    (inj : Injective uuid) where
  ask_all-IsSound :
      (past : Past) (ps : List PageCall) (s : BrowseSessionState W)
      → IsSound uuid past s
      → IsSound uuid past (ask_all server debug uuid ps s)
  ask_all-IsSound past [] s h = h
  ask_all-IsSound past (p ∷ ps) s h =
      ask_all-IsSound past ps (ask server debug uuid p s).1
        ((session_page-IsSound server debug uuid inj past p.fuel p.now p.request).preserved s h)

  -- Draw number `k` is consumed now.
  taken-IsSound :
      (past : Past) (now k : ℕ) (s : BrowseSessionState W)
      → k < s.draws
      → IsSound uuid past s
      → IsSound uuid
          (record { draws = 0; consumed = λ j. j == k })
          (record s { last_used = now; continuations = erase (uuid k) s.continuations })
  taken-IsSound past now k s lt h = record {
    nodes_bounded = h.nodes_bounded;
    pages_bounded = omega (arith, length-erase_le uuid (uuid k) s.continuations, h.pages_bounded);
    nodes_drawn = h.nodes_drawn;
    pages_drawn = Drawn-erase uuid s.draws (uuid k) s.continuations h.pages_drawn;
    nodes_fit = h.nodes_fit;
    draws_grow = omega arith;
    consumed_stay = λ j is.
        let same : j ≡ k = (==_iff j k).0 is in
        rw same (lt, contains_key-erase_same uuid (uuid k) s.continuations);
  }

  -- When no two draws of UUIDs agree, and a sound session has a continuation under a token that a
  -- request names with the continuation's parent and filter, and that does not ask for children in a
  -- flat namespace, then after that request and any further ones a request with the token gives no
  -- page, whatever the server does: it fails as consumed, or because it asks for children in a
  -- flat namespace.
  pub ask_consumed :
      (past : Past) (p q : PageCall) (ps : List PageCall) (token : ℕ) (c : BrowseContinuation)
      (s : BrowseSessionState W)
      → IsSound uuid past s
      → p.request.continuation ≡ some token
      → is_below_flat p.request s ≡ false
      → lookup token s.continuations ≡ some c
      → is_mismatched c p.request ≡ false
      → q.request.continuation ≡ some token
      → let s' = ask_all server debug uuid (p ∷ ps) s in
        ask server debug uuid q s' ≡ (
          failed (if is_below_flat q.request s' then flat_children else consumed_continuation),
          record s' { last_used = q.now },
        )
  ask_consumed past p q ps token c s sound asked open_to known fits again =
      let (k, lt, drawn) =
        lookup-Drawn uuid s.draws token s.continuations sound.pages_drawn known in
      let past' : Past = record { draws = 0; consumed = λ j. j == k } in
      let s0 = record s { last_used = p.now; continuations = erase token s.continuations } in
      let sound0 : IsSound uuid past' s0 = rw drawn (taken-IsSound past p.now k s lt sound) in
      let sound1 : IsSound uuid past' (ask server debug uuid p s).1 =
        rw (ask_taken server debug uuid p token c s asked open_to known fits) (
          (continue_page-IsSound server debug uuid inj past' p.fuel c
              p.request.max_elements).preserved
            s0 sound0) in
      let s' = ask_all server debug uuid (p ∷ ps) s in
      let sound2 : IsSound uuid past' s' =
        ask_all-IsSound past' ps (ask server debug uuid p s).1 sound1 in
      let gone : contains_key token s'.continuations ≡ false =
        rw drawn (sound2.consumed_stay k ((==_iff k k).1 refl)).1 in
      ask_refused server debug uuid q token s' again (lookup_fresh uuid token s'.continuations gone)
