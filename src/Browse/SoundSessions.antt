-- ===== src/Browse/SoundSessions.antt =====
-- The limits of the sessions hold after any sequence of requests.
use opc_cli.Prelude.{ℕ, Bool, Option, none, some, Text, arith}
use opc_cli.Errors.{OpcError}
use opc_cli.Provider.{BrowseNodeFilter, BrowsePageRequest}
use opc_cli.Act.{update, or_else}
use opc_cli.Act.Rules.{
  Keeps, Keeps-or_else, Keeps-bind, Keeps-get, Keeps-return, Keeps-fail, Keeps-if, keeps_rules,
}
use opc_cli.Server.{Server}
use opc_cli.Browse.State.{
  BrowseBackend, da3, da2, BrowseContinuation, da3_continuation, da2_continuation, erase,
}
use opc_cli.Browse.Sessions.{
  da2_page, da3_page, without_da3, with_root, fall_back, first_page, continue_page, resume_page,
  session_page,
}
use opc_cli.Browse.Tokens.{Injective, Drawn-erase, length-erase_le, contains_key-erase}
use opc_cli.Browse.Sound.{Past, IsSound}
use opc_cli.Browse.SoundPages.{browse_da3-IsSound, browse_da2-IsSound, start_da2_page-IsSound}

module _ {W : Type 0} (server : Server W) (debug : Text → Text) (uuid : ℕ → ℕ)
    (inj : Injective uuid) (n : Past) where
  da2_page-IsSound :
      (fuel : ℕ) (parent : Option ℕ) (filter : BrowseNodeFilter) (max_elements : ℕ)
      → Keeps (IsSound uuid n) (da2_page server debug uuid fuel parent filter max_elements)
  unfolding da2_page
  da2_page-IsSound fuel parent filter max_elements =
      Keeps-bind _ _ (start_da2_page-IsSound server debug uuid inj n parent filter)
        λ state. browse_da2-IsSound server debug uuid inj n fuel parent filter max_elements state

  with_root-IsSound :
      (parent : Option ℕ)
      → Keeps {X = OpcError} (IsSound {W = W} uuid n) (update (with_root parent))
  unfolding update
  with_root-IsSound parent = record { preserved = λ s h. ground arith }

  without_da3-IsSound : Keeps {X = OpcError} (IsSound {W = W} uuid n) (update without_da3)
  unfolding update
  without_da3-IsSound = record { preserved = λ s h. ground arith }

  used-IsSound :
      (now : ℕ)
      → Keeps {X = OpcError} (IsSound {W = W} uuid n) (update (λ s. record s { last_used = now }))
  unfolding update
  used-IsSound now = record { preserved = λ s h. ground arith }

  da3_page-IsSound :
      (parent : Option ℕ) (filter : BrowseNodeFilter) (max_elements : ℕ)
      → Keeps (IsSound uuid n) (da3_page server debug uuid parent filter max_elements)
  unfolding da3_page
  da3_page-IsSound parent filter max_elements =
      Keeps-bind _ _ (browse_da3-IsSound server debug uuid inj n parent filter max_elements none)
        λ page. Keeps-bind _ _ (with_root-IsSound parent) λ _. Keeps-return page

  fall_back-IsSound :
      (can : Bool) (fuel : ℕ) (parent : Option ℕ) (filter : BrowseNodeFilter) (max_elements : ℕ)
      (e : OpcError)
      → Keeps (IsSound uuid n) (fall_back server debug uuid can fuel parent filter max_elements e)
  unfolding fall_back
  fall_back-IsSound can fuel parent filter max_elements e =
      Keeps-bind _ _ (Keeps-get _) λ capabilities.
        Keeps-if _ _ _
          (Keeps-bind _ _ without_da3-IsSound λ _. da2_page-IsSound fuel parent filter max_elements)
          (Keeps-fail e)

  -- The first page of each backend.
  backend_page-IsSound :
      (can : Bool) (backend : BrowseBackend) (fuel : ℕ) (parent : Option ℕ)
      (filter : BrowseNodeFilter) (max_elements : ℕ)
      → Keeps (IsSound uuid n) (elim backend [
        | da3 ↦
            or_else
              (da3_page server debug uuid parent filter max_elements)
              (fall_back server debug uuid can fuel parent filter max_elements)
        | da2 _ ↦ da2_page server debug uuid fuel parent filter max_elements
      ])
  backend_page-IsSound can da3 fuel parent filter max_elements =
      Keeps-or_else _ _ (da3_page-IsSound parent filter max_elements)
        (fall_back-IsSound can fuel parent filter max_elements)
  backend_page-IsSound can (da2 _) fuel parent filter max_elements =
      da2_page-IsSound fuel parent filter max_elements

  first_page-IsSound :
      (fuel : ℕ) (parent : Option ℕ) (filter : BrowseNodeFilter) (max_elements : ℕ)
      → Keeps (IsSound uuid n) (first_page server debug uuid fuel parent filter max_elements)
  unfolding first_page
  first_page-IsSound fuel parent filter max_elements =
      Keeps-bind _ _ (Keeps-get _)
        λ s. backend_page-IsSound _ s.backend fuel parent filter max_elements

  pub continue_page-IsSound :
      (fuel : ℕ) (c : BrowseContinuation) (max_elements : ℕ)
      → Keeps (IsSound uuid n) (continue_page server debug uuid fuel c max_elements)
  unfolding continue_page
  continue_page-IsSound fuel (da3_continuation parent filter raw) max_elements =
      browse_da3-IsSound server debug uuid inj n parent filter max_elements (some raw)
  continue_page-IsSound fuel (da2_continuation parent filter state) max_elements =
      browse_da2-IsSound server debug uuid inj n fuel parent filter max_elements state

  erase_page-IsSound :
      (token : ℕ)
      → Keeps {X = OpcError}
          (IsSound {W = W} uuid n)
          (update (λ s. record s { continuations = erase token s.continuations }))
  unfolding update
  erase_page-IsSound token = record {
    preserved = λ s h. record {
      nodes_bounded = h.nodes_bounded;
      pages_bounded = omega (arith, length-erase_le uuid token s.continuations, h.pages_bounded);
      nodes_drawn = h.nodes_drawn;
      pages_drawn = Drawn-erase uuid s.draws token s.continuations h.pages_drawn;
      nodes_fit = h.nodes_fit;
      draws_grow = h.draws_grow;
      consumed_stay = λ k is.
          let (lt, gone) = h.consumed_stay k is in
          (lt, contains_key-erase uuid token (uuid k) s.continuations gone);
    };
  }

  resume_page-IsSound :
      (fuel token : ℕ) (request : BrowsePageRequest)
      → Keeps (IsSound uuid n) (resume_page server debug uuid fuel token request)
  unfolding resume_page
  resume_page-IsSound fuel token request =
      search (keeps_rules, erase_page-IsSound, continue_page-IsSound) depth 8

  continuation_page-IsSound :
      (o : Option ℕ) (fuel : ℕ) (request : BrowsePageRequest)
      → Keeps (IsSound uuid n) (elim o [
        | some token ↦ resume_page server debug uuid fuel token request
        | none ↦
            first_page server debug uuid fuel request.parent request.filter request.max_elements
      ])
  continuation_page-IsSound (some token) fuel request = resume_page-IsSound fuel token request
  continuation_page-IsSound none fuel request =
      first_page-IsSound fuel request.parent request.filter request.max_elements

  pub session_page-IsSound :
      (fuel now : ℕ) (request : BrowsePageRequest)
      → Keeps (IsSound uuid n) (session_page server debug uuid fuel now request)
  unfolding session_page
  session_page-IsSound fuel now request = Keeps-bind _ _ (used-IsSound now) λ _.
      Keeps-bind _ _ (Keeps-get _) λ capabilities.
        Keeps-if _ _ _ (Keeps-fail _) (continuation_page-IsSound request.continuation fuel request)
