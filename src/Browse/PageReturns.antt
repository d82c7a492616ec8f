-- ===== src/Browse/PageReturns.antt =====
-- A page of an OPC DA 2.x server is given, or refused, when the server's iterators end.
use opc_cli.Prelude.{
  ℕ, zero, suc, ◌+◌, ◌≤◌, ◌<◌, ◌≢◌, Bool, Option, none, some, List, [], ◌∷◌, Text, codes, arith,
}
use opc_cli.Errors.{OpcResult}
use opc_cli.Provider.{BrowseNodeFilter}
use opc_cli.Act.{Act, Outcome, done, failed, exhausted, update}
use opc_cli.Act.Rules.{Keeps-try, Keeps-get, Keeps-if, Keeps-return}
use opc_cli.Act.Returns.{
  HasReturned, Returns, Returns-return, Returns-if, Returns-get, Returns-try, Returns-bind,
  Returns-bind_anywhere,
}
use opc_cli.Server.{Server, NameSource}
use opc_cli.Server.Guard.{guard_browse_iterator}
use opc_cli.Browse.Buffer.{Da2PageState, BufferedBrowseIterator, new_buffered}
use opc_cli.Browse.State.{BrowseSessionState, call}
use opc_cli.Browse.Path.{go_up, go_down, move_to_da2_path}
use opc_cli.Browse.Da2.{begin_names, start_da2_page, browse_da2}
use opc_cli.Browse.Sessions.{da2_page}
use opc_cli.Browse.Tokens.{Injective}
use opc_cli.Browse.Sound.{Past, IsSound, call-IsSound, with_backend-IsSound}
use opc_cli.Browse.SoundPages.{
  go_up-IsSound, move_to_da2_path-IsSound, begin_names-IsSound, collect-IsSound,
  start_da2_page-IsSound,
}
use opc_cli.Browse.Finite.{EndsBy, EndsByOpt, left_opt, IsFinite, names_left}
use opc_cli.Browse.Termination.{
  OnOk, any-OnOk, Ok, call-Returns, store_continuation-Returns, collect-Returns,
}

-- The iterators that a server gives end within `n` calls.
abbrev pub HasFiniteNames : {W : Type 0} → ℕ → Server W → Type 0
HasFiniteNames {W = W} n server =
    (browse_type : ℕ) (filter : Option Text) (data_type rights : ℕ) (w : W)
    → OnOk (EndsBy n) (server.begin_da2_browse browse_type filter data_type rights w).0

pub not_exhausted : {A : Type 0} (Q : A → Type 0) (r : Outcome A) → HasReturned Q r → r ≢ exhausted
not_exhausted Q (done a) h = cc
not_exhausted Q (failed e) h = cc
not_exhausted Q exhausted h = absurd h

module _ {W : Type 0} (server : Server W) (debug : Text → Text) (uuid : ℕ → ℕ)
    (inj : Injective uuid) (past : Past) where
  abbrev Goes : {A : Type 0} → Act (BrowseSessionState W) A → Type 0
  Goes m = Ok server debug uuid inj past m

  change-Returns : (f : BrowseSessionState W → BrowseSessionState W) → Goes (update f)
  unfolding update
  change-Returns f = record { from = λ s h. tt }

  any_call-Returns : {A : Type 0} (method : W → OpcResult A × W) → Goes (call method)
  any_call-Returns method =
      call-Returns server debug uuid inj past (λ _. Unit) method λ w. any-OnOk _

  go_up-Returns : (k : ℕ) → Goes (go_up server k)
  unfolding go_up
  go_up-Returns zero = Returns-return tt tt
  go_up-Returns (suc k) =
      Returns-bind _ _ _ (any_call-Returns _) (call-IsSound uuid past _) λ _ _. go_up-Returns k

  go_down-Returns : (bs : List Text) → Goes (go_down server bs)
  unfolding go_down
  go_down-Returns [] = Returns-return tt tt
  go_down-Returns (b ∷ bs) =
      Returns-bind _ _ _ (any_call-Returns _) (call-IsSound uuid past _) λ _ _.
        Returns-bind _ _ _ (change-Returns _) (with_backend-IsSound uuid past _)
          λ _ _. go_down-Returns bs

  move_to_da2_path-Returns : (target : List Text) → Goes (move_to_da2_path server target)
  unfolding move_to_da2_path
  move_to_da2_path-Returns target = Returns-bind _ _ _ (Returns-get _) (Keeps-get _) λ backend _.
      Returns-bind _ _ _ (Returns-try _) (Keeps-try _) λ current _.
        Returns-bind _ _ _ (go_up-Returns _) (go_up-IsSound server debug uuid inj past _) λ _ _.
          Returns-bind _ _ _ (change-Returns _) (with_backend-IsSound uuid past _)
            λ _ _. go_down-Returns _

  -- When no two draws of UUIDs agree, a sound session whose names end, with more fuel than names, has a
  -- page or an error from `browse_da2`.
  pub browse_da2-Returns :
      (m n fuel : ℕ) (parent : Option ℕ) (filter : BrowseNodeFilter) (max_elements : ℕ)
      (state : Da2PageState)
      → IsFinite m n state
      → names_left m n state < fuel
      → Goes (browse_da2 server debug uuid fuel parent filter max_elements state)
  unfolding browse_da2
  browse_da2-Returns m n fuel parent filter max_elements state finite few =
      Returns-bind (λ _. Unit) _ _
        (Returns-if _ _ _ (Returns-return tt tt) (move_to_da2_path-Returns _))
        (Keeps-if _ _ _ (Keeps-return tt) (move_to_da2_path-IsSound server debug uuid inj past _))
        λ _ _.
          Returns-bind _ _ _
            (collect-Returns server debug uuid inj past m n fuel max_elements filter state finite
              few)
            (collect-IsSound server debug uuid inj past fuel max_elements filter state)
            λ page _. Returns-if _ _ _ (Returns-return _ tt) (
              Returns-bind_anywhere _ _ _ (store_continuation-Returns server debug uuid inj past _)
                λ token _. Returns-return _ tt)

  module _ (n : ℕ) (finite : HasFiniteNames n server) where
    abbrev FewNames : Option BufferedBrowseIterator → Type 0
    FewNames o = EndsByOpt n o × (left_opt n o ≤ n)

    new_buffered-FewNames :
        (source : NameSource) (iterator_type : Text) (path : List Text)
        → EndsBy n source
        → FewNames (some (new_buffered source iterator_type path))
    unfolding new_buffered guard_browse_iterator
    new_buffered-FewNames source iterator_type path ends = (ends, omega arith)

    begin_names-Returns :
        (wanted : Bool) (browse_type : ℕ) (iterator_type : Text) (path : List Text)
        → Returns
            (IsSound uuid past)
            FewNames
            (begin_names server debug uuid wanted browse_type iterator_type path)
    unfolding begin_names
    begin_names-Returns wanted browse_type iterator_type path =
        Returns-if _ _ _ (Returns-return none (tt, omega arith)) (
          Returns-bind (EndsBy n) _ _
            (call-Returns server debug uuid inj past (EndsBy n) _
              (finite browse_type (some (codes "")) 0 0))
            (call-IsSound uuid past _)
            λ source ends. Returns-return _ (new_buffered-FewNames source iterator_type path ends))

    abbrev FewLeft : Da2PageState → Type 0
    FewLeft state = IsFinite n n state × (names_left n n state ≤ n + n)

    start_da2_page-Returns :
        (parent : Option ℕ) (filter : BrowseNodeFilter)
        → Returns (IsSound uuid past) FewLeft (start_da2_page server debug uuid parent filter)
    unfolding start_da2_page
    start_da2_page-Returns parent filter =
        Returns-bind _ _ _ (Returns-get _) (Keeps-get _) λ known _.
          Returns-bind _ _ _ (Returns-try _) (Keeps-try _) λ parent_path _.
            Returns-bind _ _ _ (Returns-get _) (Keeps-get _) λ capabilities _.
              Returns-if _ _ _
                (Returns-bind _ _ _ (begin_names-Returns _ _ _ _)
                  (begin_names-IsSound server debug uuid inj past _ _ _ _)
                  λ names (ends, few). Returns-return _ ((tt, ends), omega (arith, few)))
                (Returns-bind _ _ _ (move_to_da2_path-Returns _)
                  (move_to_da2_path-IsSound server debug uuid inj past _)
                  λ _ _.
                    Returns-bind _ _ _ (begin_names-Returns _ _ _ _)
                      (begin_names-IsSound server debug uuid inj past _ _ _ _)
                      λ below (ends, few).
                        Returns-bind _ _ _ (begin_names-Returns _ _ _ _)
                          (begin_names-IsSound server debug uuid inj past _ _ _ _)
                          λ names (ends', few').
                            Returns-return _ ((ends, ends'), omega (arith, few, few')))

    -- When no two draws of UUIDs agree and every iterator of the server ends within `n` calls, fuel for
    -- two times `n` names is enough for a sound session to have a first page or an error from `da2_page`.
    pub da2_page-Returns :
        (fuel : ℕ) (parent : Option ℕ) (filter : BrowseNodeFilter) (max_elements : ℕ)
        (s : BrowseSessionState W)
        → IsSound uuid past s
        → n + n < fuel
        → (da2_page server debug uuid fuel parent filter max_elements s).0 ≢ exhausted
    unfolding da2_page
    da2_page-Returns fuel parent filter max_elements s sound enough =
        let all : Goes (da2_page server debug uuid fuel parent filter max_elements) =
          unfold da2_page in
          Returns-bind FewLeft _ _ (start_da2_page-Returns parent filter)
            (start_da2_page-IsSound server debug uuid inj past parent filter)
            λ state (ends, few).
              browse_da2-Returns n n fuel parent filter max_elements state ends
                (omega (arith, few, enough)) in
        not_exhausted _ _ (all.from s sound)
