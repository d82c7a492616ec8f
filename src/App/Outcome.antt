-- ===== src/App/Outcome.antt =====
-- Actions and the answers to them: what the user sees from a key press to the result.
use opc_cli.Prelude.{
  ℕ, zero, suc, ◌≡◌, ◌≢◌, refl, sym, Bool, true, false, none, some, List, [], ◌∷◌, Text, arith,
  length, get_elem?, replicate, length-replicate, drop, ◌⊎◌, inl, inr, is_empty, if◌then◌else◌,
}
use opc_cli.Platform.{Platform}
use opc_cli.Provider.{TagValue}
use opc_cli.Errors.{OpcResult, ok, err}
use opc_cli.App.State.{App, home, loading, server_list, tag_list}
use opc_cli.App.Select.{list_count}
use opc_cli.App.Tasks.{
  start_fetch_servers, start_browse_tags, start_read_values, selected_tag_ids, is_flagged,
}
use opc_cli.App.Poll.{
  TryRecv, received, empty, closed, poll_fetch_result, poll_browse_result, poll_read_result,
}
use opc_cli.App.Selection.{IsInRange}

-- The tags whose flag is set, taken side by side.
abbrev pub flagged : List Text → List Bool → List Text
flagged [] flags = []
flagged (tag ∷ tags) [] = []
flagged (tag ∷ tags) (true ∷ flags) = tag ∷ flagged tags flags
flagged (tag ∷ tags) (false ∷ flags) = flagged tags flags

-- A failure is an error, or a channel that closed with no answer.
abbrev pub IsFailure {ℓ} : {A : Type ℓ} → TryRecv (OpcResult A) → Type 0
IsFailure (received (ok a)) = ⊥
IsFailure (received (err e)) = Unit
IsFailure empty = ⊥
IsFailure closed = Unit

-- The screen and the lists of `app'` are those of `app`.
abbrev pub SamePlace : App → App → Type 0
SamePlace app app' =
    (app'.current_screen ≡ app.current_screen)
    × (app'.servers ≡ app.servers)
    × (app'.tags ≡ app.tags)
    × (app'.selected_tags ≡ app.selected_tags)
    × (app'.selected_index ≡ app.selected_index)

module _ (p : Platform) where
  -- A server listing started on the home screen returns there on failure, with the lists unchanged.
  pub fetch_failure_returns :
      (app : App) (a : TryRecv (OpcResult (List Text)))
      → IsFailure a
      → app.current_screen ≡ home
      → SamePlace app (poll_fetch_result p a (start_fetch_servers app))
  unfolding poll_fetch_result start_fetch_servers
  fetch_failure_returns app closed f h = ground arith
  fetch_failure_returns app _ f h = ground arith

  -- A browse that puts the loading screen up returns on failure to the place where it was started.
  browse_failure_returns :
      (app : App) (a : TryRecv (OpcResult (List Text)))
      → IsFailure a
      → app.current_screen ≢ loading
      → (start_browse_tags app).current_screen ≡ loading
      → SamePlace app (poll_browse_result p a (start_browse_tags app))
  unfolding poll_browse_result start_browse_tags
  browse_failure_returns app closed f n h = ground arith
  browse_failure_returns app _ f n h = ground arith

  -- A read that puts the loading screen up returns on failure to the place where it was started, and
  -- leaves the values and the time of the last read as they were.
  read_failure_returns :
      (app : App) (now : ℕ) (a : TryRecv (OpcResult (List TagValue)))
      → IsFailure a
      → app.current_screen ≢ loading
      → (start_read_values app).current_screen ≡ loading
      → let app' = poll_read_result p now a (start_read_values app) in
        SamePlace app app'
        × (app'.tag_values ≡ app.tag_values)
        × (app'.last_read_time ≡ app.last_read_time)
  unfolding poll_read_result start_read_values
  read_failure_returns app now closed f n h = ground arith
  read_failure_returns app now _ f n h = ground arith

get_elem?-replicate {ℓ} :
    {A : Type ℓ} (n i : ℕ) (a : A)
    → (get_elem? (replicate n a) i ≡ none) ⊎ (get_elem? (replicate n a) i ≡ some a)
get_elem?-replicate zero i a = inl refl
get_elem?-replicate (suc n) zero a = inr refl
get_elem?-replicate (suc n) (suc i) a = get_elem?-replicate n i a

is_flagged-replicate : (n i : ℕ) → is_flagged (replicate n false) i ≡ false
is_flagged-replicate n i = ground (arith, get_elem?-replicate n i false)

selected_tag_ids-replicate :
    (k n : ℕ) (tags : List Text) → selected_tag_ids k tags (replicate n false) ≡ []
unfolding selected_tag_ids
selected_tag_ids-replicate k n [] = refl
selected_tag_ids-replicate k n (tag ∷ tags) =
    rw (is_flagged-replicate n k) (selected_tag_ids-replicate (suc k) n tags)

flagged-nil : (tags : List Text) → flagged tags [] ≡ []
flagged-nil [] = refl
flagged-nil (tag ∷ tags) = refl

flagged-drop :
    (k : ℕ) (tag : Text) (tags : List Text) (flags : List Bool)
    → flagged (tag ∷ tags) (drop k flags) ≡ (
        if is_flagged flags k
        then tag ∷ flagged tags (drop (suc k) flags)
        else flagged tags (drop (suc k) flags))
flagged-drop zero tag tags [] = sym (flagged-nil tags)
flagged-drop zero tag tags (true ∷ flags) = refl
flagged-drop zero tag tags (false ∷ flags) = refl
flagged-drop (suc k) tag tags [] = sym (flagged-nil tags)
flagged-drop (suc k) tag tags (flag ∷ flags) = flagged-drop k tag tags flags

-- The indexed loop collects what a walk over the tags and their flags side by side collects.
pub selected_tag_ids-flagged :
    (k : ℕ) (tags : List Text) (flags : List Bool)
    → selected_tag_ids k tags flags ≡ flagged tags (drop k flags)
unfolding selected_tag_ids
selected_tag_ids-flagged k [] flags = refl
selected_tag_ids-flagged k (tag ∷ tags) flags =
    rw (selected_tag_ids-flagged (suc k) tags flags) (sym (flagged-drop k tag tags flags))

module _ (p : Platform) where
  -- A browse of a listed server that returns tags shows them on the tag list, with the cursor and the
  -- selection of the list on the first (nowhere exactly if there is none), a cleared flag for each,
  -- and the server kept for the reads; a read started there with no tag toggled sends nothing.
  pub browse_shows_tags :
      (app : App) (i : ℕ) (server : Text) (tags : List Text)
      → app.current_screen ≡ server_list
      → app.selected_index ≡ some i
      → get_elem? app.servers i ≡ some server
      → let app' = poll_browse_result p (received (ok tags)) (start_browse_tags app) in
        (app'.current_screen ≡ tag_list)
        × (app'.tags ≡ tags)
        × (app'.browsed_server ≡ some server)
        × IsInRange app'
        × (app'.selected_index ≡ (if is_empty tags then none else some 0))
        × (app'.list_state ≡ (if is_empty tags then none else some 0))
        × (app'.selected_tags ≡ replicate (length tags) false)
        × (length app'.selected_tags ≡ length tags)
        × ((start_read_values app').read_result_rx ≡ app.read_result_rx)
        × ((start_read_values app').current_screen ≡ tag_list)
  unfolding poll_browse_result start_browse_tags start_read_values is_empty list_count
  browse_shows_tags app i server tags s c g =
      ground (
        arith,
        length-replicate (length tags) false,
        selected_tag_ids-replicate 0 (length tags) tags,
      )
