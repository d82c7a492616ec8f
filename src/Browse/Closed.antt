-- ===== src/Browse/Closed.antt =====
-- A session that is closed is not found any more.
use opc_cli.Prelude.{
  ℕ, ◌-◌, ◌≡◌, refl, Bool, ◌||◌, none, some, List, [], ◌∷◌, Text, ltb, ◌==◌, if◌then◌else◌,
  Bool-cases, inl, inr, Option-cases,
}
use opc_cli.Provider.{BrowsePageRequest}
use opc_cli.Act.{failed, return, fail, get, try, update, ◌>>=◌}
use opc_cli.Server.{Server}
use opc_cli.Browse.State.{BrowseSessionState, lookup}
use opc_cli.Browse.Sessions.{
  BrowseSessions, page, close, on_session, cleanup_expired, live_sessions, closed_session,
  bad_page_size,
}
use opc_cli.Browse.Tokens.{lookup-erase}

-- The page size is out of range.
abbrev pub has_bad_size : BrowsePageRequest → Bool
has_bad_size request = request.max_elements == 0 || ltb 1000 request.max_elements

module _ {W : Type 0} (server : Server W) (debug : Text → Text) (uuid : ℕ → ℕ) where
  lookup-live_sessions :
      (now t : ℕ) (l : List (ℕ × BrowseSessionState W))
      → lookup t l ≡ none
      → lookup t (live_sessions now l) ≡ none
  unfolding lookup live_sessions
  lookup-live_sessions now t [] h = refl
  lookup-live_sessions now t ((k, s) ∷ rest) h = elim (Bool-cases (k == t)) [
    | inl same ↦ let e : some s ≡ none = rw same at h in cc
    | inr other ↦
        let h' : lookup t rest ≡ none = rw other at h in
        let ih = lookup-live_sessions now t rest h' in
        elim (Bool-cases (ltb (now - s.last_used) 300000000000)) [
          | inl live ↦ rw (live, other) ih
          | inr expired ↦ rw expired ih
        ]
  ]

  -- After `close` there is no such session, whether there was one or not.
  pub lookup-close : (now t : ℕ) (b : BrowseSessions W) → lookup t (close now t b).1.sessions ≡ none
  unfolding close ◌>>=◌ update get try return
  lookup-close now t b = elim (Option-cases (lookup t (live_sessions now b.sessions))) [
    | inl absent ↦ rw (absent, cleanup_expired) absent
    | inr (s, known) ↦
        rw (known, cleanup_expired) (lookup-erase uuid t (live_sessions now b.sessions))
  ]

  page_unknown :
      (fuel now later t : ℕ) (request : BrowsePageRequest) (b : BrowseSessions W)
      → lookup t b.sessions ≡ none
      → page server debug uuid fuel now later t request b ≡ (
        failed (if has_bad_size request then bad_page_size else closed_session),
        cleanup_expired now b,
      )
  unfolding page ◌>>=◌ update fail
  page_unknown fuel now later t request b absent =
      let absent' : lookup t (live_sessions now b.sessions) ≡ none =
        lookup-live_sessions now t b.sessions absent in
      elim (Bool-cases (has_bad_size request)) [
        | inl bad ↦ rw bad refl
        | inr good ↦ rw (good, on_session, cleanup_expired, absent') refl
      ]

  close_unknown :
      (now t : ℕ) (b : BrowseSessions W)
      → lookup t b.sessions ≡ none
      → close now t b ≡ (failed closed_session, cleanup_expired now b)
  unfolding close ◌>>=◌ update get try
  close_unknown now t b absent =
      rw (cleanup_expired, lookup-live_sessions now t b.sessions absent) refl

  -- After `close`, which also takes a token that is unknown, a page of that session and a second `close`
  -- fail: the session is closed, or the page size was bad.
  pub close-page :
      (fuel closed_at now later t : ℕ) (request : BrowsePageRequest) (b : BrowseSessions W)
      → let b' = (close closed_at t b).1 in
        (page server debug uuid fuel now later t request b' ≡ (
          failed (if has_bad_size request then bad_page_size else closed_session),
          cleanup_expired now b',
        ))
        × (close now t b' ≡ (failed closed_session, cleanup_expired now b'))
  close-page fuel closed_at now later t request b = (
    page_unknown fuel now later t request (close closed_at t b).1 (lookup-close closed_at t b),
    close_unknown now t (close closed_at t b).1 (lookup-close closed_at t b),
  )
