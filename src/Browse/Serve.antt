-- ===== src/Browse/Serve.antt =====
-- Requests to the sessions of a worker, and the limits that hold after any sequence of them.
use mathlib.Core.Bool.{false, false≢true}
use opc_cli.Prelude.{
  ℕ, suc, ◌≤◌, ◌<◌, ◌≡◌, refl, List, [], ◌∷◌, Text, length, leb, arith, Bool-cases, inl, inr,
  Option-cases,
}
use opc_cli.Errors.{OpcResult, ok, err}
use opc_cli.Provider.{BrowsePageRequest, BrowseCapabilities}
use opc_cli.Act.{Act, done, return, fail, get, try, update, ◌>>=◌}
use opc_cli.Act.Rules.{Keeps, Keeps-bind, Keeps-fail, Keeps-if}
use opc_cli.Server.{Server}
use opc_cli.Browse.State.{BrowseSessionState, lookup, free_draw}
use opc_cli.Browse.Sessions.{
  BrowseSessions, page, register, add_session, open_session, close, on_session, draw_session_token,
}
use opc_cli.Browse.Capabilities.{capabilities_for_server}
use opc_cli.Browse.Tokens.{Injective, Drawn, Drawn-mono, draw_fresh}
use opc_cli.Browse.Sound.{Past, no_past, IsSound}
use opc_cli.Browse.SoundSessions.{session_page-IsSound}
use opc_cli.Browse.Limits.{
  IsWithinLimits, AllSound-mono, lookup-AllSound, write_back-lem, Drawn-write_back,
  length-write_back, cleanup-IsWithinLimits, close-IsWithinLimits,
}

-- No more is asked of the past than its draws.
abbrev drawn : ℕ → Past
drawn n = record { draws = n; consumed = λ k. false }

module _ {W : Type 0} (server : Server W) (debug : Text → Text) (uuid : ℕ → ℕ)
    (inj : Injective uuid) where
  -- The draws of the process are handed to the session, and back.
  IsSound-draws :
      (n : ℕ) (s : BrowseSessionState W)
      → IsSound uuid no_past s
      → s.draws ≤ n
      → IsSound uuid (drawn n) (record s { draws = n })
  IsSound-draws n s h le = record {
    nodes_bounded = h.nodes_bounded;
    pages_bounded = h.pages_bounded;
    nodes_drawn = Drawn-mono uuid s.draws n s.nodes le h.nodes_drawn;
    pages_drawn = Drawn-mono uuid s.draws n s.continuations le h.pages_drawn;
    nodes_fit = h.nodes_fit;
    draws_grow = omega arith;
    consumed_stay = λ k is. absurd (false≢true is);
  }

  IsSound-weaken : (n : Past) (s : BrowseSessionState W) → IsSound uuid n s → IsSound uuid no_past s
  IsSound-weaken n s h = record {
    nodes_bounded = h.nodes_bounded;
    pages_bounded = h.pages_bounded;
    nodes_drawn = h.nodes_drawn;
    pages_drawn = h.pages_drawn;
    nodes_fit = h.nodes_fit;
    draws_grow = omega arith;
    consumed_stay = λ k is. absurd (false≢true is);
  }

  on_session-IsWithinLimits :
      {A : Type 0} (token : ℕ) (method : Act (BrowseSessionState W) A)
      → ((n : Past) → Keeps (IsSound uuid n) method)
      → Keeps (IsWithinLimits uuid) (on_session token method)
  unfolding on_session fail
  on_session-IsWithinLimits token method keeps = record {
    preserved = λ b h. elim (Option-cases (lookup token b.sessions)) [
      | inl absent ↦ rw (absent, on_session) h
      | inr (s, known) ↦
          let (sound, le) = lookup-AllSound uuid b.draws token b.sessions h.sessions_sound known in
          let s0 = record s { draws = b.draws } in
          let s1 = (method s0).1 in
          let sound1 = (keeps (drawn b.draws)).preserved s0 (IsSound-draws b.draws s sound le) in
          rw (known, on_session)
            (record {
              sessions_bounded =
                  omega (arith, length-write_back uuid token s1 b.sessions, h.sessions_bounded);
              sessions_drawn =
                  Drawn-mono uuid b.draws s1.draws _ sound1.draws_grow
                    (Drawn-write_back uuid b.draws token s1 b.sessions h.sessions_drawn);
              sessions_sound =
                  write_back-lem uuid s1.draws token s1 b.sessions
                    (IsSound-weaken (drawn b.draws) s1 sound1) (omega arith)
                    (AllSound-mono uuid b.draws s1.draws b.sessions sound1.draws_grow
                      h.sessions_sound);
            })
    ];
  }

  pub page-IsWithinLimits :
      (fuel now later token : ℕ) (request : BrowsePageRequest)
      → Keeps (IsWithinLimits uuid) (page server debug uuid fuel now later token request)
  unfolding page
  page-IsWithinLimits fuel now later token request =
      Keeps-bind _ _ (cleanup-IsWithinLimits uuid now) λ _. Keeps-if _ _ _ (Keeps-fail _) (
        on_session-IsWithinLimits token _
          λ n. session_page-IsSound server debug uuid inj n fuel later request)

  draw_session_token_lem :
      (b : BrowseSessions W)
      → Drawn uuid b.draws b.sessions
      → draw_session_token server debug uuid b
        ≡ (done (uuid b.draws), record b { draws = suc b.draws })
  unfolding draw_session_token return
  draw_session_token_lem b d =
      rw (draw_fresh uuid inj b.draws b.sessions d, draw_session_token, free_draw)

  register-IsWithinLimits :
      (now : ℕ) (w : W) (capabilities : BrowseCapabilities) (b : BrowseSessions W)
      → IsWithinLimits uuid b
      → length b.sessions < 64
      → IsWithinLimits uuid (register server debug uuid now w capabilities b).1
  unfolding register ◌>>=◌ update return
  register-IsWithinLimits now w capabilities b h room =
      rw (draw_session_token_lem b h.sessions_drawn) (record {
        sessions_bounded = omega (arith, room);
        sessions_drawn = (
          (b.draws, omega arith, refl),
          Drawn-mono uuid b.draws (suc b.draws) b.sessions (omega arith) h.sessions_drawn,
        );
        sessions_sound = (
          (
            record {
              nodes_bounded = omega arith;
              pages_bounded = omega arith;
              nodes_drawn = tt;
              pages_drawn = tt;
              nodes_fit = tt;
              draws_grow = omega arith;
              consumed_stay = λ k is. absurd (false≢true is);
            },
            omega arith,
          ),
          AllSound-mono uuid b.draws (suc b.draws) b.sessions (omega arith) h.sessions_sound,
        );
      })

  detected-IsWithinLimits :
      (r : OpcResult BrowseCapabilities) (now : ℕ) (w : W) (b : BrowseSessions W)
      → IsWithinLimits uuid b
      → length b.sessions < 64
      → IsWithinLimits uuid ((try r >>= register server debug uuid now w) b).1
  unfolding ◌>>=◌ try
  detected-IsWithinLimits (ok capabilities) now w b h room =
      register-IsWithinLimits now w capabilities b h room
  detected-IsWithinLimits (err e) now w b h room = h

  add_session-IsWithinLimits :
      (now : ℕ) (w : W) → Keeps (IsWithinLimits uuid) (add_session server debug uuid now w)
  unfolding add_session ◌>>=◌ get fail
  add_session-IsWithinLimits now w = record {
    preserved = λ b h. elim (Bool-cases (leb 64 (length b.sessions))) [
      | inl full ↦ rw full h
      | inr room ↦
          rw room
            (detected-IsWithinLimits (capabilities_for_server server w).0 now _ b h (ground arith))
    ];
  }

  pub open_session-IsWithinLimits :
      (now later : ℕ) (w : W)
      → Keeps (IsWithinLimits uuid) (open_session server debug uuid now later w)
  unfolding open_session
  open_session-IsWithinLimits now later w =
      Keeps-bind _ _ (cleanup-IsWithinLimits uuid now) λ _. add_session-IsWithinLimits later w

-- A request to the worker, with the readings of the clock and the fuel of its loop.
pub data Request (W : Type 0) : Type 0 where
  opening : ℕ → ℕ → W → Request W
  closing : ℕ → ℕ → Request W
  paging : ℕ → ℕ → ℕ → ℕ → BrowsePageRequest → Request W

abbrev pub no_sessions : {W : Type 0} → BrowseSessions W
no_sessions = record { sessions = []; draws = 0 }

module _ {W : Type 0} (server : Server W) (debug : Text → Text) (uuid : ℕ → ℕ) where
  abbrev pub serve : Request W → BrowseSessions W → BrowseSessions W
  serve (opening now later w) b = (open_session server debug uuid now later w b).1
  serve (closing now token) b = (close now token b).1
  serve (paging fuel now later token request) b =
      (page server debug uuid fuel now later token request b).1

  abbrev pub serve_all : List (Request W) → BrowseSessions W → BrowseSessions W
  serve_all [] b = b
  serve_all (r ∷ rs) b = serve_all rs (serve r b)

  module _ (inj : Injective uuid) where
    serve-IsWithinLimits :
        (r : Request W) (b : BrowseSessions W)
        → IsWithinLimits uuid b
        → IsWithinLimits uuid (serve r b)
    serve-IsWithinLimits (opening now later w) b h =
        (open_session-IsWithinLimits server debug uuid inj now later w).preserved b h
    serve-IsWithinLimits (closing now token) b h =
        (close-IsWithinLimits uuid now token).preserved b h
    serve-IsWithinLimits (paging fuel now later token request) b h =
        (page-IsWithinLimits server debug uuid inj fuel now later token request).preserved b h

    from-IsWithinLimits :
        (rs : List (Request W)) (b : BrowseSessions W)
        → IsWithinLimits uuid b
        → IsWithinLimits uuid (serve_all rs b)
    from-IsWithinLimits [] b h = h
    from-IsWithinLimits (r ∷ rs) b h =
        from-IsWithinLimits rs (serve r b) (serve-IsWithinLimits r b h)

    -- When no two draws of UUIDs agree, after any requests and whatever the servers answer, there are at
    -- most 64 sessions, under tokens that were drawn before; each has at most 100,000 node tokens and
    -- 256 page tokens, all drawn before, and a node has a location to browse at exactly when its
    -- kind has children.
    serve_all-IsWithinLimits :
        (rs : List (Request W)) → IsWithinLimits uuid (serve_all rs no_sessions)
    serve_all-IsWithinLimits rs =
        from-IsWithinLimits rs no_sessions
          (record { sessions_bounded = omega arith; sessions_drawn = tt; sessions_sound = tt })
