-- ===== src/Browse/Cursor.antt =====
-- The browse position of the server and the path that a DA 2.x session remembers.
use opc_cli.Prelude.{
  ℕ, zero, suc, ◌+◌, ◌-◌, ◌≡◌, ◌⊎◌, refl, sym, ap, ◌∙◌, List, [], ◌∷◌, ◌++◌, Text, codes, length,
  take, drop, drop_last, arith, inl, inr,
}
use mathlib.Core.List.{append-nil, append_assoc}
use opc_cli.Errors.{OpcResult, ok, err, OpcError}
use opc_cli.Act.{
  Act, Outcome, done, failed, exhausted, return, fail, get, try, update, ◌>>=◌, ◌>>◌, resume,
}
use opc_cli.Server.{Server, opc_browse_up, opc_browse_down}
use opc_cli.Browse.State.{BrowseSessionState, da2, call, call_map_err}
use opc_cli.Browse.Levels.{
  take-shared_length, shared_length_le, above, above-take, length-drop_last,
}
use opc_cli.Browse.Path.{shared_length, with_path, go_up, go_down, move_to_da2_path}

-- How the position of a server moves, as OPC DA 2.x documents it: a call that fails does not move it.
pub record Moves {W : Type 0} (server : Server W) (position : W → List Text) : Type 0 where
  pub down_ok :
      (b : Text) (w w' : W)
      → server.change_browse_position opc_browse_down b w ≡ (ok tt, w')
      → position w' ≡ position w ++ b ∷ []
  pub down_err :
      (b : Text) (w w' : W) (e : OpcError)
      → server.change_browse_position opc_browse_down b w ≡ (err e, w')
      → position w' ≡ position w
  pub up_ok :
      (w w' : W)
      → server.change_browse_position opc_browse_up (codes "") w ≡ (ok tt, w')
      → position w' ≡ drop_last (position w)
  pub up_err :
      (w w' : W) (e : OpcError)
      → server.change_browse_position opc_browse_up (codes "") w ≡ (err e, w')
      → position w' ≡ position w

-- What holds of the state in which an action has ended: as it should, or otherwise.
abbrev pub Ends {ℓ} : {S A : Type ℓ} → (S → Type ℓ) → (S → Type ℓ) → Outcome A × S → Type ℓ
Ends Q E (done a, s) = Q s
Ends Q E (failed e, s) = E s
Ends Q E (exhausted, s) = E s

module _ {W : Type 0} (server : Server W) (position : W → List Text)
    (moves : Moves server position) where
  -- The session remembers where the server is.
  abbrev pub IsSynced : BrowseSessionState W → Type 0
  IsSynced s = s.backend ≡ da2 (position s.server)

  -- What a call does when the server's method returns.
  call_ok :
      {A : Type 0} (method : W → OpcResult A × W) (s : BrowseSessionState W) (a : A) (w' : W)
      → method s.server ≡ (ok a, w')
      → call method s ≡ (done a, record s { server = w' })
  unfolding call call_map_err return
  call_ok method s a w' eq = rw (call_map_err, ap (λ x. x.0) eq, ap (λ x. x.1) eq) refl

  call_err :
      {A : Type 0} (method : W → OpcResult A × W) (s : BrowseSessionState W) (e : OpcError) (w' : W)
      → method s.server ≡ (err e, w')
      → call method s ≡ (failed e, record s { server = w' })
  unfolding call call_map_err fail
  call_err method s e w' eq = rw (call_map_err, ap (λ x. x.0) eq, ap (λ x. x.1) eq) refl

  -- After a call, what is done next ends well, or the call has failed.
  Ends-call :
      {A B : Type 0} (Q E : BrowseSessionState W → Type 0) (method : W → OpcResult A × W)
      (f : A → Act (BrowseSessionState W) B) (s : BrowseSessionState W) (r : OpcResult A) (w' : W)
      → method s.server ≡ (r, w')
      → ((e : OpcError) → r ≡ err e → E (record s { server = w' }))
      → ((a : A) → r ≡ ok a → Ends Q E (f a (record s { server = w' })))
      → Ends Q E ((call method >>= f) s)
  unfolding ◌>>=◌
  Ends-call Q E method f s (ok a) w' eq bad good = rw (call_ok method s a w' eq) (good a refl)
  Ends-call Q E method f s (err e) w' eq bad good = rw (call_err method s e w' eq) (bad e refl)

  Ends-weaken :
      {A : Type 0} {Q Q' E E' : BrowseSessionState W → Type 0}
      (o : Outcome A × BrowseSessionState W)
      → ((s : BrowseSessionState W) → Q s → Q' s)
      → ((s : BrowseSessionState W) → E s → E' s)
      → Ends Q E o
      → Ends Q' E' o
  Ends-weaken (done a, s) q e h = q s h
  Ends-weaken (failed x, s) q e h = e s h
  Ends-weaken (exhausted, s) q e h = e s h

  -- All the way up, or the path is still the old one.
  go_up-position :
      (n : ℕ) (s : BrowseSessionState W)
      → Ends
          (λ s'. (position s'.server ≡ above n (position s.server)) × (s'.backend ≡ s.backend))
          (λ s'. s'.backend ≡ s.backend)
          (go_up server n s)
  unfolding go_up return
  go_up-position zero s = (refl, refl)
  go_up-position (suc n) s =
      let method = server.change_browse_position opc_browse_up (codes "") in
      let (r, w') = method s.server in
      Ends-call _ _ method (λ _. go_up server n) s r w' refl (λ e _. refl)
        λ _ succeeded.
          Ends-weaken (go_up server n (record s { server = w' }))
            (λ s' reached. (reached.0 ∙ ap (above n) (moves.up_ok s.server w' (cc)), reached.1))
            (λ s' kept. kept) (go_up-position n (record s { server = w' }))

  go_down-IsSynced :
      (bs : List Text) (s : BrowseSessionState W)
      → IsSynced s
      → Ends
          (λ s'. IsSynced s' × (position s'.server ≡ position s.server ++ bs))
          IsSynced
          (go_down server bs s)
  unfolding go_down return ◌>>=◌ update
  go_down-IsSynced [] s synced = (synced, sym (append-nil _))
  go_down-IsSynced (b ∷ bs) s synced =
      let method = server.change_browse_position opc_browse_down b in
      let (r, w') = method s.server in
      Ends-call _ _ method
        (λ _.
          update (λ x. record x { backend = with_path (λ path. path ++ b ∷ []) x.backend })
          >> go_down server bs)
        s r w' refl (λ e refused. synced ∙ ap da2 (sym (moves.down_err b s.server w' e (cc))))
        λ _ succeeded.
          let moved : position w' ≡ position s.server ++ b ∷ [] =
            moves.down_ok b s.server w' (cc) in
          let s1 = record s {
            server = w';
            backend = with_path (λ path. path ++ b ∷ []) s.backend;
          } in
          Ends-weaken (go_down server bs s1)
            (λ s' h.
              (h.0, h.1 ∙ ap (λ p. p ++ bs) moved ∙ append_assoc (position s.server) (b ∷ []) bs))
            (λ s' h. h)
            (go_down-IsSynced bs s1
              (ap (with_path (λ path. path ++ b ∷ [])) synced ∙ ap da2 (sym moved)))

  Ends-resume :
      {A B : Type 0} (Q R E : BrowseSessionState W → Type 0) (o : Outcome A × BrowseSessionState W)
      (f : A → Act (BrowseSessionState W) B)
      → Ends Q E o
      → ((a : A) (s' : BrowseSessionState W) → Q s' → Ends R E (f a s'))
      → Ends R E (resume o.0 f o.1)
  Ends-resume Q R E (done a, s) f first next = next a s first
  Ends-resume Q R E (failed e, s) f first next = first
  Ends-resume Q R E (exhausted, s) f first next = first

  -- On a server whose position moves as OPC DA documents, when the session remembers where the server is
  -- and `move_to_da2_path` succeeds, the server is at the target and the session remembers that. When
  -- it fails, the session still remembers where the server is, or it remembers the path of before.
  pub move_to_da2_path-IsSynced :
      (target : List Text) (s : BrowseSessionState W)
      → IsSynced s
      → Ends
          (λ s'. IsSynced s' × (position s'.server ≡ target))
          (λ s'. IsSynced s' ⊎ (s'.backend ≡ s.backend))
          (move_to_da2_path server target s)
  unfolding move_to_da2_path ◌>>=◌ get try update
  move_to_da2_path-IsSynced target s synced =
      let p = position s.server in
      let k = shared_length p target in
      let s1 = record s { backend = da2 p } in
      let at_target : take k p ++ drop k target ≡ target = take-shared_length p target in
      let n_up : k + (length p - k) ≡ length p = omega (arith, shared_length_le p target) in
      rw synced (
        Ends-resume (λ s'. (position s'.server ≡ above (length p - k) p) × (s'.backend ≡ da2 p)) _ _
          (go_up server (length p - k) s1) _
          (Ends-weaken (go_up server (length p - k) s1) (λ s' h. h) (λ s' h. inr h)
            (go_up-position (length p - k) s1))
          λ _ s' h.
            let there : position s'.server ≡ take k p = h.0 ∙ above-take (length p - k) k p n_up in
            let s2 = record s' { backend = with_path (take k) s'.backend } in
            Ends-weaken (go_down server (drop k target) s2)
              (λ x reached. (reached.0, reached.1 ∙ ap (λ q. q ++ drop k target) there ∙ at_target))
              (λ x kept. inl kept)
              (go_down-IsSynced (drop k target) s2
                (ap (with_path (take k)) h.1 ∙ ap da2 (sym there))))

  -- On a server whose position moves as OPC DA documents, when the session remembers where the server
  -- is, the way to the target goes up at least two levels, the first call that goes up succeeds and the
  -- second one fails, then `move_to_da2_path` fails, and what the session remembers is no longer where
  -- the server is.
  pub move_to_da2_path_stale :
      (target : List Text) (s : BrowseSessionState W) (n : ℕ) (e : OpcError) (w1 w2 : W)
      → IsSynced s
      → length (position s.server) - shared_length (position s.server) target ≡ suc (suc n)
      → server.change_browse_position opc_browse_up (codes "") s.server ≡ (ok tt, w1)
      → server.change_browse_position opc_browse_up (codes "") w1 ≡ (err e, w2)
      → (move_to_da2_path server target s ≡ (failed e, record s { server = w2 }))
        × (¬ IsSynced (record s { server = w2 }))
  unfolding move_to_da2_path ◌>>=◌ get try go_up
  move_to_da2_path_stale target s n e w1 w2 synced far up1 up2 = (
    rw
        (
          synced,
          far,
          call_ok (server.change_browse_position opc_browse_up (codes ""))
              (record s { backend = da2 (position s.server) }) tt w1 up1,
          call_err (server.change_browse_position opc_browse_up (codes ""))
              (record s { backend = da2 (position s.server); server = w1 }) e w2 up2,
        )
        refl,
    λ still.
        let same : position s.server ≡ drop_last (position s.server) =
          cc (synced, still, moves.up_err w1 w2 e up2, moves.up_ok s.server w1 up1) in
        absurd (omega (arith, far, length-drop_last (position s.server), ap length same)),
  )
