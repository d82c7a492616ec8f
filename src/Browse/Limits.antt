-- ===== src/Browse/Limits.antt =====
-- What the limits of the sessions of a worker are, and that dropping and closing sessions keeps them.
use mathlib.Core.Path.{subst}
use opc_cli.Prelude.{
  ℕ, ◌≤◌, ◌-◌, ◌≡◌, refl, some, List, [], ◌∷◌, length, ltb, ◌==◌, arith, Bool-cases, inl, inr,
}
use opc_cli.Errors.{OpcError}
use opc_cli.Act.{update}
use opc_cli.Act.Rules.{Keeps, keeps_rules}
use opc_cli.Browse.State.{BrowseSessionState, lookup, erase}
use opc_cli.Browse.Sessions.{BrowseSessions, close, cleanup_expired, live_sessions, write_back}
use opc_cli.Browse.Tokens.{Drawn, Drawn-erase, length-erase_le}
use opc_cli.Browse.Sound.{no_past, IsSound}

module _ {W : Type 0} (uuid : ℕ → ℕ) where
  -- Every session is sound, and counted the draws of some earlier time.
  abbrev pub AllSound : ℕ → List (ℕ × BrowseSessionState W) → Type 0
  AllSound n [] = Unit
  AllSound n ((t, s) ∷ rest) = (IsSound uuid no_past s × (s.draws ≤ n)) × AllSound n rest

  pub record IsWithinLimits (b : BrowseSessions W) : Type 0 where
    pub sessions_bounded : length b.sessions ≤ 64
    pub sessions_drawn : Drawn uuid b.draws b.sessions
    pub sessions_sound : AllSound b.draws b.sessions

  pub AllSound-mono :
      (m n : ℕ) (l : List (ℕ × BrowseSessionState W)) → m ≤ n → AllSound m l → AllSound n l
  AllSound-mono m n [] h a = tt
  AllSound-mono m n ((t, s) ∷ rest) h ((sound, le), a) =
      ((sound, omega arith), AllSound-mono m n rest h a)

  AllSound-erase :
      (n t : ℕ) (l : List (ℕ × BrowseSessionState W)) → AllSound n l → AllSound n (erase t l)
  unfolding erase
  AllSound-erase n t [] a = tt
  AllSound-erase n t ((k, s) ∷ rest) (p, a) = elim (Bool-cases (k == t)) [
    | inl same ↦ rw same (AllSound-erase n t rest a)
    | inr other ↦ rw other (p, AllSound-erase n t rest a)
  ]

  pub lookup-AllSound :
      (n t : ℕ) (l : List (ℕ × BrowseSessionState W)) {s : BrowseSessionState W}
      → AllSound n l
      → lookup t l ≡ some s
      → IsSound uuid no_past s × (s.draws ≤ n)
  unfolding lookup
  lookup-AllSound n t [] a h = cc
  lookup-AllSound n t ((k, s) ∷ rest) {s = s'} (p, a) h = elim (Bool-cases (k == t)) [
    | inl same ↦
        let e : some s ≡ some s' = rw same at h in
        let e' : s ≡ s' = cc in subst (λ x. IsSound uuid no_past x × (x.draws ≤ n)) e' p
    | inr other ↦ lookup-AllSound n t rest a (rw other at h)
  ]

  pub write_back-lem :
      (n t : ℕ) (s' : BrowseSessionState W) (l : List (ℕ × BrowseSessionState W))
      → IsSound uuid no_past s'
      → s'.draws ≤ n
      → AllSound n l
      → AllSound n (write_back t s' l)
  unfolding write_back
  write_back-lem n t s' [] sound le a = tt
  write_back-lem n t s' ((k, s) ∷ rest) sound le (p, a) = elim (Bool-cases (k == t)) [
    | inl same ↦ rw same ((sound, le), a)
    | inr other ↦ rw other (p, write_back-lem n t s' rest sound le a)
  ]

  pub Drawn-write_back :
      (n t : ℕ) (s' : BrowseSessionState W) (l : List (ℕ × BrowseSessionState W))
      → Drawn uuid n l
      → Drawn uuid n (write_back t s' l)
  unfolding write_back
  Drawn-write_back n t s' [] d = tt
  Drawn-write_back n t s' ((k, s) ∷ rest) (p, d) = elim (Bool-cases (k == t)) [
    | inl same ↦ rw same (p, d)
    | inr other ↦ rw other (p, Drawn-write_back n t s' rest d)
  ]

  pub length-write_back :
      (t : ℕ) (s' : BrowseSessionState W) (l : List (ℕ × BrowseSessionState W))
      → length (write_back t s' l) ≡ length l
  unfolding write_back
  length-write_back t s' [] = refl
  length-write_back t s' ((k, s) ∷ rest) = ground (arith, length-write_back t s' rest)

  live_sessions-IsWithinLimits :
      (now n : ℕ) (l : List (ℕ × BrowseSessionState W))
      → (length (live_sessions now l) ≤ length l)
        × (Drawn uuid n l → Drawn uuid n (live_sessions now l))
        × (AllSound n l → AllSound n (live_sessions now l))
  unfolding live_sessions
  live_sessions-IsWithinLimits now n [] = (omega arith, λ d. d, λ a. a)
  live_sessions-IsWithinLimits now n ((t, s) ∷ rest) =
      let (shorter, drawn, sound) = live_sessions-IsWithinLimits now n rest in
      elim (Bool-cases (ltb (now - s.last_used) 300000000000)) [
        | inl live ↦
            rw live ((omega (arith, shorter), λ d. (d.0, drawn d.1), λ a. (a.0, sound a.1)))
        | inr expired ↦ rw expired ((omega (arith, shorter), λ d. drawn d.1, λ a. sound a.1))
      ]

  pub cleanup-IsWithinLimits :
      (now : ℕ) → Keeps {X = OpcError} IsWithinLimits (update (cleanup_expired now))
  unfolding update cleanup_expired
  cleanup-IsWithinLimits now = record {
    preserved = λ b h.
        let (shorter, drawn, sound) = live_sessions-IsWithinLimits now b.draws b.sessions in
        record {
          sessions_bounded = omega (arith, shorter, h.sessions_bounded);
          sessions_drawn = drawn h.sessions_drawn;
          sessions_sound = sound h.sessions_sound;
        };
  }

  erase-IsWithinLimits :
      (t : ℕ)
      → Keeps {X = OpcError} IsWithinLimits
          (update (λ b. record b { sessions = erase t b.sessions }))
  unfolding update
  erase-IsWithinLimits t = record {
    preserved = λ b h. record {
      sessions_bounded = omega (arith, length-erase_le uuid t b.sessions, h.sessions_bounded);
      sessions_drawn = Drawn-erase uuid b.draws t b.sessions h.sessions_drawn;
      sessions_sound = AllSound-erase b.draws t b.sessions h.sessions_sound;
    };
  }

  pub close-IsWithinLimits : (now t : ℕ) → Keeps IsWithinLimits (close now t)
  unfolding close
  close-IsWithinLimits now t =
      search (keeps_rules, cleanup-IsWithinLimits, erase-IsWithinLimits) depth 8
