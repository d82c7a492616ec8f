-- ===== src/Act/Rules.antt =====
-- Properties of the state that actions keep, whatever they return, by the way an action is built.
use opc_cli.Prelude.{◌≡◌, refl, Bool, true, false, if◌then◌else◌}
use opc_cli.Errors.{OpcResult, ok, err}
use opc_cli.Act.{
  Failable, done, failed, exhausted, Act, Failing, return, fail, out_of_fuel, get, try, resume,
  or_else, recover, ◌>>=◌,
}

pub record Keeps {ℓ} {X : Type 0} {S A : Type ℓ} (P : S → Type ℓ) (m : Failing X S A) : Type ℓ where
  pub preserved : (s : S) → P s → P (m s).1

module _ {ℓ} {X : Type 0} {S A B : Type ℓ} {P : S → Type ℓ} where
  Keeps-resume :
      (r : Failable X A) (rest : A → Failing X S B)
      → ((a : A) → Keeps P (rest a))
      → Keeps P (λ t. resume r rest t)
  Keeps-resume (done a) rest after = after a
  Keeps-resume (failed e) rest after = record { preserved = λ t p. p }
  Keeps-resume exhausted rest after = record { preserved = λ t p. p }

  pub Keeps-bind :
      (first : Failing X S A) (rest : A → Failing X S B)
      → Keeps P first
      → ((a : A) → Keeps P (rest a))
      → Keeps P (first >>= rest)
  unfolding ◌>>=◌
  Keeps-bind first rest before after = record {
    preserved =
        λ t p. (Keeps-resume (first t).0 rest after).preserved (first t).1 (before.preserved t p);
  }

-- An action that leaves the state alone keeps whatever held.
module _ {ℓ} {X : Type 0} {S A : Type ℓ} {P : S → Type ℓ} where
  Keeps-same : (m : Failing X S A) → ((t : S) → (m t).1 ≡ t) → Keeps P m
  Keeps-same m same = record { preserved = λ t p. rw (same t) p }

  pub Keeps-get : (field : S → A) → Keeps {X = X} P (get field)
  unfolding get
  Keeps-get field = Keeps-same (get field) λ t. refl

  pub Keeps-out_of_fuel : Keeps {X = X} P (out_of_fuel {A = A})
  unfolding out_of_fuel
  Keeps-out_of_fuel = Keeps-same out_of_fuel λ t. refl

  pub Keeps-fail : (error : X) → Keeps P (fail {A = A} error)
  unfolding fail
  Keeps-fail error = Keeps-same (fail error) λ t. refl

  pub Keeps-return : (value : A) → Keeps {X = X} P (return value)
  unfolding return
  Keeps-return value = Keeps-same (return value) λ t. refl

  -- Both branches of a test.
  pub Keeps-if :
      (test : Bool) (m n : Failing X S A) → Keeps P m → Keeps P n → Keeps P (if test then m else n)
  Keeps-if false m n keeps_m keeps_n = keeps_n
  Keeps-if true m n keeps_m keeps_n = keeps_m

module _ {ℓ} {S A : Type ℓ} {P : S → Type ℓ} where
  pub Keeps-try : (answer : OpcResult A) → Keeps P (try answer)
  unfolding try
  Keeps-try answer = Keeps-same (try answer) λ t. refl

-- What holds of the result, if there is one.
abbrev pub OnDone {ℓ} : {X : Type 0} {A : Type ℓ} → (A → Type ℓ) → Failable X A → Type ℓ
OnDone Q (done a) = Q a
OnDone Q (failed e) = Unit
OnDone Q exhausted = Unit

pub record Gives {ℓ} {X : Type 0} {S A : Type ℓ} (Q : A → Type ℓ) (m : Failing X S A) : Type ℓ where
  pub given : (s : S) → OnDone Q (m s).0

module _ {ℓ} {X : Type 0} {S A : Type ℓ} {Q : A → Type ℓ} where
  pub Gives-return : (a : A) → Q a → Gives {X = X} {S = S} Q (return a)
  unfolding return
  Gives-return a q = record { given = λ s. q }

  pub Gives-fail : (e : X) → Gives {S = S} Q (fail e)
  unfolding fail
  Gives-fail e = record { given = λ s. tt }

  pub Gives-out_of_fuel : Gives {X = X} {S = S} Q (out_of_fuel)
  unfolding out_of_fuel
  Gives-out_of_fuel = record { given = λ s. tt }

  pub Gives-if :
      (b : Bool) (m n : Failing X S A) → Gives Q m → Gives Q n → Gives Q (if b then m else n)
  Gives-if true m n km kn = km
  Gives-if false m n km kn = kn

module _ {ℓ} {X : Type 0} {S A B : Type ℓ} where
  Gives-resume :
      (R : B → Type ℓ) (r : Failable X A) (f : A → Failing X S B) (s : S)
      → OnDone (λ a. Gives R (f a)) r
      → OnDone R (resume r f s).0
  Gives-resume R (done a) f s g = g.given s
  Gives-resume R (failed e) f s g = tt
  Gives-resume R exhausted f s g = tt

module _ {ℓ} {X : Type 0} {S A B : Type ℓ} {R : B → Type ℓ} where
  OnDone-all :
      (r : Failable X A) (f : A → Failing X S B)
      → ((a : A) → Gives R (f a))
      → OnDone (λ a. Gives R (f a)) r
  OnDone-all (done a) f g = g a
  OnDone-all (failed e) f g = tt
  OnDone-all exhausted f g = tt

  OnDone-map :
      (Q : A → Type ℓ) (r : Failable X A) (f : A → Failing X S B)
      → OnDone Q r
      → ((a : A) → Q a → Gives R (f a))
      → OnDone (λ a. Gives R (f a)) r
  OnDone-map Q (done a) f q g = g a q
  OnDone-map Q (failed e) f q g = tt
  OnDone-map Q exhausted f q g = tt

  pub Gives-bind :
      (m : Failing X S A) (f : A → Failing X S B) → ((a : A) → Gives R (f a)) → Gives R (m >>= f)
  unfolding ◌>>=◌
  Gives-bind m f kf = record {
    given = λ s. let (r, s') = m s in Gives-resume R r f s' (OnDone-all r f kf);
  }

  -- The rest may use what the first action gives.
  pub Gives-bind_given :
      (Q : A → Type ℓ) (m : Failing X S A) (f : A → Failing X S B)
      → Gives Q m
      → ((a : A) → Q a → Gives R (f a))
      → Gives R (m >>= f)
  unfolding ◌>>=◌
  Gives-bind_given Q m f g kf = record {
    given = λ s. Gives-resume R (m s).0 f (m s).1 (OnDone-map Q (m s).0 f (g.given s) kf);
  }

module _ {ℓ} {X : Type 0} {S A B : Type ℓ} {P : S → Type ℓ} where
  resume-keeps :
      (Q : A → Type ℓ) (r : Failable X A) (f : A → Failing X S B) (s : S)
      → OnDone Q r
      → ((a : A) → Q a → Keeps P (f a))
      → P s
      → P (resume r f s).1
  resume-keeps Q (done a) f s q kf h = (kf a q).preserved s h
  resume-keeps Q (failed e) f s q kf h = h
  resume-keeps Q exhausted f s q kf h = h

  pub Keeps-bind_given :
      (Q : A → Type ℓ) (m : Failing X S A) (f : A → Failing X S B)
      → Gives Q m
      → Keeps P m
      → ((a : A) → Q a → Keeps P (f a))
      → Keeps P (m >>= f)
  unfolding ◌>>=◌
  Keeps-bind_given Q m f g km kf = record {
    preserved = λ s h. resume-keeps Q (m s).0 f (m s).1 (g.given s) kf (km.preserved s h);
  }

module _ {ℓ} {S A B : Type ℓ} {P : S → Type ℓ} where
  pub Keeps-bind_try :
      (r : OpcResult A) (f : A → Act S B)
      → ((a : A) → r ≡ ok a → Keeps P (f a))
      → Keeps P (try r >>= f)
  unfolding ◌>>=◌ try
  Keeps-bind_try (ok a) f kf = record { preserved = λ s h. (kf a refl).preserved s h }
  Keeps-bind_try (err e) f kf = record { preserved = λ s h. h }

module _ {ℓ} {X : Type 0} {S A : Type ℓ} {P : S → Type ℓ} where
  recover-keeps :
      (r : Failable X A) (f : X → Failing X S A) (s : S)
      → ((e : X) → Keeps P (f e))
      → P s
      → P (recover r f s).1
  recover-keeps (done a) f s kf h = h
  recover-keeps (failed e) f s kf h = (kf e).preserved s h
  recover-keeps exhausted f s kf h = h

  pub Keeps-or_else :
      (m : Failing X S A) (f : X → Failing X S A)
      → Keeps P m
      → ((e : X) → Keeps P (f e))
      → Keeps P (or_else m f)
  unfolding or_else
  Keeps-or_else m f km kf = record {
    preserved = λ s h. recover-keeps (m s).0 f (m s).1 kf (km.preserved s h);
  }

pub ruleset keeps_rules = (
  Keeps-return, Keeps-fail, Keeps-out_of_fuel, Keeps-get, Keeps-try, Keeps-if, Keeps-bind,
  Keeps-or_else,
)

pub ruleset gives_rules = (Gives-return, Gives-fail, Gives-out_of_fuel, Gives-if, Gives-bind)
