-- ===== src/Act/Returns.antt =====
-- Actions that do not run out of fuel, from the states where a property holds, by the way an action is
-- built.
use opc_cli.Prelude.{◌≡◌, refl, Bool, true, false, if◌then◌else◌}
use opc_cli.Errors.{OpcResult, ok, err}
use opc_cli.Act.{Failable, done, failed, exhausted, Failing, return, fail, get, try, resume, ◌>>=◌}
use opc_cli.Act.Rules.{Keeps}

-- There is an error, or a result of which `Q` holds.
abbrev pub HasReturned : {X A : Type 0} → (A → Type 0) → Failable X A → Type 0
HasReturned Q (done a) = Q a
HasReturned Q (failed e) = Unit
HasReturned Q exhausted = ⊥

pub record Returns {X : Type 0} {S A : Type 0} (P : S → Type 0) (Q : A → Type 0) (m : Failing X S A)
    : Type 0 where
  pub from : (s : S) → P s → HasReturned Q (m s).0

module _ {X : Type 0} {S A : Type 0} {P : S → Type 0} {Q : A → Type 0} where
  pub Returns-return : (a : A) → Q a → Returns {X = X} P Q (return a)
  unfolding return
  Returns-return a q = record { from = λ s h. q }

  pub Returns-fail : (e : X) → Returns P Q (fail e)
  unfolding fail
  Returns-fail e = record { from = λ s h. tt }

  pub Returns-if :
      (b : Bool) (m n : Failing X S A)
      → Returns P Q m
      → Returns P Q n
      → Returns P Q (if b then m else n)
  Returns-if true m n km kn = km
  Returns-if false m n km kn = kn

module _ {X : Type 0} {S A : Type 0} {P : S → Type 0} where
  pub Returns-get : (f : S → A) → Returns {X = X} P (λ _. Unit) (get f)
  unfolding get
  Returns-get f = record { from = λ s h. tt }

module _ {S A : Type 0} {P : S → Type 0} where
  pub Returns-try : (r : OpcResult A) → Returns P (λ a. r ≡ ok a) (try r)
  unfolding try
  Returns-try (ok a) = record { from = λ s h. refl }
  Returns-try (err e) = record { from = λ s h. tt }

module _ {X : Type 0} {S A B : Type 0} {R : B → Type 0} where
  anywhere-resume :
      (Q : A → Type 0) (r : Failable X A) (f : A → Failing X S B) (s : S)
      → HasReturned Q r
      → ((a : A) → Q a → Returns (λ _. Unit) R (f a))
      → HasReturned R (resume r f s).0
  anywhere-resume Q (done a) f s q next = (next a q).from s tt
  anywhere-resume Q (failed e) f s q next = tt
  anywhere-resume Q exhausted f s q next = q

module _ {X : Type 0} {S A B : Type 0} {P : S → Type 0} {R : B → Type 0} where
  HasReturned-resume :
      (Q : A → Type 0) (r : Failable X A) (f : A → Failing X S B) (s : S)
      → HasReturned Q r
      → P s
      → ((a : A) → Q a → Returns P R (f a))
      → HasReturned R (resume r f s).0
  HasReturned-resume Q (done a) f s q h next = (next a q).from s h
  HasReturned-resume Q (failed e) f s q h next = tt
  HasReturned-resume Q exhausted f s q h next = q

  pub Returns-bind :
      (Q : A → Type 0) (m : Failing X S A) (f : A → Failing X S B)
      → Returns P Q m
      → Keeps P m
      → ((a : A) → Q a → Returns P R (f a))
      → Returns P R (m >>= f)
  unfolding ◌>>=◌
  Returns-bind Q m f first keeps next = record {
    from =
        λ s h. HasReturned-resume Q (m s).0 f (m s).1 (first.from s h) (keeps.preserved s h) next;
  }

  -- What follows needs nothing of the state.
  pub Returns-bind_anywhere :
      (Q : A → Type 0) (m : Failing X S A) (f : A → Failing X S B)
      → Returns P Q m
      → ((a : A) → Q a → Returns (λ _. Unit) R (f a))
      → Returns P R (m >>= f)
  unfolding ◌>>=◌
  Returns-bind_anywhere Q m f first next = record {
    from = λ s h. anywhere-resume Q (m s).0 f (m s).1 (first.from s h) next;
  }
