-- ===== src/Act/Triple.antt =====
-- What holds when an action ends that starts in a state where a property holds: of its result and the
-- state, or of its error and the state. Where a loop has run out of fuel nothing is said.
use opc_cli.Prelude.{◌≡◌, refl, ap, Bool, true, false, if◌then◌else◌, Option, none, some}
use opc_cli.Errors.{OpcError, OpcResult, ok, err}
use opc_cli.Act.{
  Failable, done, failed, exhausted, Failing, return, fail, get, try, update, invoke, catch, resume,
  outcome, out_of_fuel, caught, recover, or_else, map_err, ◌>>=◌,
}

abbrev pub EndsWith :
    {X S A : Type 0} → (A → S → Type 0) → (X → S → Type 0) → Failable X A × S → Type 0
EndsWith Q E (done a, s) = Q a s
EndsWith Q E (failed e, s) = E e s
EndsWith Q E (exhausted, s) = Unit

pub record Triple {X : Type 0} {S A : Type 0} (P : S → Type 0) (Q : A → S → Type 0)
    (E : X → S → Type 0) (m : Failing X S A) : Type 0 where
  pub from : (s : S) → P s → EndsWith Q E (m s)

module _ {X S A : Type 0} (Q R : A → S → Type 0) (E : X → S → Type 0) where
  EndsWith-mono :
      (o : Failable X A × S) → ((a : A) (s : S) → Q a s → R a s) → EndsWith Q E o → EndsWith R E o
  EndsWith-mono (done a, s) f h = f a s h
  EndsWith-mono (failed e, s) f h = h
  EndsWith-mono (exhausted, s) f h = tt

module _ {X S A : Type 0} {P : S → Type 0} {E : X → S → Type 0} where
  -- What holds at the end may be weakened.
  pub Triple-after :
      (Q R : A → S → Type 0) (m : Failing X S A)
      → ((a : A) (s : S) → Q a s → R a s)
      → Triple P Q E m
      → Triple P R E m
  Triple-after Q R m weaken h = record {
    from = λ s p. EndsWith-mono Q R E (m s) weaken (h.from s p);
  }

module _ {X : Type 0} {S A B : Type 0} where
  resume-ends :
      (R : B → S → Type 0) (E : X → S → Type 0) (Q : A → S → Type 0) (o : Failable X A × S)
      (f : A → Failing X S B)
      → EndsWith Q E o
      → ((a : A) → Triple (Q a) R E (f a))
      → EndsWith R E (resume o.0 f o.1)
  resume-ends R E Q (done a, s) f h next = (next a).from s h
  resume-ends R E Q (failed e, s) f h next = h
  resume-ends R E Q (exhausted, s) f h next = tt

module _ {X : Type 0} {S A B : Type 0} {P : S → Type 0} {R : B → S → Type 0}
    {E : X → S → Type 0} where
  pub Triple-bind :
      (Q : A → S → Type 0) (m : Failing X S A) (f : A → Failing X S B)
      → Triple P Q E m
      → ((a : A) → Triple (Q a) R E (f a))
      → Triple P R E (m >>= f)
  unfolding ◌>>=◌
  Triple-bind Q m f first next = record {
    from = λ s h. resume-ends R E Q (m s) f (first.from s h) next;
  }

module _ {X : Type 0} {S A : Type 0} where
  caught-ends :
      (R : Option X → S → Type 0) (E : X → S → Type 0) (Q : A → S → Type 0) (F : X → S → Type 0)
      (o : Failable X A × S)
      → EndsWith Q F o
      → ((a : A) (s : S) → Q a s → R none s)
      → ((e : X) (s : S) → F e s → R (some e) s)
      → EndsWith R E (caught o.0 o.1)
  caught-ends R E Q F (done a, s) h good bad = good a s h
  caught-ends R E Q F (failed e, s) h good bad = bad e s h
  caught-ends R E Q F (exhausted, s) h good bad = tt

module _ {X : Type 0} {S A : Type 0} {P : S → Type 0} {R : Option X → S → Type 0}
    {E : X → S → Type 0} where
  pub Triple-catch :
      (Q : A → S → Type 0) (F : X → S → Type 0) (m : Failing X S A)
      → Triple P Q F m
      → ((a : A) (s : S) → Q a s → R none s)
      → ((e : X) (s : S) → F e s → R (some e) s)
      → Triple P R E (catch m)
  unfolding catch
  Triple-catch Q F m h good bad = record {
    from = λ s p. caught-ends R E Q F (m s) (h.from s p) good bad;
  }

module _ {X : Type 0} {S A : Type 0} (Q : A → S → Type 0) (E F : X → S → Type 0) where
  recovered-ends :
      (o : Failable X A × S) (f : X → Failing X S A)
      → EndsWith Q F o
      → ((e : X) → Triple (F e) Q E (f e))
      → EndsWith Q E (recover o.0 f o.1)
  recovered-ends (done a, s) f h next = h
  recovered-ends (failed e, s) f h next = (next e).from s h
  recovered-ends (exhausted, s) f h next = tt

module _ {X : Type 0} {S A : Type 0} {P : S → Type 0} {Q : A → S → Type 0}
    {E : X → S → Type 0} where
  pub Triple-or_else :
      (F : X → S → Type 0) (m : Failing X S A) (f : X → Failing X S A)
      → Triple P Q F m
      → ((e : X) → Triple (F e) Q E (f e))
      → Triple P Q E (or_else m f)
  unfolding or_else
  Triple-or_else F m f h next = record {
    from = λ s p. recovered-ends Q E F (m s) f (h.from s p) next;
  }

  pub Triple-map_err :
      (F : X → S → Type 0) (f : X → X) (m : Failing X S A)
      → Triple P Q F m
      → ((e : X) (s : S) → F e s → E (f e) s)
      → Triple P Q E (map_err f m)
  unfolding map_err fail
  Triple-map_err F f m h next =
      Triple-or_else F m (λ e. fail (f e)) h (λ e. record { from = λ s p. next e s p })

pair_lem : {S A : Type 0} {r : OpcResult A} (p : OpcResult A × S) → p.0 ≡ r → p ≡ (r, p.1)
pair_lem p e = ap (λ q. (q, p.1)) e

module _ {S A : Type 0} (Q : A → S → Type 0) (E : OpcError → S → Type 0) where
  outcome-ends :
      (r : OpcResult A) (s' : S)
      → ((a : A) → r ≡ ok a → Q a s')
      → ((e : OpcError) → r ≡ err e → E e s')
      → EndsWith Q E (outcome r, s')
  outcome-ends (ok a) s' good bad = good a refl
  outcome-ends (err e) s' good bad = bad e refl

module _ {X : Type 0} {S A : Type 0} {P : S → Type 0} {Q : A → S → Type 0}
    {E : X → S → Type 0} where
  pub Triple-return : (a : A) → ((s : S) → P s → Q a s) → Triple P Q E (return a)
  unfolding return
  Triple-return a h = record { from = h }

  pub Triple-fail : (e : X) → ((s : S) → P s → E e s) → Triple P Q E (fail e)
  unfolding fail
  Triple-fail e h = record { from = h }

  pub Triple-out_of_fuel : Triple P Q E out_of_fuel
  unfolding out_of_fuel
  Triple-out_of_fuel = record { from = λ s h. tt }

  pub Triple-get : (field : S → A) → ((s : S) → P s → Q (field s) s) → Triple P Q E (get field)
  unfolding get
  Triple-get field h = record { from = h }

  pub Triple-if :
      (b : Bool) (m n : Failing X S A)
      → (b ≡ true → Triple P Q E m)
      → (b ≡ false → Triple P Q E n)
      → Triple P Q E (if b then m else n)
  Triple-if true m n yes_m no_n = yes_m refl
  Triple-if false m n yes_m no_n = no_n refl

  -- What holds at the start is split into facts and a state.
  pub Triple-given : (m : Failing X S A) → ((s : S) → P s → Triple P Q E m) → Triple P Q E m
  Triple-given m h = record { from = λ s p. (h s p).from s p }

  pub Triple-before :
      (P' : S → Type 0) (m : Failing X S A)
      → ((s : S) → P s → P' s)
      → Triple P' Q E m
      → Triple P Q E m
  Triple-before P' m weaken h = record { from = λ s p. h.from s (weaken s p) }

module _ {S A : Type 0} {P : S → Type 0} {Q : A → S → Type 0} {E : OpcError → S → Type 0} where
  pub Triple-try :
      (r : OpcResult A)
      → ((a : A) (s : S) → r ≡ ok a → P s → Q a s)
      → ((e : OpcError) (s : S) → r ≡ err e → P s → E e s)
      → Triple P Q E (try r)
  unfolding try
  Triple-try r good bad = record {
    from = λ s h. outcome-ends Q E r s (λ a e. good a s e h) (λ x e. bad x s e h);
  }

  -- A call of a method, by what it answers and leaves.
  pub Triple-invoke :
      (method : S → OpcResult A × S)
      → ((a : A) (s s' : S) → method s ≡ (ok a, s') → P s → Q a s')
      → ((e : OpcError) (s s' : S) → method s ≡ (err e, s') → P s → E e s')
      → Triple P Q E (invoke method)
  unfolding invoke
  Triple-invoke method good bad = record {
    from = λ s h.
        outcome-ends Q E (method s).0 (method s).1
          (λ a e. good a s (method s).1 (pair_lem (method s) e) h)
          (λ x e. bad x s (method s).1 (pair_lem (method s) e) h);
  }

module _ {X S A B : Type 0} {P : S → Type 0} {Q : A → S → Type 0} {E : X → S → Type 0} where
  -- A fact that holds at the start, whatever the state.
  pub Triple-fact : {m : Failing X S A} → (B → Triple P Q E m) → Triple (λ s. B × P s) Q E m
  Triple-fact k = record { from = λ s h. (k h.0).from s h.1 }

module _ {X : Type 0} {S : Type 0} {P : S → Type 0} {Q : Unit {0} → S → Type 0}
    {E : X → S → Type 0} where
  pub Triple-update : (f : S → S) → ((s : S) → P s → Q tt (f s)) → Triple P Q E (update f)
  unfolding update
  Triple-update f h = record { from = h }
