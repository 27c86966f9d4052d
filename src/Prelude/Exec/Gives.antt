-- ===== src/Prelude/Exec/Gives.antt =====
-- What holds of the value that a run returns, if it returns one.
use mathlib.Core.Path.{◌≡◌, refl, ap, subst}
use mathlib.Core.List.{List}
use qnch_chain.Prelude.Results.{Result, ok, err}
use qnch_chain.Prelude.Exec.{Stop, Exec, pure, fail, panic, continue, ◌>>=◌}
use qnch_chain.Prelude.Exec.Rules.{Keeps, Leads, EndsBy}

pub record Gives {V E A : Type 0} (R : A → Type 0) (m : Exec V E A) : Type 0 where
  pub given : (s : List V) (a : A) → (m s).0 ≡ ok a → R a

abbrev value_or : {E A : Type 0} → A → Result A E → A
value_or d (ok a) = a
value_or d (err e) = d

pub same_value :
    {E A : Type 0} (R : A → Type 0) (a b : A) → ◌≡◌ {A = Result A E} (ok a) (ok b) → R a → R b
same_value R a b h r = subst R (ap (value_or a) h) r

module _ {V E A : Type 0} {R : A → Type 0} where
  pub Gives-pure : (a : A) → R a → Gives {V = V} {E = E} R (pure a)
  unfolding pure
  Gives-pure a r = record { given = λ s b h. same_value R a b h r }

  pub Gives-fail : (e : E) → Gives {V = V} R (fail e)
  unfolding fail
  Gives-fail e = record { given = λ s b h. cc }

  pub Gives-panic : Gives {V = V} {E = E} R panic
  unfolding panic
  Gives-panic = record { given = λ s b h. cc }

module _ {V E A B : Type 0} {R : B → Type 0} where
  Gives-continue :
      {P : A → Type 0} (r : Result A (Stop E)) (f : A → Exec V E B) (s : List V) (b : B)
      → ((a : A) → r ≡ ok a → P a)
      → ((a : A) → P a → Gives R (f a))
      → (continue r f s).0 ≡ ok b
      → R b
  Gives-continue (ok a) f s b g k h = (k a (g a refl)).given s b h
  Gives-continue (err e) f s b g k h = cc

  -- A step, and what follows it.
  pub Gives-bind :
      (m : Exec V E A) (f : A → Exec V E B) → ((a : A) → Gives R (f a)) → Gives R (m >>= f)
  unfolding ◌>>=◌
  Gives-bind m f k = record {
    given =
        λ s b h. Gives-continue {P = λ a. Unit {0}} (m s).0 f (m s).1 b (λ a e. tt) (λ a p. k a) h;
  }

  -- The same, with what the step gives.
  pub Gives-bind_with :
      {P : A → Type 0} (m : Exec V E A) (f : A → Exec V E B)
      → Gives P m
      → ((a : A) → P a → Gives R (f a))
      → Gives R (m >>= f)
  unfolding ◌>>=◌
  Gives-bind_with m f g k = record {
    given = λ s b h. Gives-continue (m s).0 f (m s).1 b (g.given s) k h;
  }

module _ {V E A B : Type 0} {R : A → Type 0} {P : List V → Type 0} {G : Stop E → Type 0}
    {Q : Result B (Stop E) × List V → Type 0} where
  led :
      (r : Result A (Stop E)) (f : A → Exec V E B) (s : List V)
      → ((e : Stop E) (t : List V) → P t → G e → Q (err e, t))
      → ((a : A) → r ≡ ok a → R a)
      → ((a : A) → R a → Leads P Q (f a))
      → P s
      → EndsBy G r
      → Q (continue r f s)
  led (ok a) f s stop g k h i = (k a (g a refl)).to s h
  led (err e) f s stop g k h i = stop e s h i

  -- A step that keeps `P`, and what follows it, which may use what the step gives.
  pub Leads-bind_with :
      (m : Exec V E A) (f : A → Exec V E B)
      → Keeps P G m
      → Gives R m
      → ((e : Stop E) (t : List V) → P t → G e → Q (err e, t))
      → ((a : A) → R a → Leads P Q (f a))
      → Leads P Q (m >>= f)
  unfolding ◌>>=◌
  Leads-bind_with m f km gm stop kf = record {
    to = λ s h. let (k, i) = km.at s h in led (m s).0 f (m s).1 stop (gm.given s) kf k i;
  }
