-- ===== src/Prelude/Exec/Rules.antt =====
-- What holds of a run, one rule for each way to build it: a property `P` of the effects that the run
-- keeps, and a property `G` of the reasons for which it may end early.
use mathlib.Core.Path.{◌≡◌, refl, ap}
use mathlib.Core.Bool.{Bool, true, false}
use mathlib.Core.Option.{Option, none, some}
use mathlib.Core.List.{List, [], ◌∷◌, ◌++◌}
use qnch_chain.Prelude.Results.{Result, ok, err}
use qnch_chain.Prelude.Tests.{if◌then◌else◌}
use qnch_chain.Prelude.Exec.{
  Stop, failed, panicked, Exec, pure, fail, panic, attempt, consult, expect, emit, continue, ◌>>=◌,
  respond,
}

abbrev pub EndsBy : {E A : Type 0} → (Stop E → Type 0) → Result A (Stop E) → Type 0
EndsBy G (ok a) = Unit
EndsBy G (err e) = G e

EndsBy-respond :
    {E A : Type 0} (G : Stop E → Type 0) (r : Result A E)
    → ((e : E) → G (failed e))
    → EndsBy G (respond r)
EndsBy-respond G (ok a) g = tt
EndsBy-respond G (err e) g = g e

pub record Keeps {V E A : Type 0} (P : List V → Type 0) (G : Stop E → Type 0) (m : Exec V E A)
    : Type 0 where
  pub at : (s : List V) → P s → P (m s).1 × EndsBy G (m s).0

module _ {V E A : Type 0} {P : List V → Type 0} {G : Stop E → Type 0} where
  pub Keeps-pure : (a : A) → Keeps P G (pure a)
  unfolding pure
  Keeps-pure a = record { at = λ s h. (h, tt) }

  pub Keeps-fail : (e : E) → G (failed e) → Keeps P G (fail {A = A} e)
  unfolding fail
  Keeps-fail e g = record { at = λ s h. (h, g) }

  pub Keeps-panic : G panicked → Keeps P G (panic {A = A})
  unfolding panic
  Keeps-panic g = record { at = λ s h. (h, g) }

  pub Keeps-attempt :
      (v : V) (f : List V → Result A E)
      → ((e : E) → G (failed e))
      → ((s : List V) → P s → P (s ++ (v ∷ [])))
      → Keeps P G (attempt v f)
  unfolding attempt
  Keeps-attempt v f g k = record { at = λ s h. (k s h, EndsBy-respond G (f s) g) }

  pub Keeps-consult : (f : List V → Result A E) → ((e : E) → G (failed e)) → Keeps P G (consult f)
  unfolding consult
  Keeps-consult f g = record { at = λ s h. (h, EndsBy-respond G (f s) g) }

  pub Keeps-if :
      (b : Bool) (m n : Exec V E A)
      → (b ≡ true → Keeps P G m)
      → (b ≡ false → Keeps P G n)
      → Keeps P G (if b then m else n)
  Keeps-if true m n km kn = km refl
  Keeps-if false m n km kn = kn refl

  pub Keeps-expect : (o : Option A) → (o ≡ none → G panicked) → Keeps P G (expect o)
  unfolding expect
  Keeps-expect none g = record { at = λ s h. (h, g refl) }
  Keeps-expect (some a) g = record { at = λ s h. (h, tt) }

pub Keeps-emit :
    {V E : Type 0} {P : List V → Type 0} {G : Stop E → Type 0} (v : V)
    → ((s : List V) → P s → P (s ++ (v ∷ [])))
    → Keeps P G (emit {E = E} v)
unfolding emit
Keeps-emit v k = record { at = λ s h. (k s h, tt) }

module _ {V E A B : Type 0} {P : List V → Type 0} {G : Stop E → Type 0} where
  Keeps-continue :
      (r : Result A (Stop E)) (f : A → Exec V E B) (s : List V)
      → ((a : A) → Keeps P G (f a))
      → P s
      → EndsBy G r
      → P (continue r f s).1 × EndsBy G (continue r f s).0
  Keeps-continue (ok a) f s kf h g = (kf a).at s h
  Keeps-continue (err e) f s kf h g = (h, g)

  pub Keeps-bind :
      (m : Exec V E A) (f : A → Exec V E B)
      → Keeps P G m
      → ((a : A) → Keeps P G (f a))
      → Keeps P G (m >>= f)
  unfolding ◌>>=◌
  Keeps-bind m f km kf = record {
    at = λ s h. let (k, g) = km.at s h in Keeps-continue (m s).0 f (m s).1 kf k g;
  }

-- From `P`, a run leads to a result and effects in `Q`.
pub record Leads {V E A : Type 0} (P : List V → Type 0) (Q : Result A (Stop E) × List V → Type 0)
    (m : Exec V E A) : Type 0 where
  pub to : (s : List V) → P s → Q (m s)

module _ {V E A B : Type 0} {P : List V → Type 0} {G : Stop E → Type 0}
    {Q : Result B (Stop E) × List V → Type 0} where
  Leads-continue :
      (r : Result A (Stop E)) (f : A → Exec V E B) (s : List V)
      → ((e : Stop E) (t : List V) → P t → G e → Q (err e, t))
      → ((a : A) → Leads P Q (f a))
      → P s
      → EndsBy G r
      → Q (continue r f s)
  Leads-continue (ok a) f s stop kf h g = (kf a).to s h
  Leads-continue (err e) f s stop kf h g = stop e s h g

  -- A step that keeps `P`, and what follows it.
  pub Leads-bind :
      (m : Exec V E A) (f : A → Exec V E B)
      → Keeps P G m
      → ((e : Stop E) (t : List V) → P t → G e → Q (err e, t))
      → ((a : A) → Leads P Q (f a))
      → Leads P Q (m >>= f)
  unfolding ◌>>=◌
  Leads-bind m f km stop kf = record {
    to = λ s h. let (k, g) = km.at s h in Leads-continue (m s).0 f (m s).1 stop kf k g;
  }

  responded :
      (v : V) (g : List V → Result A E) (f : A → Exec V E B) (s : List V)
      → ((e : Stop E) (t : List V) → P t → G e → Q (err e, t))
      → ((a : A) (s : List V) → g s ≡ ok a → Leads P Q (f a))
      → (r : Result A E) → g s ≡ r
      → P (s ++ (v ∷ []))
      → EndsBy G (respond r)
      → Q (continue (respond r) f (s ++ (v ∷ [])))
  responded v g f s stop kf (ok a) e h i = (kf a s e).to (s ++ (v ∷ [])) h
  responded v g f s stop kf (err x) e h i = stop (failed x) (s ++ (v ∷ [])) h i

  -- The same for an effect that may fail: what follows may use that it succeeded.
  pub Leads-bind_attempt :
      (v : V) (g : List V → Result A E) (f : A → Exec V E B)
      → Keeps P G (attempt v g)
      → ((e : Stop E) (t : List V) → P t → G e → Q (err e, t))
      → ((a : A) (s : List V) → g s ≡ ok a → Leads P Q (f a))
      → Leads P Q (attempt v g >>= f)
  unfolding ◌>>=◌ attempt
  Leads-bind_attempt v g f km stop kf = record {
    to = λ s h. let (k, i) = km.at s h in responded v g f s stop kf (g s) refl k i;
  }

-- The first step of a run that is known.
module _ {V E A B : Type 0} (m : Exec V E A) (f : A → Exec V E B) (s t : List V) where
  pub bind_ok : (a : A) → m s ≡ (ok a, t) → (m >>= f) s ≡ f a t
  unfolding ◌>>=◌
  bind_ok a h = ap (λ r. continue r.0 f r.1) h

  pub bind_err : (e : Stop E) → m s ≡ (err e, t) → (m >>= f) s ≡ (err e, t)
  unfolding ◌>>=◌
  bind_err e h = ap (λ r. continue r.0 f r.1) h

-- The first step of a run that another run follows.
pub nested_ok :
    {V E A B D : Type 0} (m : Exec V E A) (f : A → Exec V E B) (k : B → Exec V E D) (s t : List V)
    (a : A)
    → m s ≡ (ok a, t)
    → ((m >>= f) >>= k) s ≡ (f a >>= k) t
unfolding ◌>>=◌
nested_ok m f k s t a h = ap (λ r. continue r.0 k r.1) (bind_ok m f s t a h)
