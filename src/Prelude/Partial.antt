-- ===== src/Prelude/Partial.antt =====
-- Code that may panic, as an `Option` whose `none` is the panic.
use mathlib.Core.Option.{Option, none, some}
use mathlib.Core.Path.{◌≡◌, refl}
use mathlib.Core.List.{List, [], ◌∷◌, map}

infixl 5 ◌>>=◌ ◌>>◌
abbrev pub ◌>>=◌ {ℓ κ} : {A : Type ℓ} {B : Type κ} → Option A → (A → Option B) → Option B
none >>= f = none
some a >>= f = f a

abbrev pub ◌>>◌ {ℓ κ} : {A : Type ℓ} {B : Type κ} → Option A → Option B → Option B
m >> k = m >>= λ _. k

-- The elements of a `vec!`, evaluated in order.
abbrev pub traverse {ℓ κ} : {A : Type ℓ} {B : Type κ} → (A → Option B) → List A → Option (List B)
traverse f [] = some []
traverse f (x ∷ xs) = let rest = traverse f xs in f x >>= λ y. rest >>= λ ys. some (y ∷ ys)

-- If no element panics, the whole list is evaluated.
pub traverse-map {ℓ κ} :
    {A : Type ℓ} {B : Type κ} (f : A → Option B) (g : A → B)
    → ((x : A) → f x ≡ some (g x))
    → (xs : List A) → traverse f xs ≡ some (map g xs)
traverse-map f g h [] = refl
traverse-map f g h (x ∷ xs) = rw (h x, traverse-map f g h xs)
