-- ===== src/Frame/Sample.antt =====
-- A concrete FRAME, for tests and witnesses: the storage map is a list of keys, and the event
-- records are a list.
use qnch_chain.Prelude.{
  ◌≡◌, refl, true, false, List, [], ◌∷◌, ◌++◌, Result, ok, err, ite, arith, contains,
}
use qnch_chain.Frame.{Frame, BadOrigin, bad_origin}

-- `frame_system::RawOrigin`
pub data RawOrigin (A : Type 0) : Type 0 where
  root none_origin : RawOrigin A
  signed : A → RawOrigin A

module _ {A : Type 0} where
  abbrev ensure_root : RawOrigin A → Result (Unit {0}) BadOrigin
  ensure_root root = ok tt
  ensure_root none_origin = err bad_origin
  ensure_root (signed a) = err bad_origin

  abbrev ensure_signed : RawOrigin A → Result A BadOrigin
  ensure_signed root = err bad_origin
  ensure_signed none_origin = err bad_origin
  ensure_signed (signed a) = ok a

module _ {A : Type 0} (dec : Discrete A) where
  abbrev erase_all : A → List A → List A
  erase_all a [] = []
  erase_all a (x ∷ xs) = let rest = erase_all a xs in ite (dec a x) rest (x ∷ rest)

  pub contains-cons :
      (a b : A) (xs : List A) → contains dec a (b ∷ xs) ≡ ite (dec a b) true (contains dec a xs)
  contains-cons a b xs = ground arith

  pub contains-erase_all :
      (a b : A) (xs : List A)
      → contains dec a (erase_all b xs) ≡ ite (dec a b) false (contains dec a xs)
  contains-erase_all a b [] = ground arith
  contains-erase_all a b (x ∷ xs) = ground (arith, contains-erase_all a b xs)

abbrev pub list_frame : {A : Type 0} (dec : Discrete A) (Event : Type 0) → Frame dec Event
list_frame {A} dec Event = record {
  Origin = RawOrigin A;
  root = root;
  signed = signed;
  ensure_root = ensure_root;
  ensure_signed = ensure_signed;
  ensure_root-root = refl;
  ensure_root-signed = λ a. refl;
  ensure_signed-root = refl;
  ensure_signed-signed = λ a. refl;
  Store = List A;
  empty = [];
  contains_key = contains dec;
  insert = λ a s. a ∷ s;
  remove = erase_all dec;
  contains_key-empty = λ a. refl;
  contains_key-insert = contains-cons dec;
  contains_key-remove = contains-erase_all dec;
  System = List Event;
  deposit_event = λ e s. s ++ e ∷ [];
  events = λ s. s;
  events-deposit_event = λ e s. refl;
}
