-- ===== src/Frame.antt =====
-- What the pallets and the runtime take from FRAME, which is not part of this repository: origins
-- (`frame_system`), the storage map `StorageMap<_, Blake2_128Concat, AccountId, (), OptionQuery>`
-- (`frame_support`) and the event sink of `deposit_event`. They are parameters of the model, and
-- the laws are what their documentation promises.
pub mod Sample
use qnch_chain.Prelude.{◌≡◌, Bool, true, false, List, [], ◌∷◌, ◌++◌, Result, ok, err, ite}

-- `sp_runtime::traits::BadOrigin`
pub data BadOrigin : Type 0 where
  bad_origin : BadOrigin

pub record Frame {A : Type 0} (dec : Discrete A) (Event : Type 0) : Type 1 where
  -- `RuntimeOrigin`, with `RawOrigin::Root` and `RawOrigin::Signed`
  pub Origin : Type 0
  pub root : Origin
  pub signed : A → Origin
  pub ensure_root : Origin → Result (Unit {0}) BadOrigin
  pub ensure_signed : Origin → Result A BadOrigin
  pub ensure_root-root : ensure_root root ≡ ok tt
  pub ensure_root-signed : (a : A) → ensure_root (signed a) ≡ err bad_origin
  pub ensure_signed-root : ensure_signed root ≡ err bad_origin
  pub ensure_signed-signed : (a : A) → ensure_signed (signed a) ≡ ok a
  -- the storage map, as the set of its keys
  pub Store : Type 0
  pub empty : Store
  pub contains_key : A → Store → Bool
  pub insert : A → Store → Store
  pub remove : A → Store → Store
  pub contains_key-empty : (a : A) → contains_key a empty ≡ false
  pub contains_key-insert :
      (a b : A) (s : Store) → contains_key a (insert b s) ≡ ite (dec a b) true (contains_key a s)
  pub contains_key-remove :
      (a b : A) (s : Store) → contains_key a (remove b s) ≡ ite (dec a b) false (contains_key a s)
  -- `frame_system`'s event records, outside the genesis block, where events are dropped
  pub System : Type 0
  pub deposit_event : Event → System → System
  pub events : System → List Event
  pub events-deposit_event :
      (e : Event) (s : System) → events (deposit_event e s) ≡ events s ++ e ∷ []
