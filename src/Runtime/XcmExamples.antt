-- ===== src/Runtime/XcmExamples.antt =====
-- The execution of XCM messages and their sending by accounts at concrete inputs: a location is its
-- place, accounts are numbers, and account 6 is authorized.
use qnch_chain.Prelude.{
  ℕ, ◌≡◌, ◌↔◌, ◌⊎◌, inl, inr, refl, Bool, true, false, ◌&&◌, Option, none, some, List, [], ◌∷◌,
  Result, ok, err, All, arith, ℕ_discrete, is_yes, if◌then◌else◌,
}
use qnch_chain.Frame.{Frame}
use qnch_chain.Frame.Sample.{RawOrigin, root, none_origin, list_frame}
use qnch_chain.Frame.Sample
use qnch_chain.Pallet.{Event, DispatchError, dispatch}
use qnch_chain.Runtime.Ethereum.{Chain}
use qnch_chain.Runtime.SelfContained.{RuntimeCall, ethereum, evm_deployment_control, other}
use qnch_chain.Runtime.Origins.{
  Place, parent, sibling, elsewhere, Origin, signed, relay, sibling_para, pallet_xcm, OriginKind,
  location_to_account_id,
}
use qnch_chain.Runtime.Assets.{Asset, local_asset_deposit}
use qnch_chain.Runtime.XcmConfig.{
  xcm_config, Handlers, ExecutorConfig, Executor, Machine, Instruction, reserve_asset_deposited,
  receive_teleported_asset, transact, universal_origin, alias_origin, Trusts, IsDispatched,
  Dispatch,
}
use qnch_chain.Runtime.XcmConfig.Incoming.{reserve_asset-relay}
use qnch_chain.Runtime.OriginExamples.{converters, adapters, place_discrete}
use qnch_chain.Runtime.ConfigExamples.{senders}
use qnch_chain.Runtime.BarrierExamples.{rules}

abbrev F : Frame ℕ_discrete (Event ℕ)
F = list_frame ℕ_discrete (Event ℕ)

abbrev Storage : Type 0
Storage = Chain F (Unit {0})

abbrev Call : Type 0
Call = RuntimeCall ℕ ℕ (Unit {0}) (Unit {0})

abbrev Config : Type 0
Config = ExecutorConfig (Place ℕ) ℕ Call ℕ ℕ (ℕ × ℕ) (Unit {0}) ℕ (Unit {0}) ℕ ℕ (Unit {0})

abbrev Vm : Type 0
Vm = Machine (Place ℕ) DispatchError Storage

-- Only a signed origin is one of frame_system.
abbrev into : Origin (Place ℕ) ℕ → RawOrigin ℕ
into (signed a) = Sample.signed a
into relay = none_origin
into (sibling_para n) = none_origin
into (pallet_xcm l) = none_origin

abbrev run_call : Dispatch (Place ℕ) ℕ Call DispatchError Storage
run_call o (ethereum c) s = (ok tt, s)
run_call o (evm_deployment_control c) s = (
  elim (dispatch F c (into o) s.control).0 [ ok u ↦ ok u | err e ↦ err e ],
  record s { control = (dispatch F c (into o) s.control).1 },
)
run_call o (other c) s = (ok tt, s)

abbrev all : {A : Type 0} → (A → Bool) → List A → Bool
all p [] = true
all p (x ∷ xs) = p x && all p xs

all-All : {A : Type 0} (p : A → Bool) (xs : List A) → all p xs ≡ true → All (λ x. p x ≡ true) xs
all-All p [] h = tt
all-All p (x ∷ xs) h = (ground arith, all-All p xs (ground arith))

-- An instruction that the location in the origin register must be trusted for.
abbrev if_trusted :
    (Place ℕ → Bool) → Vm → Vm → Option (Place ℕ) → Result (Unit {0}) (Unit {0}) × Vm
if_trusted p m n none = (err tt, m)
if_trusted p m n (some l) = if p l then (ok tt, n) else (err tt, m)

if_trusted-ok :
    (p : Place ℕ → Bool) (m n : Vm)
    → (if_trusted p m n m.origin).0 ≡ ok tt
    → Trusts (λ l. p l ≡ true) m
if_trusted-ok p m n h = go m.origin refl h
  where
    go :
        (o : Option (Place ℕ))
        → m.origin ≡ o
        → (if_trusted p m n o).0 ≡ ok tt
        → Trusts (λ l. p l ≡ true) m
    go none e h = cc
    go (some l) e h = (l, e, ground arith)

abbrev attempted :
    Call → Vm → Bool → Result (Origin (Place ℕ) ℕ) (Place ℕ) → Result (Unit {0}) (Unit {0}) × Vm
attempted c m false made = (err tt, m)
attempted c m true (err l) = (err tt, m)
attempted c m true (ok o) =
    let (r, t) = run_call o c m.chain in (ok tt, record m { transact_status = some r; chain = t })

abbrev transacted :
    Config → OriginKind → Vm → Option (Place ℕ) → Option Call → Result (Unit {0}) (Unit {0}) × Vm
transacted config k m none call = (err tt, m)
transacted config k m (some l) none = (err tt, m)
transacted config k m (some l) (some c) =
    attempted c m (config.safe_call_filter c) (config.origin_converter l k)

abbrev Attempted :
    Config → OriginKind → Option Call → Vm → Result (Unit {0}) (Unit {0}) × Vm → Type 0
Attempted config k call m q =
    ((e : Unit {0}) × (q.0 ≡ err e) × (q.1 ≡ m))
    ⊎ ((q.0 ≡ ok tt) × IsDispatched config run_call k call m q.1)

attempted-Attempted :
    (config : Config) (k : OriginKind) (l : Place ℕ) (c : Call) (m : Vm) (b : Bool)
    (made : Result (Origin (Place ℕ) ℕ) (Place ℕ))
    → m.origin ≡ some l
    → config.safe_call_filter c ≡ b
    → config.origin_converter l k ≡ made
    → Attempted config k (some c) m (attempted c m b made)
attempted-Attempted config k l c m false made at safe e = inl (tt, refl, refl)
attempted-Attempted config k l c m true (err x) at safe e = inl (tt, refl, refl)
attempted-Attempted config k l c m true (ok o) at safe e =
    inr (refl, (l, o, c, at, refl, safe, e, refl, refl))

transacted-Attempted :
    (config : Config) (k : OriginKind) (m : Vm) (o : Option (Place ℕ)) (call : Option Call)
    → m.origin ≡ o
    → Attempted config k call m (transacted config k m o call)
transacted-Attempted config k m none call at = inl (tt, refl, refl)
transacted-Attempted config k m (some l) none at = inl (tt, refl, refl)
transacted-Attempted config k m (some l) (some c) at =
    attempted-Attempted config k l c m _ _ at refl refl

abbrev execute : Config → Instruction (Place ℕ) Call ℕ ℕ → Vm → Result (Unit {0}) (Unit {0}) × Vm
execute c (reserve_asset_deposited assets) m =
    if_trusted (λ l. all (λ a. c.is_reserve a l) assets) m (record m { holding = assets }) m.origin
execute c (receive_teleported_asset assets) m =
    if_trusted (λ l. all (λ a. c.is_teleporter a l) assets) m (record m { holding = assets })
      m.origin
execute c (transact k w call) m = transacted c k m m.origin call
execute c (universal_origin j) m =
    if_trusted (λ l. c.universal_aliases l j) m (record m { origin = some elsewhere }) m.origin
execute c (alias_origin target) m =
    if_trusted (λ l. c.aliasers l target) m (record m { origin = some target }) m.origin

all_trusted :
    (from : Asset (Place ℕ) → Place ℕ → Bool) (assets : List (Asset (Place ℕ))) (m n : Vm)
    → (if_trusted (λ l. all (λ a. from a l) assets) m n m.origin).0 ≡ ok tt
    → Trusts (λ l. All (λ a. from a l ≡ true) assets) m
all_trusted from assets m n h =
    let (l, at, trusted) = if_trusted-ok (λ l. all (λ a. from a l) assets) m n h in
    (l, at, all-All (λ a. from a l) assets trusted)

abbrev executor :
    Executor
      (Place ℕ)
      ℕ
      Call
      ℕ
      ℕ
      ℕ
      (ℕ × ℕ)
      (Unit {0})
      ℕ
      (Unit {0})
      ℕ
      ℕ
      (Unit {0})
      DispatchError
      Storage
      (Unit {0})
executor = record {
  dispatch = run_call;
  execute = execute;
  reserve_asset_deposited-ok = λ c assets m. all_trusted c.is_reserve assets m _;
  receive_teleported_asset-ok = λ c assets m. all_trusted c.is_teleporter assets m _;
  universal_origin-ok = λ c j m. if_trusted-ok (λ l. c.universal_aliases l j) m _;
  alias_origin-ok = λ c target m. if_trusted-ok (λ l. c.aliasers l target) m _;
  transact-cases = λ c k w call m. transacted-Attempted c k m m.origin call refl;
}

abbrev unpack : Place ℕ → ℕ × List ℕ
unpack l = (0, [])

abbrev plurality : ℕ → Option ℕ
plurality j = some j

abbrev is_executive : ℕ → Bool
is_executive id = false

abbrev native_asset : Asset (Place ℕ) → Place ℕ → Bool
native_asset a l = is_yes (place_discrete a.id l)

native_asset-id : (a : Asset (Place ℕ)) (l : Place ℕ) → (native_asset a l ≡ true) ↔ (a.id ≡ l)
native_asset-id a l = ground arith

abbrev from : Option (Place ℕ) → Vm
from o = record {
  origin = o;
  holding = [];
  transact_status = none;
  chain = record { control = record { authorized_deployers = 6 ∷ []; system = [] }; world = tt };
}

abbrev handlers : Handlers (Place ℕ) (Unit {0})
handlers = record {
  polkadot_xcm = tt;
  all_pallets_with_system = tt;
  runtime_call = tt;
  frame_transactional_processor = tt;
  using_components = λ l. tt;
  no_handler = tt;
}

abbrev configured : Config
configured =
    xcm_config converters adapters senders rules unpack plurality is_executive 2000 native_asset
      handlers parent elsewhere

-- The relay chain brings in its own asset, for the account of the parachain 2000.
reserve_asset-relay_example :
    (◌≡◌ {A = Place ℕ} parent parent) × (◌≡◌ {A = Option (Place ℕ)} (some parent) (some parent))
unfolding local_asset_deposit location_to_account_id place_discrete
reserve_asset-relay_example =
    reserve_asset-relay converters adapters senders rules unpack plurality is_executive 2000
      native_asset handlers parent elsewhere executor native_asset-id [] []
      (record { id = parent; amount = 30 }) (from (some parent)) (sibling 2000) 100 refl refl
