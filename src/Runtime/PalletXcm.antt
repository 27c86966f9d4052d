-- ===== src/Runtime/PalletXcm.antt =====
-- parachain/runtime/src/configs/xcm.rs: `LocalOriginToLocation` and `impl pallet_xcm::Config for
-- Runtime`, by which accounts of this chain use XCM themselves. The conversion of an origin, the check
-- and the calls of pallet_xcm come from other crates, with what is documented of them.
pub mod Local
use qnch_chain.Prelude.{
  ℕ, ◌≡◌, ◌⊎◌, Bool, true, false, Option, some, List, Result, ok, err, if◌then◌else◌,
}
use qnch_chain.Runtime.Origins.{
  Place, local_account, ConvertLocation, Converters, location_to_account_id, mapped, ok_or,
  try_next,
}
use qnch_chain.Runtime.UpdateOrigin.{EnsureOrigin}
use qnch_chain.Runtime.Assets.{Asset}
use qnch_chain.Runtime.Router.{Sender, SendError, Senders, xcm_router}
use qnch_chain.Runtime.Config.{XcmLimits, xcm_limits}
use qnch_chain.Runtime.XcmConfig.{everything, nothing}

-- The origins of this chain: root, that of an account, or another. `SignedToAccountId32` gives the
-- location of the account that has signed, and `EnsureXcmOrigin` has root stand for the chain itself.
pub record LocalOrigins (O L A : Type 0) (place : L → Place A) : Type 0 where
  pub is_root : O → Bool
  pub signer : O → Option A
  pub signer-is_root : (o : O) (a : A) → signer o ≡ some a → is_root o ≡ false
  pub here : L
  pub account_location : A → L
  pub place-account_location : (a : A) → place (account_location a) ≡ local_account a
  pub signed_to_account_id32 : O → Result L O
  pub signed_to_account_id32-signer :
      (o : O) → signed_to_account_id32 o ≡ ok_or (mapped account_location (signer o)) o
  pub ensure_xcm_origin : (O → Result L O) → EnsureOrigin O L
  pub ensure_xcm_origin-of :
      (convert : O → Result L O) (o : O)
      → ensure_xcm_origin convert o
        ≡ try_next (convert o) (λ p. if is_root p then ok here else err p)

-- `pallet_xcm::Config`, as far as the source gives it code of its own, a filter or a number
pub record PalletXcmConfig (O L A M Ticket X : Type 0) : Type 0 where
  pub send_xcm_origin : EnsureOrigin O L
  pub xcm_router : Sender L M Ticket X
  pub execute_xcm_origin : EnsureOrigin O L
  pub xcm_execute_filter : L × M → Bool
  pub xcm_teleport_filter : L × List (Asset L) → Bool
  pub xcm_reserve_transfer_filter : L × List (Asset L) → Bool
  pub weigher : XcmLimits
  pub version_discovery_queue_size : ℕ
  pub sovereign_account_of : ConvertLocation L A
  pub max_lockers : ℕ
  pub max_remote_lock_consumers : ℕ

module _ {O L A M Ticket X : Type 0} (C : Converters L A) (N : LocalOrigins O L A C.place)
    (T : Senders L M Ticket X A) where
  -- `LocalOriginToLocation`
  abbrev pub local_origin_to_location : O → Result L O
  local_origin_to_location = N.signed_to_account_id32

  -- `impl pallet_xcm::Config for Runtime`
  abbrev pub pallet_xcm_config : PalletXcmConfig O L A M Ticket X
  pallet_xcm_config = record {
    send_xcm_origin = N.ensure_xcm_origin local_origin_to_location;
    xcm_router = xcm_router T;
    execute_xcm_origin = N.ensure_xcm_origin local_origin_to_location;
    xcm_execute_filter = nothing;
    xcm_teleport_filter = everything;
    xcm_reserve_transfer_filter = nothing;
    weigher = xcm_limits;
    version_discovery_queue_size = 100;
    sovereign_account_of = location_to_account_id C;
    max_lockers = 8;
    max_remote_lock_consumers = 0;
  }

-- What a message that the router has answered for comes to.
abbrev pub delivered :
    {Ticket X Error G : Type 0}
    → (SendError X → Error)
    → (Ticket → G → Result (Unit {0}) Error × G)
    → Result Ticket (SendError X)
    → G
    → Result (Unit {0}) Error × G
delivered unsent deliver (ok t) s = deliver t s
delivered unsent deliver (err x) s = (err (unsent x), s)

-- The calls of pallet_xcm. A message of a location inside this chain is sent `behind` this location;
-- what the location pays for the delivery is a part of `deliver`.
pub record XcmPallet {O L A : Type 0} {place : L → Place A} (N : LocalOrigins O L A place)
    (M Ticket X G Error : Type 0) : Type 1 where
  pub bad_origin : Error
  pub unsent : SendError X → Error
  pub behind : L → M → M
  pub deliver : L → Ticket → G → Result (Unit {0}) Error × G
  pub send : PalletXcmConfig O L A M Ticket X → O → L → M → G → Result (Unit {0}) Error × G
  pub send-refused :
      (c : PalletXcmConfig O L A M Ticket X) (o p : O) (dest : L) (m : M) (s : G)
      → c.send_xcm_origin o ≡ err p
      → send c o dest m s ≡ (err bad_origin, s)
  pub send-delivered :
      (c : PalletXcmConfig O L A M Ticket X) (o : O) (l dest : L) (m : M) (s : G)
      → c.send_xcm_origin o ≡ ok l
      → (l ≡ N.here) ⊎ ((a : A) × (l ≡ N.account_location a))
      → send c o dest m s ≡ delivered unsent (deliver l) (c.xcm_router dest (behind l m)) s
  pub execute : PalletXcmConfig O L A M Ticket X → O → M → G → Result (Unit {0}) Error × G
  pub execute-ok :
      (c : PalletXcmConfig O L A M Ticket X) (o : O) (m : M) (s : G)
      → (execute c o m s).0 ≡ ok tt
      → (l : L) × (c.execute_xcm_origin o ≡ ok l) × (c.xcm_execute_filter (l, m) ≡ true)
  pub limited_reserve_transfer_assets :
      PalletXcmConfig O L A M Ticket X
      → O
      → L
      → L
      → List (Asset L)
      → G
      → Result (Unit {0}) Error × G
  pub limited_reserve_transfer_assets-ok :
      (c : PalletXcmConfig O L A M Ticket X) (o : O) (dest beneficiary : L)
      (assets : List (Asset L)) (s : G)
      → (limited_reserve_transfer_assets c o dest beneficiary assets s).0 ≡ ok tt
      → (l : L) × (c.execute_xcm_origin o ≡ ok l)
        × (c.xcm_reserve_transfer_filter (l, assets) ≡ true)
