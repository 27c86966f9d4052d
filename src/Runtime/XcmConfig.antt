-- ===== src/Runtime/XcmConfig.antt =====
-- parachain/runtime/src/configs/xcm.rs: `impl xcm_executor::Config for XcmConfig`, the parts that an
-- XCM message of this chain is executed with. The executor, and the filters of other crates, are
-- parameters, with what is documented of them.
pub mod Incoming
use qnch_chain.Prelude.{ℕ, ◌≡◌, ◌⊎◌, Bool, true, false, Option, some, List, Result, ok, err, All}
use qnch_chain.Runtime.Origins.{
  OriginKind, Origin, ConvertOrigin, Converters, xcm_origin_to_transact_dispatch_origin,
}
use qnch_chain.Runtime.Assets.{
  Asset, TransactError, AssetAdapters, local_asset_transactor, local_asset_deposit, relay_location,
}
use qnch_chain.Runtime.Router.{Sender, Senders, xcm_router}
use qnch_chain.Runtime.Barrier.{Rule, Rules, barrier}
use qnch_chain.Runtime.Config.{XcmLimits, xcm_limits}

-- `TransactAsset`: to take an asset from the account of a location, and to give one
pub record AssetTransactor (L W Y : Type 0) : Type 0 where
  pub withdraw : Asset L → L → W → Result (Unit {0}) (TransactError Y) × W
  pub deposit : Asset L → L → W → Result (Unit {0}) (TransactError Y) × W

-- What the configuration names of other crates without any code of this repository: `PolkadotXcm`,
-- `AllPalletsWithSystem`, `RuntimeCall` as the dispatcher, `FrameTransactionalProcessor`,
-- `UsingComponents` for the asset that buys weight, and the tuple `()`, which does nothing.
pub record Handlers (L Handler : Type 0) : Type 0 where
  pub polkadot_xcm : Handler
  pub all_pallets_with_system : Handler
  pub runtime_call : Handler
  pub frame_transactional_processor : Handler
  pub using_components : L → Handler
  pub no_handler : Handler

-- `xcm_executor::Config`
pub record ExecutorConfig (L A Call Junction M Ticket X W Y S E Handler : Type 0) : Type 0 where
  pub xcm_sender : Sender L M Ticket X
  pub asset_transactor : AssetTransactor L W Y
  pub origin_converter : ConvertOrigin L A
  pub is_reserve : Asset L → L → Bool
  pub is_teleporter : Asset L → L → Bool
  pub barrier : Rule L S E
  pub weigher : XcmLimits
  pub trader : Handler
  pub response_handler : Handler
  pub asset_trap : Handler
  pub asset_claims : Handler
  pub subscription_service : Handler
  pub pallet_instances_info : Handler
  pub max_assets_into_holding : ℕ
  pub asset_locker : Handler
  pub asset_exchanger : Handler
  pub fee_manager : Handler
  pub message_exporter : Handler
  pub universal_aliases : L → Junction → Bool
  pub call_dispatcher : Handler
  pub safe_call_filter : Call → Bool
  pub aliasers : L → L → Bool
  pub transactional_processor : Handler
  pub hrmp_channel_accepted_handler : Handler
  pub hrmp_channel_closing_handler : Handler
  pub hrmp_new_channel_open_request_handler : Handler
  pub xcm_recorder : Handler

-- `Everything` and `Nothing`, as filters of one and of two arguments
abbrev pub everything : {A : Type 0} → A → Bool
everything a = true

abbrev pub nothing : {A : Type 0} → A → Bool
nothing a = false

abbrev pub no_pair : {A B : Type 0} → A → B → Bool
no_pair a b = false

module _ {L A Call Interior Junction BodyId M Ticket X W Y S E Handler : Type 0} {dec : Discrete L}
    (C : Converters L A) (K : AssetAdapters dec A W Y) (T : Senders L M Ticket X A)
    (U : Rules L Interior S E) (unpack : L → ℕ × List Junction)
    (plurality : Junction → Option BodyId) (is_executive : BodyId → Bool)
    (universal_location : Interior) (native_asset : Asset L → L → Bool) (J : Handlers L Handler)
    (parent here : L) where
  -- `impl xcm_executor::Config for XcmConfig`; the tuple `()` of teleporters contains nothing.
  abbrev pub xcm_config : ExecutorConfig L A Call Junction M Ticket X W Y S E Handler
  xcm_config = record {
    xcm_sender = xcm_router T;
    asset_transactor = record {
      withdraw = local_asset_transactor K C parent here;
      deposit = local_asset_deposit K C parent here;
    };
    origin_converter = xcm_origin_to_transact_dispatch_origin C;
    is_reserve = native_asset;
    is_teleporter = no_pair;
    barrier = barrier U unpack plurality is_executive universal_location;
    weigher = xcm_limits;
    trader = J.using_components (relay_location K C parent here);
    response_handler = J.polkadot_xcm;
    asset_trap = J.polkadot_xcm;
    asset_claims = J.polkadot_xcm;
    subscription_service = J.polkadot_xcm;
    pallet_instances_info = J.all_pallets_with_system;
    max_assets_into_holding = xcm_limits.max_assets_into_holding;
    asset_locker = J.no_handler;
    asset_exchanger = J.no_handler;
    fee_manager = J.no_handler;
    message_exporter = J.no_handler;
    universal_aliases = no_pair;
    call_dispatcher = J.runtime_call;
    safe_call_filter = everything;
    aliasers = no_pair;
    transactional_processor = J.frame_transactional_processor;
    hrmp_channel_accepted_handler = J.no_handler;
    hrmp_channel_closing_handler = J.no_handler;
    hrmp_new_channel_open_request_handler = J.no_handler;
    xcm_recorder = J.polkadot_xcm;
  }

-- The instructions that a filter of the configuration judges. A call that cannot be decoded is `none`.
pub data Instruction (L Call Junction Weight : Type 0) : Type 0 where
  reserve_asset_deposited receive_teleported_asset :
      List (Asset L) → Instruction L Call Junction Weight
  transact : OriginKind → Weight → Option Call → Instruction L Call Junction Weight
  universal_origin : Junction → Instruction L Call Junction Weight
  alias_origin : L → Instruction L Call Junction Weight

-- What an executor has at an instruction: the origin, unless the message has cleared it, the assets in
-- the holding register, how the last dispatched call ended, and the chain's storage.
pub record Machine (L D G : Type 0) : Type 0 where
  pub origin : Option L
  pub holding : List (Asset L)
  pub transact_status : Option (Result (Unit {0}) D)
  pub chain : G

-- The dispatch of a call from an origin
abbrev pub Dispatch : Type 0 → Type 0 → Type 0 → Type 0 → Type 0 → Type 0
Dispatch L A Call D G = Origin L A → Call → G → Result (Unit {0}) D × G

-- The location in the origin register meets the predicate.
abbrev pub Trusts : {L D G : Type 0} → (L → Type 0) → Machine L D G → Type 0
Trusts {L} P m = (l : L) × (m.origin ≡ some l) × P l

module _ {L A Call Junction M Ticket X W Y S E Handler D G : Type 0} where
  -- The call was dispatched from the origin that the converter makes of the location in the origin
  -- register, after the filter let it pass. How it ended is noted, and is no error of the instruction.
  abbrev pub IsDispatched :
      ExecutorConfig L A Call Junction M Ticket X W Y S E Handler
      → Dispatch L A Call D G
      → OriginKind
      → Option Call
      → Machine L D G
      → Machine L D G
      → Type 0
  IsDispatched config dispatch k call m n =
      (l : L) × (o : Origin L A) × (c : Call) × (m.origin ≡ some l)
      × (call ≡ some c)
      × (config.safe_call_filter c ≡ true)
      × (config.origin_converter l k ≡ ok o)
      × (n.transact_status ≡ some (dispatch o c m.chain).0)
      × (n.chain ≡ (dispatch o c m.chain).1)

-- The executor of a configuration, with the dispatch of calls: when these instructions succeed, and
-- what one that dispatches a call does to the storage.
pub record Executor (L A Call Junction Weight M Ticket X W Y S E Handler D G Error : Type 0)
    : Type 1 where
  pub dispatch : Dispatch L A Call D G
  pub execute :
      ExecutorConfig L A Call Junction M Ticket X W Y S E Handler
      → Instruction L Call Junction Weight
      → Machine L D G
      → Result (Unit {0}) Error × Machine L D G
  pub reserve_asset_deposited-ok :
      (c : ExecutorConfig L A Call Junction M Ticket X W Y S E Handler) (assets : List (Asset L))
      (m : Machine L D G)
      → (execute c (reserve_asset_deposited assets) m).0 ≡ ok tt
      → Trusts (λ l. All (λ a. c.is_reserve a l ≡ true) assets) m
  pub receive_teleported_asset-ok :
      (c : ExecutorConfig L A Call Junction M Ticket X W Y S E Handler) (assets : List (Asset L))
      (m : Machine L D G)
      → (execute c (receive_teleported_asset assets) m).0 ≡ ok tt
      → Trusts (λ l. All (λ a. c.is_teleporter a l ≡ true) assets) m
  pub universal_origin-ok :
      (c : ExecutorConfig L A Call Junction M Ticket X W Y S E Handler) (j : Junction)
      (m : Machine L D G)
      → (execute c (universal_origin j) m).0 ≡ ok tt
      → Trusts (λ l. c.universal_aliases l j ≡ true) m
  pub alias_origin-ok :
      (c : ExecutorConfig L A Call Junction M Ticket X W Y S E Handler) (target : L)
      (m : Machine L D G)
      → (execute c (alias_origin target) m).0 ≡ ok tt
      → Trusts (λ l. c.aliasers l target ≡ true) m
  pub transact-cases :
      (c : ExecutorConfig L A Call Junction M Ticket X W Y S E Handler) (k : OriginKind)
      (w : Weight) (call : Option Call) (m : Machine L D G)
      → let (r, n) = execute c (transact k w call) m in
        ((e : Error) × (r ≡ err e) × (n ≡ m)) ⊎ ((r ≡ ok tt) × IsDispatched c dispatch k call m n)
