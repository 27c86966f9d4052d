-- ===== src/Runtime/XcmConfig/Incoming.antt =====
-- Which assets XCM messages bring to this chain, by `impl xcm_executor::Config for XcmConfig` in
-- parachain/runtime/src/configs/xcm.rs, and which instructions its filters refuse.
use qnch_chain.Prelude.{
  ℕ, ◌≡◌, ◌≢◌, sym, ap, ◌∙◌, Bool, true, Option, none, some, List, ◌∷◌, ◌++◌, Result, ok, All-at,
  ◌↔◌, arith,
}
use qnch_chain.Runtime.Origins.{Converters, location_to_account_id}
use qnch_chain.Runtime.Assets.{Asset, AssetAdapters, moved_by, local_asset_deposit}
use qnch_chain.Runtime.Router.{Senders}
use qnch_chain.Runtime.Barrier.{Rules}
use qnch_chain.Runtime.XcmConfig
use qnch_chain.Runtime.XcmConfig.{
  xcm_config, Handlers, Executor, Machine, reserve_asset_deposited, receive_teleported_asset,
  universal_origin, alias_origin,
}

module _ {L A W Y : Type 0} {dec : Discrete L} (K : AssetAdapters dec A W Y) where
  -- What is moved is matched.
  matched :
      (pay : A → ℕ → W → Result (Unit {0}) Y × W) (n : Option ℕ) (who : Option A) (w : W)
      → (moved_by pay n who w).0 ≡ ok tt
      → n ≢ none
  matched pay none who w h e = cc
  matched pay (some n) who w h e = cc

  concrete : (t : L) (a : Asset L) → K.is_concrete t a ≢ none → a.id ≡ t
  concrete t a h = ground (arith, K.is_concrete-id t a)

module _ {L A Call Interior Junction BodyId Weight M Ticket X W Y S E Handler D G Error : Type 0}
    {dec : Discrete L} (C : Converters L A) (K : AssetAdapters dec A W Y)
    (T : Senders L M Ticket X A) (U : Rules L Interior S E) (unpack : L → ℕ × List Junction)
    (plurality : Junction → Option BodyId) (is_executive : BodyId → Bool)
    (universal_location : Interior) (native_asset : Asset L → L → Bool) (J : Handlers L Handler)
    (parent here : L)
    (V : Executor L A Call Junction Weight M Ticket X W Y S E Handler D G Error) where
  abbrev config : XcmConfig.ExecutorConfig L A Call Junction M Ticket X W Y S E Handler
  config =
      xcm_config C K T U unpack plurality is_executive universal_location native_asset J parent here

  deposited-id :
      (a : Asset L) (who : L) (w : W)
      → (config.asset_transactor.deposit a who w).0 ≡ ok tt
      → a.id ≡ parent
  unfolding local_asset_deposit
  deposited-id a who w h = concrete K parent a (
      matched K K.currency_deposit (K.is_concrete parent a) (location_to_account_id C who) w
        (ap (λ r. r.0) (sym (K.fungible_adapter-deposit _ _ a who w)) ∙ h))

  -- `NativeAsset` trusts a location for the assets that have it as their id. Then, if a message brings
  -- in reserve assets, and one of them can be deposited by this chain, into whatever account, then it
  -- is the asset of the relay chain, and the relay chain has sent it.
  pub reserve_asset-relay :
      ((a : Asset L) (l : L) → (native_asset a l ≡ true) ↔ (a.id ≡ l))
      → (before after : List (Asset L)) (a : Asset L) (m : Machine L D G) (who : L) (w : W)
      → (V.execute config (reserve_asset_deposited (before ++ a ∷ after)) m).0 ≡ ok tt
      → (config.asset_transactor.deposit a who w).0 ≡ ok tt
      → (a.id ≡ parent) × (m.origin ≡ some parent)
  reserve_asset-relay native before after a m who w taken given =
      let (l, at, trusted) = V.reserve_asset_deposited-ok config (before ++ a ∷ after) m taken in
      let own : a.id ≡ l =
        (native a l).0 (All-at (λ b. native_asset b l ≡ true) before a after trusted) in
      let relay : a.id ≡ parent = deposited-id a who w given in
      (relay, at ∙ ap some (sym own ∙ relay))

  -- Whatever the state of the executor: no message can bring in teleported assets, move its origin to
  -- another universe, or take the name of another location.
  xcm_config-refused :
      (m : Machine L D G) (a : Asset L) (assets : List (Asset L)) (j : Junction) (target : L)
      → ((V.execute config (receive_teleported_asset (a ∷ assets)) m).0 ≢ ok tt)
        × ((V.execute config (universal_origin j) m).0 ≢ ok tt)
        × ((V.execute config (alias_origin target) m).0 ≢ ok tt)
  xcm_config-refused m a assets j target = (
    λ h. (let (l, at, trusted) = V.receive_teleported_asset-ok config (a ∷ assets) m h in cc),
    λ h. (let (l, at, trusted) = V.universal_origin-ok config j m h in cc),
    λ h. (let (l, at, trusted) = V.alias_origin-ok config target m h in cc),
  )
