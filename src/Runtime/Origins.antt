-- ===== src/Runtime/Origins.antt =====
-- parachain/runtime/src/configs/xcm.rs: `LocationToAccountId` and `XcmOriginToTransactDispatchOrigin`,
-- which turn the location that sent an XCM message into an account and into an origin of this chain.
-- The converters, and what a tuple of them does, come from the xcm crates, with what is documented of
-- them.
pub mod Table
use qnch_chain.Prelude.{
  ℕ, ◌≡◌, refl, sym, ap, ◌∙◌, Option, none, some, List, [], ◌∷◌, Result, ok, err, inl, inr, ◌⊎◌,
  Option-cases,
}

-- What the converters tell apart: the relay chain, a parachain beside this one, an account of this
-- chain, and all else.
pub data Place (AccountId : Type 0) : Type 0 where
  parent : Place AccountId
  sibling : (para_id : ℕ) → Place AccountId
  local_account : AccountId → Place AccountId
  elsewhere : Place AccountId

-- `OriginKind`
pub data OriginKind : Type 0 where
  native sovereign_account superuser xcm : OriginKind

-- The origins that the converters make, `Root` apart.
pub data Origin (Location AccountId : Type 0) : Type 0 where
  signed : AccountId → Origin Location AccountId
  relay : Origin Location AccountId
  sibling_para : ℕ → Origin Location AccountId
  pallet_xcm : Location → Origin Location AccountId

-- An account of a place, if there is one of this kind.
abbrev pub parent_of : {A B : Type 0} → B → Place A → Option B
parent_of a parent = some a
parent_of a (sibling n) = none
parent_of a (local_account b) = none
parent_of a elsewhere = none

abbrev pub sibling_of : {A B : Type 0} → (ℕ → B) → Place A → Option B
sibling_of f parent = none
sibling_of f (sibling n) = some (f n)
sibling_of f (local_account b) = none
sibling_of f elsewhere = none

abbrev pub account_of : {A : Type 0} → Place A → Option A
account_of parent = none
account_of (sibling n) = none
account_of (local_account b) = some b
account_of elsewhere = none

abbrev pub mapped : {A B : Type 0} → (A → B) → Option A → Option B
mapped f none = none
mapped f (some a) = some (f a)

-- The first that is there.
abbrev pub or_else : {A : Type 0} → Option A → Option A → Option A
or_else none o = o
or_else (some a) o = some a

-- What is there for one kind only.
abbrev pub when_native : {A : Type 0} → OriginKind → Option A → Option A
when_native native o = o
when_native sovereign_account o = none
when_native superuser o = none
when_native xcm o = none

abbrev pub when_sovereign : {A : Type 0} → OriginKind → Option A → Option A
when_sovereign native o = none
when_sovereign sovereign_account o = o
when_sovereign superuser o = none
when_sovereign xcm o = none

abbrev pub when_xcm : {A : Type 0} → OriginKind → Option A → Option A
when_xcm native o = none
when_xcm sovereign_account o = none
when_xcm superuser o = none
when_xcm xcm o = o

-- The next member of a tuple gets the location that the one before gave back.
abbrev pub try_next : {O L : Type 0} → Result O L → (L → Result O L) → Result O L
try_next (ok o) next = ok o
try_next (err l) next = next l

abbrev pub ok_or : {A E : Type 0} → Option A → E → Result A E
ok_or none e = err e
ok_or (some a) e = ok a

-- Converters of a location to an account, and of a location and a kind to an origin.
abbrev pub ConvertLocation : Type 0 → Type 0 → Type 0
ConvertLocation Location AccountId = Location → Option AccountId

abbrev pub ConvertOrigin : Type 0 → Type 0 → Type 0
ConvertOrigin Location AccountId =
    Location → OriginKind → Result (Origin Location AccountId) Location

-- The converters of the xcm crates. A converter of origins works for one kind, and gives the location
-- back where it does not convert; a tuple tries its members in order.
pub record Converters (Location AccountId : Type 0) : Type 0 where
  pub place : Location → Place AccountId
  pub parent_account : AccountId
  pub sibling_account : ℕ → AccountId
  pub parent_is_preset : ConvertLocation Location AccountId
  pub parent_is_preset-place :
      (l : Location) → parent_is_preset l ≡ parent_of parent_account (place l)
  pub sibling_parachain_converts_via : ConvertLocation Location AccountId
  pub sibling_parachain_converts_via-place :
      (l : Location) → sibling_parachain_converts_via l ≡ sibling_of sibling_account (place l)
  pub account_id32_aliases : ConvertLocation Location AccountId
  pub account_id32_aliases-place : (l : Location) → account_id32_aliases l ≡ account_of (place l)
  pub any_location : List (ConvertLocation Location AccountId) → ConvertLocation Location AccountId
  pub any_location-nil : (l : Location) → any_location [] l ≡ none
  pub any_location-cons :
      (c : ConvertLocation Location AccountId) (cs : List (ConvertLocation Location AccountId))
      (l : Location)
      → any_location (c ∷ cs) l ≡ or_else (c l) (any_location cs l)
  pub sovereign_signed_via_location :
      ConvertLocation Location AccountId → ConvertOrigin Location AccountId
  pub sovereign_signed-of :
      (c : ConvertLocation Location AccountId) (l : Location) (k : OriginKind)
      → sovereign_signed_via_location c l k ≡ ok_or (when_sovereign k (mapped signed (c l))) l
  pub relay_chain_as_native : Origin Location AccountId → ConvertOrigin Location AccountId
  pub relay_chain-of :
      (o : Origin Location AccountId) (l : Location) (k : OriginKind)
      → relay_chain_as_native o l k ≡ ok_or (when_native k (parent_of o (place l))) l
  pub sibling_parachain_as_native : ConvertOrigin Location AccountId
  pub sibling_parachain-of :
      (l : Location) (k : OriginKind)
      → sibling_parachain_as_native l k
        ≡ ok_or (when_native k (sibling_of sibling_para (place l))) l
  pub signed_account_id32_as_native : ConvertOrigin Location AccountId
  pub signed_account-of :
      (l : Location) (k : OriginKind)
      → signed_account_id32_as_native l k
        ≡ ok_or (when_native k (mapped signed (account_of (place l)))) l
  pub xcm_passthrough : ConvertOrigin Location AccountId
  pub xcm_passthrough-of :
      (l : Location) (k : OriginKind)
      → xcm_passthrough l k ≡ ok_or (when_xcm k (some (pallet_xcm l))) l
  pub any_origin : List (ConvertOrigin Location AccountId) → ConvertOrigin Location AccountId
  pub any_origin-nil : (l : Location) (k : OriginKind) → any_origin [] l k ≡ err l
  pub any_origin-cons :
      (c : ConvertOrigin Location AccountId) (cs : List (ConvertOrigin Location AccountId))
      (l : Location) (k : OriginKind)
      → any_origin (c ∷ cs) l k ≡ try_next (c l k) (λ m. any_origin cs m k)

module _ {Location AccountId : Type 0} (C : Converters Location AccountId) where
  open C use {
    parent_is_preset, sibling_parachain_converts_via, account_id32_aliases, any_location,
    sovereign_signed_via_location, relay_chain_as_native, sibling_parachain_as_native,
    signed_account_id32_as_native, xcm_passthrough, any_origin,
  }

  -- `LocationToAccountId`
  unfoldable pub location_to_account_id : ConvertLocation Location AccountId
  location_to_account_id =
      any_location (parent_is_preset ∷ sibling_parachain_converts_via ∷ account_id32_aliases ∷ [])

  -- `XcmOriginToTransactDispatchOrigin`, with `RelayChainOrigin`
  unfoldable pub xcm_origin_to_transact_dispatch_origin : ConvertOrigin Location AccountId
  unfolding location_to_account_id
  xcm_origin_to_transact_dispatch_origin = any_origin (
      sovereign_signed_via_location location_to_account_id
      ∷ relay_chain_as_native relay
      ∷ sibling_parachain_as_native
      ∷ signed_account_id32_as_native
      ∷ xcm_passthrough
      ∷ [])
