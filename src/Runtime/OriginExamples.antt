-- ===== src/Runtime/OriginExamples.antt =====
-- The conversion of XCM origins, the update of the collators and the asset transactor at concrete
-- inputs: a location is its place, and an account a number.
use qnch_chain.Prelude.{
  ap, ◌-◌, if◌then◌else◌, ◌≢◌, ℕ_discrete, is_yes, arith, Bool, true, false, Option, Result, ◌↔◌, ℕ,
  ◌+◌, ◌≡◌, refl, none, some, List, [], ◌∷◌, ok, err,
}
use qnch_chain.Runtime.Origins.{
  location_to_account_id, Place, parent, sibling, local_account, elsewhere, xcm, sovereign_account,
  sibling_para, signed, pallet_xcm, parent_of, sibling_of, account_of, mapped, or_else, when_native,
  when_sovereign, when_xcm, try_next, ok_or, ConvertLocation, ConvertOrigin, Converters,
  xcm_origin_to_transact_dispatch_origin,
}
use qnch_chain.Runtime.Origins
use qnch_chain.Runtime.Assets.{
  asset_not_handled, moved_by, AssetAdapters, local_asset_transactor,
  local_asset_transactor-fee_asset_id,
}
use qnch_chain.Runtime.UpdateOrigin
use qnch_chain.Runtime.UpdateOrigin.{accepted, or_right}
use qnch_chain.Runtime.UpdateOrigin.Message.{
  location_of, Embedding, MayUpdate, message-MayUpdate_iff,
}

abbrev pub any_location : List (ConvertLocation (Place ℕ) ℕ) → ConvertLocation (Place ℕ) ℕ
any_location [] l = none
any_location (c ∷ cs) l = or_else (c l) (any_location cs l)

abbrev pub any_origin : List (ConvertOrigin (Place ℕ) ℕ) → ConvertOrigin (Place ℕ) ℕ
any_origin [] l k = err l
any_origin (c ∷ cs) l k = try_next (c l k) (λ m. any_origin cs m k)

abbrev pub converters : Converters (Place ℕ) ℕ
converters = record {
  place = λ l. l;
  parent_account = 0;
  sibling_account = λ n. n + 1;
  parent_is_preset = λ l. parent_of 0 l;
  parent_is_preset-place = λ l. refl;
  sibling_parachain_converts_via = λ l. sibling_of (λ n. n + 1) l;
  sibling_parachain_converts_via-place = λ l. refl;
  account_id32_aliases = λ l. account_of l;
  account_id32_aliases-place = λ l. refl;
  any_location = any_location;
  any_location-nil = λ l. refl;
  any_location-cons = λ c cs l. refl;
  sovereign_signed_via_location = λ c l k. ok_or (when_sovereign k (mapped signed (c l))) l;
  sovereign_signed-of = λ c l k. refl;
  relay_chain_as_native = λ o l k. ok_or (when_native k (parent_of o l)) l;
  relay_chain-of = λ o l k. refl;
  sibling_parachain_as_native = λ l k. ok_or (when_native k (sibling_of sibling_para l)) l;
  sibling_parachain-of = λ l k. refl;
  signed_account_id32_as_native = λ l k. ok_or (when_native k (mapped signed (account_of l))) l;
  signed_account-of = λ l k. refl;
  xcm_passthrough = λ l k. ok_or (when_xcm k (some (pallet_xcm l))) l;
  xcm_passthrough-of = λ l k. refl;
  any_origin = any_origin;
  any_origin-nil = λ l k. refl;
  any_origin-cons = λ c cs l k. refl;
}

-- An origin of the runtime is root, or one that the converters make. The voice of a body is, here, the
-- parachain with its number.
abbrev RuntimeOrigin : Type 0
RuntimeOrigin = Option (Origins.Origin (Place ℕ) ℕ)

abbrev location_in : RuntimeOrigin → Option (Place ℕ)
location_in none = none
location_in (some o) = location_of o

abbrev ensure_root : RuntimeOrigin → Result (Unit {0}) RuntimeOrigin
ensure_root none = ok tt
ensure_root (some o) = err (some o)

ensure_root-ok : (o : RuntimeOrigin) → (ensure_root o ≡ ok tt) ↔ (o ≡ none)
ensure_root-ok none = ground arith
ensure_root-ok (some o) = ground arith

abbrev is_voice_of_body : Place ℕ → ℕ → Place ℕ → Bool
is_voice_of_body prefix body parent = false
is_voice_of_body prefix body (sibling n) = is_yes (ℕ_discrete n body)
is_voice_of_body prefix body (local_account a) = false
is_voice_of_body prefix body elsewhere = false

is_voice_of_body-voice :
    (prefix : Place ℕ) (body : ℕ) (l : Place ℕ)
    → (is_voice_of_body prefix body l ≡ true) ↔ (l ≡ sibling body)
is_voice_of_body-voice prefix body parent = ground arith
is_voice_of_body-voice prefix body (sibling n) = ground arith
is_voice_of_body-voice prefix body (local_account a) = ground arith
is_voice_of_body-voice prefix body elsewhere = ground arith

abbrev checks : UpdateOrigin.Origins RuntimeOrigin (Place ℕ) ℕ
checks = record {
  root = none;
  xcm_location = location_in;
  xcm_location-root = refl;
  ensure_root = ensure_root;
  ensure_root-ok = ensure_root-ok;
  ensure_xcm = λ filter o. accepted filter o (location_in o);
  ensure_xcm-accepted = λ filter o. refl;
  voice = λ prefix body. sibling body;
  is_voice_of_body = is_voice_of_body;
  is_voice_of_body-voice = is_voice_of_body-voice;
  either_of_diverse = λ left right o. or_right (left o) (right o);
  either_of_diverse-right = λ left right o. refl;
}

some-root : (o : Origins.Origin (Place ℕ) ℕ) → ◌≢◌ {A = RuntimeOrigin} (some o) none
some-root o h = cc

abbrev embedding : Embedding checks ℕ
embedding = record { into = λ o. some o; into-root = some-root; into-location = λ o. refl }

-- The body 7 asks for an origin of the kind `Xcm`.
message-MayUpdate_iff_example :
    MayUpdate checks converters embedding parent 7 (sibling 7) xcm
    ↔ ((◌≡◌ {A = Place ℕ} (sibling 7) (sibling 7)) × (xcm ≡ xcm))
message-MayUpdate_iff_example =
    message-MayUpdate_iff checks converters embedding parent 7 (sibling 7) xcm

unfoldable pub place_discrete : Discrete (Place ℕ)
place_discrete parent parent = yes refl
place_discrete parent (sibling m) = no (λ h. cc)
place_discrete parent (local_account m) = no (λ h. cc)
place_discrete parent elsewhere = no (λ h. cc)
place_discrete (sibling n) parent = no (λ h. cc)
place_discrete (sibling n) (sibling m) = elim (ℕ_discrete n m) [
  | yes e ↦ yes (ap sibling e)
  | no d ↦ no (λ h. d cc)
]
place_discrete (sibling n) (local_account m) = no (λ h. cc)
place_discrete (sibling n) elsewhere = no (λ h. cc)
place_discrete (local_account n) parent = no (λ h. cc)
place_discrete (local_account n) (sibling m) = no (λ h. cc)
place_discrete (local_account n) (local_account m) = elim (ℕ_discrete n m) [
  | yes e ↦ yes (ap local_account e)
  | no d ↦ no (λ h. d cc)
]
place_discrete (local_account n) elsewhere = no (λ h. cc)
place_discrete elsewhere parent = no (λ h. cc)
place_discrete elsewhere (sibling m) = no (λ h. cc)
place_discrete elsewhere (local_account m) = no (λ h. cc)
place_discrete elsewhere elsewhere = yes refl

-- The storage is the balance of the one account that counts.
abbrev pub adapters : AssetAdapters place_discrete ℕ ℕ (Unit {0})
adapters = record {
  currency_withdraw = λ a n s. (ok tt, s - n);
  currency_deposit = λ a n s. (ok tt, s + n);
  is_concrete = λ t a. if is_yes (place_discrete a.id t) then some a.amount else none;
  is_concrete-id = λ t a. refl;
  fungible_adapter = λ matcher convert what who s.
      moved_by (λ a n s. (ok tt, s - n)) (matcher what) (convert who) s;
  fungible_adapter-withdraw = λ matcher convert what who s. refl;
  fungible_deposit = λ matcher convert what who s.
      moved_by (λ a n s. (ok tt, s + n)) (matcher what) (convert who) s;
  fungible_adapter-deposit = λ matcher convert what who s. refl;
}

-- The account of the parachain 2000 has 100 units, of which 30 are asked for.
local_asset_transactor-fee_asset_id_example :
    (local_asset_transactor adapters converters parent elsewhere
        (record { id = elsewhere; amount = 30 })
        (sibling 2000)
        100
      ≡ (err asset_not_handled, 100))
    × (local_asset_transactor adapters converters parent elsewhere
          (record { id = parent; amount = 30 })
          (sibling 2000)
          100
        ≡ (ok tt, 70))
unfolding location_to_account_id
local_asset_transactor-fee_asset_id_example =
    local_asset_transactor-fee_asset_id adapters converters parent elsewhere (λ h. cc) 30
      (sibling 2000) 100
