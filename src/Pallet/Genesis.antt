-- ===== src/Pallet/Genesis.antt =====
-- The whitelist that the genesis configuration builds.
use qnch_chain.Prelude.{◌≡◌, refl, ◌||◌, List, [], ◌∷◌, arith, contains}
use qnch_chain.Frame.{Frame}
use qnch_chain.Pallet.{Event, State, GenesisConfig, build_from, build, is_authorized}

module _ {A : Type 0} {dec : Discrete A} (F : Frame dec (Event A)) where
  open F use {contains_key-insert}

  build_from-contains :
      (ds : List A) (a : A) (s : State F)
      → (is_authorized F a (build_from F ds s) ≡ (contains dec a ds || is_authorized F a s))
        × ((build_from F ds s).system ≡ s.system)
  unfolding build_from is_authorized
  build_from-contains [] a s = (refl, refl)
  build_from-contains (d ∷ ds) a s = ground (
    arith,
    contains_key-insert a d s.authorized_deployers,
    build_from-contains ds a
        (record s { authorized_deployers = F.insert d s.authorized_deployers }),
  )

  -- After the genesis build an account is authorized exactly when the configuration lists it or it
  -- was authorized before; duplicates in the list change nothing, and no event is recorded.
  pub is_authorized-build :
      (config : GenesisConfig A) (a : A) (s : State F)
      → (is_authorized F a (build F config s)
          ≡ (contains dec a config.authorized_deployers || is_authorized F a s))
        × ((build F config s).system ≡ s.system)
  unfolding build
  is_authorized-build config a s = build_from-contains config.authorized_deployers a s
