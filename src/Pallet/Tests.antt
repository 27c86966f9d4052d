-- ===== src/Pallet/Tests.antt =====
-- The pallet at concrete inputs: the cases of the crate's own tests (src/tests.rs), with the genesis
-- of its mock runtime, and the theorems at inputs that meet their hypotheses.
use qnch_chain.Prelude.{ℕ, ◌≡◌, ◌||◌, refl, List, [], ◌∷◌, ◌++◌, ok, err, ℕ_discrete, contains, All}
use qnch_chain.Frame.{Frame}
use qnch_chain.Frame.Sample.{RawOrigin, root, signed, none_origin, list_frame}
use qnch_chain.Weights.{RuntimeDbWeight}
use qnch_chain.Pallet.{
  Event, deployer_authorized, deployer_revoked, bad_origin, module_error, already_authorized,
  not_authorized, State, Call, authorize, revoke, GenesisConfig, build, authorize_deployer,
  revoke_deployer, is_authorized,
}
use qnch_chain.Pallet.Whitelist.{view}
use qnch_chain.Pallet.History.{run, rooted, steps, replay, run-steps, run-replay, run-not_root}
use qnch_chain.Pallet.Genesis.{is_authorized-build}

abbrev F : Frame ℕ_discrete (Event ℕ)
F = list_frame ℕ_discrete (Event ℕ)

abbrev nothing : State F
nothing = record { authorized_deployers = []; system = [] }

-- Accounts 1 and 2 are authorized.
abbrev mock : State F
mock = record { authorized_deployers = 2 ∷ 1 ∷ []; system = [] }

abbrev mock_config : GenesisConfig ℕ
mock_config = record { authorized_deployers = 1 ∷ 2 ∷ [] }

genesis_config_works : build F mock_config nothing ≡ mock
unfolding build
genesis_config_works = refl

-- authorize_deployer_works, authorize_deployer_requires_root, authorize_already_authorized_is_noop
authorize_works :
    (authorize_deployer F root 3 mock ≡ (
      ok tt,
      record { authorized_deployers = 3 ∷ 2 ∷ 1 ∷ []; system = deployer_authorized 3 ∷ [] },
    ))
    × (authorize_deployer F (signed 1) 3 mock ≡ (err bad_origin, mock))
    × (authorize_deployer F root 1 mock ≡ (err (module_error already_authorized), mock))
unfolding authorize_deployer ℕ_discrete
authorize_works = (refl, refl, refl)

-- revoke_deployer_works, revoke_deployer_requires_root, revoke_unauthorized_deployer_fails
revoke_works :
    (revoke_deployer F root 1 mock
      ≡ (ok tt, record { authorized_deployers = 2 ∷ []; system = deployer_revoked 1 ∷ [] }))
    × (revoke_deployer F (signed 2) 1 mock ≡ (err bad_origin, mock))
    × (revoke_deployer F root 3 mock ≡ (err (module_error not_authorized), mock))
unfolding revoke_deployer ℕ_discrete
revoke_works = (refl, refl, refl)

abbrev history : List (RawOrigin ℕ × Call ℕ)
history =
    (root, authorize 3)
    ∷ (signed 1, revoke 2)
    ∷ (root, authorize 1)
    ∷ (root, revoke 1)
    ∷ (none_origin, authorize 9)
    ∷ []

abbrev unprivileged : List (RawOrigin ℕ × Call ℕ)
unprivileged = (signed 1, revoke 2) ∷ (none_origin, authorize 9) ∷ []

run-steps_example :
    let (rs, t) = run F history mock in
    let (rs', w, es) = steps ℕ_discrete (rooted F history) (view F mock) in
    (rs ≡ rs') × (view F t ≡ w) × (t.system ≡ mock.system ++ es)
run-steps_example = run-steps F history mock

run-replay_example :
    (es : List (Event ℕ)) × ((run F history mock).1.system ≡ [] ++ es)
    × (view F (run F history mock).1 ≡ replay ℕ_discrete es (view F mock))
run-replay_example = run-replay F history mock

run-not_root_example :
    All (λ r. r ≡ err bad_origin) (run F unprivileged mock).0 × ((run F unprivileged mock).1 ≡ mock)
run-not_root_example = run-not_root F unprivileged mock (refl, (refl, tt))

is_authorized-build_example :
    (is_authorized F 2 (build F mock_config nothing)
      ≡ (contains ℕ_discrete 2 (1 ∷ 2 ∷ []) || is_authorized F 2 nothing))
    × ((build F mock_config nothing).system ≡ [])
is_authorized-build_example = is_authorized-build F mock_config 2 nothing

abbrev rocks_db : RuntimeDbWeight
rocks_db = record { read = 25_000_000; write = 100_000_000 }
