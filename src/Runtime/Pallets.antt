-- ===== src/Runtime/Pallets.antt =====
-- parachain/runtime/src/lib.rs: the pallets that `mod runtime` composes, and the index of each, which
-- is the first byte of its encoded calls.
use qnch_chain.Prelude.{
  ℕ, suc, ◌≡◌, ◌<◌, refl, Option, none, some, List, [], ◌∷◌, arith, ◌==◌, if◌then◌else◌,
}

pub data PalletName : Type 0 where
  system parachain_system timestamp parachain_info balances transaction_payment sudo authorship
        collator_selection session aura aura_ext xcmp_queue polkadot_xcm cumulus_xcm message_queue
        ethereum evm evm_chain_id base_fee evm_deployment_control :
      PalletName

-- The attribute `pallet_index` of each pallet.
unfoldable pub pallet_index : PalletName → ℕ
pallet_index system = 0
pallet_index parachain_system = 1
pallet_index timestamp = 2
pallet_index parachain_info = 3
pallet_index balances = 10
pallet_index transaction_payment = 11
pallet_index sudo = 15
pallet_index authorship = 20
pallet_index collator_selection = 21
pallet_index session = 22
pallet_index aura = 23
pallet_index aura_ext = 24
pallet_index xcmp_queue = 30
pallet_index polkadot_xcm = 31
pallet_index cumulus_xcm = 32
pallet_index message_queue = 33
pallet_index ethereum = 40
pallet_index evm = 41
pallet_index evm_chain_id = 42
pallet_index base_fee = 43
pallet_index evm_deployment_control = 44

-- The pallets in the order of their declaration, which is that of their hooks.
unfoldable pub all_pallets : List PalletName
all_pallets =
    system ∷ parachain_system ∷ timestamp ∷ parachain_info ∷ balances ∷ transaction_payment ∷ sudo
    ∷ authorship ∷ collator_selection ∷ session ∷ aura ∷ aura_ext ∷ xcmp_queue ∷ polkadot_xcm
    ∷ cumulus_xcm ∷ message_queue ∷ ethereum ∷ evm ∷ evm_chain_id ∷ base_fee
    ∷ evm_deployment_control ∷ []

-- The first pallet of a list with an index.
abbrev pub pallet_at : ℕ → List PalletName → Option PalletName
pallet_at i [] = none
pallet_at i (p ∷ ps) = if pallet_index p == i then some p else pallet_at i ps

-- The indices of a list grow, from a bound on.
abbrev pub IsGrowing : ℕ → List PalletName → Type 0
IsGrowing bound [] = Unit
IsGrowing bound (p ∷ ps) = (bound < suc (pallet_index p)) × IsGrowing (suc (pallet_index p)) ps

growing : IsGrowing 0 all_pallets
unfolding pallet_index all_pallets
growing = ground arith

-- Every pallet is declared and is the one that is found by its index, which is a byte: no two pallets
-- share an index. The order of the declarations is that of the indices.
pallet_at-pallet_index :
    (p : PalletName)
    → (pallet_at (pallet_index p) all_pallets ≡ some p)
      × (pallet_index p < 256)
      × IsGrowing 0 all_pallets
unfolding pallet_index all_pallets
pallet_at-pallet_index system = (refl, omega arith, growing)
pallet_at-pallet_index parachain_system = (refl, omega arith, growing)
pallet_at-pallet_index timestamp = (refl, omega arith, growing)
pallet_at-pallet_index parachain_info = (refl, omega arith, growing)
pallet_at-pallet_index balances = (refl, omega arith, growing)
pallet_at-pallet_index transaction_payment = (refl, omega arith, growing)
pallet_at-pallet_index sudo = (refl, omega arith, growing)
pallet_at-pallet_index authorship = (refl, omega arith, growing)
pallet_at-pallet_index collator_selection = (refl, omega arith, growing)
pallet_at-pallet_index session = (refl, omega arith, growing)
pallet_at-pallet_index aura = (refl, omega arith, growing)
pallet_at-pallet_index aura_ext = (refl, omega arith, growing)
pallet_at-pallet_index xcmp_queue = (refl, omega arith, growing)
pallet_at-pallet_index polkadot_xcm = (refl, omega arith, growing)
pallet_at-pallet_index cumulus_xcm = (refl, omega arith, growing)
pallet_at-pallet_index message_queue = (refl, omega arith, growing)
pallet_at-pallet_index ethereum = (refl, omega arith, growing)
pallet_at-pallet_index evm = (refl, omega arith, growing)
pallet_at-pallet_index evm_chain_id = (refl, omega arith, growing)
pallet_at-pallet_index base_fee = (refl, omega arith, growing)
pallet_at-pallet_index evm_deployment_control = (refl, omega arith, growing)

-- The pallets that parachain/runtime/src/benchmarks.rs names for the benchmarking macros.
abbrev benchmarks : List PalletName
benchmarks =
    system ∷ parachain_system ∷ timestamp ∷ balances ∷ sudo ∷ collator_selection ∷ session
    ∷ xcmp_queue ∷ message_queue ∷ evm ∷ evm_deployment_control ∷ []

-- They stand in the order of their indices.
benchmarks-IsGrowing : IsGrowing 0 benchmarks
unfolding pallet_index
benchmarks-IsGrowing = ground arith
