-- ===== src/Node/Tests.antt =====
-- The chain specifications at concrete inputs: a pair, a public key and an account are their texts,
-- and the code of the runtime is a number. The chain that starts from one has numbers for accounts.
use Prim.Native.String.{String}
use text.Mathlib.Text.{◌==◌ as str_eq}
use text.Mathlib.TextEquality.{eq_iff}
use text.Mathlib.TextLemmas.{append_cancel_left}
use Prim.Native.String.{◌++◌ as str_append}
use qnch_chain.Prelude.{
  ℕ, ◌<◌, refl, true, some, ok, [], ◌∷◌, ℕ_discrete, arith, Bool-cases, inl, inr,
}
use qnch_chain.Frame.{Frame}
use qnch_chain.Frame.Sample.{RawOrigin, root, signed, list_frame}
use qnch_chain.Pallet.{Event, is_authorized, authorize, dispatch}
use qnch_chain.Runtime.Units.{u128_max}
use qnch_chain.Runtime.Ethereum.{Transaction, legacy, create, transact, Chain, EthereumPallet}
use qnch_chain.Runtime.SelfContained.{
  validate_self_contained, is_create, check_self_contained, pre_dispatch_self_contained,
  apply_self_contained,
}
use qnch_chain.Node.ChainSpec.{
  Genesis, Keys, testnet_genesis, get_account_id_from_seed, get_collator_keys_from_seed,
}
use qnch_chain.Node.ChainSpec.Balances.{issued}
use qnch_chain.Node.ChainSpec.Specs.{IsValid}
use qnch_chain.Runtime.Lifecycle
use qnch_chain.Runtime.Lifecycle.{
  Dispatcher, System, Signed, called, control_call, submit, execute_signed, Reach, start, later,
}
use qnch_chain.Node.ChainSpec.Deployers.{at_genesis}

-- Accounts 3 and 5 are endowed; 3 is the only collator, with the key 30.
abbrev genesis : Genesis ℕ ℕ
genesis = testnet_genesis 4 ((3, 30) ∷ []) (3 ∷ 5 ∷ []) 3 2000

-- The genesis issues more than a u128 balance can hold.
overflow : u128_max < issued genesis
unfolding testnet_genesis
overflow = omega arith

abbrev keys : Keys String String ℕ String String
keys = record {
  from_string = λ s. some s;
  public = λ p. p;
  into_account = λ k. k;
  aura_from_string = λ s. some s;
  aura_public = λ p. p;
  wasm_binary = some 77;
  xcm_version = 4;
}

string_discrete : Discrete String
string_discrete s t = elim (Bool-cases (str_eq s t)) [
  | inl e ↦ yes (ground (arith, eq_iff s t))
  | inr e ↦ no (λ h. ground (arith, eq_iff s t))
]

-- `wasm_binary` is there and every text is a seed.
keys-IsValid : IsValid keys string_discrete (λ s. str_append "//" s) (λ s. str_append "//" s)
unfolding get_account_id_from_seed get_collator_keys_from_seed
keys-IsValid = record {
  accounts = λ s. refl;
  collators = λ s. refl;
  distinct = λ s t e. append_cancel_left "//" s t e;
}

abbrev F : Frame ℕ_discrete (Event ℕ)
F = list_frame ℕ_discrete (Event ℕ)

-- `pallet_ethereum` gives every call the validity 7.
abbrev accepting : EthereumPallet (Chain F (Unit {0})) ℕ (Unit {0}) (Unit {0}) ℕ (Unit {0})
accepting = record {
  is_self_contained = λ c. true;
  check_self_contained = λ c s. some (ok 5);
  validate_self_contained = λ c info d len s. some (ok 7);
  pre_dispatch_self_contained = λ c info d len s. some (ok tt);
}

abbrev creation : Transaction ℕ (Unit {0})
creation = legacy (record { action = create; rest = tt })

-- A dispatch that does nothing.
abbrev idle : Dispatcher F ℕ (Unit {0}) (Unit {0}) (Unit {0})
idle = record {
  Origin = RawOrigin ℕ;
  Answer = Unit {0};
  dispatch_call = λ c o s. (tt, s);
  ethereum_transaction = signed;
  dispatch_call-deployers = λ c o s. refl;
}

abbrev started : Chain F (Unit {0})
started = at_genesis F accepting (λ h. h) (Unit {0}) genesis [] tt

abbrev Sys : Type 0
Sys = System F ℕ (Unit {0}) (Unit {0})

abbrev Leads : Sys → Sys → Type 0
Leads = Reach F accepting (λ h. h) idle

abbrev deploy : Signed ℕ (Unit {0})
deploy = record { payload = transact creation; info = 5 }

abbrev granted : Chain F (Unit {0})
granted = called F root (authorize 5) started

abbrev deployed : Sys
deployed = record { chain = granted; pool = deploy ∷ []; executed = deploy ∷ [] }

-- Root authorizes an account, which then creates a contract.
trial : Leads (Lifecycle.genesis F started) deployed
unfolding validate_self_contained is_create check_self_contained pre_dispatch_self_contained
    apply_self_contained is_authorized dispatch ℕ_discrete qnch_chain.Pallet.build
    qnch_chain.Node.ChainSpec.deployment_control_config
trial =
    later (later (later start (control_call root (authorize 5))) (submit deploy tt 0 7 refl refl))
      (execute_signed [] deploy [] tt 0 tt granted refl refl refl)
