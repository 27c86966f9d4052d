-- ===== src/Runtime/Gates.antt =====
-- What the deployment gates of the runtime let through, and what passes beside them.
use qnch_chain.Prelude.{
  ◌||◌, not, ℕ, ◌≡◌, ◌↔◌, ◌⊎◌, refl, Bool, true, false, none, some, ok, err, arith, inl, inr,
  if◌then◌else◌, Result-cases, Bool-cases,
}
use qnch_chain.Frame.{Frame}
use qnch_chain.Pallet
use qnch_chain.Pallet.{Event, is_authorized, authorize_deployer, revoke_deployer}
use qnch_chain.Pallet.Whitelist.{is_authorized-authorize_deployer, is_authorized-revoke_deployer}
use qnch_chain.Runtime.Ethereum.{
  Transaction, EthereumCall, transact, other_call, Chain, EthereumPallet,
}
use qnch_chain.Runtime.SelfContained.{
  RuntimeCall, ethereum, evm_deployment_control, other, is_create, unauthorized,
  validate_self_contained, pre_dispatch_self_contained, apply_self_contained,
}
use qnch_chain.Runtime.DeploymentControl.{on_create, try_address_origin}

-- Whether a call creates a contract.
abbrev pub creates : {H Rest : Type 0} → EthereumCall H Rest → Bool
creates (transact t) = is_create t
creates other_call = false

module _ {A H Rest W : Type 0} {dec : Discrete A} (F : Frame dec (Event A))
    (into_account_id : H → A) where
  -- The rule of the chain: who creates a contract is authorized.
  abbrev pub may_run : EthereumCall H Rest → H → Chain F W → Bool
  may_run c info s = not (creates c) || is_authorized F (into_account_id info) s.control

module _ {A H Rest D V X W : Type 0} {dec : Discrete A} (F : Frame dec (Event A))
    (E : EthereumPallet (Chain F W) H Rest D V X) (into_account_id : H → A) (Other : Type 0) where
  abbrev Call : Type 0
  Call = RuntimeCall A H Rest Other

  -- The call is an Ethereum call that the standard validation accepts with `v`, and it may run.
  abbrev pub Passes : Call → H → D → ℕ → Chain F W → V → Type 0
  Passes (ethereum c) info d len s v =
      (E.validate_self_contained c info d len s ≡ some (ok v))
      × (may_run F into_account_id c info s ≡ true)
  Passes (evm_deployment_control c) info d len s v = ⊥
  Passes (other c) info d len s v = ⊥

  -- A call passes the runtime's validation, with a given validity, exactly when it is an Ethereum
  -- call that passes that of `pallet_ethereum` with the same validity and, if it creates a contract,
  -- the account of its sender is authorized.
  pub validate_ok_iff :
      (c : Call) (info : H) (d : D) (len : ℕ) (s : Chain F W) (v : V)
      → (validate_self_contained F E into_account_id c info d len s ≡ some (ok v))
        ↔ Passes c info d len s v
  unfolding validate_self_contained
  validate_ok_iff (ethereum (transact t)) info d len s v = ground arith
  validate_ok_iff (ethereum other_call) info d len s v = ground arith
  validate_ok_iff (evm_deployment_control c) info d len s v = ground arith
  validate_ok_iff (other c) info d len s v = ground arith

  -- Validation rejects with the custom code 0 of the deployment check exactly when the standard
  -- validation does so itself, or it accepts a contract creation by an account that is not
  -- authorized.
  pub validate_unauthorized_iff :
      (c : EthereumCall H Rest) (info : H) (d : D) (len : ℕ) (s : Chain F W)
      → (validate_self_contained {Other = Other} F E into_account_id (ethereum c) info d len s
          ≡ some (err unauthorized))
        ↔ ((E.validate_self_contained c info d len s ≡ some (err unauthorized))
            ⊎ ((v : V) × (E.validate_self_contained c info d len s ≡ some (ok v))
                × (creates c ≡ true)
                × (is_authorized F (into_account_id info) s.control ≡ false)))
  unfolding validate_self_contained
  validate_unauthorized_iff (transact t) info d len s = ground arith
  validate_unauthorized_iff other_call info d len s = ground arith

  -- For a creation that the standard validation accepts, the three gates decide alike, by the
  -- authorization of the sender's account alone.
  gates_agree :
      (t : Transaction H Rest) (info contract : H) (d : D) (len : ℕ) (s : Chain F W) (v : V)
      → is_create t ≡ true
      → E.validate_self_contained (transact t) info d len s ≡ some (ok v)
      → let account = into_account_id info in
        let known = is_authorized F account s.control in
        (validate_self_contained {Other = Other} F E into_account_id
            (ethereum (transact t))
            info
            d
            len
            s
          ≡ some (if known then ok v else err unauthorized))
        × (on_create F into_account_id info contract s.control ≡ (if known then some tt else none))
        × (try_address_origin F into_account_id info (F.signed account) s.control
            ≡ (if known then ok account else err (F.signed account)))
  unfolding validate_self_contained on_create try_address_origin
  gates_agree t info contract d len s v c h =
      ground (arith, F.ensure_signed-signed (into_account_id info))

  -- The deployment check stands in validation only. A contract creation by an account that is not
  -- authorized, which `pallet_ethereum` accepts for validation and for dispatch, is refused by
  -- validation, and yet passes the pre-dispatch check and is dispatched: whoever puts it into a
  -- block without validating it has it run.
  pub pre_dispatch-unauthorized :
      {Origin S R : Type 0} (dispatch : Call → Origin → S → R × S) (origin : H → Origin) (u : S)
      (t : Transaction H Rest) (info : H) (d : D) (len : ℕ) (s : Chain F W) (v : V)
      → is_create t ≡ true
      → is_authorized F (into_account_id info) s.control ≡ false
      → E.validate_self_contained (transact t) info d len s ≡ some (ok v)
      → E.pre_dispatch_self_contained (transact t) info d len s ≡ some (ok tt)
      → let c : Call = ethereum (transact t) in
        (validate_self_contained F E into_account_id c info d len s ≡ some (err unauthorized))
        × (pre_dispatch_self_contained F E into_account_id c info d len s ≡ some (ok tt))
        × (apply_self_contained dispatch origin c info u ≡ some (dispatch c (origin info) u))
  unfolding validate_self_contained pre_dispatch_self_contained apply_self_contained
  pre_dispatch-unauthorized dispatch origin u t info d len s v c a h p = (ground arith, p, refl)

  -- Whatever the whitelist was, a creation that the standard validation accepts is accepted after
  -- root has called `authorize_deployer` for the account of its sender, and refused with the code of
  -- the deployment check after root has called `revoke_deployer` for it.
  validate-dispatch :
      (t : Transaction H Rest) (info : H) (d : D) (len : ℕ) (s : Chain F W) (v : V)
      → is_create t ≡ true
      → let granted = record s {
        control = (authorize_deployer F F.root (into_account_id info) s.control).1;
      } in
        E.validate_self_contained (transact t) info d len granted ≡ some (ok v)
        → let revoked = record s {
          control = (revoke_deployer F F.root (into_account_id info) s.control).1;
        } in
          E.validate_self_contained (transact t) info d len revoked ≡ some (ok v)
          → let c : Call = ethereum (transact t) in
            (validate_self_contained F E into_account_id c info d len (record s {
              control = (authorize_deployer F F.root (into_account_id info) s.control).1;
            })
              ≡ some (ok v))
            × (validate_self_contained F E into_account_id c info d len (record s {
              control = (revoke_deployer F F.root (into_account_id info) s.control).1;
            })
                ≡ some (err unauthorized))
  validate-dispatch t info d len s v c g r =
      let account = into_account_id info in
      let granted = is_authorized-authorize_deployer F account s.control in
      let revoked = is_authorized-revoke_deployer F account s.control in
      (
        (validate_ok_iff (ethereum (transact t)) info d len _ v).1 (g, ground arith),
        (validate_unauthorized_iff (transact t) info d len _).1 (inr (v, r, c, revoked)),
      )

module _ {A H : Type 0} {dec : Discrete A} (F : Frame dec (Event A)) (into_account_id : H → A) where
  -- What the origin check asks for.
  abbrev pub IsGranted : H → F.Origin → Pallet.State F → A → Type 0
  IsGranted address origin s who =
      (F.ensure_signed origin ≡ ok who)
      × (who ≡ into_account_id address)
      × (is_authorized F who s ≡ true)

  -- The origin check either succeeds, for a signed origin whose signer is the account of the address
  -- and is authorized, and returns that signer; or no account meets these conditions, and it hands
  -- the origin back as it was.
  pub try_address_origin_cases :
      (address : H) (origin : F.Origin) (s : Pallet.State F)
      → ((who : A) × IsGranted address origin s who
          × (try_address_origin F into_account_id address origin s ≡ ok who))
        ⊎ (((who : A) → ¬ IsGranted address origin s who)
            × (try_address_origin F into_account_id address origin s ≡ err origin))
  unfolding try_address_origin
  try_address_origin_cases address origin s = elim (Result-cases (F.ensure_signed origin)) [
    | inr (e, p) ↦ inr (λ who h. ground arith, ground arith)
    | inl (w, p) ↦ elim (dec w (into_account_id address)) [
      | no q ↦ inr (λ who h. ground arith, ground arith)
      | yes q ↦ elim (Bool-cases (is_authorized F w s)) [
        | inl a ↦ inl (w, (p, q, a), ground arith)
        | inr a ↦ inr (λ who h. ground arith, ground arith)
      ]
    ]
  ]
