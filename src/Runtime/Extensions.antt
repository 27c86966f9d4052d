-- ===== src/Runtime/Extensions.antt =====
-- parachain/runtime/src/lib.rs: `SignedExtra`, the checks of a signed extrinsic. The checks, and what
-- a tuple of them does, come from other crates, with what is documented of them: all checks have a
-- turn in order, and the first that refuses ends it.
pub mod Fees
pub mod Replay
use qnch_chain.Prelude.{ℕ, ◌+◌, ◌%◌, ◌^◌, ◌≡◌, ◌≢◌, List, [], ◌∷◌, Result, ok, err, and_then}

-- `SignedExtension`, by its two methods that may refuse an extrinsic: `who` signs a call, and the
-- storage is read, and changed before the dispatch.
pub record Extension (Who Call S V X : Type 0) : Type 0 where
  pub validate : Who → Call → S → Result V X
  pub pre_dispatch : Who → Call → S → Result (Unit {0}) X × S

-- What one member of a tuple and the next ones say of the validity.
abbrev pub validate_next :
    {V X : Type 0} → (V → V → V) → Result V X → (V → Result V X) → V → Result V X
validate_next combine (ok v) next valid = next (combine valid v)
validate_next combine (err x) next valid = err x

module _ {Who Call S V X : Type 0} where
  -- The extension at this call keeps a part of the storage.
  abbrev pub Keeps : {P : Type 0} → (S → P) → Extension Who Call S V X → Type 0
  Keeps part e = (who : Who) (call : Call) (s : S) → part (e.pre_dispatch who call s).1 ≡ part s

  abbrev pub validate_all :
      (V → V → V) → List (Extension Who Call S V X) → Who → Call → S → V → Result V X
  validate_all combine [] who call s valid = ok valid
  validate_all combine (e ∷ es) who call s valid =
      validate_next combine (e.validate who call s) (validate_all combine es who call s) valid

  abbrev pub pre_dispatch_all :
      List (Extension Who Call S V X) → Who → Call → S → Result (Unit {0}) X × S
  pre_dispatch_all [] who call s = (ok tt, s)
  pre_dispatch_all (e ∷ es) who call s =
      and_then (e.pre_dispatch who call s) (pre_dispatch_all es who call)

-- The checks of the other crates, with what they are given in the extrinsic: the era, the nonce and the
-- tip. Of the storage, the nonces of the accounts and their balances matter here. Only the check of the
-- nonce changes nonces: it passes for the nonce of the account, which it increases, on u32. Only the
-- payment changes balances, unless it refuses. The reclaim of storage weight refuses nothing.
pub record Extensions (Who Call Era S V X Balances : Type 0) : Type 1 where
  pub nonce_of : S → Who → ℕ
  pub balances : S → Balances
  pub combine_with : V → V → V
  pub default : V
  pub tuple : List (Extension Who Call S V X) → Extension Who Call S V X
  pub tuple-validate :
      (es : List (Extension Who Call S V X)) (who : Who) (call : Call) (s : S)
      → (tuple es).validate who call s ≡ validate_all combine_with es who call s default
  pub tuple-pre_dispatch :
      (es : List (Extension Who Call S V X)) (who : Who) (call : Call) (s : S)
      → (tuple es).pre_dispatch who call s ≡ pre_dispatch_all es who call s
  pub check_non_zero_sender : Extension Who Call S V X
  pub check_spec_version : Extension Who Call S V X
  pub check_tx_version : Extension Who Call S V X
  pub check_genesis : Extension Who Call S V X
  pub check_era : Era → Extension Who Call S V X
  pub check_nonce : ℕ → Extension Who Call S V X
  pub check_weight : Extension Who Call S V X
  pub charge_transaction_payment : ℕ → Extension Who Call S V X
  pub storage_weight_reclaim : Extension Who Call S V X
  pub check_non_zero_sender-nonce_of : Keeps nonce_of check_non_zero_sender
  pub check_spec_version-nonce_of : Keeps nonce_of check_spec_version
  pub check_tx_version-nonce_of : Keeps nonce_of check_tx_version
  pub check_genesis-nonce_of : Keeps nonce_of check_genesis
  pub check_era-nonce_of : (era : Era) → Keeps nonce_of (check_era era)
  pub check_weight-nonce_of : Keeps nonce_of check_weight
  pub charge_transaction_payment-nonce_of :
      (tip : ℕ) → Keeps nonce_of (charge_transaction_payment tip)
  pub storage_weight_reclaim-nonce_of : Keeps nonce_of storage_weight_reclaim
  pub check_nonce-ok :
      (n : ℕ) (who : Who) (call : Call) (s : S)
      → ((check_nonce n).pre_dispatch who call s).0 ≡ ok tt
      → (nonce_of s who ≡ n)
        × (nonce_of ((check_nonce n).pre_dispatch who call s).1 who ≡ (n + 1) % 2 ^ 32)
  pub check_non_zero_sender-balances : Keeps balances check_non_zero_sender
  pub check_spec_version-balances : Keeps balances check_spec_version
  pub check_tx_version-balances : Keeps balances check_tx_version
  pub check_genesis-balances : Keeps balances check_genesis
  pub check_era-balances : (era : Era) → Keeps balances (check_era era)
  pub check_nonce-balances : (n : ℕ) → Keeps balances (check_nonce n)
  pub check_weight-balances : Keeps balances check_weight
  pub storage_weight_reclaim-balances : Keeps balances storage_weight_reclaim
  pub charge_transaction_payment-err :
      (tip : ℕ) (who : Who) (call : Call) (s : S) (x : X)
      → ((charge_transaction_payment tip).pre_dispatch who call s).0 ≡ err x
      → balances ((charge_transaction_payment tip).pre_dispatch who call s).1 ≡ balances s
  pub storage_weight_reclaim-ok :
      (who : Who) (call : Call) (s : S) → (storage_weight_reclaim.pre_dispatch who call s).0 ≡ ok tt

module _ {Who Call Era S V X Balances : Type 0} (C : Extensions Who Call Era S V X Balances) where
  -- The checks that stand before the payment.
  abbrev pub before_payment : Era → ℕ → List (Extension Who Call S V X)
  before_payment era nonce =
      C.check_non_zero_sender
      ∷ C.check_spec_version
      ∷ C.check_tx_version
      ∷ C.check_genesis
      ∷ C.check_era era
      ∷ C.check_nonce nonce
      ∷ C.check_weight
      ∷ []

  -- `SignedExtra`
  unfoldable pub signed_extra : Era → ℕ → ℕ → Extension Who Call S V X
  signed_extra era nonce tip = C.tuple (
      C.check_non_zero_sender
      ∷ C.check_spec_version
      ∷ C.check_tx_version
      ∷ C.check_genesis
      ∷ C.check_era era
      ∷ C.check_nonce nonce
      ∷ C.check_weight
      ∷ C.charge_transaction_payment tip
      ∷ C.storage_weight_reclaim
      ∷ [])
