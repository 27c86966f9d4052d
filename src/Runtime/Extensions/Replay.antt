-- ===== src/Runtime/Extensions/Replay.antt =====
-- Why a signed extrinsic is applied once, by `SignedExtra` of parachain/runtime/src/lib.rs.
use qnch_chain.Prelude.{
  ℕ, ◌+◌, ◌≤◌, ◌<◌, ◌%◌, ◌^◌, ◌≡◌, ◌≢◌, sym, ap, ◌∙◌, List, [], ◌∷◌, ◌++◌, ok, All, arith,
}
use qnch_chain.Runtime.Extensions.{Extension, Keeps, pre_dispatch_all, Extensions, signed_extra}
use qnch_chain.Runtime.Extensions.Fees.{and_then-passed, All-Keeps, pre_dispatch_all-append}

module _ {Who Call Era S V X Balances : Type 0} (C : Extensions Who Call Era S V X Balances) where
  -- The checks before that of the nonce, and behind it.
  abbrev before_nonce : Era → List (Extension Who Call S V X)
  before_nonce era =
      C.check_non_zero_sender
      ∷ C.check_spec_version
      ∷ C.check_tx_version
      ∷ C.check_genesis
      ∷ C.check_era era
      ∷ []

  abbrev after_nonce : ℕ → List (Extension Who Call S V X)
  after_nonce tip =
      C.check_weight ∷ C.charge_transaction_payment tip ∷ C.storage_weight_reclaim ∷ []

  before-nonce : (era : Era) → All (Keeps C.nonce_of) (before_nonce era)
  before-nonce era = (
    C.check_non_zero_sender-nonce_of,
    (
      C.check_spec_version-nonce_of,
      (C.check_tx_version-nonce_of, (C.check_genesis-nonce_of, (C.check_era-nonce_of era, tt))),
    ),
  )

  after-nonce : (tip : ℕ) → All (Keeps C.nonce_of) (after_nonce tip)
  after-nonce tip = (
    C.check_weight-nonce_of,
    (C.charge_transaction_payment-nonce_of tip, (C.storage_weight_reclaim-nonce_of, tt)),
  )

  -- An extrinsic that passes has the nonce of its account, which is increased.
  signed_extra-nonce_of :
      (era : Era) (nonce tip : ℕ) (who : Who) (call : Call) (s : S)
      → let (r, t) = (signed_extra C era nonce tip).pre_dispatch who call s in
        r ≡ ok tt → (C.nonce_of s who ≡ nonce) × (C.nonce_of t who ≡ (nonce + 1) % 2 ^ 32)
  unfolding signed_extra
  signed_extra-nonce_of era nonce tip who call s h =
      let whole =
        C.tuple-pre_dispatch (before_nonce era ++ C.check_nonce nonce ∷ after_nonce tip) who call s
        ∙ pre_dispatch_all-append (before_nonce era) (C.check_nonce nonce ∷ after_nonce tip) who
            call s in
      let first = pre_dispatch_all (before_nonce era) who call s in
      let (p, q, e) =
        and_then-passed first (pre_dispatch_all (C.check_nonce nonce ∷ after_nonce tip) who call)
          (ap (λ a. a.0) (sym whole) ∙ h) in
      let counted = (C.check_nonce nonce).pre_dispatch who call first.1 in
      let (p', q', e') = and_then-passed counted (pre_dispatch_all (after_nonce tip) who call) q in
      let (was, now) = C.check_nonce-ok nonce who call first.1 p' in
      (
        ap (λ f. f who)
              (sym (All-Keeps C.nonce_of (before_nonce era) (before-nonce era) who call s))
            ∙ was,
        ap (λ a. C.nonce_of a.1 who) (whole ∙ e ∙ e')
            ∙ ap (λ f. f who)
                (All-Keeps C.nonce_of (after_nonce tip) (after-nonce tip) who call counted.1)
            ∙ now,
      )

  -- After an extrinsic of an account has passed the checks, no extrinsic of this account with the same
  -- nonce passes again, whatever its call, era and tip, on any storage in which the nonce of the account
  -- has not become smaller. This holds for all nonces but the last of u32.
  pub signed_extra-once :
      (era era' : Era) (nonce tip tip' : ℕ) (who : Who) (call call' : Call) (s u : S)
      → nonce + 1 < 2 ^ 32
      → ((signed_extra C era nonce tip).pre_dispatch who call s).0 ≡ ok tt
      → C.nonce_of ((signed_extra C era nonce tip).pre_dispatch who call s).1 who ≤ C.nonce_of u who
      → ((signed_extra C era' nonce tip').pre_dispatch who call' u).0 ≢ ok tt
  signed_extra-once era era' nonce tip tip' who call call' s u bound passed grown again =
      let (was, now) = signed_extra-nonce_of era nonce tip who call s passed in
      let (is, next) = signed_extra-nonce_of era' nonce tip' who call' u again in omega arith
