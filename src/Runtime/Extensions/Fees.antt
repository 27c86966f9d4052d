-- ===== src/Runtime/Extensions/Fees.antt =====
-- When `SignedExtra` of parachain/runtime/src/lib.rs takes a fee.
use qnch_chain.Prelude.{
  ℕ, ◌≡◌, refl, sym, ap, ◌∙◌, fun_ext, List, [], ◌∷◌, ◌++◌, Result, ok, err, and_then, All,
}
use qnch_chain.Runtime.Extensions.{
  Extension, Keeps, pre_dispatch_all, Extensions, before_payment, signed_extra,
}

module _ {S X : Type 0} where
  and_then-keeps :
      {P : Type 0} (part : S → P) (q : Result (Unit {0}) X × S) (next : S → Result (Unit {0}) X × S)
      → ((t : S) → part (next t).1 ≡ part t)
      → part (and_then q next).1 ≡ part q.1
  and_then-keeps part (ok u, t) next h = h t
  and_then-keeps part (err x, t) next h = refl

  and_then_assoc :
      (q : Result (Unit {0}) X × S) (next last : S → Result (Unit {0}) X × S)
      → and_then q (λ t. and_then (next t) last) ≡ and_then (and_then q next) last
  and_then_assoc (ok u, t) next last = refl
  and_then_assoc (err x, t) next last = refl

  -- Both have passed.
  pub and_then-passed :
      (q : Result (Unit {0}) X × S) (next : S → Result (Unit {0}) X × S)
      → (and_then q next).0 ≡ ok tt
      → (q.0 ≡ ok tt) × ((next q.1).0 ≡ ok tt) × (and_then q next ≡ next q.1)
  and_then-passed (ok u, t) next h = (refl, h, refl)
  and_then-passed (err x, t) next h = cc

  -- What follows keeps a part, and refuses nothing.
  and_then-last :
      {P : Type 0} (part : S → P) (q : Result (Unit {0}) X × S) (last : S → Result (Unit {0}) X × S)
      → ((t : S) → ((last t).0 ≡ ok tt) × (part (last t).1 ≡ part t))
      → ((and_then q last).0 ≡ q.0) × (part (and_then q last).1 ≡ part q.1)
  and_then-last part (ok u, t) last h = h t
  and_then-last part (err x, t) last h = (refl, refl)

module _ {Who Call S V X : Type 0} where
  -- Extensions of which each keeps a part of the storage keep it together.
  pub All-Keeps :
      {P : Type 0} (part : S → P) (es : List (Extension Who Call S V X))
      → All (Keeps part) es
      → (who : Who) (call : Call) (s : S) → part (pre_dispatch_all es who call s).1 ≡ part s
  All-Keeps part [] h who call s = refl
  All-Keeps part (e ∷ es) h who call s =
      and_then-keeps part (e.pre_dispatch who call s) (pre_dispatch_all es who call)
        (All-Keeps part es h.1 who call)
      ∙ h.0 who call s

  -- What stands behind others has its turn if these pass.
  pub pre_dispatch_all-append :
      (es fs : List (Extension Who Call S V X)) (who : Who) (call : Call) (s : S)
      → pre_dispatch_all (es ++ fs) who call s
        ≡ and_then (pre_dispatch_all es who call s) (pre_dispatch_all fs who call)
  pre_dispatch_all-append [] fs who call s = refl
  pre_dispatch_all-append (e ∷ es) fs who call s =
      ap (and_then (e.pre_dispatch who call s)) (fun_ext (pre_dispatch_all-append es fs who call))
      ∙ and_then_assoc (e.pre_dispatch who call s) _ _

module _ {Who Call Era S V X Balances : Type 0} (C : Extensions Who Call Era S V X Balances) where
  before-balances : (era : Era) (nonce : ℕ) → All (Keeps C.balances) (before_payment C era nonce)
  before-balances era nonce = (
    C.check_non_zero_sender-balances,
    (
      C.check_spec_version-balances,
      (
        C.check_tx_version-balances,
        (
          C.check_genesis-balances,
          (C.check_era-balances era, (C.check_nonce-balances nonce, (C.check_weight-balances, tt))),
        ),
      ),
    ),
  )

  -- The checks before the payment, then the payment.
  abbrev pub paid : Era → ℕ → ℕ → Who → Call → S → Result (Unit {0}) X × S
  paid era nonce tip who call s =
      and_then (pre_dispatch_all (before_payment C era nonce) who call s)
        ((C.charge_transaction_payment tip).pre_dispatch who call)

  reclaimed :
      (who : Who) (call : Call) (t : S)
      → let last = pre_dispatch_all (C.storage_weight_reclaim ∷ []) who call t in
        (last.0 ≡ ok tt) × (C.balances last.1 ≡ C.balances t)
  reclaimed who call t =
      let kept = C.storage_weight_reclaim-balances who call t in
      let passed = C.storage_weight_reclaim-ok who call t in
      let (ends, same) =
        and_then-last C.balances (C.storage_weight_reclaim.pre_dispatch who call t)
          (λ u. (ok tt, u)) (λ u. (refl, refl)) in
      (ends ∙ passed, same ∙ kept)

  signed_extra-paid :
      (era : Era) (nonce tip : ℕ) (who : Who) (call : Call) (s : S)
      → let (r, t) = (signed_extra C era nonce tip).pre_dispatch who call s in
        let (r', t') = paid era nonce tip who call s in (r ≡ r') × (C.balances t ≡ C.balances t')
  unfolding signed_extra
  signed_extra-paid era nonce tip who call s =
      let before = before_payment C era nonce in
      let reclaim = C.storage_weight_reclaim ∷ [] in
      let whole =
        C.tuple-pre_dispatch (before ++ C.charge_transaction_payment tip ∷ reclaim) who call s
        ∙ pre_dispatch_all-append before (C.charge_transaction_payment tip ∷ reclaim) who call s
        ∙ and_then_assoc (pre_dispatch_all before who call s) _
            (pre_dispatch_all reclaim who call) in
      let (r, t) =
        and_then-last C.balances (paid era nonce tip who call s) (pre_dispatch_all reclaim who call)
          (reclaimed who call) in
      (ap (λ p. p.0) whole ∙ r, ap (λ p. C.balances p.1) whole ∙ t)

  not_charged :
      (tip : ℕ) (who : Who) (call : Call) (s : S) (x : X) (q : Result (Unit {0}) X × S)
      → C.balances q.1 ≡ C.balances s
      → (and_then q ((C.charge_transaction_payment tip).pre_dispatch who call)).0 ≡ err x
      → C.balances (and_then q ((C.charge_transaction_payment tip).pre_dispatch who call)).1
        ≡ C.balances s
  not_charged tip who call s x (ok u, t) same h =
      C.charge_transaction_payment-err tip who call t x h ∙ same
  not_charged tip who call s x (err y, t) same h = same

  -- The payment for a signed extrinsic is the last check that may refuse. If one refuses, whichever, all
  -- balances are as they were. If none does, then the checks before the payment have passed and left
  -- the balances as they were, the payment has passed behind them, and the balances are those that it
  -- leaves.
  pub signed_extra-balances :
      (era : Era) (nonce tip : ℕ) (who : Who) (call : Call) (s : S)
      → let (r, t) = (signed_extra C era nonce tip).pre_dispatch who call s in
        let checked = pre_dispatch_all (before_payment C era nonce) who call s in
        let charged = (C.charge_transaction_payment tip).pre_dispatch who call checked.1 in
        ((x : X) → r ≡ err x → C.balances t ≡ C.balances s)
        × (r ≡ ok tt
            → (checked.0 ≡ ok tt)
              × (C.balances checked.1 ≡ C.balances s)
              × (charged.0 ≡ ok tt)
              × (C.balances t ≡ C.balances charged.1))
  signed_extra-balances era nonce tip who call s =
      let (answer, left) = signed_extra-paid era nonce tip who call s in
      let before = pre_dispatch_all (before_payment C era nonce) who call s in
      let kept =
        All-Keeps C.balances (before_payment C era nonce) (before-balances era nonce) who call s in
      (
        λ x h. left ∙ not_charged tip who call s x before kept (sym answer ∙ h),
        λ h.
            (let (passed, paid, same) =
                and_then-passed before ((C.charge_transaction_payment tip).pre_dispatch who call)
                  (sym answer ∙ h) in
              (passed, kept, paid, left ∙ ap (λ p. C.balances p.1) same)),
      )
