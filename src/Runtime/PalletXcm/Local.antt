-- ===== src/Runtime/PalletXcm/Local.antt =====
-- What root and the accounts of this chain may do with the calls of pallet_xcm, as
-- parachain/runtime/src/configs/xcm.rs configures them.
use qnch_chain.Prelude.{
  ◌≡◌, ◌≢◌, ◌↔◌, ◌⊎◌, refl, sym, ap, ◌∙◌, inl, inr, true, some, List, Result, ok, err, arith,
  Result-cases, Option-cases, if◌then◌else◌,
}
use qnch_chain.Runtime.Origins.{
  Converters, native, sovereign_account, signed, mapped, ok_or, try_next,
  xcm_origin_to_transact_dispatch_origin,
}
use qnch_chain.Runtime.Origins.Table.{
  xcm_origin-origin_at, location_to_account_id-account_at, account_at, origin_at,
}
use qnch_chain.Runtime.Assets.{Asset}
use qnch_chain.Runtime.Router.{Senders, SendError, TakenAt, xcm_router, xcm_router-TakenAt}
use qnch_chain.Runtime.PalletXcm.{
  LocalOrigins, PalletXcmConfig, pallet_xcm_config, XcmPallet, delivered,
}

module _ {O L A M Ticket X : Type 0} (C : Converters L A) (N : LocalOrigins O L A C.place)
    (T : Senders L M Ticket X A) where
  abbrev config : PalletXcmConfig O L A M Ticket X
  config = pallet_xcm_config C N T

  -- The origin stands for this location.
  abbrev pub StandsFor : O → L → Type 0
  StandsFor o l =
      ((a : A) × (N.signer o ≡ some a) × (l ≡ N.account_location a))
      ⊎ ((N.is_root o ≡ true) × (l ≡ N.here))

  checked :
      (o : O)
      → config.send_xcm_origin o
        ≡ try_next
            (ok_or (mapped N.account_location (N.signer o)) o)
            (λ p. if N.is_root p then ok N.here else err p)
  checked o = rw (N.ensure_xcm_origin-of, N.signed_to_account_id32-signer) refl

  pub send_xcm_origin_iff : (o : O) (l : L) → (config.send_xcm_origin o ≡ ok l) ↔ StandsFor o l
  send_xcm_origin_iff o l = elim (Option-cases (N.signer o)) [
    | inl unsigned ↦ rw (checked o) (ground arith)
    | inr (a, at) ↦ let other = N.signer-is_root o a at in rw (checked o) (ground arith)
  ]

  inside : (o : O) (l : L) → StandsFor o l → (l ≡ N.here) ⊎ ((a : A) × (l ≡ N.account_location a))
  inside o l (inl (a, at, e)) = inr (a, e)
  inside o l (inr (root, e)) = inl e

  -- An account is who it says it is: the location that an origin signed by an account stands for
  -- belongs to this account again, and a message from there has the signed origin of the account,
  -- whether it asks for a native or for a sovereign one.
  pub signed-location :
      (o : O) (a : A)
      → N.signer o ≡ some a
      → (l : L) × (config.execute_xcm_origin o ≡ ok l)
        × (config.sovereign_account_of l ≡ some a)
        × (xcm_origin_to_transact_dispatch_origin C l native ≡ ok (signed a))
        × (xcm_origin_to_transact_dispatch_origin C l sovereign_account ≡ ok (signed a))
  signed-location o a at =
      let l = N.account_location a in
      let here = N.place-account_location a in
      (
        l,
        (send_xcm_origin_iff o l).1 (inl (a, at, refl)),
        location_to_account_id-account_at C l ∙ ap (account_at C) here,
        xcm_origin-origin_at C l native ∙ ap (λ p. ok_or (origin_at C l p native) l) here,
        xcm_origin-origin_at C l sovereign_account
            ∙ ap (λ p. ok_or (origin_at C l p sovereign_account) l) here,
      )

  module _ {G Error : Type 0} (V : XcmPallet N M Ticket X G Error) where
    was_taken :
        (l : L) (q : Result Ticket (SendError X)) (s u : G)
        → (delivered V.unsent (V.deliver l) q s ≡ (ok tt, u))
          ↔ ((t : Ticket) × (q ≡ ok t) × (V.deliver l t s ≡ (ok tt, u)))
    was_taken l (ok t) s u =
        (λ h. (t, refl, h), λ (t', e, h). (let same : t ≡ t' = cc in rw same h))
    was_taken l (err x) s u = (λ h. cc, λ (t', e, h). cc)

    sent :
        (o : O) (l dest : L) (m : M) (s u : G)
        → StandsFor o l
        → (V.send config o dest m s ≡ (ok tt, u)) ↔ (
            (t : Ticket) × TakenAt T (T.place dest) dest (V.behind l m) t
            × (V.deliver l t s ≡ (ok tt, u)))
    sent o l dest m s u who =
        let from = (send_xcm_origin_iff o l).1 who in
        let routed = was_taken l (xcm_router T dest (V.behind l m)) s u in
        let taken = xcm_router-TakenAt T dest (V.behind l m) in
        rw (V.send-delivered config o l dest m s from (inside o l who)) (
          λ h. (let (t, e, given) = routed.0 h in (t, (taken t).0 e, given)),
          λ (t, e, given). routed.1 (t, (taken t).1 e, given),
        )

    -- A message can be sent by root and by any account, and by no other origin. It is sent exactly if
    -- it goes to the relay chain or to a parachain beside this one, the queue for these takes it behind
    -- the location of who has sent it, and is delivered, with what this does to the storage.
    pub send_iff :
        (o : O) (dest : L) (m : M) (s u : G)
        → (V.send config o dest m s ≡ (ok tt, u)) ↔ (
            (l : L) × (t : Ticket) × StandsFor o l
            × TakenAt T (T.place dest) dest (V.behind l m) t
            × (V.deliver l t s ≡ (ok tt, u)))
    send_iff o dest m s u = (
      λ h. elim (Result-cases (config.send_xcm_origin o)) [
        | inl (l, from) ↦
            let who = (send_xcm_origin_iff o l).0 from in
            let (t, taken, given) = (sent o l dest m s u who).0 h in (l, t, who, taken, given)
        | inr (p, no_one) ↦ (let e = sym (V.send-refused config o p dest m s no_one) ∙ h in cc)
      ],
      λ (l, t, who, taken, given). (sent o l dest m s u who).1 (t, taken, given),
    )

    -- No origin may execute a message on this chain, or transfer assets with a reserve: both calls
    -- fail, whatever they are given.
    pallet_xcm_config-refused :
        (o : O) (m : M) (dest beneficiary : L) (assets : List (Asset L)) (s : G)
        → ((V.execute config o m s).0 ≢ ok tt)
          × ((V.limited_reserve_transfer_assets config o dest beneficiary assets s).0 ≢ ok tt)
    pallet_xcm_config-refused o m dest beneficiary assets s = (
      λ h. (let (l, from, passed) = V.execute-ok config o m s h in cc),
      λ h.
          (let (l, from, passed) =
              V.limited_reserve_transfer_assets-ok config o dest beneficiary assets s h in
            cc),
    )
