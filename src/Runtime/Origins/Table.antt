-- ===== src/Runtime/Origins/Table.antt =====
-- Which origin a message has, by the place that sent it.
use qnch_chain.Prelude.{◌≡◌, refl, ap, ◌∙◌, Option, none, some, List, ◌∷◌, Result, ok, err}
use qnch_chain.Runtime.Origins.{
  Place, parent, sibling, local_account, elsewhere, OriginKind, native, sovereign_account,
  superuser, xcm, Origin, signed, relay, sibling_para, pallet_xcm, parent_of, sibling_of,
  account_of, mapped, or_else, when_native, when_sovereign, when_xcm, try_next, ok_or,
  ConvertOrigin, Converters, location_to_account_id, xcm_origin_to_transact_dispatch_origin,
}

module _ {Location AccountId : Type 0} (C : Converters Location AccountId) where
  -- The account of a place, and its origin by kind.
  abbrev pub account_at : Place AccountId → Option AccountId
  account_at parent = some C.parent_account
  account_at (sibling n) = some (C.sibling_account n)
  account_at (local_account a) = some a
  account_at elsewhere = none

  abbrev pub native_at : Place AccountId → Option (Origin Location AccountId)
  native_at parent = some relay
  native_at (sibling n) = some (sibling_para n)
  native_at (local_account a) = some (signed a)
  native_at elsewhere = none

  abbrev pub origin_at :
      Location → Place AccountId → OriginKind → Option (Origin Location AccountId)
  origin_at l p native = native_at p
  origin_at l p sovereign_account = mapped signed (account_at p)
  origin_at l p superuser = none
  origin_at l p xcm = some (pallet_xcm l)

  first_account :
      (p : Place AccountId)
      → or_else
          (parent_of C.parent_account p)
          (or_else (sibling_of C.sibling_account p) (or_else (account_of p) none))
        ≡ account_at p
  first_account parent = refl
  first_account (sibling n) = refl
  first_account (local_account a) = refl
  first_account elsewhere = refl

  pub location_to_account_id-account_at :
      (l : Location) → location_to_account_id C l ≡ account_at (C.place l)
  unfolding location_to_account_id
  location_to_account_id-account_at l =
      rw
        (
          C.any_location-cons,
          C.any_location-cons,
          C.any_location-cons,
          C.any_location-nil,
          C.parent_is_preset-place l,
          C.sibling_parachain_converts_via-place l,
          C.account_id32_aliases-place l,
        )
        (first_account (C.place l))

  -- One member of the tuple, which gives the location back where it does not convert.
  abbrev or_ok :
      Option (Origin Location AccountId)
      → Result (Origin Location AccountId) Location
      → Result (Origin Location AccountId) Location
  or_ok none r = r
  or_ok (some o) r = ok o

  tried :
      (o : Option (Origin Location AccountId)) (l : Location)
      (next : Location → Result (Origin Location AccountId) Location)
      → try_next (ok_or o l) next ≡ or_ok o (next l)
  tried none l next = refl
  tried (some o) l next = refl

  member :
      (c : ConvertOrigin Location AccountId) (cs : List (ConvertOrigin Location AccountId))
      (l : Location) (k : OriginKind) (o : Option (Origin Location AccountId))
      → c l k ≡ ok_or o l
      → C.any_origin (c ∷ cs) l k ≡ or_ok o (C.any_origin cs l k)
  member c cs l k o h =
      C.any_origin-cons c cs l k
      ∙ ap (λ r. try_next r (λ m. C.any_origin cs m k)) h
      ∙ tried o l (λ m. C.any_origin cs m k)

  first_origin :
      (l : Location) (p : Place AccountId) (k : OriginKind)
      → or_ok (when_sovereign k (mapped signed (account_at p))) (
          or_ok (when_native k (parent_of relay p)) (
            or_ok (when_native k (sibling_of sibling_para p)) (
              or_ok
                (when_native k (mapped signed (account_of p)))
                (or_ok (when_xcm k (some (pallet_xcm l))) (err l)))))
        ≡ ok_or (origin_at l p k) l
  first_origin l parent native = refl
  first_origin l (sibling n) native = refl
  first_origin l (local_account a) native = refl
  first_origin l elsewhere native = refl
  first_origin l parent sovereign_account = refl
  first_origin l (sibling n) sovereign_account = refl
  first_origin l (local_account a) sovereign_account = refl
  first_origin l elsewhere sovereign_account = refl
  first_origin l p superuser = refl
  first_origin l p xcm = refl

  -- The origin of a message by the place that sent it and the kind that it asks for. A native
  -- origin is that of the relay chain, of the parachain, or the signed origin of the account; a
  -- sovereign one is the signed origin of the account of that place; other places have neither.
  -- For the kind of XCM it is the location itself, wherever it is, and for a superuser there is
  -- none.
  pub xcm_origin-origin_at :
      (l : Location) (k : OriginKind)
      → xcm_origin_to_transact_dispatch_origin C l k ≡ ok_or (origin_at l (C.place l) k) l
  unfolding xcm_origin_to_transact_dispatch_origin
  xcm_origin-origin_at l k =
      member _ _ l k (when_sovereign k (mapped signed (account_at (C.place l)))) (
        C.sovereign_signed-of (location_to_account_id C) l k
        ∙ ap (λ a. ok_or (when_sovereign k (mapped signed a)) l)
            (location_to_account_id-account_at l))
      ∙ ap (or_ok _) (
          member _ _ l k _ (C.relay_chain-of relay l k)
          ∙ ap (or_ok _) (
              member _ _ l k _ (C.sibling_parachain-of l k)
              ∙ ap (or_ok _) (
                  member _ _ l k _ (C.signed_account-of l k)
                  ∙ ap (or_ok _) (
                      member _ _ l k _ (C.xcm_passthrough-of l k)
                      ∙ ap (or_ok _) (C.any_origin-nil l k)))))
      ∙ first_origin l (C.place l) k
