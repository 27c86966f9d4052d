-- ===== src/Runtime/UpdateOrigin/Message.antt =====
-- Which XCM messages may change the collators: the conversion of the origin in
-- parachain/runtime/src/configs/xcm.rs, followed by the check of the origin in configs/mod.rs.
use qnch_chain.Prelude.{
  ◌≡◌, ◌≢◌, ◌↔◌, ◌⊎◌, refl, sym, ap, ◌∙◌, inl, inr, Option, none, some, Result, ok, err,
}
use qnch_chain.Runtime.Origins
use qnch_chain.Runtime.Origins.{
  Place, parent, sibling, local_account, elsewhere, OriginKind, native, sovereign_account,
  superuser, xcm, signed, relay, sibling_para, pallet_xcm, ok_or, Converters,
  xcm_origin_to_transact_dispatch_origin,
}
use qnch_chain.Runtime.Origins.Table.{origin_at, xcm_origin-origin_at}
use qnch_chain.Runtime.UpdateOrigin
use qnch_chain.Runtime.UpdateOrigin.{collator_selection_update_origin, update_origin_ok_iff}

-- The location that an origin of the converters stands for.
abbrev pub location_of : {L A : Type 0} → Origins.Origin L A → Option L
location_of (signed a) = none
location_of relay = none
location_of (sibling_para n) = none
location_of (pallet_xcm l) = some l

-- The origins that the converters make, among those of the runtime: none is root, and one of
-- `pallet_xcm` stands for its location.
pub record Embedding {O L BodyId : Type 0} (U : UpdateOrigin.Origins O L BodyId) (A : Type 0)
    : Type 0 where
  pub into : Origins.Origin L A → O
  pub into-root : (o : Origins.Origin L A) → into o ≢ U.root
  pub into-location : (o : Origins.Origin L A) → U.xcm_location (into o) ≡ location_of o

module _ {O L BodyId A : Type 0} (U : UpdateOrigin.Origins O L BodyId) (C : Converters L A)
    (I : Embedding U A) (parent_location : L) (defense : BodyId) where
  abbrev voice : L
  voice = U.voice parent_location defense

  -- Some origin is made for the message, and it is accepted.
  abbrev pub MayUpdate : L → OriginKind → Type 0
  MayUpdate l k =
      (o : Origins.Origin L A) × (answer : Unit {0} ⊎ L) × (xcm_origin_to_transact_dispatch_origin C
          l k
        ≡ ok o)
      × (collator_selection_update_origin U parent_location defense (I.into o) ≡ ok answer)

  accepted-location :
      (o : Origins.Origin L A) (answer : Unit {0} ⊎ L)
      → collator_selection_update_origin U parent_location defense (I.into o) ≡ ok answer
      → location_of o ≡ some voice
  accepted-location o answer h =
      elim ((update_origin_ok_iff U parent_location defense (I.into o) answer).0 h) [
        | inl (root, e) ↦ absurd (I.into-root o root)
        | inr (at, e) ↦ sym (I.into-location o) ∙ at
      ]

  -- The location that stands in the origin of a message, if there is one.
  abbrev stands_for : Result (Origins.Origin L A) L → Option L
  stands_for (ok o) = location_of o
  stands_for (err l) = none

  only_xcm :
      (l : L) (p : Place A) (k : OriginKind)
      → stands_for (ok_or (origin_at C l p k) l) ≡ some voice
      → (l ≡ voice) × (k ≡ xcm)
  only_xcm l p xcm h = (cc, refl)
  only_xcm l p superuser h = cc
  only_xcm l parent native h = cc
  only_xcm l (sibling n) native h = cc
  only_xcm l (local_account a) native h = cc
  only_xcm l elsewhere native h = cc
  only_xcm l parent sovereign_account h = cc
  only_xcm l (sibling n) sovereign_account h = cc
  only_xcm l (local_account a) sovereign_account h = cc
  only_xcm l elsewhere sovereign_account h = cc

  -- An XCM message may change the collators exactly if it comes from the voice of the body `Defense`
  -- of the relay chain and asks for an origin of the kind `Xcm`: from there with another kind, and from
  -- anywhere else with whatever kind, no origin is made that is accepted.
  pub message-MayUpdate_iff : (l : L) (k : OriginKind) → MayUpdate l k ↔ ((l ≡ voice) × (k ≡ xcm))
  message-MayUpdate_iff l k = (
    λ (o, answer, made, h).
        only_xcm l (C.place l) k
          (ap stands_for (sym (xcm_origin-origin_at C l k) ∙ made) ∙ accepted-location o answer h),
    λ (at, kind). (
      pallet_xcm voice,
      inr voice,
      rw (at, kind) (xcm_origin-origin_at C voice xcm),
      (update_origin_ok_iff U parent_location defense (I.into (pallet_xcm voice)) (inr voice)).1
          (inr (I.into-location (pallet_xcm voice), refl)),
    ),
  )
