-- ===== src/Runtime/UpdateOrigin.antt =====
-- parachain/runtime/src/configs/mod.rs: `CollatorSelectionUpdateOrigin`, the origins that may change
-- the collators. The checks of origins come from frame_support, frame_system and pallet_xcm, with what
-- is documented of them.
pub mod Message
use qnch_chain.Prelude.{
  ◌≡◌, ◌↔◌, ◌⊎◌, inl, inr, Bool, true, Option, none, some, Result, ok, err, arith, if◌then◌else◌,
  Result-cases, refl,
}

-- `EnsureOrigin::try_origin`: what the origin stands for, or the origin as it was
abbrev pub EnsureOrigin : Type 0 → Type 0 → Type 0
EnsureOrigin O A = O → Result A O

abbrev pub or_right : {A B O : Type 0} → Result A O → Result B O → Result (A ⊎ B) O
or_right (ok a) other = ok (inl a)
or_right (err o) (ok b) = ok (inr b)
or_right (err o) (err p) = err p

-- The location of an XCM origin that the filter accepts.
abbrev pub accepted : {L O : Type 0} → (L → Bool) → O → Option L → Result L O
accepted filter o none = err o
accepted filter o (some l) = if filter l then ok l else err o

-- An origin is root, or stands for a location that sent an XCM message, or neither. The voice of a body
-- is the location of this body inside another location.
pub record Origins (O L BodyId : Type 0) : Type 1 where
  pub root : O
  pub xcm_location : O → Option L
  pub xcm_location-root : xcm_location root ≡ none
  pub ensure_root : EnsureOrigin O (Unit {0})
  pub ensure_root-ok : (o : O) → (ensure_root o ≡ ok tt) ↔ (o ≡ root)
  pub ensure_xcm : (L → Bool) → EnsureOrigin O L
  pub ensure_xcm-accepted :
      (filter : L → Bool) (o : O) → ensure_xcm filter o ≡ accepted filter o (xcm_location o)
  pub voice : L → BodyId → L
  pub is_voice_of_body : L → BodyId → L → Bool
  pub is_voice_of_body-voice :
      (prefix : L) (body : BodyId) (l : L)
      → (is_voice_of_body prefix body l ≡ true) ↔ (l ≡ voice prefix body)
  pub either_of_diverse :
      {A B : Type 0} → EnsureOrigin O A → EnsureOrigin O B → EnsureOrigin O (A ⊎ B)
  pub either_of_diverse-right :
      {A B : Type 0} (left : EnsureOrigin O A) (right : EnsureOrigin O B) (o : O)
      → either_of_diverse left right o ≡ or_right (left o) (right o)

-- `RelayLocation` is the parent, and `StakingAdminBodyId` the body `Defense`.
module _ {O L BodyId : Type 0} (C : Origins O L BodyId) (parent : L) (defense : BodyId) where
  open C use {
    root, xcm_location, ensure_root, ensure_xcm, voice, is_voice_of_body, either_of_diverse,
  }

  -- `CollatorSelectionUpdateOrigin`
  unfoldable pub collator_selection_update_origin : EnsureOrigin O (Unit {0} ⊎ L)
  collator_selection_update_origin =
      either_of_diverse ensure_root (ensure_xcm (is_voice_of_body parent defense))

  -- If the origin is not root.
  accepted-voice :
      (o p : O) (a : Unit {0} ⊎ L) (at : Option L)
      → (or_right (err p) (accepted (is_voice_of_body parent defense) o at) ≡ ok a)
        ↔ ((at ≡ some (voice parent defense)) × (a ≡ inr (voice parent defense)))
  accepted-voice o p a none = ground arith
  accepted-voice o p a (some m) = grind (arith, C.is_voice_of_body-voice parent defense m)

  -- The collators may be changed by root, and by an XCM message that comes from the voice of the body
  -- `Defense` of the relay chain, and by no other origin.
  pub update_origin_ok_iff :
      (o : O) (a : Unit {0} ⊎ L)
      → (collator_selection_update_origin o ≡ ok a) ↔ (
          ((o ≡ root) × (a ≡ inl tt))
          ⊎ ((xcm_location o ≡ some (voice parent defense)) × (a ≡ inr (voice parent defense))))
  unfolding collator_selection_update_origin
  update_origin_ok_iff o a = elim (Result-cases (ensure_root o)) [
    | inl (u, h) ↦
        let is_root = (C.ensure_root-ok o).0 h in
        rw (C.either_of_diverse-right, h)
          (
            λ e. inl (is_root, cc),
            λ e. elim e [
              | inl (r, e) ↦ rw e refl
              | inr (x, e) ↦ grind (arith, C.xcm_location-root)
            ],
          )
    | inr (p, h) ↦
        let voiced = accepted-voice o p a (xcm_location o) in
        rw (C.either_of_diverse-right, h, C.ensure_xcm-accepted)
          (
            λ e. inr (voiced.0 e),
            λ e. elim e [ inl (r, e) ↦ grind (arith, C.ensure_root-ok o) | inr x ↦ voiced.1 x ],
          )
  ]
