-- ===== src/Runtime/Locations.antt =====
-- parachain/runtime/src/configs/xcm.rs: `ParentOrParentsExecutivePlurality`, the locations whose
-- messages run without payment. Locations, junctions and bodies come from the `xcm` crate.
use qnch_chain.Prelude.{
  ℕ, ◌≡◌, ◌↔◌, ◌⊎◌, refl, Bool, true, false, ◌&&◌, Option, none, some, List, [], ◌∷◌, arith, ◌==◌,
  Option-cases, Bool-cases, inl, inr,
}

module _ {Location Junction BodyId : Type 0} (unpack : Location → ℕ × List Junction)
    (plurality : Junction → Option BodyId) (is_executive : BodyId → Bool) where
  -- `[Plurality { id: BodyId::Executive, .. }]`
  abbrev is_executive_plurality : Junction → Bool
  is_executive_plurality j = elim (plurality j) [ none ↦ false | some id ↦ is_executive id ]

  -- The interior that the patterns allow.
  abbrev matches_interior : List Junction → Bool
  matches_interior [] = true
  matches_interior (j ∷ []) = is_executive_plurality j
  matches_interior (j ∷ k ∷ js) = false

  -- `contains(location)`
  unfoldable pub contains : Location → Bool
  contains location = ((unpack location).0 == 1) && matches_interior (unpack location).1

  -- The parent itself, or the executive body of the parent.
  abbrev pub IsParentOrExecutive : ℕ × List Junction → Type 0
  IsParentOrExecutive (parents, interior) =
      (parents ≡ 1)
      × ((interior ≡ [])
          ⊎ ((j : Junction) × (id : BodyId) × (interior ≡ j ∷ [])
              × (plurality j ≡ some id)
              × (is_executive id ≡ true)))

  interior_iff :
      (parents : ℕ) (interior : List Junction)
      → (((parents == 1) && matches_interior interior) ≡ true)
        ↔ IsParentOrExecutive (parents, interior)
  interior_iff parents [] = ground arith
  interior_iff parents (j ∷ []) = elim (Option-cases (plurality j)) [
    | inl e ↦ ground arith
    | inr (id, e) ↦ elim (Bool-cases (is_executive id)) [
      | inl x ↦ (λ h. (ground arith, inr (j, id, refl, e, x)), λ h. ground arith)
      | inr x ↦ ground arith
    ]
  ]
  interior_iff parents (j ∷ k ∷ js) = ground arith

  -- A location is free of charge exactly when it is the parent, or the executive plurality of the
  -- parent and nothing below it.
  pub contains_iff :
      (location : Location) → (contains location ≡ true) ↔ IsParentOrExecutive (unpack location)
  unfolding contains
  contains_iff location = interior_iff (unpack location).0 (unpack location).1
