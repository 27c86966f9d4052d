-- ===== src/Runtime/Barrier/Accepted.antt =====
-- Which XCM messages pass the barrier.
use qnch_chain.Prelude.{
  and_then, ℕ, ◌≡◌, ◌⊎◌, inl, inr, refl, sym, ap, ◌∙◌, Bool, Option, List, [], ◌∷◌, Result, ok, err,
}
use qnch_chain.Runtime.Locations.{IsParentOrExecutive, contains_iff}
use qnch_chain.Runtime.Barrier.{
  Rule, or_try, computed_then, Rules, paid_or_free, allowed_rules, barrier,
}

module _ {L Interior S E : Type 0} (C : Rules L Interior S E) where
  by_outcome :
      (q : Result (Unit {0}) E × S) (next : S → Result (Unit {0}) E × S)
      → (or_try q next).0 ≡ ok tt
      → (q.0 ≡ ok tt) ⊎ ((next q.1).0 ≡ ok tt)
  by_outcome (ok u, t) next h = inl refl
  by_outcome (err e, t) next h = inr h

  accepted_or :
      (r : Rule L S E) (rs : List (Rule L S E)) (o : L) (s : S)
      → (C.any_rule (r ∷ rs) o s).0 ≡ ok tt
      → ((r o s).0 ≡ ok tt) ⊎ ((C.any_rule rs o (r o s).1).0 ≡ ok tt)
  accepted_or r rs o s h =
      by_outcome (r o s) (C.any_rule rs o) (ap (λ q. q.0) (sym (C.any_rule-cons r rs o s)) ∙ h)

  none_left : (o : L) (s : S) → (C.any_rule [] o s).0 ≡ ok tt → ⊥
  none_left o s h = let e = ap (λ q. q.0) (sym (C.any_rule-nil o s)) ∙ h in cc

  not_denied :
      (q : Result (Unit {0}) E × S) (next : S → Result (Unit {0}) E × S)
      → (and_then q next).0 ≡ ok tt
      → (q.0 ≡ ok tt) × ((next q.1).0 ≡ ok tt)
  not_denied (ok u, t) next h = (refl, h)
  not_denied (err e, t) next h = cc

  computed_ok :
      (c : Result (L × S) E) (s : S) (r : Rule L S E)
      → (computed_then c s C.restore r).0 ≡ ok tt
      → (o : L) × (t : S) × (c ≡ ok (o, t)) × ((r o t).0 ≡ ok tt)
  computed_ok (ok (o, t)) s r h = (o, t, refl, h)
  computed_ok (err e) s r h = cc

module _ {L Interior S E Junction BodyId : Type 0} (C : Rules L Interior S E)
    (unpack : L → ℕ × List Junction) (plurality : Junction → Option BodyId)
    (is_executive : BodyId → Bool) (universal_location : Interior) where
  free_or_paid :
      (o : L) (s : S)
      → (C.any_rule (paid_or_free C unpack plurality is_executive universal_location) o s).0 ≡ ok tt
      → C.Pays o s ⊎ IsParentOrExecutive unpack plurality is_executive (unpack o)
  free_or_paid o s h = elim (accepted_or C _ _ o s h) [
    | inl paid ↦ inl (C.allow_top_level_paid-Pays _ o s paid)
    | inr rest ↦ elim (accepted_or C _ [] o _ rest) [
      | inl free ↦ inr (
          (contains_iff unpack plurality is_executive o).0
            (C.allow_explicit_unpaid-from _ o _ free))
      | inr nil ↦ absurd (none_left C o _ nil)
    ]
  ]

  -- What holds of a message from `o` that the barrier accepts.
  abbrev pub IsAccepted : L → S → Type 0
  IsAccepted o s =
      let denied = C.deny_reserve_transfer_to_relay_chain o (C.set_topic s) in
      let credit = C.take_weight_credit o denied.1 in
      (denied.0 ≡ ok tt)
      × ((credit.0 ≡ ok tt)
          ⊎ ((from : L) × (t : S) × (C.compute universal_location 8 o credit.1 ≡ ok (from, t))
              × (C.Pays from t ⊎ IsParentOrExecutive unpack plurality is_executive (unpack from))))

  allowed-accepted :
      (o : L) (s : S)
      → (C.any_rule (allowed_rules C unpack plurality is_executive universal_location) o s).0
        ≡ ok tt
      → ((C.take_weight_credit o s).0 ≡ ok tt)
        ⊎ ((from : L) × (t : S) × (C.compute universal_location 8 o (C.take_weight_credit o s).1
              ≡ ok (from, t))
            × (C.Pays from t ⊎ IsParentOrExecutive unpack plurality is_executive (unpack from)))
  allowed-accepted o s h = elim (accepted_or C _ _ o s h) [
    | inl credit ↦ inl credit
    | inr rest ↦ elim (accepted_or C _ [] o _ rest) [
      | inl computed ↦
          let (from, t, c, r) =
            computed_ok C _ _ _
              (ap (λ q. q.0) (sym (C.with_computed_origin-rule _ _ _ o _)) ∙ computed) in
          inr (from, t, c, free_or_paid from t r)
      | inr nil ↦ absurd (none_left C o _ nil)
    ]
  ]

  -- A message that the barrier accepts is no reserve transfer to the relay chain, and it has credit for
  -- its weight, or the location that its first instructions lead to, of which there are at most eight,
  -- pays for it, or is the relay chain or the executive body there.
  pub barrier-IsAccepted :
      (o : L) (s : S)
      → (barrier C unpack plurality is_executive universal_location o s).0 ≡ ok tt
      → IsAccepted o s
  unfolding barrier
  barrier-IsAccepted o s h =
      let (passed, rest) =
        not_denied C _
          (C.any_rule (allowed_rules C unpack plurality is_executive universal_location) o)
          (ap (λ q. q.0)
              (sym (C.trailing_set_topic-rule _ o s ∙ C.deny_then_try-rule _ _ o (C.set_topic s)))
            ∙ h) in
      (passed, allowed-accepted o _ rest)
