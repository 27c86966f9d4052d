-- ===== src/Runtime/Barrier.antt =====
-- parachain/runtime/src/configs/xcm.rs: `Barrier`, the rules by which an XCM message is executed. The
-- rules of the xcm crates judge a message by the location that it comes from, and may change its
-- instructions and properties, which are the state here.
pub mod Accepted
use qnch_chain.Prelude.{ℕ, ◌≡◌, Bool, true, Option, List, [], ◌∷◌, Result, ok, err, and_then}
use qnch_chain.Runtime.Locations.{contains}

-- `ShouldExecute`, at a location `L`
abbrev pub Rule : Type 0 → Type 0 → Type 0 → Type 0
Rule L S E = L → S → Result (Unit {0}) E × S

-- What follows a rule if it refuses.
abbrev pub or_try :
    {S E : Type 0}
    → Result (Unit {0}) E × S
    → (S → Result (Unit {0}) E × S)
    → Result (Unit {0}) E × S
or_try (ok u, t) next = (ok u, t)
or_try (err e, t) next = next t

-- A rule at the location that the first instructions lead to, if they can be followed. What it does to
-- the instructions behind them is put back.
abbrev pub computed_then :
    {L S E : Type 0} → Result (L × S) E → S → (S → S → S) → Rule L S E → Result (Unit {0}) E × S
computed_then (ok (o, t)) s back r = ((r o t).0, back s (r o t).1)
computed_then (err e) s back r = (err e, s)

-- The rules, with what is documented of them: a tuple accepts by its first member that does, and else
-- refuses; a message with a trailing topic is judged as any other, after the topic was noted; a message
-- whose execution is paid `Pays`; and one that runs without payment comes from a location of the
-- filter.
pub record Rules (L Interior S E : Type 0) : Type 1 where
  pub Pays : L → S → Type 0
  pub unsupported : E
  pub any_rule : List (Rule L S E) → Rule L S E
  pub any_rule-nil : (o : L) (s : S) → any_rule [] o s ≡ (err unsupported, s)
  pub any_rule-cons :
      (r : Rule L S E) (rs : List (Rule L S E)) (o : L) (s : S)
      → any_rule (r ∷ rs) o s ≡ or_try (r o s) (any_rule rs o)
  pub set_topic : S → S
  pub trailing_set_topic_as_id : Rule L S E → Rule L S E
  pub trailing_set_topic-rule :
      (r : Rule L S E) (o : L) (s : S) → trailing_set_topic_as_id r o s ≡ r o (set_topic s)
  pub deny_then_try : Rule L S E → Rule L S E → Rule L S E
  pub deny_then_try-rule :
      (deny allow : Rule L S E) (o : L) (s : S)
      → deny_then_try deny allow o s ≡ and_then (deny o s) (allow o)
  pub compute : Interior → ℕ → L → S → Result (L × S) E
  pub restore : S → S → S
  pub with_computed_origin : Rule L S E → Interior → ℕ → Rule L S E
  pub with_computed_origin-rule :
      (r : Rule L S E) (universal : Interior) (max_prefixes : ℕ) (o : L) (s : S)
      → with_computed_origin r universal max_prefixes o s
        ≡ computed_then (compute universal max_prefixes o s) s restore r
  pub deny_reserve_transfer_to_relay_chain : Rule L S E
  pub take_weight_credit : Rule L S E
  pub allow_top_level_paid_execution_from : (L → Bool) → Rule L S E
  pub allow_top_level_paid-Pays :
      (f : L → Bool) (o : L) (s : S)
      → (allow_top_level_paid_execution_from f o s).0 ≡ ok tt
      → Pays o s
  pub allow_explicit_unpaid_execution_from : (L → Bool) → Rule L S E
  pub allow_explicit_unpaid-from :
      (f : L → Bool) (o : L) (s : S)
      → (allow_explicit_unpaid_execution_from f o s).0 ≡ ok tt
      → f o ≡ true

module _ {L Interior S E Junction BodyId : Type 0} (C : Rules L Interior S E)
    (unpack : L → ℕ × List Junction) (plurality : Junction → Option BodyId)
    (is_executive : BodyId → Bool) (universal_location : Interior) where
  open C use {
    any_rule, trailing_set_topic_as_id, deny_then_try, with_computed_origin,
    deny_reserve_transfer_to_relay_chain, take_weight_credit, allow_top_level_paid_execution_from,
    allow_explicit_unpaid_execution_from,
  }

  -- The rules for the computed origin: `Everything` is the filter of the first.
  abbrev pub paid_or_free : List (Rule L S E)
  paid_or_free =
      allow_top_level_paid_execution_from (λ l. true)
      ∷ allow_explicit_unpaid_execution_from (contains unpack plurality is_executive)
      ∷ []

  abbrev pub allowed_rules : List (Rule L S E)
  allowed_rules =
      take_weight_credit ∷ with_computed_origin (any_rule paid_or_free) universal_location 8 ∷ []

  -- `Barrier`
  unfoldable pub barrier : Rule L S E
  barrier =
      trailing_set_topic_as_id
        (deny_then_try deny_reserve_transfer_to_relay_chain (any_rule allowed_rules))
