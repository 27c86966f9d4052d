-- ===== src/Runtime/BarrierExamples.antt =====
-- The barrier at concrete inputs: messages have neither credit nor payment, and the relay chain sends
-- one.
use qnch_chain.Prelude.{
  and_then, ◌≡◌, Result, true, ℕ, refl, Bool, some, List, [], ◌∷◌, ok, err, if◌then◌else◌, ◌==◌,
  arith,
}
use qnch_chain.Runtime.Locations.{contains}
use qnch_chain.Runtime.Barrier.{Rule, or_try, computed_then, Rules, barrier}
use qnch_chain.Runtime.Barrier.Accepted.{IsAccepted, barrier-IsAccepted}

abbrev Place : Type 0
Place = ℕ × List ℕ

abbrev any_rule : {L : Type 0} → List (Rule L ℕ ℕ) → Rule L ℕ ℕ
any_rule [] o s = (err 0, s)
any_rule (r ∷ rs) o s = or_try (r o s) (any_rule rs o)

abbrev free_from : {L : Type 0} → (L → Bool) → Rule L ℕ ℕ
free_from f o s = (if f o then ok tt else err 1, s)

pub no_payment : ◌≡◌ {A = Result (Unit {0}) ℕ} (err 3) (ok tt) → ⊥
no_payment h = cc

pub free_from-passes :
    {L : Type 0} (f : L → Bool) (o : L) (s : ℕ) → (free_from f o s).0 ≡ ok tt → f o ≡ true
free_from-passes f o s h = ground arith

abbrev pub rules : {L : Type 0} → Rules L ℕ ℕ ℕ
rules = record {
  Pays = λ o s. ⊥;
  unsupported = 0;
  any_rule = any_rule;
  any_rule-nil = λ o s. refl;
  any_rule-cons = λ r rs o s. refl;
  set_topic = λ s. s;
  trailing_set_topic_as_id = λ r o s. r o s;
  trailing_set_topic-rule = λ r o s. refl;
  deny_then_try = λ deny allow o s. and_then (deny o s) (allow o);
  deny_then_try-rule = λ deny allow o s. refl;
  compute = λ u n o s. ok (o, s);
  restore = λ s t. t;
  with_computed_origin = λ r u n o s. computed_then (ok (o, s)) s (λ s t. t) r;
  with_computed_origin-rule = λ r u n o s. refl;
  deny_reserve_transfer_to_relay_chain = λ o s. (ok tt, s);
  take_weight_credit = λ o s. (err 2, s);
  allow_top_level_paid_execution_from = λ f o s. (err 3, s);
  allow_top_level_paid-Pays = λ f o s h. no_payment h;
  allow_explicit_unpaid_execution_from = free_from;
  allow_explicit_unpaid-from = free_from-passes;
}

barrier-IsAccepted_example :
    IsAccepted rules (λ (l : Place). l) (λ (j : ℕ). some j) (λ id. id == 0) 2000 (1, []) 5
unfolding barrier contains
barrier-IsAccepted_example =
    barrier-IsAccepted rules (λ (l : Place). l) (λ (j : ℕ). some j) (λ id. id == 0) 2000 (1, []) 5
      refl
