-- ===== src/Runtime/TimeExamples.antt =====
-- Two blocks in one slot of six seconds: the state is the time and the slot.
use qnch_chain.Prelude.{
  ℕ, ◌+◌, ◌/◌, ◌≤◌, ◌<◌, ◌≡◌, ◌⊎◌, refl, sym, ap, Bool, true, false, ◌||◌, Option, none, some, ltb,
  leb, ◌==◌, arith, if◌then◌else◌,
}
use qnch_chain.Runtime.Config.{AuraConfig}
use qnch_chain.Runtime.Time.{TimestampConfig, Succeeds, TimePallets, start_block}
use qnch_chain.Runtime.Time.Slots.{Blocks, start, later, block, blocks_slots}

abbrev Clock : Type 0
Clock = ℕ × ℕ

abbrev succeeds : Bool → ℕ → ℕ → Bool
succeeds true old new = leb old new
succeeds false old new = ltb old new

abbrev initialize : AuraConfig → ℕ → Clock → Option Clock
initialize c slot s =
    if succeeds c.allow_multiple_blocks_per_slot s.1 slot then some (s.0, slot) else none

abbrev check_slot : AuraConfig → ℕ → Clock → Option Clock
check_slot c moment s = if s.1 == moment / c.slot_duration then some s else none

abbrev set : TimestampConfig Clock → ℕ → Clock → Option Clock
set c moment s =
    if (s.0 == 0) || leb (s.0 + c.minimum_period) moment
    then c.on_timestamp_set moment (moment, s.1)
    else none

succeeds-Succeeds : (b : Bool) (old new : ℕ) → succeeds b old new ≡ true → Succeeds b old new
succeeds-Succeeds true old new h = ground arith
succeeds-Succeeds false old new h = ground arith

guarded :
    {A : Type 0} (b : Bool) (o : Option A) (a : A)
    → (if b then o else none) ≡ some a
    → (b ≡ true) × (o ≡ some a)
guarded true o a h = (refl, h)
guarded false o a h = cc

opened : {A : Type 0} (a b : A) → some a ≡ some b → a ≡ b
opened a b h = cc

initialize-some :
    (c : AuraConfig) (slot : ℕ) (s t : Clock)
    → initialize c slot s ≡ some t
    → Succeeds c.allow_multiple_blocks_per_slot s.1 slot × (t.1 ≡ slot) × (t.0 ≡ s.0)
initialize-some c slot s t h =
    let (ok, e) = guarded _ _ _ h in
    let same = opened (s.0, slot) t e in
    (succeeds-Succeeds _ _ _ ok, ap (λ p. p.1) (sym same), ap (λ p. p.0) (sym same))

check_slot-some :
    (c : AuraConfig) (moment : ℕ) (s t : Clock)
    → check_slot c moment s ≡ some t
    → (s.1 ≡ moment / c.slot_duration) × (t ≡ s)
check_slot-some c moment s t h = let (ok, e) = guarded _ _ _ h in (ground arith, sym (opened s t e))

set-some :
    (c : TimestampConfig Clock) (moment : ℕ) (s t : Clock)
    → set c moment s ≡ some t
    → (u : Clock) × ((s.0 ≡ 0) ⊎ (s.0 + c.minimum_period ≤ moment))
      × (u.0 ≡ moment)
      × (u.1 ≡ s.1)
      × (c.on_timestamp_set moment u ≡ some t)
set-some c moment s t h =
    let (ok, e) = guarded _ _ _ h in ((moment, s.1), spaced _ _ ok, refl, refl, e)
  where
    spaced : (m n : ℕ) → ((m == 0) || leb (m + n) moment) ≡ true → (m ≡ 0) ⊎ (m + n ≤ moment)
    spaced m n g = ground arith

abbrev pallets : TimePallets Clock
pallets = record {
  now = λ s. s.0;
  current_slot = λ s. s.1;
  aura_initialize = initialize;
  aura_initialize-some = initialize-some;
  aura_on_timestamp_set = check_slot;
  aura_on_timestamp_set-some = check_slot-some;
  timestamp_set = set;
  timestamp_set-some = set-some;
}

-- The second block of slot 1, and the two of slot 2.
run : Blocks pallets (6000, 1) 3 (15_000, 2)
unfolding start_block
run =
    later
      (later (later start (block 1 9000 (9000, 1) (9000, 1) refl refl refl))
        (block 2 12_000 (12_000, 2) (12_000, 2) refl refl refl))
      (block 2 15_000 (15_000, 2) (15_000, 2) refl refl refl)

blocks_slots_example : (1 + 3 / 2 ≤ 2) × ((0 < 15_000) × (2 ≡ 15_000 / 6000))
blocks_slots_example = blocks_slots pallets (omega arith, refl) run
