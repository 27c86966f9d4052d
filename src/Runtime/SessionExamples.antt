-- ===== src/Runtime/SessionExamples.antt =====
-- A session that ends at block 3600: collators are numbers, and the storage says who is eligible and
-- who has authored when.
use qnch_chain.Prelude.{
  ℕ, ◌-◌, ◌%◌, ◌≤◌, ◌<◌, ◌≡◌, ◌≢◌, ◌↔◌, refl, Bool, true, false, ◌&&◌, some, ltb, leb, ◌==◌, arith,
  ℕ_discrete, if◌then◌else◌,
}
use qnch_chain.Runtime.Config.{CollatorConfig, PeriodicSessions}
use qnch_chain.Runtime.Sessions.{SessionConfig, Pallets, begin_block}
use qnch_chain.Runtime.Sessions.Kicks.{Progress, block, Reach, start, later, Reach-is_eligible}

abbrev Storage : Type 0
Storage = (ℕ → Bool) × (ℕ → ℕ)

abbrev note : ℕ → ℕ → Storage → Storage
note a n s = (s.0, λ b. if b == a then n else s.1 b)

abbrev kept : CollatorConfig → ℕ → Storage → ℕ → Bool
kept c n s b = s.0 b && ltb (n - s.1 b) c.kick_threshold

-- Of a collator that is removed, the last block is forgotten.
abbrev select : CollatorConfig → ℕ → Storage → Storage
select c n s = (kept c n s, λ b. if kept c n s b then s.1 b else 0)

abbrev should_end : PeriodicSessions → ℕ → Bool
should_end p n = leb p.offset n && ((n - p.offset) % p.period == 0)

abbrev rotate : SessionConfig ℕ Storage → ℕ → Storage → Storage
rotate c n s = if c.should_end_session n then c.session_manager n s else s

note_self : (a n : ℕ) (s : Storage) → (note a n s).1 a ≡ n
note_self a n s = ground arith

note_other : (a b n : ℕ) (s : Storage) → b ≢ a → (note a n s).1 b ≡ s.1 b
note_other a b n s h = ground arith

should_end_iff :
    (p : PeriodicSessions) (n : ℕ)
    → (should_end p n ≡ true) ↔ ((p.offset ≤ n) × ((n - p.offset) % p.period ≡ 0))
should_end_iff p n = ground arith

select_recent :
    (c : CollatorConfig) (n : ℕ) (s : Storage) (b : ℕ)
    → s.0 b ≡ true
    → n - s.1 b < c.kick_threshold
    → (select c n s).0 b ≡ true
select_recent c n s b h recent = ground arith

rotate-ends :
    (c : SessionConfig ℕ Storage) (n : ℕ) (s : Storage) (b : ℕ)
    → c.should_end_session n ≡ true
    → (rotate c n s).0 b ≡ (c.session_manager n s).0 b
rotate-ends c n s b h = rw h refl

rotate-goes_on :
    (c : SessionConfig ℕ Storage) (n : ℕ) (s : Storage) (b : ℕ)
    → c.should_end_session n ≡ false
    → (rotate c n s).0 b ≡ s.0 b
rotate-goes_on c n s b h = rw h refl

rotate-last_authored :
    (c : SessionConfig ℕ Storage) (n : ℕ) (s : Storage) (b : ℕ)
    → c.should_end_session n ≡ false
    → (rotate c n s).1 b ≡ s.1 b
rotate-last_authored c n s b h = rw h refl

abbrev pallets : Pallets ℕ_discrete Storage
pallets = record {
  is_eligible = λ s. s.0;
  last_authored = λ s. s.1;
  note_author = note;
  note_author-self = note_self;
  note_author-other = note_other;
  note_author-is_eligible = λ a b n s. refl;
  identity_collator = λ a. some a;
  should_end = should_end;
  should_end_iff = should_end_iff;
  new_session = select;
  new_session-is_eligible = select_recent;
  author_initialize = λ c n a s. c.event_handler a n s;
  author_initialize-event_handler = λ c n a s. refl;
  session_initialize = rotate;
  session_initialize-ends = rotate-ends;
  session_initialize-goes_on = rotate-goes_on;
  session_initialize-last_authored = rotate-last_authored;
}

-- Collator 7 authors the last block of a session, and collator 8 the next.
abbrev first : Progress Storage
first = record { number = 3600; fresh = false; chain = (λ b. true, λ b. 0) }

abbrev second : Progress Storage
second = record { number = 3601; fresh = false; chain = begin_block pallets 3600 7 first.chain }

abbrev third : Progress Storage
third = record { number = 3602; fresh = false; chain = begin_block pallets 3601 8 second.chain }

run : Reach pallets 7 first third
unfolding begin_block ℕ_discrete
run =
    later (later start (block 7 second.chain refl refl (λ h. refl)))
      (block 8 third.chain refl refl (λ h. cc))

Reach-is_eligible_example : pallets.is_eligible third.chain 7 ≡ true
Reach-is_eligible_example = Reach-is_eligible pallets 7 (omega arith) refl refl run
