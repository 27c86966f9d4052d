-- ===== src/Runtime/Sessions.antt =====
-- parachain/runtime/src/configs/mod.rs: how authorship, sessions and the selection of collators work
-- together, by `impl pallet_authorship::Config`, `impl pallet_session::Config` and the numbers of
-- `impl pallet_collator_selection::Config`. The three pallets are of other crates, with what is
-- documented of them.
pub mod Kicks
use qnch_chain.Prelude.{ℕ, ◌-◌, ◌%◌, ◌≤◌, ◌<◌, ◌≡◌, ◌≢◌, ◌↔◌, Bool, true, false, Option, some}
use qnch_chain.Runtime.Config.{CollatorConfig, collator_config, PeriodicSessions, periodic_sessions}

-- `pallet_authorship::Config`, by its handler of the author of a block
pub record AuthorshipConfig (A S : Type 0) : Type 0 where
  pub event_handler : A → ℕ → S → S

-- `pallet_session::Config`, by what ends a session and what starts one
pub record SessionConfig (A S : Type 0) : Type 0 where
  pub validator_id_of : A → Option A
  pub should_end_session : ℕ → Bool
  pub next_session_rotation : PeriodicSessions
  pub session_manager : ℕ → S → S

-- The pallets. A collator is eligible if it is a candidate or invulnerable. The selection notes when it
-- has authored last, and a new session removes no one from the eligible ones whose last block is
-- less than `kick_threshold` blocks ago. `PeriodicSessions` ends a session every `period` blocks.
pub record Pallets {A : Type 0} (dec : Discrete A) (S : Type 0) : Type 1 where
  pub is_eligible : S → A → Bool
  pub last_authored : S → A → ℕ
  pub note_author : A → ℕ → S → S
  pub note_author-self : (a : A) (n : ℕ) (s : S) → last_authored (note_author a n s) a ≡ n
  pub note_author-other :
      (a b : A) (n : ℕ) (s : S) → b ≢ a → last_authored (note_author a n s) b ≡ last_authored s b
  pub note_author-is_eligible :
      (a b : A) (n : ℕ) (s : S) → is_eligible (note_author a n s) b ≡ is_eligible s b
  pub identity_collator : A → Option A
  pub should_end : PeriodicSessions → ℕ → Bool
  pub should_end_iff :
      (p : PeriodicSessions) (n : ℕ)
      → (should_end p n ≡ true) ↔ ((p.offset ≤ n) × ((n - p.offset) % p.period ≡ 0))
  pub new_session : CollatorConfig → ℕ → S → S
  pub new_session-is_eligible :
      (c : CollatorConfig) (n : ℕ) (s : S) (b : A)
      → is_eligible s b ≡ true
      → n - last_authored s b < c.kick_threshold
      → is_eligible (new_session c n s) b ≡ true
  pub author_initialize : AuthorshipConfig A S → ℕ → A → S → S
  pub author_initialize-event_handler :
      (c : AuthorshipConfig A S) (n : ℕ) (a : A) (s : S)
      → author_initialize c n a s ≡ c.event_handler a n s
  pub session_initialize : SessionConfig A S → ℕ → S → S
  pub session_initialize-ends :
      (c : SessionConfig A S) (n : ℕ) (s : S) (b : A)
      → c.should_end_session n ≡ true
      → is_eligible (session_initialize c n s) b ≡ is_eligible (c.session_manager n s) b
  pub session_initialize-goes_on :
      (c : SessionConfig A S) (n : ℕ) (s : S) (b : A)
      → c.should_end_session n ≡ false
      → is_eligible (session_initialize c n s) b ≡ is_eligible s b
  pub session_initialize-last_authored :
      (c : SessionConfig A S) (n : ℕ) (s : S) (b : A)
      → c.should_end_session n ≡ false
      → last_authored (session_initialize c n s) b ≡ last_authored s b

module _ {A S : Type 0} {dec : Discrete A} (C : Pallets dec S) where
  -- `impl pallet_authorship::Config for Runtime`
  abbrev pub authorship_config : AuthorshipConfig A S
  authorship_config = record { event_handler = C.note_author }

  -- `impl pallet_session::Config for Runtime`, with `CollatorSelection` as the manager
  abbrev pub session_config : SessionConfig A S
  session_config = record {
    validator_id_of = C.identity_collator;
    should_end_session = C.should_end periodic_sessions;
    next_session_rotation = periodic_sessions;
    session_manager = C.new_session collator_config;
  }

  -- The start of block `n` by `a`: the hooks of the pallets run in the order of `mod runtime`, in which
  -- the authorship stands before the sessions.
  unfoldable pub begin_block : ℕ → A → S → S
  begin_block n a s =
      C.session_initialize session_config n (C.author_initialize authorship_config n a s)
