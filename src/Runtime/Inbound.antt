-- ===== src/Runtime/Inbound.antt =====
-- parachain/runtime/src/configs/mod.rs: the way of messages from the relay chain and from the parachains
-- beside this one into the message queue, and from there to the executor, by the configurations of
-- the parachain system, the message queue and the XCMP queue. The queue and the adapters come from
-- other crates, with what is documented of them.
pub mod Delivery
use qnch_chain.Prelude.{ℕ, ◌≡◌, ◌⊎◌, Bool, true, false, List, [], ◌∷◌, if◌then◌else◌}
use qnch_chain.Runtime.Origins.{Place}
use qnch_chain.Runtime.Origins

-- `AggregateMessageOrigin`
pub data AggregateMessageOrigin : Type 0 where
  here parent : AggregateMessageOrigin
  sibling : (para_id : ℕ) → AggregateMessageOrigin

-- `RelayOrigin`
abbrev pub relay_origin : AggregateMessageOrigin
relay_origin = parent

-- Whether the queue of a parachain is paused, asked for an origin: the others are not paused.
abbrev pub narrowed : {S : Type 0} → (ℕ → S → Bool) → AggregateMessageOrigin → S → Bool
narrowed paused here s = false
narrowed paused parent s = false
narrowed paused (sibling n) s = paused n s

-- The place that a message of this origin comes from, apart from this chain itself.
abbrev pub place_of : {A : Type 0} → AggregateMessageOrigin → Place A
place_of here = Origins.elsewhere
place_of parent = Origins.parent
place_of (sibling n) = Origins.sibling n

-- The queue `Q` holds messages, each with its origin, and only those that it was given. The executor
-- runs a message at the location of its origin, and the storage `S` has what it has run.
pub record Queues (M Q S L A : Type 0) (place : L → Place A) : Type 1 where
  pub Holds : Q → AggregateMessageOrigin → M → Type 0
  pub enqueue_message : M → AggregateMessageOrigin → Q → Q
  pub enqueue_message-Holds :
      (m n : M) (o p : AggregateMessageOrigin) (q : Q)
      → Holds (enqueue_message m o q) p n
      → Holds q p n ⊎ ((p ≡ o) × (n ≡ m))
  pub enqueue_with_origin : AggregateMessageOrigin → M → Q → Q
  pub enqueue_with_origin-enqueue_message :
      (o : AggregateMessageOrigin) (m : M) (q : Q)
      → enqueue_with_origin o m q ≡ enqueue_message m o q
  pub transform_origin : (ℕ → AggregateMessageOrigin) → M → ℕ → Q → Q
  pub transform_origin-enqueue_message :
      (convert : ℕ → AggregateMessageOrigin) (m : M) (n : ℕ) (q : Q)
      → transform_origin convert m n q ≡ enqueue_message m (convert n) q
  pub para_id_to_sibling : ℕ → AggregateMessageOrigin
  pub para_id_to_sibling-sibling : (n : ℕ) → para_id_to_sibling n ≡ sibling n
  pub is_paused : ℕ → S → Bool
  pub narrow_origin_to_sibling : (ℕ → S → Bool) → AggregateMessageOrigin → S → Bool
  pub narrow_origin_to_sibling-narrowed :
      (paused : ℕ → S → Bool) (o : AggregateMessageOrigin) (s : S)
      → narrow_origin_to_sibling paused o s ≡ narrowed paused o s
  pub location : AggregateMessageOrigin → L
  pub place-location : (o : AggregateMessageOrigin) → place (location o) ≡ place_of o
  pub executed : S → List (L × M)
  pub process_xcm_message : M → AggregateMessageOrigin → S → S
  pub executed-process_xcm_message :
      (m : M) (o : AggregateMessageOrigin) (s : S)
      → executed (process_xcm_message m o s) ≡ (location o, m) ∷ executed s
  pub noop_message_processor : M → AggregateMessageOrigin → S → S
  pub executed-noop_message_processor :
      (m : M) (o : AggregateMessageOrigin) (s : S)
      → executed (noop_message_processor m o s) ≡ executed s

module _ {M Q S L A : Type 0} {place : L → Place A} (C : Queues M Q S L A place) where
  -- `DmpQueue` of the parachain system
  unfoldable pub dmp_queue : M → Q → Q
  dmp_queue = C.enqueue_with_origin relay_origin

  -- `XcmpQueue` of the XCMP queue
  unfoldable pub inbound_xcmp_queue : M → ℕ → Q → Q
  inbound_xcmp_queue = C.transform_origin C.para_id_to_sibling

  -- `QueuePausedQuery` of the message queue
  unfoldable pub queue_paused_query : AggregateMessageOrigin → S → Bool
  queue_paused_query = C.narrow_origin_to_sibling C.is_paused

  -- `MessageProcessor` of the message queue, without and with the feature `runtime-benchmarks`
  unfoldable pub message_processor : Bool → M → AggregateMessageOrigin → S → S
  message_processor runtime_benchmarks =
      if runtime_benchmarks then C.noop_message_processor else C.process_xcm_message
