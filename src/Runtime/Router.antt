-- ===== src/Runtime/Router.antt =====
-- parachain/runtime/src/configs/xcm.rs: `XcmRouter`, which finds the queue for a message that leaves
-- this chain. The two senders, and what a tuple of them and `WithUniqueTopic` do, come from the xcm
-- and cumulus crates, with what is documented of them.
use qnch_chain.Prelude.{ℕ, ◌≡◌, ◌≢◌, ◌↔◌, refl, List, [], ◌∷◌, Result, ok, err, arith}
use qnch_chain.Runtime.Origins.{Place, parent, sibling, local_account, elsewhere}

-- `SendError`: `NotApplicable`, or any other
pub data SendError (X : Type 0) : Type 0 where
  not_applicable : SendError X
  send_error : X → SendError X

-- `SendXcm::validate`, with the ticket that `SendXcm::deliver` takes
abbrev pub Sender : Type 0 → Type 0 → Type 0 → Type 0 → Type 0
Sender L M Ticket X = L → M → Result Ticket (SendError X)

-- The next sender of a tuple is asked if this one is not applicable.
abbrev pub unless_applicable :
    {T X : Type 0} → Result T (SendError X) → Result T (SendError X) → Result T (SendError X)
unless_applicable (ok t) next = ok t
unless_applicable (err not_applicable) next = next
unless_applicable (err (send_error x)) next = err (send_error x)

-- `ParentAsUmp` is for the relay chain alone, and `XcmpQueue` for parachains beside this one.
-- `WithUniqueTopic` takes what the sender in it takes of the message with a topic.
pub record Senders (L M Ticket X AccountId : Type 0) : Type 0 where
  pub place : L → Place AccountId
  pub parent_as_ump : Sender L M Ticket X
  pub parent_as_ump-other :
      (l : L) (m : M) → place l ≢ parent → parent_as_ump l m ≡ err not_applicable
  pub xcmp_queue : Sender L M Ticket X
  pub xcmp_queue-other :
      (l : L) (m : M) → ((n : ℕ) → place l ≢ sibling n) → xcmp_queue l m ≡ err not_applicable
  pub any_sender : List (Sender L M Ticket X) → Sender L M Ticket X
  pub any_sender-nil : (l : L) (m : M) → any_sender [] l m ≡ err not_applicable
  pub any_sender-cons :
      (s : Sender L M Ticket X) (ss : List (Sender L M Ticket X)) (l : L) (m : M)
      → any_sender (s ∷ ss) l m ≡ unless_applicable (s l m) (any_sender ss l m)
  pub set_topic : M → M
  pub with_unique_topic : Sender L M Ticket X → Sender L M Ticket X
  pub with_unique_topic-sender :
      (s : Sender L M Ticket X) (l : L) (m : M) (t : Ticket)
      → (with_unique_topic s l m ≡ ok t) ↔ (s l (set_topic m) ≡ ok t)

module _ {L M Ticket X AccountId : Type 0} (S : Senders L M Ticket X AccountId) where
  open S use {place, parent_as_ump, xcmp_queue, any_sender, set_topic, with_unique_topic}

  -- `XcmRouter`
  unfoldable pub xcm_router : Sender L M Ticket X
  xcm_router = with_unique_topic (any_sender (parent_as_ump ∷ xcmp_queue ∷ []))

  -- The sender for a place, if there is one.
  abbrev pub TakenAt : Place AccountId → L → M → Ticket → Type 0
  TakenAt parent l m t = parent_as_ump l (set_topic m) ≡ ok t
  TakenAt (sibling n) l m t = xcmp_queue l (set_topic m) ≡ ok t
  TakenAt (local_account a) l m t = ⊥
  TakenAt elsewhere l m t = ⊥

  tuple_cases :
      (l : L) (m : M)
      → any_sender (parent_as_ump ∷ xcmp_queue ∷ []) l m
        ≡ unless_applicable
            (parent_as_ump l m)
            (unless_applicable (xcmp_queue l m) (err not_applicable))
  tuple_cases l m = rw (S.any_sender-cons, S.any_sender-cons, S.any_sender-nil) refl

  tuple-TakenAt :
      (l : L) (m : M) (t : Ticket) (p : Place AccountId)
      → place l ≡ p
      → (any_sender (parent_as_ump ∷ xcmp_queue ∷ []) l (set_topic m) ≡ ok t) ↔ TakenAt p l m t
  tuple-TakenAt l m t parent h =
      rw (tuple_cases l (set_topic m), S.xcmp_queue-other l (set_topic m) (λ n e. cc))
        (ground arith)
  tuple-TakenAt l m t (sibling n) h =
      rw (tuple_cases l (set_topic m), S.parent_as_ump-other l (set_topic m) (λ e. cc))
        (ground arith)
  tuple-TakenAt l m t (local_account a) h =
      rw
        (
          tuple_cases l (set_topic m),
          S.parent_as_ump-other l (set_topic m) (λ e. cc),
          S.xcmp_queue-other l (set_topic m) (λ n e. cc),
        )
        (ground arith)
  tuple-TakenAt l m t elsewhere h =
      rw
        (
          tuple_cases l (set_topic m),
          S.parent_as_ump-other l (set_topic m) (λ e. cc),
          S.xcmp_queue-other l (set_topic m) (λ n e. cc),
        )
        (ground arith)

  -- The router takes a message, with the ticket `t`, exactly when it goes to the relay chain and the
  -- upward queue takes it with this ticket, or to a parachain beside this one and the queue for these
  -- does. It takes no message for any other place, and each after a topic was set.
  pub xcm_router-TakenAt :
      (l : L) (m : M) (t : Ticket) → (xcm_router l m ≡ ok t) ↔ TakenAt (place l) l m t
  unfolding xcm_router
  xcm_router-TakenAt l m t =
      let tuple = tuple-TakenAt l m t (place l) refl in
      let topic = S.with_unique_topic-sender (any_sender (parent_as_ump ∷ xcmp_queue ∷ [])) l m t in
      (λ h. tuple.0 (topic.0 h), λ h. topic.1 (tuple.1 h))
