-- ===== src/Runtime/InboundExamples.antt =====
-- The message queue at work: messages are numbers, the queue is a list of them with their origins, and
-- the storage is the list of what was executed.
use qnch_chain.Prelude.{◌≡◌, ap, ◌⊎◌, ℕ, refl, inl, inr, false, List, [], ◌∷◌, All}
use qnch_chain.Runtime.Origins.{Place, sovereign_account}
use qnch_chain.Runtime.Origins
use qnch_chain.Runtime.OriginExamples.{converters}
use qnch_chain.Runtime.Inbound.{
  AggregateMessageOrigin, sibling, narrowed, place_of, Queues, dmp_queue, inbound_xcmp_queue,
  queue_paused_query, message_processor,
}
use qnch_chain.Runtime.Inbound.Delivery.{
  relay_chain, parachain, System, Has, Reach, start, later, downward, sideways, service,
  IsAuthentic, executed-IsAuthentic,
}

abbrev Storage : Type 0
Storage = List (Place ℕ × ℕ)

abbrev Queue : Type 0
Queue = List (AggregateMessageOrigin × ℕ)

held_cons :
    (m n : ℕ) (o p : AggregateMessageOrigin) (q : Queue)
    → Has (p, n) ((o, m) ∷ q)
    → Has (p, n) q ⊎ ((p ≡ o) × (n ≡ m))
held_cons m n o p q (inl e) = inr (ap (λ x. x.0) e, ap (λ x. x.1) e)
held_cons m n o p q (inr h) = inl h

abbrev queues : Queues ℕ Queue Storage (Place ℕ) ℕ converters.place
queues = record {
  Holds = λ q o m. Has (o, m) q;
  enqueue_message = λ m o q. (o, m) ∷ q;
  enqueue_message-Holds = λ m n o p q h. held_cons m n o p q h;
  enqueue_with_origin = λ o m q. (o, m) ∷ q;
  enqueue_with_origin-enqueue_message = λ o m q. refl;
  transform_origin = λ convert m n q. (convert n, m) ∷ q;
  transform_origin-enqueue_message = λ convert m n q. refl;
  para_id_to_sibling = λ n. sibling n;
  para_id_to_sibling-sibling = λ n. refl;
  is_paused = λ n s. false;
  narrow_origin_to_sibling = narrowed;
  narrow_origin_to_sibling-narrowed = λ paused o s. refl;
  location = place_of;
  place-location = λ o. refl;
  executed = λ s. s;
  process_xcm_message = λ m o s. (place_of o, m) ∷ s;
  executed-process_xcm_message = λ m o s. refl;
  noop_message_processor = λ m o s. s;
  executed-noop_message_processor = λ m o s. refl;
}

abbrev idle : System ℕ Queue Storage
idle = record { queue = []; chain = []; delivered = [] }

nothing_held :
    (o : AggregateMessageOrigin) (m : ℕ) → ¬ Has {A = AggregateMessageOrigin × ℕ} (o, m) []
nothing_held o m h = h

abbrev received : System ℕ Queue Storage
received = record { queue = dmp_queue queues 5 []; chain = []; delivered = (relay_chain, 5) ∷ [] }

abbrev both : System ℕ Queue Storage
both = record {
  queue = inbound_xcmp_queue queues 6 2000 received.queue;
  chain = [];
  delivered = (parachain 2000, 6) ∷ received.delivered;
}

abbrev serviced : System ℕ Queue Storage
serviced = record both {
  queue = received.queue;
  chain = message_processor queues false 6 (sibling 2000) [];
}

-- The relay chain and the parachain 2000 deliver a message each, and that of the parachain is run.
run : Reach converters queues false idle serviced
unfolding dmp_queue inbound_xcmp_queue queue_paused_query
run =
    later (later (later start (downward 5)) (sideways 2000 6))
      (service (sibling 2000) 6 received.queue (inl refl) (λ p n h. inr h) refl)

executed-IsAuthentic_example :
    (All
      (IsAuthentic converters queues false sovereign_account serviced.delivered)
      ((Origins.sibling 2000, 6) ∷ []))
unfolding message_processor
executed-IsAuthentic_example =
    executed-IsAuthentic converters queues false {s = idle} {t = serviced} nothing_held refl run
      sovereign_account
