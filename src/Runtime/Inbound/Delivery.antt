-- ===== src/Runtime/Inbound/Delivery.antt =====
-- Where the messages come from that the queue of parachain/runtime/src/configs/mod.rs has executed, in
-- whatever order they are delivered and serviced, and which origins they can have.
use qnch_chain.Prelude.{
  ok, ℕ, ◌≡◌, ◌⊎◌, inl, inr, refl, sym, ap, ◌∙◌, subst, Bool, true, false, List, [], ◌∷◌, All,
  All-map,
}
use qnch_chain.Runtime.Origins
use qnch_chain.Runtime.Origins.{
  OriginKind, native, sovereign_account, superuser, xcm, ok_or, Origin, Converters, signed, relay,
  sibling_para, pallet_xcm, xcm_origin_to_transact_dispatch_origin,
}
use qnch_chain.Runtime.Origins.Table.{xcm_origin-origin_at, origin_at}
use qnch_chain.Runtime.Inbound.{
  AggregateMessageOrigin, here, parent, sibling, Queues, dmp_queue, inbound_xcmp_queue,
  queue_paused_query, message_processor,
}

-- Who has delivered a message.
pub data Sender : Type 0 where
  relay_chain : Sender
  parachain : ℕ → Sender

-- `x` is in the list.
abbrev pub Has : {A : Type 0} → A → List A → Type 0
Has x [] = ⊥
Has x (y ∷ ys) = (x ≡ y) ⊎ Has x ys

-- The queue, the chain's storage, and what was delivered so far.
pub record System (M Q S : Type 0) : Type 0 where
  pub queue : Q
  pub chain : S
  pub delivered : List (Sender × M)

module _ {M Q S L A : Type 0} (D : Converters L A) (C : Queues M Q S L A D.place)
    (runtime_benchmarks : Bool) where
  pub data Step (s : System M Q S) : System M Q S → Type 0 where
    -- a message from the relay chain
    downward :
        (m : M)
        → Step s
            (record s { queue = dmp_queue C m s.queue; delivered = (relay_chain, m) ∷ s.delivered })
    -- a message from the parachain `n`
    sideways :
        (n : ℕ) (m : M)
        → Step s (record s {
          queue = inbound_xcmp_queue C m n s.queue;
          delivered = (parachain n, m) ∷ s.delivered;
        })
    -- all that executes no message
    elsewhere : (t : S) → C.executed t ≡ C.executed s.chain → Step s (record s { chain = t })
    -- the queue takes out a message of an origin that is not paused, and has it processed
    service :
        (o : AggregateMessageOrigin) (m : M) (q : Q)
        → C.Holds s.queue o m
        → ((p : AggregateMessageOrigin) (n : M) → C.Holds q p n → C.Holds s.queue p n)
        → queue_paused_query C o s.chain ≡ false
        → Step s
            (record s { queue = q; chain = message_processor C runtime_benchmarks m o s.chain })

  pub data Reach (s : System M Q S) : System M Q S → Type 0 where
    start : Reach s s
    later : {t u : System M Q S} → Reach s t → Step t u → Reach s u

  -- A message with this origin was delivered.
  abbrev pub Delivered : AggregateMessageOrigin → M → List (Sender × M) → Type 0
  Delivered here m ds = ⊥
  Delivered parent m ds = Has (relay_chain, m) ds
  Delivered (sibling n) m ds = Has (parachain n, m) ds

  -- The message was run at the location of the chain that has delivered it.
  abbrev pub IsFrom : List (Sender × M) → L × M → Type 0
  IsFrom ds (l, m) = (o : AggregateMessageOrigin) × (l ≡ C.location o) × Delivered o m ds

  record Inv (s : System M Q S) : Type 0 where
    held : (o : AggregateMessageOrigin) (m : M) → C.Holds s.queue o m → Delivered o m s.delivered
    run : All (IsFrom s.delivered) (C.executed s.chain)

  more :
      (d : Sender × M) (o : AggregateMessageOrigin) (m : M) (ds : List (Sender × M))
      → Delivered o m ds
      → Delivered o m (d ∷ ds)
  more d here m ds h = h
  more d parent m ds h = inr h
  more d (sibling n) m ds h = inr h

  more-IsFrom :
      (d : Sender × M) (ds : List (Sender × M)) (x : L × M) → IsFrom ds x → IsFrom (d ∷ ds) x
  more-IsFrom d ds (l, m) (o, at, h) = (o, at, more d o m ds h)

  enqueued :
      (d : Sender × M) (o : AggregateMessageOrigin) (s : System M Q S) (q : Q)
      → Inv s
      → Delivered o d.1 (d ∷ s.delivered)
      → q ≡ C.enqueue_message d.1 o s.queue
      → Inv (record s { queue = q; delivered = d ∷ s.delivered })
  enqueued d o s q v new e = record {
    held = λ p n h.
        elim (C.enqueue_message-Holds d.1 n o p s.queue (subst (λ r. C.Holds r p n) e h)) [
          | inl old ↦ more d p n s.delivered (v.held p n old)
          | inr (at, same) ↦ rw (at, same) new
        ];
    run = All-map (IsFrom s.delivered) (more-IsFrom d s.delivered) (C.executed s.chain) v.run;
  }

  processed :
      (s : System M Q S) (o : AggregateMessageOrigin) (m : M)
      → Inv s
      → C.Holds s.queue o m
      → (b : Bool) → All (IsFrom s.delivered) (C.executed (message_processor C b m o s.chain))
  unfolding message_processor
  processed s o m v holds true =
      subst (All (IsFrom s.delivered)) (sym (C.executed-noop_message_processor m o s.chain)) v.run
  processed s o m v holds false =
      subst (All (IsFrom s.delivered)) (sym (C.executed-process_xcm_message m o s.chain))
        ((o, refl, v.held o m holds), v.run)

  Step-Inv : {s t : System M Q S} → Step s t → Inv s → Inv t
  unfolding dmp_queue inbound_xcmp_queue message_processor
  Step-Inv {s} (downward m) v =
      enqueued (relay_chain, m) parent s _ v (inl refl)
        (C.enqueue_with_origin-enqueue_message _ m s.queue)
  Step-Inv {s} (sideways n m) v =
      enqueued (parachain n, m) (sibling n) s _ v (inl refl)
        (C.transform_origin-enqueue_message _ m n s.queue
          ∙ ap (λ o. C.enqueue_message m o s.queue) (C.para_id_to_sibling-sibling n))
  Step-Inv (elsewhere t e) v = record { held = v.held; run = subst (All (IsFrom _)) (sym e) v.run }
  Step-Inv (service o m q holds left go) v = record {
    held = λ p n h. v.held p n (left p n h);
    run = processed _ o m v holds runtime_benchmarks;
  }

  Reach-Inv : {s t : System M Q S} → Inv s → Reach s t → Inv t
  Reach-Inv v start = v
  Reach-Inv v (later r step) = Step-Inv step (Reach-Inv v r)

  -- The origins of a message, at its start, that this chain has sent from the location.
  abbrev pub ActsFor : Sender → L → Origin L A → Type 0
  ActsFor relay_chain l o = (o ≡ relay) ⊎ (o ≡ signed D.parent_account) ⊎ (o ≡ pallet_xcm l)
  ActsFor (parachain n) l o =
      (o ≡ sibling_para n) ⊎ (o ≡ signed (D.sibling_account n)) ⊎ (o ≡ pallet_xcm l)

  relay_acts :
      (l : L) (k : OriginKind) (o : Origin L A)
      → ok_or (origin_at D l Origins.parent k) l ≡ ok o
      → ActsFor relay_chain l o
  relay_acts l native o h = inl cc
  relay_acts l sovereign_account o h = inr (inl cc)
  relay_acts l superuser o h = cc
  relay_acts l xcm o h = inr (inr cc)

  parachain_acts :
      (n : ℕ) (l : L) (k : OriginKind) (o : Origin L A)
      → ok_or (origin_at D l (Origins.sibling n) k) l ≡ ok o
      → ActsFor (parachain n) l o
  parachain_acts n l native o h = inl cc
  parachain_acts n l sovereign_account o h = inr (inl cc)
  parachain_acts n l superuser o h = cc
  parachain_acts n l xcm o h = inr (inr cc)

  -- The chain that has sent the message, and the origins that the message may have.
  abbrev pub IsAuthentic : OriginKind → List (Sender × M) → L × M → Type 0
  IsAuthentic k ds (l, m) =
      (d : Sender) × Has (d, m) ds
      × ((o : Origin L A) → xcm_origin_to_transact_dispatch_origin D l k ≡ ok o → ActsFor d l o)

  authentic :
      (k : OriginKind) (ds : List (Sender × M)) (x : L × M) → IsFrom ds x → IsAuthentic k ds x
  authentic k ds (l, m) (here, at, h) = absurd h
  authentic k ds (l, m) (parent, at, h) =
      let place = ap D.place at ∙ C.place-location parent in
      (
        relay_chain,
        h,
        λ o e. relay_acts l k o (
            ap (λ p. ok_or (origin_at D l p k) l) (sym place)
            ∙ sym (xcm_origin-origin_at D l k)
            ∙ e),
      )
  authentic k ds (l, m) (sibling n, at, h) =
      let place = ap D.place at ∙ C.place-location (sibling n) in
      (
        parachain n,
        h,
        λ o e. parachain_acts n l k o (
            ap (λ p. ok_or (origin_at D l p k) l) (sym place)
            ∙ sym (xcm_origin-origin_at D l k)
            ∙ e),
      )

  -- From a chain whose queue holds nothing and that has executed no message, however messages are
  -- delivered, serviced and delayed: each message that was executed had been delivered by the relay
  -- chain or by a parachain, and, whatever kind of origin it asks for, it starts with no origin but
  -- that of this chain itself, that of its account, or that of its location for pallet_xcm.
  pub executed-IsAuthentic :
      {s t : System M Q S}
      → ((o : AggregateMessageOrigin) (m : M) → ¬ C.Holds s.queue o m)
      → C.executed s.chain ≡ []
      → Reach s t
      → (k : OriginKind) → All (IsAuthentic k t.delivered) (C.executed t.chain)
  executed-IsAuthentic {s} {t} empty none r k =
      let first : Inv s = record {
        held = λ o m h. absurd (empty o m h);
        run = subst (All (IsFrom s.delivered)) (sym none) tt;
      } in
      All-map (IsFrom t.delivered) (authentic k t.delivered) (C.executed t.chain)
        (Reach-Inv first r).run
