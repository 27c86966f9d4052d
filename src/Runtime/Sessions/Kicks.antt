-- ===== src/Runtime/Sessions/Kicks.antt =====
-- Which collators a new session removes, by the numbers in parachain/runtime/src/configs/mod.rs.
use qnch_chain.Prelude.{
  ℕ, ◌+◌, ◌-◌, ◌*◌, ◌/◌, ◌%◌, ◌<◌, ◌≡◌, ◌≢◌, refl, sym, ap, ◌∙◌, Bool, true, false, ◌||◌, inl, inr,
  arith, is_yes, Bool-cases, if◌then◌else◌,
}
use qnch_chain.Runtime.Config.{periodic_sessions, collator_config}
use qnch_chain.Runtime.Sessions.{Pallets, begin_block, session_config, authorship_config}

-- The number of the next block, whether the collator has authored in the session, and the storage.
pub record Progress (S : Type 0) : Type 0 where
  pub number : ℕ
  pub fresh : Bool
  pub chain : S

module _ {A S : Type 0} {dec : Discrete A} (C : Pallets dec S) (b : A) where
  abbrev pub ends : ℕ → Bool
  ends n = C.should_end periodic_sessions n

  abbrev pub authored : Bool → A → Bool
  authored fresh a = fresh || is_yes (dec b a)

  -- A block: what its author and its session change, and then extrinsics that leave the collator alone.
  -- If it ends the session, the collator has authored in this session.
  pub data Step (p : Progress S) : Progress S → Type 0 where
    block :
        (a : A) (t : S)
        → C.is_eligible t b ≡ C.is_eligible (begin_block C p.number a p.chain) b
        → C.last_authored t b ≡ C.last_authored (begin_block C p.number a p.chain) b
        → (ends p.number ≡ true → authored p.fresh a ≡ true)
        → Step p (record {
          number = p.number + 1;
          fresh = if ends p.number then false else authored p.fresh a;
          chain = t;
        })

  pub data Reach (p : Progress S) : Progress S → Type 0 where
    start : Reach p p
    later : {q r : Progress S} → Reach p q → Step q r → Reach p r

  -- The collator is eligible, and a block that it has authored in this session is noted.
  record Inv (p : Progress S) : Type 0 where
    positive : 0 < p.number
    eligible : C.is_eligible p.chain b ≡ true
    noted : p.fresh ≡ true → ((p.number - 1) / 3600) * 3600 < C.last_authored p.chain b

  was_fresh :
      {a : A} (fresh : Bool) (d : Dec (b ≡ a)) → b ≢ a → (fresh || is_yes d) ≡ true → fresh ≡ true
  was_fresh fresh (yes same) apart h = absurd (apart same)
  was_fresh true (no _) apart h = refl
  was_fresh false (no _) apart h = h

  begin_block-last_authored :
      (n : ℕ) (a : A) (s : S)
      → ends n ≡ false
      → C.last_authored (begin_block C n a s) b ≡ C.last_authored (C.note_author a n s) b
  unfolding begin_block
  begin_block-last_authored n a s on =
      C.session_initialize-last_authored (session_config C) n _ b on
      ∙ ap (λ t. C.last_authored t b)
          (C.author_initialize-event_handler (authorship_config C) n a s)

  noted_after :
      (p : Progress S) (a : A)
      → Inv p
      → authored p.fresh a ≡ true
      → ((p.number - 1) / 3600) * 3600 < C.last_authored (C.note_author a p.number p.chain) b
  noted_after p a v h = elim (dec b a) [
    | yes same ↦
        let now : C.last_authored (C.note_author a p.number p.chain) b ≡ p.number =
          rw same (C.note_author-self a p.number p.chain) in
        omega (arith, v.positive)
    | no apart ↦
        let before = C.note_author-other a b p.number p.chain apart in
        omega (arith, v.noted (was_fresh p.fresh (dec b a) apart h))
  ]

  begin_block-is_eligible :
      (p : Progress S) (a : A)
      → Inv p
      → (ends p.number ≡ true → authored p.fresh a ≡ true)
      → C.is_eligible (begin_block C p.number a p.chain) b ≡ true
  unfolding begin_block
  begin_block-is_eligible p a v diligent =
      let author = C.author_initialize-event_handler (authorship_config C) p.number a p.chain in
      let noted = C.note_author a p.number p.chain in
      let eligible : C.is_eligible noted b ≡ true =
        C.note_author-is_eligible a b p.number p.chain ∙ v.eligible in
      ap (λ t. C.is_eligible (C.session_initialize (session_config C) p.number t) b) author
      ∙ (elim (Bool-cases (ends p.number)) [
        | inl over ↦
            let (from, whole) = (C.should_end_iff periodic_sessions p.number).0 over in
            let recent = noted_after p a v (diligent over) in
            C.session_initialize-ends (session_config C) p.number noted b over
            ∙ C.new_session-is_eligible collator_config p.number noted b eligible
                (omega (arith, v.positive))
        | inr on ↦ C.session_initialize-goes_on (session_config C) p.number noted b on ∙ eligible
      ])

  noted_later :
      (p : Progress S) (a : A) (t : S)
      → Inv p
      → C.last_authored t b ≡ C.last_authored (begin_block C p.number a p.chain) b
      → (if ends p.number then false else authored p.fresh a) ≡ true
      → ((p.number + 1 - 1) / 3600) * 3600 < C.last_authored t b
  noted_later p a t v kept h = elim (Bool-cases (ends p.number)) [
    | inl over ↦ (let e = rw over at h in cc)
    | inr on ↦
        let recent = noted_after p a v (rw on at h) in
        let same = kept ∙ begin_block-last_authored p.number a p.chain on in
        let inside : ¬ (p.number % 3600 ≡ 0) = λ whole.
          (let e = (C.should_end_iff periodic_sessions p.number).1 (omega arith, omega arith) in
            cc) in
        omega (arith, v.positive)
  ]

  Step-Inv : {p q : Progress S} → Step p q → Inv p → Inv q
  Step-Inv {p} (block a t same kept diligent) v = record {
    positive = omega arith;
    eligible = same ∙ begin_block-is_eligible p a v diligent;
    noted = noted_later p a t v kept;
  }

  Reach-Inv : {p q : Progress S} → Inv p → Reach p q → Inv q
  Reach-Inv v start = v
  Reach-Inv v (later r step) = Step-Inv step (Reach-Inv v r)

  -- A collator that is eligible at the first block of a session, or later in it, and from then on has
  -- authored a block in each session that ends, stays eligible: no session removes it, as long as the
  -- extrinsics leave it alone.
  pub Reach-is_eligible :
      {p q : Progress S}
      → 0 < p.number
      → p.fresh ≡ false
      → C.is_eligible p.chain b ≡ true
      → Reach p q
      → C.is_eligible q.chain b ≡ true
  Reach-is_eligible {p} positive fresh eligible r =
      let first : Inv p = record {
        positive = positive;
        eligible = eligible;
        noted = λ h. (let e : false ≡ true = sym fresh ∙ h in absurd (cc));
      } in
      (Reach-Inv first r).eligible
