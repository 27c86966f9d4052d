-- ===== src/Runtime/Time/Slots.antt =====
-- How many blocks a slot has room for, by the configurations of time in
-- parachain/runtime/src/configs/mod.rs.
use qnch_chain.Prelude.{
  ℕ, suc, ◌+◌, ◌*◌, ◌/◌, ◌≤◌, ◌<◌, ◌≡◌, refl, inl, inr, false, Option, none, some, arith,
}
use qnch_chain.Prelude.Partial.{◌>>=◌}
use qnch_chain.Runtime.Config.{aura_config}
use qnch_chain.Runtime.Time.{TimePallets, timestamp_config, start_block}

bound {ℓ} :
    {A B : Type ℓ} (o : Option A) (f : A → Option B) {b : B}
    → (o >>= f) ≡ some b
    → (a : A) × (o ≡ some a) × (f a ≡ some b)
bound none f h = cc
bound (some a) f h = (a, refl, h)

module _ {S : Type 0} (C : TimePallets S) where
  -- A chain whose last block has set its time, in its slot.
  abbrev pub IsTimed : S → Type 0
  IsTimed s = (0 < C.now s) × (C.current_slot s ≡ C.now s / 6000)

  -- A block: its start, and then what leaves time and slot alone.
  pub data Block (s : S) : S → Type 0 where
    block :
        (slot moment : ℕ) (u t : S)
        → start_block C false slot moment s ≡ some u
        → C.now t ≡ C.now u
        → C.current_slot t ≡ C.current_slot u
        → Block s t

  -- So many blocks one after the other.
  pub data Blocks (s : S) : ℕ → S → Type 0 where
    start : Blocks s 0 s
    later : {n : ℕ} {t u : S} → Blocks s n t → Block t u → Blocks s (suc n) u

  started :
      (slot moment : ℕ) (s u : S)
      → IsTimed s
      → start_block C false slot moment s ≡ some u
      → IsTimed u × (C.now s + 3000 ≤ C.now u)
  unfolding start_block
  started slot moment s u (positive, at) h =
      let (v, digest, set) = bound (C.aura_initialize aura_config slot s) _ h in
      let (after, is, same) = C.aura_initialize-some aura_config slot s v digest in
      let (w, spaced, time, kept, passed) =
        C.timestamp_set-some (timestamp_config C false) moment v u set in
      let (inside, end) = C.aura_on_timestamp_set-some aura_config moment w u passed in
      elim spaced [
        | inl fresh ↦ absurd (omega arith)
        | inr far ↦ rw end ((omega arith, omega arith), omega arith)
      ]

  Block-IsTimed : {s t : S} → IsTimed s → Block s t → IsTimed t × (C.now s + 3000 ≤ C.now t)
  Block-IsTimed {s} v (block slot moment u t h same at) =
      let (w, spaced) = started slot moment s u v h in
      ((omega (arith, w.0), omega (arith, w.1)), omega arith)

  Blocks-IsTimed :
      {s t : S} {n : ℕ} → IsTimed s → Blocks s n t → IsTimed t × (C.now s + n * 3000 ≤ C.now t)
  Blocks-IsTimed v start = (v, omega arith)
  Blocks-IsTimed v (later r b) =
      let (w, far) = Blocks-IsTimed v r in let (x, step) = Block-IsTimed w b in (x, omega arith)

  -- Without the feature `experimental`, blocks that follow a block with a time take up slots: so many
  -- of them lie at least half as many slots later, rounded down. So no slot has room for three blocks,
  -- although Aura would allow any number. And the time always lies in the slot.
  pub blocks_slots :
      {s t : S} {n : ℕ}
      → IsTimed s
      → Blocks s n t
      → (C.current_slot s + n / 2 ≤ C.current_slot t) × IsTimed t
  blocks_slots v r = let (w, far) = Blocks-IsTimed v r in (omega arith, w)
