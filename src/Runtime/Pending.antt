-- ===== src/Runtime/Pending.antt =====
-- parachain/runtime/src/apis.rs: `pending_block`, which runs the extrinsics of the pool on top of the
-- best block. `Executive`, the pallets and their storage `S` come from other crates.
use qnch_chain.Prelude.{ℕ, ◌+◌, ◌≡◌, refl, Option, List, [], ◌∷◌, ◌++◌}

module _ {S Ext Outcome EthBlock Status : Type 0} (apply_extrinsic : Ext → S → Outcome × S)
    (on_finalize : ℕ → S → S) (block_number : S → ℕ) (current_block : S → Option EthBlock)
    (current_transaction_statuses : S → Option (List Status)) where
  -- `for ext in xts { let _ = Executive::apply_extrinsic(ext); }`
  unfoldable pub apply_all : List Ext → S → S
  apply_all [] s = s
  apply_all (ext ∷ xts) s = apply_all xts (apply_extrinsic ext s).1

  unfoldable pub pending_block : List Ext → S → (Option EthBlock × Option (List Status)) × S
  unfolding apply_all
  pending_block xts s =
      let applied = apply_all xts s in
      let t = on_finalize (block_number applied + 1) applied in
      ((current_block t, current_transaction_statuses t), t)

  apply_all-append :
      (xs ys : List Ext) (s : S) → apply_all (xs ++ ys) s ≡ apply_all ys (apply_all xs s)
  unfolding apply_all
  apply_all-append [] ys s = refl
  apply_all-append (x ∷ xs) ys s = apply_all-append xs ys (apply_extrinsic x s).1

  -- Extrinsics are applied in order, and the block is closed once, after the last one: to run two
  -- lists is to run the second on the storage that the first leaves.
  pending_block-append :
      (xs ys : List Ext) (s : S) → pending_block (xs ++ ys) s ≡ pending_block ys (apply_all xs s)
  unfolding pending_block
  pending_block-append xs ys s = rw apply_all-append

module _ {S Ext Outcome EthBlock Status : Type 0} (f g : Ext → S → Outcome × S)
    (on_finalize : ℕ → S → S) (block_number : S → ℕ) (current_block : S → Option EthBlock)
    (current_transaction_statuses : S → Option (List Status)) where
  apply_all-outcome :
      ((x : Ext) (s : S) → (f x s).1 ≡ (g x s).1)
      → (xs : List Ext) (s : S)
      → apply_all f on_finalize block_number current_block current_transaction_statuses xs s
        ≡ apply_all g on_finalize block_number current_block current_transaction_statuses xs s
  unfolding apply_all
  apply_all-outcome same [] s = refl
  apply_all-outcome same (x ∷ xs) s = rw (same x s) (apply_all-outcome same xs (g x s).1)

  -- The results of the extrinsics are ignored: where two ways to apply an extrinsic leave the same
  -- storage, whatever they return, the pending block is the same.
  pending_block-outcome :
      ((x : Ext) (s : S) → (f x s).1 ≡ (g x s).1)
      → (xs : List Ext) (s : S)
      → pending_block f on_finalize block_number current_block current_transaction_statuses xs s
        ≡ pending_block g on_finalize block_number current_block current_transaction_statuses xs s
  unfolding pending_block
  pending_block-outcome same xs s = rw (apply_all-outcome same xs s)
