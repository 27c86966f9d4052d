-- ===== src/Pallet/History.antt =====
-- Sequences of calls of the pallet, from any origins, against the abstract set of accounts and
-- against the events that they leave behind.
use qnch_chain.Prelude.{
  ◌≡◌, refl, sym, ap, ◌∙◌, fun_ext, Bool, true, false, List, [], ◌∷◌, ◌++◌, Result, ok, err, arith,
  inl, inr, Result-cases, append-nil, append_assoc, All,
}
use qnch_chain.Frame.{Frame}
use qnch_chain.Pallet.{
  Event, deployer_authorized, deployer_revoked, DispatchError, bad_origin, State, Call, authorize,
  revoke, dispatch, is_authorized,
}
use qnch_chain.Pallet.Whitelist.{
  Whitelist, apply_event, outcome, step, view, is_root, dispatch-step,
}

-- The set after a list of events.
abbrev pub replay : {A : Type 0} (dec : Discrete A) → List (Event A) → Whitelist A → Whitelist A
replay dec [] w = w
replay dec (e ∷ es) w = replay dec es (apply_event dec e w)

replay-append :
    {A : Type 0} (dec : Discrete A) (es fs : List (Event A)) (w : Whitelist A)
    → replay dec (es ++ fs) w ≡ replay dec fs (replay dec es w)
replay-append dec [] fs w = refl
replay-append dec (e ∷ es) fs w = replay-append dec es fs (apply_event dec e w)

-- The abstract run: results, set and events, for calls that come from root or not.
pub steps :
    {A : Type 0} (dec : Discrete A)
    → List (Bool × Call A)
    → Whitelist A
    → List (Result (Unit {0}) DispatchError) × Whitelist A × List (Event A)
steps dec [] w = ([], w, [])
steps dec ((root, c) ∷ cs) w =
    let (r, w', es) = step dec root c w in
    let (rs, w'', fs) = steps dec cs w' in (r ∷ rs, w'', es ++ fs)

step-replay :
    {A : Type 0} (dec : Discrete A) (root : Bool) (c : Call A) (w : Whitelist A)
    → (step dec root c w).1 ≡ replay dec (step dec root c w).2 w
step-replay dec root c w = elim (Result-cases (outcome root c w)) [
  | inl (e, p) ↦ rw (p, step)
  | inr (x, p) ↦ rw (p, step)
]

steps-replay :
    {A : Type 0} (dec : Discrete A) (cs : List (Bool × Call A)) (w : Whitelist A)
    → (steps dec cs w).1 ≡ replay dec (steps dec cs w).2 w
unfolding steps
steps-replay dec [] w = refl
steps-replay dec ((root, c) ∷ cs) w =
    rw (replay-append, ← step-replay) (steps-replay dec cs (step dec root c w).1)

-- Into the set and out of it again.
steps-authorize-revoke :
    {A : Type 0} (dec : Discrete A) (b : A) (w : Whitelist A)
    → w b ≡ false
    → let (rs, w', es) = steps dec ((true, authorize b) ∷ (true, revoke b) ∷ []) w in
      (rs ≡ ok tt ∷ ok tt ∷ []) × (w' ≡ w) × (es ≡ deployer_authorized b ∷ deployer_revoked b ∷ [])
unfolding steps
steps-authorize-revoke dec b w h = (ground arith, fun_ext (λ a. ground arith), ground arith)

module _ {A : Type 0} {dec : Discrete A} (F : Frame dec (Event A)) where
  open F use {Origin, ensure_root-root, events}

  -- The calls of a block, in order; a call that fails does not stop the next.
  unfoldable pub run :
      List (Origin × Call A) → State F → List (Result (Unit {0}) DispatchError) × State F
  run [] s = ([], s)
  run ((o, c) ∷ cs) s = let (r, t) = dispatch F c o s in let (rs, u) = run cs t in (r ∷ rs, u)

  abbrev pub rooted : List (Origin × Call A) → List (Bool × Call A)
  rooted [] = []
  rooted ((o, c) ∷ cs) = (is_root F o, c) ∷ rooted cs

  -- Any sequence of calls, from any origins, returns the results, reaches the whitelist and adds
  -- the events that the abstract set gives for it.
  pub run-steps :
      (cs : List (Origin × Call A)) (s : State F)
      → let (rs, t) = run cs s in
        let (rs', w, es) = steps dec (rooted cs) (view F s) in
        (rs ≡ rs') × (view F t ≡ w) × (events t.system ≡ events s.system ++ es)
  unfolding run steps
  run-steps [] s = (refl, refl, sym (append-nil _))
  run-steps ((o, c) ∷ cs) s =
      let (r, t) = dispatch F c o s in
      let now = dispatch-step F c o s in
      let later = run-steps cs t in
      (
        rw (← now.1, ← now.0) (ap (◌∷◌ r) later.0),
        later.1 ∙ ap (λ w. (steps dec (rooted cs) w).1) now.1,
        rw (← now.1) (rw (later.2, now.2, append_assoc)),
      )

  -- The events tell the whole story: replaying the events that a sequence of calls adds, on the
  -- whitelist before it, gives the whitelist after it.
  pub run-replay :
      (cs : List (Origin × Call A)) (s : State F)
      → (es : List (Event A)) × (events (run cs s).1.system ≡ events s.system ++ es)
        × (view F (run cs s).1 ≡ replay dec es (view F s))
  run-replay cs s =
      let refined = run-steps cs s in
      let spec = steps dec (rooted cs) (view F s) in
      (spec.2, refined.2, refined.1 ∙ steps-replay dec (rooted cs) (view F s))

  -- A call that returns an error has written nothing.
  dispatch-error :
      (c : Call A) (o : Origin) (s : State F) {x : DispatchError}
      → (dispatch F c o s).0 ≡ err x
      → (dispatch F c o s).1 ≡ s
  unfolding dispatch
  dispatch-error (authorize b) o s h = ground arith
  dispatch-error (revoke b) o s h = ground arith

  -- Calls that do not come from root, however many, all fail with `BadOrigin` and leave the storage
  -- and the event records exactly as they were.
  pub run-not_root :
      (cs : List (Origin × Call A)) (s : State F)
      → All (λ oc. is_root F oc.0 ≡ false) cs
      → All (λ r. r ≡ err bad_origin) (run cs s).0 × ((run cs s).1 ≡ s)
  unfolding run
  run-not_root [] s h = (tt, refl)
  run-not_root ((o, c) ∷ cs) s h =
      let r : (dispatch F c o s).0 ≡ err bad_origin =
        rw (dispatch-step F c o s).0 (rw (h.0, step)) in
      rw (dispatch-error c o s r) ((r, (run-not_root cs s h.1).0), (run-not_root cs s h.1).1)

  -- From root, to authorize an account that is not authorized and then to revoke it succeeds twice,
  -- records both events in order, and gives back the whitelist of before.
  authorize-revoke :
      (b : A) (s : State F)
      → is_authorized F b s ≡ false
      → let (rs, t) = run ((F.root, authorize b) ∷ (F.root, revoke b) ∷ []) s in
        (rs ≡ ok tt ∷ ok tt ∷ [])
        × (view F t ≡ view F s)
        × (events t.system ≡ events s.system ++ deployer_authorized b ∷ deployer_revoked b ∷ [])
  authorize-revoke b s h =
      let cs : List (Origin × Call A) = (F.root, authorize b) ∷ (F.root, revoke b) ∷ [] in
      let spec = steps-authorize-revoke dec b (view F s) h in
      let same : rooted cs ≡ (true, authorize b) ∷ (true, revoke b) ∷ [] =
        rw (ensure_root-root, is_root) in
      let refined = rw same at (run-steps cs s) in
      (refined.0 ∙ spec.0, refined.1 ∙ spec.1, refined.2 ∙ ap (◌++◌ (events s.system)) spec.2)
