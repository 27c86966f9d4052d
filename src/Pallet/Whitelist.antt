-- ===== src/Pallet/Whitelist.antt =====
-- The abstract view of the pallet: a set of accounts, as a test. The storage map, its order and
-- the event records are forgotten; the calls of the pallet refine the operation `step` below.
use qnch_chain.Prelude.{
  ◌≡◌, refl, sym, fun_ext, Bool, true, false, List, [], ◌∷◌, ◌++◌, Result, ok, err, ite, arith,
  Result-cases, inl, inr, if◌then◌else◌, append-nil,
}
use qnch_chain.Frame.{Frame, BadOrigin}
use qnch_chain.Pallet.{
  Event, deployer_authorized, deployer_revoked, DispatchError, bad_origin, module_error,
  already_authorized, not_authorized, State, Call, authorize, revoke, dispatch, is_authorized,
  authorize_deployer, revoke_deployer,
}

abbrev pub Whitelist : Type 0 → Type 0
Whitelist A = A → Bool

module _ {A : Type 0} (dec : Discrete A) where
  -- The set with `b` put in or taken out.
  abbrev pub set_to : Bool → A → Whitelist A → Whitelist A
  set_to v b w a = ite (dec a b) v (w a)

  -- What one event says about the set.
  abbrev pub apply_event : Event A → Whitelist A → Whitelist A
  apply_event (deployer_authorized b) = set_to true b
  apply_event (deployer_revoked b) = set_to false b

-- The event of a call that goes through, or the error of one that is refused.
abbrev pub outcome : {A : Type 0} → Bool → Call A → Whitelist A → Result (Event A) DispatchError
outcome false c w = err bad_origin
outcome true (authorize b) w =
    if w b then err (module_error already_authorized) else ok (deployer_authorized b)
outcome true (revoke b) w =
    if w b then ok (deployer_revoked b) else err (module_error not_authorized)

-- The result of a call, the set after it and the events that it adds.
abbrev pub step :
    {A : Type 0} (dec : Discrete A)
    → Bool
    → Call A
    → Whitelist A
    → Result (Unit {0}) DispatchError × Whitelist A × List (Event A)
step dec root c w = elim (outcome root c w) [
  | ok e ↦ (ok tt, apply_event dec e w, e ∷ [])
  | err x ↦ (err x, w, [])
]

module _ {A : Type 0} {dec : Discrete A} (F : Frame dec (Event A)) where
  open F use {
    Origin, ensure_root, events, contains_key, contains_key-insert, contains_key-remove,
    events-deposit_event,
  }

  abbrev pub view : State F → Whitelist A
  view s a = is_authorized F a s

  -- `ensure_root(origin).is_ok()`
  abbrev pub is_root : Origin → Bool
  is_root o = elim (ensure_root o) [ ok _ ↦ true | err _ ↦ false ]

  abbrev Agrees :
      State F
      → Result (Unit {0}) DispatchError × State F
      → Result (Unit {0}) DispatchError × Whitelist A × List (Event A)
      → Type 0
  Agrees s (r, t) (r', w, es) = (r ≡ r') × (view t ≡ w) × (events t.system ≡ events s.system ++ es)

  root-dispatch-step :
      (c : Call A) (o : Origin) (s : State F)
      → ensure_root o ≡ ok tt
      → Agrees s (dispatch F c o s) (step dec true c (view s))
  unfolding dispatch is_authorized
  root-dispatch-step (authorize b) o s e = (
    ground arith,
    fun_ext (λ a. ground (arith, contains_key-insert a b s.authorized_deployers)),
    ground (
      arith,
      append-nil (events s.system),
      events-deposit_event (deployer_authorized b) s.system,
    ),
  )
  root-dispatch-step (revoke b) o s e = (
    ground arith,
    fun_ext (λ a. ground (arith, contains_key-remove a b s.authorized_deployers)),
    ground
        (arith, append-nil (events s.system), events-deposit_event (deployer_revoked b) s.system),
  )

  other-dispatch-step :
      (c : Call A) (o : Origin) (s : State F) {x : BadOrigin}
      → ensure_root o ≡ err x
      → Agrees s (dispatch F c o s) (step dec false c (view s))
  unfolding dispatch
  other-dispatch-step (authorize b) o s e = rw e (refl, refl, sym (append-nil _))
  other-dispatch-step (revoke b) o s e = rw e (refl, refl, sym (append-nil _))

  -- One call of the pallet does what the set of accounts says.
  pub dispatch-step :
      (c : Call A) (o : Origin) (s : State F)
      → Agrees s (dispatch F c o s) (step dec (is_root o) c (view s))
  dispatch-step c o s = elim (Result-cases (ensure_root o)) [
    | inl (u, e) ↦ rw (e, is_root) (root-dispatch-step c o s e)
    | inr (x, e) ↦ rw (e, is_root) (other-dispatch-step c o s e)
  ]

  -- Right after root authorizes an account it is authorized, whether the call succeeded or not.
  pub is_authorized-authorize_deployer :
      (b : A) (s : State F) → is_authorized F b (authorize_deployer F F.root b s).1 ≡ true
  unfolding is_authorized authorize_deployer
  is_authorized-authorize_deployer b s =
      ground (arith, F.ensure_root-root, contains_key-insert b b s.authorized_deployers)

  -- Right after root revokes an account it is not authorized, whether the call succeeded or not.
  pub is_authorized-revoke_deployer :
      (b : A) (s : State F) → is_authorized F b (revoke_deployer F F.root b s).1 ≡ false
  unfolding is_authorized revoke_deployer
  is_authorized-revoke_deployer b s =
      ground (arith, F.ensure_root-root, contains_key-remove b b s.authorized_deployers)
