-- ===== src/Runtime/PalletXcmExamples.antt =====
-- The calls of pallet_xcm at concrete inputs: an origin is root, or an account, or neither, and the
-- storage is the list of the delivered tickets.
use qnch_chain.Prelude.{
  ℕ, ◌≡◌, ◌↔◌, refl, ap, Bool, true, false, Option, none, some, List, [], ◌∷◌, Result, ok, err,
  if◌then◌else◌, suc, arith,
}
use qnch_chain.Frame.Sample.{RawOrigin, root, none_origin}
use qnch_chain.Frame.Sample
use qnch_chain.Runtime.Origins.{
  Place, sibling, local_account, elsewhere, native, sovereign_account, signed, mapped, ok_or,
  try_next, xcm_origin_to_transact_dispatch_origin,
}
use qnch_chain.Runtime.Router.{TakenAt}
use qnch_chain.Runtime.PalletXcm.{
  LocalOrigins, PalletXcmConfig, pallet_xcm_config, XcmPallet, delivered,
}
use qnch_chain.Runtime.PalletXcm.Local.{StandsFor, signed-location, send_iff}
use qnch_chain.Runtime.OriginExamples.{converters}
use qnch_chain.Runtime.ConfigExamples.{senders}

abbrev is_root : RawOrigin ℕ → Bool
is_root root = true
is_root none_origin = false
is_root (Sample.signed a) = false

abbrev signer : RawOrigin ℕ → Option ℕ
signer root = none
signer none_origin = none
signer (Sample.signed a) = some a

signer-is_root : (o : RawOrigin ℕ) (a : ℕ) → signer o ≡ some a → is_root o ≡ false
signer-is_root root a h = cc
signer-is_root none_origin a h = refl
signer-is_root (Sample.signed b) a h = refl

abbrev account_location : ℕ → Place ℕ
account_location a = local_account a

abbrev origins : LocalOrigins (RawOrigin ℕ) (Place ℕ) ℕ converters.place
origins = record {
  is_root = is_root;
  signer = signer;
  signer-is_root = signer-is_root;
  here = elsewhere;
  account_location = account_location;
  place-account_location = λ a. refl;
  signed_to_account_id32 = λ o. ok_or (mapped account_location (signer o)) o;
  signed_to_account_id32-signer = λ o. refl;
  ensure_xcm_origin =
      λ convert o. try_next (convert o) (λ p. if is_root p then ok elsewhere else err p);
  ensure_xcm_origin-of = λ convert o. refl;
}

abbrev Config : Type 0
Config = PalletXcmConfig (RawOrigin ℕ) (Place ℕ) ℕ ℕ (ℕ × ℕ) (Unit {0})

abbrev Storage : Type 0
Storage = List (ℕ × ℕ)

-- A location in front of a message is one more instruction.
abbrev behind : Place ℕ → ℕ → ℕ
behind l m = suc m

abbrev deliver : Place ℕ → ℕ × ℕ → Storage → Result (Unit {0}) ℕ × Storage
deliver l t s = (ok tt, t ∷ s)

abbrev send_from :
    Config → Result (Place ℕ) (RawOrigin ℕ) → Place ℕ → ℕ → Storage → Result (Unit {0}) ℕ × Storage
send_from c (err o) dest m s = (err 0, s)
send_from c (ok l) dest m s = delivered (λ x. 1) (deliver l) (c.xcm_router dest (behind l m)) s

send_from-err :
    (c : Config) (q : Result (Place ℕ) (RawOrigin ℕ)) (p : RawOrigin ℕ) (dest : Place ℕ) (m : ℕ)
    (s : Storage)
    → q ≡ err p
    → send_from c q dest m s ≡ (err 0, s)
send_from-err c (ok l) p dest m s h = cc
send_from-err c (err o) p dest m s h = refl

send_from-ok :
    (c : Config) (q : Result (Place ℕ) (RawOrigin ℕ)) (l dest : Place ℕ) (m : ℕ) (s : Storage)
    → q ≡ ok l
    → send_from c q dest m s ≡ delivered (λ x. 1) (deliver l) (c.xcm_router dest (behind l m)) s
send_from-ok c q l dest m s h = ap (λ r. send_from c r dest m s) h

-- A call that a filter lets pass does nothing here.
abbrev filtered :
    {P : Type 0}
    → (Place ℕ × P → Bool)
    → P
    → Storage
    → Result (Place ℕ) (RawOrigin ℕ)
    → Result (Unit {0}) ℕ × Storage
filtered filter p s (err o) = (err 0, s)
filtered filter p s (ok l) = if filter (l, p) then (ok tt, s) else (err 2, s)

filtered-ok :
    {P : Type 0} (filter : Place ℕ × P → Bool) (p : P) (s : Storage)
    (q : Result (Place ℕ) (RawOrigin ℕ))
    → (filtered filter p s q).0 ≡ ok tt
    → (l : Place ℕ) × (q ≡ ok l) × (filter (l, p) ≡ true)
filtered-ok filter p s (err o) h = cc
filtered-ok filter p s (ok l) h = (l, refl, ground arith)

abbrev calls : XcmPallet origins ℕ (ℕ × ℕ) (Unit {0}) Storage ℕ
calls = record {
  bad_origin = 0;
  unsent = λ x. 1;
  behind = behind;
  deliver = deliver;
  send = λ c o dest m s. send_from c (c.send_xcm_origin o) dest m s;
  send-refused = λ c o p dest m s h. send_from-err c (c.send_xcm_origin o) p dest m s h;
  send-delivered = λ c o l dest m s h at. send_from-ok c (c.send_xcm_origin o) l dest m s h;
  execute = λ c o m s. filtered c.xcm_execute_filter m s (c.execute_xcm_origin o);
  execute-ok = λ c o m s h. filtered-ok c.xcm_execute_filter m s (c.execute_xcm_origin o) h;
  limited_reserve_transfer_assets = λ c o dest beneficiary assets s.
      filtered c.xcm_reserve_transfer_filter assets s (c.execute_xcm_origin o);
  limited_reserve_transfer_assets-ok = λ c o dest beneficiary assets s h.
      filtered-ok c.xcm_reserve_transfer_filter assets s (c.execute_xcm_origin o) h;
}

abbrev config : Config
config = pallet_xcm_config converters origins senders

signed-location_example :
    (l : Place ℕ) × (config.execute_xcm_origin (Sample.signed 7) ≡ ok l)
    × (config.sovereign_account_of l ≡ some 7)
    × (xcm_origin_to_transact_dispatch_origin converters l native ≡ ok (signed 7))
    × (xcm_origin_to_transact_dispatch_origin converters l sovereign_account ≡ ok (signed 7))
signed-location_example = signed-location converters origins senders (Sample.signed 7) 7 refl

-- Account 7 sends four instructions to the parachain 2000.
send_iff_example :
    (calls.send config (Sample.signed 7) (sibling 2000) 4 [] ≡ (ok tt, (2000, 6) ∷ [])) ↔ (
      (l : Place ℕ) × (t : ℕ × ℕ) × StandsFor converters origins senders (Sample.signed 7) l
      × TakenAt senders (sibling 2000) (sibling 2000) (behind l 4) t
      × (deliver l t [] ≡ (ok tt, (2000, 6) ∷ [])))
send_iff_example =
    send_iff converters origins senders calls (Sample.signed 7) (sibling 2000) 4 [] ((2000, 6) ∷ [])
