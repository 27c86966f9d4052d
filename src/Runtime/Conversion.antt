-- ===== src/Runtime/Conversion.antt =====
-- parachain/runtime/src/lib.rs (`TransactionConverter`) and apis.rs (`convert_transaction`,
-- `extrinsic_filter`): Ethereum transactions as extrinsics, and back.
use qnch_chain.Prelude.{ℕ, ◌≡◌, refl, ap, ◌∙◌, Option, none, some, List, [], ◌∷◌, ◌++◌, map}
use qnch_chain.Runtime.Ethereum.{Transaction, transact, other_call}
use qnch_chain.Runtime.SelfContained.{RuntimeCall, ethereum, evm_deployment_control, other}

-- `UncheckedExtrinsic`, its constructor for unsigned calls and the call that it carries come from
-- another crate.
pub record Extrinsics (Call : Type 0) : Type 1 where
  pub Extrinsic : Type 0
  pub new_unsigned : Call → Extrinsic
  pub function : Extrinsic → Call
  pub function-new_unsigned : (c : Call) → function (new_unsigned c) ≡ c

-- The SCALE codec, and opaque extrinsics: any encoded extrinsic decodes as an opaque one of the same
-- bytes.
pub record Codec (Extrinsic : Type 0) : Type 1 where
  pub OpaqueExtrinsic : Type 0
  pub encode : Extrinsic → List ℕ
  pub decode : List ℕ → Option OpaqueExtrinsic
  pub bytes : OpaqueExtrinsic → List ℕ
  pub decode-encode :
      (x : Extrinsic) → (o : OpaqueExtrinsic) × (decode (encode x) ≡ some o) × (bytes o ≡ encode x)

module _ {A H Rest Other : Type 0} (X : Extrinsics (RuntimeCall A H Rest Other)) where
  open X use {Extrinsic, new_unsigned, function, function-new_unsigned}

  -- `TransactionConverter::convert_transaction`, and the runtime API of that name
  unfoldable pub convert_transaction : Transaction H Rest → Extrinsic
  convert_transaction transaction = new_unsigned (ethereum (transact transaction))

  -- the closure of the `filter_map`
  abbrev transaction_of : RuntimeCall A H Rest Other → Option (Transaction H Rest)
  transaction_of (ethereum (transact transaction)) = some transaction
  transaction_of (ethereum other_call) = none
  transaction_of (evm_deployment_control c) = none
  transaction_of (other c) = none

  abbrev push {ℓ} : {B : Type ℓ} → Option B → List B → List B
  push none bs = bs
  push (some b) bs = b ∷ bs

  unfoldable pub extrinsic_filter : List Extrinsic → List (Transaction H Rest)
  extrinsic_filter [] = []
  extrinsic_filter (xt ∷ xts) = push (transaction_of (function xt)) (extrinsic_filter xts)

  -- `convert_transaction` into an opaque extrinsic; `none` is the panic of the `expect`.
  unfoldable pub convert_transaction_opaque :
      (K : Codec Extrinsic) → Transaction H Rest → Option K.OpaqueExtrinsic
  unfolding convert_transaction
  convert_transaction_opaque K transaction = K.decode (K.encode (convert_transaction transaction))

  push-append {ℓ} :
      {B : Type ℓ} (o : Option B) (bs cs : List B) → push o (bs ++ cs) ≡ push o bs ++ cs
  push-append none bs cs = refl
  push-append (some b) bs cs = refl

  filter-append :
      (xs ys : List Extrinsic)
      → extrinsic_filter (xs ++ ys) ≡ extrinsic_filter xs ++ extrinsic_filter ys
  unfolding extrinsic_filter
  filter-append [] ys = refl
  filter-append (x ∷ xs) ys =
      ap (push (transaction_of (function x))) (filter-append xs ys)
      ∙ push-append (transaction_of (function x)) (extrinsic_filter xs) (extrinsic_filter ys)

  filter-map-convert :
      (ts : List (Transaction H Rest)) → extrinsic_filter (map convert_transaction ts) ≡ ts
  unfolding extrinsic_filter convert_transaction
  filter-map-convert [] = refl
  filter-map-convert (t ∷ ts) = rw (function-new_unsigned, filter-map-convert ts)

  -- The filter gives back converted transactions, in order and wherever they stand among other
  -- extrinsics, of which it keeps what it would keep of them alone.
  pub filter-convert :
      (xs ys : List Extrinsic) (ts : List (Transaction H Rest))
      → extrinsic_filter (xs ++ (map convert_transaction ts ++ ys))
        ≡ extrinsic_filter xs ++ (ts ++ extrinsic_filter ys)
  filter-convert xs ys ts = rw (filter-append, filter-append, filter-map-convert ts)

  -- The conversion into an opaque extrinsic never panics, and its result has the bytes that encode
  -- the extrinsic of the other conversion.
  convert_transaction_opaque-bytes :
      (K : Codec Extrinsic) (t : Transaction H Rest)
      → (o : K.OpaqueExtrinsic) × (convert_transaction_opaque K t ≡ some o)
        × (K.bytes o ≡ K.encode (convert_transaction t))
  unfolding convert_transaction_opaque
  convert_transaction_opaque-bytes K t = K.decode-encode (convert_transaction t)
