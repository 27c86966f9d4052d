-- ===== src/Runtime/Lifecycle/Policy.antt =====
-- What the chain promises of contract creations, without transactions, storage or events: a set of
-- accounts that root changes, and lists of who creates a contract. The steps of a chain with the runtime
-- of parachain/runtime/src/lib.rs keep the promise.
use qnch_chain.Prelude.{◌≡◌, Bool, true, not, ◌||◌, List, ◌∷◌, ◌++◌, map}
use qnch_chain.Frame.{Frame}
use qnch_chain.Pallet
use qnch_chain.Pallet.{Event, is_authorized}
use qnch_chain.Pallet.Whitelist.{Whitelist, step, view}
use qnch_chain.Runtime.Ethereum.{Chain, EthereumPallet}
use qnch_chain.Runtime.Gates.{creates}
use qnch_chain.Runtime.Lifecycle.{Dispatcher, System, Signed, deployer}

-- Whether a contract is created, and by whom.
abbrev pub Act : Type 0 → Type 0
Act A = Bool × A

pub record Policy (A : Type 0) : Type 0 where
  pub allowed : Whitelist A
  pub admitted : List (Act A)
  pub performed : List (Act A)

module _ {A : Type 0} (dec : Discrete A) where
  -- What may happen at once.
  pub data Obeys (p q : Policy A) : Type 0 where
    -- a call, by root or not, changes the set as it should
    calls :
        (root : Bool) (c : Pallet.Call A)
        → q.allowed ≡ (step dec root c p.allowed).1
        → q.admitted ≡ p.admitted
        → q.performed ≡ p.performed
        → Obeys p q
    idles : q.allowed ≡ p.allowed → q.admitted ≡ p.admitted → q.performed ≡ p.performed → Obeys p q
    -- who creates a contract is in the set when this is admitted
    admits :
        (x : Act A)
        → not x.0 || p.allowed x.1 ≡ true
        → q.allowed ≡ p.allowed
        → q.admitted ≡ x ∷ p.admitted
        → q.performed ≡ p.performed
        → Obeys p q
    drops :
        (before : List (Act A)) (x : Act A) (after : List (Act A))
        → p.admitted ≡ before ++ x ∷ after
        → q.allowed ≡ p.allowed
        → q.admitted ≡ before ++ after
        → q.performed ≡ p.performed
        → Obeys p q
    -- only what was admitted is performed
    performs :
        (before : List (Act A)) (x : Act A) (after : List (Act A))
        → p.admitted ≡ before ++ x ∷ after
        → q.allowed ≡ p.allowed
        → q.admitted ≡ p.admitted
        → q.performed ≡ x ∷ p.performed
        → Obeys p q

  -- Any number of these, one after the other.
  pub data Follows (p : Policy A) : Policy A → Type 0 where
    stays : Follows p p
    goes_on : {q r : Policy A} → Follows p q → Obeys q r → Follows p r

module _ {A H Rest Other D V X W : Type 0} {dec : Discrete A} (F : Frame dec (Event A))
    (E : EthereumPallet (Chain F W) H Rest D V X) (into_account_id : H → A)
    (R : Dispatcher F H Rest Other W) where
  abbrev act : Signed H Rest → Act A
  act e = (creates e.payload, deployer into_account_id e)

  -- What is seen of a chain.
  abbrev pub policy : System F H Rest W → Policy A
  policy s = record {
    allowed = view F s.chain.control;
    admitted = map act s.pool;
    performed = map act s.executed;
  }
