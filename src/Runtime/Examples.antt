-- ===== src/Runtime/Examples.antt =====
-- The fees, the limits, the precompiles, the author and the conversions at concrete inputs: hashes are
-- numbers, and an authority is its raw bytes.
use qnch_chain.Prelude.{
  ℕ, ◌+◌, ◌*◌, ◌/◌, ◌≤◌, ◌≡◌, ◌≢◌, ◌↔◌, refl, Bool, true, false, Option, none, some, List, [], ◌∷◌,
  ◌++◌, map, ℕ_discrete, arith, ◌==◌, if◌then◌else◌, length,
}
use native.Mathlib.Nat.{mul-div_cancel, mul-le-mul_left, div-le_of_le-mul}
use qnch_chain.Runtime.Ethereum.{Transaction, legacy, call}
use qnch_chain.Runtime.SelfContained.{RuntimeCall, ethereum, other}
use qnch_chain.Runtime.Limits.{Ratio}
use qnch_chain.Runtime.Precompiles.{is_precompile, execute, execute-is_precompile}
use qnch_chain.Runtime.Author.{find_author, Finds, find_author-Finds}
use qnch_chain.Runtime.Conversion.{
  Extrinsics, Codec, convert_transaction, extrinsic_filter, filter-convert,
}

pub mul-div_le : (parts x : ℕ) → parts ≤ 1_000_000_000 → x * parts / 1_000_000_000 ≤ x
mul-div_le parts x h = div-le_of_le-mul 1_000_000_000 (omega (arith, mul-le-mul_left x h))

abbrev pub floor : Ratio
floor = record {
  mul = λ parts x. x * parts / 1_000_000_000;
  mul-exact = λ parts x y e. rw e (mul-div_cancel y {n = 1_000_000_000} (omega arith));
  mul-le = mul-div_le;
}

-- A handle is its code address, and the hash of a number is the number.
execute-is_precompile_example :
    let answer = is_precompile ℕ_discrete (λ n. n) 1024 21_000 in
    ((execute ℕ_discrete (λ n. n) (λ (h : ℕ). h) (λ p h. h) 1024 ≢ none)
      ↔ (answer.is_precompile ≡ true))
    × (answer.extra_cost ≡ 0)
execute-is_precompile_example =
    execute-is_precompile ℕ_discrete (λ n. n) (λ (h : ℕ). h) (λ p h. h) 1024 21_000

-- Two authorities of 32 bytes; the address of either is the list of its bytes.
abbrev authority : Bool → List ℕ
authority false =
    0 ∷ 1 ∷ 2 ∷ 3 ∷ 4 ∷ 5 ∷ 6 ∷ 7 ∷ 8 ∷ 9 ∷ 10 ∷ 11 ∷ 12 ∷ 13 ∷ 14 ∷ 15 ∷ 16 ∷ 17 ∷ 18 ∷ 19 ∷ 20
    ∷ 21 ∷ 22 ∷ 23 ∷ 24 ∷ 25 ∷ 26 ∷ 27 ∷ 28 ∷ 29 ∷ 30 ∷ 31 ∷ []
authority true =
    9 ∷ 1 ∷ 2 ∷ 3 ∷ 4 ∷ 5 ∷ 6 ∷ 7 ∷ 8 ∷ 9 ∷ 10 ∷ 11 ∷ 12 ∷ 13 ∷ 14 ∷ 15 ∷ 16 ∷ 17 ∷ 18 ∷ 19 ∷ 20
    ∷ 21 ∷ 22 ∷ 23 ∷ 24 ∷ 25 ∷ 26 ∷ 27 ∷ 28 ∷ 29 ∷ 30 ∷ 31 ∷ []

length-authority : (b : Bool) → length (authority b) ≡ 32
length-authority false = refl
length-authority true = refl

abbrev from_slice : List ℕ → Option (List ℕ)
from_slice bytes = if length bytes == 20 then some bytes else none

find_author-Finds_example :
    Finds
      (λ (d : Option ℕ). d)
      authority
      from_slice
      (some 1)
      (false ∷ true ∷ [])
      (find_author (λ (d : Option ℕ). d) authority from_slice (some 1) (false ∷ true ∷ []))
find_author-Finds_example =
    find_author-Finds (λ (d : Option ℕ). d) authority from_slice (λ bytes e. (bytes, ground arith))
      length-authority (some 1) (false ∷ true ∷ [])

abbrev RawCall : Type 0
RawCall = RuntimeCall ℕ ℕ ℕ (Unit {0})

abbrev bare : Extrinsics RawCall
bare = record {
  Extrinsic = RawCall;
  new_unsigned = λ c. c;
  function = λ x. x;
  function-new_unsigned = λ c. refl;
}

abbrev transfer : Transaction ℕ ℕ
transfer = legacy (record { action = call 4; rest = 9 })

filter-convert_example :
    extrinsic_filter bare
      (other tt ∷ map (convert_transaction bare) (transfer ∷ []) ++ (other tt ∷ []))
    ≡ transfer ∷ []
unfolding extrinsic_filter
filter-convert_example = filter-convert bare (other tt ∷ []) (other tt ∷ []) (transfer ∷ [])

-- A codec that only writes the kind of a call.
abbrev kind : RawCall → List ℕ
kind (ethereum c) = 1 ∷ []
kind c = 0 ∷ []

abbrev codec : Codec RawCall
codec = record {
  OpaqueExtrinsic = List ℕ;
  encode = kind;
  decode = λ bytes. some bytes;
  bytes = λ o. o;
  decode-encode = λ x. (kind x, refl, refl);
}

-- The storage is the sum of the extrinsics, and the number of a block adds to it when it is closed.
abbrev add : ℕ → ℕ → ℕ × ℕ
add x s = (x, x + s)

abbrev add_silently : ℕ → ℕ → ℕ × ℕ
add_silently x s = (0, x + s)

abbrev close : ℕ → ℕ → ℕ
close n s = n + s
