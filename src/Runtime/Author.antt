-- ===== src/Runtime/Author.antt =====
-- parachain/runtime/src/configs/mod.rs: `FindAuthorTruncated`, which names the author of a block by
-- 20 bytes of its Aura key.
use qnch_chain.Prelude.{
  ℕ, ◌-◌, ◌≡◌, Option, none, some, List, arith, ltb, length, take, drop, get_elem?, length-take,
  length-drop, if◌then◌else◌, Option-cases, inl, inr, ◌⊎◌,
}

-- `xs[from..to]`; `none` is the panic of a range that ends behind the slice.
abbrev slice {ℓ} : {A : Type ℓ} → List A → ℕ → ℕ → Option (List A)
slice xs from to = if ltb (length xs) to then none else some (take (to - from) (drop from xs))

-- The digest's author index (`F::find_author`), the raw bytes of an authority and `H160::from_slice`,
-- which panics (`none`) unless it is given 20 bytes, come from other crates.
module _ {Digests Authority H : Type 0} (inner_find_author : Digests → Option ℕ)
    (to_raw_vec : Authority → List ℕ) (from_slice : List ℕ → Option H) where
  -- The address of an authority; `none` is a panic.
  abbrev address_of : Authority → Option H
  address_of a = elim (slice (to_raw_vec a) 4 24) [ none ↦ none | some bytes ↦ from_slice bytes ]

  -- `find_author`, where the outer `none` is a panic
  unfoldable pub find_author : Digests → List Authority → Option (Option H)
  find_author digests authorities = elim (inner_find_author digests) [
    | none ↦ some none
    | some author_index ↦ elim (get_elem? authorities author_index) [
      | none ↦ none
      | some authority_id ↦ elim (address_of authority_id) [ none ↦ none | some h ↦ some (some h) ]
    ]
  ]

  -- What the function returns, by the digest and the authorities.
  abbrev pub Finds : Digests → List Authority → Option (Option H) → Type 0
  Finds digests authorities r =
      ((inner_find_author digests ≡ none) × (r ≡ some none))
      ⊎ ((i : ℕ) × (inner_find_author digests ≡ some i)
          × (((get_elem? authorities i ≡ none) × (r ≡ none))
              ⊎ ((a : Authority) × (h : H) × (get_elem? authorities i ≡ some a)
                  × (from_slice (take 20 (drop 4 (to_raw_vec a))) ≡ some h)
                  × (r ≡ some (some h)))))

  -- If every authority has 32 raw bytes, then without an author index there is no author; an index
  -- past the authorities panics; and every other index gives the address made of the bytes 4 to 23
  -- of that authority, with no panic.
  pub find_author-Finds :
      ((bytes : List ℕ) → length bytes ≡ 20 → (h : H) × (from_slice bytes ≡ some h))
      → ((a : Authority) → length (to_raw_vec a) ≡ 32)
      → (digests : Digests) (authorities : List Authority)
      → Finds digests authorities (find_author digests authorities)
  unfolding find_author
  find_author-Finds total raw digests authorities =
      elim (Option-cases (inner_find_author digests)) [
        | inl e ↦ inl (e, ground arith)
        | inr (i, e) ↦ inr (
          i,
          e,
          elim (Option-cases (get_elem? authorities i)) [
            | inl m ↦ inl (m, ground arith)
            | inr (a, m) ↦
                let bytes = take 20 (drop 4 (to_raw_vec a)) in
                let (h, f) = total bytes (
                  omega (
                    arith,
                    length-take 20 (drop 4 (to_raw_vec a)),
                    length-drop 4 (to_raw_vec a),
                    raw a,
                  )) in
                inr (a, h, m, f, ground (arith, raw a))
          ],
        )
      ]
