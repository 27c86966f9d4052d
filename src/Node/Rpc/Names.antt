-- ===== src/Node/Rpc/Names.antt =====
-- The names of the methods that the RPC module of the node has.
use qnch_chain.Prelude.{
  subst, fun_ext, ◌≡◌, refl, ap, sym, ◌∙◌, Bool, true, false, ◌&&◌, ◌||◌, not, Option, none, some,
  List, [], ◌∷◌, ◌++◌, Result, ok, err, Action, ◌>>◌, pure, arith, contains, Bool-cases, ◌⊎◌, inl,
  inr, if◌then◌else◌,
}
use qnch_chain.Node.Rpc.{
  Types, EthDeps, FullDeps, Server, system, transaction_payment, net, web3, tx_pool, eth_server,
  filter_server, pub_sub_server, create_full, merge_full, merge_filter, returned,
}

-- No name of the list is taken.
abbrev pub fresh : {N : Type 0} → (N → Bool) → List N → Bool
fresh taken [] = true
fresh taken (x ∷ xs) = not (taken x) && fresh taken xs

-- The names that are taken when those of the list come to them.
abbrev pub adds : {N : Type 0} → Discrete N → (N → Bool) → List N → N → Bool
adds dec taken xs n = taken n || contains dec n xs

-- The RPC module of `jsonrpsee`: `merge` adds all the methods of a server, or fails if the module has
-- a method of one of their names. The methods of a module are a set: they have no order.
pub record RpcModule (T : Types) (E : Type 0) {N : Type 0} (dec : Discrete N) : Type 1 where
  pub Io : Type 0
  pub new : Io
  pub merge : Server T → Action Io E (Unit {0})
  pub names : Io → N → Bool
  pub methods : Server T → List N
  pub names-new : names new ≡ (λ n. false)
  pub merge-fresh :
      (m : Server T) (io : Io)
      → fresh (names io) (methods m) ≡ true
      → (after : Io) × (merge m io ≡ (ok tt, after))
        × (names after ≡ adds dec (names io) (methods m))
  pub merge-clash :
      (m : Server T) (io : Io)
      → fresh (names io) (methods m) ≡ false
      → (e : E) × ((merge m io).0 ≡ err e)

module _ {T : Types} {E N : Type 0} {dec : Discrete N} (M : RpcModule T E dec) (txpool : Bool) where
  open M use {Io, new, merge, names, methods, names-new, merge-fresh, merge-clash}

  abbrev filters : EthDeps T → T.Executor → T.Sinks → List (Server T)
  filters deps executor sinks = elim deps.filter_pool [
    | none ↦ []
    | some pool ↦ filter_server deps executor sinks pool ∷ []
  ]

  -- The servers of a node, in the order of their registration.
  abbrev pub servers : FullDeps T → T.Executor → T.Sinks → List (Server T)
  servers deps executor sinks =
      system deps.client deps.pool deps.deny_unsafe
        ∷ transaction_payment deps.client
        ∷ eth_server deps.eth executor sinks
        ∷ filters deps.eth executor sinks
      ++ (pub_sub_server deps.eth executor sinks
          ∷ net deps.eth.client deps.eth.network true
          ∷ web3 deps.eth.client
          ∷ (if txpool then tx_pool deps.eth.client deps.eth.graph ∷ [] else []))

  -- The names of all servers.
  abbrev pub all_methods : List (Server T) → List N
  all_methods [] = []
  all_methods (m ∷ ms) = methods m ++ all_methods ms

  -- Each server's names are new beside the names before it.
  abbrev pub compatible : (N → Bool) → List (Server T) → Bool
  compatible taken [] = true
  compatible taken (m ∷ ms) = fresh taken (methods m) && compatible (adds dec taken (methods m)) ms

  abbrev merge_all : List (Server T) → Action Io E (Unit {0})
  merge_all [] = pure tt
  merge_all (m ∷ ms) = merge m >> merge_all ms

  -- What merging servers into a module comes to.
  abbrev Outcome : List (Server T) → Io → Result (Unit {0}) E × Io → Type 0
  Outcome ms io r =
      ((compatible (names io) ms ≡ true)
        × ((after : Io) × (r ≡ (ok tt, after))
            × (names after ≡ adds dec (names io) (all_methods ms))))
      ⊎ ((compatible (names io) ms ≡ false) × ((e : E) × (r.0 ≡ err e)))

  contains-append :
      (n : N) (xs ys : List N) → contains dec n (xs ++ ys) ≡ contains dec n xs || contains dec n ys
  contains-append n [] ys = refl
  contains-append n (x ∷ xs) ys = ground (arith, contains-append n xs ys)

  -- To add two lists is to add both at once.
  adds_both :
      (taken : N → Bool) (xs ys : List N)
      → adds dec (adds dec taken xs) ys ≡ adds dec taken (xs ++ ys)
  adds_both taken xs ys = fun_ext (λ n. ground (arith, contains-append n xs ys))

  clash :
      (m : Server T) (ms : List (Server T)) (io : Io) (e : E)
      → (merge m io).0 ≡ err e
      → (merge_all (m ∷ ms) io).0 ≡ err e
  clash m ms io e f = ground (arith, f)

  merges :
      (m : Server T) (ms : List (Server T)) (io after : Io)
      → merge m io ≡ (ok tt, after)
      → merge_all (m ∷ ms) io ≡ merge_all ms after
  merges m ms io after f = ground (arith, f)

  merge_all-Outcome : (ms : List (Server T)) (io : Io) → Outcome ms io (merge_all ms io)
  merge_all-Outcome [] io = inl (refl, (io, refl, fun_ext (λ n. ground arith)))
  merge_all-Outcome (m ∷ ms) io = elim (Bool-cases (fresh (names io) (methods m))) [
    | inr d ↦ let (e, f) = merge-clash m io d in inr (rw d refl, (e, clash m ms io e f))
    | inl d ↦
        let (after, f, n) = merge-fresh m io d in
        elim (merge_all-Outcome ms after) [
          | inl (c, (last, r, k)) ↦ inl (
            rw (d, sym n) c,
            (
              last,
              merges m ms io after f ∙ r,
              k ∙ ap (λ taken. adds dec taken (all_methods ms)) n ∙ adds_both _ _ _,
            ),
          )
          | inr (c, (e, r)) ↦ inr (rw (d, sym n) c, (e, ap (λ x. x.0) (merges m ms io after f) ∙ r))
        ]
  ]

  filters_first :
      {P : Type 0} (server : P → Server T) (pool : Option P) (ms : List (Server T))
      → (elim pool [ none ↦ pure tt | some p ↦ merge (server p) ]) >> merge_all ms
        ≡ merge_all ((elim pool [ none ↦ [] | some p ↦ server p ∷ [] ]) ++ ms)
  filters_first server none ms = refl
  filters_first server (some p) ms = refl

  returned-err :
      (r : Result (Unit {0}) E × Io) (e : E) → r.0 ≡ err e → returned merge txpool r ≡ err e
  returned-err r e h = ground (arith, h)

  last_optional :
      (b : Bool) (m : Server T)
      → (if b then merge m else pure tt) ≡ merge_all (if b then m ∷ [] else [])
  last_optional true m = fun_ext (λ io. ground arith)
  last_optional false m = refl

  merge_full-merge_all :
      (deps : FullDeps T) (executor : T.Executor) (sinks : T.Sinks)
      → merge_full merge txpool deps executor sinks new
        ≡ merge_all (servers deps executor sinks) new
  unfolding merge_full
  merge_full-merge_all deps executor sinks =
      let before : Action Io E (Unit {0}) → Result (Unit {0}) E × Io = λ k.
        (merge (system deps.client deps.pool deps.deny_unsafe)
            >> (merge (transaction_payment deps.client)
                >> (merge (eth_server deps.eth executor sinks) >> k)))
          new in
      ap
        (λ k. before (
          merge_filter merge txpool deps.eth executor sinks
          >> (merge (pub_sub_server deps.eth executor sinks)
              >> (merge (net deps.eth.client deps.eth.network true)
                  >> (merge (web3 deps.eth.client) >> k)))))
        (last_optional txpool (tx_pool deps.eth.client deps.eth.graph))
      ∙ ap before (
          filters_first (filter_server deps.eth executor sinks) deps.eth.filter_pool (
            pub_sub_server deps.eth executor sinks
            ∷ net deps.eth.client deps.eth.network true
            ∷ web3 deps.eth.client
            ∷ (if txpool then tx_pool deps.eth.client deps.eth.graph ∷ [] else [])))

  -- Either the servers of the node have no method name in common, and `create_full` returns a module
  -- with exactly their methods: those of system, payment, eth, filter (if there is a filter pool),
  -- pubsub, net, web3 and pool (if the feature is on); or two of them share a name, and it returns an
  -- error.
  pub create_full-names :
      (deps : FullDeps T) (executor : T.Executor) (sinks : T.Sinks)
      → let all = servers deps executor sinks in
        ((compatible (λ n. false) all ≡ true)
          × ((io : Io) × (create_full merge txpool new deps executor sinks ≡ ok io)
              × ((n : N) → names io n ≡ contains dec n (all_methods all))))
        ⊎ ((compatible (λ n. false) all ≡ false)
            × ((e : E) × (create_full merge txpool new deps executor sinks ≡ err e)))
  unfolding create_full
  create_full-names deps executor sinks =
      let all = servers deps executor sinks in
      let same = merge_full-merge_all deps executor sinks in
      elim (merge_all-Outcome all new) [
        | inl (c, (io, r, n)) ↦ inl (
          subst (λ ns. compatible ns all ≡ true) names-new c,
          (
            io,
            ap (returned merge txpool) (same ∙ r),
            λ x. ap (λ f. f x) (n ∙ ap (λ taken. adds dec taken (all_methods all)) names-new),
          ),
        )
        | inr (c, (e, r)) ↦ inr (
          subst (λ ns. compatible ns all ≡ false) names-new c,
          (e, ap (returned merge txpool) same ∙ returned-err _ e r),
        )
      ]
