-- ===== src/Gen/Genesis/Supply.antt =====
-- chain/genesis.go: the supply, the balances and the accounts of a generated genesis.
use chain_stresser.Common.{
  ℕ, zero, suc, ◌+◌, ◌*◌, ◌<◌, ◌≡◌, refl, ◌∙◌, arith, true, false, Option, none, some, List, [],
  ◌∷◌, ◌++◌, append_assoc, append_nil, map, sym, ap,
}
use native.Mathlib.Nat.{suc-mul}
use chain_stresser.Common.Bytes.{Bytes}
use chain_stresser.Gen.Genesis.{
  Coins, add_coins, Genesis, add_account, add_validator, save, add_validators, add_accounts,
  add_instances, save_times, fill_genesis,
}

abbrev pub total : {Addr : Type 0} → Bytes → List (Addr × Coins) → ℕ
total d [] = 0
total d (b ∷ bs) = b.1 d + total d bs

total-append :
    {Addr : Type 0} (d : Bytes) (xs ys : List (Addr × Coins))
    → total d (xs ++ ys) ≡ total d xs + total d ys
total-append d [] ys = omega arith
total-append d (x ∷ xs) ys = omega (arith, total-append d xs ys)

-- The numbers from an index on, as many as are asked for.
abbrev pub range : ℕ → ℕ → List ℕ
range i zero = []
range i (suc n) = i ∷ range (suc i) n

-- The lists of several instances, one after the other.
abbrev pub concat : {A : Type 0} → List (List A) → List A
concat [] = []
concat (xs ∷ xss) = xs ++ concat xss

module _ {Addr : Type 0} (staker account : Coins) (staker_address : ℕ → Addr)
    (account_address : ℕ → ℕ → Addr) (tx : ℕ → Bytes)
    (sanitize : List (Addr × Coins) → List (Addr × Coins)) where
  abbrev txs : ℕ → Option Bytes
  txs i = some (tx i)

  -- The accounts of some instances, from an index on.
  abbrev instances_from : ℕ → ℕ → ℕ → List Addr
  instances_from per i n = concat (map (λ k. map (account_address k) (range 0 per)) (range i n))

  -- From one genesis to another, not saved, one: these accounts and transactions behind the others,
  -- and that much more in the supply and in the balances.
  abbrev Grows : Genesis Addr → Genesis Addr → List Addr → List Bytes → Coins → Type 0
  Grows g g' accounts validators coins =
      (g'.finalized ≡ false)
      × (g'.accounts ≡ g.accounts ++ accounts)
      × (g'.gen_txs ≡ g.gen_txs ++ validators)
      × ((d : Bytes)
          → (g'.supply d ≡ g.supply d + coins d)
            × (total d g'.balances ≡ total d g.balances + coins d))

  add_account-Grows :
      (a : Addr) (c : Coins) (g : Genesis Addr)
      → g.finalized ≡ false
      → (g' : Genesis Addr) × (add_account a (some c) g ≡ some g') × Grows g g' (a ∷ []) [] c
  unfolding add_account
  add_account-Grows a c g open' = (
    record g {
      accounts = g.accounts ++ a ∷ [];
      balances = g.balances ++ (a, c) ∷ [];
      supply = add_coins g.supply c;
    },
    rw open' refl,
    (
      open',
      refl,
      sym (append_nil g.gen_txs),
      λ d. (refl, omega (arith, total-append d g.balances ((a, c) ∷ []))),
    ),
  )

  add_validator-Grows :
      (i : ℕ) (g : Genesis Addr)
      → g.finalized ≡ false
      → (g' : Genesis Addr) × (add_validator (txs i) g ≡ some g')
        × Grows g g' [] (tx i ∷ []) (λ d. 0)
  unfolding add_validator
  add_validator-Grows i g open' = (
    record g { gen_txs = g.gen_txs ++ tx i ∷ [] },
    rw open' refl,
    (open', sym (append_nil g.accounts), refl, λ d. (omega arith, omega arith)),
  )

  Grows-append :
      (g g' g'' : Genesis Addr) (a a' : List Addr) (v v' : List Bytes) (c c' : Coins)
      → Grows g g' a v c
      → Grows g' g'' a' v' c'
      → Grows g g'' (a ++ a') (v ++ v') (add_coins c c')
  Grows-append g g' g'' a a' v v' c c' (o, accounts, validators, coins)
        (o', accounts', validators', coins') =
      (
        o',
        accounts' ∙ (ap (λ l. l ++ a') accounts ∙ append_assoc g.accounts a a'),
        validators' ∙ (ap (λ l. l ++ v') validators ∙ append_assoc g.gen_txs v v'),
        λ d. (omega (arith, (coins d).0, (coins' d).0), omega (arith, (coins d).1, (coins' d).1)),
      )

  Grows-equal :
      (g g' : Genesis Addr) (a : List Addr) (v : List Bytes) (c c' : Coins)
      → ((d : Bytes) → c d ≡ c' d)
      → Grows g g' a v c
      → Grows g g' a v c'
  Grows-equal g g' a v c c' ec (o, accounts, validators, coins) = (
    o,
    accounts,
    validators,
    λ d. (omega (arith, (coins d).0, ec d), omega (arith, (coins d).1, ec d)),
  )

  Grows-refl : (g : Genesis Addr) → g.finalized ≡ false → Grows g g [] [] (λ d. 0)
  Grows-refl g o =
      (o, sym (append_nil g.accounts), sym (append_nil g.gen_txs), λ d. (omega arith, omega arith))

  add_validators-Grows :
      (i n : ℕ) (g : Genesis Addr)
      → g.finalized ≡ false
      → (g' : Genesis Addr) × (add_validators
            (some staker)
            (some account)
            staker_address
            account_address
            txs
            sanitize
            i
            n
            g
          ≡ some g')
        × Grows g g' (map staker_address (range i n)) (map tx (range i n)) (λ d. n * staker d)
  unfolding add_validators
  add_validators-Grows i zero g o = (
    g,
    refl,
    Grows-equal g g [] [] (λ d. 0) (λ d. 0 * staker d) (λ d. omega arith) (Grows-refl g o),
  )
  add_validators-Grows i (suc n) g o =
      let (g1, e1, s1) = add_account-Grows (staker_address i) staker g o in
      let (g2, e2, s2) = add_validator-Grows i g1 s1.0 in
      let (g3, e3, s3) = add_validators-Grows (suc i) n g2 s2.0 in
      (
        g3,
        rw (e1, e2) e3,
        Grows-equal g g3 _ _ _ (λ d. suc n * staker d) (λ d. omega (arith, suc-mul n (staker d)))
            (Grows-append g g1 g3 (staker_address i ∷ []) _ [] _ staker _ s1
              (Grows-append g1 g2 g3 [] _ (tx i ∷ []) _ (λ d. 0) _ s2 s3)),
      )

  add_accounts-Grows :
      (i j n : ℕ) (g : Genesis Addr)
      → g.finalized ≡ false
      → (g' : Genesis Addr) × (add_accounts
            (some staker)
            (some account)
            staker_address
            account_address
            txs
            sanitize
            i
            j
            n
            g
          ≡ some g')
        × Grows g g' (map (account_address i) (range j n)) [] (λ d. n * account d)
  unfolding add_accounts
  add_accounts-Grows i j zero g o = (
    g,
    refl,
    Grows-equal g g [] [] (λ d. 0) (λ d. 0 * account d) (λ d. omega arith) (Grows-refl g o),
  )
  add_accounts-Grows i j (suc n) g o =
      let (g1, e1, s1) = add_account-Grows (account_address i j) account g o in
      let (g2, e2, s2) = add_accounts-Grows i (suc j) n g1 s1.0 in
      (
        g2,
        rw e1 e2,
        Grows-equal g g2 _ _ _ (λ d. suc n * account d) (λ d. omega (arith, suc-mul n (account d)))
            (Grows-append g g1 g2 (account_address i j ∷ []) _ [] [] account _ s1 s2),
      )

  add_instances-Grows :
      (per i n : ℕ) (g : Genesis Addr)
      → g.finalized ≡ false
      → (g' : Genesis Addr) × (add_instances
            (some staker)
            (some account)
            staker_address
            account_address
            txs
            sanitize
            per
            i
            n
            g
          ≡ some g')
        × Grows g g' (instances_from per i n) [] (λ d. n * (per * account d))
  unfolding add_instances
  add_instances-Grows per i zero g o = (
    g,
    refl,
    Grows-equal g g [] [] (λ d. 0) (λ d. 0 * (per * account d)) (λ d. omega arith) (Grows-refl g o),
  )
  add_instances-Grows per i (suc n) g o =
      let (g1, e1, s1) = add_accounts-Grows i 0 per g o in
      let (g2, e2, s2) = add_instances-Grows per (suc i) n g1 s1.0 in
      (
        g2,
        rw e1 e2,
        Grows-equal g g2 _ _ _ (λ d. suc n * (per * account d))
            (λ d. omega (arith, suc-mul n (per * account d)))
            (Grows-append g g1 g2 (map (account_address i) (range 0 per)) _ [] []
              (λ d. per * account d) _ s1 s2),
      )

  -- What saving keeps.
  abbrev Keeps : Genesis Addr → Genesis Addr → Type 0
  Keeps g g' =
      (g'.accounts ≡ g.accounts)
      × (g'.gen_txs ≡ g.gen_txs)
      × ((d : Bytes) → (g'.supply d ≡ g.supply d) × (total d g'.balances ≡ total d g.balances))

  module _
      (sanitizes : (d : Bytes) (bs : List (Addr × Coins))
        → total d (sanitize bs) ≡ total d bs) where
    save-Keeps : (g : Genesis Addr) → Keeps g (save sanitize g)
    unfolding save
    save-Keeps g = (refl, refl, λ d. (refl, sanitizes d g.balances))

    Keeps-trans : (g g' g'' : Genesis Addr) → Keeps g g' → Keeps g' g'' → Keeps g g''
    Keeps-trans g g' g'' (a, v, c) (a', v', c') =
        (a' ∙ a, v' ∙ v, λ d. ((c' d).0 ∙ (c d).0, (c' d).1 ∙ (c d).1))

    save_times-Keeps : (n : ℕ) (g : Genesis Addr) → Keeps g (save_times sanitize n g)
    unfolding save_times
    save_times-Keeps zero g = (refl, refl, λ d. (refl, refl))
    save_times-Keeps (suc n) g =
        Keeps-trans g (save sanitize g) (save_times sanitize n (save sanitize g)) (save-Keeps g)
          (save_times-Keeps n (save sanitize g))

    save_times_final :
        (n : ℕ) (g : Genesis Addr) → g.finalized ≡ true → (save_times sanitize n g).finalized ≡ true
    unfolding save_times save
    save_times_final zero g h = h
    save_times_final (suc n) g h = save_times_final n (save sanitize g) refl

    save_times_once :
        (n : ℕ) (g : Genesis Addr) → 0 < n → (save_times sanitize n g).finalized ≡ true
    unfolding save_times save
    save_times_once zero g h = elim h [ ]
    save_times_once (suc n) g h = save_times_final n (save sanitize g) refl

    -- Filling a genesis that is not saved never panics, for one validator or more: the accounts of
    -- the result are those before, then every validator's staker and every account of every instance,
    -- in order; a transaction for every validator is added, in order too; and there is of every denomination as much more in the supply as in the
    -- balances together, which is the stakers' and the accounts' coins. It is saved, and refuses more accounts.
    -- The parsing and the making of validators succeed, and sanitizing keeps the balances' total.
    pub fill_genesis-supply :
        (validators sentries instances per : ℕ) (g : Genesis Addr)
        → g.finalized ≡ false
        → 0 < validators
        → (g' : Genesis Addr) × (fill_genesis
              (some staker)
              (some account)
              staker_address
              account_address
              (λ i. some (tx i))
              sanitize
              validators
              sentries
              instances
              per
              g
            ≡ some g')
          × (g'.accounts
              ≡ g.accounts
                ++ (map staker_address (range 0 validators)
                    ++ concat
                        (map (λ i. map (account_address i) (range 0 per)) (range 0 instances))))
          × (g'.gen_txs ≡ g.gen_txs ++ map tx (range 0 validators))
          × ((d : Bytes)
              → (g'.supply d ≡ g.supply d + (validators * staker d + instances * (per * account d)))
                × (total d g'.balances
                    ≡ total d g.balances + (validators * staker d + instances * (per * account d))))
          × (g'.finalized ≡ true)
          × ((a : Addr) (c : Option Coins) → add_account a c g' ≡ none)
    unfolding fill_genesis add_account
    fill_genesis-supply validators sentries instances per g o some_validators =
        let (g1, e1, s1) = add_validators-Grows 0 validators g o in
        let (g2, e2, s2) = add_instances-Grows per 0 instances g1 s1.0 in
        let (_, accounts, txs', coins) =
          Grows-append g g1 g2 (map staker_address (range 0 validators)) _
            (map tx (range 0 validators)) [] (λ d. validators * staker d)
            (λ d. instances * (per * account d)) s1 s2 in
        let g3 : Genesis Addr = save_times sanitize validators g2 in
        let g4 : Genesis Addr = save_times sanitize sentries g3 in
        let (a4, v4, c4) =
          Keeps-trans g2 g3 g4 (save_times-Keeps validators g2) (save_times-Keeps sentries g3) in
        let final : g4.finalized ≡ true =
          save_times_final sentries g3 (save_times_once validators g2 some_validators) in
        (
          g4,
          rw (e1, e2) refl,
          a4 ∙ accounts,
          v4 ∙ (txs' ∙ ap (λ l. g.gen_txs ++ l) (append_nil _)),
          λ d. ((c4 d).0 ∙ (coins d).0, (c4 d).1 ∙ (coins d).1),
          final,
          λ a c. rw final refl,
        )
