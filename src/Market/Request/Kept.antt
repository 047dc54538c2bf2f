-- ===== src/Market/Request/Kept.antt =====
-- What a request of a contract leaves in the market's tables.
use lord.Prelude.{
  [], ℕ, ltb, ◌<◌, ◌==◌, not, ◌&&◌, true, false, Option, none, some, ◌≡◌, ◌≢◌, refl, arith,
  Bool-cases, ltb→lt, Option-cases, ==_iff, inl, inr,
}
use lord.Storage.Meta.{CommitmentMeta, is_timestamped}
use lord.Market.Store.{
  StorageContract, ReplicationState, MarketStore, Table, put, new_pending_contract, put_contract,
  put_replication_state, initialize_replication_state,
}
use lord.Market.Request.{
  MarketSettings, RequestContractOptions, RequestContractResult, Result, ok, err, matches_format,
  check_commitment, check_request, read_back, create_contract, request_storage_contract,
  market_status, status_of,
}

same_key : (k : ℕ) → (k == k) ≡ true
same_key k = (==_iff k k).1 refl

other_key : (j k : ℕ) → j ≢ k → (j == k) ≡ false
other_key j k ne = ground arith

check_commitment-none :
    (found : Option CommitmentMeta) (options : RequestContractOptions)
    → check_commitment found options ≡ none
    → (meta : CommitmentMeta) × (found ≡ some meta)
      × (is_timestamped meta ≡ true)
      × (matches_format options.visibility meta.format ≡ true)
unfolding check_commitment
check_commitment-none none options h = absurd cc
check_commitment-none (some meta) options h = (meta, refl, ground arith, ground arith)

check_request-none :
    (storage : Table CommitmentMeta) (settings : MarketSettings) (bao_root : ℕ)
    (options : RequestContractOptions)
    → check_request storage settings bao_root options ≡ none
    → (meta : CommitmentMeta) × (storage bao_root ≡ some meta)
      × (0 < options.target_replication)
      × (is_timestamped meta ≡ true)
      × (matches_format options.visibility meta.format ≡ true)
unfolding check_request
check_request-none storage settings bao_root options h =
    elim (Bool-cases (ltb 0 options.target_replication)) [
      | inl t ↦ elim (Bool-cases (options.mutual_aid_only && not settings.mutual_aid_enabled)) [
        | inl m ↦ let h' = rw (t, m) at h in absurd cc
        | inr m ↦
            let (meta, known, stamped, visible) =
              check_commitment-none (storage bao_root) options (rw (t, m) at h) in
            (meta, known, ltb→lt 0 options.target_replication t, stamped, visible)
      ]
      | inr t ↦ let h' = rw t at h in absurd cc
    ]

module _ (storage : Table CommitmentMeta) (settings : MarketSettings) (bao_root : ℕ)
    (options : RequestContractOptions) (created_at : ℕ) (store : MarketStore) where
  abbrev new_contract : StorageContract
  new_contract =
      new_pending_contract bao_root options.target_replication options.visibility
        options.mutual_aid_only created_at

  -- The request was allowed, and the tables behind it hold the contract.
  pub record Accepted (result : RequestContractResult) (store' : MarketStore) : Type 0 where
    pub some_target : 0 < options.target_replication
    pub meta : CommitmentMeta
    pub known : storage bao_root ≡ some meta
    pub timestamped : is_timestamped meta ≡ true
    pub visible : matches_format options.visibility meta.format ≡ true
    pub absent : store.contracts bao_root ≡ none
    pub pending_contract : result.contract ≡ new_contract
    pub status : market_status store' bao_root ≡ ok result
    pub others : (root : ℕ) → root ≢ bao_root → store'.contracts root ≡ store.contracts root

  -- Each outcome of a request, with the tables behind it.
  abbrev pub Outcome : Result RequestContractResult × MarketStore → Type 0
  Outcome (err e, store') = store' ≡ store
  Outcome (ok result, store') = Accepted result store'

  created : MarketStore
  created = initialize_replication_state bao_root (put_contract new_contract store)

  created_contract : created.contracts bao_root ≡ some new_contract
  unfolding created initialize_replication_state put_contract put_replication_state put
      new_pending_contract
  created_contract = ground arith

  created_others : (root : ℕ) → root ≢ bao_root → created.contracts root ≡ store.contracts root
  unfolding created initialize_replication_state put_contract put_replication_state put
      new_pending_contract
  created_others root ne = ground arith

  new_state : ReplicationState
  new_state = record { bao_root = bao_root; observed_replication = 0; provider_peers = [] }

  created_state : (r : ReplicationState) × (created.replication bao_root ≡ some r)
  unfolding created new_state initialize_replication_state put_contract put_replication_state put
      new_pending_contract
  created_state = elim (Option-cases (store.replication bao_root)) [
    | inl e ↦ (new_state, ground arith)
    | inr (r, e) ↦ (r, ground arith)
  ]

  read_back-Outcome :
      (meta : CommitmentMeta)
      → storage bao_root ≡ some meta
      → 0 < options.target_replication
      → is_timestamped meta ≡ true
      → matches_format options.visibility meta.format ≡ true
      → store.contracts bao_root ≡ none
      → Outcome (read_back new_contract created)
  unfolding new_pending_contract market_status status_of read_back
  read_back-Outcome meta known target timestamped visible absent =
      let (r, e) = created_state in
      rw (e, read_back)
        (record {
          some_target = target;
          meta = meta;
          known = known;
          timestamped = timestamped;
          visible = visible;
          absent = absent;
          pending_contract = refl;
          status = rw (created_contract, e) refl;
          others = created_others;
        })

  create_contract-Outcome :
      (meta : CommitmentMeta)
      → storage bao_root ≡ some meta
      → 0 < options.target_replication
      → is_timestamped meta ≡ true
      → matches_format options.visibility meta.format ≡ true
      → Outcome (create_contract new_contract store)
  unfolding create_contract new_pending_contract created
  create_contract-Outcome meta known target timestamped visible =
      elim (Option-cases (store.contracts bao_root)) [
        | inl absent ↦ rw absent (read_back-Outcome meta known target timestamped visible absent)
        | inr (c, there) ↦ rw there refl
      ]

  -- A request either is refused and leaves the market's tables as they were, or is accepted: then the
  -- target is not zero, the commitment is known, timestamped and of the visibility that its format asks
  -- for, no contract existed for its root, the status of the root is from now on the new pending
  -- contract with a state of its replication, and the contracts of all other roots are as before.
  pub request_storage_contract-Outcome :
      Outcome (request_storage_contract storage settings bao_root options created_at store)
  unfolding request_storage_contract
  request_storage_contract-Outcome =
      elim (Option-cases (check_request storage settings bao_root options)) [
        | inl passed ↦
            let (meta, known, target, timestamped, visible) =
              check_request-none storage settings bao_root options passed in
            rw (passed, request_storage_contract)
              (create_contract-Outcome meta known target timestamped visible)
        | inr (e, refused) ↦ rw (refused, request_storage_contract) refl
      ]
