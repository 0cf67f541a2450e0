-- ===== src/Pool/Management/Laws.antt =====
-- What the registration of assets keeps, and what changes of parameters do.
use abacus_protocol.Base.{
  leb, length-append, length-replicate, replicate, get_elem?-set_lt, [], ◌∷◌, ok, ap, ◌∙◌, ◌>>=◌,
  set, ℕ, zero, suc, ◌+◌, ◌-◌, ◌<◌, ◌≡◌, ◌≢◌, refl, Bool, true, false, Option, none, some, arith,
  Ensures, is_some, insert, List, length, get_elem?, Option-cases, inl, inr,
}
use abacus_protocol.Errors.{from_rules}
use abacus_protocol.Library.InterestRate.{InterestRateModel}
use abacus_protocol.Library.Reserve.{ReserveData, set_is_frozen}
use abacus_protocol.Library.Restrictions.{ReserveRestrictions}
use abacus_protocol.Library.Indexes.{ReserveFees}
use abacus_protocol.Library.AssetRules.{AssetRules, validate_new_rule}
use abacus_protocol.Pool.Storage.{
  AccountId, LendingPoolStorage, get_all_registered_assets, assets_from, asset_id, MarketRule,
  get_reserve_data,
}
use abacus_protocol.Pool.Management.{
  account_for_register_asset, account_for_asset_rule_change, account_for_changing_is_frozen,
  extended, ensure_market_rule_in_bounds,
}

-- Every part of a reserve is stored under an id.
abbrev pub IsComplete : LendingPoolStorage → ℕ → Type 0
IsComplete s id =
    (is_some (s.reserve_datas id) ≡ true)
    × (is_some (s.reserve_restrictions id) ≡ true)
    × (is_some (s.reserve_decimal_multiplier id) ≡ true)
    × (is_some (s.reserve_indexes_and_fees id) ≡ true)
    × (is_some (s.tw_ur_indexes id) ≡ true)

-- The two maps between assets and ids are inverse to each other, the ids in use are those below
-- `next_asset_id`, and each of these has a complete reserve.
abbrev pub Registry : LendingPoolStorage → Type 0
Registry s =
    ((asset id : ℕ)
      → s.asset_to_id asset ≡ some id
      → (id < s.next_asset_id) × (s.id_to_asset id ≡ some asset))
    × ((id : ℕ) → id < s.next_asset_id → (is_some (s.id_to_asset id) ≡ true) × IsComplete s id)
    × ((id asset : ℕ) → s.id_to_asset id ≡ some asset → s.asset_to_id asset ≡ some id)

-- From a storage with a registry (the two asset maps inverse to each other, the ids in use those
-- below the next one, a complete reserve under each), an accepted registration keeps it, is of an
-- asset that had no id, gives the asset the next id, and leaves the ids of the other assets.
pub account_for_register_asset-Registry :
    (s : LendingPoolStorage) (asset : AccountId) (r : ReserveData)
    (restrictions : ReserveRestrictions) (decimals : ℕ) (fees : ReserveFees)
    (model : Option InterestRateModel) (now : ℕ)
    → Registry s
    → Ensures
        (λ s'.
          Registry s'
          × (s.asset_to_id asset ≡ none)
          × (s'.asset_to_id asset ≡ some s.next_asset_id)
          × ((other : AccountId) → other ≢ asset → s'.asset_to_id other ≡ s.asset_to_id other)
          × (s'.next_asset_id ≡ s.next_asset_id + 1))
        (account_for_register_asset s asset r restrictions decimals fees model now)
unfolding account_for_register_asset
account_for_register_asset-Registry s asset r restrictions decimals fees model now
      (assets, ids, back) =
    ground (arith, assets, ids, back)

-- The index of a list that starts with the asset of an id.
assets_shift :
    (s : LendingPoolStorage) (assets : List AccountId) (a n id : ℕ)
    → s.id_to_asset id ≡ some a
    → ((i : ℕ) → i < n → get_elem? assets i ≡ s.id_to_asset (id + 1 + i))
    → (i : ℕ) → i < suc n
    → get_elem? (a ∷ assets) i ≡ s.id_to_asset (id + i)
assets_shift s assets a n id first rest zero h = rw (← first) (ap s.id_to_asset (omega arith))
assets_shift s assets a n id first rest (suc i) h =
    rest i (omega arith) ∙ ap s.id_to_asset (omega arith)

assets_from_lem :
    (s : LendingPoolStorage) (n id : ℕ)
    → ((j : ℕ) → j < id + n → is_some (s.id_to_asset j) ≡ true)
    → (assets : List AccountId) × (assets_from s n id ≡ ok assets)
      × (length assets ≡ n)
      × ((i : ℕ) → i < n → get_elem? assets i ≡ s.id_to_asset (id + i))
unfolding assets_from
assets_from_lem s zero id h = ([], refl, refl, λ i lt. absurd (omega arith))
assets_from_lem s (suc n) id h =
    let (assets, e, len, at) = assets_from_lem s n (id + 1) (λ j lt. h j (omega arith)) in
    elim (Option-cases (s.id_to_asset id)) [
      | inl q ↦ absurd (grind (arith, h id (omega arith)))
      | inr (a, q) ↦ (a ∷ assets, rw (q, e) refl, ap suc len, assets_shift s assets a n id q at)
    ]

-- With a registry, the list of all registered assets is computed, has one entry for each id, and
-- each stands at the place of its id.
pub get_all_registered_assets_lem :
    (s : LendingPoolStorage)
    → Registry s
    → (assets : List AccountId) × (get_all_registered_assets s ≡ ok assets)
      × (length assets ≡ s.next_asset_id)
      × ((i : ℕ) → i < s.next_asset_id → get_elem? assets i ≡ s.id_to_asset i)
unfolding get_all_registered_assets
get_all_registered_assets_lem s (assets, ids, back) =
    let (list, e, len, at) =
      assets_from_lem s s.next_asset_id 0 (λ j lt. (ids j (omega arith)).0) in
    (list, e, len, λ i lt. at i lt ∙ ap s.id_to_asset (omega arith))

-- For a registered asset and a market rule that exists, the outcome of an asset rule change is
-- that of a validation against no rule: the rule that is replaced plays no part in it.
pub account_for_asset_rule_change-ignores_old :
    (s : LendingPoolStorage) (rule_id id : ℕ) (asset : AccountId) (rules : AssetRules)
    (rule : MarketRule)
    → s.asset_to_id asset ≡ some id
    → rule_id < s.next_rule_id
    → s.market_rules rule_id ≡ some rule
    → account_for_asset_rule_change s rule_id asset rules ≡ (
        from_rules (validate_new_rule rules none) >>= λ _. ok (record s {
          market_rules = insert rule_id (set (extended rule id) id (some rules)) s.market_rules;
        }))
unfolding account_for_asset_rule_change asset_id ensure_market_rule_in_bounds validate_new_rule
account_for_asset_rule_change-ignores_old s rule_id id asset rules rule known bounds found =
    let longer = length-append rule (replicate (suc id - length rule) none) in
    let padding = length-replicate {A = Option AssetRules} (suc id - length rule) none in
    let in_bounds : leb s.next_rule_id rule_id ≡ false = ground arith in
    let read = get_elem?-set_lt (extended rule id) id (some rules) (grind arith) in
    rw (known, in_bounds, found, read) (ground arith)

-- Whether the reserve of an id is frozen.
abbrev pub frozen_in : LendingPoolStorage → ℕ → Bool
frozen_in s id = elim (s.reserve_datas id) [ none ↦ false | some r ↦ r.frozen ]

-- An accepted change of is_frozen leaves the frozen flag of every reserve as it was.
pub account_for_changing_is_frozen_lem :
    (s : LendingPoolStorage) (asset : AccountId) (freeze : Bool) (j : ℕ)
    → Ensures (λ s'. frozen_in s' j ≡ frozen_in s j) (account_for_changing_is_frozen s asset freeze)
unfolding account_for_changing_is_frozen asset_id get_reserve_data set_is_frozen
account_for_changing_is_frozen_lem s asset freeze j = ground arith
