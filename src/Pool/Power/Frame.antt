-- ===== src/Pool/Power/Frame.antt =====
-- The check of the collateralization does not read the stored data and configurations of accounts.
use Prim.Native.Nat.{bit_and}
use abacus_protocol.Base.{
  ℕ, zero, suc, ◌+◌, ◌≡◌, refl, List, true, false, Option-cases, Result-cases, inl, inr, Mapping,
}
use abacus_protocol.Library.MulDiv.{Pendzl}
use abacus_protocol.Library.Account.{AccountConfig, FeeReductions}
use abacus_protocol.Pool.Storage.{
  AccountDatas, LendingPoolStorage, MarketRule, Oracles, get_assets_prices_e18,
  get_all_registered_assets, get_market_rule, assets_from,
}
use abacus_protocol.Pool.Power.{
  add_power, add_asset, power_step, power_from, calculate_lending_power_e6, ensure_collateralized,
  ensure_collateralized_from_raw,
}

-- A storage with the stored accounts replaced.
abbrev pub with_accounts :
    LendingPoolStorage → Mapping AccountDatas → Mapping AccountConfig → LendingPoolStorage
with_accounts s datas configs = record s {
  account_reserve_datas = datas;
  account_configs = configs;
}

module _ (s : LendingPoolStorage) (stored : Mapping AccountDatas)
    (configs : Mapping AccountConfig) where
  assets_from-frame :
      (n id : ℕ) → assets_from (with_accounts s stored configs) n id ≡ assets_from s n id
  unfolding assets_from
  assets_from-frame zero id = refl
  assets_from-frame (suc n) id = rw (assets_from-frame n (id + 1)) refl

  module _ ⦃p : Pendzl⦄ (datas : AccountDatas) (reductions : FeeReductions) (prices : List ℕ) where
    power_from-frame :
        (rule : MarketRule) (collaterals debts n id : ℕ) (totals : ℕ × ℕ)
        → power_from
            (with_accounts s stored configs)
            datas
            reductions
            prices
            rule
            collaterals
            debts
            n
            id
            totals
          ≡ power_from s datas reductions prices rule collaterals debts n id totals
    unfolding power_from power_step add_asset add_power
    power_from-frame rule collaterals debts zero id totals = refl
    power_from-frame rule collaterals debts (suc n) id totals =
        elim (Result-cases
          (power_step s datas reductions prices rule collaterals debts id totals)) [
            | inl ((true, t), e) ↦ rw e refl
            | inl ((false, t), e) ↦ rw e (power_from-frame rule collaterals debts n (id + 1) t)
            | inr (inl (e, h)) ↦ rw h refl
            | inr (inr h) ↦ rw h refl
          ]

    ensure_collateralized-frame :
        (config : AccountConfig)
        → ensure_collateralized (with_accounts s stored configs) datas config reductions prices
          ≡ ensure_collateralized s datas config reductions prices
    unfolding ensure_collateralized calculate_lending_power_e6 get_market_rule
    ensure_collateralized-frame config =
        elim (Option-cases (s.market_rules config.market_rule_id)) [
          | inl e ↦ rw e refl
          | inr (rule, e) ↦ rw e (
              rw
                (power_from-frame rule (bit_and config.deposits config.collaterals) config.borrows
                  s.next_asset_id 0 (0, 0))
                refl)
        ]

  module _ ⦃o : Oracles⦄ where
    prices-frame : get_assets_prices_e18 (with_accounts s stored configs) ≡ get_assets_prices_e18 s
    unfolding get_assets_prices_e18 get_all_registered_assets
    prices-frame = rw (assets_from-frame s.next_asset_id 0) refl

    pub ensure_collateralized_from_raw-frame :
        ⦃p : Pendzl⦄ (datas : AccountDatas) (config : AccountConfig) (reductions : FeeReductions)
        → ensure_collateralized_from_raw (with_accounts s stored configs) datas config reductions
          ≡ ensure_collateralized_from_raw s datas config reductions
    unfolding ensure_collateralized_from_raw
    ensure_collateralized_from_raw-frame datas config reductions =
        rw prices-frame (elim (Result-cases (get_assets_prices_e18 s)) [
          | inl (prices, e) ↦ rw e (ensure_collateralized-frame datas reductions prices config)
          | inr (inl (e, h)) ↦ rw h refl
          | inr (inr h) ↦ rw h refl
        ])
