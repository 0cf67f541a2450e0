-- ===== src/Pool/Liquidation.antt =====
-- `account_for_liquidate` of storage/mod.rs.
pub mod Conservation
pub mod Registry
pub mod Amounts
use abacus_protocol.Base.{
  ℕ, true, [], ◌∷◌, some, Result, ok, ok_or, unwrap, ◌>>=◌, ◌>>◌, refuse_if, insert, ◌==◌, not,
  get_elem?, set,
}
use abacus_protocol.Base.Bits.{bit_at}
use abacus_protocol.Errors.{
  LendingPoolError, nothing_to_repay, nothing_to_compensate_with, taking_not_a_collateral,
  from_math,
}
use abacus_protocol.Library.MulDiv.{Pendzl}
use abacus_protocol.Library.Math.{calculate_amount_to_take}
use abacus_protocol.Library.Account.{AccountConfig, FeeReductions, shifted}
use abacus_protocol.Pool.Storage.{
  AccountId, AccountDatas, LendingPoolStorage, MarketRule, Oracles, asset_id, get_account_datas,
  get_account_config, get_account_data_entry_mut, get_assets_prices_e18, get_decimal_multiplier,
  get_fee_reductions_of_account, get_market_rule,
}
use abacus_protocol.Pool.Reserve.Actions.{ReserveAction, account_for_reserve_action}
use abacus_protocol.Pool.Transfer.{both}

unfoldable pub get_penalty : MarketRule → ℕ → Result LendingPoolError ℕ
get_penalty rule id = do
  entry ← unwrap (get_elem? rule id)
  rules ← unwrap entry
  unwrap rules.penalty_e6

-- The name promises a check of the collateralization, of which the source makes none here.
unfoldable pub calculate_liquidated_amount_and_ensure_collateralized :
    LendingPoolStorage → AccountId → ℕ → ℕ → ℕ → ℕ → ℕ → Result LendingPoolError ℕ
unfolding get_penalty get_decimal_multiplier get_market_rule
calculate_liquidated_amount_and_ensure_collateralized s account repay_id take_id repay_price_e18
      take_price_e18 amount_to_repay =
    do
      config ← ok_or (s.account_configs account) nothing_to_repay
      flag ← shifted take_id (bit_at config.collaterals take_id)
      refuse_if (not (flag == 1)) taking_not_a_collateral
      repay_decimals ← get_decimal_multiplier s repay_id
      take_decimals ← get_decimal_multiplier s take_id
      rule ← get_market_rule s config
      penalty_to_repay ← get_penalty rule repay_id
      penalty_to_take ← get_penalty rule take_id
      from_math (
          calculate_amount_to_take amount_to_repay repay_price_e18 take_price_e18 repay_decimals
            take_decimals penalty_to_repay penalty_to_take)

-- What a liquidation returns: the amount repaid, the amount taken, and the interests of the
-- liquidated account in the repaid asset, and of both accounts in the taken one.
pub record Liquidated : Type 0 where
  pub storage : LendingPoolStorage
  pub amount_repaid : ℕ
  pub amount_taken : ℕ
  pub repay_interests : ℕ × ℕ
  pub take_interests : (ℕ × ℕ) × (ℕ × ℕ)

-- What one account, or one of two, has after its turn.
pub record Party : Type 0 where
  pub datas : AccountDatas
  pub config : AccountConfig
  pub reductions : FeeReductions

module _ ⦃p : Pendzl⦄ where
  -- The repayment of the liquidated account's debt, up to its interests and the amount repaid.
  unfoldable pub account_for_repayment :
      LendingPoolStorage
      → ℕ
      → Party
      → ℕ
      → ℕ
      → Result LendingPoolError (LendingPoolStorage × Party × (ℕ × ℕ) × ℕ)
  account_for_repayment s id party amount timestamp = do
    entry ← unwrap (get_elem? party.datas id)
    to_repay ← ok_or entry nothing_to_repay
    refuse_if (to_repay.debt == 0) nothing_to_repay
    (s', t, amounts) ←
        account_for_reserve_action s id (to_repay ∷ []) (party.config ∷ []) (party.reductions ∷ [])
          (ReserveAction.repay 0 amount ∷ []) timestamp
    repaid ← unwrap (get_elem? t.datas 0)
    config ← unwrap (get_elem? t.configs 0)
    interests ← unwrap (get_elem? t.items 0)
    amount_repaid ← unwrap (get_elem? amounts 0)
    ok (
      s',
      record party { datas = set party.datas id (some repaid); config = config },
      interests,
      amount_repaid,
    )

  -- The transfer of the liquidated account's deposit to the caller.
  unfoldable pub account_for_taking :
      LendingPoolStorage
      → ℕ
      → Party
      → Party
      → ℕ
      → ℕ
      → Result LendingPoolError (LendingPoolStorage × (Party × Party) × ((ℕ × ℕ) × (ℕ × ℕ)) × ℕ)
  unfolding get_account_data_entry_mut
  account_for_taking s id liquidated caller amount timestamp = do
    entry ← unwrap (get_elem? liquidated.datas id)
    to_take ← ok_or entry nothing_to_compensate_with
    (callers, caller_datas) ← get_account_data_entry_mut caller.datas id
    (s', t, amounts) ←
        account_for_reserve_action s id (to_take ∷ callers ∷ [])
          (liquidated.config ∷ caller.config ∷ []) (liquidated.reductions ∷ caller.reductions ∷ [])
          (ReserveAction.deposit_transfer 0 1 amount true ∷ []) timestamp
    (taken, callers') ← both t.datas
    (liquidated_config, caller_config) ← both t.configs
    interests ← both t.items
    amount_taken ← unwrap (get_elem? amounts 0)
    ok (
      s',
      (
        record liquidated {
          datas = set liquidated.datas id (some taken);
          config = liquidated_config;
        },
        record caller { datas = set caller_datas id (some callers'); config = caller_config },
      ),
      interests,
      amount_taken,
    )

module _ ⦃o : Oracles⦄ where
  abbrev pub party_of : LendingPoolStorage → AccountId → Party
  party_of s account = record {
    datas = get_account_datas s account;
    config = get_account_config s account;
    reductions = get_fee_reductions_of_account s account;
  }

-- Both accounts written back, the caller last.
abbrev pub settled : LendingPoolStorage → AccountId → AccountId → Party → Party → LendingPoolStorage
settled s liquidated caller liquidated_party caller_party = record s {
  account_configs =
      insert caller caller_party.config
        (insert liquidated liquidated_party.config s.account_configs);
  account_reserve_datas =
      insert caller caller_party.datas
        (insert liquidated liquidated_party.datas s.account_reserve_datas);
}

module _ ⦃p : Pendzl⦄ ⦃o : Oracles⦄ where
  -- The amount to take at the prices of the price feed.
  unfoldable pub amount_at_prices :
      LendingPoolStorage → AccountId → ℕ → ℕ → ℕ → Result LendingPoolError ℕ
  amount_at_prices s liquidated repay_id take_id amount_repaid = do
    prices ← get_assets_prices_e18 s
    repay_price ← unwrap (get_elem? prices repay_id)
    take_price ← unwrap (get_elem? prices take_id)
    calculate_liquidated_amount_and_ensure_collateralized s liquidated repay_id take_id repay_price
        take_price amount_repaid

  unfoldable pub account_for_liquidate :
      LendingPoolStorage
      → AccountId
      → AccountId
      → AccountId
      → AccountId
      → ℕ
      → ℕ
      → Result LendingPoolError Liquidated
  unfolding asset_id
  account_for_liquidate s caller liquidated asset_to_repay asset_to_take amount_to_repay timestamp =
      do
        repay_id ← asset_id s asset_to_repay
        take_id ← asset_id s asset_to_take
        let caller_party = party_of s caller
        (s', liquidated_party, repay_interests, amount_repaid) ←
            account_for_repayment s repay_id (party_of s liquidated) amount_to_repay timestamp
        amount_to_take ← amount_at_prices s' liquidated repay_id take_id amount_repaid
        (s'', parties, take_interests, amount_taken) ←
            account_for_taking s' take_id liquidated_party caller_party amount_to_take timestamp
        ok (record {
          storage = settled s'' liquidated caller parties.0 parties.1;
          amount_repaid = amount_repaid;
          amount_taken = amount_taken;
          repay_interests = repay_interests;
          take_interests = take_interests;
        })
