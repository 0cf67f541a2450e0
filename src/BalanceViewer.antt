-- ===== src/BalanceViewer.antt =====
-- src/contracts/periphery/balance_viewer/lib.rs: lists of what the pool shows of its assets.
use abacus_protocol.Base.{
  ℕ, ◌≡◌, refl, List, [], ◌∷◌, Option, none, some, Result, ok, ◌>>=◌, Ensures, arith,
}
use abacus_protocol.Errors.{LendingPoolError}
use abacus_protocol.Library.MulDiv.{Pendzl}
use abacus_protocol.Library.InterestRate.{InterestRateModel}
use abacus_protocol.Library.Reserve.{ReserveData}
use abacus_protocol.Library.Restrictions.{AccountReserveData, ReserveRestrictions}
use abacus_protocol.Library.Indexes.{ReserveIndexes, ReserveFees}
use abacus_protocol.Pool.Storage.{AccountId, LendingPoolStorage, Oracles, ReserveAbacusTokens}
use abacus_protocol.Messages.Session.{Env}
use abacus_protocol.Messages.View.{
  view_registered_assets, view_reserve_data, view_reserve_indexes, view_interest_rate_model,
  view_reserve_fees, view_reserve_restrictions, view_reserve_decimal_multiplier,
  view_reserve_tokens, view_unupdated_account_reserve_data, view_account_reserve_data,
}

-- The field `data` of the source is `data_of`.
pub record CompleteReserveData : Type 0 where
  pub data_of : Option ReserveData
  pub indexes : Option ReserveIndexes
  pub interest_rate_model : Option InterestRateModel
  pub fees : Option ReserveFees
  pub restriction : Option ReserveRestrictions
  pub decimal_multiplier : Option ℕ
  pub tokens : Option ReserveAbacusTokens

-- What the PSP22 token of an asset answers for an account.
pub record Balances : Type 0 where
  pub balance_of : AccountId → AccountId → ℕ

-- `assets.unwrap_or_else(…)`
unfoldable pub assets_to_view :
    LendingPoolStorage → Option (List AccountId) → Result LendingPoolError (List AccountId)
assets_to_view s none = view_registered_assets s
assets_to_view s (some assets) = ok assets

-- The loop over the assets.
unfoldable pub view_each :
    {V : Type 0}
    → (AccountId → Result LendingPoolError V)
    → List AccountId
    → Result LendingPoolError (List (AccountId × V))
view_each view [] = ok []
view_each view (asset ∷ assets) = do
  shown ← view asset
  rest ← view_each view assets
  ok ((asset, shown) ∷ rest)

unfoldable pub view_datas :
    {V : Type 0}
    → LendingPoolStorage
    → Option (List AccountId)
    → (AccountId → Result LendingPoolError V)
    → Result LendingPoolError (List (AccountId × V))
unfolding assets_to_view view_each
view_datas s assets view = do viewed ← assets_to_view s assets; view_each view viewed

unfoldable pub view_account_balances :
    ⦃b : Balances⦄
    → LendingPoolStorage
    → Option (List AccountId)
    → AccountId
    → Result LendingPoolError (List (AccountId × ℕ))
view_account_balances ⦃b = b⦄ s assets account =
    view_datas s assets (λ asset. ok (b.balance_of asset account))

unfoldable pub view_unupdated_reserve_datas :
    LendingPoolStorage
    → Option (List AccountId)
    → Result LendingPoolError (List (AccountId × Option ReserveData))
view_unupdated_reserve_datas s assets =
    view_datas s assets (λ asset. ok (view_reserve_data s asset))

-- The source asks for the same data here.
unfoldable pub view_reserve_datas :
    LendingPoolStorage
    → Option (List AccountId)
    → Result LendingPoolError (List (AccountId × Option ReserveData))
view_reserve_datas s assets = view_datas s assets (λ asset. ok (view_reserve_data s asset))

unfoldable pub view_unupdated_account_reserve_datas :
    LendingPoolStorage
    → Option (List AccountId)
    → AccountId
    → Result LendingPoolError (List (AccountId × AccountReserveData))
view_unupdated_account_reserve_datas s assets account =
    view_datas s assets (λ asset. ok (view_unupdated_account_reserve_data s asset account))

module _ ⦃p : Pendzl⦄ where
  unfoldable pub view_complete_reserve_data :
      Env → LendingPoolStorage → AccountId → Result LendingPoolError CompleteReserveData
  view_complete_reserve_data env s asset = do
    indexes ← view_reserve_indexes env s asset
    fees ← view_reserve_fees s asset
    decimal_multiplier ← view_reserve_decimal_multiplier s asset
    ok (record {
      data_of = view_reserve_data s asset;
      indexes = indexes;
      interest_rate_model = view_interest_rate_model s asset;
      fees = fees;
      restriction = view_reserve_restrictions s asset;
      decimal_multiplier = decimal_multiplier;
      tokens = view_reserve_tokens s asset;
    })

  unfoldable pub view_complete_reserve_datas :
      Env
      → LendingPoolStorage
      → Option (List AccountId)
      → Result LendingPoolError (List (AccountId × CompleteReserveData))
  unfolding view_complete_reserve_data
  view_complete_reserve_datas env s assets = view_datas s assets (view_complete_reserve_data env s)

  unfoldable pub view_account_reserve_datas :
      ⦃o : Oracles⦄
      → Env
      → LendingPoolStorage
      → Option (List AccountId)
      → AccountId
      → Result LendingPoolError (List (AccountId × AccountReserveData))
  view_account_reserve_datas env s assets account =
      view_datas s assets (λ asset. view_account_reserve_data env s asset account)

abbrev pub assets_in : {V : Type 0} → List (AccountId × V) → List AccountId
assets_in [] = []
assets_in ((asset, shown) ∷ rest) = asset ∷ assets_in rest

-- A list that is shown has one entry for each asset that is asked for, in their order.
pub view_each-assets :
    {V : Type 0} (view : AccountId → Result LendingPoolError V) (assets : List AccountId)
    → Ensures (λ shown. assets_in shown ≡ assets) (view_each view assets)
unfolding view_each
view_each-assets view [] = refl
view_each-assets view (asset ∷ assets) = grind (arith, view_each-assets view assets)
