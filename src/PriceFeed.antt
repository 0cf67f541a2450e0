-- ===== src/PriceFeed.antt =====
-- src/contracts/core/price_feed_provider/lib.rs: the contract that the pool asks for prices, and what
-- its answer is. The oracle behind it is a contract of its own.
use mathlib.Core.Path.{subst}
use Prim.Native.String.{String}
use abacus_protocol.Base.{
  ℕ, ◌≡◌, List, [], ◌∷◌, Option, none, some, Result, ok, err, ok_or, unwrap, ◌>>=◌, ◌>>◌, refuse_if,
  not, Mapping, insert, Ensures, arith, Result-cases, inl, inr,
}
use abacus_protocol.Errors.{
  AccessControlError, missing_role, PriceFeedError, no_such_asset, no_price_feed,
}
use abacus_protocol.Pool.Storage.{AccountId}
use abacus_protocol.Messages.Session.{Env}
use abacus_protocol.Messages.Roles.{AccessControl, parameters_admin}

-- What an oracle answers to a list of pairs: a time and a price for each that it has.
pub record OracleGetters : Type 0 where
  pub latest_prices : AccountId → List String → List (Option (ℕ × ℕ))

pub record PriceFeedProvider : Type 0 where
  pub oracle : Option AccountId
  pub account_to_symbol : Mapping String

abbrev pub new_provider : AccountId → PriceFeedProvider
new_provider oracle = record { oracle = some oracle; account_to_symbol = λ a. none }

module _ ⦃a : AccessControl⦄ where
  unfoldable pub set_account_symbol :
      Env → PriceFeedProvider → AccountId → String → Result AccessControlError PriceFeedProvider
  set_account_symbol env f asset symbol = do
    refuse_if (not (a.has_role parameters_admin env.caller)) missing_role
    ok (record f { account_to_symbol = insert asset symbol f.account_to_symbol })

unfoldable pub get_account_symbol : PriceFeedProvider → AccountId → Option String
get_account_symbol f asset = f.account_to_symbol asset

-- The first loop, over the assets.
unfoldable pub symbols_of : PriceFeedProvider → List AccountId → Result PriceFeedError (List String)
symbols_of f [] = ok []
symbols_of f (asset ∷ assets) = do
  symbol ← ok_or (f.account_to_symbol asset) no_such_asset
  symbols ← symbols_of f assets
  ok (symbol ∷ symbols)

-- The second loop, over the oracle's answer.
unfoldable pub prices_of : List (Option (ℕ × ℕ)) → Result PriceFeedError (List ℕ)
prices_of [] = ok []
prices_of (none ∷ answers) = err no_price_feed
prices_of (some (time, price) ∷ answers) = do prices ← prices_of answers; ok (price ∷ prices)

module _ ⦃g : OracleGetters⦄ where
  unfoldable pub get_latest_prices :
      PriceFeedProvider → List AccountId → Result PriceFeedError (List ℕ)
  unfolding symbols_of prices_of
  get_latest_prices f assets = do
    symbols ← symbols_of f assets
    oracle ← unwrap f.oracle
    prices_of (g.latest_prices oracle symbols)

-- An oracle that answers each pair in its place.
abbrev pub quotes : (String → Option (ℕ × ℕ)) → List String → List (Option (ℕ × ℕ))
quotes quote [] = []
quotes quote (symbol ∷ symbols) = quote symbol ∷ quotes quote symbols

-- The prices are those of the assets' symbols, one for each asset and in their order.
abbrev pub ArePrices :
    PriceFeedProvider → (String → Option (ℕ × ℕ)) → List AccountId → List ℕ → Type 0
ArePrices f quote [] [] = Unit
ArePrices f quote (asset ∷ assets) (price ∷ prices) =
    ((symbol : String) × (time : ℕ) × (f.account_to_symbol asset ≡ some symbol)
      × (quote symbol ≡ some (time, price)))
    × ArePrices f quote assets prices
ArePrices f quote assets prices = ⊥

cons-ArePrices :
    (f : PriceFeedProvider) (quote : String → Option (ℕ × ℕ)) (asset : AccountId)
    (assets : List AccountId) (symbol : String) (answer : Option (ℕ × ℕ))
    (answers : List (Option (ℕ × ℕ)))
    → f.account_to_symbol asset ≡ some symbol
    → quote symbol ≡ answer
    → Ensures (ArePrices f quote assets) (prices_of answers)
    → Ensures (ArePrices f quote (asset ∷ assets)) (prices_of (answer ∷ answers))
unfolding prices_of
cons-ArePrices f quote asset assets symbol none answers known quoted rest = tt
cons-ArePrices f quote asset assets symbol (some (time, price)) answers known quoted rest =
    elim (Result-cases (prices_of answers)) [
      | inl (prices, e) ↦ rw e ((symbol, time, known, quoted), subst (Ensures _) e rest)
      | inr (inl (x, e)) ↦ rw e tt
      | inr (inr e) ↦ rw e tt
    ]

quotes-ArePrices :
    (f : PriceFeedProvider) (quote : String → Option (ℕ × ℕ)) (assets : List AccountId)
    → Ensures
        (λ symbols. Ensures (ArePrices f quote assets) (prices_of (quotes quote symbols)))
        (symbols_of f assets)
unfolding symbols_of prices_of
quotes-ArePrices f quote [] = tt
quotes-ArePrices f quote (asset ∷ assets) = grind (
  arith,
  quotes-ArePrices f quote assets,
  λ (symbol : String) (symbols : List String).
      cons-ArePrices f quote asset assets symbol (quote symbol) (quotes quote symbols),
)

-- Where the oracle answers each pair in its place, an accepted request gives the oracle's price of
-- the symbol of each asset, in the order of the assets.
pub get_latest_prices-ArePrices :
    ⦃g : OracleGetters⦄ (f : PriceFeedProvider) (quote : String → Option (ℕ × ℕ))
    (assets : List AccountId)
    → ((oracle : AccountId) (symbols : List String)
        → g.latest_prices oracle symbols ≡ quotes quote symbols)
    → Ensures (ArePrices f quote assets) (get_latest_prices f assets)
unfolding get_latest_prices
get_latest_prices-ArePrices f quote assets answers =
    grind (arith, quotes-ArePrices f quote assets, answers)
