-- ===== src/Lib.antt =====
-- A model of the Abax lending protocol (repository abacus-protocol, Rust and ink!): the pool's
-- storage and all of its accounting, with the library of fixed-point arithmetic, interest rates,
-- reserves and account balances that it stands on, the messages of the pool around it, the two
-- wrapped tokens, and the contract as a state machine.
--
-- The program. Users deposit assets into reserves and borrow against deposits that they chose as
-- collaterals. For each asset the pool keeps a reserve: totals of deposits and debts, current rates,
-- cumulative indexes, fees and restrictions. For each account it keeps a balance in each asset, with
-- the indexes that were applied to it last, and a configuration of three bitmaps. Each message of
-- the contract (src/contract_modules/lending_pool/implementation) checks its arguments, calls one
-- `account_for_*` function of the storage, moves tokens and emits events. The `account_for_*`
-- functions are where balances, totals, indexes and bitmaps change. An aToken and a vToken for each
-- asset show deposits and debts as PSP22 tokens: they hold allowances only, ask the pool for the
-- balances, and are told by it which transfer events to emit.
--
-- The files.
--   Base, Base/*          Boolean tests, lists, checked arithmetic, results, and bitmaps.
--   Errors                errors.rs of the pool and the error types of the library.
--   Library/MulDiv        pendzl's `mul_div`, a parameter.
--   Library/Math          src/library/math/operations.rs, constants.rs.
--   Library/InterestRate  src/library/math/interest_rate_math.rs, src/library/structs/interest_rate_model.rs;
--                         Curve and Adjust are about the curve and its adjustment.
--   Library/Reserve       src/library/structs/reserve_data.rs; Rates is about the two rates.
--   Library/Restrictions  src/library/structs/reserve_restrictions.rs.
--   Library/Indexes       src/library/structs/reserve_indexes_and_fees.rs; Growth is about the indexes.
--   Library/Account       src/library/structs/account_reserve_data.rs, account_config.rs; Balance,
--                         Interest and Flags are about totals, interest and the bitmaps.
--   Library/AssetRules    src/library/structs/asset_rules.rs.
--   Library/TimeWeighted  src/library/structs/tw.rs.
--   Pool/Storage          src/contract_modules/lending_pool/implementation/storage/mod.rs, as are all
--                         files of Pool: here the storage and its getters.
--   Pool/Snapshot         `store_utilization_rate_snapshot`.
--   Pool/Reserve          `account_for_deposit`, `_withdraw`, `_borrow` and `_repay`; Actions is
--                         `account_for_reserve_action`.
--   Pool/Lending          `account_for_account_actions`.
--   Pool/Power            `calculate_lending_power_e6` and the checks of the collateralization.
--   Pool/Lending/Booking  what one action books for the account.
--   Pool/Reserve/Flags, Pool/Lending/Flags
--                         the bitmaps against the balances, in operations and lists of actions.
--   Pool/Reserve/Repayment  when a repayment is accepted.
--   Pool/*/Registry       what becomes of the registry of assets in the operations of that part.
--   Pool/Liquidation      `account_for_liquidate`.
--   Pool/Transfer         the transfers between accounts and the choice of collaterals.
--   Pool/Utilization      the time-weighted utilization rate and maintain.rs.
--   Pool/Management       registering assets and changing parameters.
--   Messages/Session      what a message reads and leaves besides the storage; events.rs.
--   Messages/Internal     implementation/internal.rs.
--   Messages/Accounts     implementation/deposit.rs and borrow.rs.
--   Messages/MultiOp, Messages/Liquidate, Messages/Flash
--                         multi_op.rs, liquidate.rs and flash.rs; Flash/Balance is about what a flash
--                         loan pays and takes back, Liquidate/Terms about who is liquidated and at
--                         what rate, with Pool/Liquidation/Amounts about the amount repaid.
--   Messages/Payments     what the pool pays to an account and takes from it.
--   Messages/TokenInterface  a_token_interface.rs, v_token_interface.rs, and the getters for them.
--   Messages/Maintain, Messages/Manage, Messages/Manage/Register, Messages/Roles
--                         maintain.rs, manage.rs and constants.rs.
--   Messages/View         view.rs.
--   Messages/Told, Messages/Mirror, Messages/Bookkeeping
--                         what the tokens have been told of an account, against the storage.
--   Messages/Registry, Messages/Manage/Registry  the registry of assets in the messages.
--   AbacusToken/State     src/contract_modules/abacus_token/implementation and the allowances of
--                         src/contracts/core/a_token/lib.rs; AToken is the rest of that file, VToken
--                         is src/contracts/core/v_token/lib.rs, Allowance is about the allowances.
--   PriceFeed             src/contracts/core/price_feed_provider/lib.rs.
--   BalanceViewer         src/contracts/periphery/balance_viewer/lib.rs.
--   Contract/Registrar    src/contract_modules/account_registrar/implementation.
--   Contract/Message, Contract/Dispatch
--                         src/contracts/core/lending_pool/lib.rs; Access is about the roles,
--                         Handlers about the registry of assets in each message, Reach is the step
--                         relation of the contract and what holds in each state it reaches.
--   Examples, Examples/*  a pool with two assets, runs of it, and the theorems applied to it.
--
-- How the model corresponds to the code.
--   Structs are records and enums data types with the source's fields and constructors. A function
--   that takes `&mut` arguments returns their new values. A `Result` has a third outcome, `panic`,
--   for `unwrap` on `None`, an index out of range and a shift of a u128 by 128 or more. A call that
--   fails or panics reverts the whole message, so a new state comes with `ok` only. Machine integers
--   are natural numbers with the width written out in each checked or wrapping operation. `Mapping`
--   is a function into options. Account ids are numbers, since they are only compared.
--   A message takes and returns a session: the storage, the calls of tokens made so far and the
--   events emitted so far. An i128 is kept as its bit pattern below 2^128, as the casts of the source
--   treat it. In a flash loan the receiver is called with the pool open to it, so the step relation
--   lets any messages stand between the payment and the return. Mappings and lazy fields are the
--   host's, so that the loan goes on with what these messages left of them; the one field that is
--   not, the registrar's `next_counter`, is written back as the loan loaded it. The argument `data`
--   of the messages and `receiver_params`, which the pool does not read, are left out.
--   `account_for_reserve_action` takes lists of accounts' data, as the source takes slices; the
--   `ReserveAction` that mutates its amount returns it.
--
-- Parameters. `mul_div` of the crate pendzl is the record `Pendzl`; the theorems that rely on what
-- it computes take the laws `IsMulDiv`: the product divided exactly, rounded as asked, with an error
-- for the divisor 0 and for a quotient that exceeds a u128. The price feed and the fee reduction
-- provider are contracts of their own: `Oracles` is what they answer during one message. So are the
-- tokens that the pool calls (`Tokens`, whose answers depend on the calls made before), the receiver
-- of a flash loan (`Receivers`), pendzl's access control (`AccessControl`) and the instantiation of
-- the token contracts (`Instantiation`); `Surroundings` collects what one message meets. The oracle
-- behind the price feed provider is `OracleGetters`.
--
-- Bounds and fuel. The ring of time-weighted entries has 60 places, which is `TW_INDEX_SIZE` in a
-- build without `build = "release"`. The search of `get_tw_ur_from_shortest_period_longer_than` is
-- a loop that may not end, so it takes fuel, and `ok none` says that the fuel ran out; a step is
-- taken for each place at most, so that 61 are enough when the period is not 0. For the contract,
-- the fuel is the message's gas, and running out of it is a panic. The loop over the
-- assets in `calculate_lending_power_e6` is a recursion on the number of assets left.
--
-- Not modelled. The stable token and the contracts for tests; ink!'s storage layout, selectors and
-- encoding; the tokens' name, symbol and decimals, and debug output.
pub mod Base
pub mod Errors
pub mod Library
pub mod Pool
pub mod Messages
pub mod AbacusToken
pub mod PriceFeed
pub mod BalanceViewer
pub mod Contract
pub mod Examples
