-- ===== src/Lib.antt =====
-- A verification library of the core of perp-dex, a perpetual futures exchange on the Cosmos SDK.
--
-- The program. A trader places orders with the order book module (x/orderbook). Its keeper gives an
-- order an ID, has the perpetual module check the margin, and hands the order to the matching
-- engine, which trades it against the levels of the other side of the market's book. Each trade
-- updates the position of both traders in the perpetual module (x/perpetual), which keeps markets,
-- positions, accounts and prices. At the end of each block the engine goes once more through all
-- orders that are active, and the perpetual module settles funding for the markets that are due. The
-- clearinghouse (x/clearinghouse) keeps the insurance funds, which cover what liquidations leave
-- open. The pools (x/riverpool) take deposits for shares and pay withdrawals under a daily limit.
--
-- The files.
--   Base               names that all modules share: Boolean tests, integers, lists, the dictionary
--                      that stands for a store prefix, and how a keeper's call ends.
--   Decimal            math.LegacyDec of the SDK.
--   Orderbook/Types, Level, Book
--                      x/orderbook/types/types.go: Order (new_order, fill, cancel), PriceLevel
--                      (add_to_level, remove_from_level), OrderBook (add_order, remove_order).
--   Orderbook/V2       x/orderbook/keeper/orderbook_v2.go: the book over skip lists, add_v2
--                      (OrderBookV2.AddOrder), remove_v2 (RemoveOrder), to_order_book
--                      (ToOrderBook), from_order_book (FromOrderBook). The skip list of
--                      github.com/huandu/skiplist is a parameter (SkipLists, IsOrderedMap).
--   Orderbook/V2/Btree x/orderbook/keeper/orderbook_btree.go: the book over B-trees, add_btree,
--                      remove_btree, to_order_book_btree. The tree of github.com/google/btree is
--                      a parameter (Trees, IsOrderedSet).
--   Orderbook/Store    x/orderbook/keeper/keeper.go: the store as a record of dictionaries, and the
--                      interface PerpetualKeeper as a record of functions over its state.
--   Orderbook/Matching, Engine
--                      x/orderbook/keeper/matching.go and keeper.go: match (Match), process_order
--                      (ProcessOrder), cancel_order (CancelOrder), place_order (PlaceOrder),
--                      sequential_end_blocker (SequentialEndBlocker).
--   Orderbook/Conditional, Trailing, Oco
--                      x/orderbook/types/order_extended.go: orders that wait for a price.
--   Orderbook/TimeInForce
--                      x/orderbook/keeper/time_in_force.go: what follows a match.
--   Perpetual/Types, Store, Margin, Positions
--                      x/perpetual/types and x/perpetual/keeper (keeper.go, position.go, margin.go).
--   Perpetual/Rates, Funding
--                      x/perpetual/types/funding.go and x/perpetual/keeper/funding.go:
--                      calculate_funding_rate_v2 (CalculateFundingRateV2), settle_funding
--                      (SettleFunding), funding_end_blocker (FundingEndBlocker).
--   Clearinghouse/Insurance, Funds
--                      x/clearinghouse/types/insurance.go and x/clearinghouse/keeper/insurance.go:
--                      cover_deficit (CoverDeficit), deposit_to_insurance_fund
--                      (DepositToInsuranceFund), withdraw_from_insurance_fund.
--   Riverpool/Types, Store, Deposits, Withdrawals, Nav, Revenue, Blocks
--                      x/riverpool/types/types.go and x/riverpool/keeper (keeper.go, deposit.go,
--                      withdrawal.go, nav.go, revenue.go, abci.go): make_deposit (Deposit),
--                      request_withdrawal, claim_withdrawal, cancel_withdrawal, record_revenue,
--                      record_loss, end_blocker.
--   Riverpool/Calls    what holds through any run of the calls of x/riverpool.
--   .../Tests          concrete inputs, at which the theorems are run.
--
-- The correspondence. A method that changes its receiver is a function to the changed record; a
-- call of a keeper takes the store and gives an Outcome: a value, an error with the store that it
-- leaves, or a panic. A decimal is the integer of its units of 10^-18; its products and quotients
-- round, and how is a parameter. The perpetual module, as the order book sees it, the texts of
-- fmt.Sprintf and the iterator of the store are parameters too; the theorems name what they ask of
-- them (HasMarket, KnowsMarkets, WalksEntries, IsWalk). The clock of the machine, which the pools and
-- the funding records read, and the IDs that a call draws are arguments of the call. The counters
-- of IDs wrap at 2^64. A level's order IDs are modelled with the array behind the slice (Cells),
-- since Match ranges over the array while RemoveOrder shifts it.
--
-- Bounds. All loops run over a list that is fixed when they start, and are recursion on that list
-- or on the number of its cells: no fuel is needed.
--
-- Not modelled: a panic of UpdatePosition inside the matching loop; events, logs, timings and timestamps that are only recorded; stored bytes that do
-- not decode; the 315-bit limit of decimals; values of enumerations without a name; the books over
-- a hash map and a radix tree, with the second and the parallel matching engine; oracle, klines and
-- margin modes; liquidation and deleveraging; community pools; the HTTP service, the application's
-- wiring and the generated code.
pub mod Base
pub mod Decimal
pub mod Orderbook
pub mod Perpetual
pub mod Clearinghouse
pub mod Riverpool
