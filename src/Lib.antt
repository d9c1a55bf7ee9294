-- ===== src/Lib.antt =====
-- Meltica Gateway: a trading gateway that takes market data and execution reports from exchange
-- adapters, routes them as events, and lets strategies submit orders through risk checks.
--
-- Parts and files
--   Common: texts, maps, the handler monad, and the parameters for code outside the repository
--     (Common.Decimal: shopspring/decimal; Common.Float: float64). Common.Sample has instances.
--   Schema: order requests, execution reports, book payloads, events and route types, instruments,
--     their symbols and currency codes (internal/domain/schema). Lengths are in code points, so a
--     currency or venue code with other than ASCII letters, which is refused, may be refused for the
--     other reason.
--   Risk: the risk manager (internal/app/risk/risk.go). Risk.Types has its state, Risk.Breach the kill
--     switch (engageKillSwitchLocked, recordRiskBreachLocked, ensureTradingActiveLocked), Risk.Fills
--     execution reports (HandleExecution, applyFillLocked), Risk.Check the checks of CheckOrder and
--     Risk.Handlers the other operations and histories of calls.
--   OrderBook: the order book assembler (internal/infra/adapters/shared/orderbook_assembler.go).
--     OrderBook.Side has one side of the book, OrderBook.Assembler the operations.
--   Dispatcher: internal/app/dispatcher. Dispatcher.Table has the routing table of table.go, with its
--     filters in Dispatcher.Table.Match; Dispatcher.Runtime the loop of runtime.go, from the events of the
--     adapters to the bus; Dispatcher.Trading the consumers' switches of trading_state.go;
--     Dispatcher.Registrar what registrar.go does with the routes that strategies ask for: their filters
--     in Dispatcher.Filters, EqualRoutes of route_compare.go in Dispatcher.Compare, and applyRoutes in
--     Dispatcher.Registrar.Apply.
--   Balance: the balance manager of internal/infra/adapters/shared/accounting.go.
--   Publisher: the shared event publisher (internal/infra/adapters/shared/publisher.go), its counters
--     and the ids of events; Publisher.Report the payloads of exec_report.go beside it.
--   Subscription: what an adapter asks its exchange for (internal/infra/adapters/shared/
--     subscription_manager.go): the differences of filters in Subscription.Diff, Activate and Deactivate
--     in Subscription.Manager.
--   Bus: the in-memory event bus (internal/infra/bus/eventbus/memory.go, bus.go, extension.go), and in
--     Bus.Durable its wrapper with an outbox (durable.go).
--   Pool: the bounded pool of reusable objects (internal/infra/pool/object_pool.go).
--   Lambda: the lambda runtime manager (internal/app/lambda/runtime/manager.go), which keeps the
--     instances of strategies. Lambda.Spec has their specs (internal/infra/config/lambda_spec.go),
--     Lambda.Usage the usage of revisions, Lambda.Manager the state (Lambda.Manager.State) with Create,
--     Start, Stop, Remove and Update, Lambda.Refresh refreshJavaScriptStrategies, Lambda.Restore
--     RestoreSnapshot and histories of calls. The other files prove what these keep; Lambda.Pins and
--     Lambda.Race are about revisions, Remove and concurrent starts.
--   Core: what every instance has under it (internal/app/lambda/core/base.go): NewBaseLambda and the
--     filters on events in Core.Config, SubmitOrder and SubmitMarketOrder in Core.Orders, handleEvent and
--     the handlers in Core.Events; what becomes of orders is in Core.Submission, of execution reports
--     in Core.Reports.
--   Provider: the provider manager (internal/app/provider/manager.go): the states of providers and their
--     life cycle in Provider.Manager, with a start in parts, as the lock is given up between them. What
--     is kept is in Provider.Sound, Provider.Starts, Provider.Changes and Provider.Histories.
--   Lambda launches a Core, which submits its orders through Risk to an instance of Provider, and is
--   handed the events of its subscriptions. The adapters keep books with OrderBook and balances with Balance, and emit events with Publisher,
--   which Dispatcher stamps, deduplicates and publishes to Bus; events come from a Pool and go back to
--   it; the orders of strategies pass Risk, and the execution reports that come back go to Risk again.
--
-- How the code is modelled
--   A method that locks a mutex is a function from the state to the new state and its results; the
--   mutex orders concurrent calls, so a history is a list of calls. Some calls give the lock up on their
--   way: those of Lambda.Manager are taken whole, one at a time, but for the two parts of Start in
--   Lambda.Race; those of Provider.Manager are taken whole and also in parts, as steps of a history. The
--   calls of Publisher are taken one at a time, too, though its lock covers the number of an event alone,
--   and so are the publications and the replays of Bus.Durable. A call that reads the clock takes
--   its reading as an argument, one reading for a locked section. Times are nanoseconds with 0 for
--   the zero time. A Go map is an association list; where the code ranges over a map the result does
--   not depend on the order, or the theorem says how. Go's int does not wrap, since counters stay
--   far below 2 ^ 63; the uint64 counters of Publisher and Bus do. Strings are lists of code points;
--   case mapping is that of ASCII.
--   Decimals are a parameter with the laws of exact addition and of a linear order, up to numerical
--   equality. The rate limiter of golang.org/x/time/rate and contexts are parameters without laws.
--   Floats are a parameter: where a theorem needs it, with the laws that no float is less than itself
--   and that zero is a finite number. Go's `any` in a filter is a parameter, too: what a type switch
--   finds, and the text of fmt.Sprint.
--   Where goroutines share channels they are sequences of steps, in any order. In Pool.Object an action
--   is a step of a worker, a borrower or close: the send of an object, its receipt, the end of its lease
--   and the changes of the counter are one each, and the four actions that are two operations are named
--   there. In Bus.Memory a delivery is one step, in which the surroundings choose the ready case of the
--   select, without the panic of a send on a channel that Unsubscribe or Close has closed meanwhile; the
--   deliveries of one publication touch one channel each. The version of the routing table stays over a
--   run of Dispatcher.Runtime. The router of applyRoutes and the loan of events are answers that the
--   surroundings give.
--   Lambda takes a manager that has a registrar and a store. Its surroundings are a record of answers, which
--   may be other ones in each call: the installed strategies, the references that the loader resolves,
--   the providers, the registration of routes and the start of a base. A base is a number, which is live
--   until its cancel function is called; Provider has starts in the same way. Core takes the real risk
--   manager of Risk; the pool, the order store and the provider answer as they like, and the strategy's
--   methods are a list of the calls that were made, which come last in every handler: what the strategy
--   does in them is left out. strconv.ParseFloat and the half of a decimal are
--   parameters without laws. The order count does not wrap.
--   Loops are structural recursion; the digits of a uint64 are produced on fuel 20, which is enough
--   since 2 ^ 64 is below 10 ^ 20.
--
-- Not modelled
--   The text details of risk breaches, logging, metrics and traces; HTTP, websockets, databases and
--   the JavaScript engine; the registrar's worker, which merges signals, and what a pool's get tells its
--   caller, of which the pool sees the request and the end of its context. Of the lambda manager: the
--   summaries and the tags and files of modules for the API, buildRouteDeclarations and the goroutine that
--   observes a base. Of a base: the goroutines that read its subscriptions, and the publication of a risk
--   control event after its payload. Of the provider manager: metadata for the API, DeactivateRoute and
--   the form in which routes are stored.
pub mod Common
pub mod Schema
pub mod Subscription
pub mod Risk
pub mod OrderBook
pub mod Dispatcher
pub mod Balance
pub mod Publisher
pub mod Bus
pub mod Pool
pub mod Lambda
pub mod Core
pub mod Provider
