-- ===== src/Lib.antt =====
-- A model of rust-hft's `crypto-trader`, a trader for Binance futures that keeps a local order book,
-- runs a strategy on it, checks each order against risk limits, and fills the orders on paper.
--
-- How the program works. The ingestion task (src/ingestion.rs) reads a socket and sends market events
-- to one thread (src/main.rs); it fetches a snapshot over HTTP for each new socket and whenever the
-- thread sets the resync flag. The watchdog (src/watchdog.rs) sends `Reconnect` when no message came
-- for a while. The thread gives depth updates and snapshots to the order book (src/orderbook.rs). When
-- an update was applied to a live book, the strategy (src/strategy) gets a snapshot of the book and
-- answers with a signal; the risk checker (src/risk.rs) turns a buy or a sell into an order or rejects
-- it. The executor's task (src/execution.rs) books each order on the paper account (src/pnl.rs) in the
-- shared dashboard state (src/dashboard/mod.rs) and mirrors the cash, which the risk checker reads.
-- The backtest (src/backtest/mod.rs) sends recorded or made-up updates (src/backtest/data_loader.rs)
-- through the same book, strategy and checks, for the command line of src/bin/backtest.rs.
--
-- Which file models which part:
--   Types                src/types.rs, the messages
--   Config               src/config.rs: the tables, their defaults and load_config
--   Watchdog             src/watchdog.rs: touch, and the test in the loop of run
--   Orderbook/Defs       src/orderbook.rs: handle_snapshot, handle_update, snapshot and their loops
--   Risk/Defs            src/risk.rs: RiskChecker::check and its state
--   Pnl/Defs             src/pnl.rs: FifoPnl, and PaperAccount with the prefix account_
--   Strategy/PingPong, Strategy/Momentum/Defs, Strategy/Trait
--                        src/strategy/ping_pong.rs, momentum_scalp.rs and mod.rs
--   Dashboard/Defs       src/dashboard/mod.rs: SharedState and what it shows
--   Dashboard/Server     src/dashboard/server.rs: the routes, the handlers and the loop of a web socket
--   Metrics              src/metrics.rs, which the program does not use
--   Execution/Defs       src/execution.rs: PaperExecutor
--   Pipeline/Defs        src/main.rs: the thread's start and its loop over the market events
--   Ingestion/Defs       src/ingestion.rs: fetch_snapshot, and what one read from the socket leads to
--   System/Defs          the tasks together: src/ingestion.rs (the connection loop, the two tasks for
--                        snapshots), src/watchdog.rs, src/main.rs (the thread, the executor's task, the
--                        poller for the file HALT, the statistics) and src/dashboard/server.rs
--                        (halt_handler, resume_handler, the sampler)
--   DataLoader/Defs      src/backtest/data_loader.rs: load_depth_updates, generate_synthetic_data
--   Backtest/Defs        src/backtest/mod.rs: Backtester::run
--   BacktestCommand/Defs src/bin/backtest.rs: main
-- The other files of these directories hold lemmas and theorems, named for what they prove. Common is
-- shared, BTreeMap is an ordered map as a sorted list, Double is `f64`, and Tests holds concrete runs.
--
-- How state and effects are modelled. A method takes the state and returns the new one; `None` and `Err`
-- are values; a panic is `none`. An atomic or locked cell that the thread shares is a field of its state.
-- What is read from outside (the clocks, a new UUID, the kill switch, the mirrored cash) is an argument.
-- The order channel is the list of what was sent. Log lines on the console are left out, but for
-- the executor's statistics.
--
-- How the tasks interleave. `System.step` takes one action of one task: a part of it that reads or writes
-- what others share. A task that waits between two such parts (for a fetch, or between looking at the file
-- HALT and storing the result) is two actions. `System.run_all` takes the actions of a schedule one after
-- the other, so a theorem for all schedules is one for all interleavings. A request for /halt or /resume is
-- one action, its change of the file HALT and its store together, so two such requests, or one and the
-- poller, do not meet between these two. The channels hold any number of messages. When the program is cancelled, `main` exits; the model only closes the socket.
--
-- Numbers. `f64` is any type with the operations of `Double`. Theorems that need laws name them: `IsFloat`
-- holds of IEEE 754 doubles; `IsExact` is arithmetic without rounding, in which the accounting identities
-- are stated. Double/Fixed gives both at concrete numbers. A `u64` or `u32` counter wraps around, as in a
-- build without overflow checks; the hypotheses say where a bound keeps it from doing so.
--
-- Fuel. Only the loop of `FifoPnl::on_sell` runs on fuel, of two more than the lots: each round but the
-- last removes a lot, and then one round sees that next to nothing remains. Pnl/Totality is about it.
-- All other loops are recursion on a list or on the number of rounds.
--
-- Not modelled: sockets, HTTP, JSON, TOML, files and timers themselves, which are arguments or actions; how
-- the dashboard's server finds the route of a request, and its web page; signals and the exit of the
-- program. The formatting and writing of log files and the printing of the backtest's report are left out.
pub mod Common
pub mod Double
pub mod BTreeMap
pub mod Types
pub mod Config
pub mod Watchdog
pub mod Orderbook
pub mod Risk
pub mod Pnl
pub mod Strategy
pub mod Dashboard
pub mod Execution
pub mod Ingestion
pub mod Pipeline
pub mod System
pub mod DataLoader
pub mod Backtest
pub mod BacktestCommand
pub mod Tests
pub mod Metrics
