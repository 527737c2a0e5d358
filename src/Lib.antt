-- ===== src/Lib.antt =====
-- Verification library of the Kraken WebSocket SDK: the parts of the C++ client that keep a stream of
-- market data correct across failures.
--
-- The program. KrakenClient::Impl (src/internal/client_impl.hpp) owns a connection, read by an I/O
-- thread (src/client/dispatch.cpp). Messages with a sequence number pass the sequence tracker,
-- which looks for gaps. Parsed messages go through a bounded queue to the dispatcher thread. Tickers,
-- books, trades and candles are handed to callbacks and to the strategy engine, which fires alerts.
-- The order book engine, which keeps the levels of each symbol from incremental updates and checks
-- the checksum of the exchange, is a class of its own that no other file of the client calls.
-- Subscriptions send requests over the connection. When the
-- connection is lost the client reconnects: it asks the circuit breaker whether it may try, takes
-- delays from a backoff strategy, and after a success resets the breaker's counts, the strategy and
-- the tracker, and sends the requests of the active subscriptions again. A ClientConfig, built by
-- setters or from environment variables, says how all of them are made. Counters of the telemetry are
-- read over HTTP or posted to a collector.
--
-- Files and sources, paths from the root of the repository:
--   Common        helpers: numbers, lists, hash maps as association lists, 64-bit integers.
--   Breaker       src/connection/circuit_breaker.cpp and include/kraken/connection/circuit_breaker.hpp,
--                 class CircuitBreaker; children Invariant, Opening, Recovery.
--   Gap           include/kraken/connection/gap_detector.hpp, class SequenceTracker; children Checks,
--                 Streams.
--   Book          src/book_engine.cpp and src/internal/book_engine.hpp, class BookEngine; Levels has
--                 apply_level_updates, Checksum the checksum text and the CRC; LevelSpec, LevelLaws,
--                 Engine and Contract relate it to maps from prices to quantities; Validity, Crc,
--                 ChecksumText and ChecksumLaws are about the checksum.
--   Subscription  src/client/subscription_impl.cpp, src/client/subscriptions.cpp and the request
--                 builder of src/parser.cpp; children Names, Server, Lifecycle, Client.
--   Backoff       include/kraken/connection/backoff.hpp; children Attempts, Delays.
--   Reconnect     src/client/reconnect.cpp, handle_reconnect; children Attempts, Outcome, Termination.
--                 It uses the operations of Breaker, Backoff, Gap and Subscription as the code does.
--   Market        include/kraken/core/types.hpp, include/kraken/core/error.hpp and the messages of
--                 src/internal/client_impl.hpp.
--   Parser        src/parser.cpp, parse_message; Routing decides the kind of a message; children
--                 Tags, Errors.
--   Strategy      src/client/strategy_engine_impl.cpp, class StrategyEngine, and the interface of
--                 include/kraken/strategies/base.hpp; children Entries, Evaluation, Enabling.
--   Dispatch      src/client/dispatch.cpp, with src/client/snapshots.cpp, src/client/metrics.cpp and
--                 the interface of include/kraken/queue.hpp; children Steps, Fifo, Balance, Snapshots.
--                 It uses Gap, Subscription and Strategy as the code does.
--   RateLimiter   src/rate_limiter.cpp and include/kraken/rate_limiter.hpp; children Counts, Burst,
--                 Blocking.
--   Alerts        include/kraken/strategies: price_alert.hpp, spread_alert.hpp, volume_spike.hpp;
--                 Composite has composite.hpp, Presets presets.hpp; Setup and Symbols have
--                 src/strategies/strategy_config.cpp; children Price, Volume, Making.
--   Lifecycle     src/client/lifecycle.cpp; children Threads, Restart.
--   Connection    src/connection/connection.cpp, class Connection, and the configuration of
--                 include/kraken/connection/connection_config.hpp; Address has parse_url; children
--                 Split, Roundtrip, Explanation, Sending. It takes tokens from RateLimiter.
--   Config        src/core/config.cpp and include/kraken/core/config.hpp, class ClientConfig and its
--                 builder; Environment has src/core/config_env.cpp and include/kraken/config_env.hpp;
--                 children Building, Stages, Reading.
--   Telemetry     include/kraken/telemetry/metrics_collector.hpp; Exposition has
--                 src/telemetry/metrics_collector.cpp and the answers of
--                 src/telemetry/prometheus_server.cpp, Exporter the requests of
--                 src/telemetry/otlp_exporter.cpp, Running the calls of src/telemetry/telemetry.cpp;
--                 children Scraping, Endpoints, Brackets, Totals.
-- The operations have the names of the methods. Each module has a child Tests with the theorems at
-- concrete inputs.
--
-- Conventions. A method is a function from the object's state to the new state and its result;
-- mutexes make each method one step, and runs are lists of calls. Readings of the clock, random draws
-- and the success of connect() are arguments. Counters of 32 and 64 bits wrap around. Doubles are a
-- parameter: an order and a printer for the book, operations with named laws for the delays, a middle
-- for the strategies. The reconnection loop recurs on a list of rounds, one for each iteration; where
-- there is no circuit breaker and the strategy has a limit, one round more than the limit is enough
-- for the call to return. All other loops are structural.
--
-- Two threads are a list of steps of either: one message of io_loop, one iteration of dispatcher_loop,
-- each taken whole. Readers of JSON and the queue are records that the definitions take. The loop of
-- acquire_blocking recurs on a list of rounds with their readings of the clock.
--
-- Numbers are printed with twenty digits at most, enough for 64 bits. A call that waits for a token
-- may run out of the rounds that it is given; its outcome says so.
--
-- Not modelled: what Boost.Beast, OpenSSL, the library that reads JSON, the logger and the lock-free
-- queue do, which are third-party code; authentication, which only calls OpenSSL; the loops that
-- export metrics and accept HTTP connections; the printing of market data as JSON; the names and
-- messages of the strategies but those of price alerts; the telemetry calls of the client.
pub mod Common
pub mod Breaker
pub mod Gap
pub mod Book
pub mod Subscription
pub mod Backoff
pub mod Reconnect
pub mod Market
pub mod Parser
pub mod Strategy
pub mod Dispatch
pub mod RateLimiter
pub mod Alerts
pub mod Lifecycle
pub mod Connection
pub mod Config
pub mod Telemetry
