-- ===== src/Lib.antt =====
-- go-order-lab: a shop with flash sales: its services, stores and queues, server and load generator.
--
-- The program. A request to place an order of an activity (a product on sale for a time, with its own
-- stock) takes a unit of the stock, in Redis and MySQL or in MySQL alone, and writes a QUEUED order;
-- its number goes to RabbitMQ or to a channel of the process, a worker makes it WAIT_PAY, a payment
-- callback makes it PAID, and a cancellation, an expiry or the compensation gives the unit back. A
-- checkout turns a cart into an order of products. Every operation writes a line to a log table.
--
-- The files, and the code that each is about.
--   Prelude     integers of 64 bits with their wrap-around, texts as code points, decimal print,
--               results, and actions on a state, for all other files
--   Store       one table behind gorm: an interface of calls with what each is documented to do on
--               success (Store/Table), lists of rows, sums over rows, the growth of a table, and a
--               table in memory that meets the interface (Store/Memory)
--   Model       internal/model/model.go: rows, statuses, unique indexes, the key of an order
--   Env         the tables, the stock cache (the interface stockCache of internal/service/order.go),
--               the broker, the channel of tasks, and gorm's Transaction
--   Rabbit      internal/service/rabbitmq.go: encodeRabbitOrderMessage, decodeRabbitOrderMessage,
--               Publish, PublishRetry, PublishDeadLetter
--   Redis       internal/service/redis_stock.go: the two Lua scripts, Reserve, Release, SetStock,
--               Prewarm, GetStock on a server that is a parameter; Redis/Cache fills the stock cache
--   Orders      internal/service/order.go: Create (CreateOrderContext, createOrderWithDB,
--               createOrderWithRedis), Checkout (CheckoutCart), Coupon (applyCoupon), Cancel
--               (CancelOrder, ExpireOrders), Payment (PaymentCallback), Restore (restoreStock), Publish
--               (publishOrderTask), Worker (worker, startRabbitWorkers, handleRabbitOrderFailure,
--               processOrderCreated), Compensate, Reconcile (ReconcileStock), Queries (ListOrders,
--               GetOrder, ListLogs), Start (the workers and the compensation worker); then Run
--               (histories of requests), Keeps (what a property of the tables must promise so that
--               histories keep it), Balance and Life (two such properties: the account of the stock,
--               and the state machine of an order), Atomic and Effect
--   Coupons     internal/service/coupon.go
--   Cart        internal/service/cart.go
--   Addresses   internal/service/address.go
--   Floats      what the code relies on of the IEEE doubles of Go and strconv, an interface, with laws
--               for whole numbers up to 2 ^ 53 and for rounding
--   Users       internal/service/auth.go: Register, Login, EnsureAdmin, signToken; Users/Tokens is the
--               interface of golang-jwt, Users/Session, Users/Accounts and Users/Administrator what an
--               account and its token open
--   Http        internal/response, internal/middleware: Auth, RequireRole, the token bucket, TraceID,
--               RequestTimeout, Metrics as functions from a handler to a handler; Http/Answers turns
--               the result of a service into an answer
--   Metrics     internal/metrics/metrics.go: the counters, the histogram, and the page of them
--   Catalog     internal/service/catalog.go
--   Admin       internal/service/admin.go
--   Handlers    internal/handler: a function for each handler, from a decoded body or the error of
--               its decoding
--   Database    internal/database/database.go: what Open writes into the rows, with
--               backfillActivityOrderKeys
--   Config      internal/config/config.go, on an environment that is a function from names to texts
--   Server      cmd/server/main.go: the routes with their chains of middleware, the services built
--               from the configuration, and the start of the background work
--   Pressure    cmd/pressure/main.go: the workers of runLoad as a step relation, summarize, percentile,
--               the batches of execute (Batches, Places), and verify with its wait (Verify,
--               Answers, Verdict)
--   Tests       a shop with its tables in memory, a Redis server and a broker, and the theorems on it
--
-- How state and calls are modelled. A service's operation is a function of the world (Env/State:
-- World), which has the states of all tables, the cache, the broker and the channel; `if err != nil
-- { return err }` is the bind of Prelude/Actions. A request is a function of its context, the world
-- and the metrics. The theorems hold for every environment: any call may fail at any time, since the
-- laws of Store/Table, Env/Cache, Env/Broker and Redis/Commands say only what a call that succeeds has
-- done, and a publishing without an error was written to the connection, no more. A failed transaction
-- takes back the tables and nothing else: what it did in Redis or RabbitMQ stays. With the tables goes
-- what an environment hides in their states, so in one environment a call that failed in a
-- transaction fails again when the transaction is repeated on the same state. Requests run one after the other; concurrent ones are the sequences that the isolation of
-- the database lets them amount to, so a lost update between two transactions is outside of the model,
-- except where the code reads and writes without a transaction and the two halves stand alone
-- (Catalog/Status). The clock, the random texts, the error of the context and the fate of each call are
-- arguments. SHA-256, the signing and parsing of tokens, doubles and the calls of the load generator
-- are parameters.
--
-- Bounds. A Go int or int64 is an integer with its wrap-around written out (wrap64); the counters of
-- the metrics have 64 bits without a sign; the arithmetic that MySQL does is exact. A uint key is a
-- natural number; the load generator's ints keep their sign. Every loop is over a list that was read before, so it needs no fuel; the workers'
-- endless loops are given by their rounds, and those of the load generator by their steps. Times to
-- live and instants are in nanoseconds; the rounding of a float of seconds in the time to live and
-- Lua's loss of precision above 2 ^ 53 are left out.
--
-- Not modelled: the connection to the database and the migration of its tables, the output of the
-- access log, the /health route, gin's recovery from a panic and its matching of paths, JSON, the
-- opening, closing and shutdown of connections and goroutines, and in the load generator the HTTP
-- client, the order of execute's phases and the report file: input and output, and calls of libraries.
pub mod Prelude
pub mod Store
pub mod Model
pub mod Env
pub mod Rabbit
pub mod Orders
pub mod Redis
pub mod Tests
pub mod Coupons
pub mod Addresses
pub mod Users
pub mod Floats
pub mod Metrics
pub mod Http
pub mod Catalog
pub mod Database
pub mod Admin
pub mod Cart
pub mod Handlers
pub mod Server
pub mod Config
pub mod Pressure
