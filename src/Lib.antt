-- ===== src/Lib.antt =====
-- GearShare, a marketplace where owners rent out gear: a verification library for the Go code of the
-- repository: its monolith (cmd/api over internal/), the services cmd/search-indexer and
-- cmd/notification-service, and the function cmd/thumbnail-fn.
--
-- The parts and how they interact. An HTTP handler parses a request and calls a service; a service
-- reads and writes MySQL through repositories, drops entries of the Redis cache, and sends events
-- (Kafka), mails (RabbitMQ) and notices (gRPC, and the hub of open streams). A booking is made in one
-- transaction that counts the overlapping availability blocks and inserts a booking with its block;
-- its status then moves along a fixed map of transitions. The search indexer takes the listing events
-- off Kafka and keeps the index that the monolith's search asks; the notification service takes the
-- mail jobs off RabbitMQ, and asks the monolith for the address of a user over gRPC.
--
-- The files:
--   Prelude        names of the libraries passed on; tests and lists over the native numbers, int64
--   Model          internal/*/model.go and the events: one record for each row and message
--   Store          internal/db: the World that a request can change (tables of the primary and of the
--                  replica, counters, cache, what is sent), and statements that may fail;
--                  Store/Tx is WithinTransaction of internal/db/tx.go with its retries, Store/Pools the
--                  pools of internal/db/mysql.go
--   Http           internal/httputil/response.go, the parsing of numbers and dates, cookies; Etag is etag.go,
--                  and Date prints the dates of a response
--   Codec          strconv, encoding/base64, encoding/hex, strings.Split and the numbers of fmt.Sscanf, on
--                  lists of bytes
--   Availability   internal/availability/repository.go; Availability/Sharding is sharding.go
--   Listing        internal/listing: Repository, Service, Handler, and Handler/Cacheable with the ETag
--                  answer; Feed holds query_naive.go, loader.go
--                  and query_optimized.go
--   Cache          internal/cache: ListingCache and RateLimiter
--   Booking        internal/booking: Pricing, Repository, Create (tx.go), Service, Handler, Response,
--                  and Dispute (internal/app/dispute.go); History is any sequence of service calls
--                  that do not overlap in time, and what happens between them
--   Review, Category    the packages of these names
--   User           internal/user: the repository, Service (service.go and handler.go) and Oauth
--                  (oauth_handler.go with internal/auth/oidc.go)
--   Auth           internal/auth: the guards of middleware.go and csrf.go; Session is session_cookie.go,
--                  Tokens is apikey.go with the other random tokens, Scrypt is password_scrypt.go,
--                  Interceptor is grpc.go
--   Admin          internal/app/admin.go
--   Routes         internal/app/routes.go, as the list of the routes
--   Config         internal/config/config.go
--   Realtime       internal/realtime: Hub, Polling, and Streams (sse.go and websocket.go)
--   Partner        internal/partner/handler.go
--   Search         internal/search; Search/Remote is the way to search-indexer and back
--   SearchIndexer  cmd/search-indexer: the index over Elasticsearch, and the handlers of its main.go
--   Middleware     internal/middleware/ratelimit.go, the breakers' condition in breaker.go, and the counting
--                  of requests in internal/observability/metrics.go
--   Eventbus       internal/eventbus/kafka_consumer.go, as steps of the fetch loop and the workers
--   Queue          internal/queue: the calls on an AMQP channel, and the loop of a consumer
--   Notification   cmd/notification-service/main.go, with internal/app/grpc_server.go; Notification/Remote is
--                  the monolith's client, internal/notification/grpc_client.go
--   Api            cmd/api/main.go: what the monolith is made of, by what it can reach
--   Thumbnail      cmd/thumbnail-fn; Thumbnail/Float is its float64 arithmetic
--   Examples       one small database, and each theorem that has hypotheses applied to it
--
-- How code becomes definitions. An operation is a function World → Result A × World, the Result an
-- error value of the package or an answer; it issues the statements of the code in their order. The
-- oracle `faults` says, for each statement by its number, whether it fails, with which error, and
-- whether it took effect all the same, as a commit does when the connection is lost after it; the
-- oracle `redis_fails` does so for Redis. SELECTs outside a transaction read `Reader()`, which is the
-- replica where there is one; the replica may show anything. SQL is a function of the tables.
-- Where ORDER BY created_at leaves ties open, `tie_rank` is the order that a statement finds.
-- An id is a natural number, a price an int64 that wraps around, an instant the nanoseconds since the
-- year 0 (since 1970 for the sessions); a float64 that the code only hands on is its bit pattern,
-- and the scale of a thumbnail is a rational with 53 bits, rounded as IEEE 754 says.
-- A loop that waits on a channel is a function of what comes out of it; where goroutines share work, in
-- Eventbus and in Booking/History, it is a step relation, and a theorem is about every order of steps.
--
-- Bounds and fuel: WithinTransaction makes at most maxTxRetries = 3 attempts, and its loop is
-- recursion on the attempts left, which is the bound of the code. The polling loop is recursion on the
-- ticks before its deadline, 50 at most. The decimal print of a number is recursion on 19 digits, which
-- are enough for an int64; the quotient of a thumbnail is recursion on 105 doublings, enough for 53 bits
-- of integers below 2^53, and a date is recursion on its days, which are no fewer than its years.
--
-- Parameters: how the database averages (AVG) and compares texts (the collation of users.email, LIKE),
-- bcrypt and scrypt's derivation of a key, the signing and the verification of access tokens, SHA-256,
-- MD5 and HMAC, the random bytes, the OAuth2 and OIDC libraries, time.ParseDuration, and the circuit
-- breaker with the gRPC call behind it. They are third-party code, cryptography, or the database's. Elasticsearch is an
-- interface (SearchIndexer.Elastic), and what its documentation promises is the record
-- SearchIndexer.Latest.Honest.
--
-- Not modelled: JSON and the other wire formats, templates, the exporter of metrics, CORS, the generated gRPC code, health
-- checks, SAML, MongoDB, the Kafka and RabbitMQ brokers and clients, image codecs, and the start and the
-- end of a process but for what cmd/api is made of. Row locks are not
-- modelled: a transaction is one step of the primary, as SELECT … FOR UPDATE makes it.
pub mod Prelude
pub mod Model
pub mod Store
pub mod Http
pub mod Availability
pub mod Listing
pub mod Cache
pub mod Booking
pub mod Review
pub mod User
pub mod Category
pub mod Codec
pub mod Realtime
pub mod Search
pub mod SearchIndexer
pub mod Eventbus
pub mod Auth
pub mod Admin
pub mod Config
pub mod Routes
pub mod Queue
pub mod Notification
pub mod Partner
pub mod Middleware
pub mod Api
pub mod Thumbnail
pub mod Examples
