-- ===== src/Lib.antt =====
-- A verification library for the async task orchestrator: an API that stores tasks and publishes a
-- message for each, workers that take the messages and settle them, a cache of tasks, users with
-- JSON web tokens, and a rate limiter that runs as a script in Redis.
--
-- How the parts interact: a request passes the middlewares of its route (Handler), which ask Redis
-- for the user's token bucket (Limiter, Middleware) and check its token (Auth, Middleware); its
-- handler calls a service (Task, User), which works on the database in a transaction (Sql, Utils),
-- on the cache (Cache) and on the broker (Queue). A worker (Worker) takes a message of the queue,
-- runs the task, and writes its result in a second transaction.
--
-- Files and code:
-- - Prelude, Go: shared names and lemmas; errors as values, panics, and functions that change a
--   state as explicit state passing. A handler is a function of the whole state.
-- - Limiter: internal/middleware/rate_limiter.lua (Script is one run of it on a bucket, Store the
--   hash in Redis with its time to live) and rate_limiter_presets.go (Config). Bound, Expiry and
--   Burst hold the proofs; Ticking compares it with a bucket that a clock refills. The time is in
--   whole seconds, as in the source. Amounts are exact fractions, counted in units of `1 / den`
--   token, where the source has doubles: these are exact for rates of whole tokens. For 0.1, the
--   rate of the strict preset, the script rounds its sums, and can refuse a request that the
--   model lets through (ten refills of 0.1 add up to less than 1).
-- - Middleware: internal/middleware/rate_limiter.go (RateLimit, with proofs in Limits) and jwt.go
--   (Auth, with proofs in Gate). A middleware is a function of the rest of the chain. Users is
--   about the limiter over the requests of several users.
-- - Auth: internal/auth/password.go, jwt.go (Jwt, Context; proofs in Tokens). Times are
--   nanoseconds.
-- - Http: what the handlers use of gin. Handler: internal/handler/handler.go; setup_routes is the
--   list of the routes with the middlewares of their groups, Setup puts the controllers on one
--   state, and Locked and Unserved hold the proofs.
-- - Sql: database/sql and PostgreSQL as a parameter with laws; Sql/Tables has the rows, which are
--   the structs of internal/task/model.go and internal/user/model.go, and the statements as data.
-- - Utils: internal/utils/tx.go; Tx is WithTransaction, Atomic has its proofs.
-- - Task: internal/task. Model, Repository, Service, Body (the text of a message) and Controller
--   are the files of that folder. Through is a read through the cache, which GetTask and GetTasks
--   both are; Reads, Queries, Entries, Fresh and Stale are about it and what it keeps in the cache
--   (Caching), Listing is about GetTasks, Creates and Grows about CreateTask, Access about the
--   handlers, and Pending about the answer 201.
-- - User: internal/user in Repository, Service and Controller; proofs in Registration, Login and
--   Grows.
-- - Cache: internal/cache/task_cache.go, and redis.go in Connect. Fmt: `%d` and strconv.Atoi.
-- - Queue: internal/queue/rabbitmq.go in Connect; messages and the channel of a worker.
-- - Config, Db: internal/config/config.go and internal/db/postgres.go.
-- - Retry: the loops with growing waits of rabbitmq.go and postgres.go. The proofs on them are in
--   Queue/Ready and Db/Ready.
-- - Worker: internal/worker/proc.go (Proc) and worker.go (Loop). The list of the calls on the
--   channel is kept in the state for the theorems. Settle, Done, Progress and Retry hold the
--   proofs on one round, Touched those on the tables. Start is StartWorker around the loop.
--   Messages puts the texts of the service, the decoder and a worker together. Pool is the three
--   workers of cmd/worker/main.go on one queue, interleaved in any order, as a step relation; its
--   children hold the proofs, and Pool/Spec is the queue that it implements.
-- - Json: how json.Unmarshal of encoding/json reads a message into a TaskPayload. Lexer is the
--   scanner, a state machine over code points, and Payload the decoder over its tokens; Quotes,
--   Numbers and RoundTrip hold the proofs.
-- - System: the whole program over time. History is a step relation on the database, the cache and
--   the broker: a request to one of the six handlers, a round of a worker, or entries of the cache
--   that expire. Keeps, Tables, Owners and Users are what one step does, Invariant what holds after
--   any number of steps, and Answers, Accounts and Done what follows for the answers of the API.
--   Whole puts the queue of Worker/Pool beside that state, with the messages that the requests
--   send, and Backed, Finishes and Progress are about it. The requests and rounds follow one another, and
--   the handlers are those of Setup, with no middleware before them, since those let no request
--   through (Handler/Locked).
-- - Cmd: cmd/worker/main.go (Workers, with its proof in Started) and cmd/api/main.go (Api, with
--   its proof in Closes).
-- - Samples: services in memory that meet the assumptions, and the whole program on them (Program);
--   the modules Tests run the code on them.
--
-- Assumptions: PostgreSQL with its driver, Redis with its client, RabbitMQ with its client, gin,
-- golang-jwt and bcrypt are parameters, and so is the JSON of the cache. What is assumed of each
-- is a record of laws beside its parameter (Laws, RedisLaws, ScriptLaws, JwtLaws, JsonLaws,
-- Engine, Bcrypt, CalmDatabase, CalmChannel); the laws of the database and of the cache are about
-- a span in which nobody else writes. What RabbitMQ does with messages stands in the steps of
-- Worker/Pool: one delivery at a time for each worker, frames of a channel in order, a copy
-- lost or there when its publish returned an error, and a delivery that is not settled back in the
-- queue when its channel closes. The worker reads the
-- body of a message with Json, on texts of code points, so that bytes that are not UTF-8 are left
-- out. The code's loops are structural recursion. The only fuel is that of Fmt.digits, which is
-- one more than the number that is printed, and a number has no more digits than that.
--
-- Not modelled: log lines, the sleeps of the task processors, the server of net/http and the
-- signal that ends the API (one call in Cmd/Api), and the deferred calls of the main programs
-- after a panic of a library. internal/handler/rate_limiter_examples.go is a comment.
pub mod Prelude
pub mod Go
pub mod Sql
pub mod Utils
pub mod Retry
pub mod Queue
pub mod Limiter
pub mod Http
pub mod Fmt
pub mod Json
pub mod Cache
pub mod Auth
pub mod Middleware
pub mod Task
pub mod User
pub mod Worker
pub mod Handler
pub mod Config
pub mod Db
pub mod Cmd
pub mod System
pub mod Samples
