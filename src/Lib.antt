-- ===== src/Lib.antt =====
-- A model of the backend of Chatster, a chat server in Go. Clients hold a websocket to one instance;
-- an instance stores messages, sends them to the clients of a room and relays them to the other
-- instances; HTTP endpoints open sessions and serve the history.
--
-- Files, with the code they are about (paths from the repository's root):
--   Prelude, Text       helpers; Go strings as lists of code points, with `len` as the UTF-8 length
--   Db/Room             `NormalizeRoom` of backend/db/database.go
--   Db/Rows, Db/Sqlite  the tables and statements of backend/db/database.go: `save_*`, `get_*` and
--                       `prune_*` are the methods of `DB`; `older` and `newest_first` are the WHERE
--                       and ORDER BY clauses of the queries
--   Db/Postgres         the same of backend/db/postgres.go, with the prefix `pg_`
--   Db/Log, Db/Contract what both stores promise of the messages: a log, its queries, and the effect of
--                       every statement on it
--   Db/Sqlite/Refinement, Db/Postgres/Refinement
--                       the stores against the log; Steps, Chronicle and Ordered have the single
--                       statements
--   Db/Migrations       `runMigrations` and `applyMigration` of both stores
--   Db/Repository       `OpenRepository` of backend/db/repository.go, `Open`, `OpenPostgres`
--   Codec               JSON, base64, HMAC and SHA-256 as parameters, with the laws relied on
--   Cursor              backend/history_cursor.go
--   Auth/Principals     the identities of backend/internal/auth/session.go, `normalizePrincipal`
--   Auth/Service        its configuration, `New`
--   Auth/Session        `Exchange`, `Authenticate`, `Authorize`, and the signed cookie
--   Events              backend/internal/events/envelope.go
--   Hub/State           `Hub` of backend/hub.go and `Client` of backend/client.go
--   Hub/Fanout          the event loop `run`
--   Hub/Remote          `publishContext`, `queueBrokerMessage`, `handleRemoteEvent`
--   Hub/Client          the read loop of backend/client.go, one frame at a time; Lifecycle
--                       has `writeMessages` and `nextReadDeadline`
--   Hub/Presence        `registerClient`, `sendMessageHistory`, one round of `runLeaveNotifications`
--   Hub/Drain           `drain`, `notifyClientFinished`, `closeForShutdown`; Places has the ends of
--                       clients interleaved with the drain
--   Broker              backend/internal/broker/redis.go, and `runBrokerPublisher` and
--                       `runBrokerSubscriber` of backend/hub.go
--   Config              backend/internal/config/config.go
--   Server              `messagesHandler` and the errors of backend/server.go
--   Server/Pages        how the pages of the history follow one another
--   Server/Sessions     `sessionHandler` and `bearerToken`
--   Server/Ratelimit    backend/internal/ratelimit/ws_upgrade.go
--   Server/Sockets      `serveWs`
--   Server/Cors         `enableCORS`, `healthHandler`
--   Startup             `newAuthService`, the retention and `shutdownServer` of backend/main.go
--   Tests               runs on concrete inputs
--
-- State. A function of the code that changes state takes the state and returns the new one. A client
-- is an address into `objects`, so that all who hold the pointer see one state. A buffered channel is
-- the list of what it holds, with its capacity in the test before each send; a send that may wait
-- returns no result while the channel is full. The map of clients is a list in the order of one
-- iteration. Locked sections are single steps. Every call of the SQL driver may fail, as an argument
-- says. Times are numbers of nanoseconds since year 1, identifiers are natural numbers, and a number
-- below zero in JSON is read as 0, which every check rejects alike. All loops are recursion on lists;
-- the one definition on fuel is `digits_reversed`, whose fuel is above the number that it writes.
--
-- How the parts meet. `serve_ws` asks `Authorize` and registers a client in the hub; the frames of a
-- client are stored, put in the broadcast queue and relayed; the relay queue goes through `packet_of`
-- and `receive` of the broker to `handle_remote_event` of another hub; the history endpoint reads what
-- was stored.
--
-- Parameters: the case tables of package `unicode` beyond ASCII, the SQL driver and its `julianday`,
-- the encodings of Codec, the JSON of envelopes, the Redis client, the clock, the random source, the
-- buckets of rate limiters, floating point numbers and durations of the settings, what the websocket
-- library reads and whether it writes, and at the start the stores and the server. PostgreSQL is its
-- tables and the statements on them, with refused statements, lost replies and gaps between keys; its
-- times have microseconds, and the parameters that it is sent are cut off to them. A migration is its
-- version.
--
-- Granularity. A registration and the history that a client is sent are single steps each, though the
-- code holds the lock only for the map of clients: a broadcast that comes in between is not modelled.
-- A message that arrives for a stopped hub may still take a free place of the broadcast channel, as an
-- argument says. Times before year 1 are left out.
--
-- Not modelled: the router and static files of backend/server.go; the heartbeat and the write
-- deadlines of a socket; the cancellation of the broker and of leave notifications; the wiring of
-- `main`; metrics, tracing and logging, but for the drop counters of the
-- hub; the load generator.
pub mod Prelude
pub mod Text
pub mod Db
pub mod Codec
pub mod Cursor
pub mod Auth
pub mod Events
pub mod Hub
pub mod Broker
pub mod Config
pub mod Server
pub mod Startup
pub mod Tests
