-- ===== src/Lib.antt =====
-- Verification of vibechat, a chat server in Go.
--
-- The server has use cases (internal/usecase) that decide what a caller may do, repositories
-- (internal/infrastructure/storage) that keep users, chats and messages in an SQL database, and an
-- HTTP and WebSocket delivery in front. The use cases see the repositories through the interfaces of
-- internal/domain.
--
-- Domain        internal/domain: types, errors, and the interfaces as records of actions on a state.
-- Exec          Go methods that return (T, error) and change a state; what is written before an
--               error stays written. Exec.Runs says when a detailed action runs as a specification:
--               it stops with an error of the driver and shows no change, or it returns and shows
--               what the specification does.
-- Storage       Tables are lists of rows (migrations/postgres). Storage.Sql has one action for each
--               statement with the constraints of the migration, Storage.Postgres the methods of
--               internal/infrastructure/storage/postgres over a handle. Connection has two handles:
--               the bare tables, and the tables behind a network where a function decides for every
--               statement whether it fails. Transactions are BEGIN, the body and COMMIT, and roll
--               back on any error. Ownership is the invariant of the roles.
--               Storage.Mysql has the statements and the methods of the repositories of
--               internal/infrastructure/storage/mysql over the same tables and handles
--               (migrations/mysql): an UPDATE counts the rows that it changed.
--               Storage.Cached has internal/infrastructure/storage/cached: a repository whose state is
--               that of an origin beside that of a cache. Its User.Coherent says when what is cached
--               is true of the origin, and User.Origin what PostgreSQL gives it.
-- Cache         internal/infrastructure/cache: the interface, and the cache in memory with a clock.
-- Validate      utils/validate; the regular expressions are matched by derivatives.
-- UseCase       internal/usecase. Chat.Service is chat.go, method by method, and Chat.Dto is dto.go.
--               Policy has the rules as tables, Exact the agreement of the service with them, Faults
--               the same behind the network, and Histories sequences of requests. User and Message
--               are user.go and message.go in the same way.
-- Delivery      RateLimit is internal/delivery/http/middleware/ratelimit.go: requests and purges in
--               the order of the mutex. The map is a function of the address, which RateLimit.Client finds.
--               Ws is internal/delivery/ws: the rooms of the hub, the clients with their buffers of 256
--               messages and what their connections have taken. A call of the hub, a message that is
--               read and a round of the write pump are steps, and Ws.Reach has every order of them.
--               Ws.Handler is the request that opens a connection.
--               Http is internal/delivery/http: Http.Auth is middleware/auth.go, Http.Cors is cors.go
--               and requestid.go beside it, and Http.Message, Http.Chat and Http.User are the
--               handlers, each a function of the request over the service. An answer is a value of
--               Http.Response, with the status of its error.
-- Tests         a database of four accounts, and the theorems applied to it.
--
-- A uuid and a time are numbers, a time in microseconds, as the columns hold it: the nanoseconds of
-- time.Now() are left out. What time.Now() and uuid.New() return are arguments, NOW() is a field of
-- the database. The rows of a table stand in the order of their insertion, the newest first;
-- queries without an order return them so. Roles, kinds and statuses are the values that the CHECK
-- constraints and ENUM types of the migrations allow. A statement that fails has no effect on the
-- tables, COMMIT included, and the context of a request never expires by itself. Requests run one
-- after another: of two requests that overlap only a read within an update of a cached chat is
-- modelled (Storage.Cached.Chat.Races). The broadcast of an event is one step of the hub, since its
-- sends go to channels of different clients. encoding/json, the printed form of a uuid, uuid.Parse,
-- strconv.Atoi, time.Parse, the collation of a database and the upgrade of a connection are
-- parameters. Loops are structural recursion, so there is no fuel.
--
-- Not modelled: the router, which net/http matches, configuration, Redis and logging.
pub mod Prelude
pub mod Exec
pub mod Cache
pub mod Domain
pub mod Storage
pub mod Validate
pub mod UseCase
pub mod Delivery
pub mod Tests
