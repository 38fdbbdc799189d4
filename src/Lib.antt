-- ===== src/Lib.antt =====
-- TopLib, a library of server parts in Go: errors, databases, ids, WebSocket clients, message
-- queues, services and helpers.
--
-- The parts and how they interact. libs/errors turns panics into errors and carries them, with
-- codes and further errors, through chains of handlers. libs/databases runs statements and
-- transactions over an xorm session. libs/uuid makes ids. libs/server holds the WebSocket
-- clients, each with two goroutines, and the manager that registers, kicks and stops them. queue
-- sends and receives messages over one connection each. libs/nats holds connections to NATS
-- servers, and libs/ws_client is the client's end of a WebSocket. services starts and stops
-- services. libs/jwt encrypts under passwords. utils calls HTTP. libs/redis is a view of a Redis
-- server under a key prefix, with notifications that are tried again.
--
-- The files. Prelude and its children hold shared names, tests and lemmas: Prelude.Assoc and
-- Prelude.Entries are Go's maps, Prelude.Bits the bit operations, Prelude.Int Go's int,
-- Prelude.Split strings.Split and strings.Join, Prelude.Decimal numbers in decimal.
--   Errors.Value       error values by address, errors.Is, Error()
--   Errors.Effect      a call as a function of the program's state to a result or a panic
--   Errors.TryCatch    libs/errors/try_catch_func.go, try_catch.go: TryCatch*, TryFunc
--   Errors.Chain       libs/errors/try_catch_chain.go: Try, New*Handler, TryHandler.Do
--   Errors.StackError  libs/errors/error.go, with.go, warp.go, and Convert and Assert
--   Errors.Trace       libs/errors/error_stack.go, ToStr and ToArr of error_utils.go
--   Databases.Session  libs/databases/common.go, constant.go: Do*, WarpSession, SessionWrapper
--   Databases.Dao      libs/databases/dao.go, pageable.go: OrmBaseDao
--   Databases.Entity   libs/databases/entity.go
--   Databases.Connect  libs/databases/mysql.go: Init, NewSingleConn, NewMSConn, GetConnStr
--   Databases.Procedures  libs/databases/dao.go: CallProcedure, the metadata, Migrations
--   Uuid               libs/uuid/uuid.go: NewUuidWorker, Get, Unmarshal
--   Server.Access      libs/server/access.go: Access; Jwt.Claims is JWTDecrypt of libs/jwt/jwt.go
--   Server.Handler     libs/server/handler.go: Handler, NewHandler, GetFunc
--   Server.Http        libs/server/server_http.go, backend_http.go, config.go; Ends has the end
--   Server.Middleware  libs/server/logger.go, cors.go
--   Protocol           protocol/ws_message.go, response.go, codec/json_codec.go
--   Conf               libs/conf/conf.go
--   Logs               libs/logs/logger.go
--   WsClient           libs/ws_client/ws_client.go
--   Server.Client      libs/server/ws_client.go: NewClient, Send, Close; Pumps has the two loops
--   Server.Manager     libs/server/ws_client_manager.go: Start, the kicks, Stop
--   Services           services/base_service.go: Init, Start, Stop, ServiceFactory
--   Uuid.Random        libs/uuid/gen_string.go, gen_bytes.go
--   Queue.Sender       queue/message_sender.go: SendRawBytes, sendPump, Stop
--   Queue.Receiver     queue/message_revice.go: receivePump, handleRawMessage, processMessage
--   Queue.Delivery     a sender and a receiver together, with the JSON codec
--   Jwt                libs/jwt/PBEWhithMD5AndDES.go; Jwt.Keys is keysutils.go
--   Nats.Subscriptions libs/nats/subscribe.go: StopSubscription, StopAllSubscriptions
--   Nats.Starting      the same file: Start, StartSubscription; Nats.Fetching has its goroutines
--   Nats.Connection    libs/nats/nats.go, publisher.go, AddStream and AddConsumer
--   Nats.Manager       libs/nats/nats_connection_manager.go
--   Utils.Http         utils/http.go: GetRemoteAddr, PerformHTTPRequest
--   Utils.Address      utils/system.go: NetAton, IsInnerIp; Utils.Security is security.go
--   Redis.Keys         libs/redis/redis_internal.go: expandKey, truncateKey
--   Redis.View         libs/redis/redis_view.go, and wrapResult
--   Redis.Strings      the same file: SetNX, Set, Expire and XAdd over Redis.Driver
--   Redis.Notification libs/redis/redis_notification.go
--   Redis.Zset         libs/redis/redis_zset.go: the ranges, and toRangeZMembers; Members has
--                      the other operations
--   Redis.Connect      libs/redis/redis_cmd.go, redis_subscribe.go
--   Redis.Driver       the commands of go-redis; Redis.Requests the calls of a view in sequence
--   Redis.Hash         libs/redis/redis_hash.go; Redis.Sets, Lists, Geo: redis_set.go and so on
-- A component's state is a record with the source's fields, and its operations are the functions
-- of the source under their names in this spelling. The other files under a component hold what is
-- proved of it, and its Tests the examples.
--
-- Bounds. An int64 id is its bit pattern below 2 ^ 64. The loop of UuidWorker.Get runs on fuel,
-- a number of clock readings: the state of the program is unchanged while it waits, and
-- wait-first says which fuel is enough. All other loops go over lists or counts. Channels have
-- the capacities of the source: 1024, 256 and 100. The counts of affected rows are taken to stay
-- below 2 ^ 63.
--
-- Parameters. github.com/pkg/errors, xorm, MD5, DES, base64, go-redis, jwt-go, nats.go, echo, the
-- TOML decoder, encoding/json, the message processors, rand.Int, url.JoinPath, net.ParseIP and
-- time.ParseDuration are parameters, and what is relied on of them is a named record or predicate,
-- such as IsCalm, AlwaysWrites, IsCipher, EndsOnce, Remembers, IsLocal, IsFaithful or Draws.
--
-- Not modelled: GeoRadius, GeoPos and the like, which pass on a result of go-redis; the validator
-- and context helpers of libs/server, which call echo; the times and conditions of libs/databases;
-- what zap writes, which is input and output; and llm, which is data types and one call. Data races
-- on the manager's maps are not modelled: each operation is one step. A client's full send channel,
-- at which the manager's loop waits for the client's pump, ends the run of the loop. A handler behind
-- the middleware Request reads the body whole, writes and ends, and does not flush or hijack. Logging is left out
-- everywhere but in Logs and Server.Middleware.
pub mod Prelude
pub mod Errors
pub mod Databases
pub mod Uuid
pub mod Server
pub mod Services
pub mod Queue
pub mod Jwt
pub mod Nats
pub mod Utils
pub mod Protocol
pub mod WsClient
pub mod Logs
pub mod Conf
pub mod Redis
