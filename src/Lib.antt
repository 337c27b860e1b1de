-- ===== src/Lib.antt =====
-- motor, a scaffold for Go microservices: configuration that is reloaded while the program runs,
-- service registration and discovery over etcd, and pools of connections that follow both.
--
-- The program's parts and their files.
-- Conf models conf/. Storage is conf/storage.go and conf/value.go: the map behind an atomic.Value,
--   with Storage.Store, Load, Get and Value.Raw. Files is readDir, readFile and the two filters of
--   conf/conf.go. Watch is the object of conf/conf.go: newConf, Get, WatchEvent, reloadFile and
--   monitor, with its channels; its children prove what a change puts into which channel (Notify),
--   what holds of any history (Subscribe), what one channel gets of each call (Behind), and what a
--   reader sees (Monitor). Toml is conf/toml.go, a Storage that is set from a document, over the
--   TOML library. Settings is Parse and Get of conf/api.go with Value.Unmarshal and
--   Value.UnmarshalTOML, and how the other packages read a section of a file. Ctype is
--   conf/ctype.go. Follow is Watch of conf/api.go with its goroutine. Stop is Stop and Dump, with
--   the start and the end of the monitor. Reload puts the loop of loadConfFromFile, the same in
--   redis/redis.go and mysql/mysql.go, beside the object.
-- Naming models naming/. Types is naming/interface.go with the state of naming/etcd.go; Key is
--   `key`; Builder is Discovery, watch, getstore, parseIns, store, Fetch, Close of a resolver;
--   Build is getConf, create, singleton and Build; Register is Register, registerLease, unregister
--   and the goroutine of a registration; its children are the cancel function beside that goroutine
--   (Cancel), what etcd holds (Lease), and the names that stay taken (Again). Follow puts the loop of loadConfFromNaming, the same in redis/redis.go and
--   mysql/mysql.go, beside the builder.
-- Trace models trace/client.go and trace/jaeger.go: Init, GetTraceCtx, GetTraceID and Close over
--   `_Trace`.
-- Redis models redis/. Load is parseFileConf and parseNamingInstance of redis/redis.go, with the
--   variables that the Dial closures capture; Conn is getConn, GetConn and InitRedis with its first
--   load, with what its pool comes to as the file changes (Follows); Dial is what a Dial closure
--   does with its arguments, and redisPool.close.
-- Mysql models mysql/mysql.go and mysql/sql.go. Query is GetList, GetRow, Insert, Update,
--   NamedQuery and slowLog, each with the list of what it does outside, in order; its children say
--   what is closed (Tidy), what is sent (Sent, Answers), and what happens without a tracer
--   (Untraced). Load is parseFileConf, parseNamingInstance and close, over a driver that counts its
--   Opens and knows which handles are open; Conn is getDB, GetDB and InitMysql with its first load.
--   Load's children say which databases are listed (Listed), and prove which a load leaves
--   (Reached) and which handles are open (Held, Live, Reload). manager.New runs in the loop at
--   once, so nothing is captured there.
-- Http models jwt/jwt.go (Token), http/jwt.go (Jwt), and the other middleware of http/, each as a
--   function of the handlers behind it, over what it sees and changes of a request (Request):
--   Recovery and Ratelimit (Guard), and Logger, Trace and Metrics (Report), with what a line of the
--   access log tells (Unique). A status that is set after the header is written changes
--   c.Writer.Status() and not what the client got, so a request has both. Server is http/server.go
--   and http/pprof.go, a server being the calls that it makes of its gin.Engine; `server` is the
--   middleware of DefaultServer with Metrics and Ratelimit added in any order and number, as a
--   program adds them by Use or to a group of routes. Its children say what a request comes to
--   (Stack, Reported), what is left over and logged (Kept), what a query with the handler's gin
--   context does (Traced), what is answered where there is no route (Missing), and which requests
--   reach handlers behind Jwt (Signed). Of gin's router nothing is assumed but IsGin, for requests
--   that it neither serves nor redirects to a path with or without a slash at its end.
-- Metrics models metrics/metrics.go, Log models log/log.go, Tolerant models tolerant/, and Util
--   models util/bytesfmt.go.
--
-- How they interact: a pool's loader calls Discovery once, takes the token of its resolver and
-- fetches the instances, and rebuilds its two maps from them; or it reads its file from Conf and
-- rebuilds at each event of its channel (Naming.Follow, Conf.Reload). The queries of Mysql take the
-- span of a request from the gin context that Http's Trace has prepared, by Trace.
--
-- How the code is read. Go strings are lists of bytes, and letters those of ASCII: strings.ToLower
-- of other letters is not modelled. A Go map with string keys is an association list; the order of
-- the list is the order in which a `range` loop meets the entries, which Go leaves open, so a
-- theorem for every list is one for every order. A nil pointer is `none`, a run-time panic is
-- `panicked`. Pointers are positions in a list of the state, channels their buffers. Settings that
-- are Go ints are natural numbers; negative ones are not modelled. A time.Duration is the bits of
-- its int64. All recursion is on a list, so no fuel is needed. What the program calls and this
-- repository does not hold is an argument: the file system's answers, the clientv3 client, jwt-go,
-- the codecs of JSON and TOML, gin's router, opentracing's tracer, gendry's builder and scanner,
-- sentinel, zap, jaeger's client, math/rand, whether the n-th Open of a database succeeds, and the
-- order in which goroutines run, which is a list of calls. Each call of such a list is one step. Most
-- hold their lock in the code or are one operation on a channel; two do more than their lock
-- covers: reloadFile holds it for the lookup of the channels only, after the new map is stored and
-- before the events are sent, and the store of a service puts its instances before it takes the
-- lock to send the tokens. What another goroutine sees in between is not modelled.
--
-- Goroutines that meet on channels (Stop, Cancel) are the steps of a relation, and a theorem holds
-- of every order of them.
--
-- Not modelled: log output other than that of a server, metrics/handler.go, which passes requests
-- on to promhttp, and structToMap of mysql/util.go, which is deprecated, has no caller and works by
-- reflection. Of float64 nothing is computed: its operations are arguments.
mod Base
pub mod Conf
pub mod Naming
pub mod Trace
pub mod Redis
pub mod Mysql
pub mod Util
pub mod Log
pub mod Tolerant
pub mod Http
pub mod Metrics
