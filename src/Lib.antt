-- ===== src/Lib.antt =====
-- Kit: the core of a toolkit for services, as functions and relations, with its correctness.
--
-- A service is an endpoint, a function from a request to a response or an error
-- (endpoint/endpoint.go), and all else is put around it by middlewares: rate limiters
-- (ratelimit/token_bucket.go), circuit breakers (circuitbreaker/) and, on the side of a client,
-- load balancers with retries (sd/lb/) over the endpoints that service discovery finds (sd/). A
-- server makes an endpoint into an HTTP handler (transport/http/server.go). Metrics are counters
-- and time series (metrics/), and util/conn/manager.go keeps a connection to a metrics backend.
--
-- Go's effects are explicit: a call with effects is a function from a state `W`, which stands for
-- everything outside, to a result and the new state (`Act` of Go.antt). Fallible functions return
-- what Go returns, a value beside an optional error. Numbers are natural numbers, with the wrap of
-- a 64-bit counter written out; durations are nanoseconds.
--
-- Endpoint.antt is endpoint/endpoint.go: `Endpoint`, `Middleware`, `nop` and `chain`, whose loop
-- over the indices is `wrap`. Ratelimit.antt is ratelimit/token_bucket.go and Circuitbreaker.antt
-- the three files of circuitbreaker/; limiters and breakers are parameters.
--
-- Sd.antt and its children are sd/. Sd/EndpointCache.antt is sd/endpoint_cache.go: `update` is
-- Update, `update_cache` updateCache with `collect` for the loop over the instances and `place` for
-- one round, and Endpoints is cut in two at the change of its lock, `endpoints_shared` and
-- `endpoints_exclusive`. The closers that were closed are kept in a field. Sd/Instance.antt is
-- sd/internal/instance/cache.go, with channels as numbers and a log of what was sent to them;
-- Sd/Endpointer.antt is sd/endpointer.go and joins the two: the events that the instance cache sends
-- to a channel are those that the endpointer handles. Sd/Lb.antt and its children are the balancers
-- of sd/lb/ and `retry` of sd/lb/retry.go. The loop of a retry is a recursion on the schedule of
-- what its select receives; Sd/Lb/Retry/Bounded.antt says how long a schedule is enough. A goroutine
-- that still runs when the deadline passes is not modelled.
--
-- Conn.antt is util/conn/manager.go: the cases of the loop's select are functions, and
-- Conn/Steps.antt is the relation of its turns, with the goroutines that dial.
--
-- Metrics/Generic.antt is metrics/generic/generic.go: the compare-and-swap loops of Counter and
-- Gauge are cut at their atomic actions, which Metrics/Generic/Interleaving.antt runs by a schedule
-- of goroutines. Floats are a parameter with their addition. Metrics/Lv.antt and its children are
-- metrics/internal/lv/: label values as lists, With also on slices that share an array
-- (Metrics/Lv/Alias.antt), and the space of time series (Metrics/Lv/Space.antt) as a tree of nodes.
-- `walk` of Metrics/Lv/Space/Walk.antt passes the series on.
-- Its locks are left out, since each operation holds them while it works; a panic is `none`.
--
-- Metrics/Multi.antt is metrics/multi/multi.go.
--
-- Metrics/Statsd.antt is metrics/statsd/statsd.go over Metrics/Ratemap.antt, which is
-- metrics/internal/ratemap/ratemap.go: the functions that WriteTo walks the spaces with are calls on
-- the writer and on its two results. Metrics/Dogstatsd.antt and Metrics/Dogstatsd/Gauges.antt are
-- metrics/dogstatsd/dogstatsd.go in the same way, with the gauges as a tree. Metrics/Convert.antt is
-- metrics/internal/convert/convert.go and Metrics/Timer.antt is metrics/timer.go.
--
-- Transport/Http/Server.antt is transport/http/server.go. What is given a ResponseWriter is a
-- program of calls on it, which Transport/Http/Writer.antt runs on the writer itself or on the
-- intercepting one of transport/http/intercepting_writer.go; Transport/Http/Interfaces.antt is the
-- switch of the latter over the optional interfaces. Panics of a handler are not modelled.
--
-- Transport/Http/Client.antt is transport/http/client.go, Transport/Nats.antt is
-- transport/nats/subscriber.go, Transport/Awslambda.antt is transport/awslambda/handler.go and
-- Transport/Grpc.antt is transport/grpc/server.go: a record of the functions that a server or a
-- client is given, a function for each option, and the handler in two parts, up to its deferred
-- calls and with them. Transport/Common.antt has their common loops. Auth/Basic.antt is
-- auth/basic/middleware.go over its base64 decoder and its hash.
--
-- Transport/Jsonrpc.antt and its children are transport/http/jsonrpc/: error.go and the types in
-- Transport/Jsonrpc.antt and Transport/Jsonrpc/RequestId.antt, server.go and encode_decode.go in
-- Transport/Jsonrpc/Server.antt, client.go in Transport/Jsonrpc/Client.antt. The server's answer is a
-- program on the writer, as in Transport/Http/Server.antt, and raw JSON is a list of bytes.
-- Transport/Amqp.antt and its children are transport/amqp/, where a publishing that functions change
-- is passed on from each to the next, and the rounds of the loop of DefaultDeliverer are a list of
-- what its select receives: an endpoint whose rounds are not decided by it still waits.
-- Transport/Nats/Publisher.antt is transport/nats/publisher.go and Transport/Grpc/Client.antt is
-- transport/grpc/client.go. Auth/Jwt.antt is auth/jwt/transport.go and middleware.go, over the
-- functions of golang-jwt and strings.EqualFold, and Auth/Casbin.antt is auth/casbin/middleware.go.
-- Transport/Httprp.antt is transport/httprp/server.go.
--
-- Sd/Instancer.antt is what the instancers of sd/dnssrv, sd/etcd, sd/etcdv3, sd/zk and sd/eureka have
-- in common: a loop that looks the instances up at each notification, whose rounds are a list, and the
-- instance cache. Sd/Dnssrv.antt, Sd/Etcd.antt, Sd/Etcdv3.antt, Sd/Zk.antt and Sd/Eureka.antt are
-- these, each with its own lookup, and Sd/Instancer/Endpoints.antt joins them to the endpointer.
-- Sd/Consul.antt is sd/consul/instancer.go, whose loop also keeps an index and a backoff.
-- Sd/Etcd/Registrar.antt is sd/etcd/registrar.go as a relation of steps of callers and goroutines,
-- and Sd/Eureka/Registrar.antt is sd/eureka/registrar.go.
--
-- Prelude.antt has what the modules share: names of the libraries, Boolean tests, lists, sorting and
-- association lists for Go's maps. The modules of Tests.antt run the theorems on small inputs.
--
-- Not modelled: logging and tracing, the backends of metrics but statsd and dogstatsd, the clients
-- of the backends of service discovery, which call other packages, and the example programs.
mod Prelude
pub mod Go
pub mod Endpoint
pub mod Ratelimit
pub mod Auth
pub mod Circuitbreaker
pub mod Sd
pub mod Conn
pub mod Metrics
pub mod Transport
pub mod Tests
