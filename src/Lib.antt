-- ===== src/Lib.antt =====
-- frpc: an RPC framework in Go, with a binary wire format, a client with connection cache, retries and
-- load balancing, and a server.
--
-- A client asks a selector for a server, takes a connection to it from its cache or dials one, and calls
-- over it; how it goes on when that fails is its failure mode. On a connection each call has a sequence
-- number under which it waits in a table; one goroutine reads the answers and hands each one to the call
-- that waits. Requests and answers are messages of one format, encoded and decoded by the protocol
-- package, and taken from a pool.
--
-- The files and what they model:
--   Base, Base/*             bytes, slices, maps as lists of entries, integers; no code of the repository
--   Protocol/Word            big-endian words (encoding/binary)
--   Protocol/Header          the type Header of protocol/message.go; Masks and Flags are its proofs
--   Protocol/Metadata        encodeMetadata and decodeMetadata of protocol/message.go
--   Protocol/Message         Encode, Decode, Copy, Reset of protocol/message.go, and protocol/pool.go
--   Client/Call              one connection of client/client.go: Send is Go and send, Response is
--                            handleResponse, the cancelled branch of call, and close; Trace runs them as
--                            events in any order
--   Client/Failmode          the cache of connections and Call of client/client.go, and client/failmod*.go
--   Client/Option            client/option.go and NewClient
--   Selector/Weight          nextWeighted of selector/weight.go; Step is its proof
--   Selector/Plain, Ping     the round robin and random selectors, createWeighted, and CalculateWeight
--   Circuit                  circuit/breaker_simple.go; Trips is its proofs
--   Server/Service           register, suitableMethods and service.call of server/service.go
--   Server/Handle            handleRequest, handleError and the handler of serveConn in server/server.go
--   Server/Controller        the loops of server/server_controller.go
--   Server/Registration      RegisterWithMeta of server/service.go and server/server_registry.go; Announced is
--                            its proof
--   Server/Listener          serveListener, Close and doneChan of server/server.go; Pauses and Closed are its
--                            proofs; Lifecycle is the server with its connections over time
--   Server/Conn              the loop of serveConn in server/server.go; Requests and Suitable are its proofs;
--                            Observed is what the controllers are shown
--   Server/Controllers       controller/metrics.go, controller/ratelimit.go and controller/trace.go
--   Server/Option            server/option.go and newServer
--   Server/Http              ServeProxy, Serve and ServeHTTP of server/server.go, and server/listener*.go;
--                            Unconfigured is its proof
--   Rpc                      a call from end to end: the server's handler and the client's connection, with
--                            both messages on the wire; Exchange, Whole, Returned, Metadata,
--                            Heartbeat and Cancelled are its proofs
--   Rpc/Interleaved          many calls under way on one connection, with a goroutine for each request: what
--                            each party does next comes in any order; State is what holds all the
--                            while, Sends, Serves, Answers and Receives are its steps, Runs and
--                            Drained its histories
--   Client/Routing           client/client_registry.go, and Selector of client/client_controller.go; Stale and
--                            Found are its proofs
--   Client/Guarded           CallDirect of client/client.go and circuit/breaker_consecutive.go,
--                            circuit/breaker_rate.go and circuit/breaker_threshold.go; Shared is its proof
--   Client/Connect           client/connection.go, and the map of servers of client/client_registry.go;
--                            Handshake is the client's HTTP handshake against the server's, Deadline what
--                            the options of NewClient come to
--   Selector/Hash, Geo       selector/hash.go with selector/selector_hash.go, and selector/selector_geo.go
--   Selector/Modes           selector/selector.go: the selectors behind one interface; Among and Picks are
--                            its proofs
--   Registry                 registry/discovery_etcd.go; Watch is its loop, and registry/discovery_consul.go
--   Registry/Modes           the interfaces of registry/registry.go and registry/discovery.go by mode, and the
--                            rest of registry/discovery_consul.go; Same compares the two discoveries
--   Registry/Register        registry/registry_etcd.go and registry/registry_consul.go; Nodes and Ticks are
--                            its proofs
--   Codec                    codec/codec.go, Codecs of core/frpc.go and util/compress.go
--   Log                      log/logger.go and log/default_logger.go; Written is its proof
--   Examples/*               the theorems at concrete inputs
--
-- The state of a component is a record, and each critical section or handler is a function on it; an
-- interleaving is the order of the events. A pointer is an index into a list that stands for the heap. A
-- map is a list of entries in the order in which range visits them. A run-time panic and an error are
-- values of the result.
--
-- Bounds: an int of Go is an integer where it counts or weighs, so that the lengths of lists are taken to be
-- below 2^31 and the sums of weights within 64 bits. Bytes and words wrap as in Go (% 2 ^ w). The lengths of strings and messages are naturals, so an
-- encoding theorem asks for bodies below 2^32 bytes. The loop of decodeMetadata runs on the fuel l + 1,
-- which is enough, since every round moves the position on by at least eight. The loop of serveConn runs on
-- one more than the length of the stream; each round takes at least sixteen bytes. The loop of the jump hash
-- runs on one more than the number of buckets; each round moves forward.
--
-- Foreign and therefore parameters: the codecs and gzip as a connection uses them (Env), the selector,
-- dialling and the outcome of a call as the cache sees it (Net), dialling and what comes back as Connect
-- sees it (Dialling), the breakers of a library, the choice of sync.Pool, random numbers, the libraries of
-- the codecs (Libraries), gzip's reader and writer (Gzip), fmt and the colours of the log (Formats), the
-- parser of server metadata, float64 (Floats, and the step of the jump hash), the key-value store behind
-- the registry (Store), the bucket of the rate limit, what reflection tells of a type, and what a method
-- of the user does.
--
-- A connection is written when conn.Write is called: the close at the end of serveConn's loop does not wait
-- for the goroutines of the requests, and what the network then does is not modelled.
--
-- Not modelled: sockets, TLS, KCP and QUIC, the heartbeat's ticker, the libraries behind metrics and
-- traces, reflection, and goroutine scheduling below the level of the events.
pub mod Base
pub mod Protocol
pub mod Client
pub mod Selector
pub mod Server
pub mod Circuit
pub mod Codec
pub mod Log
pub mod Registry
pub mod Rpc
pub mod Examples
