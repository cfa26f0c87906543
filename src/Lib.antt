-- ===== src/Lib.antt =====
-- beaconprobe runs several libp2p hosts ("instances") in one process, on the beacon chain's
-- gossip network. One discv5 crawler finds nodes; each peer belongs to exactly one instance,
-- which dials it, and each instance records when attestations and blocks arrive. This library
-- models the parts that decide all that.
--
-- The parts, and how they interact:
-- * Node.PeerSet (node/sharedpeerset.go): `SharedPeerSet`, the owners of the peers, shared by all
--   instances. `assign_or_get`, `owner_of` and `claim` are AssignOrGet, Owner and Claim, each a
--   step under the mutex. Runs has the histories of its calls, RoundRobin the order of
--   assignment, Ledger the abstract view of the set.
-- * Node.Gater (node/gater.go, node/inbound.go): `intercept_peer_dial`, `intercept_secured` and
--   `handle_inbound_peers` claim peers in the shared set or close the connection. Exclusive has
--   the histories in which all of them and discovery take part.
-- * Node.PeerFinder (node/peerfinder.go): `add_peer` sorts what discovery routes into the maps of
--   the owners, `get_peers` is what the peer manager of an instance pulls.
-- * Node.PeerManager (node/peermanager.go): `handle_candidate`, the backoffs (Backoff), what they
--   do to dials (Dials), and `Run` with its goroutines as a step relation (Loop), up to their end
--   (Drain).
-- * Node.Block (node/block.go): the tracker of the arrivals of blocks and the loop that fills it.
-- * Node.Attestation (node/attestation.go): `collect_subnet`, `flush_slots`, whose buffer is
--   emptied at each slot (Conserves), and `log_slot_attestations`, which reads the tracker
--   (Logging).
-- * Node.UserAgent (node/useragent.go): the normalised agents of the peers, and their counts
--   (Tally).
-- * Node.Connectivity (node/connectivity.go): the peers counted by transport (Counts).
-- * Node.Host (node/host.go): `LoadOrGenerateKey` over a file system that is a parameter (Keys),
--   and what a host listens on.
-- * Node.Gossipsub (node/gossipsub.go): the topics, `SubscribeSubnets` (Topics), and what
--   `NewGossipSub` hands to the library (Options).
-- * Node.Scoring (node/scoring.go): the scores of the peers (Decay).
-- * Config (config/config.go): `load` (Loading), `validate` (Validity) and the ports of the
--   instances (Ports).
-- * Rpc (rpc/rpc.go): the request handlers (Handlers), the status handshake (Handshake) and the
--   bit field of subnets (Attnets), which discovery/discovery.go reads with `hasSubnetOverlap`.
-- * Discovery (discovery/discovery.go): the filters (Filters), `discoverPeers`, whose two loops
--   share the crawl file (Loop, Once) and whose undisturbed round is one step (Routed), the crawl
--   file (CrawlFile), `RouteBootstrapPeers` (Bootstrap, Bootstrap.Admitted), the addresses of a
--   node record (Addresses), and `StartDiscovery` (Start, with Given and Loops).
-- * Metrics (metrics/metrics.go): the collectors, and `new_metrics`, the view of one instance
--   (Apart).
-- * Main (main.go): `main`, `run_crawl` (Crawl) and `run_probe` (Probe) put the parts together,
--   in a small monad of steps that may exit (Base.Setup); what the libraries answer is a record,
--   and so is whether a function of another package, which has its own module here, fails. Binds
--   counts the ports that the calls bind, Panics follows the exits, Wires says what a probe is
--   made of when it has started (Keys, Parts, Siblings, Probes), what it has called (Emits,
--   Calls), and when it starts (Passes, Starts).
-- * Base (helpers): the numbers, lists, maps and tests that the others share. A Go map is a list
--   of pairs with `lookup`, `insert` and `delete`; its order stands for Go's unspecified one.
--
-- State is passed explicitly. A panic (a modulo by zero, an index out of range) is `none`. A
-- mutex-protected method is one step, and what may interleave is a list of inputs, or a step
-- relation where goroutines share a counter. Time is a natural number of nanoseconds, a duration
-- an integer of them; uint64 and uint keep their wrap-around (`u64_mod`), and so do the sums and
-- products of int that may leave an int64 (`wrap_int`). No function takes fuel: every loop of the
-- program runs over its inputs, and is recursion on their list.
--
-- What is a parameter: math/rand's shuffle, which permutes; `strings.TrimSpace`; the vectors of
-- Prometheus; prysm's slot times, codecs and SSZ types; the YAML decoder; the file system, hex
-- and the curve of the keys; the parser of node records and their addresses; the calls of pubsub
-- that open a topic, with its state; the float64 of the scores; what the sockets, listeners and
-- other libraries answer at the start; whether a host is connected to a peer, and over which
-- addresses.
--
-- What is not modelled: the sockets of libp2p, discv5 and pubsub and those of their options that
-- are functions or constants (node/host.go, `NewGossipSub`), since they are calls of those
-- libraries; the buckets, the registration and the handler of metrics/metrics.go; log lines to
-- the console; the timers, which are inputs of the loops.
pub mod Base
pub mod Node
pub mod Config
pub mod Rpc
pub mod Discovery
pub mod Metrics
pub mod Main
