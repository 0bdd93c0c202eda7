-- ===== src/Lib.antt =====
-- Runos is an OpenFlow controller: applications in one process that listen to switches over a
-- server, keep state about them and signal each other. This library models parts of its core
-- (src/core) and proves what they promise.
--
-- Base holds the library names, Boolean tests, integers and 64-bit words that the parts share.
--
-- IdGen follows src/core/IdGen.cc and IdGen.hpp, the pool of identifiers. The pool of segments is
-- a list; acquire, release, recovery, unused and used have the names of the source, and the
-- helpers of release are its branches. Segments, Acquire, Release, Canonical and Invariant are
-- about one call, History about sequences of calls and the clients that hold identifiers, Recovery
-- about a start from booked identifiers. Arithmetic on identifiers wraps at 2 ^ 64 as in the
-- source.
--
-- SwitchAndPort follows src/core/lib/switch_and_port.hpp, the end of a link, with its equality and
-- order.
--
-- LinkDiscovery follows src/core/LinkDiscovery.cc, LinkDiscovery.hpp and ILinkDiscovery.hpp: the
-- set of links, the waiting links, the out-edges, and the handlers of beacons, of ports going down
-- and of the poll timer. A failed CHECK is `none`. Links holds the link type and the sorted set,
-- Invariant, Expiry, Wiring, Discovery and Shared the proofs.
--
-- Heartbeat follows src/core/hb: the core that decides whether a controller is primary or backup.
-- Timing is the timers, Heartbeat.antt the core and its message handlers; Roles, Failover and
-- Handshake are the proofs. Sockets, streams and Qt timers are arguments: whether binding
-- succeeds, what a datagram holds, which timer fires.
--
-- Recovery follows src/core/Recovery.cc, Recovery.hpp and RecoveryModeChecker.cc, the mastership
-- of a controller in its cluster. Recovery.antt is RecoveryManager with the current node before
-- the others of the cluster, and what it emits as a list; SwitchViews is the role exchange with
-- one switch, whose answers are a list; Checker is the wait for the switches after a restart.
-- Alignment, Failover and Asking are the proofs.
--
-- Topology follows src/core/Topology.cc and Topology.hpp. Paths has the triggers of a path, Routes
-- the paths of a route, Graphs the graph of switches and links, Search and Finding the path
-- search, and Topology.antt the slots on all of them. Edges are a list in the order of insertion,
-- a vertex is its number. Counting, Order, Numbering, Growing, Shortest, Reaching, Including,
-- Routing, Exact and Identity are the proofs. The Dijkstra search of the Boost graph library, the
-- ports that the switch manager knows and the neighbours that link discovery knows are parameters.
--
-- FlowEntries follows src/core/FlowEntriesVerifier.cc and FlowEntriesVerifier.hpp, which keep the
-- flows that each switch should have. Messages has the patterns that choose flows, Flows the
-- unordered set of a switch as a list with the arrangement after an insertion as a parameter,
-- States the map of the switches, Store the entries of the database, and FlowEntries.antt the
-- slots of the application. Tables, Modifying, Handling, Restoring, Saving, Overwriting, Deleting,
-- Choosing and Switching are the proofs; the last two have the table of a switch as OpenFlow
-- describes it, with where instructions forward to as a parameter. The answers of the switches to
-- the request for statistics are an argument, exceptions included. Matches and their fields, and
-- how a message is written to text and read again, are parameters; that the comparison of matches
-- compares contents, that an arrangement only changes the order and that reading undoes writing
-- are hypotheses. The order of the switches in a map, and of the keys that the database returns,
-- is the order of insertion.
--
-- OfAgent follows src/core/OFAgentImpl.cc and OFAgentImpl.hpp, which pair the replies of a switch
-- with the requests. Sessions has the list of sessions with on_response, find_task and
-- pop_tasks_until, Visitors the handlers of the replies and Requests the calls and the hook of
-- sent barriers. Honest, Conserving, Running, Promises, Barriers, Answering and Replying are the
-- proofs. The items of a reply are a parameter, and so are the mods of flows, groups and meters
-- that a call sends; the counter has the 64 bits of uint_fast32_t on the platform.
--
-- Stats follows src/core/StatsBucket.cc, StatsBucket.hpp and StatisticsStore.hpp, the counters of
-- chosen flows with their speeds. Store is StatisticsStore and Buckets is FlowStatsBucketImpl,
-- whose requests get their answers as the outcomes of OfAgent; Tracking and Polling are the
-- proofs. Doubles are a parameter: a rate of a count over a time, zero and a maximum.
--
-- DpidChecker follows src/core/DpidChecker.cc and DpidChecker.hpp, the lists of switches that may
-- connect, by role. Roles is about adding and removing one switch, Races about several threads
-- that do, Sync about replacing the lists. How a JSON entry reads is a parameter.
--
-- OfMsgSender follows src/core/OFMsgSender.cc: messages to a switch are sent in packs whose size
-- follows the replies to barriers. Packs is about one pack, Decrease about the limit and the
-- queues, Polling about one round of the poller. Counters wrap at 2 ^ 32.
--
-- SwitchOrdering follows src/core/SwitchOrdering.cc and SwitchOrdering.hpp, which passes switch
-- and link events to the applications in the order of their priority. Handlers is the map of
-- subscribers, Order the handling of simultaneous connects and disconnects, Cache the links that
-- come up before their switch.
--
-- Oxm follows src/core/oxm/field.hh, type.hh and field_set.hh, the match fields as bits under a
-- mask. BitOps is the bits, Rewriting what a constructed field is and what a rewrite does. A
-- failed ASSERT is `none`.
--
-- The parts meet as in the source: switch-ordering calls the sender when a switch comes up or goes
-- down, link discovery hands out links with switch_and_port ends to the topology, the heartbeat
-- core tells the recovery manager who died and is started by it in its new mode, a switch view
-- takes a bad switch from the lists of the dpid checker, switch-ordering and the signals of the
-- recovery manager change the states of the flow verifier, and the verifier and the buckets of
-- statistics ask the agent of a switch.
--
-- Every loop is structural recursion over the list that the source iterates, but for the walk
-- along the predecessors in computePath: it is on fuel, as much as the graph has vertices, which
-- is enough because each round is nearer to the end. change_switch_role, which calls itself
-- through handle_equal_error, is on fuel too; one request more than MAX_TIMES_MEET_EQUAL is proved
-- enough. Signals and calls of other objects are lists in the order in which they are emitted. A
-- method that holds a lock throughout is one step; addSwitch of the dpid checker looks under one
-- lock and appends under another, which Races makes two steps; SwitchOrdering splits the work of a
-- thread into its start and its finish, since the map lock is free between them.
--
-- Not modelled are the parts that stand on libraries outside the repository or on raw memory: the
-- OpenFlow server and its connections, packet parsing, the redis client, the REST and command line
-- output, logging, configuration files and plug-in loading. Properties and the rules of statistics
-- have no model here, nor do the statistics polls and the database code of the topology, and the
-- configuration and commands of recovery.
--
-- Four things are left out where the code is modelled. The role requests of a change of mode are
-- outputs, so an answer that changes the mode again meanwhile is not seen. A slot of the recovery
-- manager that throws leaves its state as it was before, while the code keeps what it changed
-- before the failed CHECK. send_request does not check how many bytes the socket wrote, and its
-- counter has no bound. An edge that is looked for in a graph without edges counts as missing,
-- where the code reads the first edge.
pub mod Base
pub mod IdGen
pub mod SwitchAndPort
pub mod LinkDiscovery
pub mod Heartbeat
pub mod DpidChecker
pub mod OfMsgSender
pub mod SwitchOrdering
pub mod Oxm
pub mod Recovery
pub mod Topology
pub mod FlowEntries
pub mod OfAgent
pub mod Stats
