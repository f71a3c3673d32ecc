-- ===== src/Lib.antt =====
-- A model of the node proxy ztunnel in antt: what it knows of the mesh, how the control plane changes
-- it, and which connections and packets it lets through.
--
-- The parts and the files:
-- - Policy: src/rbac.rs. Policy/Types has its data and the rejection that the evaluation returns
--   (src/proxy.rs); Policy itself evaluates an ordered stage of policies (`assert_policies`,
--   `match_tcp`, `matches_tcp`); Policy/Convert reads the xDS messages and validates them;
--   Policy/Store is `TrafficPolicyStore`; Policy/Firewall turns a stage into firewall rules
--   (`firewall_rulesets`).
-- - Firewall: the rule types of src/firewall/types.rs. The functions `verdict`, `rule_admits` and
--   `group_admits` are the meaning that the comments of that file give to the rules: the rules of a
--   direction are tried by rising priority, in their order where it is equal (the backends' stable
--   sort, src/firewall/backend/ipt.rs), the first that fires decides, and clauses are conjunctions of
--   disjunctions. Firewall/Inpod is the controller of the rules of the Pods (src/firewall/inpod.rs,
--   src/firewall/convert.rs).
-- - Sandbox: src/sandbox/discovery.rs, with conversion, validation and the store.
-- - Workload: src/state/workload.rs. Workload has the data and the entry of one address
--   (`WorkloadByAddr`); Workload/Index is `WorkloadStore`; Workload/Convert the conversion from xDS.
-- - Service: src/state/service.rs. Service has the data; Service/Match is `find_best_match`;
--   Service/Index is `ServiceStore` with its staging of endpoints; Service/Convert the conversion
--   from xDS.
-- - Extensions: src/extensions/extensions.rs, the extensions of a Workload and the egress policies.
-- - Xds: src/xds.rs. Xds has the updates of the state (`insert_workload`, `remove_internal`,
--   `insert_service`, `insert_address`); Xds/Batches the four handlers and the batches
--   (`handle_single_resource` of src/xds/client.rs).
-- - State: src/state.rs. State has `ProxyState` and the lookup of destinations; State/Balance the
--   choice of an upstream; State/Upstream the address to dial and waypoints; State/Authorize is
--   `assert_rbac`, the decision on a connection.
-- - Connections: src/proxy/connection_manager.rs. Connections has the manager and the watcher's round;
--   Connections/Context the key of a connection, with what its `Eq` compares.
-- - Capsule: src/proxy/h2/capsule.rs, varints and the codec of datagrams.
-- - Inpod: src/inpod/statemanager.rs, the proxies of the Pods of a node, with the messages and events
--   of src/inpod.rs and src/firewall/inpod.rs; Inpod/Protocol reads a message and its descriptor
--   (src/inpod/protocol.rs); Inpod/Processor processes the streams (src/inpod/workloadmanager.rs).
-- - Outbound: src/proxy/outbound.rs, the request of a connection that leaves (`build_request`) under the
--   egress policies.
-- - Socks: src/proxy/socks5.rs, the negotiation of a SOCKS5 connection.
-- - Dns: src/dns/server.rs, the answer to a request for the addresses of a server; Dns/Names finds the
--   server by the aliases of the name and their wildcards, with as much fuel as the name has labels.
-- - Net: addresses, `byte_to_ip` (src/state/workload.rs) and the names of things.
-- - Common: operations on texts, lists, options, equality as an interface, association lists, results, i32.
-- - Examples: the data of the tests. The Tests module of each part has its tests.
--
-- How they interact: `ProxyState` owns the four stores. Authorization reads the Workload from its
-- store, the Sandbox from the store of bindings, and the bodies that the Workload names from the
-- store of policies; both TCP evaluation and the firewall rules take the same stage, in which a
-- reference that does not resolve is an entry without a body. The choice of an upstream reads
-- Services by VIP and Workloads by UID or address. The updates of Xds are the only writers of the
-- stores; a Workload stages its endpoints in the store of Services until their Service comes. The
-- in-pod manager tells the firewall of each Pod by events.
--
-- State is passed: an operation takes the store and returns the next one beside its result. Hash
-- maps are association lists of which the first entry of a key counts, a set of UIDs is a list without
-- repetitions, shared pointers are their values, strings are the library's, numbers are natural
-- numbers with the bound of the wire type tested where the source tests it. `(offset + index) as
-- i32` wraps. Watch channels are the count of values sent, and a drain channel is a number. Loops are
-- recursions on a list, but for the decoder of capsules, whose fuel is the length of its buffer (each
-- round that goes on takes bytes), and for the wildcards of a name, whose fuel is the number of its
-- labels (each round takes one).
--
-- Parameters: the crate `ipnet` (`IpNetApi`: new, trunc, contains; the parser of CIDRs), the random
-- choices of `rand`, the names of hickory (`NameApi`), the DNS resolver, the decoders of protobuf
-- messages, and what the kernel and the listeners answer to the in-pod manager (`Platform`) and the
-- backends to the firewall controller (`Host`), at each step anew. A theorem on the load balancer asks of the choice only that it gives one of
-- its options, and one on the answers of DNS asks of the shuffle that it keeps what is in its list; one on the
-- search for a server asks of a name that it has one label fewer without its first (`base_name`).
--
-- Not modelled: serialization and formatting, locks and async waits, on-demand discovery, the
-- connection of the xDS client, the proxies' sockets and streams, times of backoff, DNS serving, TLS and
-- certificates, the scripts of the nft and iptables backends, configuration, metrics. They are I/O, calls of other libraries, or parts that no theorem here speaks of.
pub mod Common
pub mod Net
pub mod Policy
pub mod Firewall
pub mod Sandbox
pub mod Workload
pub mod Service
pub mod State
pub mod Connections
pub mod Capsule
pub mod Inpod
pub mod Extensions
pub mod Xds
pub mod Outbound
pub mod Socks
pub mod Dns
pub mod Examples
