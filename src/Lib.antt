-- ===== src/Lib.antt =====
-- A model of zprd, a daemon that joins hosts to one network: it reads IP packets from a tun
-- device and from UDP sockets, routes them by a table that it learns from the packets and from
-- messages of its peers (ZPRN), and hands them to a sender thread.
--
-- The parts, and the files that model them:
-- + libzsneta/oAFa.cxx, socket addresses: Oafa, their order in Oafa/Order.
-- + libzsneta/iAFa.cxx and iAFa.hpp, the addresses inside the network, netmasks and the hash:
--   Iafa, with Iafa/Equality, Iafa/Families and Iafa/Netmask.
-- + src/cksum.c, in_cksum: Cksum, Cksum/Laws.
-- + src/remote_peer.cxx and remote_peer_detail.cxx: Peer. A shared pointer is a number, null is
--   0, and the heap maps it to the object.
-- + src/ping_cache.cxx: PingCache, PingCache/Laws.
-- + src/routes.cxx, the routers of one destination: Routes, with Routes/Find (add, update,
--   delete), Routes/Cleanup and Routes/Swap.
-- + src/zprn.cxx and the packet loop of handle_zprn_v2_pkt of src/main.cxx: Zprn, Zprn/RoundTrip.
-- + src/sender.cxx and sender.hpp: the queue in Sender and Sender/Queue, one round of worker_fn
--   in Sender/Worker, how it joins messages to packets in Sender/Batch; the main thread and the
--   worker as steps in Sender/Threads, with what they keep in Threads/Fifo, Threads/Wakeup and
--   Threads/Finish.
-- + src/resolve.cxx and the configuration file that init_all of src/main.cxx reads: Config.
-- + libzsneta/AFa.cxx and inner_addr_t::to_string: Text, with Text/Port; the print-out of the
--   routes and the arguments of the route hooks in Text/Table.
-- + init_all, setup_server_fd and the part of main before the event loop in src/main.cxx, and
--   src/crw.c: Startup, a program of system calls, with Startup/Files (tun_alloc, the server
--   sockets), Startup/Privileges, Startup/Init, Startup/Main, Startup/Reads and Startup/Hooks;
--   the runs of such a program in Startup/Runs, what they call in Startup/CallKinds,
--   Startup/Commands, Startup/Order, Startup/HookRuns, Startup/Outcome and Startup/Refusal, the
--   descriptors in Startup/Descriptors and Startup/Epoll, the state in which the event loop
--   begins in Startup/Base with Startup/LocalRoutes, the peers and their hooks from there on in
--   Startup/Balance, and what the routes refer to in Startup/Rooted.
-- + src/main.cxx: the vector of peers (x_less, rem_peer, the lookup of main) in Remotes with
--   Remotes/LowerBound, Remotes/Order, Remotes/Sorted, Remotes/Sort, Remotes/Insert and
--   Remotes/Members; the global variables and their helpers in Router, the table in Router/Map;
--   resolve_route in Router/Resolve; send_icmp_msg and
--   send_icmp6_msg in Router/Icmp, with Icmp/Laws; verify_ipv4_packet and verify_ipv6_packet in
--   Router/Verify; the ZPRN handlers in Router/Notify; route_packet in Router/Packet4,
--   route6_packet in Router/Packet6; route_genip_packet and the event loop's receive step in
--   Router/Receive; the periodic cleanup and the messages at start and end in Router/Timers, with
--   Timers/Found, Timers/Forget and Timers/Discard; the event loop in Router/Loop. What a step
--   adds to the send queue is in Router/Queues, Packet4/Queued and Packet6/Queued, what a handler
--   leaves alone in Router/Grows, Grows/Packets and Zprn/Invariant, the invariant over sequences
--   of packets in Router/Invariant, the route hooks in Router/Hooks with Hooks/Balance,
--   Hooks/Cleanup and Hooks/Dests. Which peers the routes come from is in Routes/Owned and
--   Router/Owned, with Owned/Notify, Owned/Packets, Owned/Rooted, Owned/Cleanup and Owned/Rounds.
-- + Bytes and Ip hold the byte arrays and the header fields that all of these use; Prelude holds
--   the shared names, tests and list lemmas. Examples has a run of every result.
--
-- The handlers take the whole state (the record Router of Router.antt) and return it changed, in
-- the order of the source's statements. A call that hands data to the sender appends to the queue
-- in that state, and a call of run_route_hooks to its list of hooks, whose results the source
-- only logs. A result `none` is the source's null pointer, failure, or a write out of bounds, as
-- the comment of the definition says.
--
-- Bounds and fuel: a byte is a number below 256, and where the source stores into 8, 16 or 32
-- bits the model takes the remainder. std::lower_bound halves its range, so the length of the
-- range is fuel enough (lower_bound_lem of Remotes/LowerBound); packet_loop consumes four bytes or more in
-- each round, so the number of bytes left is fuel enough; a number of 16 bits has five digits at
-- most (ui162string). All other loops are recursion on a list.
--
-- Arguments of the definitions: what rand(), clock_gettime(), getaddrinfo() and stoi() return
-- (stoi on texts of numbers that are not negative), the reference counts of shared pointers (each
-- round of the event loop has its own answers of getaddrinfo() and its own counts),
-- hash_combine, which families have a socket, whether setsockopt succeeds, the text of inet_ntop,
-- and the answers of the system calls of the start.
--
-- A start is a tree of calls with an answer to each, so that a theorem about all lists of answers
-- is one about all that the system can do; a missing answer is a failure. The threads of the
-- sender take turns at the critical sections of its mutex, in any order; a call of notify on its
-- condition variable is a step of its own, and wait may come back without one.
--
-- Not modelled: output to the log; what the signal handlers interrupt; the mutex of a single
-- peer; 3rdparty/DeathHandler, the work of others for debug builds. The times of clock_gettime
-- and the latencies, milliseconds in a double, are numbers of nanoseconds. std::sort keeps the
-- order of equal peers in the model, and the maps are lists in the order of their entries, where
-- the source leaves both open. The host is little-endian, with USE_IPV6 and without USE_IPX.
pub mod Bytes
pub mod Cksum
pub mod Config
pub mod Examples
pub mod Iafa
pub mod Ip
pub mod Oafa
pub mod Peer
pub mod PingCache
pub mod Prelude
pub mod Remotes
pub mod Router
pub mod Routes
pub mod Sender
pub mod Zprn
pub mod Startup
pub mod Text
